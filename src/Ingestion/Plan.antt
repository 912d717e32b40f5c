-- ===== src/Ingestion/Plan.antt =====
-- internal/ingestion/subscriber.go: which blocks the recorded heads confirm.
use ff_eth_logs.Base.{
  ℕ, List, [], ◌∷◌, Option, none, some, ◌&&◌, ltb, leb, add64, sub64, max, if◌then◌else◌,
}
use ff_eth_logs.Base.Exec.{pure, raise, ◌>>=◌, ◌>>◌}
use ff_eth_logs.Eventset.{lookup}
use ff_eth_logs.Chain.{BlockHead, EthClient}
use ff_eth_logs.Ingestion.Sink.{Sink}
use ff_eth_logs.Ingestion.Stream.{StreamState, retain}
use ff_eth_logs.Ingestion.Subscriber.{
  catchup_too_large, Config, Ingest, head_by_number, position, change,
}
use ff_eth_logs.Ingestion.Record.{record_head, record_all}

module _ (C : EthClient) (S : Sink) (config : Config) where
  -- `checkCatchupBound`.
  unfoldable pub check_catchup_bound : ℕ → ℕ → Ingest C S (Unit {0})
  check_catchup_bound next tip =
      let bound = config.max_catchup_blocks in
      if ltb 0 bound && (leb next tip && ltb bound (add64 (sub64 tip next) 1))
      then raise (catchup_too_large next tip bound)
      else pure tt

  unfoldable pub highest : ℕ → List BlockHead → ℕ
  highest tip [] = tip
  highest tip (h ∷ hs) = highest (max tip h.number) hs

  -- The head of the last block of the range, fetched if it is not retained.
  abbrev pub with_boundary : ℕ → ℕ → Option BlockHead → Ingest C S (Option (ℕ × ℕ))
  with_boundary from to_block (some h) = pure (some (from, to_block))
  with_boundary from to_block none = head_by_number C S to_block >>= λ boundary.
      change C S (retain to_block boundary) >> pure (some (from, to_block))

  abbrev pub confirmed : StreamState → Ingest C S (Option (ℕ × ℕ))
  confirmed st =
      let to_block = sub64 st.tip config.confirmation_blocks in
      if ltb st.tip config.confirmation_blocks
      then pure none
      else if ltb to_block st.next
      then pure none
      else with_boundary st.next to_block (lookup to_block st.heads)

  -- `planRange`: the range to write, if the chain has confirmed a block.
  unfoldable pub plan_range : List BlockHead → Ingest C S (Option (ℕ × ℕ))
  unfolding check_catchup_bound highest record_head lookup retain head_by_number
  plan_range batch = do
    before ← position C S
    check_catchup_bound before.next (highest before.tip batch)
    record_all C S batch
    st ← position C S
    check_catchup_bound st.next st.tip
    confirmed st
