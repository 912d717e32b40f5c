-- ===== src/Ingestion/Guards.antt =====
-- What a run asks before it follows the chain: the chain of its provider, and that no start block is
-- configured against a cursor.
use ff_eth_logs.Base.{
  sym, ◌∙◌, ℕ, ◌≡◌, ◌⊎◌, inl, inr, Option, none, some, List, String, arith, refl, ap, ◌==◌,
  Bool-cases,
}
use ff_eth_logs.Base.Exec.{Result, ok, err, continue, ◌>>=◌}
use ff_eth_logs.Eventset.{Hash}
use ff_eth_logs.Chain.{EthClient, RpcError}
use ff_eth_logs.Ingestion.Sink.{Sink}
use ff_eth_logs.Ingestion.Subscriber.{Config, IngestError, World, Ingest, of_sink}
use ff_eth_logs.Ingestion.Run.{
  Event, run, matching, verify_chain, resolve_start_block, read_cursor, start_from, follow_chain,
}

module _ (keccak256 : String → Hash) (C : EthClient) (S : Sink) (config : Config) (span_cap : ℕ)
    (chain_id start_block : ℕ) (events : List Event) (w : World C S) where
  -- The run fails, and the sink was asked for its cursor at most.
  abbrev pub Refused : Result (IngestError S.Error) (Unit {0}) × World C S → Type 0
  Refused (r, w') =
      ((e : IngestError S.Error) × (r ≡ err e))
      × ((w'.sink ≡ w.sink) ⊎ (w'.sink ≡ (S.cursor w.sink).1))

  -- The provider is of the chain, and there is no start block or no cursor.
  abbrev pub Admitted : Type 0
  Admitted =
      ((C.chain_id w.provider).0 ≡ ok chain_id)
      × ((start_block ≡ 0) ⊎ ((S.cursor w.sink).0 ≡ ok none))

  abbrev Guarded : Result (IngestError S.Error) (Unit {0}) × World C S → Type 0
  Guarded r = Refused r ⊎ Admitted

  abbrev following : ℕ → Ingest C S (Unit {0})
  following n = follow_chain keccak256 C S config span_cap n events

  after_cursor :
      ((C.chain_id w.provider).0 ≡ ok chain_id)
      → (w' : World C S) → w'.sink ≡ (S.cursor w.sink).1
      → (c : Result S.Error (Option ℕ)) → (S.cursor w.sink).0 ≡ c
      → (let from =
            continue (of_sink C S c) (start_from keccak256 C S config span_cap start_block) w' in
          Guarded (continue from.0 following from.1))
  unfolding start_from
  after_cursor same w' e (err x) f = inl ((_, refl), inr e)
  after_cursor same w' e (ok none) f = inr (same, inr f)
  after_cursor same w' e (ok (some c)) f = elim (Bool-cases (start_block == 0)) [
    | inl h ↦ inr (same, inl (ground (arith, h)))
    | inr h ↦ rw h (inl ((_, refl), inr e))
  ]

  after_chain :
      (w' : World C S)
      → w'.sink ≡ w.sink
      → (a : Result RpcError ℕ) → (C.chain_id w.provider).0 ≡ a
      → Guarded (
          continue
            (matching keccak256 C S config span_cap chain_id a)
            (λ _. resolve_start_block keccak256 C S config span_cap start_block >>= following)
            w')
  unfolding resolve_start_block read_cursor
  after_chain w' e (err x) f = inl ((_, refl), inl e)
  after_chain w' e (ok got) f = elim (Bool-cases (got == chain_id)) [
    | inl h ↦
        let same : got ≡ chain_id = ground (arith, h) in
        rw h (
          after_cursor (f ∙ ap ok same) (record w' { sink = (S.cursor w'.sink).1 })
            (ap (λ s. (S.cursor s).1) e) (S.cursor w'.sink).0 (ap (λ s. (S.cursor s).0) (sym e)))
    | inr h ↦ rw h (inl ((_, refl), inl e))
  ]

  -- A run either fails with nothing asked of the sink but its cursor, or its provider is of the
  -- configured chain and no start block is configured against a cursor.
  pub run-Guarded :
      Refused (run keccak256 C S config span_cap chain_id start_block events w) ⊎ Admitted
  unfolding run verify_chain
  run-Guarded =
      after_chain (record w { provider = (C.chain_id w.provider).1 }) refl (C.chain_id w.provider).0
        refl
