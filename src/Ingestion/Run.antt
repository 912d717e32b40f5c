-- ===== src/Ingestion/Run.antt =====
-- internal/ingestion: the loop of `Subscriber.Run` and the runner. What the loop waits for comes as a
-- list of events, in the order in which its `select` takes them: the heads that were queued, or what
-- ends the loop. The watchdog's timer is not modelled beyond its event.
use ff_eth_logs.Base.{
  ℕ, List, [], ◌∷◌, Option, none, some, Bool, true, false, String, ltb, ◌==◌, add64, sub64, min,
  if◌then◌else◌,
}
use ff_eth_logs.Base.Exec.{Result, ok, err, pure, raise, ◌>>=◌, ◌>>◌}
use ff_eth_logs.Eventset.{Hash}
use ff_eth_logs.Chain.{RpcError, BlockHead, EthClient}
use ff_eth_logs.Ingestion.Sink.{Sink}
use ff_eth_logs.Ingestion.Stream.{StreamState, retain, advance}
use ff_eth_logs.Ingestion.Subscriber.{
  provider, of_sink, Config, IngestError, Ingest, of_provider, head_by_number, stored_block_hash,
  position, change, recover_deep_reorg, replan, cancelled, subscription_failed, heads_silent,
  wrong_chain, start_block_set,
}
use ff_eth_logs.Ingestion.Plan.{plan_range}
use ff_eth_logs.Ingestion.Batch.{ingest_range}

-- A case of the `select`.
pub data Event : Type 0 where
  -- A head, and those queued behind it.
  heads : BlockHead → List BlockHead → Event
  context_done subscription_error silence : Event

abbrev pub stream_from : ℕ → StreamState
stream_from n = record { next = n; lower_bound = n; tip = 0; heads = [] }

module _ (keccak256 : String → Hash) (C : EthClient) (S : Sink) (config : Config)
    (span_cap : ℕ) where
  abbrev pub anchor_at : ℕ → BlockHead → Ingest C S (Unit {0})
  anchor_at last canonical = change C S (λ st. record (retain last canonical st) { tip = last })

  abbrev pub agrees : Option Hash → BlockHead → Bool
  agrees none canonical = true
  agrees (some stored) canonical = canonical.hash == stored

  -- The end of `verifyResumePoint`, given what is stored for the last block and its canonical head.
  abbrev pub resume_at : ℕ → Option Hash → BlockHead → Ingest C S (Unit {0})
  resume_at last stored canonical =
      if agrees stored canonical
      then anchor_at last canonical
      else recover_deep_reorg C S last
        >> change C S (λ s. record s { lower_bound = min s.lower_bound s.next })

  -- `verifyResumePoint`.
  unfoldable pub verify_resume_point : Ingest C S (Unit {0})
  unfolding stored_block_hash head_by_number recover_deep_reorg retain
  verify_resume_point = do
    st ← position C S
    if st.next == 0 then pure tt else do
      stored ← stored_block_hash C S (sub64 st.next 1)
      canonical ← head_by_number C S (sub64 st.next 1)
      resume_at (sub64 st.next 1) stored canonical

  abbrev pub is_replan : IngestError S.Error → Bool
  is_replan replan = true
  is_replan e = false

  -- What the loop makes of the outcome of `ingestRange`.
  abbrev pub after_range : ℕ → Result (IngestError S.Error) (Unit {0}) → Ingest C S (Unit {0})
  after_range to_block (ok _) = change C S (advance to_block)
  after_range to_block (err e) = if is_replan e then pure tt else raise e

  abbrev pub follow : Option (ℕ × ℕ) → Ingest C S (Unit {0})
  follow none w = (ok tt, w)
  follow (some (from, to_block)) w =
      let outcome = ingest_range keccak256 C S span_cap from to_block w in
      after_range to_block outcome.0 outcome.1

  -- A round of the loop.
  unfoldable pub handle_event : Event → Ingest C S (Unit {0})
  unfolding plan_range ingest_range advance
  handle_event (heads h queued) = plan_range C S config (h ∷ queued) >>= follow
  handle_event context_done = raise cancelled
  handle_event subscription_error = raise subscription_failed
  handle_event silence = if ltb 0 config.head_timeout then raise heads_silent else pure tt

  unfoldable pub handle_events : List Event → Ingest C S (Unit {0})
  unfolding handle_event
  handle_events [] = pure tt
  handle_events (e ∷ es) = handle_event e >> handle_events es

  unfoldable pub subscribe_new_head : Ingest C S (Unit {0})
  subscribe_new_head w =
      let answer = C.subscribe_new_head w.provider in
      (of_provider C S answer.0, record w { provider = answer.1 })

  -- `Subscriber.Run`, with the events that its loop meets. The position is a local variable, set here
  -- before the subscription, which does not read it.
  unfoldable pub follow_chain : ℕ → List Event → Ingest C S (Unit {0})
  unfolding subscribe_new_head verify_resume_point handle_events
  follow_chain from_block events = do
    change C S (λ st. stream_from from_block)
    subscribe_new_head
    verify_resume_point
    handle_events events

  abbrev pub matching : ℕ → Result RpcError ℕ → Result (IngestError S.Error) (Unit {0})
  matching want (ok got) = if got == want then ok tt else err (wrong_chain got want)
  matching want (err e) = err (provider e)

  -- `verifyChain`.
  unfoldable pub verify_chain : ℕ → Ingest C S (Unit {0})
  verify_chain want w =
      let answer = C.chain_id w.provider in
      (matching want answer.0, record w { provider = answer.1 })

  unfoldable pub latest_block : Ingest C S ℕ
  latest_block w =
      let answer = C.block_number w.provider in
      (of_provider C S answer.0, record w { provider = answer.1 })

  -- `resolveStartBlock`, given the cursor of the store.
  unfoldable pub start_from : ℕ → Option ℕ → Ingest C S ℕ
  unfolding latest_block
  start_from start_block (some cursor) =
      if start_block == 0 then pure (add64 cursor 1) else raise (start_block_set cursor)
  start_from start_block none = if start_block == 0 then latest_block else pure start_block

  unfoldable pub read_cursor : Ingest C S (Option ℕ)
  read_cursor w =
      let answer = S.cursor w.sink in (of_sink C S answer.0, record w { sink = answer.1 })

  -- `resolveStartBlock`.
  unfoldable pub resolve_start_block : ℕ → Ingest C S ℕ
  unfolding read_cursor start_from
  resolve_start_block start_block = do cursor ← read_cursor; start_from start_block cursor

  -- `Run` of the runner, with the chain and the start block of its configuration.
  unfoldable pub run : ℕ → ℕ → List Event → Ingest C S (Unit {0})
  unfolding verify_chain resolve_start_block follow_chain
  run chain_id start_block events = do
    verify_chain chain_id
    from ← resolve_start_block start_block
    follow_chain from events
