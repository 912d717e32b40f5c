-- ===== src/Ingestion/Aligned/Follows.antt =====
-- The loop of `Subscriber.Run`, by the position of the sink and of the stream.
use ff_eth_logs.Base.{
  false, ℕ, suc, ◌+◌, ◌≡◌, ◌<◌, inl, inr, Option, none, some, List, [], ◌∷◌, All, u64_mod, add64,
  sub64, arith, refl, subst, ltb, ◌==◌, String,
}
use ff_eth_logs.Base.Exec.{Result, ok, err, Result-cases, pure, raise}
use ff_eth_logs.Base.Ensures.{
  Ensures, Outcome, Ensures-pure, Ensures-raise, Ensures-bind, Ensures-if, Ensures-weaken,
}
use ff_eth_logs.Eventset.{Hash}
use ff_eth_logs.Chain.{BlockHead, EthClient}
use ff_eth_logs.Ingestion.Sink.{Sink, SinkLaws}
use ff_eth_logs.Ingestion.Stream.{retain, advance}
use ff_eth_logs.Ingestion.Subscriber.{
  recover_deep_reorg, cancelled, subscription_failed, heads_silent, replan, provider, sink, fetch,
  deep_reorg, discontinuity, no_ancestor_above_genesis, out_of_rounds, wrong_chain, unstable_blocks,
  unstable_headers, below_coverage, no_ancestor_within, catchup_too_large, start_block_set,
  IngestError, World, Ingest, head_by_number, position,
}
use ff_eth_logs.Ingestion.Aligned.{
  IsPosition, stored_block_hash, Numbers, IsHeight, Aligned, AlignedAt, Fails, Stops, Ends,
  Interrupts, head_by_number-Ensures, stored_block_hash-Ensures,
}
use ff_eth_logs.Ingestion.Aligned.Recover.{by_provider, by_sink, recover_deep_reorg-Ensures}
use ff_eth_logs.Ingestion.Batch.{ingest_range}
use ff_eth_logs.Ingestion.Subscriber.{Config}
use ff_eth_logs.Ingestion.Plan.{plan_range}
use ff_eth_logs.Ingestion.Run.{
  subscribe_new_head, Event, heads, context_done, subscription_error, silence, stream_from,
  anchor_at, agrees, verify_resume_point, is_replan, resume_at, after_range, follow, handle_event,
  handle_events, follow_chain,
}
use ff_eth_logs.Ingestion.Aligned.Plans.{Planned, plan_range-Ensures}
use ff_eth_logs.Ingestion.Aligned.Ranges.{ingest_range-Ensures}

-- The heads of an event do not come near 2^64.
abbrev pub IsLow : Event → Type 0
IsLow (heads h queued) = All (λ x. IsHeight x.number) (h ∷ queued)
IsLow context_done = Unit
IsLow subscription_error = Unit
IsLow silence = Unit

module _ (keccak256 : String → Hash) (C : EthClient) (S : Sink) (config : Config) (span_cap : ℕ)
    (L : SinkLaws S) (numbers : Numbers C) (cap_bound : span_cap + 1 < u64_mod) where
  abbrev Follows : Ingest C S (Unit {0}) → Type 0
  Follows = Ensures (Aligned C S L) (λ _ w. Aligned C S L w) (Fails C S L)

  -- What is left once the call for a new plan is handled.
  not_replan :
      (e : IngestError S.Error)
      → is_replan keccak256 C S config span_cap e ≡ false
      → Interrupts e
      → Ends e
  not_replan (provider x) h i = i
  not_replan (sink x) h i = i
  not_replan (fetch x) h i = i
  not_replan (catchup_too_large a b c) h i = i
  not_replan (no_ancestor_within m) h i = i
  not_replan (below_coverage m) h i = i
  not_replan no_ancestor_above_genesis h i = i
  not_replan (deep_reorg m) h i = i
  not_replan (discontinuity m) h i = i
  not_replan (unstable_headers m) h i = i
  not_replan (unstable_blocks ns) h i = i
  not_replan replan h i = absurd (cc h)
  not_replan cancelled h i = i
  not_replan subscription_failed h i = i
  not_replan heads_silent h i = i
  not_replan (wrong_chain a b) h i = i
  not_replan (start_block_set m) h i = i
  not_replan out_of_rounds h i = i

  after_range-Ensures :
      (to_block : ℕ)
      → IsHeight to_block
      → (r : Result (IngestError S.Error) (Unit {0})) (w : World C S)
      → Outcome (λ _ w. AlignedAt C S L (suc to_block) w) (Stops C S L) r w
      → Outcome
          (λ _ w. Aligned C S L w)
          (Fails C S L)
          (after_range keccak256 C S config span_cap to_block r w).0
          (after_range keccak256 C S config span_cap to_block r w).1
  unfolding advance add64
  after_range-Ensures to_block bound (ok u) w p =
      let same : w.stream.next ≡ add64 to_block 1 = ground (arith, bound, p.1) in
      (subst (L.At w.sink) same p.0.0, ground (arith, bound), p.0.2)
  after_range-Ensures to_block bound (err e) w p =
      (Ensures-if {R = Fails C S L} {P = Stops C S L e} {Q = λ _ w. Aligned C S L w}
          (is_replan keccak256 C S config span_cap e) (pure tt) (raise e)
          (λ f. Ensures-pure tt (λ w q. q.0))
          (λ f. Ensures-raise e (λ w q. (q.0, not_replan e f q.1)))).at
        w p

  follow-Ensures :
      (o : Option (ℕ × ℕ))
      → Ensures
          (Planned C S config L numbers o)
          (λ _ w. Aligned C S L w)
          (Fails C S L)
          (follow keccak256 C S config span_cap o)
  follow-Ensures none = record { at = λ w p. p }
  follow-Ensures (some (from, to_block)) = record {
    at = λ w p.
        let bound : IsHeight to_block = omega (arith, p.2, p.0.0.2) in
        after_range-Ensures to_block bound (ingest_range keccak256 C S span_cap from to_block w).0
          (ingest_range keccak256 C S span_cap from to_block w).1
          ((ingest_range-Ensures keccak256 C S span_cap L numbers cap_bound from to_block p.1
              bound).at
            w p.0);
  }

  handle_event-Ensures :
      (e : Event) → IsLow e → Follows (handle_event keccak256 C S config span_cap e)
  unfolding handle_event
  handle_event-Ensures (heads h queued) low =
      Ensures-bind (plan_range C S config (h ∷ queued)) (follow keccak256 C S config span_cap)
        (plan_range-Ensures C S config L numbers (h ∷ queued) low) follow-Ensures
  handle_event-Ensures context_done low = Ensures-raise cancelled (λ w p. (p, tt))
  handle_event-Ensures subscription_error low = Ensures-raise subscription_failed (λ w p. (p, tt))
  handle_event-Ensures silence low =
      Ensures-if (ltb 0 config.head_timeout) (raise heads_silent) (pure tt)
        (λ e. Ensures-raise heads_silent (λ w p. (p, tt))) (λ e. Ensures-pure tt (λ w p. p))

  handle_events-Ensures :
      (es : List Event) → All IsLow es → Follows (handle_events keccak256 C S config span_cap es)
  unfolding handle_events
  handle_events-Ensures [] low = Ensures-pure tt (λ w p. p)
  handle_events-Ensures (e ∷ es) low =
      Ensures-bind (handle_event keccak256 C S config span_cap e) _ (handle_event-Ensures e low.0)
        (λ _. handle_events-Ensures es low.1)

  resume-Ensures :
      (n : ℕ) (stored : Option Hash) (canonical : BlockHead)
      → Ensures
          (AlignedAt C S L n)
          (λ _ w. Aligned C S L w)
          (Fails C S L)
          (resume_at keccak256 C S config span_cap (sub64 n 1) stored canonical)
  unfolding retain sub64
  resume-Ensures n stored canonical =
      Ensures-if (agrees keccak256 C S config span_cap stored canonical)
        (anchor_at keccak256 C S config span_cap (sub64 n 1) canonical) _
        (λ e. record { at = λ w p. (p.0.0, p.0.1, ground (arith, p.0.1, p.1)) })
        (λ e.
          Ensures-bind (recover_deep_reorg C S (sub64 n 1)) _
            (recover_deep_reorg-Ensures C S L numbers n (sub64 n 1))
            (λ _. record { at = λ w p. p.0 }))

  verify_resume_point-Ensures : Follows (verify_resume_point keccak256 C S config span_cap)
  unfolding verify_resume_point
  verify_resume_point-Ensures = record {
    at = λ w p.
        let n = w.stream.next in
        (Ensures-if (n == 0) (pure tt) _ (λ e. Ensures-pure tt (λ w p. p.0))
            (λ e.
              Ensures-bind (stored_block_hash C S (sub64 n 1)) _
                (stored_block_hash-Ensures C S L (Fails C S L) n (by_sink C S L numbers n)
                  (sub64 n 1))
                (λ stored.
                  Ensures-bind (head_by_number C S (sub64 n 1)) _
                    (head_by_number-Ensures C S L (Fails C S L) n (by_provider C S L numbers n)
                      numbers (sub64 n 1))
                    (λ canonical.
                      Ensures-weaken
                        (resume_at keccak256 C S config span_cap (sub64 n 1) stored canonical)
                        (λ w p. p.0) (λ _ w p. p) (resume-Ensures n stored canonical))))).at
          w (p, refl);
  }

  subscribe-Ensures : Follows (subscribe_new_head keccak256 C S config span_cap)
  unfolding subscribe_new_head
  subscribe-Ensures = record {
    at = λ w p. elim (Result-cases (C.subscribe_new_head w.provider).0) [
      | inl (u, e) ↦ rw e p
      | inr (x, e) ↦ rw e (p, tt)
    ];
  }

  -- For any provider whose heads have the heights they are asked for, any sink that keeps the laws,
  -- any outcome of their calls and any events whose heads do not come near 2^64: from a sink whose next
  -- block is the start block, above genesis, ingestion ends with the sink's next block the stream's.
  -- If it fails, it is with an error that ends ingestion: no reorganisation and no break between heads
  -- escapes its loops, no loop runs out of rounds, and no fetch fails over a block too dense to fetch.
  -- The span cap is below 2^64 - 1.
  pub follow_chain-Aligned :
      (from_block : ℕ) (events : List Event) (w : World C S)
      → L.At w.sink from_block
      → IsPosition from_block
      → All IsLow events
      → Outcome
          (λ _ w'. Aligned C S L w')
          (Fails C S L)
          (follow_chain keccak256 C S config span_cap from_block events w).0
          (follow_chain keccak256 C S config span_cap from_block events w).1
  unfolding follow_chain
  follow_chain-Aligned from_block events w at position low =
      (Ensures-bind (subscribe_new_head keccak256 C S config span_cap) _ subscribe-Ensures (λ _.
          Ensures-bind (verify_resume_point keccak256 C S config span_cap) _
            verify_resume_point-Ensures (λ _. handle_events-Ensures events low))).at
        (record w { stream = stream_from from_block }) (at, position, omega arith)
