-- ===== src/Ingestion/Aligned/Ranges.antt =====
-- A confirmed range is written batch by batch, and the stream follows the sink.
use ff_eth_logs.Base.{
  ℕ, zero, suc, ◌+◌, ◌-◌, ◌≡◌, ◌≤◌, ◌<◌, inl, inr, u64_mod, add64, sub64, arith, sym, subst, ◌∙◌,
  Bool-cases, leb, String, min,
}
use ff_eth_logs.Base.Exec.{pure}
use ff_eth_logs.Base.Ensures.{Ensures, Ensures-pure, Ensures-bind, Ensures-if, Ensures-weaken}
use ff_eth_logs.Eventset.{Hash}
use ff_eth_logs.Chain.{EthClient}
use ff_eth_logs.Ingestion.Sink.{Sink, SinkLaws}
use ff_eth_logs.Ingestion.Stream.{advance}
use ff_eth_logs.Ingestion.Subscriber.{World, Ingest, change}
use ff_eth_logs.Ingestion.Batch.{ingest_batch}
use ff_eth_logs.Ingestion.Aligned.{Numbers, IsHeight, AlignedAt, Stops}
use ff_eth_logs.Ingestion.Batch.{
  check_context, batch_at, batches_from, ingest_range, ingest_batch, catchup_batch_blocks,
}
use ff_eth_logs.Ingestion.Aligned.Attempts.{ingest_batch-Committed}
use ff_eth_logs.Ingestion.Aligned.Writes.{Batched}

-- The bounds of a batch do not wrap.
batch_bounds :
    (from to_block : ℕ)
    → from ≤ to_block
    → IsHeight to_block
    → (from ≤ min (sub64 (add64 from catchup_batch_blocks) 1) to_block)
      × (min (sub64 (add64 from catchup_batch_blocks) 1) to_block ≤ to_block)
      × (suc (min (sub64 (add64 from catchup_batch_blocks) 1) to_block)
          ≡ min (add64 from catchup_batch_blocks) (suc to_block))
unfolding add64 sub64
batch_bounds from to_block h bound =
    (ground (arith, h, bound), ground arith, ground (arith, h, bound))

module _ (keccak256 : String → Hash) (C : EthClient) (S : Sink) (span_cap : ℕ) (L : SinkLaws S)
    (numbers : Numbers C) (cap_bound : span_cap + 1 < u64_mod) where
  check_context-Ensures :
      (n : ℕ)
      → Ensures
          (AlignedAt C S L n)
          (λ _ w. AlignedAt C S L n w)
          (Stops C S L)
          (check_context keccak256 C S span_cap)
  unfolding check_context
  check_context-Ensures n = record {
    at = λ w p. elim (Bool-cases (C.ctx_err w.provider).0) [
      | inl e ↦ rw e (p.0, tt)
      | inr e ↦ rw e p
    ];
  }

  -- The stream follows the sink past a batch.
  advance-Ensures :
      (from to_block : ℕ)
      → IsHeight to_block
      → Ensures
          (λ w. Batched keccak256 C S span_cap L numbers cap_bound from to_block w)
          (λ _ w. AlignedAt C S L (suc to_block) w)
          (Stops C S L)
          (change C S (advance to_block))
  unfolding advance add64
  advance-Ensures from to_block bound = record {
    at = λ w p.
        let same : add64 to_block 1 ≡ suc to_block = ground (arith, bound) in
        ((subst (L.At w.sink) (sym same) p.0, ground (arith, bound), p.2), same);
  }

  -- Where the stream stands before a round at `from`.
  abbrev Reached : ℕ → ℕ → World C S → Type 0
  Reached from to_block = AlignedAt C S L (min from (suc to_block))

  batch_at-Ensures :
      (from to_block : ℕ) (rest : Ingest C S (Unit {0}))
      → from ≤ to_block
      → IsHeight to_block
      → Ensures
          (Reached (add64 from catchup_batch_blocks) to_block)
          (λ _ w. AlignedAt C S L (suc to_block) w)
          (Stops C S L)
          rest
      → Ensures
          (Reached from to_block)
          (λ _ w. AlignedAt C S L (suc to_block) w)
          (Stops C S L)
          (batch_at keccak256 C S span_cap from to_block rest)
  batch_at-Ensures from to_block rest h bound go =
      let batch_to = min (sub64 (add64 from catchup_batch_blocks) 1) to_block in
      let bounds = batch_bounds from to_block h bound in
      let here : min from (suc to_block) ≡ from = ground (arith, h) in
      let above : suc batch_to ≡ min (add64 from catchup_batch_blocks) (suc to_block) = bounds.2 in
      let bounded : IsHeight batch_to = omega (arith, bounds.1, bound) in
      Ensures-bind (check_context keccak256 C S span_cap) _
        (check_context-Ensures (min from (suc to_block)))
        (λ _.
          Ensures-bind (ingest_batch keccak256 C S span_cap from batch_to) _
            (Ensures-weaken (ingest_batch keccak256 C S span_cap from batch_to)
              (λ w p. (p.0, p.1 ∙ here)) (λ _ w p. p)
              (ingest_batch-Committed keccak256 C S span_cap L numbers cap_bound from batch_to
                bounds.0 bounded))
            (λ _.
              Ensures-bind (change C S (advance batch_to)) (λ _. rest)
                (advance-Ensures from batch_to bounded)
                (λ _. Ensures-weaken rest (λ w p. (p.0, p.1 ∙ above)) (λ _ w p. p) go)))

  batches_from-Ensures :
      (rounds from to_block : ℕ)
      → suc to_block - from < rounds
      → IsHeight to_block
      → Ensures
          (Reached from to_block)
          (λ _ w. AlignedAt C S L (suc to_block) w)
          (Stops C S L)
          (batches_from keccak256 C S span_cap rounds from to_block)
  unfolding batches_from add64
  batches_from-Ensures zero from to_block enough bound = absurd (omega (arith, enough))
  batches_from-Ensures (suc rounds) from to_block enough bound =
      let rest =
        batches_from keccak256 C S span_cap rounds (add64 from catchup_batch_blocks) to_block in
      Ensures-if (leb from to_block) (batch_at keccak256 C S span_cap from to_block rest) (pure tt)
        (λ e. batch_at-Ensures from to_block rest (ground (arith, e)) bound (
          batches_from-Ensures rounds (add64 from catchup_batch_blocks) to_block
            (ground (arith, e, enough, bound)) bound))
        (λ e. Ensures-pure tt (λ w p. (p.0, p.1 ∙ ground (arith, e))))

  -- A range is written to its end, or its ingestion stops.
  pub ingest_range-Ensures :
      (from to_block : ℕ)
      → from ≤ to_block
      → IsHeight to_block
      → Ensures
          (AlignedAt C S L from)
          (λ _ w. AlignedAt C S L (suc to_block) w)
          (Stops C S L)
          (ingest_range keccak256 C S span_cap from to_block)
  unfolding ingest_range
  ingest_range-Ensures from to_block h bound =
      Ensures-weaken (batches_from keccak256 C S span_cap (suc (suc to_block) - from) from to_block)
        (λ w p. (p.0, p.1 ∙ ground (arith, h))) (λ _ w p. p)
        (batches_from-Ensures (suc (suc to_block) - from) from to_block (omega (arith, h)) bound)
