-- ===== src/Ingestion/Aligned/Reconciles.antt =====
-- How a head is reconciled, by the position of the sink and of the stream.
use ff_eth_logs.Base.{
  ◌||◌, ℕ, zero, suc, ◌≡◌, ◌<◌, Bool, true, false, ◌&&◌, not, sub64, arith, ltb, ◌==◌,
}
use ff_eth_logs.Base.Exec.{pure, raise, ◌>>=◌}
use ff_eth_logs.Base.Ensures.{
  Ensures, Ensures-pure, Ensures-raise, Ensures-bind, Ensures-if, Ensures-weaken,
}
use ff_eth_logs.Eventset.{Hash, lookup}
use ff_eth_logs.Chain.{BlockHead, EthClient}
use ff_eth_logs.Ingestion.Sink.{Sink, SinkLaws}
use ff_eth_logs.Ingestion.Stream.{StreamState, retain, nearest_retained_below}
use ff_eth_logs.Ingestion.Subscriber.{
  start_block_set, wrong_chain, catchup_too_large, discontinuity, unstable_headers, unstable_blocks,
  replan, cancelled, subscription_failed, heads_silent, out_of_rounds, IngestError, World, Ingest,
  provider, sink, fetch, deep_reorg, head_by_number, change, position, max_bridge_walk,
  no_ancestor_within, no_ancestor_above_genesis, below_coverage,
}
use ff_eth_logs.Ingestion.Record.{
  reconcile, reconcile_below, round_at, compare_at, step_below, verify_far, is_retained, rejoins,
  differs, Verdict,
}
use ff_eth_logs.Ingestion.Aligned.{
  start_block_set, wrong_chain, unstable_blocks, unstable_headers, discontinuity, catchup_too_large,
  Numbers, AlignedAt, Fails, head_by_number-Ensures,
}
use ff_eth_logs.Ingestion.Aligned.Recover.{by_provider}

module _ (C : EthClient) (S : Sink) (L : SinkLaws S) (numbers : Numbers C) where
  -- How `reconcile` fails: at a height that is written, or in a way that ends ingestion.
  abbrev pub Replaced : ℕ → IngestError S.Error → World C S → Type 0
  Replaced n (deep_reorg k) w = AlignedAt C S L n w × (k < n)
  Replaced n (provider e) w = Fails C S L (provider e) w
  Replaced n (sink e) w = ⊥
  Replaced n (fetch e) w = ⊥
  Replaced n (catchup_too_large a b c) w = ⊥
  Replaced n (no_ancestor_within m) w = ⊥
  Replaced n (below_coverage m) w = ⊥
  Replaced n no_ancestor_above_genesis w = ⊥
  Replaced n (discontinuity m) w = ⊥
  Replaced n (unstable_headers m) w = ⊥
  Replaced n (unstable_blocks ns) w = ⊥
  Replaced n replan w = ⊥
  Replaced n cancelled w = ⊥
  Replaced n subscription_failed w = ⊥
  Replaced n heads_silent w = ⊥
  Replaced n (wrong_chain a b) w = ⊥
  Replaced n (start_block_set m) w = ⊥
  Replaced n out_of_rounds w = ⊥

  abbrev Reconciles : ℕ → Ingest C S Verdict → Type 0
  Reconciles n m = Ensures (AlignedAt C S L n) (λ v w. AlignedAt C S L n w) (Replaced n) m

  retain-Ensures :
      (n k : ℕ) (h : BlockHead)
      → Ensures
          (AlignedAt C S L n)
          (λ _ w. AlignedAt C S L n w)
          (Replaced n)
          (change C S (retain k h))
  unfolding retain
  retain-Ensures n k h = record { at = λ w p. p }

  step_below-Reconciles :
      (n k : ℕ) (expected : Hash) (replaced : Bool) (lower : Hash → Bool → Ingest C S Verdict)
      → ((x : Hash) (b : Bool) → Reconciles n (lower x b))
      → (h : BlockHead) → Reconciles n (step_below C S k expected h replaced lower)
  step_below-Reconciles n k expected replaced lower go h =
      Ensures-bind (change C S (retain k h)) _ (retain-Ensures n k h) (λ _.
        Ensures-if (h.hash == expected) (lower h.parent_hash replaced) (pure (true, replaced))
          (λ e. go h.parent_hash replaced) (λ e. Ensures-pure (true, replaced) (λ w p. p)))

  round_at-Reconciles :
      (n k : ℕ) (bridge : Bool) (expected : Hash) (replaced : Bool)
      (lower : Hash → Bool → Ingest C S Verdict)
      → ((x : Hash) (b : Bool) → Reconciles n (lower x b))
      → (st : StreamState) → st.next ≡ n
      → Reconciles n (round_at C S bridge k expected replaced lower st)
  round_at-Reconciles n k bridge expected replaced lower go st same =
      let retained = lookup k st.heads in
      Ensures-if
        (rejoins expected retained || (not (is_retained retained) && (not bridge || ltb k st.next)))
        (pure (false, replaced))
        (head_by_number C S k >>= compare_at C S st.next k expected replaced retained lower)
        (λ e. Ensures-pure (false, replaced) (λ w p. p))
        (λ e.
          Ensures-bind (head_by_number C S k)
            (compare_at C S st.next k expected replaced retained lower)
            (head_by_number-Ensures C S L (Replaced n) n (by_provider C S L numbers n) numbers k)
            (λ h.
              Ensures-weaken (compare_at C S st.next k expected replaced retained lower h)
                (λ w p. p.0) (λ v w p. p)
                (Ensures-if (differs retained h) _ (step_below C S k expected h replaced lower)
                  (λ d.
                    Ensures-if (ltb k st.next) (raise (deep_reorg k))
                      (step_below C S k expected h true lower)
                      (λ l. Ensures-raise (deep_reorg k) (λ w p. (p, ground (arith, l, same))))
                      (λ l. step_below-Reconciles n k expected true lower go h))
                  (λ d. step_below-Reconciles n k expected replaced lower go h))))

  position-Reconciles :
      {A : Type 0} {Q : A → World C S → Type 0} {R : IngestError S.Error → World C S → Type 0}
      (n : ℕ) (f : StreamState → Ingest C S A)
      → ((st : StreamState) → st.next ≡ n → Ensures (AlignedAt C S L n) Q R (f st))
      → Ensures (AlignedAt C S L n) Q R (position C S >>= f)
  position-Reconciles n f h = record { at = λ w p. (h w.stream p.1).at w p }

  reconcile_below-Reconciles :
      (n k : ℕ) (bridge : Bool) (expected : Hash) (replaced : Bool)
      → Reconciles n (reconcile_below C S bridge k expected replaced)
  unfolding reconcile_below
  reconcile_below-Reconciles n zero bridge expected replaced =
      Ensures-pure (false, replaced) (λ w p. p)
  reconcile_below-Reconciles n (suc k) bridge expected replaced =
      position-Reconciles n (round_at C S bridge k expected replaced (reconcile_below C S bridge k))
        (round_at-Reconciles n k bridge expected replaced (reconcile_below C S bridge k)
          (reconcile_below-Reconciles n k bridge))

  -- What `reconcile` says of a head: it replaces none below genesis.
  abbrev pub Judged : ℕ → BlockHead → Verdict → World C S → Type 0
  Judged n h v w = AlignedAt C S L n w × (v.1 ≡ true → 0 < h.number)

  verify_far-Ensures :
      (n : ℕ) (h : BlockHead)
      → Ensures (AlignedAt C S L n) (Judged n h) (Replaced n) (verify_far C S h)
  verify_far-Ensures n h =
      Ensures-bind (head_by_number C S h.number) _
        (head_by_number-Ensures C S L (Replaced n) n (by_provider C S L numbers n) numbers h.number)
        (λ a. Ensures-pure (not (a.hash == h.hash), false) (λ w p. (p.0, λ e. cc e)))

  pub reconcile-Ensures :
      (n : ℕ) (h : BlockHead)
      → Ensures (AlignedAt C S L n) (Judged n h) (Replaced n) (reconcile C S h)
  unfolding reconcile
  reconcile-Ensures n h =
      Ensures-if (h.number == 0) (pure (false, false)) _
        (λ e. Ensures-pure (false, false) (λ w p. (p, λ f. cc f)))
        (λ e. position-Reconciles n _ (λ st same.
          Ensures-if
            (is_retained (lookup (sub64 st.next 1) st.heads)
              && ltb max_bridge_walk (sub64 h.number (nearest_retained_below h.number st.heads)))
            (verify_far C S h) _ (λ f. verify_far-Ensures n h)
            (λ f.
              Ensures-weaken
                (reconcile_below C S (is_retained (lookup (sub64 st.next 1) st.heads)) h.number
                  h.parent_hash false)
                (λ w p. p) (λ v w p. (p, λ g. ground (arith, e)))
                (reconcile_below-Reconciles n h.number
                  (is_retained (lookup (sub64 st.next 1) st.heads)) h.parent_hash false))))
