-- ===== src/Ingestion/Aligned/Rounds.antt =====
-- How a head is recorded, again after a recovery, and the count of these rounds.
use ff_eth_logs.Base.{
  ◌⊎◌, ℕ, zero, suc, ◌≡◌, ◌<◌, inl, inr, true, false, Option, List, [], ◌∷◌, All, sub64, arith,
  refl, Bool-cases, ltb, if◌then◌else◌,
}
use ff_eth_logs.Base.Exec.{Result, ok, err, pure, ◌>>◌}
use ff_eth_logs.Base.Ensures.{
  Ensures, Outcome, Ensures-pure, Ensures-bind, Ensures-if, Ensures-weaken,
}
use ff_eth_logs.Eventset.{lookup}
use ff_eth_logs.Chain.{BlockHead, EthClient}
use ff_eth_logs.Ingestion.Sink.{Sink, SinkLaws}
use ff_eth_logs.Ingestion.Stream.{StreamState, truncate_above, retain_tip}
use ff_eth_logs.Ingestion.Subscriber.{
  start_block_set, wrong_chain, catchup_too_large, discontinuity, unstable_headers, unstable_blocks,
  replan, cancelled, subscription_failed, heads_silent, out_of_rounds, IngestError, World, Ingest,
  provider, sink, fetch, deep_reorg, head_by_number, stored_block_hash, change, recover_deep_reorg,
  no_ancestor_within, no_ancestor_above_genesis, below_coverage,
}
use ff_eth_logs.Ingestion.Record.{
  accept, record_head, record_all, record_at, handle_written, reconcile, record_reconciled,
  reconcile_first, after_reconcile, same_head, is_stored, differs, Verdict,
}
use ff_eth_logs.Ingestion.Aligned.{
  start_block_set, wrong_chain, unstable_blocks, unstable_headers, discontinuity, catchup_too_large,
  Numbers, IsHeight, Aligned, AlignedAt, Fails, head_by_number-Ensures, stored_block_hash-Ensures,
}
use ff_eth_logs.Ingestion.Aligned.Recover.{by_provider, by_sink, recover_deep_reorg-Ensures}
use ff_eth_logs.Ingestion.Aligned.Reconciles.{Replaced, Judged, reconcile-Ensures}

module _ (C : EthClient) (S : Sink) (L : SinkLaws S) (numbers : Numbers C) where
  accept-Ensures :
      (h : BlockHead) (prev : Option BlockHead)
      → IsHeight h.number
      → Ensures (Aligned C S L) (λ _ w. Aligned C S L w) (Fails C S L) (accept C S h prev)
  unfolding truncate_above retain_tip
  accept-Ensures h prev low =
      Ensures-bind {Q = λ _ w. Aligned C S L w}
        (change C S (λ st. if differs prev h then truncate_above h.number st else st))
        (λ _. change C S (retain_tip h.number h))
        (record { at = λ w p. truncated w p (Bool-cases (differs prev h)) })
        (λ _. record { at = λ w p. (p.0, p.1, ground (arith, p.2, low)) })
    where
      truncated :
          (w : World C S)
          → Aligned C S L w
          → ((differs prev h ≡ true) ⊎ (differs prev h ≡ false))
          → Aligned C S L (record w {
            stream = if differs prev h then truncate_above h.number w.stream else w.stream;
          })
      truncated w p (inl e) = rw e (p.0, p.1, low)
      truncated w p (inr e) = rw e p

  record_reconciled-Ensures :
      (n : ℕ) (h : BlockHead) (prev : Option BlockHead) (v : Verdict)
      → IsHeight h.number
      → Ensures
          (Judged C S L numbers n h v)
          (λ _ w. Aligned C S L w)
          (Fails C S L)
          (record_reconciled C S h prev v)
  unfolding truncate_above sub64
  record_reconciled-Ensures n h prev (stale, true) low =
      Ensures-bind {Q = λ _ w. Aligned C S L w}
        (change C S (λ st. truncate_above (sub64 h.number 1) st))
        (λ _. if stale then pure tt else accept C S h prev)
        (record { at = λ w p. (p.0.0.0, p.0.0.1, ground (arith, p.1 refl, low)) })
        (λ _.
          Ensures-if stale (pure tt) (accept C S h prev) (λ e. Ensures-pure tt (λ w p. p))
            (λ e. accept-Ensures h prev low))
  record_reconciled-Ensures n h prev (stale, false) low =
      Ensures-bind {Q = λ _ w. Aligned C S L w} (change C S (λ st. st))
        (λ _. if stale then pure tt else accept C S h prev) (record { at = λ w p. p.0.0 })
        (λ _.
          Ensures-if stale (pure tt) (accept C S h prev) (λ e. Ensures-pure tt (λ w p. p))
            (λ e. accept-Ensures h prev low))

  -- `record`, called again below the height `n`.
  abbrev Again : ℕ → Ingest C S (Unit {0}) → Type 0
  Again n again =
      Ensures (λ w. Aligned C S L w × (w.stream.next < n)) (λ _ w. Aligned C S L w) (Fails C S L)
        again

  recovered-Ensures :
      (n height : ℕ) (again : Ingest C S (Unit {0}))
      → height < n
      → Again n again
      → Ensures
          (AlignedAt C S L n)
          (λ _ w. Aligned C S L w)
          (Fails C S L)
          (recover_deep_reorg C S height >> again)
  recovered-Ensures n height again low go =
      Ensures-bind (recover_deep_reorg C S height) _
        (recover_deep_reorg-Ensures C S L numbers n height)
        (λ _. Ensures-weaken again (λ w p. (p.0, omega (arith, p.1))) (λ _ w p. p) go)

  after_reconcile-Ensures :
      (n : ℕ) (h : BlockHead) (prev : Option BlockHead) (again : Ingest C S (Unit {0}))
      → IsHeight h.number
      → Again n again
      → (r : Result (IngestError S.Error) Verdict) (w : World C S)
      → Outcome (Judged C S L numbers n h) (Replaced C S L numbers n) r w
      → Outcome
          (λ _ w. Aligned C S L w)
          (Fails C S L)
          (after_reconcile C S h prev again r w).0
          (after_reconcile C S h prev again r w).1
  after_reconcile-Ensures n h prev again low go (ok v) w p =
      (record_reconciled-Ensures n h prev v low).at w p
  after_reconcile-Ensures n h prev again low go (err (deep_reorg k)) w p =
      (recovered-Ensures n k again p.1 go).at w p.0
  after_reconcile-Ensures n h prev again low go (err (provider e)) w p = p
  after_reconcile-Ensures n h prev again low go (err (sink e)) w p = absurd p
  after_reconcile-Ensures n h prev again low go (err (fetch e)) w p = absurd p
  after_reconcile-Ensures n h prev again low go (err (catchup_too_large a b c)) w p = absurd p
  after_reconcile-Ensures n h prev again low go (err (no_ancestor_within m)) w p = absurd p
  after_reconcile-Ensures n h prev again low go (err (below_coverage m)) w p = absurd p
  after_reconcile-Ensures n h prev again low go (err no_ancestor_above_genesis) w p = absurd p
  after_reconcile-Ensures n h prev again low go (err (discontinuity m)) w p = absurd p
  after_reconcile-Ensures n h prev again low go (err (unstable_headers m)) w p = absurd p
  after_reconcile-Ensures n h prev again low go (err (unstable_blocks ns)) w p = absurd p
  after_reconcile-Ensures n h prev again low go (err replan) w p = absurd p
  after_reconcile-Ensures n h prev again low go (err cancelled) w p = absurd p
  after_reconcile-Ensures n h prev again low go (err subscription_failed) w p = absurd p
  after_reconcile-Ensures n h prev again low go (err heads_silent) w p = absurd p
  after_reconcile-Ensures n h prev again low go (err (wrong_chain a b)) w p = absurd p
  after_reconcile-Ensures n h prev again low go (err (start_block_set m)) w p = absurd p
  after_reconcile-Ensures n h prev again low go (err out_of_rounds) w p = absurd p

  handle_written-Ensures :
      (n : ℕ) (h : BlockHead) (again : Ingest C S (Unit {0}))
      → h.number < n
      → Again n again
      → Ensures
          (AlignedAt C S L n)
          (λ _ w. Aligned C S L w)
          (Fails C S L)
          (handle_written C S h again)
  unfolding handle_written
  handle_written-Ensures n h again low go =
      Ensures-bind (stored_block_hash C S h.number) _
        (stored_block_hash-Ensures C S L (Fails C S L) n (by_sink C S L numbers n) h.number)
        (λ stored.
          Ensures-if (is_stored stored h.hash) (pure tt) _ (λ e. Ensures-pure tt (λ w p. p.0))
            (λ e.
              Ensures-bind (head_by_number C S h.number) _
                (head_by_number-Ensures C S L (Fails C S L) n (by_provider C S L numbers n) numbers
                  h.number)
                (λ a.
                  Ensures-if (is_stored stored a.hash) (pure tt)
                    (recover_deep_reorg C S h.number >> again) (λ f. Ensures-pure tt (λ w p. p.0.0))
                    (λ f.
                      Ensures-weaken (recover_deep_reorg C S h.number >> again) (λ w p. p.0)
                        (λ _ w p. p) (recovered-Ensures n h.number again low go)))))

  record_at-Ensures :
      (n : ℕ) (h : BlockHead) (again : Ingest C S (Unit {0}))
      → IsHeight h.number
      → Again n again
      → (st : StreamState) → st.next ≡ n
      → Ensures
          (AlignedAt C S L n)
          (λ _ w. Aligned C S L w)
          (Fails C S L)
          (record_at C S h again st)
  record_at-Ensures n h again low go st same =
      let prev = lookup h.number st.heads in
      Ensures-if (ltb h.number st.lower_bound) (pure tt) _ (λ e. Ensures-pure tt (λ w p. p.0))
        (λ e.
          Ensures-if (ltb h.number st.next) _ (reconcile_first C S h prev again)
            (λ f.
              Ensures-if (same_head prev h) (pure tt) (handle_written C S h again)
                (λ g. Ensures-pure tt (λ w p. p.0))
                (λ g. handle_written-Ensures n h again (ground (arith, f, same)) go))
            (λ f. record {
              at = λ w p.
                  after_reconcile-Ensures n h prev again low go (reconcile C S h w).0
                    (reconcile C S h w).1 ((reconcile-Ensures C S L numbers n h).at w p);
            }))

  record_head-Ensures :
      (fuel : ℕ) (h : BlockHead)
      → IsHeight h.number
      → Ensures
          (λ w. Aligned C S L w × (w.stream.next < fuel))
          (λ _ w. Aligned C S L w)
          (Fails C S L)
          (record_head C S fuel h)
  unfolding record_head
  record_head-Ensures zero h low = record { at = λ w p. absurd (omega (arith, p.1)) }
  record_head-Ensures (suc fuel) h low = record {
    at = λ w p.
        (record_at-Ensures w.stream.next h (record_head C S fuel h) low
            (Ensures-weaken (record_head C S fuel h) (λ w' q. (q.0, omega (arith, q.1, p.1)))
              (λ _ w' q. q) (record_head-Ensures fuel h low))
            w.stream refl).at
          w (p.0, refl);
  }

  pub record_all-Ensures :
      (hs : List BlockHead)
      → All (λ h. IsHeight h.number) hs
      → Ensures (Aligned C S L) (λ _ w. Aligned C S L w) (Fails C S L) (record_all C S hs)
  record_all-Ensures [] low = Ensures-pure tt (λ w p. p)
  record_all-Ensures (h ∷ hs) low = record {
    at = λ w p.
        (Ensures-bind (record_head C S (suc w.stream.next) h) (λ _. record_all C S hs)
            (record_head-Ensures (suc w.stream.next) h low.0) (λ _. record_all-Ensures hs low.1)).at
          w (p, omega arith);
  }
