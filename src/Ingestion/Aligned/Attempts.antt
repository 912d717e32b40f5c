-- ===== src/Ingestion/Aligned/Attempts.antt =====
-- The attempts at a batch, and how each of them ends.
use ff_eth_logs.Base.{
  ℕ, zero, suc, ◌+◌, ◌-◌, ◌≡◌, ◌≤◌, ◌<◌, inl, inr, Bool, true, false, ◌&&◌, Option, none, List, [],
  ◌∷◌, u64_mod, sub64, arith, refl, sym, subst, leb, ◌==◌, elem, String,
}
use ff_eth_logs.Base.Exec.{Result, ok, err, raise, ◌>>◌}
use ff_eth_logs.Base.Ensures.{
  Ensures, Outcome, Ensures-raise, Ensures-bind, Ensures-if, Ensures-weaken,
}
use ff_eth_logs.Eventset.{Hash, lookup}
use ff_eth_logs.Chain.{BlockHead, EthClient, Log}
use ff_eth_logs.Logstore.{Block}
use ff_eth_logs.Ingestion.Sink.{Sink, SinkLaws}
use ff_eth_logs.Ingestion.Stream.{forget}
use ff_eth_logs.Ingestion.Subscriber.{
  unstable_blocks, unstable_headers, IngestError, World, Ingest, change,
}
use ff_eth_logs.Ingestion.Batch.{
  commit, ingest_batch, attempts, with_metadata, after_metadata, with_gap, write_range, fetch_range,
  boundary_moved, disagreeing_heights, block_metadata, moved_heights,
}
use ff_eth_logs.Ingestion.Aligned.{Numbers, IsHeight, AlignedAt, Stops}
use ff_eth_logs.Ingestion.Aligned.Batches.{Described, Unread}
use ff_eth_logs.Ingestion.Batch.{kept_logs}
use ff_eth_logs.Ingestion.Aligned.Commits.{Agreeing, block_metadata-Ensures, moved_heights-Ensures}
use ff_eth_logs.Ingestion.Aligned.Writes.{
  MetadataError-cases, unlinked, Fetched, after_fetch, fetch_range-Ensures, boundary_moved-Ensures,
  write_range-Ensures, Batched, Attempts, Confirms,
}

module _ (keccak256 : String → Hash) (C : EthClient) (S : Sink) (span_cap : ℕ) (L : SinkLaws S)
    (numbers : Numbers C) (cap_bound : span_cap + 1 < u64_mod) where
  -- Heads are dropped, and there is another attempt.
  retry-Ensures :
      (from to_block : ℕ) (gone : ℕ → Bool) (again : Ingest C S (Unit {0}))
      → Attempts keccak256 C S span_cap L numbers cap_bound from to_block again
      → Attempts keccak256 C S span_cap L numbers cap_bound from to_block
          (change C S (forget gone) >> again)
  unfolding forget
  retry-Ensures from to_block gone again go =
      Ensures-bind {Q = λ _ w. AlignedAt C S L from w} (change C S (forget gone)) (λ _. again)
        (record { at = λ w p. p }) (λ _. go)

  module _ (from to_block : ℕ) (h : from ≤ to_block) (bound : IsHeight to_block)
      (again : Ingest C S (Unit {0})) where
    commit-Ensures :
        (last : Bool)
        → (last ≡ false → Attempts keccak256 C S span_cap L numbers cap_bound from to_block again)
        → (logs : List Log) (blocks : List Block) (moved : List ℕ)
        → Described (suc to_block - from) from none blocks
        → (fetched : Fetched keccak256 C S span_cap L numbers cap_bound from to_block logs)
        → Ensures
            (Confirms keccak256 C S span_cap L numbers cap_bound
              (after_fetch keccak256 C S span_cap L numbers cap_bound from to_block fetched.0)
              from
              to_block
              logs
              blocks
              moved)
            (λ _ w. Batched keccak256 C S span_cap L numbers cap_bound from to_block w)
            (Stops C S L)
            (commit keccak256 C S span_cap from to_block logs blocks again last moved)
    commit-Ensures last go logs blocks [] (hs, same, linked, whole) fetched = record {
      at = λ w p.
          subst
            (λ bs.
              Outcome (λ _ w. Batched keccak256 C S span_cap L numbers cap_bound from to_block w)
                (Stops C S L)
                (write_range keccak256 C S span_cap from to_block bs
                  (kept_logs keccak256 C S span_cap logs) w).0
                (write_range keccak256 C S span_cap from to_block bs
                  (kept_logs keccak256 C S span_cap logs) w).1)
            (sym same)
            ((write_range-Ensures keccak256 C S span_cap L numbers cap_bound from to_block logs hs h
                bound linked whole fetched
                (subst
                  (Agreeing C
                    (after_fetch keccak256 C S span_cap L numbers cap_bound from to_block fetched.0)
                    logs)
                  same (p.1 refl))).at
              w p.0);
    }
    commit-Ensures true go logs blocks (k ∷ ks) described fetched =
        Ensures-raise (unstable_blocks (k ∷ ks)) (λ w p. (p.0.0, tt))
    commit-Ensures false go logs blocks (k ∷ ks) described fetched =
        Ensures-weaken (change C S (forget (λ n. elem n (k ∷ ks))) >> again) (λ w p. p.0)
          (λ _ w p. p) (retry-Ensures from to_block (λ n. elem n (k ∷ ks)) again (go refl))

    with_metadata-Ensures :
        (last : Bool)
        → (last ≡ false → Attempts keccak256 C S span_cap L numbers cap_bound from to_block again)
        → (blocks : List Block) → Described (suc to_block - from) from none blocks
        → Attempts keccak256 C S span_cap L numbers cap_bound from to_block
            (with_metadata keccak256 C S span_cap from to_block again last blocks)
    with_metadata-Ensures last go blocks described =
        Ensures-bind (fetch_range keccak256 C S span_cap from to_block) _
          (fetch_range-Ensures keccak256 C S span_cap L numbers cap_bound from from to_block h
            bound)
          (λ logs. record {
            at = λ w p.
                (Ensures-bind
                    (moved_heights keccak256 C S span_cap logs blocks
                      (disagreeing_heights logs blocks))
                    (commit keccak256 C S span_cap from to_block logs blocks again last)
                    (moved_heights-Ensures keccak256 C S span_cap L numbers
                      (after_fetch keccak256 C S span_cap L numbers cap_bound from to_block p.1.0.0)
                      from logs blocks)
                    (λ moved. commit-Ensures last go logs blocks moved described p.1.0)).at
                  w (p.0, p.1.1);
          })

    with_gap-Ensures :
        (last : Bool)
        → (last ≡ false → Attempts keccak256 C S span_cap L numbers cap_bound from to_block again)
        → (n : ℕ)
        → Attempts keccak256 C S span_cap L numbers cap_bound from to_block
            (with_gap keccak256 C S span_cap from to_block again last n)
    with_gap-Ensures last go n =
        Ensures-if (n == from) (boundary_moved keccak256 C S span_cap from) _
          (λ e. boundary_moved-Ensures keccak256 C S span_cap L numbers cap_bound from)
          (λ e.
            Ensures-if last (raise (unstable_headers n)) _
              (λ f. Ensures-raise (unstable_headers n) (λ w p. (p.0, tt)))
              (λ f.
                retry-Ensures from to_block (λ k. leb (sub64 n 1) k && leb k to_block) again
                  (go f)))

    after_metadata-Ensures :
        (last : Bool)
        → (last ≡ false → Attempts keccak256 C S span_cap L numbers cap_bound from to_block again)
        → (prev : Option BlockHead) (r : Result (IngestError S.Error) (List Block)) (w : World C S)
        → Outcome
            (λ bs w'. AlignedAt C S L from w' × Described (suc to_block - from) from prev bs)
            (Unread C S L from)
            r
            w
        → Outcome
            (λ _ w'. Batched keccak256 C S span_cap L numbers cap_bound from to_block w')
            (Stops C S L)
            (after_metadata keccak256 C S span_cap from to_block again last r w).0
            (after_metadata keccak256 C S span_cap from to_block again last r w).1
    after_metadata-Ensures last go prev (ok blocks) w p =
        (with_metadata-Ensures last go blocks
            (unlinked (suc to_block - from) from prev blocks p.1)).at
          w p.0
    after_metadata-Ensures last go prev (err e) w p = elim (MetadataError-cases e p.1) [
      | inl (x, same) ↦ rw same (p.0.0, tt)
      | inr (n, same) ↦ rw same ((with_gap-Ensures last go n).at w p.0)
    ]

  attempts-Ensures :
      (left from to_block : ℕ)
      → 0 < left
      → from ≤ to_block
      → IsHeight to_block
      → Attempts keccak256 C S span_cap L numbers cap_bound from to_block
          (attempts keccak256 C S span_cap left from to_block)
  unfolding attempts
  attempts-Ensures zero from to_block some_left h bound = absurd (omega (arith, some_left))
  attempts-Ensures (suc left) from to_block some_left h bound = record {
    at = λ w p.
        after_metadata-Ensures from to_block h bound
          (attempts keccak256 C S span_cap left from to_block) (left == 0)
          (λ e. attempts-Ensures left from to_block (ground (arith, e)) h bound)
          (lookup (sub64 from 1) w.stream.heads)
          (block_metadata keccak256 C S span_cap from to_block w).0
          (block_metadata keccak256 C S span_cap from to_block w).1
          (block_metadata-Ensures keccak256 C S span_cap L numbers from from to_block w p);
  }

  pub ingest_batch-Committed :
      (from to_block : ℕ)
      → from ≤ to_block
      → IsHeight to_block
      → Ensures
          (AlignedAt C S L from)
          (λ _ w. Batched keccak256 C S span_cap L numbers cap_bound from to_block w)
          (Stops C S L)
          (ingest_batch keccak256 C S span_cap from to_block)
  unfolding ingest_batch
  ingest_batch-Committed from to_block h bound =
      attempts-Ensures 3 from to_block (omega arith) h bound
