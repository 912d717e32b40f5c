-- ===== src/Ingestion/Aligned/Writes.antt =====
-- The calls that an attempt at a batch makes: the fetch, the write, and the recovery where the chain
-- moved below it.
use ff_eth_logs.Base.{
  ℕ, suc, ◌+◌, ◌-◌, ◌≡◌, ◌≤◌, ◌<◌, ◌⊎◌, inl, inr, Option, none, some, List, [], ◌∷◌, u64_mod, sub64,
  arith, refl, sym, subst, ap, length, String,
}
use ff_eth_logs.Base.Exec.{Result, ok, err, raise, ◌>>◌}
use ff_eth_logs.Base.Ensures.{
  Ensures, Outcome, Ensures-raise, Ensures-bind, weaken_error, weaken_outcome,
}
use ff_eth_logs.Eventset.{Hash}
use ff_eth_logs.Chain.{BlockHead, EthClient, RpcError, Log}
use ff_eth_logs.Logstore.{Block}
use ff_eth_logs.Ingestion.Sink.{Sink, SinkLaws}
use ff_eth_logs.Ingestion.Stream.{retain, forget}
use ff_eth_logs.Ingestion.Subscriber.{
  of_sink, recover_deep_reorg, start_block_set, no_ancestor_above_genesis, replan, cancelled,
  subscription_failed, heads_silent, out_of_rounds, wrong_chain, unstable_blocks, unstable_headers,
  below_coverage, no_ancestor_within, catchup_too_large, IngestError, World, Ingest, provider, sink,
  fetch, deep_reorg, discontinuity, head_by_number,
}
use ff_eth_logs.Ingestion.Batch.{rebound, write_range, fetched_logs, fetch_range, boundary_moved}
use ff_eth_logs.Ingestion.Aligned.{
  stored_block_hash, Numbers, IsHeight, Aligned, AlignedAt, Stops, Fails, Ends-Interrupts,
  head_by_number-Ensures, stored_block_hash-Ensures,
}
use ff_eth_logs.Ingestion.Aligned.Recover.{by_provider, by_sink, recover_deep_reorg-Ensures}
use ff_eth_logs.Ingestion.Aligned.Batches.{
  blocks_of, Linked, blocks_of-Run, Described, MetadataError,
}
use ff_eth_logs.Ingestion.Fetcher.{FetchError, fetch_ingestion_logs}
use ff_eth_logs.Ingestion.Fetcher.Total.{FetchedInOrder, fetch_ingestion_logs-FetchedInOrder}
use ff_eth_logs.Ingestion.Batch.{kept_logs}
use ff_eth_logs.Ingestion.Aligned.Commits.{Agreeing, Committed, Since}

-- `blockMetadata` fails with the provider's error, or where two heads do not link.
pub MetadataError-cases :
    {E : Type 0} (e : IngestError E)
    → MetadataError e
    → ((x : RpcError) × (e ≡ provider x)) ⊎ ((n : ℕ) × (e ≡ discontinuity n))
MetadataError-cases (provider x) h = inl (x, refl)
MetadataError-cases (discontinuity n) h = inr (n, refl)
MetadataError-cases (sink x) h = absurd h
MetadataError-cases (fetch x) h = absurd h
MetadataError-cases (catchup_too_large a b c) h = absurd h
MetadataError-cases (no_ancestor_within m) h = absurd h
MetadataError-cases (below_coverage m) h = absurd h
MetadataError-cases no_ancestor_above_genesis h = absurd h
MetadataError-cases (deep_reorg m) h = absurd h
MetadataError-cases (unstable_headers m) h = absurd h
MetadataError-cases (unstable_blocks ns) h = absurd h
MetadataError-cases replan h = absurd h
MetadataError-cases cancelled h = absurd h
MetadataError-cases subscription_failed h = absurd h
MetadataError-cases heads_silent h = absurd h
MetadataError-cases (wrong_chain a b) h = absurd h
MetadataError-cases (start_block_set m) h = absurd h
MetadataError-cases out_of_rounds h = absurd h

pub unlinked :
    (count n : ℕ) (prev : Option BlockHead) (blocks : List Block)
    → Described count n prev blocks
    → Described count n none blocks
unlinked count n none blocks d = d
unlinked count n (some p) blocks ([], same, linked, whole) = ([], same, tt, whole)
unlinked count n (some p) blocks (h ∷ hs, same, linked, whole) = (h ∷ hs, same, linked.1, whole)

module _ (keccak256 : String → Hash) (C : EthClient) (S : Sink) (span_cap : ℕ) (L : SinkLaws S)
    (numbers : Numbers C) (cap_bound : span_cap + 1 < u64_mod) where
  -- The logs come from the provider.
  abbrev pub Fetched : ℕ → ℕ → List Log → Type 0
  Fetched from to_block logs =
      (p : C.State) × ((fetch_ingestion_logs keccak256 C span_cap (suc (suc to_block) - from) from
          to_block p).0
        ≡ ok logs)

  -- The provider after a fetch.
  abbrev pub after_fetch : ℕ → ℕ → C.State → C.State
  after_fetch from to_block p =
      (fetch_ingestion_logs keccak256 C span_cap (suc (suc to_block) - from) from to_block p).1

  -- The logs come from the provider, and it has been asked for heads only since.
  abbrev pub Answers : ℕ → ℕ → List Log → C.State → Type 0
  Answers from to_block logs q =
      (f : Fetched from to_block logs) × Since C (after_fetch from to_block f.0) q

  pub fetch_range-Ensures :
      (n from to_block : ℕ)
      → from ≤ to_block
      → IsHeight to_block
      → Ensures
          (AlignedAt C S L n)
          (λ logs w. AlignedAt C S L n w × Answers from to_block logs w.provider)
          (Stops C S L)
          (fetch_range keccak256 C S span_cap from to_block)
  unfolding fetch_range
  fetch_range-Ensures n from to_block h bound = record {
    at = λ w p.
        answered w p
          (fetch_ingestion_logs keccak256 C span_cap (suc (suc to_block) - from) from to_block
            w.provider)
          refl
          (fetch_ingestion_logs-FetchedInOrder keccak256 C span_cap cap_bound from to_block
            w.provider (omega (arith, h)) bound);
  }
    where
      answered :
          (w : World C S)
          → AlignedAt C S L n w
          → (a : Result FetchError (List Log) × C.State)
          → fetch_ingestion_logs keccak256 C span_cap
              (suc (suc to_block) - from)
              from
              to_block
              w.provider
            ≡ a
          → FetchedInOrder a.0
          → Outcome
              (λ logs w. AlignedAt C S L n w × Answers from to_block logs w.provider)
              (Stops C S L)
              (fetched_logs keccak256 C S span_cap a.0)
              (record w { provider = a.1 })
      answered w p (ok logs, s) e o =
          (p, ((w.provider, ap (λ a. a.0) e), ([], sym (ap (λ a. a.1) e))))
      answered w p (err x, s) e o = (p.0, o)

  rebound-Ensures :
      (n : ℕ) (stored : Option Hash)
      → Ensures
          (AlignedAt C S L n)
          (λ _ w. Aligned C S L w)
          (Stops C S L)
          (rebound keccak256 C S span_cap n stored)
  unfolding retain forget sub64
  rebound-Ensures n (some h) = record {
    at = λ w p.
        let done = recover_deep_reorg C S (sub64 n 1) w in
        weaken_error (λ _ w. Aligned C S L w) (Fails C S L) (Stops C S L) done.0 done.1
          (λ e w f. (f.0, Ends-Interrupts e f.1))
          (weaken_outcome (λ _ w'. Aligned C S L w' × (w'.stream.next ≤ sub64 n 1))
            (λ _ w'. Aligned C S L w') (Fails C S L) done.0 done.1 (λ _ w p. p.0)
            ((recover_deep_reorg-Ensures C S L numbers n (sub64 n 1)).at w p));
  }
  rebound-Ensures n none =
      Ensures-bind (head_by_number C S (sub64 n 1)) _
        (head_by_number-Ensures C S L (Stops C S L) n (by_provider C S L numbers n) numbers
          (sub64 n 1))
        (λ h. record { at = λ w p. (p.0.0.0, p.0.0.1, ground (arith, p.0.0.1, p.0.1)) })

  pub boundary_moved-Ensures :
      (n : ℕ) {Q : Unit {0} → World C S → Type 0}
      → Ensures (AlignedAt C S L n) Q (Stops C S L) (boundary_moved keccak256 C S span_cap n)
  unfolding boundary_moved
  boundary_moved-Ensures n =
      Ensures-bind (stored_block_hash C S (sub64 n 1))
        (λ stored. rebound keccak256 C S span_cap n stored >> raise replan)
        (stored_block_hash-Ensures C S L (Stops C S L) n (by_sink C S L numbers n) (sub64 n 1))
        (λ stored.
          Ensures-bind (rebound keccak256 C S span_cap n stored) (λ _. raise replan)
            (rebound-Ensures n stored) (λ _. Ensures-raise replan (λ w p. (p, tt))))

  -- The batch is written, and the stream has not moved past it yet.
  abbrev pub Batched : ℕ → ℕ → World C S → Type 0
  Batched from to_block w =
      L.At w.sink (suc to_block)
      × (w.stream.next ≡ from)
      × IsHeight w.stream.tip
      × Committed keccak256 C S span_cap from to_block w.sink

  abbrev pub Attempts : ℕ → ℕ → Ingest C S (Unit {0}) → Type 0
  Attempts from to_block m =
      Ensures (AlignedAt C S L from) (λ _ w. Batched from to_block w) (Stops C S L) m

  abbrev pub Confirms : C.State → ℕ → ℕ → List Log → List Block → List ℕ → World C S → Type 0
  Confirms s from to_block logs blocks moved w =
      AlignedAt C S L from w × (moved ≡ [] → Agreeing C s logs blocks)

  pub write_range-Ensures :
      (from to_block : ℕ) (logs : List Log) (hs : List BlockHead)
      → from ≤ to_block
      → IsHeight to_block
      → Linked none hs
      → length hs ≡ suc to_block - from
      → (fetched : Fetched from to_block logs)
      → Agreeing C (after_fetch from to_block fetched.0) logs (blocks_of from hs)
      → Attempts from to_block (
          write_range keccak256 C S span_cap from to_block
            (blocks_of from hs)
            (kept_logs keccak256 C S span_cap logs))
  unfolding write_range
  write_range-Ensures from to_block logs hs h bound linked whole fetched agreeing = record {
    at = λ w p.
        answered w p
          (S.write_range from to_block (blocks_of from hs) (kept_logs keccak256 C S span_cap logs)
            w.sink)
          refl;
  }
    where
      answered :
          (w : World C S)
          → AlignedAt C S L from w
          → (a : Result S.Error (Unit {0}) × S.State)
          → S.write_range from to_block
              (blocks_of from hs)
              (kept_logs keccak256 C S span_cap logs)
              w.sink
            ≡ a
          → Outcome
              (λ _ w. Batched from to_block w)
              (Stops C S L)
              (of_sink C S a.0)
              (record w { sink = a.1 })
      answered w p (ok u, s) e = (
        L.written from to_block (blocks_of from hs) (kept_logs keccak256 C S span_cap logs) w.sink s
            (subst (L.At w.sink) p.1 p.0.0) (blocks_of-Run from hs) h (omega (arith, bound)) e,
        p.1,
        p.0.2,
        record {
          heads = hs;
          logs = logs;
          before = w.sink;
          asked = fetched.0;
          linked = linked;
          whole = whole;
          fetched = fetched.1;
          agreeing = agreeing;
          written = e;
        },
      )
      answered w p (err x, s) e = (
        (
          L.write_failed w.stream.next from to_block (blocks_of from hs)
              (kept_logs keccak256 C S span_cap logs) x w.sink s p.0.0 e,
          p.0.1,
          p.0.2,
        ),
        tt,
      )
