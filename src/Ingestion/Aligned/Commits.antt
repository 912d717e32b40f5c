-- ===== src/Ingestion/Aligned/Commits.antt =====
-- What the write of a batch rests on: its logs, the blocks they must agree with, and the blocks that
-- are read again since no log speaks for them.
use ff_eth_logs.Base.{
  ◌∙◌, ap, ◌++◌, ℕ, suc, ◌-◌, ◌≡◌, ◌⊎◌, inl, inr, Bool, true, false, none, List, [], ◌∷◌, All,
  sub64, arith, refl, ◌==◌, if◌then◌else◌, length, String,
}
use ff_eth_logs.Base.Exec.{ok, Result-cases, pure, ◌>>=◌}
use ff_eth_logs.Base.Ensures.{
  Ensures, Outcome, Ensures-pure, Ensures-bind, Ensures-if, Ensures-weaken,
}
use ff_eth_logs.Eventset.{Hash, lookup}
use ff_eth_logs.Chain.{BlockHead, EthClient, Log}
use ff_eth_logs.Logstore.{Block}
use ff_eth_logs.Logstore.Write.{hash_of}
use ff_eth_logs.Ingestion.Sink.{Sink, SinkLaws}
use ff_eth_logs.Ingestion.Subscriber.{World, head_by_number}
use ff_eth_logs.Ingestion.Batch.{
  disagreeing_heights, disagrees, has_logs, block_metadata, recheck_logless_blocks, moved_heights,
}
use ff_eth_logs.Ingestion.Aligned.{Numbers, AlignedAt, Stops}
use ff_eth_logs.Ingestion.Aligned.Batches.{
  blocks_of, Linked, disagreeing_heights-none, Described, Unread, metadata_from-Ensures,
}
use ff_eth_logs.Ingestion.Fetcher.{fetch_ingestion_logs}
use ff_eth_logs.Ingestion.Batch.{kept_logs}

module _ (C : EthClient) where
  -- The provider after it was asked for the heads of these heights.
  abbrev pub reads : List ℕ → C.State → C.State
  reads [] p = p
  reads (n ∷ ns) p = reads ns (C.head_by_number n p).1

  reads-append :
      (ns : List ℕ) (m : ℕ) (p : C.State)
      → (C.head_by_number m (reads ns p)).1 ≡ reads (ns ++ (m ∷ [])) p
  reads-append [] m p = refl
  reads-append (n ∷ ns) m p = reads-append ns m (C.head_by_number n p).1

  -- Since the moment `p` the provider was asked for heads only.
  abbrev pub Since : C.State → C.State → Type 0
  Since p q = (ns : List ℕ) × (q ≡ reads ns p)

  -- At a moment after `p` the provider's head of the block's height had the block's hash.
  abbrev pub Canonical : C.State → Block → Type 0
  Canonical p b =
      (q : C.State) × (h : BlockHead) × Since p q
      × ((C.head_by_number b.number q).0 ≡ ok h)
      × (h.hash ≡ b.hash)

  abbrev pub Vouched : C.State → List Log → Block → Type 0
  Vouched p logs b = (has_logs logs b ≡ true) ⊎ Canonical p b

  -- The logs are those of the blocks, and a block without logs was read again after `p`.
  abbrev pub Agreeing : C.State → List Log → List Block → Type 0
  Agreeing p logs blocks =
      All (λ l. disagrees l (hash_of l.block_number blocks) ≡ false) logs
      × All (Vouched p logs) blocks

-- What was written: linked heads of all the heights, and the logs that were kept of a fetch.
pub record Committed (keccak256 : String → Hash) (C : EthClient) (S : Sink)
    (span_cap from to_block : ℕ) (after : S.State) : Type 0 where
  pub heads : List BlockHead
  pub logs : List Log
  pub before : S.State
  pub asked : C.State
  pub linked : Linked none heads
  pub whole : length heads ≡ suc to_block - from
  pub fetched :
      (fetch_ingestion_logs keccak256 C span_cap (suc (suc to_block) - from) from to_block asked).0
      ≡ ok logs
  pub agreeing :
      Agreeing C
        (fetch_ingestion_logs keccak256 C span_cap
          (suc (suc to_block) - from)
          from
          to_block
          asked).1
        logs
        (blocks_of from heads)
  pub written :
      S.write_range from to_block
        (blocks_of from heads)
        (kept_logs keccak256 C S span_cap logs)
        before
      ≡ (ok tt, after)

kept : (c : Bool) (k : ℕ) (ms : List ℕ) → (if c then ms else k ∷ ms) ≡ [] → (c ≡ true) × (ms ≡ [])
kept true k ms e = (refl, e)
kept false k ms e = absurd (cc e)

module _ (keccak256 : String → Hash) (C : EthClient) (S : Sink) (span_cap : ℕ) (L : SinkLaws S)
    (numbers : Numbers C) where
  pub block_metadata-Ensures :
      (n from to_block : ℕ) (w : World C S)
      → AlignedAt C S L n w
      → Outcome
          (λ bs w'.
            AlignedAt C S L n w'
            × Described (suc to_block - from) from (lookup (sub64 from 1) w.stream.heads) bs)
          (Unread C S L n)
          (block_metadata keccak256 C S span_cap from to_block w).0
          (block_metadata keccak256 C S span_cap from to_block w).1
  unfolding block_metadata
  block_metadata-Ensures n from to_block w p =
      (metadata_from-Ensures keccak256 C S span_cap L numbers n (suc to_block - from) from
          (lookup (sub64 from 1) w.stream.heads)).at
        w p

  -- Since the moment `p` only heads were asked for.
  abbrev pub Asked : C.State → ℕ → World C S → Type 0
  Asked p n w = AlignedAt C S L n w × Since C p w.provider

  -- The head of a height, which the provider gave.
  canonical-Ensures :
      (s : C.State) (n m : ℕ)
      → Ensures
          (Asked s n)
          (λ h w. Asked s n w × ((q : C.State) × Since C s q × ((C.head_by_number m q).0 ≡ ok h)))
          (Stops C S L)
          (head_by_number C S m)
  unfolding head_by_number
  canonical-Ensures s n m = record {
    at = λ w p. elim (Result-cases (C.head_by_number m w.provider).0) [
      | inl (h, e) ↦
          let later = ap (λ q. (C.head_by_number m q).1) p.1.1 ∙ reads-append C p.1.0 m s in
          rw e ((p.0, (p.1.0 ++ (m ∷ []), later)), (w.provider, p.1, e))
      | inr (x, e) ↦ rw e (p.0.0, tt)
    ];
  }

  abbrev Rechecked : C.State → ℕ → List Log → List Block → List ℕ → World C S → Type 0
  Rechecked s n logs bs moved w = Asked s n w × (moved ≡ [] → All (Vouched C s logs) bs)

  recheck-Ensures :
      (s : C.State) (n : ℕ) (logs : List Log) (bs : List Block)
      → Ensures
          (Asked s n)
          (Rechecked s n logs bs)
          (Stops C S L)
          (recheck_logless_blocks keccak256 C S span_cap logs bs)
  unfolding recheck_logless_blocks
  recheck-Ensures s n logs [] = Ensures-pure [] (λ w p. (p, λ e. tt))
  recheck-Ensures s n logs (b ∷ bs) =
      let rest = recheck_logless_blocks keccak256 C S span_cap logs bs in
      Ensures-if (has_logs logs b) rest _
        (λ e.
          Ensures-weaken rest (λ w p. p) (λ ms w p. (p.0, λ f. (inl e, p.1 f)))
            (recheck-Ensures s n logs bs))
        (λ e.
          Ensures-bind (head_by_number C S b.number) _ (canonical-Ensures s n b.number)
            (reread (recheck-Ensures s n logs bs)))
    where
      reread :
          Ensures
            (Asked s n)
            (Rechecked s n logs bs)
            (Stops C S L)
            (recheck_logless_blocks keccak256 C S span_cap logs bs)
          → (h : BlockHead)
          → Ensures
              (λ w.
                Asked s n w
                × ((q : C.State) × Since C s q × ((C.head_by_number b.number q).0 ≡ ok h)))
              (Rechecked s n logs (b ∷ bs))
              (Stops C S L)
              (recheck_logless_blocks keccak256 C S span_cap logs bs >>= λ moved.
                pure (if h.hash == b.hash then moved else b.number ∷ moved))
      reread go h = record {
        at = λ w p.
            (Ensures-bind (recheck_logless_blocks keccak256 C S span_cap logs bs)
                (λ moved. pure (if h.hash == b.hash then moved else b.number ∷ moved)) go
                (λ ms. record {
                  at = λ w' q. (
                    q.0,
                    λ f.
                        let both = kept (h.hash == b.hash) b.number ms f in
                        (inr (p.1.0, h, p.1.1, p.1.2, ground (arith, both.0)), q.1 both.1),
                  );
                })).at
              w p.0;
      }

  pub moved_heights-Ensures :
      (s : C.State) (n : ℕ) (logs : List Log) (bs : List Block)
      → Ensures
          (Asked s n)
          (λ moved w. AlignedAt C S L n w × (moved ≡ [] → Agreeing C s logs bs))
          (Stops C S L)
          (moved_heights keccak256 C S span_cap logs bs (disagreeing_heights logs bs))
  moved_heights-Ensures s n logs bs = at_once (disagreeing_heights logs bs) refl
    where
      at_once :
          (ns : List ℕ)
          → disagreeing_heights logs bs ≡ ns
          → Ensures
              (Asked s n)
              (λ moved w. AlignedAt C S L n w × (moved ≡ [] → Agreeing C s logs bs))
              (Stops C S L)
              (moved_heights keccak256 C S span_cap logs bs ns)
      at_once [] e =
          Ensures-weaken (recheck_logless_blocks keccak256 C S span_cap logs bs) (λ w p. p)
            (λ ms w p. (p.0.0, λ f. (disagreeing_heights-none logs bs e, p.1 f)))
            (recheck-Ensures s n logs bs)
      at_once (k ∷ ks) e = Ensures-pure (k ∷ ks) (λ w p. (p.0, λ f. absurd (cc f)))
