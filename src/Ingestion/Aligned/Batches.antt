-- ===== src/Ingestion/Aligned/Batches.antt =====
-- The metadata of a batch: the blocks that `blockMetadata` returns, and how it fails.
use ff_eth_logs.Base.{
  ℕ, zero, suc, ◌≡◌, inl, inr, false, Option, none, some, List, [], ◌∷◌, All, arith, refl, ap,
  Bool-cases, length, elem, String,
}
use ff_eth_logs.Base.Exec.{pure, raise, ◌>>=◌, ◌>>◌}
use ff_eth_logs.Base.Ensures.{Ensures, Ensures-pure, Ensures-raise, Ensures-bind, Ensures-if}
use ff_eth_logs.Eventset.{Hash, lookup}
use ff_eth_logs.Chain.{BlockHead, EthClient, Log}
use ff_eth_logs.Logstore.{Block}
use ff_eth_logs.Logstore.Write.{hash_of}
use ff_eth_logs.Logstore.Write.Contiguous.{Run}
use ff_eth_logs.Ingestion.Sink.{Sink, SinkLaws}
use ff_eth_logs.Ingestion.Stream.{retain}
use ff_eth_logs.Ingestion.Subscriber.{
  IngestError, World, Ingest, provider, discontinuity, head_by_number, change,
}
use ff_eth_logs.Ingestion.Batch.{
  metadata_at, disagreeing_heights, disagreeing_from, disagrees, held_head, breaks, block_of_head,
  metadata_from,
}
use ff_eth_logs.Ingestion.Aligned.{Numbers, AlignedAt, head_by_number-Ensures}

-- The blocks of the heads of consecutive heights.
abbrev pub blocks_of : ℕ → List BlockHead → List Block
blocks_of n [] = []
blocks_of n (h ∷ hs) =
    (record { number = n; hash = h.hash; timestamp = h.timestamp }) ∷ blocks_of (suc n) hs

-- Each head descends from the one before it.
abbrev pub Linked : Option BlockHead → List BlockHead → Type 0
Linked prev [] = Unit
Linked none (h ∷ hs) = Linked (some h) hs
Linked (some prev) (h ∷ hs) = (h.parent_hash ≡ prev.hash) × Linked (some h) hs

pub blocks_of-Run : (n : ℕ) (hs : List BlockHead) → Run n (blocks_of n hs)
blocks_of-Run n [] = tt
blocks_of-Run n (h ∷ hs) = (refl, blocks_of-Run (suc n) hs)

-- No log disagrees with the block of its height.
pub disagreeing_heights-none :
    (logs : List Log) (blocks : List Block)
    → disagreeing_heights logs blocks ≡ []
    → All (λ l. disagrees l (hash_of l.block_number blocks) ≡ false) logs
unfolding disagreeing_heights disagreeing_from elem
disagreeing_heights-none [] blocks h = tt
disagreeing_heights-none (l ∷ ls) blocks h =
    elim (Bool-cases (disagrees l (hash_of l.block_number blocks))) [
      | inl e ↦ absurd (ground (arith, e))
      | inr e ↦ (e, disagreeing_heights-none ls blocks (ground (arith, e)))
    ]

-- The blocks are those of linked heads, as many as there are heights.
abbrev pub Described : ℕ → ℕ → Option BlockHead → List Block → Type 0
Described count n prev blocks =
    (hs : List BlockHead) × (blocks ≡ blocks_of n hs) × Linked prev hs × (length hs ≡ count)

-- How `blockMetadata` fails.
abbrev pub MetadataError : {E : Type 0} → IngestError E → Type 0
MetadataError (provider e) = Unit
MetadataError (discontinuity n) = Unit
MetadataError e = ⊥

abbrev pub Unread :
    (C : EthClient) (S : Sink) (L : SinkLaws S) → ℕ → IngestError S.Error → World C S → Type 0
Unread C S L n e w = AlignedAt C S L n w × MetadataError e

module _ (keccak256 : String → Hash) (C : EthClient) (S : Sink) (span_cap : ℕ) (L : SinkLaws S)
    (numbers : Numbers C) where
  held_head-Ensures :
      (n m : ℕ) (o : Option BlockHead)
      → Ensures
          (AlignedAt C S L n)
          (λ _ w. AlignedAt C S L n w)
          (Unread C S L n)
          (held_head keccak256 C S span_cap m o)
  unfolding retain
  held_head-Ensures n m (some h) = Ensures-pure h (λ w p. p)
  held_head-Ensures n m none =
      Ensures-bind (head_by_number C S m) (λ h. change C S (retain m h) >> pure h)
        (head_by_number-Ensures C S L (Unread C S L n) n (λ e w p. (p, tt)) numbers m)
        (λ h. record { at = λ w p. p.0 })

  metadata_at-Ensures :
      (n count m : ℕ) (prev : Option BlockHead) (rest : Option BlockHead → Ingest C S (List Block))
      → ((h : BlockHead)
          → Ensures
              (AlignedAt C S L n)
              (λ bs w. AlignedAt C S L n w × Described count (suc m) (some h) bs)
              (Unread C S L n)
              (rest (some h)))
      → (h : BlockHead)
      → Ensures
          (AlignedAt C S L n)
          (λ bs w. AlignedAt C S L n w × Described (suc count) m prev bs)
          (Unread C S L n)
          (metadata_at keccak256 C S span_cap m prev rest h)
  metadata_at-Ensures n count m prev rest go h =
      let add : List Block → Ingest C S (List Block) =
        λ blocks. pure (block_of_head keccak256 C S span_cap m h ∷ blocks) in
      Ensures-if (breaks keccak256 C S span_cap prev h) (raise (discontinuity m))
        (rest (some h) >>= add) (λ e. Ensures-raise (discontinuity m) (λ w p. (p, tt)))
        (λ e.
          Ensures-bind (rest (some h)) add (go h)
            (λ blocks. record { at = λ w p. (p.0, described prev e blocks p.1) }))
    where
      described :
          (prev : Option BlockHead)
          → breaks keccak256 C S span_cap prev h ≡ false
          → (blocks : List Block) → Described count (suc m) (some h) blocks
          → Described (suc count) m prev (block_of_head keccak256 C S span_cap m h ∷ blocks)
      described none e blocks (hs, same, linked, long) = (
        h ∷ hs,
        ap (λ bs. block_of_head keccak256 C S span_cap m h ∷ bs) same,
        linked,
        ap suc long,
      )
      described (some p) e blocks (hs, same, linked, long) = (
        h ∷ hs,
        ap (λ bs. block_of_head keccak256 C S span_cap m h ∷ bs) same,
        (ground (arith, e), linked),
        ap suc long,
      )

  pub metadata_from-Ensures :
      (n count m : ℕ) (prev : Option BlockHead)
      → Ensures
          (AlignedAt C S L n)
          (λ bs w. AlignedAt C S L n w × Described count m prev bs)
          (Unread C S L n)
          (metadata_from keccak256 C S span_cap count m prev)
  unfolding metadata_from
  metadata_from-Ensures n zero m prev = Ensures-pure [] (λ w p. (p, ([], refl, tt, refl)))
  metadata_from-Ensures n (suc count) m prev = record {
    at = λ w p.
        let held = lookup m w.stream.heads in
        let rest = metadata_from keccak256 C S span_cap count (suc m) in
        (Ensures-bind (held_head keccak256 C S span_cap m held)
            (metadata_at keccak256 C S span_cap m prev rest) (held_head-Ensures n m held)
            (metadata_at-Ensures n count m prev rest
              (λ h. metadata_from-Ensures n count (suc m) (some h)))).at
          w p;
  }
