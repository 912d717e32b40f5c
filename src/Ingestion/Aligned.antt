-- ===== src/Ingestion/Aligned.antt =====
-- The invariant of ingestion: the sink's next block is the stream's. Here are the invariant, and what
-- each call of the provider and of the sink does to it.
pub mod Recover
pub mod Reconciles
pub mod Rounds
pub mod Batches
pub mod Commits
pub mod Writes
pub mod Attempts
pub mod Ranges
pub mod Plans
pub mod Follows
pub mod Runs
use ff_eth_logs.Base.{
  ℕ, suc, ◌+◌, ◌≡◌, ◌≤◌, ◌<◌, inl, inr, Option, u64_mod, arith, sym, subst, ◌∙◌, ap,
}
use ff_eth_logs.Base.Exec.{Exec, Result, ok, err, Result-cases, pure, raise, ◌>>=◌}
use ff_eth_logs.Base.Ensures.{Ensures, Outcome}
use ff_eth_logs.Eventset.{Hash}
use ff_eth_logs.Chain.{BlockHead, EthClient, RpcError}
use ff_eth_logs.Chain.Pagination.{default_step_size}
use ff_eth_logs.Ingestion.Fetcher.{FetchError}
use ff_eth_logs.Ingestion.Fetcher.Total.{GivesUp}
use ff_eth_logs.Ingestion.Sink.{Sink, SinkLaws}
use ff_eth_logs.Ingestion.Stream.{StreamState}
use ff_eth_logs.Ingestion.Subscriber.{
  start_block_set, no_ancestor_above_genesis, replan, cancelled, subscription_failed, heads_silent,
  out_of_rounds, wrong_chain, unstable_blocks, unstable_headers, discontinuity, deep_reorg,
  below_coverage, no_ancestor_within, catchup_too_large, IngestError, World, Ingest, provider, sink,
  fetch, head_by_number, stored_block_hash, rewind, change, position,
}

-- The block that a provider gives for a height has that height.
abbrev pub Numbers : EthClient → Type 0
Numbers C = (n : ℕ) (s : C.State) (h : BlockHead) → (C.head_by_number n s).0 ≡ ok h → h.number ≡ n

-- A height below the last million of those that a uint64 holds.
abbrev pub IsHeight : ℕ → Type 0
IsHeight n = n + default_step_size < u64_mod

-- A block to write next: one of those above genesis.
abbrev pub IsPosition : ℕ → Type 0
IsPosition n = (0 < n) × (n + default_step_size ≤ u64_mod)

-- An error that ends ingestion: not one that the loops handle, nor one of the model's fuel.
abbrev pub Ends : {E : Type 0} → IngestError E → Type 0
Ends (provider e) = Unit
Ends (sink e) = Unit
Ends (fetch e) = GivesUp e
Ends (catchup_too_large a b c) = Unit
Ends (no_ancestor_within n) = Unit
Ends (below_coverage n) = Unit
Ends no_ancestor_above_genesis = Unit
Ends (deep_reorg n) = ⊥
Ends (discontinuity n) = ⊥
Ends (unstable_headers n) = Unit
Ends (unstable_blocks ns) = Unit
Ends replan = ⊥
Ends cancelled = Unit
Ends subscription_failed = Unit
Ends heads_silent = Unit
Ends (wrong_chain a b) = Unit
Ends (start_block_set n) = Unit
Ends out_of_rounds = ⊥

-- An error of a range: one that ends ingestion, or the call for a new plan, which the loop handles.
abbrev pub Interrupts : {E : Type 0} → IngestError E → Type 0
Interrupts replan = Unit
Interrupts e = Ends e

pub Ends-Interrupts : {E : Type 0} (e : IngestError E) → Ends e → Interrupts e
Ends-Interrupts (provider x) h = h
Ends-Interrupts (sink x) h = h
Ends-Interrupts (fetch x) h = h
Ends-Interrupts (catchup_too_large a b c) h = h
Ends-Interrupts (no_ancestor_within m) h = h
Ends-Interrupts (below_coverage m) h = h
Ends-Interrupts no_ancestor_above_genesis h = h
Ends-Interrupts (deep_reorg m) h = h
Ends-Interrupts (discontinuity m) h = h
Ends-Interrupts (unstable_headers m) h = h
Ends-Interrupts (unstable_blocks ns) h = h
Ends-Interrupts replan h = absurd h
Ends-Interrupts cancelled h = h
Ends-Interrupts subscription_failed h = h
Ends-Interrupts heads_silent h = h
Ends-Interrupts (wrong_chain a b) h = h
Ends-Interrupts (start_block_set m) h = h
Ends-Interrupts out_of_rounds h = h

module _ (C : EthClient) (S : Sink) (L : SinkLaws S) where
  -- The sink stands where the stream does, at heights that do not wrap.
  abbrev pub Aligned : World C S → Type 0
  Aligned w = L.At w.sink w.stream.next × IsPosition w.stream.next × IsHeight w.stream.tip

  abbrev pub AlignedAt : ℕ → World C S → Type 0
  AlignedAt n w = Aligned w × (w.stream.next ≡ n)

  abbrev pub Stops : IngestError S.Error → World C S → Type 0
  Stops e w = Aligned w × Interrupts e

  abbrev pub Fails : IngestError S.Error → World C S → Type 0
  Fails e w = Aligned w × Ends e

  module _ (R : IngestError S.Error → World C S → Type 0) (n : ℕ)
      (by_provider : (e : RpcError) (w : World C S) → AlignedAt n w → R (provider e) w) where
    pub head_by_number-Ensures :
        Numbers C
        → (m : ℕ)
        → Ensures (AlignedAt n) (λ h w. AlignedAt n w × (h.number ≡ m)) R (head_by_number C S m)
    unfolding head_by_number
    head_by_number-Ensures numbers m = record {
      at = λ w p. elim (Result-cases (C.head_by_number m w.provider).0) [
        | inl (h, e) ↦ rw e (p, numbers m w.provider h e)
        | inr (x, e) ↦ rw e (by_provider x _ p)
      ];
    }

  module _ (R : IngestError S.Error → World C S → Type 0) (n : ℕ)
      (by_sink : (e : S.Error) (w : World C S) → AlignedAt n w → R (sink e) w) where
    pub stored_block_hash-Ensures :
        (m : ℕ) → Ensures (AlignedAt n) (λ h w. AlignedAt n w) R (stored_block_hash C S m)
    unfolding stored_block_hash
    stored_block_hash-Ensures m = record {
      at = λ w p.
          let kept = L.read w.stream.next m w.sink p.0.0 in
          elim (Result-cases (S.stored_block_hash m w.sink).0) [
            | inl (h, e) ↦ rw e ((kept, p.0.1, p.0.2), p.1)
            | inr (x, e) ↦ rw e (by_sink x _ ((kept, p.0.1, p.0.2), p.1))
          ];
    }
