-- ===== src/Ingestion/Forks.antt =====
-- The common ancestor of a deep reorganisation: what the search for it has seen.
use ff_eth_logs.Base.{
  ℕ, zero, suc, ◌-◌, ◌≡◌, ◌≢◌, ◌≤◌, ◌<◌, inl, inr, Option, none, some, arith, refl, subst, ltb,
  ◌==◌, Bool-cases,
}
use ff_eth_logs.Base.Exec.{ok, Result-cases, pure, raise, ◌>>=◌}
use ff_eth_logs.Base.Ensures.{
  Ensures, Outcome, Ensures-pure, Ensures-raise, Ensures-bind, Ensures-if,
}
use ff_eth_logs.Eventset.{Hash}
use ff_eth_logs.Chain.{BlockHead, EthClient}
use ff_eth_logs.Ingestion.Sink.{Sink}
use ff_eth_logs.Ingestion.Subscriber.{
  IngestError, World, Ingest, provider, sink, no_ancestor_within, below_coverage,
  no_ancestor_above_genesis, head_by_number, stored_block_hash, fork_below, fork_at, fork_found,
  find_fork_point, max_fork_walk,
}

module _ (C : EthClient) (S : Sink) where
  -- The sink's hash of a height and the provider's head there, each as once read.
  abbrev pub Stored : ℕ → Option Hash → Type 0
  Stored n h = (s : S.State) × ((S.stored_block_hash n s).0 ≡ ok h)

  abbrev pub Canonical : ℕ → BlockHead → Type 0
  Canonical n a = (p : C.State) × ((C.head_by_number n p).0 ≡ ok a)

  -- The block that is stored at a height is no longer canonical.
  abbrev pub Moved : ℕ → Type 0
  Moved n =
      (stored : Hash) × (a : BlockHead) × Stored n (some stored) × Canonical n a × (a.hash ≢ stored)

  -- The nearest height below `k` at which the chains agree, at most 1,024 below `height`.
  abbrev pub IsForkPoint : ℕ → ℕ → BlockHead → Type 0
  IsForkPoint height k a =
      (n : ℕ) × (n < k)
      × (height - n ≤ max_fork_walk)
      × Canonical n a
      × Stored n (some a.hash)
      × ((m : ℕ) → n < m → m < k → Moved m)

  -- How the search fails.
  abbrev pub ForkError : ℕ → IngestError S.Error → Type 0
  ForkError height (provider e) = Unit
  ForkError height (sink e) = Unit
  ForkError height (no_ancestor_within n) =
      (n ≡ height)
      × (max_fork_walk < height)
      × ((m : ℕ) → height - m ≤ max_fork_walk → m < height → Moved m)
  ForkError height (below_coverage n) =
      (n < height) × Stored n none × ((m : ℕ) → n < m → m < height → Moved m)
  ForkError height no_ancestor_above_genesis = (m : ℕ) → m < height → Moved m
  ForkError height e = ⊥

  abbrev pub Finds : ℕ → Ingest C S BlockHead → Type 0
  Finds height m =
      Ensures (λ w. Unit {0}) (λ a w. IsForkPoint height height a) (λ e w. ForkError height e) m

  stored_block_hash-Stored :
      (height k : ℕ)
      → Ensures
          (λ w. Unit {0})
          (λ o w. Stored k o)
          (λ e w. ForkError height e)
          (stored_block_hash C S k)
  unfolding stored_block_hash
  stored_block_hash-Stored height k = record {
    at = λ w p. elim (Result-cases (S.stored_block_hash k w.sink).0) [
      | inl (o, e) ↦ rw e (w.sink, e)
      | inr (x, e) ↦ rw e tt
    ];
  }

  head_by_number-Canonical :
      (height k : ℕ)
      → Ensures
          (λ w. Unit {0})
          (λ a w. Canonical k a)
          (λ e w. ForkError height e)
          (head_by_number C S k)
  unfolding head_by_number
  head_by_number-Canonical height k = record {
    at = λ w p. elim (Result-cases (C.head_by_number k w.provider).0) [
      | inl (a, e) ↦ rw e (w.provider, e)
      | inr (x, e) ↦ rw e tt
    ];
  }

  module _ (height k : ℕ) (lower : Ingest C S BlockHead) (below : k < height)
      (near : height - k ≤ max_fork_walk) (above : (m : ℕ) → k < m → m < height → Moved m)
      (go : Moved k → Finds height lower) where
    fork_found-Finds :
        (h : Hash)
        → Stored k (some h)
        → (a : BlockHead)
        → Ensures
            (λ w. Canonical k a)
            (λ b w. IsForkPoint height height b)
            (λ e w. ForkError height e)
            (fork_found C S h lower a)
    fork_found-Finds h stored a =
        Ensures-if (a.hash == h) (pure a) lower
          (λ e. Ensures-pure a (λ w p.
            (k, below, near, p, subst (λ x. Stored k (some x)) (ground (arith, e)) stored, above)))
          (λ e. record {
            at = λ w p. (go (h, a, stored, p, λ same. ground (arith, e, same))).at w tt;
          })

    fork_at-Finds :
        (o : Option Hash)
        → Ensures
            (λ w. Stored k o)
            (λ b w. IsForkPoint height height b)
            (λ e w. ForkError height e)
            (fork_at C S k lower o)
    fork_at-Finds none = Ensures-raise (below_coverage k) (λ w p. (below, p, above))
    fork_at-Finds (some h) = record {
      at = λ w p.
          (Ensures-bind (head_by_number C S k) (fork_found C S h lower)
              (head_by_number-Canonical height k) (fork_found-Finds h p)).at
            w tt;
    }

  fork_below-Finds :
      (height k : ℕ)
      → k ≤ height
      → ((m : ℕ) → k ≤ m → m < height → Moved m)
      → Finds height (fork_below C S height k)
  unfolding fork_below
  fork_below-Finds height zero low above =
      Ensures-raise no_ancestor_above_genesis (λ w p m. above m (omega arith))
  fork_below-Finds height (suc k) low above =
      let lower = fork_below C S height k in
      Ensures-if (ltb max_fork_walk (height - k)) (raise (no_ancestor_within height))
        (stored_block_hash C S k >>= fork_at C S k lower)
        (λ e. Ensures-raise (no_ancestor_within height) (λ w p.
          (refl, ground (arith, e), λ m near there. above m (ground (arith, e, near)) there)))
        (λ e.
          Ensures-bind (stored_block_hash C S k) (fork_at C S k lower)
            (stored_block_hash-Stored height k)
            (fork_at-Finds height k lower (omega (arith, low)) (ground (arith, e)) (λ m. above m)
              (λ moved. fork_below-Finds height k (omega (arith, low)) (λ m at_least there.
                elim (Bool-cases (m == k)) [
                  | inl e ↦ subst Moved (ground (arith, e)) moved
                  | inr e ↦ above m (ground (arith, e, at_least)) there
                ]))))

  -- For any provider and any sink: the search for the fork point of a height returns the head of the
  -- nearest lower height at which the provider's chain and the stored one were seen to agree, no more
  -- than 1,024 below; at each height between, they were seen to differ. It fails on a call's error, if
  -- it comes to a height at which nothing is stored, if all 1,024 heights differ, or all above genesis.
  pub find_fork_point-IsForkPoint :
      (height : ℕ) (w : World C S)
      → Outcome
          (λ a w'. IsForkPoint height height a)
          (λ e w'. ForkError height e)
          (find_fork_point C S height w).0
          (find_fork_point C S height w).1
  unfolding find_fork_point
  find_fork_point-IsForkPoint height w =
      (fork_below-Finds height height (omega arith)
          (λ m high low. absurd (omega (arith, high, low)))).at
        w tt
