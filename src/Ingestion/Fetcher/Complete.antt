-- ===== src/Ingestion/Fetcher/Complete.antt =====
-- The fetch from a provider that serves one chain.
use ff_eth_logs.Base.{
  ◌%◌, false, ℕ, zero, suc, ◌+◌, ◌-◌, ◌≡◌, ◌≤◌, ◌<◌, List, [], ◌∷◌, ◌++◌, some, String, ltb, arith,
  inl, inr, u64_mod, add64, sub64, refl, ap, sym, ◌∙◌, if◌then◌else◌, Bool-cases,
}
use ff_eth_logs.Base.Exec.{pure, Result, ok, err, Result-cases, ◌>>=◌}
use ff_eth_logs.Base.Ensures.{Outcome, Ensures, Ensures-pure, Ensures-bind}
use ff_eth_logs.Eventset.{Hash, topics}
use ff_eth_logs.Chain.{Log, EthClient}
use ff_eth_logs.Chain.Errors.{is_too_many_results_error}
use ff_eth_logs.Chain.Pagination.{
  WalkError, filter_logs, single_block_overflow, default_step_size, interrupted, rpc,
  step_size_exhausted, no_bounds, diverged,
}
use ff_eth_logs.Chain.Pagination.Windows.{Cancelled, Failed}
use ff_eth_logs.Chain.Pagination.Ranges.{Fetched, filter_logs-Fetched}
use ff_eth_logs.Chain.Pagination.Complete.{
  Serves, Covers-logs, logs_of, logs_between, logs_of-append,
}
use ff_eth_logs.Ingestion.Fetcher.{
  Fetch, FetchError, walk, receipts, too_deep, fetch_ingestion_logs, fetch_around, settle,
  dense_block_logs, sorted, receipt_logs,
}
use ff_eth_logs.Ingestion.Fetcher.Chain.{IsChain, wanted_logs, sort_by-InOrder, logs_of-InOrder}

-- Whenever the provider answers, it answers with the logs of these blocks: eth_getLogs with those that
-- the topic filter selects, and the receipts of a block with all of its logs.
pub record Provides (keccak256 : String → Hash) (C : EthClient) (blocks : ℕ → List Log)
    : Type 0 where
  pub filtered : Serves C (topics keccak256 ∷ []) (wanted_logs keccak256 blocks)
  pub receipts_of :
      (n : ℕ) (s : C.State) (rs : List (List Log))
      → (C.block_receipts n s).0 ≡ ok rs
      → receipt_logs rs ≡ blocks n

module _ (keccak256 : String → Hash) (C : EthClient) where
  -- A failure that is the context's or the provider's: it failed a request for logs with an error that
  -- is not about the size of the answer, or a request for receipts.
  abbrev pub Refused : FetchError → Type 0
  Refused (walk (interrupted logs)) = Cancelled C
  Refused (walk (rpc e)) =
      (is_too_many_results_error (some e) ≡ false)
      × ((first : ℕ) × (last : ℕ) × Failed C (topics keccak256 ∷ []) first last e)
  Refused (walk (single_block_overflow n e)) = ⊥
  Refused (walk (step_size_exhausted from current_to e)) = ⊥
  Refused (walk no_bounds) = ⊥
  Refused (walk diverged) = ⊥
  Refused (receipts n e) = (s : C.State) × ((C.block_receipts n s).0 ≡ err e)
  Refused too_deep = ⊥

logs_between-split :
    (at : ℕ → List Log) (from mid to_block : ℕ)
    → from ≤ mid
    → mid ≤ suc to_block
    → logs_between at from to_block ≡ logs_of at from (mid - from) ++ logs_between at mid to_block
unfolding logs_between
logs_between-split at from mid to_block h k =
    let e₁ : (mid - from) + (suc to_block - mid) ≡ suc to_block - from = omega arith in
    let e₂ : from + (mid - from) ≡ mid = omega arith in
    rw (e₁, e₂) at (logs_of-append at from (mid - from) (suc to_block - mid))

logs_between-first :
    (at : ℕ → List Log) (n to_block : ℕ)
    → n ≤ to_block
    → logs_between at n to_block ≡ at n ++ logs_between at (suc n) to_block
unfolding logs_between logs_of
logs_between-first at n to_block h =
    let e : suc to_block - n ≡ suc (suc to_block - suc n) = omega arith in rw e refl

module _ (keccak256 : String → Hash) (C : EthClient) (span_cap : ℕ) (blocks : ℕ → List Log)
    (cap_bound : span_cap + 1 < u64_mod) (chain : IsChain blocks)
    (provides : Provides keccak256 C blocks) where
  abbrev Exactly : List Log → Fetch keccak256 C span_cap → Type 0
  Exactly logs = Ensures (λ s. Unit {0}) (λ found s. found ≡ logs) (λ e s. Refused keccak256 C e)

  dense-Exactly :
      (n : ℕ) → Exactly (wanted_logs keccak256 blocks n) (dense_block_logs keccak256 C span_cap n)
  unfolding dense_block_logs
  dense-Exactly n = record {
    at = λ s p. elim (Result-cases (C.block_receipts n s).0) [
      | inl (rs, e) ↦ rw e (rw (provides.receipts_of n s rs e) refl)
      | inr (x, e) ↦ rw e (s, e)
    ];
  }

  abbrev Fetches : ℕ → Type 0
  Fetches fuel =
      (from to_block : ℕ)
      → from ≤ suc to_block
      → to_block + default_step_size < u64_mod
      → suc to_block - from < fuel
      → Exactly (logs_between (wanted_logs keccak256 blocks) from to_block)
          (fetch_ingestion_logs keccak256 C span_cap fuel from to_block)

  below-Exactly :
      (fuel : ℕ)
      → Fetches fuel
      → (from to_block n : ℕ) → from ≤ n
      → n ≤ to_block
      → to_block + default_step_size < u64_mod
      → suc to_block - from ≤ fuel
      → Exactly (logs_of (wanted_logs keccak256 blocks) from (n - from)) (
          if ltb from n
          then fetch_ingestion_logs keccak256 C span_cap fuel from (sub64 n 1)
          else pure [])
  unfolding sub64 logs_of logs_between
  below-Exactly fuel smaller from to_block n low high bound enough =
      elim (Bool-cases (ltb from n)) [
        | inl h ↦
            let e : (n + u64_mod - 1) % u64_mod ≡ n - 1 = ground arith in
            let e' : suc (n - 1) ≡ n = ground arith in
            let part = smaller from (n - 1) (ground arith) (ground arith) (ground arith) in
            rw (h, e) (rw e' at part)
        | inr h ↦ let e : n - from ≡ 0 = ground arith in rw (h, e) (Ensures-pure [] (λ s p. refl))
      ]

  above-Exactly :
      (fuel : ℕ)
      → Fetches fuel
      → (from to_block n : ℕ) → from ≤ n
      → n ≤ to_block
      → to_block + default_step_size < u64_mod
      → suc to_block - from ≤ fuel
      → Exactly (logs_between (wanted_logs keccak256 blocks) (suc n) to_block) (
          if ltb n to_block
          then fetch_ingestion_logs keccak256 C span_cap fuel (add64 n 1) to_block
          else pure [])
  unfolding add64 logs_of logs_between
  above-Exactly fuel smaller from to_block n low high bound enough =
      elim (Bool-cases (ltb n to_block)) [
        | inl h ↦
            let e : (n + 1) % u64_mod ≡ suc n = ground arith in
            rw (h, e) (smaller (suc n) to_block (ground arith) bound (ground arith))
        | inr h ↦
            let e : suc to_block - suc n ≡ 0 = ground arith in
            rw (h, e) (Ensures-pure [] (λ s p. refl))
      ]

  -- Three fetches in a row, each of a part.
  three-Exactly :
      (a b c : List Log) (f g h : Fetch keccak256 C span_cap)
      → Exactly a f
      → Exactly b g
      → Exactly c h
      → Exactly (a ++ (b ++ c)) (do x ← f; y ← g; z ← h; pure (x ++ (y ++ z)))
  three-Exactly a b c f g h ef eg eh =
      Ensures-bind f (λ x. do y ← g; z ← h; pure (x ++ (y ++ z))) ef
        (λ x. record {
          at = λ s ex.
              (Ensures-bind g (λ y. do z ← h; pure (x ++ (y ++ z))) eg
                  (λ y. record {
                    at = λ s' ey.
                        (Ensures-bind h (λ z. pure (x ++ (y ++ z))) eh
                            (λ z. Ensures-pure (x ++ (y ++ z)) (λ s'' ez. rw (ex, ey, ez) refl))).at
                          s' tt;
                  })).at
                s tt;
        })

  around-Exactly :
      (fuel : ℕ)
      → Fetches fuel
      → (from to_block n : ℕ) → from ≤ n
      → n ≤ to_block
      → to_block + default_step_size < u64_mod
      → suc to_block - from ≤ fuel
      → Exactly (logs_between (wanted_logs keccak256 blocks) from to_block) (
          fetch_around keccak256 C span_cap
            (fetch_ingestion_logs keccak256 C span_cap fuel)
            from
            to_block
            n)
  unfolding fetch_around
  around-Exactly fuel smaller from to_block n low high bound enough =
      let fetch = fetch_ingestion_logs keccak256 C span_cap fuel in
      let at = wanted_logs keccak256 blocks in
      let whole : logs_of at from (n - from) ++ (at n ++ logs_between at (suc n) to_block)
          ≡ logs_between at from to_block =
        sym (
          logs_between-split at from n to_block low (omega arith)
          ∙ ap (λ logs. logs_of at from (n - from) ++ logs)
              (logs_between-first at n to_block high)) in
      rw whole at (
        three-Exactly (logs_of at from (n - from)) (at n) (logs_between at (suc n) to_block)
          (if ltb from n then fetch from (sub64 n 1) else pure [])
          (dense_block_logs keccak256 C span_cap n)
          (if ltb n to_block then fetch (add64 n 1) to_block else pure [])
          (below-Exactly fuel smaller from to_block n low high bound enough) (dense-Exactly n)
          (above-Exactly fuel smaller from to_block n low high bound enough))

  -- The sort at the end of each fetch finds the logs in order.
  sorted-Exactly :
      (from to_block : ℕ) (r : Result FetchError (List Log)) (s : C.State)
      → Outcome
          (λ found s. found ≡ logs_between (wanted_logs keccak256 blocks) from to_block)
          (λ e s. Refused keccak256 C e)
          r
          s
      → Outcome
          (λ found s. found ≡ logs_between (wanted_logs keccak256 blocks) from to_block)
          (λ e s. Refused keccak256 C e)
          (sorted r)
          s
  unfolding logs_between
  sorted-Exactly from to_block (ok logs) s e = rw e (
      sort_by-InOrder (logs_between (wanted_logs keccak256 blocks) from to_block)
        (logs_of-InOrder keccak256 blocks chain from (suc to_block - from)))
  sorted-Exactly from to_block (err x) s e = e

  settle-Exactly :
      (from to_block : ℕ) (walked : Result WalkError (List Log))
      (around : ℕ → Fetch keccak256 C span_cap) (s : C.State)
      → Fetched C (topics keccak256 ∷ []) from to_block walked
      → ((n : ℕ)
          → from ≤ n
          → n ≤ to_block
          → Exactly (logs_between (wanted_logs keccak256 blocks) from to_block) (around n))
      → Outcome
          (λ found s. found ≡ logs_between (wanted_logs keccak256 blocks) from to_block)
          (λ e s. Refused keccak256 C e)
          (settle keccak256 C span_cap walked around s).0
          (settle keccak256 C span_cap walked around s).1
  unfolding logs_between
  settle-Exactly from to_block (ok logs) around s h k =
      sorted-Exactly from to_block (ok logs) s
        (Covers-logs C (topics keccak256 ∷ []) (wanted_logs keccak256 blocks) provides.filtered from
          (suc to_block) logs h).1
  settle-Exactly from to_block (err (interrupted logs)) around s h k = h.0
  settle-Exactly from to_block (err (rpc e)) around s h k = h
  settle-Exactly from to_block (err (single_block_overflow n e)) around s h k =
      sorted-Exactly from to_block (around n s).0 (around n s).1 ((k n h.0 h.1).at s tt)
  settle-Exactly from to_block (err (step_size_exhausted a b e)) around s h k = absurd h
  settle-Exactly from to_block (err no_bounds) around s h k = absurd h
  settle-Exactly from to_block (err diverged) around s h k = absurd h

  fetch-Exactly : (fuel : ℕ) → Fetches fuel
  unfolding fetch_ingestion_logs
  fetch-Exactly zero from to_block h bound enough = absurd (omega arith)
  fetch-Exactly (suc fuel) from to_block h bound enough = record {
    at = λ s p.
        let walked = filter_logs C span_cap (topics keccak256 ∷ []) (some from) (some to_block) s in
        settle-Exactly from to_block walked.0
          (fetch_around keccak256 C span_cap (fetch_ingestion_logs keccak256 C span_cap fuel) from
            to_block)
          walked.1
          (filter_logs-Fetched C (topics keccak256 ∷ []) span_cap from to_block s h bound cap_bound)
          (λ n low high.
            around-Exactly fuel (fetch-Exactly fuel) from to_block n low high bound (omega arith));
  }

  -- The fetch from a provider whose answers are those of one chain, whose logs have the heights of
  -- their blocks and stand in the order of their indices: on one round of fuel more than the range has
  -- blocks it returns exactly the logs of the range with a first topic of the warehouse, none lost,
  -- doubled or out of order, also around blocks that overflow the provider's cap on results and are
  -- read from their receipts. It fails only with the error of a done context, of a request for logs
  -- that failed for another reason than its size, or of a request for receipts. The last block is a
  -- million or more below 2^64, the span cap is below 2^64 - 1, and the range starts at most one above
  -- its end.
  pub fetch_ingestion_logs-logs_between :
      (from to_block : ℕ) (s : C.State)
      → from ≤ suc to_block
      → to_block + default_step_size < u64_mod
      → Outcome
          (λ found _. found ≡ logs_between (wanted_logs keccak256 blocks) from to_block)
          (λ e _. Refused keccak256 C e)
          (fetch_ingestion_logs keccak256 C span_cap (suc (suc to_block) - from) from to_block s).0
          (fetch_ingestion_logs keccak256 C span_cap (suc (suc to_block) - from) from to_block s).1
  fetch_ingestion_logs-logs_between from to_block s h bound =
      (fetch-Exactly (suc (suc to_block) - from) from to_block h bound (omega arith)).at s tt
