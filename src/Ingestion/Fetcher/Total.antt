-- ===== src/Ingestion/Fetcher/Total.antt =====
-- The fetch ends, and what it returns.
use ff_eth_logs.Base.{
  false, ℕ, zero, suc, ◌+◌, ◌-◌, ◌≡◌, ◌≤◌, ◌<◌, Bool, true, List, [], ◌∷◌, some, String, ltb, arith,
  inl, inr, u64_mod, add64, sub64, refl, if◌then◌else◌,
}
use ff_eth_logs.Base.Sort.{Ordered, sort_by-Ordered}
use ff_eth_logs.Base.Exec.{pure, continue, Result, ok, err, Exec, Result-cases}
use ff_eth_logs.Eventset.{Hash, topics}
use ff_eth_logs.Chain.{Log, EthClient}
use ff_eth_logs.Chain.Pagination.{
  WalkError, filter_logs, single_block_overflow, default_step_size, interrupted, rpc,
  step_size_exhausted, no_bounds, diverged,
}
use ff_eth_logs.Chain.Pagination.Ranges.{Fetched, filter_logs-Fetched}
use ff_eth_logs.Logstore.Read.Rows.{log_before, log_before_asym}
use ff_eth_logs.Ingestion.Fetcher.{
  Fetch, FetchError, walk, receipts, too_deep, fetch_ingestion_logs, fetch_around, settle,
  dense_block_logs, sorted,
}

-- An error that the fetch gives up with: the context's, one of the provider that is not about the
-- size of an answer, or that of the receipts of a block.
abbrev pub GivesUp : FetchError → Type 0
GivesUp (walk (interrupted logs)) = Unit
GivesUp (walk (rpc e)) = Unit
GivesUp (walk (single_block_overflow n e)) = ⊥
GivesUp (walk (step_size_exhausted from current_to e)) = ⊥
GivesUp (walk no_bounds) = ⊥
GivesUp (walk diverged) = ⊥
GivesUp (receipts n e) = Unit
GivesUp too_deep = ⊥

abbrev pub Settled : Result FetchError (List Log) → Type 0
Settled (ok logs) = Unit
Settled (err e) = GivesUp e

abbrev pub FetchedInOrder : Result FetchError (List Log) → Type 0
FetchedInOrder (ok logs) = Ordered log_before logs
FetchedInOrder (err e) = GivesUp e

forget : (r : Result FetchError (List Log)) → FetchedInOrder r → Settled r
forget (ok logs) h = tt
forget (err e) h = h

continue-Settled :
    {S : Type 0} (r : Result FetchError (List Log)) (s : S)
    (f : List Log → Exec S FetchError (List Log))
    → Settled r
    → ((logs : List Log) (s' : S) → Settled (f logs s').0)
    → Settled (continue r f s).0
continue-Settled (ok logs) s f h k = k logs s
continue-Settled (err e) s f h k = h

sorted-FetchedInOrder : (r : Result FetchError (List Log)) → Settled r → FetchedInOrder (sorted r)
sorted-FetchedInOrder (ok logs) h = sort_by-Ordered log_before log_before_asym logs
sorted-FetchedInOrder (err e) h = h

module _ (keccak256 : String → Hash) (C : EthClient) (span_cap : ℕ)
    (cap_bound : span_cap + 1 < u64_mod) where
  dense-Settled : (n : ℕ) (s : C.State) → Settled (dense_block_logs keccak256 C span_cap n s).0
  unfolding dense_block_logs
  dense-Settled n s = elim (Result-cases (C.block_receipts n s).0) [
    | inl (rs, e) ↦ rw e tt
    | inr (x, e) ↦ rw e tt
  ]

  abbrev Fetches : ℕ → Type 0
  Fetches fuel =
      (from to_block : ℕ) (s : C.State)
      → from ≤ suc to_block
      → to_block + default_step_size < u64_mod
      → suc to_block - from < fuel
      → FetchedInOrder (fetch_ingestion_logs keccak256 C span_cap fuel from to_block s).0

  settle-FetchedInOrder :
      (from to_block : ℕ) (walked : Result WalkError (List Log))
      (around : ℕ → Fetch keccak256 C span_cap) (s : C.State)
      → Fetched C (topics keccak256 ∷ []) from to_block walked
      → ((n : ℕ) (s' : C.State) → from ≤ n → n ≤ to_block → Settled (around n s').0)
      → FetchedInOrder (settle keccak256 C span_cap walked around s).0
  settle-FetchedInOrder from to_block (ok logs) around s h k =
      sort_by-Ordered log_before log_before_asym logs
  settle-FetchedInOrder from to_block (err (interrupted logs)) around s h k = tt
  settle-FetchedInOrder from to_block (err (rpc e)) around s h k = tt
  settle-FetchedInOrder from to_block (err (single_block_overflow n e)) around s h k =
      sorted-FetchedInOrder (around n s).0 (k n s h.0 h.1)
  settle-FetchedInOrder from to_block (err (step_size_exhausted a b e)) around s h k = absurd h
  settle-FetchedInOrder from to_block (err no_bounds) around s h k = absurd h
  settle-FetchedInOrder from to_block (err diverged) around s h k = absurd h

  if-Settled :
      (b : Bool) (f : Fetch keccak256 C span_cap) (s : C.State)
      → (b ≡ true → Settled (f s).0)
      → Settled ((if b then f else pure []) s).0
  if-Settled true f s h = h refl
  if-Settled false f s h = tt

  around-Settled :
      (fuel : ℕ)
      → Fetches fuel
      → (from to_block n : ℕ) (s : C.State) → from ≤ n
      → n ≤ to_block
      → to_block + default_step_size < u64_mod
      → suc to_block - from ≤ fuel
      → Settled
          (fetch_around keccak256 C span_cap
            (fetch_ingestion_logs keccak256 C span_cap fuel)
            from
            to_block
            n
            s).0
  unfolding fetch_around add64 sub64
  around-Settled fuel smaller from to_block n s low high bound enough =
      let fetch = fetch_ingestion_logs keccak256 C span_cap fuel in
      let left : Fetch keccak256 C span_cap =
        if ltb from n then fetch from (sub64 n 1) else pure [] in
      let right : Fetch keccak256 C span_cap =
        if ltb n to_block then fetch (add64 n 1) to_block else pure [] in
      continue-Settled (left s).0 (left s).1 _
        (if-Settled (ltb from n) (fetch from (sub64 n 1)) s (λ e.
          forget (fetch from (sub64 n 1) s).0
            (smaller from (sub64 n 1) s (ground arith) (ground arith) (ground arith))))
        (λ a s1.
          continue-Settled (dense_block_logs keccak256 C span_cap n s1).0
            (dense_block_logs keccak256 C span_cap n s1).1 _ (dense-Settled n s1)
            (λ b s2.
              continue-Settled (right s2).0 (right s2).1 _
                (if-Settled (ltb n to_block) (fetch (add64 n 1) to_block) s2 (λ e.
                  forget (fetch (add64 n 1) to_block s2).0
                    (smaller (add64 n 1) to_block s2 (ground arith) bound (ground arith))))
                (λ c s3. tt)))

  fetch-FetchedInOrder : (fuel : ℕ) → Fetches fuel
  unfolding fetch_ingestion_logs
  fetch-FetchedInOrder zero from to_block s h bound enough = absurd (omega arith)
  fetch-FetchedInOrder (suc fuel) from to_block s h bound enough =
      let walked = filter_logs C span_cap (topics keccak256 ∷ []) (some from) (some to_block) s in
      settle-FetchedInOrder from to_block walked.0
        (fetch_around keccak256 C span_cap (fetch_ingestion_logs keccak256 C span_cap fuel) from
          to_block)
        walked.1
        (filter_logs-Fetched C (topics keccak256 ∷ []) span_cap from to_block s h bound cap_bound)
        (λ n s' low high.
          around-Settled fuel (fetch-FetchedInOrder fuel) from to_block n s' low high bound
            (omega arith))

  -- For any provider, whatever it answers: the fetch of a range ends, on one round of fuel more than
  -- the range has blocks. It returns logs in chain order, or fails with the context's error, with an
  -- error of a provider that the walk gives up on, or with that of a block's receipts. A block that
  -- overflows the provider's cap on results is no failure.
  pub fetch_ingestion_logs-FetchedInOrder :
      (from to_block : ℕ) (s : C.State)
      → from ≤ suc to_block
      → to_block + default_step_size < u64_mod
      → FetchedInOrder
          (fetch_ingestion_logs keccak256 C span_cap (suc (suc to_block) - from) from to_block s).0
  fetch_ingestion_logs-FetchedInOrder from to_block s h bound =
      fetch-FetchedInOrder (suc (suc to_block) - from) from to_block s h bound (omega arith)
