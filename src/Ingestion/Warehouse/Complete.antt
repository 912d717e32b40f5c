-- ===== src/Ingestion/Warehouse/Complete.antt =====
-- A batch that is ingested from a provider of one chain: what of the chain is in the tables.
use ff_eth_logs.Base.{
  ℕ, zero, suc, ◌+◌, ◌-◌, ◌≡◌, ◌≤◌, ◌<◌, ◌==◌, Bool, true, false, List, [], ◌∷◌, String, All,
  u64_mod, arith, map, filter, filter-append, filter-filter, filter_congr, refl, ap, sym,
  All-filter, ◌∙◌, ◌&&◌, ◌≢◌, elem,
}
use native.Mathlib.Decide.{ℕ_discrete}
use mathlib.Core.List.{append-nil}
use ff_eth_logs.Base.Exec.{Result, ok, err}
use ff_eth_logs.Base.Ensures.{weaken_outcome, Outcome}
use ff_eth_logs.Eventset.{Hash, topics, keep}
use ff_eth_logs.Eventset.Keep.{keep-elem}
use ff_eth_logs.Chain.{EthClient, Log}
use ff_eth_logs.Chain.Pagination.Complete.{logs_of, logs_between}
use ff_eth_logs.Logstore.{Database, log_row, logs_at}
use ff_eth_logs.Logstore.Write.{Statement}
use ff_eth_logs.Logstore.Read.{Access}
use ff_eth_logs.Ingestion.Subscriber.{Config, World}
use ff_eth_logs.Ingestion.Batch.{ingest_batch}
use ff_eth_logs.Ingestion.Fetcher.{FetchError, is_wanted, fetch_ingestion_logs}
use ff_eth_logs.Ingestion.Fetcher.Chain.{IsChain, wanted_logs}
use ff_eth_logs.Ingestion.Fetcher.Complete.{Provides, Refused, fetch_ingestion_logs-logs_between}
use ff_eth_logs.Ingestion.Aligned.{Numbers, IsHeight, AlignedAt, Stops}
use ff_eth_logs.Ingestion.Warehouse.{store}
use ff_eth_logs.Ingestion.Warehouse.Laws.{store_laws}
use ff_eth_logs.Ingestion.Warehouse.Runs.{logstore, Stored, ingest_batch-Stored}

filter-All :
    (n : ℕ) (xs : List Log)
    → All (λ l. l.block_number ≡ n) xs
    → filter (λ l. l.block_number == n) xs ≡ xs
unfolding filter
filter-All n [] a = refl
filter-All n (x ∷ xs) a = ground (arith, a.0, filter-All n xs a.1)

filter_none :
    (m n : ℕ) (xs : List Log)
    → m ≢ n
    → All (λ l. l.block_number ≡ m) xs
    → filter (λ l. l.block_number == n) xs ≡ []
unfolding filter
filter_none m n [] d a = refl
filter_none m n (x ∷ xs) d a = ground (arith, a.0, d, filter_none m n xs d a.1)

pub filter_swap :
    (p q : Log → Bool) (xs : List Log) → filter p (filter q xs) ≡ filter q (filter p xs)
unfolding filter
filter_swap p q xs =
    filter-filter p q xs
    ∙ (filter_congr (λ x. q x && p x) (λ x. p x && q x) xs (λ x. ground arith)
        ∙ sym (filter-filter q p xs))

module _ (at : ℕ → List Log) (numbered : (n : ℕ) → All (λ l. l.block_number ≡ n) (at n)) where
  logs_of-below :
      (n first count : ℕ)
      → n < first
      → filter (λ l. l.block_number == n) (logs_of at first count) ≡ []
  unfolding logs_of filter
  logs_of-below n first zero h = refl
  logs_of-below n first (suc count) h =
      rw
        (
          filter-append (λ l. l.block_number == n) (at first) (logs_of at (suc first) count),
          filter_none first n (at first) (omega arith) (numbered first),
          logs_of-below n (suc first) count (omega arith),
        )
        refl

  -- One block's logs out of those of consecutive blocks.
  logs_of-at :
      (n first count : ℕ)
      → first ≤ n
      → n < first + count
      → filter (λ l. l.block_number == n) (logs_of at first count) ≡ at n
  unfolding logs_of filter
  logs_of-at n first zero h k = absurd (omega arith)
  logs_of-at n first (suc count) h k =
      rw (filter-append (λ l. l.block_number == n) (at first) (logs_of at (suc first) count))
        (elim (ℕ_discrete first n) [
          | yes e ↦
              let later = logs_of-below n (suc first) count (omega arith) in
              rw (later, append-nil) (filter-All n (at first) (rw e (numbered n)) ∙ ap at e)
          | no d ↦
              rw (filter_none first n (at first) d (numbered first))
                (logs_of-at n (suc first) count (omega (arith, d)) (omega arith))
        ])

and_absorbs : (a b : Bool) → (b ≡ true → a ≡ true) → (a && b) ≡ b
and_absorbs a true h = rw (h refl) refl
and_absorbs true false h = refl
and_absorbs false false h = refl

module _ (keccak256 : String → Hash) where
  kept_wanted :
      (ts : List Hash) (address : ℕ)
      → (is_wanted (topics keccak256) ts && keep keccak256 ts address) ≡ keep keccak256 ts address
  unfolding keep
  kept_wanted [] address = refl
  kept_wanted (topic0 ∷ rest) address =
      and_absorbs (elem topic0 (topics keccak256)) (keep keccak256 (topic0 ∷ rest) address)
        (keep-elem keccak256 topic0 rest address)

  -- The kept logs of a height out of a fetch of consecutive blocks of a chain.
  kept_at :
      (blocks : ℕ → List Log) (chain : IsChain blocks) (n from to_block : ℕ)
      → from ≤ n
      → n ≤ to_block
      → filter
          (λ l. l.block_number == n)
          (filter
            (λ l. keep keccak256 l.topics l.address)
            (logs_between (wanted_logs keccak256 blocks) from to_block))
        ≡ filter (λ l. keep keccak256 l.topics l.address) (blocks n)
  unfolding logs_between
  kept_at blocks chain n from to_block h k =
      let wanted : Log → Bool = λ l. is_wanted (topics keccak256) l.topics in
      let kept : Log → Bool = λ l. keep keccak256 l.topics l.address in
      filter_swap (λ l. l.block_number == n) kept
        (logs_of (wanted_logs keccak256 blocks) from (suc to_block - from))
      ∙ (ap (filter kept) (
            logs_of-at (wanted_logs keccak256 blocks)
              (λ m. All-filter (λ l. l.block_number ≡ m) wanted (blocks m) (chain.numbered m)) n
              from (suc to_block - from) h (omega arith))
          ∙ (filter-filter kept wanted (blocks n)
              ∙ filter_congr (λ l. wanted l && kept l) kept (blocks n)
                  (λ l. kept_wanted l.topics l.address)))

  -- The rows of these heights are those of the chain's logs that the warehouse keeps.
  abbrev pub HoldsChain : (ℕ → List Log) → ℕ → ℕ → Database → Type 0
  HoldsChain blocks from to_block db =
      (n : ℕ)
      → from ≤ n
      → n ≤ to_block
      → logs_at n db.logs ≡ map log_row (filter (λ l. keep keccak256 l.topics l.address) (blocks n))

module _ (keccak256 : String → Hash) (C : EthClient) (config : Config) (span_cap : ℕ)
    (faults : ℕ → Statement → Bool) (read_faults : ℕ → Access → Bool) (numbers : Numbers C)
    (cap_bound : span_cap + 1 < u64_mod) (blocks : ℕ → List Log) (chain : IsChain blocks)
    (provides : Provides keccak256 C blocks) where
  fetched-logs :
      (from to_block : ℕ) (logs : List Log) (r : Result FetchError (List Log)) (s : C.State)
      → r ≡ ok logs
      → Outcome
          (λ found _. found ≡ logs_between (wanted_logs keccak256 blocks) from to_block)
          (λ e _. Refused keccak256 C e)
          r
          s
      → logs ≡ logs_between (wanted_logs keccak256 blocks) from to_block
  fetched-logs from to_block logs (ok found) s e o = cc
  fetched-logs from to_block logs (err x) s e o = absurd (cc e)

  Stored-HoldsChain :
      (from to_block : ℕ)
      (w : World C (logstore keccak256 C config span_cap faults read_faults numbers cap_bound))
      → from ≤ to_block
      → IsHeight to_block
      → Stored keccak256 C config span_cap faults read_faults numbers cap_bound from to_block w
      → HoldsChain keccak256 blocks from to_block w.sink.database
  Stored-HoldsChain from to_block w h bound stored n low high =
      let c = stored.0 in
      let fetched =
        fetched-logs from to_block c.logs
          (fetch_ingestion_logs keccak256 C span_cap (suc (suc to_block) - from) from to_block
            c.asked).0
          (fetch_ingestion_logs keccak256 C span_cap (suc (suc to_block) - from) from to_block
            c.asked).1
          c.fetched
          (fetch_ingestion_logs-logs_between keccak256 C span_cap blocks cap_bound chain provides
            from to_block c.asked (omega (arith, h)) bound) in
      (stored.1 n (ground arith)).1
      ∙ ap (map log_row) (
          ap
            (λ logs.
              filter (λ l. l.block_number == n)
                (filter (λ l. keep keccak256 l.topics l.address) logs))
            fetched
          ∙ kept_at keccak256 blocks chain n from to_block low high)

  pub ingest_batch-HoldsChain :
      (from to_block : ℕ) (w : World C (store faults read_faults))
      → from ≤ to_block
      → IsHeight to_block
      → AlignedAt C (store faults read_faults) (store_laws faults read_faults) from w
      → Outcome
          (λ _ w'. HoldsChain keccak256 blocks from to_block w'.sink.database)
          (Stops C (store faults read_faults) (store_laws faults read_faults))
          (ingest_batch keccak256 C (store faults read_faults) span_cap from to_block w).0
          (ingest_batch keccak256 C (store faults read_faults) span_cap from to_block w).1
  ingest_batch-HoldsChain from to_block w h bound p =
      weaken_outcome
        (λ _ w'.
          Stored keccak256 C config span_cap faults read_faults numbers cap_bound from to_block w')
        (λ _ w'. HoldsChain keccak256 blocks from to_block w'.sink.database)
        (Stops C (store faults read_faults) (store_laws faults read_faults))
        (ingest_batch keccak256 C (store faults read_faults) span_cap from to_block w).0
        (ingest_batch keccak256 C (store faults read_faults) span_cap from to_block w).1
        (λ _ w' stored. Stored-HoldsChain from to_block w' h bound stored)
        (ingest_batch-Stored keccak256 C config span_cap faults read_faults numbers cap_bound from
          to_block w h bound p)
