-- ===== src/Ingestion/Warehouse/Runs.antt =====
-- Ingestion over the log store: what a run leaves in the tables, and what a batch puts there.
use ff_eth_logs.Base.{
  ℕ, ◌+◌, ◌≡◌, ◌≤◌, ◌<◌, ◌==◌, Bool, true, some, List, String, All, u64_mod, arith, map, filter,
  refl,
}
use ff_eth_logs.Base.Exec.{err, Result, ok}
use ff_eth_logs.Base.Ensures.{Outcome, Ensures-weaken}
use ff_eth_logs.Eventset.{Hash}
use ff_eth_logs.Chain.{BlockHead, EthClient, Log}
use ff_eth_logs.Chain.Pagination.{default_step_size}
use ff_eth_logs.Logstore.{Block, Coverage, Database, Row, log_row, block_at, logs_at, between}
use ff_eth_logs.Logstore.Write.{Statement}
use ff_eth_logs.Logstore.Write
use ff_eth_logs.Logstore.Write.Covered.{IsCovered}
use ff_eth_logs.Logstore.Write.Refines.{write_range-replaces}
use ff_eth_logs.Logstore.Read.{Access}
use ff_eth_logs.Ingestion.Sink.{Sink}
use ff_eth_logs.Ingestion.Subscriber.{Config, IngestError, World}
use ff_eth_logs.Ingestion.Batch.{kept_logs, ingest_batch}
use ff_eth_logs.Ingestion.Run.{Event, run}
use ff_eth_logs.Ingestion.Aligned.{Numbers, IsHeight, Ends, AlignedAt, Stops}
use ff_eth_logs.Ingestion.Aligned.Batches.{blocks_of, blocks_of-Run}
use ff_eth_logs.Ingestion.Aligned.Commits.{Committed}
use ff_eth_logs.Ingestion.Aligned.Attempts.{ingest_batch-Committed}
use ff_eth_logs.Ingestion.Aligned.Follows.{IsLow}
use ff_eth_logs.Ingestion.Aligned.Runs.{run-IsWell}
use ff_eth_logs.Ingestion.Warehouse.{Warehouse, WarehouseError, store, written_ok}
use ff_eth_logs.Ingestion.Warehouse.Laws.{store_laws, store_laws-IsWell}

module _ (keccak256 : String → Hash) (C : EthClient) (config : Config) (span_cap : ℕ)
    (faults : ℕ → Statement → Bool) (read_faults : ℕ → Access → Bool) (numbers : Numbers C)
    (cap_bound : span_cap + 1 < u64_mod) where
  abbrev pub logstore : Sink
  logstore = store faults read_faults

  abbrev pub LeavesCovered :
      Result (IngestError WarehouseError) (Unit {0}) → World C logstore → Type 0
  LeavesCovered =
      Outcome (λ _ w. IsCovered w.sink.database) (λ e w. IsCovered w.sink.database × Ends e)

  IsWell-LeavesCovered :
      (r : Result (IngestError WarehouseError) (Unit {0})) (w : World C logstore)
      → Outcome
          (λ _ w'. (store_laws faults read_faults).IsWell w'.sink)
          (λ e w'. (store_laws faults read_faults).IsWell w'.sink × Ends e)
          r
          w
      → LeavesCovered r w
  IsWell-LeavesCovered (ok u) w o = (store_laws-IsWell faults read_faults w.sink).0 o
  IsWell-LeavesCovered (err e) w o = ((store_laws-IsWell faults read_faults w.sink).0 o.0, o.1)

  -- For any provider whose heads have the heights they are asked for, and any failures of it and of the
  -- database: a run on a database whose covered heights all have their block rows leaves it so, whether
  -- it returns or fails. If it fails, it is with an error that is meant to end the process: no
  -- reorganisation and no break between heads escapes the loops, and none of them runs out of rounds.
  -- The cursor, the latest block, which is above genesis, the configured start and the heads are a
  -- million blocks or more below 2^64, and the span cap is below 2^64 - 1.
  pub run-IsCovered :
      (chain_id start_block : ℕ) (events : List Event) (w : World C logstore)
      → IsCovered w.sink.database
      → start_block + default_step_size ≤ u64_mod
      → ((c : ℕ) → (logstore.cursor w.sink).0 ≡ ok (some c) → IsHeight c)
      → ((p : C.State) (n : ℕ) → (C.block_number p).0 ≡ ok n → (0 < n) × IsHeight n)
      → All IsLow events
      → LeavesCovered
          (run keccak256 C logstore config span_cap chain_id start_block events w).0
          (run keccak256 C logstore config span_cap chain_id start_block events w).1
  run-IsCovered chain_id start_block events w covered start resumable latest low =
      IsWell-LeavesCovered
        (run keccak256 C logstore config span_cap chain_id start_block events w).0
        (run keccak256 C logstore config span_cap chain_id start_block events w).1
        (run-IsWell keccak256 C logstore config span_cap (store_laws faults read_faults) numbers
          cap_bound w.sink ((store_laws-IsWell faults read_faults w.sink).1 covered) start_block
          start resumable latest chain_id events w refl low)

  -- The tables at the heights of a batch are those of the heads and of the logs.
  abbrev pub Holds : ℕ → ℕ → List BlockHead → List Log → Database → Type 0
  Holds from to_block hs logs db =
      (n : ℕ)
      → between from to_block n ≡ true
      → (block_at n db.blocks ≡ block_at n (blocks_of from hs))
        × (logs_at n db.logs
            ≡ map log_row
                (filter (λ l. l.block_number == n) (kept_logs keccak256 C logstore span_cap logs)))

  abbrev pub Stored : ℕ → ℕ → World C logstore → Type 0
  Stored from to_block w =
      (c : Committed keccak256 C logstore span_cap from to_block w.sink) × Holds from to_block
        c.heads c.logs w.sink.database

  Committed-Holds :
      (from to_block : ℕ) (s : Warehouse)
      → from ≤ to_block
      → IsHeight to_block
      → (c : Committed keccak256 C logstore span_cap from to_block s)
      → Holds from to_block c.heads c.logs s.database
  Committed-Holds from to_block s h bound c n inside =
      let logs = kept_logs keccak256 C logstore span_cap c.logs in
      let blocks = blocks_of from c.heads in
      let done =
        written_ok
          (ff_eth_logs.Logstore.Write.write_range (faults c.before.calls) from to_block blocks logs)
          tt c.before s c.written in
      let replaces =
        write_range-replaces (faults c.before.calls) from to_block blocks logs c.before.database
          s.database (blocks_of-Run from c.heads) h (omega (arith, bound)) done in
      rw ((replaces.0 n).0, (replaces.0 n).1, inside) (refl, refl)

  -- For any provider whose heads have the heights they are asked for, and any failures of it and of
  -- the database: a batch that is ingested has, at each of its heights, the block of a head and exactly
  -- the kept logs of that height out of one fetch. The heads link, one for each height; each log has the
  -- hash of the block at its height; each block without logs had its hash when it was read again after
  -- that fetch. A
  -- batch that fails leaves the database and the stream aligned, with an error that ends ingestion or
  -- asks for a new plan. Before, they are aligned at the first height of the batch, which is not above
  -- its last; heights are a million or more below 2^64, and the span cap is below 2^64 - 1.
  pub ingest_batch-Stored :
      (from to_block : ℕ) (w : World C logstore)
      → from ≤ to_block
      → IsHeight to_block
      → AlignedAt C logstore (store_laws faults read_faults) from w
      → Outcome
          (λ _ w'. Stored from to_block w')
          (Stops C logstore (store_laws faults read_faults))
          (ingest_batch keccak256 C logstore span_cap from to_block w).0
          (ingest_batch keccak256 C logstore span_cap from to_block w).1
  ingest_batch-Stored from to_block w h bound p =
      (Ensures-weaken (ingest_batch keccak256 C logstore span_cap from to_block) (λ w p. p)
          (λ _ w p. (p.3, Committed-Holds from to_block w.sink h bound p.3))
          (ingest_batch-Committed keccak256 C logstore span_cap (store_laws faults read_faults)
            numbers cap_bound from to_block h bound)).at
        w p
