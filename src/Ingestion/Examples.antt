-- ===== src/Ingestion/Examples.antt =====
-- A service over a provider that serves windows of at most three blocks and over a log store, run from
-- an empty database and over a reorganisation, and instances of what is proved of ingestion.
use ff_eth_logs.Base.{
  ◌⊎◌, sub64, add64, arith, ℕ, suc, ◌+◌, ◌-◌, ◌≡◌, ◌<◌, Bool, false, List, [], ◌∷◌, some, refl,
}
use ff_eth_logs.Base.Exec.{ok}
use ff_eth_logs.Base.Ensures.{Outcome}
use ff_eth_logs.Eventset.Examples.{real_keccak256}
use ff_eth_logs.Chain.{BlockHead}
use ff_eth_logs.Base.Loop.{loop}
use ff_eth_logs.Logstore.Read
use ff_eth_logs.Chain.Pagination.{walk_window, initial_step}
use ff_eth_logs.Chain.Pagination.Complete.{logs_between}
use ff_eth_logs.Chain.Pagination.Examples.{capped}
use ff_eth_logs.Logstore.{Database, Coverage}
use ff_eth_logs.Logstore.Write.{
  Statement, write_range, write_body, insert_blocks, copy_rows, set_coverage, rewind, rewind_body,
}
use ff_eth_logs.Logstore.Write.Covered.{no_rows}
use ff_eth_logs.Logstore.Read.{Access, cursor_head, read_coverage}
use ff_eth_logs.Ingestion.Fetcher.{fetch_ingestion_logs}
use ff_eth_logs.Ingestion.Fetcher.Total.{FetchedInOrder, fetch_ingestion_logs-FetchedInOrder}
use ff_eth_logs.Ingestion.Sink.{Sink}
use ff_eth_logs.Ingestion.Subscriber.{Config, World, find_fork_point}
use ff_eth_logs.Ingestion.Plan.{plan_range}
use ff_eth_logs.Ingestion.Batch.{ingest_batch}
use ff_eth_logs.Ingestion.Run.{Event, heads, stream_from, follow_chain, run}
use ff_eth_logs.Ingestion.Aligned.{IsHeight, Numbers, Aligned, Stops, Fails}
use ff_eth_logs.Ingestion.Aligned.Plans.{Planned, plan_range-Planned}
use ff_eth_logs.Ingestion.Aligned.Follows.{follow_chain-Aligned}
use ff_eth_logs.Ingestion.Forks.{IsForkPoint, ForkError, find_fork_point-IsForkPoint}
use ff_eth_logs.Ingestion.Guards.{Refused, Admitted, run-Guarded}
use ff_eth_logs.Ingestion.Warehouse.{store}
use ff_eth_logs.Ingestion.Warehouse.Laws.{store_laws, store_laws-StandsAt, StandsAt}
use ff_eth_logs.Ingestion.Warehouse.Runs.{LeavesCovered, Stored, run-IsCovered, ingest_batch-Stored}

fetch_ingestion_logs-FetchedInOrder_example :
    FetchedInOrder (fetch_ingestion_logs real_keccak256 capped 0 (suc (suc 25) - 10) 10 25 0).0
fetch_ingestion_logs-FetchedInOrder_example =
    fetch_ingestion_logs-FetchedInOrder real_keccak256 capped 0 (omega arith) 10 25 0 (omega arith)
      (omega arith)

abbrev no_faults : ℕ → Statement → Bool
no_faults n st = false

abbrev no_read_faults : ℕ → Access → Bool
no_read_faults n a = false

abbrev sound : Sink
sound = store no_faults no_read_faults

abbrev config : Config
config = record { max_catchup_blocks = 100; confirmation_blocks = 2; head_timeout = 0 }

abbrev head : ℕ → BlockHead
head n = record { number = n; hash = n + 1000; parent_hash = n + 999; timestamp = 0 }

abbrev fresh : World capped sound
fresh = record {
  provider = 0;
  sink = record { database = no_rows; calls = 0 };
  stream = stream_from 5;
}

abbrev events : List Event
events = heads (head 8) [] ∷ []

capped-Numbers : Numbers capped
capped-Numbers n s h e = ground (arith, e)

fresh-StandsAt : StandsAt fresh.sink 5
fresh-StandsAt = (λ c e. absurd (cc e), tt)

fresh_at : (store_laws no_faults no_read_faults).At fresh.sink 5
fresh_at = store_laws-StandsAt no_faults no_read_faults fresh.sink 5 fresh-StandsAt

fresh_cursor : (c : ℕ) → (sound.cursor fresh.sink).0 ≡ ok (some c) → IsHeight c
unfolding cursor_head read_coverage
fresh_cursor c e = absurd (cc e)

latest : (p : ℕ) (n : ℕ) → (capped.block_number p).0 ≡ ok n → (0 < n) × IsHeight n
latest p n e = ground (arith, e)

-- A run from block 5 to the two confirmations below head 8.
run_writes :
    (run real_keccak256 capped sound config 0 1 5 events fresh).1.sink.database.cursor
    ≡ some (record { start = 5; head = 6 })
unfolding run sub64 add64 loop walk_window initial_step logs_between cursor_head
    ff_eth_logs.Logstore.Read.stored_block_hash write_range write_body insert_blocks copy_rows
    set_coverage
run_writes = refl

-- A database whose blocks 6 and 7 are not the provider's.
abbrev stale : Database
stale = record {
  blocks =
      (record { number = 5; hash = 1005; timestamp = 0 })
      ∷ (record { number = 6; hash = 33; timestamp = 0 })
      ∷ (record { number = 7; hash = 34; timestamp = 0 })
      ∷ [];
  logs = [];
  partitions = 0 ∷ [];
  cursor = some (record { start = 5; head = 7 });
  maintenance = false;
  reason = "";
}

abbrev after_reorg : World capped sound
after_reorg = record fresh { sink = record { database = stale; calls = 0 } }

-- It is rewound to block 5, and block 6 is written again.
run_rewinds :
    (run real_keccak256 capped sound config 0 1 0 events after_reorg).1.sink.database.blocks
    ≡ (record { number = 5; hash = 1005; timestamp = 0 })
      ∷ (record { number = 6; hash = 1006; timestamp = 0 })
      ∷ []
unfolding run sub64 add64 loop walk_window initial_step logs_between cursor_head
    ff_eth_logs.Logstore.Read.stored_block_hash write_range write_body insert_blocks copy_rows
    rewind rewind_body
run_rewinds = refl

run-IsCovered_example :
    LeavesCovered real_keccak256 capped config 0 no_faults no_read_faults capped-Numbers
      (omega arith)
      (run real_keccak256 capped sound config 0 1 5 events fresh).0
      (run real_keccak256 capped sound config 0 1 5 events fresh).1
run-IsCovered_example =
    run-IsCovered real_keccak256 capped config 0 no_faults no_read_faults capped-Numbers
      (omega arith) 1 5 events fresh fresh-StandsAt.0 (omega arith) fresh_cursor latest
      ((omega arith, tt), tt)

ingest_batch-Stored_example :
    Outcome
      (λ _ w.
        Stored real_keccak256 capped config 0 no_faults no_read_faults capped-Numbers
          (omega arith)
          5
          6
          w)
      (Stops capped sound (store_laws no_faults no_read_faults))
      (ingest_batch real_keccak256 capped sound 0 5 6 fresh).0
      (ingest_batch real_keccak256 capped sound 0 5 6 fresh).1
ingest_batch-Stored_example =
    ingest_batch-Stored real_keccak256 capped config 0 no_faults no_read_faults capped-Numbers
      (omega arith) 5 6 fresh (omega arith) (omega arith)
      ((fresh_at, (omega arith, omega arith), omega arith), refl)

follow_chain-Aligned_example :
    Outcome
      (λ _ w. Aligned capped sound (store_laws no_faults no_read_faults) w)
      (Fails capped sound (store_laws no_faults no_read_faults))
      (follow_chain real_keccak256 capped sound config 0 5 events fresh).0
      (follow_chain real_keccak256 capped sound config 0 5 events fresh).1
follow_chain-Aligned_example =
    follow_chain-Aligned real_keccak256 capped sound config 0 (store_laws no_faults no_read_faults)
      capped-Numbers (omega arith) 5 events fresh fresh_at (omega arith, omega arith)
      ((omega arith, tt), tt)

plan_range-Planned_example :
    Outcome
      (Planned capped sound config (store_laws no_faults no_read_faults) capped-Numbers)
      (Fails capped sound (store_laws no_faults no_read_faults))
      (plan_range capped sound config (head 8 ∷ []) fresh).0
      (plan_range capped sound config (head 8 ∷ []) fresh).1
plan_range-Planned_example =
    plan_range-Planned capped sound config (store_laws no_faults no_read_faults) capped-Numbers
      (head 8 ∷ []) fresh (omega arith, tt) (fresh_at, (omega arith, omega arith), omega arith)

find_fork_point-IsForkPoint_example :
    Outcome
      (λ a w. IsForkPoint capped sound 8 8 a)
      (λ e w. ForkError capped sound 8 e)
      (find_fork_point capped sound 8 after_reorg).0
      (find_fork_point capped sound 8 after_reorg).1
find_fork_point-IsForkPoint_example = find_fork_point-IsForkPoint capped sound 8 after_reorg

run-Guarded_example :
    Refused real_keccak256 capped sound config 0 11155111 5 events fresh
      (run real_keccak256 capped sound config 0 11155111 5 events fresh)
    ⊎ Admitted real_keccak256 capped sound config 0 11155111 5 events fresh
run-Guarded_example = run-Guarded real_keccak256 capped sound config 0 11155111 5 events fresh
