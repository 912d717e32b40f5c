-- ===== src/Logstore/Examples.antt =====
-- A range written to a new warehouse, rewound and written again, and instances of what is proved of
-- the writers and of the reads.
use ff_eth_logs.Base.{
  length, all, ◌==◌, add64, sub64, any, elem, ◌<◌, ◌≤◌, ltb, if◌then◌else◌, ◌*◌, refl, ℕ, ◌+◌, ◌≡◌,
  List, [], ◌∷◌, none, some, false, true, Bool, arith, filter, map,
}
use ff_eth_logs.Base.Sort.{Ordered}
use ff_eth_logs.Base.Exec.{ok, err}
use ff_eth_logs.Eventset.{transfer}
use ff_eth_logs.Eventset.Examples.{real_keccak256}
use ff_eth_logs.Chain.{Log}
use ff_eth_logs.Logstore.{between, logs_at, Block, Coverage, Database, log_row, block_at}
use ff_eth_logs.Logstore.Write.{
  widen, write_body, insert_blocks, copy_rows, ensure_partitions, set_coverage, rewind_body, Faults,
  Statement, write_range, rewind, failed,
}
use ff_eth_logs.Logstore.Write.Refines.{write_range-replaces, rewind-keeps}
use ff_eth_logs.Logstore.Write.Covered.{
  new, IsCovered, later, History, History-IsCovered, no_rows, wrote, rewound,
}
use mathlib.Core.List.{Perm}
use ff_eth_logs.Logstore.Read.Spec.{matches}
use ff_eth_logs.Logstore.Read.{too_many_results, Query, Access, filter_logs}
use ff_eth_logs.Logstore.Read.Rows.{Stores, log_before}
use ff_eth_logs.Logstore.Read.Refines.{filter_logs-answer}
use ff_eth_logs.Logstore.Read.Clauses.{build_filter-matches}
use ff_eth_logs.Logstore.Read.Rows.{is_over, scan_log-log_row, pair_of}
use ff_eth_logs.Logstore.Read.{build_filter, holds, scan_log}

abbrev block : ℕ → Block
block n = record { number = n; hash = n + 1000; timestamp = n * 12 }

abbrev blocks : List Block
blocks = block 999_999 ∷ block 1_000_000 ∷ block 1_000_001 ∷ []

-- A Transfer in a block, to the holder `to_holder`.
abbrev pub sample : ℕ → ℕ → ℕ → Log
sample n i to_holder = record {
  address = 7;
  topics = transfer real_keccak256 ∷ 1 ∷ to_holder ∷ 55 ∷ [];
  bytes = 1 ∷ 2 ∷ [];
  block_number = n;
  tx_hash = 77;
  tx_index = 0;
  block_hash = n + 1000;
  block_timestamp = n * 12;
  index = i;
}

abbrev pub logs : List Log
logs = sample 999_999 3 5 ∷ sample 1_000_001 0 5 ∷ sample 1_000_000 4 6 ∷ []

abbrev no_faults : Faults
no_faults st = false

abbrev pub stocked : Database
stocked = record {
  blocks = blocks;
  logs = map log_row logs;
  partitions = 1 ∷ 0 ∷ [];
  cursor = some (record { start = 999_999; head = 1_000_001 });
  maintenance = false;
  reason = "";
}

written : write_range no_faults 999_999 1_000_001 blocks logs no_rows ≡ (ok tt, stocked)
unfolding write_range add64 sub64 write_body insert_blocks any filter copy_rows log_row elem
    ensure_partitions set_coverage
written = refl

write_range-replaces_example :
    ((n : ℕ)
      → (block_at n stocked.blocks
          ≡ (if between 999_999 1_000_001 n then block_at n blocks else block_at n []))
        × (logs_at n stocked.logs ≡ (
            if between 999_999 1_000_001 n
            then map log_row (filter (λ l. l.block_number == n) logs)
            else logs_at n [])))
    × (stocked.cursor ≡ some (widen 999_999 1_000_001 none))
    × (stocked.maintenance ≡ false)
write_range-replaces_example =
    write_range-replaces no_faults 999_999 1_000_001 blocks logs no_rows stocked
      (refl, (refl, (refl, tt))) (omega arith) (omega arith) written

abbrev rewound_rows : Database
rewound_rows = record stocked {
  blocks = block 999_999 ∷ block 1_000_000 ∷ [];
  logs = map log_row (sample 999_999 3 5 ∷ sample 1_000_000 4 6 ∷ []);
  cursor = some (record { start = 999_999; head = 1_000_000 });
}

lowered : rewind no_faults 1_000_000 stocked ≡ (ok tt, rewound_rows)
unfolding rewind log_row rewind_body filter
lowered = refl

rewind-keeps_example :
    ((n : ℕ)
      → (block_at n rewound_rows.blocks
          ≡ (if ltb 1_000_000 n then none else block_at n stocked.blocks))
        × (logs_at n rewound_rows.logs ≡ (if ltb 1_000_000 n then [] else logs_at n stocked.logs)))
    × ((c : Coverage) × (stocked.cursor ≡ some c)
        × (c.start ≤ 1_000_000)
        × (1_000_000 < c.head)
        × (rewound_rows.cursor ≡ some (record c { head = 1_000_000 })))
rewind-keeps_example = rewind-keeps no_faults 1_000_000 stocked rewound_rows lowered

-- A transaction of which the last statement fails is rolled back.
abbrev no_commit : Faults
no_commit st = elim st [ Statement.commit ↦ true | _ ↦ false ]

rolled_back : write_range no_commit 999_999 1_000_001 blocks logs no_rows ≡ (err failed, no_rows)
unfolding write_range add64 sub64 write_body insert_blocks any filter copy_rows log_row elem
    ensure_partitions set_coverage
rolled_back = refl

history : History rewound_rows
history =
    later
      (later new (
        wrote no_faults 999_999 1_000_001 blocks logs (refl, (refl, (refl, tt))) (omega arith)
          (omega arith) written))
      (rewound no_faults 1_000_000 lowered)

History-IsCovered_example : IsCovered rewound_rows
History-IsCovered_example = History-IsCovered history

abbrev pub no_failure : Access → Bool
no_failure a = false

-- The Transfers to holder 5, or of token 55 from anyone.
abbrev query : Query
query = record {
  from_block = 999_999;
  to_block = 1_000_001;
  addresses = 7 ∷ [];
  topics = (transfer real_keccak256 ∷ []) ∷ [] ∷ (5 ∷ []) ∷ [] ∷ [];
  erc1155_id = none;
}

pub stocked-Stores : Stores stocked logs
unfolding block_at
stocked-Stores = (
  refl,
  (
    (omega arith, refl, (omega arith, omega arith)),
    (
      (omega arith, refl, (omega arith, omega arith)),
      ((omega arith, refl, (omega arith, omega arith)), tt),
    ),
  ),
)

filter_logs-answer_example :
    (asked : List Log) × Ordered log_before asked
    × Perm asked (filter (matches real_keccak256 query) logs)
    × (filter_logs real_keccak256 no_failure query 2 stocked
        ≡ (if is_over 2 (length asked) then err too_many_results else ok asked))
filter_logs-answer_example =
    filter_logs-answer real_keccak256 no_failure query 2 stocked logs (omega arith) refl
      stocked-Stores

-- The logs to holder 5, in chain order.
two_found :
    filter_logs real_keccak256 no_failure query 2 stocked
    ≡ ok (sample 999_999 3 5 ∷ sample 1_000_001 0 5 ∷ [])
unfolding filter_logs real_keccak256 log_row
two_found = refl

-- One more than the limit is refused.
over_limit : filter_logs real_keccak256 no_failure query 1 stocked ≡ err too_many_results
unfolding filter_logs real_keccak256 log_row
over_limit = refl

build_filter-matches_example :
    all (holds real_keccak256 (log_row (sample 999_999 3 5))) (build_filter real_keccak256 query)
    ≡ matches real_keccak256 query (sample 999_999 3 5)
build_filter-matches_example =
    build_filter-matches real_keccak256 query (sample 999_999 3 5) (omega arith)

scan_log-log_row_example : scan_log (pair_of (sample 999_999 3 5)) ≡ sample 999_999 3 5
scan_log-log_row_example =
    scan_log-log_row (sample 999_999 3 5) (omega arith) (omega arith, omega arith)
