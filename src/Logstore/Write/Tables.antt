-- ===== src/Logstore/Write/Tables.antt =====
-- What a transaction leaves when it succeeds, and that one which fails leaves the tables alone.
use ff_eth_logs.Base.{
  List, ℕ, Option, false, ◌*◌, arith, ◌-◌, [], ◌∷◌, map, ◌/◌, some, not, ◌≤◌, filter, suc, ◌≡◌,
}
use ff_eth_logs.Base.Exec.{ok}
use ff_eth_logs.Logstore.{Log, Block, Coverage, Row, Database, partition_blocks, log_row, between}
use ff_eth_logs.Logstore.Write.{
  Faults, insert_blocks, insert_logs, copy_rows, ensure_partitions, set_coverage, is_apart, widen,
  write_body,
}

-- The tables after a successful `WriteRange`, given the new rows of the two COPYs.
abbrev pub written : ℕ → ℕ → List Block → List Row → Database → Database
written from to_block blocks logs db = record db {
  blocks = blocks;
  logs = logs;
  partitions =
      ensure_partitions (suc (to_block / partition_blocks) - from / partition_blocks)
        (from / partition_blocks * partition_blocks) to_block db.partitions;
  cursor = some (widen from to_block db.cursor);
}

abbrev pub kept_blocks : ℕ → ℕ → Database → List Block
kept_blocks from to_block db = filter (λ b. not (between from to_block b.number)) db.blocks

abbrev pub kept_logs : ℕ → ℕ → Database → List Row
kept_logs from to_block db = filter (λ r. not (between from to_block r.block_number)) db.logs

copy_rows_ok :
    (faults : Faults) (partitions : List ℕ) (logs : List Log) (table table' : List Row)
    → copy_rows faults partitions logs table ≡ ok table'
    → insert_logs partitions (map log_row logs) table ≡ some table'
unfolding copy_rows
copy_rows_ok faults partitions [] table table' h = ground arith
copy_rows_ok faults partitions (l ∷ ls) table table' h = ground arith

set_coverage_ok :
    (faults : Faults) (cov : Coverage) (c : Option Coverage)
    → set_coverage faults cov ≡ ok c
    → (cov.start ≤ cov.head) × (c ≡ some cov)
unfolding set_coverage
set_coverage_ok faults cov c h = ground arith

-- A successful transaction replaced the range in every table, and widened the coverage.
pub write_body_ok :
    (faults : Faults) (from to_block : ℕ) (blocks : List Block) (logs : List Log)
    (db db' : Database)
    → write_body faults from to_block blocks logs db ≡ ok db'
    → (insert_blocks blocks (kept_blocks from to_block db) ≡ some db'.blocks)
      × (insert_logs db'.partitions (map log_row logs) (kept_logs from to_block db) ≡ some db'.logs)
      × (is_apart from to_block db.cursor ≡ false)
      × ((widen from to_block db.cursor).start ≤ (widen from to_block db.cursor).head)
      × (db' ≡ written from to_block db'.blocks db'.logs db)
unfolding write_body
write_body_ok faults from to_block blocks logs db db' h =
    grind (arith, copy_rows_ok, set_coverage_ok)
