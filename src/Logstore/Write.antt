-- ===== src/Logstore/Write.antt =====
-- internal/logstore/store.go: the writers. A statement of a transaction may fail for a cause outside
-- the model, which `faults` chooses; a failed transaction is rolled back. Times of update are left
-- out. Heights fit int64, so the casts to the columns' type change nothing.
pub mod Contiguous
pub mod Tables
pub mod Refines
pub mod Covered
use ff_eth_logs.Base.Int.{int_eq}
use ff_eth_logs.Base.{
  ℕ, zero, suc, ◌+◌, ◌-◌, ◌*◌, ◌/◌, ◌≡◌, Bool, true, false, not, ◌&&◌, ◌||◌, List, [], ◌∷◌, ◌++◌,
  Option, none, some, String, map, filter, any, length, min, max, add64, sub64, elem, leb, ltb,
  ◌==◌, if◌then◌else◌,
}
use ff_eth_logs.Base.Exec.{Result, ok, err, Exec}
use ff_eth_logs.Base.Results.{◌>>=◌, ◌>>◌, fail_if, fail_with, or_fail}
use ff_eth_logs.Eventset.{Hash}
use ff_eth_logs.Chain.{Log}
use ff_eth_logs.Logstore.{
  Block, Coverage, Row, Database, partition_blocks, log_row, block_at, between,
}

pub data StoreError : Type 0 where
  block_count_mismatch no_block_hash no_block_row block_hash_differs : StoreError
  coverage_gap nothing_to_rewind : StoreError
  -- A constraint of a table, or a cause outside the model.
  constraint failed : StoreError

-- The statements of the transactions.
pub data Statement : Type 0 where
  begin read_cursor probe_partition delete_logs delete_blocks copy_blocks copy_logs upsert_cursor
        commit :
      Statement

abbrev pub Faults : Type 0
Faults = Statement → Bool

-- `logsMatchBlocks`; the blocks are looked up by number, the last of a number counting, as in the
-- map that the code builds.
unfoldable pub hash_of : ℕ → List Block → Option Hash
hash_of n [] = none
hash_of n (b ∷ bs) = elim (hash_of n bs) [
  | some h ↦ some h
  | none ↦ if b.number == n then some b.hash else none
]

abbrev check_log : Log → Option Hash → Option StoreError
check_log l none = if l.block_hash == 0 then some no_block_hash else some no_block_row
check_log l (some h) =
    if l.block_hash == 0
    then some no_block_hash
    else if h == l.block_hash
    then none
    else some block_hash_differs

unfoldable pub logs_match_blocks : List Log → List Block → Option StoreError
unfolding hash_of
logs_match_blocks [] blocks = none
logs_match_blocks (l ∷ ls) blocks = elim (check_log l (hash_of l.block_number blocks)) [
  | some e ↦ some e
  | none ↦ logs_match_blocks ls blocks
]

abbrev pub statement : Faults → Statement → Result StoreError (Unit {0})
statement faults st = fail_if (faults st) failed

-- `COPY eth_blocks`: the number is the primary key.
abbrev pub same_number : Block → Block → Bool
same_number a b = a.number == b.number

unfoldable pub insert_blocks : List Block → List Block → Option (List Block)
insert_blocks [] table = some table
insert_blocks (b ∷ bs) table =
    let rest = insert_blocks bs (table ++ (b ∷ [])) in
    if any (same_number b) table then none else rest

-- `COPY eth_logs`: the key is the block number with the log index, topic0 is not NULL, and a row
-- needs the partition of its block.
abbrev pub same_key : Row → Row → Bool
same_key a b = a.block_number == b.block_number && int_eq a.log_index b.log_index

abbrev pub is_insertable : List ℕ → Row → Bool
is_insertable partitions r = elim r.topic0 [
  | none ↦ false
  | some _ ↦ elem (r.block_number / partition_blocks) partitions
]

unfoldable pub insert_logs : List ℕ → List Row → List Row → Option (List Row)
insert_logs partitions [] table = some table
insert_logs partitions (r ∷ rs) table =
    let rest = insert_logs partitions rs (table ++ (r ∷ [])) in
    if any (same_key r) table || not (is_insertable partitions r) then none else rest

-- `copyLogs`.
unfoldable pub copy_rows : Faults → List ℕ → List Log → List Row → Result StoreError (List Row)
unfolding insert_logs
copy_rows faults partitions [] table = ok table
copy_rows faults partitions (l ∷ ls) table = do
  statement faults copy_logs
  or_fail (insert_logs partitions (map log_row (l ∷ ls)) table) constraint

-- `ensurePartitions` from the bucket that starts at `lo`, for as many rounds as are left.
unfoldable pub ensure_partitions : ℕ → ℕ → ℕ → List ℕ → List ℕ
ensure_partitions zero lo to_block partitions = partitions
ensure_partitions (suc rounds) lo to_block partitions =
    let rest = ensure_partitions rounds (add64 lo partition_blocks) to_block (
      if elem (lo / partition_blocks) partitions
      then partitions
      else (lo / partition_blocks) ∷ partitions) in
    if leb lo to_block then rest else partitions

-- `setCoverage`, with the table's check that the start is not above the head.
unfoldable pub set_coverage : Faults → Coverage → Result StoreError (Option Coverage)
set_coverage faults cov = do
  statement faults upsert_cursor
  fail_if (ltb cov.head cov.start) constraint
  ok (some cov)

-- A transaction, given the tables that its body leaves: they are kept if it commits, and else it is
-- rolled back.
abbrev pub finish : Database → Result StoreError Database → Result StoreError (Unit {0}) × Database
finish db (ok db') = (ok tt, db')
finish db (err e) = (err e, db)

unfoldable pub transact :
    Faults → (Database → Result StoreError Database) → Exec Database StoreError (Unit {0})
transact faults body db =
    finish db (do statement faults begin; db' ← body db; statement faults commit; ok db')

-- Whether a range does not touch the coverage.
abbrev pub is_apart : ℕ → ℕ → Option Coverage → Bool
is_apart from to_block none = false
is_apart from to_block (some c) = ltb (add64 c.head 1) from || ltb (add64 to_block 1) c.start

-- The coverage with a range added.
abbrev pub widen : ℕ → ℕ → Option Coverage → Coverage
widen from to_block none = record { start = from; head = to_block }
widen from to_block (some c) = record { start = min c.start from; head = max c.head to_block }

unfoldable pub write_body :
    Faults → ℕ → ℕ → List Block → List Log → Database → Result StoreError Database
write_body faults from to_block blocks logs db = do
  statement faults read_cursor
  fail_if (is_apart from to_block db.cursor) coverage_gap
  statement faults probe_partition
  let lo = from / partition_blocks * partition_blocks
  let rounds = suc (to_block / partition_blocks) - from / partition_blocks
  let partitions = ensure_partitions rounds lo to_block db.partitions
  statement faults delete_logs
  let kept_logs = filter (λ r. not (between from to_block r.block_number)) db.logs
  statement faults delete_blocks
  let kept_blocks = filter (λ b. not (between from to_block b.number)) db.blocks
  statement faults copy_blocks
  new_blocks ← or_fail (insert_blocks blocks kept_blocks) constraint
  new_logs ← copy_rows faults partitions logs kept_logs
  cursor ← set_coverage faults (widen from to_block db.cursor)
  ok (record db { blocks = new_blocks; logs = new_logs; partitions = partitions; cursor = cursor })

-- `WriteRange`.
unfoldable pub write_range :
    Faults → ℕ → ℕ → List Block → List Log → Exec Database StoreError (Unit {0})
unfolding transact logs_match_blocks
write_range faults from to_block blocks logs db =
    if length blocks == add64 (sub64 to_block from) 1
    then elim (logs_match_blocks logs blocks) [
      | some e ↦ (err e, db)
      | none ↦ transact faults (write_body faults from to_block blocks logs) db
    ]
    else (err block_count_mismatch, db)

abbrev cannot_rewind : ℕ → Option Coverage → Option StoreError
cannot_rewind to_block none = some nothing_to_rewind
cannot_rewind to_block (some c) =
    if leb c.head to_block
    then some nothing_to_rewind
    else if ltb to_block c.start
    then some coverage_gap
    else none

abbrev lowered : ℕ → Option Coverage → Coverage
lowered to_block none = record { start = to_block; head = to_block }
lowered to_block (some c) = record c { head = to_block }

unfoldable pub rewind_body : Faults → ℕ → Database → Result StoreError Database
unfolding set_coverage
rewind_body faults to_block db = do
  statement faults read_cursor
  fail_with (cannot_rewind to_block db.cursor)
  statement faults delete_logs
  let logs = filter (λ r. not (ltb to_block r.block_number)) db.logs
  statement faults delete_blocks
  let blocks = filter (λ b. not (ltb to_block b.number)) db.blocks
  cursor ← set_coverage faults (lowered to_block db.cursor)
  ok (record db { blocks = blocks; logs = logs; cursor = cursor })

-- `Rewind`. `lowered none` is never reached: `cannot_rewind` fails first.
unfoldable pub rewind : Faults → ℕ → Exec Database StoreError (Unit {0})
unfolding transact
rewind faults to_block = transact faults (rewind_body faults to_block)

unfoldable pub publish_body : Faults → Coverage → Database → Result StoreError Database
unfolding set_coverage
publish_body faults cov db = do
  statement faults read_cursor
  fail_if (is_apart cov.start cov.head db.cursor) coverage_gap
  cursor ← set_coverage faults (widen cov.start cov.head db.cursor)
  ok (record db { cursor = cursor })

-- `SetCoverage`.
unfoldable pub publish_coverage : Faults → Coverage → Exec Database StoreError (Unit {0})
unfolding transact
publish_coverage faults cov = transact faults (publish_body faults cov)

-- `SetMaintenance`.
unfoldable pub set_maintenance : Faults → Bool → String → Exec Database StoreError (Unit {0})
set_maintenance faults on reason db =
    if faults upsert_cursor
    then (err failed, db)
    else (ok tt, record db { maintenance = on; reason = reason })
