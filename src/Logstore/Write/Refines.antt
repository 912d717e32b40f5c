-- ===== src/Logstore/Write/Refines.antt =====
-- The tables as a map from heights to blocks and logs: what each writer does to it.
use ff_eth_logs.Base.{
  ap, Option-cases, some, ltb, append-nil, inr, inl, Bool-cases, [], ◌++◌, not, ◌⊎◌, ◌==◌, filter,
  map, List, add64, sub64, ℕ, if◌then◌else◌, false, u64_mod, ◌<◌, none, length, ◌+◌, arith, ◌≡◌,
  ◌≤◌,
}
use ff_eth_logs.Base.Exec.{ok, err}
use ff_eth_logs.Logstore.{Log, Block, Coverage, Database, log_row, block_at, logs_at, between}
use ff_eth_logs.Logstore.Write.{
  StoreError, Faults, logs_match_blocks, transact, widen, write_body, write_range, rewind,
  rewind_body,
}
use ff_eth_logs.Logstore.Write.Contiguous.{
  Run, block_at-Run_below, block_at-Run_above, insert_blocks-some, insert_logs-some,
  block_at-append, block_at-filter, logs_at-append, logs_at-filter, logs_at-log_row,
  logs_match_blocks-none, hash_of-none,
}
use ff_eth_logs.Logstore.Write.Tables.{kept_blocks, kept_logs, write_body_ok}

-- A writer that returns an error has changed nothing.
pub write_range_failed :
    (faults : Faults) (from to_block : ℕ) (blocks : List Block) (logs : List Log)
    (db db' : Database) (e : StoreError)
    → write_range faults from to_block blocks logs db ≡ (err e, db')
    → db' ≡ db
unfolding write_range
write_range_failed faults from to_block blocks logs db db' e h = ground arith

pub write_range_ok :
    (faults : Faults) (from to_block : ℕ) (blocks : List Block) (logs : List Log)
    (db db' : Database)
    → write_range faults from to_block blocks logs db ≡ (ok tt, db')
    → (length blocks ≡ add64 (sub64 to_block from) 1)
      × (logs_match_blocks logs blocks ≡ none)
      × (write_body faults from to_block blocks logs db ≡ ok db')
unfolding write_range transact
write_range_ok faults from to_block blocks logs db db' h = ground arith

pub run_length :
    (from to_block count : ℕ)
    → from ≤ to_block
    → to_block + 1 < u64_mod
    → count ≡ add64 (sub64 to_block from) 1
    → from + count ≡ to_block + 1
unfolding add64 sub64
run_length from to_block count h k e = omega arith

module _ (faults : Faults) (from to_block : ℕ) (blocks : List Block) (logs : List Log)
    (db db' : Database) (run : Run from blocks) (in_order : from ≤ to_block)
    (bound : to_block + 1 < u64_mod)
    (written : write_range faults from to_block blocks logs db ≡ (ok tt, db')) where
  outside : (n : ℕ) → between from to_block n ≡ false → block_at n blocks ≡ none
  outside n h =
      let inverted = write_range_ok faults from to_block blocks logs db db' written in
      let end = run_length from to_block (length blocks) in_order bound inverted.0 in
      elim (split_range n h) [
        | inl low ↦ block_at-Run_below n from blocks run low
        | inr high ↦ block_at-Run_above n from blocks run (omega (arith, end))
      ]
    where
      split_range : (n : ℕ) → between from to_block n ≡ false → (n < from) ⊎ (to_block < n)
      split_range n h = ground arith

  -- The new tables are the kept rows with the new ones behind.
  tables :
      (db'.blocks ≡ kept_blocks from to_block db ++ blocks)
      × (db'.logs ≡ kept_logs from to_block db ++ map log_row logs)
  tables =
      let inverted = write_range_ok faults from to_block blocks logs db db' written in
      let body = write_body_ok faults from to_block blocks logs db db' inverted.2 in
      (
        insert_blocks-some blocks (kept_blocks from to_block db) db'.blocks body.0,
        insert_logs-some db'.partitions (map log_row logs) (kept_logs from to_block db) db'.logs
            body.1,
      )

  pub block_at-write_range :
      (n : ℕ)
      → block_at n db'.blocks
        ≡ (if between from to_block n then block_at n blocks else block_at n db.blocks)
  block_at-write_range n =
      rw
        (
          tables.0,
          block_at-append n (kept_blocks from to_block db) blocks,
          block_at-filter (λ k. not (between from to_block k)) n db.blocks,
        )
        (elim (Bool-cases (between from to_block n)) [
          | inl here ↦ rw here
          | inr away ↦ rw (away, outside n away) (ground arith)
        ])

  pub logs_at-write_range :
      (n : ℕ)
      → logs_at n db'.logs ≡ (
          if between from to_block n
          then map log_row (filter (λ l. l.block_number == n) logs)
          else logs_at n db.logs)
  logs_at-write_range n =
      rw
        (
          tables.1,
          logs_at-append n (kept_logs from to_block db) (map log_row logs),
          logs_at-filter (λ k. not (between from to_block k)) n db.logs,
          logs_at-log_row n logs,
        )
        (elim (Bool-cases (between from to_block n)) [
          | inl here ↦ rw here
          | inr away ↦ rw (away, strays away) (append-nil (logs_at n db.logs))
        ])
    where
      strays : between from to_block n ≡ false → filter (λ l. l.block_number == n) logs ≡ []
      strays away =
          logs_match_blocks-none n logs blocks
            (write_range_ok faults from to_block blocks logs db db' written).1
            (hash_of-none n blocks (outside n away))

  -- A successful `WriteRange` of a run of blocks replaces, in the map from heights to blocks and
  -- logs, the heights of its range by what it was given, and leaves every other height as it was.
  -- The coverage is widened by the range, and the maintenance flag stays.
  pub write_range-replaces :
      ((n : ℕ)
        → (block_at n db'.blocks
            ≡ (if between from to_block n then block_at n blocks else block_at n db.blocks))
          × (logs_at n db'.logs ≡ (
              if between from to_block n
              then map log_row (filter (λ l. l.block_number == n) logs)
              else logs_at n db.logs)))
      × (db'.cursor ≡ some (widen from to_block db.cursor))
      × (db'.maintenance ≡ db.maintenance)
  write_range-replaces =
      let inverted = write_range_ok faults from to_block blocks logs db db' written in
      let body = write_body_ok faults from to_block blocks logs db db' inverted.2 in
      (
        λ n. (block_at-write_range n, logs_at-write_range n),
        ap (λ d. d.cursor) body.4,
        ap (λ d. d.maintenance) body.4,
      )

pub rewind_tables :
    (faults : Faults) (to_block : ℕ) (db db' : Database)
    → rewind faults to_block db ≡ (ok tt, db')
    → (db'.blocks ≡ filter (λ b. not (ltb to_block b.number)) db.blocks)
      × (db'.logs ≡ filter (λ r. not (ltb to_block r.block_number)) db.logs)
unfolding rewind rewind_body transact
rewind_tables faults to_block db db' h = ground arith

pub rewind_maintenance :
    (faults : Faults) (to_block : ℕ) (db db' : Database)
    → rewind faults to_block db ≡ (ok tt, db')
    → db'.maintenance ≡ db.maintenance
unfolding rewind rewind_body transact
rewind_maintenance faults to_block db db' h = ground arith

-- A successful `Rewind` keeps what stands at or below its height and drops what stands above; it
-- was asked for a height below the head and not below the start of the coverage, of which the start
-- stays and the height becomes the head.
pub rewind-keeps :
    (faults : Faults) (to_block : ℕ) (db db' : Database)
    → rewind faults to_block db ≡ (ok tt, db')
    → ((n : ℕ)
        → (block_at n db'.blocks ≡ (if ltb to_block n then none else block_at n db.blocks))
          × (logs_at n db'.logs ≡ (if ltb to_block n then [] else logs_at n db.logs)))
      × ((c : Coverage) × (db.cursor ≡ some c)
          × (c.start ≤ to_block)
          × (to_block < c.head)
          × (db'.cursor ≡ some (record c { head = to_block })))
unfolding rewind rewind_body transact
rewind-keeps faults to_block db db' h = elim (Option-cases db.cursor) [
  | inl e ↦ absurd (ground arith)
  | inr (c, e) ↦ (
    λ n. (
      rw
          (
            (rewind_tables faults to_block db db' h).0,
            block_at-filter (λ k. not (ltb to_block k)) n db.blocks,
          )
          (ground arith),
      rw
          (
            (rewind_tables faults to_block db db' h).1,
            logs_at-filter (λ k. not (ltb to_block k)) n db.logs,
          )
          (ground arith),
    ),
    (c, e, ground arith, ground arith, ground arith),
  )
]

-- Whatever a writer fails on, the tables stay as they were.
pub rewind_failed :
    (faults : Faults) (to_block : ℕ) (db db' : Database) (e : StoreError)
    → rewind faults to_block db ≡ (err e, db')
    → db' ≡ db
unfolding rewind transact
rewind_failed faults to_block db db' e h = ground arith
