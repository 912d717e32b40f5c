-- ===== src/Backfill/Checks.antt =====
-- internal/backfill/loader.go: what the stages check, and the bodies of their transactions. A statement may fail for a cause outside the model, which `faults` chooses; a failed
-- transaction is rolled back. Reading Parquet is part of the export's record. Rows come out of it as
-- `logRow` and `blockRow` map them. Indexes, statistics and log messages are left out, but for the
-- failures of the statements that make them.
use ff_eth_logs.Base.Int.{int_lt}
use ff_eth_logs.Base.{
  ℕ, zero, suc, ◌+◌, ◌-◌, ◌*◌, ◌/◌, Bool, false, not, ◌&&◌, ◌||◌, List, [], ◌∷◌, ◌++◌, Option, none,
  some, filter, all, length, min, max, add64, sub64, ltb, ◌==◌,
}
use ff_eth_logs.Base.Exec.{Result, ok}
use ff_eth_logs.Base.Results.{◌>>=◌, ◌>>◌, fail_if, or_fail}
use ff_eth_logs.Base.Sort.{sort_by}
use ff_eth_logs.Base.Text.{codes}
use ff_eth_logs.Logstore.{Block, Coverage, Row, Database, partition_blocks, between}
use ff_eth_logs.Logstore.Write.{is_apart, insert_blocks, insert_logs}
use ff_eth_logs.Backfill.Manifest.{
  Text, Manifest, BackfillError, failed, coverage_gap, no_blocks, wrong_blocks, other_export,
  incomplete, missing_part, no_parquet, wrong_rows, outside_rows, Export, same_text, find,
  read_manifest, part_rows, verify_files_under, unit_fingerprint, manifest_part_dir, is_empty,
}

-- A statement of the loader, with the unit that it is about.
pub data Step : Type 0 where
  read_coverage count_blocks make_indexes drop_indexes mark begin delete copy stage record_unit
        commit make_partition :
      Step
  read_unit count_part : Text → Step

-- The database with the table of the units that were loaded.
pub record Site : Type 0 where
  pub database : Database
  pub units : List (Text × Text)

abbrev pub blocks_unit : Text
blocks_unit = codes "blocks"

-- `unitInterval`.
unfoldable pub unit_interval : Manifest → ℕ → ℕ × ℕ
unit_interval m part = (
  max (part * partition_blocks) m.first,
  min (sub64 (add64 (part * partition_blocks) partition_blocks) 1) m.last,
)

-- The partitions of the interval, `count` of them from `part` on.
unfoldable pub parts_from : ℕ → ℕ → List ℕ
parts_from zero part = []
parts_from (suc count) part = part ∷ parts_from count (suc part)

abbrev pub parts_of : Manifest → List ℕ
parts_of m =
    parts_from (suc (m.last / partition_blocks) - m.first / partition_blocks)
      (m.first / partition_blocks)

-- `loadedUnit`, with the empty text for none.
abbrev pub or_empty : Option Text → Text
or_empty none = []
or_empty (some t) = t

abbrev pub lowest_number : List Block → Option ℕ
lowest_number [] = none
lowest_number (b ∷ bs) = elim (lowest_number bs) [
  | none ↦ some b.number
  | some n ↦ some (min b.number n)
]

abbrev pub highest_number : List Block → Option ℕ
highest_number [] = none
highest_number (b ∷ bs) = elim (highest_number bs) [
  | none ↦ some b.number
  | some n ↦ some (max b.number n)
]

abbrev pub is_some_of : Option ℕ → ℕ → Bool
is_some_of none n = false
is_some_of (some m) n = m == n

-- ORDER BY block_number, log_index
abbrev pub in_chain_order : Row → Row → Bool
in_chain_order a b =
    ltb a.block_number b.block_number
    || (a.block_number == b.block_number && int_lt a.log_index b.log_index)

module _ (E : Export) (faults : Step → Bool) where
  abbrev pub Check : Type 0 → Type 0
  Check A = Result BackfillError A

  unfoldable pub statement : Step → Check (Unit {0})
  statement st = fail_if (faults st) failed

  -- `preflightCoverage`.
  unfoldable pub preflight_coverage : Database → Check (Unit {0})
  unfolding statement read_manifest
  preflight_coverage db = do
    m ← read_manifest E
    statement read_coverage
    fail_if (is_apart m.first m.last db.cursor) coverage_gap

  -- `loadedUnit`.
  unfoldable pub loaded_unit : Text → Site → Check Text
  unfolding statement find
  loaded_unit unit s = do statement (read_unit unit); ok (or_empty (find unit s.units))

  -- `verifyUnitLoadedFrom`.
  unfoldable pub verify_unit : Manifest → Text → Text → Site → Check (Unit {0})
  unfolding loaded_unit unit_fingerprint
  verify_unit m unit prefix s = do
    recorded ← loaded_unit unit s
    fail_if (not (same_text recorded (unit_fingerprint E prefix m))) (other_export unit)

  -- `parquetFiles`.
  unfoldable pub parquet_files : Text → Check (List Text)
  parquet_files dir = do
    fail_if (is_empty (E.parquet_in dir)) (no_parquet dir)
    ok (E.parquet_in dir)

  unfoldable pub footer_rows : List Text → Check ℕ
  footer_rows [] = ok 0
  footer_rows (file ∷ rest) = do
    n ← or_fail (E.row_count file) failed
    more ← footer_rows rest
    ok (n + more)

  unfoldable pub rows_of_part : Manifest → ℕ → Database → List Row
  unfolding filter unit_interval
  rows_of_part m part db =
      filter (λ r. between (unit_interval m part).0 (unit_interval m part).1 r.block_number) db.logs

  -- `verifyPart`.
  unfoldable pub verify_part : Manifest → ℕ → Site → Check (Unit {0})
  unfolding part_rows parquet_files footer_rows rows_of_part manifest_part_dir
  verify_part m part s = do
    want ← part_rows E m part
    fail_if (not (E.is_directory (manifest_part_dir part))) (missing_part (manifest_part_dir part))
    files ← parquet_files (manifest_part_dir part)
    footer ← footer_rows files
    fail_if (not (footer == want)) (incomplete (manifest_part_dir part))
    statement (count_part (manifest_part_dir part))
    fail_if (not (length (rows_of_part m part s.database) == want)) (wrong_rows part)

  unfoldable pub verify_parts : Manifest → List ℕ → Site → Check (Unit {0})
  unfolding verify_part verify_unit
  verify_parts m [] s = ok tt
  verify_parts m (part ∷ rest) s = do
    verify_part m part s
    verify_unit m (manifest_part_dir part) (manifest_part_dir part ++ codes "/") s
    verify_parts m rest s

  unfoldable pub blocks_of_interval : Manifest → Database → List Block
  unfolding filter
  blocks_of_interval m db = filter (λ b. between m.first m.last b.number) db.blocks

  -- `verifyLoaded`.
  unfoldable pub verify_loaded : Site → Check Coverage
  unfolding read_manifest statement blocks_of_interval verify_unit verify_parts verify_files_under
  verify_loaded s = do
    m ← read_manifest E
    statement count_blocks
    let blocks = blocks_of_interval m s.database
    fail_if (is_empty blocks) no_blocks
    fail_if
        (not (is_some_of (lowest_number blocks) m.first)
          || (not (is_some_of (highest_number blocks) m.last)
              || not (length blocks == m.block_rows)))
        wrong_blocks
    verify_unit m blocks_unit (codes "blocks/") s
    verify_parts m (parts_of m) s
    verify_files_under E [] m
    ok (record { start = m.first; head = m.last })

  -- The COPY of the files of blocks, trimmed to the interval.
  unfoldable pub copy_blocks : Manifest → List Text → List Block → Check (List Block)
  unfolding statement filter insert_blocks
  copy_blocks m [] table = ok table
  copy_blocks m (file ∷ rest) table = do
    rows ← or_fail (E.block_rows_of file) failed
    statement copy
    more ← or_fail (insert_blocks (filter (λ b. between m.first m.last b.number) rows) table) failed
    copy_blocks m rest more

  abbrev pub other_units : Text → List (Text × Text) → List (Text × Text)
  other_units unit = filter (λ (k, _). not (same_text k unit))

  -- The transaction of `Blocks`.
  unfoldable pub blocks_body : Manifest → List Text → Site → Check Site
  unfolding statement copy_blocks unit_fingerprint filter same_text
  blocks_body m files s = do
    statement begin
    statement delete
    blocks ←
        copy_blocks m files (filter (λ b. not (between m.first m.last b.number)) s.database.blocks)
    statement record_unit
    statement commit
    ok (record {
      database = record s.database { blocks = blocks };
      units =
          (blocks_unit, unit_fingerprint E (codes "blocks/") m) ∷ other_units blocks_unit s.units;
    })

  unfoldable pub staged_rows : List Text → Check (List Row)
  unfolding statement
  staged_rows [] = ok []
  staged_rows (file ∷ rest) = do
    rows ← or_fail (E.log_rows_of file) failed
    statement copy
    more ← staged_rows rest
    ok (rows ++ more)

  -- The transaction of `loadPart`.
  unfoldable pub part_body : Manifest → ℕ → ℕ → List Text → Site → Check Site
  unfolding statement staged_rows insert_logs unit_fingerprint unit_interval filter all sort_by
  part_body m part want files s = do
    statement begin
    statement delete
    let inside =
        λ (r : Row). between (unit_interval m part).0 (unit_interval m part).1 r.block_number
    statement stage
    rows ← staged_rows files
    fail_if (not (length rows == want)) (incomplete (manifest_part_dir part))
    fail_if (not (all inside rows)) (outside_rows part)
    logs ←
        or_fail
          (insert_logs s.database.partitions (sort_by in_chain_order rows)
            (filter (λ r. not (inside r)) s.database.logs))
          failed
    statement record_unit
    statement commit
    ok (record {
      database = record s.database { logs = logs };
      units =
          (manifest_part_dir part, unit_fingerprint E (manifest_part_dir part ++ codes "/") m)
          ∷ other_units (manifest_part_dir part) s.units;
    })
