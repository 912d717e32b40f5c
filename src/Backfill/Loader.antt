-- ===== src/Backfill/Loader.antt =====
-- internal/backfill/loader.go: the stages, of which each runs under the locks of the writer and of
-- maintenance. Indexes, statistics and log messages are left out, but for the failures of the
-- statements that make them; the reason of the maintenance flag is shortened.
use ff_eth_logs.Base.{
  ℕ, Bool, true, false, ◌&&◌, List, [], ◌∷◌, ◌++◌, Option, none, some, length, elem, ◌==◌,
  if◌then◌else◌,
}
use ff_eth_logs.Base.Exec.{Exec, Result, ok, err, pure, ◌>>=◌, ◌>>◌}
use ff_eth_logs.Base.Text.{codes}
use ff_eth_logs.Logstore.{Coverage, Database}
use ff_eth_logs.Logstore.Write.{StoreError, Faults, publish_coverage, set_maintenance}
use ff_eth_logs.Backfill.Manifest.{
  Text, Manifest, BackfillError, failed, Export, same_text, read_manifest, part_rows,
  verify_files_under, unit_fingerprint, manifest_part_dir,
}
use ff_eth_logs.Backfill.Checks.{
  Step, count_blocks, make_indexes, drop_indexes, mark, make_partition, count_part, Site,
  blocks_unit, parts_of, Check, statement, preflight_coverage, loaded_unit, parquet_files,
  rows_of_part, blocks_of_interval, verify_loaded, blocks_body, part_body,
}

module _ (E : Export) (faults : Step → Bool) (store_faults : Faults) where
  abbrev pub Load : Type 0 → Type 0
  Load A = Exec Site BackfillError A

  -- What is checked changes nothing.
  abbrev pub checks : {A : Type 0} → (Site → Check E faults A) → Load A
  checks f s = (f s, s)

  -- A transaction is rolled back if it fails.
  abbrev pub finish_transaction : Site → Check E faults Site → Check E faults (Unit {0}) × Site
  finish_transaction s (ok after) = (ok tt, after)
  finish_transaction s (err e) = (err e, s)

  abbrev pub transaction : (Site → Check E faults Site) → Load (Unit {0})
  transaction body s = finish_transaction s (body s)

  abbrev pub of_store : Result StoreError (Unit {0}) → Check E faults (Unit {0})
  of_store (ok u) = ok tt
  of_store (err e) = err failed

  -- A call of the log store.
  abbrev pub calls : Exec Database StoreError (Unit {0}) → Load (Unit {0})
  calls m s = let answer = m s.database in (of_store answer.0, record s { database = answer.1 })

  abbrev pub mark_if : Option Coverage → Load (Unit {0})
  mark_if none = pure tt
  mark_if (some c) = calls (set_maintenance store_faults true "backfill reloading")

  -- `markMaintenance`.
  unfoldable pub mark_maintenance : Load (Unit {0})
  unfolding statement set_maintenance
  mark_maintenance = checks (λ s. statement E faults mark) >> (λ s. mark_if s.database.cursor s)

  -- `Prepare`.
  unfoldable pub prepare : Load (Unit {0})
  unfolding preflight_coverage statement
  prepare =
      checks (λ s. preflight_coverage E faults s.database)
      >> checks (λ s. statement E faults drop_indexes)

  -- The end of `Blocks`, given the fingerprint that is recorded.
  abbrev pub load_blocks_of : Manifest → List Text → Text → Load (Unit {0})
  load_blocks_of m files recorded s =
      if length (blocks_of_interval E faults m s.database) == m.block_rows
        && same_text recorded (unit_fingerprint E (codes "blocks/") m)
      then (ok tt, s)
      else (mark_maintenance >> transaction (blocks_body E faults m files)) s

  -- `Blocks`, given the manifest.
  abbrev pub load_blocks_from : Manifest → Load (Unit {0})
  load_blocks_from m =
      checks (λ s. verify_files_under E (codes "blocks/") m)
      >> (checks (λ s. parquet_files E faults (codes "blocks")) >>= λ files.
          checks (λ s. statement E faults count_blocks)
          >> (checks (loaded_unit E faults blocks_unit) >>= load_blocks_of m files))

  -- `Blocks`.
  unfoldable pub load_blocks : Load (Unit {0})
  unfolding preflight_coverage read_manifest verify_files_under parquet_files statement loaded_unit
      blocks_of_interval same_text unit_fingerprint mark_maintenance blocks_body
  load_blocks =
      checks (λ s. preflight_coverage E faults s.database)
      >> (checks (λ s. read_manifest E) >>= load_blocks_from)

  -- `PartitionDDL`, which its own statement commits.
  unfoldable pub ensure_partition : ℕ → Load (Unit {0})
  unfolding elem
  ensure_partition part s = if faults make_partition then (err failed, s) else (
    ok tt,
    record s {
      database = record s.database {
        partitions =
            if elem part s.database.partitions
            then s.database.partitions
            else part ∷ s.database.partitions;
      };
    },
  )

  -- The end of `loadPart`, given the count of the manifest and the recorded fingerprint.
  abbrev pub load_part_of : Manifest → ℕ → ℕ → List Text → Text → Load (Unit {0})
  load_part_of m part want files recorded s =
      if length (rows_of_part E faults m part s.database) == want
        && same_text recorded (unit_fingerprint E (manifest_part_dir part ++ codes "/") m)
      then (ok tt, s)
      else (mark_maintenance
            >> (ensure_partition part >> transaction (part_body E faults m part want files)))
          s

  -- `loadPart`.
  unfoldable pub load_part : Manifest → ℕ → Load (Unit {0})
  unfolding part_rows verify_files_under parquet_files statement loaded_unit rows_of_part same_text
      unit_fingerprint mark_maintenance ensure_partition part_body manifest_part_dir
  load_part m part = checks (λ s. part_rows E m part) >>= λ want.
      checks (λ s. verify_files_under E (manifest_part_dir part ++ codes "/") m)
      >> (checks (λ s. parquet_files E faults (manifest_part_dir part)) >>= λ files.
          checks (λ s. statement E faults (count_part (manifest_part_dir part)))
          >> (checks (loaded_unit E faults (manifest_part_dir part))
              >>= load_part_of m part want files))

  unfoldable pub load_parts : Manifest → List ℕ → Load (Unit {0})
  unfolding load_part
  load_parts m [] = pure tt
  load_parts m (part ∷ rest) = load_part m part >> load_parts m rest

  -- `Logs`.
  unfoldable pub load_logs : Load (Unit {0})
  unfolding preflight_coverage read_manifest load_parts
  load_logs =
      checks (λ s. preflight_coverage E faults s.database)
      >> (checks (λ s. read_manifest E) >>= λ m. load_parts m (parts_of m))

  -- The end of `Finish`, given the interval that was verified.
  abbrev pub publishes : Coverage → Load (Unit {0})
  publishes cov =
      checks (λ s. statement E faults make_indexes)
      >> (calls (publish_coverage store_faults cov)
          >> calls (set_maintenance store_faults false ""))

  -- `Finish`.
  unfoldable pub finish : Load (Unit {0})
  unfolding preflight_coverage verify_loaded statement publish_coverage set_maintenance
  finish =
      checks (λ s. preflight_coverage E faults s.database)
      >> (checks (verify_loaded E faults) >>= publishes)
