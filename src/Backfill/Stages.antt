-- ===== src/Backfill/Stages.antt =====
-- The stages in any order, each of which may fail and be run again.
use ff_eth_logs.Base.{◌+◌, ◌≡◌, ◌<◌, inl, inr, Bool, List, [], ◌∷◌, some, u64_mod, sym, subst}
use ff_eth_logs.Base.Exec.{Result, ok, err}
use ff_eth_logs.Base.Ensures.{Outcome}
use ff_eth_logs.Logstore.Write.{Faults}
use ff_eth_logs.Backfill.Manifest.{Manifest, BackfillError, Export}
use ff_eth_logs.Backfill.Checks.{Step, Site}
use ff_eth_logs.Backfill.Loader.{Load, prepare, load_logs, load_blocks, finish}
use ff_eth_logs.Backfill.Counting.{Unique}
use ff_eth_logs.Backfill.Finished.{
  CoveredOutside, Published, Finishes, Unfinished, finish-Published,
}
use ff_eth_logs.Backfill.Loaded.{Stands, Keeps, prepare-Keeps, load_logs-Keeps, load_blocks-Keeps}

pub data Stage : Type 0 where
  prepare_stage logs_stage blocks_stage finish_stage : Stage

-- A run of a stage, with what fails in it.
pub record Attempt : Type 0 where
  pub stage : Stage
  pub faults : Step → Bool
  pub store_faults : Faults

abbrev pub call : (E : Export) (a : Attempt) → Stage → Load E a.faults a.store_faults (Unit {0})
call E a prepare_stage = prepare E a.faults a.store_faults
call E a logs_stage = load_logs E a.faults a.store_faults
call E a blocks_stage = load_blocks E a.faults a.store_faults
call E a finish_stage = finish E a.faults a.store_faults

unfoldable pub perform : Export → List Attempt → Site → Site
unfolding prepare load_logs load_blocks finish
perform E [] s = s
perform E (a ∷ rest) s = perform E rest (call E a a.stage s).1

module _ (E : Export) (m : Manifest) (given : E.manifest ≡ some m)
    (bound : m.last + 1 < u64_mod) where
  published-Stands :
      (faults : Step → Bool) (store_faults : Faults) (s0 : Site)
      (unique : Unique s0.database.blocks) (outside : CoveredOutside m s0.database) (s : Site)
      → Published E faults store_faults m given bound s0 unique outside s
      → Stands m s
  published-Stands faults store_faults s0 unique outside s p = (
    subst Unique (sym p.3) unique,
    λ c e. let filled = p.0 c e in (filled.0, filled.1, λ n low high away. filled.2 n low high),
    inr p.0,
  )

  any_outcome :
      (faults : Step → Bool) (store_faults : Faults) (stage : Load E faults store_faults (Unit {0}))
      → Keeps E faults m store_faults given stage
      → (s : Site) → Stands m s
      → Stands m (stage s).1
  any_outcome faults store_faults stage keeps s p = either (stage s).0 (stage s).1 (keeps.at s p)
    where
      either :
          (r : Result BackfillError (Unit {0})) (s : Site)
          → Outcome (λ u s. Stands m s) (λ e s. Stands m s) r s
          → Stands m s
      either (ok u) s o = o
      either (err e) s o = o

  finish-Stands :
      (faults : Step → Bool) (store_faults : Faults) (s : Site)
      → Stands m s
      → Stands m (finish E faults store_faults s).1
  finish-Stands faults store_faults s p =
      either (finish E faults store_faults s).0 (finish E faults store_faults s).1
        (finish-Published E faults store_faults m given bound s p.0 p.1)
    where
      either :
          (r : Result BackfillError (Unit {0})) (s' : Site)
          → Outcome
              (Finishes E faults store_faults m given bound s p.0 p.1)
              (Unfinished E faults store_faults m given bound s p.0 p.1)
              r
              s'
          → Stands m s'
      either (ok u) s' o = published-Stands faults store_faults s p.0 p.1 s' o.0
      either (err e) s' (inl same) = subst (Stands m) (sym same) p
      either (err e) s' (inr o) = published-Stands faults store_faults s p.0 p.1 s' o.0

  pub call-Stands :
      (a : Attempt) (stage : Stage) (s : Site) → Stands m s → Stands m (call E a stage s).1
  call-Stands a prepare_stage s p =
      any_outcome a.faults a.store_faults (prepare E a.faults a.store_faults)
        (prepare-Keeps E a.faults m a.store_faults given) s p
  call-Stands a logs_stage s p =
      any_outcome a.faults a.store_faults (load_logs E a.faults a.store_faults)
        (load_logs-Keeps E a.faults m a.store_faults given) s p
  call-Stands a blocks_stage s p =
      any_outcome a.faults a.store_faults (load_blocks E a.faults a.store_faults)
        (load_blocks-Keeps E a.faults m a.store_faults given) s p
  call-Stands a finish_stage s p = finish-Stands a.faults a.store_faults s p

  -- For an export whose manifest is `m`: after any stages in any order, whatever fails in them, a block
  -- number has one row at most, every covered height outside the interval of the manifest has its row,
  -- and so have those within it, unless the maintenance flag keeps readers out. This holds before them, and
  -- the last block of the manifest is below 2^64 - 1.
  pub perform-Stands :
      (attempts : List Attempt) (s : Site) → Stands m s → Stands m (perform E attempts s)
  unfolding perform
  perform-Stands [] s p = p
  perform-Stands (a ∷ rest) s p =
      perform-Stands rest (call E a a.stage s).1 (call-Stands a a.stage s p)
