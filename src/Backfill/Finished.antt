-- ===== src/Backfill/Finished.antt =====
-- What `Finish` publishes.
use ff_eth_logs.Base.{
  ℕ, ◌+◌, ◌≡◌, ◌≢◌, ◌≤◌, ◌<◌, ◌⊎◌, inl, inr, Bool, false, none, some, u64_mod, arith, refl, sym,
  subst, ap, ◌∙◌, Bool-cases,
}
use ff_eth_logs.Base.Exec.{Result, ok, err}
use ff_eth_logs.Base.Ensures.{Ensures, Outcome, Ensures-bind, Ensures-weaken}
use ff_eth_logs.Logstore.{Coverage, Database, block_at, between}
use ff_eth_logs.Logstore.Write.{
  upsert_cursor, publish_body, transact, StoreError, Faults, widen, publish_coverage,
  set_maintenance,
}
use ff_eth_logs.Logstore.Write.Covered.{IsCovered, Filled, publish_coverage-IsCovered}
use ff_eth_logs.Backfill.Manifest.{Manifest, BackfillError, Export}
use ff_eth_logs.Backfill.Checks.{
  make_indexes, Step, Site, Check, statement, preflight_coverage, blocks_of_interval, verify_loaded,
}
use ff_eth_logs.Backfill.Loader.{publishes, of_store, checks, calls, finish}
use ff_eth_logs.Backfill.Counting.{Unique, counted-block_at}
use ff_eth_logs.Backfill.Verified.{Verified, verify_loaded_ok}

publish_coverage_failed :
    (faults : Faults) (cov : Coverage) (db db' : Database) (e : StoreError)
    → publish_coverage faults cov db ≡ (err e, db')
    → db' ≡ db
unfolding publish_coverage transact
publish_coverage_failed faults cov db db' e h = ground (arith, h)

-- What `SetCoverage` leaves but for the cursor.
publish_coverage-tables :
    (faults : Faults) (cov : Coverage) (db db' : Database)
    → publish_coverage faults cov db ≡ (ok tt, db')
    → (db'.blocks ≡ db.blocks)
      × (db'.logs ≡ db.logs)
      × (db'.maintenance ≡ db.maintenance)
      × (db'.cursor ≡ some (widen cov.start cov.head db.cursor))
unfolding publish_coverage publish_body transact
publish_coverage-tables faults cov db db' h =
    (ground (arith, h), ground (arith, h), ground (arith, h), ground (arith, h))

abbrev pub interval : Manifest → Coverage
interval m = record { start = m.first; head = m.last }

-- Every covered height outside the export's interval has its row: what the stages rely on.
abbrev pub CoveredOutside : Manifest → Database → Type 0
CoveredOutside m db =
    (c : Coverage)
    → db.cursor ≡ some c
    → (c.start ≤ c.head)
      × (c.head + 1 < u64_mod)
      × ((n : ℕ)
          → c.start ≤ n
          → n ≤ c.head
          → between m.first m.last n ≡ false
          → block_at n db.blocks ≢ none)

module _ (E : Export) (faults : Step → Bool) (store_faults : Faults) (m : Manifest)
    (given : E.manifest ≡ some m) (bound : m.last + 1 < u64_mod) (s0 : Site)
    (unique : Unique s0.database.blocks) (outside : CoveredOutside m s0.database) where
  -- The interval is published over the tables as they were.
  abbrev pub Published : Site → Type 0
  Published s =
      IsCovered s.database
      × (s.database.cursor ≡ some (widen m.first m.last s0.database.cursor))
      × Verified E faults m s0
      × (s.database.blocks ≡ s0.database.blocks)
      × (s.database.logs ≡ s0.database.logs)
      × (s.units ≡ s0.units)

  abbrev pub Finishes : Unit {0} → Site → Type 0
  Finishes u s = Published s × (s.database.maintenance ≡ false)

  abbrev pub Unfinished : BackfillError → Site → Type 0
  Unfinished e s = (s ≡ s0) ⊎ (Published s × (s.database.maintenance ≡ s0.database.maintenance))

  checks-Ensures :
      {A : Type 0} (f : Site → Check E faults A)
      → Ensures
          (λ s. s ≡ s0)
          (λ a s. (s ≡ s0) × (f s0 ≡ ok a))
          Unfinished
          (checks E faults store_faults f)
  checks-Ensures {A = A} f = record { at = λ s p. answered s p (f s) (ap f (sym p)) }
    where
      answered :
          (s : Site)
          → s ≡ s0
          → (r : Result BackfillError A) → f s0 ≡ r
          → Outcome (λ a s. (s ≡ s0) × (f s0 ≡ ok a)) Unfinished r s
      answered s p (ok a) e = (p, e)
      answered s p (err x) e = inl p

  filled : Verified E faults m s0 → Filled s0.database.blocks (interval m)
  unfolding blocks_of_interval
  filled v = (
    v.0,
    bound,
    λ n low high. counted-block_at m.first m.last n s0.database.blocks unique low high v.1,
  )

  covered : Verified E faults m s0 → IsCovered s0.database
  covered v c e =
      let old = outside c e in
      (
        old.0,
        old.1,
        λ n low high. elim (Bool-cases (between m.first m.last n)) [
          | inl inside ↦ (filled v).2 n (ground (arith, inside)) (ground (arith, inside))
          | inr away ↦ old.2 n low high away
        ],
      )

  publish-Ensures :
      Verified E faults m s0
      → Ensures
          (λ s. s ≡ s0)
          (λ u s. Published s × (s.database.maintenance ≡ s0.database.maintenance))
          Unfinished
          (calls E faults store_faults (publish_coverage store_faults (interval m)))
  publish-Ensures v = record {
    at = λ s p. answered s p (publish_coverage store_faults (interval m) s.database) refl;
  }
    where
      answered :
          (s : Site)
          → s ≡ s0
          → (a : Result StoreError (Unit {0}) × Database)
          → publish_coverage store_faults (interval m) s.database ≡ a
          → Outcome
              (λ u s. Published s × (s.database.maintenance ≡ s0.database.maintenance))
              Unfinished
              (of_store E faults store_faults a.0)
              (record s { database = a.1 })
      answered s p (ok u, db) e =
          let cov = interval m in
          let done : publish_coverage store_faults cov s0.database ≡ (ok tt, db) =
            subst (λ x. publish_coverage store_faults cov x.database ≡ (ok u, db)) p e in
          let tables = publish_coverage-tables store_faults cov s0.database db done in
          (
            (
              publish_coverage-IsCovered store_faults s0.database db (covered v) cov (filled v)
                  done,
              tables.3,
              v,
              tables.0,
              tables.1,
              ap (λ x. x.units) p,
            ),
            tables.2,
          )
      answered s p (err x, db) e = inl (
          ap (λ d. record s { database = d })
            (publish_coverage_failed store_faults (interval m) s.database db x e)
          ∙ p)

  clear-Ensures :
      Ensures
        (λ s. Published s × (s.database.maintenance ≡ s0.database.maintenance))
        Finishes
        Unfinished
        (calls E faults store_faults (set_maintenance store_faults false ""))
  unfolding set_maintenance
  clear-Ensures = record {
    at = λ s p. elim (Bool-cases (store_faults upsert_cursor)) [
      | inl e ↦ rw e (inr p)
      | inr e ↦ rw e (p.0, refl)
    ];
  }

  -- For an export whose manifest is `m`, and whatever fails: `Finish` changes no row and no record of a
  -- unit. If it returns, the interval of the manifest was verified: as many blocks as heights, the
  -- manifest's count of logs in each partition, all of them recorded as loaded from this export, and
  -- files as listed. The coverage is widened by the interval, every covered height has its block row,
  -- and the maintenance flag is off. If it fails, nothing has changed, or the interval is published with
  -- all this, and the flag is as it was. Before, a block number has one row at most, and every covered
  -- height outside the interval has its row; the last block of the manifest is below 2^64 - 1.
  pub finish-Published :
      Outcome Finishes Unfinished
        (finish E faults store_faults s0).0
        (finish E faults store_faults s0).1
  unfolding finish
  finish-Published =
      (Ensures-bind (checks E faults store_faults (λ s. preflight_coverage E faults s.database)) _
          (checks-Ensures (λ s. preflight_coverage E faults s.database))
          (λ _.
            Ensures-bind (checks E faults store_faults (verify_loaded E faults)) _
              (Ensures-weaken (checks E faults store_faults (verify_loaded E faults)) (λ s p. p.0)
                (λ a s p. p) (checks-Ensures (verify_loaded E faults)))
              (λ cov. record { at = λ s p. published cov s p }))).at
        s0 refl
    where
      published :
          (cov : Coverage) (s : Site)
          → (s ≡ s0) × (verify_loaded E faults s0 ≡ ok cov)
          → Outcome Finishes Unfinished
              (publishes E faults store_faults cov s).0
              (publishes E faults store_faults cov s).1
      published cov s p =
          let v = verify_loaded_ok E faults m given bound s0 cov p.1 in
          subst
            (λ c.
              Outcome Finishes Unfinished (publishes E faults store_faults c s).0
                (publishes E faults store_faults c s).1)
            (sym v.0)
            ((Ensures-bind (checks E faults store_faults (λ s. statement E faults make_indexes)) _
                (checks-Ensures (λ s. statement E faults make_indexes))
                (λ _.
                  Ensures-bind
                    (calls E faults store_faults (publish_coverage store_faults (interval m))) _
                    (Ensures-weaken
                      (calls E faults store_faults (publish_coverage store_faults (interval m)))
                      (λ s p. p.0) (λ u s p. p) (publish-Ensures v.1))
                    (λ _. clear-Ensures))).at
              s p.0)
