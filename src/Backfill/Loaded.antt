-- ===== src/Backfill/Loaded.antt =====
-- The loading stages, by what they leave of the covered heights and of the maintenance flag.
use ff_eth_logs.Base.{
  ℕ, ◌≡◌, ◌⊎◌, inl, inr, Bool, true, ◌&&◌, List, [], ◌∷◌, ◌++◌, Option, none, some, length, arith,
  refl, sym, subst, ap, ◌∙◌, Bool-cases, ◌==◌,
}
use ff_eth_logs.Base.Exec.{Result, ok, err, ◌>>=◌, ◌>>◌}
use ff_eth_logs.Base.Ensures.{Ensures, Outcome, Ensures-pure, Ensures-bind, Ensures-weaken}
use ff_eth_logs.Base.Text.{codes}
use ff_eth_logs.Logstore.{Coverage, Database, block_at}
use ff_eth_logs.Logstore.Write.{upsert_cursor, Faults, set_maintenance}
use ff_eth_logs.Logstore.Write.Covered.{IsCovered}
use ff_eth_logs.Backfill.Manifest.{
  Text, Manifest, BackfillError, Export, same_text, read_manifest, check_manifest, part_rows,
  verify_files_under, unit_fingerprint, manifest_part_dir,
}
use ff_eth_logs.Backfill.Checks.{
  make_partition, drop_indexes, count_part, rows_of_part, preflight_coverage, parquet_files,
  count_blocks, loaded_unit, blocks_of_interval, mark, Step, Site, blocks_unit, parts_of, Check,
  statement, blocks_body, part_body,
}
use ff_eth_logs.Backfill.Loader.{
  load_blocks_from, finish_transaction, Load, checks, transaction, mark_maintenance, mark_if,
  load_blocks, load_blocks_of, load_part, load_part_of, load_parts, load_logs, prepare,
  ensure_partition,
}
use ff_eth_logs.Backfill.Counting.{Unique}
use ff_eth_logs.Backfill.Finished.{CoveredOutside}
use ff_eth_logs.Backfill.Copies.{SameOutside, blocks_body_ok}

-- A block number has one row at most, every covered height outside the interval has its row, and
-- within it too, unless the maintenance flag keeps readers out.
abbrev pub Stands : Manifest → Site → Type 0
Stands m s =
    Unique s.database.blocks
    × CoveredOutside m s.database
    × ((s.database.maintenance ≡ true) ⊎ IsCovered s.database)

module _ (E : Export) (faults : Step → Bool) (m : Manifest) where
  abbrev pub Stays : {A : Type 0} → A → Site → Type 0
  Stays a s = Stands m s

  abbrev Marked : Site → Type 0
  Marked s = (s.database.cursor ≡ none) ⊎ (s.database.maintenance ≡ true)

  module _ (store_faults : Faults) (given : E.manifest ≡ some m) where
    abbrev pub Keeps : {A : Type 0} → Load E faults store_faults A → Type 0
    Keeps call = Ensures (Stands m) Stays Stays call

    checks-Keeps :
        {A : Type 0} (f : Site → Check E faults A) → Keeps (checks E faults store_faults f)
    checks-Keeps {A = A} f = record { at = λ s p. answered s p (f s) }
      where
        answered : (s : Site) → Stands m s → (r : Result BackfillError A) → Outcome Stays Stays r s
        answered s p (ok a) = p
        answered s p (err x) = p

    manifest-Ensures :
        Ensures
          (Stands m)
          (λ n s. Stands m s × (n ≡ m))
          Stays
          (checks E faults store_faults (λ s. read_manifest E))
    unfolding read_manifest check_manifest
    manifest-Ensures = record { at = λ s p. answered s p (read_manifest E) refl }
      where
        answered :
            (s : Site)
            → Stands m s
            → (r : Result BackfillError Manifest) → read_manifest E ≡ r
            → Outcome (λ n s. Stands m s × (n ≡ m)) Stays r s
        answered s p (ok n) e = (p, ground (arith, e, given))
        answered s p (err x) e = p

    mark_if-Ensures :
        (s : Site) (o : Option Coverage)
        → s.database.cursor ≡ o
        → Stands m s
        → Outcome
            (λ u s. Stands m s × Marked s)
            Stays
            (mark_if E faults store_faults o s).0
            (mark_if E faults store_faults o s).1
    unfolding set_maintenance
    mark_if-Ensures s none e p = (p, inl e)
    mark_if-Ensures s (some c) e p = elim (Bool-cases (store_faults upsert_cursor)) [
      | inl f ↦ rw f p
      | inr f ↦ rw f ((p.0, p.1, inl refl), inr refl)
    ]

    mark_maintenance-Ensures :
        Ensures
          (Stands m)
          (λ u s. Stands m s × Marked s)
          Stays
          (mark_maintenance E faults store_faults)
    unfolding mark_maintenance
    mark_maintenance-Ensures =
        Ensures-bind (checks E faults store_faults (λ s. statement E faults mark)) _
          (checks-Keeps (λ s. statement E faults mark))
          (λ _. record { at = λ s p. mark_if-Ensures s s.database.cursor refl p })

    replaced_outside :
        (before after : Database)
        → SameOutside m before.blocks after.blocks
        → after.cursor ≡ before.cursor
        → CoveredOutside m before
        → CoveredOutside m after
    replaced_outside before after same cursor outside c e =
        let old = outside c (sym cursor ∙ e) in
        (old.0, old.1, λ n low high away gone. old.2 n low high away (sym (same n away) ∙ gone))

    blocks-Ensures :
        (files : List Text)
        → Ensures
            (λ s. Stands m s × Marked s)
            Stays
            Stays
            (transaction E faults store_faults (blocks_body E faults m files))
    blocks-Ensures files = record { at = λ s p. answered s p (blocks_body E faults m files s) refl }
      where
        answered :
            (s : Site)
            → Stands m s × Marked s
            → (r : Result BackfillError Site) → blocks_body E faults m files s ≡ r
            → Outcome Stays Stays
                (finish_transaction E faults store_faults s r).0
                (finish_transaction E faults store_faults s r).1
        answered s p (err x) e = p.0
        answered s p (ok s') e =
            let body = blocks_body_ok E faults m files s s' p.0.0 e in
            (
              body.0,
              replaced_outside s.database s'.database body.1 body.2 p.0.1,
              elim p.1 [
                | inl none_yet ↦ inr (λ c at. absurd (cc (none_yet, at, body.2)))
                | inr marked ↦ inl (body.3 ∙ marked)
              ],
            )

    load_blocks_of-Keeps :
        (files : List Text) (recorded : Text)
        → Keeps (load_blocks_of E faults store_faults m files recorded)
    load_blocks_of-Keeps files recorded = record {
      at = λ s p.
          elim (Bool-cases (
            length (blocks_of_interval E faults m s.database) == m.block_rows
            && same_text recorded (unit_fingerprint E (codes "blocks/") m))) [
              | inl e ↦ rw e p
              | inr e ↦ rw e (
                  (Ensures-bind (mark_maintenance E faults store_faults)
                      (λ _. transaction E faults store_faults (blocks_body E faults m files))
                      mark_maintenance-Ensures (λ _. blocks-Ensures files)).at
                    s p)
            ];
    }

    part_body_ok :
        (part want : ℕ) (files : List Text) (s s' : Site)
        → part_body E faults m part want files s ≡ ok s'
        → (s'.database.blocks ≡ s.database.blocks)
          × (s'.database.cursor ≡ s.database.cursor)
          × (s'.database.maintenance ≡ s.database.maintenance)
    unfolding part_body
    part_body_ok part want files s s' h = (ground (arith, h), ground (arith, h), ground (arith, h))

    -- The manifest that is read is `m`.
    with_manifest-Keeps :
        (f : Manifest → Load E faults store_faults (Unit {0}))
        → Keeps (f m)
        → Keeps (
            checks E faults store_faults (λ s. preflight_coverage E faults s.database)
            >> (checks E faults store_faults (λ s. read_manifest E) >>= f))
    with_manifest-Keeps f keeps =
        Ensures-bind (checks E faults store_faults (λ s. preflight_coverage E faults s.database)) _
          (checks-Keeps (λ s. preflight_coverage E faults s.database))
          (λ _.
            Ensures-bind (checks E faults store_faults (λ s. read_manifest E)) f manifest-Ensures
              (λ n. record {
                at = λ s p.
                    subst (λ x. Outcome Stays Stays (f x s).0 (f x s).1) (sym p.1) (keeps.at s p.0);
              }))

    checked-Keeps :
        {A : Type 0} (f : Site → Check E faults A) (g : A → Load E faults store_faults (Unit {0}))
        → ((a : A) → Keeps (g a))
        → Keeps (checks E faults store_faults f >>= g)
    checked-Keeps f g keeps = Ensures-bind (checks E faults store_faults f) g (checks-Keeps f) keeps

    pub load_blocks-Keeps : Keeps (load_blocks E faults store_faults)
    unfolding load_blocks
    load_blocks-Keeps = with_manifest-Keeps (load_blocks_from E faults store_faults) (
        checked-Keeps (λ s. verify_files_under E (codes "blocks/") m) _
          (λ _.
            checked-Keeps (λ s. parquet_files E faults (codes "blocks")) _
              (λ files.
                checked-Keeps (λ s. statement E faults count_blocks) _
                  (λ _.
                    checked-Keeps (loaded_unit E faults blocks_unit)
                      (load_blocks_of E faults store_faults m files)
                      (load_blocks_of-Keeps files)))))

    ensure_partition-Keeps : (part : ℕ) → Keeps (ensure_partition E faults store_faults part)
    unfolding ensure_partition
    ensure_partition-Keeps part = record {
      at = λ s p. elim (Bool-cases (faults make_partition)) [ inl e ↦ rw e p | inr e ↦ rw e p ];
    }

    part-Keeps :
        (part want : ℕ) (files : List Text)
        → Keeps (transaction E faults store_faults (part_body E faults m part want files))
    part-Keeps part want files = record {
      at = λ s p. answered s p (part_body E faults m part want files s) refl;
    }
      where
        answered :
            (s : Site)
            → Stands m s
            → (r : Result BackfillError Site) → part_body E faults m part want files s ≡ r
            → Outcome Stays Stays
                (finish_transaction E faults store_faults s r).0
                (finish_transaction E faults store_faults s r).1
        answered s p (err x) e = p
        answered s p (ok s') e =
            let kept = part_body_ok part want files s s' e in
            (
              subst Unique (sym kept.0) p.0,
              replaced_outside s.database s'.database (λ n away. ap (block_at n) kept.0) kept.1 p.1,
              elim p.2 [
                | inl marked ↦ inl (kept.2 ∙ marked)
                | inr covered ↦ inr (λ c at. rw kept.0 (covered c (sym kept.1 ∙ at)))
              ],
            )

    load_part_of-Keeps :
        (part want : ℕ) (files : List Text) (recorded : Text)
        → Keeps (load_part_of E faults store_faults m part want files recorded)
    load_part_of-Keeps part want files recorded = record {
      at = λ s p.
          elim (Bool-cases (
            length (rows_of_part E faults m part s.database) == want
            && same_text recorded (unit_fingerprint E (manifest_part_dir part ++ codes "/") m))) [
              | inl e ↦ rw e p
              | inr e ↦ rw e (
                  (Ensures-bind (mark_maintenance E faults store_faults) _ mark_maintenance-Ensures
                      (λ _.
                        Ensures-bind (ensure_partition E faults store_faults part)
                          (λ _.
                            transaction E faults store_faults
                              (part_body E faults m part want files))
                          (Ensures-weaken (ensure_partition E faults store_faults part) (λ s p. p.0)
                            (λ u s p. p) (ensure_partition-Keeps part))
                          (λ _. part-Keeps part want files))).at
                    s p)
            ];
    }

    load_part-Keeps : (part : ℕ) → Keeps (load_part E faults store_faults m part)
    unfolding load_part
    load_part-Keeps part =
        checked-Keeps (λ s. part_rows E m part) _
          (λ want.
            checked-Keeps (λ s. verify_files_under E (manifest_part_dir part ++ codes "/") m) _
              (λ _.
                checked-Keeps (λ s. parquet_files E faults (manifest_part_dir part)) _
                  (λ files.
                    checked-Keeps (λ s. statement E faults (count_part (manifest_part_dir part))) _
                      (λ _.
                        checked-Keeps (loaded_unit E faults (manifest_part_dir part))
                          (load_part_of E faults store_faults m part want files)
                          (load_part_of-Keeps part want files)))))

    load_parts-Keeps : (parts : List ℕ) → Keeps (load_parts E faults store_faults m parts)
    unfolding load_parts
    load_parts-Keeps [] = Ensures-pure tt (λ s p. p)
    load_parts-Keeps (part ∷ rest) =
        Ensures-bind (load_part E faults store_faults m part) _ (load_part-Keeps part)
          (λ _. load_parts-Keeps rest)

    pub load_logs-Keeps : Keeps (load_logs E faults store_faults)
    unfolding load_logs
    load_logs-Keeps =
        with_manifest-Keeps (λ n. load_parts E faults store_faults n (parts_of n))
          (load_parts-Keeps (parts_of m))

    pub prepare-Keeps : Keeps (prepare E faults store_faults)
    unfolding prepare
    prepare-Keeps =
        checked-Keeps (λ s. preflight_coverage E faults s.database) _
          (λ _. checks-Keeps (λ s. statement E faults drop_indexes))
