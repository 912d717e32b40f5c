-- ===== src/Backfill/Verified.antt =====
-- What `Finish` has checked when it goes on: the interval of the manifest, unit by unit.
use ff_eth_logs.Base.{
  ℕ, suc, ◌+◌, ◌-◌, ◌≡◌, ◌≤◌, ◌<◌, inl, inr, Bool, true, List, [], ◌∷◌, ◌++◌, some, All, u64_mod,
  add64, sub64, length, arith, ap, ◌∙◌,
}
use ff_eth_logs.Base.Exec.{ok, Result-cases}
use ff_eth_logs.Base.Text.{codes}
use ff_eth_logs.Logstore.{Coverage}
use ff_eth_logs.Backfill.Manifest.{
  Text, Manifest, Export, same_text, read_manifest, check_manifest, part_rows, verify_files_under,
  unit_fingerprint, manifest_part_dir,
}
use ff_eth_logs.Backfill.Checks.{
  Step, Site, blocks_unit, parts_of, loaded_unit, rows_of_part, blocks_of_interval, verify_loaded,
  verify_parts, verify_part, verify_unit,
}

module _ (E : Export) (faults : Step → Bool) where
  -- A unit was loaded from the export that the manifest describes.
  abbrev pub IsFrom : Manifest → Text → Text → Site → Type 0
  IsFrom m unit prefix s =
      (t : Text) × (loaded_unit E faults unit s ≡ ok t)
      × (same_text t (unit_fingerprint E prefix m) ≡ true)

  -- The rows of a partition are as many as the manifest says, out of its export.
  abbrev pub IsLoaded : Manifest → Site → ℕ → Type 0
  IsLoaded m s part =
      (part_rows E m part ≡ ok (length (rows_of_part E faults m part s.database)))
      × IsFrom m (manifest_part_dir part) (manifest_part_dir part ++ codes "/") s

  abbrev pub Verified : Manifest → Site → Type 0
  Verified m s =
      (m.first ≤ m.last)
      × (length (blocks_of_interval E faults m s.database) ≡ suc (m.last - m.first))
      × IsFrom m blocks_unit (codes "blocks/") s
      × All (IsLoaded m s) (parts_of m)
      × (verify_files_under E [] m ≡ ok tt)

  check_manifest_lem :
      (m n : Manifest)
      → check_manifest m ≡ ok n
      → m.last + 1 < u64_mod
      → (n ≡ m) × (m.first ≤ m.last) × (m.block_rows ≡ suc (m.last - m.first))
  unfolding check_manifest add64 sub64
  check_manifest_lem m n h bound = (ground (arith, h), ground (arith, h), ground (arith, h, bound))

  verify_unit_ok :
      (m : Manifest) (unit prefix : Text) (s : Site)
      → verify_unit E faults m unit prefix s ≡ ok tt
      → IsFrom m unit prefix s
  unfolding verify_unit
  verify_unit_ok m unit prefix s h = elim (Result-cases (loaded_unit E faults unit s)) [
    | inl (t, e) ↦ (t, e, ground (arith, h, e))
    | inr (x, e) ↦ absurd (ground (arith, h, e))
  ]

  verify_part_ok :
      (m : Manifest) (part : ℕ) (s : Site)
      → verify_part E faults m part s ≡ ok tt
      → part_rows E m part ≡ ok (length (rows_of_part E faults m part s.database))
  unfolding verify_part
  verify_part_ok m part s h = ground (arith, h)

  verify_parts_ok :
      (m : Manifest) (parts : List ℕ) (s : Site)
      → verify_parts E faults m parts s ≡ ok tt
      → All (IsLoaded m s) parts
  unfolding verify_parts
  verify_parts_ok m [] s h = tt
  verify_parts_ok m (part ∷ rest) s h = elim (Result-cases (verify_part E faults m part s)) [
    | inl (u, e) ↦
        elim (Result-cases (
          verify_unit E faults m (manifest_part_dir part) (manifest_part_dir part ++ codes "/")
            s)) [
              | inl (v, f) ↦ (
                (
                  verify_part_ok m part s e,
                  verify_unit_ok m (manifest_part_dir part) (manifest_part_dir part ++ codes "/") s
                      f,
                ),
                verify_parts_ok m rest s (ground (arith, h, e, f)),
              )
              | inr (x, f) ↦ absurd (ground (arith, h, e, f))
            ]
    | inr (x, e) ↦ absurd (ground (arith, h, e))
  ]

  module _ (m : Manifest) (given : E.manifest ≡ some m) (bound : m.last + 1 < u64_mod) where
    read_manifest_ok :
        (n : Manifest)
        → read_manifest E ≡ ok n
        → (n ≡ m) × (m.first ≤ m.last) × (m.block_rows ≡ suc (m.last - m.first))
    unfolding read_manifest
    read_manifest_ok n h = check_manifest_lem m n (ground (arith, h, given)) bound

    pub verify_loaded_ok :
        (s : Site) (cov : Coverage)
        → verify_loaded E faults s ≡ ok cov
        → (cov ≡ record { start = m.first; head = m.last }) × Verified m s
    unfolding verify_loaded
    verify_loaded_ok s cov h = elim (Result-cases (read_manifest E)) [
      | inr (x, e) ↦ absurd (ground (arith, h, e))
      | inl (n, e) ↦
          let read = read_manifest_ok n e in
          let here : read_manifest E ≡ ok m = e ∙ ap ok read.0 in
          elim (Result-cases (verify_unit E faults m blocks_unit (codes "blocks/") s)) [
            | inr (x, f) ↦ absurd (ground (arith, h, here, f))
            | inl (u, f) ↦ elim (Result-cases (verify_parts E faults m (parts_of m) s)) [
              | inr (x, g) ↦ absurd (ground (arith, h, here, f, g))
              | inl (v, g) ↦ elim (Result-cases (verify_files_under E [] m)) [
                | inr (x, k) ↦ absurd (ground (arith, h, here, f, g, k))
                | inl (t, k) ↦ (
                  ground (arith, h, here, f, g, k),
                  (
                    read.1,
                    ground (arith, h, here, f, g, k, read.2),
                    verify_unit_ok m blocks_unit (codes "blocks/") s f,
                    verify_parts_ok m (parts_of m) s g,
                    k,
                  ),
                )
              ]
            ]
          ]
    ]
