-- ===== src/Backfill/Parquet/File.antt =====
-- The copy of a file, one row group after another.
use mathlib.Core.List.{map-append}
use ff_eth_logs.Base.{
  length-append, All, ◌==◌, ℕ, ◌≡◌, ◌<◌, inl, inr, Bool, true, false, List, [], ◌∷◌, ◌++◌, Option,
  some, length, filter, map, refl, sym, arith, Bool-cases,
}
use ff_eth_logs.Backfill.Parquet.{
  ok, err, Result, RowReader, broken, unreadable, canceled, ParquetSource, buffer_size, new_source,
  copied, CopyError, of_source, refused, outcome, add_rows, copy_parquet_where,
}
use ff_eth_logs.Backfill.Parquet.Rows.{ReaderLaws, kept, CopiesAll, copied-CopiesAll}

no_rows : {A : Type 0} (xs : List A) → length xs ≡ 0 → xs ≡ []
no_rows [] h = refl
no_rows (x ∷ xs) h = absurd (omega (arith, h))

module _ {R V : Type 0} (X : RowReader R) (map_row : R → V) (keep : Option (R → Bool))
    (L : ReaderLaws X) where
  -- All the rows of the groups that the filter keeps, in the order of the file.
  abbrev pub kept_of : List (ℕ × X.State) → List R
  kept_of [] = []
  kept_of ((num_rows, r) ∷ groups) = kept X map_row keep L (L.rest r) ++ kept_of groups

  -- Each group has as many rows as its metadata say, and fewer than the fuel.
  abbrev pub Counted : ℕ → List (ℕ × X.State) → Type 0
  Counted fuel groups = All (λ g. (g.0 ≡ length (L.rest g.1)) × (g.0 < fuel)) groups

  -- An error is that of the reader, of the context or of the database.
  abbrev pub IsCause : (X.State → Bool) → CopyError → Type 0
  IsCause refuses (of_source canceled) = (r : X.State) × ((X.ctx_err r).0 ≡ true)
  IsCause refuses (of_source unreadable) =
      (r : X.State) × ((X.read_rows buffer_size r).0.1 ≡ some broken)
  IsCause refuses refused = (r : X.State) × (refuses r ≡ true)

  abbrev pub CopiesFile : (X.State → Bool) → List R → Result CopyError (List V × ℕ) → Type 0
  CopiesFile refuses rows (err e) = IsCause refuses e
  CopiesFile refuses rows (ok (vs, total)) = (vs ≡ map map_row rows) × (total ≡ length vs)

  abbrev CopiesGroup : (X.State → Bool) → List R → Result CopyError (List V) → Type 0
  CopiesGroup refuses rows (err e) = IsCause refuses e
  CopiesGroup refuses rows (ok vs) = vs ≡ map map_row rows

  outcome-CopiesGroup :
      (refuses : X.State → Bool) (r : X.State) (rows : List R)
      (c : List V × ParquetSource X map_row keep) (b : Bool)
      → refuses r ≡ b
      → CopiesAll X map_row keep L rows c
      → CopiesGroup refuses (kept X map_row keep L rows) (outcome X map_row keep b c)
  outcome-CopiesGroup refuses r rows c true e p = (r, e)
  outcome-CopiesGroup refuses r rows (vs, s) false e (inl (same, clear)) = rw clear same
  outcome-CopiesGroup refuses r rows (vs, s) false e (inr (inl (failed, told))) = rw failed told
  outcome-CopiesGroup refuses r rows (vs, s) false e (inr (inr (failed, told))) = rw failed told

  add_rows-CopiesFile :
      (refuses : X.State → Bool) (xs ys : List R) (a : Result CopyError (List V))
      (b : Result CopyError (List V × ℕ))
      → CopiesGroup refuses xs a
      → CopiesFile refuses ys b
      → CopiesFile refuses (xs ++ ys) (add_rows X map_row keep a b)
  add_rows-CopiesFile refuses xs ys (err e) b p q = p
  add_rows-CopiesFile refuses xs ys (ok vs) (err e) p q = q
  add_rows-CopiesFile refuses xs ys (ok vs) (ok (ws, total)) p q =
      (rw (p, q.0) (sym (map-append map_row xs ys)), rw q.1 (sym (length-append vs ws)))

  -- Let each row group of a file have as many rows as its metadata say, and the fuel be more than any
  -- has. The copy ends. It puts the mapped rows that the filter keeps into the table, each once and in
  -- the order of the file, and returns how many they are; or it fails, because the context has ended,
  -- the reader breaks or the database refuses.
  pub copy_parquet_where-CopiesFile :
      (refuses : X.State → Bool) (fuel : ℕ) (groups : List (ℕ × X.State))
      → Counted fuel groups
      → CopiesFile refuses (kept_of groups) (copy_parquet_where X map_row keep refuses fuel groups)
  unfolding copy_parquet_where filter
  copy_parquet_where-CopiesFile refuses fuel [] c = (refl, refl)
  copy_parquet_where-CopiesFile refuses fuel ((num_rows, r) ∷ groups) c =
      let more = copy_parquet_where-CopiesFile refuses fuel groups c.1 in
      elim (Bool-cases (num_rows == 0)) [
        | inl h ↦
            let len = c.0.0 in
            let none_there = no_rows (L.rest r) (ground (arith, h, len)) in rw (h, none_there) more
        | inr h ↦ rw h (
            add_rows-CopiesFile refuses (kept X map_row keep L (L.rest r)) (kept_of groups)
              (outcome X map_row keep (refuses r)
                (copied X map_row keep fuel fuel (new_source X map_row keep r)))
              (copy_parquet_where X map_row keep refuses fuel groups)
              (outcome-CopiesGroup refuses r (L.rest r)
                (copied X map_row keep fuel fuel (new_source X map_row keep r)) (refuses r) refl
                (copied-CopiesAll X map_row keep L fuel r (omega (arith, c.0.0, c.0.1))))
              more)
      ]
