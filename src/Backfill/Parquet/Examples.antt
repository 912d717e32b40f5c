-- ===== src/Backfill/Parquet/Examples.antt =====
-- A reader that hands over one row at a time, and an instance of what is copied from it.
use ff_eth_logs.Base.{
  inl, ◌⊎◌, ◌<◌, ◌++◌, ℕ, zero, suc, ◌+◌, ◌≡◌, ltb, Bool, false, List, [], ◌∷◌, Option, none, some,
  refl, arith,
}
use ff_eth_logs.Backfill.Parquet.{
  ok, broken, RowReader, ReadEnd, end_of_rows, broken, copy_parquet_where, copied, next, advance,
}
use ff_eth_logs.Backfill.Parquet.Rows.{ReaderLaws}
use ff_eth_logs.Backfill.Parquet.File.{CopiesFile, kept_of, copy_parquet_where-CopiesFile}

abbrev read_one : ℕ → List ℕ → (List ℕ × Option ReadEnd) × List ℕ
read_one zero rows = (([], none), rows)
read_one (suc n) [] = (([], some end_of_rows), [])
read_one (suc n) (row ∷ rows) = ((row ∷ [], none), rows)

abbrev one_by_one : RowReader ℕ
one_by_one = record { State = List ℕ; read_rows = read_one; ctx_err = λ r. (false, r) }

one_by_one-Laws : ReaderLaws one_by_one
one_by_one-Laws = record {
  rest = λ r. r;
  hands_over = hands_over;
  ends = ends;
  context_kept = λ r. refl;
}
  where
    hands_over : (n : ℕ) (r : List ℕ) → r ≡ (read_one n r).0.0 ++ (read_one n r).1
    hands_over zero r = refl
    hands_over (suc n) [] = refl
    hands_over (suc n) (x ∷ r) = refl

    ends :
        (n : ℕ) (r : List ℕ)
        → 0 < n
        → (read_one n r).0.0 ≡ []
        → (r ≡ []) ⊎ ((read_one n r).0.1 ≡ some broken)
    ends zero r h e = absurd (omega (arith, h))
    ends (suc n) [] h e = inl refl
    ends (suc n) (x ∷ r) h e = absurd (cc e)

abbrev small : Option (ℕ → Bool)
small = some (λ n. ltb n 5)

-- Two groups, an empty one between them.
abbrev groups : List (ℕ × List ℕ)
groups = (3, 3 ∷ 7 ∷ 4 ∷ []) ∷ (0, []) ∷ (1, 2 ∷ []) ∷ []

-- The row 7 is passed over.
three_copied :
    copy_parquet_where one_by_one (λ n. n + 1) small (λ r. false) 4 groups ≡ ok (4 ∷ 5 ∷ 3 ∷ [], 3)
unfolding copy_parquet_where copied next advance
three_copied = refl

copy_parquet_where-CopiesFile_example :
    CopiesFile one_by_one
      (λ n. n + 1)
      small
      one_by_one-Laws
      (λ r. false)
      (kept_of one_by_one (λ n. n + 1) small one_by_one-Laws groups)
      (copy_parquet_where one_by_one (λ n. n + 1) small (λ r. false) 4 groups)
unfolding one_by_one-Laws
copy_parquet_where-CopiesFile_example =
    copy_parquet_where-CopiesFile one_by_one (λ n. n + 1) small one_by_one-Laws (λ r. false) 4
      groups ((refl, omega arith), ((refl, omega arith), ((refl, omega arith), tt)))
