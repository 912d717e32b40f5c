-- ===== src/Backfill/Parquet/Rows.antt =====
-- What a COPY gets out of a Parquet source, against the rows that the reader has.
use ff_eth_logs.Base.{
  ℕ, zero, suc, ◌+◌, ◌≡◌, ◌<◌, ◌⊎◌, inl, inr, ltb, Bool, true, false, List, [], ◌∷◌, ◌++◌, Option,
  none, some, length, get_elem?, filter, map, refl, sym, ap, ◌∙◌, arith, Bool-cases, if◌then◌else◌,
}
use ff_eth_logs.Backfill.Parquet.{
  RowReader, ReadEnd, broken, end_of_rows, SourceError, unreadable, canceled, ParquetSource,
  buffer_size, new_source, advance, next, next_from, given, copied, is_kept, unless_failed, moved,
  refill, refilled,
}

-- The rows that a reader still has: `ReadRows` hands over the first of them, and none only if there
-- are none or the reading fails.
pub record ReaderLaws {R : Type 0} (X : RowReader R) : Type 0 where
  pub rest : X.State → List R
  pub hands_over :
      (n : ℕ) (r : X.State) → rest r ≡ (X.read_rows n r).0.0 ++ rest (X.read_rows n r).1
  pub ends :
      (n : ℕ) (r : X.State)
      → 0 < n
      → (X.read_rows n r).0.0 ≡ []
      → (rest r ≡ []) ⊎ ((X.read_rows n r).0.1 ≡ some broken)
  pub context_kept : (r : X.State) → rest (X.ctx_err r).1 ≡ rest r

abbrev drop : {A : Type 0} → ℕ → List A → List A
drop zero xs = xs
drop (suc n) [] = []
drop (suc n) (x ∷ xs) = drop n xs

drop-at :
    {A : Type 0} (n : ℕ) (xs : List A)
    → n < length xs
    → (x : A) × (get_elem? xs n ≡ some x) × (drop n xs ≡ x ∷ drop (suc n) xs)
drop-at n [] h = absurd (omega arith)
drop-at zero (x ∷ xs) h = (x, refl, refl)
drop-at (suc n) (x ∷ xs) h = drop-at n xs (omega arith)

drop_past : {A : Type 0} (n : ℕ) (xs : List A) → (ltb n (length xs) ≡ false) → drop n xs ≡ []
drop_past zero [] h = refl
drop_past zero (x ∷ xs) h = absurd (ground arith)
drop_past (suc n) [] h = refl
drop_past (suc n) (x ∷ xs) h = drop_past n xs (ground arith)

module _ {R V : Type 0} (X : RowReader R) (map_row : R → V) (keep : Option (R → Bool))
    (L : ReaderLaws X) where
  abbrev Source : Type 0
  Source = ParquetSource X map_row keep

  -- The rows after the current one.
  abbrev ahead : Source → List R
  ahead s = drop (suc s.i) s.buf ++ L.rest s.reader

  -- The error of a source is that of its reader or of its context.
  abbrev pub IsTrue : Source → Type 0
  IsTrue s =
      ((s.error ≡ some canceled) × ((r : X.State) × ((X.ctx_err r).0 ≡ true)))
      ⊎ ((s.error ≡ some unreadable)
          × ((r : X.State) × ((X.read_rows buffer_size r).0.1 ≡ some broken)))

  abbrev Advances : List R → Bool × Source → Type 0
  Advances rows (false, s) = ((rows ≡ []) × (s.error ≡ none)) ⊎ IsTrue s
  Advances rows (true, s) =
      (row : R) × (get_elem? s.buf s.i ≡ some row) × (rows ≡ row ∷ ahead s) × (s.error ≡ none)

  refilled-Advances :
      (r : X.State) (s : Source) (read : (List R × Option ReadEnd) × X.State)
      → X.read_rows buffer_size r ≡ read
      → s.error ≡ none
      → Advances (L.rest r) (refilled X map_row keep read s)
  refilled-Advances r s (([], some broken), r') e clear = inr (inr (refl, (r, ap (λ x. x.0.1) e)))
  refilled-Advances r s (([], some end_of_rows), r') e clear =
      elim (L.ends buffer_size r (omega arith) (ap (λ x. x.0.0) e)) [
        | inl h ↦ inl (h, clear)
        | inr h ↦ absurd (cc (ap (λ x. x.0.1) e, h))
      ]
  refilled-Advances r s (([], none), r') e clear =
      elim (L.ends buffer_size r (omega arith) (ap (λ x. x.0.0) e)) [
        | inl h ↦ inl (h, clear)
        | inr h ↦ absurd (cc (ap (λ x. x.0.1) e, h))
      ]
  refilled-Advances r s ((row ∷ rows, end), r') e clear =
      (row, refl, L.hands_over buffer_size r ∙ ap (λ x. x.0.0 ++ L.rest x.1) e, clear)

  refill-Advances :
      (r : X.State) (s : Source) (asked : Bool × X.State)
      → X.ctx_err r ≡ asked
      → s.error ≡ none
      → Advances (L.rest r) (refill X map_row keep asked s)
  refill-Advances r s (true, r') e clear = inr (inl (refl, (r, ap (λ x. x.0) e)))
  refill-Advances r s (false, r') e clear =
      rw (sym (L.context_kept r), e)
        (refilled-Advances r' s (X.read_rows buffer_size r') refl clear)

  moved-Advances :
      (s : Source)
      → s.error ≡ none
      → Advances (drop s.i s.buf ++ L.rest s.reader) (moved X map_row keep s)
  moved-Advances s clear = elim (Bool-cases (ltb s.i (length s.buf))) [
    | inl h ↦
        let (row, at, e) = drop-at s.i s.buf (ground (arith, h)) in rw (h, e) (row, at, refl, clear)
    | inr h ↦
        rw (h, drop_past s.i s.buf h) (refill-Advances s.reader s (X.ctx_err s.reader) refl clear)
  ]

  unless_failed-Advances :
      (e : Option SourceError) (s : Source)
      → s.error ≡ e
      → e ≡ none
      → Advances (ahead s) (unless_failed X map_row keep e s)
  unless_failed-Advances (some x) s e clear = absurd (cc clear)
  unless_failed-Advances none s e clear =
      let one : suc s.i ≡ s.i + 1 = omega arith in
      rw one (moved-Advances (record s { i = s.i + 1 }) e)

  advance-Advances : (s : Source) → s.error ≡ none → Advances (ahead s) (advance X map_row keep s)
  unfolding advance
  advance-Advances s clear = unless_failed-Advances s.error s refl clear

  -- The rows that are copied.
  abbrev pub kept : List R → List R
  kept rows = filter (λ row. is_kept X map_row keep keep (some row)) rows

  abbrev Nexts : List R → Bool × Source → Type 0
  Nexts rows (false, s) = ((kept rows ≡ []) × (s.error ≡ none)) ⊎ IsTrue s
  Nexts rows (true, s) =
      (row : R) × (get_elem? s.buf s.i ≡ some row)
      × (kept rows ≡ row ∷ kept (ahead s))
      × (length (ahead s) < length rows)
      × (s.error ≡ none)

  -- A row that is passed over.
  Nexts-skips :
      (rows rs : List R) (a : Bool × Source)
      → kept rows ≡ kept rs
      → length rs < length rows
      → Nexts rs a
      → Nexts rows a
  Nexts-skips rows rs (false, s) e h (inl (n, clear)) = inl (e ∙ n, clear)
  Nexts-skips rows rs (false, s) e h (inr told) = inr told
  Nexts-skips rows rs (true, s) e h (row, at, n, short, clear) =
      (row, at, e ∙ n, omega (arith, short, h), clear)

  chosen :
      (fuel : ℕ) (rows : List R) (s : Source) (row : R)
      → ((s : Source)
          → s.error ≡ none
          → length (ahead s) < fuel
          → Nexts (ahead s) (next X map_row keep fuel s))
      → length rows < suc fuel
      → get_elem? s.buf s.i ≡ some row
      → rows ≡ row ∷ ahead s
      → s.error ≡ none
      → (b : Bool) → is_kept X map_row keep keep (some row) ≡ b
      → Nexts rows (if b then (true, s) else next X map_row keep fuel s)
  unfolding filter
  chosen fuel rows s row later h at e clear true k =
      let len = ap length e in (row, at, rw (e, k) refl, omega (arith, len), clear)
  chosen fuel rows s row later h at e clear false k =
      let len = ap length e in
      Nexts-skips rows (ahead s) (next X map_row keep fuel s) (rw (e, k) refl) (omega (arith, len))
        (later s clear (omega (arith, len, h)))

  next_from-Nexts :
      (fuel : ℕ) (rows : List R) (a : Bool × Source)
      → ((s : Source)
          → s.error ≡ none
          → length (ahead s) < fuel
          → Nexts (ahead s) (next X map_row keep fuel s))
      → length rows < suc fuel
      → Advances rows a
      → Nexts rows (next_from X map_row keep (next X map_row keep fuel) a)
  unfolding filter
  next_from-Nexts fuel rows (false, s) later h (inr told) = inr told
  next_from-Nexts fuel rows (false, s) later h (inl (e, clear)) = inl (rw e refl, clear)
  next_from-Nexts fuel rows (true, s) later h (row, at, e, clear) =
      rw at
        (chosen fuel rows s row later h at e clear (is_kept X map_row keep keep (some row)) refl)

  next-Nexts :
      (fuel : ℕ) (s : Source)
      → s.error ≡ none
      → length (ahead s) < fuel
      → Nexts (ahead s) (next X map_row keep fuel s)
  unfolding next
  next-Nexts zero s clear h = absurd (omega (arith, h))
  next-Nexts (suc fuel) s clear h =
      next_from-Nexts fuel (ahead s) (advance X map_row keep s) (next-Nexts fuel) h
        (advance-Advances s clear)

  abbrev pub CopiesAll : List R → List V × Source → Type 0
  CopiesAll rows (vs, s) = ((vs ≡ map map_row (kept rows)) × (s.error ≡ none)) ⊎ IsTrue s

  CopiesAll-next :
      (rows rs : List R) (row : R) (c : List V × Source)
      → kept rows ≡ row ∷ kept rs
      → CopiesAll rs c
      → CopiesAll rows (map_row row ∷ c.0, c.1)
  CopiesAll-next rows rs row (vs, s) e (inl (same, clear)) = inl (rw (e, same) refl, clear)
  CopiesAll-next rows rs row (vs, s) e (inr told) = inr told

  given-CopiesAll :
      (rows : List R) (more : Source → List V × Source) (a : Bool × Source)
      → ((s : Source)
          → s.error ≡ none
          → length (ahead s) < length rows
          → CopiesAll (ahead s) (more s))
      → Nexts rows a
      → CopiesAll rows (given X map_row keep more a)
  given-CopiesAll rows more (false, s) later (inl (e, clear)) = inl (rw e refl, clear)
  given-CopiesAll rows more (false, s) later (inr told) = inr told
  given-CopiesAll rows more (true, s) later (row, at, e, short, clear) =
      rw (given, at) (CopiesAll-next rows (ahead s) row (more s) e (later s clear short))

  copied-Ahead :
      (fuel n : ℕ) (s : Source)
      → s.error ≡ none
      → length (ahead s) < n
      → length (ahead s) < fuel
      → CopiesAll (ahead s) (copied X map_row keep fuel n s)
  unfolding copied
  copied-Ahead fuel zero s clear h k = absurd (omega (arith, h))
  copied-Ahead fuel (suc n) s clear h k =
      given-CopiesAll (ahead s) (copied X map_row keep fuel n) (next X map_row keep fuel s)
        (λ s' clear' short.
          copied-Ahead fuel n s' clear' (omega (arith, short, h)) (omega (arith, short, k)))
        (next-Nexts fuel s clear k)

  pub copied-CopiesAll :
      (fuel : ℕ) (r : X.State)
      → length (L.rest r) < fuel
      → CopiesAll (L.rest r) (copied X map_row keep fuel fuel (new_source X map_row keep r))
  copied-CopiesAll fuel r h = copied-Ahead fuel fuel (new_source X map_row keep r) refl h h
