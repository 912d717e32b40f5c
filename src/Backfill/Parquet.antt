-- ===== src/Backfill/Parquet.antt =====
-- internal/backfill/loader.go: the copy of the rows of a Parquet file, a buffer at a time. The reader of
-- parquet-go is a parameter, and so is what the rows are mapped to.
pub mod Rows
pub mod File
pub mod Examples
use ff_eth_logs.Base.{
  ◌==◌, ℕ, zero, suc, ◌+◌, ◌≡◌, ltb, Bool, true, false, not, List, [], ◌∷◌, ◌++◌, Option, none,
  some, length, get_elem?, if◌then◌else◌,
}
use ff_eth_logs.Base.Exec.{Result, ok, err}

-- What `ReadRows` says beside the rows.
pub data ReadEnd : Type 0 where
  end_of_rows broken : ReadEnd

pub data SourceError : Type 0 where
  unreadable canceled : SourceError

-- What ends a copy.
pub data CopyError : Type 0 where
  of_source : SourceError → CopyError
  refused : CopyError

-- `parquet.Rows` with the context that it is read under.
pub record RowReader (R : Type 0) : Type 1 where
  pub State : Type 0
  -- `ReadRows` into a buffer of this many rows.
  pub read_rows : ℕ → State → (List R × Option ReadEnd) × State
  -- Whether `ctx.Err()` is set.
  pub ctx_err : State → Bool × State

-- `make([]parquet.Row, 1024)`
abbrev pub buffer_size : ℕ
buffer_size = 1_024

module _ {R V : Type 0} (X : RowReader R) (map_row : R → V) (keep : Option (R → Bool)) where
  -- `buf` has the `n` rows that were read last.
  pub record ParquetSource : Type 0 where
    pub reader : X.State
    pub buf : List R
    pub i : ℕ
    pub error : Option SourceError

  abbrev pub new_source : X.State → ParquetSource
  new_source r = record { reader = r; buf = []; i = 0; error = none }

  abbrev pub not_refilled : Option ReadEnd → ParquetSource → Bool × ParquetSource
  not_refilled (some broken) s = (false, record s { error = some unreadable })
  not_refilled (some end_of_rows) s = (false, s)
  not_refilled none s = (false, s)

  abbrev pub refilled : (List R × Option ReadEnd) × X.State → ParquetSource → Bool × ParquetSource
  refilled (([], e), r) s = not_refilled e (record s { reader = r })
  refilled ((row ∷ rows, e), r) s = (true, record s { reader = r; buf = row ∷ rows; i = 0 })

  abbrev pub refill : Bool × X.State → ParquetSource → Bool × ParquetSource
  refill (true, r) s = (false, record s { reader = r; error = some canceled })
  refill (false, r) s = refilled (X.read_rows buffer_size r) s

  abbrev pub moved : ParquetSource → Bool × ParquetSource
  moved s = if ltb s.i (length s.buf) then (true, s) else refill (X.ctx_err s.reader) s

  abbrev pub unless_failed : Option SourceError → ParquetSource → Bool × ParquetSource
  unless_failed (some e) s = (false, s)
  unless_failed none s = moved (record s { i = s.i + 1 })

  unfoldable pub advance : ParquetSource → Bool × ParquetSource
  advance s = unless_failed s.error s

  -- `s.keep == nil || s.keep(…)`
  abbrev pub is_kept : Option (R → Bool) → Option R → Bool
  is_kept none row = true
  is_kept (some p) none = true
  is_kept (some p) (some row) = p row

  -- `Next`, with fuel for the rows that it passes over.
  abbrev pub next_from :
      (ParquetSource → Bool × ParquetSource) → Bool × ParquetSource → Bool × ParquetSource
  next_from again (false, s) = (false, s)
  next_from again (true, s) = if is_kept keep (get_elem? s.buf s.i) then (true, s) else again s

  unfoldable pub next : ℕ → ParquetSource → Bool × ParquetSource
  next zero s = (false, s)
  next (suc fuel) s = let again = next fuel in next_from again (advance s)

  abbrev pub values : ParquetSource → Option V
  values s = elim (get_elem? s.buf s.i) [ none ↦ none | some row ↦ some (map_row row) ]

  -- `CopyFrom` of pgx asks for the values of a row after each `Next` that says that there is one.
  abbrev pub given :
      (ParquetSource → List V × ParquetSource) → Bool × ParquetSource → List V × ParquetSource
  given more (false, s) = ([], s)
  given more (true, s) = elim (values s) [ none ↦ ([], s) | some v ↦ (v ∷ (more s).0, (more s).1) ]

  unfoldable pub copied : ℕ → ℕ → ParquetSource → List V × ParquetSource
  unfolding next
  copied fuel zero s = ([], s)
  copied fuel (suc n) s = given (copied fuel n) (next fuel s)

  -- It fails with the `Err` of the source, or by the database.
  abbrev pub outcome : Bool → List V × ParquetSource → Result CopyError (List V)
  outcome true (vs, s) = err refused
  outcome false (vs, s) = elim s.error [ none ↦ ok vs | some e ↦ err (of_source e) ]

  -- The rows that go into the table, and how many there are said to be.
  abbrev pub add_rows :
      Result CopyError (List V) → Result CopyError (List V × ℕ) → Result CopyError (List V × ℕ)
  add_rows (err e) more = err e
  add_rows (ok vs) (err e) = err e
  add_rows (ok vs) (ok (ws, total)) = ok (vs ++ ws, length vs + total)

  -- `copyParquetWhere` of the row groups, each by its count of rows and its reader. A group without
  -- rows is skipped.
  unfoldable pub copy_parquet_where :
      (X.State → Bool) → ℕ → List (ℕ × X.State) → Result CopyError (List V × ℕ)
  unfolding copied
  copy_parquet_where refuses fuel [] = ok ([], 0)
  copy_parquet_where refuses fuel ((num_rows, r) ∷ groups) =
      let more = copy_parquet_where refuses fuel groups in
      if num_rows == 0
      then more
      else add_rows (outcome (refuses r) (copied fuel fuel (new_source r))) more
