-- ===== src/Ingestion/Warehouse.antt =====
-- internal/ingestion over internal/logstore: the log store is the runner's `Store`. Each call may meet
-- other failures of the database, which the count of the calls picks.
pub mod Laws
pub mod Runs
pub mod Complete
pub mod Examples
use ff_eth_logs.Base.{
  ℕ, suc, Option-cases, ◌+◌, ◌≡◌, ◌≤◌, ◌<◌, ◌⊎◌, ◌↔◌, inl, inr, Bool, true, false, Option, none,
  some, List, u64_mod, add64, arith, refl, sym, subst, ◌∙◌, ap, max, min,
}
use ff_eth_logs.Base.Exec.{Exec, Result, ok, err, Result-cases}
use ff_eth_logs.Eventset.{Hash}
use ff_eth_logs.Chain.{Log}
use ff_eth_logs.Logstore.{Block, Coverage, Database}
use ff_eth_logs.Logstore.Write.{StoreError, Statement, Faults, widen}
use ff_eth_logs.Logstore.Write
use ff_eth_logs.Logstore.Write.Contiguous.{Run}
use ff_eth_logs.Logstore.Write.Refines.{
  write_range-replaces, rewind-keeps, write_range_failed, rewind_failed,
}
use ff_eth_logs.Logstore.Write.Covered.{IsCovered, write_range-IsCovered, rewind-IsCovered}
use ff_eth_logs.Logstore.Read.{read_coverage, ReadError, Access, cursor_head}
use ff_eth_logs.Logstore.Read
use ff_eth_logs.Ingestion.Sink.{Sink, SinkLaws}

pub record Warehouse : Type 0 where
  pub database : Database
  pub calls : ℕ

abbrev pub WarehouseError : Type 0
WarehouseError = StoreError ⊎ ReadError

abbrev of_write : {A : Type 0} → Result StoreError A → Result WarehouseError A
of_write (ok a) = ok a
of_write (err e) = err (inl e)

abbrev of_read : {A : Type 0} → Result ReadError A → Result WarehouseError A
of_read (ok a) = ok a
of_read (err e) = err (inr e)

abbrev answer_write :
    {A : Type 0} → Warehouse → Result StoreError A × Database → Result WarehouseError A × Warehouse
answer_write s (r, db) = (of_write r, record { database = db; calls = suc s.calls })

abbrev pub written_by : {A : Type 0} → Exec Database StoreError A → Exec Warehouse WarehouseError A
written_by m s = answer_write s (m s.database)

abbrev pub read_by :
    {A : Type 0} → (Database → Result ReadError A) → Exec Warehouse WarehouseError A
read_by m s = (of_read (m s.database), record s { calls = suc s.calls })

-- `Store`, as the runner takes it.
abbrev pub store : (ℕ → Statement → Bool) → (ℕ → Access → Bool) → Sink
store faults read_faults = record {
  State = Warehouse;
  Error = WarehouseError;
  write_range = λ from to_block blocks logs s.
      written_by (ff_eth_logs.Logstore.Write.write_range (faults s.calls) from to_block blocks logs)
        s;
  stored_block_hash =
      λ n s. read_by (ff_eth_logs.Logstore.Read.stored_block_hash (read_faults s.calls) n) s;
  rewind = λ to_block s. written_by (ff_eth_logs.Logstore.Write.rewind (faults s.calls) to_block) s;
  cursor = λ s. read_by (cursor_head (read_faults s.calls)) s;
}

-- What a call of a writer did, of which the answer is known.
pub written_ok :
    {A : Type 0} (m : Exec Database StoreError A) (a : A) (s s' : Warehouse)
    → written_by m s ≡ (ok a, s')
    → m s.database ≡ (ok a, s'.database)
written_ok {A = A} m a s s' e = inverted (m s.database) e
  where
    inverted :
        (r : Result StoreError A × Database)
        → answer_write s r ≡ (ok a, s')
        → r ≡ (ok a, s'.database)
    inverted (ok b, db) e = ground (arith, e)
    inverted (err x, db) e = absurd (cc e)

pub written_err :
    {A : Type 0} (m : Exec Database StoreError A) (x : WarehouseError) (s s' : Warehouse)
    → written_by m s ≡ (err x, s')
    → (e : StoreError) × (m s.database ≡ (err e, s'.database))
written_err {A = A} m x s s' e = inverted (m s.database) e
  where
    inverted :
        (r : Result StoreError A × Database)
        → answer_write s r ≡ (err x, s')
        → (e : StoreError) × (r ≡ (err e, s'.database))
    inverted (ok b, db) e = absurd (cc e)
    inverted (err y, db) e = (y, ground (arith, e))

pub read_same :
    {A : Type 0} (m : Database → Result ReadError A) (r : Result WarehouseError A)
    (s s' : Warehouse)
    → read_by m s ≡ (r, s')
    → s'.database ≡ s.database
read_same m r s s' e = sym (ap (λ a. a.1.database) e)
