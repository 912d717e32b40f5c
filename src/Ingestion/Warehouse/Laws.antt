-- ===== src/Ingestion/Warehouse/Laws.antt =====
-- What ingestion relies on of its store, for the log store: a property of the tables that its writers
-- keep, and where the next block is.
use ff_eth_logs.Base.{
  ℕ, suc, Option-cases, ◌+◌, ◌≡◌, ◌≤◌, ◌<◌, ◌↔◌, inl, inr, Bool, Option, none, some, List, u64_mod,
  arith, refl, sym, subst,
}
use ff_eth_logs.Base.Exec.{ok, err}
use ff_eth_logs.Chain.{Log}
use ff_eth_logs.Logstore.{Block, Coverage, Database}
use ff_eth_logs.Logstore.Write.{StoreError, Statement, Faults, widen}
use ff_eth_logs.Logstore.Write
use ff_eth_logs.Logstore.Write.Contiguous.{Run}
use ff_eth_logs.Logstore.Write.Refines.{
  write_range-replaces, rewind-keeps, write_range_failed, rewind_failed,
}
use ff_eth_logs.Logstore.Write.Covered.{IsCovered, write_range-IsCovered, rewind-IsCovered}
use ff_eth_logs.Logstore.Read.{read_coverage, Access, cursor_head}
use ff_eth_logs.Ingestion.Sink.{SinkLaws}
use ff_eth_logs.Ingestion.Warehouse.{Warehouse, store, written_ok, written_err, read_same}

-- The next block to write is the one above the coverage; a warehouse without coverage takes any.
abbrev pub Above : Option Coverage → ℕ → Type 0
Above none next = Unit
Above (some c) next = suc c.head ≡ next

-- The tables have a property, and the next block is above the coverage.
abbrev pub WellAt : (Database → Type 0) → Warehouse → ℕ → Type 0
WellAt Well s next = Well s.database × Above s.database.cursor next

abbrev pub StandsAt : Warehouse → ℕ → Type 0
StandsAt = WellAt IsCovered

widened-Above :
    (from to_block : ℕ) (old : Option Coverage)
    → from ≤ to_block
    → Above old from
    → Above (some (widen from to_block old)) (suc to_block)
widened-Above from to_block none h at = refl
widened-Above from to_block (some c) h at = omega (arith, h, at)

-- A property of the tables that the writers of ingestion keep.
pub record Lasting (Well : Database → Type 0) : Type 0 where
  pub wrote :
      (faults : Faults) (from to_block : ℕ) (blocks : List Block) (logs : List Log)
      (db db' : Database)
      → Well db
      → Run from blocks
      → from ≤ to_block
      → to_block + 1 < u64_mod
      → ff_eth_logs.Logstore.Write.write_range faults from to_block blocks logs db ≡ (ok tt, db')
      → Well db'
  pub lowered :
      (faults : Faults) (to_block : ℕ) (db db' : Database)
      → Well db
      → ff_eth_logs.Logstore.Write.rewind faults to_block db ≡ (ok tt, db')
      → Well db'

module _ (faults : ℕ → Statement → Bool) (read_faults : ℕ → Access → Bool)
    (Well : Database → Type 0) (lasting : Lasting Well) where
  store-written :
      (from to_block : ℕ) (blocks : List Block) (logs : List Log) (s s' : Warehouse)
      → WellAt Well s from
      → Run from blocks
      → from ≤ to_block
      → to_block + 1 < u64_mod
      → (store faults read_faults).write_range from to_block blocks logs s ≡ (ok tt, s')
      → WellAt Well s' (suc to_block)
  store-written from to_block blocks logs s s' at run h bound e =
      let done =
        written_ok
          (ff_eth_logs.Logstore.Write.write_range (faults s.calls) from to_block blocks logs) tt s
          s' e in
      let replaces =
        write_range-replaces (faults s.calls) from to_block blocks logs s.database s'.database run h
          bound done in
      (
        lasting.wrote (faults s.calls) from to_block blocks logs s.database s'.database at.0 run h
            bound done,
        rw replaces.1 (widened-Above from to_block s.database.cursor h at.1),
      )

  store-rewound :
      (next to_block : ℕ) (s s' : Warehouse)
      → WellAt Well s next
      → (store faults read_faults).rewind to_block s ≡ (ok tt, s')
      → WellAt Well s' (suc to_block) × (suc to_block < next)
  store-rewound next to_block s s' at e =
      let done =
        written_ok (ff_eth_logs.Logstore.Write.rewind (faults s.calls) to_block) tt s s' e in
      let keeps = rewind-keeps (faults s.calls) to_block s.database s'.database done in
      let above : suc keeps.1.0.head ≡ next = subst (λ c. Above c next) keeps.1.1 at.1 in
      (
        (
          lasting.lowered (faults s.calls) to_block s.database s'.database at.0 done,
          rw keeps.1.4 refl,
        ),
        omega (arith, above, keeps.1.2),
      )

  cursor-resumed :
      (c : ℕ) (s s' : Warehouse)
      → (store faults read_faults).cursor s ≡ (ok (some c), s')
      → Above s.database.cursor (suc c)
  unfolding cursor_head read_coverage
  cursor-resumed c s s' e = elim (Option-cases s.database.cursor) [
    | inl none_yet ↦ rw none_yet tt
    | inr (cov, some_cov) ↦ rw some_cov (ground (arith, e, some_cov))
  ]

  cursor-empty :
      (s s' : Warehouse) (next : ℕ)
      → (store faults read_faults).cursor s ≡ (ok none, s')
      → Above s.database.cursor next
  unfolding cursor_head read_coverage
  cursor-empty s s' next e = elim (Option-cases s.database.cursor) [
    | inl none_yet ↦ rw none_yet tt
    | inr (cov, some_cov) ↦ absurd (ground (arith, e, some_cov))
  ]

  -- The database is the one that was read.
  kept_at :
      (next : ℕ) (s s' : Warehouse)
      → s'.database ≡ s.database
      → WellAt Well s next
      → WellAt Well s' next
  kept_at next s s' same at = subst (λ db. Well db × Above db.cursor next) (sym same) at

  -- The log store keeps the laws of the sink: `WriteRange` of a run from the block above the coverage
  -- moves it past the run, `Rewind` moves it down, a failure and a read leave it, and the
  -- property holds throughout.
  pub laws_of : SinkLaws (store faults read_faults)
  laws_of = record {
    At = WellAt Well;
    IsWell = λ s. Well s.database;
    At-IsWell = λ s next at. at.0;
    resumed = λ c s s' well e.
        kept_at (suc c) s s' (read_same (cursor_head (read_faults s.calls)) (ok (some c)) s s' e)
          (well, cursor-resumed c s s' e);
    empty = λ s s' well e next.
        kept_at next s s' (read_same (cursor_head (read_faults s.calls)) (ok none) s s' e)
          (well, cursor-empty s s' next e);
    cursor_failed = λ x s s' well e.
        subst Well (sym (read_same (cursor_head (read_faults s.calls)) (err x) s s' e)) well;
    written = store-written;
    write_failed = λ next from to_block blocks logs x s s' at e.
        let failed =
          written_err
            (ff_eth_logs.Logstore.Write.write_range (faults s.calls) from to_block blocks logs) x s
            s' e in
        kept_at next s s'
          (write_range_failed (faults s.calls) from to_block blocks logs s.database s'.database
            failed.0 failed.1)
          at;
    read = λ next n s at. at;
    rewound = store-rewound;
    rewind_failed = λ next to_block x s s' at e.
        let failed =
          written_err (ff_eth_logs.Logstore.Write.rewind (faults s.calls) to_block) x s s' e in
        kept_at next s s'
          (rewind_failed (faults s.calls) to_block s.database s'.database failed.0 failed.1) at;
  }

  pub laws_of-WellAt : (s : Warehouse) (next : ℕ) → WellAt Well s next → laws_of.At s next
  unfolding laws_of
  laws_of-WellAt s next at = at

  pub laws_of-IsWell : (s : Warehouse) → (laws_of.IsWell s) ↔ Well s.database
  unfolding laws_of
  laws_of-IsWell s = (λ well. well, λ well. well)

IsCovered-Lasting : Lasting IsCovered
IsCovered-Lasting = record {
  wrote = λ faults from to_block blocks logs db db' covered run h bound done.
      write_range-IsCovered faults db db' covered from to_block blocks logs run h bound done;
  lowered =
      λ faults to_block db db' covered done. rewind-IsCovered faults to_block db db' covered done;
}

module _ (faults : ℕ → Statement → Bool) (read_faults : ℕ → Access → Bool) where
  -- The laws where the property is that every covered height has its block row.
  pub store_laws : SinkLaws (store faults read_faults)
  unfolding laws_of
  store_laws = laws_of faults read_faults IsCovered IsCovered-Lasting

  pub store_laws-StandsAt : (s : Warehouse) (next : ℕ) → StandsAt s next → store_laws.At s next
  unfolding store_laws
  store_laws-StandsAt s next at = at

  pub store_laws-IsWell : (s : Warehouse) → (store_laws.IsWell s) ↔ IsCovered s.database
  unfolding store_laws
  store_laws-IsWell s = (λ well. well, λ well. well)
