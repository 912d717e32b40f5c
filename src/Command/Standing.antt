-- ===== src/Command/Standing.antt =====
-- The tables between any two commands: with a reload of an export under way or not.
use ff_eth_logs.Base.{
  ℕ, ◌+◌, ◌≡◌, ◌≤◌, ◌<◌, ◌⊎◌, inl, inr, true, false, not, List, u64_mod, ◌∙◌, ltb,
}
use ff_eth_logs.Base.Exec.{ok}
use ff_eth_logs.Chain.{Log}
use ff_eth_logs.Logstore.{Block, Database, between}
use ff_eth_logs.Logstore.Write.{Faults, write_range, rewind}
use ff_eth_logs.Logstore.Write.Contiguous.{Run}
use ff_eth_logs.Logstore.Write.Tables.{write_body_ok, kept_blocks}
use ff_eth_logs.Logstore.Write.Refines.{
  write_range_ok, write_range-replaces, rewind_tables, rewind_maintenance,
}
use ff_eth_logs.Logstore.Write.Covered.{
  IsCovered, write_range-IsCovered, rewind-IsCovered, write_range-CoveredWhere, rewind-CoveredWhere,
}
use ff_eth_logs.Backfill.Manifest.{Manifest}
use ff_eth_logs.Backfill.Counting.{Unique}
use ff_eth_logs.Backfill.Copies.{Unique-filter, insert_blocks-Unique}
use ff_eth_logs.Backfill.Finished.{CoveredOutside}
use ff_eth_logs.Ingestion.Warehouse.Laws.{Lasting}

-- What the stages of a backfill leave of the tables.
abbrev pub StandsIn : Manifest → Database → Type 0
StandsIn m db = Unique db.blocks × CoveredOutside m db × ((db.maintenance ≡ true) ⊎ IsCovered db)

-- Readers are kept out still, or every covered height still has its row.
carried :
    (db db' : Database)
    → db'.maintenance ≡ db.maintenance
    → (IsCovered db → IsCovered db')
    → (db.maintenance ≡ true) ⊎ IsCovered db
    → (db'.maintenance ≡ true) ⊎ IsCovered db'
carried db db' same keeps (inl on) = inl (same ∙ on)
carried db db' same keeps (inr covered) = inr (keeps covered)

module _ (m : Manifest) where
  write_range-StandsIn :
      (faults : Faults) (from to_block : ℕ) (blocks : List Block) (logs : List Log)
      (db db' : Database)
      → StandsIn m db
      → Run from blocks
      → from ≤ to_block
      → to_block + 1 < u64_mod
      → write_range faults from to_block blocks logs db ≡ (ok tt, db')
      → StandsIn m db'
  write_range-StandsIn faults from to_block blocks logs db db' p run h bound done =
      let inverted = write_range_ok faults from to_block blocks logs db db' done in
      let body = write_body_ok faults from to_block blocks logs db db' inverted.2 in
      let replaces =
        write_range-replaces faults from to_block blocks logs db db' run h bound done in
      (
        insert_blocks-Unique blocks (kept_blocks from to_block db) db'.blocks
            (Unique-filter (λ b. not (between from to_block b.number)) db.blocks p.0) body.0,
        write_range-CoveredWhere (λ n. between m.first m.last n ≡ false) faults db db' p.1 from
            to_block blocks logs run h bound done,
        carried db db' replaces.2
            (λ covered.
              write_range-IsCovered faults db db' covered from to_block blocks logs run h bound
                done)
            p.2,
      )

  rewind-StandsIn :
      (faults : Faults) (to_block : ℕ) (db db' : Database)
      → StandsIn m db
      → rewind faults to_block db ≡ (ok tt, db')
      → StandsIn m db'
  rewind-StandsIn faults to_block db db' p done =
      let tables = rewind_tables faults to_block db db' done in
      (
        rw tables.0 (Unique-filter (λ b. not (ltb to_block b.number)) db.blocks p.0),
        rewind-CoveredWhere (λ n. between m.first m.last n ≡ false) faults to_block db db' p.1 done,
        carried db db' (rewind_maintenance faults to_block db db' done)
            (λ covered. rewind-IsCovered faults to_block db db' covered done) p.2,
      )

  pub standing-Lasting : Lasting (StandsIn m)
  standing-Lasting = record { wrote = write_range-StandsIn; lowered = rewind-StandsIn }
