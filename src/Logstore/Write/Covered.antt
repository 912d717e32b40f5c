-- ===== src/Logstore/Write/Covered.antt =====
-- The warehouse's invariant: the covered interval has a block row at every height.
use ff_eth_logs.Base.{
  String, refl, Bool, length, subst, ◌∙◌, sym, inr, inl, Bool-cases, max, true, min, u64_mod, ◌<◌,
  ◌+◌, arith, add64, Option, false, ◌≢◌, none, some, ◌≤◌, ℕ, ◌≡◌, List, [],
}
use ff_eth_logs.Base.Exec.{ok, err}
use ff_eth_logs.Logstore.{Log, Block, Coverage, Database, block_at, between}
use ff_eth_logs.Logstore.Write.{
  StoreError, Faults, widen, is_apart, transact, write_range, rewind, publish_coverage,
  publish_body, set_maintenance,
}
use ff_eth_logs.Logstore.Write.Contiguous.{Run, block_at-Run_in}
use ff_eth_logs.Logstore.Write.Tables.{write_body_ok}
use ff_eth_logs.Logstore.Write.Refines.{
  write_range-replaces, rewind-keeps, write_range_ok, run_length, write_range_failed, rewind_failed,
}

-- The interval is in order, its heights fit a uint64, and every height has its row.
abbrev pub Filled : List Block → Coverage → Type 0
Filled blocks c =
    (c.start ≤ c.head)
    × (c.head + 1 < u64_mod)
    × ((n : ℕ) → c.start ≤ n → n ≤ c.head → block_at n blocks ≢ none)

abbrev pub IsCovered : Database → Type 0
IsCovered db = (c : Coverage) → db.cursor ≡ some c → Filled db.blocks c

abbrev pub no_rows : Database
no_rows = record {
  blocks = [];
  logs = [];
  partitions = [];
  cursor = none;
  maintenance = false;
  reason = "";
}

no_rows-IsCovered : IsCovered no_rows
no_rows-IsCovered c e = cc e

-- Where a range touches the coverage, a height of the union lies in one of the two.
in_union :
    (from to_block n : ℕ) (c : Coverage)
    → is_apart from to_block (some c) ≡ false
    → c.head + 1 < u64_mod
    → to_block + 1 < u64_mod
    → min c.start from ≤ n
    → n ≤ max c.head to_block
    → between from to_block n ≡ false
    → (c.start ≤ n) × (n ≤ c.head)
unfolding add64
in_union from to_block n c a h k low high away = ground arith

-- The same for the heights of which only some must have their row.
abbrev pub FilledWhere : (ℕ → Type 0) → List Block → Coverage → Type 0
FilledWhere Needed blocks c =
    (c.start ≤ c.head)
    × (c.head + 1 < u64_mod)
    × ((n : ℕ) → c.start ≤ n → n ≤ c.head → Needed n → block_at n blocks ≢ none)

abbrev pub CoveredWhere : (ℕ → Type 0) → Database → Type 0
CoveredWhere Needed db = (c : Coverage) → db.cursor ≡ some c → FilledWhere Needed db.blocks c

-- What a height of the widened coverage holds after the range was added.
widened-FilledWhere :
    (Needed : ℕ → Type 0) (from to_block : ℕ) (old : Option Coverage) (before after : List Block)
    → from ≤ to_block
    → to_block + 1 < u64_mod
    → ((c : Coverage) → old ≡ some c → FilledWhere Needed before c)
    → is_apart from to_block old ≡ false
    → ((n : ℕ) → between from to_block n ≡ true → Needed n → block_at n after ≢ none)
    → ((n : ℕ) → between from to_block n ≡ false → block_at n after ≡ block_at n before)
    → FilledWhere Needed after (widen from to_block old)
widened-FilledWhere Needed from to_block none before after h bound filled a here away =
    (omega arith, omega arith, λ n low high needed. here n (ground arith) needed)
widened-FilledWhere Needed from to_block (some c) before after h bound filled a here away = (
  omega (arith, (filled c refl).0),
  omega (arith, (filled c refl).1),
  λ n low high needed gone. elim (Bool-cases (between from to_block n)) [
    | inl inside ↦ here n inside needed gone
    | inr outside ↦
        let old = in_union from to_block n c a (filled c refl).1 bound low high outside in
        (filled c refl).2 n old.0 old.1 needed (sym (away n outside) ∙ gone)
  ],
)

widened-Filled :
    (from to_block : ℕ) (old : Option Coverage) (before after : List Block)
    → from ≤ to_block
    → to_block + 1 < u64_mod
    → ((c : Coverage) → old ≡ some c → Filled before c)
    → is_apart from to_block old ≡ false
    → ((n : ℕ) → between from to_block n ≡ true → block_at n after ≢ none)
    → ((n : ℕ) → between from to_block n ≡ false → block_at n after ≡ block_at n before)
    → Filled after (widen from to_block old)
widened-Filled from to_block old before after h bound filled a here away =
    let all =
      widened-FilledWhere (λ n. Unit {0}) from to_block old before after h bound
        (λ c e. ((filled c e).0, (filled c e).1, λ n low high needed. (filled c e).2 n low high)) a
        (λ n inside needed. here n inside) away in
    (all.0, all.1, λ n low high. all.2 n low high tt)

pub publish_coverage_ok :
    (faults : Faults) (cov : Coverage) (db db' : Database)
    → publish_coverage faults cov db ≡ (ok tt, db')
    → (db'.blocks ≡ db.blocks)
      × (db'.cursor ≡ some (widen cov.start cov.head db.cursor))
      × (is_apart cov.start cov.head db.cursor ≡ false)
unfolding publish_coverage publish_body transact
publish_coverage_ok faults cov db db' h = ground arith

pub rewind-CoveredWhere :
    (Needed : ℕ → Type 0) (faults : Faults) (to_block : ℕ) (db db' : Database)
    → CoveredWhere Needed db
    → rewind faults to_block db ≡ (ok tt, db')
    → CoveredWhere Needed db'
rewind-CoveredWhere Needed faults to_block db db' covered h c e =
    let keeps = rewind-keeps faults to_block db db' h in
    let old = keeps.1.0 in
    let filled = covered old keeps.1.1 in
    let same : c ≡ record old { head = to_block } = ground (arith, keeps.1.4) in
    (
      ground (arith, same, keeps.1.2),
      ground (arith, same, keeps.1.3, filled.1),
      λ n low high needed gone.
          filled.2 n (ground (arith, same)) (ground (arith, same, keeps.1.3)) needed
            (ground (arith, same, (keeps.0 n).0)),
    )

pub write_range-CoveredWhere :
    (Needed : ℕ → Type 0) (faults : Faults) (db db' : Database)
    → CoveredWhere Needed db
    → (from to_block : ℕ) (blocks : List Block) (logs : List Log) → Run from blocks
    → from ≤ to_block
    → to_block + 1 < u64_mod
    → write_range faults from to_block blocks logs db ≡ (ok tt, db')
    → CoveredWhere Needed db'
write_range-CoveredWhere Needed faults db db' covered from to_block blocks logs run h bound done c
      e =
    let replaces = write_range-replaces faults from to_block blocks logs db db' run h bound done in
    let inverted = write_range_ok faults from to_block blocks logs db db' done in
    let body = write_body_ok faults from to_block blocks logs db db' inverted.2 in
    let end = run_length from to_block (length blocks) h bound inverted.0 in
    let same : widen from to_block db.cursor ≡ c = ground (arith, replaces.1) in
    subst (FilledWhere Needed db'.blocks) same (
      widened-FilledWhere Needed from to_block db.cursor db.blocks db'.blocks h bound covered body.2
        (λ n here needed gone.
          block_at-Run_in n from blocks run (ground arith) (ground (arith, end))
            (ground (arith, (replaces.0 n).0)))
        (λ n away. ground (arith, (replaces.0 n).0)))

-- Where every height is needed.
everywhere : (db : Database) → IsCovered db → CoveredWhere (λ n. Unit {0}) db
everywhere db covered c e =
    let filled = covered c e in (filled.0, filled.1, λ n low high needed. filled.2 n low high)

from_everywhere : (db : Database) → CoveredWhere (λ n. Unit {0}) db → IsCovered db
from_everywhere db covered c e =
    let filled = covered c e in (filled.0, filled.1, λ n low high. filled.2 n low high tt)

pub rewind-IsCovered :
    (faults : Faults) (to_block : ℕ) (db db' : Database)
    → IsCovered db
    → rewind faults to_block db ≡ (ok tt, db')
    → IsCovered db'
rewind-IsCovered faults to_block db db' covered done =
    from_everywhere db'
      (rewind-CoveredWhere (λ n. Unit {0}) faults to_block db db' (everywhere db covered) done)

module _ (faults : Faults) (db db' : Database) (covered : IsCovered db) where
  pub write_range-IsCovered :
      (from to_block : ℕ) (blocks : List Block) (logs : List Log)
      → Run from blocks
      → from ≤ to_block
      → to_block + 1 < u64_mod
      → write_range faults from to_block blocks logs db ≡ (ok tt, db')
      → IsCovered db'
  write_range-IsCovered from to_block blocks logs run h bound done = from_everywhere db' (
      write_range-CoveredWhere (λ n. Unit {0}) faults db db' (everywhere db covered) from to_block
        blocks logs run h bound done)

  pub publish_coverage-IsCovered :
      (cov : Coverage)
      → Filled db.blocks cov
      → publish_coverage faults cov db ≡ (ok tt, db')
      → IsCovered db'
  publish_coverage-IsCovered cov loaded done c e =
      let out = publish_coverage_ok faults cov db db' done in
      let same : widen cov.start cov.head db.cursor ≡ c = ground (arith, out.1) in
      rw out.0 (
        subst (Filled db.blocks) same (
          widened-Filled cov.start cov.head db.cursor db.blocks db.blocks loaded.0 loaded.1 covered
            out.2 (λ n here. loaded.2 n (ground arith) (ground arith)) (λ n away. refl)))

marked-IsCovered :
    (faults : Faults) (on : Bool) (reason : String) (db db' : Database)
    → IsCovered db
    → (set_maintenance faults on reason db).1 ≡ db'
    → IsCovered db'
unfolding set_maintenance
marked-IsCovered faults on reason db db' covered e c at =
    let cursor : db'.cursor ≡ db.cursor = ground arith in
    let blocks : db'.blocks ≡ db.blocks = ground arith in rw blocks (covered c (sym cursor ∙ at))

-- One call of a writer: it succeeds, within the conditions that its callers meet, or it fails.
-- `WriteRange` gets a run of blocks, and `SetCoverage` an interval of which every row is loaded.
pub data Call (db db' : Database) : Type 0 where
  wrote :
      (faults : Faults) (from to_block : ℕ) (blocks : List Block) (logs : List Log)
      → Run from blocks
      → from ≤ to_block
      → to_block + 1 < u64_mod
      → write_range faults from to_block blocks logs db ≡ (ok tt, db')
      → Call db db'
  rewound :
      (faults : Faults) (to_block : ℕ) → rewind faults to_block db ≡ (ok tt, db') → Call db db'
  published :
      (faults : Faults) (cov : Coverage)
      → Filled db.blocks cov
      → publish_coverage faults cov db ≡ (ok tt, db')
      → Call db db'
  marked :
      (faults : Faults) (on : Bool) (reason : String)
      → (set_maintenance faults on reason db).1 ≡ db'
      → Call db db'
  failed_write :
      (faults : Faults) (from to_block : ℕ) (blocks : List Block) (logs : List Log) (e : StoreError)
      → write_range faults from to_block blocks logs db ≡ (err e, db')
      → Call db db'
  failed_rewind :
      (faults : Faults) (to_block : ℕ) (e : StoreError)
      → rewind faults to_block db ≡ (err e, db')
      → Call db db'

pub data History : Database → Type 0 where
  new : History no_rows
  later : {db db' : Database} → History db → Call db db' → History db'

Call-IsCovered : {db db' : Database} → Call db db' → IsCovered db → IsCovered db'
Call-IsCovered {db} {db'} (wrote faults from to_block blocks logs run h bound done) covered =
    write_range-IsCovered faults db db' covered from to_block blocks logs run h bound done
Call-IsCovered {db} {db'} (rewound faults to_block done) covered =
    rewind-IsCovered faults to_block db db' covered done
Call-IsCovered {db} {db'} (published faults cov loaded done) covered =
    publish_coverage-IsCovered faults db db' covered cov loaded done
Call-IsCovered {db} {db'} (marked faults on reason e) covered =
    marked-IsCovered faults on reason db db' covered e
Call-IsCovered {db} {db'} (failed_write faults from to_block blocks logs e h) covered =
    subst IsCovered (sym (write_range_failed faults from to_block blocks logs db db' e h)) covered
Call-IsCovered {db} {db'} (failed_rewind faults to_block e h) covered =
    subst IsCovered (sym (rewind_failed faults to_block db db' e h)) covered

-- After any sequence of writer calls on a new warehouse, within the conditions that their callers
-- meet, every height of the covered interval has its block row.
pub History-IsCovered : {db : Database} → History db → IsCovered db
History-IsCovered new = no_rows-IsCovered
History-IsCovered (later h call) = Call-IsCovered call (History-IsCovered h)
