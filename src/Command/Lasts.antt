-- ===== src/Command/Lasts.antt =====
-- Any commands one after another over one warehouse.
use ff_eth_logs.Base.{
  Option-cases, ℕ, ◌+◌, ◌≡◌, ◌≤◌, ◌<◌, inl, inr, List, [], ◌∷◌, Option, none, some, String, All,
  u64_mod, arith, refl, sym, subst, Bool-cases,
}
use ff_eth_logs.Base.Exec.{Result, ok, err, continue}
use ff_eth_logs.Base.Ensures.{Outcome}
use ff_eth_logs.Base.Text.{codes}
use ff_eth_logs.Eventset.{Hash}
use ff_eth_logs.Chain.{EthClient, RpcError}
use ff_eth_logs.Chain.Pagination.{default_step_size}
use ff_eth_logs.Config.{Settings}
use ff_eth_logs.Logstore.{Coverage, Database}
use ff_eth_logs.Logstore.Read.{cursor_head, read_coverage}
use ff_eth_logs.Logstore.Write
use ff_eth_logs.Logstore.Write.{StoreError}
use ff_eth_logs.Logstore.Write.Refines.{rewind_failed}
use ff_eth_logs.Logstore.Locks.{
  Advisory, LockError, Locking, acquire_writer_lock, acquire_backfill_locks,
}
use ff_eth_logs.Backfill.Manifest.{Text, Manifest, BackfillError, same_text}
use ff_eth_logs.Backfill.Checks.{Site}
use ff_eth_logs.Backfill.Loaded.{Stands}
use ff_eth_logs.Backfill.Stages.{Stage, call, call-Stands}
use ff_eth_logs.Ingestion.Run
use ff_eth_logs.Ingestion.Run.{Event}
use ff_eth_logs.Ingestion.Subscriber.{IngestError, World}
use ff_eth_logs.Ingestion.Aligned.{Numbers, IsHeight, Ends}
use ff_eth_logs.Ingestion.Aligned.Follows.{IsLow}
use ff_eth_logs.Ingestion.Aligned.Runs.{run-IsWell}
use ff_eth_logs.Ingestion.Warehouse.{WarehouseError, store}
use ff_eth_logs.Ingestion.Warehouse.Laws.{laws_of, laws_of-IsWell}
use ff_eth_logs.Command.{CommandError, find_stage}
use ff_eth_logs.Command.Outside.{Outside, Host, all_stages, subscriber_config}
use ff_eth_logs.Command.Process.{
  Process, under, with_locks, rewinds, run_stage, run_stages, stages_of, one_stage, ingests,
  dialled, run_ingestion, of_rewind, of_stage, of_ingestion, attempt_of, world_of,
}
use ff_eth_logs.Command.Kept.{Kept, WasRead}
use ff_eth_logs.Command.Standing.{StandsIn, standing-Lasting}

-- What ingestion asks of what it is given: the heights are a million or more below
-- 2^64, and the settings that are read keep to these bounds.
pub record IsUsable (C : EthClient) (O : Outside) : Type 0 where
  pub numbers : Numbers C
  pub latest : (p : C.State) (n : ℕ) → (C.block_number p).0 ≡ ok n → (0 < n) × IsHeight n
  pub low : All IsLow O.events
  pub bounded :
      (cfg : Settings)
      → WasRead O cfg
      → (cfg.ethereum.get_logs_span_cap + 1 < u64_mod)
        × (cfg.ethereum.start_block + default_step_size ≤ u64_mod)

-- The covered head leaves room for what ingestion adds.
abbrev pub HasRoom : Site → Type 0
HasRoom s = (c : Coverage) → s.database.cursor ≡ some c → IsHeight c.head

module _ (keccak256 : String → Hash) (C : EthClient) (A : Advisory) (session : ℕ) (O : Outside)
    (m : Manifest) (bound : m.last + 1 < u64_mod)
    (given : (dir : Text) → (O.export dir).manifest ≡ some m) (usable : IsUsable C O) where
  abbrev pub Before : Host C A → Type 0
  Before h = Stands m h.site × HasRoom h.site

  abbrev pub After : Host C A → Type 0
  After h = Stands m h.site

  under-After :
      (acquire : Locking A session) (body : Process keccak256 C A session O (Unit {0}))
      → ((h : Host C A) → Before h → After (body h).1)
      → (h : Host C A) → Before h
      → After (under keccak256 C A session O acquire body h).1
  unfolding under
  under-After acquire body keeps h p = after (acquire h.locks).0 (acquire h.locks).1
    where
      after :
          (r : Result LockError (Unit {0})) (a : A.State)
          → After (with_locks keccak256 C A session O body r (record h { locks = a })).1
      after (err e) a = p.0
      after (ok u) a = keeps (record h { locks = a }) p

  rewinds-After : (n : ℕ) (h : Host C A) → Before h → After (rewinds keccak256 C A session O n h).1
  rewinds-After n h p =
      after (ff_eth_logs.Logstore.Write.rewind (O.store_faults h.calls) n h.site.database) refl
    where
      after :
          (r : Result StoreError (Unit {0}) × Database)
          → ff_eth_logs.Logstore.Write.rewind (O.store_faults h.calls) n h.site.database ≡ r
          → After (of_rewind keccak256 C A session O h r).1
      after (ok u, db) e =
          (standing-Lasting m).lowered (O.store_faults h.calls) n h.site.database db p.0 e
      after (err x, db) e =
          subst (StandsIn m) (sym (rewind_failed (O.store_faults h.calls) n h.site.database db x e))
            p.0

  run_stage-After :
      (dir : Text) (stage : Stage) (h : Host C A)
      → After h
      → After (run_stage keccak256 C A session O (O.export dir) stage h).1
  run_stage-After dir stage h p =
      after (call (O.export dir) (attempt_of keccak256 C A session O stage) stage h.site) (
        call-Stands (O.export dir) m (given dir) bound (attempt_of keccak256 C A session O stage)
          stage h.site p)
    where
      after :
          (r : Result BackfillError (Unit {0}) × Site)
          → Stands m r.1
          → After (of_stage keccak256 C A session O stage h r).1
      after (ok u, s) q = q
      after (err e, s) q = q

  run_stages-After :
      (dir : Text) (stages : List Stage) (h : Host C A)
      → After h
      → After (run_stages keccak256 C A session O (O.export dir) stages h).1
  unfolding run_stages
  run_stages-After dir [] h p = p
  run_stages-After dir (stage ∷ rest) h p =
      after (run_stage keccak256 C A session O (O.export dir) stage h).0
        (run_stage keccak256 C A session O (O.export dir) stage h).1 (run_stage-After dir stage h p)
        (run_stages-After dir rest)
    where
      after :
          (r : Result CommandError (Unit {0})) (h' : Host C A)
          → After h'
          → ((g : Host C A)
              → After g
              → After (run_stages keccak256 C A session O (O.export dir) rest g).1)
          → After (continue r (λ _. run_stages keccak256 C A session O (O.export dir) rest) h').1
      after (ok u) h' q go = go h' q
      after (err e) h' q go = q

  stages_of-After :
      (dir name : Text) (h : Host C A)
      → After h
      → After (stages_of keccak256 C A session O (O.export dir) name h).1
  stages_of-After dir name h p = elim (Bool-cases (same_text name (codes "all"))) [
    | inl e ↦ rw e (run_stages-After dir all_stages h p)
    | inr e ↦ rw e (one (find_stage name))
  ]
    where
      one : (o : Option Stage) → After (one_stage keccak256 C A session O (O.export dir) name o h).1
      one none = p
      one (some stage) = run_stages-After dir (stage ∷ []) h p

  resumed_room :
      (h : Host C A)
      → HasRoom h.site
      → (c : ℕ)
      → ((store O.store_faults O.read_faults).cursor (world_of keccak256 C A session O h).sink).0
        ≡ ok (some c)
      → IsHeight c
  unfolding cursor_head read_coverage
  resumed_room h room c e = elim (Option-cases h.site.database.cursor) [
    | inl none_yet ↦ absurd (ground (arith, e, none_yet))
    | inr (cov, some_cov) ↦
        let same : cov.head ≡ c = ground (arith, e, some_cov) in
        subst IsHeight same (room cov some_cov)
  ]

  ingests-After :
      (cfg : Settings)
      → WasRead O cfg
      → (h : Host C A) → Before h
      → After (ingests keccak256 C A session O cfg h).1
  ingests-After cfg was_read h p =
      let L = laws_of O.store_faults O.read_faults (StandsIn m) (standing-Lasting m) in
      let w = world_of keccak256 C A session O h in
      let r =
        ff_eth_logs.Ingestion.Run.run keccak256 C (store O.store_faults O.read_faults)
          (subscriber_config cfg) cfg.ethereum.get_logs_span_cap cfg.ethereum.chain_id
          cfg.ethereum.start_block O.events w in
      after r.0 r.1 (
        run-IsWell keccak256 C (store O.store_faults O.read_faults) (subscriber_config cfg)
          cfg.ethereum.get_logs_span_cap L usable.numbers (usable.bounded cfg was_read).0 w.sink
          ((laws_of-IsWell O.store_faults O.read_faults (StandsIn m) (standing-Lasting m) w.sink).1
            p.0)
          cfg.ethereum.start_block (usable.bounded cfg was_read).1 (resumed_room h p.1)
          usable.latest cfg.ethereum.chain_id O.events w refl usable.low)
    where
      after :
          (r : Result (IngestError WarehouseError) (Unit {0}))
          (w : World C (store O.store_faults O.read_faults))
          → Outcome
              (λ u w.
                (laws_of O.store_faults O.read_faults (StandsIn m) (standing-Lasting m)).IsWell
                  w.sink)
              (λ e w.
                (laws_of O.store_faults O.read_faults (StandsIn m) (standing-Lasting m)).IsWell
                  w.sink
                × Ends e)
              r
              w
          → After (of_ingestion keccak256 C A session O h (r, w)).1
      after (ok u) w o =
          (laws_of-IsWell O.store_faults O.read_faults (StandsIn m) (standing-Lasting m) w.sink).0 o
      after (err e) w o =
          (laws_of-IsWell O.store_faults O.read_faults (StandsIn m) (standing-Lasting m) w.sink).0
            o.0

  dialled-After :
      (r : Result RpcError (Unit {0})) (cfg : Settings)
      → WasRead O cfg
      → (h : Host C A) → Before h
      → After (dialled keccak256 C A session O r cfg h).1
  dialled-After (ok u) cfg was_read h p = ingests-After cfg was_read h p
  dialled-After (err e) cfg was_read h p = p.0

  run_ingestion-After :
      (cfg : Settings)
      → WasRead O cfg
      → (h : Host C A) → Before h
      → After (run_ingestion keccak256 C A session O cfg h).1
  unfolding run_ingestion
  run_ingestion-After cfg was_read =
      under-After (acquire_writer_lock A session O.tries)
        (dialled keccak256 C A session O O.dial cfg) (dialled-After O.dial cfg was_read)

  pub commands_last : Kept keccak256 C A session O Before After
  commands_last = record {
    weakened = λ h p. p.0;
    logged = λ h l p. p;
    logged_after = λ h l p. p;
    rewinding = λ n.
        under-After (acquire_writer_lock A session O.tries) (rewinds keccak256 C A session O n)
          (rewinds-After n);
    backfilling = λ dir stage.
        under-After (acquire_backfill_locks A session O.tries)
          (stages_of keccak256 C A session O (O.export dir) stage)
          (λ h p. stages_of-After dir stage h p.0);
    ingesting = run_ingestion-After;
  }
