-- ===== src/Command/Unlocked.antt =====
-- The commands and their locks: what a command holds when it ends.
use ff_eth_logs.Base.{
  All, ℕ, ◌≡◌, true, false, List, [], ◌∷◌, Option, none, some, String, refl, sym, ◌∙◌, subst,
  Bool-cases, inl, inr,
}
use ff_eth_logs.Base.Exec.{Result, ok, err, continue, ◌>>=◌}
use ff_eth_logs.Base.Ensures.{Outcome}
use ff_eth_logs.Eventset.{Hash}
use ff_eth_logs.Base.Text.{codes}
use ff_eth_logs.Chain.{EthClient, RpcError}
use ff_eth_logs.Config.{Settings}
use ff_eth_logs.Backfill.Manifest.{Text, Export, BackfillError, same_text}
use ff_eth_logs.Backfill.Checks.{Site}
use ff_eth_logs.Backfill.Stages.{Stage, call}
use ff_eth_logs.Logstore.{Database}
use ff_eth_logs.Logstore.Write.{StoreError}
use ff_eth_logs.Logstore.Locks.{
  Key, writer_lock_key, maintenance_lock_key, Advisory, AdvisoryLaws, LockError, LockRequest,
  acquire_locks, OthersKept, acquire_locks-AllOrNothing,
}
use ff_eth_logs.Ingestion.Subscriber.{IngestError, World}
use ff_eth_logs.Ingestion.Warehouse.{WarehouseError, store}
use ff_eth_logs.Ingestion.Run
use ff_eth_logs.Logstore.Write
use ff_eth_logs.Command.{find_stage, CommandError}
use ff_eth_logs.Command.Kept.{Kept, run-Kept}
use ff_eth_logs.Command.Outside.{Outside, Host, all_stages, subscriber_config}
use ff_eth_logs.Command.Process.{
  Process, under, with_locks, rewinds, run_stage, run_stages, stages_of, one_stage, ingests,
  dialled, run_ingestion, attempt_of, world_of, run, of_rewind, of_stage, of_ingestion,
}

module _ (keccak256 : String → Hash) (C : EthClient) (A : Advisory) (session : ℕ)
    (O : Outside) where
  -- The call leaves the locks alone.
  abbrev SameLocks : {X : Type 0} → Process keccak256 C A session O X → Type 0
  SameLocks m = (h : Host C A) → (m h).1.locks ≡ h.locks

  bind-SameLocks :
      {X Y : Type 0} (m : Process keccak256 C A session O X)
      (f : X → Process keccak256 C A session O Y)
      → SameLocks m
      → ((x : X) → SameLocks (f x))
      → SameLocks (m >>= f)
  bind-SameLocks {X = X} {Y = Y} m f a b h = after (m h).0 (m h).1 (a h)
    where
      after :
          (r : Result CommandError X) (h' : Host C A)
          → h'.locks ≡ h.locks
          → (continue r f h').1.locks ≡ h.locks
      after (ok x) h' e = b x h' ∙ e
      after (err x) h' e = e

  rewinds-SameLocks : (n : ℕ) → SameLocks (rewinds keccak256 C A session O n)
  rewinds-SameLocks n h =
      after (ff_eth_logs.Logstore.Write.rewind (O.store_faults h.calls) n h.site.database)
    where
      after :
          (r : Result StoreError (Unit {0}) × Database)
          → (of_rewind keccak256 C A session O h r).1.locks ≡ h.locks
      after (ok u, db) = refl
      after (err e, db) = refl

  run_stage-SameLocks :
      (E : Export) (stage : Stage) → SameLocks (run_stage keccak256 C A session O E stage)
  run_stage-SameLocks E stage h =
      after (call E (attempt_of keccak256 C A session O stage) stage h.site)
    where
      after :
          (r : Result BackfillError (Unit {0}) × Site)
          → (of_stage keccak256 C A session O stage h r).1.locks ≡ h.locks
      after (ok u, s) = refl
      after (err e, s) = refl

  run_stages-SameLocks :
      (E : Export) (stages : List Stage) → SameLocks (run_stages keccak256 C A session O E stages)
  unfolding run_stages
  run_stages-SameLocks E [] h = refl
  run_stages-SameLocks E (stage ∷ rest) h =
      bind-SameLocks (run_stage keccak256 C A session O E stage)
        (λ _. run_stages keccak256 C A session O E rest) (run_stage-SameLocks E stage)
        (λ _. run_stages-SameLocks E rest) h

  one_stage-SameLocks :
      (E : Export) (name : Text) (o : Option Stage)
      → SameLocks (one_stage keccak256 C A session O E name o)
  one_stage-SameLocks E name none h = refl
  one_stage-SameLocks E name (some stage) h = run_stages-SameLocks E (stage ∷ []) h

  stages_of-SameLocks :
      (E : Export) (name : Text) → SameLocks (stages_of keccak256 C A session O E name)
  stages_of-SameLocks E name h = elim (Bool-cases (same_text name (codes "all"))) [
    | inl e ↦ rw e (run_stages-SameLocks E all_stages h)
    | inr e ↦ rw e (one_stage-SameLocks E name (find_stage name) h)
  ]

  ingests-SameLocks : (cfg : Settings) → SameLocks (ingests keccak256 C A session O cfg)
  ingests-SameLocks cfg h = after (
      ff_eth_logs.Ingestion.Run.run keccak256 C (store O.store_faults O.read_faults)
        (subscriber_config cfg) cfg.ethereum.get_logs_span_cap cfg.ethereum.chain_id
        cfg.ethereum.start_block O.events (world_of keccak256 C A session O h))
    where
      after :
          (r : Result (IngestError WarehouseError) (Unit {0})
            × World C (store O.store_faults O.read_faults))
          → (of_ingestion keccak256 C A session O h r).1.locks ≡ h.locks
      after (ok u, w) = refl
      after (err e, w) = refl

  dialled-SameLocks :
      (r : Result RpcError (Unit {0})) (cfg : Settings)
      → SameLocks (dialled keccak256 C A session O r cfg)
  dialled-SameLocks (ok u) cfg h = ingests-SameLocks cfg h
  dialled-SameLocks (err e) cfg h = refl

module _ (keccak256 : String → Hash) (C : EthClient) (A : Advisory) (session : ℕ) (O : Outside)
    (L : AdvisoryLaws A) (start : A.State) where
  -- The session holds nothing, and what others held at the start they hold.
  abbrev Unlocked : Host C A → Type 0
  Unlocked h = ((k : Key) → ¬ L.Holds k session h.locks) × OthersKept A L session start h.locks

  under-Unlocked :
      (reqs : List LockRequest) (body : Process keccak256 C A session O (Unit {0}))
      → SameLocks keccak256 C A session O body
      → (h : Host C A) → Unlocked h
      → Unlocked (under keccak256 C A session O (acquire_locks A session O.tries reqs) body h).1
  unfolding under
  under-Unlocked reqs body same h p =
      after (acquire_locks A session O.tries reqs h.locks).0
        (acquire_locks A session O.tries reqs h.locks).1
        (acquire_locks-AllOrNothing A L session O.tries reqs h.locks)
    where
      after :
          (r : Result LockError (Unit {0})) (a : A.State)
          → Outcome
              (λ u b.
                All (λ (q : LockRequest). L.Holds q.key session b) reqs
                × OthersKept A L session h.locks b)
              (λ e b. ((k : Key) → ¬ L.Holds k session b) × OthersKept A L session h.locks b)
              r
              a
          → Unlocked (with_locks keccak256 C A session O body r (record h { locks = a })).1
      after (err e) a o = (o.0, λ k t other held. o.1 k t other (p.1 k t other held))
      after (ok u) a o =
          let h' = record h { locks = a } in
          let ended = (body h').1 in
          (
            λ k. L.released k session ended.locks,
            λ k t other held.
                L.others k session t ended.locks other
                  (subst (L.Holds k t) (sym (same h')) (o.1 k t other (p.1 k t other held))),
          )

  ingesting-Unlocked :
      (cfg : Settings) (h : Host C A)
      → Unlocked h
      → Unlocked (run_ingestion keccak256 C A session O cfg h).1
  unfolding run_ingestion
  ingesting-Unlocked cfg h p =
      under-Unlocked ((record { key = writer_lock_key; wait = false }) ∷ [])
        (dialled keccak256 C A session O O.dial cfg)
        (dialled-SameLocks keccak256 C A session O O.dial cfg) h p

  commands-Unlocked : Kept keccak256 C A session O Unlocked Unlocked
  commands-Unlocked = record {
    weakened = λ h p. p;
    logged = λ h l p. p;
    logged_after = λ h l p. p;
    rewinding = λ n h p.
        under-Unlocked ((record { key = writer_lock_key; wait = false }) ∷ [])
          (rewinds keccak256 C A session O n) (rewinds-SameLocks keccak256 C A session O n) h p;
    backfilling = λ dir stage h p.
        under-Unlocked
          ((record { key = writer_lock_key; wait = false })
            ∷ (record { key = maintenance_lock_key; wait = true })
            ∷ [])
          (stages_of keccak256 C A session O (O.export dir) stage)
          (stages_of-SameLocks keccak256 C A session O (O.export dir) stage) h p;
    ingesting = λ cfg was_read. ingesting-Unlocked cfg;
  }

-- For any arguments, whatever fails and however the command ends: the process holds no lock
-- afterwards, as it held none before, and what others held they hold, for locks that behave as
-- PostgreSQL documents.
pub run-Unlocked :
    (keccak256 : String → Hash) (C : EthClient) (A : Advisory) (session : ℕ) (O : Outside)
    (L : AdvisoryLaws A) (args : List Text) (h : Host C A)
    → ((k : Key) → ¬ L.Holds k session h.locks)
    → ((k : Key) → ¬ L.Holds k session (run keccak256 C A session O args h).1.locks)
      × OthersKept A L session h.locks (run keccak256 C A session O args h).1.locks
run-Unlocked keccak256 C A session O L args h free =
    run-Kept keccak256 C A session O (Unlocked keccak256 C A session O L h.locks)
      (Unlocked keccak256 C A session O L h.locks)
      (commands-Unlocked keccak256 C A session O L h.locks) args h (free, λ k t other held. held)
