-- ===== src/Command/Exclusive.antt =====
-- The commands next to another writer.
use Prim.Native.Nat.{zero}
use ff_eth_logs.Base.{
  suc, All, ℕ, ◌≡◌, ◌≢◌, Bool, true, false, List, [], ◌∷◌, Option, none, some, String, refl,
}
use ff_eth_logs.Base.Exec.{Result, ok, err, continue}
use ff_eth_logs.Base.Ensures.{Outcome}
use ff_eth_logs.Eventset.{Hash}
use ff_eth_logs.Chain.{EthClient}
use ff_eth_logs.Config.{Settings}
use ff_eth_logs.Backfill.Manifest.{Text}
use ff_eth_logs.Backfill.Checks.{Site}
use ff_eth_logs.Logstore.Locks.{
  Key, writer_lock_key, maintenance_lock_key, Advisory, AdvisoryLaws, LockError, LockRequest,
  Locking, acquire_locks, try_all, try_lock, answered, release_if_failed, OthersKept,
  acquire_locks-AllOrNothing,
}
use ff_eth_logs.Command.Kept.{Kept, run-Kept}
use ff_eth_logs.Command.Outside.{Outside, Host}
use ff_eth_logs.Command.Process.{
  Process, under, with_locks, rewinds, stages_of, dialled, run_ingestion, run,
}

module _ (A : Advisory) (session : ℕ) (L : AdvisoryLaws A) where
  -- A key that another session holds is not granted.
  abbrev pub Excludes : Type 0
  Excludes =
      (k : Key) (t : ℕ) (a : A.State)
      → session ≢ t
      → L.Holds k t a
      → (A.try_lock k session a).0 ≢ some true

  abbrev IsRefused : Result LockError (Unit {0}) → Type 0
  IsRefused (ok u) = ⊥
  IsRefused (err e) = Unit

  answered-IsRefused :
      (again : Option (Locking A session)) (o : Option Bool) (a : A.State)
      → o ≢ some true
      → IsRefused (answered A session false again o a).0
  answered-IsRefused again none a h = tt
  answered-IsRefused again (some true) a h = absurd (h refl)
  answered-IsRefused again (some false) a h = tt

  try_lock-IsRefused :
      (tries : ℕ) (k : Key) (a : A.State)
      → (A.try_lock k session a).0 ≢ some true
      → IsRefused (try_lock A session tries (record { key = k; wait = false }) a).0
  unfolding try_lock
  try_lock-IsRefused zero k a h =
      answered-IsRefused none (A.try_lock k session a).0 (A.try_lock k session a).1 h
  try_lock-IsRefused (suc tries) k a h =
      answered-IsRefused (some (try_lock A session tries (record { key = k; wait = false })))
        (A.try_lock k session a).0 (A.try_lock k session a).1 h

  acquire_locks-IsRefused :
      (tries : ℕ) (rest : List LockRequest) (a : A.State)
      → (A.try_lock writer_lock_key session a).0 ≢ some true
      → IsRefused
          (acquire_locks A session tries
            ((record { key = writer_lock_key; wait = false }) ∷ rest)
            a).0
  unfolding acquire_locks try_all
  acquire_locks-IsRefused tries rest a h =
      after (try_lock A session tries (record { key = writer_lock_key; wait = false }) a).0
        (try_lock A session tries (record { key = writer_lock_key; wait = false }) a).1
        (try_lock-IsRefused tries writer_lock_key a h)
    where
      after :
          (r : Result LockError (Unit {0})) (b : A.State)
          → IsRefused r
          → IsRefused
              (release_if_failed A session
                (continue r (λ _. try_all A session tries rest) b).0
                (continue r (λ _. try_all A session tries rest) b).1).0
      after (ok u) b o = absurd o
      after (err e) b o = tt

module _ (keccak256 : String → Hash) (C : EthClient) (A : Advisory) (session : ℕ) (O : Outside)
    (L : AdvisoryLaws A) (excludes : Excludes A session L) (start : A.State) (other : ℕ)
    (differs : session ≢ other) (held : L.Holds writer_lock_key other start) (site : Site) where
  -- The other session holds the writer lock, and the tables are as they were.
  abbrev Undisturbed : Host C A → Type 0
  Undisturbed h = OthersKept A L session start h.locks × (h.site ≡ site)

  under-Undisturbed :
      (rest : List LockRequest) (body : Process keccak256 C A session O (Unit {0})) (h : Host C A)
      → Undisturbed h
      → Undisturbed
          (under keccak256 C A session O
            (acquire_locks A session O.tries
              ((record { key = writer_lock_key; wait = false }) ∷ rest))
            body
            h).1
  unfolding under
  under-Undisturbed rest body h p =
      let reqs : List LockRequest = (record { key = writer_lock_key; wait = false }) ∷ rest in
      after (acquire_locks A session O.tries reqs h.locks).0
        (acquire_locks A session O.tries reqs h.locks).1
        (acquire_locks-AllOrNothing A L session O.tries reqs h.locks)
        (acquire_locks-IsRefused A session L O.tries rest h.locks
          (excludes writer_lock_key other h.locks differs (p.0 writer_lock_key other differs held)))
    where
      after :
          (r : Result LockError (Unit {0})) (a : A.State)
          → Outcome
              (λ u b.
                All
                  (λ (q : LockRequest). L.Holds q.key session b)
                  ((record { key = writer_lock_key; wait = false }) ∷ rest)
                × OthersKept A L session h.locks b)
              (λ e b. ((k : Key) → ¬ L.Holds k session b) × OthersKept A L session h.locks b)
              r
              a
          → IsRefused A session L r
          → Undisturbed (with_locks keccak256 C A session O body r (record h { locks = a })).1
      after (ok u) a o refused = absurd refused
      after (err e) a o refused = (λ k t d k_held. o.1 k t d (p.0 k t d k_held), p.1)

  ingesting-Undisturbed :
      (cfg : Settings) (h : Host C A)
      → Undisturbed h
      → Undisturbed (run_ingestion keccak256 C A session O cfg h).1
  unfolding run_ingestion
  ingesting-Undisturbed cfg h p =
      under-Undisturbed [] (dialled keccak256 C A session O O.dial cfg) h p

  commands-Undisturbed : Kept keccak256 C A session O Undisturbed Undisturbed
  commands-Undisturbed = record {
    weakened = λ h p. p;
    logged = λ h l p. p;
    logged_after = λ h l p. p;
    rewinding = λ n h p. under-Undisturbed [] (rewinds keccak256 C A session O n) h p;
    backfilling = λ dir stage h p.
        under-Undisturbed ((record { key = maintenance_lock_key; wait = true }) ∷ [])
          (stages_of keccak256 C A session O (O.export dir) stage) h p;
    ingesting = λ cfg was_read. ingesting-Undisturbed cfg;
  }

-- While another session holds the writer lock, no command changes the tables, whatever its arguments
-- and whatever fails, and the other session keeps the lock. The locks behave as PostgreSQL documents, and
-- a key that another session holds is not granted.
pub run-Undisturbed :
    (keccak256 : String → Hash) (C : EthClient) (A : Advisory) (session : ℕ) (O : Outside)
    (L : AdvisoryLaws A) (args : List Text) (h : Host C A) (other : ℕ)
    → Excludes A session L
    → session ≢ other
    → L.Holds writer_lock_key other h.locks
    → ((run keccak256 C A session O args h).1.site ≡ h.site)
      × L.Holds writer_lock_key other (run keccak256 C A session O args h).1.locks
run-Undisturbed keccak256 C A session O L args h other excludes differs held =
    let after =
      run-Kept keccak256 C A session O
        (Undisturbed keccak256 C A session O L excludes h.locks other differs held h.site)
        (Undisturbed keccak256 C A session O L excludes h.locks other differs held h.site)
        (commands-Undisturbed keccak256 C A session O L excludes h.locks other differs held h.site)
        args h ((λ k t d k_held. k_held), refl) in
    (after.1, after.0 writer_lock_key other differs held)
