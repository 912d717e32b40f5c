-- ===== src/Logstore/Locks.antt =====
-- internal/logstore/store.go: the advisory locks of the writers. PostgreSQL's functions for them are a
-- record of operations, of which a session is a number. The deadline of a wait is a count of tries; a
-- connection that the pool does not give is left out.
pub mod Examples
use ff_eth_logs.Base.{
  ℕ, zero, suc, ◌≡◌, ◌≢◌, Bool, true, false, not, List, [], ◌∷◌, Option, none, some, All, arith,
  refl, sym, subst, ap, if◌then◌else◌, inl, inr, Bool-cases,
}
use ff_eth_logs.Base.Exec.{Exec, Result, ok, err, pure, raise, continue, ◌>>=◌, ◌>>◌}
use ff_eth_logs.Base.Ensures.{Outcome}

pub data Key : Type 0 where
  writer_lock_key maintenance_lock_key : Key

-- `pg_try_advisory_lock`, of which a query may fail, and `pg_advisory_unlock_all`.
pub record Advisory : Type 1 where
  pub State : Type 0
  pub try_lock : Key → ℕ → State → Option Bool × State
  pub unlock_all : ℕ → State → State

-- What PostgreSQL documents of them.
pub record AdvisoryLaws (A : Advisory) : Type 1 where
  pub Holds : Key → ℕ → A.State → Type 0
  pub granted :
      (k : Key) (s : ℕ) (a : A.State)
      → (A.try_lock k s a).0 ≡ some true
      → Holds k s (A.try_lock k s a).1
  pub kept : (k j : Key) (s t : ℕ) (a : A.State) → Holds j t a → Holds j t (A.try_lock k s a).1
  pub released : (k : Key) (s : ℕ) (a : A.State) → Holds k s (A.unlock_all s a) → ⊥
  pub others :
      (k : Key) (s t : ℕ) (a : A.State) → s ≢ t → Holds k t a → Holds k t (A.unlock_all s a)

pub data LockError : Type 0 where
  query_failed writer_busy readers_did_not_drain : LockError

-- `lockRequest`.
pub record LockRequest : Type 0 where
  pub key : Key
  pub wait : Bool

module _ (A : Advisory) (session : ℕ) where
  abbrev pub Locking : Type 0
  Locking = Exec A.State LockError (Unit {0})

  -- What a try makes of the answer; `again` tries once more, if there is time.
  abbrev pub answered : Bool → Option Locking → Option Bool → Locking
  answered wait again none = raise query_failed
  answered wait again (some true) = pure tt
  answered false again (some false) = raise writer_busy
  answered true none (some false) = raise readers_did_not_drain
  answered true (some retry) (some false) = retry

  abbrev pub try_once : LockRequest → Option Locking → Locking
  try_once r again a =
      answered r.wait again (A.try_lock r.key session a).0 (A.try_lock r.key session a).1

  -- `tryLock`, with the tries that are left after this one.
  unfoldable pub try_lock : ℕ → LockRequest → Locking
  try_lock zero r = try_once r none
  try_lock (suc tries) r = try_once r (some (try_lock tries r))

  unfoldable pub try_all : ℕ → List LockRequest → Locking
  unfolding try_lock
  try_all tries [] = pure tt
  try_all tries (r ∷ rs) = try_lock tries r >> try_all tries rs

  abbrev pub release_if_failed : Result LockError (Unit {0}) → Locking
  release_if_failed (ok u) a = (ok tt, a)
  release_if_failed (err e) a = (err e, A.unlock_all session a)

  -- `acquireLocks`.
  unfoldable pub acquire_locks : ℕ → List LockRequest → Locking
  unfolding try_all
  acquire_locks tries reqs a = release_if_failed (try_all tries reqs a).0 (try_all tries reqs a).1

  -- `AcquireWriterLock` and `AcquireBackfillLocks`.
  abbrev pub acquire_writer_lock : ℕ → Locking
  acquire_writer_lock tries =
      acquire_locks tries ((record { key = writer_lock_key; wait = false }) ∷ [])

  abbrev pub acquire_backfill_locks : ℕ → Locking
  acquire_backfill_locks tries = acquire_locks tries (
      (record { key = writer_lock_key; wait = false })
      ∷ (record { key = maintenance_lock_key; wait = true })
      ∷ [])

module _ (A : Advisory) (L : AdvisoryLaws A) (session : ℕ) where
  -- What other sessions hold stays held.
  abbrev pub OthersKept : A.State → A.State → Type 0
  OthersKept before after = (k : Key) (t : ℕ) → session ≢ t → L.Holds k t before → L.Holds k t after

  -- And so does what this session holds, as long as it tries.
  abbrev Kept : A.State → A.State → Type 0
  Kept before after = (k : Key) (t : ℕ) → L.Holds k t before → L.Holds k t after

  abbrev Held : List LockRequest → A.State → A.State → Type 0
  Held reqs before a = All (λ (r : LockRequest). L.Holds r.key session a) reqs × Kept before a

  abbrev Tries : List LockRequest → A.State → Result LockError (Unit {0}) → A.State → Type 0
  Tries reqs before r a = Outcome (λ u b. Held reqs before b) (λ e b. Kept before b) r a

  -- What was held before the tries that follow is held after them.
  after_others :
      (reqs : List LockRequest) (a b : A.State)
      → Kept a b
      → (r : Result LockError (Unit {0})) (c : A.State) → Tries reqs b r c
      → Tries reqs a r c
  after_others reqs a b kept (ok u) c p = (p.0, λ k t h. p.1 k t (kept k t h))
  after_others reqs a b kept (err e) c p = λ k t h. p k t (kept k t h)

  answered-Tries :
      (r : LockRequest) (a b : A.State)
      → Kept a b
      → (wait : Bool) (again : Option (Locking A session)) (o : Option Bool)
      → (o ≡ some true → L.Holds r.key session b)
      → ((retry : Locking A session)
          → again ≡ some retry
          → Tries (r ∷ []) b (retry b).0 (retry b).1)
      → Tries (r ∷ []) a (answered A session wait again o b).0 (answered A session wait again o b).1
  answered-Tries r a b kept wait again none held go = kept
  answered-Tries r a b kept wait again (some true) held go = ((held refl, tt), kept)
  answered-Tries r a b kept false again (some false) held go = kept
  answered-Tries r a b kept true none (some false) held go = kept
  answered-Tries r a b kept true (some retry) (some false) held go =
      after_others (r ∷ []) a b kept (retry b).0 (retry b).1 (go retry refl)

  try_once-Tries :
      (r : LockRequest) (again : Option (Locking A session)) (a : A.State)
      → ((retry : Locking A session)
          → again ≡ some retry
          → (b : A.State) → Tries (r ∷ []) b (retry b).0 (retry b).1)
      → Tries (r ∷ []) a (try_once A session r again a).0 (try_once A session r again a).1
  try_once-Tries r again a go =
      let answer = A.try_lock r.key session a in
      answered-Tries r a answer.1 (λ k t h. L.kept r.key k session t a h) r.wait again answer.0
        (L.granted r.key session a) (λ retry e. go retry e answer.1)

  try_lock-Tries :
      (tries : ℕ) (r : LockRequest) (a : A.State)
      → Tries (r ∷ []) a (try_lock A session tries r a).0 (try_lock A session tries r a).1
  unfolding try_lock
  try_lock-Tries zero r a = try_once-Tries r none a (λ retry e. absurd (cc e))
  try_lock-Tries (suc tries) r a =
      try_once-Tries r (some (try_lock A session tries r)) a (λ retry e b.
        subst (λ (m : Option (Locking A session)). Retries m b) e (try_lock-Tries tries r b))
    where
      Retries : Option (Locking A session) → A.State → Type 0
      Retries none b = Unit
      Retries (some m) b = Tries (r ∷ []) b (m b).0 (m b).1

  then_rest :
      (r : LockRequest) (rs : List LockRequest) (rest : Locking A session) (a : A.State)
      → ((b : A.State) → Tries rs b (rest b).0 (rest b).1)
      → (o : Result LockError (Unit {0})) (b : A.State) → Tries (r ∷ []) a o b
      → Tries (r ∷ rs) a (continue o (λ _. rest) b).0 (continue o (λ _. rest) b).1
  then_rest r rs rest a go (err e) b p = p
  then_rest r rs rest a go (ok u) b p = both (rest b).0 (rest b).1 (go b)
    where
      both : (o : Result LockError (Unit {0})) (c : A.State) → Tries rs b o c → Tries (r ∷ rs) a o c
      both (ok u) c q = ((q.1 r.key session p.0.0, q.0), λ k t h. q.1 k t (p.1 k t h))
      both (err e) c q = λ k t h. q k t (p.1 k t h)

  try_all-Tries :
      (tries : ℕ) (reqs : List LockRequest) (a : A.State)
      → Tries reqs a (try_all A session tries reqs a).0 (try_all A session tries reqs a).1
  unfolding try_all
  try_all-Tries tries [] a = (tt, λ k t h. h)
  try_all-Tries tries (r ∷ rs) a =
      then_rest r rs (try_all A session tries rs) a (try_all-Tries tries rs)
        (try_lock A session tries r a).0 (try_lock A session tries r a).1 (try_lock-Tries tries r a)

  -- For any locks that behave as PostgreSQL documents, and whoever holds what: `acquireLocks` ends, and
  -- either this session holds every lock that it asked for, or it holds none at all. What other
  -- sessions hold stays held.
  pub acquire_locks-AllOrNothing :
      (tries : ℕ) (reqs : List LockRequest) (a : A.State)
      → Outcome
          (λ u b. All (λ (r : LockRequest). L.Holds r.key session b) reqs × OthersKept a b)
          (λ e b. ((k : Key) → ¬ L.Holds k session b) × OthersKept a b)
          (acquire_locks A session tries reqs a).0
          (acquire_locks A session tries reqs a).1
  unfolding acquire_locks
  acquire_locks-AllOrNothing tries reqs a =
      settled (try_all A session tries reqs a).0 (try_all A session tries reqs a).1
        (try_all-Tries tries reqs a)
    where
      settled :
          (o : Result LockError (Unit {0})) (b : A.State)
          → Tries reqs a o b
          → Outcome
              (λ u b. All (λ (r : LockRequest). L.Holds r.key session b) reqs × OthersKept a b)
              (λ e b. ((k : Key) → ¬ L.Holds k session b) × OthersKept a b)
              (release_if_failed A session o b).0
              (release_if_failed A session o b).1
      settled (ok u) b p = (p.0, λ k t other h. p.1 k t h)
      settled (err e) b p =
          (λ k. L.released k session b, λ k t other h. L.others k session t b other (p k t h))
