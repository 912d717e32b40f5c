-- ===== src/Logstore/Locks/Examples.antt =====
-- Two sessions that ask for the locks of the writers.
use ff_eth_logs.Base.{
  ℕ, ◌≡◌, ◌≢◌, Bool, true, [], ◌∷◌, Option, none, some, All, arith, refl, ◌==◌, if◌then◌else◌,
  Option-cases, inl, inr,
}
use ff_eth_logs.Base.Exec.{err}
use ff_eth_logs.Base.Ensures.{Outcome}
use ff_eth_logs.Logstore.Locks.{
  Key, writer_lock_key, maintenance_lock_key, Advisory, AdvisoryLaws, LockRequest, OthersKept,
  writer_busy, acquire_locks, acquire_backfill_locks, acquire_locks-AllOrNothing,
}

-- The owner of each key.
pub record Owners : Type 0 where
  pub writer : Option ℕ
  pub maintenance : Option ℕ

abbrev pub owner : Key → Owners → Option ℕ
owner writer_lock_key o = o.writer
owner maintenance_lock_key o = o.maintenance

abbrev pub put_owner : Key → Option ℕ → Owners → Owners
put_owner writer_lock_key s o = record o { writer = s }
put_owner maintenance_lock_key s o = record o { maintenance = s }

abbrev pub take_free : Key → ℕ → Owners → Option ℕ → Option Bool × Owners
take_free k s o none = (some true, put_owner k (some s) o)
take_free k s o (some t) = (some (t == s), o)

abbrev pub without : ℕ → Option ℕ → Option ℕ
without s none = none
without s (some t) = if t == s then none else some t

abbrev pub two_locks : Advisory
two_locks = record {
  State = Owners;
  try_lock = λ k s o. take_free k s o (owner k o);
  unlock_all = λ s o. record { writer = without s o.writer; maintenance = without s o.maintenance };
}

pub two_locks-granted :
    (k : Key) (s : ℕ) (o : Owners)
    → (two_locks.try_lock k s o).0 ≡ some true
    → owner k (two_locks.try_lock k s o).1 ≡ some s
two_locks-granted writer_lock_key s o h = elim (Option-cases o.writer) [
  | inl e ↦ rw e refl
  | inr (t, e) ↦ ground (arith, h, e)
]
two_locks-granted maintenance_lock_key s o h = elim (Option-cases o.maintenance) [
  | inl e ↦ rw e refl
  | inr (t, e) ↦ ground (arith, h, e)
]

pub two_locks-kept :
    (k j : Key) (s t : ℕ) (o : Owners)
    → owner j o ≡ some t
    → owner j (two_locks.try_lock k s o).1 ≡ some t
two_locks-kept writer_lock_key writer_lock_key s t o h = rw h refl
two_locks-kept writer_lock_key maintenance_lock_key s t o h = elim (Option-cases o.writer) [
  | inl e ↦ rw e h
  | inr (u, e) ↦ rw e h
]
two_locks-kept maintenance_lock_key writer_lock_key s t o h = elim (Option-cases o.maintenance) [
  | inl e ↦ rw e h
  | inr (u, e) ↦ rw e h
]
two_locks-kept maintenance_lock_key maintenance_lock_key s t o h = rw h refl

pub without_self : (s : ℕ) (o : Option ℕ) → without s o ≡ some s → ⊥
without_self s none h = cc h
without_self s (some t) h = ground (arith, h)

pub without_other : (s t : ℕ) (o : Option ℕ) → s ≢ t → o ≡ some t → without s o ≡ some t
without_other s t none other h = absurd (cc h)
without_other s t (some u) other h = ground (arith, other, h)

unfoldable pub two_locks_laws : AdvisoryLaws two_locks
two_locks_laws = record {
  Holds = λ k s o. owner k o ≡ some s;
  granted = two_locks-granted;
  kept = two_locks-kept;
  released = λ k s o h. gone k s o h;
  others = λ k s t o other h. stays k s t o other h;
}
  where
    gone : (k : Key) (s : ℕ) (o : Owners) → owner k (two_locks.unlock_all s o) ≡ some s → ⊥
    gone writer_lock_key s o h = without_self s o.writer h
    gone maintenance_lock_key s o h = without_self s o.maintenance h

    stays :
        (k : Key) (s t : ℕ) (o : Owners)
        → s ≢ t
        → owner k o ≡ some t
        → owner k (two_locks.unlock_all s o) ≡ some t
    stays writer_lock_key s t o other h = without_other s t o.writer other h
    stays maintenance_lock_key s t o other h = without_other s t o.maintenance other h

abbrev pub held_by_writer : Owners
held_by_writer = record { writer = some 1; maintenance = none }

-- A backfill next to a service that writes is refused, and nothing is left behind.
backfill_is_busy :
    acquire_backfill_locks two_locks 2 3 held_by_writer ≡ (err writer_busy, held_by_writer)
unfolding acquire_locks
backfill_is_busy = refl

acquire_locks-AllOrNothing_example :
    Outcome
      (λ u b.
        All
          (λ (r : LockRequest). two_locks_laws.Holds r.key 2 b)
          ((record { key = maintenance_lock_key; wait = true }) ∷ [])
        × OthersKept two_locks two_locks_laws 2 held_by_writer b)
      (λ e b.
        ((k : Key) → ¬ two_locks_laws.Holds k 2 b)
        × OthersKept two_locks two_locks_laws 2 held_by_writer b)
      (acquire_locks two_locks 2 3
        ((record { key = maintenance_lock_key; wait = true }) ∷ [])
        held_by_writer).0
      (acquire_locks two_locks 2 3
        ((record { key = maintenance_lock_key; wait = true }) ∷ [])
        held_by_writer).1
acquire_locks-AllOrNothing_example =
    acquire_locks-AllOrNothing two_locks two_locks_laws 2 3
      ((record { key = maintenance_lock_key; wait = true }) ∷ []) held_by_writer
