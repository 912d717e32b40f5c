-- ===== src/Base/Sort/Filter.antt =====
-- A stable sort and a filter: in which order they are done makes no difference.
use mathlib.Core.Path.{◌≡◌, refl}
use mathlib.Core.Logic.{inl, inr}
use mathlib.Core.Bool.{Bool, true, false}
use mathlib.Core.List.{List, [], ◌∷◌}
use native.Mathlib.Omega.{arith}
use ff_eth_logs.Base.Tests.{if◌then◌else◌, Bool-cases}
use ff_eth_logs.Base.Lists.{All, filter, All-filter}
use ff_eth_logs.Base.Sort.{insert_by, sort_by, All-insert_by}

module _ {A : Type 0} (lt : A → A → Bool) where
  -- No element is below any that stands before it.
  abbrev Ascending : List A → Type 0
  Ascending [] = Unit
  Ascending (x ∷ xs) = All (λ y. lt y x ≡ false) xs × Ascending xs

  insert_by-All : (x : A) (ys : List A) → All (λ y. lt y x ≡ false) ys → insert_by lt x ys ≡ x ∷ ys
  unfolding insert_by
  insert_by-All x [] a = refl
  insert_by-All x (y ∷ ys) a = rw a.0 refl

  module _ (asym : (x y : A) → lt x y ≡ true → lt y x ≡ false)
      (connected : (x y z : A) → lt z y ≡ false → lt y x ≡ false → lt z x ≡ false) where
    above :
        (x y : A) (ys : List A)
        → lt y x ≡ false
        → All (λ z. lt z y ≡ false) ys
        → All (λ z. lt z x ≡ false) ys
    above x y [] h a = tt
    above x y (z ∷ zs) h a = (connected x y z a.0 h, above x y zs h a.1)

    insert_by-Ascending : (x : A) (ys : List A) → Ascending ys → Ascending (insert_by lt x ys)
    unfolding insert_by
    insert_by-Ascending x [] o = (tt, tt)
    insert_by-Ascending x (y ∷ ys) o = elim (Bool-cases (lt y x)) [
      | inl h ↦ rw h (
        All-insert_by lt (λ z. lt z y ≡ false) x ys (asym y x h) o.0,
        insert_by-Ascending x ys o.1,
      )
      | inr h ↦ rw h ((h, above x y ys h o.0), o)
    ]

    sort_by-Ascending : (xs : List A) → Ascending (sort_by lt xs)
    unfolding sort_by
    sort_by-Ascending [] = tt
    sort_by-Ascending (x ∷ xs) = insert_by-Ascending x (sort_by lt xs) (sort_by-Ascending xs)

    module _ (p : A → Bool) where
      filter-insert_by :
          (x : A) (ys : List A)
          → Ascending ys
          → filter p (insert_by lt x ys)
            ≡ (if p x then insert_by lt x (filter p ys) else filter p ys)
      unfolding filter insert_by
      filter-insert_by x [] o = ground arith
      filter-insert_by x (y ∷ ys) o = elim (Bool-cases (lt y x)) [
        | inl h ↦ ground (arith, h, filter-insert_by x ys o.1)
        | inr h ↦
            let first =
              insert_by-All x (filter p (y ∷ ys))
                (All-filter (λ z. lt z x ≡ false) p (y ∷ ys) (h, above x y ys h o.0)) in
            ground (arith, h, first)
      ]

      pub filter-sort_by : (xs : List A) → filter p (sort_by lt xs) ≡ sort_by lt (filter p xs)
      unfolding filter sort_by
      filter-sort_by [] = refl
      filter-sort_by (x ∷ xs) =
          let inserted = filter-insert_by x (sort_by lt xs) (sort_by-Ascending xs) in
          ground (arith, inserted, filter-sort_by xs)
