-- ===== src/Base/Sort.antt =====
-- Stable insertion sort by a Boolean order, and what holds of it.
pub mod Filter
use mathlib.Core.List.{Perm}
use mathlib.Core.List.Perm
use mathlib.Core.Path.{◌≡◌, refl}
use mathlib.Core.Logic.{inl, inr}
use mathlib.Core.Bool.{Bool, true, false}
use mathlib.Core.List.{List, [], ◌∷◌, map}
use native.Mathlib.Omega.{arith}
use ff_eth_logs.Base.Lists.{All}
use ff_eth_logs.Base.Tests.{if◌then◌else◌, Bool-cases}

module _ {ℓ} {A : Type ℓ} where
  unfoldable pub insert_by : (A → A → Bool) → A → List A → List A
  insert_by lt x [] = x ∷ []
  insert_by lt x (y ∷ ys) = if lt y x then y ∷ insert_by lt x ys else x ∷ y ∷ ys

  unfoldable pub sort_by : (A → A → Bool) → List A → List A
  unfolding insert_by
  sort_by lt [] = []
  sort_by lt (x ∷ xs) = insert_by lt x (sort_by lt xs)

  -- No element is below the one before it.
  abbrev pub Ordered : (A → A → Bool) → List A → Type 0
  Ordered lt [] = Unit
  Ordered lt (x ∷ []) = Unit
  Ordered lt (x ∷ y ∷ ys) = (lt y x ≡ false) × Ordered lt (y ∷ ys)

module _ {ℓ} {A : Type ℓ} (lt : A → A → Bool) where
  insert_by-Perm : (x : A) (ys : List A) → Perm (insert_by lt x ys) (x ∷ ys)
  unfolding insert_by
  insert_by-Perm x [] = Perm.refl (x ∷ [])
  insert_by-Perm x (y ∷ ys) = elim (Bool-cases (lt y x)) [
    | inl h ↦ rw h (Perm.trans (Perm.cons y (insert_by-Perm x ys)) (Perm.swap x y ys))
    | inr h ↦ rw h (Perm.refl (x ∷ y ∷ ys))
  ]

  pub sort_by-Perm : (xs : List A) → Perm (sort_by lt xs) xs
  unfolding sort_by
  sort_by-Perm [] = Perm.refl []
  sort_by-Perm (x ∷ xs) =
      Perm.trans (insert_by-Perm x (sort_by lt xs)) (Perm.cons x (sort_by-Perm xs))

  module _ (asym : (x y : A) → lt x y ≡ true → lt y x ≡ false) where
    insert_by-Ordered : (x : A) (ys : List A) → Ordered lt ys → Ordered lt (insert_by lt x ys)
    unfolding insert_by
    insert_by-Ordered x [] o = tt
    insert_by-Ordered x (y ∷ []) o = elim (Bool-cases (lt y x)) [
      | inl h ↦ rw h (asym y x h, tt)
      | inr h ↦ rw h (h, tt)
    ]
    insert_by-Ordered x (y ∷ z ∷ zs) o =
        let rest = insert_by-Ordered x (z ∷ zs) o.1 in ground (arith, rest, asym y x)

    pub sort_by-Ordered : (xs : List A) → Ordered lt (sort_by lt xs)
    unfolding sort_by
    sort_by-Ordered [] = tt
    sort_by-Ordered (x ∷ xs) = insert_by-Ordered x (sort_by lt xs) (sort_by-Ordered xs)

module _ {A : Type 0} (lt : A → A → Bool) (P : A → Type 0) where
  pub All-insert_by : (x : A) (ys : List A) → P x → All P ys → All P (insert_by lt x ys)
  unfolding insert_by
  All-insert_by x [] p a = (p, tt)
  All-insert_by x (y ∷ ys) p a = elim (Bool-cases (lt y x)) [
    | inl h ↦ rw h (a.0, All-insert_by x ys p a.1)
    | inr h ↦ rw h (p, a)
  ]

  pub All-sort_by : (xs : List A) → All P xs → All P (sort_by lt xs)
  unfolding sort_by
  All-sort_by [] a = tt
  All-sort_by (x ∷ xs) a = All-insert_by x (sort_by lt xs) a.0 (All-sort_by xs a.1)

-- A map that keeps the order of some elements.
module _ {A B : Type 0} (f : A → B) (ltA : A → A → Bool) (ltB : B → B → Bool) (P : A → Type 0)
    (same : (x y : A) → P x → P y → ltB (f x) (f y) ≡ ltA x y) where
  insert_by-map :
      (x : A) (ys : List A)
      → P x
      → All P ys
      → insert_by ltB (f x) (map f ys) ≡ map f (insert_by ltA x ys)
  unfolding insert_by
  insert_by-map x [] p a = refl
  insert_by-map x (y ∷ ys) p a =
      let keeps = same y x a.0 p in ground (arith, keeps, insert_by-map x ys p a.1)

  pub sort_by-map : (xs : List A) → All P xs → sort_by ltB (map f xs) ≡ map f (sort_by ltA xs)
  unfolding sort_by
  sort_by-map [] a = refl
  sort_by-map (x ∷ xs) a =
      rw (sort_by-map xs a.1) (insert_by-map x (sort_by ltA xs) a.0 (All-sort_by ltA P xs a.1))
