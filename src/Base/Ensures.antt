-- ===== src/Base/Ensures.antt =====
-- What a call establishes, whether it returns or fails, with one rule for each way to build a call.
use mathlib.Core.Path.{◌≡◌, refl}
use mathlib.Core.Bool.{Bool, true, false}
use ff_eth_logs.Base.Tests.{if◌then◌else◌}
use ff_eth_logs.Base.Exec.{Result, ok, err, Exec, pure, raise, continue, ◌>>=◌}

abbrev pub Outcome {ℓ κ μ ν} :
    {S : Type ℓ} {E : Type κ} {A : Type μ}
    → (A → S → Type ν)
    → (E → S → Type ν)
    → Result E A
    → S
    → Type ν
Outcome Q R (ok a) s = Q a s
Outcome Q R (err e) s = R e s

pub weaken_outcome {ℓ κ μ ν} :
    {S : Type ℓ} {E : Type κ} {A : Type μ} (Q Q' : A → S → Type ν) (R : E → S → Type ν)
    (r : Result E A) (s : S)
    → ((a : A) (s : S) → Q a s → Q' a s)
    → Outcome Q R r s
    → Outcome Q' R r s
weaken_outcome Q Q' R (ok a) s h o = h a s o
weaken_outcome Q Q' R (err e) s h o = o

pub weaken_error {ℓ κ μ ν} :
    {S : Type ℓ} {E : Type κ} {A : Type μ} (Q : A → S → Type ν) (R R' : E → S → Type ν)
    (r : Result E A) (s : S)
    → ((e : E) (s : S) → R e s → R' e s)
    → Outcome Q R r s
    → Outcome Q R' r s
weaken_error Q R R' (ok a) s h o = o
weaken_error Q R R' (err e) s h o = h e s o

-- From a state with `P`, the call returns a value and a state with `Q`, or fails with `R`.
pub record Ensures {ℓ κ μ ν} {S : Type ℓ} {E : Type κ} {A : Type μ} (P : S → Type ν)
    (Q : A → S → Type ν) (R : E → S → Type ν) (m : Exec S E A) : Type (ℓ ⊔ ν) where
  pub at : (s : S) → P s → Outcome Q R (m s).0 (m s).1

module _ {ℓ κ μ ν} {S : Type ℓ} {E : Type κ} {A : Type μ} {R : E → S → Type ν} where
  pub Ensures-pure :
      {P : S → Type ν} {Q : A → S → Type ν} (a : A)
      → ((s : S) → P s → Q a s)
      → Ensures P Q R (pure a)
  Ensures-pure a h = record { at = h }

  pub Ensures-raise :
      {P : S → Type ν} {Q : A → S → Type ν} (e : E)
      → ((s : S) → P s → R e s)
      → Ensures P Q R (raise {A = A} e)
  Ensures-raise e h = record { at = h }

  pub Ensures-if :
      {P : S → Type ν} {Q : A → S → Type ν} (b : Bool) (m n : Exec S E A)
      → (b ≡ true → Ensures P Q R m)
      → (b ≡ false → Ensures P Q R n)
      → Ensures P Q R (if b then m else n)
  Ensures-if true m n h k = h refl
  Ensures-if false m n h k = k refl

  pub Ensures-weaken :
      {P P' : S → Type ν} {Q Q' : A → S → Type ν} (m : Exec S E A)
      → ((s : S) → P' s → P s)
      → ((a : A) (s : S) → Q a s → Q' a s)
      → Ensures P Q R m
      → Ensures P' Q' R m
  Ensures-weaken {Q = Q} {Q' = Q'} m before after h = record {
    at = λ s p. weaken_outcome Q Q' R (m s).0 (m s).1 after (h.at s (before s p));
  }

module _ {ℓ κ μ ν} {S : Type ℓ} {E : Type κ} {A B : Type μ} {R : E → S → Type ν} where
  continue-Outcome :
      (Q : A → S → Type ν) (Q' : B → S → Type ν) (r : Result E A) (s : S) (f : A → Exec S E B)
      → Outcome Q R r s
      → ((a : A) → Ensures (Q a) Q' R (f a))
      → Outcome Q' R (continue r f s).0 (continue r f s).1
  continue-Outcome Q Q' (ok a) s f o h = (h a).at s o
  continue-Outcome Q Q' (err e) s f o h = o

  pub Ensures-bind :
      {P : S → Type ν} {Q : A → S → Type ν} {Q' : B → S → Type ν} (m : Exec S E A)
      (f : A → Exec S E B)
      → Ensures P Q R m
      → ((a : A) → Ensures (Q a) Q' R (f a))
      → Ensures P Q' R (m >>= f)
  Ensures-bind {Q = Q} {Q' = Q'} m f h k = record {
    at = λ s p. continue-Outcome Q Q' (m s).0 (m s).1 f (h.at s p) k;
  }
