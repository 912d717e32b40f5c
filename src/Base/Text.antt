-- ===== src/Base/Text.antt =====
-- Texts as lists of bytes, with the functions of Go's package strings that the program calls.
use Prim.Native.Nat.{ℕ, zero, suc, ◌+◌, ◌/◌, ◌%◌}
use Prim.Native.Char.{code}
use Prim.Native.String.{String}
use mathlib.Core.Path.{◌≡◌, refl, ap, subst}
use mathlib.Core.Logic.{inl, inr}
use mathlib.Core.Bool.{Bool, true, false, ◌&&◌, ◌||◌}
use mathlib.Core.List.{List, [], ◌∷◌, ◌++◌, append_assoc}
use native.Mathlib.Omega.{arith}
use ff_eth_logs.Base.Tests.{leb, ltb, ◌==◌, if◌then◌else◌, Bool-cases}

-- The bytes of a text, if it is ASCII.
abbrev pub codes : String → List ℕ
codes String.[] = []
codes (String.◌∷◌ c s) = code c ∷ codes s

-- `strings.ToLower` on an ASCII byte.
unfoldable pub to_lower : ℕ → ℕ
to_lower c = if leb b'A' c && leb c b'Z' then c + 32 else c

-- `strings.HasPrefix`, the prefix first.
unfoldable pub has_prefix : List ℕ → List ℕ → Bool
has_prefix [] text = true
has_prefix (p ∷ ps) [] = false
has_prefix (p ∷ ps) (c ∷ text) = p == c && has_prefix ps text

-- `strings.Contains`.
unfoldable pub contains : List ℕ → List ℕ → Bool
unfolding has_prefix
contains [] needle = has_prefix needle []
contains (c ∷ text) needle = has_prefix needle (c ∷ text) || contains text needle

-- The decimal digits of a number, as `%d` prints it, with fuel for their count.
unfoldable pub digits_of : ℕ → ℕ → List ℕ
digits_of zero n = []
digits_of (suc fuel) n =
    let high = digits_of fuel (n / 10) in
    if ltb n 10 then (b'0' + n) ∷ [] else high ++ ((b'0' + n % 10) ∷ [])

unfoldable pub decimal : ℕ → List ℕ
unfolding digits_of
decimal n = digits_of (suc n) n

pub has_prefix-append : (p rest : List ℕ) → has_prefix p (p ++ rest) ≡ true
unfolding has_prefix
has_prefix-append [] rest = refl
has_prefix-append (p ∷ ps) rest = ground (arith, has_prefix-append ps rest)

pub split_of_has_prefix :
    (p text : List ℕ) → has_prefix p text ≡ true → (rest : List ℕ) × (text ≡ p ++ rest)
unfolding has_prefix
split_of_has_prefix [] text h = (text, refl)
split_of_has_prefix (p ∷ ps) [] h = cc
split_of_has_prefix (p ∷ ps) (c ∷ text) h =
    let tail = split_of_has_prefix ps text (ground arith) in (tail.0, ground (arith, tail.1))

-- A text contains what stands somewhere in it.
pub contains_of_split :
    (before needle after : List ℕ) → contains (before ++ (needle ++ after)) needle ≡ true
unfolding contains
contains_of_split (c ∷ before) needle after = ground (arith, contains_of_split before needle after)
contains_of_split [] [] [] = refl
contains_of_split [] [] (c ∷ after) = refl
contains_of_split [] (n ∷ needle) after = ground (arith, has_prefix-append (n ∷ needle) after)

pub split_of_contains :
    (text needle : List ℕ)
    → contains text needle ≡ true
    → (before : List ℕ) × (after : List ℕ) × (text ≡ before ++ (needle ++ after))
unfolding contains
split_of_contains [] needle h = let tail = split_of_has_prefix needle [] h in ([], tail.0, tail.1)
split_of_contains (c ∷ text) needle h = elim (Bool-cases (has_prefix needle (c ∷ text))) [
  | inl here ↦ let tail = split_of_has_prefix needle (c ∷ text) here in ([], tail.0, tail.1)
  | inr later ↦
      let rest = split_of_contains text needle (ground arith) in
      (c ∷ rest.0, rest.1, ap (◌∷◌ c) rest.2)
]

-- Text before and after does not hide a phrase: an error keeps its class when it is wrapped.
pub contains-append :
    (before text after needle : List ℕ)
    → contains text needle ≡ true
    → contains (before ++ (text ++ after)) needle ≡ true
contains-append before text after needle h =
    let at = split_of_contains text needle h in
    subst (λ t. contains t needle ≡ true) (regroup at.0 at.1 at.2)
      (contains_of_split (before ++ at.0) needle (at.1 ++ after))
  where
    regroup :
        (b a : List ℕ)
        → text ≡ b ++ (needle ++ a)
        → (before ++ b) ++ (needle ++ (a ++ after)) ≡ before ++ (text ++ after)
    regroup b a e = rw e (simp append_assoc)
