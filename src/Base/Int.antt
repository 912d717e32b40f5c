-- ===== src/Base/Int.antt =====
-- Signed integers, for Go's int and int64: `negsuc n` is -(n + 1).
use ff_eth_logs.Base.Tests.{ltb, ◌==◌, if◌then◌else◌}
use Prim.Native.Nat.{ℕ, ◌-◌, ◌%◌, ◌^◌, ◌<◌}
use native.Mathlib.Omega.{arith}
use mathlib.Core.Path.{◌≡◌, refl}
use ff_eth_logs.Base.Word.{u64_mod}
use mathlib.Core.Bool.{Bool, true, false}

pub data ℤ : Type 0 where
  pos : ℕ → ℤ
  negsuc : ℕ → ℤ

abbrev pub int_eq : ℤ → ℤ → Bool
int_eq (pos a) (pos b) = a == b
int_eq (pos a) (negsuc b) = false
int_eq (negsuc a) (pos b) = false
int_eq (negsuc a) (negsuc b) = a == b

abbrev pub int_lt : ℤ → ℤ → Bool
int_lt (pos a) (pos b) = ltb a b
int_lt (pos a) (negsuc b) = false
int_lt (negsuc a) (pos b) = true
int_lt (negsuc a) (negsuc b) = ltb b a

abbrev pub i32_bound : ℕ
i32_bound = 2 ^ 31

-- `int32(n)`: the lower 32 bits, as a signed number.
unfoldable pub to_int32 : ℕ → ℤ
to_int32 n =
    let bits = n % 2 ^ 32 in if ltb bits i32_bound then pos bits else negsuc (2 ^ 32 - 1 - bits)

-- `uint(i)` of a signed number, in 64 bits.
unfoldable pub to_uint : ℤ → ℕ
to_uint (pos n) = n
to_uint (negsuc n) = u64_mod - 1 - n

pub to_int32_small : (n : ℕ) → n < i32_bound → to_int32 n ≡ pos n
unfolding to_int32
to_int32_small n h = let bits : n % 2 ^ 32 ≡ n = omega (arith, h) in rw bits (ground (arith, h))

pub to_uint-to_int32 : (n : ℕ) → n < i32_bound → to_uint (to_int32 n) ≡ n
unfolding to_uint
to_uint-to_int32 n h = rw (to_int32_small n h) refl
