-- ===== src/Prelude/Int64.antt =====
-- Go's int64, int and uint64: every result is reduced modulo 2 ^ 64.
use Prim.Native.Nat.{ℕ, suc, ◌-◌, ◌%◌, ◌≤◌}
use mathlib.Core.Path.{◌≡◌, refl}
use native.Mathlib.Omega.{arith}
use ssh_farm.Prelude.Tests.{leb, if◌then◌else◌}
use ssh_farm.Prelude.Int.{ℤ, pos, negsuc, pos_part, neg_part, ◌+ℤ◌, ◌-ℤ◌, ◌*ℤ◌, quot, rem, ltb_ℤ}

-- math.MaxInt64
abbrev pub max_int64 : ℕ
max_int64 = 9223372036854775807

abbrev pub u64_mod : ℕ
u64_mod = 18446744073709551616

-- uint64(x) of an integer.
unfoldable pub u64_of : ℤ → ℕ
u64_of (pos n) = n % u64_mod
u64_of (negsuc n) = u64_mod - 1 - n % u64_mod

-- int64(u) of a word below 2 ^ 64.
unfoldable pub int64_of : ℕ → ℤ
int64_of u = if leb u max_int64 then pos u else negsuc (u64_mod - 1 - u)

unfoldable pub wrap : ℤ → ℤ
unfolding u64_of int64_of
wrap x = int64_of (u64_of x)

unfoldable pub add64 : ℤ → ℤ → ℤ
unfolding wrap ◌+ℤ◌
add64 a b = wrap (a +ℤ b)

unfoldable pub sub64 : ℤ → ℤ → ℤ
unfolding wrap ◌-ℤ◌
sub64 a b = wrap (a -ℤ b)

unfoldable pub mul64 : ℤ → ℤ → ℤ
unfolding wrap ◌*ℤ◌
mul64 a b = wrap (a *ℤ b)

unfoldable pub div64 : ℤ → ℤ → ℤ
unfolding wrap quot
div64 a b = wrap (quot a b)

unfoldable pub rem64 : ℤ → ℤ → ℤ
unfolding rem
rem64 a b = rem a b

abbrev pub max64 : ℤ → ℤ → ℤ
max64 a b = if ltb_ℤ a b then b else a

abbrev pub min64 : ℤ → ℤ → ℤ
min64 a b = if ltb_ℤ b a then b else a

-- The values of the type.
abbrev pub IsInt64 : ℤ → Type 0
IsInt64 a = (pos_part a ≤ max_int64) × (neg_part a ≤ suc max_int64)

-- The values that an amount of coins takes: 0 to math.MaxInt64.
abbrev pub IsAmount : ℤ → Type 0
IsAmount a = (neg_part a ≡ 0) × (pos_part a ≤ max_int64)

pub wrap-IsInt64 : (a : ℤ) → IsInt64 (wrap a)
unfolding wrap
wrap-IsInt64 (pos n) = ground arith
wrap-IsInt64 (negsuc n) = ground arith

pub wrap_id : (a : ℤ) → IsInt64 a → wrap a ≡ a
unfolding wrap
wrap_id (pos n) h = ground arith
wrap_id (negsuc n) h = ground arith

-- An amount is `pos` of its value.
pub IsAmount-pos : (a : ℤ) → IsAmount a → a ≡ pos (pos_part a)
IsAmount-pos (pos n) h = refl
IsAmount-pos (negsuc n) h = absurd (omega arith)
