-- ===== src/Prelude/Amount.antt =====
-- Sums, differences, products and quotients of amounts, where they do not leave the range.
use Prim.Native.Nat.{ℕ, ◌+◌, ◌-◌, ◌*◌, ◌/◌, ◌≤◌}
use mathlib.Core.Path.{◌≡◌}
use native.Mathlib.Omega.{arith}
use native.Mathlib.Nat.{div-le_self}
use ssh_farm.Prelude.Int.{ℤ, pos, negsuc, pos_part, neg_part, ◌+ℤ◌, ◌-ℤ◌, ◌*ℤ◌, quot}
use ssh_farm.Prelude.Int64.{
  max_int64, wrap_id, wrap-IsInt64, int64_of, add64, sub64, mul64, div64, IsInt64, IsAmount,
}

pub add64_amount :
    (a b : ℤ)
    → IsAmount a
    → IsAmount b
    → pos_part a + pos_part b ≤ max_int64
    → (neg_part (add64 a b) ≡ 0) × (pos_part (add64 a b) ≡ pos_part a + pos_part b)
unfolding add64
add64_amount (pos a) (pos b) h k l = ground arith
add64_amount (pos a) (negsuc b) h k l = absurd (omega arith)
add64_amount (negsuc a) b h k l = absurd (omega arith)

pub sub64_amount :
    (a b : ℤ)
    → IsAmount a
    → IsAmount b
    → pos_part b ≤ pos_part a
    → (neg_part (sub64 a b) ≡ 0) × (pos_part (sub64 a b) ≡ pos_part a - pos_part b)
unfolding sub64
sub64_amount (pos a) (pos b) h k l = ground arith
sub64_amount (pos a) (negsuc b) h k l = absurd (omega arith)
sub64_amount (negsuc a) b h k l = absurd (omega arith)

pub mul64_amount :
    (a b : ℤ)
    → IsAmount a
    → IsAmount b
    → pos_part a * pos_part b ≤ max_int64
    → (neg_part (mul64 a b) ≡ 0) × (pos_part (mul64 a b) ≡ pos_part a * pos_part b)
unfolding mul64
mul64_amount (pos a) (pos b) h k l = ground arith
mul64_amount (pos a) (negsuc b) h k l = absurd (omega arith)
mul64_amount (negsuc a) b h k l = absurd (omega arith)

pub div64_amount :
    (a b : ℤ)
    → IsAmount a
    → IsAmount b
    → (neg_part (div64 a b) ≡ 0) × (pos_part (div64 a b) ≡ pos_part a / pos_part b)
unfolding div64
div64_amount (pos a) (pos b) h k = ground (arith, div-le_self a b)
div64_amount (pos a) (negsuc b) h k = absurd (omega arith)
div64_amount (negsuc a) b h k = absurd (omega arith)

-- The same as equations, on numbers; and the exact results of a sum and a difference in range.
pub add64_exact : (a b : ℤ) → IsInt64 (a +ℤ b) → add64 a b ≡ a +ℤ b
unfolding add64
add64_exact a b h = wrap_id (a +ℤ b) h

pub sub64_exact : (a b : ℤ) → IsInt64 (a -ℤ b) → sub64 a b ≡ a -ℤ b
unfolding sub64
sub64_exact a b h = wrap_id (a -ℤ b) h

pub add64_pos : (a b : ℕ) → a + b ≤ max_int64 → add64 (pos a) (pos b) ≡ pos (a + b)
unfolding add64
add64_pos a b h = ground arith

pub sub64_pos : (a b : ℕ) → a ≤ max_int64 → b ≤ a → sub64 (pos a) (pos b) ≡ pos (a - b)
unfolding sub64
sub64_pos a b h k = ground arith

pub mul64_pos : (a b : ℕ) → a * b ≤ max_int64 → mul64 (pos a) (pos b) ≡ pos (a * b)
unfolding mul64
mul64_pos a b h = ground arith

pub div64_pos : (a b : ℕ) → a ≤ max_int64 → div64 (pos a) (pos b) ≡ pos (a / b)
unfolding div64
div64_pos a b h = ground (arith, div-le_self a b)

pub int64_of_small : (u : ℕ) → u ≤ max_int64 → int64_of u ≡ pos u
unfolding int64_of
int64_of_small u h = ground arith

-- Every result of the operations is an int64.
pub add64-IsInt64 : (a b : ℤ) → IsInt64 (add64 a b)
unfolding add64
add64-IsInt64 a b = wrap-IsInt64 (a +ℤ b)

pub sub64-IsInt64 : (a b : ℤ) → IsInt64 (sub64 a b)
unfolding sub64
sub64-IsInt64 a b = wrap-IsInt64 (a -ℤ b)

pub mul64-IsInt64 : (a b : ℤ) → IsInt64 (mul64 a b)
unfolding mul64
mul64-IsInt64 a b = wrap-IsInt64 (a *ℤ b)

pub div64-IsInt64 : (a b : ℤ) → IsInt64 (div64 a b)
unfolding div64
div64-IsInt64 a b = wrap-IsInt64 (quot a b)
