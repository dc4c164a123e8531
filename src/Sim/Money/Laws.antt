-- ===== src/Sim/Money/Laws.antt =====
-- Saturating sums and products of amounts (satAdd and satMul of internal/sim/state.go).
use native.Mathlib.Nat.{le-div_iff_mul-le}
use ssh_farm.Prelude.{
  zero, suc, ◌+◌, ◌*◌, min, ◌≡◌, ℤ, pos, negsuc, max_int64, pos_part, IsAmount, arith, add64_amount,
  sub64_amount, div64_pos, mul64_pos,
}
use ssh_farm.Sim.Money.{sat_add, sat_mul}

-- On amounts `sat_add` is the sum, cut off at math.MaxInt64.
pub sat_add_lem :
    (a b : ℤ)
    → IsAmount a
    → IsAmount b
    → sat_add a b ≡ pos (min max_int64 (pos_part a + pos_part b))
unfolding sat_add
sat_add_lem (negsuc a) b h k = absurd (omega arith)
sat_add_lem (pos a) (negsuc b) h k = absurd (omega arith)
sat_add_lem (pos a) (pos b) h k =
    ground (arith, sub64_amount (pos max_int64) (pos b), add64_amount (pos a) (pos b))

-- On amounts `sat_mul` is the product, cut off at math.MaxInt64.
pub sat_mul_lem :
    (a b : ℤ)
    → IsAmount a
    → IsAmount b
    → sat_mul a b ≡ pos (min max_int64 (pos_part a * pos_part b))
unfolding sat_mul
sat_mul_lem (negsuc a) b h k = absurd (omega arith)
sat_mul_lem (pos a) (negsuc b) h k = absurd (omega arith)
sat_mul_lem (pos zero) (pos b) h k = ground arith
sat_mul_lem (pos (suc a)) (pos zero) h k = ground arith
sat_mul_lem (pos (suc a)) (pos (suc b)) h k = ground (
  arith,
  div64_pos max_int64 (suc b),
  mul64_pos (suc a) (suc b),
  le-div_iff_mul-le {k = suc b} {x = suc a} {y = max_int64} (omega arith),
)
