-- ===== src/Sim/Money.antt =====
-- internal/sim/state.go: saturating arithmetic on amounts.
pub mod Laws
use ssh_farm.Prelude.{
  ℤ, pos, max_int64, add64, sub64, mul64, div64, ltb_ℤ, eqb_ℤ, ◌||◌, if◌then◌else◌,
}

unfoldable pub sat_add : ℤ → ℤ → ℤ
sat_add a b = if ltb_ℤ (sub64 (pos max_int64) b) a then pos max_int64 else add64 a b

unfoldable pub sat_mul : ℤ → ℤ → ℤ
sat_mul a b =
    if eqb_ℤ a (pos 0) || eqb_ℤ b (pos 0)
    then pos 0
    else if ltb_ℤ (div64 (pos max_int64) b) a
    then pos max_int64
    else mul64 a b
