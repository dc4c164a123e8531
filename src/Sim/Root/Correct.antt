-- ===== src/Sim/Root/Correct.antt =====
-- isqrt is the floor of the square root, whatever the floating-point guess is.
use ssh_farm.Prelude.{
  ℕ, zero, suc, ◌+◌, ◌*◌, ◌/◌, ◌≤◌, ◌<◌, ◌≡◌, refl, ℤ, pos, negsuc, pos_part, neg_part, arith, ltb,
  leb, Bool-cases, inl, inr,
}
use native.Mathlib.Nat.{le-div_iff_mul-le, div-lt_iff_lt-mul}
use ssh_farm.Host.{Host}
use ssh_farm.Sim.Root.{lower, raise, isqrt_ℕ, isqrt}

-- The test of `raise`, as a product.
le-div→mul-le : (r n : ℕ) → r ≤ n / r → r * r ≤ n
le-div→mul-le zero n h = omega arith
le-div→mul-le (suc r) n h = (le-div_iff_mul-le {k = suc r} {x = suc r} {y = n} (omega arith)).0 h

div-lt→lt-mul : (r n : ℕ) → 0 < r → n / r < r → n < r * r
div-lt→lt-mul r n p h = (div-lt_iff_lt-mul {k = r} {x = n} {y = r} p).0 h

lower-sq : (n r : ℕ) → lower n r * lower n r ≤ n
unfolding lower
lower-sq n zero = omega arith
lower-sq n (suc r) = elim (Bool-cases (ltb (n / suc r) (suc r))) [
  | inl e ↦ rw (e, lower) (lower-sq n r)
  | inr e ↦ rw (e, lower) (le-div→mul-le (suc r) n (ground arith))
]

-- With fuel for the distance to n, `raise` ends at a root whose successor is too large.
raise-sq :
    (fuel n r : ℕ)
    → n ≤ fuel + r
    → r * r ≤ n
    → (raise fuel n r * raise fuel n r ≤ n) × (n < (raise fuel n r + 1) * (raise fuel n r + 1))
unfolding raise
raise-sq zero n r f h = (h, grind arith)
raise-sq (suc fuel) n r f h = elim (Bool-cases (leb (r + 1) (n / (r + 1)))) [
  | inl e ↦
      rw (e, raise) (raise-sq fuel n (r + 1) (omega arith) (le-div→mul-le (r + 1) n (ground arith)))
  | inr e ↦ rw (e, raise) (h, div-lt→lt-mul (r + 1) n (omega arith) (ground arith))
]

isqrt_ℕ-sq :
    (h : Host) (n : ℕ)
    → (isqrt_ℕ h n * isqrt_ℕ h n ≤ n) × (n < (isqrt_ℕ h n + 1) * (isqrt_ℕ h n + 1))
unfolding isqrt_ℕ
isqrt_ℕ-sq h n = raise-sq n n (lower n (h.float_sqrt n)) (omega arith) (lower-sq n (h.float_sqrt n))

-- Whatever the floating-point guess is, the result r for a positive n has r * r ≤ n and
-- n < (r + 1) * (r + 1), and it is 0 for every other n.
pub isqrt_floor :
    (h : Host) (n : ℤ)
    → (neg_part (isqrt h n) ≡ 0)
      × (pos_part (isqrt h n) * pos_part (isqrt h n) ≤ pos_part n)
      × (pos_part n < (pos_part (isqrt h n) + 1) * (pos_part (isqrt h n) + 1))
unfolding isqrt
isqrt_floor h (negsuc n) = ground arith
isqrt_floor h (pos zero) = (refl, omega arith, omega arith)
isqrt_floor h (pos (suc n)) = ground (arith, isqrt_ℕ-sq h (suc n))
