-- ===== src/Sim/Root.antt =====
-- internal/sim/derive.go: isqrt. The first guess comes from a floating-point square root.
pub mod Correct
use ssh_farm.Prelude.{
  ℕ, zero, suc, ◌+◌, ◌/◌, ℤ, pos, Bool, true, false, ltb, leb, leb_ℤ, pos_part, if◌then◌else◌,
}
use ssh_farm.Host.{Host}

-- for r > 0 && r > n/r { r-- }
unfoldable pub lower : ℕ → ℕ → ℕ
lower n zero = zero
lower n (suc r) = elim (ltb (n / suc r) (suc r)) [ true ↦ lower n r | false ↦ suc r ]

-- for r+1 <= n/(r+1) { r++ }, on fuel
unfoldable pub raise : ℕ → ℕ → ℕ → ℕ
raise zero n r = r
raise (suc fuel) n r = elim (leb (r + 1) (n / (r + 1))) [ true ↦ raise fuel n (r + 1) | false ↦ r ]

-- Each round of `raise` adds one to a root of at most n, so n rounds are enough.
unfoldable pub isqrt_ℕ : Host → ℕ → ℕ
isqrt_ℕ h n = raise n n (lower n (h.float_sqrt n))

unfoldable pub isqrt : Host → ℤ → ℤ
isqrt h n = if leb_ℤ n (pos 0) then pos 0 else pos (isqrt_ℕ h (pos_part n))
