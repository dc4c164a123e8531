-- ===== src/Sim/Random.antt =====
-- internal/sim/state.go: the splitmix64 stream of a save.
pub mod Bounds
use Prim.Native.Nat.{bit_xor}
use ssh_farm.Prelude.{
  ℕ, ◌+◌, ◌*◌, ◌/◌, ◌%◌, ◌^◌, ℤ, pos, u64_mod, u64_of, int64_of, add64, sub64, leb_ℤ, if◌then◌else◌,
}
use ssh_farm.Sim.State.{State}

-- z ^ (z >> k)
unfoldable pub xor_shift : ℕ → ℕ → ℕ
xor_shift z k = bit_xor z (z / 2 ^ k)

unfoldable pub mix : ℕ → ℕ
mix z0 =
    let z1 = (xor_shift z0 30 * 0xBF58476D1CE4E5B9) % u64_mod in
    let z2 = (xor_shift z1 27 * 0x94D049BB133111EB) % u64_mod in xor_shift z2 31

unfoldable pub next_rand : State → State × ℕ
next_rand s =
    let seed = (s.rng + 0x9E3779B97F4A7C15) % u64_mod in (record s { rng = seed }, mix seed)

unfoldable pub roll100 : State → State × ℤ
roll100 s = let (s', z) = next_rand s in (s', pos (z % 100))

unfoldable pub roll_bp : State → State × ℤ
roll_bp s = let (s', z) = next_rand s in (s', pos (z % 10000))

unfoldable pub roll_range : State → ℤ → ℤ → State × ℤ
roll_range s lo hi =
    if leb_ℤ hi lo
    then (s, lo)
    else let (s', z) = next_rand s in
      (s', add64 lo (int64_of (z % u64_of (add64 (sub64 hi lo) (pos 1)))))
