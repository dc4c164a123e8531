-- ===== src/Sim/Random/Bounds.antt =====
-- The rolls stay in their ranges.
use ssh_farm.Prelude.{
  ℕ, ◌+◌, ◌%◌, ◌≤◌, ◌<◌, ◌≡◌, ℤ, pos, pos_part, neg_part, arith, ◌≤ℤ◌, IsInt64, add64, sub64,
  u64_of, ◌-ℤ◌, int64_of_small, ap, Bool-cases, inl, inr, leb_ℤ, if◌then◌else◌, ◌<ℤ◌, max_int64,
  add64_exact, add64_pos, sub64_exact, int_laws,
}
use ssh_farm.Sim.State.{State}
use ssh_farm.Sim.Random.{next_rand, roll_range}

-- The width of the range, as the code computes it.
width :
    (lo hi : ℤ) (d : ℕ)
    → d < max_int64
    → hi -ℤ lo ≡ pos d
    → u64_of (add64 (sub64 hi lo) (pos 1)) ≡ d + 1
unfolding u64_of
width lo hi d b e =
    rw (sub64_exact hi lo (rw e (omega arith)), e, add64_pos d 1 (omega arith)) (omega arith)

offset_bounds :
    (lo hi : ℤ) (d k : ℕ)
    → IsInt64 lo
    → IsInt64 hi
    → hi -ℤ lo ≡ pos d
    → k ≤ d
    → (lo ≤ℤ add64 lo (pos k)) × (add64 lo (pos k) ≤ℤ hi)
offset_bounds lo hi d k a b e l =
    let f = ap pos_part e in
    let g = ap neg_part e in
    rw (add64_exact lo (pos k) (omega (int_laws, f, g))) (omega (int_laws, f, g))

-- A roll of a range of fewer than math.MaxInt64 + 1 values lies in it, both ends included.
pub roll_range_bounds :
    (s : State) (lo hi : ℤ)
    → IsInt64 lo
    → IsInt64 hi
    → lo ≤ℤ hi
    → (hi -ℤ lo) <ℤ pos max_int64
    → (lo ≤ℤ (roll_range s lo hi).1) × ((roll_range s lo hi).1 ≤ℤ hi)
unfolding roll_range
roll_range_bounds s lo hi a b h w = elim (Bool-cases (leb_ℤ hi lo)) [
  | inl e ↦ rw (e, if◌then◌else◌) (omega arith, h)
  | inr e ↦
      let d = pos_part (hi -ℤ lo) in
      let f : hi -ℤ lo ≡ pos d = omega int_laws in
      let small : d < max_int64 = omega (int_laws, w) in
      let z = (next_rand s).1 in
      rw (e, if◌then◌else◌)
        (rw (width lo hi d small f, int64_of_small (z % (d + 1)) (omega arith))
          (offset_bounds lo hi d (z % (d + 1)) a b f (omega arith)))
]
