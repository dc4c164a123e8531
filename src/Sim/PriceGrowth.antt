-- ===== src/Sim/PriceGrowth.antt =====
-- The prices of internal/sim/derive.go grow with the level, and never overflow.
use native.Mathlib.Nat.{le-div_iff_mul-le, add-zero, zero-add, suc-add}
use ssh_farm.Prelude.{
  ℕ, zero, suc, ◌+◌, ◌*◌, ◌-◌, ◌/◌, ◌≤◌, ◌≡◌, refl, ◌∙◌, pos, ◌≤ℤ◌, ◌<ℤ◌, arith, true, false, ltb,
  max_int64, Bool-cases, inl, inr, div64, mul64, div64_pos, mul64_pos,
}
use ssh_farm.Content.{Upgrade}
use ssh_farm.Sim.State.{State, upgrade_level}
use ssh_farm.Sim.Prices.{scaled_cost, upgrade_cost}

-- math.MaxInt64 / 100, at which the loop breaks off.
abbrev ceiling : ℕ
ceiling = 92233720368547758

grow_le : (g k : ℕ) → 100 ≤ g → k * 100 ≤ k * g
grow_le g k h = grind arith

-- One round on a price k that passes the test.
scaled_round :
    (g k : ℕ)
    → 100 ≤ g
    → k ≤ max_int64 / g
    → (div64 (mul64 (pos k) (pos g)) (pos 100) ≡ pos (k * g / 100))
      × (k ≤ k * g / 100)
      × (k * g / 100 ≤ ceiling)
scaled_round g k h l =
    let fits = (le-div_iff_mul-le {k = g} {x = k} {y = max_int64} (omega arith)).0 l in
    let grown = grow_le g k h in
    (rw (mul64_pos k g fits) (div64_pos (k * g) 100 fits), omega arith, omega arith)

over :
    (n g k : ℕ) → ltb (max_int64 / g) k ≡ true → scaled_cost (suc n) (pos g) (pos k) ≡ pos ceiling
unfolding scaled_cost
over n g k e =
    rw (div64_pos max_int64 g (omega arith))
      (simp (add-zero, e) (div64_pos max_int64 100 (omega arith)))

under :
    (n g k : ℕ)
    → 100 ≤ g
    → ltb (max_int64 / g) k ≡ false
    → scaled_cost (suc n) (pos g) (pos k) ≡ scaled_cost n (pos g) (pos (k * g / 100))
unfolding scaled_cost
under n g k h e =
    rw (div64_pos max_int64 g (omega arith))
      (simp (add-zero, e) (rw (scaled_round g k h (ground arith)).0))

-- The value of a price after n levels: it lies between the base price and the ceiling.
scaled_bounds :
    (n g k : ℕ)
    → 100 ≤ g
    → k ≤ ceiling
    → (r : ℕ) × (scaled_cost n (pos g) (pos k) ≡ pos r) × (k ≤ r) × (r ≤ ceiling)
scaled_bounds zero g k h l = (k, unfold scaled_cost in refl, omega arith, l)
scaled_bounds (suc n) g k h l = elim (Bool-cases (ltb (max_int64 / g) k)) [
  | inl e ↦ (ceiling, over n g k e, l, omega arith)
  | inr e ↦
      let step = scaled_round g k h (ground arith) in
      let (r, q, a, b) = scaled_bounds n g (k * g / 100) h step.2 in
      (r, under n g k h e ∙ q, omega (arith, step.1), b)
]

-- One level more never costs less.
scaled_step :
    (n g k : ℕ)
    → 100 ≤ g
    → k ≤ ceiling
    → scaled_cost n (pos g) (pos k) ≤ℤ scaled_cost (suc n) (pos g) (pos k)
scaled_step zero g k h l =
    let (r, q, a, b) = scaled_bounds 1 g k h l in rw q (unfold scaled_cost in omega arith)
scaled_step (suc n) g k h l = elim (Bool-cases (ltb (max_int64 / g) k)) [
  | inl e ↦ rw (over n g k e, over (suc n) g k e) (omega arith)
  | inr e ↦
      let step = scaled_round g k h (ground arith) in
      rw (under n g k h e, under (suc n) g k h e) (scaled_step n g (k * g / 100) h step.2)
]

scaled_mono :
    (d n g k : ℕ)
    → 100 ≤ g
    → k ≤ ceiling
    → scaled_cost n (pos g) (pos k) ≤ℤ scaled_cost (d + n) (pos g) (pos k)
scaled_mono zero n g k h l = rw (zero-add n) (omega arith)
scaled_mono (suc d) n g k h l =
    rw (suc-add d n) (omega (arith, scaled_mono d n g k h l, scaled_step (d + n) g k h l))

cost_at :
    (s : State) (u : Upgrade) (m g k : ℕ)
    → u.cost ≡ pos k
    → u.cost_growth_pct ≡ pos g
    → upgrade_level s u.id ≡ pos m
    → pos m <ℤ u.max_level
    → upgrade_cost s u ≡ scaled_cost m (pos g) (pos k)
unfolding upgrade_cost
cost_at s u m g k ec eg es b = rw (es, ec, eg) (ground arith)

-- An upgrade whose base price is at most math.MaxInt64 / 100, with a growth of at least 100 per
-- cent, costs at least its base price and at most math.MaxInt64 / 100 at every level below its
-- maximum, and at a higher level never less than at a lower one, so that no product wraps.
pub upgrade_cost_grows :
    (s t : State) (u : Upgrade) (m n g k : ℕ)
    → u.cost ≡ pos k
    → u.cost_growth_pct ≡ pos g
    → 100 ≤ g
    → k ≤ 92233720368547758
    → upgrade_level s u.id ≡ pos m
    → upgrade_level t u.id ≡ pos n
    → m ≤ n
    → pos n <ℤ u.max_level
    → (pos k ≤ℤ upgrade_cost s u)
      × (upgrade_cost s u ≤ℤ upgrade_cost t u)
      × (upgrade_cost t u ≤ℤ pos 92233720368547758)
upgrade_cost_grows s t u m n g k ec eg h l es et o b =
    let (a, qa, la, ua) = scaled_bounds m g k h l in
    let (c, qc, lc, uc) = scaled_bounds n g k h l in
    let e : (n - m) + m ≡ n = omega arith in
    let grows = rw e at (scaled_mono (n - m) m g k h l) in
    rw (cost_at s u m g k ec eg es (omega arith), cost_at t u n g k ec eg et b)
      (rw qa (omega arith), grows, rw qc (omega arith))
