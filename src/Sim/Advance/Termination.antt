-- ===== src/Sim/Advance/Termination.antt =====
-- The loop of an automatic plot in internal/sim/advance.go comes to its end on its fuel.
use native.Mathlib.Nat.{div-lt_iff_lt-mul, le-div_iff_mul-le}
use ssh_farm.Prelude.{
  ℕ, zero, suc, ◌+◌, ◌*◌, ◌-◌, ◌/◌, ◌≤◌, ◌<◌, ◌≡◌, refl, ℤ, pos, negsuc, pos_part, neg_part, Bool,
  true, false, arith, ltb_ℤ, leb_ℤ, leb, Option-cases, Bool-cases, inl, inr, ◌⊎◌, if◌then◌else◌,
  add64, sub64, mul64, div64, mul64-IsInt64, add64_pos, mul64_pos, div64_pos, add64_amount,
  sub64_pos, parts_apart, max_int64, get_elem?, ◌&&◌, IsInt64,
}
use ssh_farm.Content.{Content, Crop}
use ssh_farm.Host.{Host}
use ssh_farm.Sim.State.{State, Plot}
use ssh_farm.Sim.Derive.{
  grow_seconds, bonus_sum, cap_percent, seed_cost, unlocked, seasonal_plantable,
}
use ssh_farm.Sim.Advance.Report.{Tick}
use ssh_farm.Sim.Advance.Auto.{
  Cursor, Turn, leave, again, after_batch, batch, reap, sow_choice, switched, resow, lie_fallow,
  after_harvest, round, turn_with, cycle, auto_cycle_cap,
}
use ssh_farm.Sim.Advance.Clock.{cycle_fuel, first_cursor}

-- math.MaxInt64 / 100: no crop grows for longer, since its time is a quotient by 100.
abbrev longest : ℕ
longest = 92233720368547758

div64-longest : (a : ℤ) → IsInt64 a → pos_part (div64 a (pos 100)) ≤ longest
unfolding div64
div64-longest (pos a) h = ground arith
div64-longest (negsuc a) h = ground arith

grow_seconds_bounds :
    (s : State) (c : Content) (crop : Crop)
    → (neg_part (grow_seconds s c crop) ≡ 0)
      × (0 < pos_part (grow_seconds s c crop))
      × (pos_part (grow_seconds s c crop) ≤ longest)
unfolding grow_seconds
grow_seconds_bounds s c crop =
    let product =
      mul64 crop.grow_seconds (sub64 (pos 100) (cap_percent (bonus_sum s c "grow_speed_pct"))) in
    let bound = div64-longest product (
      mul64-IsInt64 crop.grow_seconds
        (sub64 (pos 100) (cap_percent (bonus_sum s c "grow_speed_pct")))) in
    at_least product bound
  where
    at_least :
        (product : ℤ)
        → pos_part (div64 product (pos 100)) ≤ longest
        → let g = div64 product (pos 100) in
          let r = if ltb_ℤ g (pos 1) then pos 1 else g in
          (neg_part r ≡ 0) × (0 < pos_part r) × (pos_part r ≤ longest)
    at_least product b = ground (arith, parts_apart (div64 product (pos 100)))

record IsCursor (k : Cursor) : Type 0 where
  ripe : neg_part k.mature_at ≡ 0
  grows : (neg_part k.grow ≡ 0) × (0 < pos_part k.grow) × (pos_part k.grow ≤ longest)
  counted : k.cycles ≤ 50000

-- After a round: the loop is left, or a cycle is counted, or the crop is ripe after the timestamp.
Onward : ℕ → Cursor → Turn → Type 0
Onward t k leave = Unit
Onward t k (again k') = IsCursor k' × ((k'.cycles ≡ k.cycles + 1) ⊎ (t < pos_part k'.mature_at))

batch_lands :
    (m g t : ℕ)
    → m ≤ t
    → 0 < g
    → t + g ≤ max_int64
    → let end =
        add64 (add64 (pos m) (mul64 (div64 (sub64 (pos t) (pos m)) (pos g)) (pos g))) (pos g) in
      (neg_part end ≡ 0) × (t < pos_part end)
batch_lands m g t l p b =
    let d = t - m in
    let q = d / g in
    let below : q * g ≤ d = (le-div_iff_mul-le {k = g} {x = q} {y = d} p).0 (omega arith) in
    let past : d < (q + 1) * g =
      (div-lt_iff_lt-mul {k = g} {x = d} {y = q + 1} p).0 (omega arith) in
    let next : d < q * g + g = grind arith in
    rw
      (
        sub64_pos t m (omega arith) l,
        div64_pos d g (omega arith),
        mul64_pos q g (omega arith),
        add64_pos m (q * g) (omega arith),
        add64_pos (m + q * g) g (omega arith),
      )
      (refl, omega arith)

lands :
    (m g : ℤ) (t : ℕ)
    → neg_part m ≡ 0
    → pos_part m ≤ t
    → (neg_part g ≡ 0) × (0 < pos_part g) × (pos_part g ≤ longest)
    → t + longest ≤ max_int64
    → let end = add64 (add64 m (mul64 (div64 (sub64 (pos t) m) g) g)) g in
      (neg_part end ≡ 0) × (t < pos_part end)
lands (negsuc m) g t n l b o = absurd (omega arith)
lands (pos m) (negsuc g) t n l b o = absurd (omega arith)
lands (pos m) (pos g) t n l b o = batch_lands m g t l b.1 (omega arith)

batch-Onward :
    (h : Host) (c : Content) (t i : ℕ) (p : Plot) (k : Cursor) (tick : Tick)
    → t + longest ≤ max_int64
    → IsCursor k
    → pos_part k.mature_at ≤ t
    → Onward t k (batch h c (pos t) i p k tick).1
unfolding batch Onward
batch-Onward h c t i p k (s, ev) o w l =
    let (whole, late) = lands k.mature_at k.grow t w.ripe l w.grows o in
    let after = record k { mature_at = add64 (after_batch (pos t) k) k.grow } in
    let cursor : IsCursor after = record { ripe = whole; grows = w.grows; counted = w.counted } in
    ground (arith, cursor, late)

switched_grows :
    (s : State) (c : Content) (sow : Crop) (k : Cursor)
    → IsCursor k
    → let g = (switched s c sow k).grow in
      (neg_part g ≡ 0) × (0 < pos_part g) × (pos_part g ≤ longest)
unfolding switched
switched_grows s c sow k w = ground (arith, grow_seconds_bounds s c sow, w.grows)

next_ripe :
    (m g : ℤ) (t : ℕ)
    → neg_part m ≡ 0
    → pos_part m ≤ t
    → (neg_part g ≡ 0) × (0 < pos_part g) × (pos_part g ≤ longest)
    → t + longest ≤ max_int64
    → neg_part (add64 m g) ≡ 0
next_ripe m g t n l b o = ground (arith, add64_amount m g)

resow-Onward :
    (c : Content) (t i : ℕ) (p : Plot) (k : Cursor) (sow : Crop) (tick : Tick)
    → t + longest ≤ max_int64
    → IsCursor k
    → k.cycles < 50000
    → pos_part k.mature_at ≤ t
    → Onward t k (resow c i p k sow tick).1
unfolding resow Onward
resow-Onward c t i p k sow (s, ev) o w n l =
    let u = record s { coins = sub64 s.coins (seed_cost s c sow) } in
    let g = switched_grows u c sow k w in
    (
      record {
        ripe = next_ripe k.mature_at (switched u c sow k).grow t w.ripe l g o;
        grows = g;
        counted = omega arith;
      },
      inl refl,
    )

after_harvest-Onward :
    (h : Host) (c : Content) (t i : ℕ) (p : Plot) (k : Cursor) (tick : Tick)
    → t + longest ≤ max_int64
    → IsCursor k
    → k.cycles < 50000
    → pos_part k.mature_at ≤ t
    → Onward t k (after_harvest h c (pos t) i p k tick).1
unfolding after_harvest lie_fallow Onward
after_harvest-Onward h c t i p k (s, ev) o w n l =
    let sow = sow_choice c p k.crop in
    let sown = resow-Onward c t i p k sow (s, ev) o w n l in
    let fallow = lie_fallow i p (s, ev) in
    let sowing = resow c i p k sow (s, ev) in
    let able =
      leb_ℤ (seed_cost s c sow) s.coins
      && (unlocked s sow.unlock && seasonal_plantable h sow.unlock (pos t)) in
    either p.auto_sow (if able then sowing else fallow) fallow (either able sowing fallow sown tt)
      tt
  where
    either :
        (b : Bool) (x y : Tick × Turn)
        → Onward t k x.1
        → Onward t k y.1
        → Onward t k (if b then x else y).1
    either true x y on off = on
    either false x y on off = off

round-Onward :
    (h : Host) (c : Content) (t i : ℕ) (p : Plot) (k : Cursor) (tick : Tick)
    → t + longest ≤ max_int64
    → IsCursor k
    → pos_part k.mature_at ≤ t
    → Onward t k (round h c (pos t) i p k tick).1
unfolding round
round-Onward h c t i p k tick o w l = elim (Bool-cases (leb auto_cycle_cap k.cycles)) [
  | inl e ↦ rw (e, if◌then◌else◌) (batch-Onward h c t i p k tick o w l)
  | inr e ↦
      rw (e, if◌then◌else◌) (after_harvest-Onward h c t i p k (reap c k tick) o w (ground arith) l)
]

-- The fuel that is left is enough for the cycles that are left, or the crop is ripe too late.
Enough : ℕ → ℕ → Cursor → Type 0
Enough n t k = (50002 ≤ n + k.cycles) ⊎ ((0 < n) × (t < pos_part k.mature_at))

taken :
    (n t : ℕ) (k : Cursor) (turn : Turn) (tick : Tick) (go : Cursor → Tick × Bool)
    → 50002 ≤ suc n + k.cycles
    → IsCursor k
    → ((k' : Cursor) → IsCursor k' → Enough n t k' → (go k').1 ≡ true)
    → Onward t k turn
    → (turn_with turn tick go).1 ≡ true
unfolding Onward Enough
taken n t k leave tick go m w ends on = refl
taken n t k (again k') tick go m w ends (w', inl e) = ends k' w' (inl (omega arith))
taken n t k (again k') tick go m w ends (w', inr late) =
    let counted = w.counted in ends k' w' (inr (omega arith, late))

cycle_ends :
    (n : ℕ) (h : Host) (c : Content) (t i : ℕ) (k : Cursor) (tick : Tick)
    → t + longest ≤ max_int64
    → IsCursor k
    → Enough n t k
    → (cycle n h c (pos t) i k tick).1 ≡ true
unfolding cycle Enough
cycle_ends zero h c t i k tick o w m = let counted = w.counted in absurd (ground arith)
cycle_ends (suc n) h c t i k tick o w m = elim (Bool-cases (leb_ℤ k.mature_at (pos t))) [
  | inr e ↦ rw (e, cycle) refl
  | inl e ↦ elim (Option-cases (get_elem? tick.0.plots i)) [
    | inl f ↦ rw (e, cycle) (rw f refl)
    | inr (p, f) ↦
        let ripe = w.ripe in
        let l : pos_part k.mature_at ≤ t = ground arith in
        let left : 50002 ≤ suc n + k.cycles = ground arith in
        let next = (round h c (pos t) i p k tick).0 in
        rw (e, cycle)
          (rw f (
            taken n t k (round h c (pos t) i p k tick).1 next (λ k'. cycle n h c (pos t) i k' next)
              left w (λ k' w' m'. cycle_ends n h c t i k' next o w' m')
              (round-Onward h c t i p k tick o w l)))
  ]
]

-- The loop of a plot planted at n comes to its end on the fuel that Advance gives it, whatever the
-- save, the content, the plot and the crop, if the timestamp t and n are so small that with
-- math.MaxInt64 / 100 seconds added they stay in int64.
pub advance_cycle_ends :
    (h : Host) (c : Content) (s : State) (p : Plot) (crop : Crop) (t n i : ℕ) (tick : Tick)
    → p.planted_at ≡ pos n
    → n + 92233720368547758 ≤ max_int64
    → t + 92233720368547758 ≤ max_int64
    → (cycle cycle_fuel h c (pos t) i (first_cursor s c p crop) tick).1 ≡ true
unfolding Enough
advance_cycle_ends h c s p crop t n i tick e a o =
    let g = grow_seconds_bounds s c crop in
    let start : IsCursor (first_cursor s c p crop) = record {
      ripe = rw e (next_ripe (pos n) (grow_seconds s c crop) n refl (omega arith) g a);
      grows = g;
      counted = omega arith;
    } in
    cycle_ends cycle_fuel h c t i (first_cursor s c p crop) tick o start (inl (omega arith))
