-- ===== src/Sim/Scarecrows.antt =====
-- internal/sim/scarecrow.go: the drop clock, the pouches and their collection.
use ssh_farm.Prelude.{
  ℕ, zero, suc, ◌+◌, ℤ, pos, Bool, not, ◌||◌, none, some, if◌then◌else◌, ltb_ℤ, leb_ℤ, eqb_ℤ, add64,
  sub64, mul64, div64, rem64, max64, min64, get_index, set_index, length, pos_part, ◌==◌,
}
use ssh_farm.Content.{Content}
use ssh_farm.Sim.State.{State}
use ssh_farm.Sim.Money.{sat_add, sat_mul}
use ssh_farm.Sim.Random.{roll_range}
use ssh_farm.Sim.Contracts.{credit, progression_rebirths, contract_blocks_scarecrow}
use ssh_farm.Sim.Outcome.{Outcome, ok, err, refuse, unknown_scarecrow, pouch_empty}

unfoldable pub scarecrows_allowed : State → Bool
scarecrows_allowed s = not (contract_blocks_scarecrow s)

unfoldable pub scarecrow_drop : State → Content → ℤ → ℤ
scarecrow_drop s c base =
    let n = max64 (pos (length s.scarecrows)) (pos 1) in
    let synergy = add64 (pos 100) (mul64 c.scarecrow.synergy_pct (sub64 n (pos 1))) in
    let rebirth = add64 (pos 100) (mul64 c.scarecrow.rebirth_bonus_pct (progression_rebirths s)) in
    div64 (sat_mul (sat_mul base synergy) rebirth) (pos 10000)

unfoldable pub scarecrow_drop_range : State → Content → ℤ × ℤ
scarecrow_drop_range s c =
    (scarecrow_drop s c c.scarecrow.coins_min, scarecrow_drop s c c.scarecrow.coins_max)

unfoldable pub scarecrow_clock_target : Content → ℤ
scarecrow_clock_target c = sat_mul c.scarecrow.drop_interval_sec c.scarecrow.offline_slowdown

-- ScarecrowNextDrop
unfoldable pub scarecrow_next_drop : State → Content → ℤ × ℤ
scarecrow_next_drop s c =
    let target = scarecrow_clock_target c in
    let slow = c.scarecrow.offline_slowdown in
    let clock = min64 (max64 s.scarecrow_clock (pos 0)) target in
    if ltb_ℤ target (pos 1) || ltb_ℤ slow (pos 1) then (pos 0, pos 0) else (
      div64 (mul64 clock (pos 100)) target,
      div64 (sub64 (add64 (sub64 target clock) slow) (pos 1)) slow,
    )

abbrev pub scarecrow_roll_cap : ℤ
scarecrow_roll_cap = pos 2000

-- The drops of one scarecrow that are rolled one by one.
unfoldable pub roll_drops : Content → ℕ → State → ℤ → State × ℤ
roll_drops c zero s gained = (s, gained)
roll_drops c (suc k) s gained =
    let (s', base) = roll_range s c.scarecrow.coins_min c.scarecrow.coins_max in
    roll_drops c k s' (sat_add gained (scarecrow_drop s' c base))

-- What one scarecrow gathers from `drops` drops, the first `rolled` of them by rolls.
unfoldable pub gather_drops : Content → ℤ → ℤ → State → State × ℤ
gather_drops c drops rolled s =
    let (s', gained) = roll_drops c (pos_part rolled) s (pos 0) in
    let rest = sub64 drops rolled in
    let mean =
      scarecrow_drop s' c (div64 (add64 c.scarecrow.coins_min c.scarecrow.coins_max) (pos 2)) in
    (s', if ltb_ℤ (pos 0) rest then sat_add gained (sat_mul mean rest) else gained)

-- The loop over the scarecrows, from index i for k rounds, with the coins counted so far.
unfoldable pub fill_pouches : Content → ℤ → ℤ → ℕ → ℕ → State → ℤ → State × ℤ
fill_pouches c drops rolled zero i s total = (s, total)
fill_pouches c drops rolled (suc k) i s total =
    let (s', gained) = gather_drops c drops rolled s in
    elim (get_index s'.scarecrows (pos i)) [
      | none ↦ (s', total)
      | some sc ↦
          fill_pouches c drops rolled k (i + 1)
            (record s' {
              scarecrows =
                  set_index s'.scarecrows (pos i) (record { pouch = sat_add sc.pouch gained });
            })
            (sat_add total gained)
    ]

-- advanceScarecrows: the save, and the coins that the event report counts.
unfoldable pub run_clock : State → Content → ℤ → ℤ → ℤ → State × ℤ
run_clock s c target elapsed rate =
    let clock = sat_add (max64 s.scarecrow_clock (pos 0)) (sat_mul elapsed rate) in
    let drops = div64 clock target in
    let t = record s { scarecrow_clock = rem64 clock target } in
    if eqb_ℤ drops (pos 0)
    then (t, pos 0)
    else fill_pouches c drops (min64 drops scarecrow_roll_cap) (length s.scarecrows) 0 t (pos 0)

unfoldable pub advance_scarecrows : State → Content → ℤ → Bool → State × ℤ
advance_scarecrows s c elapsed online =
    let target = scarecrow_clock_target c in
    if length s.scarecrows == 0 || leb_ℤ c.scarecrow.cost (pos 0) || contract_blocks_scarecrow s
    then (s, pos 0)
    else if ltb_ℤ target (pos 1)
    then (s, pos 0)
    else run_clock s c target elapsed (if online then c.scarecrow.offline_slowdown else pos 1)

-- CollectScarecrow
unfoldable pub collect_scarecrow : State → ℤ → Outcome ℤ
collect_scarecrow s i = elim (get_index s.scarecrows i) [
  | none ↦ refuse s unknown_scarecrow
  | some sc ↦ if leb_ℤ sc.pouch (pos 0) then refuse s pouch_empty else (
    credit (record s { scarecrows = set_index s.scarecrows i (record { pouch = pos 0 }) }) sc.pouch,
    ok sc.pouch,
  )
]

-- CollectScarecrows: the loop from index i for k rounds, with the coins and the pouches counted.
unfoldable pub count_collected : Outcome ℤ → ℤ × ℤ → State × (ℤ × ℤ)
count_collected (s, ok got) (total, collected) = (s, (sat_add total got, add64 collected (pos 1)))
count_collected (s, err e) acc = (s, acc)

unfoldable pub collect_from : ℕ → ℕ → State → ℤ × ℤ → State × (ℤ × ℤ)
collect_from zero i s acc = (s, acc)
collect_from (suc k) i s acc =
    let (s', acc') = count_collected (collect_scarecrow s (pos i)) acc in
    collect_from k (i + 1) s' acc'

unfoldable pub collect_scarecrows : State → State × (ℤ × ℤ)
collect_scarecrows s = collect_from (length s.scarecrows) 0 s (pos 0, pos 0)

unfoldable pub shoo_scaled : State → Content → ℤ → ℤ
shoo_scaled s c base =
    div64
      (sat_mul base (add64 (pos 100) (mul64 c.critters.rebirth_bonus_pct (progression_rebirths s))))
      (pos 100)

unfoldable pub shoo_reward_range : State → Content → ℤ × ℤ
shoo_reward_range s c =
    (shoo_scaled s c c.critters.shoo_reward_min, shoo_scaled s c c.critters.shoo_reward_max)
