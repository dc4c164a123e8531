-- ===== src/Sim/Derive.antt =====
-- internal/sim/derive.go and season.go: what follows from a save, the prices and gates.
use ssh_farm.Prelude.{
  ℤ, pos, max_int64, Bool, true, false, not, ◌&&◌, ◌||◌, String, str_eq, List, [], ◌∷◌, Option,
  none, some, if◌then◌else◌, ltb_ℤ, leb_ℤ, eqb_ℤ, add64, sub64, mul64, div64, rem64, get_index,
  Dict, lookup_or,
}
use ssh_farm.Content
use ssh_farm.Content.{Content, Upgrade, Multiplier, Crop, Unlock, Event}
use ssh_farm.Host.{Host}
use ssh_farm.GameClock.{minute_of_day}
use ssh_farm.Season
use ssh_farm.Sim.State.{
  State, Plot, Scarecrow, upgrade_level, multiplier_level, seed_upgrade_level, salvage_numerator,
}
use ssh_farm.Sim.Money.{sat_add}
use ssh_farm.Sim.Root.{isqrt}
use ssh_farm.Sim.Contracts.{progression_rebirths, contract_blocks_events}

-- season.go
unfoldable pub seasonal_plantable : Host → Unlock → ℤ → Bool
seasonal_plantable h u now =
    if str_eq u.kind "season"
    then str_eq (Season.key (Season.active_at_unix h now)) u.season
    else true

unfoldable pub unlocked : State → Unlock → Bool
unlocked s u =
    if ltb_ℤ (pos 0) u.rebirths && ltb_ℤ (progression_rebirths s) u.rebirths
    then false
    else if str_eq u.kind "" || str_eq u.kind "start"
    then true
    else if str_eq u.kind "season"
    then true
    else if str_eq u.kind "earnings"
    then leb_ℤ u.value s.lifetime_earnings
    else if str_eq u.kind "prestige"
    then leb_ℤ u.value (progression_rebirths s)
    else if str_eq u.kind "zone"
    then lookup_or false u.zone s.zones
    else false

unfoldable pub is_visible : State → Crop → Bool
is_visible s crop =
    let need = Content.required_rebirths crop.unlock in
    not (ltb_ℤ (pos 1) need && ltb_ℤ (progression_rebirths s) (sub64 need (pos 1)))

-- VisibleCrops, on the crops that are left.
unfoldable pub visible_crops : State → List Crop → List Crop
visible_crops s [] = []
visible_crops s (crop ∷ crops) =
    let rest = visible_crops s crops in if is_visible s crop then crop ∷ rest else rest

unfoldable pub keep_plantable : Host → ℤ → List Crop → List Crop
keep_plantable h now [] = []
keep_plantable h now (crop ∷ crops) =
    let rest = keep_plantable h now crops in
    if seasonal_plantable h crop.unlock now then crop ∷ rest else rest

unfoldable pub visible_crops_at : Host → State → Content → ℤ → List Crop
visible_crops_at h s c now = keep_plantable h now (visible_crops s c.crops)

-- The loop of CheapestUnlockedCrop, with the best crop so far.
unfoldable pub better : Option Crop → Crop → Option Crop
better none crop = some crop
better (some best) crop = if ltb_ℤ crop.seed_cost best.seed_cost then some crop else some best

unfoldable pub cheapest_from : State → Option Crop → List Crop → Option Crop
cheapest_from s best [] = best
cheapest_from s best (crop ∷ crops) =
    cheapest_from s (if unlocked s crop.unlock then better best crop else best) crops

unfoldable pub cheapest_unlocked_crop : State → Content → Option Crop
cheapest_unlocked_crop s c = cheapest_from s none c.crops

unfoldable pub all_plots_empty : List Plot → Bool
all_plots_empty [] = true
all_plots_empty (p ∷ ps) = if str_eq p.crop "" then all_plots_empty ps else false

unfoldable pub active_event : State → Content → Option Event
active_event s c =
    if str_eq s.event_id "" || contract_blocks_events s
    then none
    else Content.event_by_id c s.event_id

-- `ev != nil && ev.Effect == effect`, and then its value.
unfoldable pub event_effect : State → Content → String → Option ℤ
event_effect s c effect = elim (active_event s c) [
  | none ↦ none
  | some ev ↦ if str_eq ev.effect effect then some ev.effect_value else none
]

unfoldable pub cap_percent : ℤ → ℤ
cap_percent n = if leb_ℤ (pos 100) n then pos 99 else n

unfoldable pub floor_zero : ℤ → ℤ
floor_zero cost = if ltb_ℤ cost (pos 0) then pos 0 else cost

unfoldable pub seed_cost : State → Content → Crop → ℤ
seed_cost s c crop = floor_zero (elim (event_effect s c "seed_discount_pct") [
  | none ↦ crop.seed_cost
  | some discount ↦ div64 (mul64 crop.seed_cost (sub64 (pos 100) (cap_percent discount))) (pos 100)
])

unfoldable pub mercy_plant_eligible : State → Content → String → Bool
mercy_plant_eligible s c crop_id =
    if all_plots_empty s.plots
    then elim (cheapest_unlocked_crop s c) [
      | none ↦ false
      | some cheapest ↦
          if str_eq crop_id cheapest.id then ltb_ℤ s.coins (seed_cost s c cheapest) else false
    ]
    else false

-- The loops `for _, u := range c.Upgrades { if u.Effect == effect { sum += … } }`.
unfoldable pub add_upgrades : State → String → ℤ → List Upgrade → ℤ
add_upgrades s effect sum [] = sum
add_upgrades s effect sum (u ∷ us) =
    add_upgrades s effect
      (if str_eq u.effect effect
        then add64 sum (mul64 u.effect_value (upgrade_level s u.id))
        else sum)
      us

unfoldable pub add_multipliers : State → String → ℤ → List Multiplier → ℤ
add_multipliers s effect sum [] = sum
add_multipliers s effect sum (m ∷ ms) =
    add_multipliers s effect
      (if str_eq m.effect effect
        then add64 sum (mul64 m.effect_value (multiplier_level s m.id))
        else sum)
      ms

unfoldable pub upgrade_effect_sum : State → Content → String → ℤ
upgrade_effect_sum s c effect = add_upgrades s effect (pos 0) c.upgrade_list

-- The sum that GrowSeconds and sellMultiplied start with: upgrades, multipliers, the event.
unfoldable pub bonus_sum : State → Content → String → ℤ
bonus_sum s c effect =
    let owned =
      add_multipliers s effect (add_upgrades s effect (pos 0) c.upgrade_list) c.multiplier_list in
    elim (event_effect s c effect) [ none ↦ owned | some value ↦ add64 owned value ]

unfoldable pub grow_seconds : State → Content → Crop → ℤ
grow_seconds s c crop =
    let g =
      div64
        (mul64 crop.grow_seconds (sub64 (pos 100) (cap_percent (bonus_sum s c "grow_speed_pct"))))
        (pos 100) in
    if ltb_ℤ g (pos 1) then pos 1 else g

unfoldable pub event_active : State → ℤ → Bool
event_active s now = not (str_eq s.event_id "") && ltb_ℤ now s.event_ends_at

abbrev pub moonberry_start_minute : ℤ
moonberry_start_minute = pos 1200

abbrev pub moonberry_end_minute : ℤ
moonberry_end_minute = pos 240

unfoldable pub is_moonberry_hour : Content → String → ℤ → Bool
is_moonberry_hour c crop_id now =
    if str_eq crop_id c.moon.moonberry_crop_id
    then leb_ℤ moonberry_start_minute (minute_of_day now)
      || ltb_ℤ (minute_of_day now) moonberry_end_minute
    else false

-- The last lines of sellMultiplied, on the bonus that was summed.
unfoldable pub with_bonus : ℤ → ℤ → ℤ
with_bonus base bonus =
    if eqb_ℤ bonus (pos 0)
    then base
    else if ltb_ℤ (div64 (pos max_int64) (add64 (pos 100) bonus)) base
    then pos max_int64
    else div64 (mul64 base (add64 (pos 100) bonus)) (pos 100)

unfoldable pub sell_multiplied : State → Content → ℤ → String → ℤ → ℤ
sell_multiplied s c base crop_id now =
    let bonus = bonus_sum s c "sell_bonus_pct" in
    with_bonus base (
      if is_moonberry_hour c crop_id now
      then add64 bonus c.moon.full_moon_sell_bonus_pct
      else bonus)

unfoldable pub salvage_value : State → Content → Crop → ℤ → ℤ
salvage_value s c crop now =
    let num = salvage_numerator (seed_upgrade_level s crop.id) in
    sell_multiplied s c (div64 (mul64 crop.sell_value num) (pos 8)) crop.id now

unfoldable pub moon_phase : State → ℤ
moon_phase s =
    if eqb_ℤ s.moon_epoch (pos 0)
    then pos 0
    else rem64 (sub64 (div64 s.updated_at (pos 86400)) s.moon_epoch) (pos 28)

unfoldable pub moon_phase_name : State → Content → String
moon_phase_name s c =
    let cycle = if ltb_ℤ c.moon.cycle_days (pos 1) then pos 28 else c.moon.cycle_days in
    let phase = moon_phase s in
    if eqb_ℤ phase (div64 cycle (pos 2))
    then "Full Moon"
    else if eqb_ℤ phase (pos 0)
    then "New Moon"
    else if ltb_ℤ phase (div64 cycle (pos 4))
    then "Waxing Crescent"
    else if ltb_ℤ phase (div64 cycle (pos 2))
    then "Waxing Gibbous"
    else if ltb_ℤ phase (div64 (mul64 (pos 3) cycle) (pos 4))
    then "Waning Gibbous"
    else "Waning Crescent"

-- startCoins, on the upgrades that are left.
unfoldable pub add_start_coins : Dict ℤ → ℤ → List Upgrade → ℤ
add_start_coins levels coins [] = coins
add_start_coins levels coins (u ∷ us) =
    add_start_coins levels
      (if str_eq u.effect "start_coins"
        then sat_add coins (mul64 u.effect_value (lookup_or (pos 0) u.id levels))
        else coins)
      us

unfoldable pub start_coins : Content → Dict ℤ → ℤ
start_coins c levels = add_start_coins levels c.start.coins c.upgrade_list

unfoldable pub add_pouches : ℤ → List Scarecrow → ℤ
add_pouches total [] = total
add_pouches total (sc ∷ scs) = add_pouches (sat_add total sc.pouch) scs

-- ScarecrowPouchTotal of scarecrow.go
unfoldable pub scarecrow_pouch_total : State → ℤ
scarecrow_pouch_total s = add_pouches (pos 0) s.scarecrows

unfoldable pub rebirth_earnings : State → ℤ
rebirth_earnings s = sat_add s.run_earnings (scarecrow_pouch_total s)

unfoldable pub prestige_gain : Host → State → Content → ℤ
prestige_gain h s c = isqrt h (div64 (rebirth_earnings s) c.prestige.divisor)

unfoldable pub can_rebirth : Host → State → Content → Bool
can_rebirth h s c =
    leb_ℤ c.prestige.min_earnings (rebirth_earnings s) && leb_ℤ (pos 1) (prestige_gain h s c)

-- PlotReady and PlotProgressPct
unfoldable pub plot_ready : State → Content → ℤ → ℤ → Bool
plot_ready s c i now = elim (get_index s.plots i) [
  | none ↦ false
  | some p ↦ if str_eq p.crop "" then false else elim (Content.crop c p.crop) [
    | none ↦ false
    | some crop ↦ leb_ℤ (add64 p.planted_at (grow_seconds s c crop)) now
  ]
]

unfoldable pub progress : ℤ → ℤ → ℤ
progress elapsed grow =
    if leb_ℤ elapsed (pos 0)
    then pos 0
    else if leb_ℤ grow elapsed
    then pos 100
    else div64 (mul64 elapsed (pos 100)) grow

unfoldable pub plot_progress_pct : State → Content → ℤ → ℤ → ℤ
plot_progress_pct s c i now = elim (get_index s.plots i) [
  | none ↦ pos 0
  | some p ↦ if str_eq p.crop "" then pos 0 else elim (Content.crop c p.crop) [
    | none ↦ pos 0
    | some crop ↦ progress (sub64 now p.planted_at) (grow_seconds s c crop)
  ]
]
