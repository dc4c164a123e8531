-- ===== src/Sim/Prices.antt =====
-- internal/sim/derive.go and scarecrow.go: the prices that grow with what a run owns. A price of
-- -1 means that nothing more can be bought.
use ssh_farm.Prelude.{
  ℕ, zero, suc, ℤ, pos, negsuc, max_int64, Bool, false, ◌&&◌, ◌||◌, List, [], ◌∷◌, if◌then◌else◌,
  ltb_ℤ, leb_ℤ, add64, sub64, mul64, div64, pos_part, length,
}
use ssh_farm.Content
use ssh_farm.Content.{Content, Upgrade, Multiplier, SeedUpgrade}
use ssh_farm.Sim.State.{State, Plot, upgrade_level, multiplier_level, seed_upgrade_level}
use ssh_farm.Sim.Money.{sat_mul}
use ssh_farm.Sim.Contracts.{
  contract_caps_land, contract_lean_season_max_plots, progression_rebirths,
}
use ssh_farm.Sim.Derive.{upgrade_effect_sum}

-- The loop that raises a price by a percentage for each level owned, and breaks off at
-- math.MaxInt64 / 100 where the product would not fit.
unfoldable pub scaled_cost : ℕ → ℤ → ℤ → ℤ
scaled_cost zero growth cost = cost
scaled_cost (suc n) growth cost =
    let rest = scaled_cost n growth (div64 (mul64 cost growth) (pos 100)) in
    if ltb_ℤ (div64 (pos max_int64) growth) cost then div64 (pos max_int64) (pos 100) else rest

unfoldable pub at_least_one : ℤ → ℤ
at_least_one cost = if ltb_ℤ cost (pos 1) then pos 1 else cost

unfoldable pub next_plot_cost : State → Content → ℤ
next_plot_cost s c =
    let discount = upgrade_effect_sum s c "plot_discount_pct" in
    let capped = if leb_ℤ (pos 100) discount then pos 99 else discount in
    let cost = scaled_cost (pos_part s.purchased_plots) c.land.growth_pct c.land.base_plot_cost in
    if contract_caps_land s && leb_ℤ contract_lean_season_max_plots (pos (length s.plots))
    then negsuc 0
    else if leb_ℤ c.land.max_plots (add64 c.start.plots s.purchased_plots)
    then negsuc 0
    else at_least_one (div64 (mul64 cost (sub64 (pos 100) capped)) (pos 100))

unfoldable pub auto_harvest_plots : List Plot → ℕ
auto_harvest_plots [] = 0
auto_harvest_plots (p ∷ ps) =
    let rest = auto_harvest_plots ps in if p.auto_harvest then suc rest else rest

unfoldable pub plot_auto_harvest_cost : State → Content → ℤ
plot_auto_harvest_cost s c = at_least_one (
    scaled_cost (auto_harvest_plots s.plots) c.plot_automation.auto_harvest_growth_pct
      c.plot_automation.auto_harvest_base_cost)

unfoldable pub upgrade_cost : State → Upgrade → ℤ
upgrade_cost s u =
    let level = upgrade_level s u.id in
    if leb_ℤ u.max_level level
    then negsuc 0
    else scaled_cost (pos_part level) u.cost_growth_pct u.cost

unfoldable pub multiplier_cost : State → Multiplier → ℤ
multiplier_cost s m =
    let level = multiplier_level s m.id in
    if leb_ℤ m.max_level level
    then negsuc 0
    else scaled_cost (pos_part level) m.cost_growth_pct m.cost

unfoldable pub seed_upgrade_cost : State → SeedUpgrade → ℤ
seed_upgrade_cost s su =
    let level = seed_upgrade_level s su.crop_id in
    if leb_ℤ su.max_level level
    then negsuc 0
    else scaled_cost (pos_part level) su.cost_growth_pct su.cost

-- ScarecrowCost: one round for each scarecrow owned, saturating instead of breaking off.
unfoldable pub sat_scaled_cost : ℕ → ℤ → ℤ → ℤ
sat_scaled_cost zero growth cost = cost
sat_scaled_cost (suc n) growth cost =
    sat_scaled_cost n growth (div64 (sat_mul cost growth) (pos 100))

unfoldable pub scarecrow_cost : State → Content → ℤ
scarecrow_cost s c =
    if leb_ℤ c.scarecrow.cost (pos 0) || leb_ℤ c.scarecrow.max_count (pos (length s.scarecrows))
    then negsuc 0
    else sat_scaled_cost (length s.scarecrows) c.scarecrow.cost_growth_pct c.scarecrow.cost

-- ScarecrowRebirthGate
unfoldable pub scarecrow_rebirth_gate : State → Content → ℤ × Bool
scarecrow_rebirth_gate s c =
    let need = Content.rebirths_to_buy c.scarecrow (pos (length s.scarecrows)) in
    if ltb_ℤ (scarecrow_cost s c) (pos 0)
    then (pos 0, false)
    else (need, ltb_ℤ (progression_rebirths s) need)
