-- ===== src/Tests/Examples.antt =====
-- The theorems applied at concrete inputs.
use ssh_farm.Prelude.{
  List, ℕ, ◌+◌, ◌*◌, ◌≤◌, ◌<◌, ◌≡◌, refl, pos, negsuc, pos_part, neg_part, ◌≤ℤ◌, ◌<ℤ◌, arith, true,
  false, ◌⊎◌, max_int64, min, ◌-ℤ◌, get_index, lookup_or, some, none, [], ◌∷◌, get_elem?,
}
use ssh_farm.Sim.State.{State, upgrade_level, decode_state, new, Plot, empty_plot}
use ssh_farm.GameClock.{minute_of_day, hour_minute}
use ssh_farm.GameClock.Range.{minute_of_day_lem, hour_minute_lem}
use ssh_farm.Sim.Outcome.{ok, err, plot_empty}
use ssh_farm.Sim.Money.{sat_add, sat_mul}
use ssh_farm.Sim.Money.Laws.{sat_add_lem, sat_mul_lem}
use ssh_farm.Sim.Root.{isqrt}
use ssh_farm.Sim.Root.Correct.{isqrt_floor}
use ssh_farm.Sim.Random.{roll_range}
use ssh_farm.Sim.Random.Bounds.{roll_range_bounds}
use ssh_farm.Sim.Contracts.{
  ContractDefinition, contract_definitions, credit, next_contract, next_after, contract_by_id,
  find_contract, contracts_available,
}
use ssh_farm.Sim.Derive.{unlocked, rebirth_earnings}
use ssh_farm.Sim.Prices.{upgrade_cost}
use ssh_farm.Sim.PriceGrowth.{upgrade_cost_grows}
use ssh_farm.Sim.Planting.{harvest, replant_all}
use ssh_farm.Sim.Market.{buy_zone, buy_found_zone}
use ssh_farm.Sim.Scarecrows.{collect_scarecrows}
use ssh_farm.Sim.Campaign.{start_contract}
use ssh_farm.Sim.CampaignOrder.{
  SameEconomy, SameLifetime, start_contract_in_order, credit_bare_hands,
}
use ssh_farm.Sim.Actions.{act, perform, fresh, then, planting, zone_purchase, passing, harvesting}
use ssh_farm.Sim.Charges.{buy, zone, Charged, buy-Charged}
use ssh_farm.Sim.Pouches.{rebirth_earnings-collect_scarecrows}
use ssh_farm.Sim.Refusals.{perform-Unchanged}
use ssh_farm.Sim.Upgrades.{decode_state_lem}
use ssh_farm.Sim.Advance.Report.{no_events}
use ssh_farm.Sim.Advance.Clock.{advance, cycle_fuel, first_cursor}
use ssh_farm.Sim.Advance.Replay.{advance_again}
use ssh_farm.Sim.Advance.Auto.{cycle}
use ssh_farm.Sim.Advance.Termination.{advance_cycle_ends}
use ssh_farm.Tests.Farm.{turnip, july, shipped, farm, bare_hands_farm, growth}
use ssh_farm.Sim.Valid.Histories.{Reachable-IsValid}
use ssh_farm.Sim.Valid.Replanting.{replant_all_spends}
use ssh_farm.Sim.Valid.{IsValid, IsContent}
use ssh_farm.Content

shipped-IsContent : IsContent shipped
shipped-IsContent = ground arith

farm-IsValid : IsValid farm
farm-IsValid = ground arith

-- A farm that plants, buys the greenhouse, which is refused, and lets a minute pass.
Reachable-IsValid_example : IsValid (
    act july shipped
      (act july shipped
        (act july shipped (new shipped 42 (pos 1000000)) (planting (pos 0) "turnip" (pos 1000001)))
        (zone_purchase "greenhouse"))
      (passing (pos 1000061)))
Reachable-IsValid_example =
    Reachable-IsValid july shipped
      (act july shipped
        (act july shipped
          (act july shipped (new shipped 42 (pos 1000000))
            (planting (pos 0) "turnip" (pos 1000001)))
          (zone_purchase "greenhouse"))
        (passing (pos 1000061)))
      shipped-IsContent
      (then
        (then (then (fresh 42 (pos 1000000)) (planting (pos 0) "turnip" (pos 1000001)))
          (zone_purchase "greenhouse"))
        (passing (pos 1000061)))

greenhouse_sold : (buy shipped farm (zone "greenhouse")).1 ≡ ok tt
unfolding buy_zone buy_found_zone Content.zone_by_id Content.by_id unlocked lookup_or
greenhouse_sold = refl

buy-Charged_example : Charged (pos 25000) farm (buy shipped farm (zone "greenhouse")).0
unfolding Content.zone_by_id Content.by_id
buy-Charged_example =
    buy-Charged shipped farm (zone "greenhouse") shipped-IsContent farm-IsValid greenhouse_sold

not_ready : (perform july shipped farm (harvesting (pos 0) (pos 1000001))).1 ≡ err plot_empty
unfolding perform harvest get_index
not_ready = refl

perform-Unchanged_example : (perform july shipped farm (harvesting (pos 0) (pos 1000001))).0 ≡ farm
perform-Unchanged_example =
    perform-Unchanged july shipped farm (harvesting (pos 0) (pos 1000001)) plot_empty not_ready

replant_all_spends_example :
    let (t, res) = replant_all july farm shipped (pos 1000001) in
    (neg_part t.coins ≡ 0)
    × (neg_part res.spent ≡ 0)
    × (pos_part t.coins + pos_part res.spent ≡ 30000)
replant_all_spends_example = replant_all_spends july farm shipped (pos 1000001) farm-IsValid

rebirth_earnings-collect_scarecrows_example :
    rebirth_earnings (collect_scarecrows farm).0 ≡ rebirth_earnings farm
rebirth_earnings-collect_scarecrows_example = rebirth_earnings-collect_scarecrows farm farm-IsValid

bare_hands_farm-IsValid : IsValid bare_hands_farm
bare_hands_farm-IsValid = ground arith

credit_bare_hands_example :
    let t = credit bare_hands_farm (pos 30) in
    ((99990 + 30 < 100000)
      × (t.active_contract ≡ "bare_hands")
      × (t.contract_earnings ≡ pos (99990 + 30))
      × (t.contracts_completed ≡ pos 0))
    ⊎ ((100000 ≤ 99990 + 30)
        × (t.active_contract ≡ "")
        × (t.contract_earnings ≡ pos 0)
        × (t.contracts_completed ≡ pos (min 3 (0 + 1))))
credit_bare_hands_example =
    credit_bare_hands bare_hands_farm 30 bare_hands_farm-IsValid refl (omega arith) (omega arith)

isqrt_floor_example :
    (neg_part (isqrt july (pos 99)) ≡ 0)
    × (pos_part (isqrt july (pos 99)) * pos_part (isqrt july (pos 99)) ≤ 99)
    × (99 < (pos_part (isqrt july (pos 99)) + 1) * (pos_part (isqrt july (pos 99)) + 1))
isqrt_floor_example = isqrt_floor july (pos 99)

upgraded_farm : State
upgraded_farm = record farm { upgrades = ("growth", pos 3) ∷ [] }

upgrade_cost_grows_example :
    (pos 2 ≤ℤ upgrade_cost farm growth)
    × (upgrade_cost farm growth ≤ℤ upgrade_cost upgraded_farm growth)
    × (upgrade_cost upgraded_farm growth ≤ℤ pos 92233720368547758)
unfolding upgrade_level lookup_or upgraded_farm
upgrade_cost_grows_example =
    upgrade_cost_grows farm upgraded_farm growth 1 3 200 2 refl refl (omega arith) (omega arith)
      refl refl (omega arith) (omega arith)

decode_state_lem_example :
    ((pos 4 ≤ℤ pos 4)
      × (t : State) × (decode_state farm ≡ some t)
      × (t.version ≡ pos 4)
      × (t.legacy_scarecrow ≡ false)
      × (decode_state t ≡ some t))
    ⊎ ((pos 4 <ℤ pos 4) × (decode_state farm ≡ none))
decode_state_lem_example = decode_state_lem farm

sat_add_lem_example : sat_add (pos max_int64) (pos 3) ≡ pos max_int64
sat_add_lem_example = sat_add_lem (pos max_int64) (pos 3) (ground arith) (ground arith)

sat_mul_lem_example : sat_mul (pos max_int64) (pos 3) ≡ pos max_int64
sat_mul_lem_example = sat_mul_lem (pos max_int64) (pos 3) (ground arith) (ground arith)

roll_range_bounds_example :
    (pos 2 ≤ℤ (roll_range farm (pos 2) (pos 8)).1) × ((roll_range farm (pos 2) (pos 8)).1 ≤ℤ pos 8)
unfolding ◌-ℤ◌
roll_range_bounds_example =
    roll_range_bounds farm (pos 2) (pos 8) (omega arith) (omega arith) (omega arith) (omega arith)

minute_of_day_lem_example :
    (minute_of_day (pos 90000) ≡ pos 1080) × (minute_of_day (negsuc 90000) ≡ pos 1079)
minute_of_day_lem_example = minute_of_day_lem 90000

hour_minute_lem_example :
    (h : ℕ) × (m : ℕ) × (hour_minute (pos 90000) ≡ (pos h, pos m))
    × (h < 24)
    × (m < 60)
    × (minute_of_day (pos 90000) ≡ pos (h * 60 + m))
hour_minute_lem_example = hour_minute_lem (pos 90000)

accepted_start : (start_contract farm shipped "bare_hands" (pos 1000001)).1 ≡ ok tt
unfolding start_contract next_contract next_after contract_by_id find_contract contracts_available
accepted_start = refl

start_contract_in_order_example :
    let t = (start_contract farm shipped "bare_hands" (pos 1000001)).0 in
    (farm.active_contract ≡ "")
    × ((d : ContractDefinition) × (get_elem? contract_definitions 0 ≡ some d)
        × (d.id ≡ "bare_hands"))
    × (t.active_contract ≡ "bare_hands")
    × SameEconomy t (new shipped 1 (pos 1000001))
    × SameLifetime t farm
start_contract_in_order_example =
    start_contract_in_order farm shipped "bare_hands" (pos 1000001) 1 accepted_start

advance_again_example :
    advance july (advance july farm shipped (pos 1000060)).0 shipped (pos 1000030)
    ≡ ((advance july farm shipped (pos 1000060)).0, no_events)
advance_again_example = advance_again july farm shipped (pos 1000060) (pos 1000030) (omega arith)

sown_plot : Plot
sown_plot = record empty_plot {
  crop = "turnip";
  planted_at = pos 999990;
  auto_harvest = true;
  auto_sow = true;
}

sown_farm : State
sown_farm = record farm { plots = sown_plot ∷ [] }

advance_cycle_ends_example :
    (cycle cycle_fuel july shipped
      (pos 1000200)
      0
      (first_cursor sown_farm shipped sown_plot turnip)
      (sown_farm, no_events)).1
    ≡ true
unfolding sown_plot
advance_cycle_ends_example =
    advance_cycle_ends july shipped sown_farm sown_plot turnip 1000200 999990 0
      (sown_farm, no_events) refl (omega arith) (omega arith)

-- Two plots to replant at one price.
abbrev fallow_farm : State
fallow_farm = record farm {
  plots =
      record empty_plot { last_crop = "turnip" } ∷ record empty_plot { last_crop = "turnip" } ∷ [];
}
