-- ===== src/Sim/Market.antt =====
-- internal/sim/actions.go: the purchases.
use ssh_farm.Prelude.{
  ℤ, pos, Bool, true, false, not, ◌&&◌, String, str_eq, List, [], ◌∷◌, ◌++◌, none, some,
  if◌then◌else◌, ltb_ℤ, leb_ℤ, add64, sub64, get_index, set_index, length, lookup_or, insert,
}
use ssh_farm.Content
use ssh_farm.Content.{Content, Crop, Upgrade, Multiplier, SeedUpgrade, Zone}
use ssh_farm.Sim.State.{State, Plot, empty_plot, make_plots}
use ssh_farm.Sim.Contracts.{
  contract_caps_land, contract_blocks_automation, contract_blocks_scarecrow, contract_lean_season,
  contract_lean_season_max_plots,
}
use ssh_farm.Sim.Derive.{unlocked}
use ssh_farm.Sim.Prices.{
  next_plot_cost, plot_auto_harvest_cost, upgrade_cost, multiplier_cost, seed_upgrade_cost,
  scarecrow_cost, scarecrow_rebirth_gate,
}
use ssh_farm.Sim.Outcome.{
  Outcome, ok, refuse, unknown_plot, unknown_crop, unknown_item, locked, cant_afford,
  cant_afford_pp, maxed, already_owned, no_auto_sow, contract_restricted,
}

-- A level more of what a map counts: `m[id]++`.
abbrev pub raise_level : String → List (String × ℤ) → List (String × ℤ)
raise_level id m = insert id (add64 (lookup_or (pos 0) id m) (pos 1)) m

-- BuyPlot
unfoldable pub buy_plot : State → Content → Outcome ℤ
buy_plot s c =
    let cost = next_plot_cost s c in
    if contract_caps_land s && leb_ℤ contract_lean_season_max_plots (pos (length s.plots))
    then refuse s contract_restricted
    else if ltb_ℤ cost (pos 0)
    then refuse s maxed
    else if ltb_ℤ s.coins cost
    then refuse s cant_afford
    else (
      record s {
        coins = sub64 s.coins cost;
        purchased_plots = add64 s.purchased_plots (pos 1);
        plots = s.plots ++ empty_plot ∷ [];
      },
      ok cost,
    )

-- BuyZone
unfoldable pub buy_found_zone : State → Zone → String → Outcome (Unit {0})
buy_found_zone s zone id =
    if str_eq s.active_contract contract_lean_season && str_eq id "greenhouse"
    then refuse s contract_restricted
    else if lookup_or false id s.zones
    then refuse s already_owned
    else if not (unlocked s zone.unlock)
    then refuse s locked
    else if ltb_ℤ s.coins zone.cost
    then refuse s cant_afford
    else (
      record s {
        coins = sub64 s.coins zone.cost;
        zones = insert id true s.zones;
        plots = s.plots ++ make_plots zone.extra_plots;
      },
      ok tt,
    )

unfoldable pub buy_zone : State → Content → String → Outcome (Unit {0})
buy_zone s c id = elim (Content.zone_by_id c id) [
  | none ↦ refuse s unknown_item
  | some zone ↦ buy_found_zone s zone id
]

-- BuyMultiplier
unfoldable pub buy_multiplier : State → Content → String → Outcome (Unit {0})
buy_multiplier s c id = elim (Content.multiplier_by_id c id) [
  | none ↦ refuse s unknown_item
  | some m ↦
      if ltb_ℤ (multiplier_cost s m) (pos 0)
      then refuse s maxed
      else if ltb_ℤ s.coins (multiplier_cost s m)
      then refuse s cant_afford
      else (
        record s {
          coins = sub64 s.coins (multiplier_cost s m);
          multipliers = raise_level id s.multipliers;
        },
        ok tt,
      )
]

-- BuySeedUpgrade
unfoldable pub crop_unlocked : State → Content → String → Bool
crop_unlocked s c id = elim (Content.crop c id) [
  | none ↦ false
  | some crop ↦ unlocked s crop.unlock
]

unfoldable pub buy_seed_upgrade : State → Content → String → Outcome (Unit {0})
buy_seed_upgrade s c id = elim (Content.seed_upgrade_by_id c id) [
  | none ↦ refuse s unknown_item
  | some su ↦
      if not (crop_unlocked s c su.crop_id)
      then refuse s locked
      else if ltb_ℤ (seed_upgrade_cost s su) (pos 0)
      then refuse s maxed
      else if ltb_ℤ s.coins (seed_upgrade_cost s su)
      then refuse s cant_afford
      else (
        record s {
          coins = sub64 s.coins (seed_upgrade_cost s su);
          seed_upgrades = raise_level su.crop_id s.seed_upgrades;
        },
        ok tt,
      )
]

-- UpgradePlotAuto: its two cases.
unfoldable pub buy_auto_harvest : State → Content → ℤ → Plot → Outcome (Unit {0})
buy_auto_harvest s c i p =
    let cost = plot_auto_harvest_cost s c in
    if p.auto_harvest
    then refuse s already_owned
    else if ltb_ℤ s.coins cost
    then refuse s cant_afford
    else (
      record s {
        coins = sub64 s.coins cost;
        plots = set_index s.plots i (record p { auto_harvest = true });
      },
      ok tt,
    )

unfoldable pub buy_auto_sow : State → Content → ℤ → Plot → Outcome (Unit {0})
buy_auto_sow s c i p =
    let cost = c.plot_automation.auto_sow_cost in
    if p.auto_sow
    then refuse s already_owned
    else if not p.auto_harvest
    then refuse s locked
    else if ltb_ℤ s.lifetime_earnings c.plot_automation.auto_sow_min_earnings
    then refuse s locked
    else if ltb_ℤ s.coins cost
    then refuse s cant_afford
    else (
      record s {
        coins = sub64 s.coins cost;
        plots = set_index s.plots i (record p { auto_sow = true });
      },
      ok tt,
    )

unfoldable pub upgrade_plot_auto : State → Content → ℤ → String → Outcome (Unit {0})
upgrade_plot_auto s c i kind = elim (get_index s.plots i) [
  | none ↦ refuse s unknown_plot
  | some p ↦
      if contract_blocks_automation s
      then refuse s contract_restricted
      else if str_eq kind "harvest"
      then buy_auto_harvest s c i p
      else if str_eq kind "sow"
      then buy_auto_sow s c i p
      else refuse s unknown_item
]

-- SetAutoSowCrop
unfoldable pub queue_crop : State → Content → ℤ → Plot → String → Outcome (Unit {0})
queue_crop s c i p crop_id = elim (Content.crop c crop_id) [
  | none ↦ refuse s unknown_crop
  | some crop ↦ if not (unlocked s crop.unlock) then refuse s locked else (
    record s {
      plots =
          set_index s.plots i
            (record p { auto_sow_crop = if str_eq crop_id p.crop then "" else crop_id });
    },
    ok tt,
  )
]

unfoldable pub set_auto_sow_crop : State → Content → ℤ → String → Outcome (Unit {0})
set_auto_sow_crop s c i crop_id = elim (get_index s.plots i) [
  | none ↦ refuse s unknown_plot
  | some p ↦
      if contract_blocks_automation s
      then refuse s contract_restricted
      else if not p.auto_sow
      then refuse s no_auto_sow
      else queue_crop s c i p crop_id
]

-- BuyUpgrade, paid in Starseeds
unfoldable pub buy_upgrade : State → Content → String → Outcome (Unit {0})
buy_upgrade s c id = elim (Content.upgrade_by_id c id) [
  | none ↦ refuse s unknown_item
  | some u ↦
      if ltb_ℤ (upgrade_cost s u) (pos 0)
      then refuse s maxed
      else if ltb_ℤ s.prestige_currency (upgrade_cost s u)
      then refuse s cant_afford_pp
      else (
        record s {
          prestige_currency = sub64 s.prestige_currency (upgrade_cost s u);
          upgrades = raise_level id s.upgrades;
        },
        ok tt,
      )
]

-- BuyScarecrow of scarecrow.go
unfoldable pub buy_scarecrow : State → Content → Outcome ℤ
buy_scarecrow s c =
    let cost = scarecrow_cost s c in
    if contract_blocks_scarecrow s
    then refuse s contract_restricted
    else if leb_ℤ c.scarecrow.cost (pos 0)
    then refuse s unknown_item
    else if ltb_ℤ cost (pos 0)
    then refuse s maxed
    else if (scarecrow_rebirth_gate s c).1
    then refuse s locked
    else if ltb_ℤ s.coins cost
    then refuse s cant_afford
    else (
      record s {
        coins = sub64 s.coins cost;
        scarecrows = s.scarecrows ++ record { pouch = pos 0 } ∷ [];
      },
      ok cost,
    )
