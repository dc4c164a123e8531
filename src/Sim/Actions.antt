-- ===== src/Sim/Actions.antt =====
-- What can happen to a save, in any order and with any arguments: every action of
-- internal/sim/actions.go, contracts.go and scarecrow.go, refused or not, and the passing of time,
-- Advance of advance.go.
use ssh_farm.Prelude.{ℕ, ℤ, Bool, String}
use ssh_farm.Content.{Content}
use ssh_farm.Host.{Host}
use ssh_farm.Sim.State.{State, new}
use ssh_farm.Sim.Outcome.{Outcome, Result, ok, err}
use ssh_farm.Sim.Planting.{plant, replant_all, harvest}
use ssh_farm.Sim.Market.{
  buy_plot, buy_zone, buy_multiplier, buy_seed_upgrade, upgrade_plot_auto, set_auto_sow_crop,
  buy_upgrade, buy_scarecrow,
}
use ssh_farm.Sim.Scarecrows.{collect_scarecrow, collect_scarecrows}
use ssh_farm.Sim.Campaign.{
  redeem_gift, shoo_critter, set_farm_name, rebirth, start_contract, abandon_contract,
  set_name_style, set_flavor, set_theme_solid, set_seasonal,
}
use ssh_farm.Sim.Advance.Clock.{advance}

pub data Action : Type 0 where
  planting : ℤ → String → ℤ → Action
  replanting : ℤ → Action
  harvesting : ℤ → ℤ → Action
  plot_purchase : Action
  zone_purchase : String → Action
  multiplier_purchase : String → Action
  seed_upgrade_purchase : String → Action
  automation_purchase : ℤ → String → Action
  crop_queueing : ℤ → String → Action
  upgrade_purchase : String → Action
  scarecrow_purchase : Action
  gift_redemption : Action
  critter_shooing : ℤ → Action
  naming : String → Action
  rebirthing : ℤ → Action
  contract_start : String → ℤ → Action
  contract_abandonment : ℤ → Action
  pouch_collection : ℤ → Action
  pouches_collection : Action
  style_choice : String → Action
  flavor_choice : Bool → Action
  theme_choice : Bool → Action
  season_choice : Bool → Action
  passing : ℤ → Action

-- An outcome without its result.
abbrev pub forget_result : {A : Type 0} → Result A → Result (Unit {0})
forget_result (ok a) = ok tt
forget_result (err e) = err e

abbrev pub forget : {A : Type 0} → Outcome A → Outcome (Unit {0})
forget o = (o.0, forget_result o.1)

unfoldable pub perform : Host → Content → State → Action → Outcome (Unit {0})
perform h c s (planting i id now) = forget (plant h s c i id now)
perform h c s (replanting now) = ((replant_all h s c now).0, ok tt)
perform h c s (harvesting i now) = forget (harvest s c i now)
perform h c s plot_purchase = forget (buy_plot s c)
perform h c s (zone_purchase id) = forget (buy_zone s c id)
perform h c s (multiplier_purchase id) = forget (buy_multiplier s c id)
perform h c s (seed_upgrade_purchase id) = forget (buy_seed_upgrade s c id)
perform h c s (automation_purchase i kind) = forget (upgrade_plot_auto s c i kind)
perform h c s (crop_queueing i id) = forget (set_auto_sow_crop s c i id)
perform h c s (upgrade_purchase id) = forget (buy_upgrade s c id)
perform h c s scarecrow_purchase = forget (buy_scarecrow s c)
perform h c s gift_redemption = forget (redeem_gift h s c)
perform h c s (critter_shooing i) = forget (shoo_critter s c i)
perform h c s (naming name) = forget (set_farm_name h s name)
perform h c s (rebirthing now) = forget (rebirth h s c now)
perform h c s (contract_start id now) = forget (start_contract s c id now)
perform h c s (contract_abandonment now) = forget (abandon_contract s c now)
perform h c s (pouch_collection i) = forget (collect_scarecrow s i)
perform h c s pouches_collection = ((collect_scarecrows s).0, ok tt)
perform h c s (style_choice style) = forget (set_name_style s style)
perform h c s (flavor_choice on) = (set_flavor s on, ok tt)
perform h c s (theme_choice on) = (set_theme_solid s on, ok tt)
perform h c s (season_choice on) = (set_seasonal s on, ok tt)
perform h c s (passing to) = ((advance h s c to).0, ok tt)

-- The save after an action.
abbrev pub act : Host → Content → State → Action → State
act h c s a = (perform h c s a).0

-- The saves that a new farm can come to.
pub data Reachable (h : Host) (c : Content) : State → Type 0 where
  fresh : (seed : ℕ) (now : ℤ) → Reachable h c (new c seed now)
  then : {s : State} → Reachable h c s → (a : Action) → Reachable h c (act h c s a)
