-- ===== src/Sim/Refusals.antt =====
-- An action that returns an error has changed nothing.
use ssh_farm.Prelude.{◌≡◌, ℤ, String, arith}
use ssh_farm.Content.{Content}
use ssh_farm.Host.{Host}
use ssh_farm.Sim.State.{State}
use ssh_farm.Sim.Outcome.{Error, Outcome, Result, ok, err}
use ssh_farm.Sim.Planting.{plant, plant_on, sow, harvest, gather}
use ssh_farm.Sim.Market.{
  buy_plot, buy_zone, buy_found_zone, buy_multiplier, buy_seed_upgrade, buy_auto_harvest,
  buy_auto_sow, upgrade_plot_auto, queue_crop, set_auto_sow_crop, buy_upgrade, buy_scarecrow,
}
use ssh_farm.Sim.Scarecrows.{collect_scarecrow}
use ssh_farm.Sim.Campaign.{
  redeem_gift, open_gift, give_coins, give_starseeds, shoo_critter, pay_shoo, set_farm_name,
  rebirth, start_contract, abandon_contract, set_name_style,
}
use ssh_farm.Sim.Actions.{
  Action, perform, forget, forget_result, planting, replanting, harvesting, plot_purchase,
  zone_purchase, multiplier_purchase, seed_upgrade_purchase, automation_purchase, crop_queueing,
  upgrade_purchase, scarecrow_purchase, gift_redemption, critter_shooing, naming, rebirthing,
  contract_start, contract_abandonment, pouch_collection, pouches_collection, style_choice,
  flavor_choice, theme_choice, season_choice, passing,
}

abbrev pub Unchanged : {A : Type 0} → State → Outcome A → Type 0
Unchanged s o = (e : Error) → o.1 ≡ err e → o.0 ≡ s

pub plant-Unchanged :
    (h : Host) (s : State) (c : Content) (i : ℤ) (id : String) (now : ℤ)
    → Unchanged s (plant h s c i id now)
unfolding plant plant_on sow
plant-Unchanged h s c i id now e q = ground arith

pub harvest-Unchanged : (s : State) (c : Content) (i now : ℤ) → Unchanged s (harvest s c i now)
unfolding harvest gather
harvest-Unchanged s c i now e q = ground arith

pub buy_plot-Unchanged : (s : State) (c : Content) → Unchanged s (buy_plot s c)
unfolding buy_plot
buy_plot-Unchanged s c e q = ground arith

pub buy_zone-Unchanged : (s : State) (c : Content) (id : String) → Unchanged s (buy_zone s c id)
unfolding buy_zone buy_found_zone
buy_zone-Unchanged s c id e q = ground arith

pub buy_multiplier-Unchanged :
    (s : State) (c : Content) (id : String) → Unchanged s (buy_multiplier s c id)
unfolding buy_multiplier
buy_multiplier-Unchanged s c id e q = ground arith

pub buy_seed_upgrade-Unchanged :
    (s : State) (c : Content) (id : String) → Unchanged s (buy_seed_upgrade s c id)
unfolding buy_seed_upgrade
buy_seed_upgrade-Unchanged s c id e q = ground arith

pub upgrade_plot_auto-Unchanged :
    (s : State) (c : Content) (i : ℤ) (kind : String) → Unchanged s (upgrade_plot_auto s c i kind)
unfolding upgrade_plot_auto buy_auto_harvest buy_auto_sow
upgrade_plot_auto-Unchanged s c i kind e q = ground arith

pub set_auto_sow_crop-Unchanged :
    (s : State) (c : Content) (i : ℤ) (id : String) → Unchanged s (set_auto_sow_crop s c i id)
unfolding set_auto_sow_crop queue_crop
set_auto_sow_crop-Unchanged s c i id e q = ground arith

pub buy_upgrade-Unchanged :
    (s : State) (c : Content) (id : String) → Unchanged s (buy_upgrade s c id)
unfolding buy_upgrade
buy_upgrade-Unchanged s c id e q = ground arith

pub buy_scarecrow-Unchanged : (s : State) (c : Content) → Unchanged s (buy_scarecrow s c)
unfolding buy_scarecrow
buy_scarecrow-Unchanged s c e q = ground arith

pub collect_scarecrow-Unchanged : (s : State) (i : ℤ) → Unchanged s (collect_scarecrow s i)
unfolding collect_scarecrow
collect_scarecrow-Unchanged s i e q = ground arith

pub redeem_gift-Unchanged : (h : Host) (s : State) (c : Content) → Unchanged s (redeem_gift h s c)
unfolding redeem_gift open_gift give_coins give_starseeds
redeem_gift-Unchanged h s c e q = ground arith

pub shoo_critter-Unchanged : (s : State) (c : Content) (i : ℤ) → Unchanged s (shoo_critter s c i)
unfolding shoo_critter pay_shoo
shoo_critter-Unchanged s c i e q = ground arith

pub set_farm_name-Unchanged :
    (h : Host) (s : State) (name : String) → Unchanged s (set_farm_name h s name)
unfolding set_farm_name
set_farm_name-Unchanged h s name e q = ground arith

pub rebirth-Unchanged :
    (h : Host) (s : State) (c : Content) (now : ℤ) → Unchanged s (rebirth h s c now)
unfolding rebirth
rebirth-Unchanged h s c now e q = ground arith

pub start_contract-Unchanged :
    (s : State) (c : Content) (id : String) (now : ℤ) → Unchanged s (start_contract s c id now)
unfolding start_contract
start_contract-Unchanged s c id now e q = ground arith

pub abandon_contract-Unchanged :
    (s : State) (c : Content) (now : ℤ) → Unchanged s (abandon_contract s c now)
unfolding abandon_contract
abandon_contract-Unchanged s c now e q = ground arith

pub set_name_style-Unchanged : (s : State) (style : String) → Unchanged s (set_name_style s style)
unfolding set_name_style
set_name_style-Unchanged s style e q = ground arith

forget-Unchanged : {A : Type 0} (s : State) (o : Outcome A) → Unchanged s o → Unchanged s (forget o)
forget-Unchanged s o u e q = u e (forgotten o.1 e q)
  where
    forgotten : {A : Type 0} (r : Result A) (e : Error) → forget_result r ≡ err e → r ≡ err e
    forgotten (ok a) e q = cc
    forgotten (err x) e q = cc

-- Whatever the save, the content and the arguments: an action that returns an error leaves the
-- whole save as it was.
pub perform-Unchanged :
    (h : Host) (c : Content) (s : State) (a : Action) (e : Error)
    → (perform h c s a).1 ≡ err e
    → (perform h c s a).0 ≡ s
unfolding perform
perform-Unchanged h c s (planting i id now) =
    forget-Unchanged s (plant h s c i id now) (plant-Unchanged h s c i id now)
perform-Unchanged h c s (replanting now) = λ e q. cc
perform-Unchanged h c s (harvesting i now) =
    forget-Unchanged s (harvest s c i now) (harvest-Unchanged s c i now)
perform-Unchanged h c s plot_purchase = forget-Unchanged s (buy_plot s c) (buy_plot-Unchanged s c)
perform-Unchanged h c s (zone_purchase id) =
    forget-Unchanged s (buy_zone s c id) (buy_zone-Unchanged s c id)
perform-Unchanged h c s (multiplier_purchase id) =
    forget-Unchanged s (buy_multiplier s c id) (buy_multiplier-Unchanged s c id)
perform-Unchanged h c s (seed_upgrade_purchase id) =
    forget-Unchanged s (buy_seed_upgrade s c id) (buy_seed_upgrade-Unchanged s c id)
perform-Unchanged h c s (automation_purchase i kind) =
    forget-Unchanged s (upgrade_plot_auto s c i kind) (upgrade_plot_auto-Unchanged s c i kind)
perform-Unchanged h c s (crop_queueing i id) =
    forget-Unchanged s (set_auto_sow_crop s c i id) (set_auto_sow_crop-Unchanged s c i id)
perform-Unchanged h c s (upgrade_purchase id) =
    forget-Unchanged s (buy_upgrade s c id) (buy_upgrade-Unchanged s c id)
perform-Unchanged h c s scarecrow_purchase =
    forget-Unchanged s (buy_scarecrow s c) (buy_scarecrow-Unchanged s c)
perform-Unchanged h c s gift_redemption =
    forget-Unchanged s (redeem_gift h s c) (redeem_gift-Unchanged h s c)
perform-Unchanged h c s (critter_shooing i) =
    forget-Unchanged s (shoo_critter s c i) (shoo_critter-Unchanged s c i)
perform-Unchanged h c s (naming name) =
    forget-Unchanged s (set_farm_name h s name) (set_farm_name-Unchanged h s name)
perform-Unchanged h c s (rebirthing now) =
    forget-Unchanged s (rebirth h s c now) (rebirth-Unchanged h s c now)
perform-Unchanged h c s (contract_start id now) =
    forget-Unchanged s (start_contract s c id now) (start_contract-Unchanged s c id now)
perform-Unchanged h c s (contract_abandonment now) =
    forget-Unchanged s (abandon_contract s c now) (abandon_contract-Unchanged s c now)
perform-Unchanged h c s (pouch_collection i) =
    forget-Unchanged s (collect_scarecrow s i) (collect_scarecrow-Unchanged s i)
perform-Unchanged h c s pouches_collection = λ e q. cc
perform-Unchanged h c s (style_choice style) =
    forget-Unchanged s (set_name_style s style) (set_name_style-Unchanged s style)
perform-Unchanged h c s (flavor_choice on) = λ e q. cc
perform-Unchanged h c s (theme_choice on) = λ e q. cc
perform-Unchanged h c s (season_choice on) = λ e q. cc
perform-Unchanged h c s (passing to) = λ e q. cc
