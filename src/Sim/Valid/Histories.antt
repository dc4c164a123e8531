-- ===== src/Sim/Valid/Histories.antt =====
-- The ledger of a farm is valid after any history of actions and of passing time.
use ssh_farm.Prelude.{ℕ, ℤ, arith}
use ssh_farm.Content.{Content}
use ssh_farm.Host.{Host}
use ssh_farm.Sim.State.{State, new}
use ssh_farm.Sim.Actions.{
  Action, act, perform, Reachable, fresh, then, planting, replanting, harvesting, plot_purchase,
  zone_purchase, multiplier_purchase, seed_upgrade_purchase, automation_purchase, crop_queueing,
  upgrade_purchase, scarecrow_purchase, gift_redemption, critter_shooing, naming, rebirthing,
  contract_start, contract_abandonment, pouch_collection, pouches_collection, style_choice,
  flavor_choice, theme_choice, season_choice, passing,
}
use ssh_farm.Sim.Campaign.{set_farm_name, set_name_style, set_flavor, set_theme_solid, set_seasonal}
use ssh_farm.Sim.Valid.{IsValid, IsContent}
use ssh_farm.Sim.Valid.Farming.{plant-IsValid, harvest-IsValid}
use ssh_farm.Sim.Valid.Replanting.{replant_all-IsValid}
use ssh_farm.Sim.Valid.Purchases.{
  buy_plot-IsValid, buy_zone-IsValid, buy_multiplier-IsValid, buy_seed_upgrade-IsValid,
  upgrade_plot_auto-IsValid, set_auto_sow_crop-IsValid, buy_upgrade-IsValid, buy_scarecrow-IsValid,
}
use ssh_farm.Sim.Valid.Passing.{advance-IsValid}
use ssh_farm.Sim.Valid.Scarecrows.{collect_scarecrow-IsValid, collect_scarecrows-IsValid}
use ssh_farm.Sim.Valid.Campaign.{
  redeem_gift-IsValid, shoo_critter-IsValid, rebirth-IsValid, start_contract-IsValid,
  abandon_contract-IsValid,
}

new-IsValid : (c : Content) (seed : ℕ) (now : ℤ) → IsContent c → IsValid (new c seed now)
unfolding new
new-IsValid c seed now k = ground (arith, k.start_coins)

act-IsValid :
    (h : Host) (c : Content) (s : State) (a : Action)
    → IsContent c
    → IsValid s
    → IsValid (act h c s a)
unfolding perform set_flavor set_theme_solid set_seasonal set_farm_name set_name_style
act-IsValid h c s (planting i id now) k v = plant-IsValid h s c i id now v
act-IsValid h c s (replanting now) k v = replant_all-IsValid h s c now v
act-IsValid h c s (harvesting i now) k v = harvest-IsValid s c i now k v
act-IsValid h c s plot_purchase k v = buy_plot-IsValid s c v
act-IsValid h c s (zone_purchase id) k v = buy_zone-IsValid s c id k v
act-IsValid h c s (multiplier_purchase id) k v = buy_multiplier-IsValid s c id v
act-IsValid h c s (seed_upgrade_purchase id) k v = buy_seed_upgrade-IsValid s c id v
act-IsValid h c s (automation_purchase i kind) k v = upgrade_plot_auto-IsValid s c i kind k v
act-IsValid h c s (crop_queueing i id) k v = set_auto_sow_crop-IsValid s c i id v
act-IsValid h c s (upgrade_purchase id) k v = buy_upgrade-IsValid s c id v
act-IsValid h c s scarecrow_purchase k v = buy_scarecrow-IsValid s c v
act-IsValid h c s gift_redemption k v = redeem_gift-IsValid h s c k v
act-IsValid h c s (critter_shooing i) k v = shoo_critter-IsValid s c i v
act-IsValid h c s (naming name) k v = ground arith
act-IsValid h c s (rebirthing now) k v = rebirth-IsValid h s c now k v
act-IsValid h c s (contract_start id now) k v = start_contract-IsValid s c id now k v
act-IsValid h c s (contract_abandonment now) k v = abandon_contract-IsValid s c now k v
act-IsValid h c s (pouch_collection i) k v = collect_scarecrow-IsValid s i v
act-IsValid h c s pouches_collection k v = collect_scarecrows-IsValid s v
act-IsValid h c s (style_choice style) k v = ground arith
act-IsValid h c s (flavor_choice on) k v = v
act-IsValid h c s (theme_choice on) k v = v
act-IsValid h c s (season_choice on) k v = v
act-IsValid h c s (passing to) k v = advance-IsValid h s c to k v

-- In every save that a new farm reaches by any sequence of player actions, accepted or refused, and
-- of advances to any timestamps, over content that meets the checks of IsContent, each of the coins,
-- the three counts of earnings, the Starseeds, the Starseeds of the contract, the harvests, the
-- contract's rebirths and every scarecrow's pouch is between 0 and math.MaxInt64, and the number of
-- contracts completed is between 0 and three.
pub Reachable-IsValid :
    (h : Host) (c : Content) (s : State) → IsContent c → Reachable h c s → IsValid s
Reachable-IsValid h c s k (fresh seed now) = new-IsValid c seed now k
Reachable-IsValid h c s k (then {s = t} r a) = act-IsValid h c t a k (Reachable-IsValid h c t k r)
