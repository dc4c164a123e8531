-- ===== src/Game/Commands.antt =====
-- The methods of Session in internal/game/session.go and dev.go, as what each applies to the save.
pub mod Honest
pub mod Naming
use ssh_farm.Prelude.{ℤ, Bool, true, false, if◌then◌else◌, Option, none, some, String}
use ssh_farm.Moderation.Text.{Text}
use ssh_farm.Leaderboard.Ranking.{Moderator}
use ssh_farm.Sim.Outcome.{Outcome, Result, ok, err}
use ssh_farm.Sim.State.{State}
use ssh_farm.Sim.Dev.{Developed, dev_apply}
use ssh_farm.Sim.Actions.{
  Action, perform, planting, replanting, harvesting, plot_purchase, zone_purchase,
  multiplier_purchase, seed_upgrade_purchase, automation_purchase, crop_queueing, upgrade_purchase,
  scarecrow_purchase, gift_redemption, critter_shooing, naming, rebirthing, contract_start,
  contract_abandonment, pouch_collection, pouches_collection, style_choice, flavor_choice,
  theme_choice, season_choice,
}
use ssh_farm.Store.{RenameGate, rename_allowed, rename_locked, rename_rate_limited}
use ssh_farm.Game.Actors.{
  Env, GameError, name_locked, name_rate_limited, name_denied, gate_failed, sim_error, dev_error,
}

pub data Command : Type 0 where
  plant : ℤ → String → Command
  harvest : ℤ → Command
  buy_plot : Command
  buy_zone : String → Command
  buy_multiplier : String → Command
  buy_seed_upgrade : String → Command
  upgrade_plot_auto : ℤ → String → Command
  set_auto_sow_crop : ℤ → String → Command
  buy_upgrade : String → Command
  redeem_gift : Command
  replant_all : Command
  collect_scarecrow : ℤ → Command
  collect_scarecrows : Command
  buy_scarecrow : Command
  ack_replant_warning : Command
  set_news : Bool → Command
  set_critters : Bool → Command
  set_theme_solid : Bool → Command
  set_seasonal : Bool → Command
  shoo_critter : ℤ → Command
  set_farm_name : String → Command
  rebirth : Command
  start_contract : String → Command
  abandon_contract : Command
  set_leaderboard_name_style : String → Command
  set_flavor : Bool → Command

-- The methods that start with a test for a guest.
unfoldable pub needs_key : Command → Bool
needs_key (set_farm_name name) = true
needs_key (set_leaderboard_name_style style) = true
needs_key c = false

unfoldable pub applied : Outcome (Unit {0}) → State × Option GameError
applied (s, ok a) = (s, none)
applied (s, err e) = (s, some (sim_error e))

unfoldable pub do_action : Env → State → Action → State × Option GameError
do_action env s a = applied (perform env.host env.content s a)

-- The closure that a method hands to intent.
unfoldable pub apply : Env → ℤ → Command → State → State × Option GameError
apply env now (plant i id) s = do_action env s (planting i id now)
apply env now (harvest i) s = do_action env s (harvesting i now)
apply env now buy_plot s = do_action env s plot_purchase
apply env now (buy_zone id) s = do_action env s (zone_purchase id)
apply env now (buy_multiplier id) s = do_action env s (multiplier_purchase id)
apply env now (buy_seed_upgrade id) s = do_action env s (seed_upgrade_purchase id)
apply env now (upgrade_plot_auto i kind) s = do_action env s (automation_purchase i kind)
apply env now (set_auto_sow_crop i id) s = do_action env s (crop_queueing i id)
apply env now (buy_upgrade id) s = do_action env s (upgrade_purchase id)
apply env now redeem_gift s = do_action env s gift_redemption
apply env now replant_all s = do_action env s (replanting now)
apply env now (collect_scarecrow i) s = do_action env s (pouch_collection i)
apply env now collect_scarecrows s = do_action env s pouches_collection
apply env now buy_scarecrow s = do_action env s scarecrow_purchase
apply env now ack_replant_warning s = (record s { replant_warned = true }, none)
apply env now (set_news on) s = (record s { news_enabled = on }, none)
apply env now (set_critters on) s = (record s { critters_enabled = on }, none)
apply env now (set_theme_solid on) s = do_action env s (theme_choice on)
apply env now (set_seasonal on) s = do_action env s (season_choice on)
apply env now (shoo_critter i) s = do_action env s (critter_shooing i)
apply env now (set_farm_name name) s = do_action env s (naming name)
apply env now rebirth s = do_action env s (rebirthing now)
apply env now (start_contract id) s = do_action env s (contract_start id now)
apply env now abandon_contract s = do_action env s (contract_abandonment now)
apply env now (set_leaderboard_name_style style) s = do_action env s (style_choice style)
apply env now (set_flavor on) s = do_action env s (flavor_choice on)

unfoldable pub name_filtered : Env → State → Text × Bool → State × Option GameError
name_filtered env s (filtered, denied) =
    if denied then (s, some name_denied) else do_action env s (naming (env.string filtered))

-- The closure of RenameFarm, after the store's gate; none is an error of the store.
unfoldable pub apply_rename : Env → Option RenameGate → Text → State → State × Option GameError
apply_rename env none raw s = (s, some gate_failed)
apply_rename env (some rename_locked) raw s = (s, some name_locked)
apply_rename env (some rename_rate_limited) raw s = (s, some name_rate_limited)
apply_rename env (some rename_allowed) raw s = name_filtered env s (env.moderator.filter raw)

unfoldable pub dev_applied : Developed → State × Option GameError
dev_applied (s, none) = (s, none)
dev_applied (s, some e) = (s, some (dev_error e))

-- The closure of DevApply.
unfoldable pub apply_dev : Env → ℤ → String → ℤ → State → State × Option GameError
apply_dev env now action value s = dev_applied (dev_apply s env.content action value now)
