-- ===== src/Game/Commands/Honest.antt =====
-- A method of internal/game/session.go that reports an error has left the save as it was.
use ssh_farm.Prelude.{ℤ, ◌≡◌, refl, Bool, true, false, Option, none, some, String}
use ssh_farm.Moderation.Text.{Text}
use ssh_farm.Sim.Outcome.{Outcome, Error, ok, err}
use ssh_farm.Sim.State.{State}
use ssh_farm.Sim.Dev.{Developed, dev_apply, IsHonestly, dev_apply-IsHonestly}
use ssh_farm.Sim.Actions.{Action, perform, naming}
use ssh_farm.Sim.Refusals.{perform-Unchanged}
use ssh_farm.Store.{RenameGate, rename_allowed, rename_locked, rename_rate_limited}
use ssh_farm.Game.Actors.{Env, GameError}
use ssh_farm.Game.Commands.{
  Command, plant, harvest, buy_plot, buy_zone, buy_multiplier, buy_seed_upgrade, upgrade_plot_auto,
  set_auto_sow_crop, buy_upgrade, redeem_gift, replant_all, collect_scarecrow, collect_scarecrows,
  buy_scarecrow, ack_replant_warning, set_news, set_critters, set_theme_solid, set_seasonal,
  shoo_critter, set_farm_name, rebirth, start_contract, abandon_contract,
  set_leaderboard_name_style, set_flavor, applied, do_action, apply, name_filtered, apply_rename,
  dev_applied, apply_dev,
}

-- With an error the state is the one before.
abbrev pub IsHonest : State → State × Option GameError → Type 0
IsHonest s (t, none) = Unit
IsHonest s (t, some e) = t ≡ s

applied-IsHonest :
    (s : State) (o : Outcome (Unit {0}))
    → ((e : Error) → o.1 ≡ err e → o.0 ≡ s)
    → IsHonest s (applied o)
unfolding applied
applied-IsHonest s (t, ok a) h = tt
applied-IsHonest s (t, err e) h = h e refl

do_action-IsHonest : (env : Env) (s : State) (a : Action) → IsHonest s (do_action env s a)
unfolding do_action
do_action-IsHonest env s a =
    applied-IsHonest s (perform env.host env.content s a)
      (λ e. perform-Unchanged env.host env.content s a e)

pub apply-IsHonest :
    (env : Env) (now : ℤ) (c : Command) (s : State) → IsHonest s (apply env now c s)
unfolding apply
apply-IsHonest env now (plant i id) s = do_action-IsHonest env s _
apply-IsHonest env now (harvest i) s = do_action-IsHonest env s _
apply-IsHonest env now buy_plot s = do_action-IsHonest env s _
apply-IsHonest env now (buy_zone id) s = do_action-IsHonest env s _
apply-IsHonest env now (buy_multiplier id) s = do_action-IsHonest env s _
apply-IsHonest env now (buy_seed_upgrade id) s = do_action-IsHonest env s _
apply-IsHonest env now (upgrade_plot_auto i kind) s = do_action-IsHonest env s _
apply-IsHonest env now (set_auto_sow_crop i id) s = do_action-IsHonest env s _
apply-IsHonest env now (buy_upgrade id) s = do_action-IsHonest env s _
apply-IsHonest env now redeem_gift s = do_action-IsHonest env s _
apply-IsHonest env now replant_all s = do_action-IsHonest env s _
apply-IsHonest env now (collect_scarecrow i) s = do_action-IsHonest env s _
apply-IsHonest env now collect_scarecrows s = do_action-IsHonest env s _
apply-IsHonest env now buy_scarecrow s = do_action-IsHonest env s _
apply-IsHonest env now ack_replant_warning s = tt
apply-IsHonest env now (set_news on) s = tt
apply-IsHonest env now (set_critters on) s = tt
apply-IsHonest env now (set_theme_solid on) s = do_action-IsHonest env s _
apply-IsHonest env now (set_seasonal on) s = do_action-IsHonest env s _
apply-IsHonest env now (shoo_critter i) s = do_action-IsHonest env s _
apply-IsHonest env now (set_farm_name name) s = do_action-IsHonest env s _
apply-IsHonest env now rebirth s = do_action-IsHonest env s _
apply-IsHonest env now (start_contract id) s = do_action-IsHonest env s _
apply-IsHonest env now abandon_contract s = do_action-IsHonest env s _
apply-IsHonest env now (set_leaderboard_name_style style) s = do_action-IsHonest env s _
apply-IsHonest env now (set_flavor on) s = do_action-IsHonest env s _

name_filtered-IsHonest :
    (env : Env) (s : State) (f : Text × Bool) → IsHonest s (name_filtered env s f)
unfolding name_filtered
name_filtered-IsHonest env s (filtered, true) = refl
name_filtered-IsHonest env s (filtered, false) =
    do_action-IsHonest env s (naming (env.string filtered))

pub apply_rename-IsHonest :
    (env : Env) (gate : Option RenameGate) (raw : Text) (s : State)
    → IsHonest s (apply_rename env gate raw s)
unfolding apply_rename
apply_rename-IsHonest env none raw s = refl
apply_rename-IsHonest env (some rename_locked) raw s = refl
apply_rename-IsHonest env (some rename_rate_limited) raw s = refl
apply_rename-IsHonest env (some rename_allowed) raw s =
    name_filtered-IsHonest env s (env.moderator.filter raw)

dev_applied-IsHonest : (s : State) (o : Developed) → IsHonestly s o → IsHonest s (dev_applied o)
unfolding dev_applied
dev_applied-IsHonest s (t, none) h = tt
dev_applied-IsHonest s (t, some e) h = h

pub apply_dev-IsHonest :
    (env : Env) (now : ℤ) (action : String) (value : ℤ) (s : State)
    → IsHonest s (apply_dev env now action value s)
unfolding apply_dev
apply_dev-IsHonest env now action value s =
    dev_applied-IsHonest s (dev_apply s env.content action value now)
      (dev_apply-IsHonestly s env.content action value now)
