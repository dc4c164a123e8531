-- ===== src/Game/Calls.antt =====
-- What the methods of internal/game/session.go do to the server: each is one message to the actor of
-- its session.
use ssh_farm.Prelude.{not, String, ℕ, ℤ, Bool, ◌&&◌, if◌then◌else◌, [], Option, none, some}
use ssh_farm.Moderation.Text.{Text}
use ssh_farm.Store.{SaveKey, SaveRow, update_key, RenameGate, gate_rename}
use ssh_farm.Game.Actors.{
  Env, Actor, is_guest_key, Reply, failed, reply_with, catch_up, intent, owns, session_closed,
  dev_mode_disabled, guest_requires_key,
}
use ssh_farm.Game.Commands.{Command, needs_key, apply, apply_rename, apply_dev}
use ssh_farm.Game.Manager.{World, set_actor}

-- What an actor answers when a session calls it.
unfoldable pub ask_actor :
    (env : Env)
    → SaveKey
    → ℕ
    → (Actor → Actor × Reply)
    → Option Actor
    → World env.Payload
    → Reply × World env.Payload
ask_actor env k id f none w = (failed session_closed, w)
ask_actor env k id f (some a) w =
    if owns a id then ((f a).1, set_actor (some (f a).0) k w) else (failed session_closed, w)

unfoldable pub ask :
    (env : Env)
    → SaveKey
    → ℕ
    → (Actor → Actor × Reply)
    → World env.Payload
    → Reply × World env.Payload
ask env k id f w = ask_actor env k id f (w.actors k) w

-- The methods that act on the save.
unfoldable pub command :
    (env : Env) → ℤ → SaveKey → ℕ → Command → World env.Payload → Reply × World env.Payload
command env now k id c w =
    if needs_key c && is_guest_key k
    then (failed guest_requires_key, w)
    else ask env k id (intent env now (apply env now c)) w

-- DevApply, behind the server's setting.
unfoldable pub develop :
    (env : Env) → ℤ → SaveKey → ℕ → String → ℤ → World env.Payload → Reply × World env.Payload
develop env now k id action value w =
    if not env.dev_mode
    then (failed dev_mode_disabled, w)
    else ask env k id (intent env now (apply_dev env now action value)) w

-- Session.Advance; the tick's events are left to the caller.
unfoldable pub tick_reply : Env → ℤ → Actor → Actor × Reply
tick_reply env now a =
    let (b, ev) = catch_up env now a in (b, reply_with now b.state ev.contract_completed [] none)

unfoldable pub tick : (env : Env) → ℤ → SaveKey → ℕ → World env.Payload → Reply × World env.Payload
tick env now k id w = ask env k id (tick_reply env now) w

-- GateRename on the row of a key, none for an error of the store.
unfoldable pub gate_of :
    {P : Type 0} → ℤ → Bool → Option (SaveRow P) → Option (RenameGate × SaveRow P)
gate_of now works none = none
gate_of now works (some row) =
    let (gate, renames) = gate_rename now row.renames in
    if works then some (gate, record row { renames = renames }) else none

unfoldable pub rename_owned :
    (env : Env)
    → ℤ
    → Text
    → SaveKey
    → Actor
    → Option (RenameGate × SaveRow env.Payload)
    → World env.Payload
    → Reply × World env.Payload
rename_owned env now raw k a none w =
    let (b, reply) = intent env now (apply_rename env none raw) a in (reply, set_actor (some b) k w)
rename_owned env now raw k a (some (gate, row)) w =
    let (b, reply) = intent env now (apply_rename env (some gate) raw) a in
    (reply, set_actor (some b) k (record w { saves = update_key k (some row) w.saves }))

unfoldable pub rename_actor :
    (env : Env)
    → ℤ
    → Bool
    → Text
    → SaveKey
    → ℕ
    → Option Actor
    → World env.Payload
    → Reply × World env.Payload
rename_actor env now works raw k id none w = (failed session_closed, w)
rename_actor env now works raw k id (some a) w =
    if owns a id
    then rename_owned env now raw k a (gate_of now works (w.saves k)) w
    else (failed session_closed, w)

-- RenameFarm: only the owner's attempt reaches the store.
unfoldable pub rename_farm :
    (env : Env) → ℤ → Bool → Text → SaveKey → ℕ → World env.Payload → Reply × World env.Payload
rename_farm env now works raw k id w =
    if is_guest_key k
    then (failed guest_requires_key, w)
    else rename_actor env now works raw k id (w.actors k) w
