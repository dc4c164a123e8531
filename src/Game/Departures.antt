-- ===== src/Game/Departures.antt =====
-- How a save leaves memory in internal/game/manager.go: flushes, disconnections and the shutdown.
use ssh_farm.Prelude.{leb, ℕ, Bool, true, if◌then◌else◌, Option, none, some, String}
use ssh_farm.Store.{SaveKey, Saves}
use ssh_farm.Game.Actors.{Env, Actor, is_guest_key, persist, owns}
use ssh_farm.Game.Manager.{World, set_actor, kick, shutdown_notice, guest_shutdown_notice}

unfoldable pub store_actor :
    (env : Env) → Bool → SaveKey → Option Actor → World env.Payload → World env.Payload
store_actor env works k none w = w
store_actor env works k (some a) w =
    let (b, saves) = persist env works a w.saves in
    set_actor (some b) k (record w { saves = saves })

-- The autosave of one actor; a guest's actor has no ticker.
unfoldable pub autosave : (env : Env) → Bool → SaveKey → World env.Payload → World env.Payload
autosave env works k w = store_actor env works k (w.actors k) w

-- stopActorLocked: the final flush, and out of the registry.
unfoldable pub stop_actor :
    (env : Env) → Bool → SaveKey → Actor → World env.Payload → World env.Payload
stop_actor env works k a w = set_actor none k (record w { saves = (persist env works a w.saves).1 })

-- The end of detach for a session that is released.
unfoldable pub let_go :
    (env : Env) → Bool → SaveKey → Actor × Saves env.Payload → World env.Payload → World env.Payload
let_go env last k (a, saves) w = stop_actor env last k a (record w { saves = saves })

-- detach, when the store works at the first flush and at the final one.
unfoldable pub detach_actor :
    (env : Env) → Bool → Bool → SaveKey → ℕ → Actor → World env.Payload → World env.Payload
detach_actor env first last k id a w =
    if owns a id
    then let_go env last k (persist env first (record a { session = none }) w.saves) w
    else if leb a.since id
    then store_actor env first k (some a) w
    else w

unfoldable pub detach_from :
    (env : Env) → Bool → Bool → SaveKey → ℕ → Option Actor → World env.Payload → World env.Payload
detach_from env first last k id none w = w
detach_from env first last k id (some a) w = detach_actor env first last k id a w

unfoldable pub detach :
    (env : Env) → Bool → Bool → SaveKey → ℕ → World env.Payload → World env.Payload
detach env first last k id w = detach_from env first last k id (w.actors k) w

-- Shutdown: the flag, and then each actor in turn.
unfoldable pub begin_shutdown : {P : Type 0} → World P → World P
begin_shutdown w = record w { closing = true }

unfoldable pub goodbye : SaveKey → String
goodbye k = if is_guest_key k then guest_shutdown_notice else shutdown_notice

unfoldable pub shut_actor :
    (env : Env) → Bool → SaveKey → Option Actor → World env.Payload → World env.Payload
shut_actor env works k none w = w
shut_actor env works k (some a) w =
    stop_actor env works k (record a { session = none }) (kick a.session (goodbye k) w)

unfoldable pub shutdown_one : (env : Env) → Bool → SaveKey → World env.Payload → World env.Payload
shutdown_one env works k w = shut_actor env works k (w.actors k) w
