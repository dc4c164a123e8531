-- ===== src/Game/Histories.antt =====
-- Everything that the sessions of one server do, in any order: connections, calls of methods, ticks, developer actions,
-- renames, autosaves, disconnections and the shutdown of internal/game.
pub mod Stored
pub mod Flushed
pub mod Away
pub mod Evicted
use ssh_farm.Prelude.{ℕ, ℤ, Bool, true, false, ◌≡◌, Option, none, some, String}
use ssh_farm.Moderation.Text.{Text}
use ssh_farm.Sim.State.{State, decode_state}
use ssh_farm.Store.{SaveKey, SaveRow}
use ssh_farm.Game.Actors.{Env, Actor}
use ssh_farm.Game.Actors.Marking.{IsTimely}
use ssh_farm.Game.Commands.{Command}
use ssh_farm.Game.Manager.{World, Connection, new_world, attach, keyed_key, load_state}
use ssh_farm.Game.Calls.{command, develop, tick, rename_farm}
use ssh_farm.Game.Departures.{autosave, detach, begin_shutdown, shutdown_one}

-- The clock of a step is timely for the actor that it reaches.
abbrev pub IsTimelyActor : ℤ → Option Actor → Type 0
IsTimelyActor now none = Unit
IsTimelyActor now (some a) = IsTimely now a.state

abbrev pub IsTimelyState : ℤ → Option State → Type 0
IsTimelyState now none = Unit
IsTimelyState now (some s) = IsTimely now s

-- The clock of a connection is timely for the row that it loads.
abbrev pub IsTimelyRow : (env : Env) → ℤ → Option (SaveRow env.Payload) → Type 0
IsTimelyRow env now none = Unit
IsTimelyRow env now (some row) = IsTimelyState now (load_state env row.state)

pub data Step (env : Env) : World env.Payload → World env.Payload → Type 0 where
  connects :
      (w : World env.Payload) (r : Connection)
      → IsTimelyActor r.now (w.actors (keyed_key r.identity))
      → IsTimelyRow env r.now (w.saves (keyed_key r.identity))
      → Step env w (attach env r w).1
  calls :
      (w : World env.Payload) (now : ℤ) (k : SaveKey) (id : ℕ) (c : Command)
      → IsTimelyActor now (w.actors k)
      → Step env w (command env now k id c w).1
  ticks :
      (w : World env.Payload) (now : ℤ) (k : SaveKey) (id : ℕ)
      → IsTimelyActor now (w.actors k)
      → Step env w (tick env now k id w).1
  develops :
      (w : World env.Payload) (now : ℤ) (k : SaveKey) (id : ℕ) (action : String) (value : ℤ)
      → IsTimelyActor now (w.actors k)
      → Step env w (develop env now k id action value w).1
  relabels :
      (w : World env.Payload) (now : ℤ) (works : Bool) (raw : Text) (k : SaveKey) (id : ℕ)
      → IsTimelyActor now (w.actors k)
      → Step env w (rename_farm env now works raw k id w).1
  saves_itself :
      (w : World env.Payload) (works : Bool) (k : SaveKey) → Step env w (autosave env works k w)
  leaves :
      (w : World env.Payload) (first last : Bool) (k : SaveKey) (id : ℕ)
      → Step env w (detach env first last k id w)
  closes : (w : World env.Payload) → Step env w (begin_shutdown w)
  stops :
      (w : World env.Payload) (works : Bool) (k : SaveKey) → Step env w (shutdown_one env works k w)

pub data Reached (env : Env) : World env.Payload → Type 0 where
  started : Reached env (new_world env.Payload)
  and_then : {w v : World env.Payload} → Reached env w → Step env w v → Reached env v
