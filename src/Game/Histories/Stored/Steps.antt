-- ===== src/Game/Histories/Stored/Steps.antt =====
-- Every step of a server of internal/game keeps the store and the actors in agreement.
use ssh_farm.Prelude.{
  ℕ, ℤ, ◌≡◌, refl, subst, Bool, true, false, not, ◌&&◌, Option, none, some, String,
}
use ssh_farm.Moderation.Text.{Text}
use ssh_farm.Sim.State.{State}
use ssh_farm.Store.{SaveKey, SaveRow, RenameGate, RenameRow, gate_rename}
use ssh_farm.Game.Actors.{Env, Actor, Reply, is_guest_key, intent, owns}
use ssh_farm.Game.Actors.Marking.{IsTimely}
use ssh_farm.Game.Actors.Keeping.{IsKept, intent-IsKept, catch_up-IsKept}
use ssh_farm.Game.Commands.{Command, needs_key, apply, apply_rename, apply_dev}
use ssh_farm.Game.Commands.Honest.{apply-IsHonest, apply_rename-IsHonest, apply_dev-IsHonest}
use ssh_farm.Game.Manager.{World, new_world, set_actor}
use ssh_farm.Game.Calls.{
  ask_actor, ask, command, develop, tick_reply, tick, gate_of, rename_owned, rename_actor,
  rename_farm,
}
use ssh_farm.Game.Departures.{autosave, detach_from, detach, begin_shutdown, shutdown_one}
use ssh_farm.Game.Histories.{
  IsTimelyActor, Step, connects, calls, ticks, develops, relabels, saves_itself, leaves, closes,
  stops, Reached, started, and_then,
}
use ssh_farm.Game.Histories.Stored.{
  IsTabled, IsHeld, IsStoredAt, IsStored, both_changed, set_actor-IsStored,
}
use ssh_farm.Game.Histories.Stored.Joining.{marked-IsHeld, either-IsStored}
use ssh_farm.Game.Histories.Stored.Attaching.{attach-IsStored}
use ssh_farm.Game.Histories.Stored.Flushing.{
  store_actor-IsStored, shut_actor-IsStored, detach_actor-IsStored,
}

-- json.Unmarshal gives back what json.Marshal was given.
module _ (env : Env)
    (codec : (s : State) (p : env.Payload)
      → env.marshal s ≡ some p
      → env.unmarshal p ≡ some s) where
  ask_actor-IsStored :
      (k : SaveKey) (id : ℕ) (f : Actor → Actor × Reply) (o : Option Actor) (w : World env.Payload)
      → w.actors k ≡ o
      → ((a : Actor) → o ≡ some a → IsKept a (f a).0)
      → IsStored env w
      → IsStored env (ask_actor env k id f o w).1
  unfolding ask_actor
  ask_actor-IsStored k id f none w e kept all = all
  ask_actor-IsStored k id f (some a) w e kept all =
      either-IsStored env (owns a id) _ _
        (set_actor-IsStored env (some (f a).0) k w all (
          marked-IsHeld env k (w.saves k) a (f a).0 a.session (kept a refl)
            (subst (IsHeld env k (w.saves k)) e (all k).1)))
        all

  renamed-IsTabled :
      (row : SaveRow env.Payload) (n : RenameRow)
      → IsTabled env (some row)
      → IsTabled env (some (record row { renames = n }))
  renamed-IsTabled row n h = h

  renamed-IsHeld :
      (now : ℤ) (raw : Text) (k : SaveKey) (a : Actor) (gate : Option RenameGate)
      → (x : Option (SaveRow env.Payload)) → IsTimely now a.state
      → IsHeld env k x (some a)
      → IsHeld env k x (some (intent env now (apply_rename env gate raw) a).0)
  renamed-IsHeld now raw k a gate x timely held =
      marked-IsHeld env k x a (intent env now (apply_rename env gate raw) a).0 a.session
        (intent-IsKept env now (apply_rename env gate raw) a timely
          (apply_rename-IsHonest env gate raw))
        held

  rename_owned-IsStored :
      (now : ℤ) (raw : Text) (k : SaveKey) (a : Actor) (works : Bool)
      (o : Option (SaveRow env.Payload))
      → (w : World env.Payload) → w.saves k ≡ o
      → IsTimely now a.state
      → IsHeld env k (w.saves k) (some a)
      → IsStored env w
      → IsStored env (rename_owned env now raw k a (gate_of now works o) w).1
  unfolding gate_of rename_owned set_actor
  rename_owned-IsStored now raw k a works none w e timely held all =
      set_actor-IsStored env (some (intent env now (apply_rename env none raw) a).0) k w all
        (renamed-IsHeld now raw k a none (w.saves k) timely held)
  rename_owned-IsStored now raw k a false (some row) w e timely held all =
      set_actor-IsStored env (some (intent env now (apply_rename env none raw) a).0) k w all
        (renamed-IsHeld now raw k a none (w.saves k) timely held)
  rename_owned-IsStored now raw k a true (some row) w e timely held all =
      both_changed env w k (some (record row { renames = n }))
        (some (intent env now (apply_rename env (some gate) raw) a).0) all
        (renamed-IsTabled row n (subst (IsTabled env) e (all k).0))
        (renamed-IsHeld now raw k a (some gate) (some row) timely
          (subst (λ x. IsHeld env k x (some a)) e held))
    where
      gate : RenameGate
      gate = (gate_rename now row.renames).0

      n : RenameRow
      n = (gate_rename now row.renames).1

  rename_actor-IsStored :
      (now : ℤ) (works : Bool) (raw : Text) (k : SaveKey) (id : ℕ) (o : Option Actor)
      → (w : World env.Payload) → IsTimelyActor now o
      → IsHeld env k (w.saves k) o
      → IsStored env w
      → IsStored env (rename_actor env now works raw k id o w).1
  unfolding rename_actor
  rename_actor-IsStored now works raw k id none w timely held all = all
  rename_actor-IsStored now works raw k id (some a) w timely held all =
      either-IsStored env (owns a id)
        (rename_owned env now raw k a (gate_of now works (w.saves k)) w) _
        (rename_owned-IsStored now raw k a works (w.saves k) w refl timely held all) all

  IsTimely-actor :
      (now : ℤ) (o : Option Actor) (a : Actor)
      → IsTimelyActor now o
      → o ≡ some a
      → IsTimely now a.state
  IsTimely-actor now none a h e = cc
  IsTimely-actor now (some b) a h e = subst (λ x. IsTimelyActor now x) e h

  command-IsStored :
      (now : ℤ) (k : SaveKey) (id : ℕ) (c : Command) (w : World env.Payload)
      → IsTimelyActor now (w.actors k)
      → IsStored env w
      → IsStored env (command env now k id c w).1
  unfolding command ask
  command-IsStored now k id c w timely all =
      either-IsStored env (needs_key c && is_guest_key k) _
        (ask env k id (intent env now (apply env now c)) w) all
        (ask_actor-IsStored k id (intent env now (apply env now c)) (w.actors k) w refl
          (λ a e.
            intent-IsKept env now (apply env now c) a (IsTimely-actor now (w.actors k) a timely e)
              (apply-IsHonest env now c))
          all)

  develop-IsStored :
      (now : ℤ) (k : SaveKey) (id : ℕ) (action : String) (value : ℤ) (w : World env.Payload)
      → IsTimelyActor now (w.actors k)
      → IsStored env w
      → IsStored env (develop env now k id action value w).1
  unfolding develop ask
  develop-IsStored now k id action value w timely all =
      either-IsStored env (not env.dev_mode) _
        (ask env k id (intent env now (apply_dev env now action value)) w) all
        (ask_actor-IsStored k id (intent env now (apply_dev env now action value)) (w.actors k) w
          refl
          (λ a e.
            intent-IsKept env now (apply_dev env now action value) a
              (IsTimely-actor now (w.actors k) a timely e)
              (apply_dev-IsHonest env now action value))
          all)

  tick-IsStored :
      (now : ℤ) (k : SaveKey) (id : ℕ) (w : World env.Payload)
      → IsTimelyActor now (w.actors k)
      → IsStored env w
      → IsStored env (tick env now k id w).1
  unfolding tick tick_reply ask
  tick-IsStored now k id w timely all =
      ask_actor-IsStored k id (tick_reply env now) (w.actors k) w refl
        (λ a e. catch_up-IsKept env now a (IsTimely-actor now (w.actors k) a timely e)) all

  detach_from-IsStored :
      (first last : Bool) (k : SaveKey) (id : ℕ) (o : Option Actor) (w : World env.Payload)
      → IsHeld env k (w.saves k) o
      → IsStored env w
      → IsStored env (detach_from env first last k id o w)
  unfolding detach_from
  detach_from-IsStored first last k id none w held all = all
  detach_from-IsStored first last k id (some a) w held all =
      detach_actor-IsStored env codec first last k id a w held all

  Step-IsStored : {w v : World env.Payload} → Step env w v → IsStored env w → IsStored env v
  unfolding autosave detach begin_shutdown shutdown_one rename_farm
  Step-IsStored (connects w r a b) all = attach-IsStored env codec r w a b all
  Step-IsStored (calls w now k id c a) all = command-IsStored now k id c w a all
  Step-IsStored (ticks w now k id a) all = tick-IsStored now k id w a all
  Step-IsStored (develops w now k id action value a) all =
      develop-IsStored now k id action value w a all
  Step-IsStored (relabels w now works raw k id a) all =
      either-IsStored env (is_guest_key k) _ (rename_actor env now works raw k id (w.actors k) w)
        all (rename_actor-IsStored now works raw k id (w.actors k) w a (all k).1 all)
  Step-IsStored (saves_itself w works k) all =
      store_actor-IsStored env codec works k (w.actors k) w (all k).1 all
  Step-IsStored (leaves w first last k id) all =
      detach_from-IsStored first last k id (w.actors k) w (all k).1 all
  Step-IsStored (closes w) all = all
  Step-IsStored (stops w works k) all =
      shut_actor-IsStored env codec works k (w.actors k) w (all k).1 all

-- Whatever sessions do on a server that started with an empty store, whichever calls of the store
-- fail, while json.Unmarshal gives back what json.Marshal was given, and while no clock that a step
-- reads is so far from the last time of the save it reaches that the seconds between leave int64: at
-- every key the row, if there is one, has in each column the version, the last time, the coins, the
-- lifetime earnings, the rebirths, the name, the contracts completed and the name style of the state
-- that is its payload; and the actor, if there is one, is a guest's, or marked as changed, or its row
-- loads to what its own state decodes to.
pub Reached-IsStored :
    (env : Env)
    → ((s : State) (p : env.Payload) → env.marshal s ≡ some p → env.unmarshal p ≡ some s)
    → {w : World env.Payload} → Reached env w
    → (k : SaveKey) → IsStoredAt env w k
unfolding new_world
Reached-IsStored env codec started k = (tt, tt)
Reached-IsStored env codec (and_then r s) k =
    Step-IsStored env codec s (Reached-IsStored env codec r) k
