-- ===== src/Game/Histories/Away.antt =====
-- A connection to a server of internal/game gives no actor to a session with an earlier id.
pub mod Steps
use ssh_farm.Prelude.{
  ℕ, suc, ◌≤◌, ◌<◌, ℤ, ◌≡◌, refl, ap, sym, subst, ◌∙◌, Bool, true, false, not, ◌&&◌, leb, ltb, ◌==◌,
  if◌then◌else◌, Option, none, some, String, Bool-cases, ◌⊎◌, inl, inr, arith,
}
use ssh_farm.Moderation.Text.{Text, is_empty}
use ssh_farm.Identity.{validate_identity, is_guest}
use ssh_farm.Sim.State.{State, new}
use ssh_farm.Store.{SaveKey, Saves, SaveRow, RenameGate, update_key, insert_save}
use ssh_farm.Store.Keys.{update_key-All}
use ssh_farm.Game.Actors.{
  Env, Actor, Reply, GameError, failed, session_closed, guest_requires_key, dev_mode_disabled,
  is_guest_key, new_actor, persist, catch_up, conclude, intent, owns_id, owns,
}
use ssh_farm.Game.Actors.Keeping.{persist-IsFlushed}
use ssh_farm.Game.Commands.{Command, needs_key, apply, apply_rename, apply_dev}
use ssh_farm.Game.Manager.{
  World, Connection, Attached, Attachment, set_actor, kick, attach_guest, take_over, join_held,
  join, load_state, open_state, open_row, create_row, load_or_create, attach_to, attach_keyed,
  attach, keyed_key, guest_key, takeover_notice, fresh_save,
}
use ssh_farm.Game.Manager.Owners.{IsOwner, IsSettled, attach-IsSettled}
use ssh_farm.Game.Calls.{
  ask_actor, ask, command, develop, tick_reply, tick, gate_of, rename_owned, rename_actor,
  rename_farm,
}
use ssh_farm.Game.Departures.{
  store_actor, autosave, stop_actor, let_go, detach_actor, detach_from, detach, begin_shutdown,
  goodbye, shut_actor, shutdown_one,
}
use ssh_farm.Game.Histories.{
  Step, connects, calls, ticks, develops, relabels, saves_itself, leaves, closes, stops,
}

-- The session does not hold the actor, if there is one.
abbrev pub NotHeld : ℕ → Option Actor → Type 0
NotHeld id none = Unit
NotHeld id (some a) = owns a id ≡ false

-- The id has been given out, and its session does not hold the actor of the key.
abbrev pub IsAway : {P : Type 0} → ℕ → SaveKey → World P → Type 0
IsAway id k w = (id ≤ w.next_id) × ((i : SaveKey) → i ≡ k → NotHeld id (w.actors i))

same_session : (a b : Actor) (id : ℕ) → b.session ≡ a.session → owns b id ≡ owns a id
unfolding owns
same_session a b id e = ap (λ o. owns_id o id) e

pub later_session : (a : Actor) (n id : ℕ) → a.session ≡ some (suc n) → id ≤ n → owns a id ≡ false
unfolding owns owns_id
later_session a n id e h = ap (λ o. owns_id o id) e ∙ ground (arith, h)

module _ (env : Env) (id : ℕ) (k : SaveKey) where
  pub set_actor-IsAway :
      (o : Option Actor) (j : SaveKey) (w : World env.Payload)
      → IsAway id k w
      → (j ≡ k → NotHeld id o)
      → IsAway id k (set_actor o j w)
  unfolding set_actor
  set_actor-IsAway o j w (old, away) held =
      (old, update_key-All (λ i x. i ≡ k → NotHeld id x) j o w.actors held away)

  pub kick-IsAway :
      (o : Option ℕ) (reason : String) (w : World env.Payload)
      → IsAway id k w
      → IsAway id k (kick o reason w)
  unfolding kick
  kick-IsAway none reason w h = h
  kick-IsAway (some owner) reason w h = h

  pub either-IsAway :
      {A : Type 0} (b : Bool) (x y : A × World env.Payload)
      → IsAway id k x.1
      → IsAway id k y.1
      → IsAway id k (if b then x else y).1
  either-IsAway true x y h l = h
  either-IsAway false x y h l = l

  -- An actor in place of one with the same session.
  pub replaced-IsAway :
      (j : SaveKey) (o : Option Actor) (a b : Actor) (w : World env.Payload)
      → w.actors j ≡ o
      → o ≡ some a
      → b.session ≡ a.session
      → IsAway id k w
      → IsAway id k (set_actor (some b) j w)
  replaced-IsAway j o a b w e f same h =
      set_actor-IsAway (some b) j w h
        (λ here. same_session a b id same ∙ subst (NotHeld id) (e ∙ f) (h.1 j here))

  take_over-IsAway :
      (now : ℤ) (created : Bool) (j : SaveKey) (a : Actor) (w : World env.Payload)
      → IsAway id k w
      → IsAway id k (take_over env now created j a w).1
  unfolding take_over catch_up
  take_over-IsAway now created j a w (old, away) =
      set_actor-IsAway (some b) j (kick a.session takeover_notice next)
        (kick-IsAway a.session takeover_notice next (omega (arith, old), away))
        (λ here. later_session b w.next_id id refl old)
    where
      next : World env.Payload
      next = record w { next_id = suc w.next_id }

      b : Actor
      b = (catch_up env now (record a { session = some (suc w.next_id) })).0

  join_held-IsAway :
      (now : ℤ) (created : Bool) (j : SaveKey) (a : Actor) (o : Option ℕ) (w : World env.Payload)
      → IsAway id k w
      → IsAway id k (join_held env now created j a o w).1
  unfolding join_held
  join_held-IsAway now created j a none w h = take_over-IsAway now created j a w h
  join_held-IsAway now created j a (some owner) w h =
      either-IsAway env.refuses _ (take_over env now created j a w) (omega (arith, h.0), h.1)
        (take_over-IsAway now created j a w h)

  open_state-IsAway :
      (r : Connection) (created : Bool) (o : Option State) (w : World env.Payload)
      → IsAway id k w
      → IsAway id k (open_state env r created o w).1
  unfolding open_state join new_actor owns owns_id
  open_state-IsAway r created none w h = h
  open_state-IsAway r created (some s) w h =
      join_held-IsAway r.now created (keyed_key r.identity) a a.session
        (set_actor (some a) (keyed_key r.identity) w)
        (set_actor-IsAway (some a) (keyed_key r.identity) w h (λ here. refl))
    where
      a : Actor
      a = new_actor (suc w.next_id) (keyed_key r.identity) s

  create_row-IsAway :
      (r : Connection) (o : Option env.Payload) (w : World env.Payload)
      → IsAway id k w
      → IsAway id k (create_row env r o w).1
  unfolding create_row open_row
  create_row-IsAway r none w h = h
  create_row-IsAway r (some p) w h = either-IsAway (not r.writable) _ _ h (
      either-IsAway (not r.rereads) _ _ h (
        open_state-IsAway r true (load_state env row.state)
          (record w { saves = update_key (keyed_key r.identity) (some row) w.saves }) h))
    where
      row : SaveRow env.Payload
      row = insert_save r.now (fresh_save (new env.content r.seed r.now) p)

  load_or_create-IsAway :
      (r : Connection) (o : Option (SaveRow env.Payload)) (w : World env.Payload)
      → IsAway id k w
      → IsAway id k (load_or_create env r o w).1
  unfolding load_or_create open_row
  load_or_create-IsAway r none w h =
      create_row-IsAway r (env.marshal (new env.content r.seed r.now)) w h
  load_or_create-IsAway r (some row) w h = open_state-IsAway r false (load_state env row.state) w h

  attach_to-IsAway :
      (r : Connection) (o : Option Actor) (w : World env.Payload)
      → IsAway id k w
      → IsAway id k (attach_to env r o w).1
  unfolding attach_to join
  attach_to-IsAway r none w h =
      either-IsAway (not r.readable) _ (load_or_create env r (w.saves (keyed_key r.identity)) w) h
        (load_or_create-IsAway r (w.saves (keyed_key r.identity)) w h)
  attach_to-IsAway r (some a) w h =
      join_held-IsAway r.now false (keyed_key r.identity) a a.session w h

  attach_guest-IsAway :
      (r : Connection) (o : Option Actor) (w : World env.Payload)
      → IsAway id k w
      → IsAway id k (attach_guest env r o w).1
  unfolding attach_guest new_actor
  attach_guest-IsAway r (some a) w h = h
  attach_guest-IsAway r none w h =
      set_actor-IsAway (some _) (guest_key r.identity) (record w { next_id = suc w.next_id })
        (omega (arith, h.0), h.1) (λ here. later_session _ w.next_id id refl h.0)

  pub attach-IsAway :
      (r : Connection) (w : World env.Payload) → IsAway id k w → IsAway id k (attach env r w).1
  unfolding attach attach_keyed
  attach-IsAway r w h = either-IsAway w.closing _ _ h (
      either-IsAway (not (validate_identity env.lower r.identity)) _ _ h (
        either-IsAway (is_guest r.identity) _ _
          (either-IsAway (not (is_empty r.public_key)) _ _ h
            (attach_guest-IsAway r (w.actors (guest_key r.identity)) w h))
          (either-IsAway (not r.touched) _ _ h
            (attach_to-IsAway r (w.actors (keyed_key r.identity)) w h))))
