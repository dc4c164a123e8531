-- ===== src/Game/Histories/Away/Steps.antt =====
-- No step of a server of internal/game gives an actor back to a session that does not hold it.
use ssh_farm.Prelude.{
  ℕ, ℤ, ◌≡◌, refl, ap, Bool, not, ◌&&◌, leb, if◌then◌else◌, Option, none, some, Bool-cases, inl,
  inr,
}
use ssh_farm.Moderation.Text.{Text}
use ssh_farm.Sim.State.{State}
use ssh_farm.Store.{SaveKey, Saves, SaveRow, RenameGate, update_key}
use ssh_farm.Game.Actors.{
  Env, Actor, Reply, GameError, is_guest_key, persist, catch_up, conclude, intent, owns,
}
use ssh_farm.Game.Actors.Keeping.{persist-IsFlushed}
use ssh_farm.Game.Commands.{needs_key, apply, apply_rename, apply_dev}
use ssh_farm.Game.Manager.{World, kick}
use ssh_farm.Game.Calls.{
  ask_actor, ask, command, develop, tick_reply, tick, gate_of, rename_owned, rename_actor,
  rename_farm,
}
use ssh_farm.Game.Departures.{
  store_actor, autosave, stop_actor, let_go, detach_actor, detach_from, detach, begin_shutdown,
  goodbye, shut_actor, shutdown_one,
}
use ssh_farm.Game.Histories.{
  Step, connects, calls, ticks, develops, relabels, saves_itself, leaves, closes, stops,
}
use ssh_farm.Game.Histories.Away.{
  IsAway, set_actor-IsAway, kick-IsAway, either-IsAway, replaced-IsAway, attach-IsAway,
}

-- What a server becomes in any number of steps.
pub data Later (env : Env) (w : World env.Payload) : World env.Payload → Type 0 where
  now_already : Later env w w
  and_later : {u v : World env.Payload} → Later env w u → Step env u v → Later env w v

conclude_session :
    (env : Env) (now : ℤ) (before : State) (a : Actor) (o : State × Option GameError)
    → (conclude env now before a o).0.session ≡ a.session
unfolding conclude
conclude_session env now before a (s, none) = refl
conclude_session env now before a (s, some e) = refl

intent_session :
    (env : Env) (now : ℤ) (f : State → State × Option GameError) (a : Actor)
    → (intent env now f a).0.session ≡ a.session
unfolding intent catch_up
intent_session env now f a =
    let b = (catch_up env now a).0 in conclude_session env now a.state b (f b.state)

tick_session : (env : Env) (now : ℤ) (a : Actor) → (tick_reply env now a).0.session ≡ a.session
unfolding tick_reply catch_up
tick_session env now a = refl

persist_session :
    (env : Env) (works : Bool) (a : Actor) (saves : Saves env.Payload)
    → (persist env works a saves).0.session ≡ a.session
persist_session env works a saves = elim (persist-IsFlushed env works a saves) [
  | inl e ↦ ap (λ r. r.0.session) e
  | inr (p, row, g, here, m, e) ↦ ap (λ r. r.0.session) e
]

module _ (env : Env) (id : ℕ) (k : SaveKey) where
  ask_actor-IsAway :
      (j : SaveKey) (n : ℕ) (f : Actor → Actor × Reply) (o : Option Actor) (w : World env.Payload)
      → w.actors j ≡ o
      → ((a : Actor) → (f a).0.session ≡ a.session)
      → IsAway id k w
      → IsAway id k (ask_actor env j n f o w).1
  unfolding ask_actor
  ask_actor-IsAway j n f none w e same h = h
  ask_actor-IsAway j n f (some a) w e same h =
      either-IsAway env id k (owns a n) _ _
        (replaced-IsAway env id k j (some a) a (f a).0 w e refl (same a) h) h

  rename_owned-IsAway :
      (now : ℤ) (raw : Text) (j : SaveKey) (a : Actor)
      (o : Option (RenameGate × SaveRow env.Payload))
      → (w : World env.Payload) → w.actors j ≡ some a
      → IsAway id k w
      → IsAway id k (rename_owned env now raw j a o w).1
  unfolding rename_owned
  rename_owned-IsAway now raw j a none w e h =
      replaced-IsAway env id k j (some a) a (intent env now (apply_rename env none raw) a).0 w e
        refl (intent_session env now (apply_rename env none raw) a) h
  rename_owned-IsAway now raw j a (some (gate, row)) w e h =
      replaced-IsAway env id k j (some a) a (intent env now (apply_rename env (some gate) raw) a).0
        (record w { saves = update_key j (some row) w.saves }) e refl
        (intent_session env now (apply_rename env (some gate) raw) a) h

  rename_actor-IsAway :
      (now : ℤ) (works : Bool) (raw : Text) (j : SaveKey) (n : ℕ) (o : Option Actor)
      → (w : World env.Payload) → w.actors j ≡ o
      → IsAway id k w
      → IsAway id k (rename_actor env now works raw j n o w).1
  unfolding rename_actor
  rename_actor-IsAway now works raw j n none w e h = h
  rename_actor-IsAway now works raw j n (some a) w e h =
      either-IsAway env id k (owns a n) _ _
        (rename_owned-IsAway now raw j a (gate_of now works (w.saves j)) w e h) h

  store_actor-IsAway :
      (works : Bool) (j : SaveKey) (o : Option Actor) (w : World env.Payload)
      → w.actors j ≡ o
      → IsAway id k w
      → IsAway id k (store_actor env works j o w)
  unfolding store_actor
  store_actor-IsAway works j none w e h = h
  store_actor-IsAway works j (some a) w e h =
      let r = persist env works a w.saves in
      replaced-IsAway env id k j (some a) a r.0 (record w { saves = r.1 }) e refl
        (persist_session env works a w.saves) h

  stop_actor-IsAway :
      (works : Bool) (j : SaveKey) (a : Actor) (w : World env.Payload)
      → IsAway id k w
      → IsAway id k (stop_actor env works j a w)
  unfolding stop_actor
  stop_actor-IsAway works j a w h =
      set_actor-IsAway env id k none j (record w { saves = (persist env works a w.saves).1 }) h
        (λ here. tt)

  detach_from-IsAway :
      (first last : Bool) (j : SaveKey) (n : ℕ) (o : Option Actor) (w : World env.Payload)
      → w.actors j ≡ o
      → IsAway id k w
      → IsAway id k (detach_from env first last j n o w)
  unfolding detach_from detach_actor let_go
  detach_from-IsAway first last j n none w e h = h
  detach_from-IsAway first last j n (some a) w e h = elim (Bool-cases (owns a n)) [
    | inl d ↦
        let r = persist env first (record a { session = none }) w.saves in
        rw (d, if◌then◌else◌) (stop_actor-IsAway last j r.0 (record w { saves = r.1 }) h)
    | inr d ↦ elim (Bool-cases (leb a.since n)) [
      | inl c ↦
          rw (d, if◌then◌else◌) (rw (c, if◌then◌else◌) (store_actor-IsAway first j (some a) w e h))
      | inr c ↦ rw (d, if◌then◌else◌) (rw (c, if◌then◌else◌) h)
    ]
  ]

  shut_actor-IsAway :
      (works : Bool) (j : SaveKey) (o : Option Actor) (w : World env.Payload)
      → IsAway id k w
      → IsAway id k (shut_actor env works j o w)
  unfolding shut_actor
  shut_actor-IsAway works j none w h = h
  shut_actor-IsAway works j (some a) w h =
      stop_actor-IsAway works j (record a { session = none }) (kick a.session (goodbye j) w)
        (kick-IsAway env id k a.session (goodbye j) w h)

  Step-IsAway : {w v : World env.Payload} → Step env w v → IsAway id k w → IsAway id k v
  unfolding command develop tick ask rename_farm autosave detach begin_shutdown shutdown_one
  Step-IsAway (connects w r a b) h = attach-IsAway env id k r w h
  Step-IsAway (calls w now j n c a) h =
      either-IsAway env id k (needs_key c && is_guest_key j) _
        (ask env j n (intent env now (apply env now c)) w) h
        (ask_actor-IsAway j n (intent env now (apply env now c)) (w.actors j) w refl
          (intent_session env now (apply env now c)) h)
  Step-IsAway (ticks w now j n a) h =
      ask_actor-IsAway j n (tick_reply env now) (w.actors j) w refl (tick_session env now) h
  Step-IsAway (develops w now j n action value a) h =
      either-IsAway env id k (not env.dev_mode) _
        (ask env j n (intent env now (apply_dev env now action value)) w) h
        (ask_actor-IsAway j n (intent env now (apply_dev env now action value)) (w.actors j) w refl
          (intent_session env now (apply_dev env now action value)) h)
  Step-IsAway (relabels w now works raw j n a) h =
      either-IsAway env id k (is_guest_key j) _ (rename_actor env now works raw j n (w.actors j) w)
        h (rename_actor-IsAway now works raw j n (w.actors j) w refl h)
  Step-IsAway (saves_itself w works j) h = store_actor-IsAway works j (w.actors j) w refl h
  Step-IsAway (leaves w first last j n) h = detach_from-IsAway first last j n (w.actors j) w refl h
  Step-IsAway (closes w) h = h
  Step-IsAway (stops w works j) h = shut_actor-IsAway works j (w.actors j) w h

  pub Later-IsAway : {w v : World env.Payload} → Later env w v → IsAway id k w → IsAway id k v
  Later-IsAway now_already h = h
  Later-IsAway (and_later l s) h = Step-IsAway s (Later-IsAway l h)
