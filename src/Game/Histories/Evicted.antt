-- ===== src/Game/Histories/Evicted.antt =====
-- A session of internal/game whose save was opened by another one: it stays without the save.
use ssh_farm.Prelude.{
  ℕ, ◌≤◌, ℤ, ◌≡◌, refl, ap, sym, subst, ◌∙◌, Bool, true, false, not, ◌&&◌, leb, if◌then◌else◌,
  Option, none, some, String, ◌⊎◌, inl, inr, arith,
}
use ssh_farm.Moderation.Text.{Text}
use ssh_farm.Store.{SaveKey}
use ssh_farm.Game.Actors.{
  Env, Actor, Reply, GameError, failed, session_closed, guest_requires_key, dev_mode_disabled,
  is_guest_key, intent,
}
use ssh_farm.Game.Commands.{Command, needs_key, apply, apply_dev}
use ssh_farm.Game.Manager.{World, Connection, Attached, attach}
use ssh_farm.Game.Manager.Owners.{IsOwner, IsSettled, attach-IsSettled}
use ssh_farm.Game.Calls.{
  ask_actor, ask, command, develop, tick_reply, tick, rename_actor, rename_farm,
}
use ssh_farm.Game.Departures.{store_actor, autosave, detach_actor, detach_from, detach}
use ssh_farm.Game.Histories.Away.{NotHeld, IsAway, later_session}
use ssh_farm.Game.Histories.Away.Steps.{Later, Later-IsAway}

-- A method returned an error and no snapshot, and the server is as it was.
abbrev pub IsRefused : {P : Type 0} → World P → Reply × World P → Type 0
IsRefused w r = (e : GameError) × (r ≡ (failed e, w))

-- What a disconnection of a session does that does not hold the save: nothing, or one flush of the
-- actor, as an autosave makes.
abbrev pub IsIdle : (env : Env) → Bool → SaveKey → World env.Payload → World env.Payload → Type 0
IsIdle env works k w v = (v ≡ w) ⊎ (v ≡ autosave env works k w)

IsRefused-if :
    {P : Type 0} (w : World P) (b : Bool) (x y : Reply × World P)
    → IsRefused w x
    → IsRefused w y
    → IsRefused w (if b then x else y)
IsRefused-if w true x y h l = h
IsRefused-if w false x y h l = l

IsIdle-if :
    (env : Env) (works : Bool) (k : SaveKey) (w : World env.Payload) (b : Bool)
    (x y : World env.Payload)
    → IsIdle env works k w x
    → IsIdle env works k w y
    → IsIdle env works k w (if b then x else y)
IsIdle-if env works k w true x y h l = h
IsIdle-if env works k w false x y h l = l

ask_stranger :
    (env : Env) (k : SaveKey) (id : ℕ) (f : Actor → Actor × Reply) (o : Option Actor)
    → (w : World env.Payload) → NotHeld id o
    → IsRefused w (ask_actor env k id f o w)
unfolding ask_actor
ask_stranger env k id f none w h = (session_closed, refl)
ask_stranger env k id f (some a) w h = (session_closed, rw (h, if◌then◌else◌) refl)

rename_stranger :
    (env : Env) (now : ℤ) (works : Bool) (raw : Text) (k : SaveKey) (id : ℕ) (o : Option Actor)
    → (w : World env.Payload) → NotHeld id o
    → IsRefused w (rename_actor env now works raw k id o w)
unfolding rename_actor
rename_stranger env now works raw k id none w h = (session_closed, refl)
rename_stranger env now works raw k id (some a) w h = (session_closed, rw (h, if◌then◌else◌) refl)

detach_stranger :
    (env : Env) (first last : Bool) (k : SaveKey) (id : ℕ) (o : Option Actor)
    (w : World env.Payload)
    → w.actors k ≡ o
    → NotHeld id o
    → IsIdle env first k w (detach_from env first last k id o w)
unfolding detach_from detach_actor autosave
detach_stranger env first last k id none w e h = inl refl
detach_stranger env first last k id (some a) w e h =
    rw (h, if◌then◌else◌)
      (IsIdle-if env first k w (leb a.since id) (store_actor env first k (some a) w) w
        (inr (ap (λ o. store_actor env first k o w) (sym e))) (inl refl))

seated-IsAway :
    {P : Type 0} (n id : ℕ) (att : Attached) (v : World P)
    → IsOwner n att v
    → id ≤ n
    → IsAway id att.key v
seated-IsAway n id att v (fresh, next, (a, here, held)) h = (
  omega (arith, h, next, fresh),
  λ i e.
      subst (λ j. NotHeld id (v.actors j)) (sym e)
        (subst (NotHeld id) (sym here) (later_session a n id (held ∙ ap some fresh) h)),
)

-- A connection that the server accepts gets an id that no session had before, and its session holds
-- the actor of its key. From then on, whatever the sessions of the server do, each on a clock that is
-- timely for its save: every method by which a session with an earlier id acts on that save, ticks,
-- renames it or changes it for tests returns an error and changes nothing, and its disconnection does
-- no more than one flush of the actor that is open then, as an autosave makes.
pub takeover_closes :
    (env : Env) (r : Connection) (w : World env.Payload) (att : Attached) (id : ℕ)
    {v : World env.Payload} (now : ℤ) (c : Command) (action : String) (value : ℤ) (works : Bool)
    (raw : Text) (first last : Bool)
    → (attach env r w).0 ≡ inr att
    → id ≤ w.next_id
    → Later env (attach env r w).1 v
    → IsOwner w.next_id att (attach env r w).1
      × IsRefused v (command env now att.key id c v)
      × IsRefused v (tick env now att.key id v)
      × IsRefused v (rename_farm env now works raw att.key id v)
      × IsRefused v (develop env now att.key id action value v)
      × IsIdle env first att.key v (detach env first last att.key id v)
unfolding command tick rename_farm develop detach ask
takeover_closes env r w att id {v} now c action value works raw first last e h later = (
  owner,
  IsRefused-if v (needs_key c && is_guest_key att.key) _
      (ask env att.key id (intent env now (apply env now c)) v) (guest_requires_key, refl)
      (ask_stranger env att.key id (intent env now (apply env now c)) (v.actors att.key) v gone),
  ask_stranger env att.key id (tick_reply env now) (v.actors att.key) v gone,
  IsRefused-if v (is_guest_key att.key) _
      (rename_actor env now works raw att.key id (v.actors att.key) v) (guest_requires_key, refl)
      (rename_stranger env now works raw att.key id (v.actors att.key) v gone),
  IsRefused-if v (not env.dev_mode) _
      (ask env att.key id (intent env now (apply_dev env now action value)) v)
      (dev_mode_disabled, refl)
      (ask_stranger env att.key id (intent env now (apply_dev env now action value))
        (v.actors att.key) v gone),
  detach_stranger env first last att.key id (v.actors att.key) v refl gone,
)
  where
    owner : IsOwner w.next_id att (attach env r w).1
    owner = subst (λ x. IsSettled w.next_id (x, (attach env r w).1)) e (attach-IsSettled env r w)

    gone : NotHeld id (v.actors att.key)
    gone =
        (Later-IsAway env id att.key later
            (seated-IsAway w.next_id id att (attach env r w).1 owner h)).1
          att.key refl
