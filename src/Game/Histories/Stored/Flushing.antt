-- ===== src/Game/Histories/Stored/Flushing.antt =====
-- Flushes, disconnections and the shutdown of internal/game keep the store and the actors in
-- agreement.
use ssh_farm.Prelude.{
  leb, ℕ, ◌≡◌, refl, sym, subst, Bool, true, false, if◌then◌else◌, Option, none, some, Bool-cases,
  inl, inr,
}
use ssh_farm.Sim.State.{State}
use ssh_farm.Store.{SaveKey, Saves, SaveRow, update_key, persist_save, key_eq}
use ssh_farm.Store.Keys.{update_key-same}
use ssh_farm.Game.Actors.{write_row, Env, Actor, persist, owns}
use ssh_farm.Game.Actors.Keeping.{IsFlushed, persist-IsFlushed}
use ssh_farm.Game.Manager.{World, set_actor, kick}
use ssh_farm.Game.Departures.{store_actor, stop_actor, let_go, detach_actor, goodbye, shut_actor}
use ssh_farm.Game.Histories.Stored.{IsHeld, IsStored, both_changed, set_actor-IsStored, kept-IsHeld}
use ssh_farm.Game.Histories.Stored.Attaching.{write_row-IsTabled, load-marshal}

-- json.Unmarshal gives back what json.Marshal was given.
module _ (env : Env)
    (codec : (s : State) (p : env.Payload)
      → env.marshal s ≡ some p
      → env.unmarshal p ≡ some s) where
  -- A flush of the actor of a key, which then stays in the registry or leaves it, as `f` says.
  flushed-IsStored :
      (k : SaveKey) (a : Actor) (r : Actor × Saves env.Payload) (f : Actor → Option Actor)
      → (w : World env.Payload)
      → ((b : Actor) (x : Option (SaveRow env.Payload))
          → IsHeld env k x (some b)
          → IsHeld env k x (f b))
      → IsFlushed env a w.saves r
      → IsHeld env k (w.saves k) (some a)
      → IsStored env w
      → IsStored env (set_actor (f r.0) k (record w { saves = r.1 }))
  unfolding set_actor write_row persist_save
  flushed-IsStored k a r f w keep (inl e) held all =
      subst (λ x. IsStored env (set_actor (f x.0) k (record w { saves = x.1 }))) (sym e)
        (set_actor-IsStored env (f a) k w all (keep a (w.saves k) held))
  flushed-IsStored k a r f w keep (inr (p, row, g, here, m, e)) (key, held) all =
      subst (λ x. IsStored env (set_actor (f x.0) k (record w { saves = x.1 }))) (sym e)
        (subst
          (λ x.
            IsStored env
              (set_actor (f clean) k (record w { saves = update_key x (some next) w.saves })))
          (sym key)
          (both_changed env w k (some next) (f clean) all
            (write_row-IsTabled env codec a.state p row m)
            (keep clean (some next) (key, inr (inr (load-marshal env codec a.state p m))))))
    where
      clean : Actor
      clean = record a { dirty = false }

      next : SaveRow env.Payload
      next = write_row a.state p row

  pub store_actor-IsStored :
      (works : Bool) (k : SaveKey) (o : Option Actor) (w : World env.Payload)
      → IsHeld env k (w.saves k) o
      → IsStored env w
      → IsStored env (store_actor env works k o w)
  unfolding store_actor
  store_actor-IsStored works k none w held all = all
  store_actor-IsStored works k (some a) w held all =
      flushed-IsStored k a (persist env works a w.saves) (λ b. some b) w (λ b x h. h)
        (persist-IsFlushed env works a w.saves) held all

  stop_actor-IsStored :
      (works : Bool) (k : SaveKey) (a : Actor) (w : World env.Payload)
      → IsHeld env k (w.saves k) (some a)
      → IsStored env w
      → IsStored env (stop_actor env works k a w)
  unfolding stop_actor
  stop_actor-IsStored works k a w held all =
      flushed-IsStored k a (persist env works a w.saves) (λ b. none) w (λ b x h. tt)
        (persist-IsFlushed env works a w.saves) held all

  -- Releasing the session of an actor changes nothing of its row.
  released-IsHeld :
      (k : SaveKey) (x : Option (SaveRow env.Payload)) (a : Actor)
      → IsHeld env k x (some a)
      → IsHeld env k x (some (record a { session = none }))
  released-IsHeld k x a h =
      kept-IsHeld env k x a (record a { session = none }) refl (inl refl) (inl refl) h

  pub shut_actor-IsStored :
      (works : Bool) (k : SaveKey) (o : Option Actor) (w : World env.Payload)
      → IsHeld env k (w.saves k) o
      → IsStored env w
      → IsStored env (shut_actor env works k o w)
  unfolding shut_actor kick
  shut_actor-IsStored works k none w held all = all
  shut_actor-IsStored works k (some a) w held all = kicked a.session
    where
      b : Actor
      b = record a { session = none }

      kicked : (o : Option ℕ) → IsStored env (stop_actor env works k b (kick o (goodbye k) w))
      kicked none =
          stop_actor-IsStored works k b (kick none (goodbye k) w)
            (released-IsHeld k (w.saves k) a held) all
      kicked (some id) =
          stop_actor-IsStored works k b (kick (some id) (goodbye k) w)
            (released-IsHeld k (w.saves k) a held) all

  -- An actor that has left the registry, whatever was written for its key before.
  overwritten :
      (k : SaveKey) (o : Option Actor) (w : World env.Payload)
      → IsStored env (set_actor none k (set_actor o k w))
      → IsStored env (set_actor none k w)
  unfolding set_actor update_key
  overwritten k o w all j =
      ((all j).0, subst (λ x. IsHeld env j (w.saves j) x) (twice (key_eq k j)) (all j).1)
    where
      twice :
          (b : Bool)
          → ◌≡◌ {A = Option Actor}
              (if b then none else if b then o else w.actors j)
              (if b then none else w.actors j)
      twice true = refl
      twice false = refl

  pub detach_actor-IsStored :
      (first last : Bool) (k : SaveKey) (id : ℕ) (a : Actor) (w : World env.Payload)
      → IsHeld env k (w.saves k) (some a)
      → IsStored env w
      → IsStored env (detach_actor env first last k id a w)
  unfolding detach_actor let_go stop_actor set_actor
  detach_actor-IsStored first last k id a w held all = elim (Bool-cases (owns a id)) [
    | inl e ↦
        rw (e, if◌then◌else◌)
          (overwritten k (some r.0) (record w { saves = (persist env last r.0 r.1).1 }) stopped)
    | inr e ↦ elim (Bool-cases (leb a.since id)) [
      | inl d ↦
          rw (e, if◌then◌else◌)
            (rw (d, if◌then◌else◌) (store_actor-IsStored first k (some a) w held all))
      | inr d ↦ rw (e, if◌then◌else◌) (rw (d, if◌then◌else◌) all)
    ]
  ]
    where
      b : Actor
      b = record a { session = none }

      r : Actor × Saves env.Payload
      r = persist env first b w.saves

      flushed : IsStored env (set_actor (some r.0) k (record w { saves = r.1 }))
      flushed =
          flushed-IsStored k b r (λ x. some x) w (λ x y h. h)
            (persist-IsFlushed env first b w.saves) (released-IsHeld k (w.saves k) a held) all

      there : IsHeld env k (r.1 k) (some r.0)
      there =
          subst (λ x. IsHeld env k (r.1 k) x) (update_key-same k (some r.0) w.actors) (flushed k).1

      stopped : IsStored env (
          set_actor none k
            (set_actor (some r.0) k (record w { saves = (persist env last r.0 r.1).1 })))
      stopped =
          stop_actor-IsStored last k r.0 (set_actor (some r.0) k (record w { saves = r.1 })) there
            flushed
