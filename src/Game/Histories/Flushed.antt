-- ===== src/Game/Histories/Flushed.antt =====
-- No progress is lost when a session of internal/game ends and the store works.
use ssh_farm.Prelude.{
  leb, ℕ, ◌≡◌, refl, ap, sym, subst, ◌∙◌, Bool, true, false, not, if◌then◌else◌, Option, none, some,
  inl, inr,
}
use ssh_farm.Sim.State.{State, decode_state}
use ssh_farm.Store.{SaveKey, Saves, SaveRow, persist_save}
use ssh_farm.Store.Keys.{update_key-same}
use ssh_farm.Game.Actors.{write_row, Env, Actor, is_guest_key, persist_payload, persist, owns}
use ssh_farm.Game.Actors.Keeping.{persist-IsFlushed}
use ssh_farm.Game.Manager.{World, set_actor, load_state}
use ssh_farm.Game.Departures.{stop_actor, let_go, detach_actor, detach_from, detach, store_actor}
use ssh_farm.Game.Histories.{Reached}
use ssh_farm.Game.Histories.Stored.{IsBacked, IsHeld}
use ssh_farm.Game.Histories.Stored.Attaching.{load-marshal}
use ssh_farm.Game.Histories.Stored.Steps.{Reached-IsStored}

-- The key's row loads to what the state decodes to.
abbrev pub IsSafe : (env : Env) → State → Option (SaveRow env.Payload) → Type 0
IsSafe env s none = ⊥
IsSafe env s (some row) = load_state env row.state ≡ decode_state s

module _ (env : Env)
    (codec : (s : State) (p : env.Payload) → env.marshal s ≡ some p → env.unmarshal p ≡ some s)
    (total : (s : State) → (p : env.Payload) × (env.marshal s ≡ some p)) where
  -- A flush that works makes the row safe.
  payload-IsSafe :
      (a : Actor) (p : env.Payload) (saves : Saves env.Payload) (o : Option (SaveRow env.Payload))
      → env.marshal a.state ≡ some p
      → saves a.key ≡ o
      → IsBacked env a o
      → IsSafe env a.state ((persist_payload a (some p) saves).1 a.key)
  unfolding persist_payload write_row persist_save
  payload-IsSafe a p saves none e here held = absurd held
  payload-IsSafe a p saves (some row) e here held =
      rw (persist_payload, here, update_key-same a.key (some (write_row a.state p row)) saves)
        (load-marshal env codec a.state p e)

  -- An actor that is not dirty is safe as it is.
  clean-IsSafe :
      (a : Actor) (o : Option (SaveRow env.Payload))
      → a.dirty ≡ false
      → IsBacked env a o
      → IsSafe env a.state o
  clean-IsSafe a none d held = absurd held
  clean-IsSafe a (some row) d (inl e) = cc (d, e)
  clean-IsSafe a (some row) d (inr e) = e

  persist-IsSafe :
      (a : Actor) (saves : Saves env.Payload)
      → is_guest_key a.key ≡ false
      → IsBacked env a (saves a.key)
      → IsSafe env a.state ((persist env true a saves).1 a.key)
  unfolding persist
  persist-IsSafe a saves g held = rw (g, if◌then◌else◌) (dirty_cases a.dirty refl)
    where
      dirty_cases :
          (d : Bool)
          → a.dirty ≡ d
          → IsSafe env a.state (
              (if not d then (a, saves) else persist_payload a (env.marshal a.state) saves).1 a.key)
      dirty_cases false e = clean-IsSafe a (saves a.key) e held
      dirty_cases true e =
          let (p, m) = total a.state in rw (m) (payload-IsSafe a p saves (saves a.key) m refl held)

  -- Whether a flush works or not, the actor it leaves is backed and has the same state.
  IsCarried : Actor → Actor × Saves env.Payload → Type 0
  IsCarried a r = (r.0.key ≡ a.key) × (r.0.state ≡ a.state) × IsBacked env r.0 (r.1 a.key)

  persist-IsCarried :
      (works : Bool) (a : Actor) (saves : Saves env.Payload)
      → IsBacked env a (saves a.key)
      → IsCarried a (persist env works a saves)
  unfolding IsCarried write_row persist_save
  persist-IsCarried works a saves held = elim (persist-IsFlushed env works a saves) [
    | inl e ↦ subst (IsCarried a) (sym e) (refl, refl, held)
    | inr (p, row, g, here, m, e) ↦ subst (IsCarried a) (sym e) (
      refl,
      refl,
      subst (IsBacked env (record a { dirty = false }))
          (sym (update_key-same a.key (some (write_row a.state p row)) saves))
          (inr (load-marshal env codec a.state p m)),
    )
  ]

  -- The registry has no actor of the key, whose row loads to what the state decodes to.
  abbrev pub IsSafelyGone : SaveKey → State → World env.Payload → Type 0
  IsSafelyGone k s w = (w.actors k ≡ none) × IsSafe env s (w.saves k)

  stop_actor-IsSafelyGone :
      (k : SaveKey) (a : Actor) (w : World env.Payload)
      → a.key ≡ k
      → is_guest_key k ≡ false
      → IsBacked env a (w.saves k)
      → IsSafelyGone k a.state (stop_actor env true k a w)
  unfolding stop_actor set_actor
  stop_actor-IsSafelyGone k a w e g held = (
    update_key-same k none w.actors,
    subst (λ x. IsSafe env a.state ((persist env true a w.saves).1 x)) e
        (persist-IsSafe a w.saves (ap is_guest_key e ∙ g)
          (subst (λ x. IsBacked env a (w.saves x)) (sym e) held)),
  )

  -- The actor of a reachable server, of a key that is no guest's, is backed.
  reached-IsBacked :
      (k : SaveKey) (a : Actor) (w : World env.Payload)
      → Reached env w
      → w.actors k ≡ some a
      → is_guest_key k ≡ false
      → (a.key ≡ k) × IsBacked env a (w.saves k)
  reached-IsBacked k a w r here g =
      from (subst (IsHeld env k (w.saves k)) here (Reached-IsStored env codec r k).1)
    where
      from : IsHeld env k (w.saves k) (some a) → (a.key ≡ k) × IsBacked env a (w.saves k)
      from (e, inl h) = cc (g, h)
      from (e, inr h) = (e, h)

  -- On a reachable server, where the store can encode and decode every state: a session that
  -- disconnects from its save, which is no guest's, leaves no actor behind, and if the final flush
  -- works, whatever became of the first, the row loads to what the actor's state decodes to.
  pub detach_keeps :
      (first : Bool) (k : SaveKey) (id : ℕ) (a : Actor) (w : World env.Payload)
      → Reached env w
      → w.actors k ≡ some a
      → is_guest_key k ≡ false
      → owns a id ≡ true
      → IsSafelyGone k a.state (detach env first true k id w)
  unfolding detach detach_from detach_actor let_go IsCarried
  detach_keeps first k id a w reached here g own =
      subst (λ o. IsSafelyGone k a.state (detach_from env first true k id o w)) (sym here)
        (subst
          (λ b. IsSafelyGone k a.state (
            if b
            then let_go env true k r w
            else if leb a.since id
            then store_actor env first k (some a) w
            else w))
          (sym own) gone)
    where
      b : Actor
      b = record a { session = none }

      r : Actor × Saves env.Payload
      r = persist env first b w.saves

      backed : (a.key ≡ k) × IsBacked env a (w.saves k)
      backed = reached-IsBacked k a w reached here g

      released : (x : Option (SaveRow env.Payload)) → IsBacked env a x → IsBacked env b x
      released none h = h
      released (some row) h = h

      carried : IsCarried b r
      carried = persist-IsCarried first b w.saves (
          released (w.saves a.key)
            (subst (λ x. IsBacked env a (w.saves x)) (sym backed.0) backed.1))

      gone : IsSafelyGone k a.state (let_go env true k r w)
      gone =
          let (key, state, held) = carried in
          subst (λ s. IsSafelyGone k s (stop_actor env true k r.0 (record w { saves = r.1 }))) state
            (stop_actor-IsSafelyGone k r.0 (record w { saves = r.1 }) (key ∙ backed.0) g
              (subst (λ x. IsBacked env r.0 (r.1 x)) backed.0 held))
