-- ===== src/Game/Histories/Stored/Attaching.antt =====
-- A connection to a server of internal/game keeps the store and the actors in agreement.
use ssh_farm.Prelude.{
  ℕ, ℤ, suc, ◌≡◌, refl, sym, subst, true, false, not, [], ◌∷◌, length, Option, none, some, inl,
  arith,
}
use ssh_farm.Moderation.Text.{Text, is_empty}
use ssh_farm.Identity.{
  SessionIdentity, Kind, invalid, keyed, guest, validate_kind, validate_identity, is_guest_kind,
  is_guest, valid_guest, valid_guest_id,
}
use ssh_farm.Sim.State.{State, new, decode_state}
use ssh_farm.Store.{SaveKey, SaveRow, update_key, persist_save, insert_save}
use ssh_farm.Store.Keys.{update_key-same, update_key-All}
use ssh_farm.Game.Actors.{Env, Actor, new_actor, is_guest_key, write_row}
use ssh_farm.Game.Manager.{
  fresh_save, World, Connection, attach_guest, join, load_state, open_row, create_row,
  load_or_create, attach_to, attach_keyed, attach, guest_key, keyed_key,
}
use ssh_farm.Game.Histories.{IsTimelyActor, IsTimelyState, IsTimelyRow}
use ssh_farm.Game.Histories.Stored.{IsTabled, IsHeld, IsStored, set_actor-IsStored}
use ssh_farm.Game.Histories.Stored.Joining.{
  either-IsStored, IsStored-cases, join_held-IsStored, open_row-IsStored, decode_new, new-IsTimely,
}

-- json.Unmarshal gives back what json.Marshal was given.
module _ (env : Env)
    (codec : (s : State) (p : env.Payload)
      → env.marshal s ≡ some p
      → env.unmarshal p ≡ some s) where
  pub write_row-IsTabled :
      (s : State) (p : env.Payload) (row : SaveRow env.Payload)
      → env.marshal s ≡ some p
      → IsTabled env (some (write_row s p row))
  unfolding write_row persist_save
  write_row-IsTabled s p row e = (s, codec s p e, (refl, refl, refl, refl, refl, refl, refl, refl))

  created-IsTabled :
      (seed : ℕ) (now : ℤ) (p : env.Payload)
      → env.marshal (new env.content seed now) ≡ some p
      → IsTabled env (some (insert_save now (fresh_save (new env.content seed now) p)))
  unfolding insert_save fresh_save new
  created-IsTabled seed now p e = (
    new env.content seed now,
    codec (new env.content seed now) p e,
    (refl, refl, refl, refl, refl, refl, refl, refl),
  )

  pub load-marshal :
      (s : State) (p : env.Payload) → env.marshal s ≡ some p → load_state env p ≡ decode_state s
  unfolding load_state
  load-marshal s p e = rw (load_state, codec s p e) refl

  create_row-IsStored :
      (r : Connection) (o : Option env.Payload) (w : World env.Payload)
      → env.marshal (new env.content r.seed r.now) ≡ o
      → w.actors (keyed_key r.identity) ≡ none
      → IsStored env w
      → IsStored env (create_row env r o w).1
  unfolding create_row insert_save fresh_save
  create_row-IsStored r none w e free all = all
  create_row-IsStored r (some p) w e free all = either-IsStored env (not r.writable) _ _ all (
      either-IsStored env (not r.rereads) _ (open_row env r true row v) stored
        (open_row-IsStored env r true row v timely (update_key-same k (some row) w.saves) stored))
    where
      k : SaveKey
      k = keyed_key r.identity

      s : State
      s = new env.content r.seed r.now

      row : SaveRow env.Payload
      row = insert_save r.now (fresh_save s p)

      v : World env.Payload
      v = record w { saves = update_key k (some row) w.saves }

      timely : IsTimelyState r.now (load_state env p)
      timely =
          rw (load-marshal s p e, decode_new env env.content r.seed r.now)
            (new-IsTimely env env.content r.seed r.now)

      -- The actors are as they were; only this key, which has none, has another row.
      stored : IsStored env v
      stored j = (
        update_key-All (λ i x. IsTabled env x) k (some row) w.saves
            (created-IsTabled r.seed r.now p e) (λ i. (all i).0) j,
        update_key-All (λ i x. IsHeld env i x (w.actors i)) k (some row) w.saves
            (subst (IsHeld env k (some row)) (sym free) tt) (λ i. (all i).1) j,
      )

  load_or_create-IsStored :
      (r : Connection) (o : Option (SaveRow env.Payload)) (w : World env.Payload)
      → w.saves (keyed_key r.identity) ≡ o
      → IsTimelyRow env r.now o
      → w.actors (keyed_key r.identity) ≡ none
      → IsStored env w
      → IsStored env (load_or_create env r o w).1
  unfolding load_or_create
  load_or_create-IsStored r none w e timely free all =
      create_row-IsStored r (env.marshal (new env.content r.seed r.now)) w refl free all
  load_or_create-IsStored r (some row) w e timely free all =
      open_row-IsStored env r false row w timely e all

  attach_to-IsStored :
      (r : Connection) (o : Option Actor) (w : World env.Payload)
      → w.actors (keyed_key r.identity) ≡ o
      → IsTimelyActor r.now o
      → IsTimelyRow env r.now (w.saves (keyed_key r.identity))
      → IsStored env w
      → IsStored env (attach_to env r o w).1
  unfolding attach_to join
  attach_to-IsStored r none w e now_a now_r all =
      either-IsStored env (not r.readable) _
        (load_or_create env r (w.saves (keyed_key r.identity)) w) all
        (load_or_create-IsStored r (w.saves (keyed_key r.identity)) w refl now_r e all)
  attach_to-IsStored r (some a) w e now_a now_r all =
      join_held-IsStored env r.now false k a a.session w now_a all
        (subst (IsHeld env k (w.saves k)) e (all k).1)
    where
      k : SaveKey
      k = keyed_key r.identity

  guest_actor-IsStored :
      (r : Connection) (o : Option Actor) (w : World env.Payload)
      → is_guest_key (guest_key r.identity) ≡ true
      → IsStored env w
      → IsStored env (attach_guest env r o w).1
  unfolding attach_guest new_actor
  guest_actor-IsStored r (some a) w g all = all
  guest_actor-IsStored r none w g all =
      set_actor-IsStored env (some _) (guest_key r.identity) (record w { next_id = suc w.next_id })
        all (refl, inl g)

  guest_id_full :
      (i : SessionIdentity) (kind : Kind)
      → validate_kind env.lower kind i ≡ true
      → is_guest_kind kind ≡ true
      → is_guest_key (guest_key i) ≡ true
  unfolding validate_kind is_guest_kind guest_key is_guest_key valid_guest valid_guest_id is_empty
  guest_id_full i invalid v g = cc
  guest_id_full i keyed v g = cc
  guest_id_full i guest v g = not_empty i.guest_id (ground (arith, v))
    where
      not_empty : (t : Text) → length t ≡ 32 → not (is_empty t) ≡ true
      not_empty [] h = absurd (omega (arith, h))
      not_empty (c ∷ t) h = refl

  pub attach-IsStored :
      (r : Connection) (w : World env.Payload)
      → IsTimelyActor r.now (w.actors (keyed_key r.identity))
      → IsTimelyRow env r.now (w.saves (keyed_key r.identity))
      → IsStored env w
      → IsStored env (attach env r w).1
  unfolding attach attach_keyed validate_identity is_guest
  attach-IsStored r w now_a now_r all = either-IsStored env w.closing _ _ all (
      IsStored-cases env (not (validate_identity env.lower r.identity)) _ _ (λ e. all)
        (λ v.
          IsStored-cases env (is_guest r.identity) _ _
            (λ g.
              either-IsStored env (not (is_empty r.public_key)) _ _ all
                (guest_actor-IsStored r (w.actors (guest_key r.identity)) w (full v g) all))
            (λ g.
              either-IsStored env (not r.touched) _ _ all
                (attach_to-IsStored r (w.actors (keyed_key r.identity)) w refl now_a now_r all))))
    where
      full :
          not (validate_identity env.lower r.identity) ≡ false
          → is_guest r.identity ≡ true
          → is_guest_key (guest_key r.identity) ≡ true
      full v g = guest_id_full r.identity r.identity.kind (ground (arith, v)) g
