-- ===== src/Game/Manager/Owners.antt =====
-- Who holds a save of internal/game/manager.go after a connection.
use ssh_farm.Prelude.{
  ℕ, suc, ℤ, ◌≡◌, refl, Bool, true, false, not, if◌then◌else◌, Option, none, some, String, inl, inr,
}
use ssh_farm.Moderation.Text.{is_empty}
use ssh_farm.Identity.{validate_identity, is_guest}
use ssh_farm.Sim.State.{State, new}
use ssh_farm.Store.{SaveKey, SaveRow, update_key, insert_save}
use ssh_farm.Store.Keys.{update_key-same}
use ssh_farm.Game.Actors.{Env, Actor, new_actor, catch_up}
use ssh_farm.Game.Manager.{
  fresh_save, World, Connection, Attached, Attachment, set_actor, kick, attach_guest, take_over,
  join_held, join, load_state, open_state, open_row, create_row, load_or_create, attach_to,
  attach_keyed, attach, keyed_key, guest_key, takeover_notice,
}

-- A connection that was accepted holds the actor of its key under a new id.
abbrev pub IsOwner : {P : Type 0} → ℕ → Attached → World P → Type 0
IsOwner n r w =
    (r.id ≡ suc n)
    × (w.next_id ≡ r.id)
    × ((a : Actor) × (w.actors r.key ≡ some a) × (a.session ≡ some r.id))

kick_next :
    {P : Type 0} (o : Option ℕ) (reason : String) (w : World P)
    → (kick o reason w).next_id ≡ w.next_id
unfolding kick
kick_next none reason w = refl
kick_next (some id) reason w = refl

-- A connection was refused, or its session holds the actor.
abbrev pub IsSettled : {P : Type 0} → ℕ → Attachment P → Type 0
IsSettled n (inl e, w) = Unit
IsSettled n (inr r, w) = IsOwner n r w

module _ (env : Env) where
  either-IsSettled :
      (n : ℕ) (b : Bool) (x y : Attachment env.Payload)
      → IsSettled n x
      → IsSettled n y
      → IsSettled n (if b then x else y)
  either-IsSettled n true x y h k = h
  either-IsSettled n false x y h k = k

  take_over-IsSettled :
      (now : ℤ) (created : Bool) (k : SaveKey) (a : Actor) (w : World env.Payload)
      → IsSettled w.next_id (take_over env now created k a w)
  unfolding take_over set_actor catch_up
  take_over-IsSettled now created k a w = (
    refl,
    kick_next a.session takeover_notice (record w { next_id = suc w.next_id }),
    (
      (catch_up env now (record a { session = some (suc w.next_id) })).0,
      update_key-same k (some (catch_up env now (record a { session = some (suc w.next_id) })).0)
          (kick a.session takeover_notice (record w { next_id = suc w.next_id })).actors,
      refl,
    ),
  )

  join_held-IsSettled :
      (now : ℤ) (created : Bool) (k : SaveKey) (a : Actor) (o : Option ℕ) (w : World env.Payload)
      → IsSettled w.next_id (join_held env now created k a o w)
  unfolding join_held
  join_held-IsSettled now created k a none w = take_over-IsSettled now created k a w
  join_held-IsSettled now created k a (some owner) w =
      either-IsSettled w.next_id env.refuses _ (take_over env now created k a w) tt
        (take_over-IsSettled now created k a w)

  open_row-IsSettled :
      (r : Connection) (created : Bool) (row : SaveRow env.Payload) (w : World env.Payload)
      → IsSettled w.next_id (open_row env r created row w)
  unfolding open_row open_state join set_actor
  open_row-IsSettled r created row w = opened (load_state env row.state)
    where
      opened : (o : Option State) → IsSettled w.next_id (open_state env r created o w)
      opened none = tt
      opened (some s) =
          join_held-IsSettled r.now created (keyed_key r.identity)
            (new_actor (suc w.next_id) (keyed_key r.identity) s)
            (new_actor (suc w.next_id) (keyed_key r.identity) s).session
            (set_actor (some (new_actor (suc w.next_id) (keyed_key r.identity) s))
              (keyed_key r.identity) w)

  create_row-IsSettled :
      (r : Connection) (o : Option env.Payload) (w : World env.Payload)
      → IsSettled w.next_id (create_row env r o w)
  unfolding create_row
  create_row-IsSettled r none w = tt
  create_row-IsSettled r (some p) w = either-IsSettled w.next_id (not r.writable) _ _ tt (
      either-IsSettled w.next_id (not r.rereads) _ _ tt (
        open_row-IsSettled r true row
          (record w { saves = update_key (keyed_key r.identity) (some row) w.saves })))
    where
      row : SaveRow env.Payload
      row = insert_save r.now (fresh_save (new env.content r.seed r.now) p)

  attach_to-IsSettled :
      (r : Connection) (o : Option Actor) (w : World env.Payload)
      → IsSettled w.next_id (attach_to env r o w)
  unfolding attach_to load_or_create join
  attach_to-IsSettled r (some a) w =
      join_held-IsSettled r.now false (keyed_key r.identity) a a.session w
  attach_to-IsSettled r none w =
      either-IsSettled w.next_id (not r.readable) _
        (load_or_create env r (w.saves (keyed_key r.identity)) w) tt
        (found (w.saves (keyed_key r.identity)))
    where
      found : (o : Option (SaveRow env.Payload)) → IsSettled w.next_id (load_or_create env r o w)
      found none = create_row-IsSettled r (env.marshal (new env.content r.seed r.now)) w
      found (some row) = open_row-IsSettled r false row w

  attach_guest-IsSettled :
      (r : Connection) (o : Option Actor) (w : World env.Payload)
      → IsSettled w.next_id (attach_guest env r o w)
  unfolding attach_guest set_actor
  attach_guest-IsSettled r (some a) w = tt
  attach_guest-IsSettled r none w =
      (refl, refl, (_, update_key-same (guest_key r.identity) (some _) w.actors, refl))

  pub attach-IsSettled :
      (r : Connection) (w : World env.Payload) → IsSettled w.next_id (attach env r w)
  unfolding attach attach_keyed
  attach-IsSettled r w = either-IsSettled w.next_id w.closing _ _ tt (
      either-IsSettled w.next_id (not (validate_identity env.lower r.identity)) _ _ tt (
        either-IsSettled w.next_id (is_guest r.identity) _ _
          (either-IsSettled w.next_id (not (is_empty r.public_key)) _ _ tt
            (attach_guest-IsSettled r (w.actors (guest_key r.identity)) w))
          (either-IsSettled w.next_id (not r.touched) _ _ tt
            (attach_to-IsSettled r (w.actors (keyed_key r.identity)) w))))
