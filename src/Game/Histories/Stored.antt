-- ===== src/Game/Histories/Stored.antt =====
-- The store behind internal/game: every row is the columns of its own payload, and every actor that
-- is not marked as changed is what its row loads to.
mod Joining
pub mod Attaching
mod Flushing
pub mod Steps
use ssh_farm.Prelude.{
  ℕ, suc, ℤ, ◌≡◌, refl, ap, sym, subst, ◌∙◌, Bool, true, false, not, ◌&&◌, if◌then◌else◌, List,
  Option, none, some, String, Bool-cases, Option-cases, ◌⊎◌, inl, inr, arith,
}
use ssh_farm.Moderation.Text.{Text, is_empty}
use ssh_farm.Identity.{validate_identity, is_guest}
use ssh_farm.Sim.State.{State, new, decode_state}
use ssh_farm.Sim.Upgrades.{decode_state_lem}
use ssh_farm.Store.{
  SaveKey, Saves, SaveRow, RenameGate, RenameRow, gate_rename, no_renames, update_key, persist_save,
  key_eq,
}
use ssh_farm.Store.Keys.{key_eq→eq, update_key-same, update_key-All}
use ssh_farm.Game.Actors.{
  Env, Actor, Reply, new_actor, is_guest_key, persist, intent, owns, catch_up,
}
use ssh_farm.Game.Actors.Marking.{IsTimely, IsMarked}
use ssh_farm.Game.Actors.Keeping.{
  IsKept, IsFlushed, intent-IsKept, catch_up-IsKept, persist-IsFlushed,
}
use ssh_farm.Game.Commands.{Command, needs_key, apply, apply_rename}
use ssh_farm.Game.Commands.Honest.{apply-IsHonest, apply_rename-IsHonest}
use ssh_farm.Game.Manager.{
  World, Connection, new_world, set_actor, kick, attach_guest, take_over, join, load_state,
  open_row, create_row, load_or_create, attach_keyed, attach, guest_key, keyed_key, takeover_notice,
}
use ssh_farm.Game.Calls.{ask, command, tick_reply, tick, gate_of, rename_owned, rename_farm}
use ssh_farm.Game.Departures.{
  store_actor, autosave, stop_actor, let_go, detach_actor, detach, begin_shutdown, goodbye,
  shut_actor, shutdown_one,
}
use ssh_farm.Game.Histories.{
  IsTimelyActor, IsTimelyState, IsTimelyRow, Step, connects, calls, ticks, relabels, saves_itself,
  leaves, closes, stops, Reached, started, and_then,
}

-- The columns of a row that the leaderboard and the operators read are the numbers and the names of a
-- state.
abbrev pub IsColumns : {P : Type 0} → State → SaveRow P → Type 0
IsColumns s row =
    (row.state_version ≡ s.version)
    × (row.last_active ≡ s.updated_at)
    × (row.coins ≡ s.coins)
    × (row.lifetime_earnings ≡ s.lifetime_earnings)
    × (row.rebirths ≡ s.rebirths)
    × (row.farm_name ≡ s.farm_name)
    × (row.contracts_completed ≡ s.contracts_completed)
    × (row.name_style ≡ s.leaderboard_name_style)

-- The row's columns are those of the state that is its payload.
abbrev pub IsTabled : (env : Env) → Option (SaveRow env.Payload) → Type 0
IsTabled env none = Unit
IsTabled env (some row) = (s : State) × (env.unmarshal row.state ≡ some s) × IsColumns s row

-- The actor is marked as changed, or its row loads to what its state decodes to.
abbrev pub IsBacked : (env : Env) → Actor → Option (SaveRow env.Payload) → Type 0
IsBacked env a none = ⊥
IsBacked env a (some row) = (a.dirty ≡ true) ⊎ (load_state env row.state ≡ decode_state a.state)

abbrev pub IsHeld : (env : Env) → SaveKey → Option (SaveRow env.Payload) → Option Actor → Type 0
IsHeld env k o none = Unit
IsHeld env k o (some a) = (a.key ≡ k) × ((is_guest_key k ≡ true) ⊎ IsBacked env a o)

abbrev pub IsStoredAt : (env : Env) → World env.Payload → SaveKey → Type 0
IsStoredAt env w k = IsTabled env (w.saves k) × IsHeld env k (w.saves k) (w.actors k)

abbrev pub IsStored : (env : Env) → World env.Payload → Type 0
IsStored env w = (k : SaveKey) → IsStoredAt env w k

-- One key changed in both maps.
pub both_changed :
    (env : Env) (w : World env.Payload) (k : SaveKey) (row : Option (SaveRow env.Payload))
    → (o : Option Actor) → IsStored env w
    → IsTabled env row
    → IsHeld env k row o
    → (j : SaveKey)
    → IsTabled env (update_key k row w.saves j)
      × IsHeld env j (update_key k row w.saves j) (update_key k o w.actors j)
unfolding update_key
both_changed env w k row o all tabled held j = elim (Bool-cases (key_eq k j)) [
  | inl e ↦ rw (e, if◌then◌else◌) (tabled, subst (λ x. IsHeld env x row o) (key_eq→eq k j e) held)
  | inr e ↦ rw (e, if◌then◌else◌) (all j)
]

pub set_actor-IsStored :
    (env : Env) (o : Option Actor) (k : SaveKey) (w : World env.Payload)
    → IsStored env w
    → IsHeld env k (w.saves k) o
    → IsStored env (set_actor o k w)
unfolding set_actor
set_actor-IsStored env o k w all held j = (
  (all j).0,
  update_key-All (λ i x. IsHeld env i (w.saves i) x) k o w.actors held (λ i. (all i).1) j,
)

pub kick-IsStored :
    (env : Env) (o : Option ℕ) (reason : String) (w : World env.Payload)
    → IsStored env w
    → IsStored env (kick o reason w)
unfolding kick
kick-IsStored env none reason w all = all
kick-IsStored env (some id) reason w all = all

-- An actor that is kept is backed by the same row.
pub kept-IsHeld :
    (env : Env) (k : SaveKey) (o : Option (SaveRow env.Payload)) (a b : Actor)
    → b.key ≡ a.key
    → (b.state ≡ a.state) ⊎ (b.dirty ≡ true)
    → (b.dirty ≡ a.dirty) ⊎ (b.dirty ≡ true)
    → IsHeld env k o (some a)
    → IsHeld env k o (some b)
kept-IsHeld env k o a b key s d (here, inl g) = (key ∙ here, inl g)
kept-IsHeld env k none a b key s d (here, inr h) = absurd h
kept-IsHeld env k (some row) a b key (inr e) d (here, inr h) = (key ∙ here, inr (inl e))
kept-IsHeld env k (some row) a b key (inl s) (inr e) (here, inr h) = (key ∙ here, inr (inl e))
kept-IsHeld env k (some row) a b key (inl s) (inl d) (here, inr (inl e)) =
    (key ∙ here, inr (inl (d ∙ e)))
kept-IsHeld env k (some row) a b key (inl s) (inl d) (here, inr (inr e)) =
    (key ∙ here, inr (inr (e ∙ ap decode_state (sym s))))
