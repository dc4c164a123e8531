-- ===== src/Game/Manager.antt =====
-- internal/game/manager.go: the registry of active saves. Each function is what happens under the
-- manager's mutex, or one message to an actor.
pub mod Owners
use ssh_farm.Prelude.{
  ℕ, suc, ℤ, Bool, true, false, not, ◌&&◌, if◌then◌else◌, List, [], ◌∷◌, ◌++◌, Option, none, some,
  String, ◌==◌, ◌⊎◌, inl, inr,
}
use ssh_farm.Moderation.Text.{Text, is_empty}
use ssh_farm.Identity.{SessionIdentity, validate_identity, is_guest}
use ssh_farm.Sim.State.{State, new, decode_state}
use ssh_farm.Sim.Advance.Report.{Events, no_events}
use ssh_farm.Store.{
  insert_save, FreshSave, SaveKey, Saves, SaveRow, update_key, persist_save, no_renames, RenameGate,
  RenameRow, gate_rename,
}
use ssh_farm.Game.Actors.{
  Env, Actor, new_actor, is_guest_key, persist, Snapshot, Reply, failed, reply_with, catch_up,
  intent, owns, GameError, session_closed, guest_requires_key, dev_mode_disabled,
}
use ssh_farm.Game.Commands.{Command, needs_key, apply, apply_rename}

-- The manager with the store behind it, and the notices that sessions were kicked with. A session is
-- its id, and the key of its actor; one whose actor has stopped finds none, or one of another session.
pub record World (P : Type 0) : Type 0 where
  pub saves : Saves P
  pub actors : SaveKey → Option Actor
  pub closing : Bool
  pub next_id : ℕ
  pub notices : List (ℕ × String)

unfoldable pub new_world : (P : Type 0) → World P
new_world P = record {
  saves = λ k. none;
  actors = λ k. none;
  closing = false;
  next_id = 0;
  notices = [];
}

unfoldable pub set_actor : {P : Type 0} → Option Actor → SaveKey → World P → World P
set_actor o k w = record w { actors = update_key k o w.actors }

-- deliverKick of the session that holds the actor, if any
unfoldable pub kick : {P : Type 0} → Option ℕ → String → World P → World P
kick none reason w = w
kick (some id) reason w = record w { notices = w.notices ++ (id, reason) ∷ [] }

abbrev pub takeover_notice : String
takeover_notice = "Your farm was opened from another session, so this one is signing off."

abbrev pub shutdown_notice : String
shutdown_notice =
    "The farm is closing for a moment of maintenance. Your progress is saved — come right back!"

abbrev pub guest_shutdown_notice : String
guest_shutdown_notice =
    "Maintenance — your guest farm is ending. Reconnect with an SSH key to save future progress."

pub data AttachError : Type 0 where
  shutting_down bad_identity guest_with_key save_busy store_failed undecodable : AttachError

-- A connection: who connects, when, with what randomSeed draws, and which calls of the store work.
pub record Connection : Type 0 where
  pub identity : SessionIdentity
  pub public_key : Text
  pub now : ℤ
  pub seed : ℕ
  pub touched : Bool
  pub readable : Bool
  pub writable : Bool
  pub rereads : Bool

pub record Attached : Type 0 where
  pub id : ℕ
  pub key : SaveKey
  pub away : Events
  pub created : Bool

abbrev pub Attachment : Type 0 → Type 0
Attachment P = (AttachError ⊎ Attached) × World P

unfoldable pub guest_key : SessionIdentity → SaveKey
guest_key i = record { fingerprint = []; slot = []; guest_id = i.guest_id }

unfoldable pub keyed_key : SessionIdentity → SaveKey
keyed_key i = record { fingerprint = i.fingerprint; slot = i.slot; guest_id = [] }

unfoldable pub attach_guest :
    (env : Env) → Connection → Option Actor → World env.Payload → Attachment env.Payload
attach_guest env r (some a) w = (inl save_busy, w)
attach_guest env r none w =
    let k = guest_key r.identity in
    let id = suc w.next_id in
    let a = new_actor id k (new env.content r.seed r.now) in
    (
      inr (record { id = id; key = k; away = no_events; created = true }),
      set_actor (some (record a { session = some id })) k (record w { next_id = id }),
    )

-- The closure of Attach: the session takes the actor over, and the save catches up.
unfoldable pub take_over :
    (env : Env) → ℤ → Bool → SaveKey → Actor → World env.Payload → Attachment env.Payload
take_over env now created k a w =
    let id = suc w.next_id in
    let (b, away) = catch_up env now (record a { session = some id }) in
    (
      inr (record { id = id; key = k; away = away; created = created }),
      set_actor (some b) k (kick a.session takeover_notice (record w { next_id = id })),
    )

-- What the closure does for the session that holds the actor; the new one has its id by then.
unfoldable pub join_held :
    (env : Env) → ℤ → Bool → SaveKey → Actor → Option ℕ → World env.Payload → Attachment env.Payload
join_held env now created k a none w = take_over env now created k a w
join_held env now created k a (some owner) w =
    if env.refuses
    then (inl save_busy, record w { next_id = suc w.next_id })
    else take_over env now created k a w

unfoldable pub join :
    (env : Env) → ℤ → Bool → SaveKey → Actor → World env.Payload → Attachment env.Payload
join env now created k a w = join_held env now created k a a.session w

-- DecodeState
unfoldable pub load_state : (env : Env) → env.Payload → Option State
load_state env p = elim (env.unmarshal p) [ none ↦ none | some decoded ↦ decode_state decoded ]

-- An actor for the state that was loaded, in the registry without a session yet.
unfoldable pub open_state :
    (env : Env) → Connection → Bool → Option State → World env.Payload → Attachment env.Payload
open_state env r created none w = (inl undecodable, w)
open_state env r created (some s) w =
    let k = keyed_key r.identity in
    let a = new_actor (suc w.next_id) k s in join env r.now created k a (set_actor (some a) k w)

unfoldable pub open_row :
    (env : Env)
    → Connection
    → Bool
    → SaveRow env.Payload
    → World env.Payload
    → Attachment env.Payload
open_row env r created row w = open_state env r created (load_state env row.state) w

-- The closure that LoadOrCreateSave calls for a key without a row.
unfoldable pub fresh_save : {P : Type 0} → State → P → FreshSave P
fresh_save s p = record {
  state = p;
  version = s.version;
  coins = s.coins;
  lifetime_earnings = s.lifetime_earnings;
  rebirths = s.rebirths;
  farm_name = s.farm_name;
  contracts_completed = s.contracts_completed;
  name_style = s.leaderboard_name_style;
}

-- A row for a key that has none, if the new state is encoded and written, and the row is read again.
unfoldable pub create_row :
    (env : Env) → Connection → Option env.Payload → World env.Payload → Attachment env.Payload
create_row env r none w = (inl store_failed, w)
create_row env r (some p) w =
    let row = insert_save r.now (fresh_save (new env.content r.seed r.now) p) in
    let v = record w { saves = update_key (keyed_key r.identity) (some row) w.saves } in
    if not r.writable
    then (inl store_failed, w)
    else if not r.rereads
    then (inl store_failed, v)
    else open_row env r true row v

-- LoadOrCreateSave, given what it finds, and the actor for its row.
unfoldable pub load_or_create :
    (env : Env)
    → Connection
    → Option (SaveRow env.Payload)
    → World env.Payload
    → Attachment env.Payload
load_or_create env r none w = create_row env r (env.marshal (new env.content r.seed r.now)) w
load_or_create env r (some row) w = open_row env r false row w

unfoldable pub attach_to :
    (env : Env) → Connection → Option Actor → World env.Payload → Attachment env.Payload
attach_to env r none w =
    if not r.readable
    then (inl store_failed, w)
    else load_or_create env r (w.saves (keyed_key r.identity)) w
attach_to env r (some a) w = join env r.now false (keyed_key r.identity) a w

unfoldable pub attach_keyed : (env : Env) → Connection → World env.Payload → Attachment env.Payload
attach_keyed env r w =
    if not r.touched
    then (inl store_failed, w)
    else attach_to env r (w.actors (keyed_key r.identity)) w

unfoldable pub attach : (env : Env) → Connection → World env.Payload → Attachment env.Payload
attach env r w =
    if w.closing
    then (inl shutting_down, w)
    else if not (validate_identity env.lower r.identity)
    then (inl bad_identity, w)
    else if is_guest r.identity
    then if not (is_empty r.public_key)
      then (inl guest_with_key, w)
      else attach_guest env r (w.actors (guest_key r.identity)) w
    else attach_keyed env r w
