-- ===== src/Game/Actors.antt =====
-- internal/game/actor.go, with intent and Advance of session.go: the single writer of a save. What an
-- actor does between two messages is one function of its state.
pub mod Marking
pub mod Keeping
use ssh_farm.Prelude.{
  ℕ, ℤ, pos, ltb_ℤ, Bool, true, false, not, if◌then◌else◌, List, [], ◌∷◌, Option, none, some,
  String, ◌==◌,
}
use ssh_farm.Content.{Content}
use ssh_farm.Host.{Host}
use ssh_farm.Moderation.Text.{Text, is_empty}
use ssh_farm.Leaderboard.Ranking.{Moderator}
use ssh_farm.Sim.Outcome.{Error}
use ssh_farm.Sim.State.{State}
use ssh_farm.Sim.Dev.{DevError}
use ssh_farm.Sim.Advance.Clock.{advance}
use ssh_farm.Sim.Advance.Report.{Events, no_events, check_achievements}
use ssh_farm.Store.{SaveKey, Saves, SaveRow, update_key, persist_save}

-- What a server is set up with: the host and the content, json.Marshal of a state and json.Unmarshal
-- of a payload, none for an error, moderation, the conversion of runes to a string, and the settings.
pub record Env : Type 1 where
  pub Payload : Type 0
  pub host : Host
  pub content : Content
  pub marshal : State → Option Payload
  pub unmarshal : Payload → Option State
  pub moderator : Moderator
  pub string : Text → String
  pub refuses : Bool
  pub dev_mode : Bool
  pub lower : ℕ → ℕ

-- An actor, with the id of the session for which it was made: a session with an earlier id belongs to
-- an actor of the key that has stopped.
pub record Actor : Type 0 where
  pub key : SaveKey
  pub state : State
  pub dirty : Bool
  pub session : Option ℕ
  pub since : ℕ

unfoldable pub new_actor : ℕ → SaveKey → State → Actor
new_actor since key state = record {
  key = key;
  state = state;
  dirty = false;
  session = none;
  since = since;
}

unfoldable pub is_guest_key : SaveKey → Bool
is_guest_key k = not (is_empty k.guest_id)

-- The call of PersistSaveWithContracts.
unfoldable pub write_row : {P : Type 0} → State → P → SaveRow P → SaveRow P
write_row s p row =
    persist_save p s.version s.updated_at s.coins s.lifetime_earnings s.rebirths s.farm_name
      s.contracts_completed s.leaderboard_name_style row

unfoldable pub persist_payload : {P : Type 0} → Actor → Option P → Saves P → Actor × Saves P
persist_payload a none saves = (a, saves)
persist_payload a (some p) saves = elim (saves a.key) [
  | none ↦ (a, saves)
  | some row ↦ (record a { dirty = false }, update_key a.key (some (write_row a.state p row)) saves)
]

-- persist, when the store works or not.
unfoldable pub persist : (env : Env) → Bool → Actor → Saves env.Payload → Actor × Saves env.Payload
persist env works a saves =
    if is_guest_key a.key
    then (a, saves)
    else if not a.dirty
    then (a, saves)
    else if works
    then persist_payload a (env.marshal a.state) saves
    else (a, saves)

-- The errors of a session's methods.
pub data GameError : Type 0 where
  session_closed guest_requires_key : GameError
  name_locked name_rate_limited name_denied gate_failed : GameError
  dev_mode_disabled : GameError
  sim_error : Error → GameError
  dev_error : DevError → GameError

pub record Snapshot : Type 0 where
  pub state : State
  pub now : ℤ
  pub contract_completed : String

-- What a method returns: a snapshot and the new achievements, or no snapshot, and an error or none.
pub record Reply : Type 0 where
  pub snapshot : Option Snapshot
  pub newly : List String
  pub error : Option GameError

abbrev pub failed : GameError → Reply
failed e = record { snapshot = none; newly = []; error = some e }

-- ev.Elapsed > 0 makes the actor dirty.
unfoldable pub mark : Events → Bool → Bool
mark ev dirty = if ltb_ℤ (pos 0) ev.elapsed then true else dirty

unfoldable pub catch_up : Env → ℤ → Actor → Actor × Events
catch_up env now a =
    let (s, ev) = advance env.host a.state env.content now in
    (record a { state = s; dirty = mark ev a.dirty }, ev)

unfoldable pub completed_since : ℤ → String → State → String
completed_since done active s = if ltb_ℤ done s.contracts_completed then active else ""

unfoldable pub reply_with : ℤ → State → String → List String → Option GameError → Reply
reply_with now s seal newly error = record {
  snapshot = some (record { state = s; now = now; contract_completed = seal });
  newly = newly;
  error = error;
}

-- The end of an intent, after the action: `before` is the state at its start.
unfoldable pub conclude : Env → ℤ → State → Actor → State × Option GameError → Actor × Reply
conclude env now before a (s, some e) = (
  record a { state = s },
  reply_with now s (completed_since before.contracts_completed before.active_contract s) []
      (some e),
)
conclude env now before a (s, none) =
    let (t, newly) = check_achievements s env.content now in
    (
      record a { state = t; dirty = true },
      reply_with now t (completed_since before.contracts_completed before.active_contract t) newly
          none,
    )

-- The closure of intent, once the session is known to own the actor.
unfoldable pub intent : Env → ℤ → (State → State × Option GameError) → Actor → Actor × Reply
intent env now apply a =
    let (b, ev) = catch_up env now a in conclude env now a.state b (apply b.state)

unfoldable pub owns_id : Option ℕ → ℕ → Bool
owns_id none id = false
owns_id (some owner) id = owner == id

unfoldable pub owns : Actor → ℕ → Bool
owns a id = owns_id a.session id
