-- ===== src/Tests/Sessions.antt =====
-- A server with one farm, and runs of internal/game on it.
use ssh_farm.Prelude.{
  ◌≡◌, refl, ap, ◌∙◌, pos, true, false, [], ◌∷◌, none, some, inr, if◌then◌else◌, arith,
}
use ssh_farm.Moderation.Text.{
  Text, is_empty, text_eq, trim_space, trim_left, trim_right, join_right, is_space, between,
}
use ssh_farm.Moderation.Validate.{validate}
use ssh_farm.Moderation.Validate.Names.{IsFarmName}
use ssh_farm.Moderation.Filter.{filter}
use ssh_farm.Moderation.Filter.Safe.{IsDenied}
use ssh_farm.Identity.{
  keyed, validate_identity, validate_kind, valid_keyed, is_guest, is_guest_kind, sanitize_slot,
  slot_runes, is_slot_rune,
}
use ssh_farm.Sim.State.{
  State, new, decode_state, upgrade_state, upgrade_to_2, upgrade_to_3, upgrade_to_4,
  upgrade_scarecrow,
}
use ssh_farm.Sim.Advance.Clock.{advance}
use ssh_farm.Sim.Advance.Report.{no_events}
use ssh_farm.Store.{SaveRow, Saves, insert_save, SaveKey, rename_allowed, update_key, key_eq}
use ssh_farm.Game.Actors.{Env, Actor, is_guest_key, owns, owns_id, catch_up, mark, new_actor}
use ssh_farm.Game.Commands.{plant, apply_rename, name_filtered, do_action, applied}
use ssh_farm.Sim.Actions.{perform}
use ssh_farm.Sim.Campaign.{set_farm_name}
use ssh_farm.Game.Commands.Naming.{rename_moderated}
use ssh_farm.Game.Manager.{
  fresh_save, World, Connection, Attached, new_world, attach, attach_keyed, attach_to,
  load_or_create, create_row, open_row, open_state, load_state, join, join_held, take_over,
  set_actor, kick, keyed_key,
}
use ssh_farm.Game.Calls.{command, develop, tick, rename_farm}
use ssh_farm.Game.Departures.{autosave, detach}
use ssh_farm.Game.Manager.Owners.{IsOwner}
use ssh_farm.Game.Histories.Away.Steps.{now_already, and_later}
use ssh_farm.Game.Histories.Evicted.{IsRefused, IsIdle, takeover_closes}
use ssh_farm.Game.Histories.{Reached, started, and_then, connects, saves_itself}
use ssh_farm.Game.Histories.Stored.{IsStoredAt}
use ssh_farm.Game.Histories.Stored.Steps.{Reached-IsStored}
use ssh_farm.Game.Histories.Flushed.{IsSafelyGone, detach_keeps}
use ssh_farm.Tests.Farm.{july, shipped, farm}
use ssh_farm.Tests.Names.{ascii_lower, sun, sun_input, mud_list, sun_passes}

-- A store that keeps states as they are, and strings that are all the same name.
abbrev server : Env
server = record {
  Payload = State;
  host = july;
  content = shipped;
  marshal = λ s. some s;
  unmarshal = λ s. some s;
  moderator = record {
    filter = filter ascii_lower false mud_list;
    generate = λ fingerprint. fingerprint;
    suffix = λ fingerprint. fingerprint;
  };
  string = λ t. if is_empty t then "" else "SUN 2";
  refuses = false;
  dev_mode = false;
  lower = ascii_lower;
}

abbrev some_key : Text
some_key = 0x6b ∷ []

abbrev main_slot : Text
main_slot = 0x6d ∷ []

abbrev connection : Connection
connection = record {
  identity = record { kind = keyed; guest_id = []; fingerprint = some_key; slot = main_slot };
  public_key = [];
  now = pos 1700000000;
  seed = 7;
  touched = true;
  readable = true;
  writable = true;
  rereads = true;
}

abbrev empty : World State
empty = new_world State

abbrev opened : World State
opened = (attach server connection empty).1

abbrev key : SaveKey
key = record { fingerprint = some_key; slot = main_slot; guest_id = [] }

opened_reached : Reached server opened
unfolding new_world
opened_reached = and_then started (connects empty connection tt tt)

round_trip : (s p : State) → server.marshal s ≡ some p → server.unmarshal p ≡ some s
round_trip s p e = cc

Reached-IsStored_example : IsStoredAt server opened key
Reached-IsStored_example = Reached-IsStored server round_trip opened_reached key

-- The same player connects again.
abbrev again : Attached
again = record { id = 2; key = key; away = no_events; created = false }

accepted : (attach server connection opened).0 ≡ inr again
unfolding attach attach_keyed attach_to load_or_create create_row open_row open_state load_state
    decode_state upgrade_state upgrade_to_2 upgrade_to_3 upgrade_to_4 upgrade_scarecrow new
    fresh_save insert_save join join_held take_over catch_up advance mark set_actor kick new_actor
    update_key key_eq keyed_key validate_identity validate_kind valid_keyed is_guest is_guest_kind
    sanitize_slot slot_runes is_slot_rune is_empty text_eq trim_space trim_left trim_right
    join_right is_space between new_world
accepted = refl

opened_id : opened.next_id ≡ 1
unfolding attach attach_keyed attach_to load_or_create create_row open_row open_state load_state
    decode_state upgrade_state upgrade_to_2 upgrade_to_3 upgrade_to_4 upgrade_scarecrow new
    fresh_save insert_save join join_held take_over catch_up advance mark set_actor kick new_actor
    update_key key_eq keyed_key validate_identity validate_kind valid_keyed is_guest is_guest_kind
    sanitize_slot slot_runes is_slot_rune is_empty text_eq trim_space trim_left trim_right
    join_right is_space between new_world
opened_id = refl

-- The server saves, and then the first session acts, ticks, renames and leaves.
abbrev taken : World State
taken = (attach server connection opened).1

abbrev saved : World State
saved = autosave server true key taken

takeover_closes_example :
    IsOwner opened.next_id again taken
    × IsRefused saved (command server (pos 1700000000) key 1 (plant (pos 0) "turnip") saved)
    × IsRefused saved (tick server (pos 1700000000) key 1 saved)
    × IsRefused saved (rename_farm server (pos 1700000000) true sun_input key 1 saved)
    × IsRefused saved (develop server (pos 1700000000) key 1 "coins" (pos 9) saved)
    × IsIdle server true key saved (detach server true true key 1 saved)
takeover_closes_example =
    takeover_closes server connection opened again 1 (pos 1700000000) (plant (pos 0) "turnip")
      "coins" (pos 9) true sun_input true true accepted (omega (arith, opened_id))
      (and_later now_already (saves_itself taken true key))

abbrev renamed : State
renamed = record farm { farm_name = "SUN 2" }

rename_done : apply_rename server (some rename_allowed) sun_input farm ≡ (renamed, none)
unfolding apply_rename name_filtered do_action applied perform set_farm_name is_empty
rename_done = ap (name_filtered server farm) sun_passes ∙ named
  where
    named : name_filtered server farm (sun, false) ≡ (renamed, none)
    named = refl

blank : server.host.trim_space (server.string []) ≡ ""
unfolding is_empty
blank = refl

rename_moderated_example :
    (some rename_allowed ≡ some rename_allowed)
    × (false ≡ false)
    × ((out : Text) × (validate sun_input ≡ some out)
        × IsFarmName out
        × (¬ (IsDenied ascii_lower mud_list out))
        × (renamed ≡ record farm { farm_name = server.host.trim_space (server.string out) }))
rename_moderated_example =
    rename_moderated server ascii_lower false mud_list (some rename_allowed) sun_input farm renamed
      refl blank rename_done

-- The player leaves, and the store works.
abbrev player : Actor
player = record {
  key = key;
  state = new shipped 7 (pos 1700000000);
  dirty = false;
  session = some 1;
  since = 1;
}

seated : opened.actors key ≡ some player
unfolding attach attach_keyed attach_to load_or_create create_row open_row open_state load_state
    decode_state upgrade_state upgrade_to_2 upgrade_to_3 upgrade_to_4 upgrade_scarecrow new
    fresh_save insert_save join join_held take_over catch_up advance mark set_actor kick new_actor
    update_key key_eq keyed_key validate_identity validate_kind valid_keyed is_guest is_guest_kind
    sanitize_slot slot_runes is_slot_rune is_empty text_eq trim_space trim_left trim_right
    join_right is_space between new_world
seated = refl

not_guest : is_guest_key key ≡ false
unfolding is_guest_key is_empty
not_guest = refl

seat_owned : owns player 1 ≡ true
unfolding owns owns_id
seat_owned = refl

total : (s : State) → (p : State) × (server.marshal s ≡ some p)
total s = (s, refl)

detach_keeps_example :
    IsSafelyGone server round_trip total key player.state (detach server true true key 1 opened)
detach_keeps_example =
    detach_keeps server round_trip total true key 1 player opened opened_reached seated not_guest
      seat_owned

-- A row as the migration leaves it: its columns are blank, its payload is not.
abbrev blank_row : SaveRow State
blank_row = record (insert_save (pos 1000000) (fresh_save farm farm)) {
  coins = pos 0;
  farm_name = "";
}

abbrev migrated : Saves State
migrated = λ k. some blank_row
