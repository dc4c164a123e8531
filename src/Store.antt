-- ===== src/Store.antt =====
-- internal/store/store.go: the row of a save, and the operations on it that the game uses. SQLite is
-- a map from keys to rows whose operations may also fail.
pub mod Keys
pub mod Renames
use ssh_farm.Prelude.{
  ℕ, ◌+◌, ℤ, pos, add64, ltb_ℤ, leb_ℤ, eqb_ℤ, Bool, true, false, not, ◌&&◌, if◌then◌else◌, Option,
  none, some, String,
}
use ssh_farm.Moderation.Text.{Text, text_eq}
use ssh_farm.Sim.State.{State}

-- What GateRename keeps in a row.
pub record RenameRow : Type 0 where
  pub locked : Bool
  pub last_at : ℤ
  pub day_start : ℤ
  pub day_count : ℤ
  pub burst_count : ℤ

-- The defaults of the columns.
abbrev pub no_renames : RenameRow
no_renames = record {
  locked = false;
  last_at = pos 0;
  day_start = pos 0;
  day_count = pos 0;
  burst_count = pos 0;
}

pub data RenameGate : Type 0 where
  rename_allowed rename_locked rename_rate_limited : RenameGate

abbrev pub rename_burst_limit : ℤ
rename_burst_limit = pos 5

abbrev pub rename_cooldown_seconds : ℤ
rename_cooldown_seconds = pos 60

abbrev pub rename_day_window_seconds : ℤ
rename_day_window_seconds = pos 86400

abbrev pub rename_daily_limit : ℤ
rename_daily_limit = pos 60

-- The burst refills once the cooldown has passed since the last attempt that was allowed.
unfoldable pub refill : ℤ → RenameRow → RenameRow
refill now r =
    if not (eqb_ℤ r.last_at (pos 0)) && leb_ℤ (add64 r.last_at rename_cooldown_seconds) now
    then record r { burst_count = pos 0 }
    else r

unfoldable pub new_day : ℤ → RenameRow → RenameRow
new_day now r =
    if leb_ℤ (add64 r.day_start rename_day_window_seconds) now
    then record r { day_start = now; day_count = pos 0 }
    else r

unfoldable pub spend : ℤ → RenameRow → RenameRow
spend now r = record r {
  last_at = now;
  day_count = add64 r.day_count (pos 1);
  burst_count = add64 r.burst_count (pos 1);
}

-- GateRename, with the row that it leaves.
unfoldable pub gate_rename : ℤ → RenameRow → RenameGate × RenameRow
gate_rename now r =
    let s = refill now r in
    let t = new_day now s in
    if r.locked
    then (rename_locked, r)
    else if leb_ℤ rename_burst_limit s.burst_count
    then (rename_rate_limited, r)
    else if leb_ℤ rename_daily_limit t.day_count
    then (rename_rate_limited, r)
    else (rename_allowed, spend now t)

-- The columns of a save, with its payload.
pub record SaveRow (Payload : Type 0) : Type 0 where
  pub state : Payload
  pub state_version : ℤ
  pub last_active : ℤ
  pub coins : ℤ
  pub lifetime_earnings : ℤ
  pub rebirths : ℤ
  pub farm_name : String
  pub contracts_completed : ℤ
  pub name_style : String
  pub renames : RenameRow

pub record SaveKey : Type 0 where
  pub fingerprint : Text
  pub slot : Text
  pub guest_id : Text

unfoldable pub key_eq : SaveKey → SaveKey → Bool
key_eq a b =
    text_eq a.fingerprint b.fingerprint && (text_eq a.slot b.slot && text_eq a.guest_id b.guest_id)

-- A map with one key changed.
unfoldable pub update_key {ℓ} : {V : Type ℓ} → SaveKey → V → (SaveKey → V) → SaveKey → V
update_key k v m j = if key_eq k j then v else m j

abbrev pub Saves : Type 0 → Type 0
Saves P = SaveKey → Option (SaveRow P)

-- PersistSaveWithContracts, with its arguments in their order: the UPDATE of a row.
unfoldable pub persist_save :
    {P : Type 0} (state : P) (state_version last_active coins lifetime_earnings rebirths : ℤ)
    (farm_name : String) (contracts_completed : ℤ) (name_style : String)
    → SaveRow P
    → SaveRow P
persist_save state version last coins lifetime rebirths name completed style row = record row {
  state = state;
  state_version = version;
  last_active = last;
  coins = coins;
  lifetime_earnings = lifetime;
  rebirths = rebirths;
  farm_name = name;
  contracts_completed = completed;
  name_style = style;
}

pub record FreshSave (Payload : Type 0) : Type 0 where
  pub state : Payload
  pub version : ℤ
  pub coins : ℤ
  pub lifetime_earnings : ℤ
  pub rebirths : ℤ
  pub farm_name : String
  pub contracts_completed : ℤ
  pub name_style : String

-- The INSERT of LoadOrCreateSave.
unfoldable pub insert_save : {P : Type 0} → ℤ → FreshSave P → SaveRow P
insert_save now fs = record {
  state = fs.state;
  state_version = fs.version;
  last_active = now;
  coins = fs.coins;
  lifetime_earnings = fs.lifetime_earnings;
  rebirths = fs.rebirths;
  farm_name = fs.farm_name;
  contracts_completed = fs.contracts_completed;
  name_style = fs.name_style;
  renames = no_renames;
}
