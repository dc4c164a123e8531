-- ===== src/Moderation/Filter.antt =====
-- internal/moderation/moderation.go, with the process state of denylist.go: Check and Filter, Init,
-- Reload and the list in force.
pub mod Safe
pub mod Boot
use ssh_farm.Prelude.{
  ℕ, Bool, true, false, not, if◌then◌else◌, List, [], ◌∷◌, Option, none, some, String, str_eq, ◌⊎◌,
  inl, inr,
}
use ssh_farm.Moderation.Text.{Text, is_empty}
use ssh_farm.Moderation.Normalize.{name_candidates, tokens}
use ssh_farm.Moderation.Validate.{validate}
use ssh_farm.Moderation.Denylist.{Term, Denylist, ListError, new_denylist, blocks}

-- Check, with the list that loaded() returns.
unfoldable pub check : (ℕ → ℕ) → Denylist → Text → Bool
check lower dl name =
    let (folded, stripped, collapsed) = name_candidates lower name in
    not (blocks dl stripped collapsed (tokens folded))

unfoldable pub check_valid : (ℕ → ℕ) → Denylist → Option Text → Text × Bool
check_valid lower dl none = ([], true)
check_valid lower dl (some norm) = if check lower dl norm then (norm, false) else ([], true)

-- Filter, with devMode and the list in force.
unfoldable pub filter : (ℕ → ℕ) → Bool → Denylist → Text → Text × Bool
filter lower dev dl name =
    if is_empty name
    then ([], false)
    else if dev
    then ([], true)
    else check_valid lower dl (validate name)

-- What the process takes from the host: the bytes of a file, none where os.ReadFile fails, and
-- toml.Unmarshal into the terms and the allow-list, none where it fails.
pub record Files : Type 1 where
  pub Bytes : Type 0
  pub read_file : String → Option Bytes
  pub unmarshal : Bytes → Option (List Term × List Text)
  pub fixture : Bytes
  pub lower : ℕ → ℕ

pub data LoadError : Type 0 where
  moderation_required : LoadError
  nothing_to_reload : LoadError
  unreadable : String → LoadError
  unparsable : LoadError
  bad_list : ListError → LoadError

-- The package variables: current, sourcePath and devMode.
pub record Process : Type 0 where
  pub current : Option Denylist
  pub source_path : Option String
  pub dev_mode : Bool

abbrev pub unloaded : Process
unloaded = record { current = none; source_path = none; dev_mode = false }

unfoldable pub build : (ℕ → ℕ) → Option (List Term × List Text) → LoadError ⊎ Denylist
build lower none = inl unparsable
build lower (some (terms, allow)) = elim (new_denylist lower terms allow) [
  | inl e ↦ inl (bad_list e)
  | inr dl ↦ inr dl
]

unfoldable pub parse_denylist : (f : Files) → f.Bytes → LoadError ⊎ Denylist
parse_denylist f b = build f.lower (f.unmarshal b)

unfoldable pub load_denylist_file : Files → String → LoadError ⊎ Denylist
load_denylist_file f path = elim (f.read_file path) [
  | none ↦ inl (unreadable path)
  | some b ↦ parse_denylist f b
]

unfoldable pub start_dev : LoadError ⊎ Denylist → Process → Option LoadError × Process
start_dev (inl e) p = (some e, p)
start_dev (inr dl) p = (none, record p { current = some dl; dev_mode = true })

unfoldable pub start_with : String → LoadError ⊎ Denylist → Process → Option LoadError × Process
start_with path (inl e) p = (some e, p)
start_with path (inr dl) p =
    (none, record { current = some dl; source_path = some path; dev_mode = false })

-- Init, with the error that it returns, none for nil.
unfoldable pub init : Files → String → Bool → Process → Option LoadError × Process
init f path require p =
    if str_eq path ""
    then if require then (some moderation_required, p) else start_dev (parse_denylist f f.fixture) p
    else start_with path (load_denylist_file f path) p

unfoldable pub swap : LoadError ⊎ Denylist → Process → Option LoadError × Process
swap (inl e) p = (some e, p)
swap (inr dl) p = (none, record p { current = some dl })

unfoldable pub reload_from : Files → Option String → Process → Option LoadError × Process
reload_from f none p = (some nothing_to_reload, p)
reload_from f (some path) p =
    if str_eq path "" then (some nothing_to_reload, p) else swap (load_denylist_file f path) p

unfoldable pub reload : Files → Process → Option LoadError × Process
reload f p = reload_from f p.source_path p

-- The fixture takes the place of a list that was never loaded; no list where loaded() panics.
unfoldable pub fall_back : LoadError ⊎ Denylist → Process → Option Denylist × Process
fall_back (inl e) p = (none, p)
fall_back (inr dl) p = (some dl, record p { current = some dl })

unfoldable pub loaded : Files → Process → Option Denylist × Process
loaded f p = elim p.current [
  | some dl ↦ (some dl, p)
  | none ↦ fall_back (parse_denylist f f.fixture) p
]
