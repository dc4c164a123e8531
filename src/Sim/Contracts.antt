-- ===== src/Sim/Contracts.antt =====
-- internal/sim/contracts.go: the three contracts, their restrictions and their completion, and
-- `credit` of state.go, which feeds a contract's goal.
use ssh_farm.Prelude.{
  ℤ, pos, Bool, true, false, not, ◌&&◌, ◌||◌, String, str_eq, List, [], ◌∷◌, ◌++◌, Option, none,
  some, if◌then◌else◌, ltb_ℤ, leb_ℤ, add64, pos_part, get_elem?, length,
}
use ssh_farm.Content.{Content, Upgrade, Crop, Unlock}
use ssh_farm.Sim.State.{State, make_plots, upgrade_level}
use ssh_farm.Sim.Money.{sat_add}

abbrev pub contract_bare_hands : String
contract_bare_hands = "bare_hands"

abbrev pub contract_lean_season : String
contract_lean_season = "lean_season"

abbrev pub contract_clockwork_denied : String
contract_clockwork_denied = "clockwork_denied"

abbrev pub contract_bare_hands_earnings : ℤ
contract_bare_hands_earnings = pos 100000

abbrev pub contract_lean_season_starseeds : ℤ
contract_lean_season_starseeds = pos 100

abbrev pub contract_lean_season_max_plots : ℤ
contract_lean_season_max_plots = pos 6

abbrev pub contract_clockwork_rebirths : ℤ
contract_clockwork_rebirths = pos 5

-- A contract's definition, less its display copy.
pub record ContractDefinition : Type 0 where
  pub id : String
  pub name : String

abbrev pub contract_definitions : List ContractDefinition
contract_definitions =
    record { id = contract_bare_hands; name = "Bare Hands" }
    ∷ record { id = contract_lean_season; name = "Lean Season" }
    ∷ record { id = contract_clockwork_denied; name = "Clockwork Denied" }
    ∷ []

unfoldable pub find_contract : String → List ContractDefinition → Option ContractDefinition
find_contract id [] = none
find_contract id (d ∷ ds) = if str_eq d.id id then some d else find_contract id ds

unfoldable pub contract_by_id : String → Option ContractDefinition
contract_by_id id = find_contract id contract_definitions

abbrev pub is_active : State → Bool
is_active s = not (str_eq s.active_contract "")

unfoldable pub progression_rebirths : State → ℤ
progression_rebirths s = if is_active s then s.contract_rebirths else s.rebirths

unfoldable pub contract_blocks_automation : State → Bool
contract_blocks_automation s =
    str_eq s.active_contract contract_bare_hands
    || str_eq s.active_contract contract_clockwork_denied

unfoldable pub contract_blocks_events : State → Bool
contract_blocks_events s = str_eq s.active_contract contract_clockwork_denied

unfoldable pub contract_blocks_gifts : State → Bool
contract_blocks_gifts s = str_eq s.active_contract contract_clockwork_denied

unfoldable pub contract_blocks_scarecrow : State → Bool
contract_blocks_scarecrow s = str_eq s.active_contract contract_clockwork_denied

unfoldable pub contract_caps_land : State → Bool
contract_caps_land s = str_eq s.active_contract contract_lean_season

-- baseGameComplete: the loop over the upgrades, and that over the crops.
unfoldable pub upgrades_maxed : State → List Upgrade → Bool
upgrades_maxed s [] = true
upgrades_maxed s (u ∷ us) =
    if ltb_ℤ (upgrade_level s u.id) u.max_level then false else upgrades_maxed s us

unfoldable pub crop_reached : State → Unlock → Bool
crop_reached s u =
    if ltb_ℤ s.rebirths u.rebirths
    then false
    else if str_eq u.kind "earnings"
    then not (ltb_ℤ s.lifetime_earnings u.value)
    else if str_eq u.kind "prestige"
    then not (ltb_ℤ s.rebirths u.value)
    else true

unfoldable pub crops_reached : State → List Crop → Bool
crops_reached s [] = true
crops_reached s (c ∷ cs) = if crop_reached s c.unlock then crops_reached s cs else false

unfoldable pub base_game_complete : State → Content → Bool
base_game_complete s c = upgrades_maxed s c.upgrade_list && crops_reached s c.crops

unfoldable pub contracts_available : State → Content → Bool
contracts_available s c =
    s.contracts_unlocked
    || ltb_ℤ (pos 0) s.contracts_completed
    || is_active s
    || base_game_complete s c

unfoldable pub next_after : ℤ → Option ContractDefinition
next_after completed =
    if ltb_ℤ completed (pos 0) || leb_ℤ (pos (length contract_definitions)) completed
    then none
    else elim (get_elem? contract_definitions (pos_part completed)) [
      | none ↦ none
      | some d ↦ contract_by_id d.id
    ]

unfoldable pub next_contract : State → Option ContractDefinition
next_contract s = next_after s.contracts_completed

unfoldable pub reset_gameplay : State → Content → ℤ → State
reset_gameplay s c now = record s {
  coins = c.start.coins;
  plots = make_plots c.start.plots;
  purchased_plots = pos 0;
  tools = [];
  zones = [];
  run_earnings = pos 0;
  multipliers = [];
  seed_upgrades = [];
  scarecrows = [];
  scarecrow_clock = pos 0;
  gift_pending = false;
  gift_arrived_at = pos 0;
  event_id = "";
  event_started_at = pos 0;
  event_ends_at = pos 0;
  prestige_currency = pos 0;
  upgrades = [];
  last_crop = "";
  contract_rebirths = pos 0;
  contract_earnings = pos 0;
  contract_starseeds = pos 0;
  updated_at = now;
}

-- checkContractCompletion: the goal's test, and what a completion does. Its result is not used.
unfoldable pub contract_complete : State → Bool
contract_complete s =
    if str_eq s.active_contract contract_bare_hands
    then leb_ℤ contract_bare_hands_earnings s.contract_earnings
    else if str_eq s.active_contract contract_lean_season
    then leb_ℤ contract_lean_season_starseeds s.contract_starseeds
    else if str_eq s.active_contract contract_clockwork_denied
    then leb_ℤ contract_clockwork_rebirths s.contract_rebirths
    else false

unfoldable pub bump_completed : ℤ → ℤ
bump_completed n =
    if ltb_ℤ (pos (length contract_definitions)) (add64 n (pos 1))
    then pos (length contract_definitions)
    else add64 n (pos 1)

unfoldable pub check_contract_completion : State → State
check_contract_completion s =
    if contract_complete s
    then record s {
      contracts_completed = bump_completed s.contracts_completed;
      active_contract = "";
      contract_rebirths = pos 0;
      contract_earnings = pos 0;
      contract_starseeds = pos 0;
    }
    else s

-- credit of state.go.
unfoldable pub add_earnings : State → ℤ → State
add_earnings s amount = record s {
  coins = sat_add s.coins amount;
  run_earnings = sat_add s.run_earnings amount;
  lifetime_earnings = sat_add s.lifetime_earnings amount;
}

unfoldable pub credit : State → ℤ → State
credit s amount =
    let t = add_earnings s amount in
    if leb_ℤ amount (pos 0)
    then s
    else if is_active s
    then check_contract_completion
        (record t { contract_earnings = sat_add s.contract_earnings amount })
    else t

unfoldable pub credit_starseeds : State → ℤ → State
credit_starseeds s amount =
    let t = record s { prestige_currency = sat_add s.prestige_currency amount } in
    if leb_ℤ amount (pos 0)
    then s
    else if is_active s
    then check_contract_completion
        (record t { contract_starseeds = sat_add s.contract_starseeds amount })
    else t

-- The leaderboard's name styles.
abbrev pub seal_two_styles : List String
seal_two_styles = "leaf" ∷ "gold" ∷ "sky" ∷ "rose" ∷ "violet" ∷ []

unfoldable pub available_name_styles : State → List String
available_name_styles s =
    ("" ∷ (if leb_ℤ (pos 2) s.contracts_completed then seal_two_styles else []))
    ++ (if leb_ℤ (pos 3) s.contracts_completed then "purple_wave" ∷ [] else [])

unfoldable pub contains : String → List String → Bool
contains k [] = false
contains k (x ∷ xs) = str_eq k x || contains k xs

unfoldable pub known_name_style : String → Bool
known_name_style style = str_eq style "" || contains style (seal_two_styles ++ "purple_wave" ∷ [])
