-- ===== src/Sim/State.antt =====
-- internal/sim/state.go: the save, its construction and the upgrade of older payloads.
-- Maps are dictionaries in which nil and empty are one; JSON encoding is not modelled.
use ssh_farm.Prelude.{
  ℕ, ℤ, pos, Bool, true, false, String, str_eq, List, [], ◌∷◌, map, Option, if◌then◌else◌, ltb_ℤ,
  leb_ℤ, eqb_ℤ, div64, Dict, lookup_or, pos_part, replicate, not, ◌&&◌, ◌||◌, length, ◌==◌,
}
use ssh_farm.Content.{Content}

pub record Plot : Type 0 where
  pub crop : String
  pub planted_at : ℤ
  pub auto_harvest : Bool
  pub auto_sow : Bool
  pub auto_sow_crop : String
  pub critter : String
  pub last_crop : String

abbrev pub empty_plot : Plot
empty_plot = record {
  crop = "";
  planted_at = pos 0;
  auto_harvest = false;
  auto_sow = false;
  auto_sow_crop = "";
  critter = "";
  last_crop = "";
}

pub record Scarecrow : Type 0 where
  pub pouch : ℤ

unfoldable pub sow_crop : Plot → String
sow_crop p = if str_eq p.auto_sow_crop "" then p.crop else p.auto_sow_crop

pub record State : Type 0 where
  pub version : ℤ
  pub rng : ℕ  -- uint64
  pub updated_at : ℤ
  pub coins : ℤ
  pub plots : List Plot
  pub purchased_plots : ℤ
  pub tools : Dict Bool
  pub zones : Dict Bool
  pub run_earnings : ℤ
  pub multipliers : Dict ℤ
  pub seed_upgrades : Dict ℤ
  pub scarecrows : List Scarecrow
  pub scarecrow_clock : ℤ
  pub legacy_scarecrow : Bool
  pub gift_pending : Bool
  pub gift_arrived_at : ℤ
  pub event_id : String
  pub event_started_at : ℤ
  pub event_ends_at : ℤ
  pub prestige_currency : ℤ
  pub upgrades : Dict ℤ
  pub achievements : Dict ℤ
  pub rebirths : ℤ
  pub lifetime_earnings : ℤ
  pub lifetime_harvests : ℤ
  pub flavor_enabled : Bool
  pub farm_name : String
  pub moon_epoch : ℤ
  pub news_enabled : Bool
  pub critters_enabled : Bool
  pub replant_warned : Bool
  pub last_crop : String
  pub theme_solid : Bool
  pub seasonal_off : Bool
  pub contracts_unlocked : Bool
  pub contracts_completed : ℤ
  pub active_contract : String
  pub contract_rebirths : ℤ
  pub contract_earnings : ℤ
  pub contract_starseeds : ℤ
  pub leaderboard_name_style : String

abbrev pub state_version : ℤ
state_version = pos 4

-- make([]Plot, n)
abbrev pub make_plots : ℤ → List Plot
make_plots n = replicate (pos_part n) empty_plot

unfoldable pub seasonal_enabled : State → Bool
seasonal_enabled s = not s.seasonal_off

-- New
unfoldable pub new : Content → ℕ → ℤ → State
new c seed now = record {
  version = state_version;
  rng = seed;
  updated_at = now;
  coins = c.start.coins;
  plots = make_plots c.start.plots;
  purchased_plots = pos 0;
  tools = [];
  zones = [];
  run_earnings = pos 0;
  multipliers = [];
  seed_upgrades = [];
  scarecrows = [];
  scarecrow_clock = pos 0;
  legacy_scarecrow = false;
  gift_pending = false;
  gift_arrived_at = pos 0;
  event_id = "";
  event_started_at = pos 0;
  event_ends_at = pos 0;
  prestige_currency = pos 0;
  upgrades = [];
  achievements = [];
  rebirths = pos 0;
  lifetime_earnings = pos 0;
  lifetime_harvests = pos 0;
  flavor_enabled = true;
  farm_name = "";
  moon_epoch = div64 now (pos 86400);
  news_enabled = true;
  critters_enabled = true;
  replant_warned = false;
  last_crop = "";
  theme_solid = false;
  seasonal_off = false;
  contracts_unlocked = false;
  contracts_completed = pos 0;
  active_contract = "";
  contract_rebirths = pos 0;
  contract_earnings = pos 0;
  contract_starseeds = pos 0;
  leaderboard_name_style = "";
}

-- upgradeState, one function for each version that it brings a payload to.
unfoldable pub upgrade_to_2 : State → State
upgrade_to_2 s =
    if ltb_ℤ s.version (pos 2) then record s { flavor_enabled = true; version = pos 2 } else s

unfoldable pub give_tools : Bool → Bool → Plot → Plot
give_tools harvester sower p = record p {
  auto_harvest = harvester || p.auto_harvest;
  auto_sow = sower || p.auto_sow;
}

unfoldable pub migrate_tools : State → State
migrate_tools s =
    let had_harvester = lookup_or false "auto_harvester" s.tools in
    let had_sower = lookup_or false "auto_sower" s.tools in
    if had_harvester || had_sower
    then record s { plots = map (give_tools had_harvester had_sower) s.plots }
    else s

unfoldable pub anchor_moon : State → State
anchor_moon s =
    if eqb_ℤ s.moon_epoch (pos 0) && ltb_ℤ (pos 0) s.updated_at
    then record s { moon_epoch = div64 s.updated_at (pos 86400) }
    else s

unfoldable pub upgrade_to_3 : State → State
upgrade_to_3 s =
    if ltb_ℤ s.version (pos 3)
    then record (anchor_moon (migrate_tools s)) { version = pos 3 }
    else s

unfoldable pub upgrade_to_4 : State → State
upgrade_to_4 s =
    if ltb_ℤ s.version (pos 4)
    then record s { news_enabled = true; critters_enabled = true; version = pos 4 }
    else s

unfoldable pub upgrade_scarecrow : State → State
upgrade_scarecrow s =
    if s.legacy_scarecrow
    then record s {
      scarecrows = if length s.scarecrows == 0 then record { pouch = pos 0 } ∷ [] else s.scarecrows;
      legacy_scarecrow = false;
    }
    else s

unfoldable pub upgrade_state : State → State
upgrade_state s = upgrade_scarecrow (upgrade_to_4 (upgrade_to_3 (upgrade_to_2 s)))

-- DecodeState, from the payload as json.Unmarshal reads it; `none` is a version from the future.
unfoldable pub decode_state : State → Option State
decode_state s =
    if ltb_ℤ state_version s.version then Option.none else Option.some (upgrade_state s)

unfoldable pub upgrade_level : State → String → ℤ
upgrade_level s id = lookup_or (pos 0) id s.upgrades

unfoldable pub multiplier_level : State → String → ℤ
multiplier_level s id = lookup_or (pos 0) id s.multipliers

unfoldable pub seed_upgrade_level : State → String → ℤ
seed_upgrade_level s crop_id = lookup_or (pos 0) crop_id s.seed_upgrades

-- SalvageNumerator, out of 8
unfoldable pub salvage_numerator : ℤ → ℤ
salvage_numerator level =
    if leb_ℤ level (pos 0)
    then pos 1
    else if eqb_ℤ level (pos 1)
    then pos 2
    else if eqb_ℤ level (pos 2)
    then pos 4
    else pos 6
