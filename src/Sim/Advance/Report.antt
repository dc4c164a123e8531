-- ===== src/Sim/Advance/Report.antt =====
-- internal/sim/advance.go: the report of an Advance, and the achievements.
use ssh_farm.Prelude.{
  ℤ, pos, Bool, false, String, str_eq, List, [], ◌∷◌, ◌++◌, none, some, if◌then◌else◌, leb_ℤ, add64,
  Dict, lookup, lookup_or, insert, length,
}
use ssh_farm.Content.{Content, Condition, Achievement}
use ssh_farm.Sim.State.{State}

-- Events, less the away vignettes, which are display text.
pub record Events : Type 0 where
  pub elapsed : ℤ
  pub matured : Dict ℤ
  pub auto_harvested : Dict ℤ
  pub auto_coins : ℤ
  pub discoveries : ℤ
  pub discovery_coins : ℤ
  pub achievements : List String
  pub failed_harvests : Dict ℤ
  pub golden_harvests : ℤ
  pub gift_arrived : Bool
  pub event_started : String
  pub event_ended : String
  pub critter_visits : List String
  pub scarecrow_coins : ℤ
  pub contract_completed : String

abbrev pub no_events : Events
no_events = record {
  elapsed = pos 0;
  matured = [];
  auto_harvested = [];
  auto_coins = pos 0;
  discoveries = pos 0;
  discovery_coins = pos 0;
  achievements = [];
  failed_harvests = [];
  golden_harvests = pos 0;
  gift_arrived = false;
  event_started = "";
  event_ended = "";
  critter_visits = [];
  scarecrow_coins = pos 0;
  contract_completed = "";
}

-- The save and the report so far.
abbrev pub Tick : Type 0
Tick = State × Events

-- `m[id] += n`
abbrev pub count_more : String → ℤ → Dict ℤ → Dict ℤ
count_more id n m = insert id (add64 (lookup_or (pos 0) id m) n) m

-- CheckAchievements: one condition, and the loop with the names of those that are new.
unfoldable pub condition_met : State → Condition → Bool
condition_met s k =
    if str_eq k.kind "harvests"
    then leb_ℤ k.value s.lifetime_harvests
    else if str_eq k.kind "earnings"
    then leb_ℤ k.value s.lifetime_earnings
    else if str_eq k.kind "plots"
    then leb_ℤ k.value (pos (length s.plots))
    else if str_eq k.kind "rebirths"
    then leb_ℤ k.value s.rebirths
    else if str_eq k.kind "balance"
    then leb_ℤ k.value s.coins
    else false

unfoldable pub earn : ℤ → State × List String → Achievement → State × List String
earn now (s, newly) a = elim (lookup a.id s.achievements) [
  | some t ↦ (s, newly)
  | none ↦
      if condition_met s a.condition
      then (record s { achievements = insert a.id now s.achievements }, newly ++ a.id ∷ [])
      else (s, newly)
]

unfoldable pub earn_each : ℤ → State × List String → List Achievement → State × List String
earn_each now acc [] = acc
earn_each now acc (a ∷ rest) = earn_each now (earn now acc a) rest

unfoldable pub check_achievements : State → Content → ℤ → State × List String
check_achievements s c now = earn_each now (s, []) c.achievement_list
