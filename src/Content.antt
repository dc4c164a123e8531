-- ===== src/Content.antt =====
-- internal/content/content.go: the game's definitions, and the look-ups in the indexes that
-- `buildIndexes` makes of them.
use ssh_farm.Prelude.{
  ℤ, pos, Bool, String, str_eq, List, [], ◌∷◌, Option, none, some, if◌then◌else◌, ltb_ℤ, leb_ℤ,
  length, get_elem?, pos_part, ◌||◌,
}

pub record Unlock : Type 0 where
  pub kind : String
  pub value : ℤ
  pub zone : String
  pub season : String
  pub rebirths : ℤ

pub record Crop : Type 0 where
  pub id : String
  pub name : String
  pub archetype : String
  pub seed_cost : ℤ
  pub grow_seconds : ℤ
  pub sell_value : ℤ
  pub fail_chance_pct : ℤ
  pub unlock : Unlock

pub record Upgrade : Type 0 where
  pub id : String
  pub name : String
  pub description : String
  pub cost : ℤ
  pub cost_growth_pct : ℤ
  pub max_level : ℤ
  pub effect : String
  pub effect_value : ℤ

pub record Multiplier : Type 0 where
  pub id : String
  pub name : String
  pub description : String
  pub cost : ℤ
  pub cost_growth_pct : ℤ
  pub max_level : ℤ
  pub effect : String
  pub effect_value : ℤ

pub record SeedUpgrade : Type 0 where
  pub id : String
  pub crop_id : String
  pub name : String
  pub description : String
  pub cost : ℤ
  pub cost_growth_pct : ℤ
  pub max_level : ℤ

pub record Zone : Type 0 where
  pub id : String
  pub name : String
  pub description : String
  pub cost : ℤ
  pub extra_plots : ℤ
  pub unlock : Unlock

pub record Event : Type 0 where
  pub id : String
  pub name : String
  pub description : String
  pub effect : String
  pub effect_value : ℤ

pub record EventsConfig : Type 0 where
  pub min_interval_sec : ℤ
  pub max_interval_sec : ℤ
  pub min_duration_sec : ℤ
  pub max_duration_sec : ℤ

pub record PlotAutomation : Type 0 where
  pub auto_harvest_base_cost : ℤ
  pub auto_harvest_growth_pct : ℤ
  pub auto_sow_cost : ℤ
  pub auto_sow_min_earnings : ℤ

pub record GiftTuning : Type 0 where
  pub online_interval_sec : ℤ
  pub offline_interval_sec : ℤ
  pub starseed_chance_pct : ℤ
  pub coin_reward_floor : ℤ
  pub coin_reward_ceiling : ℤ

pub record GoldenHarvest : Type 0 where
  pub chance_pct : ℤ
  pub multiplier : ℤ

pub record MoonConfig : Type 0 where
  pub cycle_days : ℤ
  pub full_moon_sell_bonus_pct : ℤ
  pub moonberry_crop_id : String

pub record CritterConfig : Type 0 where
  pub visit_chance_pct : ℤ
  pub max_active : ℤ
  pub shoo_reward_min : ℤ
  pub shoo_reward_max : ℤ
  pub rebirth_bonus_pct : ℤ
  pub kinds : List String

pub record ScarecrowConfig : Type 0 where
  pub cost : ℤ
  pub cost_growth_pct : ℤ
  pub max_count : ℤ
  pub drop_interval_sec : ℤ
  pub offline_slowdown : ℤ
  pub coins_min : ℤ
  pub coins_max : ℤ
  pub synergy_pct : ℤ
  pub rebirth_bonus_pct : ℤ
  pub unlock_rebirths : List ℤ

pub record Condition : Type 0 where
  pub kind : String
  pub value : ℤ

pub record Achievement : Type 0 where
  pub id : String
  pub name : String
  pub description : String
  pub condition : Condition

pub record Flavor : Type 0 where
  pub enabled : Bool
  pub discovery_chance_pct : ℤ
  pub discovery_min : ℤ
  pub discovery_max : ℤ

pub record Start : Type 0 where
  pub coins : ℤ
  pub plots : ℤ

pub record Land : Type 0 where
  pub base_plot_cost : ℤ
  pub growth_pct : ℤ
  pub max_plots : ℤ

pub record Prestige : Type 0 where
  pub divisor : ℤ
  pub min_earnings : ℤ

-- The headlines and the labels of the currencies, which only the terminal view reads, are left out.
pub record Content : Type 0 where
  pub crops : List Crop
  pub upgrade_list : List Upgrade
  pub multiplier_list : List Multiplier
  pub seed_upgrade_list : List SeedUpgrade
  pub zone_list : List Zone
  pub events : List Event
  pub achievement_list : List Achievement
  pub start : Start
  pub land : Land
  pub prestige : Prestige
  pub events_config : EventsConfig
  pub plot_automation : PlotAutomation
  pub gifts : GiftTuning
  pub golden_harvest : GoldenHarvest
  pub moon : MoonConfig
  pub critters : CritterConfig
  pub scarecrow : ScarecrowConfig
  pub flavor : Flavor

-- An index that a loop over the list fills: of two entries with one id the later is kept.
module _ {A : Type 0} (key : A → String) (id : String) where
  unfoldable pub by_id : List A → Option A
  by_id [] = none
  by_id (x ∷ xs) = elim (by_id xs) [
    | some y ↦ some y
    | none ↦ if str_eq (key x) id then some x else none
  ]

unfoldable pub crop : Content → String → Option Crop
unfolding by_id
crop c id = by_id (λ (x : Crop). x.id) id c.crops

unfoldable pub upgrade_by_id : Content → String → Option Upgrade
unfolding by_id
upgrade_by_id c id = by_id (λ (x : Upgrade). x.id) id c.upgrade_list

unfoldable pub multiplier_by_id : Content → String → Option Multiplier
unfolding by_id
multiplier_by_id c id = by_id (λ (x : Multiplier). x.id) id c.multiplier_list

unfoldable pub seed_upgrade_by_id : Content → String → Option SeedUpgrade
unfolding by_id
seed_upgrade_by_id c id = by_id (λ (x : SeedUpgrade). x.id) id c.seed_upgrade_list

unfoldable pub seed_upgrade_for_crop : Content → String → Option SeedUpgrade
unfolding by_id
seed_upgrade_for_crop c id = by_id (λ (x : SeedUpgrade). x.crop_id) id c.seed_upgrade_list

unfoldable pub zone_by_id : Content → String → Option Zone
unfolding by_id
zone_by_id c id = by_id (λ (x : Zone). x.id) id c.zone_list

unfoldable pub event_by_id : Content → String → Option Event
unfolding by_id
event_by_id c id = by_id (λ (x : Event). x.id) id c.events

unfoldable pub required_rebirths : Unlock → ℤ
required_rebirths u = if str_eq u.kind "prestige" then u.value else u.rebirths

-- RebirthsToBuy: an index out of range is ungated.
unfoldable pub rebirths_to_buy : ScarecrowConfig → ℤ → ℤ
rebirths_to_buy sc owned =
    if ltb_ℤ owned (pos 0) || leb_ℤ (pos (length sc.unlock_rebirths)) owned
    then pos 0
    else elim (get_elem? sc.unlock_rebirths (pos_part owned)) [ none ↦ pos 0 | some n ↦ n ]
