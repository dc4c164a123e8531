-- ===== src/Tests/Farm.antt =====
-- A farm and an excerpt of data/crops.toml and data/balance.toml.
use ssh_farm.Prelude.{pos, true, false, [], ◌∷◌}
use ssh_farm.Content.{Content, Crop, Unlock, Upgrade, Zone}
use ssh_farm.Host.{Host}
use ssh_farm.Sim.State.{State, empty_plot}

-- A host on the 4th of July, with a guess of the root that is far off.
abbrev pub july : Host
july = record {
  month = λ t. 7;
  day = λ t. 4;
  dev_season = "";
  float_sqrt = λ n. n;
  trim_space = λ s. s;
  rune_count = λ s. 5;
}

abbrev pub at_start : Unlock
at_start = record { kind = "start"; value = pos 0; zone = ""; season = ""; rebirths = pos 0 }

abbrev pub turnip : Crop
turnip = record {
  id = "turnip";
  name = "Turnip";
  archetype = "fast";
  seed_cost = pos 5;
  grow_seconds = pos 60;
  sell_value = pos 9;
  fail_chance_pct = pos 0;
  unlock = at_start;
}

abbrev pub growth : Upgrade
growth = record {
  id = "growth";
  name = "Rich Soil";
  description = "Crops grow 10% faster per level.";
  cost = pos 2;
  cost_growth_pct = pos 200;
  max_level = pos 5;
  effect = "grow_speed_pct";
  effect_value = pos 10;
}

abbrev pub greenhouse : Zone
greenhouse = record {
  id = "greenhouse";
  name = "Greenhouse";
  description = "A warm glass annex. +6 plots and exotic crops.";
  cost = pos 25000;
  extra_plots = pos 6;
  unlock = record at_start { kind = "earnings"; value = pos 15000 };
}

abbrev pub shipped : Content
shipped = record {
  crops = turnip ∷ [];
  upgrade_list = growth ∷ [];
  multiplier_list = [];
  seed_upgrade_list = [];
  zone_list = greenhouse ∷ [];
  events = [];
  achievement_list = [];
  start = record { coins = pos 25; plots = pos 3 };
  land = record { base_plot_cost = pos 50; growth_pct = pos 170; max_plots = pos 10 };
  prestige = record { divisor = pos 100; min_earnings = pos 10000 };
  events_config = record {
    min_interval_sec = pos 900;
    max_interval_sec = pos 1500;
    min_duration_sec = pos 90;
    max_duration_sec = pos 180;
  };
  plot_automation = record {
    auto_harvest_base_cost = pos 600;
    auto_harvest_growth_pct = pos 150;
    auto_sow_cost = pos 1400;
    auto_sow_min_earnings = pos 5000;
  };
  gifts = record {
    online_interval_sec = pos 1200;
    offline_interval_sec = pos 18000;
    starseed_chance_pct = pos 20;
    coin_reward_floor = pos 8;
    coin_reward_ceiling = pos 5000;
  };
  golden_harvest = record { chance_pct = pos 1; multiplier = pos 100 };
  moon = record {
    cycle_days = pos 28;
    full_moon_sell_bonus_pct = pos 15;
    moonberry_crop_id = "moonberry";
  };
  critters = record {
    visit_chance_pct = pos 1;
    max_active = pos 3;
    shoo_reward_min = pos 3;
    shoo_reward_max = pos 12;
    rebirth_bonus_pct = pos 50;
    kinds = "crow" ∷ "rabbit" ∷ "mole" ∷ [];
  };
  scarecrow = record {
    cost = pos 1200;
    cost_growth_pct = pos 300;
    max_count = pos 4;
    drop_interval_sec = pos 15;
    offline_slowdown = pos 20;
    coins_min = pos 2;
    coins_max = pos 8;
    synergy_pct = pos 25;
    rebirth_bonus_pct = pos 10;
    unlock_rebirths = pos 0 ∷ pos 0 ∷ pos 1 ∷ pos 2 ∷ [];
  };
  flavor = record {
    enabled = true;
    discovery_chance_pct = pos 4;
    discovery_min = pos 5;
    discovery_max = pos 40;
  };
}

-- A farm with a full wallet, a pouch to collect and the contracts unlocked.
abbrev pub farm : State
farm = record {
  version = pos 4;
  rng = 42;
  updated_at = pos 1000000;
  coins = pos 30000;
  plots = empty_plot ∷ record empty_plot { last_crop = "turnip" } ∷ empty_plot ∷ [];
  purchased_plots = pos 0;
  tools = [];
  zones = [];
  run_earnings = pos 40000;
  multipliers = [];
  seed_upgrades = [];
  scarecrows = record { pouch = pos 120 } ∷ [];
  scarecrow_clock = pos 0;
  legacy_scarecrow = false;
  gift_pending = true;
  gift_arrived_at = pos 999000;
  event_id = "";
  event_started_at = pos 0;
  event_ends_at = pos 0;
  prestige_currency = pos 7;
  upgrades = ("growth", pos 1) ∷ [];
  achievements = [];
  rebirths = pos 0;
  lifetime_earnings = pos 40000;
  lifetime_harvests = pos 90;
  flavor_enabled = true;
  farm_name = "";
  moon_epoch = pos 11;
  news_enabled = true;
  critters_enabled = true;
  replant_warned = false;
  last_crop = "turnip";
  theme_solid = false;
  seasonal_off = false;
  contracts_unlocked = true;
  contracts_completed = pos 0;
  active_contract = "";
  contract_rebirths = pos 0;
  contract_earnings = pos 0;
  contract_starseeds = pos 0;
  leaderboard_name_style = "";
}

-- The same farm under the first contract.
abbrev pub bare_hands_farm : State
bare_hands_farm = record farm { active_contract = "bare_hands"; contract_earnings = pos 99990 }
