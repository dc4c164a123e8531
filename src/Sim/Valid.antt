-- ===== src/Sim/Valid.antt =====
-- What holds of a save between two actions, and what the checks of internal/content/content.go
-- and the type int64 give of the content.
pub mod Ledgers
pub mod Purchases
pub mod Farming
pub mod Replanting
pub mod Scarecrows
pub mod Campaign
pub mod Visits
pub mod Drops
pub mod Catchup
pub mod Passing
pub mod Histories
use ssh_farm.Prelude.{
  ℕ, ◌≤◌, ◌≡◌, ℤ, pos, pos_part, neg_part, List, All, IsAmount, IsInt64, ◌≤ℤ◌, String,
}
use ssh_farm.Content.{Content, Crop, Zone}
use ssh_farm.Sim.State.{State, Scarecrow}

-- The part of a save that counts coins, Starseeds and progress.
pub record Ledger : Type 0 where
  pub coins : ℤ
  pub run_earnings : ℤ
  pub lifetime_earnings : ℤ
  pub lifetime_harvests : ℤ
  pub prestige_currency : ℤ
  pub contracts_completed : ℤ
  pub contract_rebirths : ℤ
  pub contract_earnings : ℤ
  pub contract_starseeds : ℤ
  pub scarecrows : List Scarecrow

abbrev pub ledger : State → Ledger
ledger s = record {
  coins = s.coins;
  run_earnings = s.run_earnings;
  lifetime_earnings = s.lifetime_earnings;
  lifetime_harvests = s.lifetime_harvests;
  prestige_currency = s.prestige_currency;
  contracts_completed = s.contracts_completed;
  contract_rebirths = s.contract_rebirths;
  contract_earnings = s.contract_earnings;
  contract_starseeds = s.contract_starseeds;
  scarecrows = s.scarecrows;
}

abbrev pub HasAmount : Scarecrow → Type 0
HasAmount sc = IsAmount sc.pouch

-- Every amount is in 0 to math.MaxInt64, and at most three contracts are completed.
pub record IsLedger (l : Ledger) : Type 0 where
  pub coins : IsAmount l.coins
  pub run_earnings : IsAmount l.run_earnings
  pub lifetime_earnings : IsAmount l.lifetime_earnings
  pub lifetime_harvests : IsAmount l.lifetime_harvests
  pub prestige_currency : IsAmount l.prestige_currency
  pub contracts_completed :
      (neg_part l.contracts_completed ≡ 0) × (pos_part l.contracts_completed ≤ 3)
  pub contract_rebirths : IsAmount l.contract_rebirths
  pub contract_earnings : IsAmount l.contract_earnings
  pub contract_starseeds : IsAmount l.contract_starseeds
  pub pouches : All HasAmount l.scarecrows

abbrev pub IsValid : State → Type 0
IsValid s = IsLedger (ledger s)

-- What `validate` checks of the content, and the range of its int64 fields, as far as the
-- invariant needs them.
pub record IsContent (c : Content) : Type 0 where
  pub start_coins : IsAmount c.start.coins
  pub zones : All (λ (z : Zone). neg_part z.cost ≡ 0) c.zone_list
  pub auto_sow_cost : neg_part c.plot_automation.auto_sow_cost ≡ 0
  pub sell_values : All (λ (x : Crop). IsInt64 x.sell_value) c.crops
  pub discovery_min : IsInt64 c.flavor.discovery_min
  pub coin_reward_floor : IsInt64 c.gifts.coin_reward_floor
  pub coin_reward_ceiling : IsInt64 c.gifts.coin_reward_ceiling
