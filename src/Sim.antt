-- ===== src/Sim.antt =====
-- internal/sim: the headless game engine.
pub mod State
pub mod Random
pub mod Money
pub mod Root
pub mod Contracts
pub mod Derive
pub mod Prices
pub mod Outcome
pub mod Harvest
pub mod Planting
pub mod Market
pub mod Scarecrows
pub mod Campaign
pub mod Advance
pub mod Dev
pub mod Actions
pub mod Refusals
pub mod ReplantOrder
pub mod Valid
pub mod Charges
pub mod Pouches
pub mod PriceGrowth
pub mod Upgrades
pub mod CampaignOrder
