-- ===== src/Sim/CampaignOrder.antt =====
-- The contracts of internal/sim/contracts.go come in order, start a fresh farm, and end with a seal.
use ssh_farm.Prelude.{
  ℕ, zero, suc, ◌+◌, ◌≤◌, ◌<◌, ◌≡◌, ◌≢◌, refl, ◌∙◌, ℤ, pos, negsuc, pos_part, neg_part, arith, true,
  false, eq_iff, none, some, String, get_elem?, Option-cases, Bool-cases, inl, inr, if◌then◌else◌,
  leb_ℤ, ◌⊎◌, ◌∙◌, min, max_int64, add64_pos, ap,
}
use ssh_farm.Content.{Content}
use ssh_farm.Sim.State.{State, new}
use ssh_farm.Sim.Money.{sat_add}
use ssh_farm.Sim.Money.Laws.{sat_add_lem}
use ssh_farm.Sim.Outcome.{ok}
use ssh_farm.Sim.Contracts.{
  ContractDefinition, contract_definitions, find_contract, contract_by_id, next_after,
  next_contract, reset_gameplay, is_active, contract_complete, check_contract_completion,
  bump_completed, credit, add_earnings,
}
use ssh_farm.Sim.Campaign.{start_contract}
use ssh_farm.Sim.Valid.{IsValid}

-- The next contract is the one that stands in the table behind those completed.
next_after_lem :
    (n : ℤ) (d : ContractDefinition)
    → next_after n ≡ some d
    → get_elem? contract_definitions (pos_part n) ≡ some d
unfolding next_after contract_by_id find_contract
next_after_lem (negsuc n) d e = ground arith
next_after_lem (pos zero) d e = e
next_after_lem (pos (suc zero)) d e = e
next_after_lem (pos (suc (suc zero))) d e = e
next_after_lem (pos (suc (suc (suc n)))) d e = ground arith

-- Two saves with the same economy: coins, land, purchases, Starseeds, parcels, events, clocks.
pub record SameEconomy (s t : State) : Type 0 where
  pub coins : s.coins ≡ t.coins
  pub plots : s.plots ≡ t.plots
  pub purchased_plots : s.purchased_plots ≡ t.purchased_plots
  pub zones : s.zones ≡ t.zones
  pub multipliers : s.multipliers ≡ t.multipliers
  pub seed_upgrades : s.seed_upgrades ≡ t.seed_upgrades
  pub scarecrows : s.scarecrows ≡ t.scarecrows
  pub run_earnings : s.run_earnings ≡ t.run_earnings
  pub prestige_currency : s.prestige_currency ≡ t.prestige_currency
  pub upgrades : s.upgrades ≡ t.upgrades
  pub gift_pending : s.gift_pending ≡ t.gift_pending
  pub event_id : s.event_id ≡ t.event_id
  pub updated_at : s.updated_at ≡ t.updated_at
  pub contract_earnings : s.contract_earnings ≡ t.contract_earnings
  pub contract_starseeds : s.contract_starseeds ≡ t.contract_starseeds
  pub contract_rebirths : s.contract_rebirths ≡ t.contract_rebirths
  pub tools : s.tools ≡ t.tools
  pub scarecrow_clock : s.scarecrow_clock ≡ t.scarecrow_clock
  pub gift_arrived_at : s.gift_arrived_at ≡ t.gift_arrived_at
  pub event_started_at : s.event_started_at ≡ t.event_started_at
  pub event_ends_at : s.event_ends_at ≡ t.event_ends_at
  pub last_crop : s.last_crop ≡ t.last_crop

-- Two saves with the same lifetime: achievements, counts, names and settings.
pub record SameLifetime (s t : State) : Type 0 where
  pub version : s.version ≡ t.version
  pub rng : s.rng ≡ t.rng
  pub achievements : s.achievements ≡ t.achievements
  pub rebirths : s.rebirths ≡ t.rebirths
  pub lifetime_earnings : s.lifetime_earnings ≡ t.lifetime_earnings
  pub lifetime_harvests : s.lifetime_harvests ≡ t.lifetime_harvests
  pub contracts_completed : s.contracts_completed ≡ t.contracts_completed
  pub farm_name : s.farm_name ≡ t.farm_name
  pub moon_epoch : s.moon_epoch ≡ t.moon_epoch
  pub flavor_enabled : s.flavor_enabled ≡ t.flavor_enabled
  pub news_enabled : s.news_enabled ≡ t.news_enabled
  pub critters_enabled : s.critters_enabled ≡ t.critters_enabled
  pub replant_warned : s.replant_warned ≡ t.replant_warned
  pub theme_solid : s.theme_solid ≡ t.theme_solid
  pub seasonal_off : s.seasonal_off ≡ t.seasonal_off
  pub leaderboard_name_style : s.leaderboard_name_style ≡ t.leaderboard_name_style
  pub legacy_scarecrow : s.legacy_scarecrow ≡ t.legacy_scarecrow

reset-SameEconomy :
    (s : State) (c : Content) (now : ℤ) (seed : ℕ)
    → SameEconomy (reset_gameplay s c now) (new c seed now)
unfolding reset_gameplay new
reset-SameEconomy s c now seed = ground arith

started : State → Content → String → ℤ → State
started s c id now = record (reset_gameplay s c now) {
  contracts_unlocked = true;
  active_contract = id;
}

accepted :
    (s : State) (c : Content) (id : String) (now : ℤ) (d : ContractDefinition)
    → next_contract s ≡ some d
    → (start_contract s c id now).1 ≡ ok tt
    → (s.active_contract ≡ "") × (d.id ≡ id) × ((start_contract s c id now).0 ≡ started s c id now)
unfolding start_contract started
accepted s c id now d e q =
    let r = rw (e, start_contract) at q in
    rw (e, start_contract) (ground (arith, eq_iff s.active_contract "", eq_iff d.id id))

none_left :
    (s : State) (c : Content) (id : String) (now : ℤ)
    → next_contract s ≡ none
    → (start_contract s c id now).1 ≢ ok tt
unfolding start_contract
none_left s c id now e q = let r = rw (e, start_contract) at q in ground arith

started-SameEconomy :
    (s : State) (c : Content) (id : String) (now : ℤ) (seed : ℕ)
    → SameEconomy (started s c id now) (new c seed now)
unfolding started
started-SameEconomy s c id now seed =
    let e = reset-SameEconomy s c now seed in
    record {
      coins = e.coins;
      plots = e.plots;
      purchased_plots = e.purchased_plots;
      zones = e.zones;
      multipliers = e.multipliers;
      seed_upgrades = e.seed_upgrades;
      scarecrows = e.scarecrows;
      run_earnings = e.run_earnings;
      prestige_currency = e.prestige_currency;
      upgrades = e.upgrades;
      gift_pending = e.gift_pending;
      event_id = e.event_id;
      updated_at = e.updated_at;
      contract_earnings = e.contract_earnings;
      contract_starseeds = e.contract_starseeds;
      contract_rebirths = e.contract_rebirths;
      tools = e.tools;
      scarecrow_clock = e.scarecrow_clock;
      gift_arrived_at = e.gift_arrived_at;
      event_started_at = e.event_started_at;
      event_ends_at = e.event_ends_at;
      last_crop = e.last_crop;
    }

started-SameLifetime :
    (s : State) (c : Content) (id : String) (now : ℤ) → SameLifetime (started s c id now) s
unfolding started reset_gameplay
started-SameLifetime s c id now = ground arith

-- A contract that starts is the one whose place in the table is the number of contracts completed,
-- none was active, and the save that results has it active, has every field of its economy as a new
-- farm of that time has it, and keeps all others but the mark that contracts are unlocked: the
-- achievements, the lifetime earnings and harvests, the rebirths, the contracts completed, the names
-- and the settings.
pub start_contract_in_order :
    (s : State) (c : Content) (id : String) (now : ℤ) (seed : ℕ)
    → (start_contract s c id now).1 ≡ ok tt
    → let t = (start_contract s c id now).0 in
      (s.active_contract ≡ "")
      × ((d : ContractDefinition) × (get_elem? contract_definitions (pos_part s.contracts_completed)
            ≡ some d)
          × (d.id ≡ id))
      × (t.active_contract ≡ id)
      × SameEconomy t (new c seed now)
      × SameLifetime t s
unfolding reset_gameplay started
start_contract_in_order s c id now seed q = elim (Option-cases (next_contract s)) [
  | inl e ↦ absurd (none_left s c id now e q)
  | inr (d, e) ↦
      let (idle, same, result) = accepted s c id now d e q in
      (
        idle,
        (d, next_after_lem s.contracts_completed d (unfold next_contract in e), same),
        rw result refl,
        rw result (started-SameEconomy s c id now seed),
        rw result (started-SameLifetime s c id now),
      )
]

bump_lem :
    (n : ℤ) → (neg_part n ≡ 0) × (pos_part n ≤ 3) → bump_completed n ≡ pos (min 3 (pos_part n + 1))
unfolding bump_completed
bump_lem (pos n) h = ground (arith, add64_pos n 1)
bump_lem (negsuc n) h = absurd (omega arith)

-- The save that `credit` hands to the test of the goal.
earned : State → ℤ → State
earned s amount = record (add_earnings s amount) {
  contract_earnings = sat_add s.contract_earnings amount;
}

credit-earned :
    (s : State) (n : ℕ)
    → s.active_contract ≡ "bare_hands"
    → 0 < n
    → credit s (pos n) ≡ check_contract_completion (earned s (pos n))
unfolding credit earned
credit-earned s n a p =
    let positive : leb_ℤ (pos n) (pos 0) ≡ false = ground arith in
    let active : is_active s ≡ true = rw (a, is_active) refl in
    rw (positive, if◌then◌else◌) (rw (active, if◌then◌else◌) refl)

goes_on :
    (t : State)
    → t.active_contract ≡ "bare_hands"
    → leb_ℤ (pos 100000) t.contract_earnings ≡ false
    → check_contract_completion t ≡ t
unfolding check_contract_completion contract_complete
goes_on t a h = simp (a, h, if◌then◌else◌)

ends :
    (t : State)
    → t.active_contract ≡ "bare_hands"
    → leb_ℤ (pos 100000) t.contract_earnings ≡ true
    → ((check_contract_completion t).active_contract ≡ "")
      × ((check_contract_completion t).contract_earnings ≡ pos 0)
      × ((check_contract_completion t).contracts_completed ≡ bump_completed t.contracts_completed)
unfolding check_contract_completion contract_complete
ends t a h = ground (arith, eq_iff t.active_contract "bare_hands")

-- In a valid save with Bare Hands active, a credit of n coins, 0 < n ≤ math.MaxInt64, is one of
-- two: the contract's earnings with n stay below 100,000, the contract goes on, and they are its
-- earnings; or they come to 100,000 or more and it ends, so that no contract is active, its count
-- is back at 0, and one contract more is completed, up to three.
pub credit_bare_hands :
    (s : State) (n : ℕ)
    → IsValid s
    → s.active_contract ≡ "bare_hands"
    → 0 < n
    → n ≤ max_int64
    → let t = credit s (pos n) in
      ((pos_part s.contract_earnings + n < 100000)
        × (t.active_contract ≡ "bare_hands")
        × (t.contract_earnings ≡ pos (pos_part s.contract_earnings + n))
        × (t.contracts_completed ≡ s.contracts_completed))
      ⊎ ((100000 ≤ pos_part s.contract_earnings + n)
          × (t.active_contract ≡ "")
          × (t.contract_earnings ≡ pos 0)
          × (t.contracts_completed ≡ pos (min 3 (pos_part s.contracts_completed + 1))))
unfolding earned add_earnings
credit_bare_hands s n v a p m =
    let t = earned s (pos n) in
    let sum = sat_add_lem s.contract_earnings (pos n) v.contract_earnings (omega arith) in
    rw (credit-earned s n a p) (elim (Bool-cases (leb_ℤ (pos 100000) t.contract_earnings)) [
      | inr e ↦
          let below : pos_part s.contract_earnings + n < 100000 = ground arith in
          let on = goes_on t a e in
          inl (below, rw on a, rw on (sum ∙ ap pos (omega arith)), rw on refl)
      | inl e ↦
          let there : 100000 ≤ pos_part s.contract_earnings + n = ground arith in
          let (idle, zeroed, counted) = ends t a e in
          inr (there, idle, zeroed, counted ∙ bump_lem s.contracts_completed v.contracts_completed)
    ])
