-- ===== src/Sim/Campaign.antt =====
-- internal/sim/actions.go and contracts.go: gifts, critters, rebirth, contracts and the settings.
use ssh_farm.Prelude.{
  ℤ, pos, Bool, true, false, not, String, str_eq, [], none, some, if◌then◌else◌, ltb, ltb_ℤ, leb_ℤ,
  add64, sub64, mul64, div64, get_index, set_index, max64,
}
use ssh_farm.Content.{Content}
use ssh_farm.Host.{Host}
use ssh_farm.Sim.State.{State, make_plots}
use ssh_farm.Sim.Money.{sat_add}
use ssh_farm.Sim.Random.{roll100, roll_range}
use ssh_farm.Sim.Root.{isqrt}
use ssh_farm.Sim.Contracts.{
  is_active, progression_rebirths, contract_blocks_gifts, next_contract, contracts_available,
  reset_gameplay, credit, credit_starseeds, check_contract_completion, available_name_styles,
  known_name_style, contains,
}
use ssh_farm.Sim.Derive.{can_rebirth, prestige_gain, start_coins}
use ssh_farm.Sim.Scarecrows.{collect_scarecrows, shoo_scaled}
use ssh_farm.Sim.Outcome.{
  Outcome, ok, refuse, unknown_plot, no_gift, no_critter, name_too_long, name_empty,
  rebirth_too_soon, contracts_locked, contract_sequence, contract_active, no_active_contract,
  contract_restricted, name_style_locked, unknown_name_style,
}

pub record GiftResult : Type 0 where
  pub coins : ℤ
  pub starseeds : ℤ

-- The two clamps of giftCoinReward, in its order: the ceiling is applied last.
unfoldable pub clamp_reward : Content → ℤ → ℤ
clamp_reward c n =
    let low = if ltb_ℤ n c.gifts.coin_reward_floor then c.gifts.coin_reward_floor else n in
    if ltb_ℤ c.gifts.coin_reward_ceiling low then c.gifts.coin_reward_ceiling else low

unfoldable pub gift_coin_reward : Host → State → Content → State × ℤ
gift_coin_reward h s c =
    let base = clamp_reward c (
      add64 (add64 (isqrt h (div64 s.run_earnings (pos 10))) (pos 10))
        (mul64 (progression_rebirths s) (pos 50))) in
    let (s', jitter) = roll_range s (div64 (sub64 (pos 0) base) (pos 5)) (div64 base (pos 5)) in
    (s', clamp_reward c (add64 base jitter))

unfoldable pub gift_starseeds : Host → State → Content → ℤ
gift_starseeds h s c =
    let base = add64 (isqrt h (div64 s.run_earnings c.prestige.divisor)) (pos 1) in
    add64 (max64 base (pos 1)) (progression_rebirths s)

unfoldable pub give_starseeds : Host → State → Content → Outcome GiftResult
give_starseeds h s c =
    let n = gift_starseeds h s c in
    (credit_starseeds s n, ok (record { coins = pos 0; starseeds = n }))

unfoldable pub give_coins : Host → State → Content → Outcome GiftResult
give_coins h s c =
    let (t, n) = gift_coin_reward h s c in
    (credit t n, ok (record { coins = n; starseeds = pos 0 }))

-- The parcel is opened. The Starseed roll is made only after a first rebirth.
unfoldable pub open_gift : Host → State → Content → Outcome GiftResult
open_gift h s c =
    let (t, roll) = roll100 s in
    if leb_ℤ (pos 1) (progression_rebirths s)
    then if ltb_ℤ roll c.gifts.starseed_chance_pct then give_starseeds h t c else give_coins h t c
    else give_coins h s c

-- RedeemGift
unfoldable pub redeem_gift : Host → State → Content → Outcome GiftResult
redeem_gift h s c =
    if contract_blocks_gifts s
    then refuse s contract_restricted
    else if not s.gift_pending
    then refuse s no_gift
    else open_gift h (record s { gift_pending = false; gift_arrived_at = pos 0 }) c

-- ShooCritter
unfoldable pub pay_shoo : State → Content → Outcome ℤ
pay_shoo s c =
    let (t, roll) = roll_range s c.critters.shoo_reward_min c.critters.shoo_reward_max in
    let reward = shoo_scaled t c roll in (credit t reward, ok reward)

unfoldable pub shoo_critter : State → Content → ℤ → Outcome ℤ
shoo_critter s c i = elim (get_index s.plots i) [
  | none ↦ refuse s unknown_plot
  | some p ↦
      if str_eq p.critter ""
      then refuse s no_critter
      else pay_shoo (record s { plots = set_index s.plots i (record p { critter = "" }) }) c
]

-- SetFarmName
unfoldable pub set_farm_name : Host → State → String → Outcome (Unit {0})
set_farm_name h s raw =
    let name = h.trim_space raw in
    if str_eq name ""
    then refuse s name_empty
    else if ltb 24 (h.rune_count name)
    then refuse s name_too_long
    else (record s { farm_name = name }, ok tt)

-- Rebirth: the award, and then the new run.
unfoldable pub award : State → ℤ → State
award s gain =
    let t = record s { prestige_currency = sat_add s.prestige_currency gain } in
    if is_active s
    then record t {
      contract_starseeds = sat_add s.contract_starseeds gain;
      contract_rebirths = sat_add s.contract_rebirths (pos 1);
    }
    else t

unfoldable pub new_run : State → Content → ℤ → State
new_run s c now = record s {
  rebirths = add64 s.rebirths (pos 1);
  coins = start_coins c s.upgrades;
  plots = make_plots c.start.plots;
  purchased_plots = pos 0;
  tools = [];
  zones = [];
  multipliers = [];
  seed_upgrades = [];
  scarecrows = [];
  scarecrow_clock = pos 0;
  run_earnings = pos 0;
  event_id = "";
  event_started_at = pos 0;
  event_ends_at = pos 0;
  updated_at = now;
}

unfoldable pub rebirth : Host → State → Content → ℤ → Outcome ℤ
rebirth h s c now =
    let t = (collect_scarecrows s).0 in
    let gain = prestige_gain h t c in
    if not (can_rebirth h s c)
    then refuse s rebirth_too_soon
    else (check_contract_completion (new_run (award t gain) c now), ok gain)

-- StartContract
unfoldable pub start_contract : State → Content → String → ℤ → Outcome (Unit {0})
start_contract s c id now =
    if is_active s then refuse s contract_active else elim (next_contract s) [
      | none ↦ refuse s contract_sequence
      | some next ↦
          if not (str_eq next.id id)
          then refuse s contract_sequence
          else if not (contracts_available s c)
          then refuse s contracts_locked
          else (
            record (reset_gameplay s c now) { contracts_unlocked = true; active_contract = id },
            ok tt,
          )
    ]

-- AbandonContract
unfoldable pub abandon_contract : State → Content → ℤ → Outcome (Unit {0})
abandon_contract s c now =
    if not (is_active s)
    then refuse s no_active_contract
    else (record (reset_gameplay s c now) { active_contract = "" }, ok tt)

-- SetLeaderboardNameStyle
unfoldable pub set_name_style : State → String → Outcome (Unit {0})
set_name_style s style =
    if not (known_name_style style)
    then refuse s unknown_name_style
    else if contains style (available_name_styles s)
    then (record s { leaderboard_name_style = style }, ok tt)
    else refuse s name_style_locked

unfoldable pub set_flavor : State → Bool → State
set_flavor s enabled = record s { flavor_enabled = enabled }

unfoldable pub set_theme_solid : State → Bool → State
set_theme_solid s enabled = record s { theme_solid = enabled }

unfoldable pub set_seasonal : State → Bool → State
set_seasonal s enabled = record s { seasonal_off = not enabled }
