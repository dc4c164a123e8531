-- ===== src/Sim/Harvest.antt =====
-- internal/sim/advance.go: what one harvest pays, by the save's own random stream.
use ssh_farm.Prelude.{
  ℤ, pos, Bool, true, false, ◌&&◌, str_eq, if◌then◌else◌, ltb_ℤ, mul64, div64, add64, sub64,
}
use ssh_farm.Content.{Content, Crop}
use ssh_farm.Sim.State.{State, seed_upgrade_level, salvage_numerator}
use ssh_farm.Sim.Random.{roll100, roll_range}
use ssh_farm.Sim.Derive.{sell_multiplied}

unfoldable pub salvage_base : State → Crop → ℤ
salvage_base s crop =
    div64 (mul64 crop.sell_value (salvage_numerator (seed_upgrade_level s crop.id))) (pos 8)

-- A risky crop may fail, and then leaves its salvage.
unfoldable pub roll_failure : State → Crop → State × ℤ × Bool
roll_failure s crop =
    let (s', roll) = roll100 s in
    if str_eq crop.archetype "risky"
    then if ltb_ℤ roll crop.fail_chance_pct
      then (s', salvage_base s' crop, true)
      else (s', crop.sell_value, false)
    else (s, crop.sell_value, false)

unfoldable pub golden_payout : Content → ℤ → ℤ
golden_payout c payout =
    let mult = c.golden_harvest.multiplier in
    div64 (mul64 payout (if ltb_ℤ mult (pos 10) then pos 10 else mult)) (pos 10)

unfoldable pub roll_golden : State → Content → ℤ → State × ℤ × Bool
roll_golden s c payout =
    let (s', roll) = roll100 s in
    if ltb_ℤ (pos 0) c.golden_harvest.chance_pct
    then if ltb_ℤ roll c.golden_harvest.chance_pct
      then (s', golden_payout c payout, true)
      else (s', payout, false)
    else (s, payout, false)

unfoldable pub roll_discovery : State → Content → State × ℤ
roll_discovery s c =
    let (s', roll) = roll100 s in
    if c.flavor.enabled && (s.flavor_enabled && ltb_ℤ (pos 0) c.flavor.discovery_chance_pct)
    then if ltb_ℤ roll c.flavor.discovery_chance_pct
      then roll_range s' c.flavor.discovery_min c.flavor.discovery_max
      else (s', pos 0)
    else (s, pos 0)

pub record Yield : Type 0 where
  pub payout : ℤ
  pub discovery : ℤ
  pub failed : Bool
  pub golden : Bool

unfoldable pub harvest_payout : State → Content → Crop → ℤ → State × Yield
harvest_payout s c crop now =
    let (s1, base, failed) = roll_failure s crop in
    let (s2, payout, golden) = roll_golden s1 c (sell_multiplied s1 c base crop.id now) in
    let (s3, discovery) = roll_discovery s2 c in
    (s3, record { payout = payout; discovery = discovery; failed = failed; golden = golden })

-- expectedPayout
unfoldable pub expected_payout : State → Content → Crop → ℤ → ℤ
expected_payout s c crop now =
    let fail_pct = crop.fail_chance_pct in
    let base =
      div64
        (add64 (mul64 fail_pct (salvage_base s crop))
          (mul64 (sub64 (pos 100) fail_pct) crop.sell_value))
        (pos 100) in
    if str_eq crop.archetype "risky"
    then sell_multiplied s c base crop.id now
    else sell_multiplied s c crop.sell_value crop.id now
