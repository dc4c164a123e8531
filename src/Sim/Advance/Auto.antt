-- ===== src/Sim/Advance/Auto.antt =====
-- internal/sim/advance.go: the cycles of a plot that harvests itself.
use ssh_farm.Prelude.{
  ℕ, zero, suc, ◌+◌, ℤ, pos, Bool, true, false, ◌&&◌, String, str_eq, none, some, if◌then◌else◌,
  ltb_ℤ, leb_ℤ, leb, add64, sub64, mul64, div64, min64, get_elem?, set,
}
use ssh_farm.Content
use ssh_farm.Content.{Content, Crop}
use ssh_farm.Host.{Host}
use ssh_farm.Sim.State.{State, Plot, sow_crop}
use ssh_farm.Sim.Money.{sat_add, sat_mul}
use ssh_farm.Sim.Contracts.{credit}
use ssh_farm.Sim.Derive.{seed_cost, unlocked, seasonal_plantable, grow_seconds}
use ssh_farm.Sim.Harvest.{harvest_payout, expected_payout, Yield}
use ssh_farm.Sim.Planting.{credit_yield}
use ssh_farm.Sim.Advance.Report.{Events, Tick, count_more}

abbrev pub auto_cycle_cap : ℕ
auto_cycle_cap = 50000

-- The variables of the loop: the crop that grows, its time, when it is ripe, the cycles done.
pub record Cursor : Type 0 where
  pub crop : Crop
  pub grow : ℤ
  pub mature_at : ℤ
  pub cycles : ℕ

-- How a round ends: with `break`, or with `continue` on the variables as they then stand.
pub data Turn : Type 0 where
  leave : Turn
  again : Cursor → Turn

-- A long catch-up in one step: the harvests that are due at their expected value.
abbrev pub rest_of : ℤ → Cursor → ℤ
rest_of to k = div64 (sub64 to k.mature_at) k.grow

abbrev pub after_batch : ℤ → Cursor → ℤ
after_batch to k = add64 k.mature_at (mul64 (rest_of to k) k.grow)

unfoldable pub sell_batch : ℤ → ℕ → Plot → Cursor → ℤ → ℤ → Tick → Tick
sell_batch to i p k gross cost (s, ev) =
    let n = add64 (rest_of to k) (pos 1) in
    let total_gross = sat_mul gross n in
    let t = credit s total_gross in
    let total_seeds = min64 (sat_mul cost n) t.coins in
    (
      record t {
        coins = sub64 t.coins total_seeds;
        lifetime_harvests = sat_add t.lifetime_harvests n;
        plots = set t.plots i (record p { planted_at = after_batch to k });
      },
      record ev {
        auto_coins = sat_add ev.auto_coins (sub64 total_gross total_seeds);
        auto_harvested = count_more k.crop.id n ev.auto_harvested;
      },
    )

unfoldable pub batch : Host → Content → ℤ → ℕ → Plot → Cursor → Tick → Tick × Turn
batch h c to i p k (s, ev) =
    let cost = seed_cost s c k.crop in
    let gross = expected_payout s c k.crop k.mature_at in
    if p.auto_sow && (leb_ℤ cost s.coins && seasonal_plantable h k.crop.unlock to)
    then if ltb_ℤ cost gross
      then (
        sell_batch to i p k gross cost (s, ev),
        again (record k { mature_at = add64 (after_batch to k) k.grow }),
      )
      else ((s, ev), leave)
    else ((s, ev), leave)

-- One harvest, with its entries in the report.
unfoldable pub report_yield : String → Yield → Events → Events
report_yield id y ev = record ev {
  auto_coins = sat_add ev.auto_coins y.payout;
  failed_harvests =
      if y.failed then count_more id (pos 1) ev.failed_harvests else ev.failed_harvests;
  golden_harvests = if y.golden then add64 ev.golden_harvests (pos 1) else ev.golden_harvests;
  discoveries = if ltb_ℤ (pos 0) y.discovery then add64 ev.discoveries (pos 1) else ev.discoveries;
  discovery_coins =
      if ltb_ℤ (pos 0) y.discovery
      then add64 ev.discovery_coins y.discovery
      else ev.discovery_coins;
  auto_harvested = count_more id (pos 1) ev.auto_harvested;
}

unfoldable pub reap : Content → Cursor → Tick → Tick
reap c k (s, ev) =
    let (s1, y) = harvest_payout s c k.crop k.mature_at in
    let s2 = credit_yield s1 y in
    (
      record s2 { lifetime_harvests = sat_add s2.lifetime_harvests (pos 1) },
      report_yield k.crop.id y ev,
    )

-- The crop to sow: the one that is queued, if the content knows it, else the one harvested.
unfoldable pub sow_choice : Content → Plot → Crop → Crop
sow_choice c p crop =
    let next = sow_crop p in
    if str_eq next crop.id
    then crop
    else elim (Content.crop c next) [ none ↦ crop | some other ↦ other ]

unfoldable pub switched : State → Content → Crop → Cursor → Cursor
switched s c sow k =
    if str_eq sow.id k.crop.id then k else record k { crop = sow; grow = grow_seconds s c sow }

unfoldable pub resow : Content → ℕ → Plot → Cursor → Crop → Tick → Tick × Turn
resow c i p k sow (s, ev) =
    let cost = seed_cost s c sow in
    let t = record s { coins = sub64 s.coins cost } in
    let next = switched t c sow k in
    (
      (
        record t {
          plots = set t.plots i (record p {
            crop = if str_eq sow.id k.crop.id then p.crop else sow.id;
            planted_at = k.mature_at;
          });
        },
        record ev { auto_coins = sub64 ev.auto_coins cost },
      ),
      again (record next { mature_at = add64 k.mature_at next.grow; cycles = k.cycles + 1 }),
    )

unfoldable pub lie_fallow : ℕ → Plot → Tick → Tick × Turn
lie_fallow i p (s, ev) =
    ((record s { plots = set s.plots i (record p { crop = ""; planted_at = pos 0 }) }, ev), leave)

unfoldable pub after_harvest : Host → Content → ℤ → ℕ → Plot → Cursor → Tick → Tick × Turn
after_harvest h c to i p k (s, ev) =
    let sow = sow_choice c p k.crop in
    if p.auto_sow
    then if leb_ℤ (seed_cost s c sow) s.coins
        && (unlocked s sow.unlock && seasonal_plantable h sow.unlock to)
      then resow c i p k sow (s, ev)
      else lie_fallow i p (s, ev)
    else lie_fallow i p (s, ev)

-- One round of the loop, on the plot as it then stands.
unfoldable pub round : Host → Content → ℤ → ℕ → Plot → Cursor → Tick → Tick × Turn
round h c to i p k tick =
    if leb auto_cycle_cap k.cycles
    then batch h c to i p k tick
    else after_harvest h c to i p k (reap c k tick)

-- What follows a round.
abbrev pub turn_with : Turn → Tick → (Cursor → Tick × Bool) → Tick × Bool
turn_with leave tick go = (tick, true)
turn_with (again k) tick go = go k

-- The loop on fuel; the Boolean is whether it came to its end.
unfoldable pub cycle : ℕ → Host → Content → ℤ → ℕ → Cursor → Tick → Tick × Bool
cycle zero h c to i k tick = (tick, false)
cycle (suc fuel) h c to i k tick = elim (leb_ℤ k.mature_at to) [
  | false ↦ (tick, true)
  | true ↦ elim (get_elem? tick.0.plots i) [
    | none ↦ (tick, true)
    | some p ↦
        let (next, turn) = round h c to i p k tick in
        turn_with turn next (λ k'. cycle fuel h c to i k' next)
  ]
]
