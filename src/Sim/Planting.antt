-- ===== src/Sim/Planting.antt =====
-- internal/sim/actions.go: Plant, ReplantAll and Harvest.
use ssh_farm.Prelude.{
  ℕ, ◌+◌, ℤ, pos, not, ◌&&◌, ◌||◌, String, str_eq, List, [], ◌∷◌, none, some, if◌then◌else◌, ltb_ℤ,
  add64, sub64, get_index, set_index, set,
}
use ssh_farm.Content
use ssh_farm.Content.{Content, Crop}
use ssh_farm.Host.{Host}
use ssh_farm.Sim.State.{State, Plot, empty_plot}
use ssh_farm.Sim.Money.{sat_add}
use ssh_farm.Sim.Contracts.{credit}
use ssh_farm.Sim.Derive.{
  unlocked, seasonal_plantable, seed_cost, mercy_plant_eligible, grow_seconds,
}
use ssh_farm.Sim.Harvest.{harvest_payout, Yield}
use ssh_farm.Sim.Outcome.{
  Outcome, ok, refuse, unknown_plot, plot_occupied, plot_empty, not_mature, unknown_crop, locked,
  cant_afford,
}

-- The plot as it stands after a seed is sown on it.
abbrev pub planted : Plot → String → ℤ → Plot
planted p crop_id now = record empty_plot {
  crop = crop_id;
  planted_at = now;
  auto_harvest = p.auto_harvest;
  auto_sow = p.auto_sow;
  last_crop = crop_id;
}

-- The last part of Plant: the price, and the sowing.
unfoldable pub sow : Host → State → Content → ℤ → Plot → Crop → String → ℤ → Outcome (Unit {0})
sow h s c i p crop crop_id now =
    let cost = seed_cost s c crop in
    let mercy = mercy_plant_eligible s c crop_id && seasonal_plantable h crop.unlock now in
    if not mercy && ltb_ℤ s.coins cost then refuse s cant_afford else (
      record s {
        coins = if mercy then s.coins else sub64 s.coins cost;
        plots = set_index s.plots i (planted p crop_id now);
        last_crop = crop_id;
      },
      ok tt,
    )

unfoldable pub plant_on : Host → State → Content → ℤ → Plot → String → ℤ → Outcome (Unit {0})
plant_on h s c i p crop_id now =
    if not (str_eq p.crop "") then refuse s plot_occupied else elim (Content.crop c crop_id) [
      | none ↦ refuse s unknown_crop
      | some crop ↦
          if not (unlocked s crop.unlock) || not (seasonal_plantable h crop.unlock now)
          then refuse s locked
          else sow h s c i p crop crop_id now
    ]

unfoldable pub plant : Host → State → Content → ℤ → String → ℤ → Outcome (Unit {0})
plant h s c i crop_id now = elim (get_index s.plots i) [
  | none ↦ refuse s unknown_plot
  | some p ↦ plant_on h s c i p crop_id now
]

pub record ReplantResult : Type 0 where
  pub planted : ℤ
  pub spent : ℤ
  pub short : ℤ
  pub locked : ℤ

pub record Candidate : Type 0 where
  pub idx : ℕ
  pub crop_id : String
  pub cost : ℤ

-- What an empty plot is to be replanted with.
unfoldable pub replant_choice : State → Plot → String
replant_choice s p = if str_eq p.last_crop "" then s.last_crop else p.last_crop

pub data Replant : Type 0 where
  skip : Replant
  lock : Replant
  candidate : Candidate → Replant

unfoldable pub consider : Host → State → Content → ℤ → ℕ → Plot → Replant
consider h s c now i p =
    let crop_id = replant_choice s p in
    if not (str_eq p.crop "") || str_eq crop_id "" then skip else elim (Content.crop c crop_id) [
      | none ↦ lock
      | some crop ↦
          if not (unlocked s crop.unlock) || not (seasonal_plantable h crop.unlock now)
          then lock
          else candidate (record { idx = i; crop_id = crop_id; cost = seed_cost s c crop })
    ]

-- The first loop: the candidates in plot order, and how many plots are locked.
unfoldable pub candidates : Host → State → Content → ℤ → ℕ → List Plot → List Candidate × ℤ
candidates h s c now i [] = ([], pos 0)
candidates h s c now i (p ∷ ps) =
    let (rest, count) = candidates h s c now (i + 1) ps in
    elim (consider h s c now i p) [
      | skip ↦ (rest, count)
      | lock ↦ (rest, add64 count (pos 1))
      | candidate cd ↦ (cd ∷ rest, count)
    ]

-- sort.SliceStable by falling cost.
unfoldable pub insert_candidate : Candidate → List Candidate → List Candidate
insert_candidate cd [] = cd ∷ []
insert_candidate cd (d ∷ ds) =
    if ltb_ℤ cd.cost d.cost then d ∷ insert_candidate cd ds else cd ∷ d ∷ ds

unfoldable pub sort_candidates : List Candidate → List Candidate
sort_candidates [] = []
sort_candidates (cd ∷ cds) = insert_candidate cd (sort_candidates cds)

-- One round of the second loop.
unfoldable pub replant_at : ℤ → State → Candidate → Plot → State
replant_at now s cd p = record s {
  coins = sub64 s.coins cd.cost;
  plots = set s.plots cd.idx (planted p cd.crop_id now);
  last_crop = cd.crop_id;
}

unfoldable pub replant_one : ℤ → State × ReplantResult → Candidate → State × ReplantResult
replant_one now (s, res) cd =
    if ltb_ℤ s.coins cd.cost
    then (s, record res { short = add64 res.short (pos 1) })
    else elim (get_index s.plots (pos cd.idx)) [
      | none ↦ (s, res)
      | some p ↦ (
        replant_at now s cd p,
        record res { spent = add64 res.spent cd.cost; planted = add64 res.planted (pos 1) },
      )
    ]

unfoldable pub replant_each : ℤ → State × ReplantResult → List Candidate → State × ReplantResult
replant_each now acc [] = acc
replant_each now acc (cd ∷ cds) = replant_each now (replant_one now acc cd) cds

unfoldable pub replant_all : Host → State → Content → ℤ → State × ReplantResult
replant_all h s c now =
    let (cands, locked_plots) = candidates h s c now 0 s.plots in
    replant_each now
      (s, record { planted = pos 0; spent = pos 0; short = pos 0; locked = locked_plots })
      (sort_candidates cands)

pub record HarvestResult : Type 0 where
  pub crop_id : String
  pub yield : Yield

-- The plot that a harvest leaves.
abbrev pub harvested : Plot → Plot
harvested p = record empty_plot {
  auto_harvest = p.auto_harvest;
  auto_sow = p.auto_sow;
  last_crop = p.crop;
}

unfoldable pub credit_yield : State → Yield → State
credit_yield s y =
    let t = credit s y.payout in if ltb_ℤ (pos 0) y.discovery then credit t y.discovery else t

unfoldable pub gather : State → Content → ℤ → Plot → Crop → ℤ → Outcome HarvestResult
gather s c i p crop now =
    let (s1, y) = harvest_payout s c crop now in
    let s2 = credit_yield s1 y in
    (
      record s2 {
        lifetime_harvests = sat_add s2.lifetime_harvests (pos 1);
        plots = set_index s2.plots i (harvested p);
      },
      ok (record { crop_id = crop.id; yield = y }),
    )

unfoldable pub harvest : State → Content → ℤ → ℤ → Outcome HarvestResult
harvest s c i now = elim (get_index s.plots i) [
  | none ↦ refuse s unknown_plot
  | some p ↦ if str_eq p.crop "" then refuse s plot_empty else elim (Content.crop c p.crop) [
    | none ↦ refuse s unknown_crop
    | some crop ↦
        if ltb_ℤ now (add64 p.planted_at (grow_seconds s c crop))
        then refuse s not_mature
        else gather s c i p crop now
  ]
]
