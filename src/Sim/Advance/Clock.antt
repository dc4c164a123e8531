-- ===== src/Sim/Advance/Clock.antt =====
-- internal/sim/advance.go: Advance.
use ssh_farm.Prelude.{
  ℕ, zero, suc, ◌+◌, ℤ, pos, Bool, not, ◌||◌, str_eq, none, some, if◌then◌else◌, ltb_ℤ, leb_ℤ,
  add64, sub64, get_elem?, length,
}
use ssh_farm.Content
use ssh_farm.Content.{Content, Crop}
use ssh_farm.Host.{Host}
use ssh_farm.Sim.State.{State, Plot}
use ssh_farm.Sim.Contracts.{
  contract_blocks_automation, contract_blocks_events, contract_blocks_gifts,
}
use ssh_farm.Sim.Derive.{grow_seconds}
use ssh_farm.Sim.Scarecrows.{advance_scarecrows}
use ssh_farm.Sim.Advance.Report.{Events, Tick, no_events, count_more, check_achievements}
use ssh_farm.Sim.Advance.Visits.{
  drop_event, expire_event, roll_online_event, roll_gift_arrival, maybe_critter_visit,
}
use ssh_farm.Sim.Advance.Auto.{auto_cycle_cap, Cursor, cycle}

abbrev pub online_tick_threshold : ℤ
online_tick_threshold = pos 2

-- A plot that waits for its farmer: the report says when its crop has ripened.
unfoldable pub note_matured : ℤ → ℤ → Crop → ℤ → Events → Events
note_matured from to crop mature_at ev =
    if ltb_ℤ from mature_at
    then if leb_ℤ mature_at to
      then record ev { matured = count_more crop.id (pos 1) ev.matured }
      else ev
    else ev

-- More rounds than the cap and a batch never follow each other.
abbrev pub cycle_fuel : ℕ
cycle_fuel = auto_cycle_cap + 2

-- The loop's variables at its start.
abbrev pub first_cursor : State → Content → Plot → Crop → Cursor
first_cursor s c p crop = record {
  crop = crop;
  grow = grow_seconds s c crop;
  mature_at = add64 p.planted_at (grow_seconds s c crop);
  cycles = 0;
}

unfoldable pub grow_plot : Host → Content → ℤ → ℤ → ℕ → Plot → Crop → Tick → Tick
grow_plot h c from to i p crop (s, ev) =
    let k = first_cursor s c p crop in
    if not p.auto_harvest || contract_blocks_automation s
    then (s, note_matured from to crop k.mature_at ev)
    else (cycle cycle_fuel h c to i k (s, ev)).0

unfoldable pub advance_plot : Host → Content → ℤ → ℤ → Bool → ℕ → Plot → Tick → Tick
advance_plot h c from to online i p tick =
    if str_eq p.crop ""
    then if online then maybe_critter_visit c i p tick else tick
    else elim (Content.crop c p.crop) [
      | none ↦ tick
      | some crop ↦ grow_plot h c from to i p crop tick
    ]

-- The loop over the plots, from index i for k rounds.
unfoldable pub advance_plots : Host → Content → ℤ → ℤ → Bool → ℕ → ℕ → Tick → Tick
advance_plots h c from to online zero i tick = tick
advance_plots h c from to online (suc k) i tick = elim (get_elem? tick.0.plots i) [
  | none ↦ tick
  | some p ↦ advance_plots h c from to online k (i + 1) (advance_plot h c from to online i p tick)
]

-- Events and parcels, before the plots.
unfoldable pub roll_visits : Content → ℤ → Bool → ℤ → Tick → Tick
roll_visits c elapsed online to (s, ev) =
    let (t, ev1) =
      if online
      then if contract_blocks_events s then (s, ev) else roll_online_event c elapsed to (s, ev)
      else (s, ev) in
    if contract_blocks_gifts t then (t, ev1) else roll_gift_arrival c elapsed online to (t, ev1)

unfoldable pub drop_coins : Content → ℤ → Bool → Tick → Tick
drop_coins c elapsed online (s, ev) =
    let (t, coins) = advance_scarecrows s c elapsed online in
    (t, record ev { scarecrow_coins = coins })

-- The end of Advance: the clock, the achievements, and the contract that was completed.
unfoldable pub settle : Content → ℤ → State → Tick → Tick
settle c to before (s, ev) =
    let (t, newly) = check_achievements (record s { updated_at = to }) c to in
    (
      t,
      record ev {
        achievements = newly;
        contract_completed =
            if ltb_ℤ before.contracts_completed t.contracts_completed
            then before.active_contract
            else "";
      },
    )

unfoldable pub run_advance : Host → State → Content → ℤ → Tick
run_advance h s c to =
    let elapsed = sub64 to s.updated_at in
    let online = leb_ℤ elapsed online_tick_threshold in
    let start = expire_event to (drop_event s, record no_events { elapsed = elapsed }) in
    let tick = drop_coins c elapsed online (roll_visits c elapsed online to start) in
    settle c to s (advance_plots h c s.updated_at to online (length tick.0.plots) 0 tick)

unfoldable pub advance : Host → State → Content → ℤ → Tick
advance h s c to = if leb_ℤ to s.updated_at then (s, no_events) else run_advance h s c to
