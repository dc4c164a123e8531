-- ===== src/Sim/Valid/Passing.antt =====
-- Advance of internal/sim/advance.go keeps the ledger valid.
use ssh_farm.Prelude.{
  ℕ, zero, suc, ◌+◌, ◌≡◌, ◌∙◌, sym, subst, ℤ, Bool, arith, Option-cases, Bool-cases, inl, inr,
  if◌then◌else◌, leb_ℤ, get_elem?, str_eq, not, ◌||◌, sub64, IsInt64,
}
use ssh_farm.Content
use ssh_farm.Content.{Content, Crop}
use ssh_farm.Host.{Host}
use ssh_farm.Sim.State.{State, Plot}
use ssh_farm.Sim.Contracts.{contract_blocks_automation}
use ssh_farm.Sim.Advance.Report.{Events, Tick, no_events}
use ssh_farm.Sim.Advance.Visits.{drop_event, expire_event, roll_online_event}
use ssh_farm.Sim.Advance.Clock.{
  grow_plot, cycle_fuel, advance_plot, advance_plots, roll_visits, drop_coins, settle, run_advance,
  advance, online_tick_threshold,
}
use ssh_farm.Sim.Valid.{IsValid, IsLedger, IsContent, ledger}
use ssh_farm.Sim.Valid.Farming.{sell_value-IsInt64}
use ssh_farm.Sim.Valid.Visits.{
  ledger-expire_event, ledger-roll_gift_arrival, ledger-roll_online_event,
  ledger-maybe_critter_visit, ledger-check_achievements,
}
use ssh_farm.Sim.Valid.Drops.{advance_scarecrows-IsValid}
use ssh_farm.Sim.Valid.Catchup.{cycle-IsValid}

grow_plot-IsValid :
    (h : Host) (c : Content) (from to : ℤ) (i : ℕ) (p : Plot) (crop : Crop) (tick : Tick)
    → IsContent c
    → IsInt64 crop.sell_value
    → IsValid tick.0
    → IsValid (grow_plot h c from to i p crop tick).0
unfolding grow_plot
grow_plot-IsValid h c from to i p crop (s, ev) m b v =
    elim (Bool-cases (not p.auto_harvest || contract_blocks_automation s)) [
      | inl e ↦ rw (e, if◌then◌else◌) v
      | inr e ↦ rw (e, if◌then◌else◌) (cycle-IsValid cycle_fuel h c to i _ (s, ev) m b v)
    ]

advance_plot-IsValid :
    (h : Host) (c : Content) (from to : ℤ) (online : Bool) (i : ℕ) (p : Plot) (tick : Tick)
    → IsContent c
    → IsValid tick.0
    → IsValid (advance_plot h c from to online i p tick).0
unfolding advance_plot
advance_plot-IsValid h c from to online i p (s, ev) m v = elim (Bool-cases (str_eq p.crop "")) [
  | inl e ↦
      let visited = subst IsLedger (sym (ledger-maybe_critter_visit c i p s ev)) v in
      rw (e, if◌then◌else◌) (ground (arith, v, visited))
  | inr e ↦ elim (Option-cases (Content.crop c p.crop)) [
    | inl f ↦ rw (e, if◌then◌else◌) (rw f v)
    | inr (crop, f) ↦
        rw (e, if◌then◌else◌)
          (rw f
            (grow_plot-IsValid h c from to i p crop (s, ev) m (sell_value-IsInt64 c p.crop m f) v))
  ]
]

advance_plots-IsValid :
    (h : Host) (c : Content) (from to : ℤ) (online : Bool) (k i : ℕ) (tick : Tick)
    → IsContent c
    → IsValid tick.0
    → IsValid (advance_plots h c from to online k i tick).0
unfolding advance_plots
advance_plots-IsValid h c from to online zero i tick m v = v
advance_plots-IsValid h c from to online (suc k) i tick m v =
    elim (Option-cases (get_elem? tick.0.plots i)) [
      | inl e ↦ rw (e, advance_plots) v
      | inr (p, e) ↦
          rw (e, advance_plots)
            (advance_plots-IsValid h c from to online k (i + 1)
              (advance_plot h c from to online i p tick) m
              (advance_plot-IsValid h c from to online i p tick m v))
    ]

ledger-roll_visits :
    (c : Content) (elapsed : ℤ) (online : Bool) (to : ℤ) (s : State) (ev : Events)
    → ledger (roll_visits c elapsed online to (s, ev)).0 ≡ ledger s
unfolding roll_visits
ledger-roll_visits c elapsed online to s ev =
    let (t, rolled) = roll_online_event c elapsed to (s, ev) in
    ground (
      arith,
      ledger-roll_online_event c elapsed to s ev,
      ledger-roll_gift_arrival c elapsed online to s ev,
      ledger-roll_gift_arrival c elapsed online to t rolled,
    )

drop_coins-IsValid :
    (c : Content) (elapsed : ℤ) (online : Bool) (tick : Tick)
    → IsValid tick.0
    → IsValid (drop_coins c elapsed online tick).0
unfolding drop_coins
drop_coins-IsValid c elapsed online (s, ev) v = advance_scarecrows-IsValid s c elapsed online v

settle-IsValid :
    (c : Content) (to : ℤ) (before : State) (tick : Tick)
    → IsValid tick.0
    → IsValid (settle c to before tick).0
unfolding settle
settle-IsValid c to before (s, ev) v =
    subst IsLedger (sym (ledger-check_achievements (record s { updated_at = to }) c to)) v

run_advance-IsValid :
    (h : Host) (s : State) (c : Content) (to : ℤ)
    → IsContent c
    → IsValid s
    → IsValid (run_advance h s c to).0
unfolding run_advance
run_advance-IsValid h s c to m v =
    let elapsed = sub64 to s.updated_at in
    let online = leb_ℤ elapsed online_tick_threshold in
    let ev = record no_events { elapsed = elapsed } in
    let start = expire_event to (drop_event s, ev) in
    let kept =
      ledger-roll_visits c elapsed online to start.0 start.1 ∙ ledger-expire_event s ev to in
    let visited = roll_visits c elapsed online to start in
    let w : IsValid visited.0 = subst IsLedger (sym kept) v in
    settle-IsValid c to s _ (
      advance_plots-IsValid h c s.updated_at to online _ 0 _ m
        (drop_coins-IsValid c elapsed online visited w))

pub advance-IsValid :
    (h : Host) (s : State) (c : Content) (to : ℤ)
    → IsContent c
    → IsValid s
    → IsValid (advance h s c to).0
unfolding advance
advance-IsValid h s c to m v = elim (Bool-cases (leb_ℤ to s.updated_at)) [
  | inl e ↦ rw (e, if◌then◌else◌) v
  | inr e ↦ rw (e, if◌then◌else◌) (run_advance-IsValid h s c to m v)
]
