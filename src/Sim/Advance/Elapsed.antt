-- ===== src/Sim/Advance/Elapsed.antt =====
-- The elapsed time that Advance of internal/sim/advance.go reports.
use ssh_farm.Prelude.{
  ℕ, Option, zero, suc, ◌+◌, ℤ, ◌≡◌, refl, ◌∙◌, Bool, true, false, not, ◌||◌, Bool-cases,
  Option-cases, inl, inr, none, some, if◌then◌else◌, str_eq, leb_ℤ, leb, sub64, ◌==◌, get_elem?,
  length, arith,
}
use ssh_farm.Content
use ssh_farm.Content.{Content, Crop, Event}
use ssh_farm.Host.{Host}
use ssh_farm.Sim.State.{State, Plot}
use ssh_farm.Sim.Contracts.{
  contract_blocks_automation, contract_blocks_events, contract_blocks_gifts,
}
use ssh_farm.Sim.Derive.{event_active}
use ssh_farm.Sim.Advance.Report.{Events, Tick}
use ssh_farm.Sim.Advance.Visits.{
  drop_event, expire_event, roll_online_event, roll_gift_arrival, maybe_critter_visit, try_gift,
  try_event, start_event, begin_event, settle_critter,
}
use ssh_farm.Sim.Advance.Auto.{
  Cursor, Turn, leave, again, turn_with, batch, sell_batch, report_yield, reap, resow, lie_fallow,
  after_harvest, round, cycle, auto_cycle_cap,
}
use ssh_farm.Sim.Advance.Clock.{
  note_matured, grow_plot, advance_plot, advance_plots, roll_visits, drop_coins, settle,
  run_advance, cycle_fuel, first_cursor,
}

expire_event-elapsed :
    (to : ℤ) (s : State) (ev : Events) → (expire_event to (s, ev)).1.elapsed ≡ ev.elapsed
unfolding expire_event
expire_event-elapsed to s ev = ground arith

roll_gift_arrival-elapsed :
    (c : Content) (t : ℤ) (on : Bool) (to : ℤ) (k : Tick)
    → (roll_gift_arrival c t on to k).1.elapsed ≡ k.1.elapsed
unfolding roll_gift_arrival try_gift
roll_gift_arrival-elapsed c t on to (s, ev) = ground arith

start_event-elapsed :
    (c : Content) (to : ℤ) (k : Tick) → (start_event c to k).1.elapsed ≡ k.1.elapsed
unfolding start_event begin_event
start_event-elapsed c to (s, ev) = ground arith

either-elapsed :
    (b : Bool) (x y : Tick) (e : ℤ)
    → x.1.elapsed ≡ e
    → y.1.elapsed ≡ e
    → (if b then x else y).1.elapsed ≡ e
either-elapsed true x y e h k = h
either-elapsed false x y e h k = k

try_event-elapsed :
    (c : Content) (t to : ℤ) (k : Tick) → (try_event c t to k).1.elapsed ≡ k.1.elapsed
unfolding try_event
try_event-elapsed c t to (s, ev) = either-elapsed _ _ _ ev.elapsed refl (start_event-elapsed c to _)

roll_online_event-elapsed :
    (c : Content) (t to : ℤ) (k : Tick) → (roll_online_event c t to k).1.elapsed ≡ k.1.elapsed
unfolding roll_online_event
roll_online_event-elapsed c t to (s, ev) =
    either-elapsed (length c.events == 0) (s, ev) _ ev.elapsed refl
      (either-elapsed (event_active s to) (s, ev) (try_event c t to (s, ev)) ev.elapsed refl
        (try_event-elapsed c t to (s, ev)))

maybe_critter_visit-elapsed :
    (c : Content) (i : ℕ) (p : Plot) (k : Tick)
    → (maybe_critter_visit c i p k).1.elapsed ≡ k.1.elapsed
unfolding maybe_critter_visit settle_critter
maybe_critter_visit-elapsed c i p (s, ev) = ground arith

batch-elapsed :
    (h : Host) (c : Content) (to : ℤ) (i : ℕ) (p : Plot) (k : Cursor) (t : Tick)
    → (batch h c to i p k t).0.1.elapsed ≡ t.1.elapsed
unfolding batch sell_batch
batch-elapsed h c to i p k (s, ev) = ground arith

reap-elapsed : (c : Content) (k : Cursor) (t : Tick) → (reap c k t).1.elapsed ≡ t.1.elapsed
unfolding reap report_yield
reap-elapsed c k (s, ev) = ground arith

after_harvest-elapsed :
    (h : Host) (c : Content) (to : ℤ) (i : ℕ) (p : Plot) (k : Cursor) (t : Tick)
    → (after_harvest h c to i p k t).0.1.elapsed ≡ t.1.elapsed
unfolding after_harvest resow lie_fallow
after_harvest-elapsed h c to i p k (s, ev) = ground arith

round-elapsed :
    (h : Host) (c : Content) (to : ℤ) (i : ℕ) (p : Plot) (k : Cursor) (t : Tick)
    → (round h c to i p k t).0.1.elapsed ≡ t.1.elapsed
unfolding round
round-elapsed h c to i p k t = elim (Bool-cases (leb auto_cycle_cap k.cycles)) [
  | inl e ↦ rw (e, if◌then◌else◌) (batch-elapsed h c to i p k t)
  | inr e ↦
      rw (e, if◌then◌else◌) (after_harvest-elapsed h c to i p k (reap c k t) ∙ reap-elapsed c k t)
]

turn_with-elapsed :
    (turn : Turn) (t : Tick) (e : ℤ) (go : Cursor → Tick × Bool)
    → t.1.elapsed ≡ e
    → ((k : Cursor) → (go k).0.1.elapsed ≡ e)
    → (turn_with turn t go).0.1.elapsed ≡ e
turn_with-elapsed leave t e go h f = h
turn_with-elapsed (again k) t e go h f = f k

cycle-elapsed :
    (fuel : ℕ) (h : Host) (c : Content) (to : ℤ) (i : ℕ) (k : Cursor) (t : Tick)
    → (cycle fuel h c to i k t).0.1.elapsed ≡ t.1.elapsed
unfolding cycle
cycle-elapsed zero h c to i k t = refl
cycle-elapsed (suc fuel) h c to i k t = elim (Bool-cases (leb_ℤ k.mature_at to)) [
  | inr e ↦ rw (cycle, e) refl
  | inl e ↦ elim (Option-cases (get_elem? t.0.plots i)) [
    | inl d ↦ rw (cycle, e, d) refl
    | inr (p, d) ↦
        rw (cycle, e, d)
          (turn_with-elapsed (round h c to i p k t).1 (round h c to i p k t).0 t.1.elapsed
            (λ k'. cycle fuel h c to i k' (round h c to i p k t).0) (round-elapsed h c to i p k t)
            (λ k'.
              cycle-elapsed fuel h c to i k' (round h c to i p k t).0
              ∙ round-elapsed h c to i p k t))
  ]
]

note_matured-elapsed :
    (from to : ℤ) (crop : Crop) (at : ℤ) (ev : Events)
    → (note_matured from to crop at ev).elapsed ≡ ev.elapsed
unfolding note_matured
note_matured-elapsed from to crop at ev = ground arith

grow_plot-elapsed :
    (h : Host) (c : Content) (from to : ℤ) (i : ℕ) (p : Plot) (crop : Crop) (t : Tick)
    → (grow_plot h c from to i p crop t).1.elapsed ≡ t.1.elapsed
unfolding grow_plot
grow_plot-elapsed h c from to i p crop (s, ev) =
    either-elapsed (not p.auto_harvest || contract_blocks_automation s) _ _ ev.elapsed
      (note_matured-elapsed from to crop (first_cursor s c p crop).mature_at ev)
      (cycle-elapsed cycle_fuel h c to i (first_cursor s c p crop) (s, ev))

advance_plot-elapsed :
    (h : Host) (c : Content) (from to : ℤ) (on : Bool) (i : ℕ) (p : Plot) (t : Tick)
    → (advance_plot h c from to on i p t).1.elapsed ≡ t.1.elapsed
unfolding advance_plot
advance_plot-elapsed h c from to on i p t =
    either-elapsed (str_eq p.crop "") _ _ t.1.elapsed
      (either-elapsed on (maybe_critter_visit c i p t) t t.1.elapsed
        (maybe_critter_visit-elapsed c i p t) refl)
      (found (Content.crop c p.crop))
  where
    found :
        (o : Option Crop)
        → (elim o as (λ x. Tick) [
          | none ↦ t
          | some crop ↦ grow_plot h c from to i p crop t
        ]).1.elapsed
          ≡ t.1.elapsed
    found none = refl
    found (some crop) = grow_plot-elapsed h c from to i p crop t

advance_plots-elapsed :
    (h : Host) (c : Content) (from to : ℤ) (on : Bool) (n i : ℕ) (t : Tick)
    → (advance_plots h c from to on n i t).1.elapsed ≡ t.1.elapsed
unfolding advance_plots
advance_plots-elapsed h c from to on zero i t = refl
advance_plots-elapsed h c from to on (suc n) i t = elim (Option-cases (get_elem? t.0.plots i)) [
  | inl e ↦ rw (advance_plots, e) refl
  | inr (p, e) ↦
      rw (advance_plots, e)
        (advance_plots-elapsed h c from to on n (i + 1) (advance_plot h c from to on i p t)
          ∙ advance_plot-elapsed h c from to on i p t)
]

roll_visits-elapsed :
    (c : Content) (e : ℤ) (on : Bool) (to : ℤ) (t : Tick)
    → (roll_visits c e on to t).1.elapsed ≡ t.1.elapsed
unfolding roll_visits
roll_visits-elapsed c e on to (s, ev) =
    gifts (
      if on
      then if contract_blocks_events s then (s, ev) else roll_online_event c e to (s, ev)
      else (s, ev))
    ∙ either-elapsed on _ (s, ev) ev.elapsed
        (either-elapsed (contract_blocks_events s) (s, ev) (roll_online_event c e to (s, ev))
          ev.elapsed refl (roll_online_event-elapsed c e to (s, ev)))
        refl
  where
    gifts :
        (k : Tick)
        → (if contract_blocks_gifts k.0
            then (k.0, k.1)
            else roll_gift_arrival c e on to (k.0, k.1)).1.elapsed
          ≡ k.1.elapsed
    gifts k =
        either-elapsed (contract_blocks_gifts k.0) k (roll_gift_arrival c e on to k) k.1.elapsed
          refl (roll_gift_arrival-elapsed c e on to k)

drop_coins-elapsed :
    (c : Content) (e : ℤ) (on : Bool) (t : Tick) → (drop_coins c e on t).1.elapsed ≡ t.1.elapsed
unfolding drop_coins
drop_coins-elapsed c e on (s, ev) = refl

settle-elapsed :
    (c : Content) (to : ℤ) (before : State) (t : Tick)
    → (settle c to before t).1.elapsed ≡ t.1.elapsed
unfolding settle
settle-elapsed c to before (s, ev) = refl

-- An advance that runs reports the time since the last update.
pub run_advance-elapsed :
    (h : Host) (s : State) (c : Content) (to : ℤ)
    → (run_advance h s c to).1.elapsed ≡ sub64 to s.updated_at
unfolding run_advance
run_advance-elapsed h s c to =
    settle-elapsed c to s _
    ∙ (advance_plots-elapsed h c s.updated_at to _ _ 0 _
        ∙ (drop_coins-elapsed c _ _ _
            ∙ (roll_visits-elapsed c _ _ to _ ∙ expire_event-elapsed to (drop_event s) _)))
