-- ===== src/Sim/Valid/Visits.antt =====
-- Events, parcels, critters and achievements of internal/sim/advance.go leave the ledger alone.
use ssh_farm.Prelude.{
  ℕ, ◌≡◌, refl, ◌∙◌, ℤ, pos, Bool, List, [], ◌∷◌, String, arith, Option-cases, Bool-cases, inl, inr,
  if◌then◌else◌, get_index, sub64, add64, mul64, max64, ltb_ℤ, length, lookup,
}
use ssh_farm.Content.{Content, Event, Achievement}
use ssh_farm.Sim.State.{State, Plot, upgrade_level}
use ssh_farm.Sim.Derive.{upgrade_effect_sum}
use ssh_farm.Sim.Random.{roll100, roll_bp, roll_range, next_rand}
use ssh_farm.Sim.Advance.Report.{Events, earn, earn_each, check_achievements}
use ssh_farm.Sim.Advance.Visits.{
  drop_event, expire_event, try_gift, roll_gift_arrival, event_interval, event_duration, shortened,
  lengthened, begin_event, start_event, try_event, roll_online_event, settle_critter,
  maybe_critter_visit,
}
use ssh_farm.Sim.Valid.{ledger}
use ssh_farm.Sim.Valid.Farming.{ledger-roll_range}

pub ledger-expire_event :
    (s : State) (ev : Events) (to : ℤ) → ledger (expire_event to (drop_event s, ev)).0 ≡ ledger s
unfolding expire_event drop_event
ledger-expire_event s ev to = ground arith

pub ledger-roll_gift_arrival :
    (c : Content) (elapsed : ℤ) (online : Bool) (to : ℤ) (s : State) (ev : Events)
    → ledger (roll_gift_arrival c elapsed online to (s, ev)).0 ≡ ledger s
unfolding roll_gift_arrival try_gift roll_bp next_rand
ledger-roll_gift_arrival c elapsed online to s ev = ground arith

ledger-event_interval : (s : State) (c : Content) → ledger (event_interval s c).0 ≡ ledger s
unfolding event_interval
ledger-event_interval s c =
    let bonus = upgrade_effect_sum s c "event_rate_pct" in
    let low = max64 (shortened bonus c.events_config.min_interval_sec) (pos 1) in
    let high = max64 (shortened bonus c.events_config.max_interval_sec) low in
    elim (Bool-cases (ltb_ℤ (pos 0) (sub64 high low))) [
      | inl e ↦ rw (e, if◌then◌else◌) (ledger-roll_range s (pos 0) (sub64 high low))
      | inr e ↦ rw (e, if◌then◌else◌) refl
    ]

ledger-event_duration : (s : State) (c : Content) → ledger (event_duration s c).0 ≡ ledger s
unfolding event_duration
ledger-event_duration s c =
    let bonus =
      add64 (upgrade_effect_sum s c "event_duration_pct")
        (mul64 (upgrade_level s "stargazer") (pos 10)) in
    let low = lengthened bonus c.events_config.min_duration_sec in
    let high = lengthened bonus c.events_config.max_duration_sec in
    elim (Bool-cases (ltb_ℤ low high)) [
      | inl e ↦ rw (e, if◌then◌else◌) (ledger-roll_range s (pos 0) (sub64 high low))
      | inr e ↦ rw (e, if◌then◌else◌) refl
    ]

ledger-begin_event :
    (c : Content) (to : ℤ) (def : Event) (s : State) (ev : Events)
    → ledger (begin_event c to def (s, ev)).0 ≡ ledger s
unfolding begin_event
ledger-begin_event c to def s ev = ledger-event_duration (record s { event_id = def.id }) c

ledger-start_event :
    (c : Content) (to : ℤ) (s : State) (ev : Events)
    → ledger (start_event c to (s, ev)).0 ≡ ledger s
unfolding start_event
ledger-start_event c to s ev =
    let range = roll_range s (pos 0) (sub64 (pos (length c.events)) (pos 1)) in
    elim (Option-cases (get_index c.events range.1)) [
      | inl e ↦ rw (e, start_event) (ledger-roll_range s _ _)
      | inr (def, e) ↦
          rw (e, start_event) (ledger-begin_event c to def range.0 ev ∙ ledger-roll_range s _ _)
    ]

ledger-try_event :
    (c : Content) (elapsed to : ℤ) (s : State) (ev : Events)
    → ledger (try_event c elapsed to (s, ev)).0 ≡ ledger s
unfolding try_event roll_bp next_rand
ledger-try_event c elapsed to s ev = ground (
  arith,
  ledger-event_interval s c,
  ledger-start_event c to (roll_bp (event_interval s c).0).0 ev,
)

pub ledger-roll_online_event :
    (c : Content) (elapsed to : ℤ) (s : State) (ev : Events)
    → ledger (roll_online_event c elapsed to (s, ev)).0 ≡ ledger s
unfolding roll_online_event
ledger-roll_online_event c elapsed to s ev = ground (arith, ledger-try_event c elapsed to s ev)

ledger-settle_critter :
    (c : Content) (i : ℕ) (p : Plot) (s : State) (ev : Events)
    → ledger (settle_critter c i p (s, ev)).0 ≡ ledger s
unfolding settle_critter
ledger-settle_critter c i p s ev =
    let range = roll_range s (pos 0) (sub64 (pos (length c.critters.kinds)) (pos 1)) in
    elim (Option-cases (get_index c.critters.kinds range.1)) [
      | inl e ↦ rw (e, settle_critter) (ledger-roll_range s _ _)
      | inr (kind, e) ↦ rw (e, settle_critter) (ledger-roll_range s _ _)
    ]

pub ledger-maybe_critter_visit :
    (c : Content) (i : ℕ) (p : Plot) (s : State) (ev : Events)
    → ledger (maybe_critter_visit c i p (s, ev)).0 ≡ ledger s
unfolding maybe_critter_visit roll100 next_rand
ledger-maybe_critter_visit c i p s ev = ground (arith, ledger-settle_critter c i p (roll100 s).0 ev)

ledger-earn :
    (now : ℤ) (s : State) (newly : List String) (a : Achievement)
    → ledger (earn now (s, newly) a).0 ≡ ledger s
unfolding earn
ledger-earn now s newly a = elim (Option-cases (lookup a.id s.achievements)) [
  | inl e ↦ rw (e, earn) (ground arith)
  | inr (t, e) ↦ rw (e, earn) refl
]

ledger-earn_each :
    (now : ℤ) (s : State) (newly : List String) (rest : List Achievement)
    → ledger (earn_each now (s, newly) rest).0 ≡ ledger s
unfolding earn_each
ledger-earn_each now s newly [] = refl
ledger-earn_each now s newly (a ∷ rest) =
    let next = earn now (s, newly) a in
    ledger-earn_each now next.0 next.1 rest ∙ ledger-earn now s newly a

pub ledger-check_achievements :
    (s : State) (c : Content) (now : ℤ) → ledger (check_achievements s c now).0 ≡ ledger s
unfolding check_achievements
ledger-check_achievements s c now = ledger-earn_each now s [] c.achievement_list
