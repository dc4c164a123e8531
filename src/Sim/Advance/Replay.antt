-- ===== src/Sim/Advance/Replay.antt =====
-- Advance of internal/sim/advance.go never simulates a stretch of time twice.
use ssh_farm.Prelude.{
  ◌≡◌, refl, ◌∙◌, ℤ, List, [], ◌∷◌, String, arith, Option-cases, Bool-cases, inl, inr, ◌≤ℤ◌,
  if◌then◌else◌, leb_ℤ, lookup, true,
}
use ssh_farm.Content.{Content, Achievement}
use ssh_farm.Host.{Host}
use ssh_farm.Sim.State.{State}
use ssh_farm.Sim.Advance.Report.{Tick, no_events, earn, earn_each, check_achievements}
use ssh_farm.Sim.Advance.Clock.{settle, run_advance, advance}

updated_at-earn :
    (now : ℤ) (s : State) (newly : List String) (a : Achievement)
    → (earn now (s, newly) a).0.updated_at ≡ s.updated_at
unfolding earn
updated_at-earn now s newly a = elim (Option-cases (lookup a.id s.achievements)) [
  | inl e ↦ rw (e, earn) (ground arith)
  | inr (t, e) ↦ rw (e, earn) refl
]

updated_at-earn_each :
    (now : ℤ) (s : State) (newly : List String) (rest : List Achievement)
    → (earn_each now (s, newly) rest).0.updated_at ≡ s.updated_at
unfolding earn_each
updated_at-earn_each now s newly [] = refl
updated_at-earn_each now s newly (a ∷ rest) =
    let next = earn now (s, newly) a in
    updated_at-earn_each now next.0 next.1 rest ∙ updated_at-earn now s newly a

updated_at-settle :
    (c : Content) (to : ℤ) (before : State) (tick : Tick)
    → (settle c to before tick).0.updated_at ≡ to
unfolding settle check_achievements
updated_at-settle c to before (s, ev) =
    updated_at-earn_each to (record s { updated_at = to }) [] c.achievement_list

updated_at-run_advance :
    (h : Host) (s : State) (c : Content) (to : ℤ) → (run_advance h s c to).0.updated_at ≡ to
unfolding run_advance
updated_at-run_advance h s c to = updated_at-settle c to s _

reached : (h : Host) (s : State) (c : Content) (to : ℤ) → to ≤ℤ (advance h s c to).0.updated_at
unfolding advance
reached h s c to = elim (Bool-cases (leb_ℤ to s.updated_at)) [
  | inl e ↦ rw (e, if◌then◌else◌) (ground arith)
  | inr e ↦ rw (e, if◌then◌else◌) (rw (updated_at-run_advance h s c to) (omega arith))
]

early :
    (h : Host) (s : State) (c : Content) (to : ℤ)
    → to ≤ℤ s.updated_at
    → advance h s c to ≡ (s, no_events)
unfolding advance
early h s c to l = let e : leb_ℤ to s.updated_at ≡ true = ground arith in rw (e, if◌then◌else◌) refl

-- After an Advance to a timestamp, an Advance to that or an earlier one changes nothing in the save
-- and reports nothing.
pub advance_again :
    (h : Host) (s : State) (c : Content) (to again : ℤ)
    → again ≤ℤ to
    → advance h (advance h s c to).0 c again ≡ ((advance h s c to).0, no_events)
advance_again h s c to again l =
    let r = reached h s c to in early h (advance h s c to).0 c again (omega (arith, l, r))
