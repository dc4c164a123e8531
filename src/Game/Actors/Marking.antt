-- ===== src/Game/Actors/Marking.antt =====
-- When an actor of internal/game/actor.go is marked as changed.
use ssh_farm.Prelude.{
  ℤ, pos, ◌≡◌, refl, ap, true, false, if◌then◌else◌, ltb_ℤ, leb_ℤ, sub64, ◌-ℤ◌, IsInt64, wrap_id,
  -ℤ_parts, Bool-cases, ◌⊎◌, inl, inr, arith,
}
use ssh_farm.Sim.State.{State}
use ssh_farm.Sim.Advance.Clock.{advance}
use ssh_farm.Sim.Advance.Elapsed.{run_advance-elapsed}
use ssh_farm.Sim.Advance.Report.{Tick, no_events}
use ssh_farm.Game.Actors.{Env, Actor, mark, catch_up}

-- The seconds since the save's last update are an int64, as those of clocks are.
abbrev pub IsTimely : ℤ → State → Type 0
IsTimely now s = IsInt64 (now -ℤ s.updated_at)

-- A tick left the save as it was, or reports the time that has passed.
IsNoticed : State → Tick → Type 0
IsNoticed s t = (t ≡ (s, no_events)) ⊎ (ltb_ℤ (pos 0) t.1.elapsed ≡ true)

sub64_after :
    (now at : ℤ) → IsInt64 (now -ℤ at) → leb_ℤ now at ≡ false → ltb_ℤ (pos 0) (sub64 now at) ≡ true
unfolding sub64
sub64_after now at h e = rw (wrap_id (now -ℤ at) h) (ground (arith, e, -ℤ_parts now at))

advance-IsNoticed :
    (env : Env) (now : ℤ) (s : State)
    → IsTimely now s
    → IsNoticed s (advance env.host s env.content now)
unfolding advance IsNoticed
advance-IsNoticed env now s h = elim (Bool-cases (leb_ℤ now s.updated_at)) [
  | inl e ↦ rw (e, if◌then◌else◌) (inl refl)
  | inr e ↦
      rw (e, if◌then◌else◌)
        (inr
          (rw (run_advance-elapsed env.host s env.content now) (sub64_after now s.updated_at h e)))
]

-- The actor is as it was, or dirty.
abbrev pub IsMarked : Actor → Actor → Type 0
IsMarked a b = (b ≡ a) ⊎ (b.dirty ≡ true)

IsMarked-by :
    (a : Actor) (t : Tick)
    → IsNoticed a.state t
    → IsMarked a (record a { state = t.0; dirty = mark t.1 a.dirty })
unfolding IsNoticed mark
IsMarked-by a t (inl e) = inl (ap (λ x. record a { state = x.0; dirty = mark x.1 a.dirty }) e)
IsMarked-by a t (inr e) = inr (rw (e, if◌then◌else◌) refl)

-- An actor that catches up is unchanged or dirty.
pub catch_up-IsMarked :
    (env : Env) (now : ℤ) (a : Actor) → IsTimely now a.state → IsMarked a (catch_up env now a).0
unfolding catch_up
catch_up-IsMarked env now a h =
    IsMarked-by a (advance env.host a.state env.content now) (advance-IsNoticed env now a.state h)
