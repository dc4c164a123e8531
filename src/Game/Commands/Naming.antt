-- ===== src/Game/Commands/Naming.antt =====
-- RenameFarm of internal/game/session.go, with Filter of internal/moderation and SetFarmName of
-- internal/sim: what a farm can come to be called.
use ssh_farm.Prelude.{
  ℕ, ◌≡◌, refl, ap, sym, subst, ◌∙◌, Bool, true, false, if◌then◌else◌, ltb, [], Option, none, some,
  String, str_eq, eq_iff, inl, inr,
}
use ssh_farm.Moderation.Text.{Text}
use ssh_farm.Moderation.Validate.{validate}
use ssh_farm.Moderation.Validate.Names.{IsFarmName}
use ssh_farm.Moderation.Denylist.{Denylist}
use ssh_farm.Moderation.Filter.{filter}
use ssh_farm.Moderation.Filter.Safe.{IsDenied, filter_passes}
use ssh_farm.Sim.Outcome.{Outcome, name_empty, name_too_long, refuse}
use ssh_farm.Sim.State.{State}
use ssh_farm.Sim.Actions.{perform, naming, forget}
use ssh_farm.Sim.Campaign.{set_farm_name}
use ssh_farm.Store.{RenameGate, rename_allowed, rename_locked, rename_rate_limited}
use ssh_farm.Game.Actors.{Env, GameError}
use ssh_farm.Game.Commands.{applied, do_action, name_filtered, apply_rename}

-- SetFarmName took the trimmed name, which is not empty.
IsNamed : Env → State → String → State × Option GameError → Type 0
IsNamed env s name (t, some e) = Unit
IsNamed env s name (t, none) =
    (str_eq (env.host.trim_space name) "" ≡ false)
    × (t ≡ record s { farm_name = env.host.trim_space name })

IsNamed-if :
    (env : Env) (s : State) (name : String) (b : Bool) (x y : Outcome (Unit {0}))
    → IsNamed env s name (applied (forget x))
    → (b ≡ false → IsNamed env s name (applied (forget y)))
    → IsNamed env s name (applied (forget (if b then x else y)))
IsNamed-if env s name true x y h k = h
IsNamed-if env s name false x y h k = k refl

naming-IsNamed :
    (env : Env) (s : State) (name : String) → IsNamed env s name (do_action env s (naming name))
unfolding do_action perform set_farm_name applied IsNamed
naming-IsNamed env s name =
    IsNamed-if env s name (str_eq trimmed "") (refuse s name_empty) _ tt (λ full.
      IsNamed-if env s name (ltb 24 (env.host.rune_count trimmed)) (refuse s name_too_long) _ tt
        (λ short. (full, refl)))
  where
    trimmed : String
    trimmed = env.host.trim_space name

not_named :
    (s t : State) (e : GameError) → ◌≡◌ {A = State × Option GameError} (s, some e) (t, none) → ⊥
not_named s t e d = apart (ap (λ x. x.1) d)
  where
    apart : ◌≡◌ {A = Option GameError} (some e) none → ⊥
    apart q = cc

filtered_name :
    (env : Env) (s t : State) (f : Text × Bool)
    → name_filtered env s f ≡ (t, none)
    → (f.1 ≡ false) × IsNamed env s (env.string f.0) (t, none)
unfolding name_filtered
filtered_name env s t (out, true) e = absurd (not_named s t _ e)
filtered_name env s t (out, false) e =
    (refl, subst (IsNamed env s (env.string out)) e (naming-IsNamed env s (env.string out)))

allowed_name :
    (env : Env) (gate : Option RenameGate) (raw : Text) (s t : State)
    → apply_rename env gate raw s ≡ (t, none)
    → (gate ≡ some rename_allowed) × (name_filtered env s (env.moderator.filter raw) ≡ (t, none))
unfolding apply_rename
allowed_name env none raw s t e = absurd (not_named s t _ e)
allowed_name env (some rename_locked) raw s t e = absurd (not_named s t _ e)
allowed_name env (some rename_rate_limited) raw s t e = absurd (not_named s t _ e)
allowed_name env (some rename_allowed) raw s t e = (refl, e)

-- On a server that filters by the moderation package, and where the string of no runes is trimmed to
-- the empty one: a rename without an error was allowed by the store's gate, its input validates to a
-- farm name that the list in force does not block, the process is not in dev mode, and nothing but
-- the name changes, to that one as SetFarmName trims it.
pub rename_moderated :
    (env : Env) (lower : ℕ → ℕ) (dev : Bool) (dl : Denylist) (gate : Option RenameGate)
    → (raw : Text) (s t : State) → env.moderator.filter ≡ filter lower dev dl
    → env.host.trim_space (env.string []) ≡ ""
    → apply_rename env gate raw s ≡ (t, none)
    → (gate ≡ some rename_allowed)
      × (dev ≡ false)
      × ((out : Text) × (validate raw ≡ some out)
          × IsFarmName out
          × (¬ (IsDenied lower dl out))
          × (t ≡ record s { farm_name = env.host.trim_space (env.string out) }))
unfolding IsNamed
rename_moderated env lower dev dl gate raw s t same blank e =
    let (allowed, done) = allowed_name env gate raw s t e in
    let (free, (full, named)) = filtered_name env s t (env.moderator.filter raw) done in
    elim (filter_passes lower dev dl raw out (out_of free)) [
      | inl (e1, e2) ↦
          absurd
            (blank_name full (ap (λ (x : Text). str_eq (env.host.trim_space (env.string x)) "") e2))
      | inr (off, valid, farm, clear) ↦ (allowed, off, (out, valid, farm, clear, named))
    ]
  where
    out : Text
    out = (env.moderator.filter raw).0

    out_of : (env.moderator.filter raw).1 ≡ false → filter lower dev dl raw ≡ (out, false)
    out_of free = ap (λ f. f raw) (sym same) ∙ ap (λ (b : Bool). (out, b)) free

    blank_name :
        str_eq (env.host.trim_space (env.string out)) "" ≡ false
        → str_eq (env.host.trim_space (env.string out)) ""
          ≡ str_eq (env.host.trim_space (env.string [])) ""
        → ⊥
    blank_name full d =
        apart (sym full ∙ (d ∙ (eq_iff (env.host.trim_space (env.string [])) "").1 blank))
      where
        apart : false ≡ true → ⊥
        apart q = cc
