-- ===== src/Game/Actors/Keeping.antt =====
-- What a message and a flush do to an actor of internal/game/actor.go and to its row.
use ssh_farm.Prelude.{
  ℤ, ◌≡◌, refl, ap, ◌∙◌, Bool, true, false, not, if◌then◌else◌, Option, none, some, Option-cases,
  ◌⊎◌, inl, inr,
}
use ssh_farm.Sim.State.{State}
use ssh_farm.Store.{Saves, SaveRow, update_key}
use ssh_farm.Game.Actors.{
  write_row, Env, Actor, GameError, is_guest_key, persist_payload, persist, catch_up, conclude,
  intent,
}
use ssh_farm.Game.Actors.Marking.{IsTimely, IsMarked, catch_up-IsMarked}
use ssh_farm.Game.Commands.Honest.{IsHonest}

-- The actor keeps its key and its session, and is as it was or dirty.
abbrev pub IsKept : Actor → Actor → Type 0
IsKept a b = (b.key ≡ a.key) × (b.session ≡ a.session) × IsMarked a b

conclude-IsKept :
    (env : Env) (now : ℤ) (before : State) (a b : Actor) (o : State × Option GameError)
    → IsKept a b
    → IsHonest b.state o
    → IsKept a (conclude env now before b o).0
unfolding conclude
conclude-IsKept env now before a b (s, none) h k = (h.0, h.1, inr refl)
conclude-IsKept env now before a b (s, some e) (key, session, inl q) k =
    (key, session, inl (ap (λ x. record b { state = x }) k ∙ q))
conclude-IsKept env now before a b (s, some e) (key, session, inr q) k = (key, session, inr q)

pub catch_up-IsKept :
    (env : Env) (now : ℤ) (a : Actor) → IsTimely now a.state → IsKept a (catch_up env now a).0
unfolding catch_up
catch_up-IsKept env now a h = (refl, refl, catch_up-IsMarked env now a h)

-- A message of a session leaves the actor as it was or dirty, with its key and its session.
pub intent-IsKept :
    (env : Env) (now : ℤ) (apply : State → State × Option GameError) (a : Actor)
    → IsTimely now a.state
    → ((s : State) → IsHonest s (apply s))
    → IsKept a (intent env now apply a).0
unfolding intent
intent-IsKept env now apply a h honest =
    conclude-IsKept env now a.state a b (apply b.state) (catch_up-IsKept env now a h)
      (honest b.state)
  where
    b : Actor
    b = (catch_up env now a).0

-- What a flush did: nothing, or it wrote the state to the row of the key and the actor is clean.
abbrev pub IsFlushed : (env : Env) → Actor → Saves env.Payload → Actor × Saves env.Payload → Type 0
IsFlushed env a saves r =
    (r ≡ (a, saves))
    ⊎ ((p : env.Payload) × (row : SaveRow env.Payload) × (is_guest_key a.key ≡ false)
        × (saves a.key ≡ some row)
        × (env.marshal a.state ≡ some p)
        × (r ≡ (
          record a { dirty = false },
          update_key a.key (some (write_row a.state p row)) saves,
        )))

persist_payload-IsFlushed :
    (env : Env) (a : Actor) (o : Option env.Payload) (saves : Saves env.Payload)
    → is_guest_key a.key ≡ false
    → env.marshal a.state ≡ o
    → IsFlushed env a saves (persist_payload a o saves)
unfolding persist_payload
persist_payload-IsFlushed env a none saves g e = inl refl
persist_payload-IsFlushed env a (some p) saves g e = elim (Option-cases (saves a.key)) [
  | inl d ↦ rw (persist_payload, d) (inl refl)
  | inr (row, d) ↦ rw (persist_payload, d) (inr (p, row, g, refl, e, refl))
]

IsFlushed-if :
    (env : Env) (a : Actor) (saves : Saves env.Payload) (b : Bool)
    → (x y : Actor × Saves env.Payload) → IsFlushed env a saves x
    → (b ≡ false → IsFlushed env a saves y)
    → IsFlushed env a saves (if b then x else y)
IsFlushed-if env a saves true x y h k = h
IsFlushed-if env a saves false x y h k = k refl

pub persist-IsFlushed :
    (env : Env) (works : Bool) (a : Actor) (saves : Saves env.Payload)
    → IsFlushed env a saves (persist env works a saves)
unfolding persist
persist-IsFlushed env works a saves =
    IsFlushed-if env a saves (is_guest_key a.key) (a, saves) _ (inl refl)
      (λ g.
        IsFlushed-if env a saves (not a.dirty) (a, saves) _ (inl refl) (λ d. when_it_works works g))
  where
    when_it_works :
        (b : Bool)
        → is_guest_key a.key ≡ false
        → IsFlushed env a saves
            (if b then persist_payload a (env.marshal a.state) saves else (a, saves))
    when_it_works true g = persist_payload-IsFlushed env a (env.marshal a.state) saves g refl
    when_it_works false g = inl refl
