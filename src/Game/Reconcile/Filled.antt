-- ===== src/Game/Reconcile/Filled.antt =====
-- What internal/game/reconcile.go may change in the table.
use ssh_farm.Prelude.{
  ◌≡◌, refl, sym, subst, ap, Bool, true, false, List, [], ◌∷◌, Option, none, some, ◌⊎◌, inl, inr,
  if◌then◌else◌, Bool-cases,
}
use ssh_farm.Sim.State.{State}
use ssh_farm.Store.{SaveKey, SaveRow, Saves}
use ssh_farm.Store.Keys.{update_key-All}
use ssh_farm.Game.Actors.{Env}
use ssh_farm.Game.Manager.{load_state}
use ssh_farm.Game.Reconcile.{
  needs_backfill, select_row, needing_backfill, backfilled, backfill_row, backfill_denormalized,
  reconcile_decoded, reconcile_rows, reconcile_denormalized,
}

-- The row with the four columns of a state, and the rest as it was.
abbrev pub with_columns : {P : Type 0} → State → SaveRow P → SaveRow P
with_columns s row = record row {
  coins = s.coins;
  lifetime_earnings = s.lifetime_earnings;
  rebirths = s.rebirths;
  farm_name = s.farm_name;
}

-- The row is as it was, or it needed its columns and has those of the state that its payload loads to.
abbrev pub IsFilled :
    (env : Env) → Option (SaveRow env.Payload) → Option (SaveRow env.Payload) → Type 0
IsFilled env none new = new ≡ none
IsFilled env (some row) new =
    (new ≡ some row)
    ⊎ ((needs_backfill row ≡ true)
        × ((s : State) × (load_state env row.state ≡ some s) × (new ≡ some (with_columns s row))))

module _ (env : Env) (old : Saves env.Payload) where
  -- The rows that the query gave are rows of the table that needed their columns.
  abbrev pub IsQueried : List (SaveKey × SaveRow env.Payload) → Type 0
  IsQueried [] = Unit
  IsQueried ((k, row) ∷ rows) = (old k ≡ some row) × (needs_backfill row ≡ true) × IsQueried rows

  pub start-IsFilled : (o : Option (SaveRow env.Payload)) → IsFilled env o o
  start-IsFilled none = refl
  start-IsFilled (some row) = inl refl

  pub backfilled_again :
      (s : State) (r q : SaveRow env.Payload)
      → ◌≡◌ {A = Option (SaveRow env.Payload)} (some r) (some q)
      → ◌≡◌ {A = Option (SaveRow env.Payload)} (some (backfilled s r)) (some (backfilled s q))
  backfilled_again s r q e =
      ap
        (λ (x : Option (SaveRow env.Payload)). elim x [
          | none ↦ none
          | some y ↦ some (backfilled s y)
        ])
        e

  pub refilled :
      (row : SaveRow env.Payload) (s : State) (r : SaveRow env.Payload)
      → IsFilled env (some row) (some r)
      → ◌≡◌ {A = Option (SaveRow env.Payload)} (some (backfilled s r)) (some (backfilled s row))
  unfolding backfilled
  refilled row s r (inl same) = backfilled_again s r row same
  refilled row s r (inr (n, (t, l, same))) = backfilled_again s r (backfilled t row) same

  backfill_row-IsFilled :
      (k : SaveKey) (row : SaveRow env.Payload) (s : State) (new : Option (SaveRow env.Payload))
      → (saves : Saves env.Payload) → old k ≡ some row
      → needs_backfill row ≡ true
      → load_state env row.state ≡ some s
      → IsFilled env (old k) new
      → ((j : SaveKey) → IsFilled env (old j) (saves j))
      → (j : SaveKey) → IsFilled env (old j) (backfill_row k s new saves j)
  unfolding backfill_row backfilled
  backfill_row-IsFilled k row s none saves o n l h all = all
  backfill_row-IsFilled k row s (some r) saves o n l h all =
      update_key-All (λ j v. IsFilled env (old j) v) k (some (backfilled s r)) saves
        (subst (λ x. IsFilled env x (some (backfilled s r))) (sym o)
          (inr (n, (s, l, refilled row s r (subst (λ x. IsFilled env x (some r)) o h)))))
        all

  pub reconcile_decoded-IsFilled :
      (works : Bool) (k : SaveKey) (row : SaveRow env.Payload) (o : Option State)
      (saves : Saves env.Payload)
      → old k ≡ some row
      → needs_backfill row ≡ true
      → load_state env row.state ≡ o
      → ((j : SaveKey) → IsFilled env (old j) (saves j))
      → (j : SaveKey) → IsFilled env (old j) (reconcile_decoded works k o saves j)
  unfolding reconcile_decoded backfill_denormalized
  reconcile_decoded-IsFilled works k row none saves o n l all = all
  reconcile_decoded-IsFilled false k row (some s) saves o n l all = all
  reconcile_decoded-IsFilled true k row (some s) saves o n l all =
      backfill_row-IsFilled k row s (saves k) saves o n l (all k) all

  reconcile_rows-IsFilled :
      (works : SaveKey → Bool) (rows : List (SaveKey × SaveRow env.Payload))
      (saves : Saves env.Payload)
      → IsQueried rows
      → ((j : SaveKey) → IsFilled env (old j) (saves j))
      → (j : SaveKey) → IsFilled env (old j) (reconcile_rows env works rows saves j)
  unfolding reconcile_rows
  reconcile_rows-IsFilled works [] saves q all = all
  reconcile_rows-IsFilled works ((k, row) ∷ rows) saves (o, n, q) all =
      reconcile_rows-IsFilled works rows
        (reconcile_decoded (works k) k (load_state env row.state) saves) q
        (reconcile_decoded-IsFilled (works k) k row (load_state env row.state) saves o n refl all)

  selected-IsQueried :
      (k : SaveKey) (o : Option (SaveRow env.Payload)) (rows : List (SaveKey × SaveRow env.Payload))
      → old k ≡ o
      → IsQueried rows
      → IsQueried (elim (select_row k o) [ [] ↦ rows | x ∷ xs ↦ x ∷ rows ])
  unfolding select_row
  selected-IsQueried k none rows e q = q
  selected-IsQueried k (some row) rows e q = elim (Bool-cases (needs_backfill row)) [
    | inl n ↦ rw (n, if◌then◌else◌) (e, n, q)
    | inr n ↦ rw (n, if◌then◌else◌) q
  ]

  pub needing_backfill-IsQueried : (keys : List SaveKey) → IsQueried (needing_backfill old keys)
  unfolding needing_backfill
  needing_backfill-IsQueried [] = tt
  needing_backfill-IsQueried (k ∷ keys) =
      selected-IsQueried k (old k) (needing_backfill old keys) refl
        (needing_backfill-IsQueried keys)

-- Every row is as it was or filled in, whichever calls of the store work.
pub reconcile_denormalized-IsFilled :
    (env : Env) (readable : Bool) (works : SaveKey → Bool) (keys : List SaveKey)
    (saves : Saves env.Payload) (k : SaveKey)
    → IsFilled env (saves k) (reconcile_denormalized env readable works keys saves k)
unfolding reconcile_denormalized
reconcile_denormalized-IsFilled env false works keys saves k = start-IsFilled env saves (saves k)
reconcile_denormalized-IsFilled env true works keys saves k =
    reconcile_rows-IsFilled env saves works (needing_backfill saves keys) saves
      (needing_backfill-IsQueried env saves keys) (λ j. start-IsFilled env saves (saves j)) k
