-- ===== src/Game/Reconcile.antt =====
-- internal/game/reconcile.go, with NeedingBackfill and BackfillDenormalized of
-- internal/store/store.go: the columns that the server fills in at its start.
pub mod Filled
pub mod Complete
use ssh_farm.Prelude.{
  pos, eqb_ℤ, Bool, true, false, ◌&&◌, if◌then◌else◌, List, [], ◌∷◌, Option, none, some, str_eq,
}
use ssh_farm.Sim.State.{State}
use ssh_farm.Store.{SaveKey, SaveRow, Saves, update_key}
use ssh_farm.Game.Actors.{Env}
use ssh_farm.Game.Manager.{load_state}

-- WHERE coins = 0 AND farm_name = ''
unfoldable pub needs_backfill : {P : Type 0} → SaveRow P → Bool
needs_backfill row = eqb_ℤ row.coins (pos 0) && str_eq row.farm_name ""

unfoldable pub select_row : {P : Type 0} → SaveKey → Option (SaveRow P) → List (SaveKey × SaveRow P)
select_row k none = []
select_row k (some row) = if needs_backfill row then (k, row) ∷ [] else []

-- The rows of the table that the query selects; `keys` are the keys that the table has.
unfoldable pub needing_backfill : {P : Type 0} → Saves P → List SaveKey → List (SaveKey × SaveRow P)
needing_backfill saves [] = []
needing_backfill saves (k ∷ keys) = elim (select_row k (saves k)) [
  | [] ↦ needing_backfill saves keys
  | x ∷ xs ↦ x ∷ needing_backfill saves keys
]

-- The columns that are written back; the payload is not.
unfoldable pub backfilled : {P : Type 0} → State → SaveRow P → SaveRow P
backfilled s row = record row {
  coins = s.coins;
  lifetime_earnings = s.lifetime_earnings;
  rebirths = s.rebirths;
  farm_name = s.farm_name;
}

unfoldable pub backfill_row :
    {P : Type 0} → SaveKey → State → Option (SaveRow P) → Saves P → Saves P
backfill_row k s none saves = saves
backfill_row k s (some row) saves = update_key k (some (backfilled s row)) saves

-- BackfillDenormalized, when the store works or not.
unfoldable pub backfill_denormalized : {P : Type 0} → Bool → SaveKey → State → Saves P → Saves P
backfill_denormalized works k s saves = if works then backfill_row k s (saves k) saves else saves

-- A payload that does not decode is skipped.
unfoldable pub reconcile_decoded : {P : Type 0} → Bool → SaveKey → Option State → Saves P → Saves P
reconcile_decoded works k none saves = saves
reconcile_decoded works k (some s) saves = backfill_denormalized works k s saves

-- The loop; `works` says for which keys the store works.
unfoldable pub reconcile_rows :
    (env : Env)
    → (SaveKey → Bool)
    → List (SaveKey × SaveRow env.Payload)
    → Saves env.Payload
    → Saves env.Payload
reconcile_rows env works [] saves = saves
reconcile_rows env works ((k, row) ∷ rows) saves =
    reconcile_rows env works rows (reconcile_decoded (works k) k (load_state env row.state) saves)

-- ReconcileDenormalized, when the query works or not.
unfoldable pub reconcile_denormalized :
    (env : Env) → Bool → (SaveKey → Bool) → List SaveKey → Saves env.Payload → Saves env.Payload
reconcile_denormalized env readable works keys saves =
    if readable then reconcile_rows env works (needing_backfill saves keys) saves else saves
