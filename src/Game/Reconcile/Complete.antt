-- ===== src/Game/Reconcile/Complete.antt =====
-- internal/game/reconcile.go fills in every row that needs its columns, where the store works.
use ssh_farm.Prelude.{◌≡◌, true, List, [], ◌∷◌, some, ◌⊎◌}
use ssh_farm.Sim.State.{State}
use ssh_farm.Store.{SaveKey, SaveRow, Saves}
use ssh_farm.Game.Actors.{Env}
use ssh_farm.Game.Manager.{load_state}
use ssh_farm.Game.Reconcile.{needs_backfill, backfilled}

abbrev pub IsKey : SaveKey → List SaveKey → Type 0
IsKey k [] = ⊥
IsKey k (j ∷ keys) = (j ≡ k) ⊎ IsKey k keys

abbrev IsAmong : {P : Type 0} → SaveKey → List (SaveKey × SaveRow P) → Type 0
IsAmong k [] = ⊥
IsAmong k ((j, row) ∷ rows) = (j ≡ k) ⊎ IsAmong k rows

-- A key whose row needs its columns, and the state that its payload loads to.
module _ (env : Env) (old : Saves env.Payload) (k : SaveKey) (row : SaveRow env.Payload) (s : State)
    (here : old k ≡ some row) (needs : needs_backfill row ≡ true)
    (loads : load_state env row.state ≡ some s) where
  abbrev IsDone : Saves env.Payload → Type 0
  IsDone saves = (i : SaveKey) → i ≡ k → saves i ≡ some (backfilled s row)
