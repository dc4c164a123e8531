-- ===== src/Sim/ReplantOrder.antt =====
-- The order in which ReplantAll of internal/sim/actions.go replants.
use mathlib.Core.List.{Perm}
use mathlib.Core.List.Perm
use ssh_farm.Prelude.{ℕ, ◌<◌, ◌≡◌, List, [], ◌∷◌, All, true, ◌⊎◌, ltb_ℤ}
use ssh_farm.Content
use ssh_farm.Content.{Content}
use ssh_farm.Host.{Host}
use ssh_farm.Sim.State.{State}
use ssh_farm.Sim.Planting.{Candidate, Replant, skip, lock, candidate}

-- A dearer candidate comes first, and of two at one price the one on the earlier plot.
abbrev pub Precedes : Candidate → Candidate → Type 0
Precedes a b = (ltb_ℤ b.cost a.cost ≡ true) ⊎ ((b.cost ≡ a.cost) × (a.idx < b.idx))

-- Each candidate precedes all those behind it.
abbrev pub IsReplantOrder : List Candidate → Type 0
IsReplantOrder [] = Unit
IsReplantOrder (cd ∷ cds) = All (λ d. Precedes cd d) cds × IsReplantOrder cds

-- Candidates in the order of their plots.
abbrev IsPlotOrder : List Candidate → Type 0
IsPlotOrder [] = Unit
IsPlotOrder (cd ∷ cds) = All (λ (d : Candidate). cd.idx < d.idx) cds × IsPlotOrder cds

-- A candidate stands on the plot that it was made for.
abbrev IsFor : ℕ → Replant → Type 0
IsFor i skip = Unit
IsFor i lock = Unit
IsFor i (candidate cd) = cd.idx ≡ i
