-- ===== src/Leaderboard/Ranking/Shown.antt =====
-- The rows that a rebuild of internal/leaderboard/engine.go shows, and when it adds the suffix.
use ssh_farm.Prelude.{
  ℕ, suc, ◌+◌, ◌≤◌, ◌≡◌, refl, ap, ℤ, true, false, if◌then◌else◌, List, [], ◌∷◌, Option, none, some,
  map, All, ◌⊎◌, ◌↔◌, inl, inr, Bool-cases, arith,
}
use ssh_farm.Moderation.Text.{Text, is_empty, text_eq}
use ssh_farm.Leaderboard.Ranking.{
  LeaderboardRow, RankedRow, Moderator, Settings, Counts, filtered, name_of, count_name,
  count_names, next_rank, ranked_row, rank_from, rank_rows, no_names, rebuilt,
}

-- The number of rows that show the given name.
unfoldable pub namesakes : Moderator → Text → List LeaderboardRow → ℕ
namesakes m t [] = 0
namesakes m t (r ∷ rows) = (if text_eq (name_of m r) t then 1 else 0) + namesakes m t rows

-- An empty name is never counted.
full_apart : (s t : Text) → is_empty s ≡ true → is_empty t ≡ false → text_eq s t ≡ false
unfolding is_empty text_eq
full_apart [] [] e d = cc
full_apart [] (q ∷ t) e d = refl
full_apart (r ∷ s) t e d = cc

count_name_lem :
    (s t : Text) (counts : Counts)
    → is_empty t ≡ false
    → count_name s counts t ≡ (if text_eq s t then 1 else 0) + counts t
unfolding count_name
count_name_lem s t counts full = elim (Bool-cases (is_empty s)) [
  | inl e ↦ rw (e, if◌then◌else◌, full_apart s t e full) (omega arith)
  | inr e ↦ ground (arith, e)
]

count_names_lem :
    (m : Moderator) (rows : List LeaderboardRow) (counts : Counts) (t : Text)
    → is_empty t ≡ false
    → count_names m rows counts t ≡ counts t + namesakes m t rows
unfolding count_names namesakes
count_names_lem m [] counts t full = omega arith
count_names_lem m (r ∷ rows) counts t full = omega (
  arith,
  count_names_lem m rows (count_name (name_of m r) counts) t full,
  count_name_lem (name_of m r) t counts full,
)

-- The row shows its own name, with the suffix when that is empty or not the only one.
abbrev pub IsShown : Moderator → List LeaderboardRow → RankedRow → Type 0
IsShown m rows x =
    (x.display_name ≡ name_of m x.row)
    × ((x.show_suffix ≡ true)
        ↔ ((is_empty x.display_name ≡ true) ⊎ (2 ≤ namesakes m x.display_name rows)))

ranked_row-IsShown :
    (m : Moderator) (rows : List LeaderboardRow) (rank : ℕ) (r : LeaderboardRow)
    → IsShown m rows (ranked_row (count_names m rows no_names) rank (name_of m r) r)
unfolding ranked_row no_names
ranked_row-IsShown m rows rank r = elim (Bool-cases (is_empty (name_of m r))) [
  | inl e ↦ (refl, (λ h. inl e, λ h. rw (e) refl))
  | inr e ↦ (refl, ground (arith, e, count_names_lem m rows no_names (name_of m r) e))
]

rank_from-IsShown :
    (m : Moderator) (all : List LeaderboardRow) (i : ℕ) (before : Option LeaderboardRow) (rank : ℕ)
    → (rows : List LeaderboardRow)
    → All (IsShown m all) (rank_from m (count_names m all no_names) i before rank rows)
unfolding rank_from
rank_from-IsShown m all i before rank [] = tt
rank_from-IsShown m all i before rank (r ∷ rows) = (
  ranked_row-IsShown m all (next_rank i before rank r) r,
  rank_from-IsShown m all (suc i) (some r) (next_rank i before rank r) rows,
)

map-rank_from :
    (m : Moderator) (counts : Counts) (i : ℕ) (before : Option LeaderboardRow) (rank : ℕ)
    → (rows : List LeaderboardRow) → map (λ x. x.row) (rank_from m counts i before rank rows) ≡ rows
unfolding rank_from ranked_row
map-rank_from m counts i before rank [] = refl
map-rank_from m counts i before rank (r ∷ rows) =
    ap (λ xs. r ∷ xs) (map-rank_from m counts (suc i) (some r) (next_rank i before rank r) rows)

-- A rebuild ranks exactly the rows that the filters keep, in their order. Each shows its own name,
-- with the suffix exactly when the name is empty or at least two of the kept rows show it.
pub rebuilt-IsShown :
    (c : Settings) (m : Moderator) (now : ℤ) (rows : List LeaderboardRow)
    → (map (λ x. x.row) (rebuilt c m now rows) ≡ filtered c now rows)
      × All (IsShown m (filtered c now rows)) (rebuilt c m now rows)
unfolding rebuilt rank_rows
rebuilt-IsShown c m now rows = (
  map-rank_from m (count_names m kept no_names) 0 none 1 kept,
  rank_from-IsShown m kept 0 none 1 kept,
)
  where
    kept : List LeaderboardRow
    kept = filtered c now rows
