-- ===== src/Leaderboard/Boards/Windows.antt =====
-- The board of internal/leaderboard/engine.go: its sizes, and the window of rows around the viewer.
use ssh_farm.Prelude.{
  ℕ, zero, suc, ◌+◌, ◌-◌, ◌≤◌, ◌<◌, min, ◌≡◌, refl, ap, sym, subst, ◌∙◌, ℤ, true, leb,
  if◌then◌else◌, List, [], ◌∷◌, Option, none, some, map, length, get_elem?, take, drop, length-take,
  length-drop, length-map, All, ◌⊎◌, inl, inr, Bool-cases, arith,
}
use ssh_farm.Leaderboard.Ranking.{
  LeaderboardRow, RankedRow, Moderator, Settings, Counts, next_rank, ranked_row, rank_from,
  rank_rows, rebuilt, filtered, count_names, no_names,
}
use ssh_farm.Leaderboard.Boards.{
  SaveRef, Board, is_you, to_row, top_count, you_index, window_low, window_high, rows_between,
  window_of, plain_board, your_board, build_board,
}
use ssh_farm.Leaderboard.Boards.Viewer.{IsNotYou, IsIndex, you_index-IsIndex}

length-rows_between :
    (lo hi : ℕ) (rows : List RankedRow)
    → length (rows_between lo hi rows) ≡ min (hi + 1 - lo) (length rows - lo)
unfolding rows_between
length-rows_between lo hi rows =
    length-take (hi + 1 - lo) (drop lo rows) ∙ ap (min (hi + 1 - lo)) (length-drop lo rows)

-- The window around index i: three rows to each side, cut off behind the top rows and at the last of
-- the n rows.
abbrev pub IsAround : ℕ → ℕ → ℕ → ℕ → Type 0
IsAround n i lo hi =
    (top_count n ≤ lo)
    × (lo ≤ i)
    × (i ≤ hi)
    × (hi < n)
    × (i ≤ lo + 3)
    × (hi ≤ i + 3)
    × ((lo + 3 ≡ i) ⊎ (lo ≡ top_count n))
    × ((hi ≡ i + 3) ⊎ (hi + 1 ≡ n))

window_bounds :
    (n i : ℕ) → top_count n ≤ i → i < n → IsAround n i (window_low n i) (window_high n i)
unfolding window_low window_high
window_bounds n i h k = ground arith

-- The rank of the row at an index is at most one more than the index.
IsEarly : ℕ → RankedRow → Type 0
IsEarly i x = x.rank ≤ i + 1

next_rank-le :
    (i : ℕ) (before : Option LeaderboardRow) (rank : ℕ) (r : LeaderboardRow)
    → rank ≤ i + 1
    → next_rank i before rank r ≤ i + 1
unfolding next_rank
next_rank-le i before rank r h = ground arith

rank_from-early :
    (m : Moderator) (counts : Counts) (i : ℕ) (before : Option LeaderboardRow) (rank : ℕ)
    → (rows : List LeaderboardRow) (j : ℕ) {x : RankedRow} → rank ≤ i + 1
    → get_elem? (rank_from m counts i before rank rows) j ≡ some x
    → x.rank ≤ i + j + 1
unfolding rank_from ranked_row
rank_from-early m counts i before rank [] j h e = cc
rank_from-early m counts i before rank (r ∷ rows) zero h e =
    ground (arith, e, next_rank-le i before rank r h)
rank_from-early m counts i before rank (r ∷ rows) (suc j) h e = omega (
  arith,
  rank_from-early m counts (suc i) (some r) (next_rank i before rank r) rows j
      (omega (arith, next_rank-le i before rank r h)) e,
)

rebuilt-early :
    (c : Settings) (m : Moderator) (now : ℤ) (rows : List LeaderboardRow) (j : ℕ) {x : RankedRow}
    → get_elem? (rebuilt c m now rows) j ≡ some x
    → x.rank ≤ j + 1
unfolding rebuilt rank_rows
rebuilt-early c m now rows j {x} e = omega (
  arith,
  rank_from-early m (count_names m (filtered c now rows) no_names) 0 none 1 (filtered c now rows) j
      (omega arith) e,
)

get_elem?-lt :
    (xs : List RankedRow) (i : ℕ) {x : RankedRow} → get_elem? xs i ≡ some x → i < length xs
get_elem?-lt [] i e = cc
get_elem?-lt (y ∷ xs) zero e = omega arith
get_elem?-lt (y ∷ xs) (suc i) e = omega (arith, get_elem?-lt xs i e)

top_count_lem : (n : ℕ) → top_count n ≡ min 10 n
unfolding top_count
top_count_lem n = ground arith

-- What a board shows of its viewer: no row is theirs and the board names none; or the board has the
-- viewer's row, and either that ranks in the top and there is no window, or it ranks below and the
-- window is the run of rows around it.
abbrev pub IsViewed : Moderator → SaveRef → List RankedRow → Board → Type 0
IsViewed m you rows board =
    ((board.you ≡ none) × (board.window ≡ []) × All (IsNotYou you) rows)
    ⊎ ((i : ℕ) × (r : RankedRow) × (get_elem? rows i ≡ some r)
        × (is_you r you ≡ true)
        × (board.you ≡ some (to_row m you r))
        × (((r.rank ≤ 10) × (board.window ≡ []))
            ⊎ ((10 < r.rank)
                × ((lo : ℕ) × (hi : ℕ) × IsAround (length rows) i lo hi
                    × (board.window ≡ map (to_row m you) (take (hi + 1 - lo) (drop lo rows)))))))

-- The window of the viewer's row.
IsWindow : Moderator → SaveRef → List RankedRow → ℕ → RankedRow → Type 0
IsWindow m you rows i r =
    ((r.rank ≤ 10) × (map (to_row m you) (window_of r.rank i rows) ≡ []))
    ⊎ ((10 < r.rank)
        × ((lo : ℕ) × (hi : ℕ) × IsAround (length rows) i lo hi
            × (map (to_row m you) (window_of r.rank i rows)
                ≡ map (to_row m you) (take (hi + 1 - lo) (drop lo rows)))))

late_behind_top : (n i rank : ℕ) → 10 < rank → rank ≤ i + 1 → top_count n ≤ i
unfolding top_count
late_behind_top n i rank h k = ground arith

IsWindow-of_parts :
    (m : Moderator) (you : SaveRef) (rows : List RankedRow) (i : ℕ) (r : RankedRow)
    → r.rank ≤ i + 1
    → i < length rows
    → IsWindow m you rows i r
unfolding IsWindow window_of rows_between
IsWindow-of_parts m you rows i r early within = elim (Bool-cases (leb r.rank 10)) [
  | inl e ↦ inl (ground (arith, e), rw (e, if◌then◌else◌) refl)
  | inr e ↦
      let late : 10 < r.rank = ground (arith, e) in
      inr (
        late,
        (
          window_low (length rows) i,
          window_high (length rows) i,
          window_bounds (length rows) i (late_behind_top (length rows) i r.rank late early) within,
          rw (e, if◌then◌else◌) refl,
        ),
      )
]

your_board-IsViewed :
    (m : Moderator) (you : SaveRef) (as_of : ℤ) (rows : List RankedRow) (i : ℕ) (r : RankedRow)
    → get_elem? rows i ≡ some r
    → is_you r you ≡ true
    → r.rank ≤ i + 1
    → IsViewed m you rows (your_board m you as_of rows i (get_elem? rows i))
unfolding your_board IsWindow
your_board-IsViewed m you as_of rows i r e y early =
    subst (λ o. IsViewed m you rows (your_board m you as_of rows i o)) (sym e)
      (inr (i, r, e, y, refl, IsWindow-of_parts m you rows i r early (get_elem?-lt rows i e)))

board_at-IsViewed :
    (m : Moderator) (you : SaveRef) (as_of : ℤ) (rows : List RankedRow) (o : Option ℕ)
    → ((i : ℕ) (r : RankedRow) → get_elem? rows i ≡ some r → r.rank ≤ i + 1)
    → IsIndex you rows o
    → IsViewed m you rows (elim o [
      | none ↦ plain_board m you as_of rows
      | some i ↦ your_board m you as_of rows i (get_elem? rows i)
    ])
unfolding plain_board
board_at-IsViewed m you as_of rows none early h = inl (refl, refl, h)
board_at-IsViewed m you as_of rows (some i) early (r, e, y) =
    your_board-IsViewed m you as_of rows i r e y (early i r e)

-- The board of a rebuilt snapshot has a row for the viewer exactly when the snapshot has. A viewer
-- who ranks below ten gets a window: the run of rows from three above to three below their own, cut
-- off where the top rows end, so that it repeats none of them, and at the last row. Every other viewer
-- gets none.
pub build_board-IsViewed :
    (c : Settings) (m : Moderator) (now : ℤ) (source : List LeaderboardRow) (as_of : ℤ)
    → (you : SaveRef)
    → IsViewed m you (rebuilt c m now source) (build_board m (rebuilt c m now source) as_of you)
unfolding build_board
build_board-IsViewed c m now source as_of you =
    board_at-IsViewed m you as_of rows (you_index you rows) (λ i r. rebuilt-early c m now source i)
      (you_index-IsIndex you rows)
  where
    rows : List RankedRow
    rows = rebuilt c m now source

-- The total counts the rows, at most ten are on top and at most seven in the window.
abbrev pub IsSized : List RankedRow → Board → Type 0
IsSized rows board =
    (board.total ≡ length rows)
    × (length board.top ≡ min 10 (length rows))
    × (length board.window ≤ 7)

window_span : (n i : ℕ) → window_high n i + 1 - window_low n i ≤ 7
unfolding window_low window_high
window_span n i = ground arith

length-window_of : (rank i : ℕ) (rows : List RankedRow) → length (window_of rank i rows) ≤ 7
unfolding window_of
length-window_of rank i rows = elim (Bool-cases (leb rank 10)) [
  | inl e ↦ rw (e, if◌then◌else◌) (omega arith)
  | inr e ↦
      rw
        (
          e,
          if◌then◌else◌,
          length-rows_between (window_low (length rows) i) (window_high (length rows) i) rows,
        )
        (omega (arith, window_span (length rows) i))
]

plain_board-IsSized :
    (m : Moderator) (you : SaveRef) (as_of : ℤ) (rows : List RankedRow)
    → IsSized rows (plain_board m you as_of rows)
unfolding plain_board
plain_board-IsSized m you as_of rows = (
  refl,
  rw
      (
        length-map (to_row m you) (take (top_count (length rows)) rows),
        length-take (top_count (length rows)) rows,
        top_count_lem (length rows),
      )
      (ground arith),
  omega arith,
)

your_board-IsSized :
    (m : Moderator) (you : SaveRef) (as_of : ℤ) (rows : List RankedRow) (i : ℕ)
    → (o : Option RankedRow) → IsSized rows (your_board m you as_of rows i o)
unfolding your_board
your_board-IsSized m you as_of rows i none = plain_board-IsSized m you as_of rows
your_board-IsSized m you as_of rows i (some r) =
    let (total, top, window) = plain_board-IsSized m you as_of rows in
    (
      total,
      top,
      rw (length-map (to_row m you) (window_of r.rank i rows)) (length-window_of r.rank i rows),
    )

-- Whatever the ranked rows and the viewer, the board's total is their number, the top has ten of
-- them or all if they are fewer, and the window has at most seven.
pub build_board-IsSized :
    (m : Moderator) (rows : List RankedRow) (as_of : ℤ) (you : SaveRef)
    → IsSized rows (build_board m rows as_of you)
unfolding build_board
build_board-IsSized m rows as_of you = sized (you_index you rows)
  where
    sized :
        (o : Option ℕ)
        → IsSized rows (elim o [
          | none ↦ plain_board m you as_of rows
          | some i ↦ your_board m you as_of rows i (get_elem? rows i)
        ])
    sized none = plain_board-IsSized m you as_of rows
    sized (some i) = your_board-IsSized m you as_of rows i (get_elem? rows i)
