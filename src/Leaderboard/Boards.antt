-- ===== src/Leaderboard/Boards.antt =====
-- buildBoard, isYou and toRow of internal/leaderboard/engine.go, with the types of types.go.
pub mod Windows
pub mod Viewer
use ssh_farm.Prelude.{
  ℕ, zero, suc, ◌+◌, ◌-◌, ℤ, pos, ltb_ℤ, Bool, true, false, not, ◌&&◌, ltb, leb, if◌then◌else◌,
  List, [], ◌∷◌, Option, none, some, map, length, get_elem?, take, drop, String, str_eq,
}
use ssh_farm.Moderation.Text.{Text, is_empty, text_eq}
use ssh_farm.Leaderboard.Ranking.{LeaderboardRow, RankedRow, Moderator}

abbrev pub top_size : ℕ
top_size = 10

abbrev pub window_radius : ℕ
window_radius = 3

pub record SaveRef : Type 0 where
  pub fingerprint : Text
  pub slot : String

pub record Row : Type 0 where
  pub rank : ℕ
  pub display_name : Text
  pub suffix : Text
  pub show_suffix : Bool
  pub contracts_completed : ℤ
  pub name_style : String
  pub coins : ℤ
  pub rebirths : ℤ
  pub is_you : Bool

pub record Board : Type 0 where
  pub you : Option Row
  pub total : ℕ
  pub top : List Row
  pub window : List Row
  pub as_of : ℤ

unfoldable pub is_you : RankedRow → SaveRef → Bool
is_you r you =
    not (is_empty you.fingerprint)
    && (text_eq r.row.fingerprint you.fingerprint && str_eq r.row.slot you.slot)

unfoldable pub clamp_completed : ℤ → ℤ
clamp_completed n = if ltb_ℤ n (pos 0) then pos 0 else if ltb_ℤ (pos 3) n then pos 3 else n

unfoldable pub to_row : Moderator → SaveRef → RankedRow → Row
to_row m you r = record {
  rank = r.rank;
  display_name = r.display_name;
  suffix = m.suffix r.row.fingerprint;
  show_suffix = r.show_suffix;
  contracts_completed = clamp_completed r.row.contracts_completed;
  name_style = r.row.name_style;
  coins = r.row.coins;
  rebirths = r.row.rebirths;
  is_you = is_you r you;
}

unfoldable pub top_count : ℕ → ℕ
top_count n = if ltb top_size n then top_size else n

-- youIdx after the loop over the top rows, which does not stop at a match; none is -1.
unfoldable pub last_you : SaveRef → ℕ → Option ℕ → List RankedRow → Option ℕ
last_you you i found [] = found
last_you you i found (r ∷ rows) = last_you you (suc i) (if is_you r you then some i else found) rows

-- youIdx after the loop over the rows from index i on, which stops at the first match.
unfoldable pub first_you : SaveRef → ℕ → List RankedRow → Option ℕ
first_you you i [] = none
first_you you i (r ∷ rows) =
    let later = first_you you (suc i) rows in if is_you r you then some i else later

unfoldable pub you_index : SaveRef → List RankedRow → Option ℕ
you_index you rows = elim (last_you you 0 none (take (top_count (length rows)) rows)) [
  | some i ↦ some i
  | none ↦ first_you you (top_count (length rows)) (drop (top_count (length rows)) rows)
]

-- youIdx-windowRadius stops at 0 here, where it is below topN all the same.
unfoldable pub window_low : ℕ → ℕ → ℕ
window_low n i = if ltb (i - window_radius) (top_count n) then top_count n else i - window_radius

-- There is a row at i, so that n is not 0.
unfoldable pub window_high : ℕ → ℕ → ℕ
window_high n i = if ltb (n - 1) (i + window_radius) then n - 1 else i + window_radius

-- The rows from index lo to index hi.
unfoldable pub rows_between : ℕ → ℕ → List RankedRow → List RankedRow
rows_between lo hi rows = take (hi + 1 - lo) (drop lo rows)

unfoldable pub window_of : ℕ → ℕ → List RankedRow → List RankedRow
window_of rank i rows =
    if leb rank top_size
    then []
    else rows_between (window_low (length rows) i) (window_high (length rows) i) rows

unfoldable pub plain_board : Moderator → SaveRef → ℤ → List RankedRow → Board
plain_board m you as_of rows = record {
  you = none;
  total = length rows;
  top = map (to_row m you) (take (top_count (length rows)) rows);
  window = [];
  as_of = as_of;
}

unfoldable pub your_board : Moderator → SaveRef → ℤ → List RankedRow → ℕ → Option RankedRow → Board
your_board m you as_of rows i none = plain_board m you as_of rows
your_board m you as_of rows i (some r) = record (plain_board m you as_of rows) {
  you = some (to_row m you r);
  window = map (to_row m you) (window_of r.rank i rows);
}

unfoldable pub build_board : Moderator → List RankedRow → ℤ → SaveRef → Board
build_board m rows as_of you = elim (you_index you rows) [
  | none ↦ plain_board m you as_of rows
  | some i ↦ your_board m you as_of rows i (get_elem? rows i)
]
