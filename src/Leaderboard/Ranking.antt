-- ===== src/Leaderboard/Ranking.antt =====
-- rebuild of internal/leaderboard/engine.go: the filters, the names and the 1224 ranking. The rows
-- are those of Store.LeaderboardSnapshot in internal/store/store.go.
pub mod Competition
pub mod Shown
use ssh_farm.Prelude.{
  ℕ, zero, suc, ◌+◌, ◌*◌, ℤ, pos, ltb_ℤ, leb_ℤ, div64, sub64, Bool, true, false, ◌&&◌, ◌||◌, ltb,
  if◌then◌else◌, List, [], ◌∷◌, Option, none, some, map, String,
}
use ssh_farm.Moderation.Text.{Text, is_empty, text_eq}

pub record LeaderboardRow : Type 0 where
  pub fingerprint : Text
  pub slot : String
  pub coins : ℤ
  pub rebirths : ℤ
  pub farm_name : Text
  pub updated_at : ℤ
  pub contracts_completed : ℤ
  pub name_style : String

pub record RankedRow : Type 0 where
  pub row : LeaderboardRow
  pub rank : ℕ
  pub display_name : Text
  pub show_suffix : Bool

-- What the board takes from internal/moderation: Filter, Generate and Suffix.
pub record Moderator : Type 0 where
  pub filter : Text → Text × Bool
  pub generate : Text → Text
  pub suffix : Text → Text

-- The settings of an engine, durations in nanoseconds.
pub record Settings : Type 0 where
  pub ttl : ℤ
  pub activity_window : ℤ
  pub min_coins : ℤ

abbrev pub second : ℤ
second = pos 1000000000

unfoldable pub filter_activity : Settings → Bool
filter_activity c = ltb_ℤ (pos 0) c.activity_window

unfoldable pub cutoff : Settings → ℤ → ℤ
cutoff c now = if filter_activity c then sub64 now (div64 c.activity_window second) else pos 0

-- The guards of the filter loop, where a row that meets one is skipped.
unfoldable pub is_skipped : Settings → ℤ → LeaderboardRow → Bool
is_skipped c now r =
    ltb_ℤ r.coins c.min_coins || (filter_activity c && leb_ℤ r.updated_at (cutoff c now))

unfoldable pub filtered : Settings → ℤ → List LeaderboardRow → List LeaderboardRow
filtered c now [] = []
filtered c now (r ∷ rows) = elim (is_skipped c now r) [
  | true ↦ filtered c now rows
  | false ↦ r ∷ filtered c now rows
]

-- The name to show for a row: the filtered one, or the generated one where it is locked.
unfoldable pub name_of : Moderator → LeaderboardRow → Text
name_of m r =
    let (name, locked) = m.filter r.farm_name in if locked then m.generate r.fingerprint else name

-- The map nameCounts, where a name that is absent counts 0.
abbrev pub Counts : Type 0
Counts = Text → ℕ

unfoldable pub count_name : Text → Counts → Counts
count_name name counts =
    if is_empty name then counts else λ t. if text_eq name t then suc (counts t) else counts t

unfoldable pub count_names : Moderator → List LeaderboardRow → Counts → Counts
count_names m [] counts = counts
count_names m (r ∷ rows) counts = count_names m rows (count_name (name_of m r) counts)

-- r.Coins < filtered[i-1].Coins, false at the first row
unfoldable pub falls_below : Option LeaderboardRow → LeaderboardRow → Bool
falls_below none r = false
falls_below (some before) r = ltb_ℤ r.coins before.coins

unfoldable pub ranked_row : Counts → ℕ → Text → LeaderboardRow → RankedRow
ranked_row counts rank name r = record {
  row = r;
  rank = rank;
  display_name = name;
  show_suffix = is_empty name || ltb 1 (counts name);
}

unfoldable pub next_rank : ℕ → Option LeaderboardRow → ℕ → LeaderboardRow → ℕ
next_rank i before rank r = if falls_below before r then i + 1 else rank

-- The ranking loop at index i, with the row before and the rank so far.
unfoldable pub rank_from :
    Moderator → Counts → ℕ → Option LeaderboardRow → ℕ → List LeaderboardRow → List RankedRow
rank_from m counts i before rank [] = []
rank_from m counts i before rank (r ∷ rows) =
    ranked_row counts (next_rank i before rank r) (name_of m r) r
    ∷ rank_from m counts (suc i) (some r) (next_rank i before rank r) rows

unfoldable pub no_names : Counts
no_names = λ t. 0

unfoldable pub rank_rows : Moderator → List LeaderboardRow → List RankedRow
rank_rows m rows = rank_from m (count_names m rows no_names) 0 none 1 rows

-- The part of rebuild that follows a snapshot read without an error, at the unix time `now`.
unfoldable pub rebuilt : Settings → Moderator → ℤ → List LeaderboardRow → List RankedRow
rebuilt c m now rows = rank_rows m (filtered c now rows)
