-- ===== src/Tests/Boards.antt =====
-- A leaderboard of three farms, and runs of internal/leaderboard on it.
use ssh_farm.Prelude.{ℕ, ◌≡◌, refl, ℤ, pos, true, false, List, [], ◌∷◌, none, some, map, All, arith}
use ssh_farm.Leaderboard.Ranking.{LeaderboardRow, Moderator, Settings, filtered, rebuilt}
use ssh_farm.Leaderboard.Ranking.Competition.{IsCompetitionRank, rebuilt-IsCompetitionRank}
use ssh_farm.Leaderboard.Ranking.Shown.{IsShown, rebuilt-IsShown}
use ssh_farm.Leaderboard.Boards.{SaveRef, build_board}
use ssh_farm.Leaderboard.Boards.Windows.{
  IsViewed, build_board-IsViewed, IsSized, build_board-IsSized,
}
use ssh_farm.Leaderboard.Engine.{
  Engine, builds, waits, new_engine, enter, enter_idle, finish, rebuild,
}
use ssh_farm.Leaderboard.Engine.Snapshots.{
  System, Read, start, complete, join, Reached, fresh, after, IsConsistent, Reached-IsConsistent,
}

abbrev pub plain_moderator : Moderator
plain_moderator = record {
  filter = λ name. (name, false);
  generate = λ fingerprint. fingerprint;
  suffix = λ fingerprint. fingerprint;
}

-- A rebuild every half a minute, for farms of the last month with coins.
abbrev settings : Settings
settings = record {
  ttl = pos 30000000000;
  activity_window = pos 2592000000000000;
  min_coins = pos 1;
}

abbrev row : ℕ → ℕ → LeaderboardRow
row who coins = record {
  fingerprint = who ∷ [];
  slot = "main";
  coins = pos coins;
  rebirths = pos 0;
  farm_name = 0x53 ∷ 0x55 ∷ 0x4e ∷ [];
  updated_at = pos 1700000000;
  contracts_completed = pos 0;
  name_style = "";
}

abbrev rows : List LeaderboardRow
rows = row 1 90 ∷ row 2 90 ∷ row 3 50 ∷ []

abbrev you : SaveRef
you = record { fingerprint = 3 ∷ []; slot = "main" }

abbrev now : ℤ
now = pos 1700000100

rebuilt-IsCompetitionRank_example :
    All (IsCompetitionRank (filtered settings now rows)) (rebuilt settings plain_moderator now rows)
rebuilt-IsCompetitionRank_example =
    rebuilt-IsCompetitionRank settings plain_moderator now rows (ground arith)

rebuilt-IsShown_example :
    (map (λ x. x.row) (rebuilt settings plain_moderator now rows) ≡ filtered settings now rows)
    × All
        (IsShown plain_moderator (filtered settings now rows))
        (rebuilt settings plain_moderator now rows)
rebuilt-IsShown_example = rebuilt-IsShown settings plain_moderator now rows

build_board-IsViewed_example :
    IsViewed plain_moderator you
      (rebuilt settings plain_moderator now rows)
      (build_board plain_moderator (rebuilt settings plain_moderator now rows) now you)
build_board-IsViewed_example = build_board-IsViewed settings plain_moderator now rows now you

build_board-IsSized_example :
    IsSized
      (rebuilt settings plain_moderator now rows)
      (build_board plain_moderator (rebuilt settings plain_moderator now rows) now you)
build_board-IsSized_example =
    build_board-IsSized plain_moderator (rebuilt settings plain_moderator now rows) now you

-- One caller rebuilds, and another waits for it.
abbrev idle : System
idle = record { engine = new_engine (pos 0); rebuilding = 0; waiting = 0; reads = [] }

abbrev busy : Engine
busy = record { ranked = none; built_at = pos 0; building = true }

abbrev rebuilding_one : System
rebuilding_one = record { engine = busy; rebuilding = 1; waiting = 0; reads = [] }

abbrev one_waits : System
one_waits = record { engine = busy; rebuilding = 1; waiting = 1; reads = [] }

enters : enter settings (pos 5) (new_engine (pos 0)) ≡ (builds, busy)
unfolding enter enter_idle
enters = refl

joins : enter settings (pos 6) busy ≡ (waits, busy)
unfolding enter
joins = refl

one_waits_reached : Reached settings plain_moderator one_waits
one_waits_reached =
    after (after (fresh (pos 0)) (start idle (pos 5) busy enters))
      (join rebuilding_one (pos 6) busy joins)

-- It ends with rows.
abbrev good : Read
good = record { source = some rows; now = now; at = pos 7 }

abbrev one_built : System
one_built = record {
  engine = finish (rebuild settings plain_moderator now (some rows)) (pos 7) busy;
  rebuilding = 0;
  waiting = 0;
  reads = good ∷ [];
}

one_built_reached : Reached settings plain_moderator one_built
one_built_reached = after one_waits_reached (complete one_waits 0 good refl)

Reached-IsConsistent_example : IsConsistent settings plain_moderator one_built
Reached-IsConsistent_example = Reached-IsConsistent settings plain_moderator one_built_reached
