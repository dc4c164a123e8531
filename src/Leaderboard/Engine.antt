-- ===== src/Leaderboard/Engine.antt =====
-- Engine of internal/leaderboard/engine.go: the cached snapshot, as a machine whose steps are the
-- critical sections of its mutex. Times are in nanoseconds.
pub mod Snapshots
use ssh_farm.Prelude.{
  ℕ, ◌/◌, ℤ, pos, negsuc, ltb_ℤ, ◌-ℤ◌, min64, max64, max_int64, Bool, true, false, ◌&&◌,
  if◌then◌else◌, List, [], ◌∷◌, Option, none, some,
}
use ssh_farm.Leaderboard.Ranking.{LeaderboardRow, RankedRow, Moderator, Settings, rebuilt}
use ssh_farm.Leaderboard.Boards.{Board, SaveRef, build_board}

-- What a rebuild hands to those who wait for it: the rows, none for an error, and the time.
abbrev pub BuildState : Type 0
BuildState = Option (List RankedRow) × ℤ

-- The fields under the mutex. `ranked` is none for nil; `building` says that a rebuild runs.
pub record Engine : Type 0 where
  pub ranked : Option (List RankedRow)
  pub built_at : ℤ
  pub building : Bool

abbrev pub new_engine : ℤ → Engine
new_engine zero_time = record { ranked = none; built_at = zero_time; building = false }

-- What snapshot does when it has taken the mutex.
pub data Entry : Type 0 where
  cached : List RankedRow → ℤ → Entry
  waits : Entry
  builds : Entry

-- time.Time.Sub, which stops at the ends of int64
unfoldable pub time_sub : ℤ → ℤ → ℤ
time_sub a b = min64 (pos max_int64) (max64 (negsuc max_int64) (a -ℤ b))

unfoldable pub is_fresh : Settings → ℤ → Engine → Bool
is_fresh c now e = ltb_ℤ (time_sub now e.built_at) c.ttl

unfoldable pub enter_idle : Bool → Option (List RankedRow) → Engine → Entry × Engine
enter_idle fresh none e = (builds, record e { building = true })
enter_idle true (some rows) e = (cached rows e.built_at, e)
enter_idle false (some rows) e = (builds, record e { building = true })

-- The first critical section of snapshot.
unfoldable pub enter : Settings → ℤ → Engine → Entry × Engine
enter c now e = if e.building then (waits, e) else enter_idle (is_fresh c now e) e.ranked e

-- rebuild, given what the source returned, none for an error, at the unix time `now`.
unfoldable pub rebuild :
    Settings → Moderator → ℤ → Option (List LeaderboardRow) → Option (List RankedRow)
rebuild c m now none = none
rebuild c m now (some rows) = some (rebuilt c m now rows)

-- The second critical section of snapshot, after a rebuild.
unfoldable pub finish : Option (List RankedRow) → ℤ → Engine → Engine
finish none at e = record e { building = false }
finish (some rows) at e = record { ranked = some rows; built_at = at; building = false }

-- time.Time.Unix of a time in nanoseconds since the epoch, which rounds down
unfoldable pub unix : ℤ → ℤ
unix (pos n) = pos (n / 1000000000)
unix (negsuc n) = negsuc (n / 1000000000)

-- Get for rows and an error, none, as snapshot returns them.
unfoldable pub answer : Moderator → SaveRef → BuildState → Option Board
answer m you (none, at) = none
answer m you (some rows, at) = some (build_board m rows (unix at) you)
