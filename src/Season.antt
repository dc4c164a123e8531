-- ===== src/Season.antt =====
-- internal/season/season.go: the festival windows of the calendar.
use ssh_farm.Prelude.{ℕ, ℤ, Bool, String, str_eq, ◌&&◌, ◌||◌, if◌then◌else◌, ◌==◌, leb}
use ssh_farm.Host.{Host}

pub data Season : Type 0 where
  no_season halloween christmas : Season

-- At, on a UTC month and day of the month.
unfoldable pub at : ℕ → ℕ → Season
at m d =
    if m == 10
    then halloween
    else if m == 11 && leb 25 d
    then christmas
    else if m == 12 && leb d 25
    then christmas
    else no_season

unfoldable pub at_unix : Host → ℤ → Season
unfolding at
at_unix h now = at (h.month now) (h.day now)

unfoldable pub active_at_unix : Host → ℤ → Season
unfolding at_unix
active_at_unix h now =
    if str_eq h.dev_season "halloween"
    then halloween
    else if str_eq h.dev_season "christmas"
    then christmas
    else at_unix h now

unfoldable pub name : Season → String
name halloween = "Halloween"
name christmas = "Christmas"
name no_season = ""

unfoldable pub glyph : Season → String
glyph halloween = "🎃"
glyph christmas = "🎄"
glyph no_season = ""

unfoldable pub key : Season → String
key halloween = "halloween"
key christmas = "christmas"
key no_season = ""

unfoldable pub valid_key : String → Bool
valid_key k = str_eq k "halloween" || str_eq k "christmas"

-- SpecialDay, on a UTC month and day of the month.
unfoldable pub special_day : ℕ → ℕ → Bool
special_day m d = (m == 10 && d == 31) || (m == 12 && d == 25)

unfoldable pub special_day_unix : Host → ℤ → Bool
unfolding special_day
special_day_unix h now = special_day (h.month now) (h.day now)
