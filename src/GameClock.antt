-- ===== src/GameClock.antt =====
-- internal/gameclock/gameclock.go: the accelerated day.
pub mod Range
use ssh_farm.Prelude.{ℤ, pos, add64, rem64, div64}

abbrev pub phase_seconds : ℤ
phase_seconds = pos 360

abbrev pub phase_count : ℤ
phase_count = pos 4

abbrev pub minutes_per_day : ℤ
minutes_per_day = pos 1440

abbrev pub dawn_offset_minutes : ℤ
dawn_offset_minutes = phase_seconds

unfoldable pub minute_of_day : ℤ → ℤ
minute_of_day now =
    let cycle_pos = rem64 (add64 (rem64 now minutes_per_day) minutes_per_day) minutes_per_day in
    rem64 (add64 cycle_pos dawn_offset_minutes) minutes_per_day

unfoldable pub hour_minute : ℤ → ℤ × ℤ
unfolding minute_of_day
hour_minute now = (div64 (minute_of_day now) (pos 60), rem64 (minute_of_day now) (pos 60))
