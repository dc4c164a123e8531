-- ===== src/GameClock/Range.antt =====
-- The in-game time of day.
use ssh_farm.Prelude.{
  ℕ, suc, ◌+◌, ◌*◌, ◌-◌, ◌/◌, sub_ℕ, add64_pos, div64_pos, ap, ◌%◌, ◌<◌, ◌≡◌, ℤ, pos, negsuc, arith,
  add64, rem64,
}
use ssh_farm.GameClock.{minute_of_day, hour_minute}

-- A remainder below zero is folded up into the day.
fold_up : (r : ℕ) → r < 1440 → add64 (sub_ℕ 0 r) (pos 1440) ≡ pos (1440 - r)
unfolding add64
fold_up r h = ground arith

minute_of_pos : (n : ℕ) → minute_of_day (pos n) ≡ pos ((n + 360) % 1440)
unfolding minute_of_day rem64
minute_of_pos n =
    rw
      (
        add64_pos (n % 1440) 1440 (omega arith),
        add64_pos ((n % 1440 + 1440) % 1440) 360 (omega arith),
      )
      (ap pos (omega arith))

minute_of_negsuc : (n : ℕ) → minute_of_day (negsuc n) ≡ pos ((1439 - n % 1440 + 360) % 1440)
unfolding minute_of_day rem64
minute_of_negsuc n =
    rw
      (
        fold_up (suc n % 1440) (omega arith),
        add64_pos ((1440 - suc n % 1440) % 1440) 360 (omega arith),
      )
      (ap pos (omega arith))

-- At every timestamp n the minute of the day is the residue of n + 360 modulo 1440 in [0, 1440),
-- before the epoch too, where the timestamp is -(n + 1).
pub minute_of_day_lem :
    (n : ℕ)
    → (minute_of_day (pos n) ≡ pos ((n + 360) % 1440))
      × (minute_of_day (negsuc n) ≡ pos ((1439 - n % 1440 + 360) % 1440))
minute_of_day_lem n = (minute_of_pos n, minute_of_negsuc n)

minute_of_day-lt : (t : ℤ) → (m : ℕ) × (minute_of_day t ≡ pos m) × (m < 1440)
minute_of_day-lt (pos n) = ((n + 360) % 1440, minute_of_pos n, omega arith)
minute_of_day-lt (negsuc n) = ((1439 - n % 1440 + 360) % 1440, minute_of_negsuc n, omega arith)

-- The hour is in [0, 24), the minute in [0, 60), and together they are the minute of the day.
pub hour_minute_lem :
    (t : ℤ)
    → (h : ℕ) × (m : ℕ) × (hour_minute t ≡ (pos h, pos m))
      × (h < 24)
      × (m < 60)
      × (minute_of_day t ≡ pos (h * 60 + m))
unfolding hour_minute rem64
hour_minute_lem t =
    let (d, e, l) = minute_of_day-lt t in
    (
      d / 60,
      d % 60,
      rw (e, div64_pos d 60 (omega arith)),
      omega arith,
      omega arith,
      rw e (ap pos (omega arith)),
    )
