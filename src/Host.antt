-- ===== src/Host.antt =====
-- What the game takes from Go's standard library and the process environment.
use ssh_farm.Prelude.{ℕ, ℤ, String}

pub record Host : Type 0 where
  -- time.Unix(now, 0).UTC(): the month, 1 to 12, and the day of the month.
  pub month : ℤ → ℕ
  pub day : ℤ → ℕ
  -- strings.ToLower(strings.TrimSpace(os.Getenv("FARM_DEV_SEASON")))
  pub dev_season : String
  -- int64(math.Sqrt(float64(n))) of a positive n
  pub float_sqrt : ℕ → ℕ
  -- strings.TrimSpace and utf8.RuneCountInString
  pub trim_space : String → String
  pub rune_count : String → ℕ
