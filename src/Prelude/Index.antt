-- ===== src/Prelude/Index.antt =====
-- Slices read and written at a signed index, after the test `i < 0 || i >= len(xs)`.
use mathlib.Core.Bool.{◌||◌}
use mathlib.Core.List.{List}
use mathlib.Core.Option.{Option, none}
use ssh_farm.Prelude.Tests.{if◌then◌else◌}
use ssh_farm.Prelude.Lists.{length, get_elem?, set}
use ssh_farm.Prelude.Int.{ℤ, pos, pos_part, ltb_ℤ, leb_ℤ}

module _ {ℓ} {A : Type ℓ} where
  -- `none` is an index out of range.
  unfoldable pub get_index : List A → ℤ → Option A
  get_index xs i =
      if ltb_ℤ i (pos 0) || leb_ℤ (pos (length xs)) i then none else get_elem? xs (pos_part i)

  abbrev pub set_index : List A → ℤ → A → List A
  set_index xs i v = set xs (pos_part i) v
