-- ===== src/Tests/Players.antt =====
-- Usernames and renames, and runs of internal/identity and of the store's gate on them.
use ssh_farm.Prelude.{
  ◌⊎◌, add64, leb_ℤ, ℕ, ◌+◌, ◌≤◌, ◌≡◌, refl, pos, true, false, List, [], ◌∷◌, ◌++◌, some, inr,
  replicate, All-replicate, arith,
}
use ssh_farm.Moderation.Text.{
  Text, is_empty, between, is_space, trim_left, join_right, trim_right, trim_space,
}
use ssh_farm.Identity.{
  sanitize_slot, slot_runes, is_slot_rune, hex_encode, hex_digit, encode_proxied_username,
  parse_proxied_username,
}
use ssh_farm.Identity.Slots.{IsSlotName, sanitize_slot_lem}
use ssh_farm.Identity.Usernames.{IsByte, parse_proxied_username-encode}
use ssh_farm.Store.{RenameRow, no_renames}
use ssh_farm.Store.Renames.{attempts, attempts_per_day}
use ssh_farm.Tests.Names.{ascii_lower}

-- " My-Farm!"
abbrev my_farm : Text
my_farm = 0x20 ∷ 0x4d ∷ 0x79 ∷ 0x2d ∷ 0x46 ∷ 0x61 ∷ 0x72 ∷ 0x6d ∷ 0x21 ∷ []

-- "my-farm"
abbrev my_slot : Text
my_slot = 0x6d ∷ 0x79 ∷ 0x2d ∷ 0x66 ∷ 0x61 ∷ 0x72 ∷ 0x6d ∷ []

ascii_keeps : (r : ℕ) → is_slot_rune r ≡ true → ascii_lower r ≡ r
unfolding is_slot_rune between
ascii_keeps r h = ground (arith, h)

sanitize_slot_lem_example :
    IsSlotName (sanitize_slot ascii_lower my_farm)
    × (sanitize_slot ascii_lower (sanitize_slot ascii_lower my_farm)
        ≡ sanitize_slot ascii_lower my_farm)
sanitize_slot_lem_example = sanitize_slot_lem ascii_lower my_farm ascii_keeps

-- A sum of 32 equal bytes.
abbrev sum : List ℕ
sum = replicate 32 0xa7

abbrev username : Text
username = hex_encode sum ++ 0x2e ∷ my_slot

encoded : encode_proxied_username ascii_lower sum my_farm ≡ some username
unfolding encode_proxied_username sanitize_slot slot_runes is_slot_rune is_empty trim_space
    trim_left trim_right join_right is_space between hex_encode hex_digit
encoded = refl

parse_proxied_username-encode_example :
    parse_proxied_username ascii_lower username ≡ inr (sum, sanitize_slot ascii_lower my_farm)
parse_proxied_username-encode_example =
    parse_proxied_username-encode ascii_lower sum my_farm username ascii_keeps
      (All-replicate IsByte 32 0xa7 (omega arith)) refl encoded

-- A row whose day ends between the two attempts.
abbrev today : RenameRow
today = record no_renames { day_start = pos 1700000000; day_count = pos 59 }

attempts_per_day_example :
    ((attempts (pos 1700086399 ∷ pos 1700086400 ∷ []) today).0 + 59 ≤ 120)
    × ((leb_ℤ (add64 (pos 1700000000) (pos 86400)) (pos 1700086399) ≡ false)
        ⊎ ((attempts (pos 1700086399 ∷ pos 1700086400 ∷ []) today).0 ≤ 60))
attempts_per_day_example =
    attempts_per_day 1700086399 (1700086399 ∷ 1700086400 ∷ []) today
      (omega arith, omega arith, omega arith, omega arith) (omega arith, (omega arith, tt))
      (omega arith, (omega arith, tt)) (omega arith)
