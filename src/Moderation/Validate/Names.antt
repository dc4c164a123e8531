-- ===== src/Moderation/Validate/Names.antt =====
-- What a farm name is, independently of how internal/moderation/validate.go makes one.
use ssh_farm.Prelude.{ℕ, ◌≤◌, ◌≡◌, Bool, true, false, [], ◌∷◌, ◌⊎◌, length}
use ssh_farm.Moderation.Text.{Text}
use ssh_farm.Moderation.Validate.{last_of}

-- A rune of a name other than the space: A to Z, 0 to 9, the hyphen and the underscore.
abbrev pub IsMark : ℕ → Type 0
IsMark r = ((0x41 ≤ r) × (r ≤ 0x5a)) ⊎ (((0x30 ≤ r) × (r ≤ 0x39)) ⊎ ((r ≡ 0x2d) ⊎ (r ≡ 0x5f)))

-- Marks and single spaces; the flag says that a space came before.
abbrev pub IsSpaced : Bool → Text → Type 0
IsSpaced after_space [] = Unit
IsSpaced after_space (r ∷ s) =
    (IsMark r × IsSpaced false s) ⊎ ((r ≡ 0x20) × (after_space ≡ false) × IsSpaced true s)

abbrev pub IsSeparator : ℕ → Type 0
IsSeparator r = (r ≡ 0x20) ⊎ ((r ≡ 0x2d) ⊎ (r ≡ 0x5f))

-- Some rune is a letter.
abbrev pub HasLetter : Text → Type 0
HasLetter [] = ⊥
HasLetter (r ∷ s) = ((0x41 ≤ r) × (r ≤ 0x5a)) ⊎ HasLetter s

-- Letters, digits, hyphens, underscores and single spaces, 3 to 20 of them, one a letter, with no
-- separator at either end.
abbrev pub IsFarmName : Text → Type 0
IsFarmName [] = ⊥
IsFarmName (r ∷ s) =
    IsSpaced false (r ∷ s)
    × (¬ (IsSeparator r))
    × (¬ (IsSeparator (last_of r s)))
    × (3 ≤ length (r ∷ s))
    × (length (r ∷ s) ≤ 20)
    × HasLetter (r ∷ s)
