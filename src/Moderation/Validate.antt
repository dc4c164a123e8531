-- ===== src/Moderation/Validate.antt =====
-- internal/moderation/validate.go: the runes and the shape of a farm name.
pub mod Names
pub mod Correct
use ssh_farm.Prelude.{
  ℕ, ◌-◌, Bool, true, false, not, ◌&&◌, ◌||◌, ltb, ◌==◌, if◌then◌else◌, List, [], ◌∷◌, Option, none,
  some, length,
}
use ssh_farm.Moderation.Text.{Text, between, trim_space}

abbrev pub min_name_len : ℕ
min_name_len = 3

abbrev pub max_name_len : ℕ
max_name_len = 20

-- What the switch on a rune does: writes a rune, writes a space unless it follows one, or rejects.
pub data Written : Type 0 where
  wrote : ℕ → Written
  space : Written
  refused : Written

unfoldable pub write_rune : ℕ → Written
write_rune r =
    if between 0x61 0x7a r
    then wrote (r - 0x20)
    else if between 0x41 0x5a r || between 0x30 0x39 r || (r == 0x2d) || (r == 0x5f)
    then wrote r
    else if r == 0x20
    then space
    else refused

unfoldable pub put_front : ℕ → Option Text → Option Text
put_front r none = none
put_front r (some s) = some (r ∷ s)

-- The loop over the trimmed runes, with lastWasSpace; none where a rune is rejected.
unfoldable pub normalize : Bool → Text → Option Text
normalize last_was_space [] = some []
normalize last_was_space (r ∷ s) = elim (write_rune r) [
  | wrote c ↦ put_front c (normalize false s)
  | space ↦ elim last_was_space [
    | true ↦ normalize true s
    | false ↦ put_front 0x20 (normalize true s)
  ]
  | refused ↦ none
]

unfoldable pub is_separator : ℕ → Bool
is_separator b = (b == 0x20) || (b == 0x2d) || (b == 0x5f)

unfoldable pub is_all_digits_and_separators : Text → Bool
is_all_digits_and_separators [] = true
is_all_digits_and_separators (c ∷ s) =
    if not (between 0x30 0x39 c) && not (is_separator c)
    then false
    else is_all_digits_and_separators s

-- norm[len(norm)-1] of the string of c and s
unfoldable pub last_of : ℕ → Text → ℕ
last_of c [] = c
last_of c (d ∷ s) = last_of d s

-- The checks of the normalized name. It is ASCII, so that its bytes are its runes.
unfoldable pub check_shape : Text → Option Text
check_shape [] = none
check_shape (c ∷ s) =
    if is_separator c || is_separator (last_of c s)
    then none
    else if ltb (length (c ∷ s)) min_name_len || ltb max_name_len (length (c ∷ s))
    then none
    else if is_all_digits_and_separators (c ∷ s)
    then none
    else some (c ∷ s)

unfoldable pub shape_of : Option Text → Option Text
shape_of none = none
shape_of (some norm) = check_shape norm

unfoldable pub validate_trimmed : Text → Option Text
validate_trimmed [] = none
validate_trimmed (r ∷ s) = shape_of (normalize false (r ∷ s))

unfoldable pub validate : Text → Option Text
validate raw = validate_trimmed (trim_space raw)
