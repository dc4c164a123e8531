-- ===== src/Moderation/Normalize.antt =====
-- internal/moderation/normalize.go: the forms of a name that the denylist is matched against.
-- `lower` is unicode.ToLower, which strings.ToLower applies to each rune.
use ssh_farm.Prelude.{
  ℕ, Bool, true, false, ◌||◌, ◌==◌, if◌then◌else◌, List, [], ◌∷◌, Option, none, some, map,
}
use ssh_farm.Moderation.Text.{Text}

-- The map leetFold: digits and symbols, with the letters that they mimic.
abbrev pub leet_fold : List (ℕ × ℕ)
leet_fold =
    (0x30, 0x6f)
    ∷ (0x31, 0x69)
    ∷ (0x33, 0x65)
    ∷ (0x34, 0x61)
    ∷ (0x35, 0x73)
    ∷ (0x36, 0x67)
    ∷ (0x37, 0x74)
    ∷ (0x38, 0x62)
    ∷ (0x40, 0x61)
    ∷ (0x24, 0x73)
    ∷ (0x21, 0x69)
    ∷ (0x2b, 0x74)
    ∷ []

-- if f, ok := table[r]; ok { r = f }
unfoldable pub fold_rune : List (ℕ × ℕ) → ℕ → ℕ
fold_rune [] r = r
fold_rune ((k, f) ∷ table) r = if k == r then f else fold_rune table r

unfoldable pub fold_leet : (ℕ → ℕ) → Text → Text
fold_leet lower s = map (fold_rune leet_fold) (map lower s)

unfoldable pub is_sep : ℕ → Bool
is_sep r = (r == 0x20) || (r == 0x2d) || (r == 0x5f)

unfoldable pub strip_separators : Text → Text
strip_separators [] = []
strip_separators (r ∷ s) = elim (is_sep r) [
  | true ↦ strip_separators s
  | false ↦ r ∷ strip_separators s
]

unfoldable pub repeats : Option ℕ → ℕ → Bool
repeats none r = false
repeats (some last) r = r == last

-- The loop of collapseRepeats: the last rune written, none at the start, where Go has rune(-1).
unfoldable pub collapse_from : Option ℕ → Text → Text
collapse_from last [] = []
collapse_from last (r ∷ s) = elim (repeats last r) [
  | true ↦ collapse_from last s
  | false ↦ r ∷ collapse_from (some r) s
]

unfoldable pub collapse_repeats : Text → Text
collapse_repeats s = collapse_from none s

-- A field that is not empty, in front of the others.
unfoldable pub add_field : Text → List Text → List Text
add_field [] rest = rest
add_field (r ∷ s) rest = (r ∷ s) ∷ rest

-- strings.FieldsFunc: the runs of runes between separators, with the run that the rest goes on.
unfoldable pub fields : Text → Text × List Text
fields [] = ([], [])
fields (r ∷ s) =
    let (run, rest) = fields s in if is_sep r then ([], add_field run rest) else (r ∷ run, rest)

unfoldable pub tokens : Text → List Text
tokens folded = let (run, rest) = fields folded in add_field run rest

-- The folded name, without separators, and without separators or repeats.
unfoldable pub name_candidates : (ℕ → ℕ) → Text → Text × Text × Text
name_candidates lower name =
    let folded = fold_leet lower name in
    let stripped = strip_separators folded in (folded, stripped, collapse_repeats stripped)
