-- ===== src/Moderation/Generate.antt =====
-- internal/moderation/generate.go: the default name of a key, and its public suffix. `sha256` is
-- sha256.Sum256 of the bytes of a string, `upper` is unicode.ToUpper.
use ssh_farm.Prelude.{
  ℕ, zero, suc, ◌-◌, ◌%◌, ◌||◌, leb, ◌==◌, if◌then◌else◌, List, [], ◌∷◌, ◌++◌, map, Option, none,
  some, length, get_elem?,
}
use ssh_farm.Moderation.Text.{Text}

pub record Namewords : Type 0 where
  pub adjectives : List Text
  pub nouns : List Text

unfoldable pub new_namewords : List Text → List Text → Option Namewords
new_namewords adjectives nouns =
    if (length adjectives == 0) || (length nouns == 0)
    then none
    else some (record { adjectives = adjectives; nouns = nouns })

-- words[int(h[i]) % len(words)]; newNamewords excludes the empty list, on which Go panics.
unfoldable pub pick : List ℕ → ℕ → List Text → Text
pick h i words = elim (get_elem? h i) [
  | none ↦ []
  | some b ↦ elim (get_elem? words (b % length words)) [ none ↦ [] | some w ↦ w ]
]

unfoldable pub generate : (Text → List ℕ) → (ℕ → ℕ) → Namewords → Text → Text
generate sha256 upper w fingerprint =
    let h = sha256 fingerprint in map upper (pick h 0 w.adjectives ++ 0x20 ∷ pick h 1 w.nouns)

abbrev pub suffix_len : ℕ
suffix_len = 5

unfoldable pub skip : ℕ → Text → Text
skip n [] = []
skip n (r ∷ s) = elim n [ zero ↦ r ∷ s | suc m ↦ skip m s ]

-- Suffix. A fingerprint is ASCII, so that its bytes are its runes.
unfoldable pub suffix : Text → Text
suffix fingerprint =
    if leb (length fingerprint) suffix_len
    then fingerprint
    else skip (length fingerprint - suffix_len) fingerprint
