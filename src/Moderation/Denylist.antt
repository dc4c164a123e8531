-- ===== src/Moderation/Denylist.antt =====
-- internal/moderation/denylist.go: the tiered word list, how it is built and what it blocks.
pub mod Blocking
pub mod Loading
use ssh_farm.Prelude.{
  ℕ, suc, Bool, true, false, not, ◌&&◌, ◌||◌, if◌then◌else◌, List, [], ◌∷◌, ◌++◌, map, String,
  str_eq, ◌⊎◌, inl, inr,
}
use ssh_farm.Moderation.Text.{Text, is_empty, text_contains, has_key, trim_space}

pub record Term : Type 0 where
  pub word : Text
  pub tier : String
  pub match_kind : String

pub record Denylist : Type 0 where
  pub substrings : List Text
  pub words : List Text
  pub allow : List Text

-- Errors name an entry by its index, never by its word.
pub data ListError : Type 0 where
  unknown_tier : ℕ → String → ListError
  unknown_match : ℕ → String → ListError

-- strings.ToLower(strings.TrimSpace(s)), where `lower` is unicode.ToLower
unfoldable pub clean : (ℕ → ℕ) → Text → Text
clean lower s = map lower (trim_space s)

unfoldable pub known_tier : String → Bool
known_tier s = str_eq s "slur" || str_eq s "profanity"

unfoldable pub add_word : ℕ → String → Text → Denylist → ListError ⊎ Denylist
add_word i kind w dl =
    if str_eq kind "substring"
    then inr (record dl { substrings = dl.substrings ++ w ∷ [] })
    else if str_eq kind "word"
    then inr (record dl { words = w ∷ dl.words })
    else inl (unknown_match i kind)

-- One round of the loop over the terms, where w is the term's word after trimming and lowering.
unfoldable pub add_term : ℕ → Term → Text → Denylist → ListError ⊎ Denylist
add_term i t w dl =
    if is_empty w
    then inr dl
    else if known_tier t.tier
    then add_word i t.match_kind w dl
    else inl (unknown_tier i t.tier)

unfoldable pub add_terms : (ℕ → ℕ) → ℕ → List Term → Denylist → ListError ⊎ Denylist
add_terms lower i [] dl = inr dl
add_terms lower i (t ∷ ts) dl = elim (add_term i t (clean lower t.word) dl) [
  | inl e ↦ inl e
  | inr next ↦ add_terms lower (suc i) ts next
]

unfoldable pub allowed : (ℕ → ℕ) → List Text → List Text
allowed lower [] = []
allowed lower (a ∷ names) =
    let rest = allowed lower names in
    if is_empty (clean lower a) then rest else clean lower a ∷ rest

abbrev pub empty_denylist : Denylist
empty_denylist = record { substrings = []; words = []; allow = [] }

unfoldable pub new_denylist : (ℕ → ℕ) → List Term → List Text → ListError ⊎ Denylist
new_denylist lower terms allow = elim (add_terms lower 0 terms empty_denylist) [
  | inl e ↦ inl e
  | inr dl ↦ inr (record dl { allow = allowed lower allow })
]

unfoldable pub any_substring : List Text → Text → Text → Bool
any_substring [] stripped collapsed = false
any_substring (bad ∷ more) stripped collapsed =
    not (is_empty bad) && (text_contains stripped bad || text_contains collapsed bad)
    || any_substring more stripped collapsed

unfoldable pub any_word : List Text → List Text → Bool
any_word words [] = false
any_word words (tok ∷ toks) = has_key words tok || any_word words toks

unfoldable pub blocks : Denylist → Text → Text → List Text → Bool
blocks dl stripped collapsed toks =
    if has_key dl.allow stripped
    then false
    else any_substring dl.substrings stripped collapsed || any_word dl.words toks
