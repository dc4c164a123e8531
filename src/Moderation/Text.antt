-- ===== src/Moderation/Text.antt =====
-- What internal/moderation uses of Go's strings package, over the code points of a string.
use ssh_farm.Prelude.{
  ℕ, ◌≡◌, refl, ap, Bool, true, false, ◌&&◌, ◌||◌, leb, ◌==◌, if◌then◌else◌, List, [], ◌∷◌, inl,
  inr, Bool-cases, arith,
}

abbrev pub Text : Type 0
Text = List ℕ

unfoldable pub is_empty : Text → Bool
is_empty [] = true
is_empty (r ∷ s) = false

unfoldable pub text_eq : Text → Text → Bool
text_eq [] [] = true
text_eq [] (q ∷ t) = false
text_eq (r ∷ s) [] = false
text_eq (r ∷ s) (q ∷ t) = (r == q) && text_eq s t

-- strings.HasPrefix, the prefix first
unfoldable pub starts : Text → Text → Bool
starts [] t = true
starts (r ∷ s) [] = false
starts (r ∷ s) (q ∷ t) = (r == q) && starts s t

-- strings.Contains
unfoldable pub text_contains : Text → Text → Bool
text_contains [] sub = starts sub []
text_contains (r ∷ s) sub = starts sub (r ∷ s) || text_contains s sub

-- a map[string]bool that holds only true, as the list of its keys
unfoldable pub has_key : List Text → Text → Bool
has_key [] t = false
has_key (k ∷ ks) t = text_eq k t || has_key ks t

unfoldable pub between : ℕ → ℕ → ℕ → Bool
between lo hi r = leb lo r && leb r hi

-- unicode.IsSpace
unfoldable pub is_space : ℕ → Bool
is_space r =
    between 9 13 r
    || (r == 32)
    || (r == 0x85)
    || (r == 0xa0)
    || (r == 0x1680)
    || between 0x2000 0x200a r
    || (r == 0x2028)
    || (r == 0x2029)
    || (r == 0x202f)
    || (r == 0x205f)
    || (r == 0x3000)

unfoldable pub trim_left : Text → Text
trim_left [] = []
trim_left (r ∷ s) = elim (is_space r) [ true ↦ trim_left s | false ↦ r ∷ s ]

unfoldable pub join_right : ℕ → Text → Text
join_right r [] = if is_space r then [] else r ∷ []
join_right r (q ∷ t) = r ∷ q ∷ t

unfoldable pub trim_right : Text → Text
trim_right [] = []
trim_right (r ∷ s) = join_right r (trim_right s)

-- strings.TrimSpace
unfoldable pub trim_space : Text → Text
trim_space s = trim_right (trim_left s)

pub text_eq_refl : (t : Text) → text_eq t t ≡ true
unfolding text_eq
text_eq_refl [] = refl
text_eq_refl (r ∷ s) = ground (arith, text_eq_refl s)

pub text_eq→eq : (s t : Text) → text_eq s t ≡ true → s ≡ t
unfolding text_eq
text_eq→eq [] [] e = refl
text_eq→eq [] (q ∷ t) e = cc
text_eq→eq (r ∷ s) [] e = cc
text_eq→eq (r ∷ s) (q ∷ t) e = elim (Bool-cases (text_eq s t)) [
  | inl d ↦ rw (text_eq→eq s t d) (ap (λ x. x ∷ t) (ground (arith, e, d)))
  | inr d ↦ ground (arith, e, d)
]
