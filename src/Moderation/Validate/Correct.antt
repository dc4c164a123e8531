-- ===== src/Moderation/Validate/Correct.antt =====
-- Validate of internal/moderation/validate.go: its results are the farm names, and it keeps them.
use ssh_farm.Prelude.{
  ℕ, ◌≡◌, refl, sym, subst, Bool, true, false, [], ◌∷◌, ◌⊎◌, ◌↔◌, inl, inr, Option, none, some,
  arith,
}
use ssh_farm.Moderation.Text.{
  Text, between, is_space, trim_left, trim_right, join_right, trim_space,
}
use ssh_farm.Moderation.Validate.{
  Written, wrote, space, refused, write_rune, put_front, normalize, is_separator,
  is_all_digits_and_separators, last_of, check_shape, shape_of, validate_trimmed, validate,
}
use ssh_farm.Moderation.Validate.Names.{IsMark, IsSpaced, IsSeparator, HasLetter, IsFarmName}

-- What one rune writes.
IsWritten : Written → Type 0
IsWritten (wrote c) = IsMark c
IsWritten space = Unit
IsWritten refused = Unit

write_rune-IsWritten : (r : ℕ) → IsWritten (write_rune r)
unfolding write_rune between IsWritten
write_rune-IsWritten r = ground arith

write_rune-mark : (r : ℕ) → IsMark r → write_rune r ≡ wrote r
unfolding write_rune between
write_rune-mark r h = ground arith

put_front-some :
    (c : ℕ) (o : Option Text) (n : Text)
    → put_front c o ≡ some n
    → (s : Text) × (o ≡ some s) × (n ≡ c ∷ s)
unfolding put_front
put_front-some c none n e = cc
put_front-some c (some s) n e = (s, refl, grind (arith, e))

front-IsSpaced :
    (after : Bool) (c : ℕ) (o : Option Text) (n : Text)
    → IsMark c
    → ((m : Text) → o ≡ some m → IsSpaced false m)
    → put_front c o ≡ some n
    → IsSpaced after n
front-IsSpaced after c o n mark h e =
    let (s, d, q) = put_front-some c o n e in subst (IsSpaced after) (sym q) (inl (mark, h s d))

front_space-IsSpaced :
    (o : Option Text) (n : Text)
    → ((m : Text) → o ≡ some m → IsSpaced true m)
    → put_front 0x20 o ≡ some n
    → IsSpaced false n
front_space-IsSpaced o n h e =
    let (s, d, q) = put_front-some 0x20 o n e in
    subst (IsSpaced false) (sym q) (inr (refl, refl, h s d))

written-IsSpaced :
    (w : Written) (s n : Text)
    → IsWritten w
    → (after : Bool) → ((b : Bool) (m : Text) → normalize b s ≡ some m → IsSpaced b m)
    → elim w [
      | wrote c ↦ put_front c (normalize false s)
      | space ↦ elim after [ true ↦ normalize true s | false ↦ put_front 0x20 (normalize true s) ]
      | refused ↦ none
    ]
      ≡ some n
    → IsSpaced after n
unfolding IsWritten
written-IsSpaced (wrote c) s n mark after rest d =
    front-IsSpaced after c (normalize false s) n mark (rest false) d
written-IsSpaced space s n mark true rest d = rest true n d
written-IsSpaced space s n mark false rest d =
    front_space-IsSpaced (normalize true s) n (rest true) d
written-IsSpaced refused s n mark after rest d = cc

-- What the loop writes.
normalize-IsSpaced : (after : Bool) (s n : Text) → normalize after s ≡ some n → IsSpaced after n
unfolding normalize
normalize-IsSpaced after [] n e = grind (arith, e)
normalize-IsSpaced after (r ∷ s) n e =
    written-IsSpaced (write_rune r) s n (write_rune-IsWritten r) after
      (λ b m. normalize-IsSpaced b s m) e

-- A text of that form is written as it is.
IsSpaced-normalize : (after : Bool) (n : Text) → IsSpaced after n → normalize after n ≡ some n
unfolding normalize put_front write_rune between
IsSpaced-normalize after [] h = refl
IsSpaced-normalize after (r ∷ s) (inl (mark, h)) =
    rw (normalize, write_rune-mark r mark, IsSpaced-normalize false s h, put_front) refl
IsSpaced-normalize after (r ∷ s) (inr (e, d, h)) =
    rw (e, normalize, d, IsSpaced-normalize true s h, put_front) refl

is_separator_iff : (r : ℕ) → (is_separator r ≡ true) ↔ IsSeparator r
unfolding is_separator
is_separator_iff r = ground arith

-- With marks and spaces only, a text that is not all digits and separators has a letter.
is_all_digits_and_separators_iff :
    (after : Bool) (s : Text)
    → IsSpaced after s
    → (is_all_digits_and_separators s ≡ false) ↔ HasLetter s
unfolding is_all_digits_and_separators between is_separator
is_all_digits_and_separators_iff after [] h = ground arith
is_all_digits_and_separators_iff after (r ∷ s) (inl (mark, h)) =
    ground (arith, is_all_digits_and_separators_iff false s h)
is_all_digits_and_separators_iff after (r ∷ s) (inr (e, d, h)) =
    ground (arith, is_all_digits_and_separators_iff true s h)

check_shape-IsFarmName :
    (n m : Text) → IsSpaced false n → check_shape n ≡ some m → (n ≡ m) × IsFarmName n
unfolding check_shape
check_shape-IsFarmName [] m h e = cc
check_shape-IsFarmName (c ∷ s) m h e = ground (
  arith,
  e,
  is_separator_iff c,
  is_separator_iff (last_of c s),
  is_all_digits_and_separators_iff false (c ∷ s) h,
)

IsFarmName-check_shape : (n : Text) → IsFarmName n → check_shape n ≡ some n
unfolding check_shape
IsFarmName-check_shape [] h = absurd h
IsFarmName-check_shape (c ∷ s) (h, first, last, short, long, letter) = ground (
  arith,
  is_separator_iff c,
  is_separator_iff (last_of c s),
  is_all_digits_and_separators_iff false (c ∷ s) h,
)

trim_right-keeps : (c : ℕ) (s : Text) → is_space (last_of c s) ≡ false → trim_right (c ∷ s) ≡ c ∷ s
unfolding trim_right join_right last_of
trim_right-keeps c [] h = rw (trim_right, trim_right, join_right, h) refl
trim_right-keeps c (d ∷ s) h = rw (trim_right, trim_right-keeps d s h) refl

-- A space in a name is U+0020.
mark_not_space : (r : ℕ) → IsMark r ⊎ (r ≡ 0x20) → ¬ (IsSeparator r) → is_space r ≡ false
unfolding is_space between
mark_not_space r h k = ground arith

last-IsMark :
    (after : Bool) (c : ℕ) (s : Text)
    → IsSpaced after (c ∷ s)
    → IsMark (last_of c s) ⊎ (last_of c s ≡ 0x20)
unfolding last_of
last-IsMark after c [] (inl (mark, h)) = inl mark
last-IsMark after c [] (inr (e, b, h)) = inr e
last-IsMark after c (d ∷ s) (inl (mark, h)) = last-IsMark false d s h
last-IsMark after c (d ∷ s) (inr (e, b, h)) = last-IsMark true d s h

first-IsMark : (after : Bool) (c : ℕ) (s : Text) → IsSpaced after (c ∷ s) → IsMark c ⊎ (c ≡ 0x20)
first-IsMark after c s (inl (mark, h)) = inl mark
first-IsMark after c s (inr (e, b, h)) = inr e

IsFarmName-trim_space : (n : Text) → IsFarmName n → trim_space n ≡ n
unfolding trim_space trim_left trim_right
IsFarmName-trim_space [] h = absurd h
IsFarmName-trim_space (c ∷ s) (h, first, last, short, long, letter) =
    rw (trim_left, mark_not_space c (first-IsMark false c s h) first)
      (trim_right-keeps c s (mark_not_space (last_of c s) (last-IsMark false c s h) last))

shape_of-IsFarmName :
    (o : Option Text) (n : Text)
    → ((m : Text) → o ≡ some m → IsSpaced false m)
    → shape_of o ≡ some n
    → IsFarmName n
unfolding shape_of
shape_of-IsFarmName none n h e = cc
shape_of-IsFarmName (some m) n h e =
    let (q, name) = check_shape-IsFarmName m n (h m refl) e in subst IsFarmName q name

validate_trimmed-IsFarmName : (t n : Text) → validate_trimmed t ≡ some n → IsFarmName n
unfolding validate_trimmed
validate_trimmed-IsFarmName [] n e = cc
validate_trimmed-IsFarmName (r ∷ s) n e =
    shape_of-IsFarmName (normalize false (r ∷ s)) n (normalize-IsSpaced false (r ∷ s)) e

IsFarmName-validate_trimmed : (n : Text) → IsFarmName n → validate_trimmed n ≡ some n
unfolding validate_trimmed shape_of
IsFarmName-validate_trimmed [] h = absurd h
IsFarmName-validate_trimmed (r ∷ s) h =
    rw (validate_trimmed, IsSpaced-normalize false (r ∷ s) h.0, shape_of)
      (IsFarmName-check_shape (r ∷ s) h)

-- Whatever text is validated, a result is a farm name: 3 to 20 runes of A to Z, 0 to 9, hyphen,
-- underscore and single spaces, one of them a letter, with no separator at either end.
pub validate-IsFarmName : (raw n : Text) → validate raw ≡ some n → IsFarmName n
unfolding validate
validate-IsFarmName raw n e = validate_trimmed-IsFarmName (trim_space raw) n e

-- The texts that validation returns unchanged are exactly the farm names.
pub validate_iff : (n : Text) → (validate n ≡ some n) ↔ IsFarmName n
unfolding validate
validate_iff n = (
  validate-IsFarmName n n,
  λ h. rw (validate, IsFarmName-trim_space n h) (IsFarmName-validate_trimmed n h),
)
