-- ===== src/Moderation/Filter/Safe.antt =====
-- What Filter of internal/moderation/moderation.go lets through and what it refuses.
use ssh_farm.Prelude.{
  ℕ, ◌≡◌, refl, ap, sym, subst, Bool, true, false, not, if◌then◌else◌, List, [], ◌∷◌, Option, none,
  some, ◌⊎◌, ◌↔◌, inl, inr, Bool-cases, String, eq_iff, ◌∙◌, arith,
}
use ssh_farm.Moderation.Text.{Text, is_empty}
use ssh_farm.Moderation.Normalize.{
  fold_leet, strip_separators, collapse_repeats, name_candidates, tokens,
}
use ssh_farm.Moderation.Validate.{validate}
use ssh_farm.Moderation.Validate.Names.{IsFarmName}
use ssh_farm.Moderation.Validate.Correct.{validate-IsFarmName, validate_iff}
use ssh_farm.Moderation.Denylist.{Term, Denylist, clean, new_denylist, blocks}
use ssh_farm.Moderation.Denylist.Blocking.{IsIn, IsWithin, IsBlocked, blocks_iff}
use ssh_farm.Moderation.Denylist.Loading.{IsTerm, IsListed, new_denylist-IsListed}
use ssh_farm.Moderation.Filter.{check, check_valid, filter}

-- The denylist blocks a name as it is written: its candidates in lower case and without leetspeak.
abbrev pub IsDenied : (ℕ → ℕ) → Denylist → Text → Type 0
IsDenied lower dl name =
    IsBlocked dl (strip_separators (fold_leet lower name))
      (collapse_repeats (strip_separators (fold_leet lower name))) (tokens (fold_leet lower name))

not_iff : {A : Type 0} (b : Bool) → (b ≡ true) ↔ A → (not b ≡ true) ↔ (¬ A)
not_iff b f = ground (arith, f)

pub check_iff :
    (lower : ℕ → ℕ) (dl : Denylist) (name : Text)
    → (check lower dl name ≡ true) ↔ (¬ (IsDenied lower dl name))
unfolding check name_candidates
check_iff lower dl name = not_iff (blocks dl s c toks) (blocks_iff dl s c toks)
  where
    s : Text
    s = strip_separators (fold_leet lower name)

    c : Text
    c = collapse_repeats s

    toks : List Text
    toks = tokens (fold_leet lower name)

never_passed : (out : Text) → ◌≡◌ {A = Text × Bool} ([], true) (out, false) → ⊥
never_passed out e = true_not_false (ap (λ p. p.1) e)
  where
    true_not_false : true ≡ false → ⊥
    true_not_false d = cc

passed :
    (b : Bool) (n out : Text)
    → ◌≡◌ {A = Text × Bool} (if b then (n, false) else ([], true)) (out, false)
    → (b ≡ true) × (n ≡ out)
passed true n out e = (refl, ap (λ p. p.0) e)
passed false n out e = absurd (never_passed out e)

check_valid-passed :
    (lower : ℕ → ℕ) (dl : Denylist) (o : Option Text) (out : Text)
    → check_valid lower dl o ≡ (out, false)
    → (o ≡ some out) × (check lower dl out ≡ true)
unfolding check_valid
check_valid-passed lower dl none out e = absurd (never_passed out e)
check_valid-passed lower dl (some n) out e =
    let (c, q) = passed (check lower dl n) n out e in
    (ap some q, subst (λ x. check lower dl x ≡ true) q c)

-- Outside dev mode a name that is not empty goes to validation and the list.
filter_valid :
    (lower : ℕ → ℕ) (dev : Bool) (dl : Denylist) (r : ℕ) (name out : Text)
    → filter lower dev dl (r ∷ name) ≡ (out, false)
    → (dev ≡ false) × (validate (r ∷ name) ≡ some out) × (check lower dl out ≡ true)
unfolding filter is_empty
filter_valid lower true dl r name out e = absurd (never_passed out e)
filter_valid lower false dl r name out e =
    let (v, c) = check_valid-passed lower dl (validate (r ∷ name)) out e in (refl, v, c)

-- A name that the filter lets through is the empty one, for the empty input, or the validated form
-- of the input: a farm name that the list in force does not block, outside dev mode.
pub filter_passes :
    (lower : ℕ → ℕ) (dev : Bool) (dl : Denylist) (name out : Text)
    → filter lower dev dl name ≡ (out, false)
    → ((name ≡ []) × (out ≡ []))
      ⊎ ((dev ≡ false) × (validate name ≡ some out) × IsFarmName out × (¬ (IsDenied lower dl out)))
unfolding filter is_empty
filter_passes lower dev dl [] out e = inl (refl, ap (λ p. p.0) (sym e))
filter_passes lower dev dl (r ∷ name) out e =
    let (d, v, c) = filter_valid lower dev dl r name out e in
    inr (d, v, validate-IsFarmName (r ∷ name) out v, (check_iff lower dl out).0 c)

filter_name :
    (lower : ℕ → ℕ) (dl : Denylist) (n : Text)
    → IsFarmName n
    → check lower dl n ≡ true
    → filter lower false dl n ≡ (n, false)
unfolding filter is_empty check_valid
filter_name lower dl [] h c = absurd h
filter_name lower dl (r ∷ s) h c = rw ((validate_iff (r ∷ s)).1 h, check_valid, c) refl

-- What the filter has let through it lets through again, unchanged.
pub filter_again :
    (lower : ℕ → ℕ) (dev : Bool) (dl : Denylist) (name out : Text)
    → filter lower dev dl name ≡ (out, false)
    → filter lower dev dl out ≡ (out, false)
unfolding filter is_empty
filter_again lower dev dl [] out e =
    subst (λ x. filter lower dev dl x ≡ (x, false)) (ap (λ p. p.0) e) refl
filter_again lower dev dl (r ∷ name) out e =
    let (d, v, c) = filter_valid lower dev dl r name out e in
    rw (d) (filter_name lower dl out (validate-IsFarmName (r ∷ name) out v) c)

listed_substring :
    (kind : String) (w : Text) (dl : Denylist)
    → kind ≡ "substring"
    → IsListed kind w dl
    → IsIn w dl.substrings
listed_substring kind w dl e (inl (d, h)) = h
listed_substring kind w dl e (inr (d, h)) =
    absurd (apart ((eq_iff "substring" "word").1 (sym e ∙ d)))
  where
    apart : false ≡ true → ⊥
    apart q = cc

-- A term of the denylist file that is matched anywhere refuses every name in which it stands, in
-- lower case, without leetspeak and separators, and with or without repeated letters, unless that
-- form of the name is an exception.
pub listed_term_refused :
    (lower : ℕ → ℕ) (dev : Bool) (ts : List Term) (allow : List Text) (dl : Denylist) (t : Term)
    → (r : ℕ) (name norm : Text) → new_denylist lower ts allow ≡ inr dl
    → IsTerm t ts
    → t.match_kind ≡ "substring"
    → is_empty (clean lower t.word) ≡ false
    → validate (r ∷ name) ≡ some norm
    → IsWithin (clean lower t.word) (strip_separators (fold_leet lower norm))
      ⊎ IsWithin (clean lower t.word) (collapse_repeats (strip_separators (fold_leet lower norm)))
    → ¬ (IsIn (strip_separators (fold_leet lower norm)) dl.allow)
    → filter lower dev dl (r ∷ name) ≡ ([], true)
unfolding filter is_empty check_valid
listed_term_refused lower true ts allow dl t r name norm e h kind full v w free = refl
listed_term_refused lower false ts allow dl t r name norm e h kind full v w free =
    elim (Bool-cases (check lower dl norm)) [
      | inl c ↦
          absurd ((check_iff lower dl norm).0 c (free, inl (clean lower t.word, listed, full, w)))
      | inr c ↦ rw (v, check_valid, c) refl
    ]
  where
    listed : IsIn (clean lower t.word) dl.substrings
    listed =
        listed_substring t.match_kind (clean lower t.word) dl kind
          (new_denylist-IsListed lower ts allow dl t e h full)
