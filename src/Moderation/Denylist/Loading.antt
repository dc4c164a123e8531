-- ===== src/Moderation/Denylist/Loading.antt =====
-- newDenylist of internal/moderation/denylist.go: what a list that loads holds.
use ssh_farm.Prelude.{
  ℕ, suc, ◌≡◌, refl, subst, false, if◌then◌else◌, List, [], ◌∷◌, ◌++◌, String, str_eq, ◌⊎◌, inl,
  inr, eq_iff, Bool-cases, Sum-cases,
}
use ssh_farm.Moderation.Text.{Text, is_empty}
use ssh_farm.Moderation.Denylist.{
  Term, Denylist, ListError, clean, known_tier, add_word, add_term, add_terms, empty_denylist,
  new_denylist,
}
use ssh_farm.Moderation.Denylist.Blocking.{IsIn}

-- A term of the file.
abbrev pub IsTerm : Term → List Term → Type 0
IsTerm t [] = ⊥
IsTerm t (u ∷ ts) = (u ≡ t) ⊎ IsTerm t ts

-- The list holds w, matched as `kind` says.
abbrev pub IsListed : String → Text → Denylist → Type 0
IsListed kind w dl =
    ((kind ≡ "substring") × IsIn w dl.substrings) ⊎ ((kind ≡ "word") × IsIn w dl.words)

IsIn-append_left : (t : Text) (ks ls : List Text) → IsIn t ks → IsIn t (ks ++ ls)
IsIn-append_left t [] ls h = absurd h
IsIn-append_left t (k ∷ ks) ls (inl e) = inl e
IsIn-append_left t (k ∷ ks) ls (inr h) = inr (IsIn-append_left t ks ls h)

IsIn-append_right : (t : Text) (ks ls : List Text) → IsIn t ls → IsIn t (ks ++ ls)
IsIn-append_right t [] ls h = h
IsIn-append_right t (k ∷ ks) ls h = inr (IsIn-append_right t ks ls h)

-- A step of the loop that succeeds with `next` keeps what is listed.
IsKept : Denylist → ListError ⊎ Denylist → Type 0
IsKept dl (inl e) = Unit
IsKept dl (inr next) = (k : String) (v : Text) → IsListed k v dl → IsListed k v next

add_word-IsKept :
    (i : ℕ) (kind : String) (w : Text) (dl : Denylist) → IsKept dl (add_word i kind w dl)
unfolding add_word IsKept
add_word-IsKept i kind w dl = elim (Bool-cases (str_eq kind "substring")) [
  | inl e ↦ rw (e, if◌then◌else◌) substring_kept
  | inr e ↦ elim (Bool-cases (str_eq kind "word")) [
    | inl d ↦ rw (e, d, if◌then◌else◌) word_kept
    | inr d ↦ rw (e, d, if◌then◌else◌) tt
  ]
]
  where
    substring_kept :
        (k : String) (v : Text)
        → IsListed k v dl
        → IsListed k v (record dl { substrings = dl.substrings ++ w ∷ [] })
    substring_kept k v (inl (e, h)) = inl (e, IsIn-append_left v dl.substrings (w ∷ []) h)
    substring_kept k v (inr h) = inr h

    word_kept :
        (k : String) (v : Text)
        → IsListed k v dl
        → IsListed k v (record dl { words = w ∷ dl.words })
    word_kept k v (inl h) = inl h
    word_kept k v (inr (e, h)) = inr (e, inr h)

-- A step that succeeds lists the word w of the term t, unless that is blank.
HasListed : Term → Text → ListError ⊎ Denylist → Type 0
HasListed t w (inl e) = Unit
HasListed t w (inr next) = IsListed t.match_kind w next

add_word-HasListed :
    (i : ℕ) (t : Term) (w : Text) (dl : Denylist) → HasListed t w (add_word i t.match_kind w dl)
unfolding add_word HasListed
add_word-HasListed i t w dl = elim (Bool-cases (str_eq t.match_kind "substring")) [
  | inl e ↦
      rw (e, if◌then◌else◌)
        (inl (
          (eq_iff t.match_kind "substring").0 e,
          IsIn-append_right w dl.substrings (w ∷ []) (inl refl),
        ))
  | inr e ↦ elim (Bool-cases (str_eq t.match_kind "word")) [
    | inl d ↦ rw (e, d, if◌then◌else◌) (inr ((eq_iff t.match_kind "word").0 d, inl refl))
    | inr d ↦ rw (e, d, if◌then◌else◌) tt
  ]
]

add_term-IsKept : (i : ℕ) (t : Term) (w : Text) (dl : Denylist) → IsKept dl (add_term i t w dl)
unfolding add_term IsKept
add_term-IsKept i t w dl = elim (Bool-cases (is_empty w)) [
  | inl e ↦ rw (e, if◌then◌else◌) (λ k v h. h)
  | inr e ↦ elim (Bool-cases (known_tier t.tier)) [
    | inl d ↦ rw (e, d, if◌then◌else◌) (add_word-IsKept i t.match_kind w dl)
    | inr d ↦ rw (e, d, if◌then◌else◌) tt
  ]
]

add_term-HasListed :
    (i : ℕ) (t : Term) (w : Text) (dl : Denylist)
    → is_empty w ≡ false
    → HasListed t w (add_term i t w dl)
unfolding add_term HasListed
add_term-HasListed i t w dl e = elim (Bool-cases (known_tier t.tier)) [
  | inl d ↦ rw (e, d, if◌then◌else◌) (add_word-HasListed i t w dl)
  | inr d ↦ rw (e, d, if◌then◌else◌) tt
]

IsKept-from :
    (dl next : Denylist) (r : ListError ⊎ Denylist)
    → IsKept dl (inr next)
    → IsKept next r
    → IsKept dl r
unfolding IsKept
IsKept-from dl next (inl e) h k = tt
IsKept-from dl next (inr last) h k = λ kind v listed. k kind v (h kind v listed)

add_terms-IsKept :
    (lower : ℕ → ℕ) (i : ℕ) (ts : List Term) (dl : Denylist) → IsKept dl (add_terms lower i ts dl)
unfolding add_terms IsKept
add_terms-IsKept lower i [] dl = λ k v h. h
add_terms-IsKept lower i (t ∷ ts) dl = elim (Sum-cases (add_term i t (clean lower t.word) dl)) [
  | inl (err, e) ↦ rw (e, add_terms) tt
  | inr (next, e) ↦
      rw (e, add_terms)
        (IsKept-from dl next (add_terms lower (suc i) ts next)
          (subst (IsKept dl) e (add_term-IsKept i t (clean lower t.word) dl))
          (add_terms-IsKept lower (suc i) ts next))
]

listed_from :
    (t : Term) (w : Text) (next : Denylist) (r : ListError ⊎ Denylist)
    → HasListed t w (inr next)
    → IsKept next r
    → HasListed t w r
unfolding IsKept HasListed
listed_from t w next (inl e) h k = tt
listed_from t w next (inr last) h k = k t.match_kind w h

step-HasListed :
    (lower : ℕ → ℕ) (i : ℕ) (u : Term) (ts : List Term) (dl next : Denylist) (t : Term)
    → add_term i u (clean lower u.word) dl ≡ inr next
    → is_empty (clean lower t.word) ≡ false
    → (IsTerm t ts → HasListed t (clean lower t.word) (add_terms lower (suc i) ts next))
    → IsTerm t (u ∷ ts)
    → HasListed t (clean lower t.word) (add_terms lower (suc i) ts next)
step-HasListed lower i u ts dl next t e full rest (inl q) =
    listed_from t w next (add_terms lower (suc i) ts next)
      (subst (HasListed t w) (subst (λ x. add_term i x (clean lower x.word) dl ≡ inr next) q e)
        (add_term-HasListed i t w dl full))
      (add_terms-IsKept lower (suc i) ts next)
  where
    w : Text
    w = clean lower t.word
step-HasListed lower i u ts dl next t e full rest (inr h) = rest h

add_terms-HasListed :
    (lower : ℕ → ℕ) (i : ℕ) (ts : List Term) (dl : Denylist) (t : Term)
    → is_empty (clean lower t.word) ≡ false
    → IsTerm t ts
    → HasListed t (clean lower t.word) (add_terms lower i ts dl)
unfolding add_terms HasListed
add_terms-HasListed lower i [] dl t full h = absurd h
add_terms-HasListed lower i (u ∷ ts) dl t full h =
    elim (Sum-cases (add_term i u (clean lower u.word) dl)) [
      | inl (err, e) ↦ rw (e, add_terms) tt
      | inr (next, e) ↦
          rw (e, add_terms)
            (step-HasListed lower i u ts dl next t e full
              (add_terms-HasListed lower (suc i) ts next t full) h)
    ]

new_denylist-HasListed :
    (lower : ℕ → ℕ) (ts : List Term) (allow : List Text) (t : Term)
    → IsTerm t ts
    → is_empty (clean lower t.word) ≡ false
    → HasListed t (clean lower t.word) (new_denylist lower ts allow)
unfolding new_denylist HasListed
new_denylist-HasListed lower ts allow t h full =
    elim (Sum-cases (add_terms lower 0 ts empty_denylist)) [
      | inl (err, e) ↦ rw (e, new_denylist) tt
      | inr (dl, e) ↦
          rw (e, new_denylist)
            (subst (HasListed t (clean lower t.word)) e
              (add_terms-HasListed lower 0 ts empty_denylist t full h))
    ]

-- A list that loads holds every term of the file whose word is not blank, trimmed and in lower
-- case.
pub new_denylist-IsListed :
    (lower : ℕ → ℕ) (ts : List Term) (allow : List Text) (dl : Denylist) (t : Term)
    → new_denylist lower ts allow ≡ inr dl
    → IsTerm t ts
    → is_empty (clean lower t.word) ≡ false
    → IsListed t.match_kind (clean lower t.word) dl
unfolding HasListed
new_denylist-IsListed lower ts allow dl t e h full =
    subst (HasListed t (clean lower t.word)) e (new_denylist-HasListed lower ts allow t h full)
