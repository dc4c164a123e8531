-- ===== src/Moderation/Denylist/Blocking.antt =====
-- What blocks of internal/moderation/denylist.go decides, without its loops.
use ssh_farm.Prelude.{
  ◌≡◌, refl, ap, sym, subst, Bool, true, false, not, ◌&&◌, ◌||◌, if◌then◌else◌, List, [], ◌∷◌, ◌++◌,
  ◌⊎◌, ◌↔◌, inl, inr, Bool-cases, arith,
}
use ssh_farm.Moderation.Text.{
  Text, text_eq, starts, text_contains, has_key, is_empty, text_eq_refl, text_eq→eq,
}
use ssh_farm.Moderation.Denylist.{Denylist, any_substring, any_word, blocks}

-- An entry of a list of texts.
abbrev pub IsIn : Text → List Text → Type 0
IsIn t [] = ⊥
IsIn t (k ∷ ks) = (k ≡ t) ⊎ IsIn t ks

-- sub stands in s, after some text and before some text.
abbrev pub IsWithin : Text → Text → Type 0
IsWithin sub s = (before : Text) × (after : Text) × (s ≡ before ++ (sub ++ after))

has_key_iff : (ks : List Text) (t : Text) → (has_key ks t ≡ true) ↔ IsIn t ks
unfolding has_key
has_key_iff [] t = ground arith
has_key_iff (k ∷ ks) t = elim (Bool-cases (text_eq k t)) [
  | inl e ↦ (λ h. inl (text_eq→eq k t e), λ h. rw (has_key, e) refl)
  | inr e ↦ (
    λ h. inr ((has_key_iff ks t).0 (subst (λ b. (b || has_key ks t) ≡ true) e h)),
    λ h. elim h [
      | inl q ↦ absurd (ground (arith, subst (λ x. text_eq k x ≡ false) (sym q) e, text_eq_refl k))
      | inr q ↦ rw (has_key, e) ((has_key_iff ks t).1 q)
    ],
  )
]

starts→append : (p s : Text) → starts p s ≡ true → (after : Text) × (s ≡ p ++ after)
unfolding starts
starts→append [] s h = (s, refl)
starts→append (r ∷ p) [] h = cc
starts→append (r ∷ p) (q ∷ s) h =
    let (after, e) = starts→append p s (ground (arith, h)) in (after, grind (arith, h, e))

append→starts : (p after : Text) → starts p (p ++ after) ≡ true
unfolding starts
append→starts [] after = refl
append→starts (r ∷ p) after = ground (arith, append→starts p after)

text_contains→within : (s sub : Text) → text_contains s sub ≡ true → IsWithin sub s
unfolding text_contains
text_contains→within [] sub h = let (after, e) = starts→append sub [] h in ([], after, e)
text_contains→within (r ∷ s) sub h = elim (Bool-cases (starts sub (r ∷ s))) [
  | inl e ↦ let (after, d) = starts→append sub (r ∷ s) e in ([], after, d)
  | inr e ↦
      let (before, after, d) =
        text_contains→within s sub (subst (λ b. (b || text_contains s sub) ≡ true) e h) in
      (r ∷ before, after, ap (λ t. r ∷ t) d)
]

or_true : (a b : Bool) → b ≡ true → (a || b) ≡ true
or_true a b h = ground arith

within→text_contains :
    (before sub after : Text) → text_contains (before ++ (sub ++ after)) sub ≡ true
unfolding text_contains starts
within→text_contains [] [] [] = refl
within→text_contains [] [] (q ∷ after) = refl
within→text_contains [] (r ∷ sub) after = rw (text_contains, append→starts (r ∷ sub) after) refl
within→text_contains (r ∷ before) sub after =
    or_true (starts sub (r ∷ (before ++ (sub ++ after))))
      (text_contains (before ++ (sub ++ after)) sub) (within→text_contains before sub after)

pub text_contains_iff : (s sub : Text) → (text_contains s sub ≡ true) ↔ IsWithin sub s
text_contains_iff s sub = (
  text_contains→within s sub,
  λ h. let (before, after, e) = h in rw (e) (within→text_contains before sub after),
)

-- A slur, an entry that is matched anywhere, stands in the name without separators, or in that
-- without repeats.
abbrev pub HasSlur : List Text → Text → Text → Type 0
HasSlur bads stripped collapsed =
    (bad : Text) × IsIn bad bads
    × (is_empty bad ≡ false)
    × (IsWithin bad stripped ⊎ IsWithin bad collapsed)

-- A word of the name is an entry that is matched as a word.
abbrev pub HasWord : List Text → List Text → Type 0
HasWord words toks = (tok : Text) × IsIn tok toks × IsIn tok words

-- The denylist blocks the name of these candidates.
abbrev pub IsBlocked : Denylist → Text → Text → List Text → Type 0
IsBlocked dl stripped collapsed toks =
    (¬ (IsIn stripped dl.allow))
    × (HasSlur dl.substrings stripped collapsed ⊎ HasWord dl.words toks)

any_substring→slur :
    (bads : List Text) (s c : Text) → any_substring bads s c ≡ true → HasSlur bads s c
unfolding any_substring
any_substring→slur [] s c h = cc
any_substring→slur (bad ∷ bads) s c h = elim (Bool-cases (any_substring bads s c)) [
  | inl e ↦ let (b, within, full, how) = any_substring→slur bads s c e in (b, inr within, full, how)
  | inr e ↦ elim (Bool-cases (text_contains s bad)) [
    | inl d ↦ (bad, inl refl, ground (arith, h, e), inl ((text_contains_iff s bad).0 d))
    | inr d ↦ (
      bad,
      inl refl,
      ground (arith, h, e, d),
      inr ((text_contains_iff c bad).0 (ground (arith, h, e, d))),
    )
  ]
]

slur→any_substring :
    (bads : List Text) (s c bad : Text)
    → IsIn bad bads
    → is_empty bad ≡ false
    → (text_contains s bad ≡ true) ⊎ (text_contains c bad ≡ true)
    → any_substring bads s c ≡ true
unfolding any_substring
slur→any_substring [] s c bad h full how = absurd h
slur→any_substring (b ∷ bads) s c bad (inl e) full how =
    rw (any_substring, e, full) (ground (arith, how))
slur→any_substring (b ∷ bads) s c bad (inr h) full how =
    or_true (not (is_empty b) && (text_contains s b || text_contains c b)) (any_substring bads s c)
      (slur→any_substring bads s c bad h full how)

any_substring_iff :
    (bads : List Text) (s c : Text) → (any_substring bads s c ≡ true) ↔ HasSlur bads s c
any_substring_iff bads s c = (any_substring→slur bads s c, back)
  where
    back : HasSlur bads s c → any_substring bads s c ≡ true
    back (bad, h, full, inl w) =
        slur→any_substring bads s c bad h full (inl ((text_contains_iff s bad).1 w))
    back (bad, h, full, inr w) =
        slur→any_substring bads s c bad h full (inr ((text_contains_iff c bad).1 w))

any_word→word : (words toks : List Text) → any_word words toks ≡ true → HasWord words toks
unfolding any_word
any_word→word words [] h = cc
any_word→word words (tok ∷ toks) h = elim (Bool-cases (has_key words tok)) [
  | inl e ↦ (tok, inl refl, (has_key_iff words tok).0 e)
  | inr e ↦ let (t, h', k) = any_word→word words toks (ground (arith, h, e)) in (t, inr h', k)
]

word→any_word :
    (words toks : List Text) (tok : Text)
    → IsIn tok toks
    → has_key words tok ≡ true
    → any_word words toks ≡ true
unfolding any_word
word→any_word words [] tok h k = absurd h
word→any_word words (t ∷ toks) tok (inl e) k = rw (any_word, e, k) refl
word→any_word words (t ∷ toks) tok (inr h) k =
    or_true (has_key words t) (any_word words toks) (word→any_word words toks tok h k)

any_word_iff : (words toks : List Text) → (any_word words toks ≡ true) ↔ HasWord words toks
any_word_iff words toks = (
  any_word→word words toks,
  λ h.
      let (tok, here, listed) = h in
      word→any_word words toks tok here ((has_key_iff words tok).1 listed),
)

unless_iff :
    {A B C : Type 0} (a b c : Bool)
    → (a ≡ true) ↔ A
    → (b ≡ true) ↔ B
    → (c ≡ true) ↔ C
    → ((if a then false else b || c) ≡ true) ↔ ((¬ A) × (B ⊎ C))
unless_iff a b c f g h = ground (arith, f, g, h)

-- The denylist blocks a name exactly when it is no exception and a slur stands in it, without its
-- separators or without those and its repeats, or one of its words is listed.
pub blocks_iff :
    (dl : Denylist) (s c : Text) (toks : List Text)
    → (blocks dl s c toks ≡ true) ↔ IsBlocked dl s c toks
unfolding blocks
blocks_iff dl s c toks =
    unless_iff (has_key dl.allow s) (any_substring dl.substrings s c) (any_word dl.words toks)
      (has_key_iff dl.allow s) (any_substring_iff dl.substrings s c) (any_word_iff dl.words toks)
