-- ===== src/Identity/Slots.antt =====
-- SanitizeSlot of internal/identity/identity.go: its results, and that it keeps them.
use ssh_farm.Prelude.{
  ℕ, zero, suc, ◌≤◌, ◌≡◌, refl, ◌⊎◌, true, false, [], ◌∷◌, map, length, Bool-cases, All, inl, inr,
  arith,
}
use ssh_farm.Moderation.Text.{
  Text, between, is_space, trim_left, join_right, trim_right, trim_space,
}
use ssh_farm.Identity.{is_slot_rune, slot_runes, sanitize_slot}

abbrev pub IsSlotRune : ℕ → Type 0
IsSlotRune r = is_slot_rune r ≡ true

-- A slot: at most 32 of a to z, 0 to 9, the hyphen and the underscore.
abbrev pub IsSlot : Text → Type 0
IsSlot s = All IsSlotRune s × (length s ≤ 32)

-- unicode.ToLower leaves the runes of a slot as they are.
abbrev pub KeepsSlotRunes : (ℕ → ℕ) → Type 0
KeepsSlotRunes lower = (r : ℕ) → IsSlotRune r → lower r ≡ r

slot_runes-IsSlot :
    (room : ℕ) (s : Text) → All IsSlotRune (slot_runes room s) × (length (slot_runes room s) ≤ room)
unfolding slot_runes
slot_runes-IsSlot room [] = (tt, omega arith)
slot_runes-IsSlot zero (r ∷ s) = elim (Bool-cases (is_slot_rune r)) [
  | inl e ↦ rw (slot_runes, e) (tt, omega arith)
  | inr e ↦ rw (slot_runes, e) (slot_runes-IsSlot zero s)
]
slot_runes-IsSlot (suc room) (r ∷ s) = elim (Bool-cases (is_slot_rune r)) [
  | inl e ↦ let (h, k) = slot_runes-IsSlot room s in rw (slot_runes, e) ((e, h), omega (arith, k))
  | inr e ↦ rw (slot_runes, e) (slot_runes-IsSlot (suc room) s)
]

slot_runes-keeps :
    (room : ℕ) (s : Text) → All IsSlotRune s → length s ≤ room → slot_runes room s ≡ s
unfolding slot_runes
slot_runes-keeps room [] h k = refl
slot_runes-keeps zero (r ∷ s) h k = absurd (omega (arith, k))
slot_runes-keeps (suc room) (r ∷ s) h k =
    rw (slot_runes, h.0, slot_runes-keeps room s h.1 (omega (arith, k))) refl

slot_rune_not_space : (r : ℕ) → IsSlotRune r → is_space r ≡ false
unfolding is_slot_rune is_space between
slot_rune_not_space r h = ground (arith, h)

trim_right-keeps : (s : Text) → All IsSlotRune s → trim_right s ≡ s
unfolding trim_right join_right
trim_right-keeps [] h = refl
trim_right-keeps (r ∷ []) h =
    rw (trim_right, trim_right, join_right, slot_rune_not_space r h.0) refl
trim_right-keeps (r ∷ q ∷ s) h = rw (trim_right, trim_right-keeps (q ∷ s) h.1) refl

trim_left-keeps : (s : Text) → All IsSlotRune s → trim_left s ≡ s
unfolding trim_left
trim_left-keeps [] h = refl
trim_left-keeps (r ∷ s) h = rw (trim_left, slot_rune_not_space r h.0) refl

pub map-keeps :
    (lower : ℕ → ℕ) (s : Text) → KeepsSlotRunes lower → All IsSlotRune s → map lower s ≡ s
map-keeps lower [] k h = refl
map-keeps lower (r ∷ s) k h = rw (k r h.0, map-keeps lower s k h.1) refl

-- A slot is kept as it is, where unicode.ToLower keeps its runes.
pub IsSlot-sanitize_slot :
    (lower : ℕ → ℕ) (s : Text) → KeepsSlotRunes lower → IsSlot s → sanitize_slot lower s ≡ s
unfolding sanitize_slot trim_space
IsSlot-sanitize_slot lower s k h =
    rw (trim_left-keeps s h.0, trim_right-keeps s h.0, map-keeps lower s k h.0)
      (slot_runes-keeps 32 s h.0 h.1)

pub sanitized-IsSlot :
    (lower : ℕ → ℕ) (raw : Text)
    → KeepsSlotRunes lower
    → IsSlot (sanitize_slot lower raw)
      × (sanitize_slot lower (sanitize_slot lower raw) ≡ sanitize_slot lower raw)
unfolding sanitize_slot
sanitized-IsSlot lower raw k = (
  slot_runes-IsSlot 32 (map lower (trim_space raw)),
  IsSlot-sanitize_slot lower (sanitize_slot lower raw) k
      (slot_runes-IsSlot 32 (map lower (trim_space raw))),
)

-- a to z, 0 to 9, the hyphen and the underscore.
abbrev pub IsNameRune : ℕ → Type 0
IsNameRune r = ((97 ≤ r) × (r ≤ 122)) ⊎ ((48 ≤ r) × (r ≤ 57)) ⊎ (r ≡ 45) ⊎ (r ≡ 95)

abbrev pub IsSlotName : Text → Type 0
IsSlotName s = All IsNameRune s × (length s ≤ 32)

IsSlotRune-IsNameRune : (r : ℕ) → IsSlotRune r → IsNameRune r
unfolding is_slot_rune between
IsSlotRune-IsNameRune r h = ground (arith, h)

All-IsNameRune : (s : Text) → All IsSlotRune s → All IsNameRune s
All-IsNameRune [] h = tt
All-IsNameRune (r ∷ s) h = (IsSlotRune-IsNameRune r h.0, All-IsNameRune s h.1)

-- Whatever the username, the save slot is at most 32 of a to z, 0 to 9, hyphen and underscore, and
-- where unicode.ToLower keeps these runes, sanitizing the slot again returns it.
pub sanitize_slot_lem :
    (lower : ℕ → ℕ) (raw : Text)
    → ((r : ℕ) → is_slot_rune r ≡ true → lower r ≡ r)
    → IsSlotName (sanitize_slot lower raw)
      × (sanitize_slot lower (sanitize_slot lower raw) ≡ sanitize_slot lower raw)
sanitize_slot_lem lower raw k =
    let (slot, again) = sanitized-IsSlot lower raw k in
    ((All-IsNameRune (sanitize_slot lower raw) slot.0, slot.1), again)
