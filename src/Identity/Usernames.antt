-- ===== src/Identity/Usernames.antt =====
-- The proxied usernames of internal/identity/proxy.go: what the router encodes is what is parsed.
use ssh_farm.Prelude.{
  ℕ, suc, ◌+◌, ◌*◌, ◌/◌, ◌%◌, ◌≤◌, ◌<◌, ◌≡◌, refl, ap, sym, subst, ◌∙◌, true, false, if◌then◌else◌,
  List, [], ◌∷◌, ◌++◌, map, Option, none, some, length, length-append, get_elem?, take, drop,
  Bool-cases, All, inl, inr, arith,
}
use ssh_farm.Moderation.Text.{Text, is_empty, text_eq_refl, between}
use ssh_farm.Identity.{
  is_slot_rune, is_hex, all_hex, hex_digit, hex_value, hex_encode, hex_decode, sanitize_slot,
  parse_slot, parse_fingerprint, is_dot, parse_proxied_username, encode_proxied_username,
}
use ssh_farm.Identity.Slots.{IsSlotRune, IsSlot, sanitized-IsSlot, map-keeps}

abbrev pub IsByte : ℕ → Type 0
IsByte b = b < 256

hex_digit-value : (n : ℕ) → n < 16 → hex_value (hex_digit n) ≡ n
unfolding hex_value hex_digit
hex_digit-value n h = ground arith

hex_digit-is_hex : (n : ℕ) → n < 16 → is_hex (hex_digit n) ≡ true
unfolding is_hex hex_digit between
hex_digit-is_hex n h = ground arith

hex_digit-IsSlotRune : (n : ℕ) → n < 16 → IsSlotRune (hex_digit n)
unfolding is_slot_rune hex_digit between
hex_digit-IsSlotRune n h = ground arith

high_digit : (b : ℕ) → b < 256 → b / 16 < 16
high_digit b h = omega (arith, h)

low_digit : (b : ℕ) → b % 16 < 16
low_digit b = omega arith

digits : (b : ℕ) → 16 * (b / 16) + b % 16 ≡ b
digits b = omega arith

hex_decode-encode : (bytes : List ℕ) → All IsByte bytes → hex_decode (hex_encode bytes) ≡ some bytes
unfolding hex_decode hex_encode
hex_decode-encode [] h = refl
hex_decode-encode (b ∷ bytes) h =
    rw
      (
        hex_decode,
        hex_decode-encode bytes h.1,
        hex_digit-value (b / 16) (high_digit b h.0),
        hex_digit-value (b % 16) (low_digit b),
        digits b,
      )
      refl

all_hex-encode : (bytes : List ℕ) → All IsByte bytes → all_hex (hex_encode bytes) ≡ true
unfolding all_hex hex_encode
all_hex-encode [] h = refl
all_hex-encode (b ∷ bytes) h =
    rw
      (
        hex_digit-is_hex (b / 16) (high_digit b h.0),
        hex_digit-is_hex (b % 16) (low_digit b),
        all_hex-encode bytes h.1,
      )
      refl

hex_encode-IsSlotRune : (bytes : List ℕ) → All IsByte bytes → All IsSlotRune (hex_encode bytes)
unfolding hex_encode
hex_encode-IsSlotRune [] h = tt
hex_encode-IsSlotRune (b ∷ bytes) h = (
  hex_digit-IsSlotRune (b / 16) (high_digit b h.0),
  (hex_digit-IsSlotRune (b % 16) (low_digit b), hex_encode-IsSlotRune bytes h.1),
)

length-hex_encode : (bytes : List ℕ) → length (hex_encode bytes) ≡ 2 * length bytes
unfolding hex_encode
length-hex_encode [] = omega arith
length-hex_encode (b ∷ bytes) = omega (arith, length-hex_encode bytes)

take-append : (xs ys : Text) → take (length xs) (xs ++ ys) ≡ xs
take-append [] ys = refl
take-append (x ∷ xs) ys = ap (λ t. x ∷ t) (take-append xs ys)

drop-append : (xs : Text) (c : ℕ) (ys : Text) → drop (suc (length xs)) (xs ++ c ∷ ys) ≡ ys
drop-append [] c ys = refl
drop-append (x ∷ xs) c ys = drop-append xs c ys

get_elem?-append : (xs : Text) (c : ℕ) (ys : Text) → get_elem? (xs ++ c ∷ ys) (length xs) ≡ some c
get_elem?-append [] c ys = refl
get_elem?-append (x ∷ xs) c ys = get_elem?-append xs c ys

-- A username of 64 hexadecimal digits, a dot and a slot.
parsed :
    (lower : ℕ → ℕ) (digits : Text) (sum : List ℕ) (slot : Text)
    → length digits ≡ 64
    → all_hex digits ≡ true
    → hex_decode digits ≡ some sum
    → length sum ≡ 32
    → is_empty slot ≡ false
    → length slot ≤ 32
    → 1 ≤ length slot
    → sanitize_slot lower slot ≡ slot
    → parse_proxied_username lower (digits ++ 0x2e ∷ slot) ≡ inr (sum, slot)
unfolding parse_proxied_username parse_fingerprint parse_slot is_dot
parsed lower digits sum slot size hex decoded bytes full long short kept =
    rw
      (
        username,
        dot,
        front,
        back,
        hex,
        decoded,
        parse_fingerprint,
        bytes,
        kept,
        full,
        text_eq_refl slot,
      )
      (ground (arith, long, short))
  where
    username : length (digits ++ 0x2e ∷ slot) ≡ 65 + length slot
    username = omega (arith, length-append digits (0x2e ∷ slot), size)

    dot : get_elem? (digits ++ 0x2e ∷ slot) 64 ≡ some 0x2e
    dot = ap (get_elem? (digits ++ 0x2e ∷ slot)) (sym size) ∙ get_elem?-append digits 0x2e slot

    front : take 64 (digits ++ 0x2e ∷ slot) ≡ digits
    front = ap (λ n. take n (digits ++ 0x2e ∷ slot)) (sym size) ∙ take-append digits (0x2e ∷ slot)

    back : drop 65 (digits ++ 0x2e ∷ slot) ≡ slot
    back = ap (λ n. drop (suc n) (digits ++ 0x2e ∷ slot)) (sym size) ∙ drop-append digits 0x2e slot

-- Where unicode.ToLower keeps the runes of a slot: the username that is encoded from the SHA-256 sum
-- of a key, 32 bytes, and any text that sanitizes to a slot that is not empty, parses to that sum
-- and that slot.
pub parse_proxied_username-encode :
    (lower : ℕ → ℕ) (sum : List ℕ) (raw username : Text)
    → ((r : ℕ) → is_slot_rune r ≡ true → lower r ≡ r)
    → All IsByte sum
    → length sum ≡ 32
    → encode_proxied_username lower sum raw ≡ some username
    → parse_proxied_username lower username ≡ inr (sum, sanitize_slot lower raw)
unfolding encode_proxied_username is_empty
parse_proxied_username-encode lower sum raw username keeps bytes size e =
    elim (Bool-cases (is_empty slot)) [
      | inl d ↦ absurd (
          nothing (
            ap (λ b. if b then none else some (map lower (hex_encode sum) ++ 0x2e ∷ slot)) (sym d)
            ∙ e))
      | inr d ↦
          let u : (hex_encode sum ++ 0x2e ∷ slot) ≡ username =
            ap (λ x. x ++ 0x2e ∷ slot) (sym lowered)
            ∙ some_inj (
                ap (λ b. if b then none else some (map lower (hex_encode sum) ++ 0x2e ∷ slot))
                  (sym d)
                ∙ e) in
          subst (λ x. parse_proxied_username lower x ≡ inr (sum, slot)) u
            (parsed lower (hex_encode sum) sum slot digits_size (all_hex-encode sum bytes)
              (hex_decode-encode sum bytes) size d fine.0.1 (not_empty slot d) fine.1)
    ]
  where
    slot : Text
    slot = sanitize_slot lower raw

    fine : IsSlot slot × (sanitize_slot lower slot ≡ slot)
    fine = sanitized-IsSlot lower raw keeps

    lowered : map lower (hex_encode sum) ≡ hex_encode sum
    lowered = map-keeps lower (hex_encode sum) keeps (hex_encode-IsSlotRune sum bytes)

    digits_size : length (hex_encode sum) ≡ 64
    digits_size = omega (arith, length-hex_encode sum, size)

    nothing : ◌≡◌ {A = Option Text} none (some username) → ⊥
    nothing q = cc

    some_inj : {x : Text} → some x ≡ some username → x ≡ username
    some_inj q = cc

    not_empty : (t : Text) → is_empty t ≡ false → 1 ≤ length t
    not_empty [] q = cc
    not_empty (c ∷ t) q = omega arith
