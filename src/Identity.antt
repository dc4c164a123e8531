-- ===== src/Identity.antt =====
-- internal/identity: the save slot, the guest token and the proxied username of a connection. A
-- string is the list of its code points, `lower` is unicode.ToLower.
pub mod Slots
pub mod Usernames
use ssh_farm.Prelude.{
  ℕ, zero, suc, ◌+◌, ◌-◌, ◌*◌, ◌/◌, ◌%◌, Bool, true, false, not, ◌&&◌, ◌||◌, ltb, leb, ◌==◌,
  if◌then◌else◌, List, [], ◌∷◌, ◌++◌, map, Option, none, some, length, get_elem?, take, drop, ◌⊎◌,
  inl, inr,
}
use ssh_farm.Moderation.Text.{Text, is_empty, text_eq, between, trim_space}

abbrev pub max_slot_len : ℕ
max_slot_len = 32

-- The runes that SanitizeSlot writes; it skips every other one.
unfoldable pub is_slot_rune : ℕ → Bool
is_slot_rune r = between 0x61 0x7a r || between 0x30 0x39 r || (r == 0x2d) || (r == 0x5f)

-- The loop, with how many runes may still be written. A full builder ends it after a rune that is
-- written; a rune that is skipped goes on to the next.
unfoldable pub slot_runes : ℕ → Text → Text
slot_runes room [] = []
slot_runes room (r ∷ s) = elim (is_slot_rune r) [
  | false ↦ slot_runes room s
  | true ↦ elim room [ zero ↦ [] | suc more ↦ r ∷ slot_runes more s ]
]

unfoldable pub sanitize_slot : (ℕ → ℕ) → Text → Text
sanitize_slot lower raw = slot_runes max_slot_len (map lower (trim_space raw))

unfoldable pub resolve_slot : (ℕ → ℕ) → Text → Text → Text
resolve_slot lower username default_slot =
    let slot = sanitize_slot lower username in
    if is_empty slot then sanitize_slot lower default_slot else slot

unfoldable pub is_hex : ℕ → Bool
is_hex c = between 0x30 0x39 c || between 0x61 0x66 c

unfoldable pub all_hex : Text → Bool
all_hex [] = true
all_hex (c ∷ s) = is_hex c && all_hex s

unfoldable pub valid_guest_id : Text → Bool
valid_guest_id token = (length token == 32) && all_hex token

pub data Kind : Type 0 where
  invalid keyed guest : Kind

pub record SessionIdentity : Type 0 where
  pub kind : Kind
  pub guest_id : Text
  pub fingerprint : Text
  pub slot : Text

unfoldable pub valid_keyed : (ℕ → ℕ) → SessionIdentity → Bool
valid_keyed lower i =
    not (is_empty i.fingerprint)
    && not (is_empty i.slot)
    && text_eq (sanitize_slot lower i.slot) i.slot
    && is_empty i.guest_id

unfoldable pub valid_guest : SessionIdentity → Bool
valid_guest i = valid_guest_id i.guest_id && is_empty i.fingerprint && is_empty i.slot

-- SessionIdentity.Validate, true for nil
unfoldable pub validate_kind : (ℕ → ℕ) → Kind → SessionIdentity → Bool
validate_kind lower invalid i = false
validate_kind lower keyed i = valid_keyed lower i
validate_kind lower guest i = valid_guest i

unfoldable pub validate_identity : (ℕ → ℕ) → SessionIdentity → Bool
validate_identity lower i = validate_kind lower i.kind i

unfoldable pub is_guest_kind : Kind → Bool
is_guest_kind invalid = false
is_guest_kind keyed = false
is_guest_kind guest = true

unfoldable pub is_guest : SessionIdentity → Bool
is_guest i = is_guest_kind i.kind

-- The errors of ParseProxiedUsername, in their order, and that of ParseGuestUsername.
pub data ProxyError : Type 0 where
  too_short missing_separator too_long bad_fingerprint empty_slot bad_slot : ProxyError
  bad_guest_token : ProxyError

-- A digit of encoding/hex, and its value.
unfoldable pub hex_digit : ℕ → ℕ
hex_digit n = if ltb n 10 then 0x30 + n else 0x57 + n

unfoldable pub hex_value : ℕ → ℕ
hex_value c = if leb c 0x39 then c - 0x30 else c - 0x57

-- hex.EncodeToString
unfoldable pub hex_encode : List ℕ → Text
hex_encode [] = []
hex_encode (b ∷ bytes) = hex_digit (b / 16) ∷ hex_digit (b % 16) ∷ hex_encode bytes

-- hex.DecodeString of hexadecimal digits, none for an odd number of them
unfoldable pub hex_decode : Text → Option (List ℕ)
hex_decode [] = some []
hex_decode (c ∷ []) = none
hex_decode (c ∷ d ∷ s) = elim (hex_decode s) [
  | none ↦ none
  | some bytes ↦ some ((16 * hex_value c + hex_value d) ∷ bytes)
]

unfoldable pub parse_slot : (ℕ → ℕ) → List ℕ → Text → ProxyError ⊎ (List ℕ × Text)
parse_slot lower fp part =
    let slot = sanitize_slot lower part in
    if is_empty part
    then inl empty_slot
    else if is_empty slot || not (text_eq slot part)
    then inl bad_slot
    else inr (fp, slot)

unfoldable pub parse_fingerprint : (ℕ → ℕ) → Option (List ℕ) → Text → ProxyError ⊎ (List ℕ × Text)
parse_fingerprint lower none part = inl bad_fingerprint
parse_fingerprint lower (some raw) part =
    if length raw == 32 then parse_slot lower raw part else inl bad_fingerprint

-- username[64] != '.'
unfoldable pub is_dot : Option ℕ → Bool
is_dot none = false
is_dot (some c) = c == 0x2e

-- ParseProxiedUsername of an ASCII username, whose bytes are its runes.
unfoldable pub parse_proxied_username : (ℕ → ℕ) → Text → ProxyError ⊎ (List ℕ × Text)
parse_proxied_username lower username =
    if ltb (length username) 66
    then inl too_short
    else if not (is_dot (get_elem? username 64))
    then inl missing_separator
    else if ltb 97 (length username)
    then inl too_long
    else if not (all_hex (take 64 username))
    then inl bad_fingerprint
    else parse_fingerprint lower (hex_decode (take 64 username)) (drop 65 username)

-- EncodeProxiedUsername, from the SHA-256 sum of a key; none is an error.
unfoldable pub encode_proxied_username : (ℕ → ℕ) → List ℕ → Text → Option Text
encode_proxied_username lower sum raw =
    let slot = sanitize_slot lower raw in
    if is_empty slot then none else some (map lower (hex_encode sum) ++ 0x2e ∷ slot)

-- "guest."
abbrev pub guest_prefix : Text
guest_prefix = 0x67 ∷ 0x75 ∷ 0x65 ∷ 0x73 ∷ 0x74 ∷ 0x2e ∷ []
