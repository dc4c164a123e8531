-- ===== src/Tests/Names.antt =====
-- Farm names and denylists, and runs of internal/moderation on them.
use ssh_farm.Prelude.{
  ℕ, ◌+◌, ◌≡◌, refl, true, false, if◌then◌else◌, [], ◌∷◌, ◌++◌, none, some, inl, inr, ◌⊎◌, ◌↔◌,
}
use ssh_farm.Moderation.Text.{
  Text, text_eq, starts, text_contains, has_key, is_empty, between, is_space, trim_left, join_right,
  trim_right, trim_space,
}
use ssh_farm.Moderation.Normalize.{
  fold_leet, fold_rune, is_sep, strip_separators, collapse_repeats, collapse_from, repeats, tokens,
  fields, add_field, name_candidates,
}
use ssh_farm.Moderation.Validate.{
  validate, validate_trimmed, shape_of, normalize, write_rune, put_front, check_shape, is_separator,
  last_of, is_all_digits_and_separators,
}
use ssh_farm.Moderation.Validate.Names.{IsFarmName}
use ssh_farm.Moderation.Validate.Correct.{validate-IsFarmName, validate_iff}
use ssh_farm.Moderation.Denylist.{
  Term, Denylist, new_denylist, add_terms, add_term, add_word, clean, known_tier, allowed, blocks,
  any_substring, any_word,
}
use ssh_farm.Moderation.Denylist.Blocking.{IsBlocked, blocks_iff}
use ssh_farm.Moderation.Filter.{
  Files, Process, unloaded, filter, check, check_valid, init, start_with, load_denylist_file,
  parse_denylist, build, reload, reload_from, swap, unreadable,
}
use ssh_farm.Moderation.Filter.Safe.{IsDenied, filter_passes, filter_again, listed_term_refused}
use ssh_farm.Moderation.Filter.Boot.{
  booted, reloaded, IsModerated, Serving-IsModerated, IsReloaded, reload_lem,
}

-- unicode.ToLower on ASCII.
abbrev pub ascii_lower : ℕ → ℕ
ascii_lower r = if between 0x41 0x5a r then r + 0x20 else r

-- " sun  2", and the name that it validates to, "SUN 2"
abbrev pub sun_input : Text
sun_input = 0x20 ∷ 0x73 ∷ 0x75 ∷ 0x6e ∷ 0x20 ∷ 0x20 ∷ 0x32 ∷ []

abbrev pub sun : Text
sun = 0x53 ∷ 0x55 ∷ 0x4e ∷ 0x20 ∷ 0x32 ∷ []

-- "mud", a slur, and "fog", a word
abbrev mud : Term
mud = record { word = 0x6d ∷ 0x75 ∷ 0x64 ∷ []; tier = "slur"; match_kind = "substring" }

abbrev fog : Term
fog = record { word = 0x66 ∷ 0x6f ∷ 0x67 ∷ []; tier = "profanity"; match_kind = "word" }

abbrev pub mud_list : Denylist
mud_list = record {
  substrings = (0x6d ∷ 0x75 ∷ 0x64 ∷ []) ∷ [];
  words = (0x66 ∷ 0x6f ∷ 0x67 ∷ []) ∷ [];
  allow = [];
}

-- "M-UU-D"
abbrev muddy : Text
muddy = 0x4d ∷ 0x2d ∷ 0x55 ∷ 0x55 ∷ 0x2d ∷ 0x44 ∷ []

validate-IsFarmName_example : IsFarmName sun
unfolding validate validate_trimmed shape_of normalize write_rune put_front check_shape is_separator
    last_of is_all_digits_and_separators trim_space trim_left trim_right join_right is_space between
validate-IsFarmName_example = validate-IsFarmName sun_input sun refl

validate_iff_example : (validate sun ≡ some sun) ↔ IsFarmName sun
validate_iff_example = validate_iff sun

pub sun_passes : filter ascii_lower false mud_list sun_input ≡ (sun, false)
unfolding filter is_empty check_valid validate validate_trimmed shape_of normalize write_rune
    put_front check_shape is_separator last_of is_all_digits_and_separators trim_space trim_left
    trim_right join_right is_space between check name_candidates blocks has_key any_substring
    text_contains starts any_word tokens fields add_field fold_leet fold_rune is_sep
    strip_separators collapse_repeats collapse_from repeats text_eq
sun_passes = refl

filter_passes_example :
    ((sun_input ≡ []) × (sun ≡ []))
    ⊎ ((false ≡ false)
        × (validate sun_input ≡ some sun)
        × IsFarmName sun
        × (¬ (IsDenied ascii_lower mud_list sun)))
filter_passes_example = filter_passes ascii_lower false mud_list sun_input sun sun_passes

filter_again_example : filter ascii_lower false mud_list sun ≡ (sun, false)
filter_again_example = filter_again ascii_lower false mud_list sun_input sun sun_passes

mud_loads : new_denylist ascii_lower (mud ∷ fog ∷ []) [] ≡ inr mud_list
unfolding new_denylist add_terms add_term add_word clean known_tier allowed is_empty trim_space
    trim_left trim_right join_right is_space between
mud_loads = refl

muddy_valid : validate muddy ≡ some muddy
unfolding validate validate_trimmed shape_of normalize write_rune put_front check_shape is_separator
    last_of is_all_digits_and_separators trim_space trim_left trim_right join_right is_space between
muddy_valid = refl

mud_full : is_empty (clean ascii_lower mud.word) ≡ false
unfolding is_empty clean trim_space trim_left trim_right join_right is_space between
mud_full = refl

-- Without its hyphens "m-uu-d" is "muud", and without the repeat "mud".
mud_within :
    collapse_repeats (strip_separators (fold_leet ascii_lower muddy))
    ≡ [] ++ (clean ascii_lower mud.word ++ [])
unfolding clean trim_space trim_left trim_right join_right is_space between fold_leet fold_rune
    is_sep strip_separators collapse_repeats collapse_from repeats
mud_within = refl

listed_term_refused_example : filter ascii_lower false mud_list muddy ≡ ([], true)
listed_term_refused_example =
    listed_term_refused ascii_lower false (mud ∷ fog ∷ []) [] mud_list mud 0x4d
      (0x2d ∷ 0x55 ∷ 0x55 ∷ 0x2d ∷ 0x44 ∷ []) muddy mud_loads (inl refl) refl mud_full muddy_valid
      (inr ([], [], mud_within)) (λ h. h)

blocks_iff_example :
    (blocks mud_list mud.word mud.word (fog.word ∷ []) ≡ true)
    ↔ IsBlocked mud_list mud.word mud.word (fog.word ∷ [])
blocks_iff_example = blocks_iff mud_list mud.word mud.word (fog.word ∷ [])

-- A host whose only file is the list above.
abbrev files : Files
files = record {
  Bytes = ℕ;
  read_file = λ path. some 0;
  unmarshal = λ b. some (mud ∷ fog ∷ [], []);
  fixture = 0;
  lower = ascii_lower;
}

abbrev moderated : Process
moderated = record {
  current = some mud_list;
  source_path = some "/etc/denylist.toml";
  dev_mode = false;
}

boots : init files "/etc/denylist.toml" true unloaded ≡ (none, moderated)
unfolding init load_denylist_file parse_denylist build start_with new_denylist add_terms add_term
    add_word clean known_tier allowed is_empty trim_space trim_left trim_right join_right is_space
    between
boots = refl

-- The file is gone at a reload.
abbrev no_files : Files
no_files = record files { read_file = λ path. none }

keeps : reload no_files moderated ≡ (some (unreadable "/etc/denylist.toml"), moderated)
unfolding reload reload_from load_denylist_file swap
keeps = refl

Serving-IsModerated_example : IsModerated "/etc/denylist.toml" (no_files ∷ files ∷ []) moderated
Serving-IsModerated_example =
    Serving-IsModerated
      (reloaded no_files (some (unreadable "/etc/denylist.toml")) (booted files boots) keeps)

reload_lem_example : IsReloaded files moderated (reload files moderated)
reload_lem_example = reload_lem files moderated
