-- ===== src/Sim/Upgrades.antt =====
-- upgradeState and DecodeState of internal/sim/state.go.
use ssh_farm.Prelude.{
  ◌⊎◌, ◌≡◌, refl, ap, ◌∙◌, ◌<ℤ◌, eq_of_parts, pos, ◌≤ℤ◌, arith, false, ltb_ℤ, Bool-cases, inl, inr,
  none, some, if◌then◌else◌,
}
use ssh_farm.Sim.State.{
  State, upgrade_to_2, upgrade_to_3, upgrade_to_4, upgrade_scarecrow, migrate_tools, anchor_moon,
  upgrade_state, decode_state,
}

-- Each stage leaves a payload that is past its version alone.
past_2 : (s : State) → s.version ≡ pos 4 → upgrade_to_2 s ≡ s
unfolding upgrade_to_2
past_2 s v = rw v

past_3 : (s : State) → s.version ≡ pos 4 → upgrade_to_3 s ≡ s
unfolding upgrade_to_3
past_3 s v = rw v

past_4 : (s : State) → s.version ≡ pos 4 → upgrade_to_4 s ≡ s
unfolding upgrade_to_4
past_4 s v = rw v

no_scarecrow : (s : State) → s.legacy_scarecrow ≡ false → upgrade_scarecrow s ≡ s
unfolding upgrade_scarecrow
no_scarecrow s l = rw l

current : (s : State) → s.version ≡ pos 4 → s.legacy_scarecrow ≡ false → upgrade_state s ≡ s
unfolding upgrade_state
current s v l = rw (past_2 s v, past_3 s v, past_4 s v, no_scarecrow s l)

to_2 : (s : State) → s.version ≤ℤ pos 4 → (upgrade_to_2 s).version ≤ℤ pos 4
unfolding upgrade_to_2
to_2 s h = ground arith

to_3 :
    (s : State)
    → s.version ≤ℤ pos 4
    → (pos 3 ≤ℤ (upgrade_to_3 s).version) × ((upgrade_to_3 s).version ≤ℤ pos 4)
unfolding upgrade_to_3 migrate_tools anchor_moon
to_3 s h = ground arith

to_4 : (s : State) → s.version ≤ℤ pos 4 → (upgrade_to_4 s).version ≡ pos 4
unfolding upgrade_to_4
to_4 s h = ground (arith, eq_of_parts s.version (pos 4))

to_scarecrow :
    (s : State)
    → ((upgrade_scarecrow s).version ≡ s.version) × ((upgrade_scarecrow s).legacy_scarecrow ≡ false)
unfolding upgrade_scarecrow
to_scarecrow s = ground arith

upgraded :
    (s : State)
    → s.version ≤ℤ pos 4
    → ((upgrade_state s).version ≡ pos 4) × ((upgrade_state s).legacy_scarecrow ≡ false)
unfolding upgrade_state
upgraded s h =
    let t = upgrade_to_3 (upgrade_to_2 s) in
    let u = upgrade_to_4 t in
    ((to_scarecrow u).0 ∙ to_4 t (to_3 (upgrade_to_2 s) (to_2 s h)).1, (to_scarecrow u).1)

decode_ok : (s : State) → s.version ≤ℤ pos 4 → decode_state s ≡ some (upgrade_state s)
unfolding decode_state
decode_ok s h = ground arith

-- A payload of a version up to 4 is decoded to one of version 4 without the legacy scarecrow, and
-- decoding that one again changes nothing; a payload of a later version is refused.
pub decode_state_lem :
    (s : State)
    → ((s.version ≤ℤ pos 4)
        × (t : State) × (decode_state s ≡ some t)
        × (t.version ≡ pos 4)
        × (t.legacy_scarecrow ≡ false)
        × (decode_state t ≡ some t))
      ⊎ ((pos 4 <ℤ s.version) × (decode_state s ≡ none))
unfolding decode_state
decode_state_lem s = elim (Bool-cases (ltb_ℤ (pos 4) s.version)) [
  | inl e ↦ inr (ground arith, rw (e, if◌then◌else◌) refl)
  | inr e ↦
      let h : s.version ≤ℤ pos 4 = ground arith in
      let u = upgraded s h in
      inl (
        h,
        upgrade_state s,
        decode_ok s h,
        u.0,
        u.1,
        decode_ok (upgrade_state s) (rw u.0 (omega arith))
            ∙ ap some (current (upgrade_state s) u.0 u.1),
      )
]
