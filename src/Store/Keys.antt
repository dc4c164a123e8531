-- ===== src/Store/Keys.antt =====
-- The keys of saves, and a map with one key changed.
use ssh_farm.Prelude.{
  ◌≡◌, refl, subst, Bool, true, ◌&&◌, if◌then◌else◌, Bool-cases, inl, inr, arith,
}
use ssh_farm.Moderation.Text.{Text, text_eq, text_eq_refl, text_eq→eq}
use ssh_farm.Store.{SaveKey, key_eq, update_key}

and_both : (a b : Bool) → (a && b) ≡ true → (a ≡ true) × (b ≡ true)
and_both a b h = ground (arith, h)

same_key :
    (f s g f' s' g' : Text)
    → f ≡ f'
    → s ≡ s'
    → g ≡ g'
    → ◌≡◌ {A = SaveKey}
        (record { fingerprint = f; slot = s; guest_id = g })
        (record { fingerprint = f'; slot = s'; guest_id = g' })
same_key f s g f' s' g' p q r = cc (p, q, r)

pub key_eq→eq : (a b : SaveKey) → key_eq a b ≡ true → a ≡ b
unfolding key_eq
key_eq→eq a b h =
    let (f, rest) =
      and_both (text_eq a.fingerprint b.fingerprint)
        (text_eq a.slot b.slot && text_eq a.guest_id b.guest_id) h in
    let (s, g) = and_both (text_eq a.slot b.slot) (text_eq a.guest_id b.guest_id) rest in
    same_key a.fingerprint a.slot a.guest_id b.fingerprint b.slot b.guest_id
      (text_eq→eq a.fingerprint b.fingerprint f) (text_eq→eq a.slot b.slot s)
      (text_eq→eq a.guest_id b.guest_id g)

pub key_eq_refl : (a : SaveKey) → key_eq a a ≡ true
unfolding key_eq
key_eq_refl a = rw (text_eq_refl a.fingerprint, text_eq_refl a.slot, text_eq_refl a.guest_id) refl

module _ {ℓ} {V : Type ℓ} where
  pub update_key-same : (k : SaveKey) (v : V) (m : SaveKey → V) → update_key k v m k ≡ v
  unfolding update_key
  update_key-same k v m = rw (key_eq_refl k, if◌then◌else◌) refl

  -- What holds of the new value at its key and of the old values elsewhere holds everywhere.
  pub update_key-All {κ} :
      (P : SaveKey → V → Type κ) (k : SaveKey) (v : V) (m : SaveKey → V)
      → P k v
      → ((j : SaveKey) → P j (m j))
      → (j : SaveKey) → P j (update_key k v m j)
  unfolding update_key
  update_key-All P k v m h all j = elim (Bool-cases (key_eq k j)) [
    | inl e ↦ rw (e, if◌then◌else◌) (subst (λ x. P x v) (key_eq→eq k j e) h)
    | inr e ↦ rw (e, if◌then◌else◌) (all j)
  ]
