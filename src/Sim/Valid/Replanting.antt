-- ===== src/Sim/Valid/Replanting.antt =====
-- ReplantAll of internal/sim/actions.go: what it sorts, and what it spends.
use mathlib.Core.List.{Perm}
use mathlib.Core.List.Perm
use ssh_farm.Prelude.{
  ℕ, ◌+◌, ◌≤◌, ◌≡◌, refl, ℤ, pos, pos_part, neg_part, List, [], ◌∷◌, All, IsAmount, arith, false,
  ltb_ℤ, sub64, add64, add64_amount, Bool-cases, Option-cases, inl, inr, if◌then◌else◌, get_index,
  max_int64,
}
use ssh_farm.Content
use ssh_farm.Content.{Content, Crop}
use ssh_farm.Host.{Host}
use ssh_farm.Sim.State.{State, Plot}
use ssh_farm.Sim.Planting.{
  consider, Replant, skip, lock, candidate, Candidate, candidates, insert_candidate,
  sort_candidates, replant_one, replant_at, replant_each, replant_all, ReplantResult,
  replant_choice,
}
use ssh_farm.Sim.Valid.{IsValid}
use ssh_farm.Sim.Valid.Ledgers.{paid}
use ssh_farm.Sim.Valid.Farming.{seed_cost_nonneg}

abbrev HasPrice : Candidate → Type 0
HasPrice cd = neg_part cd.cost ≡ 0

-- The answer for one plot: a candidate has the price of a seed.
abbrev Priced : Replant → Type 0
Priced skip = Unit
Priced lock = Unit
Priced (candidate cd) = HasPrice cd

consider-Priced :
    (h : Host) (s : State) (c : Content) (now : ℤ) (i : ℕ) (p : Plot)
    → Priced (consider h s c now i p)
unfolding consider
consider-Priced h s c now i p = elim (Option-cases (Content.crop c (replant_choice s p))) [
  | inl e ↦ ground arith
  | inr (crop, e) ↦ ground (arith, seed_cost_nonneg s c crop)
]

candidates-priced :
    (h : Host) (s : State) (c : Content) (now : ℤ) (i : ℕ) (ps : List Plot)
    → All HasPrice (candidates h s c now i ps).0
unfolding candidates
candidates-priced h s c now i [] = tt
candidates-priced h s c now i (p ∷ ps) =
    ground (arith, consider-Priced h s c now i p, candidates-priced h s c now (i + 1) ps)

-- The sort keeps the candidates and their order by falling price.
pub insert_candidate-perm :
    (cd : Candidate) (cds : List Candidate) → Perm (cd ∷ cds) (insert_candidate cd cds)
unfolding insert_candidate
insert_candidate-perm cd [] = Perm.rfl
insert_candidate-perm cd (d ∷ ds) = elim (Bool-cases (ltb_ℤ cd.cost d.cost)) [
  | inl e ↦
      rw (e, if◌then◌else◌)
        (Perm.trans (Perm.swap d cd ds) (Perm.cons d (insert_candidate-perm cd ds)))
  | inr e ↦ rw (e, if◌then◌else◌) Perm.rfl
]

insert-priced :
    (cd : Candidate) (cds : List Candidate)
    → HasPrice cd
    → All HasPrice cds
    → All HasPrice (insert_candidate cd cds)
unfolding insert_candidate
insert-priced cd [] h k = (h, tt)
insert-priced cd (d ∷ ds) h k = ground (arith, insert-priced cd ds h k.1)

sort-priced : (cds : List Candidate) → All HasPrice cds → All HasPrice (sort_candidates cds)
unfolding sort_candidates
sort-priced [] h = tt
sort-priced (cd ∷ cds) h = insert-priced cd (sort_candidates cds) h.0 (sort-priced cds h.1)

-- One round: the coins and what is spent keep their sum.
record Balanced (total : ℕ) (acc : State × ReplantResult) : Type 0 where
  valid : IsValid acc.0
  counted : neg_part acc.1.spent ≡ 0
  kept : pos_part acc.0.coins + pos_part acc.1.spent ≡ total

replant_at-IsValid :
    (now : ℤ) (s : State) (cd : Candidate) (p : Plot)
    → HasPrice cd
    → ltb_ℤ s.coins cd.cost ≡ false
    → IsValid s
    → IsValid (replant_at now s cd p)
unfolding replant_at
replant_at-IsValid now s cd p h t v = ground (arith, paid s.coins cd.cost v.coins)

spend_exact :
    (coins spent cost : ℤ) (total : ℕ)
    → total ≤ max_int64
    → IsAmount coins
    → neg_part spent ≡ 0
    → pos_part coins + pos_part spent ≡ total
    → neg_part cost ≡ 0
    → ltb_ℤ coins cost ≡ false
    → (neg_part (add64 spent cost) ≡ 0)
      × (pos_part (sub64 coins cost) + pos_part (add64 spent cost) ≡ total)
spend_exact coins spent cost total m a n k h t =
    ground (arith, paid coins cost, add64_amount spent cost)

replant_one-Balanced :
    (now : ℤ) (total : ℕ) (s : State) (res : ReplantResult) (cd : Candidate)
    → total ≤ max_int64
    → HasPrice cd
    → Balanced total (s, res)
    → Balanced total (replant_one now (s, res) cd)
unfolding replant_one replant_at
replant_one-Balanced now total s res cd m h b = elim (Bool-cases (ltb_ℤ s.coins cd.cost)) [
  | inl e ↦ rw (e, if◌then◌else◌) (record { valid = b.valid; counted = b.counted; kept = b.kept })
  | inr e ↦ elim (Option-cases (get_index s.plots (pos cd.idx))) [
    | inl f ↦ rw (e, if◌then◌else◌) (rw f b)
    | inr (p, f) ↦
        rw (e, if◌then◌else◌)
          (rw f (record {
            valid = replant_at-IsValid now s cd p h e b.valid;
            counted =
                (spend_exact s.coins res.spent cd.cost total m b.valid.coins b.counted b.kept h
                  e).0;
            kept =
                (spend_exact s.coins res.spent cd.cost total m b.valid.coins b.counted b.kept h
                  e).1;
          }))
  ]
]

replant_each-Balanced :
    (now : ℤ) (total : ℕ) (acc : State × ReplantResult) (cds : List Candidate)
    → total ≤ max_int64
    → All HasPrice cds
    → Balanced total acc
    → Balanced total (replant_each now acc cds)
unfolding replant_each
replant_each-Balanced now total acc [] m h b = b
replant_each-Balanced now total (s, res) (cd ∷ cds) m h b =
    replant_each-Balanced now total (replant_one now (s, res) cd) cds m h.1
      (replant_one-Balanced now total s res cd m h.0 b)

replant_all-Balanced :
    (h : Host) (s : State) (c : Content) (now : ℤ)
    → IsValid s
    → Balanced (pos_part s.coins) (replant_all h s c now)
unfolding replant_all
replant_all-Balanced h s c now v =
    replant_each-Balanced now (pos_part s.coins) _ _ v.coins.1
      (sort-priced _ (candidates-priced h s c now 0 s.plots))
      (record { valid = v; counted = refl; kept = omega arith })

pub replant_all-IsValid :
    (h : Host) (s : State) (c : Content) (now : ℤ) → IsValid s → IsValid (replant_all h s c now).0
replant_all-IsValid h s c now v = (replant_all-Balanced h s c now v).valid

-- In a valid save the coins that ReplantAll reports as spent are not negative, and with the coins
-- that are left they make up the coins that were there: it spends what it reports, and never more
-- than the wallet holds.
pub replant_all_spends :
    (h : Host) (s : State) (c : Content) (now : ℤ)
    → IsValid s
    → let (t, res) = replant_all h s c now in
      (neg_part t.coins ≡ 0)
      × (neg_part res.spent ≡ 0)
      × (pos_part t.coins + pos_part res.spent ≡ pos_part s.coins)
replant_all_spends h s c now v =
    let b = replant_all-Balanced h s c now v in (b.valid.coins.0, b.counted, b.kept)
