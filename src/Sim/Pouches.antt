-- ===== src/Sim/Pouches.antt =====
-- The pouches and the rebirth preview: collecting every pouch banks what `rebirth_earnings` counts.
use ssh_farm.Prelude.{
  ℕ, zero, suc, ◌+◌, ◌≡◌, refl, sym, ap, ◌∙◌, ℤ, pos, negsuc, pos_part, List, [], ◌∷◌, All,
  IsAmount, arith, false, leb_ℤ, min, max_int64, some, Bool-cases, Option-cases, inl, inr,
  if◌then◌else◌, get_index, get_elem?, set_index, set, add64,
}
use ssh_farm.Content.{Content}
use ssh_farm.Host.{Host}
use ssh_farm.Sim.State.{State, Scarecrow}
use ssh_farm.Sim.Money.{sat_add}
use ssh_farm.Sim.Money.Laws.{sat_add_lem}
use ssh_farm.Sim.Contracts.{credit, add_earnings, check_contract_completion}
use ssh_farm.Sim.Derive.{add_pouches, scarecrow_pouch_total, rebirth_earnings}
use ssh_farm.Sim.Scarecrows.{collect_scarecrow, count_collected, collect_from, collect_scarecrows}
use ssh_farm.Sim.Outcome.{Outcome, ok, err}
use ssh_farm.Sim.Valid.{IsValid, HasAmount}
use ssh_farm.Sim.Valid.Scarecrows.{
  collect_scarecrow-IsValid, collect_scarecrows-IsValid, All-get_index,
}

-- The coins in all pouches, without a limit.
sum_pouches : List Scarecrow → ℕ
sum_pouches [] = 0
sum_pouches (sc ∷ scs) = pos_part sc.pouch + sum_pouches scs

add_pouches_lem :
    (total : ℤ) (scs : List Scarecrow)
    → IsAmount total
    → All HasAmount scs
    → add_pouches total scs ≡ pos (min max_int64 (pos_part total + sum_pouches scs))
unfolding add_pouches sum_pouches
add_pouches_lem (negsuc n) [] a h = absurd (omega arith)
add_pouches_lem (pos n) [] a h = ground arith
add_pouches_lem total (sc ∷ scs) a h = rw (sat_add_lem total sc.pouch a h.0) (
    add_pouches_lem (pos (min max_int64 (pos_part total + pos_part sc.pouch))) scs (omega arith) h.1
    ∙ ap pos (omega arith))

-- The run's earnings with the pouches, cut off at math.MaxInt64.
worth : State → ℕ
worth s = min max_int64 (pos_part s.run_earnings + sum_pouches s.scarecrows)

rebirth_earnings_lem : (s : State) → IsValid s → rebirth_earnings s ≡ pos (worth s)
unfolding rebirth_earnings scarecrow_pouch_total worth
rebirth_earnings_lem s v =
    let t = sum_pouches s.scarecrows in
    rw (add_pouches_lem (pos 0) s.scarecrows (omega arith) v.pouches) (
      sat_add_lem s.run_earnings (pos (min max_int64 (0 + t))) v.run_earnings (omega arith)
      ∙ ap pos (omega arith))

-- Emptying a pouch takes its coins from the sum.
sum_pouches-set :
    (scs : List Scarecrow) (i : ℕ) (sc : Scarecrow)
    → get_elem? scs i ≡ some sc
    → sum_pouches (set scs i (record { pouch = pos 0 })) + pos_part sc.pouch ≡ sum_pouches scs
unfolding sum_pouches
sum_pouches-set [] i sc e = cc
sum_pouches-set (x ∷ xs) zero sc e = ground arith
sum_pouches-set (x ∷ xs) (suc i) sc e = omega (arith, sum_pouches-set xs i sc e)

get_index-get_elem? :
    {A : Type 0} (xs : List A) (i : ℤ) (a : A)
    → get_index xs i ≡ some a
    → get_elem? xs (pos_part i) ≡ some a
unfolding get_index
get_index-get_elem? xs i a e = ground arith

credit_run :
    (s : State) (amount : ℤ)
    → leb_ℤ amount (pos 0) ≡ false
    → ((credit s amount).run_earnings ≡ sat_add s.run_earnings amount)
      × ((credit s amount).scarecrows ≡ s.scarecrows)
unfolding credit add_earnings check_contract_completion
credit_run s amount h = ground arith

collect_scarecrow-worth :
    (s : State) (i : ℤ) → IsValid s → worth (collect_scarecrow s i).0 ≡ worth s
unfolding collect_scarecrow worth
collect_scarecrow-worth s i v = elim (Option-cases (get_index s.scarecrows i)) [
  | inl e ↦ rw (e, collect_scarecrow) refl
  | inr (sc, e) ↦ elim (Bool-cases (leb_ℤ sc.pouch (pos 0))) [
    | inl f ↦ rw (e, collect_scarecrow) (rw (f, if◌then◌else◌) refl)
    | inr f ↦
        let t = record s { scarecrows = set_index s.scarecrows i (record { pouch = pos 0 }) } in
        let a = All-get_index HasAmount s.scarecrows i v.pouches e in
        let r = credit_run t sc.pouch f in
        rw (e, collect_scarecrow)
          (rw (f, if◌then◌else◌)
            (rw (r.0, r.1, sat_add_lem s.run_earnings sc.pouch v.run_earnings a)
              (omega (
                arith,
                sum_pouches-set s.scarecrows (pos_part i) sc
                    (get_index-get_elem? s.scarecrows i sc e),
              ))))
  ]
]

count_collected-state : (o : Outcome ℤ) (acc : ℤ × ℤ) → (count_collected o acc).0 ≡ o.0
unfolding count_collected
count_collected-state (s, ok got) (t, n) = refl
count_collected-state (s, err e) acc = refl

collect_from-worth :
    (k i : ℕ) (s : State) (acc : ℤ × ℤ) → IsValid s → worth (collect_from k i s acc).0 ≡ worth s
unfolding collect_from
collect_from-worth zero i s acc v = refl
collect_from-worth (suc k) i s acc v =
    let o = collect_scarecrow s (pos i) in
    collect_from-worth k (i + 1) (count_collected o acc).0 (count_collected o acc).1
      (rw (count_collected-state o acc) (collect_scarecrow-IsValid s (pos i) v))
    ∙ ap worth (count_collected-state o acc)
    ∙ collect_scarecrow-worth s (pos i) v

-- In a valid save, collecting all pouches leaves what a rebirth counts as it was: the coins move
-- from the pouches into the run's earnings, each sum cut off at math.MaxInt64.
pub rebirth_earnings-collect_scarecrows :
    (s : State) → IsValid s → rebirth_earnings (collect_scarecrows s).0 ≡ rebirth_earnings s
unfolding collect_scarecrows
rebirth_earnings-collect_scarecrows s v =
    rebirth_earnings_lem (collect_scarecrows s).0 (collect_scarecrows-IsValid s v)
    ∙ ap pos (collect_from-worth _ 0 s _ v)
    ∙ sym (rebirth_earnings_lem s v)

-- Two saves with the same Starseeds and the same number of rebirths.
SameAwards : State → State → Type 0
SameAwards s t = (s.prestige_currency ≡ t.prestige_currency) × (s.rebirths ≡ t.rebirths)

-- What a rebirth with this gain does to the Starseeds and the rebirths of a save.
abbrev pub IsPaid : State → ℤ → State → Type 0
IsPaid s gain t =
    (t.prestige_currency ≡ sat_add s.prestige_currency gain)
    × (t.rebirths ≡ add64 s.rebirths (pos 1))
    × (t.run_earnings ≡ pos 0)
    × (t.scarecrows ≡ [])
