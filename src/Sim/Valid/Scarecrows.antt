-- ===== src/Sim/Valid/Scarecrows.antt =====
-- The pouches of internal/sim/scarecrow.go keep the ledger valid.
use ssh_farm.Prelude.{
  ℕ, zero, suc, ◌+◌, ◌≡◌, ℤ, pos, pos_part, List, All, All-set, All-get_elem?, IsAmount, arith,
  some, Option-cases, inl, inr, get_index, set_index,
}
use ssh_farm.Sim.State.{State}
use ssh_farm.Sim.Scarecrows.{collect_scarecrow, count_collected, collect_from, collect_scarecrows}
use ssh_farm.Sim.Outcome.{Outcome, ok, err}
use ssh_farm.Sim.Valid.{IsValid, HasAmount}
use ssh_farm.Sim.Valid.Ledgers.{credit-IsValid}

-- What stands at an index has what every entry has.
pub All-get_index :
    {A : Type 0} (P : A → Type 0) (xs : List A) (i : ℤ) {a : A}
    → All P xs
    → get_index xs i ≡ some a
    → P a
unfolding get_index
All-get_index P xs i h e = All-get_elem? P xs (pos_part i) h (ground arith)

emptied-IsValid :
    (s : State) (i : ℤ)
    → IsValid s
    → IsValid (record s { scarecrows = set_index s.scarecrows i (record { pouch = pos 0 }) })
emptied-IsValid s i v =
    let all : All HasAmount (set_index s.scarecrows i (record { pouch = pos 0 })) =
      All-set HasAmount s.scarecrows (pos_part i) (record { pouch = pos 0 }) v.pouches
        (omega arith) in
    ground (arith, all)

pub collect_scarecrow-IsValid : (s : State) (i : ℤ) → IsValid s → IsValid (collect_scarecrow s i).0
unfolding collect_scarecrow
collect_scarecrow-IsValid s i v = elim (Option-cases (get_index s.scarecrows i)) [
  | inl e ↦ rw (e, collect_scarecrow) v
  | inr (sc, e) ↦
      let a : IsAmount sc.pouch = All-get_index HasAmount s.scarecrows i v.pouches e in
      let t = record s { scarecrows = set_index s.scarecrows i (record { pouch = pos 0 }) } in
      rw (e, collect_scarecrow)
        (ground (arith, credit-IsValid t sc.pouch (omega arith) (emptied-IsValid s i v)))
]

count_collected-IsValid :
    (o : Outcome ℤ) (acc : ℤ × ℤ) → IsValid o.0 → IsValid (count_collected o acc).0
unfolding count_collected
count_collected-IsValid (s, ok got) (t, n) v = v
count_collected-IsValid (s, err e) acc v = v

collect_from-IsValid :
    (k i : ℕ) (s : State) (acc : ℤ × ℤ) → IsValid s → IsValid (collect_from k i s acc).0
unfolding collect_from
collect_from-IsValid zero i s acc v = v
collect_from-IsValid (suc k) i s acc v =
    collect_from-IsValid k (i + 1) (count_collected (collect_scarecrow s (pos i)) acc).0 _ (
      count_collected-IsValid (collect_scarecrow s (pos i)) acc
        (collect_scarecrow-IsValid s (pos i) v))

pub collect_scarecrows-IsValid : (s : State) → IsValid s → IsValid (collect_scarecrows s).0
unfolding collect_scarecrows
collect_scarecrows-IsValid s v = collect_from-IsValid _ 0 s _ v
