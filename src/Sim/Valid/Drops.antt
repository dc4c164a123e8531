-- ===== src/Sim/Valid/Drops.antt =====
-- The drop clock of internal/sim/scarecrow.go keeps the ledger valid.
use ssh_farm.Prelude.{
  ℕ, zero, suc, ◌+◌, ◌≡◌, refl, ◌∙◌, sym, subst, ℤ, pos, Bool, IsAmount, IsInt64, All, All-set,
  arith, Option-cases, Bool-cases, inl, inr, if◌then◌else◌, get_index, set_index, pos_part, sub64,
  eqb_ℤ, max64, min64, rem64, length, div64, add64, div64-IsInt64,
}
use ssh_farm.Content.{Content}
use ssh_farm.Sim.State.{State}
use ssh_farm.Sim.Money.{sat_add, sat_mul}
use ssh_farm.Sim.Random.{roll_range}
use ssh_farm.Sim.Scarecrows.{
  scarecrow_clock_target, scarecrow_roll_cap, scarecrow_drop, roll_drops, gather_drops,
  fill_pouches, run_clock, advance_scarecrows,
}
use ssh_farm.Sim.Valid.{IsValid, IsLedger, HasAmount, ledger}
use ssh_farm.Sim.Valid.Ledgers.{sat_add-IsAmount, sat_mul-IsInt64}
use ssh_farm.Sim.Valid.Farming.{ledger-roll_range}
use ssh_farm.Sim.Valid.Scarecrows.{All-get_index}

scarecrow_drop-IsInt64 : (s : State) (c : Content) (base : ℤ) → IsInt64 (scarecrow_drop s c base)
unfolding scarecrow_drop
scarecrow_drop-IsInt64 s c base = div64-IsInt64 _ (pos 10000)

roll_drops_lem :
    (c : Content) (k : ℕ) (s : State) (gained : ℤ)
    → IsAmount gained
    → (ledger (roll_drops c k s gained).0 ≡ ledger s) × IsAmount (roll_drops c k s gained).1
unfolding roll_drops
roll_drops_lem c zero s gained a = (refl, a)
roll_drops_lem c (suc k) s gained a =
    let (t, base) = roll_range s c.scarecrow.coins_min c.scarecrow.coins_max in
    let more = sat_add gained (scarecrow_drop t c base) in
    let (kept, amount) =
      roll_drops_lem c k t more
        (sat_add-IsAmount gained (scarecrow_drop t c base) a (scarecrow_drop-IsInt64 t c base)) in
    (kept ∙ ledger-roll_range s c.scarecrow.coins_min c.scarecrow.coins_max, amount)

gather_drops_lem :
    (c : Content) (drops rolled : ℤ) (s : State)
    → (ledger (gather_drops c drops rolled s).0 ≡ ledger s)
      × IsAmount (gather_drops c drops rolled s).1
unfolding gather_drops
gather_drops_lem c drops rolled s =
    let (kept, amount) = roll_drops_lem c (pos_part rolled) s (pos 0) (omega arith) in
    let t = (roll_drops c (pos_part rolled) s (pos 0)).0 in
    let gained = (roll_drops c (pos_part rolled) s (pos 0)).1 in
    let mean =
      scarecrow_drop t c (div64 (add64 c.scarecrow.coins_min c.scarecrow.coins_max) (pos 2)) in
    let more = sat_mul mean (sub64 drops rolled) in
    let topped = sat_add-IsAmount gained more amount (sat_mul-IsInt64 mean (sub64 drops rolled)) in
    (kept, ground (arith, amount, topped))

filled-IsValid :
    (s : State) (i : ℕ) (n : ℤ)
    → IsAmount n
    → IsValid s
    → IsValid (record s { scarecrows = set_index s.scarecrows (pos i) (record { pouch = n }) })
filled-IsValid s i n a v =
    let all : All HasAmount (set_index s.scarecrows (pos i) (record { pouch = n })) =
      All-set HasAmount s.scarecrows i (record { pouch = n }) v.pouches a in
    ground (arith, all)

fill_pouches-IsValid :
    (c : Content) (drops rolled : ℤ) (k i : ℕ) (s : State) (total : ℤ)
    → IsValid s
    → IsValid (fill_pouches c drops rolled k i s total).0
unfolding fill_pouches
fill_pouches-IsValid c drops rolled zero i s total v = v
fill_pouches-IsValid c drops rolled (suc k) i s total v =
    let (t, gained) = gather_drops c drops rolled s in
    let (kept, amount) = gather_drops_lem c drops rolled s in
    let w : IsValid t = subst IsLedger (sym kept) v in
    elim (Option-cases (get_index t.scarecrows (pos i))) [
      | inl e ↦ rw (e, fill_pouches) w
      | inr (sc, e) ↦
          rw (e, fill_pouches)
            (fill_pouches-IsValid c drops rolled k (i + 1) _ _ (
              filled-IsValid t i (sat_add sc.pouch gained)
                (sat_add-IsAmount sc.pouch gained
                  (All-get_index HasAmount t.scarecrows (pos i) w.pouches e) (omega arith))
                w))
    ]

run_clock-IsValid :
    (s : State) (c : Content) (target elapsed rate : ℤ)
    → IsValid s
    → IsValid (run_clock s c target elapsed rate).0
unfolding run_clock
run_clock-IsValid s c target elapsed rate v =
    let clock = sat_add (max64 s.scarecrow_clock (pos 0)) (sat_mul elapsed rate) in
    let drops = div64 clock target in
    let t = record s { scarecrow_clock = rem64 clock target } in
    elim (Bool-cases (eqb_ℤ drops (pos 0))) [
      | inl e ↦ rw (e, if◌then◌else◌) v
      | inr e ↦
          rw (e, if◌then◌else◌)
            (fill_pouches-IsValid c drops (min64 drops scarecrow_roll_cap) (length s.scarecrows) 0 t
              (pos 0) v)
    ]

pub advance_scarecrows-IsValid :
    (s : State) (c : Content) (elapsed : ℤ) (online : Bool)
    → IsValid s
    → IsValid (advance_scarecrows s c elapsed online).0
unfolding advance_scarecrows
advance_scarecrows-IsValid s c elapsed online v = ground (
  arith,
  v,
  run_clock-IsValid s c (scarecrow_clock_target c) elapsed
      (if online then c.scarecrow.offline_slowdown else pos 1) v,
)
