-- ===== src/Sim/Valid/Catchup.antt =====
-- The cycles of the automatic plots of internal/sim/advance.go keep the ledger valid.
use ssh_farm.Prelude.{
  ℕ, zero, suc, ◌≡◌, sym, subst, ℤ, pos, neg_part, true, false, ◌&&◌, IsAmount, IsInt64, arith,
  Option-cases, Bool-cases, inl, inr, if◌then◌else◌, ltb_ℤ, leb_ℤ, leb, sub64, add64, min64,
  get_elem?, str_eq, add64-IsInt64, sub64_amount,
}
use ssh_farm.Content
use ssh_farm.Content.{Content, Crop}
use ssh_farm.Host.{Host}
use ssh_farm.Sim.State.{State, Plot, sow_crop}
use ssh_farm.Sim.Money.{sat_add, sat_mul}
use ssh_farm.Sim.Contracts.{credit}
use ssh_farm.Sim.Derive.{seed_cost, seasonal_plantable}
use ssh_farm.Sim.Harvest.{harvest_payout, expected_payout}
use ssh_farm.Sim.Planting.{credit_yield}
use ssh_farm.Sim.Advance.Report.{Tick}
use ssh_farm.Sim.Advance.Auto.{
  Cursor, Turn, leave, again, rest_of, sell_batch, batch, reap, sow_choice, switched, resow,
  lie_fallow, after_harvest, round, turn_with, cycle, auto_cycle_cap,
}
use ssh_farm.Sim.Valid.{IsValid, IsLedger, IsContent}
use ssh_farm.Sim.Valid.Ledgers.{paid, credit-IsValid, sat_add-IsAmount, sat_mul-IsAmount}
use ssh_farm.Sim.Valid.Farming.{
  seed_cost_nonneg, ledger-harvest_payout, payout-IsInt64, discovery-IsInt64, credit_yield-IsValid,
  harvests-IsValid, sell_value-IsInt64,
}

-- The crop of the loop has a sell value of its type.
abbrev HasValue : Cursor → Type 0
HasValue k = IsInt64 k.crop.sell_value

abbrev GoesOn : Turn → Type 0
GoesOn leave = Unit
GoesOn (again k) = HasValue k

-- What a round keeps.
abbrev Kept : Tick × Turn → Type 0
Kept r = IsValid r.0.0 × GoesOn r.1

-- A payment that is cut off at the wallet.
paid_off :
    (coins cost : ℤ) → IsAmount coins → IsAmount cost → IsAmount (sub64 coins (min64 cost coins))
paid_off coins cost a b = ground (arith, sub64_amount coins (min64 cost coins))

settled-IsValid :
    (s : State) (seeds n : ℤ)
    → IsAmount seeds
    → IsInt64 n
    → IsValid s
    → IsValid (record s {
      coins = sub64 s.coins (min64 seeds s.coins);
      lifetime_harvests = sat_add s.lifetime_harvests n;
    })
settled-IsValid s seeds n a j v =
    let paid = paid_off s.coins seeds v.coins a in
    let more = sat_add-IsAmount s.lifetime_harvests n v.lifetime_harvests j in
    record {
      coins = paid;
      run_earnings = v.run_earnings;
      lifetime_earnings = v.lifetime_earnings;
      lifetime_harvests = more;
      prestige_currency = v.prestige_currency;
      contracts_completed = v.contracts_completed;
      contract_rebirths = v.contract_rebirths;
      contract_earnings = v.contract_earnings;
      contract_starseeds = v.contract_starseeds;
      pouches = v.pouches;
    }

sell_batch-IsValid :
    (to : ℤ) (i : ℕ) (p : Plot) (k : Cursor) (gross cost : ℤ) (tick : Tick)
    → neg_part gross ≡ 0
    → neg_part cost ≡ 0
    → IsValid tick.0
    → IsValid (sell_batch to i p k gross cost tick).0
unfolding sell_batch
sell_batch-IsValid to i p k gross cost (s, ev) g c v =
    let n = add64 (rest_of to k) (pos 1) in
    let int = add64-IsInt64 (rest_of to k) (pos 1) in
    let earned = sat_mul-IsAmount gross n g int in
    settled-IsValid (credit s (sat_mul gross n)) (sat_mul cost n) n (sat_mul-IsAmount cost n c int)
      int (credit-IsValid s (sat_mul gross n) (omega arith) v)

batch-Kept :
    (h : Host) (c : Content) (to : ℤ) (i : ℕ) (p : Plot) (k : Cursor) (tick : Tick)
    → HasValue k
    → IsValid tick.0
    → Kept (batch h c to i p k tick)
unfolding batch
batch-Kept h c to i p k (s, ev) b v =
    let cost = seed_cost s c k.crop in
    let gross = expected_payout s c k.crop k.mature_at in
    let free = seed_cost_nonneg s c k.crop in
    elim (Bool-cases
      (p.auto_sow && (leb_ℤ cost s.coins && seasonal_plantable h k.crop.unlock to))) [
        | inr e ↦ rw (e, if◌then◌else◌) (v, tt)
        | inl e ↦ elim (Bool-cases (ltb_ℤ cost gross)) [
          | inr f ↦ rw (e, if◌then◌else◌) (rw (f, if◌then◌else◌) (v, tt))
          | inl f ↦
              let gain : neg_part gross ≡ 0 = ground arith in
              rw (e, if◌then◌else◌)
                (rw (f, if◌then◌else◌)
                  (sell_batch-IsValid to i p k gross cost (s, ev) gain free v, b))
        ]
      ]

reap-IsValid :
    (c : Content) (k : Cursor) (tick : Tick)
    → IsContent c
    → HasValue k
    → IsValid tick.0
    → IsValid (reap c k tick).0
unfolding reap
reap-IsValid c k (s, ev) m b v =
    let (s1, y) = harvest_payout s c k.crop k.mature_at in
    let w : IsValid s1 = subst IsLedger (sym (ledger-harvest_payout s c k.crop k.mature_at)) v in
    harvests-IsValid (credit_yield s1 y) (
      credit_yield-IsValid s1 y (payout-IsInt64 s c k.crop k.mature_at b)
        (discovery-IsInt64 s c k.crop k.mature_at m.discovery_min) w)

sow_choice-value :
    (c : Content) (p : Plot) (crop : Crop)
    → IsContent c
    → IsInt64 crop.sell_value
    → IsInt64 (sow_choice c p crop).sell_value
unfolding sow_choice
sow_choice-value c p crop m b = elim (Bool-cases (str_eq (sow_crop p) crop.id)) [
  | inl e ↦ rw (e, if◌then◌else◌) b
  | inr e ↦ elim (Option-cases (Content.crop c (sow_crop p))) [
    | inl f ↦ rw (e, if◌then◌else◌) (rw f b)
    | inr (other, f) ↦ rw (e, if◌then◌else◌) (rw f (sell_value-IsInt64 c (sow_crop p) m f))
  ]
]

resow-Kept :
    (c : Content) (i : ℕ) (p : Plot) (k : Cursor) (sow : Crop) (tick : Tick)
    → leb_ℤ (seed_cost tick.0 c sow) tick.0.coins ≡ true
    → IsInt64 sow.sell_value
    → HasValue k
    → IsValid tick.0
    → Kept (resow c i p k sow tick)
unfolding resow switched
resow-Kept c i p k sow (s, ev) t b d v =
    let covered : ltb_ℤ s.coins (seed_cost s c sow) ≡ false = ground arith in
    let left = (paid s.coins (seed_cost s c sow) v.coins (seed_cost_nonneg s c sow) covered).0 in
    ground (arith, left, v)

after_harvest-Kept :
    (h : Host) (c : Content) (to : ℤ) (i : ℕ) (p : Plot) (k : Cursor) (tick : Tick)
    → IsContent c
    → HasValue k
    → IsValid tick.0
    → Kept (after_harvest h c to i p k tick)
unfolding after_harvest lie_fallow
after_harvest-Kept h c to i p k (s, ev) m b v =
    let sow = sow_choice c p k.crop in
    let value = sow_choice-value c p k.crop m b in ground (arith, v, resow-Kept c i p k sow (s, ev))

round-Kept :
    (h : Host) (c : Content) (to : ℤ) (i : ℕ) (p : Plot) (k : Cursor) (tick : Tick)
    → IsContent c
    → HasValue k
    → IsValid tick.0
    → Kept (round h c to i p k tick)
unfolding round
round-Kept h c to i p k tick m b v = elim (Bool-cases (leb auto_cycle_cap k.cycles)) [
  | inl e ↦ rw (e, if◌then◌else◌) (batch-Kept h c to i p k tick b v)
  | inr e ↦
      rw (e, if◌then◌else◌)
        (after_harvest-Kept h c to i p k (reap c k tick) m b (reap-IsValid c k tick m b v))
]

turned-IsValid :
    (n : ℕ) (h : Host) (c : Content) (to : ℤ) (i : ℕ) (turn : Turn) (tick : Tick)
    → ((k : Cursor) → HasValue k → IsValid (cycle n h c to i k tick).0.0)
    → GoesOn turn
    → IsValid tick.0
    → IsValid (turn_with turn tick (λ k. cycle n h c to i k tick)).0.0
turned-IsValid n h c to i leave tick go b v = v
turned-IsValid n h c to i (again k) tick go b v = go k b

pub cycle-IsValid :
    (n : ℕ) (h : Host) (c : Content) (to : ℤ) (i : ℕ) (k : Cursor) (tick : Tick)
    → IsContent c
    → HasValue k
    → IsValid tick.0
    → IsValid (cycle n h c to i k tick).0.0
unfolding cycle
cycle-IsValid zero h c to i k tick m b v = v
cycle-IsValid (suc n) h c to i k tick m b v = elim (Bool-cases (leb_ℤ k.mature_at to)) [
  | inr e ↦ rw (e, cycle) v
  | inl e ↦ elim (Option-cases (get_elem? tick.0.plots i)) [
    | inl f ↦ rw (e, cycle) (rw f v)
    | inr (p, f) ↦
        let (next, turn) = round h c to i p k tick in
        let (w, g) = round-Kept h c to i p k tick m b v in
        rw (e, cycle)
          (rw f (
            turned-IsValid n h c to i turn next (λ k' b'. cycle-IsValid n h c to i k' next m b' w) g
              w))
  ]
]
