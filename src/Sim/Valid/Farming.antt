-- ===== src/Sim/Valid/Farming.antt =====
-- Plant, ReplantAll and Harvest of internal/sim/actions.go keep the ledger valid.
use ssh_farm.Prelude.{
  ◌≡◌, ℤ, pos, neg_part, IsInt64, arith, ltb_ℤ, sub64, String, some, Bool-cases, Option-cases, inl,
  inr, if◌then◌else◌, parts_apart, get_index, div64-IsInt64, add64-IsInt64, ◌∙◌, int64_of, u64_of,
  sym, subst, ◌%◌, add64, mul64,
}
use ssh_farm.Content
use ssh_farm.Content.{Content, Crop}
use ssh_farm.Host.{Host}
use ssh_farm.Sim.State.{State, Plot}
use ssh_farm.Sim.Random.{roll100, roll_range, next_rand}
use ssh_farm.Sim.Derive.{seed_cost, floor_zero, sell_multiplied, with_bonus}
use ssh_farm.Sim.Harvest
use ssh_farm.Sim.Harvest.{Yield, harvest_payout}
use ssh_farm.Sim.Planting.{plant, plant_on, sow, credit_yield, gather, harvest}
use ssh_farm.Sim.Money.{sat_add}
use ssh_farm.Sim.Valid.{IsValid, IsLedger, IsContent, ledger}
use ssh_farm.Sim.Valid.Ledgers.{paid, credit-IsValid, sat_add-IsAmount}
use ssh_farm.Sim.Valid.Purchases.{All-by_id}

floor_zero_nonneg : (n : ℤ) → neg_part (floor_zero n) ≡ 0
unfolding floor_zero
floor_zero_nonneg n = ground (arith, parts_apart n)

pub seed_cost_nonneg : (s : State) (c : Content) (crop : Crop) → neg_part (seed_cost s c crop) ≡ 0
unfolding seed_cost
seed_cost_nonneg s c crop = floor_zero_nonneg _

sow-IsValid :
    (h : Host) (s : State) (c : Content) (i : ℤ) (p : Plot) (crop : Crop) (id : String) (now : ℤ)
    → IsValid s
    → IsValid (sow h s c i p crop id now).0
unfolding sow
sow-IsValid h s c i p crop id now v =
    ground (arith, seed_cost_nonneg s c crop, paid s.coins (seed_cost s c crop) v.coins)

pub plant-IsValid :
    (h : Host) (s : State) (c : Content) (i : ℤ) (id : String) (now : ℤ)
    → IsValid s
    → IsValid (plant h s c i id now).0
unfolding plant plant_on
plant-IsValid h s c i id now v = elim (Option-cases (get_index s.plots i)) [
  | inl e ↦ rw (e, plant) v
  | inr (p, e) ↦ elim (Option-cases (Content.crop c id)) [
    | inl f ↦ rw (e, plant) (rw (f, plant_on) (ground arith))
    | inr (crop, f) ↦
        rw (e, plant) (rw (f, plant_on) (ground (arith, sow-IsValid h s c i p crop id now v)))
  ]
]

-- The random stream is no part of the ledger.
pub ledger-roll_range : (s : State) (lo hi : ℤ) → ledger (roll_range s lo hi).0 ≡ ledger s
unfolding roll_range next_rand
ledger-roll_range s lo hi = ground arith

ledger-roll_failure : (s : State) (crop : Crop) → ledger (Harvest.roll_failure s crop).0 ≡ ledger s
unfolding Harvest.roll_failure roll100 next_rand
ledger-roll_failure s crop = ground arith

ledger-roll_golden :
    (s : State) (c : Content) (n : ℤ) → ledger (Harvest.roll_golden s c n).0 ≡ ledger s
unfolding Harvest.roll_golden roll100 next_rand
ledger-roll_golden s c n = ground arith

ledger-roll_discovery : (s : State) (c : Content) → ledger (Harvest.roll_discovery s c).0 ≡ ledger s
unfolding Harvest.roll_discovery roll100 next_rand
ledger-roll_discovery s c =
    ground (arith, ledger-roll_range (roll100 s).0 c.flavor.discovery_min c.flavor.discovery_max)

pub ledger-harvest_payout :
    (s : State) (c : Content) (crop : Crop) (now : ℤ)
    → ledger (harvest_payout s c crop now).0 ≡ ledger s
unfolding harvest_payout
ledger-harvest_payout s c crop now =
    ledger-roll_discovery _ c ∙ ledger-roll_golden _ c _ ∙ ledger-roll_failure s crop

salvage_base-IsInt64 : (s : State) (crop : Crop) → IsInt64 (Harvest.salvage_base s crop)
unfolding Harvest.salvage_base
salvage_base-IsInt64 s crop = div64-IsInt64 _ (pos 8)

golden_payout-IsInt64 : (c : Content) (n : ℤ) → IsInt64 (Harvest.golden_payout c n)
unfolding Harvest.golden_payout
golden_payout-IsInt64 c n = div64-IsInt64 _ (pos 10)

pub roll_range-IsInt64 : (s : State) (lo hi : ℤ) → IsInt64 lo → IsInt64 (roll_range s lo hi).1
unfolding roll_range
roll_range-IsInt64 s lo hi i =
    ground
      (arith, add64-IsInt64 lo (int64_of ((next_rand s).1 % u64_of (add64 (sub64 hi lo) (pos 1)))))

roll_failure-IsInt64 :
    (s : State) (crop : Crop) → IsInt64 crop.sell_value → IsInt64 (Harvest.roll_failure s crop).1
unfolding Harvest.roll_failure
roll_failure-IsInt64 s crop i = ground (arith, salvage_base-IsInt64 (roll100 s).0 crop)

with_bonus-IsInt64 : (base bonus : ℤ) → IsInt64 base → IsInt64 (with_bonus base bonus)
unfolding with_bonus
with_bonus-IsInt64 base bonus i =
    ground (arith, div64-IsInt64 (mul64 base (add64 (pos 100) bonus)) (pos 100))

roll_golden-IsInt64 :
    (s : State) (c : Content) (n : ℤ) → IsInt64 n → IsInt64 (Harvest.roll_golden s c n).1
unfolding Harvest.roll_golden
roll_golden-IsInt64 s c n i = ground (arith, golden_payout-IsInt64 c n)

roll_discovery-IsInt64 :
    (s : State) (c : Content)
    → IsInt64 c.flavor.discovery_min
    → IsInt64 (Harvest.roll_discovery s c).1
unfolding Harvest.roll_discovery
roll_discovery-IsInt64 s c i =
    ground (arith, roll_range-IsInt64 (roll100 s).0 c.flavor.discovery_min c.flavor.discovery_max i)

pub payout-IsInt64 :
    (s : State) (c : Content) (crop : Crop) (now : ℤ)
    → IsInt64 crop.sell_value
    → IsInt64 (harvest_payout s c crop now).1.payout
unfolding harvest_payout sell_multiplied
payout-IsInt64 s c crop now i =
    roll_golden-IsInt64 _ c _ (with_bonus-IsInt64 _ _ (roll_failure-IsInt64 s crop i))

pub discovery-IsInt64 :
    (s : State) (c : Content) (crop : Crop) (now : ℤ)
    → IsInt64 c.flavor.discovery_min
    → IsInt64 (harvest_payout s c crop now).1.discovery
unfolding harvest_payout
discovery-IsInt64 s c crop now i = roll_discovery-IsInt64 _ c i

pub sell_value-IsInt64 :
    (c : Content) (id : String) {crop : Crop}
    → IsContent c
    → Content.crop c id ≡ some crop
    → IsInt64 crop.sell_value
unfolding Content.crop
sell_value-IsInt64 c id k e =
    All-by_id (λ (x : Crop). IsInt64 x.sell_value) (λ (x : Crop). x.id) id c.crops k.sell_values e

-- Crediting a harvest.
pub credit_yield-IsValid :
    (s : State) (y : Yield)
    → IsInt64 y.payout
    → IsInt64 y.discovery
    → IsValid s
    → IsValid (credit_yield s y)
unfolding credit_yield
credit_yield-IsValid s y i j v =
    let w = credit-IsValid s y.payout i v in
    elim (Bool-cases (ltb_ℤ (pos 0) y.discovery)) [
      | inl e ↦ rw (e, if◌then◌else◌) (credit-IsValid _ y.discovery j w)
      | inr e ↦ rw (e, if◌then◌else◌) w
    ]

pub harvests-IsValid :
    (s : State)
    → IsValid s
    → IsValid (record s { lifetime_harvests = sat_add s.lifetime_harvests (pos 1) })
harvests-IsValid s v = ground (arith, sat_add-IsAmount s.lifetime_harvests (pos 1))

gather-IsValid :
    (s : State) (c : Content) (i : ℤ) (p : Plot) (crop : Crop) (now : ℤ)
    → IsContent c
    → IsInt64 crop.sell_value
    → IsValid s
    → IsValid (gather s c i p crop now).0
unfolding gather
gather-IsValid s c i p crop now k sv v =
    let s1 = (harvest_payout s c crop now).0 in
    let y = (harvest_payout s c crop now).1 in
    let w : IsValid s1 = subst IsLedger (sym (ledger-harvest_payout s c crop now)) v in
    harvests-IsValid (credit_yield s1 y) (
      credit_yield-IsValid s1 y (payout-IsInt64 s c crop now sv)
        (discovery-IsInt64 s c crop now k.discovery_min) w)

pub harvest-IsValid :
    (s : State) (c : Content) (i now : ℤ) → IsContent c → IsValid s → IsValid (harvest s c i now).0
unfolding harvest
harvest-IsValid s c i now k v = elim (Option-cases (get_index s.plots i)) [
  | inl e ↦ rw (e, harvest) v
  | inr (p, e) ↦ elim (Option-cases (Content.crop c p.crop)) [
    | inl f ↦ rw (e, harvest) (rw f (ground arith))
    | inr (crop, f) ↦
        rw (e, harvest)
          (rw f
            (ground (arith, gather-IsValid s c i p crop now k (sell_value-IsInt64 c p.crop k f) v)))
  ]
]
