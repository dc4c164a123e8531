-- ===== src/Sim/Valid/Campaign.antt =====
-- Gifts, critters, rebirth and the contracts of internal/sim/actions.go and contracts.go keep the
-- ledger valid.
use ssh_farm.Prelude.{
  ℕ, zero, suc, ◌*◌, ◌≤◌, ◌≡◌, refl, sym, subst, ℤ, pos, pos_part, List, [], ◌∷◌, IsAmount, IsInt64,
  arith, false, Bool-cases, Option-cases, inl, inr, String, str_eq, Dict, if◌then◌else◌, get_index,
  set_index, div64-IsInt64, add64-IsInt64, mul64-IsInt64, mul64, div64, lookup_or,
}
use ssh_farm.Content.{Content, Upgrade}
use ssh_farm.Host.{Host}
use ssh_farm.Sim.State.{State}
use ssh_farm.Sim.Random.{roll100, roll_range, next_rand}
use ssh_farm.Sim.Root.{isqrt}
use ssh_farm.Sim.Root.Correct.{isqrt_floor}
use ssh_farm.Sim.Money.{sat_add}
use ssh_farm.Sim.Derive.{add_start_coins, start_coins, prestige_gain, rebirth_earnings, can_rebirth}
use ssh_farm.Sim.Contracts.{reset_gameplay}
use ssh_farm.Sim.Scarecrows.{collect_scarecrows, shoo_scaled}
use ssh_farm.Sim.Campaign.{
  clamp_reward, gift_coin_reward, gift_starseeds, give_starseeds, give_coins, pay_shoo, open_gift,
  redeem_gift, shoo_critter, award, new_run, rebirth, start_contract, abandon_contract,
}
use ssh_farm.Sim.Valid.{IsValid, IsLedger, IsContent, ledger}
use ssh_farm.Sim.Valid.Ledgers.{
  sat_add-IsAmount, credit-IsValid, credit_starseeds-IsValid, check_contract_completion-IsValid,
}
use ssh_farm.Sim.Valid.Farming.{ledger-roll_range}
use ssh_farm.Sim.Valid.Scarecrows.{collect_scarecrows-IsValid}

add_start_coins-IsAmount :
    (levels : Dict ℤ) (coins : ℤ) (us : List Upgrade)
    → IsAmount coins
    → IsAmount (add_start_coins levels coins us)
unfolding add_start_coins
add_start_coins-IsAmount levels coins [] h = h
add_start_coins-IsAmount levels coins (u ∷ us) h =
    let raised = sat_add coins (mul64 u.effect_value (lookup_or (pos 0) u.id levels)) in
    elim (Bool-cases (str_eq u.effect "start_coins")) [
      | inl e ↦
          rw (e, if◌then◌else◌)
            (add_start_coins-IsAmount levels raised us
              (sat_add-IsAmount coins _ h (mul64-IsInt64 u.effect_value _)))
      | inr e ↦ rw (e, if◌then◌else◌) (add_start_coins-IsAmount levels coins us h)
    ]

-- A root of an int64 is an amount.
root-le : (r n : ℕ) → r * r ≤ n → r ≤ n
root-le zero n h = omega arith
root-le (suc r) n h = grind arith

pub prestige_gain-IsAmount : (h : Host) (s : State) (c : Content) → IsAmount (prestige_gain h s c)
unfolding prestige_gain
prestige_gain-IsAmount h s c =
    let n = div64 (rebirth_earnings s) c.prestige.divisor in
    let f = isqrt_floor h n in
    (
      f.0,
      omega (
        arith,
        root-le (pos_part (isqrt h n)) (pos_part n) f.1,
        f.1,
        div64-IsInt64 (rebirth_earnings s) c.prestige.divisor,
      ),
    )

new_run-IsValid :
    (s : State) (c : Content) (now : ℤ) → IsContent c → IsValid s → IsValid (new_run s c now)
unfolding new_run start_coins
new_run-IsValid s c now k v =
    ground (arith, add_start_coins-IsAmount s.upgrades c.start.coins c.upgrade_list k.start_coins)

award-IsValid : (s : State) (gain : ℤ) → IsInt64 gain → IsValid s → IsValid (award s gain)
unfolding award
award-IsValid s gain g v = ground (
  arith,
  sat_add-IsAmount s.prestige_currency gain,
  sat_add-IsAmount s.contract_starseeds gain,
  sat_add-IsAmount s.contract_rebirths (pos 1),
)

pub rebirth-IsValid :
    (h : Host) (s : State) (c : Content) (now : ℤ)
    → IsContent c
    → IsValid s
    → IsValid (rebirth h s c now).0
unfolding rebirth
rebirth-IsValid h s c now k v =
    let t = (collect_scarecrows s).0 in
    let gain = prestige_gain h t c in
    let a = prestige_gain-IsAmount h t c in
    elim (Bool-cases (can_rebirth h s c)) [
      | inr e ↦ rw (e, if◌then◌else◌) v
      | inl e ↦
          rw (e, if◌then◌else◌)
            (check_contract_completion-IsValid (new_run (award t gain) c now) (
              new_run-IsValid (award t gain) c now k
                (award-IsValid t gain (omega arith) (collect_scarecrows-IsValid s v))))
    ]

reset_gameplay-IsValid :
    (s : State) (c : Content) (now : ℤ) → IsContent c → IsValid s → IsValid (reset_gameplay s c now)
unfolding reset_gameplay
reset_gameplay-IsValid s c now k v = ground (arith, k.start_coins)

pub start_contract-IsValid :
    (s : State) (c : Content) (id : String) (now : ℤ)
    → IsContent c
    → IsValid s
    → IsValid (start_contract s c id now).0
unfolding start_contract
start_contract-IsValid s c id now k v = ground (arith, reset_gameplay-IsValid s c now k v)

pub abandon_contract-IsValid :
    (s : State) (c : Content) (now : ℤ)
    → IsContent c
    → IsValid s
    → IsValid (abandon_contract s c now).0
unfolding abandon_contract
abandon_contract-IsValid s c now k v = ground (arith, reset_gameplay-IsValid s c now k v)

clamp_reward-IsInt64 : (c : Content) (n : ℤ) → IsContent c → IsInt64 n → IsInt64 (clamp_reward c n)
unfolding clamp_reward
clamp_reward-IsInt64 c n k i = ground (arith, k.coin_reward_floor, k.coin_reward_ceiling)

pay_shoo-IsValid : (s : State) (c : Content) → IsValid s → IsValid (pay_shoo s c).0
unfolding pay_shoo shoo_scaled
pay_shoo-IsValid s c v =
    let roll = roll_range s c.critters.shoo_reward_min c.critters.shoo_reward_max in
    credit-IsValid roll.0 _ (div64-IsInt64 _ (pos 100))
      (subst IsLedger (sym (ledger-roll_range s _ _)) v)

pub shoo_critter-IsValid :
    (s : State) (c : Content) (i : ℤ) → IsValid s → IsValid (shoo_critter s c i).0
unfolding shoo_critter
shoo_critter-IsValid s c i v = elim (Option-cases (get_index s.plots i)) [
  | inl e ↦ rw (e, shoo_critter) v
  | inr (p, e) ↦
      let t = record s { plots = set_index s.plots i (record p { critter = "" }) } in
      rw (e, shoo_critter) (ground (arith, pay_shoo-IsValid t c v))
]

ledger-roll100 : (s : State) → ledger (roll100 s).0 ≡ ledger s
unfolding roll100 next_rand
ledger-roll100 s = refl

give_starseeds-IsValid :
    (h : Host) (s : State) (c : Content) → IsValid s → IsValid (give_starseeds h s c).0
unfolding give_starseeds gift_starseeds
give_starseeds-IsValid h s c v = credit_starseeds-IsValid s _ (add64-IsInt64 _ _) v

gift_coin_reward-IsInt64 :
    (h : Host) (s : State) (c : Content) → IsContent c → IsInt64 (gift_coin_reward h s c).1
unfolding gift_coin_reward
gift_coin_reward-IsInt64 h s c k = clamp_reward-IsInt64 c _ k (add64-IsInt64 _ _)

ledger-gift_coin_reward :
    (h : Host) (s : State) (c : Content) → ledger (gift_coin_reward h s c).0 ≡ ledger s
unfolding gift_coin_reward
ledger-gift_coin_reward h s c = ledger-roll_range s _ _

give_coins-IsValid :
    (h : Host) (s : State) (c : Content) → IsContent c → IsValid s → IsValid (give_coins h s c).0
unfolding give_coins
give_coins-IsValid h s c k v =
    credit-IsValid (gift_coin_reward h s c).0 _ (gift_coin_reward-IsInt64 h s c k)
      (subst IsLedger (sym (ledger-gift_coin_reward h s c)) v)

open_gift-IsValid :
    (h : Host) (s : State) (c : Content) → IsContent c → IsValid s → IsValid (open_gift h s c).0
unfolding open_gift
open_gift-IsValid h s c k v =
    let t = (roll100 s).0 in
    let w : IsValid t = subst IsLedger (sym (ledger-roll100 s)) v in
    ground (
      arith,
      give_starseeds-IsValid h t c w,
      give_coins-IsValid h t c k w,
      give_coins-IsValid h s c k v,
    )

pub redeem_gift-IsValid :
    (h : Host) (s : State) (c : Content) → IsContent c → IsValid s → IsValid (redeem_gift h s c).0
unfolding redeem_gift
redeem_gift-IsValid h s c k v =
    ground (
      arith,
      open_gift-IsValid h (record s { gift_pending = false; gift_arrived_at = pos 0 }) c k v,
    )
