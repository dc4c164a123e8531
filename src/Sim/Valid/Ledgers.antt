-- ===== src/Sim/Valid/Ledgers.antt =====
-- How the ledger moves: payments, credits and the completion of a contract.
use native.Mathlib.Nat.{div-le_self, le-div_iff_mul-le}
use ssh_farm.Prelude.{
  true, ℕ, zero, suc, ◌+◌, mul64-IsInt64, mul64_pos, div64, div64_pos, ◌≤◌, ◌≡◌, ℤ, pos, negsuc,
  pos_part, neg_part, IsAmount, IsInt64, arith, false, ltb_ℤ, leb_ℤ, Bool-cases, inl, inr,
  if◌then◌else◌, parts_apart, sub64, sub64_amount, max_int64, add64_amount,
}
use ssh_farm.Sim.State.{State}
use ssh_farm.Sim.Money.{sat_add, sat_mul}
use ssh_farm.Sim.Money.Laws.{sat_add_lem}
use ssh_farm.Sim.Contracts.{
  check_contract_completion, credit, credit_starseeds, bump_completed, add_earnings, is_active,
}
use ssh_farm.Sim.Valid.{IsValid}

-- A price that the wallet covers is paid exactly.
pub paid :
    (coins cost : ℤ)
    → IsAmount coins
    → neg_part cost ≡ 0
    → ltb_ℤ coins cost ≡ false
    → IsAmount (sub64 coins cost) × (pos_part (sub64 coins cost) + pos_part cost ≡ pos_part coins)
paid coins cost a n t = ground (arith, sub64_amount coins cost)

sat_add_negsuc : (a : ℤ) (b : ℕ) → IsAmount a → b ≤ max_int64 → sat_add a (negsuc b) ≡ pos max_int64
unfolding sat_add sub64
sat_add_negsuc a b h k = ground arith

-- A saturating sum is an amount also where the second number is negative: `max - b` then wraps
-- below zero, and the result is math.MaxInt64.
pub sat_add-IsAmount : (a b : ℤ) → IsAmount a → IsInt64 b → IsAmount (sat_add a b)
sat_add-IsAmount a (pos b) h k = ground (arith, sat_add_lem a (pos b))
sat_add-IsAmount a (negsuc b) h k = ground (arith, sat_add_negsuc a b)

pub sat_mul-IsInt64 : (a b : ℤ) → IsInt64 (sat_mul a b)
unfolding sat_mul
sat_mul-IsInt64 a b = ground (arith, mul64-IsInt64 a b)

-- A product of a number that is not negative with an int64 is an amount: for a negative one the
-- quotient of math.MaxInt64 is not positive, and the result is math.MaxInt64 or zero.
sat_mul_zero : (b : ℤ) → sat_mul (pos 0) b ≡ pos 0
unfolding sat_mul
sat_mul_zero b = ground arith

div64_negsuc : (b : ℕ) → pos_part (div64 (pos max_int64) (negsuc b)) ≡ 0
unfolding div64
div64_negsuc b = ground (arith, div-le_self max_int64 (suc b))

sat_mul_negsuc : (a b : ℕ) → sat_mul (pos (suc a)) (negsuc b) ≡ pos max_int64
unfolding sat_mul
sat_mul_negsuc a b =
    let q : ltb_ℤ (div64 (pos max_int64) (negsuc b)) (pos (suc a)) ≡ true =
      ground (arith, div64_negsuc b) in
    rw (q, if◌then◌else◌) (ground arith)

sat_mul_fits : (a b : ℕ) → b ≤ max_int64 → IsAmount (sat_mul (pos (suc a)) (pos b))
unfolding sat_mul
sat_mul_fits a zero h = ground arith
sat_mul_fits a (suc b) h = ground (
  arith,
  div64_pos max_int64 (suc b),
  mul64_pos (suc a) (suc b),
  le-div_iff_mul-le {k = suc b} {x = suc a} {y = max_int64} (omega arith),
)

pub sat_mul-IsAmount : (a b : ℤ) → neg_part a ≡ 0 → IsInt64 b → IsAmount (sat_mul a b)
sat_mul-IsAmount (negsuc a) b h k = absurd (omega arith)
sat_mul-IsAmount (pos zero) b h k = rw (sat_mul_zero b) (ground arith)
sat_mul-IsAmount (pos (suc a)) (pos b) h k = sat_mul_fits a b (omega arith)
sat_mul-IsAmount (pos (suc a)) (negsuc b) h k = rw (sat_mul_negsuc a b) (ground arith)

bump_completed_bounds :
    (n : ℤ)
    → (neg_part n ≡ 0) × (pos_part n ≤ 3)
    → (neg_part (bump_completed n) ≡ 0) × (pos_part (bump_completed n) ≤ 3)
unfolding bump_completed
bump_completed_bounds n h = ground (arith, add64_amount n (pos 1))

pub check_contract_completion-IsValid :
    (s : State) → IsValid s → IsValid (check_contract_completion s)
unfolding check_contract_completion
check_contract_completion-IsValid s v = ground (arith, bump_completed_bounds s.contracts_completed)

pub add_earnings-IsValid :
    (s : State) (amount : ℤ) → IsAmount amount → IsValid s → IsValid (add_earnings s amount)
unfolding add_earnings
add_earnings-IsValid s amount a v = ground (
  arith,
  sat_add-IsAmount s.coins amount,
  sat_add-IsAmount s.run_earnings amount,
  sat_add-IsAmount s.lifetime_earnings amount,
)

positive : (a : ℤ) → IsInt64 a → leb_ℤ a (pos 0) ≡ false → IsAmount a
positive a i h = ground (arith, parts_apart a)

contract_earnings-IsValid :
    (s : State) (n : ℤ) → IsAmount n → IsValid s → IsValid (record s { contract_earnings = n })
contract_earnings-IsValid s n a v = ground arith

contract_starseeds-IsValid :
    (s : State) (n : ℤ) → IsAmount n → IsValid s → IsValid (record s { contract_starseeds = n })
contract_starseeds-IsValid s n a v = ground arith

starseeds-IsValid :
    (s : State) (n : ℤ)
    → IsAmount n
    → IsValid s
    → IsValid (record s { prestige_currency = sat_add s.prestige_currency n })
starseeds-IsValid s n a v = ground (arith, sat_add-IsAmount s.prestige_currency n)

-- A credit of any int64 keeps the ledger: nothing is credited unless the amount is positive.
pub credit-IsValid :
    (s : State) (amount : ℤ) → IsInt64 amount → IsValid s → IsValid (credit s amount)
unfolding credit
credit-IsValid s amount a v = elim (Bool-cases (leb_ℤ amount (pos 0))) [
  | inl e ↦ rw (e, if◌then◌else◌) v
  | inr e ↦
      let b : IsAmount amount = positive amount a e in
      let n = sat_add s.contract_earnings amount in
      elim (Bool-cases (is_active s)) [
        | inl f ↦
            rw (e, if◌then◌else◌)
              (rw (f, if◌then◌else◌)
                (check_contract_completion-IsValid
                  (record (add_earnings s amount) { contract_earnings = n })
                  (contract_earnings-IsValid (add_earnings s amount) n
                    (sat_add-IsAmount s.contract_earnings amount v.contract_earnings a)
                    (add_earnings-IsValid s amount b v))))
        | inr f ↦ rw (e, if◌then◌else◌) (rw (f, if◌then◌else◌) (add_earnings-IsValid s amount b v))
      ]
]

pub credit_starseeds-IsValid :
    (s : State) (amount : ℤ) → IsInt64 amount → IsValid s → IsValid (credit_starseeds s amount)
unfolding credit_starseeds
credit_starseeds-IsValid s amount a v = elim (Bool-cases (leb_ℤ amount (pos 0))) [
  | inl e ↦ rw (e, if◌then◌else◌) v
  | inr e ↦
      let b : IsAmount amount = positive amount a e in
      let n = sat_add s.contract_starseeds amount in
      let t = record s { prestige_currency = sat_add s.prestige_currency amount } in
      let w = starseeds-IsValid s amount b v in
      elim (Bool-cases (is_active s)) [
        | inl f ↦
            rw (e, if◌then◌else◌)
              (rw (f, if◌then◌else◌)
                (check_contract_completion-IsValid (record t { contract_starseeds = n })
                  (contract_starseeds-IsValid t n
                    (sat_add-IsAmount s.contract_starseeds amount v.contract_starseeds a) w)))
        | inr f ↦ rw (e, if◌then◌else◌) (rw (f, if◌then◌else◌) w)
      ]
]
