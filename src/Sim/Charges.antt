-- ===== src/Sim/Charges.antt =====
-- The purchases of internal/sim/actions.go, against a list of prices.
use ssh_farm.Prelude.{
  ◌+◌, ◌≡◌, ℤ, pos, pos_part, neg_part, String, str_eq, Option, none, some, Option-cases, inl, inr,
  arith, get_index, if◌then◌else◌,
}
use ssh_farm.Content
use ssh_farm.Content.{Content, Zone}
use ssh_farm.Sim.State.{State, Plot}
use ssh_farm.Sim.Outcome.{Outcome, ok}
use ssh_farm.Sim.Prices.{
  next_plot_cost, plot_auto_harvest_cost, multiplier_cost, seed_upgrade_cost, scarecrow_cost,
}
use ssh_farm.Sim.Market.{
  buy_plot, buy_zone, buy_found_zone, buy_multiplier, buy_seed_upgrade, buy_auto_harvest,
  buy_auto_sow, upgrade_plot_auto, buy_scarecrow,
}
use ssh_farm.Sim.Actions.{forget}
use ssh_farm.Sim.Valid.{IsValid, IsContent}
use ssh_farm.Sim.Valid.Ledgers.{paid}
use ssh_farm.Sim.Valid.Purchases.{not_negative, All-by_id, plot_auto_harvest_cost_pos}

-- What is bought with coins in the market.
pub data Purchase : Type 0 where
  plot : Purchase
  zone : String → Purchase
  multiplier : String → Purchase
  seed_upgrade : String → Purchase
  automation : ℤ → String → Purchase
  scarecrow : Purchase

abbrev pub buy : Content → State → Purchase → Outcome (Unit {0})
buy c s plot = forget (buy_plot s c)
buy c s (zone id) = buy_zone s c id
buy c s (multiplier id) = buy_multiplier s c id
buy c s (seed_upgrade id) = buy_seed_upgrade s c id
buy c s (automation i kind) = upgrade_plot_auto s c i kind
buy c s scarecrow = forget (buy_scarecrow s c)

abbrev pub price_of : {V : Type 0} → (V → ℤ) → Option V → ℤ
price_of f none = pos 0
price_of f (some v) = f v

-- The price list.
abbrev pub price : Content → State → Purchase → ℤ
price c s plot = next_plot_cost s c
price c s (zone id) = price_of (λ (z : Zone). z.cost) (Content.zone_by_id c id)
price c s (multiplier id) = price_of (multiplier_cost s) (Content.multiplier_by_id c id)
price c s (seed_upgrade id) = price_of (seed_upgrade_cost s) (Content.seed_upgrade_by_id c id)
price c s (automation i kind) =
    if str_eq kind "harvest" then plot_auto_harvest_cost s c else c.plot_automation.auto_sow_cost
price c s scarecrow = scarecrow_cost s c

-- The wallet before and after a sale at a price.
pub record Charged (cost : ℤ) (s t : State) : Type 0 where
  pub cost_nonneg : neg_part cost ≡ 0
  pub coins_nonneg : neg_part t.coins ≡ 0
  pub exact : pos_part t.coins + pos_part cost ≡ pos_part s.coins
  pub starseeds_kept : t.prestige_currency ≡ s.prestige_currency
  pub earnings_kept : t.run_earnings ≡ s.run_earnings

plot-Charged :
    (s : State) (c : Content)
    → IsValid s
    → (forget (buy_plot s c)).1 ≡ ok tt
    → Charged (next_plot_cost s c) s (buy_plot s c).0
unfolding buy_plot
plot-Charged s c v q =
    let cost = next_plot_cost s c in ground (arith, not_negative cost, paid s.coins cost v.coins)

scarecrow-Charged :
    (s : State) (c : Content)
    → IsValid s
    → (forget (buy_scarecrow s c)).1 ≡ ok tt
    → Charged (scarecrow_cost s c) s (buy_scarecrow s c).0
unfolding buy_scarecrow
scarecrow-Charged s c v q =
    let cost = scarecrow_cost s c in ground (arith, not_negative cost, paid s.coins cost v.coins)

found_zone-Charged :
    (s : State) (z : Zone) (id : String)
    → neg_part z.cost ≡ 0
    → IsValid s
    → (buy_found_zone s z id).1 ≡ ok tt
    → Charged z.cost s (buy_found_zone s z id).0
unfolding buy_found_zone
found_zone-Charged s z id n v q = ground (arith, paid s.coins z.cost v.coins n)

zone-Charged :
    (s : State) (c : Content) (id : String)
    → IsContent c
    → IsValid s
    → (buy_zone s c id).1 ≡ ok tt
    → Charged (price c s (zone id)) s (buy_zone s c id).0
unfolding buy_zone
zone-Charged s c id k v q = elim (Option-cases (Content.zone_by_id c id)) [
  | inl e ↦ absurd (ground arith)
  | inr (z, e) ↦
      rw (e, buy_zone)
        (found_zone-Charged s z id
          (unfold Content.zone_by_id in
            All-by_id (λ (z : Zone). neg_part z.cost ≡ 0) (λ (z : Zone). z.id) id c.zone_list
              k.zones e)
          v (rw (e, buy_zone) at q))
]

multiplier-Charged :
    (s : State) (c : Content) (id : String)
    → IsValid s
    → (buy_multiplier s c id).1 ≡ ok tt
    → Charged (price c s (multiplier id)) s (buy_multiplier s c id).0
unfolding buy_multiplier
multiplier-Charged s c id v q = elim (Option-cases (Content.multiplier_by_id c id)) [
  | inl e ↦ absurd (ground arith)
  | inr (m, e) ↦
      let cost = multiplier_cost s m in
      let r = rw (e, buy_multiplier) at q in
      rw (e, buy_multiplier) (ground (arith, not_negative cost, paid s.coins cost v.coins))
]

seed_upgrade-Charged :
    (s : State) (c : Content) (id : String)
    → IsValid s
    → (buy_seed_upgrade s c id).1 ≡ ok tt
    → Charged (price c s (seed_upgrade id)) s (buy_seed_upgrade s c id).0
unfolding buy_seed_upgrade
seed_upgrade-Charged s c id v q = elim (Option-cases (Content.seed_upgrade_by_id c id)) [
  | inl e ↦ absurd (ground arith)
  | inr (u, e) ↦
      let cost = seed_upgrade_cost s u in
      let r = rw (e, buy_seed_upgrade) at q in
      rw (e, buy_seed_upgrade) (ground (arith, not_negative cost, paid s.coins cost v.coins))
]

auto_harvest-Charged :
    (s : State) (c : Content) (i : ℤ) (p : Plot)
    → IsValid s
    → (buy_auto_harvest s c i p).1 ≡ ok tt
    → Charged (plot_auto_harvest_cost s c) s (buy_auto_harvest s c i p).0
unfolding buy_auto_harvest
auto_harvest-Charged s c i p v q =
    let cost = plot_auto_harvest_cost s c in
    ground (arith, plot_auto_harvest_cost_pos s c, paid s.coins cost v.coins)

auto_sow-Charged :
    (s : State) (c : Content) (i : ℤ) (p : Plot)
    → IsContent c
    → IsValid s
    → (buy_auto_sow s c i p).1 ≡ ok tt
    → Charged c.plot_automation.auto_sow_cost s (buy_auto_sow s c i p).0
unfolding buy_auto_sow
auto_sow-Charged s c i p k v q =
    ground (arith, paid s.coins c.plot_automation.auto_sow_cost v.coins k.auto_sow_cost)

automation-Charged :
    (s : State) (c : Content) (i : ℤ) (kind : String)
    → IsContent c
    → IsValid s
    → (upgrade_plot_auto s c i kind).1 ≡ ok tt
    → Charged (price c s (automation i kind)) s (upgrade_plot_auto s c i kind).0
unfolding upgrade_plot_auto
automation-Charged s c i kind k v q = elim (Option-cases (get_index s.plots i)) [
  | inl e ↦ absurd (ground arith)
  | inr (p, e) ↦
      let r = rw (e, upgrade_plot_auto) at q in
      rw (e, upgrade_plot_auto)
        (ground (arith, auto_harvest-Charged s c i p v, auto_sow-Charged s c i p k v))
]

-- In a valid save, over content that meets the checks: a purchase that is accepted takes from the
-- wallet exactly the price on the list as it stood before, the price and the coins that are left
-- are not negative, and the Starseeds and the run's earnings do not change.
pub buy-Charged :
    (c : Content) (s : State) (p : Purchase)
    → IsContent c
    → IsValid s
    → (buy c s p).1 ≡ ok tt
    → Charged (price c s p) s (buy c s p).0
buy-Charged c s plot k v q = plot-Charged s c v q
buy-Charged c s (zone id) k v q = zone-Charged s c id k v q
buy-Charged c s (multiplier id) k v q = multiplier-Charged s c id v q
buy-Charged c s (seed_upgrade id) k v q = seed_upgrade-Charged s c id v q
buy-Charged c s (automation i kind) k v q = automation-Charged s c i kind k v q
buy-Charged c s scarecrow k v q = scarecrow-Charged s c v q
