-- ===== src/Sim/Valid/Purchases.antt =====
-- The purchases of internal/sim/actions.go keep the ledger valid.
use ssh_farm.Prelude.{
  ◌≤◌, ◌≡◌, ℤ, pos, pos_part, neg_part, List, [], ◌∷◌, All, All-append, arith, Bool, true, false,
  ltb_ℤ, String, none, some, Option-cases, inl, inr, if◌then◌else◌, parts_apart, str_eq, get_index,
  ◌++◌, subst, ◌∙◌,
}
use ssh_farm.Content
use ssh_farm.Content.{Content, Zone, by_id}
use ssh_farm.Sim.State.{State, Plot}
use ssh_farm.Sim.Prices
use ssh_farm.Sim.Market.{
  buy_plot, buy_zone, buy_found_zone, buy_multiplier, buy_seed_upgrade, buy_auto_harvest,
  buy_auto_sow, upgrade_plot_auto, queue_crop, set_auto_sow_crop, buy_upgrade, buy_scarecrow,
}
use ssh_farm.Sim.Valid.{IsValid, IsContent, HasAmount}
use ssh_farm.Sim.Valid.Ledgers.{paid}

found_one : {A : Type 0} (b : Bool) (x a : A) → (if b then some x else none) ≡ some a → x ≡ a
found_one true x a e = cc
found_one false x a e = cc

-- What a look-up finds has what every entry of the list has.
pub All-by_id :
    {A : Type 0} (P : A → Type 0) (key : A → String) (id : String) (xs : List A) {a : A}
    → All P xs
    → by_id key id xs ≡ some a
    → P a
unfolding by_id
All-by_id P key id [] h e = cc
All-by_id P key id (x ∷ xs) h e = elim (Option-cases (by_id key id xs)) [
  | inl n ↦ subst P (found_one (str_eq (key x) id) x _ (rw (n, by_id) at e)) h.0
  | inr (y, f) ↦ All-by_id P key id xs h.1 (f ∙ (rw (f, by_id) at e))
]

-- A signed number that is not below 0.
pub not_negative : (a : ℤ) → ltb_ℤ a (pos 0) ≡ false → neg_part a ≡ 0
not_negative a h = ground (arith, parts_apart a)

pub buy_plot-IsValid : (s : State) (c : Content) → IsValid s → IsValid (buy_plot s c).0
unfolding buy_plot
buy_plot-IsValid s c v =
    let cost = Prices.next_plot_cost s c in
    ground (arith, not_negative cost, paid s.coins cost v.coins)

buy_found_zone-IsValid :
    (s : State) (z : Zone) (id : String)
    → neg_part z.cost ≡ 0
    → IsValid s
    → IsValid (buy_found_zone s z id).0
unfolding buy_found_zone
buy_found_zone-IsValid s z id n v = ground (arith, paid s.coins z.cost v.coins)

pub buy_zone-IsValid :
    (s : State) (c : Content) (id : String) → IsContent c → IsValid s → IsValid (buy_zone s c id).0
unfolding buy_zone
buy_zone-IsValid s c id k v = elim (Option-cases (Content.zone_by_id c id)) [
  | inl e ↦ rw (e, buy_zone) v
  | inr (z, e) ↦
      rw (e, buy_zone)
        (buy_found_zone-IsValid s z id
          (unfold Content.zone_by_id in
            All-by_id (λ (z : Zone). neg_part z.cost ≡ 0) (λ (z : Zone). z.id) id c.zone_list
              k.zones e)
          v)
]

pub buy_multiplier-IsValid :
    (s : State) (c : Content) (id : String) → IsValid s → IsValid (buy_multiplier s c id).0
unfolding buy_multiplier
buy_multiplier-IsValid s c id v = elim (Option-cases (Content.multiplier_by_id c id)) [
  | inl e ↦ rw (e, buy_multiplier) v
  | inr (m, e) ↦
      let cost = Prices.multiplier_cost s m in
      rw (e, buy_multiplier) (ground (arith, not_negative cost, paid s.coins cost v.coins))
]

pub buy_seed_upgrade-IsValid :
    (s : State) (c : Content) (id : String) → IsValid s → IsValid (buy_seed_upgrade s c id).0
unfolding buy_seed_upgrade
buy_seed_upgrade-IsValid s c id v = elim (Option-cases (Content.seed_upgrade_by_id c id)) [
  | inl e ↦ rw (e, buy_seed_upgrade) v
  | inr (u, e) ↦
      let cost = Prices.seed_upgrade_cost s u in
      rw (e, buy_seed_upgrade) (ground (arith, not_negative cost, paid s.coins cost v.coins))
]

-- A price that is raised to at least 1.
pub at_least_one_pos :
    (n : ℤ) → (neg_part (Prices.at_least_one n) ≡ 0) × (1 ≤ pos_part (Prices.at_least_one n))
unfolding Prices.at_least_one
at_least_one_pos n = ground (arith, parts_apart n)

pub plot_auto_harvest_cost_pos :
    (s : State) (c : Content)
    → (neg_part (Prices.plot_auto_harvest_cost s c) ≡ 0)
      × (1 ≤ pos_part (Prices.plot_auto_harvest_cost s c))
unfolding Prices.plot_auto_harvest_cost
plot_auto_harvest_cost_pos s c = at_least_one_pos _

buy_auto_harvest-IsValid :
    (s : State) (c : Content) (i : ℤ) (p : Plot) → IsValid s → IsValid (buy_auto_harvest s c i p).0
unfolding buy_auto_harvest
buy_auto_harvest-IsValid s c i p v =
    let cost = Prices.plot_auto_harvest_cost s c in
    ground (arith, plot_auto_harvest_cost_pos s c, paid s.coins cost v.coins)

buy_auto_sow-IsValid :
    (s : State) (c : Content) (i : ℤ) (p : Plot)
    → IsContent c
    → IsValid s
    → IsValid (buy_auto_sow s c i p).0
unfolding buy_auto_sow
buy_auto_sow-IsValid s c i p k v =
    ground (arith, paid s.coins c.plot_automation.auto_sow_cost v.coins k.auto_sow_cost)

pub upgrade_plot_auto-IsValid :
    (s : State) (c : Content) (i : ℤ) (kind : String)
    → IsContent c
    → IsValid s
    → IsValid (upgrade_plot_auto s c i kind).0
unfolding upgrade_plot_auto
upgrade_plot_auto-IsValid s c i kind k v = elim (Option-cases (get_index s.plots i)) [
  | inl e ↦ rw (e, upgrade_plot_auto) v
  | inr (p, e) ↦
      rw (e, upgrade_plot_auto)
        (ground (arith, buy_auto_harvest-IsValid s c i p v, buy_auto_sow-IsValid s c i p k v))
]

pub buy_upgrade-IsValid :
    (s : State) (c : Content) (id : String) → IsValid s → IsValid (buy_upgrade s c id).0
unfolding buy_upgrade
buy_upgrade-IsValid s c id v = elim (Option-cases (Content.upgrade_by_id c id)) [
  | inl e ↦ rw (e, buy_upgrade) v
  | inr (u, e) ↦
      let cost = Prices.upgrade_cost s u in
      rw (e, buy_upgrade)
        (ground (arith, not_negative cost, paid s.prestige_currency cost v.prestige_currency))
]

pub buy_scarecrow-IsValid : (s : State) (c : Content) → IsValid s → IsValid (buy_scarecrow s c).0
unfolding buy_scarecrow
buy_scarecrow-IsValid s c v =
    let cost = Prices.scarecrow_cost s c in
    let grown : All HasAmount (s.scarecrows ++ record { pouch = pos 0 } ∷ []) =
      All-append HasAmount s.scarecrows _ v.pouches ((omega arith), tt) in
    ground (arith, not_negative cost, paid s.coins cost v.coins, grown)

pub set_auto_sow_crop-IsValid :
    (s : State) (c : Content) (i : ℤ) (id : String)
    → IsValid s
    → IsValid (set_auto_sow_crop s c i id).0
unfolding set_auto_sow_crop queue_crop
set_auto_sow_crop-IsValid s c i id v = ground arith
