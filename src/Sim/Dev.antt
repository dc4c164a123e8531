-- ===== src/Sim/Dev.antt =====
-- internal/sim/dev.go: the developer actions. An action is named by a string, as in the source.
use ssh_farm.Prelude.{
  suc, zero, ℤ, pos, negsuc, Bool, true, false, ◌||◌, ◌&&◌, not, if◌then◌else◌, String, str_eq, map,
  Option, none, some, ltb_ℤ, eqb_ℤ, add64, sub64, max64, length, get_elem?, ◌≡◌, refl,
}
use ssh_farm.Content
use ssh_farm.Content.{Content, Crop, Event}
use ssh_farm.Sim.State.{State, Plot}
use ssh_farm.Sim.Contracts.{contract_blocks_events}
use ssh_farm.Sim.Derive.{grow_seconds}

pub data DevError : Type 0 where
  negative_value unknown_event restricted unknown_action : DevError

-- The save as the action leaves it, and its error.
abbrev pub Developed : Type 0
Developed = State × Option DevError

-- The inner switch: coins, starseeds, earnings, rebirths.
unfoldable pub set_amount : State → String → ℤ → State
set_amount s action value =
    if str_eq action "coins"
    then record s { coins = value }
    else if str_eq action "starseeds"
    then record s { prestige_currency = value }
    else if str_eq action "earnings"
    then record s { run_earnings = value; lifetime_earnings = max64 s.lifetime_earnings value }
    else if str_eq action "rebirths"
    then record s { rebirths = value }
    else s

unfoldable pub set_amount_checked : State → String → ℤ → Developed
set_amount_checked s action value =
    if ltb_ℤ value (pos 0) then (s, some negative_value) else (set_amount s action value, none)

-- One plot of the loop of "mature"; the growing time does not depend on the plots.
unfoldable pub matured : State → Content → ℤ → Plot → Plot
matured s c now p = elim (Content.crop c p.crop) [
  | none ↦ p
  | some crop ↦ record p { planted_at = sub64 now (grow_seconds s c crop) }
]

unfoldable pub mature : State → Content → ℤ → State
mature s c now = record s { plots = map (matured s c now) s.plots }

unfoldable pub force_gift : State → ℤ → Developed
force_gift s now =
    if contract_blocks_events s
    then (s, some restricted)
    else (record s { gift_pending = true; gift_arrived_at = now }, none)

unfoldable pub no_event : State → State
no_event s = record s { event_id = ""; event_started_at = pos 0; event_ends_at = pos 0 }

-- The event at an index that is in range, where Go would panic otherwise.
unfoldable pub start_event : State → Content → ℤ → Option Event → State
start_event s c now none = s
start_event s c now (some e) = record s {
  event_id = e.id;
  event_started_at = now;
  event_ends_at = add64 now c.events_config.max_duration_sec;
}

unfoldable pub set_event : State → Content → ℤ → ℤ → State
set_event s c (pos (suc n)) now = start_event (no_event s) c now (get_elem? c.events n)
set_event s c (pos zero) now = no_event s
set_event s c (negsuc n) now = no_event s

unfoldable pub force_event : State → Content → ℤ → ℤ → Developed
force_event s c value now =
    if ltb_ℤ value (pos 0) || ltb_ℤ (pos (length c.events)) value
    then (s, some unknown_event)
    else if not (eqb_ℤ value (pos 0)) && contract_blocks_events s
    then (s, some restricted)
    else (set_event s c value now, none)

unfoldable pub is_amount : String → Bool
is_amount action =
    str_eq action "coins"
    || str_eq action "starseeds"
    || str_eq action "earnings"
    || str_eq action "rebirths"

unfoldable pub dev_apply : State → Content → String → ℤ → ℤ → Developed
dev_apply s c action value now =
    if is_amount action
    then set_amount_checked s action value
    else if str_eq action "mature"
    then (mature s c now, none)
    else if str_eq action "gift"
    then force_gift s now
    else if str_eq action "event"
    then force_event s c value now
    else if str_eq action "contracts"
    then (record s { contracts_unlocked = true }, none)
    else (s, some unknown_action)

-- An action that reports an error has left the save as it was.
abbrev pub IsHonestly : State → Developed → Type 0
IsHonestly s (t, none) = Unit
IsHonestly s (t, some e) = t ≡ s

either-IsHonestly :
    (s : State) (b : Bool) (x y : Developed)
    → IsHonestly s x
    → IsHonestly s y
    → IsHonestly s (if b then x else y)
either-IsHonestly s true x y a b = a
either-IsHonestly s false x y a b = b

pub dev_apply-IsHonestly :
    (s : State) (c : Content) (action : String) (value now : ℤ)
    → IsHonestly s (dev_apply s c action value now)
unfolding dev_apply set_amount_checked force_gift force_event
dev_apply-IsHonestly s c action value now =
    either-IsHonestly s (is_amount action) _ _
      (either-IsHonestly s (ltb_ℤ value (pos 0)) _ _ refl tt)
      (either-IsHonestly s (str_eq action "mature") _ _ tt (
        either-IsHonestly s (str_eq action "gift") _ _
          (either-IsHonestly s (contract_blocks_events s) _ _ refl tt)
          (either-IsHonestly s (str_eq action "event") _ _
            (either-IsHonestly s (ltb_ℤ value (pos 0) || ltb_ℤ (pos (length c.events)) value) _ _
              refl
              (either-IsHonestly s (not (eqb_ℤ value (pos 0)) && contract_blocks_events s) _ _ refl
                tt))
            (either-IsHonestly s (str_eq action "contracts") _ _ tt refl))))
