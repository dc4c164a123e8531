-- ===== src/Sim/Advance/Visits.antt =====
-- internal/sim/advance.go: random events, parcels and critters.
use ssh_farm.Prelude.{
  ℕ, suc, ℤ, pos, Bool, true, not, ◌&&◌, ◌||◌, str_eq, List, [], ◌∷◌, ◌++◌, none, some,
  if◌then◌else◌, ltb_ℤ, leb_ℤ, add64, sub64, mul64, div64, max64, get_index, set, length, ◌==◌,
}
use ssh_farm.Content.{Content, Event}
use ssh_farm.Sim.State.{State, Plot, upgrade_level}
use ssh_farm.Sim.Random.{roll100, roll_bp, roll_range}
use ssh_farm.Sim.Contracts.{contract_blocks_events}
use ssh_farm.Sim.Derive.{upgrade_effect_sum, event_active}
use ssh_farm.Sim.Advance.Report.{Tick}

abbrev pub clear_event : State → State
clear_event s = record s { event_id = ""; event_started_at = pos 0; event_ends_at = pos 0 }

-- Under Clockwork Denied no event runs.
unfoldable pub drop_event : State → State
drop_event s = if contract_blocks_events s && not (str_eq s.event_id "") then clear_event s else s

unfoldable pub expire_event : ℤ → Tick → Tick
expire_event to (s, ev) =
    if not (str_eq s.event_id "") && leb_ℤ s.event_ends_at to
    then (clear_event s, record ev { event_ended = s.event_id })
    else (s, ev)

-- A mean wait, shortened by a bonus in per cent.
unfoldable pub shortened : ℤ → ℤ → ℤ
shortened bonus n =
    if ltb_ℤ (pos 0) bonus then div64 (mul64 n (pos 100)) (add64 (pos 100) bonus) else n

unfoldable pub gift_interval : State → Content → Bool → ℤ
gift_interval s c online =
    if online
    then shortened (upgrade_effect_sum s c "gift_rate_pct") c.gifts.online_interval_sec
    else c.gifts.offline_interval_sec

-- The chance in basis points.
unfoldable pub arrival_chance : ℤ → ℤ → ℤ
arrival_chance elapsed interval =
    let chance = div64 (mul64 elapsed (pos 10000)) interval in
    if ltb_ℤ (pos 10000) chance then pos 10000 else chance

unfoldable pub try_gift : ℤ → ℤ → Tick → Tick
try_gift chance to (s, ev) =
    let (t, roll) = roll_bp s in
    if ltb_ℤ roll chance
    then (record t { gift_pending = true; gift_arrived_at = to }, record ev { gift_arrived = true })
    else (t, ev)

-- rollGiftArrival
unfoldable pub roll_gift_arrival : Content → ℤ → Bool → ℤ → Tick → Tick
roll_gift_arrival c elapsed online to (s, ev) =
    let interval = gift_interval s c online in
    let chance = arrival_chance elapsed interval in
    if s.gift_pending
    then (s, ev)
    else if ltb_ℤ interval (pos 1)
    then (s, ev)
    else if ltb_ℤ (pos 0) chance
    then try_gift chance to (s, ev)
    else (s, ev)

-- rollOnlineEvent: the wait, the length of the event, and its start.
unfoldable pub event_interval : State → Content → State × ℤ
event_interval s c =
    let bonus = upgrade_effect_sum s c "event_rate_pct" in
    let low = max64 (shortened bonus c.events_config.min_interval_sec) (pos 1) in
    let high = max64 (shortened bonus c.events_config.max_interval_sec) low in
    let (t, roll) = roll_range s (pos 0) (sub64 high low) in
    if ltb_ℤ (pos 0) (sub64 high low) then (t, add64 low roll) else (s, low)

unfoldable pub lengthened : ℤ → ℤ → ℤ
lengthened bonus n =
    if ltb_ℤ (pos 0) bonus then div64 (mul64 n (add64 (pos 100) bonus)) (pos 100) else n

unfoldable pub event_duration : State → Content → State × ℤ
event_duration s c =
    let bonus =
      add64 (upgrade_effect_sum s c "event_duration_pct")
        (mul64 (upgrade_level s "stargazer") (pos 10)) in
    let low = lengthened bonus c.events_config.min_duration_sec in
    let high = lengthened bonus c.events_config.max_duration_sec in
    let (t, roll) = roll_range s (pos 0) (sub64 high low) in
    if ltb_ℤ low high then (t, add64 low roll) else (s, low)

unfoldable pub begin_event : Content → ℤ → Event → Tick → Tick
begin_event c to def (s, ev) =
    let (t, dur) = event_duration (record s { event_id = def.id }) c in
    (
      record t { event_started_at = to; event_ends_at = add64 to dur },
      record ev { event_started = def.id },
    )

-- The index is in range, so that the first case is not met.
unfoldable pub start_event : Content → ℤ → Tick → Tick
start_event c to (s, ev) =
    let (t, k) = roll_range s (pos 0) (sub64 (pos (length c.events)) (pos 1)) in
    elim (get_index c.events k) [ none ↦ (t, ev) | some def ↦ begin_event c to def (t, ev) ]

unfoldable pub try_event : Content → ℤ → ℤ → Tick → Tick
try_event c elapsed to (s, ev) =
    let (t, interval) = event_interval s c in
    let chance = max64 (div64 (mul64 elapsed (pos 10000)) interval) (pos 1) in
    let (u, roll) = roll_bp t in if leb_ℤ chance roll then (u, ev) else start_event c to (u, ev)

unfoldable pub roll_online_event : Content → ℤ → ℤ → Tick → Tick
roll_online_event c elapsed to (s, ev) =
    if length c.events == 0
    then (s, ev)
    else if event_active s to
    then (s, ev)
    else try_event c elapsed to (s, ev)

-- activeCritterCount
unfoldable pub active_critter_count : List Plot → ℕ
active_critter_count [] = 0
active_critter_count (p ∷ ps) =
    let rest = active_critter_count ps in if str_eq p.critter "" then rest else suc rest

unfoldable pub settle_critter : Content → ℕ → Plot → Tick → Tick
settle_critter c i p (s, ev) =
    let (t, k) = roll_range s (pos 0) (sub64 (pos (length c.critters.kinds)) (pos 1)) in
    elim (get_index c.critters.kinds k) [
      | none ↦ (t, ev)
      | some kind ↦ (
        record t { plots = set t.plots i (record p { critter = kind }) },
        record ev { critter_visits = ev.critter_visits ++ kind ∷ [] },
      )
    ]

-- maybeCritterVisit
unfoldable pub maybe_critter_visit : Content → ℕ → Plot → Tick → Tick
maybe_critter_visit c i p (s, ev) =
    let (t, roll) = roll100 s in
    if not s.critters_enabled
    then (s, ev)
    else if not (str_eq p.critter "") || length c.critters.kinds == 0
    then (s, ev)
    else if leb_ℤ c.critters.visit_chance_pct (pos 0)
    then (s, ev)
    else if ltb_ℤ (pos 0) c.critters.max_active
        && leb_ℤ c.critters.max_active (pos (active_critter_count s.plots))
    then (s, ev)
    else if leb_ℤ c.critters.visit_chance_pct roll
    then (t, ev)
    else settle_critter c i p (t, ev)
