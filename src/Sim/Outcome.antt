-- ===== src/Sim/Outcome.antt =====
-- internal/sim: the sentinel errors, and the outcome of an action. An action returns the save as
-- it leaves it, with its result or its error.
use ssh_farm.Sim.State.{State}

pub data Error : Type 0 where
  unknown_plot plot_occupied plot_empty not_mature unknown_crop unknown_item locked : Error
  cant_afford cant_afford_pp maxed already_owned rebirth_too_soon no_gift no_critter : Error
  no_auto_sow name_too_long name_empty : Error
  contracts_locked contract_sequence contract_active no_active_contract : Error
  contract_restricted name_style_locked unknown_name_style : Error
  unknown_scarecrow pouch_empty : Error

pub data Result (A : Type 0) : Type 0 where
  ok : A → Result A
  err : Error → Result A

abbrev pub Outcome : Type 0 → Type 0
Outcome A = State × Result A

-- `return …, Err`, before anything is written.
abbrev pub refuse : {A : Type 0} → State → Error → Outcome A
refuse s e = (s, err e)
