-- ===== src/Ab/Types.antt =====
-- The data of ab_update_machine.py: slot states, phases, attempts and results. The strings that the
-- source checks against a closed set are data types with one constructor for each string.
use sourceos_boot.Base.{ℕ, String, Bool, true, false, Option, List, [], ◌∷◌, ◌==◌, if◌then◌else◌}

-- `slot: str  # "A" | "B"`
pub data Label : Type 0 where
  slot_a slot_b : Label

abbrev pub other : Label → Label
other slot_a = slot_b
other slot_b = slot_a

abbrev pub label_eq : Label → Label → Bool
label_eq slot_a slot_a = true
label_eq slot_b slot_b = true
label_eq _ _ = false

-- `role: str  # "active" | "candidate"`
pub data Role : Type 0 where
  active candidate : Role

abbrev pub is_active : Role → Bool
is_active active = true
is_active candidate = false

-- SLOT_STATES
pub data SlotPhase : Type 0 where
  empty writing written trying good unbootable : SlotPhase

-- PHASES
pub data Phase : Type 0 where
  idle writing candidate_ready armed trying promoted rolled_back refused : Phase

abbrev phase_code : Phase → ℕ
phase_code Phase.idle = 0
phase_code Phase.writing = 1
phase_code Phase.candidate_ready = 2
phase_code Phase.armed = 3
phase_code Phase.trying = 4
phase_code Phase.promoted = 5
phase_code Phase.rolled_back = 6
phase_code Phase.refused = 7

abbrev pub phase_eq : Phase → Phase → Bool
phase_eq p q = phase_code p == phase_code q

-- TERMINAL_PHASES
abbrev pub is_terminal : Phase → Bool
is_terminal Phase.promoted = true
is_terminal Phase.rolled_back = true
is_terminal Phase.refused = true
is_terminal _ = false

-- UpdateTransaction.outcome
pub data Settlement : Type 0 where
  pending promoted rolled_back refused : Settlement

-- PHASE_TO_OUTCOME
abbrev pub phase_to_outcome : Phase → Settlement
phase_to_outcome Phase.promoted = Settlement.promoted
phase_to_outcome Phase.rolled_back = Settlement.rolled_back
phase_to_outcome Phase.refused = Settlement.refused
phase_to_outcome _ = Settlement.pending

-- ROLLBACK_REASONS
pub data RollbackReason : Type 0 where
  probe_failed watchdog_expired attempts_exhausted write_failed digest_mismatch operator_abort :
      RollbackReason

-- SlotState. `boot_priority` and `tries_remaining` are naturals, as UpdateSlot.json demands.
pub record SlotState : Type 0 where
  pub slot : Label
  pub role : Role
  pub state : SlotPhase
  pub boot_priority : ℕ
  pub tries_remaining : ℕ
  pub successful : Bool
  pub currently_running : Bool
  pub payload_digest : Option String
  pub payload_ref : Option String
  pub version : Option String
  pub last_probe_verdict : Option String

-- `dict[str, SlotState]` with the keys "A" and "B"; `a_first` is its order of insertion.
pub record Slots : Type 0 where
  pub a_first : Bool
  pub at_a : SlotState
  pub at_b : SlotState

-- `slots.values()`
abbrev pub values : Slots → List SlotState
values s = if s.a_first then s.at_a ∷ s.at_b ∷ [] else s.at_b ∷ s.at_a ∷ []

-- `slots[label]`
abbrev pub slot_at : Slots → Label → SlotState
slot_at s slot_a = s.at_a
slot_at s slot_b = s.at_b

-- `slots[label] = v`
abbrev pub put_slot : Slots → Label → SlotState → Slots
put_slot s slot_a v = record s { at_a = v }
put_slot s slot_b v = record s { at_b = v }

-- AttemptRecord.result
pub data AttemptResult : Type 0 where
  pass probe_failed watchdog_expired aborted : AttemptResult

-- AttemptRecord
pub record AttemptRecord : Type 0 where
  pub attempt_number : ℕ
  pub started_at : String
  pub result : AttemptResult
  pub fell_back_to : Option Label
  pub tries_remaining_after : ℕ
  pub detail : Option String
