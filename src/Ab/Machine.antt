-- ===== src/Ab/Machine.antt =====
-- `class AbUpdateMachine`: its fields, what a method call is (a state that survives a raise), and the
-- private helpers `_set_slot`, `active`, `candidate`, `_refuse`.
use sourceos_boot.Base.{
  ℕ, String, Bool, true, false, not, Option, none, some, List, ◌+◌, if◌then◌else◌, find,
}
use sourceos_boot.Ab.Types.{
  Label, is_active, Phase, RollbackReason, SlotState, Slots, values, slot_at, put_slot,
  AttemptRecord,
}
use sourceos_boot.Ab.Table.{Event}

-- The machine. `from_slot` and `to_slot` are `none` where the source has the empty string; `clock n`
-- is what the n-th call of the caller's clock returns, and `ticks` counts the calls made.
pub record AbUpdateMachine : Type 0 where
  pub target_ref : String
  pub transaction_id : String
  pub slots : Slots
  pub health_probe_ref : String
  pub health_probe_digest : String
  pub max_attempts : ℕ
  pub clock : ℕ → String
  pub ticks : ℕ
  pub phase : Phase
  pub from_slot : Option Label
  pub to_slot : Option Label
  pub preserved_digest : String
  pub candidate_digest : String
  pub attempts : List AttemptRecord
  pub rollback_reason : Option RollbackReason
  pub opened_at : Option String
  pub settled_at : Option String

-- What a method raises: one constructor for each message of an InvariantViolation or a ValueError,
-- and the built-in errors of a missing key and an empty `next`.
pub data Fault : Type 0 where
  good_slot_overwritten : String → Label → Option String → Fault
  lost_successful : Label → Fault
  not_one_running not_one_active : Fault
  written_outside_candidate unbootable_selectable : Label → Fault
  priority_inversion fallback_unselectable : Fault
  unknown_expiry_action : String → Fault
  key_error stop_iteration : Fault
  not_two_slots active_role_not_unique active_not_successful max_attempts_out_of_range : Fault
  mislabelled_slot : Label → Label → Fault

pub data Outcome {ℓ} (A : Type ℓ) : Type ℓ where
  returned : A → Outcome A
  raised : Fault → Outcome A

-- A method call: what was written before a raise stays written.
abbrev pub Action : Type 0 → Type 0
Action A = AbUpdateMachine → Outcome A × AbUpdateMachine

infixl 5 ◌>>=◌ ◌>>◌
abbrev pub ◌>>=◌ : {A B : Type 0} → Action A → (A → Action B) → Action B
◌>>=◌ m f s = let (r, s') = m s in elim r [ returned a ↦ f a s' | raised e ↦ (raised e, s') ]

abbrev pub ◌>>◌ : {A B : Type 0} → Action A → Action B → Action B
m >> k = m >>= λ _. k

module _ {A : Type 0} where
  abbrev pub pure : A → Action A
  pure a s = (returned a, s)

  abbrev pub reads : (AbUpdateMachine → A) → Action A
  reads f s = (returned (f s), s)

  abbrev pub or_raise : Option A → Fault → Action A
  or_raise o e s = (elim o [ none ↦ raised e | some a ↦ returned a ], s)

  -- `if b: ... else: ...`
  abbrev pub branch : Bool → Action A → Action A → Action A
  branch b yes_part no_part s = if b then yes_part s else no_part s

abbrev pub raise_if : Bool → Fault → Action (Unit {0})
raise_if b e s = (if b then raised e else returned tt, s)

abbrev pub modify : (AbUpdateMachine → AbUpdateMachine) → Action (Unit {0})
modify f s = (returned tt, f s)

-- `self.slots[label]`
abbrev pub get_slot : Option Label → Action SlotState
get_slot label s =
    (elim label [ none ↦ raised key_error | some l ↦ returned (slot_at s.slots l) ], s)

-- _set_slot: `self.slots[label] = replace(self.slots[label], **changes)`
abbrev pub set_slot : Option Label → (SlotState → SlotState) → Action (Unit {0})
set_slot label change s = elim label [
  | none ↦ (raised key_error, s)
  | some l ↦ (returned tt, record s { slots = put_slot s.slots l (change (slot_at s.slots l)) })
]

abbrev pub find_active : Slots → Option SlotState
find_active slots = find (λ x. is_active x.role) (values slots)

abbrev pub find_candidate : Slots → Option SlotState
find_candidate slots = find (λ x. not (is_active x.role)) (values slots)

-- The property `active`: the first slot that holds the role.
abbrev pub active : Action SlotState
active s = or_raise (find_active s.slots) stop_iteration s

-- The property `candidate`.
abbrev pub candidate : Action SlotState
candidate s = or_raise (find_candidate s.slots) stop_iteration s

-- `self.clock()`
abbrev pub now : Action String
now s = (returned (s.clock s.ticks), record s { ticks = s.ticks + 1 })

-- The reason of a TransitionResult: one constructor for each message, with what it interpolates.
pub data Reason : Type 0 where
  terminal_phase : Phase → Reason
  illegal_event : Event → Phase → Reason
  writing_candidate : Option Label → Reason
  digest_differs : String → String → Option Label → Reason
  digest_verified no_attempts_remaining : Reason
  stays_on : String → Option Label → Reason
  candidate_armed : ℕ → Reason
  attempt_of : ℕ → ℕ → Reason
  slot_promoted : Option Label → Option Label → Reason
  budget_exhausted : String → ℕ → Option Label → Reason
  fell_back : String → Option Label → ℕ → Reason
  returned_to : String → Option Label → Reason

-- TransitionResult
pub record TransitionResult : Type 0 where
  pub allowed : Bool
  pub event : Event
  pub from_phase : Phase
  pub to_phase : Phase
  pub reason : Reason
  pub fell_back_to : Option Label

-- `TransitionResult(True, event, from_phase, self._phase, reason, fell_back_to=back)`
abbrev pub allow : Event → Phase → Reason → Option Label → Action TransitionResult
allow e p why back = reads λ s. record {
  allowed = true;
  event = e;
  from_phase = p;
  to_phase = s.phase;
  reason = why;
  fell_back_to = back;
}

-- _refuse
abbrev pub refuse : Event → Reason → Action TransitionResult
refuse e why = reads λ s. record {
  allowed = false;
  event = e;
  from_phase = s.phase;
  to_phase = s.phase;
  reason = why;
  fell_back_to = none;
}
