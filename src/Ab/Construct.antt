-- ===== src/Ab/Construct.antt =====
-- Construction: `__post_init__` of class AbUpdateMachine, with the defaults of its fields.
use sourceos_boot.Base.{
  ℕ, String, Bool, true, false, not, Option, none, some, List, [], ◌∷◌, ◌≡◌, ◌||◌, ◌==◌, ltb, arith,
  length, select, if◌then◌else◌,
}
use sourceos_boot.Ab.Types.{
  Label, slot_a, slot_b, label_eq, Phase, SlotState, Slots, is_active, values, slot_at,
}
use sourceos_boot.Ab.Checks.{is_writing, is_unbootable}
use sourceos_boot.Ab.Machine.{
  AbUpdateMachine, Fault, Outcome, returned, raised, not_two_slots, mislabelled_slot,
  active_role_not_unique, active_not_successful, max_attempts_out_of_range,
}
use sourceos_boot.Ab.Opening.{Ready}

-- The items of the `slots` dict, whose keys differ, in their order: `none` unless the keys are A and B.
abbrev pub slots_of : List (Label × SlotState) → Option Slots
slots_of ((slot_a, x) ∷ (slot_b, y) ∷ []) = some (record { a_first = true; at_a = x; at_b = y })
slots_of ((slot_b, y) ∷ (slot_a, x) ∷ []) = some (record { a_first = false; at_a = x; at_b = y })
slots_of _ = none

-- the loop that compares each key with its slot's label
abbrev mislabelled : List (Label × SlotState) → Option Fault
mislabelled [] = none
mislabelled ((l, x) ∷ rest) =
    let later = mislabelled rest in
    if label_eq x.slot l then later else some (mislabelled_slot l x.slot)

-- `if not actives[0].successful`
abbrev uncertified : List SlotState → Bool
uncertified [] = true
uncertified (x ∷ _) = not x.successful

abbrev post_init_fault : List (Label × SlotState) → Slots → ℕ → Option Fault
post_init_fault items slots budget =
    let actives = select (λ x. is_active x.role) (values slots) in
    elim (mislabelled items) [
      | some e ↦ some e
      | none ↦
          if not (length actives == 1)
          then some active_role_not_unique
          else if uncertified actives
          then some active_not_successful
          else if ltb budget 1 || ltb 7 budget
          then some max_attempts_out_of_range
          else none
    ]

module _ (target transaction : String) (items : List (Label × SlotState)) (probe digest : String)
    (budget : ℕ) (clock_of : ℕ → String) where
  -- a machine on which no event was offered
  abbrev pub fresh : Slots → AbUpdateMachine
  fresh slots_now = record {
    target_ref = target;
    transaction_id = transaction;
    slots = slots_now;
    health_probe_ref = probe;
    health_probe_digest = digest;
    max_attempts = budget;
    clock = clock_of;
    ticks = 0;
    phase = Phase.idle;
    from_slot = none;
    to_slot = none;
    preserved_digest = "";
    candidate_digest = "";
    attempts = [];
    rollback_reason = none;
    opened_at = none;
    settled_at = none;
  }

  unfoldable pub construct : Outcome AbUpdateMachine
  construct = elim (slots_of items) [
    | none ↦ raised not_two_slots
    | some slots ↦ elim (post_init_fault items slots budget) [
      | some e ↦ raised e
      | none ↦ returned (fresh slots)
    ]
  ]

-- the slot that holds the role `active`, where one of them does
abbrev pub active_label : Slots → Label
active_label s = if is_active s.at_a.role then slot_a else slot_b

-- What the constructor does not check of the slots, and a fallback has to have.
pub record IsFit (s : Slots) : Type 0 where
  pub not_written : is_writing (slot_at s (active_label s)).state ≡ false
  pub bootable : is_unbootable (slot_at s (active_label s)).state ≡ false
  pub has_digest : (d : String) × ((slot_at s (active_label s)).payload_digest ≡ some d)
  pub one_running : s.at_a.currently_running ≡ not s.at_b.currently_running

slots_of-cases :
    (items : List (Label × SlotState)) (s : Slots)
    → slots_of items ≡ some s
    → items ≡ (
        if s.a_first
        then (slot_a, s.at_a) ∷ (slot_b, s.at_b) ∷ []
        else (slot_b, s.at_b) ∷ (slot_a, s.at_a) ∷ [])
slots_of-cases items s h = ground arith

module _ (target transaction : String) (items : List (Label × SlotState)) (probe digest : String)
    (budget : ℕ) (clock_of : ℕ → String) where
  -- A machine that the constructor returns is ready, with the slot of role `active` to fall back to,
  -- if that slot has a digest and is neither being written nor unbootable, and one slot is running.
  pub construct-Ready :
      (m : AbUpdateMachine)
      → construct target transaction items probe digest budget clock_of ≡ returned m
      → IsFit m.slots
      → Ready (active_label m.slots) m
  unfolding construct
  construct-Ready m h f = ground (arith, slots_of-cases items m.slots)
