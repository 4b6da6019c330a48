-- ===== src/Ab/Checks.antt =====
-- `_assert_invariants`, the guards, `_resolve` and `_offer` of class AbUpdateMachine.
use sourceos_boot.Base.{
  String, Bool, true, false, not, Option, none, some, List, [], ◌∷◌, ◌==◌, ◌&&◌, ltb, leb,
  if◌then◌else◌, count, str_eq,
}
use sourceos_boot.Ab.Types.{
  Label, is_active, SlotPhase, Phase, is_terminal, SlotState, values, slot_at,
}
use sourceos_boot.Ab.Table.{Event, Guard, TransitionRule, index}
use sourceos_boot.Ab.Machine.{
  AbUpdateMachine, Fault, good_slot_overwritten, lost_successful, not_one_running, not_one_active,
  written_outside_candidate, unbootable_selectable, priority_inversion, fallback_unselectable,
  key_error, stop_iteration, returned, raised, Action, ◌>>=◌, pure, reads, or_raise, branch,
  find_active, find_candidate, candidate, terminal_phase, illegal_event, TransitionResult, refuse,
}

-- `x != y` between an optional text and a text
abbrev pub differs : Option String → String → Bool
differs none y = true
differs (some x) y = not (str_eq x y)

-- A read-only check that raises: the fault, or `none`. `first` is the order of the statements.
infixr 30 ◌first◌
abbrev ◌first◌ : Option Fault → Option Fault → Option Fault
none first f = f
(some e) first f = some e

-- `if b: raise e`
abbrev fault_if : Bool → Fault → Option Fault
fault_if b e = if b then some e else none

-- `if self._from_slot: ...` of `_assert_invariants`, on the slot that it reads
abbrev preserved_fault : Label → String → SlotState → Option Fault
preserved_fault l digest preserved =
    fault_if (differs preserved.payload_digest digest)
      (good_slot_overwritten digest l preserved.payload_digest)
    first fault_if (not preserved.successful) (lost_successful l)

abbrev pub is_writing : SlotPhase → Bool
is_writing SlotPhase.writing = true
is_writing _ = false

abbrev pub is_unbootable : SlotPhase → Bool
is_unbootable SlotPhase.unbootable = true
is_unbootable _ = false

-- the loop over the slots of `_assert_invariants`
abbrev slot_faults : List SlotState → Option Fault
slot_faults [] = none
slot_faults (x ∷ xs) =
    fault_if (is_writing x.state && is_active x.role) (written_outside_candidate x.slot)
    first fault_if (is_unbootable x.state && not (x.boot_priority == 0))
        (unbootable_selectable x.slot)
    first slot_faults xs

abbrev on_trial : Phase → Bool
on_trial Phase.armed = true
on_trial Phase.trying = true
on_trial _ = false

-- the checks of `_assert_invariants` while a candidate is armed or trying; `next` of an empty
-- sequence raises
abbrev rank_fault : Option SlotState → Option SlotState → Option Fault
rank_fault (some c) (some a) =
    fault_if (leb c.boot_priority a.boot_priority) priority_inversion
    first fault_if (ltb a.boot_priority 1) fallback_unselectable
rank_fault _ _ = some stop_iteration

-- The first fault that `_assert_invariants` finds.
unfoldable pub invariant_fault : AbUpdateMachine → Option Fault
invariant_fault s =
    let slots = values s.slots in
    elim s.from_slot [
      | none ↦ none
      | some l ↦ preserved_fault l s.preserved_digest (slot_at s.slots l)
    ]
    first fault_if (not (count (λ x. x.currently_running) slots == 1)) not_one_running
    first fault_if (not (count (λ x. is_active x.role) slots == 1)) not_one_active
    first slot_faults slots
    first (if on_trial s.phase
        then rank_fault (find_candidate s.slots) (find_active s.slots)
        else none)

-- _assert_invariants
unfoldable pub assert_invariants : Action (Unit {0})
assert_invariants s = (elim (invariant_fault s) [ none ↦ returned tt | some e ↦ raised e ], s)

-- _guard. `observed` is the keyword argument `observed_digest`, where the event has one.
unfoldable pub guard : Guard → Option String → Action Bool
guard Guard.digest_matches observed = do
  digest ← or_raise observed key_error
  reads (λ s. str_eq digest s.candidate_digest)
guard Guard.digest_mismatch observed = do
  digest ← or_raise observed key_error
  reads (λ s. not (str_eq digest s.candidate_digest))
guard Guard.tries_remain observed = do c ← candidate; pure (ltb 0 c.tries_remaining)
guard Guard.tries_exhausted observed = do c ← candidate; pure (c.tries_remaining == 0)

-- the loop of `_resolve`
unfoldable pub first_enabled : List TransitionRule → Option String → Action (Option TransitionRule)
unfolding guard
first_enabled [] observed = pure none
first_enabled (r ∷ rs) observed =
    let rest = first_enabled rs observed in
    elim r.guard [
      | none ↦ pure (some r)
      | some g ↦ do passes ← guard g observed; branch passes (pure (some r)) rest
    ]

-- _resolve
unfoldable pub resolve : Event → Option String → Action (Option TransitionRule)
unfolding first_enabled
resolve e observed = do phase ← reads (λ s. s.phase); first_enabled (index phase e) observed

-- what `_offer` returns: a rule, or the refusal that the event's method returns in its turn
pub data Admission : Type 0 where
  admitted : TransitionRule → Admission
  declined : TransitionResult → Admission

-- _offer
unfoldable pub offer : Event → Option String → Action Admission
offer e observed = do
  phase ← reads (λ s. s.phase)
  branch (is_terminal phase) (do r ← refuse e (terminal_phase phase); pure (declined r))
      (do
        found ← resolve e observed
        refusal ← refuse e (illegal_event e phase)
        pure (elim found [ none ↦ declined refusal | some rule ↦ admitted rule ]))

-- `outcome = self._offer(...)`, returned at once where it is a refusal
abbrev pub on_admission :
    Event → Option String → (TransitionRule → Action TransitionResult) → Action TransitionResult
on_admission e observed body s =
    let (r, s') = offer e observed s in
    elim r [
      | raised f ↦ (raised f, s')
      | returned outcome ↦ elim outcome [
        | declined t ↦ (returned t, s')
        | admitted rule ↦ body rule s'
      ]
    ]
