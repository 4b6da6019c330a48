-- ===== src/Ab/Events.antt =====
-- The events of class AbUpdateMachine, each the whole method, and the helpers that they share:
-- `_record_attempt`, `_mark_candidate_unbootable`, `_settle`, `_fail_attempt`.
use sourceos_boot.Base.{
  ℕ, String, true, false, not, Option, none, some, [], ◌∷◌, ◌++◌, ◌+◌, ◌-◌, ◌==◌, ◌&&◌, ◌||◌,
  length, str_eq,
}
use sourceos_boot.Ab.Types.{Label, Role, SlotPhase, Phase, phase_eq, RollbackReason, AttemptResult}
use sourceos_boot.Ab.Table.{Event}
use sourceos_boot.Ab.Machine.{
  AbUpdateMachine, unknown_expiry_action, Action, ◌>>=◌, ◌>>◌, pure, reads, raise_if, modify,
  branch, get_slot, set_slot, active, candidate, now, writing_candidate, digest_differs,
  digest_verified, no_attempts_remaining, stays_on, candidate_armed, attempt_of, slot_promoted,
  budget_exhausted, fell_back, returned_to, TransitionResult, allow, refuse,
}
use sourceos_boot.Ab.Checks.{assert_invariants, on_admission}

-- ARMED_CANDIDATE_PRIORITY, ARMED_ACTIVE_PRIORITY
abbrev pub armed_candidate_priority : ℕ
armed_candidate_priority = 15

abbrev pub armed_active_priority : ℕ
armed_active_priority = 14

-- `x or ""`
abbrev pub or_empty : Option String → String
or_empty none = ""
or_empty (some x) = x

abbrev from_label : AbUpdateMachine → Option Label
from_label s = s.from_slot

abbrev to_label : AbUpdateMachine → Option Label
to_label s = s.to_slot

abbrev current_phase : AbUpdateMachine → Phase
current_phase s = s.phase

-- `self._phase = p`
abbrev set_phase : Phase → Action (Unit {0})
set_phase p = modify λ s. record s { phase = p }

unfoldable pub record_attempt : AttemptResult → Option Label → Option String → Action (Unit {0})
record_attempt outcome back why = do
  n ← reads (λ s. length s.attempts)
  at ← now
  c ← candidate
  modify λ s. record s {
    attempts =
        s.attempts
        ++ record {
          attempt_number = n + 1;
          started_at = at;
          result = outcome;
          fell_back_to = back;
          tries_remaining_after = c.tries_remaining;
          detail = why;
        }
          ∷ [];
  }

unfoldable pub mark_candidate_unbootable : Action (Unit {0})
mark_candidate_unbootable = do
  to ← reads to_label
  from ← reads from_label
  set_slot to (λ x. record x {
    state = SlotPhase.unbootable;
    boot_priority = 0;
    tries_remaining = 0;
    successful = false;
  })
  set_slot from (λ x. record x { boot_priority = armed_candidate_priority })
  fallback ← get_slot from
  branch fallback.currently_running (pure tt) (do
    set_slot to (λ x. record x { currently_running = false })
    set_slot from (λ x. record x { currently_running = true }))

-- `_settle`; the reason's type holds the members of ROLLBACK_REASONS and no others.
unfoldable pub settle : Phase → Option RollbackReason → Action (Unit {0})
unfolding assert_invariants
settle p reason = do
  modify (λ s. record s { phase = p; rollback_reason = reason })
  at ← now
  modify (λ s. record s { settled_at = some at })
  assert_invariants

unfoldable pub begin : String → Option String → Option String → Action TransitionResult
begin digest ref ver = on_admission Event.begin none λ rule. do
  good ← active
  modify (λ s. record s { from_slot = some good.slot })
  target ← candidate
  modify (λ s. record s { to_slot = some target.slot })
  old ← active
  modify (λ s. record s { preserved_digest = or_empty old.payload_digest })
  modify (λ s. record s { candidate_digest = digest })
  at ← now
  modify (λ s. record s { opened_at = some at })
  to ← reads to_label
  set_slot to (λ x. record x {
    state = SlotPhase.writing;
    successful = false;
    payload_digest = some digest;
    payload_ref = ref;
    version = ver;
    last_probe_verdict = none;
  })
  set_phase rule.to_phase
  assert_invariants
  allow Event.begin Phase.idle (writing_candidate to) none

unfoldable pub write_complete : String → Action TransitionResult
write_complete observed = on_admission Event.write_complete (some observed) λ rule. do
  before ← reads current_phase
  from ← reads from_label
  to ← reads to_label
  expected ← reads (λ s. s.candidate_digest)
  branch (phase_eq rule.to_phase Phase.rolled_back)
      (do
        mark_candidate_unbootable
        settle Phase.rolled_back (some RollbackReason.digest_mismatch)
        allow Event.write_complete before (digest_differs expected observed from) from)
      (do
        set_slot to (λ x. record x { state = SlotPhase.written })
        set_phase rule.to_phase
        assert_invariants
        allow Event.write_complete before digest_verified none)

unfoldable pub write_failed : String → Action TransitionResult
write_failed why = on_admission Event.write_failed none λ rule. do
  before ← reads current_phase
  from ← reads from_label
  mark_candidate_unbootable
  settle Phase.rolled_back (some RollbackReason.write_failed)
  allow Event.write_failed before (stays_on why from) from

unfoldable pub arm : Action TransitionResult
arm = on_admission Event.arm none λ rule. do
  before ← reads current_phase
  from ← reads from_label
  to ← reads to_label
  budget ← reads (λ s. s.max_attempts)
  set_slot from (λ x. record x { boot_priority = armed_active_priority })
  set_slot to (λ x. record x {
    boot_priority = armed_candidate_priority;
    tries_remaining = budget;
    successful = false;
  })
  set_phase rule.to_phase
  assert_invariants
  allow Event.arm before (candidate_armed budget) none

-- Past the test for attempts left, which `tries_remaining <= 0` makes, `-` is exact.
unfoldable pub boot_attempt : Action TransitionResult
boot_attempt = on_admission Event.boot_attempt none λ rule. do
  before ← reads current_phase
  from ← reads from_label
  to ← reads to_label
  c ← candidate
  branch (c.tries_remaining == 0) (refuse Event.boot_attempt no_attempts_remaining) (do
    set_slot to (λ x. record x {
      tries_remaining = c.tries_remaining - 1;
      state = SlotPhase.trying;
      currently_running = true;
    })
    set_slot from (λ x. record x { currently_running = false })
    set_phase rule.to_phase
    assert_invariants
    n ← reads (λ s. length s.attempts)
    budget ← reads (λ s. s.max_attempts)
    allow Event.boot_attempt before (attempt_of (n + 1) budget) none)

unfoldable pub probe_pass : Option String → Action TransitionResult
probe_pass why = on_admission Event.probe_pass none λ rule. do
  before ← reads current_phase
  record_attempt AttemptResult.pass none why
  old_active ← reads from_label
  new_active ← reads to_label
  set_slot new_active (λ x. record x {
    role = Role.active;
    state = SlotPhase.good;
    successful = true;
    boot_priority = 15;
    tries_remaining = 0;
    last_probe_verdict = some "pass";
  })
  set_slot old_active (λ x. record x { role = Role.candidate; boot_priority = 14 })
  settle Phase.promoted none
  allow Event.probe_pass before (slot_promoted new_active old_active) none

unfoldable pub fail_attempt : Event → AttemptResult → String → Action TransitionResult
fail_attempt e outcome why = on_admission e none λ rule. do
  before ← reads current_phase
  from ← reads from_label
  to ← reads to_label
  record_attempt outcome from (some why)
  set_slot to (λ x. record x {
    currently_running = false;
    state = SlotPhase.written;
    last_probe_verdict = some "fail";
  })
  set_slot from (λ x. record x { currently_running = true })
  branch (phase_eq rule.to_phase Phase.refused)
      (do
        mark_candidate_unbootable
        settle Phase.refused (some RollbackReason.attempts_exhausted)
        n ← reads (λ s. length s.attempts)
        allow e before (budget_exhausted why n from) from)
      (do
        set_phase rule.to_phase
        assert_invariants
        c ← candidate
        allow e before (fell_back why from c.tries_remaining) from)

unfoldable pub probe_fail : String → Action TransitionResult
probe_fail = fail_attempt Event.probe_fail AttemptResult.probe_failed

unfoldable pub watchdog_expired : String → String → Action TransitionResult
watchdog_expired why action = do
  raise_if (not (str_eq action "reboot" || str_eq action "reboot-to-fallback"))
      (unknown_expiry_action action)
  phase ← reads current_phase
  to ← reads to_label
  branch (str_eq action "reboot-to-fallback" && phase_eq phase Phase.trying)
      (set_slot to (λ x. record x { tries_remaining = 0 })) (pure tt)
  fail_attempt Event.watchdog_expired AttemptResult.watchdog_expired why

unfoldable pub operator_abort : String → Action TransitionResult
operator_abort why = on_admission Event.operator_abort none λ rule. do
  before ← reads current_phase
  from ← reads from_label
  branch (phase_eq before Phase.trying) (record_attempt AttemptResult.aborted from (some why))
      (pure tt)
  mark_candidate_unbootable
  settle Phase.rolled_back (some RollbackReason.operator_abort)
  allow Event.operator_abort before (returned_to why from) from
