-- ===== src/Ab/Admission.antt =====
-- What `_offer` admits, event by event and phase by phase.
use sourceos_boot.Base.{
  ◌≡◌, refl, none, some, Option, String, [], true, false, Bool, arith, ltb, str_eq,
}
use sourceos_boot.Ab.Types.{Phase, is_terminal, SlotState}
use sourceos_boot.Ab.Table.{Event, Guard, rule, rule_if, index}
use sourceos_boot.Ab.Machine.{
  AbUpdateMachine, returned, find_candidate, TransitionResult, Reason, terminal_phase,
  illegal_event,
}
use sourceos_boot.Ab.Checks.{first_enabled, resolve, offer, admitted, declined}

-- the refusal that `_refuse` builds
abbrev pub refusal : Event → Reason → AbUpdateMachine → TransitionResult
refusal e why s = record {
  allowed = false;
  event = e;
  from_phase = s.phase;
  to_phase = s.phase;
  reason = why;
  fell_back_to = none;
}

-- A terminal machine declines every event, and says that it is terminal.
pub offer-terminal :
    (e : Event) (observed : Option String) (s : AbUpdateMachine)
    → is_terminal s.phase ≡ true
    → offer e observed s ≡ (returned (declined (refusal e (terminal_phase s.phase) s)), s)
unfolding offer resolve index
offer-terminal e observed s h = ground arith

resolve-none :
    (e : Event) (observed : Option String) (s : AbUpdateMachine)
    → index s.phase e ≡ []
    → resolve e observed s ≡ (returned none, s)
unfolding resolve
resolve-none e observed s k = rw (k, first_enabled) refl

-- An event with no rule at the phase is declined.
pub offer-illegal :
    (e : Event) (observed : Option String) (s : AbUpdateMachine)
    → is_terminal s.phase ≡ false
    → index s.phase e ≡ []
    → offer e observed s ≡ (returned (declined (refusal e (illegal_event e s.phase) s)), s)
unfolding offer
offer-illegal e observed s h k = ground (arith, resolve-none e observed s k)

-- the phases that an operator may abort
abbrev pub is_abortable : Phase → Bool
is_abortable Phase.writing = true
is_abortable Phase.candidate_ready = true
is_abortable Phase.armed = true
is_abortable Phase.trying = true
is_abortable _ = false

module _ (s : AbUpdateMachine) where
  pub offer-begin :
      s.phase ≡ Phase.idle
      → offer Event.begin none s
        ≡ (returned (admitted (rule Event.begin Phase.idle Phase.writing)), s)
  unfolding offer resolve index
  offer-begin h = ground arith

  pub offer-write_complete_match :
      (d : String)
      → s.phase ≡ Phase.writing
      → str_eq d s.candidate_digest ≡ true
      → offer Event.write_complete (some d) s ≡ (
        returned (
            admitted (
              rule_if Event.write_complete Phase.writing Phase.candidate_ready
                Guard.digest_matches)),
        s,
      )
  unfolding offer resolve index
  offer-write_complete_match d h k = ground arith

  pub offer-write_complete_mismatch :
      (d : String)
      → s.phase ≡ Phase.writing
      → str_eq d s.candidate_digest ≡ false
      → offer Event.write_complete (some d) s ≡ (
        returned (
            admitted
              (rule_if Event.write_complete Phase.writing Phase.rolled_back Guard.digest_mismatch)),
        s,
      )
  unfolding offer resolve index
  offer-write_complete_mismatch d h k = ground arith

  pub offer-write_failed :
      s.phase ≡ Phase.writing
      → offer Event.write_failed none s
        ≡ (returned (admitted (rule Event.write_failed Phase.writing Phase.rolled_back)), s)
  unfolding offer resolve index
  offer-write_failed h = ground arith

  pub offer-arm :
      s.phase ≡ Phase.candidate_ready
      → offer Event.arm none s
        ≡ (returned (admitted (rule Event.arm Phase.candidate_ready Phase.armed)), s)
  unfolding offer resolve index
  offer-arm h = ground arith

  pub offer-boot_attempt :
      s.phase ≡ Phase.armed
      → offer Event.boot_attempt none s
        ≡ (returned (admitted (rule Event.boot_attempt Phase.armed Phase.trying)), s)
  unfolding offer resolve index
  offer-boot_attempt h = ground arith

  pub offer-probe_pass :
      s.phase ≡ Phase.trying
      → offer Event.probe_pass none s
        ≡ (returned (admitted (rule Event.probe_pass Phase.trying Phase.promoted)), s)
  unfolding offer resolve index
  offer-probe_pass h = ground arith

  pub offer-operator_abort :
      (p : Phase)
      → s.phase ≡ p
      → is_abortable p ≡ true
      → offer Event.operator_abort none s
        ≡ (returned (admitted (rule Event.operator_abort p Phase.rolled_back)), s)
  unfolding offer resolve index
  offer-operator_abort p h k = ground arith

-- the two events that report a failed attempt
abbrev pub is_failure : Event → Bool
is_failure Event.probe_fail = true
is_failure Event.watchdog_expired = true
is_failure _ = false

module _ (e : Event) (s : AbUpdateMachine) (c : SlotState) where
  pub offer-failure_retry :
      is_failure e ≡ true
      → s.phase ≡ Phase.trying
      → find_candidate s.slots ≡ some c
      → ltb 0 c.tries_remaining ≡ true
      → offer e none s
        ≡ (returned (admitted (rule_if e Phase.trying Phase.armed Guard.tries_remain)), s)
  unfolding offer resolve index
  offer-failure_retry f h k t = ground arith

  pub offer-failure_exhausted :
      is_failure e ≡ true
      → s.phase ≡ Phase.trying
      → find_candidate s.slots ≡ some c
      → ltb 0 c.tries_remaining ≡ false
      → offer e none s
        ≡ (returned (admitted (rule_if e Phase.trying Phase.refused Guard.tries_exhausted)), s)
  unfolding offer resolve index
  offer-failure_exhausted f h k t = ground arith
