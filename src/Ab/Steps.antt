-- ===== src/Ab/Steps.antt =====
-- One event, whichever it is, on an open transaction.
use sourceos_boot.Base.{
  ◌≡◌, ◌∙◌, inl, inr, String, Bool, Bool-cases, Option, none, some, [], true, false, arith, ◌&&◌,
}
use sourceos_boot.Ab.Types.{Phase, is_terminal, phase_eq}
use sourceos_boot.Ab.Table.{Event, index}
use sourceos_boot.Ab.Machine.{
  AbUpdateMachine, returned, TransitionResult, Reason, terminal_phase, illegal_event,
}
use sourceos_boot.Ab.Checks.{offer, declined}
use sourceos_boot.Ab.Admission
use sourceos_boot.Ab.Admission.{refusal, is_abortable, is_failure}
use sourceos_boot.Ab.Events
use sourceos_boot.Ab.Commands.{Command, event_of, perform, is_known}

-- there is no rule for the event at the phase, or the phase is terminal
abbrev pub is_legal : Phase → Event → Bool
is_legal Phase.idle Event.begin = true
is_legal Phase.writing Event.write_complete = true
is_legal Phase.writing Event.write_failed = true
is_legal Phase.writing Event.operator_abort = true
is_legal Phase.candidate_ready Event.arm = true
is_legal Phase.candidate_ready Event.operator_abort = true
is_legal Phase.armed Event.boot_attempt = true
is_legal Phase.armed Event.operator_abort = true
is_legal Phase.trying Event.probe_pass = true
is_legal Phase.trying Event.probe_fail = true
is_legal Phase.trying Event.watchdog_expired = true
is_legal Phase.trying Event.operator_abort = true
is_legal _ _ = false

abbrev pub why_refused : Phase → Event → Reason
why_refused Phase.promoted e = terminal_phase Phase.promoted
why_refused Phase.rolled_back e = terminal_phase Phase.rolled_back
why_refused Phase.refused e = terminal_phase Phase.refused
why_refused p e = illegal_event e p

index-illegal :
    (p : Phase) (e : Event) → is_legal p e ≡ false → is_terminal p ≡ false → index p e ≡ []
unfolding index
index-illegal p e h t = ground arith

-- A refusal by `_offer` is what the event's method returns.
perform-declined :
    (c : Command) (s : AbUpdateMachine) (r : TransitionResult)
    → is_known c ≡ true
    → phase_eq s.phase Phase.trying && is_failure (event_of c) ≡ false
    → ((observed : Option String) → offer (event_of c) observed s ≡ (returned (declined r), s))
    → perform c s ≡ (returned r, s)
unfolding perform Events.begin Events.write_complete Events.write_failed Events.arm
    Events.boot_attempt Events.probe_pass Events.probe_fail Events.watchdog_expired
    Events.fail_attempt Events.operator_abort
perform-declined (Command.begin d ref v) s r k t h = ground (arith, h none)
perform-declined (Command.write_complete d) s r k t h = ground (arith, h (some d))
perform-declined (Command.write_failed w) s r k t h = ground (arith, h none)
perform-declined Command.arm s r k t h = ground (arith, h none)
perform-declined Command.boot_attempt s r k t h = ground (arith, h none)
perform-declined (Command.probe_pass w) s r k t h = ground (arith, h none)
perform-declined (Command.probe_fail w) s r k t h = ground (arith, h none)
perform-declined (Command.watchdog_expired w a) s r k t h = ground (arith, h none)
perform-declined (Command.operator_abort w) s r k t h = ground (arith, h none)

offer-refused :
    (e : Event) (observed : Option String) (s : AbUpdateMachine)
    → is_legal s.phase e ≡ false
    → offer e observed s ≡ (returned (declined (refusal e (why_refused s.phase e) s)), s)
offer-refused e observed s h = elim (Bool-cases (is_terminal s.phase)) [
  | inl t ↦ Admission.offer-terminal e observed s t ∙ ground arith
  | inr f ↦ Admission.offer-illegal e observed s f (index-illegal s.phase e h f) ∙ ground arith
]

-- A command that the table does not list for the phase, and whose expiry action is known, is refused
-- with the reason that the phase gives, and the machine is as it was.
pub perform-refused :
    (c : Command) (s : AbUpdateMachine)
    → is_known c ≡ true
    → is_legal s.phase (event_of c) ≡ false
    → perform c s ≡ (returned (refusal (event_of c) (why_refused s.phase (event_of c)) s), s)
perform-refused c s k h =
    perform-declined c s _ k (ground arith) (λ observed. offer-refused (event_of c) observed s h)
