-- ===== src/Ab/Effects.antt =====
-- What the events write, as functions of the state: each is the net effect of one method, or of one
-- of the helpers that the methods share, on a transaction whose fallback slot is `g`.
use sourceos_boot.Base.{
  String, Option, none, some, [], ◌∷◌, ◌++◌, ◌+◌, ◌-◌, true, false, length, if◌then◌else◌,
}
use sourceos_boot.Ab.Types.{
  Label, other, Role, SlotPhase, Phase, phase_eq, SlotState, slot_at, put_slot, AttemptResult,
  AttemptRecord, RollbackReason,
}
use sourceos_boot.Ab.Machine.{AbUpdateMachine}
use sourceos_boot.Ab.Events.{or_empty}

abbrev pub change : Label → (SlotState → SlotState) → AbUpdateMachine → AbUpdateMachine
change l f s = record s { slots = put_slot s.slots l (f (slot_at s.slots l)) }

-- the next entry of the list of attempts
abbrev pub entry :
    Label → AttemptResult → Option Label → Option String → AbUpdateMachine → AttemptRecord
entry g outcome back why s = record {
  attempt_number = length s.attempts + 1;
  started_at = s.clock s.ticks;
  result = outcome;
  fell_back_to = back;
  tries_remaining_after = (slot_at s.slots (other g)).tries_remaining;
  detail = why;
}

abbrev pub noted :
    Label → AttemptResult → Option Label → Option String → AbUpdateMachine → AbUpdateMachine
noted g outcome back why s = record s {
  ticks = s.ticks + 1;
  attempts = s.attempts ++ entry g outcome back why s ∷ [];
}

-- the candidate cannot be booted, and the fallback runs at the ceiling
abbrev pub given_up : Label → AbUpdateMachine → AbUpdateMachine
given_up g s =
    change g (λ x. record x { boot_priority = 15; currently_running = true })
      (change (other g)
        (λ x. record x {
          state = SlotPhase.unbootable;
          boot_priority = 0;
          tries_remaining = 0;
          successful = false;
          currently_running = false;
        })
        s)

abbrev pub settled : Phase → Option RollbackReason → AbUpdateMachine → AbUpdateMachine
settled p reason s = record s {
  phase = p;
  rollback_reason = reason;
  settled_at = some (s.clock s.ticks);
  ticks = s.ticks + 1;
}

abbrev pub begun :
    Label → String → Option String → Option String → AbUpdateMachine → AbUpdateMachine
begun g digest ref ver s =
    record (change (other g)
      (λ x. record x {
        state = SlotPhase.writing;
        successful = false;
        payload_digest = some digest;
        payload_ref = ref;
        version = ver;
        last_probe_verdict = none;
      })
      s) {
        from_slot = some g;
        to_slot = some (other g);
        preserved_digest = or_empty (slot_at s.slots g).payload_digest;
        candidate_digest = digest;
        opened_at = some (s.clock s.ticks);
        ticks = s.ticks + 1;
        phase = Phase.writing;
      }

abbrev pub verified : Label → AbUpdateMachine → AbUpdateMachine
verified g s = record (change (other g) (λ x. record x { state = SlotPhase.written }) s) {
  phase = Phase.candidate_ready;
}

abbrev pub armed : Label → AbUpdateMachine → AbUpdateMachine
armed g s =
    record (change (other g)
      (λ x. record x { boot_priority = 15; tries_remaining = s.max_attempts; successful = false })
      (change g (λ x. record x { boot_priority = 14 }) s)) { phase = Phase.armed }

abbrev pub booted : Label → AbUpdateMachine → AbUpdateMachine
booted g s =
    record (change g (λ x. record x { currently_running = false })
      (change (other g)
        (λ x. record x {
          tries_remaining = x.tries_remaining - 1;
          state = SlotPhase.trying;
          currently_running = true;
        })
        s)) { phase = Phase.trying }

-- the slots after a passing probe, before the transaction settles
abbrev pub exchanged : Label → Option String → AbUpdateMachine → AbUpdateMachine
exchanged g why s =
    change g (λ x. record x { role = Role.candidate; boot_priority = 14 })
      (change (other g)
        (λ x. record x {
          role = Role.active;
          state = SlotPhase.good;
          successful = true;
          boot_priority = 15;
          tries_remaining = 0;
          last_probe_verdict = some "pass";
        })
        (noted g AttemptResult.pass none why s))

abbrev pub promoted : Label → Option String → AbUpdateMachine → AbUpdateMachine
promoted g why s = settled Phase.promoted none (exchanged g why s)

-- a failed attempt, before it is known whether one is left: the target runs the fallback again
abbrev pub failed : Label → AttemptResult → String → AbUpdateMachine → AbUpdateMachine
failed g outcome why s =
    change g (λ x. record x { currently_running = true })
      (change (other g)
        (λ x. record x {
          currently_running = false;
          state = SlotPhase.written;
          last_probe_verdict = some "fail";
        })
        (noted g outcome (some g) (some why) s))

abbrev pub retried : Label → AttemptResult → String → AbUpdateMachine → AbUpdateMachine
retried g outcome why s = record (failed g outcome why s) { phase = Phase.armed }

abbrev pub exhausted : Label → AttemptResult → String → AbUpdateMachine → AbUpdateMachine
exhausted g outcome why s =
    settled Phase.refused (some RollbackReason.attempts_exhausted)
      (given_up g (failed g outcome why s))

-- a transaction that ends before a boot
abbrev pub dropped : Label → RollbackReason → AbUpdateMachine → AbUpdateMachine
dropped g reason s = settled Phase.rolled_back (some reason) (given_up g s)

-- an abort: the attempt is recorded where one was running
abbrev pub abort_noted : Label → String → AbUpdateMachine → AbUpdateMachine
abort_noted g why s =
    if phase_eq s.phase Phase.trying then noted g AttemptResult.aborted (some g) (some why) s else s

abbrev pub aborted : Label → String → AbUpdateMachine → AbUpdateMachine
aborted g why s = dropped g RollbackReason.operator_abort (abort_noted g why s)

-- a watchdog that falls back at once leaves no attempt
abbrev pub zeroed : Label → AbUpdateMachine → AbUpdateMachine
zeroed g = change (other g) (λ x. record x { tries_remaining = 0 })
