-- ===== src/Cli/Events.antt =====
-- The recorded events of a replay, with the defaults of `_AB_UPDATE_EVENTS` in cli.py. A field of an
-- event is a text or absent.
use sourceos_boot.Base.{ℕ, suc, String, Option, none, some, List, [], ◌∷◌, str_eq, if◌then◌else◌}
use sourceos_boot.Result.{Result, ok, err, ◌>>=◌, or_raise}
use sourceos_boot.Ab.Machine.{AbUpdateMachine, Outcome, returned, raised, TransitionResult}
use sourceos_boot.Ab.Commands.{Command, perform}
use sourceos_boot.Ab.Documents.{if_truthy}
use sourceos_boot.Cli.Probe.{CliError, machine_fault, unknown_event, missing_field}

pub record RecordedEvent : Type 0 where
  pub event : Option String
  pub payload_digest : Option String
  pub payload_ref : Option String
  pub version : Option String
  pub observed_digest : Option String
  pub detail : Option String
  pub expiry_action : Option String

-- `e.get(key, default)`
abbrev pub text_or : String → Option String → String
text_or default none = default
text_or default (some s) = s

-- `a or b`
abbrev or_else : Option String → Option String → Option String
or_else none b = b
or_else (some a) b = some a

-- `_AB_UPDATE_EVENTS.get(name)`, applied to the event
unfoldable pub command_named : ℕ → String → RecordedEvent → Result CliError Command
command_named index name e =
    if str_eq name "begin"
    then (or_raise e.payload_digest (missing_field index)
        >>= (λ digest. ok (Command.begin digest e.payload_ref e.version)))
    else if str_eq name "write_complete"
    then (or_raise (or_else (if_truthy e.observed_digest) e.payload_digest) (missing_field index)
        >>= (λ digest. ok (Command.write_complete digest)))
    else if str_eq name "write_failed"
    then ok (Command.write_failed (text_or "write failed" e.detail))
    else if str_eq name "arm"
    then ok Command.arm
    else if str_eq name "boot_attempt"
    then ok Command.boot_attempt
    else if str_eq name "probe_pass"
    then ok (Command.probe_pass e.detail)
    else if str_eq name "probe_fail"
    then ok (Command.probe_fail (text_or "health probe failed" e.detail))
    else if str_eq name "watchdog_expired"
    then ok (
        Command.watchdog_expired (text_or "watchdog expired" e.detail)
          (text_or "reboot" e.expiry_action))
    else if str_eq name "operator_abort"
    then ok (Command.operator_abort (text_or "aborted by operator" e.detail))
    else err (unknown_event index)

-- the handler that an event names
unfoldable pub command_of : ℕ → RecordedEvent → Result CliError Command
command_of index e = or_raise e.event (unknown_event index) >>= λ name. command_named index name e

-- what a method call gives, or the raise that ends the command
abbrev pub lifted :
    {A : Type 0} → Outcome A × AbUpdateMachine → Result CliError (A × AbUpdateMachine)
lifted (returned a, s) = ok (a, s)
lifted (raised f, s) = err (machine_fault f)

-- the loop of `ab_update_replay`, from an index on
unfoldable pub run_events :
    ℕ
    → List RecordedEvent
    → AbUpdateMachine
    → Result CliError (List TransitionResult × AbUpdateMachine)
run_events index [] s = ok ([], s)
run_events index (e ∷ es) s = do
  command ← command_of index e
  after ← lifted (perform command s)
  later ← run_events (suc index) es after.1
  ok (after.0 ∷ later.0, later.1)

-- the commands that a list of events stands for
unfoldable pub commands_of : ℕ → List RecordedEvent → Result CliError (List Command)
commands_of index [] = ok []
commands_of index (e ∷ es) = do
  command ← command_of index e
  commands ← commands_of (suc index) es
  ok (command ∷ commands)
