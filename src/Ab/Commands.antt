-- ===== src/Ab/Commands.antt =====
-- The events of a replay with their arguments, the method that each calls, and the loop that offers
-- them in order (the loop of `ab_update_replay` in src/sourceos_boot/cli.py).
use sourceos_boot.Base.{
  ℕ, suc, String, Bool, true, Option, List, [], ◌∷◌, ◌||◌, str_eq, if◌then◌else◌,
}
use sourceos_boot.Ab.Table.{Event}
use sourceos_boot.Ab.Machine.{Action, ◌>>=◌, pure, TransitionResult}
use sourceos_boot.Ab.Events

pub data Command : Type 0 where
  begin : String → Option String → Option String → Command
  write_complete write_failed : String → Command
  arm boot_attempt : Command
  probe_pass : Option String → Command
  probe_fail : String → Command
  watchdog_expired : String → String → Command
  operator_abort : String → Command

-- the event that a command offers
abbrev pub event_of : Command → Event
event_of (Command.begin d r v) = Event.begin
event_of (Command.write_complete d) = Event.write_complete
event_of (Command.write_failed w) = Event.write_failed
event_of Command.arm = Event.arm
event_of Command.boot_attempt = Event.boot_attempt
event_of (Command.probe_pass w) = Event.probe_pass
event_of (Command.probe_fail w) = Event.probe_fail
event_of (Command.watchdog_expired w a) = Event.watchdog_expired
event_of (Command.operator_abort w) = Event.operator_abort

-- `handler(machine, event)`
unfoldable pub perform : Command → Action TransitionResult
perform (Command.begin d r v) = Events.begin d r v
perform (Command.write_complete d) = Events.write_complete d
perform (Command.write_failed w) = Events.write_failed w
perform Command.arm = Events.arm
perform Command.boot_attempt = Events.boot_attempt
perform (Command.probe_pass w) = Events.probe_pass w
perform (Command.probe_fail w) = Events.probe_fail w
perform (Command.watchdog_expired w a) = Events.watchdog_expired w a
perform (Command.operator_abort w) = Events.operator_abort w

-- the loop of `ab_update_replay`: the log of results, which a raise loses
unfoldable pub replay : List Command → Action (List TransitionResult)
replay [] = pure []
replay (c ∷ cs) = let rest = replay cs in do r ← perform c; log ← rest; pure (r ∷ log)

-- `expiry_action` is one of the two that the method accepts
abbrev pub is_known : Command → Bool
is_known (Command.watchdog_expired w a) = str_eq a "reboot" || str_eq a "reboot-to-fallback"
is_known _ = true

-- the number of events that were admitted
abbrev pub accepted : List TransitionResult → ℕ
accepted [] = 0
accepted (r ∷ rs) = let n = accepted rs in if r.allowed then suc n else n
