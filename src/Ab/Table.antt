-- ===== src/Ab/Table.antt =====
-- TRANSITION_TABLE and _INDEX of ab_update_machine.py: the legal edges, each with its guard's name.
use sourceos_boot.Base.{ℕ, Bool, Option, none, some, List, [], ◌∷◌, ◌==◌, ◌&&◌, select, any}
use sourceos_boot.Ab.Types.{Phase, phase_eq}

pub data Event : Type 0 where
  begin write_complete write_failed arm boot_attempt probe_pass probe_fail : Event
  watchdog_expired operator_abort : Event

abbrev event_code : Event → ℕ
event_code Event.begin = 0
event_code Event.write_complete = 1
event_code Event.write_failed = 2
event_code Event.arm = 3
event_code Event.boot_attempt = 4
event_code Event.probe_pass = 5
event_code Event.probe_fail = 6
event_code Event.watchdog_expired = 7
event_code Event.operator_abort = 8

abbrev pub event_eq : Event → Event → Bool
event_eq d e = event_code d == event_code e

pub data Guard : Type 0 where
  digest_matches digest_mismatch tries_remain tries_exhausted : Guard

-- TransitionRule
pub record TransitionRule : Type 0 where
  pub event : Event
  pub from_phase : Phase
  pub to_phase : Phase
  pub guard : Option Guard

abbrev pub rule : Event → Phase → Phase → TransitionRule
rule e p q = record { event = e; from_phase = p; to_phase = q; guard = none }

abbrev pub rule_if : Event → Phase → Phase → Guard → TransitionRule
rule_if e p q g = record { event = e; from_phase = p; to_phase = q; guard = some g }

abbrev pub transition_table : List TransitionRule
transition_table =
    rule Event.begin Phase.idle Phase.writing
    ∷ rule_if Event.write_complete Phase.writing Phase.candidate_ready Guard.digest_matches
    ∷ rule_if Event.write_complete Phase.writing Phase.rolled_back Guard.digest_mismatch
    ∷ rule Event.write_failed Phase.writing Phase.rolled_back
    ∷ rule Event.arm Phase.candidate_ready Phase.armed
    ∷ rule Event.boot_attempt Phase.armed Phase.trying
    ∷ rule Event.probe_pass Phase.trying Phase.promoted
    ∷ rule_if Event.probe_fail Phase.trying Phase.armed Guard.tries_remain
    ∷ rule_if Event.probe_fail Phase.trying Phase.refused Guard.tries_exhausted
    ∷ rule_if Event.watchdog_expired Phase.trying Phase.armed Guard.tries_remain
    ∷ rule_if Event.watchdog_expired Phase.trying Phase.refused Guard.tries_exhausted
    ∷ rule Event.operator_abort Phase.writing Phase.rolled_back
    ∷ rule Event.operator_abort Phase.candidate_ready Phase.rolled_back
    ∷ rule Event.operator_abort Phase.armed Phase.rolled_back
    ∷ rule Event.operator_abort Phase.trying Phase.rolled_back
    ∷ []

-- `_INDEX.get((phase, event), [])`: the rules of that key, in the table's order.
unfoldable pub index : Phase → Event → List TransitionRule
index p e = select (λ r. phase_eq r.from_phase p && event_eq r.event e) transition_table

-- a row of the table leads from `p` to `q` by the event `e`
abbrev pub follows : Event → Phase → Phase → Bool
follows e p q =
    any (λ r. event_eq r.event e && phase_eq r.from_phase p && phase_eq r.to_phase q)
      transition_table
