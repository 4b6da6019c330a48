-- ===== src/Ab/Tests.antt =====
-- Runs of the machine on a target with slot A active, and each theorem at such a run.
use sourceos_boot.Base.{
  Bool, leb, ◌&&◌, ◌⊎◌, All, ◌≡◌, refl, ◌+◌, ◌*◌, ◌≤◌, none, some, List, [], ◌∷◌, true, false,
  arith, length, map,
}
use sourceos_boot.Ab.Documents.{to_transaction_document, to_slot_documents, slot_from_document}
use sourceos_boot.Ab.Renderings.{
  HasProperTexts, Documented, Conforms, slot_from_document-to_slot_documents, replay_documents,
  replay_slot_documents,
}
use sourceos_boot.Ab.Restart.{built, machine_from_slot_documents, machine_from_slot_documents-Ready}
use sourceos_boot.Ab.Urn.{local}
use Prim.Native.Char.{Char, code}
use sourceos_boot.Ab.Types.{
  Label, slot_a, slot_b, Role, SlotPhase, Phase, phase_eq, SlotState, slot_at, AttemptResult,
}
use sourceos_boot.Ab.Table.{Event, index}
use sourceos_boot.Ab.Machine.{
  AbUpdateMachine, returned, terminal_phase, illegal_event, budget_exhausted,
}
use sourceos_boot.Ab.Admission.{refusal}
use sourceos_boot.Ab.Behaviour.{report}
use sourceos_boot.Ab.Checks.{invariant_fault, assert_invariants, offer, resolve}
use sourceos_boot.Ab.Construct.{construct}
use sourceos_boot.Ab.Widths.{Within}
use sourceos_boot.Ab.Bounds.{replay-Within}
use sourceos_boot.Ab.Checked.{Checked, perform-Checked}
use sourceos_boot.Ab.Commands.{Command, event_of, perform, replay, accepted}
use sourceos_boot.Ab.Effects.{aborted, begun, exhausted, zeroed, verified, armed, booted}
use sourceos_boot.Ab.Keeps.{aborted-Opened, verified-Opened, armed-Opened, booted-Opened}
use sourceos_boot.Ab.Replays.{AllKnown}
use sourceos_boot.Ab.Endings.{
  replay_terminal, operator_abort-Selected, replay_promotes_by_probe_pass,
}
use sourceos_boot.Ab.Events
use sourceos_boot.Ab.Guarantees.{
  Returns, Selected, SettledOn, Ranked, replay_keeps_good_slot, replay_bounded, replay_settles,
  replay_ranks,
}
use sourceos_boot.Ab.Invariant.{Opened, Retained}
use sourceos_boot.Ab.Opening.{Ready, begun-Opened}
use sourceos_boot.Ab.Progress.{Advances, perform-Advances}
use sourceos_boot.Ab.Steps.{perform-refused}
use sourceos_boot.Ab.Watchdog.{watchdog_expired-fallback}

abbrev good_slot : SlotState
good_slot = record {
  slot = slot_a;
  role = Role.active;
  state = SlotPhase.good;
  boot_priority = 15;
  tries_remaining = 0;
  successful = true;
  currently_running = true;
  payload_digest = some "sha256:old";
  payload_ref = some "oci://old";
  version = some "1";
  last_probe_verdict = none;
}

abbrev spare_slot : SlotState
spare_slot = record good_slot {
  slot = slot_b;
  role = Role.candidate;
  state = SlotPhase.empty;
  boot_priority = 0;
  successful = false;
  currently_running = false;
  payload_digest = none;
}

abbrev machine : AbUpdateMachine
machine = record {
  target_ref = "urn:srcos:node:x";
  transaction_id = "urn:srcos:update-transaction:t";
  slots = record { a_first = true; at_a = good_slot; at_b = spare_slot };
  health_probe_ref = "urn:srcos:probe:p";
  health_probe_digest = "sha256:p";
  max_attempts = 2;
  clock = λ n. "now";
  ticks = 0;
  phase = Phase.idle;
  from_slot = none;
  to_slot = none;
  preserved_digest = "";
  candidate_digest = "";
  attempts = [];
  rollback_reason = none;
  opened_at = none;
  settled_at = none;
}

machine-Ready : Ready slot_a machine
machine-Ready = record {
  is_idle = refl;
  not_opened = refl;
  no_attempts = refl;
  good_active = refl;
  other_candidate = refl;
  good_label = refl;
  other_label = refl;
  good_successful = refl;
  good_not_written = refl;
  good_bootable = refl;
  good_digest = ("sha256:old", refl);
  one_running = refl;
  some_attempt = omega arith;
}

abbrev write : List Command → List Command
write rest =
    Command.begin "sha256:new" none (some "2")
    ∷ Command.write_complete "sha256:new"
    ∷ Command.arm
    ∷ Command.boot_attempt
    ∷ rest

-- two failed boots, and an event too many
abbrev drill : List Command
drill = write (
    Command.probe_fail "no network"
    ∷ Command.boot_attempt
    ∷ Command.watchdog_expired "hang" "reboot"
    ∷ Command.arm
    ∷ [])

abbrev promotion : List Command
promotion = write (Command.probe_pass none ∷ [])

drill_refused : (replay drill machine).1.phase ≡ Phase.refused
unfolding replay perform Events.begin Events.write_complete Events.arm Events.boot_attempt
    Events.probe_fail Events.watchdog_expired Events.fail_attempt offer resolve index
    assert_invariants invariant_fault Events.record_attempt Events.mark_candidate_unbootable
    Events.settle
drill_refused = refl

drill_attempts : length (replay drill machine).1.attempts ≡ 2
unfolding replay perform Events.begin Events.write_complete Events.arm Events.boot_attempt
    Events.probe_fail Events.watchdog_expired Events.fail_attempt offer resolve index
    assert_invariants invariant_fault Events.record_attempt Events.mark_candidate_unbootable
    Events.settle
drill_attempts = refl

promotion_promotes : (replay promotion machine).1.phase ≡ Phase.promoted
unfolding replay perform Events.begin Events.write_complete Events.arm Events.boot_attempt
    Events.probe_pass offer resolve index assert_invariants invariant_fault Events.record_attempt
    Events.settle
promotion_promotes = refl

drill-AllKnown : AllKnown drill
drill-AllKnown = (refl, (refl, (refl, (refl, (refl, (refl, (refl, (refl, tt))))))))

promotion-AllKnown : AllKnown promotion
promotion-AllKnown = (refl, (refl, (refl, (refl, (refl, tt)))))

replay_keeps_good_slot_example :
    Returns (λ log s'. Retained good_slot (slot_at s'.slots slot_a)) (replay promotion machine)
replay_keeps_good_slot_example =
    replay_keeps_good_slot slot_a machine promotion machine-Ready promotion-AllKnown

replay_settles_example : Returns (λ log s'. SettledOn s'.phase slot_a s') (replay drill machine)
replay_settles_example = replay_settles slot_a machine drill machine-Ready drill-AllKnown

replay_bounded_example :
    Returns (λ log s'. (accepted log ≤ 2 * 2 + 3) × (length s'.attempts ≤ 2)) (replay drill machine)
replay_bounded_example = replay_bounded slot_a machine drill machine-Ready drill-AllKnown

replay_promotes_by_probe_pass_example :
    Returns (λ log s'. phase_eq s'.phase Phase.promoted ≡ false) (replay drill machine)
replay_promotes_by_probe_pass_example =
    replay_promotes_by_probe_pass slot_a machine drill machine-Ready drill-AllKnown refl

replay_ranks_example : Returns (λ log s'. Ranked s'.phase slot_a s') (replay (write []) machine)
replay_ranks_example =
    replay_ranks slot_a machine (write []) machine-Ready (refl, (refl, (refl, (refl, tt))))

perform-Checked_example : Checked (perform Command.arm machine)
perform-Checked_example = perform-Checked Command.arm machine

abbrev ended : AbUpdateMachine
ended = record machine { phase = Phase.refused }

replay_terminal_example :
    replay drill ended
    ≡ (returned (map (λ c. refusal (event_of c) (terminal_phase Phase.refused) ended) drill), ended)
replay_terminal_example = replay_terminal drill ended refl drill-AllKnown

perform-refused_example :
    perform Command.arm machine
    ≡ (returned (refusal Event.arm (illegal_event Event.arm Phase.idle) machine), machine)
perform-refused_example = perform-refused Command.arm machine refl refl

abbrev opened : AbUpdateMachine
opened = begun slot_a "sha256:new" none none machine

opened-Opened : Opened slot_a good_slot opened
opened-Opened = begun-Opened machine "sha256:new" none none slot_a machine-Ready

perform-Advances_example :
    Advances slot_a good_slot opened Event.write_failed
      (perform (Command.write_failed "disk") opened)
perform-Advances_example =
    perform-Advances opened slot_a opened-Opened (Command.write_failed "disk") refl refl

operator_abort-Selected_example :
    Returns
      (λ r s'. (r.allowed ≡ true) × (s'.phase ≡ Phase.rolled_back) × Selected slot_a s')
      (Events.operator_abort "stop" opened)
operator_abort-Selected_example = operator_abort-Selected slot_a opened "stop" refl opened-Opened

-- the machine while its candidate boots for the first time
abbrev trial : AbUpdateMachine
trial = booted slot_a (armed slot_a (verified slot_a opened))

trial-Opened : Opened slot_a good_slot trial
trial-Opened = booted-Opened (armed slot_a (verified slot_a opened)) slot_a refl (
    armed-Opened (verified slot_a opened) slot_a refl
      (verified-Opened opened slot_a refl opened-Opened))

watchdog_expired-fallback_example : Events.watchdog_expired "hang" "reboot-to-fallback" trial ≡ (
  returned (
      report Event.watchdog_expired Phase.trying Phase.refused
        (budget_exhausted "hang" 1 (some slot_a))
        (some slot_a)),
  exhausted slot_a AttemptResult.watchdog_expired "hang" (zeroed slot_a trial),
)
watchdog_expired-fallback_example =
    watchdog_expired-fallback trial "hang" "reboot-to-fallback" slot_a refl refl trial-Opened

abbrev is_letter : Char → Bool
is_letter c = leb 97 (code c) && leb (code c) 122

target_urn : local is_letter "urn:srcos:target:lab 7" ≡ "lab__"
unfolding local
target_urn = refl

machine_a-HasProperTexts : HasProperTexts machine.slots.at_a
machine_a-HasProperTexts = record { digest = refl; ref = refl; version = refl; verdict = tt }

machine_b-HasProperTexts : HasProperTexts machine.slots.at_b
machine_b-HasProperTexts = record { digest = tt; ref = refl; version = refl; verdict = tt }

slot_from_document-to_slot_documents_example :
    map slot_from_document (to_slot_documents is_letter machine)
    ≡ machine.slots.at_a ∷ machine.slots.at_b ∷ []
slot_from_document-to_slot_documents_example =
    slot_from_document-to_slot_documents is_letter machine machine_a-HasProperTexts
      machine_b-HasProperTexts

replay_documents_example :
    Returns
      (λ log s'. Documented slot_a good_slot s' (to_transaction_document s'))
      (replay drill machine)
replay_documents_example = replay_documents slot_a machine drill machine-Ready drill-AllKnown

replay_slot_documents_example :
    Returns
      (λ log s'. (s'.phase ≡ Phase.idle) ⊎ All Conforms (to_slot_documents is_letter s'))
      (replay drill machine)
replay_slot_documents_example =
    replay_slot_documents is_letter slot_a machine drill machine-Ready (omega arith) drill-AllKnown

-- the machine after an operator abandoned the write
abbrev abandoned : AbUpdateMachine
abandoned = aborted slot_a "stop" opened

abandoned-Opened : Opened slot_a good_slot abandoned
abandoned-Opened = aborted-Opened opened slot_a "stop" refl opened-Opened

abandoned_a-HasProperTexts : HasProperTexts abandoned.slots.at_a
abandoned_a-HasProperTexts = record { digest = refl; ref = refl; version = refl; verdict = tt }

abandoned_b-HasProperTexts : HasProperTexts abandoned.slots.at_b
abandoned_b-HasProperTexts = record { digest = refl; ref = tt; version = tt; verdict = tt }

machine_from_slot_documents-Ready_example :
    (m : AbUpdateMachine) × (machine_from_slot_documents "urn:srcos:update-transaction:u"
        "urn:srcos:probe:p" "sha256:p" 3
        (λ n. "later")
        (to_slot_documents is_letter abandoned)
      ≡ built (returned m))
    × Ready slot_a m
machine_from_slot_documents-Ready_example =
    machine_from_slot_documents-Ready "urn:srcos:update-transaction:u" "urn:srcos:probe:p"
      "sha256:p" 3 (λ n. "later") is_letter slot_a good_slot abandoned abandoned-Opened refl
      abandoned_a-HasProperTexts abandoned_b-HasProperTexts (omega arith) (omega arith)

abbrev machine_items : List (Label × SlotState)
machine_items = (slot_a, good_slot) ∷ (slot_b, spare_slot) ∷ []

replay-Within_example : Within (replay drill machine).1
unfolding construct
replay-Within_example =
    replay-Within machine.target_ref machine.transaction_id machine_items machine.health_probe_ref
      machine.health_probe_digest 2 machine.clock machine drill refl
      record { priority = omega arith; tries = omega arith }
      record { priority = omega arith; tries = omega arith }
