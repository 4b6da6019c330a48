-- ===== src/Cli/Tests.antt =====
-- A pair of slot documents, a pinned probe and two recorded updates, and each theorem there.
use sourceos_boot.Base.{
  ◌≡◌, refl, ℕ, String, Bool, true, false, none, some, List, [], ◌∷◌, pos, leb, ◌&&◌,
}
use sourceos_boot.Json.{Json, Dict, get, has_key, object, array, as_dict, Hashing}
use sourceos_boot.Result.{ok, err}
use sourceos_boot.Ab.Types.{slot_a, slot_b, Role, SlotPhase, Phase}
use sourceos_boot.Ab.Machine.{AbUpdateMachine}
use sourceos_boot.Ab.Construct.{construct}
use sourceos_boot.Ab.Commands.{Command}
use sourceos_boot.Ab.Documents.{SlotDocument, slot_from_document, to_transaction_document}
use sourceos_boot.Ab.Restart.{machine_from_slot_documents}
use sourceos_boot.Cli.Probe.{
  stale_definition_digest, no_transaction, probe_incomplete, unknown_event, missing_field,
  missing_of, core_of, probe_definition_digest,
}
use sourceos_boot.Cli.Events.{RecordedEvent, command_named, command_of, commands_of, run_events}
use sourceos_boot.Cli.AbUpdate.{AbArguments, load_ab_update_machine, ab_update_replay}
use sourceos_boot.Cli.Loaded.{IsPinned, load_ab_update_machine-IsPinned}
use Prim.Native.Char.{Char, code}

abbrev is_letter : Char → Bool
is_letter c = leb 97 (code c) && leb (code c) 122

abbrev hashing : Hashing
hashing = record { dumps = λ v. "{}"; sha256_hex = λ s. "2e06" }

abbrev clock : ℕ → String
clock n = "2026-07-29T00:00:00Z"

abbrev probe : Dict
probe =
    ("id", Json.str "urn:srcos:update-health-probe:v1")
    ∷ ("definitionDigest", Json.str "sha256:2e06")
    ∷ ("evaluatedIn", Json.str "post-boot-userspace")
    ∷ ("onProbeUnavailable", Json.str "fail")
    ∷ ("timeoutSeconds", Json.int (pos 180))
    ∷ ("minConsecutivePasses", Json.int (pos 2))
    ∷ ("checks", array [])
    ∷ ("watchdogs", array [])
    ∷ []

abbrev active_document : SlotDocument
active_document = record {
  id = "urn:srcos:update-slot:node_a";
  target_ref = "urn:srcos:node:x";
  slot = slot_a;
  role = Role.active;
  state = SlotPhase.good;
  boot_priority = 15;
  tries_remaining = 0;
  successful = true;
  currently_running = true;
  payload_digest = some "sha256:old";
  payload_ref = some "oci://old";
  version = some "1";
  last_probe_verdict = none;
}

abbrev spare_document : SlotDocument
spare_document = record active_document {
  id = "urn:srcos:update-slot:node_b";
  slot = slot_b;
  role = Role.candidate;
  state = SlotPhase.empty;
  boot_priority = 0;
  successful = false;
  currently_running = false;
  payload_digest = none;
  payload_ref = none;
}

abbrev arguments : AbArguments
arguments = record {
  slots = some (active_document ∷ spare_document ∷ []);
  probe = object probe;
  transaction_id = "urn:srcos:update-transaction:t";
  max_attempts = 2;
}

abbrev machine : AbUpdateMachine
machine = record {
  target_ref = "urn:srcos:node:x";
  transaction_id = "urn:srcos:update-transaction:t";
  slots = record {
    a_first = true;
    at_a = slot_from_document active_document;
    at_b = slot_from_document spare_document;
  };
  health_probe_ref = "urn:srcos:update-health-probe:v1";
  health_probe_digest = "sha256:2e06";
  max_attempts = 2;
  clock = clock;
  ticks = 0;
  phase = Phase.idle;
  from_slot = none;
  to_slot = none;
  preserved_digest = "";
  candidate_digest = "";
  attempts = [];
  rollback_reason = none;
  opened_at = none;
  settled_at = none;
}

loaded : load_ab_update_machine hashing clock arguments ≡ ok machine
unfolding load_ab_update_machine probe_definition_digest missing_of core_of get has_key
    machine_from_slot_documents construct slot_from_document
loaded = refl

edited :
    load_ab_update_machine (record hashing { sha256_hex = λ s. "ffff" }) clock arguments
    ≡ err stale_definition_digest
unfolding load_ab_update_machine probe_definition_digest missing_of core_of get has_key
edited = refl

incomplete :
    load_ab_update_machine hashing clock (record arguments { probe = object [] })
    ≡ err (
        probe_incomplete (
          "checks" ∷ "evaluatedIn" ∷ "minConsecutivePasses" ∷ "onProbeUnavailable"
          ∷ "timeoutSeconds" ∷ "watchdogs" ∷ []))
unfolding load_ab_update_machine probe_definition_digest missing_of core_of get has_key
incomplete = refl

abbrev named : String → RecordedEvent
named name = record {
  event = some name;
  payload_digest = none;
  payload_ref = none;
  version = none;
  observed_digest = none;
  detail = none;
  expiry_action = none;
}

-- an update whose candidate is refused by its watchdog
abbrev events : List RecordedEvent
events =
    record (named "begin") { payload_digest = some "sha256:new" }
    ∷ record (named "write_complete") {
      payload_digest = some "sha256:new";
      observed_digest = some "";
    }
    ∷ named "arm"
    ∷ named "boot_attempt"
    ∷ named "probe_fail"
    ∷ record (named "watchdog_expired") { expiry_action = some "reboot-to-fallback" }
    ∷ []

abbrev commands : List Command
commands =
    Command.begin "sha256:new" none none
    ∷ Command.write_complete "sha256:new"
    ∷ Command.arm
    ∷ Command.boot_attempt
    ∷ Command.probe_fail "health probe failed"
    ∷ Command.watchdog_expired "watchdog expired" "reboot-to-fallback"
    ∷ []

unknown : commands_of 0 (named "arm" ∷ named "reboot" ∷ []) ≡ err (unknown_event 1)
unfolding commands_of command_of command_named
unknown = refl

no_digest : commands_of 0 (named "begin" ∷ []) ≡ err (missing_field 0)
unfolding commands_of command_of command_named
no_digest = refl

load_ab_update_machine-IsPinned_example :
    (d : Dict) × (as_dict (object probe) ≡ some d) × IsPinned hashing d machine
load_ab_update_machine-IsPinned_example =
    load_ab_update_machine-IsPinned hashing clock arguments machine loaded

-- no event has opened a transaction, so there is no document to print
nothing_replayed : ab_update_replay hashing clock arguments is_letter (some []) ≡ err no_transaction
unfolding ab_update_replay run_events to_transaction_document
nothing_replayed = rw loaded refl
