-- ===== src/Ab/Documents.antt =====
-- The contract documents of ab_update_machine.py: `to_transaction_document`, `to_slot_documents`,
-- `slot_from_document`. A document is a record of the keys that vary; an optional one is `none` where
-- the dict has no such key.
use sourceos_boot.Base.{
  ℕ, String, Bool, Option, none, some, List, [], ◌∷◌, map, if◌then◌else◌, truthy,
}
use sourceos_boot.Ab.Types.{
  Label, slot_a, slot_b, Role, SlotPhase, Phase, phase_eq, is_terminal, Settlement,
  phase_to_outcome, RollbackReason, SlotState, slot_at, AttemptResult, AttemptRecord,
}
use sourceos_boot.Ab.Machine.{AbUpdateMachine}
use sourceos_boot.Ab.Urn.{local}
use Prim.Native.Char.{Char}
use Prim.Native.String.{◌++◌}

-- `if x: doc[key] = x`
abbrev pub if_truthy : Option String → Option String
if_truthy x = if truthy x then x else none

-- what AttemptRecord.to_dict gives
pub record AttemptDocument : Type 0 where
  pub attempt_number : ℕ
  pub started_at : String
  pub result : AttemptResult
  pub fell_back_to : Option Label
  pub tries_remaining_after : ℕ
  pub detail : Option String

-- AttemptRecord.to_dict
unfoldable pub to_attempt_document : AttemptRecord → AttemptDocument
to_attempt_document x = record {
  attempt_number = x.attempt_number;
  started_at = x.started_at;
  result = x.result;
  fell_back_to = x.fell_back_to;
  tries_remaining_after = x.tries_remaining_after;
  detail = if_truthy x.detail;
}

-- an UpdateTransaction document
pub record TransactionDocument : Type 0 where
  pub id : String
  pub target_ref : String
  pub from_slot : Option Label
  pub to_slot : Option Label
  pub preserved_payload_digest : String
  pub candidate_payload_digest : String
  pub health_probe_ref : String
  pub health_probe_digest : String
  pub max_attempts : ℕ
  pub outcome : Settlement
  pub rollback_reason : Option RollbackReason
  pub opened_at : Option String
  pub settled_at : Option String
  pub settled_on_slot : Option Label
  pub attempts : List AttemptDocument

-- the slot that a settled transaction names
abbrev settled_label : AbUpdateMachine → Option Label
settled_label s = if phase_eq s.phase Phase.promoted then s.to_slot else s.from_slot

-- to_transaction_document; `none` is the InvariantViolation of an idle machine
unfoldable pub to_transaction_document : AbUpdateMachine → Option TransactionDocument
to_transaction_document s =
    let settled = is_terminal s.phase in
    if phase_eq s.phase Phase.idle
    then none
    else some (record {
      id = s.transaction_id;
      target_ref = s.target_ref;
      from_slot = s.from_slot;
      to_slot = s.to_slot;
      preserved_payload_digest = s.preserved_digest;
      candidate_payload_digest = s.candidate_digest;
      health_probe_ref = s.health_probe_ref;
      health_probe_digest = s.health_probe_digest;
      max_attempts = s.max_attempts;
      outcome = phase_to_outcome s.phase;
      rollback_reason = s.rollback_reason;
      opened_at = s.opened_at;
      settled_at = (if settled then s.settled_at else none);
      settled_on_slot = (if settled then settled_label s else none);
      attempts = map to_attempt_document s.attempts;
    })

-- an UpdateSlot document
pub record SlotDocument : Type 0 where
  pub id : String
  pub target_ref : String
  pub slot : Label
  pub role : Role
  pub state : SlotPhase
  pub boot_priority : ℕ
  pub tries_remaining : ℕ
  pub successful : Bool
  pub currently_running : Bool
  pub payload_digest : Option String
  pub payload_ref : Option String
  pub version : Option String
  pub last_probe_verdict : Option String

-- `label.lower()`
abbrev lower : Label → String
lower slot_a = "a"
lower slot_b = "b"

module _ (is_alnum : Char → Bool) where
  unfoldable pub to_slot_document : AbUpdateMachine → Label → SlotDocument
  to_slot_document s l =
      let x = slot_at s.slots l in
      record {
        id = "urn:srcos:update-slot:" ++ (local is_alnum s.target_ref ++ ("_" ++ lower l));
        target_ref = s.target_ref;
        slot = x.slot;
        role = x.role;
        state = x.state;
        boot_priority = x.boot_priority;
        tries_remaining = x.tries_remaining;
        successful = x.successful;
        currently_running = x.currently_running;
        payload_digest = if_truthy x.payload_digest;
        payload_ref = if_truthy x.payload_ref;
        version = if_truthy x.version;
        last_probe_verdict = if_truthy x.last_probe_verdict;
      }

  unfoldable pub to_slot_documents : AbUpdateMachine → List SlotDocument
  to_slot_documents s = to_slot_document s slot_a ∷ to_slot_document s slot_b ∷ []

-- slot_from_document
unfoldable pub slot_from_document : SlotDocument → SlotState
slot_from_document doc = record {
  slot = doc.slot;
  role = doc.role;
  state = doc.state;
  boot_priority = doc.boot_priority;
  tries_remaining = doc.tries_remaining;
  successful = doc.successful;
  currently_running = doc.currently_running;
  payload_digest = doc.payload_digest;
  payload_ref = doc.payload_ref;
  version = doc.version;
  last_probe_verdict = doc.last_probe_verdict;
}
