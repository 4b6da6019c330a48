-- ===== src/Cli/AbUpdate.antt =====
-- `_load_ab_update_machine`, `ab_update_plan` and `ab_update_replay` of cli.py. The slot documents and
-- the events are arguments, `none` where the file does not hold a list.
use sourceos_boot.Base.{ℕ, String, Bool, false, not, Option, List, if◌then◌else◌}
use sourceos_boot.Json.{Json, get, as_text, as_dict, is_text, Hashing}
use sourceos_boot.Result.{Result, ok, err, ◌>>=◌, ◌>>◌, guard, or_raise}
use sourceos_boot.Ab.Types.{Label, Phase}
use sourceos_boot.Ab.Machine.{AbUpdateMachine, returned, raised, TransitionResult, Reason}
use sourceos_boot.Ab.Events
use sourceos_boot.Ab.Documents.{
  TransactionDocument, to_transaction_document, SlotDocument, to_slot_documents,
}
use sourceos_boot.Ab.Restart.{Restored, built, machine_from_slot_documents}
use sourceos_boot.Ab.Restart
use sourceos_boot.Cli.Probe.{
  CliError, not_an_object, slots_not_an_array, events_not_an_array, stale_definition_digest,
  no_probe_id, machine_fault, no_transaction, probe_definition_digest,
}
use sourceos_boot.Cli.Probe
use sourceos_boot.Cli.Events.{RecordedEvent, lifted, run_events}
use Prim.Native.Char.{Char}

-- the arguments that the two commands share
pub record AbArguments : Type 0 where
  pub slots : Option (List SlotDocument)
  pub probe : Json
  pub transaction_id : String
  pub max_attempts : ℕ

-- the raise of a constructor
abbrev pub from_restored : Restored → Result CliError AbUpdateMachine
from_restored (built (returned m)) = ok m
from_restored (built (raised f)) = err (machine_fault f)
from_restored Restart.not_two_documents = err Probe.not_two_documents
from_restored Restart.mixed_targets = err Probe.mixed_targets

-- what `ab_update_replay` prints
pub record ReplayOutput : Type 0 where
  pub execute : Bool
  pub final_phase : Phase
  pub transitions : List TransitionResult
  pub transaction : TransactionDocument
  pub slots : List SlotDocument

-- what `ab_update_plan` prints
pub record PlanOutput : Type 0 where
  pub execute : Bool
  pub preserved_slot : Option Label
  pub write_target : Option Label
  pub transaction : TransactionDocument
  pub planned_slots : List SlotDocument

-- `ab_update_plan` prints its plan, or the reason why the machine refuses it.
pub data PlanAnswer : Type 0 where
  planned : PlanOutput → PlanAnswer
  declined : Reason → PlanAnswer

-- what the command returns, or `main` for a raise
abbrev pub plan_code : Result CliError PlanAnswer → ℕ
plan_code (ok (planned o)) = 0
plan_code (ok (declined w)) = 2
plan_code (err e) = 2

module _ (hashing : Hashing) (clock : ℕ → String) (args : AbArguments) where
  -- _load_ab_update_machine
  unfoldable pub load_ab_update_machine : Result CliError AbUpdateMachine
  load_ab_update_machine = do
    slot_docs ← or_raise args.slots slots_not_an_array
    probe ← or_raise (as_dict args.probe) not_an_object
    recomputed ← probe_definition_digest hashing probe
    guard (is_text recomputed (get probe "definitionDigest")) stale_definition_digest
    id ← or_raise (as_text (get probe "id")) no_probe_id
    from_restored (
        machine_from_slot_documents args.transaction_id id recomputed args.max_attempts clock
          slot_docs)

  module _ (is_alnum : Char → Bool) where
    -- what is printed once `begin` is allowed
    abbrev pub plan_output : AbUpdateMachine → TransactionDocument → PlanOutput
    plan_output m doc = record {
      execute = false;
      preserved_slot = m.from_slot;
      write_target = m.to_slot;
      transaction = doc;
      planned_slots = to_slot_documents is_alnum m;
    }

    -- `to_transaction_document` raises on an idle machine
    abbrev pub answered : TransitionResult × AbUpdateMachine → Result CliError PlanAnswer
    answered (r, m) =
        if not r.allowed
        then ok (declined r.reason)
        else (or_raise (to_transaction_document m) no_transaction
            >>= (λ doc. ok (planned (plan_output m doc))))

    -- ab_update_plan
    unfoldable pub ab_update_plan :
        String → Option String → Option String → Result CliError PlanAnswer
    ab_update_plan payload_digest payload_ref version = do
      machine ← load_ab_update_machine
      after ← lifted (Events.begin payload_digest payload_ref version machine)
      answered after

    abbrev pub replay_output :
        List TransitionResult × AbUpdateMachine → TransactionDocument → ReplayOutput
    replay_output (log, m) doc = record {
      execute = false;
      final_phase = m.phase;
      transitions = log;
      transaction = doc;
      slots = to_slot_documents is_alnum m;
    }

    -- ab_update_replay; a machine that is still idle has no document, and then nothing is printed
    unfoldable pub ab_update_replay : Option (List RecordedEvent) → Result CliError ReplayOutput
    ab_update_replay events = do
      machine ← load_ab_update_machine
      listed ← or_raise events events_not_an_array
      after ← run_events 0 listed machine
      doc ← or_raise (to_transaction_document after.1) no_transaction
      ok (replay_output after doc)
