-- ===== src/Cli/Drills.antt =====
-- What the two commands of `ab-update` print, from the files on.
use sourceos_boot.Base.{String, Bool, true, false, ◌≡◌, ◌≢◌, Option, some, List, All}
use sourceos_boot.Result.{Result, ok, err}
use sourceos_boot.Ab.Types.{Label, other, SlotPhase, Phase, Settlement, slot_at}
use sourceos_boot.Ab.Machine.{AbUpdateMachine, returned, TransitionResult}
use sourceos_boot.Ab.Events
use sourceos_boot.Ab.Guarantees.{SettledOn}
use sourceos_boot.Ab.Invariant.{Retained}
use sourceos_boot.Ab.Documents.{to_slot_documents}
use sourceos_boot.Ab.Renderings.{Documented, Conforms}
use sourceos_boot.Cli.Probe.{CliError, no_transaction}
use sourceos_boot.Cli.AbUpdate.{ReplayOutput, PlanOutput}
use Prim.Native.Char.{Char}

-- A replay from slot `g` on: it does not execute, the good slot keeps its payload, a settled end
-- leaves a slot to run, the transaction document says so, and the slot documents conform.
pub record IsDrill (is_alnum : Char → Bool) (g : Label) (m t : AbUpdateMachine)
    (log : List TransitionResult) (out : ReplayOutput) : Type 0 where
  pub not_idle : t.phase ≢ Phase.idle
  pub is_inert : out.execute ≡ false
  pub final : out.final_phase ≡ t.phase
  pub logged : out.transitions ≡ log
  pub retained : Retained (slot_at m.slots g) (slot_at t.slots g)
  pub settled : SettledOn out.final_phase g t
  pub documented : Documented g (slot_at m.slots g) t (some out.transaction)
  pub rendered : out.slots ≡ to_slot_documents is_alnum t
  pub conforming : All Conforms out.slots

-- What the command answers: the drill, or the raise of a machine that no event has opened.
abbrev pub Answers :
    (Char → Bool)
    → Label
    → AbUpdateMachine
    → AbUpdateMachine
    → List TransitionResult
    → Result CliError ReplayOutput
    → Type 0
Answers is_alnum g m t log (ok out) = IsDrill is_alnum g m t log out
Answers is_alnum g m t log (err e) = (e ≡ no_transaction) × (t.phase ≡ Phase.idle)

-- From `m` to `t` slot `g` is left as it is, and the other one is being written with a payload.
pub record IsWritten (g : Label) (digest : String) (ref ver : Option String) (m t : AbUpdateMachine)
    : Type 0 where
  pub untouched : slot_at t.slots g ≡ slot_at m.slots g
  pub target_state : (slot_at t.slots (other g)).state ≡ SlotPhase.writing
  pub target_digest : (slot_at t.slots (other g)).payload_digest ≡ some digest
  pub target_ref : (slot_at t.slots (other g)).payload_ref ≡ ref
  pub target_version : (slot_at t.slots (other g)).version ≡ ver

-- A plan that keeps slot `g`: it does not execute, `begin` was allowed and opened the transaction
-- that it shows, and the other slot is being written with the payload.
pub record IsPlanFor (is_alnum : Char → Bool) (g : Label) (digest : String)
    (ref ver : Option String) (m t : AbUpdateMachine) (out : PlanOutput) : Type 0 where
  pub result : TransitionResult
  pub opened : Events.begin digest ref ver m ≡ (returned result, t)
  pub is_allowed : result.allowed ≡ true
  pub is_inert : out.execute ≡ false
  pub preserves : out.preserved_slot ≡ some g
  pub writes : out.write_target ≡ some (other g)
  pub written : IsWritten g digest ref ver m t
  pub candidate : out.transaction.candidate_payload_digest ≡ digest
  pub pending : out.transaction.outcome ≡ Settlement.pending
  pub documented : Documented g (slot_at m.slots g) t (some out.transaction)
  pub rendered : out.planned_slots ≡ to_slot_documents is_alnum t
  pub conforming : All Conforms out.planned_slots
