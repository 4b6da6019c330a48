-- ===== src/Ab/Restart.antt =====
-- `machine_from_slot_documents` of ab_update_machine.py, and what it gives after a failed update.
use sourceos_boot.Base.{
  ℕ, ◌≡◌, ◌≤◌, arith, String, Bool, true, false, List, [], ◌∷◌, eq_iff, str_eq, if◌then◌else◌,
}
use sourceos_boot.Ab.Types.{Label, slot_a, slot_b, label_eq, Phase, SlotState}
use sourceos_boot.Ab.Machine.{AbUpdateMachine, Outcome, returned}
use sourceos_boot.Ab.Construct.{construct, fresh}
use sourceos_boot.Ab.Documents.{
  SlotDocument, to_slot_document, to_slot_documents, slot_from_document,
}
use sourceos_boot.Ab.Invariant.{Opened}
use sourceos_boot.Ab.Opening.{Ready}
use sourceos_boot.Ab.Renderings.{HasProperTexts, slot_from_document-to_slot_document}
use Prim.Native.Char.{Char}

-- the constructor's outcome, or a ValueError before it
pub data Restored : Type 0 where
  built : Outcome AbUpdateMachine → Restored
  not_two_documents mixed_targets : Restored

-- `{d["slot"]: slot_from_document(d) for d in docs}`: the last document of a label counts
abbrev keyed : SlotDocument → SlotDocument → List (Label × SlotState)
keyed d e =
    if label_eq d.slot e.slot
    then (e.slot, slot_from_document e) ∷ []
    else (d.slot, slot_from_document d) ∷ (e.slot, slot_from_document e) ∷ []

-- a terminal phase other than promoted
abbrev pub is_failed : Phase → Bool
is_failed Phase.rolled_back = true
is_failed Phase.refused = true
is_failed _ = false

module _ (transaction probe digest : String) (budget : ℕ) (clock : ℕ → String) where
  unfoldable pub machine_from_slot_documents : List SlotDocument → Restored
  machine_from_slot_documents (d ∷ e ∷ []) =
      if str_eq d.target_ref e.target_ref
      then built (construct d.target_ref transaction (keyed d e) probe digest budget clock)
      else mixed_targets
  machine_from_slot_documents _ = not_two_documents

  -- the machine that the documents of `s` give
  abbrev restored : AbUpdateMachine → AbUpdateMachine
  restored s =
      fresh s.target_ref transaction ((slot_a, s.slots.at_a) ∷ (slot_b, s.slots.at_b) ∷ []) probe
        digest budget clock (record { a_first = true; at_a = s.slots.at_a; at_b = s.slots.at_b })

  restored-Ready :
      (g : Label) (was : SlotState) (s : AbUpdateMachine)
      → Opened g was s
      → is_failed s.phase ≡ true
      → 1 ≤ budget
      → Ready g (restored s)
  restored-Ready slot_a was s o f k = record {
    is_idle = ground arith;
    not_opened = ground arith;
    no_attempts = ground arith;
    good_active = ground arith;
    other_candidate = ground arith;
    good_label = ground arith;
    other_label = ground arith;
    good_successful = ground arith;
    good_not_written = ground arith;
    good_bootable = ground arith;
    good_digest = (s.preserved_digest, ground arith);
    one_running = ground arith;
    some_attempt = k;
  }
  restored-Ready slot_b was s o f k = record {
    is_idle = ground arith;
    not_opened = ground arith;
    no_attempts = ground arith;
    good_active = ground arith;
    other_candidate = ground arith;
    good_label = ground arith;
    other_label = ground arith;
    good_successful = ground arith;
    good_not_written = ground arith;
    good_bootable = ground arith;
    good_digest = (s.preserved_digest, ground arith);
    one_running = ground arith;
    some_attempt = k;
  }

  machine_from_slot_documents-restored :
      (is_alnum : Char → Bool) (g : Label) (was : SlotState) (s : AbUpdateMachine)
      → Opened g was s
      → is_failed s.phase ≡ true
      → HasProperTexts s.slots.at_a
      → HasProperTexts s.slots.at_b
      → 1 ≤ budget
      → budget ≤ 7
      → machine_from_slot_documents (to_slot_documents is_alnum s) ≡ built (returned (restored s))
  unfolding machine_from_slot_documents construct to_slot_documents to_slot_document
  machine_from_slot_documents-restored is_alnum slot_a was s o f a b k m = ground (
    arith,
    eq_iff s.target_ref s.target_ref,
    slot_from_document-to_slot_document is_alnum s slot_a a,
    slot_from_document-to_slot_document is_alnum s slot_b b,
  )
  machine_from_slot_documents-restored is_alnum slot_b was s o f a b k m = ground (
    arith,
    eq_iff s.target_ref s.target_ref,
    slot_from_document-to_slot_document is_alnum s slot_a a,
    slot_from_document-to_slot_document is_alnum s slot_b b,
  )

  -- After an update that ended rolled back or refused, the slot documents of the machine, none of
  -- whose optional texts is empty, build a new machine with any attempt budget from 1 to 7, and it
  -- is ready for another transaction with the same slot to fall back to.
  pub machine_from_slot_documents-Ready :
      (is_alnum : Char → Bool) (g : Label) (was : SlotState) (s : AbUpdateMachine)
      → Opened g was s
      → is_failed s.phase ≡ true
      → HasProperTexts s.slots.at_a
      → HasProperTexts s.slots.at_b
      → 1 ≤ budget
      → budget ≤ 7
      → (m : AbUpdateMachine) × (machine_from_slot_documents (to_slot_documents is_alnum s)
          ≡ built (returned m))
        × Ready g m
  machine_from_slot_documents-Ready is_alnum g was s o f a b k m = (
    restored s,
    machine_from_slot_documents-restored is_alnum g was s o f a b k m,
    restored-Ready g was s o f k,
  )
