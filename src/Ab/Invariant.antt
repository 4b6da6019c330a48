-- ===== src/Ab/Invariant.antt =====
-- What holds of a machine between two events.
use sourceos_boot.Base.{
  ℕ, suc, true, false, not, none, some, ◌≡◌, ◌+◌, ◌≤◌, ◌||◌, ltb, arith, length, eq_iff,
}
use sourceos_boot.Ab.Types.{
  Label, slot_a, slot_b, other, Role, SlotPhase, SlotState, Phase, slot_at,
}
use sourceos_boot.Ab.Machine.{AbUpdateMachine, returned}
use sourceos_boot.Ab.Checks.{invariant_fault, is_writing, is_unbootable, assert_invariants}

-- What the phase says of the fallback slot, the written slot and the budget: the attempts made and
-- the attempts allowed.
abbrev pub Stage : Phase → SlotState → SlotState → ℕ → ℕ → Type 0
Stage Phase.idle f w n k = ⊥
Stage Phase.writing f w n k =
    (f.role ≡ Role.active) × (w.role ≡ Role.candidate) × (n ≡ 0) × (w.state ≡ SlotPhase.writing)
Stage Phase.candidate_ready f w n k =
    (f.role ≡ Role.active) × (w.role ≡ Role.candidate) × (n ≡ 0) × (w.state ≡ SlotPhase.written)
Stage Phase.armed f w n k =
    (f.role ≡ Role.active)
    × (w.role ≡ Role.candidate)
    × (w.state ≡ SlotPhase.written)
    × (f.boot_priority ≡ 14)
    × (w.boot_priority ≡ 15)
    × (w.successful ≡ false)
    × (1 ≤ w.tries_remaining)
    × (n + w.tries_remaining ≤ k)
Stage Phase.trying f w n k =
    (f.role ≡ Role.active)
    × (w.role ≡ Role.candidate)
    × (w.state ≡ SlotPhase.trying)
    × (f.boot_priority ≡ 14)
    × (w.boot_priority ≡ 15)
    × (w.successful ≡ false)
    × (w.currently_running ≡ true)
    × (suc n + w.tries_remaining ≤ k)
Stage Phase.promoted f w n k =
    (f.role ≡ Role.candidate)
    × (w.role ≡ Role.active)
    × (w.state ≡ SlotPhase.good)
    × (f.boot_priority ≡ 14)
    × (w.boot_priority ≡ 15)
    × (w.successful ≡ true)
    × (w.currently_running ≡ true)
    × (n ≤ k)
Stage _ f w n k =
    (f.role ≡ Role.active)
    × (w.role ≡ Role.candidate)
    × (w.state ≡ SlotPhase.unbootable)
    × (f.boot_priority ≡ 15)
    × (w.boot_priority ≡ 0)
    × (w.successful ≡ false)
    × (f.currently_running ≡ true)
    × (n ≤ k)

-- The slot `now` still holds the payload that `was` held, and is still marked good.
pub record Retained (was now : SlotState) : Type 0 where
  pub same_digest : now.payload_digest ≡ was.payload_digest
  pub same_ref : now.payload_ref ≡ was.payload_ref
  pub same_version : now.version ≡ was.version
  pub same_state : now.state ≡ was.state
  pub still_successful : now.successful ≡ true

-- A transaction that opened with slot `g` active, in the state `was`.
pub record Opened (g : Label) (was : SlotState) (s : AbUpdateMachine) : Type 0 where
  pub from_good : s.from_slot ≡ some g
  pub to_other : s.to_slot ≡ some (other g)
  pub digest_recorded : was.payload_digest ≡ some s.preserved_digest
  pub retained : Retained was (slot_at s.slots g)
  pub good_not_written : is_writing was.state ≡ false
  pub good_bootable : is_unbootable was.state ≡ false
  pub still_ranked :
      (not (ltb 0 was.boot_priority) || ltb 0 (slot_at s.slots g).boot_priority) ≡ true
  pub good_label : (slot_at s.slots g).slot ≡ g
  pub other_label : (slot_at s.slots (other g)).slot ≡ other g
  pub one_running :
      (slot_at s.slots g).currently_running ≡ not (slot_at s.slots (other g)).currently_running
  pub some_attempt : 1 ≤ s.max_attempts
  pub stage :
      Stage s.phase
        (slot_at s.slots g)
        (slot_at s.slots (other g))
        (length s.attempts)
        s.max_attempts

-- `_assert_invariants` finds no fault.
pub invariant_fault-Opened :
    (g : Label) (was : SlotState) (s : AbUpdateMachine) → Opened g was s → invariant_fault s ≡ none
unfolding invariant_fault
invariant_fault-Opened slot_a was s h = ground (arith, eq_iff s.preserved_digest s.preserved_digest)
invariant_fault-Opened slot_b was s h = ground (arith, eq_iff s.preserved_digest s.preserved_digest)

pub assert_invariants-Opened :
    (g : Label) (was : SlotState) (s : AbUpdateMachine)
    → Opened g was s
    → assert_invariants s ≡ (returned tt, s)
unfolding assert_invariants
assert_invariants-Opened g was s h = rw (invariant_fault-Opened g was s h)
