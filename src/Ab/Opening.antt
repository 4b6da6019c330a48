-- ===== src/Ab/Opening.antt =====
-- `begin`: which machines it opens, and that the write target is derived from the roles.
use sourceos_boot.Base.{◌≡◌, String, Option, [], none, some, true, false, not, ◌≤◌, arith}
use sourceos_boot.Ab.Types.{Label, slot_a, slot_b, other, Role, Phase, slot_at}
use sourceos_boot.Ab.Table.{Event}
use sourceos_boot.Ab.Machine.{
  AbUpdateMachine, returned, find_active, find_candidate, writing_candidate,
}
use sourceos_boot.Ab.Checks.{is_writing, is_unbootable}
use sourceos_boot.Ab.Admission
use sourceos_boot.Ab.Behaviour.{report}
use sourceos_boot.Ab.Effects.{begun}
use sourceos_boot.Ab.Events.{begin}
use sourceos_boot.Ab.Invariant.{Opened, assert_invariants-Opened}

-- A machine that no event has reached, with slot `g` active and fit to fall back to. The constructor
-- checks the roles, the labels, `successful` and `max_attempts`; it does not check that the active
-- slot has a digest and is neither being written nor unbootable, nor that one slot is running.
pub record Ready (g : Label) (s : AbUpdateMachine) : Type 0 where
  pub is_idle : s.phase ≡ Phase.idle
  pub not_opened : s.from_slot ≡ none
  pub no_attempts : s.attempts ≡ []
  pub good_active : (slot_at s.slots g).role ≡ Role.active
  pub other_candidate : (slot_at s.slots (other g)).role ≡ Role.candidate
  pub good_label : (slot_at s.slots g).slot ≡ g
  pub other_label : (slot_at s.slots (other g)).slot ≡ other g
  pub good_successful : (slot_at s.slots g).successful ≡ true
  pub good_not_written : is_writing (slot_at s.slots g).state ≡ false
  pub good_bootable : is_unbootable (slot_at s.slots g).state ≡ false
  pub good_digest : (d : String) × ((slot_at s.slots g).payload_digest ≡ some d)
  pub one_running :
      (slot_at s.slots g).currently_running ≡ not (slot_at s.slots (other g)).currently_running
  pub some_attempt : 1 ≤ s.max_attempts

find_active-Ready :
    (g : Label) (s : AbUpdateMachine) → Ready g s → find_active s.slots ≡ some (slot_at s.slots g)
find_active-Ready slot_a s h = ground arith
find_active-Ready slot_b s h = ground arith

find_candidate-Ready :
    (g : Label) (s : AbUpdateMachine)
    → Ready g s
    → find_candidate s.slots ≡ some (slot_at s.slots (other g))
find_candidate-Ready slot_a s h = ground arith
find_candidate-Ready slot_b s h = ground arith

module _ (s : AbUpdateMachine) (digest : String) (ref ver : Option String) where
  pub begun-Opened :
      (g : Label) → Ready g s → Opened g (slot_at s.slots g) (begun g digest ref ver s)
  begun-Opened slot_a h = ground arith
  begun-Opened slot_b h = ground arith

  -- On a ready machine `begin` returns an admission from idle to writing, whose result names the
  -- other slot as the one to write, and leaves the machine that `begun` describes.
  pub begin_lem :
      (g : Label)
      → Ready g s
      → begin digest ref ver s ≡ (
        returned
            (report Event.begin Phase.idle Phase.writing (writing_candidate (some (other g))) none),
        begun g digest ref ver s,
      )
  unfolding begin
  begin_lem slot_a h = ground (
    arith,
    Admission.offer-begin s h.is_idle,
    find_active-Ready slot_a s h,
    find_candidate-Ready slot_a s h,
    assert_invariants-Opened slot_a (slot_at s.slots slot_a) (begun slot_a digest ref ver s)
        (begun-Opened slot_a h),
  )
  begin_lem slot_b h = ground (
    arith,
    Admission.offer-begin s h.is_idle,
    find_active-Ready slot_b s h,
    find_candidate-Ready slot_b s h,
    assert_invariants-Opened slot_b (slot_at s.slots slot_b) (begun slot_b digest ref ver s)
        (begun-Opened slot_b h),
  )
