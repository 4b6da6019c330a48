-- ===== src/Ab/Behaviour.antt =====
-- Each event of an open transaction returns, with the effect that Effects.antt names.
use sourceos_boot.Base.{
  ◌≡◌, refl, Bool-cases, inl, inr, String, Option, none, some, true, false, not, ◌+◌, arith, ltb,
  length, str_eq,
}
use sourceos_boot.Ab.Types.{
  Label, slot_a, slot_b, other, Phase, SlotState, slot_at, AttemptResult, RollbackReason, phase_eq,
}
use sourceos_boot.Ab.Table.{Event}
use sourceos_boot.Ab.Machine.{
  AbUpdateMachine, returned, TransitionResult, Reason, find_candidate, candidate_armed,
  digest_verified, digest_differs, stays_on, attempt_of, slot_promoted, budget_exhausted, fell_back,
  returned_to,
}
use sourceos_boot.Ab.Admission
use sourceos_boot.Ab.Admission.{is_abortable, is_failure}
use sourceos_boot.Ab.Effects.{
  entry, noted, given_up, settled, failed, exchanged, abort_noted, verified, armed, booted,
  promoted, retried, exhausted, dropped, aborted,
}
use sourceos_boot.Ab.Events.{
  record_attempt, mark_candidate_unbootable, settle, arm, write_complete, write_failed,
  boot_attempt, probe_pass, fail_attempt, operator_abort,
}
use sourceos_boot.Ab.Invariant.{Opened, assert_invariants-Opened}
use sourceos_boot.Ab.Keeps
use sourceos_boot.Ab.Keeps.{length-snoc}

-- what the machine reports of an admitted event
abbrev pub report : Event → Phase → Phase → Reason → Option Label → TransitionResult
report e p q why back = record {
  allowed = true;
  event = e;
  from_phase = p;
  to_phase = q;
  reason = why;
  fell_back_to = back;
}

pub find_candidate-other :
    {was : SlotState} (g : Label) (s : AbUpdateMachine)
    → phase_eq s.phase Phase.promoted ≡ false
    → Opened g was s
    → find_candidate s.slots ≡ some (slot_at s.slots (other g))
find_candidate-other slot_a s e h = ground arith
find_candidate-other slot_b s e h = ground arith

record_attempt_lem :
    (g : Label) (s : AbUpdateMachine) (r : AttemptResult) (back : Option Label)
    (why : Option String)
    → find_candidate s.slots ≡ some (slot_at s.slots (other g))
    → record_attempt r back why s ≡ (returned tt, noted g r back why s)
unfolding record_attempt
record_attempt_lem g s r back why e = ground arith

mark_lem :
    (g : Label) (s : AbUpdateMachine)
    → s.from_slot ≡ some g
    → s.to_slot ≡ some (other g)
    → (slot_at s.slots g).currently_running ≡ not (slot_at s.slots (other g)).currently_running
    → mark_candidate_unbootable s ≡ (returned tt, given_up g s)
unfolding mark_candidate_unbootable
mark_lem slot_a s f t r = ground arith
mark_lem slot_b s f t r = ground arith

settle_lem :
    {was : SlotState} (g : Label) (s : AbUpdateMachine) (p : Phase) (r : Option RollbackReason)
    → Opened g was (settled p r s)
    → settle p r s ≡ (returned tt, settled p r s)
unfolding settle
settle_lem {was} g s p r h = ground (arith, assert_invariants-Opened g was (settled p r s) h)

module _ {was : SlotState} (s : AbUpdateMachine) where
  pub arm_lem :
      (g : Label)
      → s.phase ≡ Phase.candidate_ready
      → Opened g was s
      → arm s ≡ (
        returned (
            report Event.arm Phase.candidate_ready Phase.armed
              (candidate_armed s.max_attempts)
              none),
        armed g s,
      )
  unfolding arm
  arm_lem g e h = ground (
    arith,
    Admission.offer-arm s e,
    assert_invariants-Opened g was (armed g s) (Keeps.armed-Opened s g e h),
  )

  pub write_complete_match :
      (g : Label) (d : String)
      → s.phase ≡ Phase.writing
      → str_eq d s.candidate_digest ≡ true
      → Opened g was s
      → write_complete d s ≡ (
        returned
            (report Event.write_complete Phase.writing Phase.candidate_ready digest_verified none),
        verified g s,
      )
  unfolding write_complete
  write_complete_match g d e k h = ground (
    arith,
    Admission.offer-write_complete_match s d e k,
    assert_invariants-Opened g was (verified g s) (Keeps.verified-Opened s g e h),
  )

  pub write_complete_mismatch :
      (g : Label) (d : String)
      → s.phase ≡ Phase.writing
      → str_eq d s.candidate_digest ≡ false
      → Opened g was s
      → write_complete d s ≡ (
        returned (
            report Event.write_complete Phase.writing Phase.rolled_back
              (digest_differs s.candidate_digest d (some g))
              (some g)),
        dropped g RollbackReason.digest_mismatch s,
      )
  unfolding write_complete
  write_complete_mismatch g d e k h = ground (
    arith,
    Admission.offer-write_complete_mismatch s d e k,
    mark_lem g s h.from_good h.to_other h.one_running,
    settle_lem g (given_up g s) Phase.rolled_back (some RollbackReason.digest_mismatch)
        (Keeps.dropped-Opened s g RollbackReason.digest_mismatch e h),
  )

  pub write_failed_lem :
      (g : Label) (why : String)
      → s.phase ≡ Phase.writing
      → Opened g was s
      → write_failed why s ≡ (
        returned (
            report Event.write_failed Phase.writing Phase.rolled_back
              (stays_on why (some g))
              (some g)),
        dropped g RollbackReason.write_failed s,
      )
  unfolding write_failed
  write_failed_lem g why e h = ground (
    arith,
    Admission.offer-write_failed s e,
    mark_lem g s h.from_good h.to_other h.one_running,
    settle_lem g (given_up g s) Phase.rolled_back (some RollbackReason.write_failed)
        (Keeps.dropped-Opened s g RollbackReason.write_failed e h),
  )

  pub boot_attempt_lem :
      (g : Label)
      → s.phase ≡ Phase.armed
      → Opened g was s
      → boot_attempt s ≡ (
        returned (
            report Event.boot_attempt Phase.armed Phase.trying
              (attempt_of (length s.attempts + 1) s.max_attempts)
              none),
        booted g s,
      )
  unfolding boot_attempt
  boot_attempt_lem slot_a e h = ground (
    arith,
    Admission.offer-boot_attempt s e,
    find_candidate-other slot_a s (rw e) h,
    assert_invariants-Opened slot_a was (booted slot_a s) (Keeps.booted-Opened s slot_a e h),
  )
  boot_attempt_lem slot_b e h = ground (
    arith,
    Admission.offer-boot_attempt s e,
    find_candidate-other slot_b s (rw e) h,
    assert_invariants-Opened slot_b was (booted slot_b s) (Keeps.booted-Opened s slot_b e h),
  )

  pub probe_pass_lem :
      (g : Label) (why : Option String)
      → s.phase ≡ Phase.trying
      → Opened g was s
      → probe_pass why s ≡ (
        returned (
            report Event.probe_pass Phase.trying Phase.promoted
              (slot_promoted (some (other g)) (some g))
              none),
        promoted g why s,
      )
  unfolding probe_pass
  probe_pass_lem slot_a why e h = ground (
    arith,
    Admission.offer-probe_pass s e,
    record_attempt_lem slot_a s AttemptResult.pass none why
        (find_candidate-other slot_a s (rw e) h),
    settle_lem slot_a (exchanged slot_a why s) Phase.promoted none
        (Keeps.promoted-Opened s slot_a why e h),
  )
  probe_pass_lem slot_b why e h = ground (
    arith,
    Admission.offer-probe_pass s e,
    record_attempt_lem slot_b s AttemptResult.pass none why
        (find_candidate-other slot_b s (rw e) h),
    settle_lem slot_b (exchanged slot_b why s) Phase.promoted none
        (Keeps.promoted-Opened s slot_b why e h),
  )

  pub operator_abort_lem :
      (g : Label) (why : String)
      → is_abortable s.phase ≡ true
      → Opened g was s
      → operator_abort why s ≡ (
        returned (
            report Event.operator_abort s.phase Phase.rolled_back
              (returned_to why (some g))
              (some g)),
        aborted g why s,
      )
  unfolding operator_abort
  operator_abort_lem g why e h = elim (Bool-cases (phase_eq s.phase Phase.trying)) [
    | inl now ↦ ground (
      arith,
      Admission.offer-operator_abort s s.phase refl e,
      record_attempt_lem g s AttemptResult.aborted (some g) (some why)
          (find_candidate-other g s (ground arith) h),
      mark_lem g (noted g AttemptResult.aborted (some g) (some why) s) h.from_good h.to_other
          h.one_running,
      settle_lem g (given_up g (abort_noted g why s)) Phase.rolled_back
          (some RollbackReason.operator_abort) (Keeps.aborted-Opened s g why e h),
    )
    | inr before ↦ ground (
      arith,
      Admission.offer-operator_abort s s.phase refl e,
      mark_lem g s h.from_good h.to_other h.one_running,
      settle_lem g (given_up g (abort_noted g why s)) Phase.rolled_back
          (some RollbackReason.operator_abort) (Keeps.aborted-Opened s g why e h),
    )
  ]

  -- On trial, in an open transaction whose candidate has a try left, a failure event returns an
  -- admission from trying to armed that names the fallback as the running slot, and leaves the
  -- machine that `retried` describes.
  pub fail_attempt_retry :
      (g : Label) (v : Event) (r : AttemptResult) (why : String)
      → is_failure v ≡ true
      → s.phase ≡ Phase.trying
      → ltb 0 (slot_at s.slots (other g)).tries_remaining ≡ true
      → Opened g was s
      → fail_attempt v r why s ≡ (
        returned (
            report v Phase.trying Phase.armed
              (fell_back why (some g) (slot_at s.slots (other g)).tries_remaining)
              (some g)),
        retried g r why s,
      )
  unfolding fail_attempt
  fail_attempt_retry slot_a v r why f e t h = ground (
    arith,
    Admission.offer-failure_retry v s (slot_at s.slots slot_b) f e
        (find_candidate-other slot_a s (rw e) h) t,
    record_attempt_lem slot_a s r (some slot_a) (some why) (find_candidate-other slot_a s (rw e) h),
    assert_invariants-Opened slot_a was (retried slot_a r why s)
        (Keeps.retried-Opened s slot_a r why e t h),
    find_candidate-other slot_a (retried slot_a r why s) refl
        (Keeps.retried-Opened s slot_a r why e t h),
  )
  fail_attempt_retry slot_b v r why f e t h = ground (
    arith,
    Admission.offer-failure_retry v s (slot_at s.slots slot_a) f e
        (find_candidate-other slot_b s (rw e) h) t,
    record_attempt_lem slot_b s r (some slot_b) (some why) (find_candidate-other slot_b s (rw e) h),
    assert_invariants-Opened slot_b was (retried slot_b r why s)
        (Keeps.retried-Opened s slot_b r why e t h),
    find_candidate-other slot_b (retried slot_b r why s) refl
        (Keeps.retried-Opened s slot_b r why e t h),
  )

  pub fail_attempt-exhausted :
      (g : Label) (v : Event) (r : AttemptResult) (why : String)
      → is_failure v ≡ true
      → s.phase ≡ Phase.trying
      → ltb 0 (slot_at s.slots (other g)).tries_remaining ≡ false
      → Opened g was s
      → fail_attempt v r why s ≡ (
        returned (
            report v Phase.trying Phase.refused
              (budget_exhausted why (length s.attempts + 1) (some g))
              (some g)),
        exhausted g r why s,
      )
  unfolding fail_attempt
  fail_attempt-exhausted slot_a v r why f e t h = ground (
    arith,
    Admission.offer-failure_exhausted v s (slot_at s.slots slot_b) f e
        (find_candidate-other slot_a s (rw e) h) t,
    record_attempt_lem slot_a s r (some slot_a) (some why) (find_candidate-other slot_a s (rw e) h),
    mark_lem slot_a (failed slot_a r why s) h.from_good h.to_other refl,
    settle_lem slot_a (given_up slot_a (failed slot_a r why s)) Phase.refused
        (some RollbackReason.attempts_exhausted) (Keeps.exhausted-Opened s slot_a r why e h),
    length-snoc s.attempts (entry slot_a r (some slot_a) (some why) s),
  )
  fail_attempt-exhausted slot_b v r why f e t h = ground (
    arith,
    Admission.offer-failure_exhausted v s (slot_at s.slots slot_a) f e
        (find_candidate-other slot_b s (rw e) h) t,
    record_attempt_lem slot_b s r (some slot_b) (some why) (find_candidate-other slot_b s (rw e) h),
    mark_lem slot_b (failed slot_b r why s) h.from_good h.to_other refl,
    settle_lem slot_b (given_up slot_b (failed slot_b r why s)) Phase.refused
        (some RollbackReason.attempts_exhausted) (Keeps.exhausted-Opened s slot_b r why e h),
    length-snoc s.attempts (entry slot_b r (some slot_b) (some why) s),
  )
