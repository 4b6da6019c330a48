-- ===== src/Ab/Progress.antt =====
-- A legal event of an open transaction is admitted, keeps the invariant and uses up potential.
use sourceos_boot.Base.{
  ℕ, ◌≡◌, refl, ◌+◌, ◌*◌, ◌<◌, ◌≢◌, String, Bool-cases, inl, inr, true, arith, ltb, str_eq,
}
use sourceos_boot.Ab.Types.{
  Label, slot_a, slot_b, other, Phase, SlotState, slot_at, AttemptResult, RollbackReason,
}
use sourceos_boot.Ab.Table.{Event, follows}
use sourceos_boot.Ab.Machine.{AbUpdateMachine, Outcome, returned, raised, TransitionResult}
use sourceos_boot.Ab.Admission.{is_abortable, is_failure}
use sourceos_boot.Ab.Behaviour
use sourceos_boot.Ab.Keeps
use sourceos_boot.Ab.Watchdog
use sourceos_boot.Ab.Effects.{verified, armed, booted, retried, aborted, zeroed}
use sourceos_boot.Ab.Events.{write_complete, fail_attempt, probe_fail, watchdog_expired}
use sourceos_boot.Ab.Commands.{Command, event_of, perform, is_known}
use sourceos_boot.Ab.Invariant.{Opened}
use sourceos_boot.Ab.Steps.{is_legal}

-- A bound on the events that can still be admitted, for an attempt budget `k` and `t` tries left.
abbrev pub potential_at : Phase → ℕ → ℕ → ℕ
potential_at Phase.idle k t = k * 2 + 3
potential_at Phase.writing k t = k * 2 + 2
potential_at Phase.candidate_ready k t = k * 2 + 1
potential_at Phase.armed k t = t * 2
potential_at Phase.trying k t = t * 2 + 1
potential_at _ k t = 0

abbrev pub potential : Label → AbUpdateMachine → ℕ
potential g s = potential_at s.phase s.max_attempts (slot_at s.slots (other g)).tries_remaining

-- The call was admitted: the machine that it left has the invariant and less potential, and its
-- phase was reached along a row of the transition table.
abbrev pub Advances :
    Label
    → SlotState
    → AbUpdateMachine
    → Event
    → Outcome TransitionResult × AbUpdateMachine
    → Type 0
Advances g was s v (returned r, s') =
    (r.allowed ≡ true)
    × Opened g was s'
    × (potential g s' < potential g s)
    × (s'.max_attempts ≡ s.max_attempts)
    × (follows v s.phase s'.phase ≡ true)
Advances g was s v (raised e, s') = ⊥

module _ (s : AbUpdateMachine) where
  verified-potential :
      (g : Label) → s.phase ≡ Phase.writing → potential g (verified g s) < potential g s
  verified-potential g e = ground arith

  armed-potential :
      (g : Label) → s.phase ≡ Phase.candidate_ready → potential g (armed g s) < potential g s
  armed-potential slot_a e = ground arith
  armed-potential slot_b e = ground arith

  booted-potential :
      {was : SlotState} (g : Label)
      → s.phase ≡ Phase.armed
      → Opened g was s
      → potential g (booted g s) < potential g s
  booted-potential slot_a e h = ground arith
  booted-potential slot_b e h = ground arith

  retried-potential :
      (g : Label) (r : AttemptResult) (why : String)
      → s.phase ≡ Phase.trying
      → potential g (retried g r why s) < potential g s
  retried-potential slot_a r why e = ground arith
  retried-potential slot_b r why e = ground arith

  aborted-max : (g : Label) (why : String) → (aborted g why s).max_attempts ≡ s.max_attempts
  aborted-max g why = ground arith

  settled-potential :
      {was : SlotState} (g : Label)
      → is_abortable s.phase ≡ true
      → Opened g was s
      → 0 < potential g s
  settled-potential slot_a e h = ground arith
  settled-potential slot_b e h = ground arith

module _ {was : SlotState} (s : AbUpdateMachine) (g : Label) (h : Opened g was s) where
  fail_attempt-Advances :
      (v : Event) (r : AttemptResult) (why : String)
      → is_failure v ≡ true
      → s.phase ≡ Phase.trying
      → Advances g was s v (fail_attempt v r why s)
  fail_attempt-Advances v r why f e =
      elim (Bool-cases (ltb 0 (slot_at s.slots (other g)).tries_remaining)) [
        | inl t ↦ rw (Behaviour.fail_attempt_retry s g v r why f e t h) (
          refl,
          Keeps.retried-Opened s g r why e t h,
          retried-potential s g r why e,
          refl,
          rw e (ground arith),
        )
        | inr t ↦ rw (Behaviour.fail_attempt-exhausted s g v r why f e t h) (
          refl,
          Keeps.exhausted-Opened s g r why e h,
          settled-potential s g (rw e) h,
          refl,
          rw e (ground arith),
        )
      ]

  watchdog_expired-Advances :
      (why action : String)
      → is_known (Command.watchdog_expired why action) ≡ true
      → s.phase ≡ Phase.trying
      → Advances g was s Event.watchdog_expired (watchdog_expired why action s)
  watchdog_expired-Advances why action k e =
      elim (Bool-cases (str_eq action "reboot-to-fallback")) [
        | inl f ↦ rw (Watchdog.watchdog_expired-fallback s why action g f e h) (
          refl,
          Keeps.exhausted-Opened (zeroed g s) g AttemptResult.watchdog_expired why e
              (Keeps.zeroed-Opened s g e h),
          settled-potential s g (rw e) h,
          refl,
          rw e refl,
        )
        | inr f ↦
            rw (Watchdog.watchdog_expired-reboot s why action k (rw f)) (
              fail_attempt-Advances Event.watchdog_expired AttemptResult.watchdog_expired why refl
                e)
      ]

  write_complete-Advances :
      (d : String)
      → s.phase ≡ Phase.writing
      → Advances g was s Event.write_complete (write_complete d s)
  write_complete-Advances d e = elim (Bool-cases (str_eq d s.candidate_digest)) [
    | inl k ↦
        rw (Behaviour.write_complete_match s g d e k h)
          (refl, Keeps.verified-Opened s g e h, verified-potential s g e, refl, rw e refl)
    | inr k ↦ rw (Behaviour.write_complete_mismatch s g d e k h) (
      refl,
      Keeps.dropped-Opened s g RollbackReason.digest_mismatch e h,
      settled-potential s g (rw e) h,
      refl,
      rw e refl,
    )
  ]

  perform_legal :
      (c : Command)
      → is_known c ≡ true
      → (p : Phase) → s.phase ≡ p
      → is_legal p (event_of c) ≡ true
      → (p ≢ Phase.idle)
      → Advances g was s (event_of c) (perform c s)
  unfolding perform probe_fail
  perform_legal (Command.begin d r v) k Phase.idle e l n = absurd (n refl)
  perform_legal (Command.write_complete d) k Phase.writing e l n = write_complete-Advances d e
  perform_legal (Command.write_failed w) k Phase.writing e l n =
      rw (Behaviour.write_failed_lem s g w e h) (
        refl,
        Keeps.dropped-Opened s g RollbackReason.write_failed e h,
        settled-potential s g (rw e) h,
        refl,
        rw e refl,
      )
  perform_legal Command.arm k Phase.candidate_ready e l n =
      rw (Behaviour.arm_lem s g e h)
        (refl, Keeps.armed-Opened s g e h, armed-potential s g e, refl, rw e refl)
  perform_legal Command.boot_attempt k Phase.armed e l n =
      rw (Behaviour.boot_attempt_lem s g e h)
        (refl, Keeps.booted-Opened s g e h, booted-potential s g e h, refl, rw e refl)
  perform_legal (Command.probe_pass w) k Phase.trying e l n =
      rw (Behaviour.probe_pass_lem s g w e h)
        (refl, Keeps.promoted-Opened s g w e h, settled-potential s g (rw e) h, refl, rw e refl)
  perform_legal (Command.probe_fail w) k Phase.trying e l n =
      fail_attempt-Advances Event.probe_fail AttemptResult.probe_failed w refl e
  perform_legal (Command.watchdog_expired w a) k Phase.trying e l n =
      watchdog_expired-Advances w a k e
  perform_legal (Command.operator_abort w) k p e l n =
      let ab : is_abortable s.phase ≡ true = rw e (ground arith) in
      rw (Behaviour.operator_abort_lem s g w ab h) (
        refl,
        Keeps.aborted-Opened s g w ab h,
        settled-potential s g ab h,
        aborted-max s g w,
        ground (arith, ab),
      )
  perform_legal c k p e l n = cc

  -- In an open transaction, a legal event whose expiry action is known is admitted along a row of the
  -- table, keeps the invariant and max_attempts, and leaves less potential than there was.
  pub perform-Advances :
      (c : Command)
      → is_known c ≡ true
      → is_legal s.phase (event_of c) ≡ true
      → Advances g was s (event_of c) (perform c s)
  perform-Advances c k l =
      perform_legal c k s.phase refl l (λ idle. absurd (ground (arith, h.stage)))
