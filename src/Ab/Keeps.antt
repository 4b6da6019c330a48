-- ===== src/Ab/Keeps.antt =====
-- Each effect of Effects.antt keeps the invariant of an open transaction.
use sourceos_boot.Base.{
  ◌≡◌, String, Option, none, some, true, suc, [], ◌∷◌, ◌++◌, List, length, refl, ap, arith, ltb,
}
use sourceos_boot.Ab.Types.{
  Label, slot_a, slot_b, other, Phase, SlotState, slot_at, AttemptResult, RollbackReason,
}
use sourceos_boot.Ab.Machine.{AbUpdateMachine}
use sourceos_boot.Ab.Admission.{is_abortable}
use sourceos_boot.Ab.Effects.{
  entry, verified, armed, booted, promoted, retried, exhausted, dropped, aborted, zeroed,
}
use sourceos_boot.Ab.Invariant.{Opened}

pub length-snoc {ℓ} : {A : Type ℓ} (xs : List A) (x : A) → length (xs ++ x ∷ []) ≡ suc (length xs)
length-snoc [] x = refl
length-snoc (y ∷ xs) x = ap suc (length-snoc xs x)

module _ {was : SlotState} (s : AbUpdateMachine) where
  pub verified-Opened :
      (g : Label) → s.phase ≡ Phase.writing → Opened g was s → Opened g was (verified g s)
  verified-Opened slot_a e h = ground arith
  verified-Opened slot_b e h = ground arith

  pub armed-Opened :
      (g : Label) → s.phase ≡ Phase.candidate_ready → Opened g was s → Opened g was (armed g s)
  armed-Opened slot_a e h = ground arith
  armed-Opened slot_b e h = ground arith

  pub booted-Opened :
      (g : Label) → s.phase ≡ Phase.armed → Opened g was s → Opened g was (booted g s)
  booted-Opened slot_a e h = ground arith
  booted-Opened slot_b e h = ground arith

  pub promoted-Opened :
      (g : Label) (why : Option String)
      → s.phase ≡ Phase.trying
      → Opened g was s
      → Opened g was (promoted g why s)
  promoted-Opened slot_a why e h =
      ground (arith, length-snoc s.attempts (entry slot_a AttemptResult.pass none why s))
  promoted-Opened slot_b why e h =
      ground (arith, length-snoc s.attempts (entry slot_b AttemptResult.pass none why s))

  pub retried-Opened :
      (g : Label) (r : AttemptResult) (why : String)
      → s.phase ≡ Phase.trying
      → ltb 0 (slot_at s.slots (other g)).tries_remaining ≡ true
      → Opened g was s
      → Opened g was (retried g r why s)
  retried-Opened slot_a r why e t h =
      ground (arith, length-snoc s.attempts (entry slot_a r (some slot_a) (some why) s))
  retried-Opened slot_b r why e t h =
      ground (arith, length-snoc s.attempts (entry slot_b r (some slot_b) (some why) s))

  pub exhausted-Opened :
      (g : Label) (r : AttemptResult) (why : String)
      → s.phase ≡ Phase.trying
      → Opened g was s
      → Opened g was (exhausted g r why s)
  exhausted-Opened slot_a r why e h =
      ground (arith, length-snoc s.attempts (entry slot_a r (some slot_a) (some why) s))
  exhausted-Opened slot_b r why e h =
      ground (arith, length-snoc s.attempts (entry slot_b r (some slot_b) (some why) s))

  pub dropped-Opened :
      (g : Label) (reason : RollbackReason)
      → s.phase ≡ Phase.writing
      → Opened g was s
      → Opened g was (dropped g reason s)
  dropped-Opened slot_a reason e h = ground arith
  dropped-Opened slot_b reason e h = ground arith

  pub aborted-Opened :
      (g : Label) (why : String)
      → is_abortable s.phase ≡ true
      → Opened g was s
      → Opened g was (aborted g why s)
  aborted-Opened slot_a why e h = ground (
    arith,
    length-snoc s.attempts (entry slot_a AttemptResult.aborted (some slot_a) (some why) s),
  )
  aborted-Opened slot_b why e h = ground (
    arith,
    length-snoc s.attempts (entry slot_b AttemptResult.aborted (some slot_b) (some why) s),
  )

  pub zeroed-Opened :
      (g : Label) → s.phase ≡ Phase.trying → Opened g was s → Opened g was (zeroed g s)
  zeroed-Opened slot_a e h = ground arith
  zeroed-Opened slot_b e h = ground arith
