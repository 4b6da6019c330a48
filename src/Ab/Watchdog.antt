-- ===== src/Ab/Watchdog.antt =====
-- `watchdog_expired` and its two expiry actions.
use sourceos_boot.Base.{
  ◌≡◌, refl, ◌∙◌, ltb, ◌+◌, ◌&&◌, ◌||◌, String, some, true, false, arith, str_eq, length,
}
use sourceos_boot.Ab.Types.{
  Label, slot_a, slot_b, other, Phase, SlotState, slot_at, AttemptResult, phase_eq,
}
use sourceos_boot.Ab.Table.{Event}
use sourceos_boot.Ab.Machine.{
  AbUpdateMachine, returned, raised, unknown_expiry_action, budget_exhausted,
}
use sourceos_boot.Ab.Behaviour.{report, fail_attempt-exhausted}
use sourceos_boot.Ab.Effects.{exhausted, zeroed}
use sourceos_boot.Ab.Events.{fail_attempt, watchdog_expired}
use sourceos_boot.Ab.Invariant.{Opened}
use sourceos_boot.Ab.Keeps.{zeroed-Opened}

no-tries :
    (g : Label) (s : AbUpdateMachine)
    → ltb 0 (slot_at (zeroed g s).slots (other g)).tries_remaining ≡ false
no-tries slot_a s = refl
no-tries slot_b s = refl

module _ (s : AbUpdateMachine) (why action : String) where
  -- An unknown action raises, and changes nothing.
  pub watchdog_expired-unknown :
      (str_eq action "reboot" || str_eq action "reboot-to-fallback") ≡ false
      → watchdog_expired why action s ≡ (raised (unknown_expiry_action action), s)
  unfolding watchdog_expired
  watchdog_expired-unknown k = rw k

  pub watchdog_expired-reboot :
      (str_eq action "reboot" || str_eq action "reboot-to-fallback") ≡ true
      → (str_eq action "reboot-to-fallback" && phase_eq s.phase Phase.trying) ≡ false
      → watchdog_expired why action s
        ≡ fail_attempt Event.watchdog_expired AttemptResult.watchdog_expired why s
  unfolding watchdog_expired
  watchdog_expired-reboot k f = rw (k, f) refl

  pub watchdog_expired-zero :
      (g : Label)
      → s.to_slot ≡ some (other g)
      → str_eq action "reboot-to-fallback" ≡ true
      → s.phase ≡ Phase.trying
      → watchdog_expired why action s
        ≡ fail_attempt Event.watchdog_expired AttemptResult.watchdog_expired why (zeroed g s)
  unfolding watchdog_expired
  watchdog_expired-zero g t f e = ground arith

  -- In an open transaction whose candidate is on trial, a watchdog with the action reboot-to-fallback
  -- ends the transaction at once, however many tries are left: the result
  -- is `refused`, and the machine that of an exhausted budget.
  pub watchdog_expired-fallback :
      {was : SlotState} (g : Label)
      → str_eq action "reboot-to-fallback" ≡ true
      → s.phase ≡ Phase.trying
      → Opened g was s
      → watchdog_expired why action s ≡ (
        returned (
            report Event.watchdog_expired Phase.trying Phase.refused
              (budget_exhausted why (length s.attempts + 1) (some g))
              (some g)),
        exhausted g AttemptResult.watchdog_expired why (zeroed g s),
      )
  watchdog_expired-fallback {was} g f e h =
      watchdog_expired-zero g h.to_other f e
      ∙ fail_attempt-exhausted {was = was} (zeroed g s) g Event.watchdog_expired
          AttemptResult.watchdog_expired why refl e (no-tries g s) (zeroed-Opened s g e h)
