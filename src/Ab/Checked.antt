-- ===== src/Ab/Checked.antt =====
-- `_assert_invariants` runs after every transition: no event that is admitted returns without it, on
-- any machine at all.
use sourceos_boot.Base.{
  ◌≡◌, refl, ◌⊎◌, inl, inr, Bool, String, Option, true, false, none, some, arith,
}
use sourceos_boot.Ab.Types.{Label, SlotState, Phase, RollbackReason, AttemptResult}
use sourceos_boot.Ab.Table.{Event, TransitionRule}
use sourceos_boot.Ab.Machine.{
  AbUpdateMachine, Fault, Outcome, returned, raised, Action, ◌>>=◌, ◌>>◌, reads, branch, candidate,
  TransitionResult, Reason, allow, refuse, find_candidate, stop_iteration,
}
use sourceos_boot.Ab.Checks.{
  invariant_fault, assert_invariants, offer, Admission, admitted, declined, on_admission,
}
use sourceos_boot.Ab.Commands.{Command, perform}
use sourceos_boot.Ab.Events

-- The call raised, or it returned a refusal, or its machine passes `_assert_invariants`.
abbrev pub Checked : Outcome TransitionResult × AbUpdateMachine → Type 0
Checked (returned r, s) = (r.allowed ≡ false) ⊎ (invariant_fault s ≡ none)
Checked (raised e, s) = Unit

-- A call that passes if the check has passed before it.
abbrev Passive : Action TransitionResult → Type 0
Passive t = (s : AbUpdateMachine) → invariant_fault s ≡ none → Checked (t s)

bind-Checked :
    {A : Type 0} (m : Action A) (f : A → Action TransitionResult)
    → ((a : A) (s : AbUpdateMachine) → Checked (f a s))
    → (s : AbUpdateMachine) → Checked (◌>>=◌ m f s)
bind-Checked {A} m f h s = go (m s)
  where
    go : (x : Outcome A × AbUpdateMachine) → Checked (◌>>=◌ (λ _. x) f s)
    go (returned a, s') = h a s'
    go (raised e, s') = tt

assert-Checked :
    (t : Action TransitionResult)
    → Passive t
    → (s : AbUpdateMachine) → Checked ((assert_invariants >> t) s)
unfolding assert_invariants
assert-Checked t p s = go (invariant_fault s) refl
  where
    go :
        (f : Option Fault)
        → invariant_fault s ≡ f
        → Checked (◌>>=◌ (λ _. (elim f [ none ↦ returned tt | some e ↦ raised e ], s)) (λ _. t) s)
    go none e = p s e
    go (some x) e = tt

settle-Checked :
    (q : Phase) (r : Option RollbackReason) (t : Action TransitionResult)
    → Passive t
    → (s : AbUpdateMachine) → Checked ((Events.settle q r >> t) s)
unfolding Events.settle
settle-Checked q r t p s = assert-Checked t p _

-- A refusal of `_offer` is not allowed, so an event is checked if what follows its admission is.
offer-declined :
    (e : Event) (o : Option String) (s : AbUpdateMachine) (r : TransitionResult)
    → (offer e o s).0 ≡ returned (declined r)
    → r.allowed ≡ false
unfolding offer
offer-declined e o s r h = ground arith

admission-Checked :
    (e : Event) (o : Option String) (body : TransitionRule → Action TransitionResult)
    → ((rule : TransitionRule) (s : AbUpdateMachine) → Checked (body rule s))
    → (s : AbUpdateMachine) → Checked (on_admission e o body s)
admission-Checked e o body h s = go (offer e o s) (offer-declined e o s)
  where
    go :
        (x : Outcome Admission × AbUpdateMachine)
        → ((r : TransitionResult) → x.0 ≡ returned (declined r) → r.allowed ≡ false)
        → Checked (elim x.0 [
          | raised f ↦ (raised f, x.1)
          | returned outcome ↦ elim outcome [
            | declined t ↦ (returned t, x.1)
            | admitted rule ↦ body rule x.1
          ]
        ])
    go (returned (declined t), s') d = inl (d t refl)
    go (returned (admitted rule), s') d = h rule s'
    go (raised f, s') d = tt

branch-Checked :
    (b : Bool) (m n : Action TransitionResult)
    → ((s : AbUpdateMachine) → Checked (m s))
    → ((s : AbUpdateMachine) → Checked (n s))
    → (s : AbUpdateMachine) → Checked (branch b m n s)
branch-Checked true m n hm hn s = hm s
branch-Checked false m n hm hn s = hn s

allow-Passive :
    (e : Event) (p : Phase) (why : Reason) (back : Option Label) → Passive (allow e p why back)
allow-Passive e p why back s h = inr h

reads-Passive :
    {A : Type 0} (f : AbUpdateMachine → A) (t : A → Action TransitionResult)
    → ((a : A) → Passive (t a))
    → Passive (◌>>=◌ (reads f) t)
reads-Passive f t p s h = p (f s) s h

candidate-Passive :
    (t : SlotState → Action TransitionResult)
    → ((c : SlotState) → Passive (t c))
    → Passive (◌>>=◌ candidate t)
candidate-Passive t p s h = go (find_candidate s.slots)
  where
    go :
        (o : Option SlotState)
        → Checked
            (◌>>=◌ (λ x. (elim o [ none ↦ raised stop_iteration | some a ↦ returned a ], x)) t s)
    go none = tt
    go (some c) = p c s h

refuse-Checked : (e : Event) (why : Reason) (s : AbUpdateMachine) → Checked (refuse e why s)
refuse-Checked e why s = inl refl

ruleset checking = (
  admission-Checked, bind-Checked, branch-Checked, assert-Checked, settle-Checked, refuse-Checked,
  allow-Passive, reads-Passive, candidate-Passive,
)

begin-Checked :
    (d : String) (r v : Option String) (s : AbUpdateMachine) → Checked (Events.begin d r v s)
unfolding Events.begin
begin-Checked d r v = search checking depth 20

write_complete-Checked : (d : String) (s : AbUpdateMachine) → Checked (Events.write_complete d s)
unfolding Events.write_complete
write_complete-Checked d = search checking depth 20

write_failed-Checked : (w : String) (s : AbUpdateMachine) → Checked (Events.write_failed w s)
unfolding Events.write_failed
write_failed-Checked w = search checking depth 20

arm-Checked : (s : AbUpdateMachine) → Checked (Events.arm s)
unfolding Events.arm
arm-Checked = search checking depth 20

boot_attempt-Checked : (s : AbUpdateMachine) → Checked (Events.boot_attempt s)
unfolding Events.boot_attempt
boot_attempt-Checked = search checking depth 20 fits 20000

probe_pass-Checked : (w : Option String) (s : AbUpdateMachine) → Checked (Events.probe_pass w s)
unfolding Events.probe_pass
probe_pass-Checked w = search checking depth 20

operator_abort-Checked : (w : String) (s : AbUpdateMachine) → Checked (Events.operator_abort w s)
unfolding Events.operator_abort
operator_abort-Checked w = search checking depth 20

fail_attempt-Checked :
    (e : Event) (r : AttemptResult) (w : String) (s : AbUpdateMachine)
    → Checked (Events.fail_attempt e r w s)
unfolding Events.fail_attempt
fail_attempt-Checked e r w = search checking depth 20

watchdog_expired-Checked :
    (w a : String) (s : AbUpdateMachine) → Checked (Events.watchdog_expired w a s)
unfolding Events.watchdog_expired
watchdog_expired-Checked w a = search (checking, fail_attempt-Checked) depth 20

-- On any machine, an event that is admitted and returns leaves a machine that passes every check of
-- `_assert_invariants`: no method skips the check.
pub perform-Checked : (c : Command) (s : AbUpdateMachine) → Checked (perform c s)
unfolding perform Events.probe_fail
perform-Checked (Command.begin d r v) s = begin-Checked d r v s
perform-Checked (Command.write_complete d) s = write_complete-Checked d s
perform-Checked (Command.write_failed w) s = write_failed-Checked w s
perform-Checked Command.arm s = arm-Checked s
perform-Checked Command.boot_attempt s = boot_attempt-Checked s
perform-Checked (Command.probe_pass w) s = probe_pass-Checked w s
perform-Checked (Command.probe_fail w) s = fail_attempt-Checked _ _ w s
perform-Checked (Command.watchdog_expired w a) s = watchdog_expired-Checked w a s
perform-Checked (Command.operator_abort w) s = operator_abort-Checked w s
