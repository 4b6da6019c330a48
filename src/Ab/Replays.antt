-- ===== src/Ab/Replays.antt =====
-- Whole replays: every event of a list offered in order to a machine that is ready.
use sourceos_boot.Base.{
  ℕ, ◌≡◌, refl, ◌+◌, ◌≤◌, ◌⊎◌, inl, inr, Bool-cases, List, [], ◌∷◌, true, false, arith,
}
use sourceos_boot.Ab.Types.{Label, SlotState, slot_at}
use sourceos_boot.Ab.Table.{Event}
use sourceos_boot.Ab.Machine.{AbUpdateMachine, Outcome, returned, raised, TransitionResult, ◌>>=◌}
use sourceos_boot.Ab.Commands.{Command, event_of, perform, replay, is_known, accepted}
use sourceos_boot.Ab.Invariant.{Opened}
use sourceos_boot.Ab.Opening.{Ready, begin_lem, begun-Opened}
use sourceos_boot.Ab.Progress.{potential, Advances, perform-Advances}
use sourceos_boot.Ab.Steps.{is_legal, perform-refused}

-- Every command of the list has a known expiry action.
abbrev pub AllKnown : List Command → Type 0
AllKnown [] = Unit
AllKnown (c ∷ cs) = (is_known c ≡ true) × AllKnown cs

-- Between two events: either no transaction is open, or one is open with slot `g` to fall back to.
abbrev pub Sound : Label → SlotState → AbUpdateMachine → Type 0
Sound g was s = (Ready g s × (was ≡ slot_at s.slots g)) ⊎ Opened g was s

-- What one call, or a list of calls, leaves: it returned, `n` of the events were admitted, and what
-- they used up of the potential is at least `n`.
abbrev pub Spends : Label → SlotState → AbUpdateMachine → ℕ → AbUpdateMachine → Type 0
Spends g was s n s' =
    Sound g was s' × (n + potential g s' ≤ potential g s) × (s'.max_attempts ≡ s.max_attempts)

abbrev pub StepSpends :
    Label → SlotState → AbUpdateMachine → Outcome TransitionResult × AbUpdateMachine → Type 0
StepSpends g was s (returned r, s') = Spends g was s (accepted (r ∷ [])) s'
StepSpends g was s (raised e, s') = ⊥

abbrev pub ReplaySpends :
    Label → SlotState → AbUpdateMachine → Outcome (List TransitionResult) × AbUpdateMachine → Type 0
ReplaySpends g was s (returned log, s') = Spends g was s (accepted log) s'
ReplaySpends g was s (raised e, s') = ⊥

Advances-StepSpends :
    (g : Label) (was : SlotState) (s : AbUpdateMachine) (v : Event)
    (x : Outcome TransitionResult × AbUpdateMachine)
    → Advances g was s v x
    → StepSpends g was s x
Advances-StepSpends g was s v (returned r, s') h = (inr h.1, ground (arith, h.2), h.3)
Advances-StepSpends g was s v (raised e, s') h = h

refused-StepSpends :
    (g : Label) (was : SlotState) (c : Command) (s : AbUpdateMachine)
    → Sound g was s
    → is_known c ≡ true
    → is_legal s.phase (event_of c) ≡ false
    → StepSpends g was s (perform c s)
refused-StepSpends g was c s h k l = rw (perform-refused c s k l) (h, omega arith, refl)

begin-StepSpends :
    (g : Label) (was : SlotState) (c : Command) (s : AbUpdateMachine)
    → Ready g s
    → was ≡ slot_at s.slots g
    → is_legal s.phase (event_of c) ≡ true
    → StepSpends g was s (perform c s)
unfolding perform
begin-StepSpends g was (Command.begin d r v) s h w l =
    rw (begin_lem s d r v g h) (inr (rw w (begun-Opened s d r v g h)), ground (arith, h), refl)
begin-StepSpends g was _ s h w l = absurd (ground (arith, h.is_idle))

pub perform-StepSpends :
    (g : Label) (was : SlotState) (c : Command) (s : AbUpdateMachine)
    → Sound g was s
    → is_known c ≡ true
    → StepSpends g was s (perform c s)
perform-StepSpends g was c s h k = elim (Bool-cases (is_legal s.phase (event_of c))) [
  | inr l ↦ refused-StepSpends g was c s h k l
  | inl l ↦ elim h [
    | inl (r, w) ↦ begin-StepSpends g was c s r w l
    | inr o ↦ Advances-StepSpends g was s (event_of c) (perform c s) (perform-Advances s g o c k l)
  ]
]

replay-step :
    (g : Label) (was : SlotState) (s : AbUpdateMachine)
    (x : Outcome TransitionResult × AbUpdateMachine) (cs : List Command)
    → StepSpends g was s x
    → ((s' : AbUpdateMachine) → Sound g was s' → ReplaySpends g was s' (replay cs s'))
    → ReplaySpends g was s
        (◌>>=◌ (λ _. x) (λ r. ◌>>=◌ (replay cs) (λ log. λ s'. (returned (r ∷ log), s'))) s)
replay-step g was s (raised e, s') cs h ih = h
replay-step g was s (returned r, s') cs h ih = ground (arith, ih s' h.0)

pub replay-ReplaySpends :
    (g : Label) (was : SlotState) (cs : List Command) (s : AbUpdateMachine)
    → AllKnown cs
    → Sound g was s
    → ReplaySpends g was s (replay cs s)
unfolding replay
replay-ReplaySpends g was [] s k h = (h, omega arith, refl)
replay-ReplaySpends g was (c ∷ cs) s k h =
    replay-step g was s (perform c s) cs (perform-StepSpends g was c s h k.0)
      (λ s' h'. replay-ReplaySpends g was cs s' k.1 h')
