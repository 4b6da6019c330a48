-- ===== src/Ab/Endings.antt =====
-- Terminal phases, and the ways into them.
use sourceos_boot.Base.{
  ◌≡◌, refl, ◌∙◌, inl, inr, Bool, Bool-cases, String, List, [], ◌∷◌, true, false, arith, any, map,
}
use sourceos_boot.Ab.Types.{Label, Phase, phase_eq, is_terminal, SlotState, slot_at}
use sourceos_boot.Ab.Table.{Event, event_eq, follows}
use sourceos_boot.Ab.Machine.{
  AbUpdateMachine, Outcome, returned, raised, TransitionResult, terminal_phase, ◌>>=◌,
}
use sourceos_boot.Ab.Admission.{refusal, is_abortable}
use sourceos_boot.Ab.Behaviour.{operator_abort_lem}
use sourceos_boot.Ab.Commands.{Command, event_of, perform, replay, is_known}
use sourceos_boot.Ab.Effects.{aborted}
use sourceos_boot.Ab.Events.{operator_abort}
use sourceos_boot.Ab.Guarantees.{Returns, Selected, SettledOn-Opened}
use sourceos_boot.Ab.Invariant.{Opened}
use sourceos_boot.Ab.Keeps.{aborted-Opened}
use sourceos_boot.Ab.Opening.{Ready, begin_lem, begun-Opened}
use sourceos_boot.Ab.Progress.{Advances, perform-Advances}
use sourceos_boot.Ab.Replays.{AllKnown, Sound}
use sourceos_boot.Ab.Steps.{is_legal, perform-refused}

terminal-refused :
    (c : Command) (s : AbUpdateMachine)
    → is_terminal s.phase ≡ true
    → is_known c ≡ true
    → perform c s ≡ (returned (refusal (event_of c) (terminal_phase s.phase) s), s)
terminal-refused c s t k = perform-refused c s k (ground arith) ∙ ground arith

-- A terminal machine refuses every list of events whose expiry actions are known, says each time that it is terminal, and does not
-- change.
pub replay_terminal :
    (cs : List Command) (s : AbUpdateMachine)
    → is_terminal s.phase ≡ true
    → AllKnown cs
    → replay cs s ≡ (returned (map (λ c. refusal (event_of c) (terminal_phase s.phase) s) cs), s)
unfolding replay
replay_terminal [] s t k = refl
replay_terminal (c ∷ cs) s t k =
    ground (arith, terminal-refused c s t k.0, replay_terminal cs s t k.1)

-- An operator can abandon a transaction in every phase between the write and the verdict: the call
-- returns, the phase is `rolled_back`, and the target runs the slot that it started on.
pub operator_abort-Selected :
    {was : SlotState} (g : Label) (s : AbUpdateMachine) (why : String)
    → is_abortable s.phase ≡ true
    → Opened g was s
    → Returns
        (λ r s'. (r.allowed ≡ true) × (s'.phase ≡ Phase.rolled_back) × Selected g s')
        (operator_abort why s)
operator_abort-Selected {was} g s why e h = rw (operator_abort_lem s g why e h) (
  refl,
  refl,
  (SettledOn-Opened g was (aborted g why s) Phase.rolled_back refl (aborted-Opened s g why e h)).0,
)

abbrev pub is_pass : Command → Bool
is_pass c = event_eq (event_of c) Event.probe_pass

follows-promoted :
    (v : Event) (p q : Phase)
    → event_eq v Event.probe_pass ≡ false
    → follows v p q ≡ true
    → phase_eq q Phase.promoted ≡ false
follows-promoted v p q n f = ground arith

-- the call leaves a sound machine that is not promoted
abbrev Unpromoted : {A : Type 0} → Label → SlotState → Outcome A × AbUpdateMachine → Type 0
Unpromoted g was x = Returns (λ a s'. Sound g was s' × (phase_eq s'.phase Phase.promoted ≡ false)) x

Advances-Unpromoted :
    (g : Label) (was : SlotState) (s : AbUpdateMachine) (v : Event)
    (x : Outcome TransitionResult × AbUpdateMachine)
    → event_eq v Event.probe_pass ≡ false
    → Advances g was s v x
    → Unpromoted g was x
Advances-Unpromoted g was s v (returned r, s') n h =
    (inr h.1, follows-promoted v s.phase s'.phase n h.4)
Advances-Unpromoted g was s v (raised e, s') n h = h

module _ (g : Label) (was : SlotState) where
  legal-Unpromoted :
      (c : Command) (s : AbUpdateMachine)
      → Sound g was s
      → is_known c ≡ true
      → is_pass c ≡ false
      → is_legal s.phase (event_of c) ≡ true
      → Unpromoted g was (perform c s)
  unfolding perform
  legal-Unpromoted c s (inr o) k n l =
      Advances-Unpromoted g was s (event_of c) (perform c s) n (perform-Advances s g o c k l)
  legal-Unpromoted (Command.begin d ref ver) s (inl (r, w)) k n l =
      rw (begin_lem s d ref ver g r) (inr (rw w (begun-Opened s d ref ver g r)), refl)
  legal-Unpromoted _ s (inl (r, w)) k n l = absurd (ground (arith, r.is_idle))

  perform-Unpromoted :
      (c : Command) (s : AbUpdateMachine)
      → Sound g was s
      → phase_eq s.phase Phase.promoted ≡ false
      → is_known c ≡ true
      → is_pass c ≡ false
      → Unpromoted g was (perform c s)
  perform-Unpromoted c s h p k n = elim (Bool-cases (is_legal s.phase (event_of c))) [
    | inl l ↦ legal-Unpromoted c s h k n l
    | inr l ↦ rw (perform-refused c s k l) (h, p)
  ]

  logged-Unpromoted :
      (r : TransitionResult) (x : Outcome (List TransitionResult) × AbUpdateMachine)
      → Unpromoted g was x
      → Unpromoted g was (◌>>=◌ (λ _. x) (λ log s'. (returned (r ∷ log), s')) x.1)
  logged-Unpromoted r (returned log, s') h = h
  logged-Unpromoted r (raised e, s') h = h

  then-Unpromoted :
      (x : Outcome TransitionResult × AbUpdateMachine) (cs : List Command)
      → Unpromoted g was x
      → ((s : AbUpdateMachine)
          → Sound g was s
          → phase_eq s.phase Phase.promoted ≡ false
          → Unpromoted g was (replay cs s))
      → Unpromoted g was
          (◌>>=◌ (λ _. x) (λ r. replay cs >>= λ log s'. (returned (r ∷ log), s')) x.1)
  then-Unpromoted (returned r, s') cs h ih = logged-Unpromoted r (replay cs s') (ih s' h.0 h.1)
  then-Unpromoted (raised e, s') cs h ih = h

  replay-Unpromoted :
      (cs : List Command) (s : AbUpdateMachine)
      → AllKnown cs
      → any is_pass cs ≡ false
      → Sound g was s
      → phase_eq s.phase Phase.promoted ≡ false
      → Unpromoted g was (replay cs s)
  unfolding replay
  replay-Unpromoted [] s k n h p = (h, p)
  replay-Unpromoted (c ∷ cs) s k n h p =
      then-Unpromoted (perform c s) cs (perform-Unpromoted c s h p k.0 (ground arith))
        (λ s' h' p'. replay-Unpromoted cs s' k.1 (ground arith) h' p')

-- The only way to promotion is a passing probe: a replay from a ready machine in which every expiry
-- action is known and no event is `probe_pass` returns, and does not end in the phase `promoted`.
pub replay_promotes_by_probe_pass :
    (g : Label) (s : AbUpdateMachine) (cs : List Command)
    → Ready g s
    → AllKnown cs
    → any is_pass cs ≡ false
    → Returns (λ log s'. phase_eq s'.phase Phase.promoted ≡ false) (replay cs s)
replay_promotes_by_probe_pass g s cs r k n =
    go (replay cs s)
      (replay-Unpromoted g (slot_at s.slots g) cs s k n (inl (r, refl)) (rw r.is_idle refl))
  where
    go :
        (x : Outcome (List TransitionResult) × AbUpdateMachine)
        → Unpromoted g (slot_at s.slots g) x
        → Returns (λ log s'. phase_eq s'.phase Phase.promoted ≡ false) x
    go (returned log, s') h = h.1
    go (raised e, s') h = h
