-- ===== src/Cli/Runs.antt =====
-- The loop of `ab_update_replay` over recorded events, as a replay of commands.
use sourceos_boot.Base.{ℕ, suc, ◌≡◌, refl, ap, ◌∙◌, subst, List, [], ◌∷◌}
use sourceos_boot.Result.{ok, ◌>>=◌, bind-ok, ok-injective}
use sourceos_boot.Ab.Machine.{
  AbUpdateMachine, Outcome, returned, raised, TransitionResult, Reason, Fault,
}
use sourceos_boot.Ab.Machine
use sourceos_boot.Ab.Commands.{Command, perform, replay}
use sourceos_boot.Ab.Guarantees.{Returns}
use sourceos_boot.Cli.Events.{RecordedEvent, command_of, lifted, run_events, commands_of}

-- one more result in front of the log
push :
    (r : TransitionResult) (x : Outcome (List TransitionResult) × AbUpdateMachine)
    (s : AbUpdateMachine)
    → (lifted x >>= λ later. ok (r ∷ later.0, later.1))
      ≡ lifted (Machine.◌>>=◌ (λ t. x) (λ log. Machine.pure (r ∷ log)) s)
push r (returned log, t) s = refl
push r (raised f, t) s = refl

run_one :
    (es : List RecordedEvent) (cs : List Command) (index : ℕ)
    (x : Outcome TransitionResult × AbUpdateMachine) (s : AbUpdateMachine)
    → ((t : AbUpdateMachine) → run_events (suc index) es t ≡ lifted (replay cs t))
    → (lifted x >>= λ after.
        run_events (suc index) es after.1 >>= λ later. ok (after.0 ∷ later.0, later.1))
      ≡ lifted (
          Machine.◌>>=◌ (λ t. x) (λ r. Machine.◌>>=◌ (replay cs) (λ log. Machine.pure (r ∷ log))) s)
run_one es cs index (returned r, t) s h =
    ap (λ y. y >>= λ later. ok (r ∷ later.0, later.1)) (h t) ∙ push r (replay cs t) t
run_one es cs index (raised f, t) s h = refl

-- The loop over recorded events is the replay of the commands that they stand for.
run_events-replay :
    (index : ℕ) (es : List RecordedEvent) (cs : List Command) (s : AbUpdateMachine)
    → commands_of index es ≡ ok cs
    → run_events index es s ≡ lifted (replay cs s)
unfolding run_events commands_of replay
run_events-replay index [] cs s h =
    subst (λ ds. ok ([], s) ≡ lifted (replay ds s)) (ok-injective h) refl
run_events-replay index (e ∷ es) cs s h =
    let (c, e₁, h₁) = bind-ok (command_of index e) _ h in
    let (rest, e₂, h₂) = bind-ok (commands_of (suc index) es) _ h₁ in
    subst (λ ds. run_events index (e ∷ es) s ≡ lifted (replay ds s)) (ok-injective h₂)
      (rw e₁
        (run_one es rest index (perform c s) s (λ t. run_events-replay (suc index) es rest t e₂)))

-- What is so of every outcome of a replay that returns is so of the run.
pub run_events-Returns :
    (P : List TransitionResult → AbUpdateMachine → Type 0) (es : List RecordedEvent)
    (cs : List Command) (s : AbUpdateMachine)
    → commands_of 0 es ≡ ok cs
    → Returns P (replay cs s)
    → (log : List TransitionResult) × (t : AbUpdateMachine) × (run_events 0 es s ≡ ok (log, t))
      × (replay cs s ≡ (returned log, t))
      × P log t
run_events-Returns P es cs s e h = go (replay cs s) h (run_events-replay 0 es cs s e)
  where
    go :
        (x : Outcome (List TransitionResult) × AbUpdateMachine)
        → Returns P x
        → run_events 0 es s ≡ lifted x
        → (log : List TransitionResult) × (t : AbUpdateMachine) × (run_events 0 es s ≡ ok (log, t))
          × (x ≡ (returned log, t))
          × P log t
    go (returned log, t) p q = (log, t, q, refl, p)
    go (raised f, t) p q = absurd p
