-- ===== src/Rollback/Steps.antt =====
-- What the loop of `execute` runs.
use sourceos_boot.Base.{
  ◌⊎◌, ◌≡◌, refl, sym, ap, ◌∙◌, ℕ, String, Bool, Bool-cases, inl, inr, true, false, List, [], ◌∷◌,
  ◌++◌,
}
use sourceos_boot.Rollback.Executor.{
  RollbackStepResult, Ran, completed, timeout_expired, raised, is_comment, Executor, Progress,
  going, escaped, dry_result, after_run, run_line, run_step, run_steps,
}
use sourceos_boot.Rollback.Plans.{commands}

abbrev pub is_raised : Ran → Bool
is_raised (raised e) = true
is_raised _ = false

abbrev pub is_going : Progress → Bool
is_going (going fine rs) = true
is_going (escaped e) = false

commands_cases :
    (step : String) (steps : List String)
    → ((is_comment step ≡ true) × (commands (step ∷ steps) ≡ commands steps))
      ⊎ ((is_comment step ≡ false) × (commands (step ∷ steps) ≡ step ∷ commands steps))
commands_cases step steps = elim (Bool-cases (is_comment step)) [
  | inl c ↦ inl (c, rw c refl)
  | inr c ↦ inr (c, rw c refl)
]

head_eq : {x y : String} {xs : List String} → x ∷ xs ≡ y ∷ [] → x ≡ y
head_eq h = cc

tail_eq : {x y : String} {xs : List String} → x ∷ xs ≡ y ∷ [] → xs ≡ []
tail_eq h = cc

-- No command makes the subprocess module raise anything but TimeoutExpired.
abbrev pub Tame : {W : Type 0} → Executor W → Type 0
Tame {W} self =
    (command : String) (seconds : ℕ) (w : W) → is_raised (self.run command seconds w).0 ≡ false

module _ {W : Type 0} (self : Executor W) where
  run_line-dry :
      (comment : Bool) (step : String) (rs : List RollbackStepResult) (w : W)
      → (rs' : List RollbackStepResult) × (run_line self comment true step true rs w
          ≡ (going true rs', w))
  run_line-dry true step rs w = (rs, refl)
  run_line-dry false step rs w = (rs ++ (dry_result step ∷ []), refl)

  pub run_steps-dry :
      (steps : List String) (rs : List RollbackStepResult) (w : W)
      → (rs' : List RollbackStepResult) × (run_steps self true steps (going true rs, w)
          ≡ (going true rs', w))
  unfolding run_steps
  run_steps-dry [] rs w = (rs, refl)
  run_steps-dry (step ∷ steps) rs w =
      let (rs₁, e) = run_line-dry (is_comment step) step rs w in
      let (rs₂, k) = run_steps-dry steps rs₁ w in (rs₂, rw e k)

  after_run-returns :
      (step : String) (fine : Bool) (rs : List RollbackStepResult) (o : Ran × W)
      → is_raised o.0 ≡ false
      → is_going (after_run self step fine rs o).0 ≡ true
  after_run-returns step fine rs (completed code out err, w) h = refl
  after_run-returns step fine rs (timeout_expired, w) h = refl
  after_run-returns step fine rs (raised e, w) h = cc

  after_run-state :
      (step : String) (fine : Bool) (rs : List RollbackStepResult) (o : Ran × W)
      → (after_run self step fine rs o).1 ≡ o.1
  after_run-state step fine rs (completed code out err, w) = refl
  after_run-state step fine rs (timeout_expired, w) = refl
  after_run-state step fine rs (raised e, w) = refl

  run_step-comment :
      (dry : Bool) (step : String) (p : Progress × W)
      → is_comment step ≡ true
      → run_step self dry step p ≡ p
  run_step-comment dry step (escaped e, w) c = refl
  run_step-comment dry step (going fine rs, w) c = rw c refl

  -- Steps that are all comments change nothing.
  pub run_steps-quiet :
      (dry : Bool) (steps : List String) (p : Progress × W)
      → commands steps ≡ []
      → run_steps self dry steps p ≡ p
  unfolding run_steps
  run_steps-quiet dry [] p h = refl
  run_steps-quiet dry (step ∷ steps) p h = elim (commands_cases step steps) [
    | inl (c, e) ↦ rw (run_step-comment dry step p c) (run_steps-quiet dry steps p (sym e ∙ h))
    | inr (c, e) ↦ cc
  ]

  -- Among steps with one command, that command alone changes the state.
  pub run_steps-one :
      (steps : List String) (command : String) (fine : Bool) (rs : List RollbackStepResult) (w : W)
      → commands steps ≡ command ∷ []
      → (run_steps self false steps (going fine rs, w)).1 ≡ (self.run command self.timeout_s w).1
  unfolding run_steps
  run_steps-one [] command fine rs w h = cc
  run_steps-one (step ∷ steps) command fine rs w h = elim (commands_cases step steps) [
    | inl (c, e) ↦ rw (run_steps, c) (run_steps-one steps command fine rs w (sym e ∙ h))
    | inr (c, e) ↦
        let alike = sym e ∙ h in
        let o = self.run step self.timeout_s w in
        rw (run_steps, c)
          (ap (λ p. p.1)
              (run_steps-quiet false steps (after_run self step fine rs o) (tail_eq alike))
            ∙ (after_run-state step fine rs o
                ∙ ap (λ x. (self.run x self.timeout_s w).1) (head_eq alike)))
  ]

  run_line-returns :
      Tame self
      → (comment dry : Bool) (step : String) (fine : Bool) (rs : List RollbackStepResult) (w : W)
      → is_going (run_line self comment dry step fine rs w).0 ≡ true
  run_line-returns tame true dry step fine rs w = refl
  run_line-returns tame false true step fine rs w = refl
  run_line-returns tame false false step fine rs w =
      after_run-returns step fine rs (self.run step self.timeout_s w) (tame step self.timeout_s w)

  run_step-returns :
      Tame self
      → (dry : Bool) (step : String) (p : Progress × W) → is_going p.0 ≡ true
      → is_going (run_step self dry step p).0 ≡ true
  run_step-returns tame dry step (going fine rs, w) h =
      run_line-returns tame (is_comment step) dry step fine rs w
  run_step-returns tame dry step (escaped e, w) h = cc

  pub run_steps-returns :
      Tame self
      → (dry : Bool) (steps : List String) (p : Progress × W) → is_going p.0 ≡ true
      → is_going (run_steps self dry steps p).0 ≡ true
  unfolding run_steps
  run_steps-returns tame dry [] p h = h
  run_steps-returns tame dry (step ∷ steps) p h =
      run_steps-returns tame dry steps (run_step self dry step p)
        (run_step-returns tame dry step p h)
