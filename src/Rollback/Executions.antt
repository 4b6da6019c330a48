-- ===== src/Rollback/Executions.antt =====
-- What `execute` runs and reports, and what a rollback of this device does.
use sourceos_boot.Base.{
  ◌≡◌, refl, sym, ap, ◌∙◌, subst, arith, String, Bool, Bool-cases, inl, inr, true, false, not, ◌&&◌,
  some, List, [], ◌∷◌, if◌then◌else◌,
}
use sourceos_boot.Rollback.Chain.{
  AsahiRollbackPlan, is_allowed, Surroundings, AsahiBootChain, plan_rollback, rollback_command,
}
use sourceos_boot.Rollback.Executor.{
  RollbackExecutionResult, Outcome, Executor, Progress, going, escaped, run_steps, outcome_of,
  Executed, returned, finish, execute, is_ok,
}
use sourceos_boot.Rollback.Plans.{commands, plan_rollback-IsGated}
use sourceos_boot.Rollback.Reports.{names, all_right, Recorded, run_steps-Recorded}
use sourceos_boot.Rollback.Steps.{run_steps-dry, run_steps-one}

dry_of : (a d : Bool) → (a && not d) ≡ false → a ≡ true → d ≡ true
dry_of a d h k = ground arith

module _ {W : Type 0} (self : Executor W) where
  -- the result of a plan that is not allowed
  abbrev denial : AsahiRollbackPlan → RollbackExecutionResult
  denial plan = record {
    execution_id = self.execution_id;
    plan = plan;
    outcome = Outcome.denied;
    steps = [];
    duration_ms = 0;
    issued_at = self.issued_at;
  }

  execute-denied :
      (plan : AsahiRollbackPlan) (dry : Bool) (w : W)
      → is_allowed plan ≡ false
      → execute self plan dry w ≡ (returned (denial plan), w)
  unfolding execute
  execute-denied plan dry w h = rw h refl

  execute-allowed :
      (plan : AsahiRollbackPlan) (dry : Bool) (w : W)
      → is_allowed plan ≡ true
      → execute self plan dry w
        ≡ finish self plan dry (run_steps self dry plan.steps (going true [], w))
  unfolding execute
  execute-allowed plan dry w h = rw h refl

  -- What an execution returns: a step for each command, and whether it is ok.
  abbrev pub Reports : List String → Bool → Executed × W → Type 0
  Reports ns dry result =
      (r : RollbackExecutionResult) × (w : W) × (result ≡ (returned r, w))
      × (names r.steps ≡ ns)
      × (is_ok r ≡ all_right r.steps)
      × (r.outcome ≡ outcome_of dry (all_right r.steps))

  -- the result of a dry run
  dry_run_lem :
      (plan : AsahiRollbackPlan) (w : W)
      → is_allowed plan ≡ true
      → (r : RollbackExecutionResult) × (execute self plan true w ≡ (returned r, w))
        × (r.outcome ≡ Outcome.dry_run)
        × (names r.steps ≡ commands plan.steps)
        × (all_right r.steps ≡ true)
        × (is_ok r ≡ true)
  dry_run_lem plan w a =
      let (rs, e) = run_steps-dry self plan.steps [] w in
      let (named, right) =
        subst (λ p. Recorded (commands plan.steps) p.0) e
          (run_steps-Recorded self true plan.steps [] (going true [], w) (refl, refl)) in
      (
        _,
        execute-allowed plan true w a ∙ ap (finish self plan true) e,
        refl,
        named,
        sym right,
        refl,
      )

  -- A plan that is not allowed is denied with no step, an allowed one on a dry run lists its
  -- commands, and neither runs anything: the state stays as it is.
  pub execute-idle :
      (plan : AsahiRollbackPlan) (dry : Bool) (w : W)
      → (is_allowed plan && not dry) ≡ false
      → (r : RollbackExecutionResult) × (execute self plan dry w ≡ (returned r, w))
        × (r.outcome ≡ (if is_allowed plan then Outcome.dry_run else Outcome.denied))
        × (names r.steps ≡ (if is_allowed plan then commands plan.steps else []))
  execute-idle plan dry w h = elim (Bool-cases (is_allowed plan)) [
    | inr a ↦ (denial plan, execute-denied plan dry w a, rw a refl, rw a refl)
    | inl a ↦
        let (r, e, out, named, right, fine) = dry_run_lem plan w a in
        let is_dry = dry_of (is_allowed plan) dry h a in (r, rw is_dry e, rw a out, rw a named)
  ]

  finish-state :
      (plan : AsahiRollbackPlan) (dry : Bool) (p : Progress × W) → (finish self plan dry p).1 ≡ p.1
  finish-state plan dry (going fine rs, w) = refl
  finish-state plan dry (escaped e, w) = refl

  -- the state after an execution of a plan with one command
  execute-one :
      (plan : AsahiRollbackPlan) (dry : Bool) (w : W)
      → is_allowed plan ≡ true
      → commands plan.steps ≡ rollback_command ∷ []
      → (execute self plan dry w).1
        ≡ (if not dry then (self.run rollback_command self.timeout_s w).1 else w)
  execute-one plan true w a c = ap (λ p. p.1) (dry_run_lem plan w a).1
  execute-one plan false w a c =
      ap (λ p. p.1) (execute-allowed plan false w a)
      ∙ (finish-state plan false (run_steps self false plan.steps (going true [], w))
          ∙ run_steps-one self plan.steps rollback_command true [] w c)

  -- Executing a plan of `plan_rollback` changes the state by one run of the rollback command, with
  -- the executor's timeout, if the plan is allowed and the run is not dry, and else not at all.
  pub execute-plan_rollback :
      (os : Surroundings) (chain : AsahiBootChain) {plan : AsahiRollbackPlan} (dry : Bool) (w : W)
      → plan_rollback os chain ≡ some plan
      → (execute self plan dry w).1
        ≡ (if is_allowed plan && not dry then (self.run rollback_command self.timeout_s w).1 else w)
  execute-plan_rollback os chain {plan} dry w h = elim (plan_rollback-IsGated os chain h) [
    | inl (a, v, c) ↦ rw a (execute-one plan dry w a c)
    | inr (d, no_step, no_target) ↦ rw d (ap (λ p. p.1) (execute-denied plan dry w d))
  ]

  -- Where the EFI variables are mutable, executing the plan of `plan_rollback` changes nothing.
  pub execute-efi_vars_mutable :
      (os : Surroundings) (chain : AsahiBootChain) {plan : AsahiRollbackPlan} (dry : Bool) (w : W)
      → plan_rollback os chain ≡ some plan
      → chain.chain_info.efi_vars_mutable ≡ true
      → (execute self plan dry w).1 ≡ w
  execute-efi_vars_mutable os chain {plan} dry w h e = elim (plan_rollback-IsGated os chain h) [
    | inl (a, (immutable, typed), c) ↦ cc
    | inr (d, no_step, no_target) ↦ ap (λ p. p.1) (execute-denied plan dry w d)
  ]
