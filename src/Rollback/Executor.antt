-- ===== src/Rollback/Executor.antt =====
-- rollback_executor.py, and the rollback commands of cli.py. What the subprocess changes is a state
-- `W` that `run` takes and gives back.
use sourceos_boot.Base.{
  ℕ, String, Bool, true, false, not, ◌&&◌, Option, none, some, List, [], ◌∷◌, ◌++◌, if◌then◌else◌,
  ℤ, pos, negsuc, ◌==◌,
}
use sourceos_boot.Rollback.Chain.{AsahiRollbackPlan, is_allowed}
use text.Mathlib.Text.{starts_with}

-- the status of a step
pub data Status : Type 0 where
  ok failed timeout dry_run : Status

-- the reason of a step
pub data StepReason : Type 0 where
  empty is_dry_run : StepReason
  timed_out_after : ℕ → StepReason

-- RollbackStepResult
pub record RollbackStepResult : Type 0 where
  pub step : String
  pub status : Status
  pub returncode : Option ℤ
  pub stdout : String
  pub stderr : String
  pub reason : StepReason

-- the outcome of an execution
pub data Outcome : Type 0 where
  applied denied dry_run failed : Outcome

-- RollbackExecutionResult
pub record RollbackExecutionResult : Type 0 where
  pub execution_id : String
  pub plan : AsahiRollbackPlan
  pub outcome : Outcome
  pub steps : List RollbackStepResult
  pub duration_ms : ℕ
  pub issued_at : String

-- RollbackExecutionResult.ok
abbrev pub is_ok : RollbackExecutionResult → Bool
is_ok result = elim result.outcome [ Outcome.applied ↦ true | Outcome.dry_run ↦ true | _ ↦ false ]

-- What `subprocess.run` does: it returns, it raises TimeoutExpired, or it raises something else.
pub data Ran : Type 0 where
  completed : ℤ → String → String → Ran
  timeout_expired : Ran
  raised : String → Ran

-- comment lines are informational only
abbrev pub is_comment : String → Bool
is_comment step = starts_with step "#"

-- `returncode == 0`
abbrev pub is_zero : ℤ → Bool
is_zero (pos n) = n == 0
is_zero (negsuc n) = false

-- What an executor works with: the subprocess module, `text.strip()[:500]`, its timeout, the id and
-- the time of the call, and the milliseconds that the call takes.
pub record Executor (W : Type 0) : Type 0 where
  pub run : String → ℕ → W → Ran × W
  pub shorten : String → String
  pub timeout_s : ℕ
  pub execution_id : String
  pub issued_at : String
  pub duration_ms : ℕ

-- The results of the steps so far and whether all were right, or the exception that got out.
pub data Progress : Type 0 where
  going : Bool → List RollbackStepResult → Progress
  escaped : String → Progress

-- the execution's result, or the exception that gets out of `execute`
pub data Executed : Type 0 where
  returned : RollbackExecutionResult → Executed
  raised_out : String → Executed

-- the result of a step that is not skipped on a dry run
abbrev pub dry_result : String → RollbackStepResult
dry_result step = record {
  step = step;
  status = Status.dry_run;
  returncode = none;
  stdout = "";
  stderr = "";
  reason = is_dry_run;
}

-- a result appended, with whether its step was right
abbrev pub note : RollbackStepResult → Bool → Bool → List RollbackStepResult → Progress
note result right fine results = going (fine && right) (results ++ (result ∷ []))

-- the outcome after the loop
abbrev pub outcome_of : Bool → Bool → Outcome
outcome_of dry fine =
    if dry then Outcome.dry_run else (if fine then Outcome.applied else Outcome.failed)

module _ {W : Type 0} (self : Executor W) where
  -- the result of a step whose command ran
  abbrev pub ran_result : String → ℤ → String → String → RollbackStepResult
  ran_result step code out err = record {
    step = step;
    status = (if is_zero code then Status.ok else Status.failed);
    returncode = some code;
    stdout = self.shorten out;
    stderr = self.shorten err;
    reason = empty;
  }

  abbrev pub timeout_result : String → RollbackStepResult
  timeout_result step = record {
    step = step;
    status = Status.timeout;
    returncode = none;
    stdout = "";
    stderr = "";
    reason = timed_out_after self.timeout_s;
  }

  -- what the loop does after `subprocess.run`
  abbrev pub after_run : String → Bool → List RollbackStepResult → Ran × W → Progress × W
  after_run step fine results (completed code out err, w) =
      (note (ran_result step code out err) (is_zero code) fine results, w)
  after_run step fine results (timeout_expired, w) =
      (note (timeout_result step) false fine results, w)
  after_run step fine results (raised e, w) = (escaped e, w)

  -- the body of the loop, from whether the step is a comment
  abbrev pub run_line : Bool → Bool → String → Bool → List RollbackStepResult → W → Progress × W
  run_line true dry step fine results w = (going fine results, w)
  run_line false true step fine results w = (note (dry_result step) true fine results, w)
  run_line false false step fine results w =
      after_run step fine results (self.run step self.timeout_s w)

  -- a step of the loop; nothing runs once an exception got out
  abbrev pub run_step : Bool → String → Progress × W → Progress × W
  run_step dry step (escaped e, w) = (escaped e, w)
  run_step dry step (going fine results, w) = run_line (is_comment step) dry step fine results w

  -- the loop of `execute`
  unfoldable pub run_steps : Bool → List String → Progress × W → Progress × W
  run_steps dry [] p = p
  run_steps dry (step ∷ steps) p = run_steps dry steps (run_step dry step p)

  -- the end of `execute`
  abbrev pub finish : AsahiRollbackPlan → Bool → Progress × W → Executed × W
  finish plan dry (escaped e, w) = (raised_out e, w)
  finish plan dry (going fine results, w) = (
    returned (record {
      execution_id = self.execution_id;
      plan = plan;
      outcome = outcome_of dry fine;
      steps = results;
      duration_ms = self.duration_ms;
      issued_at = self.issued_at;
    }),
    w,
  )

  -- execute
  unfoldable pub execute : AsahiRollbackPlan → Bool → W → Executed × W
  execute plan dry w =
      if not (is_allowed plan)
      then (
        returned (record {
          execution_id = self.execution_id;
          plan = plan;
          outcome = Outcome.denied;
          steps = [];
          duration_ms = 0;
          issued_at = self.issued_at;
        }),
        w,
      )
      else finish plan dry (run_steps dry plan.steps (going true [], w))
