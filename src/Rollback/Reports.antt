-- ===== src/Rollback/Reports.antt =====
-- What the loop of `execute` reports.
use sourceos_boot.Base.{
  ◌≡◌, refl, sym, ap, ◌∙◌, arith, String, Bool, Bool-cases, inl, inr, true, false, ◌&&◌, List, [],
  ◌∷◌, ◌++◌, map, ℤ,
}
use sourceos_boot.Rollback.Executor.{
  Status, RollbackStepResult, Ran, completed, timeout_expired, raised, is_comment, is_zero,
  Executor, Progress, going, escaped, dry_result, ran_result, timeout_result, note, after_run,
  run_line, run_step, run_steps,
}
use sourceos_boot.Rollback.Plans.{commands}

abbrev pub is_right : RollbackStepResult → Bool
is_right result = elim result.status [ Status.ok ↦ true | Status.dry_run ↦ true | _ ↦ false ]

abbrev pub all_right : List RollbackStepResult → Bool
all_right [] = true
all_right (r ∷ rs) = is_right r && all_right rs

-- The commands that the results are of.
abbrev pub names : List RollbackStepResult → List String
names = map (λ r. r.step)

append_nil {ℓ} : {A : Type ℓ} (xs : List A) → xs ++ [] ≡ xs
append_nil [] = refl
append_nil (x ∷ xs) = ap (λ ys. x ∷ ys) (append_nil xs)

append_assoc {ℓ} : {A : Type ℓ} (xs ys zs : List A) → (xs ++ ys) ++ zs ≡ xs ++ (ys ++ zs)
append_assoc [] ys zs = refl
append_assoc (x ∷ xs) ys zs = ap (λ ws. x ∷ ws) (append_assoc xs ys zs)

all_right-append :
    (rs : List RollbackStepResult) (r : RollbackStepResult)
    → all_right (rs ++ (r ∷ [])) ≡ (all_right rs && is_right r)
all_right-append [] r = ground arith
all_right-append (x ∷ rs) r = ground (arith, all_right-append rs r)

names-append :
    (rs : List RollbackStepResult) (r : RollbackStepResult)
    → names (rs ++ (r ∷ [])) ≡ names rs ++ (r.step ∷ [])
names-append [] r = refl
names-append (x ∷ rs) r = ap (λ ns. x.step ∷ ns) (names-append rs r)

-- Unless an exception got out, the results are of the given commands, and the flag says whether
-- they are all right.
abbrev pub Recorded : List String → Progress → Type 0
Recorded ns (escaped e) = Unit
Recorded ns (going fine rs) = (names rs ≡ ns) × (fine ≡ all_right rs)

note-Recorded :
    (r : RollbackStepResult) (right fine : Bool) (rs : List RollbackStepResult) (ns : List String)
    → right ≡ is_right r
    → Recorded ns (going fine rs)
    → Recorded (ns ++ (r.step ∷ [])) (note r right fine rs)
note-Recorded r right fine rs ns e h = (
  names-append rs r ∙ ap (λ xs. xs ++ (r.step ∷ [])) h.0,
  rw (e, h.1) (sym (all_right-append rs r)),
)

-- the command of a step, unless it is a comment
abbrev kept : Bool → String → List String
kept true step = []
kept false step = step ∷ []

commands_cons :
    (step : String) (steps : List String)
    → commands (step ∷ steps) ≡ kept (is_comment step) step ++ commands steps
commands_cons step steps = elim (Bool-cases (is_comment step)) [
  | inl c ↦ rw c refl
  | inr c ↦ rw c refl
]

module _ {W : Type 0} (self : Executor W) where
  ran_result_right :
      (step : String) (code : ℤ) (out err : String)
      → is_zero code ≡ is_right (ran_result self step code out err)
  ran_result_right step code out err = ground arith

  after_run-Recorded :
      (step : String) (fine : Bool) (rs : List RollbackStepResult) (ns : List String) (o : Ran × W)
      → Recorded ns (going fine rs)
      → Recorded (ns ++ (step ∷ [])) (after_run self step fine rs o).0
  after_run-Recorded step fine rs ns (completed code out err, w) h =
      note-Recorded (ran_result self step code out err) (is_zero code) fine rs ns
        (ran_result_right step code out err) h
  after_run-Recorded step fine rs ns (timeout_expired, w) h =
      note-Recorded (timeout_result self step) false fine rs ns refl h
  after_run-Recorded step fine rs ns (raised e, w) h = tt

  run_line-Recorded :
      (comment dry : Bool) (step : String) (fine : Bool) (rs : List RollbackStepResult) (w : W)
      (ns : List String)
      → Recorded ns (going fine rs)
      → Recorded (ns ++ kept comment step) (run_line self comment dry step fine rs w).0
  run_line-Recorded true dry step fine rs w ns h = rw (append_nil ns) h
  run_line-Recorded false true step fine rs w ns h =
      note-Recorded (dry_result step) true fine rs ns refl h
  run_line-Recorded false false step fine rs w ns h =
      after_run-Recorded step fine rs ns (self.run step self.timeout_s w) h

  run_step-Recorded :
      (dry : Bool) (step : String) (ns : List String) (p : Progress × W)
      → Recorded ns p.0
      → Recorded (ns ++ kept (is_comment step) step) (run_step self dry step p).0
  run_step-Recorded dry step ns (escaped e, w) h = tt
  run_step-Recorded dry step ns (going fine rs, w) h =
      run_line-Recorded (is_comment step) dry step fine rs w ns h

  pub run_steps-Recorded :
      (dry : Bool) (steps ns : List String) (p : Progress × W)
      → Recorded ns p.0
      → Recorded (ns ++ commands steps) (run_steps self dry steps p).0
  unfolding run_steps
  run_steps-Recorded dry [] ns p h = rw (append_nil ns) h
  run_steps-Recorded dry (step ∷ steps) ns p h =
      rw
        (
          commands_cons step steps,
          sym (append_assoc ns (kept (is_comment step) step) (commands steps)),
        )
        (run_steps-Recorded dry steps (ns ++ kept (is_comment step) step) (run_step self dry step p)
          (run_step-Recorded dry step ns p h))
