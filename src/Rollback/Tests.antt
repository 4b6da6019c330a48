-- ===== src/Rollback/Tests.antt =====
-- A device with three generations, runs of the planner and the executor there, and each theorem at
-- such a run.
use sourceos_boot.Base.{
  ◌≡◌, refl, String, Bool, true, false, Option, none, some, List, [], ◌∷◌, str_eq, if◌then◌else◌, ℤ,
  pos,
}
use sourceos_boot.Rollback.Sort.{sort}
use sourceos_boot.Rollback.Chain.{
  AsahiBootChain, validate, NixOsGeneration, AsahiRollbackPlan, is_allowed, Surroundings,
  detect_generations, rollback_command, efi_comment, plan_for, plan_rollback, asahi_chain,
  rolls_back_to, violated, efi_vars_are_mutable,
}
use sourceos_boot.Rollback.Executor.{completed, Executor, execute}
use sourceos_boot.Rollback.Plans.{IsGated, plan_rollback-IsGated, plan_rollback-IsAllowed}
use sourceos_boot.Rollback.Previous.{IsPrevious, plan_rollback-IsPrevious}
use sourceos_boot.Rollback.Executions.{execute-plan_rollback}
use Prim.Native.String.{◌++◌ as ◌++ᵗ◌}

abbrev number_in : String → Option ℤ
number_in text =
    if str_eq text "9"
    then some (pos 9)
    else (if str_eq text "10"
        then some (pos 10)
        else (if str_eq text "11" then some (pos 11) else none))

-- generations 9, 10 and 11 under the paths of their links, and the running system is generation 10
abbrev device : Surroundings
device = record {
  is_dir = λ path. true;
  is_link = λ path. true;
  real_path = λ path. some (
      if str_eq path "/run/current-system"
      then "/nix/var/nix/profiles/system/system-10-link"
      else path);
  list_dir = λ path.
      some (
        "system-9-link" ∷ "lost+found" ∷ "system-11-link" ∷ "system-x-link" ∷ "system-10-link"
        ∷ []);
  join = λ a b. a ++ᵗ ("/" ++ᵗ b);
  int_of = number_in;
}

abbrev generation : ℤ → String → Bool → NixOsGeneration
generation number path current = record { number = number; store_path = path; is_current = current }

abbrev ninth : NixOsGeneration
ninth = generation (pos 9) "/nix/var/nix/profiles/system/system-9-link" false

abbrev tenth : NixOsGeneration
tenth = generation (pos 10) "/nix/var/nix/profiles/system/system-10-link" true

abbrev eleventh : NixOsGeneration
eleventh = generation (pos 11) "/nix/var/nix/profiles/system/system-11-link" false

detected : detect_generations device asahi_chain ≡ some (ninth ∷ tenth ∷ eleventh ∷ [])
unfolding detect_generations sort
detected = refl

-- The plan that follows rolls back from generation 10 to generation 11.
abbrev forward_plan : AsahiRollbackPlan
forward_plan = record {
  chain = asahi_chain.chain_info;
  current_generation = some tenth;
  rollback_target = some eleventh;
  policy_gate = "allowed";
  policy_reason = rolls_back_to (some (pos 10)) (pos 11);
  steps =
      rollback_command
      ∷ "# rolls back to generation 11: /nix/var/nix/profiles/system/system-11-link" ∷ efi_comment
      ∷ [];
}

planned : plan_rollback device asahi_chain ≡ some forward_plan
unfolding plan_rollback plan_for validate detect_generations sort
planned = refl

plan_rollback-IsGated_example : IsGated asahi_chain.chain_info forward_plan
plan_rollback-IsGated_example = plan_rollback-IsGated device asahi_chain planned

-- The same device after it was started from generation 11.
abbrev upgraded : Surroundings
upgraded = record device {
  real_path = λ path. some (
      if str_eq path "/run/current-system"
      then "/nix/var/nix/profiles/system/system-11-link"
      else path);
}

abbrev upgraded_generations : List NixOsGeneration
upgraded_generations =
    ninth ∷ record tenth { is_current = false } ∷ record eleventh { is_current = true } ∷ []

upgraded_detected : detect_generations upgraded asahi_chain ≡ some upgraded_generations
unfolding detect_generations sort
upgraded_detected = refl

plan_rollback-IsPrevious_example :
    (plan : AsahiRollbackPlan) × (t : NixOsGeneration) × (plan_rollback upgraded asahi_chain
      ≡ some plan)
    × (is_allowed plan ≡ true)
    × (plan.current_generation ≡ some (record eleventh { is_current = true }))
    × (plan.rollback_target ≡ some t)
    × IsPrevious (record eleventh { is_current = true }) t upgraded_generations
plan_rollback-IsPrevious_example =
    plan_rollback-IsPrevious upgraded asahi_chain upgraded_generations
      (record eleventh { is_current = true }) (refl, refl) upgraded_detected refl
      (refl, (refl, (refl, tt))) refl

plan_rollback-IsAllowed_example :
    (plan : AsahiRollbackPlan) × (plan_rollback device asahi_chain ≡ some plan)
    × (is_allowed plan ≡ true)
plan_rollback-IsAllowed_example = plan_rollback-IsAllowed device asahi_chain (refl, refl) detected

-- an executor whose state is the list of the commands that ran, all with exit status 0
abbrev recorder : Executor (List String)
recorder = record {
  run = λ command seconds w. (completed (pos 0) "done" "", command ∷ w);
  shorten = λ text. text;
  timeout_s = 300;
  execution_id = "id";
  issued_at = "now";
  duration_ms = 12;
}

execute-plan_rollback_example : (execute recorder forward_plan false []).1 ≡ rollback_command ∷ []
execute-plan_rollback_example = execute-plan_rollback recorder device asahi_chain false [] planned

-- a chain whose EFI variables are mutable, and its plan
abbrev mutable_chain : AsahiBootChain
mutable_chain = record asahi_chain {
  chain_info = record asahi_chain.chain_info { efi_vars_mutable = true };
}

abbrev mutable_plan : AsahiRollbackPlan
mutable_plan = record {
  chain = mutable_chain.chain_info;
  current_generation = none;
  rollback_target = none;
  policy_gate = "denied";
  policy_reason = violated (efi_vars_are_mutable ∷ []);
  steps = [];
}

mutable_planned : plan_rollback device mutable_chain ≡ some mutable_plan
unfolding plan_rollback plan_for validate detect_generations sort
mutable_planned = refl
