-- ===== src/Lifecycle/Tests.antt =====
-- Runs of the lifecycle engine, and each theorem at such a run.
use sourceos_boot.Base.{
  String, ◌≡◌, inr, refl, true, false, Option, none, some, List, [], ◌∷◌, truthy,
}
use sourceos_boot.Lifecycle.Types.{
  State, Transition, TransitionRule, TransitionRequest, Position, SideEffects, LifecycleStateRecord,
}
use sourceos_boot.Lifecycle.Engine.{
  index, lookup, missing_proofs, build_record, apply_rule, apply_transition, is_host_mutating,
}
use sourceos_boot.Lifecycle.Rules.{signs, IsSound, lookup-IsSound}
use sourceos_boot.Lifecycle.Gates.{IsPermitted, apply_transition-IsPermitted}
use sourceos_boot.Lifecycle.Complete.{
  Refuses, IsPermitted-apply_transition, apply_transition-Refuses, apply_transition-side_effects,
}
use sourceos_boot.Lifecycle.History.{
  History, minted, moved, refused, AllCleared, behind, History-AllCleared,
}

abbrev at_state : State → Position
at_state s = record {
  current_state = some s;
  subject_ref = some "urn:actor";
  object_ref = none;
  object_kind = none;
}

abbrev ask : Transition → List String → Option String → TransitionRequest
ask n proofs approval = record {
  transition_name = n;
  capability = "cap:operator";
  to_state = none;
  proofs_present = proofs;
  approval_ref = approval;
  policy_ref = "policy";
  policy_hash = "sha256:0";
}

abbrev sign_request : TransitionRequest
sign_request =
    ask Transition.sign ("signatureRef" ∷ "katelloManifestRef" ∷ []) (some "urn:approval")

abbrev sign_record : LifecycleStateRecord
sign_record = apply_transition "id" "now" (at_state State.built) sign_request

sign_record_allowed : sign_record.allowed ≡ true
unfolding apply_transition apply_rule build_record lookup index missing_proofs
sign_record_allowed = refl

sign_request-IsPermitted : IsPermitted (at_state State.built) sign_request State.built State.signed
sign_request-IsPermitted = record {
  at_state = refl;
  above_bottom = refl;
  edge = signs;
  approved = refl;
  provided = (refl, (refl, tt));
}

apply_transition-IsPermitted_example :
    (from : State) × IsPermitted (at_state State.built) sign_request from sign_record.to_state
apply_transition-IsPermitted_example =
    apply_transition-IsPermitted "id" "now" (at_state State.built) sign_request sign_record_allowed

IsPermitted-apply_transition_example :
    (sign_record.allowed ≡ true)
    × (sign_record.to_state ≡ State.signed)
    × (sign_record.missing ≡ [])
IsPermitted-apply_transition_example =
    IsPermitted-apply_transition "id" "now" (at_state State.built) sign_request
      sign_request-IsPermitted (inr (refl, refl))

-- an execution that nobody approved
abbrev bare_request : TransitionRequest
bare_request = ask Transition.execute [] none

abbrev bare_record : LifecycleStateRecord
bare_record = apply_transition "id" "now" (at_state State.loaded) bare_request

bare_record_refused : bare_record.allowed ≡ false
unfolding apply_transition apply_rule build_record lookup index missing_proofs
bare_record_refused = refl

apply_transition-Refuses_example : Refuses bare_record
apply_transition-Refuses_example =
    apply_transition-Refuses "id" "now" (at_state State.loaded) bare_request bare_record_refused

abbrev approved_request : TransitionRequest
approved_request = ask Transition.execute [] (some "urn:approval")

abbrev approved_record : LifecycleStateRecord
approved_record = apply_transition "id" "now" (at_state State.loaded) approved_request

abbrev host_effects : SideEffects
host_effects = record {
  host_mutation = true;
  disk_write = true;
  reboot = true;
  network_fetch = false;
}

approved_record_effects : approved_record.side_effects ≡ some host_effects
unfolding apply_transition apply_rule build_record lookup index missing_proofs
approved_record_effects = refl

apply_transition-side_effects_example :
    (approved_record.allowed ≡ true)
    × (is_host_mutating Transition.execute ≡ true)
    × (truthy (some "urn:approval") ≡ true)
apply_transition-side_effects_example =
    apply_transition-side_effects "id" "now" (at_state State.loaded) approved_request
      approved_record_effects

abbrev sign_rule : TransitionRule
sign_rule = record {
  name = Transition.sign;
  from_state = State.built;
  to_state = State.signed;
  approval_required = true;
  required_proofs = "signatureRef" ∷ "katelloManifestRef" ∷ [];
}

sign_rule_found : lookup (some State.built) Transition.sign none ≡ some sign_rule
unfolding lookup index
sign_rule_found = refl

lookup-IsSound_example :
    IsSound sign_rule × (some State.built ≡ some State.built) × (Transition.sign ≡ Transition.sign)
lookup-IsSound_example = lookup-IsSound (some State.built) Transition.sign none sign_rule_found

abbrev resolve_request : TransitionRequest
resolve_request = ask Transition.resolve_bom [] none

abbrev build_request : TransitionRequest
build_request = ask Transition.build ("sbomRef" ∷ []) none

-- a draft that is resolved, then fails to be signed, then is built
built-History : History State.built (build_request ∷ bare_request ∷ resolve_request ∷ [])
unfolding apply_transition apply_rule build_record lookup index missing_proofs
built-History =
    moved "id" "now" (at_state State.resolved) build_request
      (refused "id" "now" (at_state State.resolved) bare_request
        (moved "id" "now" (at_state State.draft) resolve_request minted refl refl) refl)
      refl refl

History-AllCleared_example :
    AllCleared (build_request ∷ bare_request ∷ resolve_request ∷ []) (behind State.built)
History-AllCleared_example = History-AllCleared built-History
