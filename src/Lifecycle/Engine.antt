-- ===== src/Lifecycle/Engine.antt =====
-- `lookup`, `_record` and `apply_transition` of lifecycle_state_machine.py.
use sourceos_boot.Base.{
  String, Bool, true, false, not, Option, none, some, List, [], ◌∷◌, ◌==◌, ◌&&◌, str_eq,
  if◌then◌else◌, length, select, find, mem_text, truthy,
}
use sourceos_boot.Lifecycle.Types.{
  State, state_eq, Transition, transition_eq, TransitionRule, transition_table, TransitionRequest,
  Position, RefusalRef, Reason, capability_floor, not_in_table, needs_approval, lacks_proofs,
  permitted, SideEffects, LifecycleStateRecord,
}

-- BOTTOM_CAPABILITY
abbrev pub bottom_capability : String
bottom_capability = "⊥"

-- `_INDEX.get((from_state, name), [])`: no rule starts at None.
unfoldable pub index : Option State → Transition → List TransitionRule
index none n = []
index (some s) n = select (λ r. state_eq r.from_state s && transition_eq r.name n) transition_table

-- `candidates[0] if len(candidates) == 1 else None`
abbrev only : List TransitionRule → Option TransitionRule
only (r ∷ []) = some r
only _ = none

-- lookup, on the candidates that the index holds
abbrev pub choose : List TransitionRule → Option State → Option TransitionRule
choose candidates none = only candidates
choose candidates (some q) = find (λ r. state_eq r.to_state q) candidates

unfoldable pub lookup : Option State → Transition → Option State → Option TransitionRule
unfolding index
lookup from name to = choose (index from name) to

-- `[p for p in required if p not in present]`
unfoldable pub missing_proofs : List String → List String → List String
missing_proofs required present = select (λ p. not (mem_text p present)) required

abbrev or_default : Option String → String → String
or_default none d = d
or_default (some x) d = x

-- _HOST_MUTATING
abbrev pub is_host_mutating : Transition → Bool
is_host_mutating Transition.execute = true
is_host_mutating Transition.rollback = true
is_host_mutating _ = false

-- `side_effects` of an allowed transition
abbrev pub effects_of : Transition → Option SideEffects
effects_of n =
    if is_host_mutating n
    then some (record {
      host_mutation = true;
      disk_write = true;
      reboot = transition_eq n Transition.execute;
      network_fetch = false;
    })
    else none

-- `uuid.uuid4()` and `_now()` are the values that this call reads from its surroundings.
module _ (uuid captured : String) (position : Position) (request : TransitionRequest) where
  -- _record, with the arguments that `apply_transition` always passes alike
  unfoldable pub build_record :
      State
      → Transition
      → Bool
      → Reason
      → Option RefusalRef
      → List String
      → Bool
      → Option String
      → Option SideEffects
      → LifecycleStateRecord
  build_record to name permit why refusal needed gated approval effects = record {
    record_id = uuid;
    captured_at = captured;
    subject_ref = or_default position.subject_ref "urn:srcos:actor:unknown";
    object_ref = or_default position.object_ref "urn:srcos:object:unknown";
    object_kind = or_default position.object_kind "ReleaseSet";
    from_state = position.current_state;
    to_state = to;
    transition_name = name;
    allowed = permit;
    reason = why;
    refusal_ref = refusal;
    required = needed;
    present = request.proofs_present;
    missing = missing_proofs needed request.proofs_present;
    policy_ref = request.policy_ref;
    policy_hash = request.policy_hash;
    approval_required = gated;
    approval_ref = approval;
    side_effects = effects;
  }

  -- a record with transition.name "refuse" and toState "blocked"
  abbrev refusal_record :
      Reason → RefusalRef → List String → Bool → Option String → LifecycleStateRecord
  refusal_record why ref needed gated approval =
      build_record State.blocked Transition.refuse false why (some ref) needed gated approval none

  -- checks 3 and 4, and the allowed record
  unfoldable pub apply_rule : TransitionRule → LifecycleStateRecord
  unfolding build_record
  apply_rule rule =
      let name = request.transition_name in
      let from = position.current_state in
      let missing = missing_proofs rule.required_proofs request.proofs_present in
      if rule.approval_required && not (truthy request.approval_ref)
      then refusal_record (needs_approval name from rule.to_state) RefusalRef.approval_required
          rule.required_proofs true none
      else if not (length missing == 0)
      then refusal_record (lacks_proofs name missing) RefusalRef.missing_evidence
          rule.required_proofs rule.approval_required request.approval_ref
      else build_record rule.to_state name true (permitted name from rule.to_state) none
          rule.required_proofs rule.approval_required request.approval_ref (effects_of name)

  -- apply_transition: the capability floor, legality, then the gates of the rule
  unfoldable pub apply_transition : LifecycleStateRecord
  apply_transition =
      if str_eq request.capability bottom_capability
      then refusal_record capability_floor RefusalRef.capability_bottom [] false none
      else (elim (lookup position.current_state request.transition_name request.to_state) [
        | none ↦
            refusal_record
              (not_in_table position.current_state request.transition_name request.to_state)
              RefusalRef.illegal_transition [] false none
        | some rule ↦ apply_rule rule
      ])
