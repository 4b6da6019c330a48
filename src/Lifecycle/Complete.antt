-- ===== src/Lifecycle/Complete.antt =====
-- Every permitted request is allowed, and records are consistent.
use sourceos_boot.Base.{
  Bool-cases, Option-cases, inl, inr, ◌⊎◌, true, false, not, none, some, [], ◌≡◌, ◌≢◌, refl, arith,
  ◌&&◌, ◌||◌, ◌==◌, String, Bool, str_eq, truthy, length,
}
use sourceos_boot.Lifecycle.Types.{
  State, Transition, transition_eq, TransitionRule, TransitionRequest, Position,
  LifecycleStateRecord, SideEffects,
}
use sourceos_boot.Lifecycle.Engine.{
  bottom_capability, lookup, missing_proofs, build_record, apply_rule, apply_transition,
  is_host_mutating,
}
use sourceos_boot.Lifecycle.Rules.{Edge, resolves, is_gated, evidence}
use sourceos_boot.Lifecycle.Gates.{
  IsPermitted, Provided-missing_proofs, apply_transition-IsPermitted,
}

-- The request names its target, or the transition has one target only.
abbrev pub IsDetermined : TransitionRequest → State → Type 0
IsDetermined request to =
    (request.to_state ≡ some to)
    ⊎ ((request.to_state ≡ none)
        × (transition_eq request.transition_name Transition.evaluate_compliance ≡ false))

lookup-Edge :
    {n : Transition} {p q : State} (e : Edge n p q)
    → (r : TransitionRule) × (lookup (some p) n (some q) ≡ some r)
      × (r.approval_required ≡ is_gated n)
      × (r.required_proofs ≡ evidence n)
      × (r.to_state ≡ q)
      × ((transition_eq n Transition.evaluate_compliance ≡ false) → lookup (some p) n none ≡ some r)
unfolding lookup
lookup-Edge resolves = (_, refl, refl, refl, refl, λ c. refl)
lookup-Edge _ = (_, refl, refl, refl, refl, λ c. ground arith)

-- The rule that a permitted request finds.
found :
    {position : Position} {request : TransitionRequest} {from to : State}
    → IsPermitted position request from to
    → IsDetermined request to
    → (r : TransitionRule) × (lookup position.current_state request.transition_name request.to_state
        ≡ some r)
      × (r.approval_required ≡ is_gated request.transition_name)
      × (r.required_proofs ≡ evidence request.transition_name)
      × (r.to_state ≡ to)
found {position} {request} h d =
    let (r, named, gate, proofs, to, unnamed) = lookup-Edge h.edge in
    (
      r,
      elim d [ inl e ↦ rw (h.at_state, e) named | inr (e, one) ↦ rw (h.at_state, e) (unnamed one) ],
      gate,
      proofs,
      to,
    )

open_gate : (a b : Bool) → (not a || b) ≡ true → (a && not b) ≡ false
open_gate a b h = ground arith

-- A refusal is complete: it moves the object to `blocked` under the name `refuse`, says why, and
-- announces no side effect.
abbrev pub Refuses : LifecycleStateRecord → Type 0
Refuses result =
    (result.to_state ≡ State.blocked)
    × (result.transition_name ≡ Transition.refuse)
    × (result.refusal_ref ≢ none)
    × (result.side_effects ≡ none)

host_mutating_gated : (n : Transition) → is_host_mutating n ≡ true → is_gated n ≡ true
host_mutating_gated n h = ground arith

module _ (uuid captured : String) (position : Position) (request : TransitionRequest) where
  -- A permitted request whose target is determined is allowed, moves the object to the target and
  -- lacks no proof.
  pub IsPermitted-apply_transition :
      {from to : State}
      → IsPermitted position request from to
      → IsDetermined request to
      → let result = apply_transition uuid captured position request in
        (result.allowed ≡ true) × (result.to_state ≡ to) × (result.missing ≡ [])
  unfolding apply_transition apply_rule build_record
  IsPermitted-apply_transition h d =
      let (r, l, gate, proofs, to) = found h d in
      let none_missing =
        Provided-missing_proofs (evidence request.transition_name) request.proofs_present
          h.provided in
      let gate_open =
        open_gate (is_gated request.transition_name) (truthy request.approval_ref) h.approved in
      rw (h.above_bottom, l, gate, proofs, gate_open, none_missing) (refl, to, refl)

  apply_rule-Refuses :
      (r : TransitionRule)
      → (apply_rule uuid captured position request r).allowed ≡ false
      → Refuses (apply_rule uuid captured position request r)
  unfolding apply_rule build_record
  apply_rule-Refuses r h =
      elim (Bool-cases (r.approval_required && not (truthy request.approval_ref))) [
        | inl g ↦ rw g (refl, refl, λ c. cc, refl)
        | inr g ↦
            elim (Bool-cases
              (length (missing_proofs r.required_proofs request.proofs_present) == 0)) [
                | inl m ↦ cc (rw (g, m) at h)
                | inr m ↦ rw (g, m) (refl, refl, λ c. cc, refl)
              ]
      ]

  -- A transition that is not allowed moves the object to `blocked` under the name `refuse`, names a
  -- refusal, and announces no side effect.
  pub apply_transition-Refuses :
      (apply_transition uuid captured position request).allowed ≡ false
      → Refuses (apply_transition uuid captured position request)
  unfolding apply_transition build_record
  apply_transition-Refuses h = elim (Bool-cases (str_eq request.capability bottom_capability)) [
    | inl b ↦ rw b (refl, refl, λ c. cc, refl)
    | inr b ↦
        elim (Option-cases
          (lookup position.current_state request.transition_name request.to_state)) [
            | inl l ↦ rw (b, l) (refl, refl, λ c. cc, refl)
            | inr (r, l) ↦ rw (b, l) (apply_rule-Refuses r (rw (b, l) at h))
          ]
  ]

  apply_rule-effects :
      (r : TransitionRule) {effects : SideEffects}
      → (apply_rule uuid captured position request r).side_effects ≡ some effects
      → is_host_mutating request.transition_name ≡ true
  unfolding apply_rule build_record
  apply_rule-effects r h =
      elim (Bool-cases (r.approval_required && not (truthy request.approval_ref))) [
        | inl g ↦ cc (rw g at h)
        | inr g ↦
            elim (Bool-cases
              (length (missing_proofs r.required_proofs request.proofs_present) == 0)) [
                | inl m ↦ elim (Bool-cases (is_host_mutating request.transition_name)) [
                  | inl t ↦ t
                  | inr t ↦ cc (rw (g, m, t) at h)
                ]
                | inr m ↦ cc (rw (g, m) at h)
              ]
      ]

  apply_transition-effects :
      {effects : SideEffects}
      → (apply_transition uuid captured position request).side_effects ≡ some effects
      → is_host_mutating request.transition_name ≡ true
  unfolding apply_transition build_record
  apply_transition-effects h = elim (Bool-cases (str_eq request.capability bottom_capability)) [
    | inl b ↦ cc (rw (b, build_record) at h)
    | inr b ↦
        elim (Option-cases
          (lookup position.current_state request.transition_name request.to_state)) [
            | inl l ↦ cc (rw (b, l, build_record) at h)
            | inr (r, l) ↦ apply_rule-effects r (rw (b, l) at h)
          ]
  ]

  -- A record that announces side effects is an allowed one, of `execute` or `rollback`, and the
  -- request carried an approval.
  pub apply_transition-side_effects :
      {effects : SideEffects}
      → (apply_transition uuid captured position request).side_effects ≡ some effects
      → ((apply_transition uuid captured position request).allowed ≡ true)
        × (is_host_mutating request.transition_name ≡ true)
        × (truthy request.approval_ref ≡ true)
  apply_transition-side_effects h =
      elim (Bool-cases (apply_transition uuid captured position request).allowed) [
        | inl a ↦
            let (from, p) = apply_transition-IsPermitted uuid captured position request a in
            let m = apply_transition-effects h in
            (a, m, rw (host_mutating_gated request.transition_name m) at p.approved)
        | inr a ↦ cc ((apply_transition-Refuses a).3, h)
      ]
