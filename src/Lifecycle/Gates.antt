-- ===== src/Lifecycle/Gates.antt =====
-- What an allowed record means, and when a request is allowed.
use sourceos_boot.Base.{
  String, Bool, Bool-cases, Option-cases, inl, inr, true, false, not, some, List, [], ◌∷◌, ◌≡◌,
  refl, sym, ◌&&◌, ◌||◌, ◌==◌, arith, All, str_eq, mem_text, truthy, length,
}
use sourceos_boot.Lifecycle.Types.{State, TransitionRule, TransitionRequest, Position}
use sourceos_boot.Lifecycle.Engine.{
  bottom_capability, lookup, missing_proofs, build_record, apply_rule, apply_transition,
}
use sourceos_boot.Lifecycle.Rules.{Edge, is_gated, evidence, lookup-IsSound}

-- Every proof of the list is present on the request.
abbrev pub Provided : List String → List String → Type 0
Provided needed present = All (λ p. mem_text p present ≡ true) needed

pub missing_proofs-Provided :
    (needed present : List String) → missing_proofs needed present ≡ [] → Provided needed present
unfolding missing_proofs
missing_proofs-Provided [] present h = tt
missing_proofs-Provided (p ∷ ps) present h = elim (Bool-cases (mem_text p present)) [
  | inl e ↦ (e, missing_proofs-Provided ps present (rw e at h))
  | inr e ↦ cc (rw e at h)
]

pub Provided-missing_proofs :
    (needed present : List String) → Provided needed present → missing_proofs needed present ≡ []
unfolding missing_proofs
Provided-missing_proofs [] present h = refl
Provided-missing_proofs (p ∷ ps) present h = rw h.0 (Provided-missing_proofs ps present h.1)

-- The conditions under which a request may move its object: the actor's capability is not the
-- bottom one, the move is an edge of the lineage, a gated transition is approved, and its evidence
-- is present.
pub record IsPermitted (position : Position) (request : TransitionRequest) (from to : State)
    : Type 0 where
  pub at_state : position.current_state ≡ some from
  pub above_bottom : str_eq request.capability bottom_capability ≡ false
  pub edge : Edge request.transition_name from to
  pub approved : (not (is_gated request.transition_name) || truthy request.approval_ref) ≡ true
  pub provided : Provided (evidence request.transition_name) request.proofs_present

length-zero {ℓ} : {A : Type ℓ} (xs : List A) → (length xs == 0) ≡ true → xs ≡ []
length-zero [] h = refl
length-zero (x ∷ xs) h = absurd (ground arith)

ungated : (a b : Bool) → (a && not b) ≡ false → (not a || b) ≡ true
ungated a b h = ground arith

module _ (uuid captured : String) (position : Position) (request : TransitionRequest) where
  apply_rule-allowed :
      (r : TransitionRule)
      → (apply_rule uuid captured position request r).allowed ≡ true
      → ((not r.approval_required || truthy request.approval_ref) ≡ true)
        × (missing_proofs r.required_proofs request.proofs_present ≡ [])
        × ((apply_rule uuid captured position request r).to_state ≡ r.to_state)
  unfolding apply_rule
  apply_rule-allowed r h =
      elim (Bool-cases (r.approval_required && not (truthy request.approval_ref))) [
        | inl g ↦ cc (rw g at h)
        | inr g ↦
            elim (Bool-cases
              (length (missing_proofs r.required_proofs request.proofs_present) == 0)) [
                | inl m ↦ (
                  ungated r.approval_required (truthy request.approval_ref) g,
                  length-zero (missing_proofs r.required_proofs request.proofs_present) m,
                  rw (g, m) refl,
                )
                | inr m ↦ cc (rw (g, m) at h)
              ]
      ]

  -- Whatever is allowed is permitted
  pub apply_transition-IsPermitted :
      (apply_transition uuid captured position request).allowed ≡ true
      → (from : State) × IsPermitted position request from
          (apply_transition uuid captured position request).to_state
  unfolding apply_transition build_record
  apply_transition-IsPermitted h = elim (Bool-cases (str_eq request.capability bottom_capability)) [
    | inl b ↦ cc (rw (b, build_record) at h)
    | inr b ↦
        elim (Option-cases
          (lookup position.current_state request.transition_name request.to_state)) [
            | inl l ↦ cc (rw (b, l, build_record) at h)
            | inr (r, l) ↦
                let (sound, at, name) =
                  lookup-IsSound position.current_state request.transition_name request.to_state
                    l in
                let (ok, none_missing, to) = apply_rule-allowed r (rw (b, l) at h) in
                (
                  r.from_state,
                  record {
                    at_state = at;
                    above_bottom = b;
                    edge = rw (b, l, to) (rw name sound.edge);
                    approved = rw name (rw (sym sound.gate) ok);
                    provided = rw name (
                        rw (sym sound.proofs) (
                          missing_proofs-Provided r.required_proofs request.proofs_present
                            none_missing));
                  },
                )
          ]
  ]
