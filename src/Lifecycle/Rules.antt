-- ===== src/Lifecycle/Rules.antt =====
-- The rule table against the promotion lineage, written as a relation.
use sourceos_boot.Base.{
  String, Bool, true, false, Option, none, some, List, [], ◌∷◌, ◌≡◌, ◌&&◌, arith, eq_iff, and_true,
  ap, sym, subst, some-injective, All, All-select, All-find,
}
use sourceos_boot.Lifecycle.Types.{
  State, state_eq, Transition, transition_eq, TransitionRule, transition_table,
}
use sourceos_boot.Lifecycle.Engine.{index, choose, lookup}

-- The promotion lineage: `Edge n p q` says that `n` leads from `p` to `q`.
pub data Edge : Transition → State → State → Type 0 where
  resolves : Edge Transition.resolve_bom State.draft State.resolved
  builds : Edge Transition.build State.resolved State.built
  signs : Edge Transition.sign State.built State.signed
  assigns : Edge Transition.assign State.signed State.assigned
  validates : Edge Transition.validate_token State.assigned State.assigned
  plans : Edge Transition.plan State.assigned State.planned
  fetches : Edge Transition.fetch State.planned State.fetched
  loads : Edge Transition.load_only State.fetched State.loaded
  executes : Edge Transition.execute State.loaded State.executed
  attests : Edge Transition.attest State.executed State.attested
  complies : Edge Transition.evaluate_compliance State.attested State.compliant
  fails : Edge Transition.evaluate_compliance State.attested State.noncompliant
  offers_compliant :
      Edge Transition.mark_rollback_available State.compliant State.rollback_available
  offers_noncompliant :
      Edge Transition.mark_rollback_available State.noncompliant State.rollback_available
  offers_executed : Edge Transition.mark_rollback_available State.executed State.rollback_available
  rolls_back : Edge Transition.rollback State.rollback_available State.rolled_back

-- the transitions that mutate a host or commit a release
abbrev pub is_gated : Transition → Bool
is_gated Transition.sign = true
is_gated Transition.assign = true
is_gated Transition.execute = true
is_gated Transition.rollback = true
is_gated _ = false

-- the evidence that a transition needs
abbrev pub evidence : Transition → List String
evidence Transition.build = "sbomRef" ∷ []
evidence Transition.sign = "signatureRef" ∷ "katelloManifestRef" ∷ []
evidence Transition.assign = "trustChainAdmissionRef" ∷ []
evidence Transition.fetch = "artifactDigestRef" ∷ []
evidence Transition.attest = "attestationRef" ∷ []
evidence _ = []

-- A rule states an edge, its gate and its evidence.
pub record IsSound (r : TransitionRule) : Type 0 where
  pub edge : Edge r.name r.from_state r.to_state
  pub gate : r.approval_required ≡ is_gated r.name
  pub proofs : r.required_proofs ≡ evidence r.name

ruleset edges = (
  resolves, builds, signs, assigns, validates, plans, fetches, loads, executes, attests, complies,
  fails, offers_compliant, offers_noncompliant, offers_executed, rolls_back,
)

transition_table-IsSound : All IsSound transition_table
transition_table-IsSound = search edges depth 40

pub state_eq_sound : (a b : State) → state_eq a b ≡ true → a ≡ b
state_eq_sound (State.unlisted s) (State.unlisted t) h = ground (arith, eq_iff s t)
state_eq_sound a b h = ground arith

pub transition_eq_sound : (a b : Transition) → transition_eq a b ≡ true → a ≡ b
transition_eq_sound (Transition.unlisted s) (Transition.unlisted t) h = ground (arith, eq_iff s t)
transition_eq_sound a b h = ground arith

-- the rules that the index holds under a key
abbrev Keyed : State → Transition → TransitionRule → Type 0
Keyed p n r = IsSound r × ((state_eq r.from_state p && transition_eq r.name n) ≡ true)

index-Keyed : (p : State) (n : Transition) → All (Keyed p n) (index (some p) n)
unfolding index
index-Keyed p n =
    All-select IsSound (λ r. state_eq r.from_state p && transition_eq r.name n) transition_table
      transition_table-IsSound

choose-Keyed :
    (p : State) (n : Transition) (rs : List TransitionRule) (to : Option State) {r : TransitionRule}
    → All (Keyed p n) rs
    → choose rs to ≡ some r
    → Keyed p n r
choose-Keyed p n (x ∷ []) none {r} h e = subst (Keyed p n) (some-injective x r e) h.0
choose-Keyed p n [] none h e = cc
choose-Keyed p n (x ∷ y ∷ rs) none h e = cc
choose-Keyed p n rs (some q) h e = (All-find (Keyed p n) (λ r. state_eq r.to_state q) rs h e).0

none-choose :
    (n : Transition) (to : Option State) {r : TransitionRule}
    → choose (index none n) to ≡ some r
    → ⊥
unfolding index
none-choose n none h = cc
none-choose n (some q) h = cc

-- A rule that `lookup` returns starts at the state and has the name that were asked for, and states
-- an edge of the lineage with its gate and evidence.
pub lookup-IsSound :
    (p : Option State) (n : Transition) (to : Option State) {r : TransitionRule}
    → lookup p n to ≡ some r
    → IsSound r × (p ≡ some r.from_state) × (n ≡ r.name)
unfolding lookup
lookup-IsSound none n to h = absurd (none-choose n to h)
lookup-IsSound (some p) n to {r} h =
    let k = choose-Keyed p n (index (some p) n) to (index-Keyed p n) h in
    let keys = and_true (state_eq r.from_state p) (transition_eq r.name n) k.1 in
    (
      k.0,
      ap some (sym (state_eq_sound r.from_state p keys.0)),
      sym (transition_eq_sound r.name n keys.1),
    )
