-- ===== src/Lifecycle/Types.antt =====
-- The data of lifecycle_state_machine.py: states, transition names, the rule table, requests and
-- records. A name that is in neither STATES nor TRANSITIONS is `unlisted`.
use sourceos_boot.Base.{ℕ, String, Bool, true, false, Option, List, [], ◌∷◌, ◌==◌, str_eq}

-- STATES
pub data State : Type 0 where
  draft resolved built signed assigned planned fetched loaded executed attested : State
  compliant noncompliant rollback_available rolled_back blocked : State
  unlisted : String → State

abbrev state_code : State → ℕ
state_code State.draft = 0
state_code State.resolved = 1
state_code State.built = 2
state_code State.signed = 3
state_code State.assigned = 4
state_code State.planned = 5
state_code State.fetched = 6
state_code State.loaded = 7
state_code State.executed = 8
state_code State.attested = 9
state_code State.compliant = 10
state_code State.noncompliant = 11
state_code State.rollback_available = 12
state_code State.rolled_back = 13
state_code State.blocked = 14
state_code (State.unlisted s) = 15

-- `a == b` on state names
abbrev pub state_eq : State → State → Bool
state_eq (State.unlisted s) (State.unlisted t) = str_eq s t
state_eq a b = state_code a == state_code b

-- TRANSITIONS
pub data Transition : Type 0 where
  resolve_bom build sign assign validate_token plan fetch load_only execute attest : Transition
  evaluate_compliance mark_rollback_available rollback refuse : Transition
  unlisted : String → Transition

abbrev transition_code : Transition → ℕ
transition_code Transition.resolve_bom = 0
transition_code Transition.build = 1
transition_code Transition.sign = 2
transition_code Transition.assign = 3
transition_code Transition.validate_token = 4
transition_code Transition.plan = 5
transition_code Transition.fetch = 6
transition_code Transition.load_only = 7
transition_code Transition.execute = 8
transition_code Transition.attest = 9
transition_code Transition.evaluate_compliance = 10
transition_code Transition.mark_rollback_available = 11
transition_code Transition.rollback = 12
transition_code Transition.refuse = 13
transition_code (Transition.unlisted s) = 14

-- `a == b` on transition names
abbrev pub transition_eq : Transition → Transition → Bool
transition_eq (Transition.unlisted s) (Transition.unlisted t) = str_eq s t
transition_eq a b = transition_code a == transition_code b

-- TransitionRule
pub record TransitionRule : Type 0 where
  pub name : Transition
  pub from_state : State
  pub to_state : State
  pub approval_required : Bool
  pub required_proofs : List String

abbrev rule : Transition → State → State → Bool → List String → TransitionRule
rule n p q a r = record {
  name = n;
  from_state = p;
  to_state = q;
  approval_required = a;
  required_proofs = r;
}

-- TRANSITION_TABLE
abbrev pub transition_table : List TransitionRule
transition_table =
    rule Transition.resolve_bom State.draft State.resolved false []
    ∷ rule Transition.build State.resolved State.built false ("sbomRef" ∷ [])
    ∷ rule Transition.sign State.built State.signed true
        ("signatureRef" ∷ "katelloManifestRef" ∷ [])
    ∷ rule Transition.assign State.signed State.assigned true ("trustChainAdmissionRef" ∷ [])
    ∷ rule Transition.validate_token State.assigned State.assigned false []
    ∷ rule Transition.plan State.assigned State.planned false []
    ∷ rule Transition.fetch State.planned State.fetched false ("artifactDigestRef" ∷ [])
    ∷ rule Transition.load_only State.fetched State.loaded false []
    ∷ rule Transition.execute State.loaded State.executed true []
    ∷ rule Transition.attest State.executed State.attested false ("attestationRef" ∷ [])
    ∷ rule Transition.evaluate_compliance State.attested State.compliant false []
    ∷ rule Transition.evaluate_compliance State.attested State.noncompliant false []
    ∷ rule Transition.mark_rollback_available State.compliant State.rollback_available false []
    ∷ rule Transition.mark_rollback_available State.noncompliant State.rollback_available false []
    ∷ rule Transition.mark_rollback_available State.executed State.rollback_available false []
    ∷ rule Transition.rollback State.rollback_available State.rolled_back true []
    ∷ []

-- TransitionRequest
pub record TransitionRequest : Type 0 where
  pub transition_name : Transition
  pub capability : String
  pub to_state : Option State
  pub proofs_present : List String
  pub approval_ref : Option String
  pub policy_ref : String
  pub policy_hash : String

-- The keys that `apply_transition` reads of its `record`; `none` is a key that is not there (and for
-- `currentState` also the value None).
pub record Position : Type 0 where
  pub current_state : Option State
  pub subject_ref : Option String
  pub object_ref : Option String
  pub object_kind : Option String

-- the refusalRef of a refusal
pub data RefusalRef : Type 0 where
  capability_bottom illegal_transition approval_required missing_evidence : RefusalRef

-- the reason: one constructor for each message, with what it interpolates
pub data Reason : Type 0 where
  capability_floor : Reason
  not_in_table : Option State → Transition → Option State → Reason
  needs_approval : Transition → Option State → State → Reason
  lacks_proofs : Transition → List String → Reason
  permitted : Transition → Option State → State → Reason

-- sideEffects
pub record SideEffects : Type 0 where
  pub host_mutation : Bool
  pub disk_write : Bool
  pub reboot : Bool
  pub network_fetch : Bool

-- A LifecycleStateRecord, without its constant keys.
pub record LifecycleStateRecord : Type 0 where
  pub record_id : String
  pub captured_at : String
  pub subject_ref : String
  pub object_ref : String
  pub object_kind : String
  pub from_state : Option State
  pub to_state : State
  pub transition_name : Transition
  pub allowed : Bool
  pub reason : Reason
  pub refusal_ref : Option RefusalRef
  pub required : List String
  pub present : List String
  pub missing : List String
  pub policy_ref : String
  pub policy_hash : String
  pub approval_required : Bool
  pub approval_ref : Option String
  pub side_effects : Option SideEffects
