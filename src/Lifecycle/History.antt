-- ===== src/Lifecycle/History.antt =====
-- Objects that a caller advances with `apply_transition`, from the draft on.
use sourceos_boot.Base.{
  some-injective, sym, ◌∙◌, String, Bool, true, false, not, some, List, [], ◌∷◌, ◌≡◌, refl, arith,
  ◌&&◌, ◌||◌, ◌==◌, All, any, truthy, length, eq_iff,
}
use sourceos_boot.Lifecycle.Types.{State, Transition, transition_eq, TransitionRequest, Position}
use sourceos_boot.Lifecycle.Engine.{missing_proofs, apply_transition}
use sourceos_boot.Lifecycle.Rules.{
  Edge, is_gated, evidence, validates, offers_compliant, offers_noncompliant, offers_executed,
}
use sourceos_boot.Lifecycle.Gates.{
  Provided-missing_proofs, apply_transition-IsPermitted, IsPermitted,
}

-- `History s rs`: an object that was minted as a draft is at `s` after the requests `rs`, the latest
-- first. Its caller moves it to the target of an allowed record and leaves it where it is otherwise.
pub data History : State → List TransitionRequest → Type 0 where
  minted : History State.draft []
  moved :
      (uuid captured : String) (position : Position) (request : TransitionRequest) {p : State}
      {rs : List TransitionRequest}
      → History p rs
      → position.current_state ≡ some p
      → (apply_transition uuid captured position request).allowed ≡ true
      → History (apply_transition uuid captured position request).to_state (request ∷ rs)
  refused :
      (uuid captured : String) (position : Position) (request : TransitionRequest) {p : State}
      {rs : List TransitionRequest}
      → History p rs
      → (apply_transition uuid captured position request).allowed ≡ false
      → History p (request ∷ rs)

-- The request asks for `n`, with its evidence and, where `n` is gated, an approval.
abbrev pub cleared : Transition → TransitionRequest → Bool
cleared n r =
    transition_eq r.transition_name n
    && ((not (is_gated n) || truthy r.approval_ref)
        && (length (missing_proofs (evidence n) r.proofs_present) == 0))

abbrev through_signing : List Transition
through_signing = Transition.sign ∷ Transition.build ∷ Transition.resolve_bom ∷ []

abbrev through_planning : List Transition
through_planning = Transition.plan ∷ Transition.assign ∷ through_signing

abbrev through_execution : List Transition
through_execution = Transition.execute ∷ Transition.load_only ∷ Transition.fetch ∷ through_planning

-- the transitions behind an object at a state
abbrev pub behind : State → List Transition
behind State.resolved = Transition.resolve_bom ∷ []
behind State.built = Transition.build ∷ Transition.resolve_bom ∷ []
behind State.signed = through_signing
behind State.assigned = Transition.assign ∷ through_signing
behind State.planned = through_planning
behind State.fetched = Transition.fetch ∷ through_planning
behind State.loaded = Transition.load_only ∷ Transition.fetch ∷ through_planning
behind State.executed = through_execution
behind State.attested = Transition.attest ∷ through_execution
behind State.compliant = Transition.evaluate_compliance ∷ Transition.attest ∷ through_execution
behind State.noncompliant = Transition.evaluate_compliance ∷ Transition.attest ∷ through_execution
behind State.rollback_available = through_execution
behind State.rolled_back = Transition.rollback ∷ through_execution
behind _ = []

-- Each of the transitions was cleared by one of the requests.
abbrev pub AllCleared : List TransitionRequest → List Transition → Type 0
AllCleared rs = All (λ n. any (cleared n) rs ≡ true)

or_true : (a b : Bool) → b ≡ true → (a || b) ≡ true
or_true a b h = ground arith

or_left : (a b : Bool) → a ≡ true → (a || b) ≡ true
or_left a b h = ground arith

and_both : (a b : Bool) → a ≡ true → b ≡ true → (a && b) ≡ true
and_both a b h k = ground arith

later :
    (r : TransitionRequest) (rs : List TransitionRequest) (ns : List Transition)
    → AllCleared rs ns
    → AllCleared (r ∷ rs) ns
later r rs [] h = tt
later r rs (n ∷ ns) h = (or_true (cleared n r) (any (cleared n) rs) h.0, later r rs ns h.1)

module _ (r : TransitionRequest) (rs : List TransitionRequest) where
  crossed :
      {n : Transition} {p q : State}
      → Edge n p q
      → cleared n r ≡ true
      → AllCleared rs (behind p)
      → AllCleared (r ∷ rs) (n ∷ behind p)
  crossed {n} {p} e c h = (or_left (cleared n r) (any (cleared n) rs) c, later r rs (behind p) h)

  behind-Edge :
      {n : Transition} {p q : State}
      → Edge n p q
      → AllCleared (r ∷ rs) (n ∷ behind p)
      → AllCleared (r ∷ rs) (behind q)
  behind-Edge validates h = h.1
  behind-Edge offers_compliant h = h.1.1.1
  behind-Edge offers_noncompliant h = h.1.1.1
  behind-Edge offers_executed h = h.1
  behind-Edge _ h = h

transition_eq_refl : (n : Transition) → transition_eq n n ≡ true
transition_eq_refl (Transition.unlisted s) = ground (arith, eq_iff s s)
transition_eq_refl n = ground arith

IsPermitted-cleared :
    {position : Position} {request : TransitionRequest} {from to : State}
    → IsPermitted position request from to
    → cleared request.transition_name request ≡ true
IsPermitted-cleared {position} {request} h =
    let n = request.transition_name in
    rw
      (
        transition_eq_refl n,
        h.approved,
        Provided-missing_proofs (evidence n) request.proofs_present h.provided,
      )
      refl

-- Wherever an object stands, each transition behind it was asked for by one of the requests, with
-- its evidence and, where it is gated, an approval.
pub History-AllCleared :
    {s : State} {rs : List TransitionRequest} → History s rs → AllCleared rs (behind s)
History-AllCleared minted = tt
History-AllCleared (moved uuid captured position request {p} {rs} h at allowed) =
    let (from, permitted) = apply_transition-IsPermitted uuid captured position request allowed in
    let same = some-injective from p (sym permitted.at_state ∙ at) in
    behind-Edge request rs permitted.edge (
      crossed request rs permitted.edge (IsPermitted-cleared permitted)
        (rw same (History-AllCleared h)))
History-AllCleared (refused uuid captured position request {p} {rs} h denied) =
    later request rs (behind p) (History-AllCleared h)
