-- ===== src/Ab/Widths.antt =====
-- The widths of the two fields that a boot loader reads from a slot's partition entry, four bits of
-- priority and three of tries (bootPriority and triesRemaining of UpdateSlot), and which calls of
-- class AbUpdateMachine keep within them.
use sourceos_boot.Base.{
  ◌≡◌, ◌≤◌, refl, sym, subst, Bool, String, Option, true, false, none, some, arith, List, [], ◌∷◌,
}
use sourceos_boot.Ab.Types.{Label, slot_a, slot_b, SlotState, AttemptResult, Phase, RollbackReason}
use sourceos_boot.Ab.Table.{Event, Guard, TransitionRule}
use sourceos_boot.Ab.Machine.{
  AbUpdateMachine, Fault, Outcome, returned, raised, Action, ◌>>=◌, reads, branch, candidate,
  TransitionResult, Reason, allow, refuse, set_slot, get_slot, pure, or_raise, now, modify, active,
  raise_if,
}
use sourceos_boot.Ab.Checks.{
  assert_invariants, guard, first_enabled, resolve, offer, Admission, admitted, declined,
  on_admission,
}
use sourceos_boot.Ab.Events

pub record FitsEntry (x : SlotState) : Type 0 where
  pub priority : x.boot_priority ≤ 15
  pub tries : x.tries_remaining ≤ 7

pub record Within (s : AbUpdateMachine) : Type 0 where
  pub budget : s.max_attempts ≤ 7
  pub entry_a : FitsEntry s.slots.at_a
  pub entry_b : FitsEntry s.slots.at_b

-- What a call leaves, returned or raised, is within the widths if what it found was.
unfoldable pub Keeps : {A : Type 0} → Action A → Type 0
Keeps m = (s : AbUpdateMachine) → Within s → Within (m s).1

pub bind-Keeps :
    {A B : Type 0} (m : Action A) (f : A → Action B)
    → Keeps m
    → ((a : A) → Keeps (f a))
    → Keeps (◌>>=◌ m f)
unfolding Keeps
bind-Keeps {A} m f k h s w = go (m s) (k s w)
  where
    go : (x : Outcome A × AbUpdateMachine) → Within x.1 → Within (◌>>=◌ (λ _. x) f s).1
    go (returned a, s') w' = h a s' w'
    go (raised e, s') w' = w'

pub branch-Keeps :
    {A : Type 0} (b : Bool) (m n : Action A) → Keeps m → Keeps n → Keeps (branch b m n)
unfolding Keeps
branch-Keeps true m n hm hn = hm
branch-Keeps false m n hm hn = hn

pub reads-Keeps : {A : Type 0} (f : AbUpdateMachine → A) → Keeps (reads f)
unfolding Keeps
reads-Keeps f s w = w

pub pure-Keeps : {A : Type 0} (a : A) → Keeps (pure a)
unfolding Keeps
pure-Keeps a s w = w

get_slot-Keeps : (l : Option Label) → Keeps (get_slot l)
unfolding Keeps
get_slot-Keeps l s w = w

pub candidate-Keeps : Keeps candidate
unfolding Keeps
candidate-Keeps s w = w

pub active-Keeps : Keeps active
unfolding Keeps
active-Keeps s w = w

pub assert-Keeps : Keeps assert_invariants
unfolding Keeps assert_invariants
assert-Keeps s w = w

pub now-Keeps : Keeps now
unfolding Keeps
now-Keeps s w = record { budget = w.budget; entry_a = w.entry_a; entry_b = w.entry_b }

pub raise_if-Keeps : (b : Bool) (e : Fault) → Keeps (raise_if b e)
unfolding Keeps
raise_if-Keeps b e s w = w

allow-Keeps :
    (e : Event) (p : Phase) (why : Reason) (back : Option Label) → Keeps (allow e p why back)
unfolding Keeps
allow-Keeps e p why back s w = w

refuse-Keeps : (e : Event) (why : Reason) → Keeps (refuse e why)
unfolding Keeps
refuse-Keeps e why s w = w

-- A write to a field that the loader does not read.
pub modify-Keeps :
    (f : AbUpdateMachine → AbUpdateMachine)
    → ((s : AbUpdateMachine) → (f s).slots ≡ s.slots)
    → ((s : AbUpdateMachine) → (f s).max_attempts ≡ s.max_attempts)
    → Keeps (modify f)
unfolding Keeps
modify-Keeps f h k s w = record {
  budget = ground (arith, w.budget, k s);
  entry_a = subst (λ x. FitsEntry x.at_a) (sym (h s)) w.entry_a;
  entry_b = subst (λ x. FitsEntry x.at_b) (sym (h s)) w.entry_b;
}

pub set_slot-Keeps :
    (l : Option Label) (change : SlotState → SlotState)
    → ((x : SlotState) → FitsEntry x → FitsEntry (change x))
    → Keeps (set_slot l change)
unfolding Keeps
set_slot-Keeps none change h s w = w
set_slot-Keeps (some slot_a) change h s w = record {
  budget = w.budget;
  entry_a = h s.slots.at_a w.entry_a;
  entry_b = w.entry_b;
}
set_slot-Keeps (some slot_b) change h s w = record {
  budget = w.budget;
  entry_a = w.entry_a;
  entry_b = h s.slots.at_b w.entry_b;
}

pub fits_lem : (x : SlotState) → x.boot_priority ≤ 15 → x.tries_remaining ≤ 7 → FitsEntry x
fits_lem x p t = record { priority = p; tries = t }

pub priority_lem : (x : SlotState) → FitsEntry x → x.boot_priority ≤ 15
priority_lem x h = h.priority

pub tries_lem : (x : SlotState) → FitsEntry x → x.tries_remaining ≤ 7
tries_lem x h = h.tries

pub top_priority : 15 ≤ 15
top_priority = omega arith

pub demoted_priority : 14 ≤ 15
demoted_priority = omega arith

no_priority : 0 ≤ 15
no_priority = omega arith

pub no_tries : 0 ≤ 7
no_tries = omega arith

ruleset entries =
    (fits_lem, priority_lem, tries_lem, top_priority, demoted_priority, no_priority, no_tries)

ruleset keeping = (
  bind-Keeps, branch-Keeps, reads-Keeps, get_slot-Keeps, candidate-Keeps, active-Keeps,
  assert-Keeps, now-Keeps, allow-Keeps, refuse-Keeps, modify-Keeps, refl,
)

pub phase-Keeps : (p : Phase) → Keeps (modify λ s. record s { phase = p })
unfolding Keeps
phase-Keeps p s w = record { budget = w.budget; entry_a = w.entry_a; entry_b = w.entry_b }

pub mark-Keeps : Keeps Events.mark_candidate_unbootable
unfolding Events.mark_candidate_unbootable
mark-Keeps =
    search (bind-Keeps, branch-Keeps, reads-Keeps, get_slot-Keeps, set_slot-Keeps, entries) depth 30
      fits 20000

pub record_attempt-Keeps :
    (r : AttemptResult) (back : Option Label) (why : Option String)
    → Keeps (Events.record_attempt r back why)
unfolding Events.record_attempt
record_attempt-Keeps r back why = search keeping depth 30 fits 20000

pub settle-Keeps : (p : Phase) (r : Option RollbackReason) → Keeps (Events.settle p r)
unfolding Events.settle
settle-Keeps p r = search keeping depth 30 fits 20000

or_raise-Keeps : {A : Type 0} (o : Option A) (e : Fault) → Keeps (or_raise o e)
unfolding Keeps
or_raise-Keeps o e s w = w

guard-Keeps : (g : Guard) (o : Option String) → Keeps (guard g o)
unfolding guard
guard-Keeps Guard.digest_matches o = search (bind-Keeps, or_raise-Keeps, reads-Keeps)
guard-Keeps Guard.digest_mismatch o = search (bind-Keeps, or_raise-Keeps, reads-Keeps)
guard-Keeps Guard.tries_remain o = search (bind-Keeps, candidate-Keeps, pure-Keeps)
guard-Keeps Guard.tries_exhausted o = search (bind-Keeps, candidate-Keeps, pure-Keeps)

first_enabled-Keeps :
    (rules : List TransitionRule) (o : Option String) → Keeps (first_enabled rules o)
unfolding first_enabled
first_enabled-Keeps [] o = pure-Keeps {A = Option TransitionRule} none
first_enabled-Keeps (r ∷ rs) o = go r.guard (first_enabled rs o) (first_enabled-Keeps rs o)
  where
    go :
        (found : Option Guard) (rest : Action (Option TransitionRule))
        → Keeps rest
        → Keeps (elim found [
          | none ↦ pure (some r)
          | some g ↦ ◌>>=◌ (guard g o) (λ passes. branch passes (pure (some r)) rest)
        ])
    go none rest k = pure-Keeps (some r)
    go (some g) rest k = search (bind-Keeps, guard-Keeps, branch-Keeps, pure-Keeps)

offer-Keeps : (e : Event) (o : Option String) → Keeps (offer e o)
unfolding offer resolve
offer-Keeps e o =
    search (bind-Keeps, branch-Keeps, reads-Keeps, pure-Keeps, first_enabled-Keeps) depth 20

-- what `on_admission` makes of an offer's result
abbrev follow :
    (TransitionRule → Action TransitionResult)
    → Outcome Admission × AbUpdateMachine
    → Outcome TransitionResult × AbUpdateMachine
follow body (r, s) = elim r [
  | raised f ↦ (raised f, s)
  | returned outcome ↦ elim outcome [ declined t ↦ (returned t, s) | admitted rule ↦ body rule s ]
]

pub admission-Keeps :
    (e : Event) (o : Option String) (body : TransitionRule → Action TransitionResult)
    → ((rule : TransitionRule) → Keeps (body rule))
    → Keeps (on_admission e o body)
unfolding Keeps
admission-Keeps e o body h s w = go (offer e o s) (offer-Keeps e o s w)
  where
    go : (x : Outcome Admission × AbUpdateMachine) → Within x.1 → Within (follow body x).1
    go (returned (declined t), s') w' = w'
    go (returned (admitted rule), s') w' = h rule s' w'
    go (raised f, s') w' = w'
