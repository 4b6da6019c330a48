-- ===== src/Ab/Bounds.antt =====
-- The event methods of class AbUpdateMachine and the widths of Widths.antt: every phase, and also
-- the state that a raise leaves.
use sourceos_boot.Base.{
  ◌≡◌, ◌≤◌, refl, ℕ, ◌-◌, Bool, String, Option, true, false, none, some, arith, List, [], ◌∷◌,
}
use sourceos_boot.Ab.Types.{Label, Role, SlotPhase, SlotState, AttemptResult}
use sourceos_boot.Ab.Table.{Event}
use sourceos_boot.Ab.Machine.{
  AbUpdateMachine, returned, Action, ◌>>=◌, reads, candidate, TransitionResult, find_candidate,
  stop_iteration, set_slot, pure, or_raise,
}
use sourceos_boot.Ab.Commands.{Command, perform, replay}
use sourceos_boot.Ab.Construct.{construct}
use sourceos_boot.Ab.Events
use sourceos_boot.Ab.Widths.{
  FitsEntry, Within, Keeps, bind-Keeps, branch-Keeps, reads-Keeps, pure-Keeps, candidate-Keeps,
  active-Keeps, assert-Keeps, now-Keeps, raise_if-Keeps, modify-Keeps, set_slot-Keeps, fits_lem,
  priority_lem, tries_lem, top_priority, demoted_priority, no_tries, phase-Keeps, mark-Keeps,
  record_attempt-Keeps, settle-Keeps, admission-Keeps,
}

-- The writes to a slot, one for each event that makes one.
module _ (l : Option Label) where
  overwritten-Keeps :
      (d : String) (ref ver : Option String)
      → Keeps (
          set_slot l λ x. record x {
            state = SlotPhase.writing;
            successful = false;
            payload_digest = some d;
            payload_ref = ref;
            version = ver;
            last_probe_verdict = none;
          })
  overwritten-Keeps d ref ver = search (set_slot-Keeps, fits_lem, priority_lem, tries_lem)

  written-Keeps : Keeps (set_slot l λ x. record x { state = SlotPhase.written })
  written-Keeps = search (set_slot-Keeps, fits_lem, priority_lem, tries_lem)

  promoted-Keeps : Keeps (
      set_slot l λ x. record x {
        role = Role.active;
        state = SlotPhase.good;
        successful = true;
        boot_priority = 15;
        tries_remaining = 0;
        last_probe_verdict = some "pass";
      })
  promoted-Keeps = search (set_slot-Keeps, fits_lem, top_priority, no_tries)

  demoted-Keeps : Keeps (set_slot l λ x. record x { role = Role.candidate; boot_priority = 14 })
  demoted-Keeps = search (set_slot-Keeps, fits_lem, demoted_priority, tries_lem)

  failed-Keeps : Keeps (
      set_slot l λ x. record x {
        currently_running = false;
        state = SlotPhase.written;
        last_probe_verdict = some "fail";
      })
  failed-Keeps = search (set_slot-Keeps, fits_lem, priority_lem, tries_lem)

  running-Keeps : (b : Bool) → Keeps (set_slot l λ x. record x { currently_running = b })
  running-Keeps b = search (set_slot-Keeps, fits_lem, priority_lem, tries_lem)

  spent-Keeps : Keeps (set_slot l λ x. record x { tries_remaining = 0 })
  spent-Keeps = search (set_slot-Keeps, fits_lem, priority_lem, no_tries)

ruleset moves = (
  admission-Keeps, bind-Keeps, branch-Keeps, reads-Keeps, mark-Keeps, record_attempt-Keeps,
  settle-Keeps,
)

write_failed-Keeps : (why : String) → Keeps (Events.write_failed why)
unfolding Events.write_failed
write_failed-Keeps why = search moves depth 30 fits 20000

write_complete-Keeps : (d : String) → Keeps (Events.write_complete d)
unfolding Events.write_complete
write_complete-Keeps d =
    search
      (
        admission-Keeps, phase-Keeps, written-Keeps, bind-Keeps, branch-Keeps, reads-Keeps,
        mark-Keeps, settle-Keeps, assert-Keeps,
      )
      depth 30 fits 20000

operator_abort-Keeps : (why : String) → Keeps (Events.operator_abort why)
unfolding Events.operator_abort
operator_abort-Keeps why = search moves depth 30 fits 20000

probe_pass-Keeps : (why : Option String) → Keeps (Events.probe_pass why)
unfolding Events.probe_pass
probe_pass-Keeps why = search (moves, promoted-Keeps, demoted-Keeps) depth 30 fits 20000

fail_attempt-Keeps :
    (e : Event) (r : AttemptResult) (why : String) → Keeps (Events.fail_attempt e r why)
unfolding Events.fail_attempt
fail_attempt-Keeps e r why =
    search (moves, failed-Keeps, running-Keeps, assert-Keeps, candidate-Keeps, phase-Keeps) depth 30
      fits 20000

begin-Keeps : (d : String) (r v : Option String) → Keeps (Events.begin d r v)
unfolding Events.begin
begin-Keeps d r v =
    search
      (
        admission-Keeps, bind-Keeps, active-Keeps, candidate-Keeps, reads-Keeps, overwritten-Keeps,
        now-Keeps, assert-Keeps, modify-Keeps, phase-Keeps,
      )
      depth 40 fits 20000

watchdog_expired-Keeps : (w a : String) → Keeps (Events.watchdog_expired w a)
unfolding Events.watchdog_expired
watchdog_expired-Keeps w a =
    search (bind-Keeps, raise_if-Keeps, reads-Keeps, branch-Keeps, spent-Keeps, fail_attempt-Keeps)
      depth 30 fits 20000

-- What `arm` and `boot_attempt` write is read from the machine.
reads_budget-Keeps :
    {B : Type 0} (t : ℕ → Action B)
    → ((n : ℕ) → n ≤ 7 → Keeps (t n))
    → Keeps (◌>>=◌ (reads λ s. s.max_attempts) t)
unfolding Keeps
reads_budget-Keeps t h s w = h s.max_attempts w.budget s w

candidate-FitsEntry :
    (s : AbUpdateMachine) (c : SlotState) → find_candidate s.slots ≡ some c → Within s → FitsEntry c
candidate-FitsEntry s c h w = ground arith

reads_candidate-Keeps :
    {B : Type 0} (t : SlotState → Action B)
    → ((c : SlotState) → FitsEntry c → Keeps (t c))
    → Keeps (◌>>=◌ candidate t)
unfolding Keeps
reads_candidate-Keeps {B} t h s w = go (find_candidate s.slots) (λ c e. candidate-FitsEntry s c e w)
  where
    go :
        (o : Option SlotState)
        → ((c : SlotState) → o ≡ some c → FitsEntry c)
        → Within (◌>>=◌ (or_raise o stop_iteration) t s).1
    go none k = w
    go (some c) k = h c (k c refl) s w

one_less : (c : SlotState) → FitsEntry c → c.tries_remaining - 1 ≤ 7
one_less c h = omega (arith, h.tries)

module _ (l : Option Label) where
  ranked-Keeps : Keeps (set_slot l λ x. record x { boot_priority = Events.armed_active_priority })
  ranked-Keeps = search (set_slot-Keeps, fits_lem, demoted_priority, tries_lem)

  armed-Keeps :
      (n : ℕ)
      → n ≤ 7
      → Keeps (
          set_slot l λ x. record x {
            boot_priority = Events.armed_candidate_priority;
            tries_remaining = n;
            successful = false;
          })
  armed-Keeps n h = search (set_slot-Keeps, fits_lem, top_priority)

  tried-Keeps :
      (n : ℕ)
      → n ≤ 7
      → Keeps (
          set_slot l λ x. record x {
            tries_remaining = n;
            state = SlotPhase.trying;
            currently_running = true;
          })
  tried-Keeps n h = search (set_slot-Keeps, fits_lem, priority_lem)

arm-Keeps : Keeps Events.arm
unfolding Events.arm
arm-Keeps =
    search
      (
        admission-Keeps, reads_budget-Keeps, bind-Keeps, reads-Keeps, ranked-Keeps, armed-Keeps,
        phase-Keeps, assert-Keeps,
      )
      depth 30 fits 20000

boot_attempt-Keeps : Keeps Events.boot_attempt
unfolding Events.boot_attempt
boot_attempt-Keeps =
    search
      (
        admission-Keeps, reads_candidate-Keeps, bind-Keeps, reads-Keeps, branch-Keeps, tried-Keeps,
        one_less, running-Keeps, phase-Keeps, assert-Keeps,
      )
      depth 30 fits 20000

perform-Keeps : (c : Command) → Keeps (perform c)
unfolding perform Events.probe_fail
perform-Keeps (Command.begin d r v) = begin-Keeps d r v
perform-Keeps (Command.write_complete d) = write_complete-Keeps d
perform-Keeps (Command.write_failed w) = write_failed-Keeps w
perform-Keeps Command.arm = arm-Keeps
perform-Keeps Command.boot_attempt = boot_attempt-Keeps
perform-Keeps (Command.probe_pass w) = probe_pass-Keeps w
perform-Keeps (Command.probe_fail w) = fail_attempt-Keeps _ _ w
perform-Keeps (Command.watchdog_expired w a) = watchdog_expired-Keeps w a
perform-Keeps (Command.operator_abort w) = operator_abort-Keeps w

replay-Keeps : (cs : List Command) → Keeps (replay cs)
unfolding replay
replay-Keeps [] = pure-Keeps {A = List TransitionResult} []
replay-Keeps (c ∷ cs) =
    bind-Keeps (perform c) (λ r. ◌>>=◌ (replay cs) (λ log. pure (r ∷ log))) (perform-Keeps c)
      λ r.
        bind-Keeps (replay cs) (λ log. pure (r ∷ log)) (replay-Keeps cs) λ log. pure-Keeps (r ∷ log)

module _ (target transaction : String) (items : List (Label × SlotState)) (probe digest : String)
    (budget : ℕ) (clock_of : ℕ → String) where
  construct-budget :
      (m : AbUpdateMachine)
      → construct target transaction items probe digest budget clock_of ≡ returned m
      → m.max_attempts ≤ 7
  unfolding construct
  construct-budget m h = ground arith

  -- If the constructor returns a machine whose two slots have a boot priority of at most 15 and at
  -- most 7 tries remaining, then after every list of events, whether it returned or raised, both
  -- slots of the machine have so too, and the attempt budget is at most 7.
  pub replay-Within :
      (m : AbUpdateMachine) (cs : List Command)
      → construct target transaction items probe digest budget clock_of ≡ returned m
      → FitsEntry m.slots.at_a
      → FitsEntry m.slots.at_b
      → Within (replay cs m).1
  unfolding Keeps
  replay-Within m cs h fa fb =
      replay-Keeps cs m record { budget = construct-budget m h; entry_a = fa; entry_b = fb }
