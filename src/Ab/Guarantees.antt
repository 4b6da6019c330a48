-- ===== src/Ab/Guarantees.antt =====
-- What the machine promises of every sequence of events.
use sourceos_boot.Base.{◌≡◌, refl, ◌+◌, ◌*◌, ◌≤◌, ◌<◌, inl, inr, List, true, false, arith, length}
use sourceos_boot.Ab.Types.{Label, slot_a, slot_b, other, Phase, SlotState, slot_at}
use sourceos_boot.Ab.Machine.{AbUpdateMachine, Outcome, returned, raised, TransitionResult}
use sourceos_boot.Ab.Checks.{is_unbootable}
use sourceos_boot.Ab.Commands.{Command, replay, accepted}
use sourceos_boot.Ab.Invariant.{Opened, Retained}
use sourceos_boot.Ab.Opening.{Ready}
use sourceos_boot.Ab.Replays.{AllKnown, Sound, Spends, ReplaySpends, replay-ReplaySpends}

-- The call returned, and its result and machine have the property.
abbrev pub Returns :
    {A : Type 0} → (A → AbUpdateMachine → Type 0) → Outcome A × AbUpdateMachine → Type 0
Returns P (returned a, s) = P a s
Returns P (raised e, s) = ⊥

-- A property of every sound machine that has spent no more than `n` potential holds of a replay.
pub replay_rule :
    (P : List TransitionResult → AbUpdateMachine → Type 0) (g : Label) (s : AbUpdateMachine)
    (cs : List Command)
    → Ready g s
    → AllKnown cs
    → ((log : List TransitionResult) (s' : AbUpdateMachine)
        → Spends g (slot_at s.slots g) s (accepted log) s'
        → P log s')
    → Returns P (replay cs s)
replay_rule P g s cs r k step =
    go (replay cs s) (replay-ReplaySpends g (slot_at s.slots g) cs s k (inl (r, refl)))
  where
    go :
        (x : Outcome (List TransitionResult) × AbUpdateMachine)
        → ReplaySpends g (slot_at s.slots g) s x
        → Returns P x
    go (returned log, s') h = step log s' h
    go (raised e, s') h = h

pub Retained-Sound :
    (g : Label) (was : SlotState) (s : AbUpdateMachine)
    → Sound g was s
    → Retained was (slot_at s.slots g)
Retained-Sound g was s (inl (r, w)) = rw w (record {
  same_digest = refl;
  same_ref = refl;
  same_version = refl;
  same_state = refl;
  still_successful = r.good_successful;
})
Retained-Sound g was s (inr o) = o.retained

-- No list of events whose expiry actions are known makes a ready machine raise or overwrite its good
-- slot: after the replay the slot that was active holds the same digest, reference, version and state,
-- and is still marked successful.
pub replay_keeps_good_slot :
    (g : Label) (s : AbUpdateMachine) (cs : List Command)
    → Ready g s
    → AllKnown cs
    → Returns (λ log s'. Retained (slot_at s.slots g) (slot_at s'.slots g)) (replay cs s)
replay_keeps_good_slot g s cs r k =
    replay_rule (λ log s'. Retained (slot_at s.slots g) (slot_at s'.slots g)) g s cs r k
      (λ log s' h. Retained-Sound g (slot_at s.slots g) s' h.0)

pub attempts-Sound :
    (g : Label) (was : SlotState) (s : AbUpdateMachine)
    → Sound g was s
    → length s.attempts ≤ s.max_attempts
attempts-Sound g was s (inl (r, w)) = rw r.no_attempts (omega arith)
attempts-Sound g was s (inr o) = ground (arith, o.stage)

-- From a ready machine, a replay of any length whose expiry actions are known returns, admits at most
-- 2 * max_attempts + 3 events, and leaves at most max_attempts attempts on record.
pub replay_bounded :
    (g : Label) (s : AbUpdateMachine) (cs : List Command)
    → Ready g s
    → AllKnown cs
    → Returns
        (λ log s'. (accepted log ≤ s.max_attempts * 2 + 3) × (length s'.attempts ≤ s.max_attempts))
        (replay cs s)
replay_bounded g s cs r k =
    replay_rule
      (λ log s'. (accepted log ≤ s.max_attempts * 2 + 3) × (length s'.attempts ≤ s.max_attempts)) g
      s cs r k
      (λ log s' h. (
        ground (arith, h.1, r.is_idle),
        ground (arith, attempts-Sound g (slot_at s.slots g) s' h.0, h.2),
      ))

-- The bootloader's choice is slot `l`, and the target runs it.
pub record Selected (l : Label) (s : AbUpdateMachine) : Type 0 where
  pub runs : (slot_at s.slots l).currently_running ≡ true
  pub other_stopped : (slot_at s.slots (other l)).currently_running ≡ false
  pub ranked : (slot_at s.slots (other l)).boot_priority < (slot_at s.slots l).boot_priority
  pub certified : (slot_at s.slots l).successful ≡ true
  pub bootable : is_unbootable (slot_at s.slots l).state ≡ false

-- what a terminal phase says of the slots
abbrev pub SettledOn : Phase → Label → AbUpdateMachine → Type 0
SettledOn Phase.promoted g s = Selected (other g) s × (1 ≤ (slot_at s.slots g).boot_priority)
SettledOn Phase.rolled_back g s = Selected g s × ((slot_at s.slots (other g)).boot_priority ≡ 0)
SettledOn Phase.refused g s = Selected g s × ((slot_at s.slots (other g)).boot_priority ≡ 0)
SettledOn _ g s = Unit

pub SettledOn-Opened :
    (g : Label) (was : SlotState) (s : AbUpdateMachine) (p : Phase)
    → s.phase ≡ p
    → Opened g was s
    → SettledOn p g s
SettledOn-Opened slot_a was s Phase.promoted e h = ground arith
SettledOn-Opened slot_b was s Phase.promoted e h = ground arith
SettledOn-Opened slot_a was s Phase.rolled_back e h = ground arith
SettledOn-Opened slot_b was s Phase.rolled_back e h = ground arith
SettledOn-Opened slot_a was s Phase.refused e h = ground arith
SettledOn-Opened slot_b was s Phase.refused e h = ground arith
SettledOn-Opened _ was s _ e h = tt

pub SettledOn-Sound :
    (g : Label) (was : SlotState) (s : AbUpdateMachine) → Sound g was s → SettledOn s.phase g s
SettledOn-Sound g was s (inl (r, w)) = rw r.is_idle tt
SettledOn-Sound g was s (inr o) = SettledOn-Opened g was s s.phase refl o

-- From a ready machine, a replay whose expiry actions are known returns. Where it ends in a terminal
-- phase, one slot is running, certified, bootable and of the
-- higher priority: the new one after a promotion, which keeps the old one selectable, and the old
-- one after a rollback or a refusal, which leaves the new one at priority 0.
pub replay_settles :
    (g : Label) (s : AbUpdateMachine) (cs : List Command)
    → Ready g s
    → AllKnown cs
    → Returns (λ log s'. SettledOn s'.phase g s') (replay cs s)
replay_settles g s cs r k =
    replay_rule (λ log s'. SettledOn s'.phase g s') g s cs r k
      (λ log s' h. SettledOn-Sound g (slot_at s.slots g) s' h.0)

-- the order of the two slots and the attempts left, while a candidate is armed or on trial
abbrev pub Ranked : Phase → Label → AbUpdateMachine → Type 0
Ranked Phase.armed g s =
    (1 ≤ (slot_at s.slots g).boot_priority)
    × ((slot_at s.slots g).boot_priority < (slot_at s.slots (other g)).boot_priority)
    × (1 ≤ (slot_at s.slots (other g)).tries_remaining)
    × (length s.attempts + (slot_at s.slots (other g)).tries_remaining ≤ s.max_attempts)
Ranked Phase.trying g s =
    (1 ≤ (slot_at s.slots g).boot_priority)
    × ((slot_at s.slots g).boot_priority < (slot_at s.slots (other g)).boot_priority)
    × ((slot_at s.slots g).currently_running ≡ false)
    × (length s.attempts + (slot_at s.slots (other g)).tries_remaining < s.max_attempts)
Ranked _ g s = Unit

Ranked-Sound :
    (g : Label) (was : SlotState) (s : AbUpdateMachine) (p : Phase)
    → s.phase ≡ p
    → Sound g was s
    → Ranked p g s
Ranked-Sound slot_a was s Phase.armed e h = ground arith
Ranked-Sound slot_b was s Phase.armed e h = ground arith
Ranked-Sound slot_a was s Phase.trying e h = ground arith
Ranked-Sound slot_b was s Phase.trying e h = ground arith
Ranked-Sound _ was s _ e h = tt

-- From a ready machine, a replay whose expiry actions are known returns. Where it leaves a candidate armed or on trial, it outranks the fallback, which keeps a
-- priority of 1 or more, and the attempts recorded and left stay within max_attempts. An armed
-- candidate has an attempt left; during a trial the fallback is not running, and the attempt that
-- is under way is counted.
pub replay_ranks :
    (g : Label) (s : AbUpdateMachine) (cs : List Command)
    → Ready g s
    → AllKnown cs
    → Returns (λ log s'. Ranked s'.phase g s') (replay cs s)
replay_ranks g s cs r k =
    replay_rule (λ log s'. Ranked s'.phase g s') g s cs r k
      (λ log s' h. Ranked-Sound g (slot_at s.slots g) s' s'.phase refl h.0)
