-- ===== src/Ab/Renderings.antt =====
-- What the contract documents say of the machine that they render.
use sourceos_boot.Base.{
  ◌≡◌, refl, ap, suc, ltb, ◌≤◌, ◌⊎◌, inl, inr, arith, String, Bool, true, false, not, Option, none,
  some, List, [], ◌∷◌, map, length, All, ◌&&◌, ◌||◌, ◌==◌, truthy,
}
use sourceos_boot.Ab.Types.{
  Label, slot_a, slot_b, other, SlotPhase, Phase, Settlement, SlotState, slot_at, is_active,
  AttemptRecord,
}
use sourceos_boot.Ab.Machine.{AbUpdateMachine}
use sourceos_boot.Ab.Checks.{is_writing, is_unbootable}
use sourceos_boot.Ab.Commands.{Command, replay}
use sourceos_boot.Ab.Documents.{
  AttemptDocument, to_attempt_document, TransactionDocument, to_transaction_document, SlotDocument,
  if_truthy, to_slot_document, to_slot_documents, slot_from_document,
}
use sourceos_boot.Ab.Guarantees.{Returns, replay_rule, Selected, SettledOn-Opened, attempts-Sound}
use sourceos_boot.Ab.Invariant.{Opened}
use sourceos_boot.Ab.Opening.{Ready}
use sourceos_boot.Ab.Replays.{AllKnown, Sound}
use Prim.Native.Char.{Char}

-- An optional text is not the empty one.
abbrev pub IsProper : Option String → Type 0
IsProper none = Unit
IsProper (some x) = truthy (some x) ≡ true

-- No optional text of the slot is empty.
pub record HasProperTexts (x : SlotState) : Type 0 where
  pub digest : IsProper x.payload_digest
  pub ref : IsProper x.payload_ref
  pub version : IsProper x.version
  pub verdict : IsProper x.last_probe_verdict

if_truthy-IsProper : (o : Option String) → IsProper o → if_truthy o ≡ o
if_truthy-IsProper none h = refl
if_truthy-IsProper (some x) h = rw h refl

pub slot_from_document-to_slot_document :
    (is_alnum : Char → Bool) (s : AbUpdateMachine) (l : Label)
    → HasProperTexts (slot_at s.slots l)
    → slot_from_document (to_slot_document is_alnum s l) ≡ slot_at s.slots l
unfolding slot_from_document to_slot_document
slot_from_document-to_slot_document is_alnum s l h =
    rw
      (
        if_truthy-IsProper (slot_at s.slots l).payload_digest h.digest,
        if_truthy-IsProper (slot_at s.slots l).payload_ref h.ref,
        if_truthy-IsProper (slot_at s.slots l).version h.version,
        if_truthy-IsProper (slot_at s.slots l).last_probe_verdict h.verdict,
      )
      refl

-- Reading the two slot documents of a machine gives its slots A and B back, if no optional text of
-- theirs is empty.
pub slot_from_document-to_slot_documents :
    (is_alnum : Char → Bool) (s : AbUpdateMachine)
    → HasProperTexts s.slots.at_a
    → HasProperTexts s.slots.at_b
    → map slot_from_document (to_slot_documents is_alnum s) ≡ s.slots.at_a ∷ s.slots.at_b ∷ []
unfolding to_slot_documents
slot_from_document-to_slot_documents is_alnum s a b =
    rw
      (
        slot_from_document-to_slot_document is_alnum s slot_a a,
        slot_from_document-to_slot_document is_alnum s slot_b b,
      )
      refl

-- What an outcome and the slot that it names say of the machine.
abbrev pub Verdict : Label → AbUpdateMachine → Settlement → Option Label → Type 0
Verdict g s Settlement.pending none = Unit
Verdict g s Settlement.promoted (some l) = (l ≡ other g) × Selected l s
Verdict g s Settlement.rolled_back (some l) = (l ≡ g) × Selected l s
Verdict g s Settlement.refused (some l) = (l ≡ g) × Selected l s
Verdict g s _ _ = ⊥

-- The document of an attempt says what its record says; a detail that is empty is left out.
pub record Tells (x : AttemptRecord) (doc : AttemptDocument) : Type 0 where
  pub number : doc.attempt_number ≡ x.attempt_number
  pub start : doc.started_at ≡ x.started_at
  pub result : doc.result ≡ x.result
  pub fallback : doc.fell_back_to ≡ x.fell_back_to
  pub tries : doc.tries_remaining_after ≡ x.tries_remaining_after
  pub detail : doc.detail ≡ if_truthy x.detail

-- There is one document for each attempt, in order.
abbrev pub TellsAll : List AttemptRecord → List AttemptDocument → Type 0
TellsAll [] [] = Unit
TellsAll (x ∷ xs) (doc ∷ docs) = Tells x doc × TellsAll xs docs
TellsAll _ _ = ⊥

rendered-TellsAll : (xs : List AttemptRecord) → TellsAll xs (map to_attempt_document xs)
unfolding to_attempt_document
rendered-TellsAll [] = tt
rendered-TellsAll (x ∷ xs) = (
  record {
    number = refl;
    start = refl;
    result = refl;
    fallback = refl;
    tries = refl;
    detail = refl;
  },
  rendered-TellsAll xs,
)

TellsAll-length :
    (xs : List AttemptRecord) (docs : List AttemptDocument)
    → TellsAll xs docs
    → length docs ≡ length xs
TellsAll-length [] [] h = refl
TellsAll-length (x ∷ xs) (doc ∷ docs) h = ap suc (TellsAll-length xs docs h.1)
TellsAll-length [] (doc ∷ docs) h = absurd h
TellsAll-length (x ∷ xs) [] h = absurd h

-- The attempts of a transaction and its document's, of which there are at most max_attempts.
abbrev HasAttempts : AbUpdateMachine → TransactionDocument → Type 0
HasAttempts s doc = TellsAll s.attempts doc.attempts × (length doc.attempts ≤ doc.max_attempts)

attempts_lem :
    (g : Label) (was : SlotState) (s : AbUpdateMachine)
    → Opened g was s
    → TellsAll s.attempts (map to_attempt_document s.attempts)
      × (length (map to_attempt_document s.attempts) ≤ s.max_attempts)
attempts_lem g was s o =
    let told = rendered-TellsAll s.attempts in
    (told, rw (TellsAll-length s.attempts _ told) (attempts-Sound g was s (inr o)))

-- The document of a machine that started with slot `g` good: there is none while it is idle, and
-- else it names the slots, the digest that is preserved and each attempt, and its verdict names the
-- slot that the target runs.
abbrev pub Documented : Label → SlotState → AbUpdateMachine → Option TransactionDocument → Type 0
Documented g was s none = s.phase ≡ Phase.idle
Documented g was s (some doc) =
    (doc.from_slot ≡ some g)
    × (doc.to_slot ≡ some (other g))
    × (was.payload_digest ≡ some doc.preserved_payload_digest)
    × HasAttempts s doc
    × Verdict g s doc.outcome doc.settled_on_slot

pub Documented-Opened :
    (g : Label) (was : SlotState) (s : AbUpdateMachine) (p : Phase)
    → s.phase ≡ p
    → Opened g was s
    → Documented g was s (to_transaction_document s)
unfolding to_transaction_document
Documented-Opened g was s Phase.idle e o = absurd (rw e at o.stage)
Documented-Opened g was s Phase.promoted e o =
    simp (e, o.to_other)
      (
        o.from_good,
        refl,
        o.digest_recorded,
        attempts_lem g was s o,
        (refl, (SettledOn-Opened g was s Phase.promoted e o).0),
      )
Documented-Opened g was s Phase.rolled_back e o =
    simp (e, o.from_good)
      (
        refl,
        o.to_other,
        o.digest_recorded,
        attempts_lem g was s o,
        (refl, (SettledOn-Opened g was s Phase.rolled_back e o).0),
      )
Documented-Opened g was s Phase.refused e o =
    simp (e, o.from_good)
      (
        refl,
        o.to_other,
        o.digest_recorded,
        attempts_lem g was s o,
        (refl, (SettledOn-Opened g was s Phase.refused e o).0),
      )
Documented-Opened g was s p e o =
    rw e (o.from_good, o.to_other, o.digest_recorded, attempts_lem g was s o, tt)

pub Documented-Sound :
    (g : Label) (was : SlotState) (s : AbUpdateMachine)
    → Sound g was s
    → Documented g was s (to_transaction_document s)
unfolding to_transaction_document
Documented-Sound g was s (inl (r, w)) = simp r.is_idle refl
Documented-Sound g was s (inr o) = Documented-Opened g was s s.phase refl o

-- From a ready machine with slot `g` active, a replay whose expiry actions are known returns, and
-- then there is a transaction document, unless
-- the machine is idle. It names `g` and the other slot, preserves the digest of `g` and has at most
-- max_attempts attempts; it names a settled slot just if its outcome is not pending, and that is the
-- slot that the target runs: the other one if it was promoted, and else `g`.
pub replay_documents :
    (g : Label) (s : AbUpdateMachine) (cs : List Command)
    → Ready g s
    → AllKnown cs
    → Returns
        (λ log s'. Documented g (slot_at s.slots g) s' (to_transaction_document s'))
        (replay cs s)
replay_documents g s cs r k =
    replay_rule (λ log s'. Documented g (slot_at s.slots g) s' (to_transaction_document s')) g s cs
      r k (λ log s' h. Documented-Sound g (slot_at s.slots g) s' h.0)

abbrev pub is_good : SlotPhase → Bool
is_good SlotPhase.good = true
is_good _ = false

-- What the schema of UpdateSlot asks of a slot that is being written, active, good or unbootable.
abbrev pub Conforms : SlotDocument → Type 0
Conforms doc =
    ((is_writing doc.state && is_active doc.role) ≡ false)
    × ((not (is_active doc.role) || doc.successful) ≡ true)
    × ((not (is_active doc.role) || ltb 0 doc.boot_priority) ≡ true)
    × ((not (is_good doc.state) || doc.successful) ≡ true)
    × ((not (is_unbootable doc.state) || doc.boot_priority == 0) ≡ true)
    × ((is_unbootable doc.state && doc.successful) ≡ false)

Conforms-Opened :
    (is_alnum : Char → Bool) (g : Label) (was : SlotState) (s : AbUpdateMachine)
    → 1 ≤ was.boot_priority
    → Opened g was s
    → (l : Label) → Conforms (to_slot_document is_alnum s l)
unfolding to_slot_document
Conforms-Opened is_alnum slot_a was s b o slot_a = ground arith
Conforms-Opened is_alnum slot_a was s b o slot_b = ground arith
Conforms-Opened is_alnum slot_b was s b o slot_a = ground arith
Conforms-Opened is_alnum slot_b was s b o slot_b = ground arith

pub Conforms-Sound :
    (is_alnum : Char → Bool) (g : Label) (was : SlotState) (s : AbUpdateMachine)
    → 1 ≤ was.boot_priority
    → Sound g was s
    → (s.phase ≡ Phase.idle) ⊎ All Conforms (to_slot_documents is_alnum s)
unfolding to_slot_documents
Conforms-Sound is_alnum g was s b (inl (r, w)) = inl r.is_idle
Conforms-Sound is_alnum g was s b (inr o) =
    inr (
      Conforms-Opened is_alnum g was s b o slot_a,
      (Conforms-Opened is_alnum g was s b o slot_b, tt),
    )

-- From a ready machine whose active slot has a boot priority of at least 1, a replay whose expiry
-- actions are known returns, and if the machine is then not idle, both slot documents meet the
-- schema's conditions on a slot that is being written, active, good or unbootable: a slot being
-- written is the candidate, an active slot is successful and has a boot priority of at least 1, a
-- good slot is successful, and an unbootable one has priority 0 and is not successful.
pub replay_slot_documents :
    (is_alnum : Char → Bool) (g : Label) (s : AbUpdateMachine) (cs : List Command)
    → Ready g s
    → 1 ≤ (slot_at s.slots g).boot_priority
    → AllKnown cs
    → Returns
        (λ log s'. (s'.phase ≡ Phase.idle) ⊎ All Conforms (to_slot_documents is_alnum s'))
        (replay cs s)
unfolding to_slot_documents
replay_slot_documents is_alnum g s cs r b k =
    replay_rule (λ log s'. (s'.phase ≡ Phase.idle) ⊎ All Conforms (to_slot_documents is_alnum s')) g
      s cs r k (λ log s' h. Conforms-Sound is_alnum g (slot_at s.slots g) s' b h.0)
