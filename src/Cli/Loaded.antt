-- ===== src/Cli/Loaded.antt =====
-- What `_load_ab_update_machine` gives.
use sourceos_boot.Base.{
  ℕ, String, Bool, true, false, not, ◌≡◌, refl, sym, ap, ◌∙◌, arith, some, List, [], ◌∷◌, select,
  is_empty, All, str_eq, if◌then◌else◌, Bool-cases, inl, inr,
}
use sourceos_boot.Json.{Dict, get, has_key, object, as_text, as_dict, is_text, Hashing, digest_of}
use sourceos_boot.Result.{Result, ok, err, or_raise, bind-ok, guard-ok, or_raise-ok, ok-injective}
use sourceos_boot.Ab.Types.{Label, SlotState}
use sourceos_boot.Ab.Machine.{AbUpdateMachine, Outcome, returned, raised}
use sourceos_boot.Ab.Construct.{construct, IsFit, active_label, construct-Ready}
use sourceos_boot.Ab.Opening.{Ready}
use sourceos_boot.Ab.Documents.{SlotDocument}
use sourceos_boot.Ab.Restart.{built, mixed_targets, machine_from_slot_documents}
use sourceos_boot.Cli.Probe.{
  CliError, not_an_object, slots_not_an_array, no_probe_id, probe_digest_fields, missing_of,
  core_of, probe_definition_digest,
}
use sourceos_boot.Cli.AbUpdate.{AbArguments, from_restored, load_ab_update_machine}

built-returned :
    (o : Outcome AbUpdateMachine) (m : AbUpdateMachine)
    → from_restored (built o) ≡ ok m
    → o ≡ returned m
built-returned (returned a) m h = ap returned (ok-injective h)
built-returned (raised f) m h = cc

mixed-refused : (m : AbUpdateMachine) → from_restored mixed_targets ≡ ok m → ⊥
mixed-refused m h = cc

module _ (transaction probe digest : String) (budget : ℕ) (clock : ℕ → String) where
  -- A machine that is restored comes from the constructor.
  restored-construct :
      (docs : List SlotDocument) (m : AbUpdateMachine)
      → from_restored (machine_from_slot_documents transaction probe digest budget clock docs)
        ≡ ok m
      → (target : String) × (items : List (Label × SlotState)) × (construct target transaction items
            probe digest budget clock
          ≡ returned m)
  unfolding machine_from_slot_documents
  restored-construct [] m h = cc
  restored-construct (d ∷ []) m h = cc
  restored-construct (d ∷ (e ∷ [])) m h = elim (Bool-cases (str_eq d.target_ref e.target_ref)) [
    | inl t ↦ (d.target_ref, _, built-returned _ m (rw t at h))
    | inr t ↦ absurd (mixed-refused m (rw t at h))
  ]
  restored-construct (d ∷ (e ∷ (f ∷ docs))) m h = cc

construct-digest :
    (target transaction : String) (items : List (Label × SlotState)) (probe digest : String)
    (budget : ℕ) (clock : ℕ → String) (m : AbUpdateMachine)
    → construct target transaction items probe digest budget clock ≡ returned m
    → m.health_probe_digest ≡ digest
unfolding construct
construct-digest target transaction items probe digest budget clock m h = ground arith

-- The probe has every field that its digest covers, records that digest, and the machine is gated
-- by it.
pub record IsPinned (hashing : Hashing) (probe : Dict) (m : AbUpdateMachine) : Type 0 where
  pub complete : All (λ f. has_key probe f ≡ true) probe_digest_fields
  pub recomputed : m.health_probe_digest ≡ digest_of hashing (object (core_of probe))
  pub recorded : is_text m.health_probe_digest (get probe "definitionDigest") ≡ true

nothing_missing :
    (p : String → Bool) (xs : List String)
    → is_empty (select (λ x. not (p x)) xs) ≡ true
    → All (λ x. p x ≡ true) xs
nothing_missing p [] h = tt
nothing_missing p (x ∷ xs) h = (ground arith, nothing_missing p xs (ground arith))

missing_of_complete :
    (probe : Dict)
    → is_empty (missing_of probe) ≡ true
    → All (λ f. has_key probe f ≡ true) probe_digest_fields
unfolding missing_of
missing_of_complete probe h = nothing_missing (has_key probe) probe_digest_fields h

projected :
    {a b : String} (e : CliError) (t : Bool)
    → ◌≡◌ {A = Result CliError String} (if t then ok a else err e) (ok b)
    → (t ≡ true) × (a ≡ b)
projected e true h = (refl, ok-injective h)
projected e false h = cc

digest_complete :
    (hashing : Hashing) (probe : Dict) (digest : String)
    → probe_definition_digest hashing probe ≡ ok digest
    → All (λ f. has_key probe f ≡ true) probe_digest_fields
      × (digest_of hashing (object (core_of probe)) ≡ digest)
unfolding probe_definition_digest
digest_complete hashing probe digest h = (
  missing_of_complete probe (projected _ (is_empty (missing_of probe)) h).0,
  (projected _ (is_empty (missing_of probe)) h).1,
)

module _ (hashing : Hashing) (clock : ℕ → String) (args : AbArguments) (m : AbUpdateMachine) where
  -- A machine that the commands load is gated by a probe that is an object with all six fields of
  -- the projection, and the digest that it is pinned to is the one recomputed from these fields,
  -- which is also the one that the probe records.
  pub load_ab_update_machine-IsPinned :
      load_ab_update_machine hashing clock args ≡ ok m
      → (probe : Dict) × (as_dict args.probe ≡ some probe) × IsPinned hashing probe m
  unfolding load_ab_update_machine
  load_ab_update_machine-IsPinned h =
      let (docs, e₁, h₁) = bind-ok (or_raise args.slots slots_not_an_array) _ h in
      let (probe, e₂, h₂) = bind-ok (or_raise (as_dict args.probe) not_an_object) _ h₁ in
      let (digest, e₃, h₃) = bind-ok (probe_definition_digest hashing probe) _ h₂ in
      let (same, h₄) = guard-ok (is_text digest (get probe "definitionDigest")) _ _ h₃ in
      let (id, e₅, h₅) = bind-ok (or_raise (as_text (get probe "id")) no_probe_id) _ h₄ in
      let (target, items, built_by) =
        restored-construct args.transaction_id id digest args.max_attempts clock docs m h₅ in
      let held =
        construct-digest target args.transaction_id items id digest args.max_attempts clock m
          built_by in
      let (keys, computed) = digest_complete hashing probe digest e₃ in
      (
        probe,
        or_raise-ok (as_dict args.probe) not_an_object e₂,
        record { complete = keys; recomputed = held ∙ sym computed; recorded = rw held same },
      )

  pub load_ab_update_machine-Ready :
      load_ab_update_machine hashing clock args ≡ ok m
      → IsFit m.slots
      → Ready (active_label m.slots) m
  unfolding load_ab_update_machine
  load_ab_update_machine-Ready h fit =
      let (docs, e₁, h₁) = bind-ok (or_raise args.slots slots_not_an_array) _ h in
      let (probe, e₂, h₂) = bind-ok (or_raise (as_dict args.probe) not_an_object) _ h₁ in
      let (digest, e₃, h₃) = bind-ok (probe_definition_digest hashing probe) _ h₂ in
      let (same, h₄) = guard-ok (is_text digest (get probe "definitionDigest")) _ _ h₃ in
      let (id, e₅, h₅) = bind-ok (or_raise (as_text (get probe "id")) no_probe_id) _ h₄ in
      let (target, items, built_by) =
        restored-construct args.transaction_id id digest args.max_attempts clock docs m h₅ in
      construct-Ready target args.transaction_id items id digest args.max_attempts clock m built_by
        fit
