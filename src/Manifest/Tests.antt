-- ===== src/Manifest/Tests.antt =====
-- The manifest of the repository against a source of three files, and each theorem there.
use sourceos_boot.Base.{
  ◌≡◌, ◌≢◌, ◌↔◌, ◌||◌, refl, Bool-cases, inl, inr, false, eq_iff, String, Option, none, some, List,
  [], ◌∷◌, if◌then◌else◌, str_eq,
}
use sourceos_boot.Json.{Dict, object, texts}
use sourceos_boot.Result.{ok}
use sourceos_boot.Manifest.Ratchet.{
  is_known, checked_keys, is_excluded, is_part_of, parts_of, source_blob, iterated, declared_under,
  declarations, tally, stale, paid, problems, main,
}
use sourceos_boot.Manifest.Holds.{IsRatcheted, Agree, main-IsRatcheted, main-Agree}

abbrev manifest : Dict
manifest =
    (
      "auditEvents",
      texts (
          "boot.rollback.planned" ∷ "boot.rollback.applied" ∷ "boot.rollback.denied"
          ∷ "boot.chain.validated" ∷ "boot.started" ∷ []),
    )
    ∷ (
      "dangerousSurfaces",
      texts ("boot.efi_vars_mutable" ∷ "boot.rollback.forced" ∷ "boot.generation.deletion" ∷ []),
    )
    ∷ []

abbrev declared : List (String × String)
declared =
    ("auditEvents", "boot.rollback.planned")
    ∷ ("auditEvents", "boot.rollback.applied")
    ∷ ("auditEvents", "boot.rollback.denied")
    ∷ ("auditEvents", "boot.chain.validated")
    ∷ ("auditEvents", "boot.started")
    ∷ ("dangerousSurfaces", "boot.efi_vars_mutable")
    ∷ ("dangerousSurfaces", "boot.rollback.forced")
    ∷ ("dangerousSurfaces", "boot.generation.deletion")
    ∷ []

abbrev paths : List String
paths =
    "boot.py" ∷ ".sourceos/manifest.json" ∷ "tools/validate_manifest_declarations.py" ∷ "gone.py"
    ∷ []

-- The texts of the manifest and of the check name everything, and do not count.
abbrev with_own_texts : String → String → Option String
with_own_texts own_text path =
    if str_eq path ".sourceos/manifest.json"
      || str_eq path "tools/validate_manifest_declarations.py"
    then some own_text
    else if str_eq path "boot.py"
    then some "emit('boot.started')"
    else none

abbrev read : String → Option String
read = with_own_texts "boot.rollback.planned boot.forgotten"

declarations_made : declarations manifest checked_keys ≡ ok declared
unfolding declarations declared_under iterated
declarations_made = refl

holds : main read paths (some (object manifest)) ≡ ok 0
unfolding main declarations declared_under iterated problems tally stale paid is_known is_part_of
    source_blob parts_of is_excluded
holds = refl

emptied : main read paths (some (object [])) ≡ ok 1
unfolding main declarations declared_under iterated problems tally stale paid is_known is_part_of
    source_blob parts_of is_excluded
emptied = refl

main-IsRatcheted_example :
    (main read paths (some (object manifest)) ≡ ok 0)
    ↔ IsRatcheted (source_blob read paths) declared
main-IsRatcheted_example =
    main-IsRatcheted read paths (object manifest) manifest declared refl declarations_made

own_texts_excluded : Agree read (with_own_texts "")
own_texts_excluded path h k = rw (differs h, differs k) refl
  where
    differs : {other : String} → path ≢ other → str_eq path other ≡ false
    differs {other} n = elim (Bool-cases (str_eq path other)) [
      | inl e ↦ absurd (n ((eq_iff path other).0 e))
      | inr e ↦ e
    ]

main-Agree_example :
    main read paths (some (object manifest))
    ≡ main (with_own_texts "") paths (some (object manifest))
main-Agree_example =
    main-Agree read (with_own_texts "") paths (some (object manifest)) own_texts_excluded
