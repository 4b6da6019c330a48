-- ===== src/ReleaseSet/Accepted.antt =====
-- Which BootReleaseSet documents `validate_document` accepts.
use sourceos_boot.Base.{
  ℕ, suc, String, Bool, false, ◌&&◌, ◌≡◌, refl, arith, Option, none, some, List, [], ◌∷◌,
}
use sourceos_boot.Json.{Json, Dict, get, as_text, is_text, in_texts, in_dict}
use sourceos_boot.Result.{yields, yields-guard, yields-then}
use sourceos_boot.Reading.{yields-as_dict, yields-part}
use sourceos_boot.ReleaseSet.Patterns.{is_sha256}
use sourceos_boot.ReleaseSet.Validator.{
  DocumentError, crashed, is_filled, is_int_from, every, is_reachable, require_uri, artifact_check,
  artifacts_check, spec_check, validate_document,
}
use sourceos_boot.ReleaseSet.Checks.{
  are_choices, is_matched, is_absent_or, is_list, yields-list, yields-require_member,
  yields-require_enum_list, yields-require_match,
}
use sourceos_boot.ReleaseSet.Parts.{
  is_metadata, is_policy, is_evidence, is_provenance, is_trust, is_signature, is_anti_rollback,
  is_telemetry, yields-metadata, yields-policy, yields-evidence, yields-provenance, yields-trust,
  yields-signature, yields-anti_rollback, yields-telemetry,
}

module _ (urlparse : String → Option (String × String)) where
  -- a text with a scheme and a location that a machine can fetch from
  unfoldable pub is_location : Json → Bool
  is_location v = is_filled v && elim (as_text v) [
    | none ↦ false
    | some s ↦ elim (urlparse s) [ none ↦ false | some parsed ↦ is_reachable parsed ]
  ]

  -- an artifact with a name, a role, a location and a digest
  unfoldable pub is_artifact : Dict → Bool
  is_artifact d =
      is_filled (get d "name")
      && (in_texts (get d "role") (
            "kernel" ∷ "initrd" ∷ "rootfs" ∷ "manifest" ∷ "bootloader" ∷ "recovery-image"
            ∷ "installer-data" ∷ "signature" ∷ "attestation" ∷ "tuf-metadata" ∷ "other" ∷ [])
          && (is_location (get d "uri")
              && (is_matched is_sha256 d "sha256" && is_absent_or (is_int_from 0) d "sizeBytes")))

  unfoldable pub is_spec : Dict → Bool
  is_spec d =
      are_choices ("apple-silicon" ∷ "uefi-x86_64" ∷ "uefi-aarch64" ∷ "generic-arm64" ∷ [])
        (get d "platforms")
      && (are_choices ("live" ∷ "installer" ∷ "recovery" ∷ "rollback" ∷ "rescue" ∷ [])
            (get d "channels")
          && (is_list (every (in_dict is_artifact)) (get d "artifacts")
              && (in_dict is_policy (get d "policy")
                  && (in_dict is_evidence (get d "evidence")
                      && (in_dict is_provenance (get d "provenance")
                          && (in_dict is_trust (get d "trust")
                              && (in_dict is_signature (get d "signature")
                                  && (in_dict is_anti_rollback (get d "antiRollback")
                                      && in_dict is_telemetry (get d "telemetry")))))))))

  -- The document describes a release set with a digest for each artifact and for the set.
  abbrev pub is_release_set : Dict → Bool
  is_release_set d =
      is_text "sourceos.dev/v1" (get d "apiVersion")
      && (is_text "BootReleaseSet" (get d "kind")
          && (in_dict is_metadata (get d "metadata") && in_dict is_spec (get d "spec")))

  yields-require_uri :
      (v : Json) (e : DocumentError) → yields (require_uri urlparse v e) ≡ is_location v
  unfolding require_uri is_location
  yields-require_uri v e = ground arith

  yields-artifact :
      (index : ℕ) (v : Json) → yields (artifact_check urlparse index v) ≡ in_dict is_artifact v
  unfolding artifact_check is_artifact
  yields-artifact index v = yields-as_dict v _ _ is_artifact (λ d.
      yields-then _ _ (yields-guard (is_filled (get d "name")) _) (
        yields-then _ _ (yields-require_member (get d "role") _ _) (
          yields-then _ _ (yields-require_uri (get d "uri") _) (
            yields-then _ _ (yields-require_match is_sha256 d "sha256" _)
              (yields-guard (is_absent_or (is_int_from 0) d "sizeBytes") _)))))

  yields-artifacts :
      (index : ℕ) (vs : List Json)
      → yields (artifacts_check urlparse index vs) ≡ every (in_dict is_artifact) vs
  unfolding artifacts_check
  yields-artifacts index [] = refl
  yields-artifacts index (v ∷ vs) =
      yields-then _ _ (yields-artifact index v) (yields-artifacts (suc index) vs)

  yields-spec : (d : Dict) → yields (spec_check urlparse d) ≡ is_spec d
  unfolding spec_check is_spec
  yields-spec d = yields-then _ _ (yields-require_enum_list (get d "platforms") _ _) (
      yields-then _ _ (yields-require_enum_list (get d "channels") _ _) (
        yields-list (get d "artifacts") _ _ _ (every (in_dict is_artifact)) (yields-artifacts 0) (
          yields-part (get d "policy") _ _ _ is_policy yields-policy (
            yields-part (get d "evidence") _ _ _ is_evidence yields-evidence (
              yields-part (get d "provenance") _ _ _ is_provenance yields-provenance (
                yields-part (get d "trust") _ _ _ is_trust yields-trust (
                  yields-part (get d "signature") _ _ _ is_signature yields-signature (
                    yields-part (get d "antiRollback") _ _ _ is_anti_rollback yields-anti_rollback
                      (yields-as_dict (get d "telemetry") _ _ is_telemetry yields-telemetry)))))))))

  -- Whatever urlparse gives, the validator accepts a value just if it is an object that describes
  -- a release set: the version and kind of the format, metadata with a name and a version, and a
  -- spec whose platforms, channels and actions are distinct and allowed, whose artifacts each have
  -- a location and a digest, and whose policy, evidence, provenance, trust, signature, anti-
  -- rollback and telemetry are complete. It raises for every other value.
  pub validate_document-accepts :
      (v : Json) → yields (validate_document urlparse v) ≡ in_dict is_release_set v
  unfolding validate_document
  validate_document-accepts v = yields-as_dict v crashed _ is_release_set (λ d.
      yields-then _ _ (yields-guard (is_text "sourceos.dev/v1" (get d "apiVersion")) _) (
        yields-then _ _ (yields-guard (is_text "BootReleaseSet" (get d "kind")) _) (
          yields-part (get d "metadata") _ _ _ is_metadata yields-metadata
            (yields-as_dict (get d "spec") _ _ is_spec yields-spec))))
