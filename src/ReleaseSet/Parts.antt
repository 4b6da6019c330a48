-- ===== src/ReleaseSet/Parts.antt =====
-- When the checks of the parts of a BootReleaseSet document pass.
use sourceos_boot.Base.{ℕ, suc, Bool, ◌&&◌, ◌≡◌, refl, List, [], ◌∷◌}
use sourceos_boot.Json.{Json, Dict, get, is_bool, in_texts}
use sourceos_boot.Result.{yields, yields-guard, yields-then}
use sourceos_boot.ReleaseSet.Patterns.{is_prefixed_sha256, is_name, is_version}
use sourceos_boot.ReleaseSet.Validator.{
  refused, is_filled, is_int_from, every, require_match, metadata_check, policy_check,
  evidence_check, refs_check, provenance_check, trust_check, signature_check, anti_rollback_check,
  telemetry_check,
}
use sourceos_boot.ReleaseSet.Checks.{
  are_choices, is_matched, is_absent_or, is_list, yields-list, yields-require_member,
  yields-require_enum_list, yields-require_match,
}

-- The parts of a document, as tests.
unfoldable pub is_metadata : Dict → Bool
is_metadata d =
    is_matched is_name d "name"
    && (is_matched is_version d "version" && is_filled (get d "createdAt"))

unfoldable pub is_policy : Dict → Bool
is_policy d =
    in_texts (get d "network") ("none" ∷ "enrollment-only" ∷ "restricted" ∷ "full" ∷ [])
    && (in_texts (get d "diskWrite")
          ("forbidden" ∷ "installer-only" ∷ "recovery-only" ∷ "allowed" ∷ [])
        && (is_bool (get d "tokenRequired")
            && are_choices
                ("announce" ∷ "enroll" ∷ "fetch" ∷ "verify" ∷ "kexec" ∷ "install" ∷ "rollback"
                  ∷ "repair" ∷ "rekey" ∷ "attest" ∷ [])
                (get d "allowedActions")))

unfoldable pub is_evidence : Dict → Bool
is_evidence d =
    is_filled (get d "correlationId")
    && are_choices
        ("device-claim" ∷ "manifest-hash" ∷ "verification-result" ∷ "selected-channel" ∷ "boot-mode"
          ∷ "install-result" ∷ "rollback-result" ∷ "measurement" ∷ "attestation" ∷ [])
        (get d "requiredReports")

unfoldable pub is_provenance : Dict → Bool
is_provenance d =
    is_filled (get d "builderId")
    && (is_list (every is_filled) (get d "sourceRefs")
        && are_choices ("slsa" ∷ "in-toto" ∷ []) (get d "attestations"))

unfoldable pub is_trust : Dict → Bool
is_trust d =
    in_texts (get d "model") ("tuf" ∷ "uptane" ∷ "static-root" ∷ [])
    && (is_filled (get d "rootRef")
        && (is_filled (get d "metadataRef") && is_absent_or (is_int_from 1) d "threshold"))

unfoldable pub is_signature : Dict → Bool
is_signature d =
    in_texts (get d "type") ("sigstore" ∷ "cosign" ∷ "minisign" ∷ "x509" ∷ "other" ∷ [])
    && is_matched is_prefixed_sha256 d "digest"

unfoldable pub is_anti_rollback : Dict → Bool
is_anti_rollback d = is_filled (get d "minimumVersion") && is_bool (get d "allowOfflineFallback")

unfoldable pub is_telemetry : Dict → Bool
is_telemetry d =
    is_bool (get d "traceRequired")
    && are_choices ("boot-duration" ∷ "verify-duration" ∷ "download-bytes" ∷ "action-result" ∷ [])
        (get d "metricSet")

pub yields-metadata : (d : Dict) → yields (metadata_check d) ≡ is_metadata d
unfolding metadata_check is_metadata
yields-metadata d =
    yields-then (require_match is_name d "name" (refused "metadata.name")) _
      (yields-require_match is_name d "name" (refused "metadata.name"))
      (yields-then (require_match is_version d "version" (refused "metadata.version")) _
        (yields-require_match is_version d "version" (refused "metadata.version"))
        (yields-guard (is_filled (get d "createdAt")) (refused "metadata.createdAt")))

pub yields-policy : (d : Dict) → yields (policy_check d) ≡ is_policy d
unfolding policy_check is_policy
yields-policy d = yields-then _ _ (yields-require_member (get d "network") _ _) (
    yields-then _ _ (yields-require_member (get d "diskWrite") _ _) (
      yields-then _ _ (yields-guard (is_bool (get d "tokenRequired")) _)
        (yields-require_enum_list (get d "allowedActions") _ _)))

pub yields-evidence : (d : Dict) → yields (evidence_check d) ≡ is_evidence d
unfolding evidence_check is_evidence
yields-evidence d =
    yields-then _ _ (yields-guard (is_filled (get d "correlationId")) _)
      (yields-require_enum_list (get d "requiredReports") _ _)

yields-refs : (index : ℕ) (vs : List Json) → yields (refs_check index vs) ≡ every is_filled vs
unfolding refs_check
yields-refs index [] = refl
yields-refs index (v ∷ vs) =
    yields-then _ _ (yields-guard (is_filled v) _) (yields-refs (suc index) vs)

pub yields-provenance : (d : Dict) → yields (provenance_check d) ≡ is_provenance d
unfolding provenance_check is_provenance
yields-provenance d = yields-then _ _ (yields-guard (is_filled (get d "builderId")) _) (
    yields-list (get d "sourceRefs") _ _ _ (every is_filled) (yields-refs 0)
      (yields-require_enum_list (get d "attestations") _ _))

pub yields-trust : (d : Dict) → yields (trust_check d) ≡ is_trust d
unfolding trust_check is_trust
yields-trust d = yields-then _ _ (yields-require_member (get d "model") _ _) (
    yields-then _ _ (yields-guard (is_filled (get d "rootRef")) _) (
      yields-then _ _ (yields-guard (is_filled (get d "metadataRef")) _)
        (yields-guard (is_absent_or (is_int_from 1) d "threshold") _)))

pub yields-signature : (d : Dict) → yields (signature_check d) ≡ is_signature d
unfolding signature_check is_signature
yields-signature d =
    yields-then _ _ (yields-require_member (get d "type") _ _)
      (yields-require_match is_prefixed_sha256 d "digest" _)

pub yields-anti_rollback : (d : Dict) → yields (anti_rollback_check d) ≡ is_anti_rollback d
unfolding anti_rollback_check is_anti_rollback
yields-anti_rollback d =
    yields-then _ _ (yields-guard (is_filled (get d "minimumVersion")) _)
      (yields-guard (is_bool (get d "allowOfflineFallback")) _)

pub yields-telemetry : (d : Dict) → yields (telemetry_check d) ≡ is_telemetry d
unfolding telemetry_check is_telemetry
yields-telemetry d =
    yields-then _ _ (yields-guard (is_bool (get d "traceRequired")) _)
      (yields-require_enum_list (get d "metricSet") _ _)
