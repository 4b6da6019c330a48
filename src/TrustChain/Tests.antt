-- ===== src/TrustChain/Tests.antt =====
-- The two example records, their texts shortened, runs of the validator there, and each theorem
-- there.
use sourceos_boot.Base.{
  ◌≡◌, ◌↔◌, refl, String, true, false, List, [], ◌∷◌, All, if◌then◌else◌, str_eq,
}
use sourceos_boot.Json.{Json, Dict, object, array, put, get, has_key}
use sourceos_boot.Json.Equality.{json_eq, json_in}
use sourceos_boot.Result.{Result, ok, err}
use sourceos_boot.TrustChain.Schema.{
  EvidenceError, child_schema, json_type_name, type_matches, own_checks, key_checks,
  validate_schema, rule,
}
use sourceos_boot.TrustChain.Document.{evidence_schema}
use sourceos_boot.TrustChain.Conforms.{Conforms, validate_schema-Conforms}
use sourceos_boot.TrustChain.Evidence.{
  section, field, validate_verified, remediation_of, item_check, validate_blocked, decision_rules,
  validate_file, check_path, any_failed, exit_code,
}
use sourceos_boot.TrustChain.Decided.{HoldsDecided, exit_code-IsDecided}

abbrev valid_record : Dict
valid_record =
    ("schema_version", Json.str "0.1")
    ∷ ("evidence_id", Json.str "sourceos-boot:trust-chain-boot-verification:demo-m2-001")
    ∷ ("evidence_type", Json.str "TrustChainBootVerificationEvidence")
    ∷ ("boot_release_set_ref", Json.str "boot-release-set://sourceos/recovery-m2@0.1.0")
    ∷ (
      "device_claim",
      object (
          ("device_id", Json.str "device-demo-m2")
          ∷ ("platform", Json.str "apple-silicon")
          ∷ ("claim_ref", Json.str "device-claim://sourceos/device-demo-m2/2026-06-01")
          ∷ ("claim_status", Json.str "verified")
          ∷ []),
    )
    ∷ (
      "boot",
      object (
          (
            "manifest_hash",
            Json.str "sha256:aaaaaaaaaaaaaaaaaaaaaaaaaaaaaaaaaaaaaaaaaaaaaaaaaaaaaaaaaaaaaaaa",
          )
          ∷ ("selected_release_set", Json.str "boot-release-set://sourceos/recovery-m2@0.1.0")
          ∷ ("boot_mode", Json.str "recovery")
          ∷ []),
    )
    ∷ (
      "verification",
      object (
          ("verification_result", Json.str "pass")
          ∷ (
            "attestation_ref",
            Json.str "attestation://sourceos-boot/device-demo-m2/recovery-m2-0.1.0",
          )
          ∷ []),
    )
    ∷ (
      "rollback_recovery",
      object (
          ("rollback_available", Json.bool true)
          ∷ ("recovery_available", Json.bool true)
          ∷ ("rollback_ref", Json.str "rollback://sourceos/recovery-m2@0.0.9")
          ∷ ("recovery_ref", Json.str "recovery://sourceos/recovery-m2@0.1.0")
          ∷ []),
    )
    ∷ (
      "trust_chain_refs",
      object (
          (
            "policy_profile_ref",
            Json.str "policy://trust-chain/boot-admission/regulated-enterprise-production",
          )
          ∷ (
            "admission_decision_ref",
            Json.str "trust-chain:admit-artifact-response:boot-release-set-demo-m2:allowed",
          )
          ∷ ("runtime_receipt_ref", Json.str "runtime-receipt://sourceos-boot/demo-m2-001")
          ∷ []),
    )
    ∷ ("decision", Json.str "verified")
    ∷ (
      "effects",
      object (
          ("boot_allowed", Json.bool true)
          ∷ ("install_allowed", Json.bool true)
          ∷ ("rollback_allowed", Json.bool true)
          ∷ ("repair_required", Json.bool false)
          ∷ ("human_review_required", Json.bool false)
          ∷ []),
    )
    ∷ ("remediation", array ([]))
    ∷ ("non_claims", array (Json.str "This fixture does not mutate live boot entries." ∷ []))
    ∷ []

abbrev blocked_record : Dict
blocked_record =
    ("schema_version", Json.str "0.1")
    ∷ ("evidence_id", Json.str "sourceos-boot:trust-chain-boot-verification:demo-m2-002")
    ∷ ("evidence_type", Json.str "TrustChainBootVerificationEvidence")
    ∷ ("boot_release_set_ref", Json.str "boot-release-set://sourceos/recovery-m2@0.1.0")
    ∷ (
      "device_claim",
      object (
          ("device_id", Json.str "device-demo-m2")
          ∷ ("platform", Json.str "apple-silicon")
          ∷ ("claim_ref", Json.null)
          ∷ ("claim_status", Json.str "missing")
          ∷ []),
    )
    ∷ (
      "boot",
      object (
          ("manifest_hash", Json.null)
          ∷ ("selected_release_set", Json.str "boot-release-set://sourceos/recovery-m2@0.1.0")
          ∷ ("boot_mode", Json.str "recovery")
          ∷ []),
    )
    ∷ (
      "verification",
      object (("verification_result", Json.str "fail") ∷ ("attestation_ref", Json.null) ∷ []),
    )
    ∷ (
      "rollback_recovery",
      object (
          ("rollback_available", Json.bool true)
          ∷ ("recovery_available", Json.bool true)
          ∷ ("rollback_ref", Json.str "rollback://sourceos/recovery-m2@0.0.9")
          ∷ ("recovery_ref", Json.str "recovery://sourceos/recovery-m2@0.1.0")
          ∷ []),
    )
    ∷ (
      "trust_chain_refs",
      object (
          (
            "policy_profile_ref",
            Json.str "policy://trust-chain/boot-admission/regulated-enterprise-production",
          )
          ∷ (
            "admission_decision_ref",
            Json.str "trust-chain:admit-artifact-response:boot-release-set-demo-m2:denied",
          )
          ∷ ("runtime_receipt_ref", Json.null)
          ∷ []),
    )
    ∷ ("decision", Json.str "blocked")
    ∷ (
      "effects",
      object (
          ("boot_allowed", Json.bool false)
          ∷ ("install_allowed", Json.bool false)
          ∷ ("rollback_allowed", Json.bool true)
          ∷ ("repair_required", Json.bool true)
          ∷ ("human_review_required", Json.bool true)
          ∷ []),
    )
    ∷ (
      "remediation",
      array (
          object (
            ("step_id", Json.str "verify-device-claim")
            ∷ ("authority", Json.str "SourceOS-Linux/sourceos-boot")
            ∷ ("required_before_admission", Json.bool true)
            ∷ ("instruction", Json.str "Verify it again.")
            ∷ [])
          ∷ object (
              ("step_id", Json.str "verify-manifest-hash")
              ∷ ("authority", Json.str "SourceOS-Linux/sourceos-boot")
              ∷ ("required_before_admission", Json.bool true)
              ∷ ("instruction", Json.str "Verify it again.")
              ∷ [])
          ∷ []),
    )
    ∷ ("non_claims", array (Json.str "This fixture does not mutate live boot entries." ∷ []))
    ∷ []

abbrev load : String → Result EvidenceError Json
load path = ok (object (if str_eq path "valid.json" then valid_record else blocked_record))

abbrev example_paths : List String
example_paths = "valid.json" ∷ "blocked.json" ∷ []

examples_pass : exit_code load (ok evidence_schema) example_paths ≡ 0
unfolding json_eq json_in get has_key child_schema json_type_name type_matches own_checks key_checks
    validate_schema evidence_schema section field validate_verified remediation_of item_check
    validate_blocked decision_rules validate_file check_path any_failed exit_code
examples_pass = refl

wrong_decision :
    validate_file evidence_schema (object (put "decision" (Json.str "blocked") valid_record))
    ≡ err (rule "blocked fixture must not have verified claim_status")
unfolding json_eq json_in get has_key child_schema json_type_name type_matches own_checks key_checks
    validate_schema evidence_schema section field validate_blocked decision_rules validate_file
wrong_decision = refl

-- The schema's pattern for evidence_id is not checked.
pattern_unchecked :
    validate_file evidence_schema (object (put "evidence_id" (Json.str "x") valid_record)) ≡ ok tt
unfolding json_eq json_in get has_key child_schema json_type_name type_matches own_checks key_checks
    validate_schema evidence_schema section field validate_verified decision_rules validate_file
pattern_unchecked = refl

exit_code-IsDecided_example : All (HoldsDecided load) example_paths
exit_code-IsDecided_example = exit_code-IsDecided load example_paths examples_pass

validate_schema-Conforms_example :
    (validate_schema evidence_schema (object valid_record) [] ≡ ok tt)
    ↔ Conforms evidence_schema (object valid_record)
validate_schema-Conforms_example = validate_schema-Conforms evidence_schema (object valid_record) []
