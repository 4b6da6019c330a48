-- ===== src/TrustChain/Document.antt =====
-- schemas/trust-chain-boot-verification-evidence.v0.1.schema.json, in the keywords that the validator
-- reads: `pattern`, `minLength` and `minItems` are not among them.
use sourceos_boot.Base.{String, none, some, List, [], ◌∷◌, map}
use sourceos_boot.Json.{Json}
use sourceos_boot.TrustChain.Schema.{
  Schema, keywords, Properties, no_more, property, anything, nothing, any_items, each,
}

abbrev of_types : List String → Schema
of_types ts = keywords none none (some ts) [] no_more anything any_items

abbrev a_text : Schema
a_text = of_types ("string" ∷ [])

abbrev a_text_or_null : Schema
a_text_or_null = of_types ("string" ∷ "null" ∷ [])

abbrev a_boolean : Schema
a_boolean = of_types ("boolean" ∷ [])

abbrev one_of : List String → Schema
one_of ts = keywords none (some (map Json.str ts)) none [] no_more anything any_items

abbrev only : String → Schema
only t = keywords (some (Json.str t)) none none [] no_more anything any_items

abbrev list_of : Schema → Schema
list_of s = keywords none none (some ("array" ∷ [])) [] no_more anything (each s)

abbrev closed : List String → Properties → Schema
closed required ps = keywords none none (some ("object" ∷ [])) required ps nothing any_items

abbrev device_claim_schema : Schema
device_claim_schema = closed ("device_id" ∷ "platform" ∷ "claim_ref" ∷ "claim_status" ∷ []) (
    property "device_id" a_text (
      property "platform"
        (one_of ("apple-silicon" ∷ "uefi-x86_64" ∷ "uefi-aarch64" ∷ "generic-arm64" ∷ []))
        (property "claim_ref" a_text_or_null
          (property "claim_status" (one_of ("verified" ∷ "failed" ∷ "missing" ∷ [])) no_more))))

abbrev boot_schema : Schema
boot_schema = closed ("manifest_hash" ∷ "selected_release_set" ∷ "boot_mode" ∷ []) (
    property "manifest_hash" a_text_or_null (
      property "selected_release_set" a_text_or_null (
        property "boot_mode"
          (one_of ("normal" ∷ "recovery" ∷ "rollback" ∷ "rescue" ∷ "installer" ∷ [])) no_more)))

abbrev verification_schema : Schema
verification_schema = closed ("verification_result" ∷ "attestation_ref" ∷ []) (
    property "verification_result" (one_of ("pass" ∷ "fail" ∷ "not_run" ∷ []))
      (property "attestation_ref" a_text_or_null no_more))

abbrev rollback_recovery_schema : Schema
rollback_recovery_schema =
    closed ("rollback_available" ∷ "recovery_available" ∷ "rollback_ref" ∷ "recovery_ref" ∷ []) (
      property "rollback_available" a_boolean (
        property "recovery_available" a_boolean (
          property "rollback_ref" a_text_or_null (property "recovery_ref" a_text_or_null no_more))))

abbrev trust_chain_refs_schema : Schema
trust_chain_refs_schema =
    closed ("policy_profile_ref" ∷ "admission_decision_ref" ∷ "runtime_receipt_ref" ∷ []) (
      property "policy_profile_ref" a_text_or_null (
        property "admission_decision_ref" a_text_or_null
          (property "runtime_receipt_ref" a_text_or_null no_more)))

abbrev effects_schema : Schema
effects_schema =
    closed
      ("boot_allowed" ∷ "install_allowed" ∷ "rollback_allowed" ∷ "repair_required"
        ∷ "human_review_required" ∷ [])
      (property "boot_allowed" a_boolean (
        property "install_allowed" a_boolean (
          property "rollback_allowed" a_boolean (
            property "repair_required" a_boolean
              (property "human_review_required" a_boolean no_more)))))

abbrev remediation_item_schema : Schema
remediation_item_schema =
    closed ("step_id" ∷ "authority" ∷ "required_before_admission" ∷ "instruction" ∷ []) (
      property "step_id" a_text (
        property "authority" a_text
          (property "required_before_admission" a_boolean (property "instruction" a_text no_more))))

unfoldable pub evidence_schema : Schema
evidence_schema =
    closed
      ("schema_version" ∷ "evidence_id" ∷ "evidence_type" ∷ "boot_release_set_ref" ∷ "device_claim"
        ∷ "boot" ∷ "verification" ∷ "rollback_recovery" ∷ "trust_chain_refs" ∷ "decision"
        ∷ "effects" ∷ "non_claims" ∷ [])
      (property "schema_version" (only "0.1") (
        property "evidence_id" a_text (
          property "evidence_type" (only "TrustChainBootVerificationEvidence") (
            property "boot_release_set_ref" a_text (
              property "device_claim" device_claim_schema (
                property "boot" boot_schema (
                  property "verification" verification_schema (
                    property "rollback_recovery" rollback_recovery_schema (
                      property "trust_chain_refs" trust_chain_refs_schema (
                        property "decision"
                          (one_of ("verified" ∷ "blocked" ∷ "review_required" ∷ []))
                          (property "effects" effects_schema (
                            property "remediation" (list_of remediation_item_schema)
                              (property "non_claims" (list_of a_text) no_more)))))))))))))
