-- ===== src/TrustChain/Evidence.antt =====
-- The rules of validate_trust_chain_boot_verification.py for a record, and its `main`.
use sourceos_boot.Base.{
  ℕ, String, Bool, false, not, ◌&&◌, ◌||◌, Option, none, some, List, [], ◌∷◌, if◌then◌else◌,
}
use sourceos_boot.Json.{
  Json, Dict, get, lookup, as_dict, as_list, is_null, is_true, is_false, is_text, truthy_json,
}
use sourceos_boot.Result.{Result, ok, ◌>>=◌, ◌>>◌, guard, or_raise, for_each, yields}
use sourceos_boot.TrustChain.Schema.{Schema, EvidenceError, rule, no_dict, Verdict, validate_schema}

-- `record.get(name, {})`, of which `.get` is called
unfoldable pub section : Dict → String → Result EvidenceError Dict
section d name = elim (lookup name d) [ none ↦ ok [] | some v ↦ or_raise (as_dict v) no_dict ]

-- `record.get(name, {}).get(key)`
unfoldable pub field : Dict → String → String → Result EvidenceError Json
field d name key = do part ← section d name; ok (get part key)

-- `if not test: fail(message)`
abbrev pub must : Bool → String → Verdict
must test message = guard test (rule message)

-- validate_verified
unfoldable pub validate_verified : Dict → Verdict
validate_verified d = do
  must (is_text "verified" (get d "decision")) "verified fixture must have decision=verified"
  claim_status ← field d "device_claim" "claim_status"
  must (is_text "verified" claim_status) "verified fixture requires verified device claim"
  claim_ref ← field d "device_claim" "claim_ref"
  must (truthy_json claim_ref) "verified fixture requires claim_ref"
  manifest_hash ← field d "boot" "manifest_hash"
  must (truthy_json manifest_hash) "verified fixture requires manifest_hash"
  verification_result ← field d "verification" "verification_result"
  must (is_text "pass" verification_result) "verified fixture requires verification_result=pass"
  attestation_ref ← field d "verification" "attestation_ref"
  must (truthy_json attestation_ref) "verified fixture requires attestation_ref"
  refs ← section d "trust_chain_refs"
  for_each
      (λ key. must (truthy_json (get refs key)) "verified fixture missing a trust chain reference")
      ("policy_profile_ref" ∷ "admission_decision_ref" ∷ "runtime_receipt_ref" ∷ [])
  effects ← section d "effects"
  must (is_true (get effects "boot_allowed") && is_true (get effects "install_allowed"))
      "verified fixture must allow boot and install"
  must (is_false (get effects "repair_required") && is_false (get effects "human_review_required"))
      "verified fixture must not require repair or review"

-- `record.get("remediation", [])`, a list that is not empty
unfoldable pub remediation_of : Dict → Option (List Json)
remediation_of d = elim (lookup "remediation" d) [ none ↦ none | some v ↦ filled (as_list v) ]
  where
    filled : Option (List Json) → Option (List Json)
    filled (some (v ∷ vs)) = some (v ∷ vs)
    filled _ = none

-- one item of the loop over the remediation
unfoldable pub item_check : Json → Verdict
item_check v = do
  item ← or_raise (as_dict v) no_dict
  must (is_true (get item "required_before_admission"))
      "remediation must be required before admission"
  must (truthy_json (get item "authority")) "remediation requires authority"

-- validate_blocked
unfoldable pub validate_blocked : Dict → Verdict
validate_blocked d = do
  must (is_text "blocked" (get d "decision")) "blocked fixture must have decision=blocked"
  claim_status ← field d "device_claim" "claim_status"
  must (not (is_text "verified" claim_status)) "blocked fixture must not have verified claim_status"
  manifest_hash ← field d "boot" "manifest_hash"
  must (is_null manifest_hash) "blocked fixture should not carry manifest_hash"
  verification_result ← field d "verification" "verification_result"
  must (not (is_text "pass" verification_result))
      "blocked fixture must not have verification_result=pass"
  effects ← section d "effects"
  must (is_false (get effects "boot_allowed") && is_false (get effects "install_allowed"))
      "blocked fixture must deny boot and install"
  must (is_true (get effects "repair_required") && is_true (get effects "human_review_required"))
      "blocked fixture must require repair and human review"
  remediation ← or_raise (remediation_of d) (rule "blocked fixture requires remediation")
  for_each item_check remediation

-- the rules for the decision of a record
unfoldable pub decision_rules : Dict → Verdict
decision_rules d =
    let decision = get d "decision" in
    if is_text "verified" decision
    then validate_verified d
    else if is_text "blocked" decision
    then validate_blocked d
    else ok tt

-- validate_file, on what the two files decode to
unfoldable pub validate_file : Schema → Json → Verdict
validate_file schema record_value = do
  validate_schema schema record_value []
  d ← or_raise (as_dict record_value) no_dict
  decision_rules d

-- main; the argument `load` is `load_json`, which may raise too
module _ {File : Type 0} (load : File → Result EvidenceError Json)
    (schema : Result EvidenceError Schema) where
  -- the body of its loop
  unfoldable pub check_path : File → Verdict
  check_path path = do s ← schema; v ← load path; validate_file s v

  unfoldable pub any_failed : List File → Bool
  any_failed [] = false
  any_failed (path ∷ paths) = not (yields (check_path path)) || any_failed paths

  unfoldable pub exit_code : List File → ℕ
  exit_code paths = if any_failed paths then 1 else 0
