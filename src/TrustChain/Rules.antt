-- ===== src/TrustChain/Rules.antt =====
-- What a record that the rules of its decision accept says.
use sourceos_boot.Base.{
  String, Bool, true, false, not, ◌&&◌, ◌≡◌, refl, arith, some, List, [], ◌∷◌, All, and_true,
}
use sourceos_boot.Json.{Json, Dict, get, is_null, is_true, is_false, is_text, truthy_json}
use sourceos_boot.Result.{
  Result, ok, err, ◌>>=◌, ◌>>◌, or_raise, for_each, for_each-All, bind-ok, guard-ok, or_raise-ok,
}
use sourceos_boot.TrustChain.Schema.{EvidenceError, rule, Verdict}
use sourceos_boot.TrustChain.Evidence.{
  section, field, must, validate_verified, remediation_of, item_check, validate_blocked,
}

-- The value could be read and passes the test.
abbrev pub passes : (Json → Bool) → Result EvidenceError Json → Bool
passes p (ok v) = p v
passes p (err e) = false

-- A verified record names a verified claim, a manifest hash, a verification that passed and its three
-- receipts, and it allows boot and install without a repair or a review.
pub record Admits (d : Dict) : Type 0 where
  pub claimed : passes (is_text "verified") (field d "device_claim" "claim_status") ≡ true
  pub claim_named : passes truthy_json (field d "device_claim" "claim_ref") ≡ true
  pub hashed : passes truthy_json (field d "boot" "manifest_hash") ≡ true
  pub passed : passes (is_text "pass") (field d "verification" "verification_result") ≡ true
  pub attested : passes truthy_json (field d "verification" "attestation_ref") ≡ true
  pub received :
      All
        (λ k. passes truthy_json (field d "trust_chain_refs" k) ≡ true)
        ("policy_profile_ref" ∷ "admission_decision_ref" ∷ "runtime_receipt_ref" ∷ [])
  pub boots : passes is_true (field d "effects" "boot_allowed") ≡ true
  pub installs : passes is_true (field d "effects" "install_allowed") ≡ true
  pub needs_no_repair : passes is_false (field d "effects" "repair_required") ≡ true
  pub needs_no_review : passes is_false (field d "effects" "human_review_required") ≡ true

-- A blocked record has no manifest hash and no verification that passed, denies boot and install,
-- and asks for a repair, a review and at least one step, each of which an authority demands.
pub record Denies (d : Dict) : Type 0 where
  pub unclaimed : passes (is_text "verified") (field d "device_claim" "claim_status") ≡ false
  pub unhashed : passes is_null (field d "boot" "manifest_hash") ≡ true
  pub unpassed : passes (is_text "pass") (field d "verification" "verification_result") ≡ false
  pub boots_not : passes is_false (field d "effects" "boot_allowed") ≡ true
  pub installs_not : passes is_false (field d "effects" "install_allowed") ≡ true
  pub needs_repair : passes is_true (field d "effects" "repair_required") ≡ true
  pub needs_review : passes is_true (field d "effects" "human_review_required") ≡ true
  pub remedied :
      (vs : List Json) × (remediation_of d ≡ some vs) × All (λ v. item_check v ≡ ok tt) vs

abbrev pub decides : String → Dict → Bool
decides t d = is_text t (get d "decision")

must_hold : (b : Bool) (t : String) → must b t ≡ ok tt → b ≡ true
must_hold b t h = ground arith

-- A field that must pass a test, at the head of a chain that does not raise.
require :
    (p : Json → Bool) (m : Result EvidenceError Json) (text : String) (rest : Verdict)
    → m >>= (λ v. must (p v) text >> rest) ≡ ok tt
    → (passes p m ≡ true) × (rest ≡ ok tt)
require p (ok v) text rest h = guard-ok (p v) (rule text) (λ _. rest) h
require p (err e) text rest h = cc

passes-not :
    (p : Json → Bool) (m : Result EvidenceError Json)
    → passes (λ v. not (p v)) m ≡ true
    → passes p m ≡ false
passes-not p (ok v) h = ground arith
passes-not p (err e) h = refl

-- a test on a field of a section that was read
read :
    (p : Json → Bool) (d : Dict) (name key : String) {part : Dict}
    → section d name ≡ ok part
    → p (get part key) ≡ true
    → passes p (field d name key) ≡ true
unfolding field
read p d name key e h = rw e h

read_both :
    (p q : Json → Bool) (d : Dict) (name key₁ key₂ : String) {part : Dict}
    → section d name ≡ ok part
    → (p (get part key₁) && q (get part key₂)) ≡ true
    → (passes p (field d name key₁) ≡ true) × (passes q (field d name key₂) ≡ true)
read_both p q d name key₁ key₂ {part} e h =
    let (a, b) = and_true (p (get part key₁)) (q (get part key₂)) h in
    (read p d name key₁ e a, read q d name key₂ e b)

read_all :
    (p : Json → Bool) (d : Dict) (name text : String) {part : Dict} (keys : List String)
    → section d name ≡ ok part
    → for_each (λ key. must (p (get part key)) text) keys ≡ ok tt
    → All (λ key. passes p (field d name key) ≡ true) keys
read_all p d name text [] e h = tt
read_all p d name text {part} (key ∷ keys) e h =
    let (a, b) = guard-ok (p (get part key)) (rule text) _ h in
    (read p d name key e a, read_all p d name text keys e b)

pub validate_verified-Admits : (d : Dict) → validate_verified d ≡ ok tt → Admits d
unfolding validate_verified
validate_verified-Admits d h =
    let (g₀, h₀) = guard-ok (decides "verified" d) _ _ h in
    let (claim, h₁) = require (is_text "verified") (field d "device_claim" "claim_status") _ _ h₀ in
    let (ref, h₂) = require truthy_json (field d "device_claim" "claim_ref") _ _ h₁ in
    let (hash, h₃) = require truthy_json (field d "boot" "manifest_hash") _ _ h₂ in
    let (pass, h₄) =
      require (is_text "pass") (field d "verification" "verification_result") _ _ h₃ in
    let (attests, h₅) = require truthy_json (field d "verification" "attestation_ref") _ _ h₄ in
    let (refs, e₆, h₆) = bind-ok (section d "trust_chain_refs") _ h₅ in
    let (u, each, h₇) =
      bind-ok
        (for_each
          (λ (key : String).
            must (truthy_json (get refs key)) "verified fixture missing a trust chain reference")
          ("policy_profile_ref" ∷ "admission_decision_ref" ∷ "runtime_receipt_ref" ∷ []))
        _ h₆ in
    let (effects, e₈, h₈) = bind-ok (section d "effects") _ h₇ in
    let (allowed, h₉) =
      guard-ok (is_true (get effects "boot_allowed") && is_true (get effects "install_allowed")) _ _
        h₈ in
    let needs = must_hold _ _ h₉ in
    let (b, i) =
      read_both is_true is_true d "effects" "boot_allowed" "install_allowed" e₈ allowed in
    let (r, v) =
      read_both is_false is_false d "effects" "repair_required" "human_review_required" e₈ needs in
    record {
      claimed = claim;
      claim_named = ref;
      hashed = hash;
      passed = pass;
      attested = attests;
      received =
          read_all truthy_json d "trust_chain_refs"
            "verified fixture missing a trust chain reference"
            ("policy_profile_ref" ∷ "admission_decision_ref" ∷ "runtime_receipt_ref" ∷ []) e₆ each;
      boots = b;
      installs = i;
      needs_no_repair = r;
      needs_no_review = v;
    }

pub validate_blocked-Denies : (d : Dict) → validate_blocked d ≡ ok tt → Denies d
unfolding validate_blocked
validate_blocked-Denies d h =
    let (g₀, h₀) = guard-ok (decides "blocked" d) _ _ h in
    let (claim, h₁) =
      require (λ v. not (is_text "verified" v)) (field d "device_claim" "claim_status") _ _ h₀ in
    let (hash, h₂) = require is_null (field d "boot" "manifest_hash") _ _ h₁ in
    let (pass, h₃) =
      require (λ v. not (is_text "pass" v)) (field d "verification" "verification_result") _ _ h₂ in
    let (effects, e₄, h₄) = bind-ok (section d "effects") _ h₃ in
    let (denied, h₅) =
      guard-ok (is_false (get effects "boot_allowed") && is_false (get effects "install_allowed")) _
        _ h₄ in
    let (needs, h₆) =
      guard-ok
        (is_true (get effects "repair_required") && is_true (get effects "human_review_required")) _
        _ h₅ in
    let (vs, e₇, each) =
      bind-ok (or_raise (remediation_of d) (rule "blocked fixture requires remediation")) _ h₆ in
    let (b, i) =
      read_both is_false is_false d "effects" "boot_allowed" "install_allowed" e₄ denied in
    let (r, v) =
      read_both is_true is_true d "effects" "repair_required" "human_review_required" e₄ needs in
    record {
      unclaimed = passes-not (is_text "verified") (field d "device_claim" "claim_status") claim;
      unhashed = hash;
      unpassed = passes-not (is_text "pass") (field d "verification" "verification_result") pass;
      boots_not = b;
      installs_not = i;
      needs_repair = r;
      needs_review = v;
      remedied = (vs, or_raise-ok (remediation_of d) _ e₇, for_each-All item_check vs each);
    }
