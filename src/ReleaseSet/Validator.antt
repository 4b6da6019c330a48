-- ===== src/ReleaseSet/Validator.antt =====
-- validate_boot_release_set.py; the argument `urlparse` is the library's, which gives a scheme and a
-- location or raises.
use sourceos_boot.Base.{
  ℕ, suc, String, Bool, true, false, not, ◌&&◌, ◌||◌, Option, none, some, List, [], ◌∷◌, mem_text,
  if◌then◌else◌, pos, leb, str_eq,
}
use sourceos_boot.Json.{
  Json, Dict, get, lookup, has_key, as_text, as_dict, as_list, is_bool, is_text, is_hashable,
  in_texts,
}
use sourceos_boot.Json.Equality.{json_in}
use sourceos_boot.Result.{Result, ok, ◌>>=◌, ◌>>◌, guard, or_raise, yields}
use sourceos_boot.ReleaseSet.Patterns.{is_sha256, is_prefixed_sha256, is_name, is_version}

-- the ValueError of `require`, at an index of a list for a check in a loop, and any other exception
pub data DocumentError : Type 0 where
  refused : String → DocumentError
  refused_at : ℕ → String → DocumentError
  crashed : DocumentError

abbrev pub Verdict : Type 0
Verdict = Result DocumentError (Unit {0})

-- isinstance(value, str) and bool(value)
abbrev pub is_filled : Json → Bool
is_filled (Json.str s) = not (str_eq s "")
is_filled _ = false

-- `isinstance(value, int) and value >= n`: True and False are ints too
unfoldable pub is_int_from : ℕ → Json → Bool
is_int_from n (Json.int (pos m)) = leb n m
is_int_from n (Json.bool true) = leb n 1
is_int_from n (Json.bool false) = leb n 0
is_int_from n _ = false

abbrev pub every : (Json → Bool) → List Json → Bool
every p [] = true
every p (v ∷ vs) = p v && every p vs

-- `len(values) == len(set(values))`
abbrev pub are_distinct : List Json → Bool
are_distinct [] = true
are_distinct (v ∷ vs) = not (json_in v vs) && are_distinct vs

-- require_string
abbrev pub require_string : Json → DocumentError → Verdict
require_string v e = guard (is_filled v) e

-- `value in {texts}`, which hashes the value
unfoldable pub require_member : Json → List String → DocumentError → Verdict
require_member v ts e = guard (is_hashable v) crashed >> guard (in_texts v ts) e

-- an object under a key
abbrev pub require_object : Dict → String → DocumentError → Result DocumentError Dict
require_object d key e = or_raise (as_dict (get d key)) e

-- a list that is not empty
abbrev filled_list : Option (List Json) → Option (List Json)
filled_list (some (v ∷ vs)) = some (v ∷ vs)
filled_list _ = none

abbrev pub require_list : Json → DocumentError → Result DocumentError (List Json)
require_list v e = or_raise (filled_list (as_list v)) e

-- require_enum_list; the sorted list of the invalid values in its message is left out
unfoldable pub require_enum_list : Json → List String → String → Verdict
require_enum_list v allowed field = do
  values ← require_list v (refused field)
  guard (every is_hashable values) crashed
  guard (are_distinct values) (refused field)
  guard (every (λ x. in_texts x allowed) values) (refused field)

-- `pattern.match(d.get(key, ""))`
abbrev text_or_empty : Option Json → Option String
text_or_empty none = some ""
text_or_empty (some v) = as_text v

unfoldable pub require_match : (String → Bool) → Dict → String → DocumentError → Verdict
require_match matches d key e = do
  text ← or_raise (text_or_empty (lookup key d)) crashed
  guard (matches text) e

-- `if key in d: require(...)`
abbrev pub require_if_given : Dict → String → (Json → Bool) → DocumentError → Verdict
require_if_given d key test e = guard (not (has_key d key) || test (get d key)) e

-- a scheme and a location
abbrev pub is_reachable : String × String → Bool
is_reachable (scheme, netloc) =
    mem_text scheme ("https" ∷ "file" ∷ "oci" ∷ [])
    && (not (str_eq netloc "") || mem_text scheme ("file" ∷ "oci" ∷ []))

-- the checks of the metadata
unfoldable pub metadata_check : Dict → Verdict
metadata_check metadata = do
  require_match is_name metadata "name" (refused "metadata.name")
  require_match is_version metadata "version" (refused "metadata.version")
  require_string (get metadata "createdAt") (refused "metadata.createdAt")

unfoldable pub policy_check : Dict → Verdict
policy_check policy = do
  require_member (get policy "network") ("none" ∷ "enrollment-only" ∷ "restricted" ∷ "full" ∷ [])
      (refused "spec.policy.network")
  require_member (get policy "diskWrite")
      ("forbidden" ∷ "installer-only" ∷ "recovery-only" ∷ "allowed" ∷ [])
      (refused "spec.policy.diskWrite")
  guard (is_bool (get policy "tokenRequired")) (refused "spec.policy.tokenRequired")
  require_enum_list (get policy "allowedActions")
      ("announce" ∷ "enroll" ∷ "fetch" ∷ "verify" ∷ "kexec" ∷ "install" ∷ "rollback" ∷ "repair"
        ∷ "rekey" ∷ "attest" ∷ [])
      "spec.policy.allowedActions"

unfoldable pub evidence_check : Dict → Verdict
evidence_check evidence = do
  require_string (get evidence "correlationId") (refused "spec.evidence.correlationId")
  require_enum_list (get evidence "requiredReports")
      ("device-claim" ∷ "manifest-hash" ∷ "verification-result" ∷ "selected-channel" ∷ "boot-mode"
        ∷ "install-result" ∷ "rollback-result" ∷ "measurement" ∷ "attestation" ∷ [])
      "spec.evidence.requiredReports"

-- the loop over the source refs
unfoldable pub refs_check : ℕ → List Json → Verdict
refs_check index [] = ok tt
refs_check index (ref ∷ refs) =
    require_string ref (refused_at index "spec.provenance.sourceRefs")
    >> refs_check (suc index) refs

unfoldable pub provenance_check : Dict → Verdict
provenance_check provenance = do
  require_string (get provenance "builderId") (refused "spec.provenance.builderId")
  refs ← require_list (get provenance "sourceRefs") (refused "spec.provenance.sourceRefs")
  refs_check 0 refs
  require_enum_list (get provenance "attestations") ("slsa" ∷ "in-toto" ∷ [])
      "spec.provenance.attestations"

unfoldable pub trust_check : Dict → Verdict
trust_check trust = do
  require_member (get trust "model") ("tuf" ∷ "uptane" ∷ "static-root" ∷ [])
      (refused "spec.trust.model")
  require_string (get trust "rootRef") (refused "spec.trust.rootRef")
  require_string (get trust "metadataRef") (refused "spec.trust.metadataRef")
  require_if_given trust "threshold" (is_int_from 1) (refused "spec.trust.threshold")

unfoldable pub signature_check : Dict → Verdict
signature_check signature = do
  require_member (get signature "type") ("sigstore" ∷ "cosign" ∷ "minisign" ∷ "x509" ∷ "other" ∷ [])
      (refused "spec.signature.type")
  require_match is_prefixed_sha256 signature "digest" (refused "spec.signature.digest")

unfoldable pub anti_rollback_check : Dict → Verdict
anti_rollback_check anti_rollback = do
  require_string (get anti_rollback "minimumVersion") (refused "spec.antiRollback.minimumVersion")
  guard (is_bool (get anti_rollback "allowOfflineFallback"))
      (refused "spec.antiRollback.allowOfflineFallback")

unfoldable pub telemetry_check : Dict → Verdict
telemetry_check telemetry = do
  guard (is_bool (get telemetry "traceRequired")) (refused "spec.telemetry.traceRequired")
  require_enum_list (get telemetry "metricSet")
      ("boot-duration" ∷ "verify-duration" ∷ "download-bytes" ∷ "action-result" ∷ [])
      "spec.telemetry.metricSet"

module _ (urlparse : String → Option (String × String)) where
  -- require_uri
  unfoldable pub require_uri : Json → DocumentError → Verdict
  require_uri v e = do
    require_string v e
    text ← or_raise (as_text v) e
    parsed ← or_raise (urlparse text) crashed
    guard (is_reachable parsed) e

  -- one artifact of the loop
  unfoldable pub artifact_check : ℕ → Json → Verdict
  artifact_check index value = do
    artifact ← or_raise (as_dict value) (refused_at index "an object")
    require_string (get artifact "name") (refused_at index "name")
    require_member (get artifact "role")
        ("kernel" ∷ "initrd" ∷ "rootfs" ∷ "manifest" ∷ "bootloader" ∷ "recovery-image"
          ∷ "installer-data" ∷ "signature" ∷ "attestation" ∷ "tuf-metadata" ∷ "other" ∷ [])
        (refused_at index "role")
    require_uri (get artifact "uri") (refused_at index "uri")
    require_match is_sha256 artifact "sha256" (refused_at index "sha256")
    require_if_given artifact "sizeBytes" (is_int_from 0) (refused_at index "sizeBytes")

  unfoldable pub artifacts_check : ℕ → List Json → Verdict
  artifacts_check index [] = ok tt
  artifacts_check index (artifact ∷ artifacts) =
      artifact_check index artifact >> artifacts_check (suc index) artifacts

  -- the checks of the parts of a spec
  unfoldable pub spec_check : Dict → Verdict
  spec_check spec = do
    require_enum_list (get spec "platforms")
        ("apple-silicon" ∷ "uefi-x86_64" ∷ "uefi-aarch64" ∷ "generic-arm64" ∷ []) "spec.platforms"
    require_enum_list (get spec "channels")
        ("live" ∷ "installer" ∷ "recovery" ∷ "rollback" ∷ "rescue" ∷ []) "spec.channels"
    artifacts ← require_list (get spec "artifacts") (refused "spec.artifacts")
    artifacts_check 0 artifacts
    policy ← require_object spec "policy" (refused "spec.policy")
    policy_check policy
    evidence ← require_object spec "evidence" (refused "spec.evidence")
    evidence_check evidence
    provenance ← require_object spec "provenance" (refused "spec.provenance")
    provenance_check provenance
    trust ← require_object spec "trust" (refused "spec.trust")
    trust_check trust
    signature ← require_object spec "signature" (refused "spec.signature")
    signature_check signature
    anti_rollback ← require_object spec "antiRollback" (refused "spec.antiRollback")
    anti_rollback_check anti_rollback
    telemetry ← require_object spec "telemetry" (refused "spec.telemetry")
    telemetry_check telemetry

  -- validate_document
  unfoldable pub validate_document : Json → Verdict
  validate_document value = do
    doc ← or_raise (as_dict value) crashed
    guard (is_text "sourceos.dev/v1" (get doc "apiVersion")) (refused "apiVersion")
    guard (is_text "BootReleaseSet" (get doc "kind")) (refused "kind")
    metadata ← require_object doc "metadata" (refused "metadata")
    metadata_check metadata
    spec ← require_object doc "spec" (refused "spec")
    spec_check spec

  -- main, on what the files decode to: a file that cannot be read or decoded raises
  unfoldable pub exit_code : List (Result DocumentError Json) → Bool → ℕ
  exit_code [] failed = if failed then 1 else 0
  exit_code (file ∷ files) failed =
      exit_code files (failed || not (yields (file >>= validate_document)))
