-- ===== src/ReleaseSet/Tests.antt =====
-- The example of a BootReleaseSet document with one of its artifacts, and each theorem there.
use sourceos_boot.Base.{All, ◌≡◌, ◌↔◌, refl, String, true, false, Option, some, [], ◌∷◌, pos}
use sourceos_boot.Json.{Json, Dict, object, array, put, get, has_key}
use sourceos_boot.Json.Equality.{json_eq, json_in}
use sourceos_boot.Result.{ok, err}
use sourceos_boot.ReleaseSet.Patterns.{
  is_hex, hex_digits, is_sha256, is_prefixed_sha256, name_rest, is_name, suffix_rest, suffix,
  digits_then, triple, is_version,
}
use sourceos_boot.ReleaseSet.Validator.{
  refused, is_int_from, require_member, require_enum_list, require_match, metadata_check,
  policy_check, evidence_check, refs_check, provenance_check, trust_check, signature_check,
  anti_rollback_check, telemetry_check, require_uri, artifact_check, artifacts_check, spec_check,
  validate_document, exit_code,
}
use sourceos_boot.ReleaseSet.Digests.{IsDigest, is_sha256-IsDigest}
use sourceos_boot.ReleaseSet.Command.{HoldsReleaseSet, exit_code-HoldsReleaseSet}

-- the library's answer for the texts below
abbrev urlparse : String → Option (String × String)
urlparse text = some ("https", "example.invalid")

abbrev document : Dict
document =
    ("apiVersion", Json.str "sourceos.dev/v1")
    ∷ ("kind", Json.str "BootReleaseSet")
    ∷ (
      "metadata",
      object (
          ("name", Json.str "sourceos-recovery-demo")
          ∷ ("version", Json.str "0.1.0")
          ∷ ("createdAt", Json.str "2026-04-26T00:00:00Z")
          ∷ []),
    )
    ∷ (
      "spec",
      object (
          ("releaseSetRef", Json.str "prophet-lattice/releases/sourceos-demo/0.1.0")
          ∷ ("platforms", array (Json.str "apple-silicon" ∷ []))
          ∷ (
            "channels",
            array (
                Json.str "live"
                ∷ Json.str "installer"
                ∷ Json.str "recovery"
                ∷ Json.str "rollback"
                ∷ []),
          )
          ∷ (
            "artifacts",
            array (
                object (
                  ("name", Json.str "sourceos-recovery-initrd")
                  ∷ ("role", Json.str "initrd")
                  ∷ ("uri", Json.str "https://example.invalid/sourceos/recovery/0.1.0/initrd.img")
                  ∷ (
                    "sha256",
                    Json.str "0000000000000000000000000000000000000000000000000000000000000000",
                  )
                  ∷ ("sizeBytes", Json.int (pos 0))
                  ∷ ("contentType", Json.str "application/octet-stream")
                  ∷ [])
                ∷ []),
          )
          ∷ (
            "policy",
            object (
                ("network", Json.str "enrollment-only")
                ∷ ("diskWrite", Json.str "recovery-only")
                ∷ ("tokenRequired", Json.bool true)
                ∷ (
                  "allowedActions",
                  array (
                      Json.str "announce"
                      ∷ Json.str "enroll"
                      ∷ Json.str "fetch"
                      ∷ Json.str "verify"
                      ∷ Json.str "install"
                      ∷ Json.str "rollback"
                      ∷ Json.str "repair"
                      ∷ Json.str "rekey"
                      ∷ Json.str "attest"
                      ∷ []),
                )
                ∷ []),
          )
          ∷ (
            "evidence",
            object (
                ("correlationId", Json.str "boot-demo-0001")
                ∷ (
                  "requiredReports",
                  array (
                      Json.str "device-claim"
                      ∷ Json.str "manifest-hash"
                      ∷ Json.str "verification-result"
                      ∷ Json.str "selected-channel"
                      ∷ Json.str "boot-mode"
                      ∷ Json.str "install-result"
                      ∷ Json.str "rollback-result"
                      ∷ Json.str "measurement"
                      ∷ Json.str "attestation"
                      ∷ []),
                )
                ∷ []),
          )
          ∷ (
            "provenance",
            object (
                ("builderId", Json.str "sourceos-boot-demo-builder")
                ∷ (
                  "sourceRefs",
                  array (Json.str "git:local/sourceos-boot#feature/world-class-v1-contracts" ∷ []),
                )
                ∷ ("attestations", array (Json.str "slsa" ∷ Json.str "in-toto" ∷ []))
                ∷ []),
          )
          ∷ (
            "trust",
            object (
                ("model", Json.str "tuf")
                ∷ ("rootRef", Json.str "trust-root-demo")
                ∷ ("metadataRef", Json.str "tuf-metadata-demo")
                ∷ ("threshold", Json.int (pos 1))
                ∷ []),
          )
          ∷ (
            "signature",
            object (
                ("type", Json.str "sigstore")
                ∷ ("bundleRef", Json.str "sigstore-bundle-demo")
                ∷ (
                  "digest",
                  Json.str
                      "sha256:4444444444444444444444444444444444444444444444444444444444444444",
                )
                ∷ []),
          )
          ∷ (
            "antiRollback",
            object (
                ("minimumVersion", Json.str "0.1.0")
                ∷ ("allowOfflineFallback", Json.bool true)
                ∷ (
                  "allowedRollbackRefs",
                  array (Json.str "prophet-lattice/releases/sourceos-demo/0.0.1" ∷ []),
                )
                ∷ []),
          )
          ∷ (
            "telemetry",
            object (
                ("traceRequired", Json.bool true)
                ∷ (
                  "metricSet",
                  array (
                      Json.str "boot-duration"
                      ∷ Json.str "verify-duration"
                      ∷ Json.str "download-bytes"
                      ∷ Json.str "action-result"
                      ∷ []),
                )
                ∷ []),
          )
          ∷ []),
    )
    ∷ []

abbrev digest : String
digest = "00000000000000000000000000000000000000000000000000000000000000ff"

accepted : validate_document urlparse (object document) ≡ ok tt
unfolding json_eq json_in get has_key is_hex hex_digits is_sha256 is_prefixed_sha256 name_rest
    is_name suffix_rest suffix digits_then triple is_version is_int_from require_member
    require_enum_list require_match metadata_check policy_check evidence_check refs_check
    provenance_check trust_check signature_check anti_rollback_check telemetry_check require_uri
    artifact_check artifacts_check spec_check validate_document
accepted = refl

no_version :
    validate_document urlparse
      (object (put "metadata" (object (("name", Json.str "demo") ∷ [])) document))
    ≡ err (refused "metadata.version")
unfolding get has_key name_rest is_name is_version require_match metadata_check validate_document
no_version = refl

codes :
    (exit_code urlparse (ok (object document) ∷ ok Json.null ∷ []) false ≡ 1)
    × (exit_code urlparse [] false ≡ 0)
unfolding exit_code validate_document json_eq json_in get has_key is_hex hex_digits is_sha256
    is_prefixed_sha256 name_rest is_name suffix_rest suffix digits_then triple is_version
    is_int_from require_member require_enum_list require_match metadata_check policy_check
    evidence_check refs_check provenance_check trust_check signature_check anti_rollback_check
    telemetry_check require_uri artifact_check artifacts_check spec_check
codes = (refl, refl)

-- A digest with a line feed behind it matches.
line_feed_accepted :
    is_sha256 "00000000000000000000000000000000000000000000000000000000000000ff\n" ≡ true
unfolding is_sha256 hex_digits is_hex
line_feed_accepted = refl

exit_code-HoldsReleaseSet_example :
    (exit_code urlparse (ok (object document) ∷ []) false ≡ 0)
    ↔ All (HoldsReleaseSet urlparse) (ok (object document) ∷ [])
exit_code-HoldsReleaseSet_example = exit_code-HoldsReleaseSet urlparse (ok (object document) ∷ [])

is_sha256-IsDigest_example : (is_sha256 digest ≡ true) ↔ IsDigest 64 digest
is_sha256-IsDigest_example = is_sha256-IsDigest digest
