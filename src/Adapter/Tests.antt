-- ===== src/Adapter/Tests.antt =====
-- A handoff from a manifest and a token, and each theorem there.
use sourceos_boot.Base.{◌≡◌, refl, ◌&&◌, String, [], ◌∷◌}
use sourceos_boot.Json.{Json, Dict, object, get, Hashing, array, texts, in_dict}
use sourceos_boot.Result.{err, yields}
use sourceos_boot.Adapter.Handoff.{
  DeviceClaim, BootAuthorization, missing_field, Handoff, require_field,
  authorization_from_nlboot_token, adapt_objects, adapt_nlboot, build_evidence,
}
use sourceos_boot.Adapter.Laws.{is_manifest, is_token, adapt_nlboot-yields}

abbrev shown : Json → String
shown v = "?"

abbrev hashing : Hashing
hashing = record { dumps = λ v. "{}"; sha256_hex = λ s. "44136fa3" }

abbrev claim : DeviceClaim
claim = record {
  device_id = "m2-01";
  public_key_fingerprint = "ab:cd";
  platform = "apple-silicon";
  nonce = "n-1";
  observed_at = "2026-04-26T14:30:00Z";
}

abbrev manifest : Dict
manifest =
    ("base_release_set_ref", Json.str "urn:srcos:release-set:m2")
    ∷ ("boot_mode", Json.str "recovery")
    ∷ ("artifacts", object (("kernel_ref", Json.str "urn:k") ∷ ("rootfs_ref", Json.null) ∷ []))
    ∷ []

abbrev token : Dict
token =
    ("boot_release_set_ref", Json.str "urn:srcos:boot-release-set:m2")
    ∷ ("token_id", Json.str "t-1")
    ∷ ("expires_at", Json.str "2026-04-27")
    ∷ []

abbrev granted : BootAuthorization
granted = record {
  correlation_id = "c-1";
  boot_release_set_ref = "urn:srcos:boot-release-set:m2";
  token_id = "t-1";
  expires_at = "2026-04-27";
}

abbrev handoff : Handoff
handoff = record {
  authorization = granted;
  patch =
      ("releaseSetRef", Json.str "urn:srcos:release-set:m2")
      ∷ ("channels", texts ("recovery" ∷ []))
      ∷ (
        "artifactRefsPendingDigest",
        array (object (("role", Json.str "kernel") ∷ ("uri", Json.str "urn:k") ∷ []) ∷ []),
      )
      ∷ [];
  evidence = build_evidence claim granted "recovery" "recovery" "sha256:44136fa3" "pass";
}

no_token :
    adapt_nlboot shown hashing claim "c-1" "pass" (object manifest) (object [])
    ≡ err (missing_field "boot_release_set_ref" "token")
unfolding require_field authorization_from_nlboot_token adapt_objects adapt_nlboot get
no_token = refl

adapt_nlboot-yields_example :
    yields (adapt_nlboot shown hashing claim "c-1" "pass" (object manifest) (object token))
    ≡ in_dict (λ m. in_dict (λ t. is_manifest m && is_token t) (object token)) (object manifest)
adapt_nlboot-yields_example =
    adapt_nlboot-yields shown hashing claim "c-1" "pass" (object manifest) (object token)
