-- ===== src/Adapter/Handoff.antt =====
-- adapter.py, and `adapt_nlboot` of cli.py.
use sourceos_boot.Base.{String, Bool, ◌||◌, List, [], ◌∷◌, ◌++◌, if◌then◌else◌}
use sourceos_boot.Json.{
  Json, Dict, get, as_dict, is_null, is_text, truthy_json, object, array, texts, text_of, Hashing,
  digest_of,
}
use sourceos_boot.Result.{Result, ok, err, ◌>>=◌, or_raise}

-- DeviceClaim
pub record DeviceClaim : Type 0 where
  pub device_id : String
  pub public_key_fingerprint : String
  pub platform : String
  pub nonce : String
  pub observed_at : String

-- BootAuthorization
pub record BootAuthorization : Type 0 where
  pub correlation_id : String
  pub boot_release_set_ref : String
  pub token_id : String
  pub expires_at : String

-- BootEvidence
pub record BootEvidence : Type 0 where
  pub correlation_id : String
  pub device_id : String
  pub selected_channel : String
  pub boot_mode : String
  pub manifest_hash : String
  pub verification_result : String
  pub reports : List String

-- the three `to_dict`
abbrev pub claim_dict : DeviceClaim → Dict
claim_dict c =
    ("deviceId", Json.str c.device_id)
    ∷ ("publicKeyFingerprint", Json.str c.public_key_fingerprint)
    ∷ ("platform", Json.str c.platform)
    ∷ ("nonce", Json.str c.nonce)
    ∷ ("observedAt", Json.str c.observed_at)
    ∷ []

abbrev pub authorization_dict : BootAuthorization → Dict
authorization_dict a =
    ("correlationId", Json.str a.correlation_id)
    ∷ ("bootReleaseSetRef", Json.str a.boot_release_set_ref)
    ∷ ("tokenId", Json.str a.token_id)
    ∷ ("expiresAt", Json.str a.expires_at)
    ∷ []

abbrev pub evidence_dict : BootEvidence → Dict
evidence_dict e =
    ("correlationId", Json.str e.correlation_id)
    ∷ ("deviceId", Json.str e.device_id)
    ∷ ("selectedChannel", Json.str e.selected_channel)
    ∷ ("bootMode", Json.str e.boot_mode)
    ∷ ("manifestHash", Json.str e.manifest_hash)
    ∷ ("verificationResult", Json.str e.verification_result)
    ∷ ("reports", texts e.reports)
    ∷ []

-- build_announce_payload
abbrev pub build_announce_payload : DeviceClaim → Dict
build_announce_payload claim =
    ("kind", Json.str "SourceOSBootAnnounce")
    ∷ ("apiVersion", Json.str "sourceos.dev/v1")
    ∷ ("claim", object (claim_dict claim))
    ∷ []

-- build_fetch_request
abbrev pub build_fetch_request : BootAuthorization → Dict
build_fetch_request authorization =
    ("kind", Json.str "SourceOSBootFetchRequest")
    ∷ ("apiVersion", Json.str "sourceos.dev/v1")
    ∷ ("authorization", object (authorization_dict authorization))
    ∷ []

-- build_evidence
abbrev pub build_evidence :
    DeviceClaim → BootAuthorization → String → String → String → String → BootEvidence
build_evidence claim authorization channel mode hash result = record {
  correlation_id = authorization.correlation_id;
  device_id = claim.device_id;
  selected_channel = channel;
  boot_mode = mode;
  manifest_hash = hash;
  verification_result = result;
  reports =
      "device-claim" ∷ "manifest-hash" ∷ "verification-result" ∷ "selected-channel" ∷ "boot-mode"
      ∷ [];
}

-- What the adapter raises: the KeyError of a missing field, and the AttributeError of artifacts that
-- are no object. `load_json` raises the ValueError of a document that is none.
pub data AdapterError : Type 0 where
  missing_field : String → String → AdapterError
  artifacts_not_an_object : AdapterError
  not_an_object : AdapterError

-- `value in (None, "")`
abbrev pub is_missing : Json → Bool
is_missing v = is_null v || is_text "" v

-- _require
unfoldable pub require_field : Dict → String → String → Result AdapterError Json
require_field doc key what =
    let v = get doc key in if is_missing v then err (missing_field key what) else ok v

-- `manifest_doc.get("artifacts") or {}`, of which `.get` is called
unfoldable pub artifacts_in : Json → Result AdapterError Dict
artifacts_in v = if truthy_json v then or_raise (as_dict v) artifacts_not_an_object else ok []

-- load_json, on what the file decodes to
abbrev pub load_object : Json → Result AdapterError Dict
load_object v = or_raise (as_dict v) not_an_object

-- what `adapt_nlboot` prints
pub record Handoff : Type 0 where
  pub authorization : BootAuthorization
  pub patch : Dict
  pub evidence : BootEvidence

-- `str` of a value that is no text is the argument `repr`.
module _ (repr : Json → String) where
  -- authorization_from_nlboot_token
  unfoldable pub authorization_from_nlboot_token :
      Dict → String → Result AdapterError BootAuthorization
  authorization_from_nlboot_token token correlation = do
    release ← require_field token "boot_release_set_ref" "token"
    id ← require_field token "token_id" "token"
    expires ← require_field token "expires_at" "token"
    ok (record {
      correlation_id = correlation;
      boot_release_set_ref = text_of repr release;
      token_id = text_of repr id;
      expires_at = text_of repr expires;
    })

  -- one role of the loop over the artifacts
  abbrev pub pending_role : Dict → String → String → List Json
  pending_role artifacts field role =
      let v = get artifacts field in
      if truthy_json v
      then object (("role", Json.str role) ∷ ("uri", Json.str (text_of repr v)) ∷ []) ∷ []
      else []

  abbrev pub pending_refs : Dict → List Json
  pending_refs artifacts =
      pending_role artifacts "kernel_ref" "kernel"
      ++ (pending_role artifacts "initrd_ref" "initrd"
          ++ pending_role artifacts "rootfs_ref" "rootfs")

  -- boot_release_set_patch_from_nlboot_manifest
  unfoldable pub boot_release_set_patch_from_nlboot_manifest : Dict → Result AdapterError Dict
  boot_release_set_patch_from_nlboot_manifest manifest = do
    artifacts ← artifacts_in (get manifest "artifacts")
    base ← require_field manifest "base_release_set_ref" "manifest"
    mode ← require_field manifest "boot_mode" "manifest"
    ok (
        ("releaseSetRef", Json.str (text_of repr base))
        ∷ ("channels", texts (text_of repr mode ∷ []))
        ∷ ("artifactRefsPendingDigest", array (pending_refs artifacts))
        ∷ [])

  -- build_evidence_from_nlboot_manifest
  unfoldable pub build_evidence_from_nlboot_manifest :
      DeviceClaim → BootAuthorization → Dict → String → String → Result AdapterError BootEvidence
  build_evidence_from_nlboot_manifest claim authorization manifest hash result = do
    mode ← require_field manifest "boot_mode" "manifest"
    ok (build_evidence claim authorization (text_of repr mode) (text_of repr mode) hash result)

  -- the part of `adapt_nlboot` after the files are read
  unfoldable pub adapt_objects :
      Hashing → DeviceClaim → String → String → Dict → Dict → Result AdapterError Handoff
  adapt_objects hashing claim correlation result manifest_doc token_doc = do
    granted ← authorization_from_nlboot_token token_doc correlation
    spec ← boot_release_set_patch_from_nlboot_manifest manifest_doc
    proof ←
        build_evidence_from_nlboot_manifest claim granted manifest_doc
          (digest_of hashing (object manifest_doc)) result
    ok (record { authorization = granted; patch = spec; evidence = proof })

  -- adapt_nlboot, from the decoded files and the claim of the arguments
  unfoldable pub adapt_nlboot :
      Hashing → DeviceClaim → String → String → Json → Json → Result AdapterError Handoff
  adapt_nlboot hashing claim correlation result manifest token = do
    manifest_doc ← load_object manifest
    token_doc ← load_object token
    adapt_objects hashing claim correlation result manifest_doc token_doc

-- the printed object
abbrev pub handoff_dict : Handoff → Dict
handoff_dict h =
    ("apiVersion", Json.str "sourceos.dev/v1")
    ∷ ("kind", Json.str "NlbootAdapterOutput")
    ∷ ("authorization", object (authorization_dict h.authorization))
    ∷ ("bootReleaseSetPatch", object h.patch)
    ∷ ("evidence", object (evidence_dict h.evidence))
    ∷ []
