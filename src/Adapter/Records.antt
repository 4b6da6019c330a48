-- ===== src/Adapter/Records.antt =====
-- What the records that `adapt_nlboot` hands over are made of.
use sourceos_boot.Base.{String, false, ◌≡◌, [], ◌∷◌}
use sourceos_boot.Json.{Json, Dict, get, has_key, object, texts, text_of, Hashing, digest_of}
use sourceos_boot.Adapter.Handoff.{DeviceClaim, BootAuthorization, Handoff}

module _ (repr : Json → String) (hashing : Hashing) (claim : DeviceClaim)
    (correlation result : String) where
  -- The evidence and the authorization carry the correlation of the call, the evidence names the
  -- device of the claim, the digest of the manifest and its boot mode, which is the one channel of
  -- the patch, the authorization names what the token names, and the patch has no artifacts.
  pub record IsHandoff (manifest token : Dict) (h : Handoff) : Type 0 where
    pub authorized : h.authorization.correlation_id ≡ correlation
    pub evidenced : h.evidence.correlation_id ≡ correlation
    pub device : h.evidence.device_id ≡ claim.device_id
    pub verdict : h.evidence.verification_result ≡ result
    pub hash : h.evidence.manifest_hash ≡ digest_of hashing (object manifest)
    pub mode : h.evidence.boot_mode ≡ text_of repr (get manifest "boot_mode")
    pub selected : h.evidence.selected_channel ≡ h.evidence.boot_mode
    pub channel : get h.patch "channels" ≡ texts (h.evidence.boot_mode ∷ [])
    pub release :
        h.authorization.boot_release_set_ref ≡ text_of repr (get token "boot_release_set_ref")
    pub unpinned : has_key h.patch "artifacts" ≡ false

  -- the fields of an authorization
  record Grants (token : Dict) (a : BootAuthorization) : Type 0 where
    correlated : a.correlation_id ≡ correlation
    released : a.boot_release_set_ref ≡ text_of repr (get token "boot_release_set_ref")

  -- the channels and the artifacts of a patch
  record Patches (manifest patch : Dict) : Type 0 where
    channel : get patch "channels" ≡ texts (text_of repr (get manifest "boot_mode") ∷ [])
    unpinned : has_key patch "artifacts" ≡ false
