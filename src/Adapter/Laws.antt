-- ===== src/Adapter/Laws.antt =====
-- When `adapt_nlboot` hands over, and what.
use sourceos_boot.Base.{String, Bool, true, not, ◌&&◌, ◌||◌, ◌≡◌, refl, ◌∙◌, arith}
use sourceos_boot.Json.{Json, Dict, get, truthy_json, object, Hashing, digest_of, in_dict}
use sourceos_boot.Reading.{yields-as_dict}
use sourceos_boot.Result.{yields, yields-bind}
use sourceos_boot.Adapter.Handoff.{
  DeviceClaim, BootAuthorization, not_an_object, is_missing, require_field, artifacts_in,
  authorization_from_nlboot_token, boot_release_set_patch_from_nlboot_manifest,
  build_evidence_from_nlboot_manifest, adapt_objects, adapt_nlboot,
}

unfoldable pub has_field : Dict → String → Bool
has_field d key = not (is_missing (get d key))

-- A token names a release set, itself and its expiry.
unfoldable pub is_token : Dict → Bool
is_token d =
    has_field d "boot_release_set_ref" && has_field d "token_id" && has_field d "expires_at"

-- The artifacts are an object, or nothing.
abbrev pub has_no_or_dict : Json → Bool
has_no_or_dict v = not (truthy_json v) || in_dict (λ d. true) v

-- A manifest names its base and its mode, and its artifacts are an object if there are any.
unfoldable pub is_manifest : Dict → Bool
is_manifest d =
    has_no_or_dict (get d "artifacts")
    && has_field d "base_release_set_ref"
    && has_field d "boot_mode"

yields-require_field :
    (d : Dict) (key what : String) → yields (require_field d key what) ≡ has_field d key
unfolding require_field has_field
yields-require_field d key what = ground arith

yields-artifacts_in : (v : Json) → yields (artifacts_in v) ≡ has_no_or_dict v
unfolding artifacts_in
yields-artifacts_in v = ground arith

tests-swap :
    (m t : Dict)
    → (is_token t && (is_manifest m && (has_field m "boot_mode" && true)))
      ≡ (is_manifest m && is_token t)
unfolding is_manifest
tests-swap m t = ground arith

module _ (repr : Json → String) where
  yields-authorization :
      (d : Dict) (c : String) → yields (authorization_from_nlboot_token repr d c) ≡ is_token d
  unfolding authorization_from_nlboot_token is_token
  yields-authorization d c = ground (
    arith,
    yields-require_field d "boot_release_set_ref" "token",
    yields-require_field d "token_id" "token",
    yields-require_field d "expires_at" "token",
  )

  yields-patch :
      (d : Dict) → yields (boot_release_set_patch_from_nlboot_manifest repr d) ≡ is_manifest d
  unfolding boot_release_set_patch_from_nlboot_manifest is_manifest
  yields-patch d = ground (
    arith,
    yields-artifacts_in (get d "artifacts"),
    yields-require_field d "base_release_set_ref" "manifest",
    yields-require_field d "boot_mode" "manifest",
  )

  yields-evidence :
      (claim : DeviceClaim) (granted : BootAuthorization) (d : Dict) (hash result : String)
      → yields (build_evidence_from_nlboot_manifest repr claim granted d hash result)
        ≡ has_field d "boot_mode"
  unfolding build_evidence_from_nlboot_manifest
  yields-evidence claim granted d hash result =
      ground (arith, yields-require_field d "boot_mode" "manifest")

  module _ (hashing : Hashing) (claim : DeviceClaim) (correlation result : String) where
    -- the adapter on the two objects
    yields-objects :
        (m t : Dict)
        → yields (adapt_objects repr hashing claim correlation result m t)
          ≡ (is_manifest m && is_token t)
    unfolding adapt_objects
    yields-objects m t =
        yields-bind (authorization_from_nlboot_token repr t correlation) _
          (yields-authorization t correlation)
          (λ granted.
            yields-bind (boot_release_set_patch_from_nlboot_manifest repr m) _ (yields-patch m)
              (λ spec.
                yields-bind
                  (build_evidence_from_nlboot_manifest repr claim granted m
                    (digest_of hashing (object m)) result)
                  _ (yields-evidence claim granted m (digest_of hashing (object m)) result)
                  (λ proof. refl)))
        ∙ tests-swap m t

    -- The adapter hands over just if the manifest is an object that names its base release set and
    -- its boot mode and has no artifacts or an object of them, and the token is an object that
    -- names a release set, itself and its expiry; it raises for every other pair.
    pub adapt_nlboot-yields :
        (manifest token : Json)
        → yields (adapt_nlboot repr hashing claim correlation result manifest token)
          ≡ in_dict (λ m. in_dict (λ t. is_manifest m && is_token t) token) manifest
    unfolding adapt_nlboot
    adapt_nlboot-yields manifest token =
        yields-as_dict manifest not_an_object _ _
          (λ m. yields-as_dict token not_an_object _ _ (yields-objects m))
