-- ===== src/ControlPlane/Plannable.antt =====
-- Which BootReleaseSet documents have a plan.
use sourceos_boot.Base.{
  ℕ, suc, String, Bool, inl, inr, true, false, not, ◌&&◌, ◌||◌, ◌≡◌, refl, arith, List, [], ◌∷◌,
  str_eq, mem_text, is_some, is_empty,
}
use sourceos_boot.Json.{
  Json, Dict, get, is_true, is_false, truthy_json, is_hashable, is_blank, in_dict, in_list,
}
use sourceos_boot.Reading.{yields-as_dict, yields-as_list}
use sourceos_boot.Result.{ok, err, Result-cases, yields}
use sourceos_boot.ControlPlane.Planner.{
  PlanError, artifact_refs_of, signature_algorithms, is_safe_digest, validate_signing, action_of,
  is_boot_mode, Identity, identity_of, action_for, entrypoints_of, artifacts_of, signing_of,
  terms_of, bad_entrypoint, entrypoint_check, entrypoints_check, verification_gates_of,
  build_control_plane_boot_plan,
}
use text.Mathlib.Text.{starts_with}

-- The value is a text that is not blank and passes the test.
abbrev pub is_named : (String → Bool) → Json → Bool
is_named p (Json.str s) = not (is_blank s) && p s
is_named p _ = false

-- The value is a text that is not blank.
abbrev pub is_solid : Json → Bool
is_solid = is_named (λ s. true)

abbrev pub is_text_or_null : Json → Bool
is_text_or_null (Json.str s) = true
is_text_or_null Json.null = true
is_text_or_null _ = false

unfoldable pub is_signed : Dict → Bool
is_signed d =
    is_named (λ s. starts_with s "urn:srcos:signature:") (get d "signature_ref")
    && is_named (λ s. starts_with s "urn:srcos:key:") (get d "signer_ref")
    && is_named (λ s. mem_text s signature_algorithms) (get d "signature_algorithm")
    && in_dict (λ m. is_named is_safe_digest (get m "value")) (get d "manifest_digest")

unfoldable pub is_identified : Dict → Bool
is_identified d =
    is_named (λ s. starts_with s "urn:srcos:boot-release-set:") (get d "boot_release_set_id")
    && is_named (λ s. starts_with s "urn:srcos:release-set:") (get d "base_release_set_ref")
    && is_named (λ s. starts_with s "urn:srcos:policy:") (get d "policy_ref")
    && is_named is_boot_mode (get d "boot_mode")
    && is_named (λ s. is_some (action_of s)) (get d "boot_channel")
    && is_named (λ s. str_eq s "ready") (get d "status")

abbrev pub is_entrypoint : Dict → Bool
is_entrypoint d =
    is_solid (get d "platform")
    && is_solid (get d "entrypoint_kind")
    && is_solid (get d "entrypoint_ref")

abbrev pub are_entrypoints : List Json → Bool
are_entrypoints [] = true
are_entrypoints (v ∷ vs) = in_dict is_entrypoint v && are_entrypoints vs

unfoldable pub has_artifacts : Dict → Bool
has_artifacts d =
    is_solid (get d "manifest_ref")
    && is_solid (get d "kernel_ref")
    && is_solid (get d "initrd_ref")
    && is_solid (get d "rootfs_ref")
    && is_text_or_null (get d "bootloader_ref")
    && is_text_or_null (get d "installer_metadata_ref")

abbrev pub reports_proofs : Dict → Bool
reports_proofs d = is_true (get d "required") && in_list (λ vs. not (is_empty vs)) (get d "reports")

-- A fallback that is enabled verifies signatures, and no fallback takes unsigned artifacts.
abbrev pub is_safe_fallback : Dict → Bool
is_safe_fallback d =
    (not (truthy_json (get d "enabled")) || is_true (get d "requires_signature_verification"))
    && is_false (get d "allows_unsigned_artifacts")

unfoldable pub has_terms : Dict → Bool
has_terms d =
    in_dict (λ c. is_hashable (get c "disk_write")) (get d "boot_capabilities")
    && in_dict is_safe_fallback (get d "offline_fallback")
    && in_dict reports_proofs (get d "proof_reporting")

-- The document describes a boot release set that may be planned.
abbrev pub is_plannable : Dict → Bool
is_plannable d =
    is_identified d
    && in_list (λ vs. not (is_empty vs) && are_entrypoints vs) (get d "platform_entrypoints")
    && in_dict has_artifacts (get d "artifacts")
    && in_dict is_signed (get d "signing")
    && has_terms d

yields-validate_signing : (d : Dict) → yields (validate_signing d) ≡ is_signed d
unfolding validate_signing is_signed
yields-validate_signing d = ground arith

yields-signing_of : (d : Dict) → yields (signing_of d) ≡ in_dict is_signed (get d "signing")
unfolding signing_of
yields-signing_of d =
    yields-as_dict (get d "signing") _ _ is_signed (λ s. ground (arith, yields-validate_signing s))

yields-artifact_refs_of : (d : Dict) → yields (artifact_refs_of d) ≡ has_artifacts d
unfolding artifact_refs_of has_artifacts
yields-artifact_refs_of d = ground arith

yields-artifacts_of :
    (d : Dict) → yields (artifacts_of d) ≡ in_dict has_artifacts (get d "artifacts")
unfolding artifacts_of
yields-artifacts_of d =
    yields-as_dict (get d "artifacts") _ artifact_refs_of has_artifacts yields-artifact_refs_of

yields-entrypoint_check :
    (v : Json) (e : PlanError) → yields (entrypoint_check v e) ≡ in_dict is_entrypoint v
yields-entrypoint_check v e = ground arith

yields-entrypoints_check :
    (index : ℕ) (vs : List Json) → yields (entrypoints_check index vs) ≡ are_entrypoints vs
unfolding entrypoints_check
yields-entrypoints_check index [] = refl
yields-entrypoints_check index (v ∷ vs) = ground (
  arith,
  yields-entrypoint_check v (bad_entrypoint index),
  yields-entrypoints_check (suc index) vs,
)

yields-terms_of : (d : Dict) → yields (terms_of d) ≡ has_terms d
unfolding terms_of verification_gates_of has_terms
yields-terms_of d = ground arith

yields-entrypoints_of :
    (d : Dict)
    → yields (entrypoints_of d)
      ≡ in_list (λ vs. not (is_empty vs) && are_entrypoints vs) (get d "platform_entrypoints")
unfolding entrypoints_of
yields-entrypoints_of d =
    yields-as_list (get d "platform_entrypoints") _ _
      (λ vs. not (is_empty vs) && are_entrypoints vs)
      (λ vs. ground (arith, yields-entrypoints_check 0 vs))

-- the tests on the texts of an identity
unfoldable is_known : Identity → Bool
is_known i =
    starts_with i.release_set_id "urn:srcos:boot-release-set:"
    && starts_with i.base_ref "urn:srcos:release-set:"
    && starts_with i.policy "urn:srcos:policy:"
    && is_boot_mode i.mode
    && is_some (action_of i.channel)
    && str_eq i.status "ready"

yields-action_for : (i : Identity) → yields (action_for i) ≡ is_known i
unfolding action_for is_known
yields-action_for i = ground arith

identified : (d : Dict) (i : Identity) → identity_of d ≡ ok i → is_identified d ≡ is_known i
unfolding identity_of is_identified is_known
identified d i h = ground arith

unidentified : (d : Dict) (e : PlanError) → identity_of d ≡ err e → is_identified d ≡ false
unfolding identity_of is_identified
unidentified d e h = ground arith

-- A plan is built for a document just if the document is plannable: its texts are there and name a
-- ready release set of a known mode and channel, it has an entry point and every entry point is
-- complete, its artifacts and its signing object are complete and use a known algorithm and a safe
-- digest, and its terms require proofs and a safe fallback. Every other document makes the planner
-- raise.
pub build_control_plane_boot_plan-plannable :
    (repr : Json → String) (d : Dict)
    → yields (build_control_plane_boot_plan repr d) ≡ is_plannable d
unfolding build_control_plane_boot_plan
build_control_plane_boot_plan-plannable repr d = elim (Result-cases (identity_of d)) [
  | inr (e, h) ↦ rw (h, unidentified d e h) refl
  | inl (i, h) ↦
      rw (h, identified d i h)
        (ground (
          arith,
          yields-action_for i,
          yields-entrypoints_of d,
          yields-artifacts_of d,
          yields-signing_of d,
          yields-terms_of d,
        ))
]
