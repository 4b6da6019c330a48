-- ===== src/ControlPlane/Tests.antt =====
-- The example of a BootReleaseSet document, less the notes of its entry points, its plan, and each
-- theorem there.
use sourceos_boot.Base.{◌≡◌, refl, String, true, false, some, [], ◌∷◌}
use sourceos_boot.Json.{as_dict, Json, Dict, object, array, get, put, is_blank}
use sourceos_boot.Result.{ok, err, yields}
use sourceos_boot.ControlPlane.Planner.{
  ControlPlaneBootPlan, build_control_plane_boot_plan, not_ready, artifact_refs_of,
  validate_signing, action_of, is_boot_mode, identity_of, action_for, entrypoints_check,
  entrypoints_of, artifacts_of, signing_of, is_scoped, verification_gates_of, terms_of,
}
use sourceos_boot.ControlPlane.Plannable.{is_plannable, build_control_plane_boot_plan-plannable}
use sourceos_boot.ControlPlane.Described.{IsCautious}
use sourceos_boot.ControlPlane.Command.{
  printed, Prints, plan_control_plane, plan_control_plane-IsCautious,
}

abbrev shown : Json → String
shown v = "?"

abbrev entrypoints_value : Json
entrypoints_value = array (
    object (
      ("platform", Json.str "apple-silicon")
      ∷ ("entrypoint_kind", Json.str "asahi-installer-entry")
      ∷ (
        "entrypoint_ref",
        Json.str "urn:srcos:boot-entry:m2-demo-sourceos-recovery-asahi-installer",
      )
      ∷ ("requires_network", Json.bool true)
      ∷ [])
    ∷ object (
        ("platform", Json.str "uefi-ipxe")
        ∷ ("entrypoint_kind", Json.str "ipxe-menu-entry")
        ∷ ("entrypoint_ref", Json.str "urn:srcos:boot-entry:generic-ipxe-sourceos-recovery")
        ∷ ("requires_network", Json.bool true)
        ∷ [])
    ∷ [])

abbrev artifacts_value : Json
artifacts_value = object (
    ("manifest_ref", Json.str "urn:srcos:artifact:m2-demo-recovery-manifest-sha256-6e6f74626f6f74")
    ∷ ("kernel_ref", Json.str "urn:srcos:artifact:m2-demo-recovery-kernel-sha256-0f3b6d7f")
    ∷ ("initrd_ref", Json.str "urn:srcos:artifact:m2-demo-recovery-initrd-sha256-08f4c82e")
    ∷ ("rootfs_ref", Json.str "urn:srcos:artifact:m2-demo-recovery-rootfs-sha256-5f4dcc3b")
    ∷ ("bootloader_ref", Json.str "urn:srcos:artifact:m2-demo-m1n1-uboot-chain-sha256-7a38f2d1")
    ∷ (
      "installer_metadata_ref",
      Json.str "urn:srcos:artifact:m2-demo-asahi-installer-data-sha256-3f9c1f44",
    )
    ∷ [])

abbrev signing_value : Json
signing_value = object (
    ("signature_ref", Json.str "urn:srcos:signature:m2-demo-recovery-manifest-rsa-pss-sha256")
    ∷ ("signer_ref", Json.str "urn:srcos:key:sourceos-release-root")
    ∷ ("signature_algorithm", Json.str "rsa-pss-sha256")
    ∷ (
      "manifest_digest",
      object (
          ("algorithm", Json.str "sha256")
          ∷ ("value", Json.str "sha256:6e6f74626f6f742d6d322d7265636f766572792d64656d6f")
          ∷ []),
    )
    ∷ [])

abbrev capabilities_value : Json
capabilities_value = object (
    ("disk_write", Json.str "recovery-scoped")
    ∷ ("network_required", Json.bool true)
    ∷ ("kexec_allowed", Json.bool false)
    ∷ (
      "recovery_actions",
      array (
          Json.str "fetch-release-set"
          ∷ Json.str "rollback-system"
          ∷ Json.str "repair-user-plane"
          ∷ Json.str "repair-agent-plane"
          ∷ Json.str "rotate-keys"
          ∷ Json.str "report-proof"
          ∷ []),
    )
    ∷ [])

abbrev reporting_value : Json
reporting_value = object (
    ("required", Json.bool true)
    ∷ (
      "reports",
      array (
          Json.str "device-claim"
          ∷ Json.str "environment-fingerprint"
          ∷ Json.str "manifest-digest"
          ∷ Json.str "artifact-hash-manifest"
          ∷ Json.str "policy-decision"
          ∷ Json.str "rollback-result"
          ∷ []),
    )
    ∷ ("endpoint_ref", Json.str "urn:srcos:endpoint:control-plane-boot-proof-report")
    ∷ [])

abbrev fallback_value : Json
fallback_value = object (
    ("enabled", Json.bool true)
    ∷ ("strategy", Json.str "last-known-good-signed-boot-release-set")
    ∷ ("requires_signature_verification", Json.bool true)
    ∷ ("allows_unsigned_artifacts", Json.bool false)
    ∷ [])

abbrev document : Dict
document =
    ("boot_release_set_id", Json.str "urn:srcos:boot-release-set:m2-demo-recovery-2026-04-26")
    ∷ ("base_release_set_ref", Json.str "urn:srcos:release-set:m2-demo-2026-04-26")
    ∷ ("boot_mode", Json.str "recovery")
    ∷ ("boot_channel", Json.str "rescue")
    ∷ ("status", Json.str "ready")
    ∷ ("platform_entrypoints", entrypoints_value)
    ∷ ("artifacts", artifacts_value)
    ∷ ("policy_ref", Json.str "urn:srcos:policy:boot-recovery-m2-demo-v1")
    ∷ ("signing", signing_value)
    ∷ ("boot_capabilities", capabilities_value)
    ∷ ("proof_reporting", reporting_value)
    ∷ ("offline_fallback", fallback_value)
    ∷ ("created_at", Json.str "2026-04-26T14:30:00Z")
    ∷ ("notes", Json.str "SourceOS Recovery Environment for the M2 local-first demo.")
    ∷ []

abbrev plan : ControlPlaneBootPlan
plan = record {
  boot_release_set_id = "urn:srcos:boot-release-set:m2-demo-recovery-2026-04-26";
  base_release_set_ref = "urn:srcos:release-set:m2-demo-2026-04-26";
  boot_mode = "recovery";
  boot_channel = "rescue";
  action = "plan-rescue";
  status = "ready";
  policy_ref = "urn:srcos:policy:boot-recovery-m2-demo-v1";
  platform_entrypoints =
      object (
        ("platform", Json.str "apple-silicon")
        ∷ ("entrypoint_kind", Json.str "asahi-installer-entry")
        ∷ (
          "entrypoint_ref",
          Json.str "urn:srcos:boot-entry:m2-demo-sourceos-recovery-asahi-installer",
        )
        ∷ ("requires_network", Json.bool true)
        ∷ [])
      ∷ object (
          ("platform", Json.str "uefi-ipxe")
          ∷ ("entrypoint_kind", Json.str "ipxe-menu-entry")
          ∷ ("entrypoint_ref", Json.str "urn:srcos:boot-entry:generic-ipxe-sourceos-recovery")
          ∷ ("requires_network", Json.bool true)
          ∷ [])
      ∷ [];
  artifact_refs =
      ("manifest_ref", some "urn:srcos:artifact:m2-demo-recovery-manifest-sha256-6e6f74626f6f74")
      ∷ ("kernel_ref", some "urn:srcos:artifact:m2-demo-recovery-kernel-sha256-0f3b6d7f")
      ∷ ("initrd_ref", some "urn:srcos:artifact:m2-demo-recovery-initrd-sha256-08f4c82e")
      ∷ ("rootfs_ref", some "urn:srcos:artifact:m2-demo-recovery-rootfs-sha256-5f4dcc3b")
      ∷ ("bootloader_ref", some "urn:srcos:artifact:m2-demo-m1n1-uboot-chain-sha256-7a38f2d1")
      ∷ (
        "installer_metadata_ref",
        some "urn:srcos:artifact:m2-demo-asahi-installer-data-sha256-3f9c1f44",
      )
      ∷ [];
  signing =
      ("signature_ref", Json.str "urn:srcos:signature:m2-demo-recovery-manifest-rsa-pss-sha256")
      ∷ ("signer_ref", Json.str "urn:srcos:key:sourceos-release-root")
      ∷ ("signature_algorithm", Json.str "rsa-pss-sha256")
      ∷ (
        "manifest_digest",
        object (
            ("algorithm", Json.str "sha256")
            ∷ ("value", Json.str "sha256:6e6f74626f6f742d6d322d7265636f766572792d64656d6f")
            ∷ []),
      )
      ∷ [];
  boot_capabilities =
      ("disk_write", Json.str "recovery-scoped")
      ∷ ("network_required", Json.bool true)
      ∷ ("kexec_allowed", Json.bool false)
      ∷ (
        "recovery_actions",
        array (
            Json.str "fetch-release-set"
            ∷ Json.str "rollback-system"
            ∷ Json.str "repair-user-plane"
            ∷ Json.str "repair-agent-plane"
            ∷ Json.str "rotate-keys"
            ∷ Json.str "report-proof"
            ∷ []),
      )
      ∷ [];
  proof_reports =
      "device-claim" ∷ "environment-fingerprint" ∷ "manifest-digest" ∷ "artifact-hash-manifest"
      ∷ "policy-decision" ∷ "rollback-result" ∷ [];
  offline_fallback =
      ("enabled", Json.bool true)
      ∷ ("strategy", Json.str "last-known-good-signed-boot-release-set")
      ∷ ("requires_signature_verification", Json.bool true)
      ∷ ("allows_unsigned_artifacts", Json.bool false)
      ∷ [];
  verification_gates =
      "verify-boot-release-set-status-ready" ∷ "verify-manifest-signature"
      ∷ "verify-artifact-refs-present" ∷ "verify-policy-ref-present"
      ∷ "verify-proof-reporting-required" ∷ "verify-offline-fallback-signature-required"
      ∷ "verify-kexec-denied" ∷ "verify-disk-write-scope" ∷ [];
  execute = false;
}

planned : build_control_plane_boot_plan shown document ≡ ok plan
unfolding build_control_plane_boot_plan artifact_refs_of validate_signing action_of is_boot_mode
    identity_of action_for entrypoints_check entrypoints_of artifacts_of signing_of is_scoped
    verification_gates_of terms_of get is_blank
planned = refl

not_ready_refused :
    build_control_plane_boot_plan shown (put "status" (Json.str "draft") document) ≡ err not_ready
unfolding build_control_plane_boot_plan identity_of action_for get is_blank
not_ready_refused = refl

build_control_plane_boot_plan-plannable_example :
    yields (build_control_plane_boot_plan shown document) ≡ is_plannable document
build_control_plane_boot_plan-plannable_example =
    build_control_plane_boot_plan-plannable shown document

command_planned : plan_control_plane shown (object document) ≡ ok (printed plan)
unfolding plan_control_plane
command_planned = rw planned refl

plan_control_plane-IsCautious_example :
    (d : Dict) × (p : ControlPlaneBootPlan) × (as_dict (object document) ≡ some d)
    × (build_control_plane_boot_plan shown d ≡ ok p)
    × IsCautious p
    × Prints shown d p (printed plan)
plan_control_plane-IsCautious_example =
    plan_control_plane-IsCautious shown (object document) (printed plan) command_planned
