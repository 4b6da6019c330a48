-- ===== src/ControlPlane/Planner.antt =====
-- control_plane.py: the checks on a BootReleaseSet document, and the plan that it gives.
use sourceos_boot.Base.{
  ℕ, suc, String, Bool, true, false, not, ◌||◌, Option, none, some, List, [], ◌∷◌, ◌++◌, map,
  str_eq, if◌then◌else◌, mem_text, is_empty,
}
use sourceos_boot.Json.{
  Json, Dict, get, as_text, as_dict, as_list, is_true, is_false, truthy_json, is_hashable, is_blank,
  in_texts, array, object, texts, text_of,
}
use sourceos_boot.Result.{Result, ok, ◌>>=◌, ◌>>◌, guard, or_raise}
use text.Mathlib.Text.{starts_with}

-- ControlPlaneBootPlan, and whether it executes
pub record ControlPlaneBootPlan : Type 0 where
  pub boot_release_set_id : String
  pub base_release_set_ref : String
  pub boot_mode : String
  pub boot_channel : String
  pub action : String
  pub status : String
  pub policy_ref : String
  pub platform_entrypoints : List Json
  pub artifact_refs : List (String × Option String)
  pub signing : Dict
  pub boot_capabilities : Dict
  pub proof_reports : List String
  pub offline_fallback : Dict
  pub verification_gates : List String
  pub execute : Bool

-- The errors: one constructor for each message, with what it interpolates, and the TypeError of a
-- value that has no hash.
pub data PlanError : Type 0 where
  not_a_text not_an_object not_a_list not_text_or_null : String → PlanError
  bad_signature_ref bad_signer_ref unsupported_algorithm bad_digest : PlanError
  not_ready : PlanError
  unsupported_channel unsupported_mode : String → PlanError
  bad_release_set_id bad_base_ref bad_policy_ref : PlanError
  no_entrypoints : PlanError
  bad_entrypoint : ℕ → PlanError
  proofs_not_required no_reports unverified_fallback unsigned_fallback : PlanError
  unhashable : PlanError

abbrev pub Checked : Type 0 → Type 0
Checked A = Result PlanError A

-- _require_str: `isinstance(value, str)` and `value.strip()`
abbrev solid : Option String → Option String
solid none = none
solid (some s) = if is_blank s then none else some s

abbrev pub solid_text : Json → Option String
solid_text v = solid (as_text v)

abbrev pub require_str : Dict → String → Checked String
require_str doc key = or_raise (solid_text (get doc key)) (not_a_text key)

-- _require_dict
abbrev pub require_dict : Dict → String → Checked Dict
require_dict doc key = or_raise (as_dict (get doc key)) (not_an_object key)

-- _require_list
abbrev pub require_list : Dict → String → Checked (List Json)
require_list doc key = or_raise (as_list (get doc key)) (not_a_list key)

-- a text, or None, or neither
abbrev pub text_or_null : Json → Option (Option String)
text_or_null Json.null = some none
text_or_null (Json.str s) = some (some s)
text_or_null _ = none

-- an optional artifact of _artifact_refs
abbrev pub optional_ref : Dict → String → Checked (Option String)
optional_ref artifacts key = or_raise (text_or_null (get artifacts key)) (not_text_or_null key)

-- _artifact_refs
unfoldable pub artifact_refs_of : Dict → Checked (List (String × Option String))
artifact_refs_of artifacts = do
  manifest ← require_str artifacts "manifest_ref"
  kernel ← require_str artifacts "kernel_ref"
  initrd ← require_str artifacts "initrd_ref"
  rootfs ← require_str artifacts "rootfs_ref"
  bootloader ← optional_ref artifacts "bootloader_ref"
  installer ← optional_ref artifacts "installer_metadata_ref"
  ok (
      ("manifest_ref", some manifest)
      ∷ ("kernel_ref", some kernel)
      ∷ ("initrd_ref", some initrd)
      ∷ ("rootfs_ref", some rootfs)
      ∷ ("bootloader_ref", bootloader)
      ∷ ("installer_metadata_ref", installer)
      ∷ [])

abbrev pub signature_algorithms : List String
signature_algorithms = "rsa-pss-sha256" ∷ "ed25519" ∷ "ecdsa-p256-sha256" ∷ []

-- SAFE_DIGEST_PREFIXES
abbrev pub is_safe_digest : String → Bool
is_safe_digest s = starts_with s "sha256:" || starts_with s "sha384:" || starts_with s "sha512:"

-- _validate_signing
unfoldable pub validate_signing : Dict → Checked (Unit {0})
validate_signing signing = do
  signature ← require_str signing "signature_ref"
  signer ← require_str signing "signer_ref"
  algorithm ← require_str signing "signature_algorithm"
  manifest_digest ← require_dict signing "manifest_digest"
  digest ← require_str manifest_digest "value"
  guard (starts_with signature "urn:srcos:signature:") bad_signature_ref
  guard (starts_with signer "urn:srcos:key:") bad_signer_ref
  guard (mem_text algorithm signature_algorithms) unsupported_algorithm
  guard (is_safe_digest digest) bad_digest

-- BOOT_ACTION_BY_CHANNEL
unfoldable pub action_of : String → Option String
action_of channel =
    if str_eq channel "live"
    then some "boot-live-environment"
    else if str_eq channel "installer"
    then some "plan-install"
    else if str_eq channel "rescue"
    then some "plan-rescue"
    else if str_eq channel "rollback"
    then some "plan-rollback"
    else if str_eq channel "bootstrap"
    then some "plan-bootstrap"
    else none

-- `boot_mode in {...}`
unfoldable pub is_boot_mode : String → Bool
is_boot_mode mode = mem_text mode ("installer" ∷ "recovery" ∷ "ephemeral" ∷ "bootstrap" ∷ [])

-- the texts at the head of the document
pub record Identity : Type 0 where
  pub release_set_id : String
  pub base_ref : String
  pub mode : String
  pub channel : String
  pub status : String
  pub policy : String

unfoldable pub identity_of : Dict → Checked Identity
identity_of doc = do
  id ← require_str doc "boot_release_set_id"
  base ← require_str doc "base_release_set_ref"
  boot_mode ← require_str doc "boot_mode"
  boot_channel ← require_str doc "boot_channel"
  boot_status ← require_str doc "status"
  policy_ref ← require_str doc "policy_ref"
  ok (record {
    release_set_id = id;
    base_ref = base;
    mode = boot_mode;
    channel = boot_channel;
    status = boot_status;
    policy = policy_ref;
  })

-- the checks on these texts, with the action that they end in
unfoldable pub action_for : Identity → Checked String
action_for head = do
  guard (str_eq head.status "ready") not_ready
  action ← or_raise (action_of head.channel) (unsupported_channel head.channel)
  guard (is_boot_mode head.mode) (unsupported_mode head.mode)
  guard (starts_with head.release_set_id "urn:srcos:boot-release-set:") bad_release_set_id
  guard (starts_with head.base_ref "urn:srcos:release-set:") bad_base_ref
  guard (starts_with head.policy "urn:srcos:policy:") bad_policy_ref
  ok action

-- one entry point of the loop
abbrev pub entrypoint_check : Json → PlanError → Checked (Unit {0})
entrypoint_check entry e = do
  entrypoint ← or_raise (as_dict entry) e
  require_str entrypoint "platform"
  require_str entrypoint "entrypoint_kind"
  require_str entrypoint "entrypoint_ref"
  ok tt

-- the loop over the entry points, from an index on
unfoldable pub entrypoints_check : ℕ → List Json → Checked (Unit {0})
entrypoints_check index [] = ok tt
entrypoints_check index (entry ∷ entries) =
    entrypoint_check entry (bad_entrypoint index) >> entrypoints_check (suc index) entries

-- the checks on the offline fallback
abbrev pub is_verified_fallback : Dict → Bool
is_verified_fallback fallback =
    not (truthy_json (get fallback "enabled"))
    || is_true (get fallback "requires_signature_verification")

-- the value of `proof_reports`: a list that is not empty
abbrev filled : Option (List Json) → Option (List Json)
filled (some (v ∷ vs)) = some (v ∷ vs)
filled _ = none

abbrev pub reports_in : Json → Option (List Json)
reports_in v = filled (as_list v)

-- the gates that depend on the document
abbrev pub gate_if : Bool → String → List String
gate_if true name = name ∷ []
gate_if false name = []

-- `disk_write in {...}`
unfoldable pub is_scoped : Json → Bool
is_scoped v = in_texts v ("installer-scoped" ∷ "recovery-scoped" ∷ [])

-- _verification_gates
unfoldable pub verification_gates_of : Dict → Dict → Checked (List String)
verification_gates_of fallback capabilities = do
  guard (is_hashable (get capabilities "disk_write")) unhashable
  ok (
      "verify-boot-release-set-status-ready"
      ∷ "verify-manifest-signature"
      ∷ "verify-artifact-refs-present"
      ∷ "verify-policy-ref-present"
      ∷ "verify-proof-reporting-required"
      ∷ (gate_if (truthy_json (get fallback "enabled")) "verify-offline-fallback-signature-required"
          ++ (gate_if (is_false (get capabilities "kexec_allowed")) "verify-kexec-denied"
              ++ gate_if (is_scoped (get capabilities "disk_write")) "verify-disk-write-scope")))

-- The parts of `build_control_plane_boot_plan`, in its order: the entry points,
unfoldable pub entrypoints_of : Dict → Checked (List Json)
entrypoints_of doc = do
  entrypoints ← require_list doc "platform_entrypoints"
  guard (not (is_empty entrypoints)) no_entrypoints
  entrypoints_check 0 entrypoints
  ok entrypoints

-- the artifacts,
unfoldable pub artifacts_of : Dict → Checked (List (String × Option String))
artifacts_of doc = do artifacts ← require_dict doc "artifacts"; artifact_refs_of artifacts

-- the signing object,
unfoldable pub signing_of : Dict → Checked Dict
signing_of doc = do signing ← require_dict doc "signing"; validate_signing signing; ok signing

-- and the capabilities, the fallback, the reports and the gates that they need.
pub record Terms : Type 0 where
  pub capabilities : Dict
  pub fallback : Dict
  pub reports : List Json
  pub gates : List String

unfoldable pub terms_of : Dict → Checked Terms
terms_of doc = do
  boot_capabilities ← require_dict doc "boot_capabilities"
  offline_fallback ← require_dict doc "offline_fallback"
  proof_reporting ← require_dict doc "proof_reporting"
  guard (is_true (get proof_reporting "required")) proofs_not_required
  proof_reports ← or_raise (reports_in (get proof_reporting "reports")) no_reports
  guard (is_verified_fallback offline_fallback) unverified_fallback
  guard (is_false (get offline_fallback "allows_unsigned_artifacts")) unsigned_fallback
  verification_gates ← verification_gates_of offline_fallback boot_capabilities
  ok (record {
    capabilities = boot_capabilities;
    fallback = offline_fallback;
    reports = proof_reports;
    gates = verification_gates;
  })

module _ (repr : Json → String) where
  unfoldable pub build_control_plane_boot_plan : Dict → Checked ControlPlaneBootPlan
  build_control_plane_boot_plan doc = do
    head ← identity_of doc
    boot_action ← action_for head
    entrypoints ← entrypoints_of doc
    refs ← artifacts_of doc
    signing_part ← signing_of doc
    terms ← terms_of doc
    ok (record {
      boot_release_set_id = head.release_set_id;
      base_release_set_ref = head.base_ref;
      boot_mode = head.mode;
      boot_channel = head.channel;
      action = boot_action;
      status = head.status;
      policy_ref = head.policy;
      platform_entrypoints = entrypoints;
      artifact_refs = refs;
      signing = signing_part;
      boot_capabilities = terms.capabilities;
      proof_reports = map (text_of repr) terms.reports;
      offline_fallback = terms.fallback;
      verification_gates = terms.gates;
      execute = false;
    })

abbrev pub ref_value : Option String → Json
ref_value none = Json.null
ref_value (some s) = Json.str s

abbrev pub ref_items : List (String × Option String) → Dict
ref_items [] = []
ref_items ((k, r) ∷ rs) = (k, ref_value r) ∷ ref_items rs

-- ControlPlaneBootPlan.to_dict
unfoldable pub to_dict : ControlPlaneBootPlan → Dict
to_dict plan =
    ("boot_release_set_id", Json.str plan.boot_release_set_id)
    ∷ ("base_release_set_ref", Json.str plan.base_release_set_ref)
    ∷ ("boot_mode", Json.str plan.boot_mode)
    ∷ ("boot_channel", Json.str plan.boot_channel)
    ∷ ("action", Json.str plan.action)
    ∷ ("status", Json.str plan.status)
    ∷ ("policy_ref", Json.str plan.policy_ref)
    ∷ ("platform_entrypoints", array plan.platform_entrypoints)
    ∷ ("artifact_refs", object (ref_items plan.artifact_refs))
    ∷ ("signing", object plan.signing)
    ∷ ("boot_capabilities", object plan.boot_capabilities)
    ∷ ("proof_reports", texts plan.proof_reports)
    ∷ ("offline_fallback", object plan.offline_fallback)
    ∷ ("verification_gates", texts plan.verification_gates)
    ∷ ("execute", Json.bool plan.execute)
    ∷ []
