-- ===== src/ControlPlane/Copied.antt =====
-- What a plan copies from its document: the parts of `build_control_plane_boot_plan`, each with the
-- field that it reads.
use sourceos_boot.Base.{
  String, ◌≡◌, refl, sym, ap, ◌∙◌, subst, arith, Option, some, some-injective, List, [], ◌∷◌, map,
  All,
}
use sourceos_boot.Json.{
  Json, JsonObject, JsonArray, Dict, get, as_dict, as_list, object, array, from_entries, entries_in,
  from_items, items_in, text_of, is_true, is_false,
}
use sourceos_boot.Result.{ok, or_raise, bind-ok, guard-ok, ok-injective, or_raise-ok}
use sourceos_boot.ControlPlane.Planner.{
  ControlPlaneBootPlan, not_a_text, not_an_object, not_a_list, not_text_or_null, no_reports,
  proofs_not_required, unverified_fallback, unsigned_fallback, solid_text, text_or_null,
  require_str, require_dict, require_list, optional_ref, artifact_refs_of, Identity, identity_of,
  action_for, entrypoints_of, artifacts_of, signing_of, Terms, terms_of, reports_in,
  is_verified_fallback, verification_gates_of, build_control_plane_boot_plan, ref_value, ref_items,
}

from_entries-entries_in : (o : JsonObject) → from_entries (entries_in o) ≡ o
from_entries-entries_in JsonObject.no_entries = refl
from_entries-entries_in (JsonObject.entry_and k v o) =
    ap (JsonObject.entry_and k v) (from_entries-entries_in o)

from_items-items_in : (vs : JsonArray) → from_items (items_in vs) ≡ vs
from_items-items_in JsonArray.no_items = refl
from_items-items_in (JsonArray.item_and v vs) = ap (JsonArray.item_and v) (from_items-items_in vs)

as_dict-object : (v : Json) {d : Dict} → as_dict v ≡ some d → v ≡ object d
as_dict-object (Json.obj o) {d} h =
    ap Json.obj (sym (from_entries-entries_in o) ∙ ap from_entries (some-injective _ d h))
as_dict-object (Json.str s) h = cc
as_dict-object (Json.bool b) h = cc
as_dict-object (Json.int n) h = cc
as_dict-object (Json.float m k) h = cc
as_dict-object Json.null h = cc
as_dict-object (Json.arr vs) h = cc

as_list-array : (v : Json) {vs : List Json} → as_list v ≡ some vs → v ≡ array vs
as_list-array (Json.arr o) {vs} h =
    ap Json.arr (sym (from_items-items_in o) ∙ ap from_items (some-injective _ vs h))
as_list-array (Json.str s) h = cc
as_list-array (Json.bool b) h = cc
as_list-array (Json.int n) h = cc
as_list-array (Json.float m k) h = cc
as_list-array Json.null h = cc
as_list-array (Json.obj ps) h = cc

solid_text-str : (v : Json) {s : String} → solid_text v ≡ some s → v ≡ Json.str s
solid_text-str v {s} h = ground arith

text_or_null-value : (v : Json) {o : Option String} → text_or_null v ≡ some o → v ≡ ref_value o
text_or_null-value v {o} h = ground arith

reports_in-array : (v : Json) {vs : List Json} → reports_in v ≡ some vs → as_list v ≡ some vs
reports_in-array v {vs} h = ground arith

module _ (d : Dict) (key : String) where
  require_str-str : {s : String} → require_str d key ≡ ok s → get d key ≡ Json.str s
  require_str-str h = solid_text-str (get d key) (or_raise-ok _ (not_a_text key) h)

  require_dict-object : {o : Dict} → require_dict d key ≡ ok o → get d key ≡ object o
  require_dict-object h = as_dict-object (get d key) (or_raise-ok _ (not_an_object key) h)

  require_list-array : {vs : List Json} → require_list d key ≡ ok vs → get d key ≡ array vs
  require_list-array h = as_list-array (get d key) (or_raise-ok _ (not_a_list key) h)

  optional_ref-value : {o : Option String} → optional_ref d key ≡ ok o → get d key ≡ ref_value o
  optional_ref-value h = text_or_null-value (get d key) (or_raise-ok _ (not_text_or_null key) h)

-- the fields of an identity
record IsIdentity (d : Dict) (i : Identity) : Type 0 where
  release_set_id : get d "boot_release_set_id" ≡ Json.str i.release_set_id
  base_ref : get d "base_release_set_ref" ≡ Json.str i.base_ref
  mode : get d "boot_mode" ≡ Json.str i.mode
  channel : get d "boot_channel" ≡ Json.str i.channel
  status : get d "status" ≡ Json.str i.status
  policy : get d "policy_ref" ≡ Json.str i.policy

identity_of-IsIdentity : (d : Dict) (i : Identity) → identity_of d ≡ ok i → IsIdentity d i
unfolding identity_of
identity_of-IsIdentity d i h =
    let (a, e₁, h₁) = bind-ok (require_str d "boot_release_set_id") _ h in
    let (b, e₂, h₂) = bind-ok (require_str d "base_release_set_ref") _ h₁ in
    let (m, e₃, h₃) = bind-ok (require_str d "boot_mode") _ h₂ in
    let (c, e₄, h₄) = bind-ok (require_str d "boot_channel") _ h₃ in
    let (s, e₅, h₅) = bind-ok (require_str d "status") _ h₄ in
    let (p, e₆, h₆) = bind-ok (require_str d "policy_ref") _ h₅ in
    subst (IsIdentity d) (ok-injective h₆) (record {
      release_set_id = require_str-str d "boot_release_set_id" e₁;
      base_ref = require_str-str d "base_release_set_ref" e₂;
      mode = require_str-str d "boot_mode" e₃;
      channel = require_str-str d "boot_channel" e₄;
      status = require_str-str d "status" e₅;
      policy = require_str-str d "policy_ref" e₆;
    })

entrypoints_of-array :
    (d : Dict) (es : List Json) → entrypoints_of d ≡ ok es → get d "platform_entrypoints" ≡ array es
unfolding entrypoints_of
entrypoints_of-array d es h = ground (arith, require_list-array d "platform_entrypoints" {vs = es})

signing_of-object : (d s : Dict) → signing_of d ≡ ok s → get d "signing" ≡ object s
unfolding signing_of
signing_of-object d s h = ground (arith, require_dict-object d "signing" {o = s})

abbrev pub artifact_keys : List String
artifact_keys =
    "manifest_ref" ∷ "kernel_ref" ∷ "initrd_ref" ∷ "rootfs_ref" ∷ "bootloader_ref"
    ∷ "installer_metadata_ref" ∷ []

-- The object of references has what the artifacts have under each of the six keys.
abbrev pub SameRefs : Dict → Dict → Type 0
SameRefs artifacts refs = All (λ k. get refs k ≡ get artifacts k) artifact_keys

artifact_refs_of-SameRefs :
    (a : Dict) (rs : List (String × Option String))
    → artifact_refs_of a ≡ ok rs
    → SameRefs a (ref_items rs)
unfolding artifact_refs_of get
artifact_refs_of-SameRefs a rs h =
    let (m, e₁, h₁) = bind-ok (require_str a "manifest_ref") _ h in
    let (k, e₂, h₂) = bind-ok (require_str a "kernel_ref") _ h₁ in
    let (i, e₃, h₃) = bind-ok (require_str a "initrd_ref") _ h₂ in
    let (r, e₄, h₄) = bind-ok (require_str a "rootfs_ref") _ h₃ in
    let (b, e₅, h₅) = bind-ok (optional_ref a "bootloader_ref") _ h₄ in
    let (l, e₆, h₆) = bind-ok (optional_ref a "installer_metadata_ref") _ h₅ in
    subst (λ x. SameRefs a (ref_items x)) (ok-injective h₆)
      (
        sym (require_str-str a "manifest_ref" e₁),
        (
          sym (require_str-str a "kernel_ref" e₂),
          (
            sym (require_str-str a "initrd_ref" e₃),
            (
              sym (require_str-str a "rootfs_ref" e₄),
              (
                sym (optional_ref-value a "bootloader_ref" e₅),
                (sym (optional_ref-value a "installer_metadata_ref" e₆), tt),
              ),
            ),
          ),
        ),
      )

-- the capabilities, the fallback and the reports
record IsTerms (d : Dict) (t : Terms) : Type 0 where
  capabilities : get d "boot_capabilities" ≡ object t.capabilities
  fallback : get d "offline_fallback" ≡ object t.fallback
  reporting : Dict
  reported : get d "proof_reporting" ≡ object reporting
  reports : get reporting "reports" ≡ array t.reports

terms_of-IsTerms : (d : Dict) (t : Terms) → terms_of d ≡ ok t → IsTerms d t
unfolding terms_of
terms_of-IsTerms d t h =
    let (c, e₁, h₁) = bind-ok (require_dict d "boot_capabilities") _ h in
    let (f, e₂, h₂) = bind-ok (require_dict d "offline_fallback") _ h₁ in
    let (p, e₃, h₃) = bind-ok (require_dict d "proof_reporting") _ h₂ in
    let (g₁, h₄) = guard-ok (is_true (get p "required")) proofs_not_required _ h₃ in
    let (rs, e₅, h₅) = bind-ok (or_raise (reports_in (get p "reports")) no_reports) _ h₄ in
    let (g₂, h₆) = guard-ok (is_verified_fallback f) unverified_fallback _ h₅ in
    let (g₃, h₇) = guard-ok (is_false (get f "allows_unsigned_artifacts")) unsigned_fallback _ h₆ in
    let (gs, e₈, h₈) = bind-ok (verification_gates_of f c) _ h₇ in
    subst (IsTerms d) (ok-injective h₈) (record {
      capabilities = require_dict-object d "boot_capabilities" e₁;
      fallback = require_dict-object d "offline_fallback" e₂;
      reporting = p;
      reported = require_dict-object d "proof_reporting" e₃;
      reports =
          as_list-array (get p "reports")
            (reports_in-array (get p "reports") (or_raise-ok _ no_reports e₅));
    })

-- Every field of the plan that is copied, with the field of the document that it comes from; the
-- reports are the texts of those of the document.
pub record IsCopy (repr : Json → String) (d : Dict) (plan : ControlPlaneBootPlan) : Type 0 where
  pub id : get d "boot_release_set_id" ≡ Json.str plan.boot_release_set_id
  pub base : get d "base_release_set_ref" ≡ Json.str plan.base_release_set_ref
  pub mode : get d "boot_mode" ≡ Json.str plan.boot_mode
  pub channel : get d "boot_channel" ≡ Json.str plan.boot_channel
  pub status : get d "status" ≡ Json.str plan.status
  pub policy : get d "policy_ref" ≡ Json.str plan.policy_ref
  pub entrypoints : get d "platform_entrypoints" ≡ array plan.platform_entrypoints
  pub artifacts : Dict
  pub has_artifacts : get d "artifacts" ≡ object artifacts
  pub refs : SameRefs artifacts (ref_items plan.artifact_refs)
  pub signing : get d "signing" ≡ object plan.signing
  pub capabilities : get d "boot_capabilities" ≡ object plan.boot_capabilities
  pub reporting : Dict
  pub has_reporting : get d "proof_reporting" ≡ object reporting
  pub reports : List Json
  pub has_reports : get reporting "reports" ≡ array reports
  pub reports_copied : plan.proof_reports ≡ map (text_of repr) reports
  pub fallback : get d "offline_fallback" ≡ object plan.offline_fallback

pub build_control_plane_boot_plan-IsCopy :
    (repr : Json → String) (d : Dict) (plan : ControlPlaneBootPlan)
    → build_control_plane_boot_plan repr d ≡ ok plan
    → IsCopy repr d plan
unfolding build_control_plane_boot_plan artifacts_of
build_control_plane_boot_plan-IsCopy repr d plan h =
    let (i, e₁, h₁) = bind-ok (identity_of d) _ h in
    let (a, e₂, h₂) = bind-ok (action_for i) _ h₁ in
    let (es, e₃, h₃) = bind-ok (entrypoints_of d) _ h₂ in
    let (rs, e₄, h₄) = bind-ok (artifacts_of d) _ h₃ in
    let (s, e₅, h₅) = bind-ok (signing_of d) _ h₄ in
    let (t, e₆, h₆) = bind-ok (terms_of d) _ h₅ in
    let (o, read, made) = bind-ok (require_dict d "artifacts") artifact_refs_of e₄ in
    let who = identity_of-IsIdentity d i e₁ in
    let terms = terms_of-IsTerms d t e₆ in
    subst (IsCopy repr d) (ok-injective h₆) (record {
      id = who.release_set_id;
      base = who.base_ref;
      mode = who.mode;
      channel = who.channel;
      status = who.status;
      policy = who.policy;
      entrypoints = entrypoints_of-array d es e₃;
      artifacts = o;
      has_artifacts = require_dict-object d "artifacts" read;
      refs = artifact_refs_of-SameRefs o rs made;
      signing = signing_of-object d s e₅;
      capabilities = terms.capabilities;
      reporting = terms.reporting;
      has_reporting = terms.reported;
      reports = t.reports;
      has_reports = terms.reports;
      reports_copied = refl;
      fallback = terms.fallback;
    })
