-- ===== src/ControlPlane/Command.antt =====
-- `plan_control_plane` of cli.py, on what the file decodes to.
use sourceos_boot.Base.{String, false, ◌≡◌, refl, sym, ap, subst, some, List, [], ◌∷◌, map, All}
use sourceos_boot.Json.{Json, Dict, get, as_dict, object, array, put, texts, text_of}
use sourceos_boot.Result.{Result, ok, err, ◌>>=◌, or_raise, bind-ok, ok-injective, or_raise-ok}
use sourceos_boot.ControlPlane.Planner.{
  ControlPlaneBootPlan, PlanError, Checked, build_control_plane_boot_plan, to_dict, ref_items,
}
use sourceos_boot.ControlPlane.Copied.{SameRefs, IsCopy, build_control_plane_boot_plan-IsCopy}
use sourceos_boot.ControlPlane.Described.{IsCautious, build_control_plane_boot_plan-IsCautious}

-- the ValueError of a file that holds no object, and the raise of the planner
pub data CommandError : Type 0 where
  not_a_document : CommandError
  not_planned : PlanError → CommandError

abbrev from_planner : Checked ControlPlaneBootPlan → Result CommandError ControlPlaneBootPlan
from_planner (ok plan) = ok plan
from_planner (err e) = err (not_planned e)

-- what is printed of a plan
abbrev pub printed : ControlPlaneBootPlan → Dict
printed plan =
    ("apiVersion", Json.str "sourceos.dev/v1")
    ∷ ("kind", Json.str "ControlPlaneBootPlan")
    ∷ ("plan", object (put "execute" (Json.bool false) (to_dict plan)))
    ∷ []

-- the keys whose values are the document's own
abbrev pub copied_keys : List String
copied_keys =
    "boot_release_set_id" ∷ "base_release_set_ref" ∷ "boot_mode" ∷ "boot_channel" ∷ "status"
    ∷ "policy_ref" ∷ "platform_entrypoints" ∷ "signing" ∷ "boot_capabilities" ∷ "offline_fallback"
    ∷ []

-- The printed object holds the plan: what it copies is what the document has, and the fields of
-- `plan` that `IsCautious` speaks of are those that are shown.
pub record Prints (repr : Json → String) (doc : Dict) (plan : ControlPlaneBootPlan) (out : Dict)
    : Type 0 where
  pub version : get out "apiVersion" ≡ Json.str "sourceos.dev/v1"
  pub kind : get out "kind" ≡ Json.str "ControlPlaneBootPlan"
  pub part : Dict
  pub shown : get out "plan" ≡ object part
  pub execute_shown : get part "execute" ≡ Json.bool false
  pub copied : All (λ k. get part k ≡ get doc k) copied_keys
  pub artifacts : Dict
  pub has_artifacts : get doc "artifacts" ≡ object artifacts
  pub refs : Dict
  pub refs_shown : get part "artifact_refs" ≡ object refs
  pub refs_copied : SameRefs artifacts refs
  pub reporting : Dict
  pub has_reporting : get doc "proof_reporting" ≡ object reporting
  pub reports : List Json
  pub has_reports : get reporting "reports" ≡ array reports
  pub reports_shown : get part "proof_reports" ≡ texts (map (text_of repr) reports)
  pub action_shown : get part "action" ≡ Json.str plan.action
  pub gates_shown : get part "verification_gates" ≡ texts plan.verification_gates
  pub status_shown : get part "status" ≡ Json.str "ready"
  pub channel_shown : get part "boot_channel" ≡ Json.str plan.boot_channel
  pub capabilities_shown : get part "boot_capabilities" ≡ object plan.boot_capabilities
  pub fallback_shown : get part "offline_fallback" ≡ object plan.offline_fallback

from_planner-ok :
    (r : Checked ControlPlaneBootPlan) (plan : ControlPlaneBootPlan)
    → from_planner r ≡ ok plan
    → r ≡ ok plan
from_planner-ok (ok p) plan h = ap ok (ok-injective h)
from_planner-ok (err e) plan h = cc

module _ (repr : Json → String) where
  unfoldable pub plan_control_plane : Json → Result CommandError Dict
  plan_control_plane v = do
    doc ← or_raise (as_dict v) not_a_document
    plan ← from_planner (build_control_plane_boot_plan repr doc)
    ok (printed plan)

  printed-Prints :
      (doc : Dict) (plan : ControlPlaneBootPlan)
      → plan.status ≡ "ready"
      → IsCopy repr doc plan
      → Prints repr doc plan (printed plan)
  unfolding get to_dict
  printed-Prints doc plan ready c = record {
    version = refl;
    kind = refl;
    part = put "execute" (Json.bool false) (to_dict plan);
    shown = refl;
    execute_shown = refl;
    copied = (
      sym c.id,
      (
        sym c.base,
        (
          sym c.mode,
          (
            sym c.channel,
            (
              sym c.status,
              (
                sym c.policy,
                (sym c.entrypoints, (sym c.signing, (sym c.capabilities, (sym c.fallback, tt)))),
              ),
            ),
          ),
        ),
      ),
    );
    artifacts = c.artifacts;
    has_artifacts = c.has_artifacts;
    refs = ref_items plan.artifact_refs;
    refs_shown = refl;
    refs_copied = c.refs;
    reporting = c.reporting;
    has_reporting = c.has_reporting;
    reports = c.reports;
    has_reports = c.has_reports;
    reports_shown = ap texts c.reports_copied;
    action_shown = refl;
    gates_shown = refl;
    status_shown = ap Json.str ready;
    channel_shown = refl;
    capabilities_shown = refl;
    fallback_shown = refl;
  }

  -- What the command prints is the plan of its document with `execute` at false: its texts, its
  -- entry points, its signing object, its capabilities and its fallback are the document's, its
  -- artifact references are the document's under each of the six keys, and its reports are the texts
  -- of the document's. The document is a ready release set, the action is that of its channel, each
  -- optional verification gate is listed just if the capabilities or the fallback call for it, and
  -- the fallback takes no unsigned artifacts and, where it is enabled, verifies signatures.
  pub plan_control_plane-IsCautious :
      (v : Json) (out : Dict)
      → plan_control_plane v ≡ ok out
      → (d : Dict) × (plan : ControlPlaneBootPlan) × (as_dict v ≡ some d)
        × (build_control_plane_boot_plan repr d ≡ ok plan)
        × IsCautious plan
        × Prints repr d plan out
  unfolding plan_control_plane
  plan_control_plane-IsCautious v out h =
      let (d, e₁, h₁) = bind-ok (or_raise (as_dict v) not_a_document) _ h in
      let (plan, e₂, h₂) = bind-ok (from_planner (build_control_plane_boot_plan repr d)) _ h₁ in
      let built = from_planner-ok (build_control_plane_boot_plan repr d) plan e₂ in
      let cautious = build_control_plane_boot_plan-IsCautious repr d plan built in
      (
        d,
        plan,
        or_raise-ok (as_dict v) not_a_document e₁,
        built,
        cautious,
        subst (Prints repr d plan) (ok-injective h₂) (
            printed-Prints d plan cautious.is_ready
              (build_control_plane_boot_plan-IsCopy repr d plan built)),
      )
