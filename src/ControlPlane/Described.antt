-- ===== src/ControlPlane/Described.antt =====
-- What a plan says of its document.
use sourceos_boot.Base.{
  String, true, false, not, ◌||◌, ◌≡◌, refl, ◌∙◌, arith, some, List, eq_iff, mem_text, subst,
}
use sourceos_boot.Json.{Json, Dict, get, is_true, is_false, truthy_json}
use sourceos_boot.Result.{ok, or_raise, bind-ok, guard-ok, ok-injective}
use sourceos_boot.ControlPlane.Planner.{
  no_reports, proofs_not_required, unsigned_fallback, unverified_fallback, require_dict, reports_in,
  is_verified_fallback, ControlPlaneBootPlan, action_of, Identity, identity_of, action_for,
  entrypoints_of, artifacts_of, signing_of, Terms, terms_of, is_scoped, verification_gates_of,
  build_control_plane_boot_plan,
}

-- The plan is for a ready release set, does not execute, takes the action of its channel, and lists
-- each of the three optional gates just if its capabilities or its fallback call for it; an enabled
-- fallback verifies signatures, and none takes unsigned artifacts.
pub record IsCautious (plan : ControlPlaneBootPlan) : Type 0 where
  pub is_ready : plan.status ≡ "ready"
  pub is_inert : plan.execute ≡ false
  pub channel_action : action_of plan.boot_channel ≡ some plan.action
  pub fallback_gate :
      mem_text "verify-offline-fallback-signature-required" plan.verification_gates
      ≡ truthy_json (get plan.offline_fallback "enabled")
  pub kexec_gate :
      mem_text "verify-kexec-denied" plan.verification_gates
      ≡ is_false (get plan.boot_capabilities "kexec_allowed")
  pub write_gate :
      mem_text "verify-disk-write-scope" plan.verification_gates
      ≡ is_scoped (get plan.boot_capabilities "disk_write")
  pub signature_gate : mem_text "verify-manifest-signature" plan.verification_gates ≡ true
  pub fallback_verified :
      (not (truthy_json (get plan.offline_fallback "enabled"))
        || is_true (get plan.offline_fallback "requires_signature_verification"))
      ≡ true
  pub fallback_signed : is_false (get plan.offline_fallback "allows_unsigned_artifacts") ≡ true

-- what is so of the gates of a fallback and capabilities
record HasGates (fallback capabilities : Dict) (gates : List String) : Type 0 where
  fallback_gate :
      mem_text "verify-offline-fallback-signature-required" gates
      ≡ truthy_json (get fallback "enabled")
  kexec_gate : mem_text "verify-kexec-denied" gates ≡ is_false (get capabilities "kexec_allowed")
  write_gate : mem_text "verify-disk-write-scope" gates ≡ is_scoped (get capabilities "disk_write")
  signature_gate : mem_text "verify-manifest-signature" gates ≡ true

verification_gates_of-HasGates :
    (f c : Dict) (gates : List String) → verification_gates_of f c ≡ ok gates → HasGates f c gates
unfolding verification_gates_of
verification_gates_of-HasGates f c gates h = record {
  fallback_gate = ground arith;
  kexec_gate = ground arith;
  write_gate = ground arith;
  signature_gate = ground arith;
}

terms_of-verified :
    (d : Dict) (t : Terms)
    → terms_of d ≡ ok t
    → (verification_gates_of t.fallback t.capabilities ≡ ok t.gates)
      × ((not (truthy_json (get t.fallback "enabled"))
            || is_true (get t.fallback "requires_signature_verification"))
          ≡ true)
      × (is_false (get t.fallback "allows_unsigned_artifacts") ≡ true)
unfolding terms_of
terms_of-verified d t h =
    let (c, e₁, h₁) = bind-ok (require_dict d "boot_capabilities") _ h in
    let (f, e₂, h₂) = bind-ok (require_dict d "offline_fallback") _ h₁ in
    let (p, e₃, h₃) = bind-ok (require_dict d "proof_reporting") _ h₂ in
    let (g₁, h₄) = guard-ok (is_true (get p "required")) proofs_not_required _ h₃ in
    let (rs, e₅, h₅) = bind-ok (or_raise (reports_in (get p "reports")) no_reports) _ h₄ in
    let (g₂, h₆) = guard-ok (is_verified_fallback f) unverified_fallback _ h₅ in
    let (g₃, h₇) = guard-ok (is_false (get f "allows_unsigned_artifacts")) unsigned_fallback _ h₆ in
    let (gs, e₈, h₈) = bind-ok (verification_gates_of f c) _ h₇ in
    let same = ok-injective h₈ in
    subst
      (λ (x : Terms).
        (verification_gates_of x.fallback x.capabilities ≡ ok x.gates)
        × (is_verified_fallback x.fallback ≡ true)
        × (is_false (get x.fallback "allows_unsigned_artifacts") ≡ true))
      same (e₈, g₂, g₃)

action_for-ready :
    (i : Identity) (a : String)
    → action_for i ≡ ok a
    → (i.status ≡ "ready") × (action_of i.channel ≡ some a)
unfolding action_for
action_for-ready i a h = ground (arith, eq_iff i.status "ready")

-- where the fields of a plan come from
record IsMade (d : Dict) (i : Identity) (t : Terms) (plan : ControlPlaneBootPlan) : Type 0 where
  checked : action_for i ≡ ok plan.action
  termed : terms_of d ≡ ok t
  status : plan.status ≡ i.status
  channel : plan.boot_channel ≡ i.channel
  inert : plan.execute ≡ false
  capabilities : plan.boot_capabilities ≡ t.capabilities
  fallback : plan.offline_fallback ≡ t.fallback
  gates : plan.verification_gates ≡ t.gates

module _ (repr : Json → String) (d : Dict) (plan : ControlPlaneBootPlan) where
  parts :
      build_control_plane_boot_plan repr d ≡ ok plan
      → (i : Identity) × (t : Terms) × IsMade d i t plan
  unfolding build_control_plane_boot_plan
  parts h =
      let (i, e₁, h₁) = bind-ok (identity_of d) _ h in
      let (a, e₂, h₂) = bind-ok (action_for i) _ h₁ in
      let (es, e₃, h₃) = bind-ok (entrypoints_of d) _ h₂ in
      let (rs, e₄, h₄) = bind-ok (artifacts_of d) _ h₃ in
      let (s, e₅, h₅) = bind-ok (signing_of d) _ h₄ in
      let (t, e₆, h₆) = bind-ok (terms_of d) _ h₅ in
      (
        i,
        t,
        subst (IsMade d i t) (ok-injective h₆) (record {
          checked = e₂;
          termed = e₆;
          status = refl;
          channel = refl;
          inert = refl;
          capabilities = refl;
          fallback = refl;
          gates = refl;
        }),
      )

  -- A plan that the planner builds is for a ready release set, does not execute, takes the action
  -- of its channel, lists each optional verification gate just if its capabilities or its fallback
  -- call for it, and has a fallback that takes no unsigned artifacts and, where it is enabled,
  -- verifies signatures.
  pub build_control_plane_boot_plan-IsCautious :
      build_control_plane_boot_plan repr d ≡ ok plan → IsCautious plan
  build_control_plane_boot_plan-IsCautious h =
      let (i, t, m) = parts h in
      let (ready, acts) = action_for-ready i plan.action m.checked in
      let (computed, verified, signed) = terms_of-verified d t m.termed in
      let g = verification_gates_of-HasGates t.fallback t.capabilities t.gates computed in
      record {
        is_ready = m.status ∙ ready;
        is_inert = m.inert;
        channel_action = rw m.channel acts;
        fallback_gate = rw (m.gates, m.fallback) g.fallback_gate;
        kexec_gate = rw (m.gates, m.capabilities) g.kexec_gate;
        write_gate = rw (m.gates, m.capabilities) g.write_gate;
        signature_gate = rw m.gates g.signature_gate;
        fallback_verified = rw m.fallback verified;
        fallback_signed = rw m.fallback signed;
      }
