-- ===== src/ReleaseSet/Command.antt =====
-- When the command that validates BootReleaseSet documents exits with 0.
use sourceos_boot.Base.{
  String, Bool, true, false, not, ◌||◌, ◌≡◌, refl, sym, ◌∙◌, ◌↔◌, arith, subst, Option, List, [],
  ◌∷◌, All,
}
use sourceos_boot.Json.{Json, in_dict}
use sourceos_boot.Result.{Result, ok, err, ◌>>=◌, yields, ok-injective}
use sourceos_boot.ReleaseSet.Validator.{DocumentError, validate_document, exit_code}
use sourceos_boot.ReleaseSet.Accepted.{is_release_set, validate_document-accepts}

module _ (urlparse : String → Option (String × String)) where
  -- The file decodes to an object that describes a release set.
  abbrev pub HoldsReleaseSet : Result DocumentError Json → Type 0
  HoldsReleaseSet file = (v : Json) × (file ≡ ok v) × (in_dict (is_release_set urlparse) v ≡ true)

  passes : Result DocumentError Json → Bool
  passes file = yields (file >>= validate_document urlparse)

  passes-HoldsReleaseSet :
      (file : Result DocumentError Json) → (passes file ≡ true) ↔ HoldsReleaseSet file
  unfolding passes
  passes-HoldsReleaseSet (ok v) = (
    λ h. (v, refl, sym (validate_document-accepts urlparse v) ∙ h),
    λ p.
        validate_document-accepts urlparse v
        ∙ subst (λ w. in_dict (is_release_set urlparse) w ≡ true) (sym (ok-injective p.1)) p.2,
  )
  passes-HoldsReleaseSet (err e) = (λ h. cc, λ p. cc)

  none_failed : (a b : Bool) → (a || not b) ≡ false → (a ≡ false) × (b ≡ true)
  none_failed a b h = (ground arith, ground arith)

  exit_code-zero :
      (files : List (Result DocumentError Json)) (failed : Bool)
      → (exit_code urlparse files failed ≡ 0) ↔ ((failed ≡ false) × All HoldsReleaseSet files)
  unfolding exit_code passes
  exit_code-zero [] true = (λ h. cc, λ p. cc)
  exit_code-zero [] false = (λ h. (refl, tt), λ p. refl)
  exit_code-zero (file ∷ files) failed =
      let rest = exit_code-zero files (failed || not (passes file)) in
      (
        λ h.
            let (e, later) = rest.0 h in
            let (a, b) = none_failed failed (passes file) e in
            (a, ((passes-HoldsReleaseSet file).0 b, later)),
        λ p.
            let held = (passes-HoldsReleaseSet file).1 p.1.0 in rest.1 (rw (p.0, held) refl, p.1.1),
      )

  -- Whatever urlparse gives, the command exits with 0 just if every file that it was given decodes
  -- to an object that describes a release set: the version and kind of the format, metadata with a
  -- name and a version, and a spec whose platforms, channels and actions are distinct and allowed,
  -- whose artifacts each have a location and a digest, and whose policy, evidence, provenance,
  -- trust, signature, anti-rollback and telemetry are complete.
  pub exit_code-HoldsReleaseSet :
      (files : List (Result DocumentError Json))
      → (exit_code urlparse files false ≡ 0) ↔ All HoldsReleaseSet files
  exit_code-HoldsReleaseSet files =
      (λ h. ((exit_code-zero files false).0 h).1, λ p. (exit_code-zero files false).1 (refl, p))
