-- ===== src/Rollback/Plans.antt =====
-- What `plan_rollback` plans.
use sourceos_boot.Base.{
  ◌⊎◌, ◌≡◌, refl, sym, ap, ◌∙◌, subst, arith, String, Bool, Bool-cases, inl, inr, true, false, not,
  ◌||◌, Option, none, some, some-injective, List, [], ◌∷◌, str_eq, eq_iff, select, find, any,
  is_empty, All, All-select, int_leb, is_some,
}
use sourceos_boot.Rollback.Sort.{
  last, Sorted, last-All, select-highest, sort-Sorted, int_leb_refl, int_leb_total, int_leb_trans,
  All-map_lem,
}
use sourceos_boot.Rollback.Chain.{
  AsahiBootChainInfo, boot_chain_type, Violation, validate, NixOsGeneration, AsahiRollbackPlan,
  is_allowed, Surroundings, AsahiBootChain, generation_leb, detect_generations, rollback_command,
  target_comment, efi_comment, plan_towards, plan_for, plan_under, plan_rollback,
  system_profile_dir, generations_of,
}
use sourceos_boot.Rollback.Executor.{is_comment}
use mathlib.Core.List.{Memᴰ}
use text.Mathlib.TextPositions.{starts_with-append}

-- the steps that are no comments
abbrev pub commands : List String → List String
commands = select (λ step. not (is_comment step))

-- A chain that keeps the invariants.
abbrev pub IsValid : AsahiBootChainInfo → Type 0
IsValid chain = (chain.efi_vars_mutable ≡ false) × (chain.chain_type ≡ boot_chain_type)

validate-IsValid : (chain : AsahiBootChainInfo) → validate chain ≡ [] → IsValid chain
unfolding validate
validate-IsValid chain h = elim (Bool-cases chain.efi_vars_mutable) [
  | inl e ↦ cc (rw e at h)
  | inr e ↦ elim (Bool-cases (str_eq chain.chain_type boot_chain_type)) [
    | inl t ↦ (e, (eq_iff chain.chain_type boot_chain_type).0 t)
    | inr t ↦ cc (rw (e, t) at h)
  ]
]

-- What a plan may say: an allowed one is for a valid chain and has the one command that rolls back;
-- any other has no step.
abbrev pub IsGated : AsahiBootChainInfo → AsahiRollbackPlan → Type 0
IsGated chain plan =
    ((is_allowed plan ≡ true) × IsValid chain × (commands plan.steps ≡ rollback_command ∷ []))
    ⊎ ((is_allowed plan ≡ false) × (plan.steps ≡ []) × (plan.rollback_target ≡ none))

comment : (t : NixOsGeneration) → is_comment (target_comment t) ≡ true
comment t = starts_with-append "#" _

commands-among :
    (t : NixOsGeneration)
    → commands (rollback_command ∷ target_comment t ∷ efi_comment ∷ []) ≡ rollback_command ∷ []
commands-among t = rw (comment t) refl

plan_towards-IsGated :
    (chain : AsahiBootChainInfo) (current target : Option NixOsGeneration)
    → IsValid chain
    → IsGated chain (plan_towards chain current target)
plan_towards-IsGated chain current none v = inr (refl, refl, refl)
plan_towards-IsGated chain current (some t) v = inl (refl, v, commands-among t)

plan_for-IsGated :
    (chain : AsahiBootChainInfo) (gens : List NixOsGeneration)
    → IsValid chain
    → IsGated chain (plan_for chain gens)
unfolding plan_for
plan_for-IsGated chain [] v = inl (refl, v, refl)
plan_for-IsGated chain (g ∷ gs) v =
    plan_towards-IsGated chain (find (λ h. h.is_current) (g ∷ gs))
      (last (select (λ h. not h.is_current) (g ∷ gs))) v

-- No other generation that may be rolled back to has a higher number.
abbrev pub IsHighest : NixOsGeneration → List NixOsGeneration → Type 0
IsHighest t gens = All (λ g. not g.is_current ≡ true → int_leb g.number t.number ≡ true) gens

plan_towards-target :
    (chain : AsahiBootChainInfo) (current target : Option NixOsGeneration)
    → (plan_towards chain current target).rollback_target ≡ target
plan_towards-target chain current none = refl
plan_towards-target chain current (some t) = refl

pub plan_for-target :
    (chain : AsahiBootChainInfo) (gens : List NixOsGeneration)
    → (plan_for chain gens).rollback_target ≡ last (select (λ g. not g.is_current) gens)
unfolding plan_for
plan_for-target chain [] = refl
plan_for-target chain (g ∷ gs) =
    plan_towards-target chain (find (λ h. h.is_current) (g ∷ gs))
      (last (select (λ h. not h.is_current) (g ∷ gs)))

plan_under-IsGated :
    (chain : AsahiBootChainInfo) (violations : List Violation)
    (detected : Option (List NixOsGeneration)) {plan : AsahiRollbackPlan}
    → validate chain ≡ violations
    → plan_under chain violations detected ≡ some plan
    → IsGated chain plan
plan_under-IsGated chain (v ∷ vs) detected {plan} e h =
    subst (IsGated chain) (some-injective _ plan h) (inr (refl, refl, refl))
plan_under-IsGated chain [] none e h = cc
plan_under-IsGated chain [] (some gens) {plan} e h =
    subst (IsGated chain) (some-injective _ plan h)
      (plan_for-IsGated chain gens (validate-IsValid chain e))

plan_under-target :
    (chain : AsahiBootChainInfo) (violations : List Violation) (gens : List NixOsGeneration)
    {plan : AsahiRollbackPlan} {t : NixOsGeneration}
    → plan_under chain violations (some gens) ≡ some plan
    → plan.rollback_target ≡ some t
    → last (select (λ g. not g.is_current) gens) ≡ some t
plan_under-target chain (v ∷ vs) gens {plan} {t} h r =
    cc (ap (λ p. p.rollback_target) (some-injective _ plan h), r)
plan_under-target chain [] gens {plan} {t} h r =
    sym (plan_for-target chain gens)
    ∙ (ap (λ p. p.rollback_target) (some-injective (plan_for chain gens) plan h) ∙ r)

false_of_not : (b : Bool) → not b ≡ true → b ≡ false
false_of_not b h = ground arith

members : {A : Type 0} (xs : List A) → All (λ x. Memᴰ x xs) xs
members [] = tt
members (x ∷ xs) = (Memᴰ.head refl, All-map_lem xs (λ y k. Memᴰ.tail k) (members xs))

pub IsValid-validate : (chain : AsahiBootChainInfo) → IsValid chain → validate chain ≡ []
unfolding validate
IsValid-validate chain (e, t) = rw (e, t) refl

towards-IsAllowed :
    (chain : AsahiBootChainInfo) (current target : Option NixOsGeneration)
    → is_allowed (plan_towards chain current target) ≡ is_some target
towards-IsAllowed chain current none = refl
towards-IsAllowed chain current (some t) = refl

last_some : {A : Type 0} (x : A) (xs : List A) → is_some (last (x ∷ xs)) ≡ true
last_some x [] = refl
last_some x (y ∷ ys) = last_some y ys

pub last-select :
    {A : Type 0} (p : A → Bool) (xs : List A) → is_some (last (select p xs)) ≡ any p xs
last-select p [] = refl
last-select p (x ∷ xs) = elim (Bool-cases (p x)) [
  | inl e ↦ rw e (last_some x (select p xs))
  | inr e ↦ rw e (last-select p xs)
]

plan_for-IsAllowed :
    (chain : AsahiBootChainInfo) (gens : List NixOsGeneration)
    → is_allowed (plan_for chain gens) ≡ (is_empty gens || any (λ g. not g.is_current) gens)
unfolding plan_for
plan_for-IsAllowed chain [] = refl
plan_for-IsAllowed chain (g ∷ gs) =
    towards-IsAllowed chain (find (λ h. h.is_current) (g ∷ gs))
      (last (select (λ h. not h.is_current) (g ∷ gs)))
    ∙ last-select (λ h. not h.is_current) (g ∷ gs)

module _ (os : Surroundings) (self : AsahiBootChain) where
  -- detect_generations lists the generations in the order of their numbers.
  generations_of-Sorted :
      (entries : Option (List String)) {gens : List NixOsGeneration}
      → generations_of os self entries ≡ some gens
      → Sorted generation_leb gens
  generations_of-Sorted none h = cc
  generations_of-Sorted (some entries) {gens} h =
      subst (Sorted generation_leb) (some-injective _ gens h) (
        sort-Sorted generation_leb (λ a b. int_leb_total a.number b.number)
          (λ a b c. int_leb_trans a.number b.number c.number) _)

  detect_generations-Sorted :
      {gens : List NixOsGeneration}
      → detect_generations os self ≡ some gens
      → Sorted generation_leb gens
  unfolding detect_generations
  detect_generations-Sorted {gens} h = elim (Bool-cases (os.is_dir (system_profile_dir os self))) [
    | inl e ↦ generations_of-Sorted (os.list_dir (system_profile_dir os self)) (rw e at h)
    | inr e ↦ subst (Sorted generation_leb) (some-injective [] gens (rw e at h)) tt
  ]

  -- A plan that is returned is allowed only for a valid chain, and then its only command is the one
  -- that rolls back; a plan that is not allowed has no step and no target.
  pub plan_rollback-IsGated :
      {plan : AsahiRollbackPlan} → plan_rollback os self ≡ some plan → IsGated self.chain_info plan
  unfolding plan_rollback
  plan_rollback-IsGated {plan} h =
      plan_under-IsGated self.chain_info (validate self.chain_info) (detect_generations os self)
        refl h

  -- The target of a plan is the generation with the highest number among the detected ones that are
  -- not current.
  pub plan_rollback-target :
      {plan : AsahiRollbackPlan} {gens : List NixOsGeneration} {t : NixOsGeneration}
      → plan_rollback os self ≡ some plan
      → detect_generations os self ≡ some gens
      → plan.rollback_target ≡ some t
      → Memᴰ t gens × (t.is_current ≡ false) × IsHighest t gens
  unfolding plan_rollback
  plan_rollback-target {plan} {gens} {t} h d r =
      let l = plan_under-target self.chain_info (validate self.chain_info) gens (rw d at h) r in
      let (member, other) =
        last-All generation_leb (λ g. Memᴰ g gens × (not g.is_current ≡ true))
          (select (λ g. not g.is_current) gens) l
          (All-select (λ g. Memᴰ g gens) (λ g. not g.is_current) gens (members gens)) in
      (
        member,
        false_of_not t.is_current other,
        select-highest generation_leb (λ g. int_leb_refl g.number) (λ g. not g.is_current) gens
            (detect_generations-Sorted d) l,
      )

  -- For a valid chain whose generations can be read, a plan is returned, and it is allowed just if
  -- no generation was detected or one of them is not current.
  pub plan_rollback-IsAllowed :
      {gens : List NixOsGeneration}
      → IsValid self.chain_info
      → detect_generations os self ≡ some gens
      → (plan : AsahiRollbackPlan) × (plan_rollback os self ≡ some plan)
        × (is_allowed plan ≡ (is_empty gens || any (λ g. not g.is_current) gens))
  unfolding plan_rollback
  plan_rollback-IsAllowed {gens} v d = (
    plan_for self.chain_info gens,
    rw (IsValid-validate self.chain_info v, d) refl,
    plan_for-IsAllowed self.chain_info gens,
  )
