-- ===== src/Rollback/Previous.antt =====
-- The promise of asahi_boot_chain.py, a plan that returns to the previous generation: where the
-- current generation has the highest number.
use sourceos_boot.Base.{
  ◌≡◌, refl, sym, subst, ◌∙◌, arith, Bool, true, false, not, ◌||◌, Option, none, some, List, [],
  ◌∷◌, select, find, any, All, int_leb, is_some,
}
use sourceos_boot.Rollback.Sort.{last, All-map_lem}
use sourceos_boot.Rollback.Chain.{
  AsahiBootChainInfo, NixOsGeneration, AsahiRollbackPlan, is_allowed, Surroundings, AsahiBootChain,
  detect_generations, plan_for, plan_rollback,
}
use sourceos_boot.Rollback.Plans.{
  IsValid, IsValid-validate, last-select, plan_for-target, plan_rollback-target,
}
use mathlib.Core.List.{Memᴰ}

-- Every generation but the current one has a number below that of `c`.
abbrev pub IsNewest : NixOsGeneration → List NixOsGeneration → Type 0
IsNewest c gens = All (λ g. (g.is_current || not (int_leb c.number g.number)) ≡ true) gens

-- `t` is among the generations, is not the current one, comes before `c`, and no other generation
-- comes between them.
pub record IsPrevious (c t : NixOsGeneration) (gens : List NixOsGeneration) : Type 0 where
  pub detected : Memᴰ t gens
  pub not_current : t.is_current ≡ false
  pub before : int_leb c.number t.number ≡ false
  pub nearest : All (λ g. (g.is_current || int_leb g.number t.number) ≡ true) gens

All-Memᴰ : {A : Type 0} (P : A → Type 0) {x : A} (xs : List A) → All P xs → Memᴰ x xs → P x
All-Memᴰ P [] h m = elim m [ ]
All-Memᴰ P (y ∷ ys) h (Memᴰ.head e) = subst P (sym e) h.0
All-Memᴰ P (y ∷ ys) h (Memᴰ.tail m) = All-Memᴰ P ys h.1 m

some_of : {A : Type 0} (o : Option A) → is_some o ≡ true → (a : A) × (o ≡ some a)
some_of none h = cc
some_of (some a) h = (a, refl)

-- A plan that has a target has the current generation that was found.
plan_for-current :
    (chain : AsahiBootChainInfo) (gens : List NixOsGeneration) {t : NixOsGeneration}
    → last (select (λ g. not g.is_current) gens) ≡ some t
    → ((plan_for chain gens).current_generation ≡ find (λ g. g.is_current) gens)
      × (is_allowed (plan_for chain gens) ≡ true)
unfolding plan_for
plan_for-current chain [] h = cc
plan_for-current chain (g ∷ gs) h = rw h (refl, refl)

before_lem : (a b : Bool) → (a || not b) ≡ true → a ≡ false → b ≡ false
before_lem a b h e = ground arith

nearest_lem : (a b : Bool) → (not a ≡ true → b ≡ true) → (a || b) ≡ true
nearest_lem true b h = refl
nearest_lem false b h = h refl

-- For a valid chain whose generations can be read, where `c` is the current generation, every other
-- one has a lower number and there is another one, an allowed plan is returned that goes from `c`
-- back to the previous generation: its target is another one of those detected, its number is below
-- that of `c`, and no other generation has a number between the two.
pub plan_rollback-IsPrevious :
    (os : Surroundings) (self : AsahiBootChain) (gens : List NixOsGeneration) (c : NixOsGeneration)
    → IsValid self.chain_info
    → detect_generations os self ≡ some gens
    → find (λ g. g.is_current) gens ≡ some c
    → IsNewest c gens
    → any (λ g. not g.is_current) gens ≡ true
    → (plan : AsahiRollbackPlan) × (t : NixOsGeneration) × (plan_rollback os self ≡ some plan)
      × (is_allowed plan ≡ true)
      × (plan.current_generation ≡ some c)
      × (plan.rollback_target ≡ some t)
      × IsPrevious c t gens
unfolding plan_rollback
plan_rollback-IsPrevious os self gens c v d found newest other =
    let chain = self.chain_info in
    let (t, e) =
      some_of (last (select (λ g. not g.is_current) gens))
        (last-select (λ g. not g.is_current) gens ∙ other) in
    let (same, allowed) = plan_for-current chain gens e in
    let planned : plan_rollback os self ≡ some (plan_for chain gens) =
      rw (IsValid-validate chain v, d) refl in
    let target = plan_for-target chain gens ∙ e in
    let (member, not_current, highest) = plan_rollback-target os self planned d target in
    (
      plan_for chain gens,
      t,
      planned,
      allowed,
      same ∙ found,
      target,
      record {
        detected = member;
        not_current = not_current;
        before =
            before_lem t.is_current (int_leb c.number t.number)
              (All-Memᴰ (λ g. (g.is_current || not (int_leb c.number g.number)) ≡ true) gens newest
                member)
              not_current;
        nearest =
            All-map_lem gens (λ g. nearest_lem g.is_current (int_leb g.number t.number)) highest;
      },
    )
