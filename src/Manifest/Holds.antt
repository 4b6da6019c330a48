-- ===== src/Manifest/Holds.antt =====
-- When the ratchet holds.
use sourceos_boot.Base.{
  ℕ, String, Bool, true, false, not, ◌&&◌, ◌||◌, ◌≡◌, ◌≢◌, refl, sym, ap, ◌∙◌, ◌↔◌, arith, Option,
  none, some, List, [], ◌∷◌, ◌++◌, map, select, is_empty, if◌then◌else◌, All, and_true,
}
use sourceos_boot.Json.{Json, Dict, as_dict}
use sourceos_boot.Result.{ok, ok-injective}
use sourceos_boot.Manifest.Ratchet.{
  known_unimplemented, is_known, checked_keys, is_excluded, is_part_of, parts_of, source_blob,
  declarations, no_longer_declared, now_implemented, tally, is_declared, stale, paid, problems,
  main,
}

-- Every declaration is in the source or known to be unimplemented, and everything that is known to
-- be unimplemented is declared and not in the source.
pub record IsRatcheted (blob : String) (ds : List (String × String)) : Type 0 where
  pub covered : All (λ d. (is_part_of d.1 blob || is_known d.1) ≡ true) ds
  pub declared : All (λ k. is_declared ds k ≡ true) known_unimplemented
  pub unpaid : All (λ k. is_part_of k blob ≡ false) known_unimplemented

-- `all(p(x) for x in xs)`
abbrev every : {A : Type 0} → (A → Bool) → List A → Bool
every p [] = true
every p (x ∷ xs) = p x && every p xs

every-All :
    {A : Type 0} (p : A → Bool) (xs : List A) → (every p xs ≡ true) ↔ All (λ x. p x ≡ true) xs
every-All p [] = (λ h. tt, λ h. refl)
every-All p (x ∷ xs) = (
  λ h. let (a, b) = and_true (p x) (every p xs) h in (a, (every-All p xs).0 b),
  λ h. rw (h.0, (every-All p xs).1 h.1) refl,
)

tally-every :
    (blob : String) (ds : List (String × String))
    → is_empty (tally blob ds).missing ≡ every (λ d. is_part_of d.1 blob || is_known d.1) ds
unfolding tally
tally-every blob [] = refl
tally-every blob (d ∷ ds) = ground (arith, tally-every blob ds)

empty_append : {A : Type 0} (xs ys : List A) → is_empty (xs ++ ys) ≡ (is_empty xs && is_empty ys)
empty_append [] ys = refl
empty_append (x ∷ xs) ys = refl

empty_map : {A B : Type 0} (f : A → B) (xs : List A) → is_empty (map f xs) ≡ is_empty xs
empty_map f [] = refl
empty_map f (x ∷ xs) = refl

empty_select :
    {A : Type 0} (p : A → Bool) (xs : List A) → is_empty (select p xs) ≡ every (λ x. not (p x)) xs
empty_select p [] = refl
empty_select p (x ∷ xs) = ground (arith, empty_select p xs)

all_not :
    {A : Type 0} (p : A → Bool) (xs : List A)
    → (every (λ x. not (p x)) xs ≡ true) ↔ All (λ x. p x ≡ false) xs
all_not p [] = (λ h. tt, λ h. refl)
all_not p (x ∷ xs) = (
  λ h.
      let (a, b) = and_true (not (p x)) (every (λ x. not (p x)) xs) h in
      (ground arith, (all_not p xs).0 b),
  λ h. rw (h.0, (all_not p xs).1 h.1) refl,
)

every-not-not :
    {A : Type 0} (p : A → Bool) (xs : List A) → every (λ x. not (not (p x))) xs ≡ every p xs
every-not-not p [] = refl
every-not-not p (x ∷ xs) = ground (arith, every-not-not p xs)

stale-every :
    (ds : List (String × String)) → is_empty (stale ds) ≡ every (is_declared ds) known_unimplemented
unfolding stale
stale-every ds =
    empty_map no_longer_declared (select (λ k. not (is_declared ds k)) known_unimplemented)
    ∙ empty_select (λ k. not (is_declared ds k)) known_unimplemented
    ∙ every-not-not (is_declared ds) known_unimplemented

paid-every :
    (blob : String)
    → is_empty (paid blob) ≡ every (λ k. not (is_part_of k blob)) known_unimplemented
unfolding paid
paid-every blob =
    empty_map now_implemented (select (λ k. is_part_of k blob) known_unimplemented)
    ∙ empty_select (λ k. is_part_of k blob) known_unimplemented

problems-empty :
    (blob : String) (ds : List (String × String))
    → is_empty (problems blob ds)
      ≡ (is_empty (tally blob ds).missing && (is_empty (stale ds) && is_empty (paid blob)))
unfolding problems
problems-empty blob ds =
    empty_append (tally blob ds).missing (stale ds ++ paid blob)
    ∙ ap (λ b. is_empty (tally blob ds).missing && b) (empty_append (stale ds) (paid blob))

three : (a b c : Bool) → (a && (b && c)) ≡ true → (a ≡ true) × (b ≡ true) × (c ≡ true)
three a b c h = (ground arith, ground arith, ground arith)

problems-IsRatcheted :
    (blob : String) (ds : List (String × String))
    → (is_empty (problems blob ds) ≡ true) ↔ IsRatcheted blob ds
problems-IsRatcheted blob ds = (
  λ h.
      let (a, b, c) =
        three (is_empty (tally blob ds).missing) (is_empty (stale ds)) (is_empty (paid blob))
          (sym (problems-empty blob ds) ∙ h) in
      record {
        covered =
            (every-All (λ d. is_part_of d.1 blob || is_known d.1) ds).0
              (sym (tally-every blob ds) ∙ a);
        declared = (every-All (is_declared ds) known_unimplemented).0 (sym (stale-every ds) ∙ b);
        unpaid =
            (all_not (λ k. is_part_of k blob) known_unimplemented).0 (sym (paid-every blob) ∙ c);
      },
  λ r.
      problems-empty blob ds
      ∙ rw
          (
            tally-every blob ds
                ∙ (every-All (λ d. is_part_of d.1 blob || is_known d.1) ds).1 r.covered,
            stale-every ds ∙ (every-All (is_declared ds) known_unimplemented).1 r.declared,
            paid-every blob ∙ (all_not (λ k. is_part_of k blob) known_unimplemented).1 r.unpaid,
          )
          refl,
)

code-zero : (b : Bool) → (◌≡◌ {A = ℕ} (if b then 0 else 1) 0) ↔ (b ≡ true)
code-zero b = (λ h. ground arith, λ h. ground arith)

module _ (read : String → Option String) (paths : List String) (v : Json) where
  -- For a manifest that is an object whose checked keys hold texts, the check exits with 0 just if
  -- every declaration is in the source or known to be unimplemented, and everything that is known
  -- to be unimplemented is declared and not in the source.
  pub main-IsRatcheted :
      (d : Dict) (ds : List (String × String))
      → as_dict v ≡ some d
      → declarations d checked_keys ≡ ok ds
      → (main read paths (some v) ≡ ok 0) ↔ IsRatcheted (source_blob read paths) ds
  unfolding main
  main-IsRatcheted d ds e₁ e₂ =
      let blob = source_blob read paths in
      let b = is_empty (problems blob ds) in
      rw (e₁, e₂)
        (
          λ h. (problems-IsRatcheted blob ds).0 ((code-zero b).0 (ok-injective h)),
          λ r. ap ok ((code-zero b).1 ((problems-IsRatcheted blob ds).1 r)),
        )

-- Two readers give the same text of every file but the manifest and the check.
abbrev pub Agree : (String → Option String) → (String → Option String) → Type 0
Agree read₁ read₂ =
    (path : String)
    → path ≢ ".sourceos/manifest.json"
    → path ≢ "tools/validate_manifest_declarations.py"
    → read₁ path ≡ read₂ path

not_excluded :
    (path : String)
    → is_excluded path ≡ false
    → (path ≢ ".sourceos/manifest.json") × (path ≢ "tools/validate_manifest_declarations.py")
unfolding is_excluded
not_excluded path h = (λ e. cc (rw e at h), λ e. cc (rw e at h))

parts_of-Agree :
    (read₁ read₂ : String → Option String) (ps : List String)
    → Agree read₁ read₂
    → parts_of read₁ ps ≡ parts_of read₂ ps
unfolding parts_of
parts_of-Agree read₁ read₂ [] h = refl
parts_of-Agree read₁ read₂ (p ∷ ps) h =
    go (is_excluded p) (read₁ p) (read₂ p) (λ e. let (a, b) = not_excluded p e in h p a b)
      (parts_of-Agree read₁ read₂ ps h)
  where
    part : Bool → Option String → List String → List String
    part b o rest = elim b [
      | true ↦ rest
      | false ↦ elim o [ none ↦ rest | some text ↦ text ∷ rest ]
    ]

    go :
        (b : Bool) (o₁ o₂ : Option String)
        → (b ≡ false → o₁ ≡ o₂)
        → parts_of read₁ ps ≡ parts_of read₂ ps
        → part b o₁ (parts_of read₁ ps) ≡ part b o₂ (parts_of read₂ ps)
    go true o₁ o₂ k later = later
    go false o₁ o₂ k later =
        ap (part false o₁) later ∙ ap (λ o. part false o (parts_of read₂ ps)) (k refl)

-- The texts of .sourceos/manifest.json and of tools/validate_manifest_declarations.py do not count:
-- two sources that agree on every other file give the same result.
pub main-Agree :
    (read₁ read₂ : String → Option String) (paths : List String) (v : Option Json)
    → Agree read₁ read₂
    → main read₁ paths v ≡ main read₂ paths v
unfolding main source_blob
main-Agree read₁ read₂ paths none h = refl
main-Agree read₁ read₂ paths (some v) h = rw (parts_of-Agree read₁ read₂ paths h) refl
