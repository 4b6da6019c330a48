-- ===== src/Rollback/Sort.antt =====
-- Python's `sorted`, as a stable insertion sort, and `xs[-1]`.
use sourceos_boot.Base.{
  Bool, Bool-cases, inl, inr, true, false, Option, none, some, some-injective, List, [], ◌∷◌, ◌≡◌,
  subst, sym, arith, if◌then◌else◌, select, All, All-select, ℤ, int_leb,
}

module _ {ℓ} {A : Type ℓ} where
  abbrev insert : (A → A → Bool) → A → List A → List A
  insert le x [] = x ∷ []
  insert le x (y ∷ ys) = let rest = insert le x ys in if le x y then x ∷ y ∷ ys else y ∷ rest

  -- `sorted(xs)` by the order `le`
  unfoldable pub sort : (A → A → Bool) → List A → List A
  sort le [] = []
  sort le (x ∷ xs) = insert le x (sort le xs)

  -- `xs[-1] if xs else None`
  abbrev pub last : List A → Option A
  last [] = none
  last (x ∷ []) = some x
  last (x ∷ y ∷ ys) = last (y ∷ ys)

-- Each element comes before all that follow it.
abbrev pub Sorted {ℓ} : {A : Type ℓ} → (A → A → Bool) → List A → Type 0
Sorted le [] = Unit
Sorted le (x ∷ xs) = All (λ y. le x y ≡ true) xs × Sorted le xs

pub All-map_lem {ℓ κ} :
    {A : Type ℓ} {P Q : A → Type κ} (xs : List A) → ((x : A) → P x → Q x) → All P xs → All Q xs
All-map_lem [] f h = tt
All-map_lem (x ∷ xs) f h = (f x h.0, All-map_lem xs f h.1)

module _ {A : Type 0} (le : A → A → Bool) where
  All-insert : (P : A → Type 0) (x : A) (xs : List A) → P x → All P xs → All P (insert le x xs)
  All-insert P x [] p h = (p, tt)
  All-insert P x (y ∷ ys) p h = elim (Bool-cases (le x y)) [
    | inl e ↦ rw e (p, h)
    | inr e ↦ rw e (h.0, All-insert P x ys p h.1)
  ]

  -- What holds of every element holds of the sorted ones.
  pub All-sort : (P : A → Type 0) (xs : List A) → All P xs → All P (sort le xs)
  unfolding sort
  All-sort P [] h = tt
  All-sort P (x ∷ xs) h = All-insert P x (sort le xs) h.0 (All-sort P xs h.1)

  module _ (total : (a b : A) → le a b ≡ false → le b a ≡ true)
      (trans : (a b c : A) → le a b ≡ true → le b c ≡ true → le a c ≡ true) where
    insert-Sorted : (x : A) (xs : List A) → Sorted le xs → Sorted le (insert le x xs)
    insert-Sorted x [] h = (tt, tt)
    insert-Sorted x (y ∷ ys) h = elim (Bool-cases (le x y)) [
      | inl e ↦ rw e ((e, All-map_lem ys (λ z k. trans x y z e k) h.0), h)
      | inr e ↦
          rw e (All-insert (λ z. le y z ≡ true) x ys (total x y e) h.0, insert-Sorted x ys h.1)
    ]

    pub sort-Sorted : (xs : List A) → Sorted le (sort le xs)
    unfolding sort
    sort-Sorted [] = tt
    sort-Sorted (x ∷ xs) = insert-Sorted x (sort le xs) (sort-Sorted xs)

  select-Sorted : (p : A → Bool) (xs : List A) → Sorted le xs → Sorted le (select p xs)
  select-Sorted p [] h = tt
  select-Sorted p (x ∷ xs) h = elim (Bool-cases (p x)) [
    | inl e ↦ rw e (
      All-map_lem (select p xs) (λ y k. k.0) (All-select (λ y. le x y ≡ true) p xs h.0),
      select-Sorted p xs h.1,
    )
    | inr e ↦ rw e (select-Sorted p xs h.1)
  ]

  pub last-All : (P : A → Type 0) (xs : List A) {t : A} → last xs ≡ some t → All P xs → P t
  last-All P [] e h = cc
  last-All P (x ∷ []) {t} e h = subst P (some-injective x t e) h.0
  last-All P (x ∷ y ∷ ys) e h = last-All P (y ∷ ys) e h.1

  module _ (same : (a : A) → le a a ≡ true) where
    last-highest :
        (xs : List A) {t : A} → Sorted le xs → last xs ≡ some t → All (λ x. le x t ≡ true) xs
    last-highest [] h e = tt
    last-highest (x ∷ []) {t} h e = (rw (sym (some-injective x t e)) (same x), tt)
    last-highest (x ∷ y ∷ ys) h e =
        (last-All (λ z. le x z ≡ true) (y ∷ ys) e h.0, last-highest (y ∷ ys) h.1 e)

    All-unselect :
        (P : A → Type 0) (p : A → Bool) (xs : List A)
        → All P (select p xs)
        → All (λ x. p x ≡ true → P x) xs
    All-unselect P p [] h = tt
    All-unselect P p (x ∷ xs) h = elim (Bool-cases (p x)) [
      | inl e ↦ let k = rw e at h in (λ c. k.0, All-unselect P p xs k.1)
      | inr e ↦ (λ c. cc, All-unselect P p xs (rw e at h))
    ]

    -- No selected element of a sorted list comes after the last of them.
    pub select-highest :
        (p : A → Bool) (xs : List A) {t : A}
        → Sorted le xs
        → last (select p xs) ≡ some t
        → All (λ x. p x ≡ true → le x t ≡ true) xs
    select-highest p xs {t} h e =
        All-unselect (λ x. le x t ≡ true) p xs (last-highest (select p xs) (select-Sorted p xs h) e)

pub int_leb_refl : (a : ℤ) → int_leb a a ≡ true
int_leb_refl a = ground arith

pub int_leb_total : (a b : ℤ) → int_leb a b ≡ false → int_leb b a ≡ true
int_leb_total a b h = ground arith

pub int_leb_trans : (a b c : ℤ) → int_leb a b ≡ true → int_leb b c ≡ true → int_leb a c ≡ true
int_leb_trans a b c h k = ground arith
