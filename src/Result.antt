-- ===== src/Result.antt =====
-- Python's exceptions as values: what a function that may raise returns, and how a chain of such
-- calls is taken apart.
use sourceos_boot.Base.{
  ◌&&◌, Bool, true, false, Option, none, some, List, [], ◌∷◌, ◌≡◌, refl, All, ◌⊎◌, inl, inr,
}

pub data Result {ℓ} (E A : Type ℓ) : Type ℓ where
  ok : A → Result E A
  err : E → Result E A

module _ {E : Type 0} where
  -- The call does not raise.
  abbrev pub yields : {A : Type 0} → Result E A → Bool
  yields (err e) = false
  yields (ok a) = true

  infixl 5 ◌>>◌
  infixl 5 ◌>>=◌
  -- a call, and what is done with its value
  abbrev pub ◌>>=◌ : {A : Type 0} → {B : Type 0} → Result E A → (A → Result E B) → Result E B
  err raised >>= rest = err raised
  ok value >>= rest = rest value

  abbrev pub ◌>>◌ : {A : Type 0} → {B : Type 0} → Result E A → Result E B → Result E B
  call >> rest = call >>= λ value. rest

  -- `if not b: raise e`
  abbrev pub guard : Bool → E → Result E (Unit {0})
  guard true e = ok tt
  guard false e = err e

  -- the value of an optional one, or a raise
  abbrev pub or_raise : {A : Type 0} → Option A → E → Result E A
  or_raise (some a) e = ok a
  or_raise none e = err e

  -- `for x in xs: f(x)`
  abbrev pub for_each : {A : Type 0} → (A → Result E (Unit {0})) → List A → Result E (Unit {0})
  for_each f [] = ok tt
  for_each f (x ∷ xs) = f x >>= λ _. for_each f xs

  -- To split on a computed result and keep the equation.
  pub Result-cases :
      {A : Type 0} (m : Result E A) → ((a : A) × (m ≡ ok a)) ⊎ ((e : E) × (m ≡ err e))
  Result-cases (ok a) = inl (a, refl)
  Result-cases (err e) = inr (e, refl)

  pub ok-injective : {A : Type 0} {a b : A} → ◌≡◌ {A = Result E A} (ok a) (ok b) → a ≡ b
  ok-injective h = cc

  -- A chain that ends well has a head that gives a value, from which the rest ends well.
  pub bind-ok :
      {A : Type 0} {B : Type 0} {y : B} (call : Result E A) (rest : A → Result E B)
      → (call >>= rest) ≡ ok y
      → (x : A) × (call ≡ ok x) × (rest x ≡ ok y)
  bind-ok (err raised) rest h = cc
  bind-ok (ok value) rest h = (value, refl, h)

  -- A call that yields just if b, and then a chain that yields just if c.
  pub yields-bind :
      {A B : Type 0} (m : Result E A) (f : A → Result E B) {b c : Bool}
      → yields m ≡ b
      → ((a : A) → yields (f a) ≡ c)
      → yields (m >>= f) ≡ (b && c)
  yields-bind (ok a) f h g = rw (← h) (g a)
  yields-bind (err e) f h g = rw (← h) refl

  pub yields-guard : (t : Bool) (e : E) → yields (guard t e) ≡ t
  yields-guard true e = refl
  yields-guard false e = refl

  pub yields-then :
      {A B : Type 0} (m : Result E A) (n : Result E B) {b c : Bool}
      → yields m ≡ b
      → yields n ≡ c
      → yields (m >> n) ≡ (b && c)
  yields-then m n h g = yields-bind m (λ _. n) h (λ _. g)

  pub guard-ok :
      {B : Type 0} (t : Bool) (e : E) (f : Unit {0} → Result E B) {b : B}
      → guard t e >>= f ≡ ok b
      → (t ≡ true) × (f tt ≡ ok b)
  guard-ok true e f h = (refl, h)
  guard-ok false e f h = cc

  pub or_raise-ok : {A : Type 0} (o : Option A) (e : E) {a : A} → or_raise o e ≡ ok a → o ≡ some a
  or_raise-ok none e h = cc
  or_raise-ok (some x) e h = cc

  -- The loop ends without a raise just if each of its calls does.
  pub for_each-All :
      {A : Type 0} (f : A → Result E (Unit {0})) (xs : List A)
      → for_each f xs ≡ ok tt
      → All (λ x. f x ≡ ok tt) xs
  for_each-All f [] h = tt
  for_each-All f (x ∷ xs) h =
      let (u, here, later) = bind-ok (f x) (λ _. for_each f xs) h in (here, for_each-All f xs later)

  pub All-for_each :
      {A : Type 0} (f : A → Result E (Unit {0})) (xs : List A)
      → All (λ x. f x ≡ ok tt) xs
      → for_each f xs ≡ ok tt
  All-for_each f [] h = refl
  All-for_each f (x ∷ xs) h = rw h.0 (All-for_each f xs h.1)
