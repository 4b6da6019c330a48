-- ===== src/TrustChain/Conforms.antt =====
-- When a value fits a schema, as a relation, and that `validate_schema` decides it.
use sourceos_boot.Base.{
  ℕ, suc, String, Bool, true, not, ◌||◌, ◌≡◌, refl, sym, ap, ◌∙◌, ◌↔◌, arith, subst, Option, none,
  some, List, [], ◌∷◌, All,
}
use sourceos_boot.Json.{
  Json, JsonArray, JsonObject, Dict, entries_in, items_in, as_dict, as_list, has_key,
}
use sourceos_boot.Result.{ok, ◌>>◌, guard, for_each, bind-ok, for_each-All, All-for_each}
use sourceos_boot.TrustChain.Schema.{
  Schema, const_of, enum_of, types_of, required_of, properties_of, additional_of, items_of,
  child_schema, closes, all_named, Step, key, index, Verdict, EvidenceError, const_matches,
  enum_matches, types_match, own_checks, key_checks, missing_property, validate_schema,
  validate_props, validate_elems,
}
use mathlib.Core.List.{Memᴰ}

-- The value meets the keywords that speak of it as a whole.
pub record MeetsOwn (s : Schema) (v : Json) : Type 0 where
  pub meets_const : const_matches (const_of s) v ≡ true
  pub meets_enum : enum_matches (enum_of s) v ≡ true
  pub meets_types : types_match (types_of s) v ≡ true

-- An object has the required keys, and no others than the named ones if the schema closes it.
pub record HasKeys (s : Schema) (d : Dict) : Type 0 where
  pub has_required : All (λ k. has_key d k ≡ true) (required_of s)
  pub has_no_other : (not (closes (additional_of s)) || all_named (properties_of s) d) ≡ true

-- The value fits the schema, and so does each part of it the schema that speaks of the part.
pub data Conforms : Schema → Json → Type 0 where
  conforms :
      {s : Schema} {v : Json}
      → MeetsOwn s v
      → ((d : Dict) → as_dict v ≡ some d → HasKeys s d)
      → ((d : Dict) (k : String) (x : Json) (t : Schema)
          → as_dict v ≡ some d
          → Memᴰ (k, x) d
          → child_schema s k ≡ some t
          → Conforms t x)
      → ((vs : List Json) (x : Json) (t : Schema)
          → as_list v ≡ some vs
          → Memᴰ x vs
          → items_of s ≡ some t
          → Conforms t x)
      → Conforms s v

held : {A : Type 0} {a b : A} → some a ≡ some b → a ≡ b
held e = cc

own_checks-MeetsOwn :
    (s : Schema) (v : Json) (path : List Step) → own_checks s v path ≡ ok tt → MeetsOwn s v
unfolding own_checks
own_checks-MeetsOwn s v path h = record {
  meets_const = ground arith;
  meets_enum = ground arith;
  meets_types = ground arith;
}

MeetsOwn-own_checks :
    (s : Schema) (v : Json) (path : List Step) → MeetsOwn s v → own_checks s v path ≡ ok tt
unfolding own_checks
MeetsOwn-own_checks s v path m = rw (m.meets_const, m.meets_enum, m.meets_types) refl

guard-true : (b : Bool) (e : EvidenceError) → guard b e ≡ ok tt → b ≡ true
guard-true b e h = ground arith

true-guard : (b : Bool) (e : EvidenceError) → b ≡ true → guard b e ≡ ok tt
true-guard b e h = rw h refl

All_weaken :
    {P Q : String → Type 0} (xs : List String) → ((x : String) → P x → Q x) → All P xs → All Q xs
All_weaken [] f h = tt
All_weaken (x ∷ xs) f h = (f x h.0, All_weaken xs f h.1)

key_checks-HasKeys :
    (s : Schema) (d : Dict) (path : List Step) → key_checks s d path ≡ ok tt → HasKeys s d
unfolding key_checks
key_checks-HasKeys s d path h =
    let check = λ (k : String). guard (has_key d k) (missing_property path k) in
    let (u, each_key, h₁) = bind-ok (for_each check (required_of s)) _ h in
    record {
      has_required =
          All_weaken (required_of s) (λ k. guard-true (has_key d k) (missing_property path k))
            (for_each-All check (required_of s) each_key);
      has_no_other =
          guard-true (not (closes (additional_of s)) || all_named (properties_of s) d) _ h₁;
    }

HasKeys-key_checks :
    (s : Schema) (d : Dict) (path : List Step) → HasKeys s d → key_checks s d path ≡ ok tt
unfolding key_checks
HasKeys-key_checks s d path m =
    let check = λ (k : String). guard (has_key d k) (missing_property path k) in
    rw
      (
        All-for_each check (required_of s) (
            All_weaken (required_of s) (λ k. true-guard (has_key d k) (missing_property path k))
              m.has_required),
        m.has_no_other,
      )
      refl

abbrev child_verdict : Option Schema → Json → List Step → Verdict
child_verdict o v path = elim o [ none ↦ ok tt | some t ↦ validate_schema t v path ]

child_meets :
    (o : Option Schema) (t : Schema) (v : Json) (path : List Step)
    → child_verdict o v path ≡ ok tt
    → o ≡ some t
    → validate_schema t v path ≡ ok tt
child_meets o t v path h e = subst (λ x. child_verdict x v path ≡ ok tt) e h

mutual
  unfolding validate_schema

  schema-Conforms :
      (s : Schema) (v : Json) (path : List Step) → validate_schema s v path ≡ ok tt → Conforms s v
  schema-Conforms s (Json.obj ps) path h =
      let (u, own, h₁) = bind-ok (own_checks s (Json.obj ps) path) _ h in
      let (w, keys, h₂) = bind-ok (key_checks s (entries_in ps) path) _ h₁ in
      conforms (own_checks-MeetsOwn s (Json.obj ps) path own)
        (λ d e. subst (HasKeys s) (held e) (key_checks-HasKeys s (entries_in ps) path keys))
        (λ d k x t e m c.
          props-Conforms s ps path h₂ k x t (subst (Memᴰ (k, x)) (sym (held e)) m) c)
        (λ vs x t e m c. cc)
  schema-Conforms s (Json.arr vs) path h =
      let (u, own, h₁) = bind-ok (own_checks s (Json.arr vs) path) _ h in
      conforms (own_checks-MeetsOwn s (Json.arr vs) path own) (λ d e. cc) (λ d k x t e m c. cc)
        (λ ws x t e m c.
          elems-Conforms (items_of s) vs path 0 h₁ x t (subst (Memᴰ x) (sym (held e)) m) c)
  schema-Conforms s v path h =
      conforms (own_checks-MeetsOwn s v path h) (λ d e. cc) (λ d k x t e m c. cc)
        (λ ws x t e m c. cc)

  props-Conforms :
      (s : Schema) (ps : JsonObject) (path : List Step)
      → validate_props s ps path ≡ ok tt
      → (k : String) (x : Json) (t : Schema) → Memᴰ (k, x) (entries_in ps)
      → child_schema s k ≡ some t
      → Conforms t x
  props-Conforms s JsonObject.no_entries path h k x t m c = elim m [ ]
  props-Conforms s (JsonObject.entry_and key₀ v ps) path h k x t (Memᴰ.head e) c =
      let (u, here, later) =
        bind-ok (child_verdict (child_schema s key₀) v (key key₀ ∷ path)) _ h in
      let named = ap (λ (p : String × Json). child_schema s p.0) (sym e) ∙ c in
      subst (Conforms t) (sym (ap (λ (p : String × Json). p.1) e)) (
        schema-Conforms t v (key key₀ ∷ path)
          (child_meets (child_schema s key₀) t v (key key₀ ∷ path) here named))
  props-Conforms s (JsonObject.entry_and key₀ v ps) path h k x t (Memᴰ.tail m) c =
      let (u, here, later) =
        bind-ok (child_verdict (child_schema s key₀) v (key key₀ ∷ path)) _ h in
      props-Conforms s ps path later k x t m c

  elems-Conforms :
      (o : Option Schema) (vs : JsonArray) (path : List Step) (i : ℕ)
      → validate_elems o vs path i ≡ ok tt
      → (x : Json) (t : Schema) → Memᴰ x (items_in vs)
      → o ≡ some t
      → Conforms t x
  elems-Conforms none vs path i h x t m e = cc
  elems-Conforms (some s) JsonArray.no_items path i h x t m e = elim m [ ]
  elems-Conforms (some s) (JsonArray.item_and v vs) path i h x t (Memᴰ.head e₁) e =
      let (u, here, later) = bind-ok (validate_schema s v (index i ∷ path)) _ h in
      subst (λ y. Conforms t y) (sym e₁)
        (subst (λ y. Conforms y v) (held e) (schema-Conforms s v (index i ∷ path) here))
  elems-Conforms (some s) (JsonArray.item_and v vs) path i h x t (Memᴰ.tail m) e =
      let (u, here, later) = bind-ok (validate_schema s v (index i ∷ path)) _ h in
      elems-Conforms (some s) vs path (suc i) later x t m e

then-ok : (m n : Verdict) → m ≡ ok tt → n ≡ ok tt → m >> n ≡ ok tt
then-ok m n e₁ e₂ = rw e₁ e₂

child_passes :
    (o : Option Schema) (v : Json) (path : List Step)
    → ((t : Schema) → o ≡ some t → validate_schema t v path ≡ ok tt)
    → child_verdict o v path ≡ ok tt
child_passes none v path h = refl
child_passes (some t) v path h = h t refl

-- what a value that fits meets itself
pub meets : (s : Schema) (v : Json) → Conforms s v → MeetsOwn s v
meets s v (conforms own keys parts each) = own

mutual
  unfolding validate_schema

  Conforms-schema :
      (s : Schema) (v : Json) (path : List Step) → Conforms s v → validate_schema s v path ≡ ok tt
  Conforms-schema s (Json.obj ps) path (conforms own keys parts each) =
      rw
        (
          MeetsOwn-own_checks s (Json.obj ps) path own,
          HasKeys-key_checks s (entries_in ps) path (keys (entries_in ps) refl),
        )
        (Conforms-props s ps path (λ k x t m c. parts (entries_in ps) k x t refl m c))
  Conforms-schema s (Json.arr vs) path (conforms own keys parts each) =
      rw (MeetsOwn-own_checks s (Json.arr vs) path own)
        (Conforms-elems (items_of s) vs path 0 (λ x t m e. each (items_in vs) x t refl m e))
  Conforms-schema s v path c = MeetsOwn-own_checks s v path (meets s v c)

  Conforms-props :
      (s : Schema) (ps : JsonObject) (path : List Step)
      → ((k : String) (x : Json) (t : Schema)
          → Memᴰ (k, x) (entries_in ps)
          → child_schema s k ≡ some t
          → Conforms t x)
      → validate_props s ps path ≡ ok tt
  Conforms-props s JsonObject.no_entries path h = refl
  Conforms-props s (JsonObject.entry_and k v ps) path h =
      then-ok (child_verdict (child_schema s k) v (key k ∷ path)) (validate_props s ps path)
        (child_passes (child_schema s k) v (key k ∷ path)
          (λ t c. Conforms-schema t v (key k ∷ path) (h k v t (Memᴰ.head refl) c)))
        (Conforms-props s ps path (λ k₁ x t m c. h k₁ x t (Memᴰ.tail m) c))

  Conforms-elems :
      (o : Option Schema) (vs : JsonArray) (path : List Step) (i : ℕ)
      → ((x : Json) (t : Schema) → Memᴰ x (items_in vs) → o ≡ some t → Conforms t x)
      → validate_elems o vs path i ≡ ok tt
  Conforms-elems none vs path i h = refl
  Conforms-elems (some s) JsonArray.no_items path i h = refl
  Conforms-elems (some s) (JsonArray.item_and v vs) path i h =
      rw (Conforms-schema s v (index i ∷ path) (h v s (Memᴰ.head refl) refl))
        (Conforms-elems (some s) vs path (suc i) (λ x t m e. h x t (Memᴰ.tail m) e))

-- Under every schema of the modelled keywords, every value and every path, the validator accepts
-- the value just if it conforms: it meets the keywords that speak of it, and each of its parts
-- conforms to the schema that speaks of the part.
pub validate_schema-Conforms :
    (s : Schema) (v : Json) (path : List Step) → (validate_schema s v path ≡ ok tt) ↔ Conforms s v
validate_schema-Conforms s v path = (schema-Conforms s v path, Conforms-schema s v path)
