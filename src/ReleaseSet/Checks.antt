-- ===== src/ReleaseSet/Checks.antt =====
-- When the checks that `validate_document` is made of pass, as tests on the value.
use sourceos_boot.Base.{
  String, Bool, true, false, not, ◌&&◌, ◌||◌, ◌≡◌, refl, ◌∙◌, arith, none, some, List, [], ◌∷◌,
  is_empty,
}
use sourceos_boot.Json.{
  Json, JsonArray, Dict, get, lookup, has_key, as_text, items_in, is_text, is_hashable, in_texts,
  in_list,
}
use sourceos_boot.Result.{ok, err, ◌>>=◌, ◌>>◌, guard, yields, yields-guard, yields-then}
use sourceos_boot.ReleaseSet.Validator.{
  DocumentError, refused, crashed, Verdict, every, are_distinct, require_member, require_list,
  require_enum_list, require_match,
}

-- a list of different names, each of the allowed ones, and at least one
unfoldable pub are_choices : List String → Json → Bool
are_choices allowed v =
    in_list (λ vs. not (is_empty vs) && (are_distinct vs && every (λ x. in_texts x allowed) vs)) v

-- The text under the key, the empty one if there is none, passes the test.
unfoldable pub is_matched : (String → Bool) → Dict → String → Bool
is_matched test d key = elim (lookup key d) [
  | none ↦ test ""
  | some v ↦ elim (as_text v) [ none ↦ false | some s ↦ test s ]
]

abbrev pub is_absent_or : (Json → Bool) → Dict → String → Bool
is_absent_or test d key = not (has_key d key) || test (get d key)

unhashable_text : (t : String) (v : Json) → is_text t v ≡ true → is_hashable v ≡ true
unhashable_text t (Json.str s) h = refl
unhashable_text t Json.null h = refl
unhashable_text t (Json.bool b) h = refl
unhashable_text t (Json.int n) h = refl
unhashable_text t (Json.float m k) h = refl
unhashable_text t (Json.arr vs) h = cc
unhashable_text t (Json.obj ps) h = cc

in_texts-hashable : (v : Json) (ts : List String) → in_texts v ts ≡ true → is_hashable v ≡ true
in_texts-hashable v [] h = cc
in_texts-hashable v (t ∷ ts) h = ground (arith, unhashable_text t v, in_texts-hashable v ts)

hashable_and : (v : Json) (ts : List String) → (is_hashable v && in_texts v ts) ≡ in_texts v ts
hashable_and v ts = ground (arith, in_texts-hashable v ts)

every_hashable :
    (ts : List String) (vs : List Json)
    → (every is_hashable vs && every (λ x. in_texts x ts) vs) ≡ every (λ x. in_texts x ts) vs
every_hashable ts [] = refl
every_hashable ts (v ∷ vs) = ground (arith, hashable_and v ts, every_hashable ts vs)

pub yields-require_member :
    (v : Json) (ts : List String) (e : DocumentError)
    → yields (require_member v ts e) ≡ in_texts v ts
unfolding require_member
yields-require_member v ts e =
    yields-then (guard (is_hashable v) crashed) (guard (in_texts v ts) e)
      (yields-guard (is_hashable v) crashed) (yields-guard (in_texts v ts) e)
    ∙ hashable_and v ts

-- The value is a list that is not empty and passes the test.
abbrev pub is_list : (List Json → Bool) → Json → Bool
is_list p v = in_list (λ vs. not (is_empty vs) && p vs) v

-- A chain that reads a list, checks it and goes on.
pub yields-list :
    (v : Json) (e : DocumentError) (check : List Json → Verdict) (rest : Verdict)
    (p : List Json → Bool) {c : Bool}
    → ((vs : List Json) → yields (check vs) ≡ p vs)
    → yields rest ≡ c
    → yields (require_list v e >>= λ vs. check vs >> rest) ≡ (is_list p v && c)
yields-list (Json.arr JsonArray.no_items) e check rest p h g = refl
yields-list (Json.arr (JsonArray.item_and v vs)) e check rest p h g =
    yields-then (check (v ∷ items_in vs)) rest (h (v ∷ items_in vs)) g
yields-list Json.null e check rest p h g = refl
yields-list (Json.bool b) e check rest p h g = refl
yields-list (Json.int n) e check rest p h g = refl
yields-list (Json.float m k) e check rest p h g = refl
yields-list (Json.str s) e check rest p h g = refl
yields-list (Json.obj ps) e check rest p h g = refl

without_first : (a b c : Bool) → (a && c) ≡ c → (a && (b && c)) ≡ (b && c)
without_first a b c h = ground arith

-- the checks of the elements of such a list
choices_check : List String → String → List Json → Verdict
choices_check allowed field values = do
  guard (every is_hashable values) crashed
  guard (are_distinct values) (refused field)
  guard (every (λ x. in_texts x allowed) values) (refused field)

yields-choices :
    (ts : List String) (field : String) (vs : List Json)
    → yields (choices_check ts field vs) ≡ (are_distinct vs && every (λ x. in_texts x ts) vs)
unfolding choices_check
yields-choices ts field vs =
    yields-then (guard (every is_hashable vs) crashed) _
      (yields-guard (every is_hashable vs) crashed)
      (yields-then (guard (are_distinct vs) (refused field))
        (guard (every (λ x. in_texts x ts) vs) (refused field))
        (yields-guard (are_distinct vs) (refused field))
        (yields-guard (every (λ x. in_texts x ts) vs) (refused field)))
    ∙ without_first (every is_hashable vs) (are_distinct vs) (every (λ x. in_texts x ts) vs)
        (every_hashable ts vs)

and_true_right : (a : Bool) → (a && true) ≡ a
and_true_right a = ground arith

last_ok : (m : Verdict) → m >> ok tt ≡ m
last_ok (ok tt) = refl
last_ok (err e) = refl

pub yields-require_enum_list :
    (v : Json) (ts : List String) (field : String)
    → yields (require_enum_list v ts field) ≡ are_choices ts v
unfolding require_enum_list are_choices choices_check
yields-require_enum_list (Json.arr JsonArray.no_items) ts field = refl
yields-require_enum_list (Json.arr (JsonArray.item_and v vs)) ts field =
    yields-choices ts field (v ∷ items_in vs)
yields-require_enum_list Json.null ts field = refl
yields-require_enum_list (Json.bool b) ts field = refl
yields-require_enum_list (Json.int n) ts field = refl
yields-require_enum_list (Json.float m k) ts field = refl
yields-require_enum_list (Json.str s) ts field = refl
yields-require_enum_list (Json.obj ps) ts field = refl

pub yields-require_match :
    (test : String → Bool) (d : Dict) (key : String) (e : DocumentError)
    → yields (require_match test d key e) ≡ is_matched test d key
unfolding require_match is_matched
yields-require_match test d key e = ground arith
