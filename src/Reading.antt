-- ===== src/Reading.antt =====
-- A check that starts with a required object, or list, as a test on the value.
use sourceos_boot.Base.{Bool, List, ◌≡◌, refl, ◌&&◌}
use sourceos_boot.Json.{Json, Dict, entries_in, items_in, as_dict, as_list, in_dict, in_list}
use sourceos_boot.Result.{Result, ◌>>=◌, ◌>>◌, or_raise, yields, yields-then}

module _ {E B : Type 0} where
  pub yields-as_dict :
      (v : Json) (e : E) (f : Dict → Result E B) (p : Dict → Bool)
      → ((d : Dict) → yields (f d) ≡ p d)
      → yields (or_raise (as_dict v) e >>= f) ≡ in_dict p v
  yields-as_dict (Json.obj ps) e f p h = h (entries_in ps)
  yields-as_dict Json.null e f p h = refl
  yields-as_dict (Json.bool b) e f p h = refl
  yields-as_dict (Json.int n) e f p h = refl
  yields-as_dict (Json.float m k) e f p h = refl
  yields-as_dict (Json.str s) e f p h = refl
  yields-as_dict (Json.arr vs) e f p h = refl

  pub yields-as_list :
      (v : Json) (e : E) (f : List Json → Result E B) (p : List Json → Bool)
      → ((vs : List Json) → yields (f vs) ≡ p vs)
      → yields (or_raise (as_list v) e >>= f) ≡ in_list p v
  yields-as_list (Json.arr vs) e f p h = h (items_in vs)
  yields-as_list Json.null e f p h = refl
  yields-as_list (Json.bool b) e f p h = refl
  yields-as_list (Json.int n) e f p h = refl
  yields-as_list (Json.float m k) e f p h = refl
  yields-as_list (Json.str s) e f p h = refl
  yields-as_list (Json.obj ps) e f p h = refl

-- A chain that reads an object, checks it and goes on.
pub yields-part :
    {E : Type 0} (v : Json) (e : E) (check : Dict → Result E (Unit {0}))
    (rest : Result E (Unit {0})) (p : Dict → Bool) {c : Bool}
    → ((d : Dict) → yields (check d) ≡ p d)
    → yields rest ≡ c
    → yields (or_raise (as_dict v) e >>= λ d. check d >> rest) ≡ (in_dict p v && c)
yields-part (Json.obj ps) e check rest p h g =
    yields-then (check (entries_in ps)) rest (h (entries_in ps)) g
yields-part Json.null e check rest p h g = refl
yields-part (Json.bool b) e check rest p h g = refl
yields-part (Json.int n) e check rest p h g = refl
yields-part (Json.float m k) e check rest p h g = refl
yields-part (Json.str s) e check rest p h g = refl
yields-part (Json.arr vs) e check rest p h g = refl
