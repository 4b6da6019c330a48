-- ===== src/Json/Equality.antt =====
-- Python's `==` on decoded values: a number equals every number of its value, `True` is 1 and
-- `False` is 0, and two dicts are equal if they have the same items, in whichever order.
use sourceos_boot.Base.{
  ℕ, zero, suc, ◌*◌, ◌-◌, ◌==◌, Bool, true, false, ◌&&◌, ◌||◌, Option, none, some, List, [], ◌∷◌,
  length, ℤ, pos, negsuc,
}
use sourceos_boot.Json.{Json, JsonArray, JsonObject, Dict, entries_in, lookup, is_null, is_text}

abbrev power_of_two : ℕ → ℕ
power_of_two zero = 1
power_of_two (suc k) = 2 * power_of_two k

abbrev scaled : ℤ → ℕ → ℤ
scaled (pos n) p = pos (n * p)
scaled (negsuc n) p = negsuc (suc n * p - 1)

abbrev same_integer : ℤ → ℤ → Bool
same_integer (pos m) (pos n) = m == n
same_integer (negsuc m) (negsuc n) = m == n
same_integer _ _ = false

-- a number as `m / 2 ^ k`
abbrev number_of : Json → Option (ℤ × ℕ)
number_of (Json.bool true) = some (pos 1, 0)
number_of (Json.bool false) = some (pos 0, 0)
number_of (Json.int n) = some (n, 0)
number_of (Json.float m k) = some (m, k)
number_of _ = none

abbrev same_number : Option (ℤ × ℕ) → Option (ℤ × ℕ) → Bool
same_number (some (m, k)) (some (n, l)) =
    same_integer (scaled m (power_of_two l)) (scaled n (power_of_two k))
same_number _ _ = false

unfoldable mutual
  -- `v == w`
  pub json_eq : Json → Json → Bool
  json_eq Json.null w = is_null w
  json_eq (Json.bool b) w = same_number (number_of (Json.bool b)) (number_of w)
  json_eq (Json.int n) w = same_number (some (n, 0)) (number_of w)
  json_eq (Json.float m k) w = same_number (some (m, k)) (number_of w)
  json_eq (Json.str s) w = is_text s w
  json_eq (Json.arr vs) (Json.arr ws) = elems_eq vs ws
  json_eq (Json.arr vs) _ = false
  json_eq (Json.obj ps) (Json.obj qs) =
      length (entries_in ps) == length (entries_in qs) && props_in ps (entries_in qs)
  json_eq (Json.obj ps) _ = false

  pub elems_eq : JsonArray → JsonArray → Bool
  elems_eq JsonArray.no_items JsonArray.no_items = true
  elems_eq (JsonArray.item_and v vs) (JsonArray.item_and w ws) = json_eq v w && elems_eq vs ws
  elems_eq _ _ = false

  pub props_in : JsonObject → Dict → Bool
  props_in JsonObject.no_entries qs = true
  props_in (JsonObject.entry_and k v ps) qs =
      elim (lookup k qs) [ none ↦ false | some w ↦ json_eq v w ] && props_in ps qs

-- `v in [w, ...]`
unfoldable pub json_in : Json → List Json → Bool
json_in v [] = false
json_in v (w ∷ ws) = json_eq v w || json_in v ws
