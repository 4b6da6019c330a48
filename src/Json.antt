-- ===== src/Json.antt =====
-- The values that `json.loads` gives, and what the program asks of them: a finite float is `m / 2 ^ k`,
-- and a dict is the list of its items, no two of which have one key.
pub mod Equality
use sourceos_boot.Base.{
  ℕ, suc, ◌*◌, ◌+◌, String, Bool, true, false, not, ◌&&◌, ◌||◌, ◌==◌, Option, none, some, List, [],
  ◌∷◌, map, str_eq, if◌then◌else◌, leb, ltb, ℤ, pos, negsuc,
}
use Prim.Native.Char.{code}
use Prim.Native.String.{[] as nil_text, ◌∷◌ as ◌∷ᵗ◌, ◌++◌ as ◌++ᵗ◌}

mutual
  pub data JsonObject : Type 0 where
    no_entries : JsonObject
    entry_and : String → Json → JsonObject → JsonObject

  pub data JsonArray : Type 0 where
    no_items : JsonArray
    item_and : Json → JsonArray → JsonArray

  pub data Json : Type 0 where
    str : String → Json
    bool : Bool → Json
    int : ℤ → Json
    float : ℤ → ℕ → Json
    null : Json
    obj : JsonObject → Json
    arr : JsonArray → Json

-- the items of a dict
abbrev pub Dict : Type 0
Dict = List (String × Json)

abbrev pub from_entries : Dict → JsonObject
from_entries [] = JsonObject.no_entries
from_entries ((k, v) ∷ rest) = JsonObject.entry_and k v (from_entries rest)

-- a dict as a value, and back
abbrev pub object : Dict → Json
object rest = Json.obj (from_entries rest)

abbrev pub entries_in : JsonObject → Dict
entries_in JsonObject.no_entries = []
entries_in (JsonObject.entry_and k v rest) = (k, v) ∷ entries_in rest

-- a list as a value, and back
abbrev pub from_items : List Json → JsonArray
from_items [] = JsonArray.no_items
from_items (v ∷ rest) = JsonArray.item_and v (from_items rest)

abbrev pub array : List Json → Json
array vs = Json.arr (from_items vs)

abbrev pub items_in : JsonArray → List Json
items_in JsonArray.no_items = []
items_in (JsonArray.item_and v rest) = v ∷ items_in rest

-- `d[key]`, `none` where there is no such key
abbrev pub lookup : String → Dict → Option Json
lookup key [] = none
lookup key ((k, v) ∷ ps) = if str_eq k key then some v else lookup key ps

-- `value or None`: what `d.get(key)` gives
abbrev pub or_null : Option Json → Json
or_null none = Json.null
or_null (some v) = v

-- `d.get(key)`, kept shut
unfoldable pub get : Dict → String → Json
get d key = or_null (lookup key d)

-- `key in d`
unfoldable pub has_key : Dict → String → Bool
has_key [] key = false
has_key ((k, v) ∷ ps) key = str_eq k key || has_key ps key

-- isinstance, with the value that it lets through
abbrev pub as_text : Json → Option String
as_text (Json.str s) = some s
as_text _ = none

abbrev pub as_dict : Json → Option Dict
as_dict (Json.obj ps) = some (entries_in ps)
as_dict _ = none

abbrev pub as_list : Json → Option (List Json)
as_list (Json.arr vs) = some (items_in vs)
as_list _ = none

abbrev pub is_null : Json → Bool
is_null Json.null = true
is_null _ = false

-- `value is True`, `value is False`
abbrev pub is_true : Json → Bool
is_true (Json.bool b) = b
is_true _ = false

abbrev pub is_false : Json → Bool
is_false (Json.bool b) = not b
is_false _ = false

-- `isinstance(value, bool)`
abbrev pub is_bool : Json → Bool
is_bool (Json.bool b) = true
is_bool _ = false

abbrev is_zero : ℤ → Bool
is_zero (pos n) = n == 0
is_zero (negsuc n) = false

-- `bool(value)`
abbrev pub truthy_json : Json → Bool
truthy_json Json.null = false
truthy_json (Json.bool b) = b
truthy_json (Json.int n) = not (is_zero n)
truthy_json (Json.float m k) = not (is_zero m)
truthy_json (Json.str s) = not (str_eq s "")
truthy_json (Json.arr JsonArray.no_items) = false
truthy_json (Json.arr (JsonArray.item_and v vs)) = true
truthy_json (Json.obj JsonObject.no_entries) = false
truthy_json (Json.obj (JsonObject.entry_and k v ps)) = true

-- `value == text`
abbrev pub is_text : String → Json → Bool
is_text t (Json.str s) = str_eq s t
is_text t _ = false

-- `hash(value)` raises on a list or a dict
abbrev pub is_hashable : Json → Bool
is_hashable (Json.arr vs) = false
is_hashable (Json.obj ps) = false
is_hashable _ = true

abbrev within : ℕ → ℕ → ℕ → Bool
within lo hi c = leb lo c && leb c hi

-- the characters that `strip` takes away
abbrev is_space : ℕ → Bool
is_space c =
    within 9 13 c
    || within 28 32 c
    || c == 133
    || c == 160
    || c == 5760
    || within 8192 8202 c
    || within 8232 8233 c
    || c == 8239
    || c == 8287
    || c == 12288

-- `not text.strip()`
unfoldable pub is_blank : String → Bool
is_blank nil_text = true
is_blank (c ∷ᵗ s) = is_space (code c) && is_blank s

-- `value in {texts}`, for a hashable value
abbrev pub in_texts : Json → List String → Bool
in_texts v [] = false
in_texts v (t ∷ ts) = is_text t v || in_texts v ts

-- The value is an object, or a list, that passes the test.
abbrev pub in_dict : (Dict → Bool) → Json → Bool
in_dict p (Json.obj ps) = p (entries_in ps)
in_dict p _ = false

abbrev pub in_list : (List Json → Bool) → Json → Bool
in_list p (Json.arr vs) = p (items_in vs)
in_list p _ = false

-- `str(value)`; `repr` is what it gives for a value that is no text.
abbrev pub text_of : (Json → String) → Json → String
text_of repr (Json.str s) = s
text_of repr v = repr v

-- a list of texts as a value
abbrev pub texts : List String → Json
texts ts = array (map Json.str ts)

-- `{**d, key: value}`
abbrev pub put : String → Json → Dict → Dict
put key v [] = (key, v) ∷ []
put key v ((k, w) ∷ ps) =
    let rest = put key v ps in if str_eq k key then (k, v) ∷ ps else (k, w) ∷ rest

-- What `json.dumps` with sorted keys and no spaces, and `hashlib.sha256`, give.
pub record Hashing : Type 0 where
  pub dumps : Json → String
  pub sha256_hex : String → String

-- the digest of a value's canonical text
abbrev pub digest_of : Hashing → Json → String
digest_of h v = "sha256:" ++ᵗ h.sha256_hex (h.dumps v)
