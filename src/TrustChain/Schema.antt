-- ===== src/TrustChain/Schema.antt =====
-- The part of JSON Schema that validate_trust_chain_boot_verification.py checks: `validate_schema`.
-- A schema is its keywords that the code reads; the texts of the messages are left out, save for
-- the path and what they name.
use sourceos_boot.Base.{
  ℕ, suc, String, Bool, true, false, not, ◌&&◌, ◌||◌, Option, none, some, List, [], ◌∷◌, any,
  mem_text, str_eq,
}
use sourceos_boot.Json.{Json, JsonArray, JsonObject, Dict, entries_in, has_key}
use sourceos_boot.Json.Equality.{json_eq, json_in}
use sourceos_boot.Result.{Result, ok, ◌>>◌, guard, for_each}

mutual
  pub data Schema : Type 0 where
    -- const, enum, the list of types, required, properties, additionalProperties and items
    keywords :
        Option Json
        → Option (List Json)
        → Option (List String)
        → List String
        → Properties
        → Additional
        → Items
        → Schema

  pub data Properties : Type 0 where
    no_more : Properties
    property : String → Schema → Properties → Properties

  -- additionalProperties: absent or true, false, or a schema
  pub data Additional : Type 0 where
    anything : Additional
    nothing : Additional
    matching : Schema → Additional

  pub data Items : Type 0 where
    any_items : Items
    each : Schema → Items

abbrev pub const_of : Schema → Option Json
const_of (keywords c e t r ps a i) = c

abbrev pub enum_of : Schema → Option (List Json)
enum_of (keywords c e t r ps a i) = e

abbrev pub types_of : Schema → Option (List String)
types_of (keywords c e t r ps a i) = t

abbrev pub required_of : Schema → List String
required_of (keywords c e t r ps a i) = r

abbrev pub properties_of : Schema → Properties
properties_of (keywords c e t r ps a i) = ps

abbrev pub additional_of : Schema → Additional
additional_of (keywords c e t r ps a i) = a

abbrev item_schema : Items → Option Schema
item_schema any_items = none
item_schema (each s) = some s

abbrev pub items_of : Schema → Option Schema
items_of (keywords c e t r ps a i) = item_schema i

-- `properties.get(key)`
abbrev pub named : String → Properties → Option Schema
named key no_more = none
named key (property k s ps) =
    let rest = named key ps in elim (str_eq k key) [ true ↦ some s | false ↦ rest ]

abbrev is_named : Option Schema → Bool
is_named none = false
is_named (some s) = true

-- what `child_schema` is after the fallback to `additional`
abbrev or_additional : Option Schema → Additional → Option Schema
or_additional (some s) a = some s
or_additional none (matching s) = some s
or_additional none _ = none

unfoldable pub child_schema : Schema → String → Option Schema
child_schema s key = or_additional (named key (properties_of s)) (additional_of s)

-- json_type_name
unfoldable pub json_type_name : Json → String
json_type_name Json.null = "null"
json_type_name (Json.bool b) = "boolean"
json_type_name (Json.int n) = "integer"
json_type_name (Json.float m k) = "number"
json_type_name (Json.str s) = "string"
json_type_name (Json.arr vs) = "array"
json_type_name (Json.obj ps) = "object"

-- type_matches
unfoldable pub type_matches : Json → String → Bool
type_matches v expected =
    let actual = json_type_name v in
    elim (str_eq expected "number") [
      | true ↦ mem_text actual ("integer" ∷ "number" ∷ [])
      | false ↦ str_eq actual expected
    ]

-- a path, its last step first
pub data Step : Type 0 where
  key : String → Step
  index : ℕ → Step

-- What the validator raises: `fail` of validate_schema, `fail` of a rule, and the AttributeError of
-- a `.get` on what is no dict.
pub data EvidenceError : Type 0 where
  not_const : List Step → EvidenceError
  not_in_enum : List Step → EvidenceError
  not_of_type : List Step → EvidenceError
  missing_property : List Step → String → EvidenceError
  unexpected_properties : List Step → EvidenceError
  rule : String → EvidenceError
  no_dict : EvidenceError

abbrev pub Verdict : Type 0
Verdict = Result EvidenceError (Unit {0})

-- `"const" not in schema or value == schema["const"]`
abbrev pub const_matches : Option Json → Json → Bool
const_matches none v = true
const_matches (some c) v = json_eq v c

abbrev pub enum_matches : Option (List Json) → Json → Bool
enum_matches none v = true
enum_matches (some vs) v = json_in v vs

abbrev pub types_match : Option (List String) → Json → Bool
types_match none v = true
types_match (some ts) v = any (type_matches v) ts

-- the three checks of the value itself
unfoldable pub own_checks : Schema → Json → List Step → Verdict
own_checks s v path = do
  guard (const_matches (const_of s) v) (not_const path)
  guard (enum_matches (enum_of s) v) (not_in_enum path)
  guard (types_match (types_of s) v) (not_of_type path)

-- `set(value) - set(properties)` is empty
abbrev pub all_named : Properties → Dict → Bool
all_named ps [] = true
all_named ps ((k, v) ∷ d) = is_named (named k ps) && all_named ps d

abbrev pub closes : Additional → Bool
closes nothing = true
closes _ = false

-- the two checks of an object's keys
unfoldable pub key_checks : Schema → Dict → List Step → Verdict
key_checks s d path = do
  for_each (λ k. guard (has_key d k) (missing_property path k)) (required_of s)
  guard (not (closes (additional_of s)) || all_named (properties_of s) d)
      (unexpected_properties path)

unfoldable mutual
  -- validate_schema
  pub validate_schema : Schema → Json → List Step → Verdict
  validate_schema s (Json.obj ps) path =
      own_checks s (Json.obj ps) path
      >> (key_checks s (entries_in ps) path >> validate_props s ps path)
  validate_schema s (Json.arr vs) path =
      own_checks s (Json.arr vs) path >> validate_elems (items_of s) vs path 0
  validate_schema s v path = own_checks s v path

  -- its loop over the items of a dict
  pub validate_props : Schema → JsonObject → List Step → Verdict
  validate_props s JsonObject.no_entries path = ok tt
  validate_props s (JsonObject.entry_and k v ps) path =
      elim (child_schema s k) [ none ↦ ok tt | some t ↦ validate_schema t v (key k ∷ path) ]
      >> validate_props s ps path

  -- and over a list, where there is a schema of its elements
  pub validate_elems : Option Schema → JsonArray → List Step → ℕ → Verdict
  validate_elems none vs path i = ok tt
  validate_elems (some t) JsonArray.no_items path i = ok tt
  validate_elems (some t) (JsonArray.item_and v vs) path i =
      validate_schema t v (index i ∷ path) >> validate_elems (some t) vs path (suc i)
