-- ===== src/Manifest/Ratchet.antt =====
-- tools/validate_manifest_declarations.py. The tracked files that `git ls-files` lists and their
-- texts are arguments; what is printed is left out, save for the lists that it shows.
use sourceos_boot.Base.{
  ℕ, String, Bool, true, false, not, ◌||◌, Option, none, some, List, [], ◌∷◌, ◌++◌, map, select,
  mem_text, is_empty, if◌then◌else◌,
}
use sourceos_boot.Json.{Json, Dict, lookup, as_dict, items_in, entries_in}
use sourceos_boot.Result.{Result, ok, ◌>>=◌, or_raise}
use text.Mathlib.Text.{starts_with}
use Prim.Native.String.{[] as nil_text, ◌∷◌ as ◌∷ᵗ◌, ◌++◌ as ◌++ᵗ◌}

-- KNOWN_UNIMPLEMENTED, in the order of `sorted`
abbrev pub known_unimplemented : List String
known_unimplemented =
    "boot.chain.validated" ∷ "boot.efi_vars_mutable" ∷ "boot.generation.deletion"
    ∷ "boot.rollback.applied" ∷ "boot.rollback.denied" ∷ "boot.rollback.forced"
    ∷ "boot.rollback.planned" ∷ []

-- `item in KNOWN_UNIMPLEMENTED`
unfoldable pub is_known : String → Bool
is_known item = mem_text item known_unimplemented

-- CHECKED_KEYS
abbrev pub checked_keys : List String
checked_keys = "auditEvents" ∷ "dangerousSurfaces" ∷ []

-- EXCLUDED
unfoldable pub is_excluded : String → Bool
is_excluded path =
    mem_text path (".sourceos/manifest.json" ∷ "tools/validate_manifest_declarations.py" ∷ [])

-- `item in blob`
unfoldable pub is_part_of : String → String → Bool
is_part_of item nil_text = starts_with nil_text item
is_part_of item (c ∷ᵗ blob) = starts_with (c ∷ᵗ blob) item || is_part_of item blob

-- `"\n".join(parts)`
abbrev pub join_lines : List String → String
join_lines [] = ""
join_lines (part ∷ []) = part
join_lines (part ∷ (next ∷ parts)) = part ++ᵗ ("\n" ++ᵗ join_lines (next ∷ parts))

-- the loop of `source_blob`: a file that cannot be read is passed over
unfoldable pub parts_of : (String → Option String) → List String → List String
parts_of read [] = []
parts_of read (path ∷ paths) =
    let rest = parts_of read paths in
    elim (is_excluded path) [
      | true ↦ rest
      | false ↦ elim (read path) [ none ↦ rest | some text ↦ text ∷ rest ]
    ]

-- source_blob
unfoldable pub source_blob : (String → Option String) → List String → String
source_blob read paths = join_lines (parts_of read paths)

-- The AttributeError of a manifest that is no object, and the TypeError of declarations that are
-- not a list of texts.
pub data ManifestError : Type 0 where
  no_manifest_object : ManifestError
  no_texts : String → ManifestError

-- the characters of a text
abbrev letters : String → List String
letters nil_text = []
letters (c ∷ᵗ s) = (c ∷ᵗ nil_text) ∷ letters s

abbrev keys : Dict → List String
keys [] = []
keys ((k, v) ∷ d) = k ∷ keys d

-- the texts of a list, if it has no other elements
abbrev all_texts : List Json → Option (List String)
all_texts [] = some []
all_texts (Json.str s ∷ vs) =
    let rest = all_texts vs in elim rest [ none ↦ none | some ts ↦ some (s ∷ ts) ]
all_texts (v ∷ vs) = none

-- what `for item in value` runs over, of texts
unfoldable pub iterated : Json → Option (List String)
iterated (Json.arr vs) = all_texts (items_in vs)
iterated (Json.obj ps) = some (keys (entries_in ps))
iterated (Json.str s) = some (letters s)
iterated _ = none

-- `manifest.get(key, [])`, as declarations under their key
unfoldable pub declared_under : Dict → String → Result ManifestError (List (String × String))
declared_under manifest key = elim (lookup key manifest) [
  | none ↦ ok []
  | some v ↦ or_raise (iterated v) (no_texts key) >>= λ items. ok (map (λ item. (key, item)) items)
]

-- the declarations of all the keys
unfoldable pub declarations : Dict → List String → Result ManifestError (List (String × String))
declarations manifest [] = ok []
declarations manifest (key ∷ ks) =
    declared_under manifest key >>= λ here. declarations manifest ks >>= λ later. ok (here ++ later)

-- an entry of `missing`
pub data Problem : Type 0 where
  unimplemented : String × String → Problem
  no_longer_declared : String → Problem
  now_implemented : String → Problem

-- the three lists of `main`
pub record Tally : Type 0 where
  pub missing : List Problem
  pub debt : List (String × String)
  pub found : List (String × String)

-- the first loop of `main`
unfoldable pub tally : String → List (String × String) → Tally
tally blob [] = record { missing = []; debt = []; found = [] }
tally blob (d ∷ ds) =
    let rest = tally blob ds in
    if is_part_of d.1 blob
    then record rest { found = d ∷ rest.found }
    else if is_known d.1
    then record rest { debt = d ∷ rest.debt }
    else record rest { missing = unimplemented d ∷ rest.missing }

-- `item in declared`
abbrev pub is_declared : List (String × String) → String → Bool
is_declared ds item = mem_text item (map (λ d. d.1) ds)

-- the two loops over KNOWN_UNIMPLEMENTED
unfoldable pub stale : List (String × String) → List Problem
stale ds = map no_longer_declared (select (λ k. not (is_declared ds k)) known_unimplemented)

unfoldable pub paid : String → List Problem
paid blob = map now_implemented (select (λ k. is_part_of k blob) known_unimplemented)

-- `missing` at the end
unfoldable pub problems : String → List (String × String) → List Problem
problems blob ds = (tally blob ds).missing ++ (stale ds ++ paid blob)

-- main, on what the manifest decodes to, if there is one
unfoldable pub main : (String → Option String) → List String → Option Json → Result ManifestError ℕ
main read paths none = ok 0
main read paths (some manifest_value) = do
  manifest ← or_raise (as_dict manifest_value) no_manifest_object
  ds ← declarations manifest checked_keys
  ok (if is_empty (problems (source_blob read paths) ds) then 0 else 1)
