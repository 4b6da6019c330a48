-- ===== src/TrustChain/Decided.antt =====
-- What a record that `validate_file` accepts under the schema of the repository says.
use sourceos_boot.Base.{
  ℕ, String, if◌then◌else◌, Bool, true, false, not, ◌||◌, ◌≡◌, refl, sym, ap, arith, subst, none,
  some, List, [], ◌∷◌, All, Bool-cases, ◌⊎◌, inl, inr, str_eq, eq_iff,
}
use sourceos_boot.Json.{Json, Dict, get, has_key, as_dict, is_text}
use sourceos_boot.Json.Equality.{json_eq, json_in}
use sourceos_boot.Result.{Result, ok, err, or_raise, bind-ok, or_raise-ok, yields}
use sourceos_boot.TrustChain.Schema.{
  Schema, EvidenceError, no_dict, Verdict, validate_schema, keywords, no_more, anything, any_items,
  child_schema, enum_matches, enum_of,
}
use sourceos_boot.TrustChain.Document.{evidence_schema}
use sourceos_boot.TrustChain.Conforms.{Conforms, conforms, meets, validate_schema-Conforms}
use sourceos_boot.TrustChain.Rules.{
  Admits, Denies, decides, validate_verified-Admits, validate_blocked-Denies,
}
use sourceos_boot.TrustChain.Evidence.{
  validate_verified, validate_blocked, decision_rules, validate_file, check_path, any_failed,
  exit_code,
}
use mathlib.Core.List.{Memᴰ, map}

-- The record is verified and admits the boot, or blocked and denies it, or asks for a review.
abbrev pub IsDecided : Dict → Type 0
IsDecided d =
    ((decides "verified" d ≡ true) × Admits d)
    ⊎ (((decides "blocked" d ≡ true) × Denies d) ⊎ (decides "review_required" d ≡ true))

blocked_not_verified : (v : Json) → is_text "blocked" v ≡ true → is_text "verified" v ≡ false
blocked_not_verified (Json.str s) h =
    subst (λ t. str_eq t "verified" ≡ false) (sym ((eq_iff s "blocked").0 h)) refl
blocked_not_verified Json.null h = refl
blocked_not_verified (Json.bool b) h = refl
blocked_not_verified (Json.int n) h = refl
blocked_not_verified (Json.float m k) h = refl
blocked_not_verified (Json.arr vs) h = refl
blocked_not_verified (Json.obj ps) h = refl

decision_rules-verified :
    (d : Dict)
    → decision_rules d ≡ ok tt
    → decides "verified" d ≡ true
    → validate_verified d ≡ ok tt
unfolding decision_rules
decision_rules-verified d h e = ground arith

decision_rules-blocked :
    (d : Dict) → decision_rules d ≡ ok tt → decides "blocked" d ≡ true → validate_blocked d ≡ ok tt
unfolding decision_rules
decision_rules-blocked d h e = ground (arith, blocked_not_verified (get d "decision") e)

or_right : (a b : Bool) → (a || b) ≡ true → a ≡ false → b ≡ true
or_right a b h e = ground arith

-- A key of a dict is that of an item, the one that `get` finds.
has_key-Mem :
    (d : Dict) (key : String)
    → has_key d key ≡ true
    → (x : Json) × Memᴰ (key, x) d × (get d key ≡ x)
unfolding has_key get
has_key-Mem [] key h = cc
has_key-Mem ((k, v) ∷ d) key h = elim (Bool-cases (str_eq k key)) [
  | inl e ↦ (v, Memᴰ.head (ap (λ t. (t, v)) (sym ((eq_iff k key).0 e))), rw e refl)
  | inr e ↦
      let (x, m, same) = has_key-Mem d key (or_right (str_eq k key) (has_key d key) h e) in
      (x, Memᴰ.tail m, rw e same)
]

str_eq_comm : (s t : String) → str_eq s t ≡ str_eq t s
str_eq_comm s t = ground (arith, eq_iff s t, eq_iff t s)

json_eq-is_text : (x : Json) (t : String) → json_eq x (Json.str t) ≡ is_text t x
unfolding json_eq
json_eq-is_text (Json.str s) t = str_eq_comm t s
json_eq-is_text Json.null t = refl
json_eq-is_text (Json.bool true) t = refl
json_eq-is_text (Json.bool false) t = refl
json_eq-is_text (Json.int n) t = refl
json_eq-is_text (Json.float m k) t = refl
json_eq-is_text (Json.arr vs) t = refl
json_eq-is_text (Json.obj ps) t = refl

abbrev decision_schema : Schema
decision_schema =
    keywords none (some (map Json.str ("verified" ∷ "blocked" ∷ "review_required" ∷ []))) none []
      no_more anything any_items

decision_child : child_schema evidence_schema "decision" ≡ some decision_schema
unfolding child_schema evidence_schema
decision_child = refl

one_of_three :
    (x : Json)
    → enum_matches (enum_of decision_schema) x ≡ true
    → (is_text "verified" x || (is_text "blocked" x || (is_text "review_required" x || false)))
      ≡ true
unfolding json_in
one_of_three x h =
    rw
      (
        ← json_eq-is_text x "verified",
        ← json_eq-is_text x "blocked",
        ← json_eq-is_text x "review_required",
      )
      h

evidence-decided :
    (v : Json) (d : Dict)
    → Conforms evidence_schema v
    → as_dict v ≡ some d
    → (decides "verified" d || (decides "blocked" d || (decides "review_required" d || false)))
      ≡ true
unfolding evidence_schema
evidence-decided v d (conforms own keys parts each) e =
    let (x, m, same) = has_key-Mem d "decision" (keys d e).has_required.1.1.1.1.1.1.1.1.1.0 in
    let c = parts d "decision" x decision_schema e m decision_child in
    rw same (one_of_three x (meets decision_schema x c).meets_enum)

neither : (a b c : Bool) → (a || (b || (c || false))) ≡ true → a ≡ false → b ≡ false → c ≡ true
neither a b c h e₁ e₂ = ground arith

rules-IsDecided :
    (d : Dict)
    → decision_rules d ≡ ok tt
    → (decides "verified" d || (decides "blocked" d || (decides "review_required" d || false)))
      ≡ true
    → IsDecided d
rules-IsDecided d rules h = elim (Bool-cases (decides "verified" d)) [
  | inl v ↦ inl (v, validate_verified-Admits d (decision_rules-verified d rules v))
  | inr w ↦ inr (elim (Bool-cases (decides "blocked" d)) [
    | inl b ↦ inl (b, validate_blocked-Denies d (decision_rules-blocked d rules b))
    | inr c ↦
        inr
          (neither (decides "verified" d) (decides "blocked" d) (decides "review_required" d) h w c)
  ])
]

validate_file-IsDecided :
    (v : Json)
    → validate_file evidence_schema v ≡ ok tt
    → (d : Dict) × (as_dict v ≡ some d) × IsDecided d
unfolding validate_file
validate_file-IsDecided v h =
    let (u, fits, h₁) = bind-ok (validate_schema evidence_schema v []) _ h in
    let (d, e, rules) = bind-ok (or_raise (as_dict v) no_dict) _ h₁ in
    let same = or_raise-ok (as_dict v) no_dict e in
    (
      d,
      same,
      rules-IsDecided d rules
          (evidence-decided v d ((validate_schema-Conforms evidence_schema v []).0 fits) same),
    )

both_false : (m : Verdict) (b : Bool) → (not (yields m) || b) ≡ false → (m ≡ ok tt) × (b ≡ false)
both_false (ok u) b h = (refl, h)
both_false (err e) b h = cc

zero_code : (b : Bool) → ◌≡◌ {A = ℕ} (if b then 1 else 0) 0 → b ≡ false
zero_code b h = ground arith

module _ {File : Type 0} (load : File → Result EvidenceError Json) where
  -- The file can be read, and holds a decided record.
  abbrev pub HoldsDecided : File → Type 0
  HoldsDecided path =
      (v : Json) × (load path ≡ ok v) × ((d : Dict) × (as_dict v ≡ some d) × IsDecided d)

  check_path-HoldsDecided :
      (path : File) → check_path load (ok evidence_schema) path ≡ ok tt → HoldsDecided path
  unfolding check_path
  check_path-HoldsDecided path h =
      let (v, e, h₁) = bind-ok (load path) _ h in (v, e, validate_file-IsDecided v h₁)

  none_failed :
      (paths : List File)
      → any_failed load (ok evidence_schema) paths ≡ false
      → All HoldsDecided paths
  unfolding any_failed
  none_failed [] h = tt
  none_failed (path ∷ paths) h =
      let (a, b) = both_false (check_path load (ok evidence_schema) path) _ h in
      (check_path-HoldsDecided path a, none_failed paths b)

  -- If the command exits with 0 under the schema of the repository, then every file that it was
  -- given could be loaded and holds an object that is verified and admits the boot, or blocked and
  -- denies it, or asks for a review.
  pub exit_code-IsDecided :
      (paths : List File) → exit_code load (ok evidence_schema) paths ≡ 0 → All HoldsDecided paths
  unfolding exit_code
  exit_code-IsDecided paths h =
      none_failed paths (zero_code (any_failed load (ok evidence_schema) paths) h)
