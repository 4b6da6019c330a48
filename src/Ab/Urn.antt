-- ===== src/Ab/Urn.antt =====
-- `_local` of ab_update_machine.py: the local part of a URN, sanitised for a slot URN.
use sourceos_boot.Base.{Bool, false, Option, none, some, ◌||◌, ◌==◌, if◌then◌else◌}
use Prim.Native.Char.{Char, code}
use Prim.Native.String.{String, [], ◌∷◌}

abbrev char_eq : Char → Char → Bool
char_eq c d = code c == code d

-- `c in text`
abbrev char_in : Char → String → Bool
char_in c [] = false
char_in c (d ∷ s) = char_eq c d || char_in c s

-- what follows the last colon, if there is one
abbrev after_colon : String → Option String
after_colon [] = none
after_colon (c ∷ s) = elim (after_colon s) [
  | some tail ↦ some tail
  | none ↦ if char_eq c ":" then some s else none
]

-- `urn.rsplit(":", 1)[-1]`
abbrev tail_of : String → String
tail_of urn = elim (after_colon urn) [ some tail ↦ tail | none ↦ urn ]

-- `isalnum` is Unicode's, and a parameter.
module _ (is_alnum : Char → Bool) where
  abbrev sanitise : String → String
  sanitise [] = []
  sanitise (c ∷ s) = (if is_alnum c || char_in c "._~-" then c else "_") ∷ sanitise s

  unfoldable pub local : String → String
  local urn = sanitise (tail_of urn)
