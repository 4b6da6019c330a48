-- ===== src/ReleaseSet/Patterns.antt =====
-- The regular expressions of validate_boot_release_set.py, as `match` reads them: `$` also stands
-- before a line feed at the end.
use sourceos_boot.Base.{
  ℕ, zero, suc, Bool, true, false, ◌&&◌, ◌||◌, ◌==◌, leb, String, if◌then◌else◌,
}
use Prim.Native.Char.{Char, code}
use Prim.Native.String.{[] as nil_text, ◌∷◌ as ◌∷ᵗ◌}
use text.Mathlib.Text.{starts_with}

abbrev within : ℕ → ℕ → Char → Bool
within lo hi c = leb lo (code c) && leb (code c) hi

abbrev pub is_digit : Char → Bool
is_digit = within 48 57

-- [a-z0-9]
abbrev is_low : Char → Bool
is_low c = within 97 122 c || is_digit c

-- [a-fA-F0-9]
unfoldable pub is_hex : Char → Bool
is_hex c = within 97 102 c || within 65 70 c || is_digit c

abbrev is_dot_or_dash : Char → Bool
is_dot_or_dash c = code c == 46 || code c == 45

-- [a-z0-9.-]
abbrev is_name_char : Char → Bool
is_name_char c = is_low c || is_dot_or_dash c

-- [A-Za-z0-9.-]
abbrev is_suffix_char : Char → Bool
is_suffix_char c = within 65 90 c || is_name_char c

-- [-.+]
abbrev is_separator : Char → Bool
is_separator c = is_dot_or_dash c || code c == 43

-- `$`
abbrev pub at_end : String → Bool
at_end nil_text = true
at_end (c ∷ᵗ nil_text) = code c == 10
at_end (c ∷ᵗ (d ∷ᵗ s)) = false

-- [a-fA-F0-9]{n}$
unfoldable pub hex_digits : ℕ → String → Bool
hex_digits zero s = at_end s
hex_digits (suc n) nil_text = false
hex_digits (suc n) (c ∷ᵗ s) = is_hex c && hex_digits n s

-- SHA256_RE
unfoldable pub is_sha256 : String → Bool
is_sha256 s = hex_digits 64 s

abbrev after : ℕ → String → String
after zero s = s
after (suc n) nil_text = nil_text
after (suc n) (c ∷ᵗ s) = after n s

-- SHA256_PREFIX_RE
unfoldable pub is_prefixed_sha256 : String → Bool
is_prefixed_sha256 s = starts_with s "sha256:" && hex_digits 64 (after 7 s)

-- [a-z0-9.-]{0,n}$
unfoldable pub name_rest : ℕ → String → Bool
name_rest zero s = at_end s
name_rest (suc n) nil_text = true
name_rest (suc n) (c ∷ᵗ s) = at_end (c ∷ᵗ s) || (is_name_char c && name_rest n s)

-- NAME_RE
unfoldable pub is_name : String → Bool
is_name (c ∷ᵗ (d ∷ᵗ s)) = is_low c && is_name_char d && name_rest 61 s
is_name _ = false

-- [A-Za-z0-9.-]*$
unfoldable pub suffix_rest : String → Bool
suffix_rest nil_text = true
suffix_rest (c ∷ᵗ s) = at_end (c ∷ᵗ s) || (is_suffix_char c && suffix_rest s)

-- ([-.+][A-Za-z0-9.-]+)?$
unfoldable pub suffix : String → Bool
suffix (c ∷ᵗ (d ∷ᵗ s)) = is_separator c && is_suffix_char d && suffix_rest s
suffix s = at_end s

-- [0-9]* and then k
unfoldable pub digits_then : (String → Bool) → String → Bool
digits_then k nil_text = k nil_text
digits_then k (c ∷ᵗ s) = let more = digits_then k s in if is_digit c then more else k (c ∷ᵗ s)

-- [0-9]+ and then k
abbrev number_then : (String → Bool) → String → Bool
number_then k nil_text = false
number_then k (c ∷ᵗ s) = is_digit c && digits_then k s

abbrev dot_then : (String → Bool) → String → Bool
dot_then k nil_text = false
dot_then k (c ∷ᵗ s) = code c == 46 && k s

-- [0-9]+\.[0-9]+\.[0-9]+ and a suffix
unfoldable pub triple : String → Bool
triple = number_then (dot_then (number_then (dot_then (number_then suffix))))

-- VERSION_RE
unfoldable pub is_version : String → Bool
is_version nil_text = false
is_version (c ∷ᵗ s) = if code c == 118 then triple s else triple (c ∷ᵗ s)
