-- ===== src/ReleaseSet/Digests.antt =====
-- What a digest that the patterns accept looks like.
use sourceos_boot.Base.{
  ℕ, zero, suc, ◌≡◌, refl, sym, ap, subst, ◌⊎◌, inl, inr, ◌↔◌, arith, Bool, true, ◌&&◌, ◌==◌,
  String, and_true,
}
use sourceos_boot.ReleaseSet.Patterns.{is_hex, hex_digits, is_sha256}
use Prim.Native.Char.{Char, code}
use Prim.Native.String.{[] as nil_text, ◌∷◌ as ◌∷ᵗ◌}

abbrev size : String → ℕ
size nil_text = 0
size (c ∷ᵗ s) = suc (size s)

abbrev all_hex : String → Bool
all_hex nil_text = true
all_hex (c ∷ᵗ s) = is_hex c && all_hex s

abbrev with_last : String → Char → String
with_last nil_text c = c ∷ᵗ nil_text
with_last (d ∷ᵗ s) c = d ∷ᵗ with_last s c

-- The text is n hexadecimal digits, with a line feed behind them or nothing.
pub record IsDigest (n : ℕ) (s : String) : Type 0 where
  pub digits : String
  pub digits_size : size digits ≡ n
  pub digits_hex : all_hex digits ≡ true
  pub ending : (s ≡ digits) ⊎ ((c : Char) × (code c ≡ 10) × (s ≡ with_last digits c))

is_line_feed : (c : Char) → (code c == 10) ≡ true → code c ≡ 10
is_line_feed c h = ground arith

line_feed_is : (c : Char) → code c ≡ 10 → (code c == 10) ≡ true
line_feed_is c h = ground arith

hex_digits-IsDigest : (n : ℕ) (s : String) → hex_digits n s ≡ true → IsDigest n s
unfolding hex_digits
hex_digits-IsDigest zero nil_text h = record {
  digits = nil_text;
  digits_size = refl;
  digits_hex = refl;
  ending = inl refl;
}
hex_digits-IsDigest zero (c ∷ᵗ nil_text) h = record {
  digits = nil_text;
  digits_size = refl;
  digits_hex = refl;
  ending = inr (c, is_line_feed c h, refl);
}
hex_digits-IsDigest zero (c ∷ᵗ (d ∷ᵗ s)) h = cc
hex_digits-IsDigest (suc n) nil_text h = cc
hex_digits-IsDigest (suc n) (c ∷ᵗ s) h =
    let (here, later) = and_true (is_hex c) (hex_digits n s) h in
    let r = hex_digits-IsDigest n s later in
    record {
      digits = c ∷ᵗ r.digits;
      digits_size = ap suc r.digits_size;
      digits_hex = rw (here, r.digits_hex) refl;
      ending = elim r.ending [
        | inl e ↦ inl (ap (λ t. c ∷ᵗ t) e)
        | inr p ↦ inr (p.0, p.1, ap (λ t. c ∷ᵗ t) p.2)
      ];
    }

all_hex-hex_digits : (t : String) → all_hex t ≡ true → hex_digits (size t) t ≡ true
unfolding hex_digits
all_hex-hex_digits nil_text h = refl
all_hex-hex_digits (c ∷ᵗ s) h =
    let (here, later) = and_true (is_hex c) (all_hex s) h in rw here (all_hex-hex_digits s later)

with_last-hex_digits :
    (t : String) (c : Char)
    → all_hex t ≡ true
    → code c ≡ 10
    → hex_digits (size t) (with_last t c) ≡ true
unfolding hex_digits
with_last-hex_digits nil_text c h e = line_feed_is c e
with_last-hex_digits (d ∷ᵗ s) c h e =
    let (here, later) = and_true (is_hex d) (all_hex s) h in
    rw here (with_last-hex_digits s c later e)

IsDigest-hex_digits : (n : ℕ) (s : String) → IsDigest n s → hex_digits n s ≡ true
IsDigest-hex_digits n s r =
    subst (λ m. hex_digits m s ≡ true) r.digits_size
      (elim r.ending [
        | inl e ↦
            subst (λ t. hex_digits (size r.digits) t ≡ true) (sym e)
              (all_hex-hex_digits r.digits r.digits_hex)
        | inr p ↦
            subst (λ t. hex_digits (size r.digits) t ≡ true) (sym p.2)
              (with_last-hex_digits r.digits p.0 r.digits_hex p.1)
      ])

-- A text matches the pattern of a digest just if it is 64 hexadecimal digits, with a line feed
-- behind them or nothing.
pub is_sha256-IsDigest : (s : String) → (is_sha256 s ≡ true) ↔ IsDigest 64 s
unfolding is_sha256
is_sha256-IsDigest s = (hex_digits-IsDigest 64 s, IsDigest-hex_digits 64 s)
