-- ===== src/Ids/Value.antt =====
-- An id is the number that its hexadecimal text or its bytes stand for, in base 62.
use mathlib.Core.List.{reverse-append}
use lierc_api.Base.{
  ℕ, zero, suc, ◌+◌, ◌/◌, ◌%◌, ◌<◌, ◌≡◌, refl, ap, ◌∙◌, true, List, [], ◌∷◌, map, reverse, some,
  pos, Bytes, All, arith, nat_eq, ◌==◌, if◌then◌else◌, holds_below, holds_below-lt,
}
use lierc_api.Base.Radix.{of_digits, to_digits, of_digits-to_digits, to_digits_lt}
use lierc_api.Ids.{digit, digits, digit_loop, of_big, from_hex, set_string, strip}

-- The place of a character in the alphabet.
abbrev pub index_from : ℕ → Bytes → ℕ → ℕ
index_from c [] i = 0
index_from c (d ∷ ds) i = if d == c then i else index_from c ds (i + 1)

unfoldable pub value : ℕ → ℕ
value c = index_from c digits 0

-- The number that a text in base 62 stands for.
abbrev pub value62 : Bytes → ℕ
value62 s = of_digits 62 0 (map value s)

value_table : holds_below 62 (λ d. value (digit d) == d) ≡ true
unfolding holds_below value digit
value_table = refl

pub value-digit : (d : ℕ) → d < 62 → value (digit d) ≡ d
value-digit d h = (nat_eq.eqb_iff (value (digit d)) d).0 (holds_below-lt 62 _ d value_table h)

pub map-value-digit : (ds : List ℕ) → All (λ d. d < 62) ds → map value (map digit ds) ≡ ds
map-value-digit [] h = refl
map-value-digit (d ∷ ds) h = cc (value-digit d h.0, map-value-digit ds h.1)

-- The loop and the reversal behind it write the digits, most significant first.
digit_loop-to_digits :
    (fuel n : ℕ) (out ds : Bytes)
    → reverse out ≡ map digit ds
    → reverse (digit_loop fuel n out) ≡ map digit (to_digits 62 fuel n ds)
unfolding digit_loop to_digits
digit_loop-to_digits zero n out ds h = h
digit_loop-to_digits (suc fuel) zero out ds h = h
digit_loop-to_digits (suc fuel) (suc n) out ds h =
    digit_loop-to_digits fuel (suc n / 62) _ ((suc n % 62) ∷ ds)
      (reverse-append out (digit (suc n % 62) ∷ []) ∙ ap (λ t. digit (suc n % 62) ∷ t) h)

pub of_big-to_digits : (n : ℕ) → of_big (pos (suc n)) ≡ map digit (to_digits 62 (suc n) (suc n) [])
unfolding of_big
of_big-to_digits n = digit_loop-to_digits (suc n) (suc n) [] [] refl

-- A number that is not negative, zero included, has the value of the text that is made of it.
pub value62-of_big : (n : ℕ) → value62 (of_big (pos n)) ≡ n
value62-of_big zero = unfold of_big of_digits value in refl
value62-of_big (suc n) =
    ap value62 (of_big-to_digits n)
    ∙ ap (of_digits 62 0) (
        map-value-digit (to_digits 62 (suc n) (suc n) [])
          (to_digits_lt 62 (suc n) (suc n) [] (omega arith) tt))
    ∙ of_digits-to_digits 62 (suc n) (suc n) [] (omega arith) (omega arith)
    ∙ (unfold of_digits in refl)

-- Any text that parses as a number that is not negative, with or without a sign and one of the
-- prefixes, becomes the text of that number in base 62.
pub value62-from_hex :
    (h : Bytes) {n : ℕ} → set_string (strip h) ≡ some (pos n) → value62 (from_hex h) ≡ n
unfolding from_hex
value62-from_hex h {n} e = rw (e, from_hex) (value62-of_big n)
