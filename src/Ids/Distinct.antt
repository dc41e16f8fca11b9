-- ===== src/Ids/Distinct.antt =====
-- Distinct random bytes make distinct ids.
use lierc_api.Base.{
  ℕ, suc, ◌+◌, ◌*◌, ◌/◌, ◌%◌, ◌<◌, ◌≡◌, refl, sym, ap, ◌∙◌, Bool, true, false, not, ◌||◌, List, [],
  ◌∷◌, Option, none, some, pos, Bytes, All, length, arith, nat_eq, ◌==◌, ap₂, IsByte, holds_below,
  holds_below-lt,
}
use lierc_api.Base.Radix.{of_digits}
use lierc_api.Ids.{
  set_string, strip, trim_zero_x, hex_digit, hex_digits, parse_magnitude, upper_hex,
  upper_hex_digit, new_id,
}
use lierc_api.Ids.Value.{value62, value62-from_hex}

abbrev pub reads_as : ℕ → Option ℕ → Bool
reads_as d none = false
reads_as d (some e) = e == d

hex_table : holds_below 16 (λ d. reads_as d (hex_digit (upper_hex_digit d))) ≡ true
unfolding holds_below hex_digit
hex_table = refl

pub reads_as-eq : (d : ℕ) (o : Option ℕ) → reads_as d o ≡ true → o ≡ some d
reads_as-eq d none h = cc
reads_as-eq d (some e) h = ap some ((nat_eq.eqb_iff e d).0 h)

hex_digit-upper_hex_digit : (d : ℕ) → d < 16 → hex_digit (upper_hex_digit d) ≡ some d
hex_digit-upper_hex_digit d h = reads_as-eq d _ (holds_below-lt 16 _ d hex_table h)

-- No digit is an `x` of a prefix or a sign.
abbrev pub plain : ℕ → Bool
plain c = not (c == b'x' || c == b'X' || c == b'-' || c == b'+')

plain_table : holds_below 16 (λ d. plain (upper_hex_digit d)) ≡ true
unfolding holds_below
plain_table = refl

plain-upper_hex_digit : (d : ℕ) → d < 16 → plain (upper_hex_digit d) ≡ true
plain-upper_hex_digit d h = holds_below-lt 16 _ d plain_table h

nibbles : Bytes → List ℕ
nibbles [] = []
nibbles (b ∷ bs) = (b / 16) ∷ (b % 16) ∷ nibbles bs

hex_digits-upper_hex : (bs : Bytes) → All IsByte bs → hex_digits (upper_hex bs) ≡ some (nibbles bs)
unfolding hex_digits upper_hex nibbles
hex_digits-upper_hex [] h = refl
hex_digits-upper_hex (b ∷ bs) h =
    rw
      (
        hex_digit-upper_hex_digit (b / 16) (omega arith),
        hex_digit-upper_hex_digit (b % 16) (omega arith),
        hex_digits-upper_hex bs h.1,
      )
      refl

of_digits-nibbles : (acc : ℕ) (bs : Bytes) → of_digits 16 acc (nibbles bs) ≡ of_digits 256 acc bs
unfolding of_digits nibbles
of_digits-nibbles acc [] = refl
of_digits-nibbles acc (b ∷ bs) =
    ap (λ t. of_digits 16 t (nibbles bs)) (omega arith) ∙ of_digits-nibbles (acc * 256 + b) bs

pub trim_zero_x_plain :
    (x a b : ℕ) (rest : Bytes) → (b == x) ≡ false → trim_zero_x x (a ∷ b ∷ rest) ≡ a ∷ b ∷ rest
trim_zero_x_plain x a b rest h = ground arith

strip-plain : (a b : ℕ) (rest : Bytes) → plain b ≡ true → strip (a ∷ b ∷ rest) ≡ a ∷ b ∷ rest
strip-plain a b rest h =
    ap (trim_zero_x b'X') (trim_zero_x_plain b'x' a b rest (ground arith))
    ∙ trim_zero_x_plain b'X' a b rest (ground arith)

pub set_string-plain :
    (c : ℕ) (cs ds : Bytes)
    → plain c ≡ true
    → hex_digits (c ∷ cs) ≡ some ds
    → set_string (c ∷ cs) ≡ some (pos (of_digits 16 0 ds))
unfolding set_string parse_magnitude
set_string-plain c cs ds p h = ground arith

set_string-upper_hex :
    (b : ℕ) (bs : Bytes)
    → All IsByte (b ∷ bs)
    → set_string (strip (upper_hex (b ∷ bs))) ≡ some (pos (of_digits 256 0 (b ∷ bs)))
unfolding upper_hex
set_string-upper_hex b bs h =
    ap set_string (strip-plain _ _ (upper_hex bs) (plain-upper_hex_digit (b % 16) (omega arith)))
    ∙ set_string-plain _ _ (nibbles (b ∷ bs)) (plain-upper_hex_digit (b / 16) (omega arith))
        (hex_digits-upper_hex (b ∷ bs) h)
    ∙ ap (λ n. some (pos n)) (of_digits-nibbles 0 (b ∷ bs))

-- A new id is, in base 62, the number that its random bytes make, the first byte the highest.
pub value62-new_id :
    (b : ℕ) (bs : Bytes)
    → All IsByte (b ∷ bs)
    → value62 (new_id (b ∷ bs)) ≡ of_digits 256 0 (b ∷ bs)
unfolding new_id
value62-new_id b bs h = value62-from_hex _ (set_string-upper_hex b bs h)

of_digits_inj :
    (acc acc' : ℕ) (bs cs : Bytes)
    → All IsByte bs
    → All IsByte cs
    → length bs ≡ length cs
    → of_digits 256 acc bs ≡ of_digits 256 acc' cs
    → (acc ≡ acc') × (bs ≡ cs)
unfolding of_digits
of_digits_inj acc acc' [] [] hb hc l e = (e, refl)
of_digits_inj acc acc' [] (c ∷ cs) hb hc l e = absurd (omega arith)
of_digits_inj acc acc' (b ∷ bs) [] hb hc l e = absurd (omega arith)
of_digits_inj acc acc' (b ∷ bs) (c ∷ cs) hb hc l e =
    let (p, q) = of_digits_inj (acc * 256 + b) (acc' * 256 + c) bs cs hb.1 hc.1 (omega arith) e in
    (omega arith, ap₂ ◌∷◌ (omega arith) q)

-- Two ids made of equally many random bytes, at least one, are equal only if the bytes are.
new_id_inj :
    (b c : ℕ) (bs cs : Bytes)
    → All IsByte (b ∷ bs)
    → All IsByte (c ∷ cs)
    → length bs ≡ length cs
    → new_id (b ∷ bs) ≡ new_id (c ∷ cs)
    → b ∷ bs ≡ c ∷ cs
new_id_inj b c bs cs hb hc l e =
    (of_digits_inj 0 0 (b ∷ bs) (c ∷ cs) hb hc (ap suc l)
      (sym (value62-new_id b bs hb) ∙ ap value62 e ∙ value62-new_id c cs hc)).1
