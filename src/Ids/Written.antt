-- ===== src/Ids/Written.antt =====
-- What `FromHex` makes of a hexadecimal text: the text in base 62 of its number, and no other.
use lierc_api.Base.{
  ℕ, zero, suc, ◌/◌, ◌%◌, ◌<◌, ◌≤◌, ◌≡◌, ◌≢◌, ◌⊎◌, inl, inr, refl, sym, ap, ◌∙◌, subst, Bool, true,
  false, ◌&&◌, List, [], ◌∷◌, map, some, pos, Bytes, All, arith, txt, get_or, nat_eq, holds_below,
  holds_below-lt, ◌==◌, ◌||◌, not,
}
use lierc_api.Base.Radix.{of_digits, to_digits, to_digits_lt}
use lierc_api.Ids.{digit, hex_digit, hex_digits, strip, trim_zero_x, set_string, of_big, from_hex}
use lierc_api.Ids.Value.{value, value62, value-digit, value62-of_big, of_big-to_digits}
use lierc_api.Ids.Distinct.{reads_as, reads_as-eq, plain, trim_zero_x_plain, set_string-plain}

-- A hexadecimal digit, by its number, in capitals or not.
abbrev pub hex_char : Bool × ℕ → ℕ
hex_char (true, d) = get_or (txt "0123456789ABCDEF") d 0
hex_char (false, d) = get_or (txt "0123456789abcdef") d 0

abbrev pub IsHex : List (Bool × ℕ) → Type 0
IsHex ds = All (λ d. d.1 < 16) ds

-- What `FromHex` takes off the front.
pub data Prefix : Type 0 where
  bare : Prefix
  small : Prefix
  capital : Prefix
  both : Prefix

abbrev pub prefixed : Prefix → Bytes → Bytes
prefixed bare s = s
prefixed small s = b'0' ∷ b'x' ∷ s
prefixed capital s = b'0' ∷ b'X' ∷ s
prefixed both s = b'0' ∷ b'x' ∷ b'0' ∷ b'X' ∷ s

-- The text has this value, each character is a digit of the alphabet, and no zero leads but
-- in the text of zero.
abbrev pub Leads : Bytes → Type 0
Leads [] = ⊥
Leads (c ∷ cs) = c ≢ b'0'

abbrev pub Writes : ℕ → Bytes → Type 0
Writes n s = (value62 s ≡ n) × All (λ c. digit (value c) ≡ c) s × ((s ≡ txt "0") ⊎ Leads s)

hex_table :
    holds_below 16 (λ d.
      (reads_as d (hex_digit (hex_char (true, d))) && reads_as d (hex_digit (hex_char (false, d))))
      && (plain (hex_char (true, d)) && plain (hex_char (false, d))))
    ≡ true
unfolding holds_below hex_digit
hex_table = refl

both_true :
    (a b c d : Bool)
    → ((a && b) && (c && d)) ≡ true
    → (a ≡ true) × (b ≡ true) × (c ≡ true) × (d ≡ true)
both_true a b c d h = ground arith

hex_char_lem :
    (d : Bool × ℕ) → d.1 < 16 → (hex_digit (hex_char d) ≡ some d.1) × (plain (hex_char d) ≡ true)
hex_char_lem (up, d) h = either up (both_true _ _ _ _ (holds_below-lt 16 _ d hex_table h))
  where
    either :
        (up : Bool)
        → (reads_as d (hex_digit (hex_char (true, d))) ≡ true)
          × (reads_as d (hex_digit (hex_char (false, d))) ≡ true)
          × (plain (hex_char (true, d)) ≡ true)
          × (plain (hex_char (false, d)) ≡ true)
        → (hex_digit (hex_char (up, d)) ≡ some d) × (plain (hex_char (up, d)) ≡ true)
    either true (a, b, c, e) = (reads_as-eq d _ a, c)
    either false (a, b, c, e) = (reads_as-eq d _ b, e)

hex_digits-map :
    (ds : List (Bool × ℕ)) → IsHex ds → hex_digits (map hex_char ds) ≡ some (map (λ d. d.1) ds)
unfolding hex_digits
hex_digits-map [] h = refl
hex_digits-map (d ∷ ds) h = rw ((hex_char_lem d h.0).0, hex_digits-map ds h.1) refl

not_cross : (c : ℕ) → plain c ≡ true → ((c == b'x') ≡ false) × ((c == b'X') ≡ false)
not_cross c h = ground arith

trim_map :
    (x : ℕ) (ds : List (Bool × ℕ))
    → ((c : ℕ) → plain c ≡ true → (c == x) ≡ false)
    → IsHex ds
    → trim_zero_x x (map hex_char ds) ≡ map hex_char ds
trim_map x [] f h = refl
trim_map x (d ∷ []) f h = refl
trim_map x (d ∷ e ∷ ds) f h =
    trim_zero_x_plain x (hex_char d) (hex_char e) (map hex_char ds)
      (f (hex_char e) (hex_char_lem e h.1.0).1)

strip-prefixed :
    (p : Prefix) (ds : List (Bool × ℕ))
    → IsHex ds
    → strip (prefixed p (map hex_char ds)) ≡ map hex_char ds
strip-prefixed p ds h = by p
  where
    small_x : trim_zero_x b'x' (map hex_char ds) ≡ map hex_char ds
    small_x = trim_map b'x' ds (λ c k. (not_cross c k).0) h

    capital_x : trim_zero_x b'X' (map hex_char ds) ≡ map hex_char ds
    capital_x = trim_map b'X' ds (λ c k. (not_cross c k).1) h

    by : (p : Prefix) → strip (prefixed p (map hex_char ds)) ≡ map hex_char ds
    by bare = ap (trim_zero_x b'X') small_x ∙ capital_x
    by small = capital_x
    by capital = refl
    by both = refl

-- The digits of a number that is not zero begin with another than zero.
leading :
    (fuel n : ℕ) (ds : List ℕ)
    → 0 < n
    → n ≤ fuel
    → (c : ℕ) × (cs : List ℕ) × (to_digits 62 fuel n ds ≡ c ∷ cs) × (0 < c)
unfolding to_digits
leading zero n ds p q = absurd (omega arith)
leading (suc fuel) zero ds p q = absurd (omega arith)
leading (suc fuel) (suc n) ds p q =
    next (suc n / 62) refl (λ l m. leading fuel (suc n / 62) ((suc n % 62) ∷ ds) l m)
  where
    next :
        (m : ℕ)
        → suc n / 62 ≡ m
        → (0 < suc n / 62
            → suc n / 62 ≤ fuel
            → (c : ℕ) × (cs : List ℕ) × (to_digits 62 fuel (suc n / 62) ((suc n % 62) ∷ ds)
                ≡ c ∷ cs)
              × (0 < c))
        → (c : ℕ) × (cs : List ℕ) × (to_digits 62 fuel (suc n / 62) ((suc n % 62) ∷ ds) ≡ c ∷ cs)
          × (0 < c)
    next zero e ih = (
      suc n % 62,
      ds,
      ap (λ m. to_digits 62 fuel m ((suc n % 62) ∷ ds)) e ∙ stop fuel,
      omega arith,
    )
      where
        stop : (fuel : ℕ) → to_digits 62 fuel 0 ((suc n % 62) ∷ ds) ≡ (suc n % 62) ∷ ds
        stop zero = refl
        stop (suc f) = refl
    next (suc m) e ih = ih (omega arith) (omega arith)

digit_table : holds_below 62 (λ d. (d == 0) || not (digit d == b'0')) ≡ true
unfolding holds_below digit
digit_table = refl

of_big-Writes : (n : ℕ) → Writes n (of_big (pos n))
unfolding of_big value digit
of_big-Writes zero = (value62-of_big 0, (refl, tt), inl refl)
of_big-Writes (suc n) =
    let (c, cs, e, lead) = leading (suc n) (suc n) [] (omega arith) (omega arith) in
    let lt = to_digits_lt 62 (suc n) (suc n) [] (omega arith) tt in
    let small = subst (All (λ d. d < 62)) e lt in
    let text = of_big-to_digits n ∙ ap (map digit) e in
    (
      value62-of_big (suc n),
      subst (All (λ c. digit (value c) ≡ c)) (sym text) (digits_of (c ∷ cs) small),
      inr (subst Leads (sym text) (not_zero c small.0 lead)),
    )
  where
    digits_of : (ds : List ℕ) → All (λ d. d < 62) ds → All (λ c. digit (value c) ≡ c) (map digit ds)
    digits_of [] h = tt
    digits_of (d ∷ ds) h = (ap digit (value-digit d h.0), digits_of ds h.1)

    not_zero : (c : ℕ) → c < 62 → 0 < c → digit c ≢ b'0'
    not_zero c h l e =
        let t = holds_below-lt 62 (λ d. (d == 0) || not (digit d == b'0')) c digit_table h in
        ground arith

-- `FromHex` makes of every hexadecimal text with at least one digit, in capitals or not and behind
-- "0x", "0X", both or nothing, the text of its number in base 62: its value is that number, it
-- has only digits of the alphabet, and it does not begin with a zero unless it is "0".
pub from_hex-Writes :
    (p : Prefix) (d : Bool × ℕ) (ds : List (Bool × ℕ))
    → IsHex (d ∷ ds)
    → Writes
        (of_digits 16 0 (map (λ d. d.1) (d ∷ ds)))
        (from_hex (prefixed p (map hex_char (d ∷ ds))))
unfolding from_hex
from_hex-Writes p d ds h =
    let n = of_digits 16 0 (map (λ d. d.1) (d ∷ ds)) in
    let parsed : set_string (strip (prefixed p (map hex_char (d ∷ ds)))) ≡ some (pos n) =
      ap set_string (strip-prefixed p (d ∷ ds) h)
      ∙ set_string-plain (hex_char d) (map hex_char ds) (map (λ d. d.1) (d ∷ ds))
          (hex_char_lem d h.0).1 (hex_digits-map (d ∷ ds) h) in
    rw (parsed, from_hex) (of_big-Writes n)
