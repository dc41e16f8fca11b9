-- ===== src/Stream/Perl/Decimal.antt =====
-- strconv: `ParseInt` reads back what `Itoa` writes, up to the largest int64.
use lierc_api.Base.{
  ℕ, zero, suc, ◌≡◌, ◌≢◌, ◌<◌, ◌+◌, ◌^◌, refl, sym, ap, ◌∙◌, false, List, [], ◌∷◌, map, Option,
  none, some, ℤ, pos, All, if◌then◌else◌, ltb, arith, ◌==◌, nat_eq,
}
use lierc_api.Base.Radix.{of_digits, to_digits, to_digits_lt, of_digits-to_digits, decimal}
use lierc_api.Stream.Perl.{decimal_digits, parse_digits, parse_int}

decimal_digits-map :
    (ds : List ℕ) → All (λ d. d < 10) ds → decimal_digits (map (λ d. d + b'0') ds) ≡ some ds
unfolding decimal_digits
decimal_digits-map [] h = refl
decimal_digits-map (d ∷ ds) h = ground (arith, decimal_digits-map ds h.1)

abbrev capped : ℕ → Option ℤ
capped n = if ltb n (2 ^ 63) then some (pos n) else none

parse_int-digits :
    (d : ℕ) (ds : List ℕ)
    → All (λ d. d < 10) (d ∷ ds)
    → parse_int (map (λ d. d + b'0') (d ∷ ds)) ≡ capped (of_digits 10 0 (d ∷ ds))
unfolding parse_int parse_digits
parse_int-digits d ds h =
    let e : (d + b'0' == b'-') ≡ false = ground arith in
    let f : (d + b'0' == b'+') ≡ false = ground arith in rw (e, f, decimal_digits-map (d ∷ ds) h)

-- A number that is not zero has a digit.
to_digits-ne-nil : (n : ℕ) → to_digits 10 (suc n) (suc n) [] ≢ []
unfolding of_digits
to_digits-ne-nil n e =
    let z = of_digits-to_digits 10 (suc n) (suc n) [] (omega arith) (omega arith) in
    let w : of_digits 10 0 (to_digits 10 (suc n) (suc n) []) ≡ 0 = ap (of_digits 10 0) e in
    absurd (omega (arith, sym z ∙ w))

pub parse_int-decimal :
    (n : ℕ) → parse_int (decimal n) ≡ (if ltb n (2 ^ 63) then some (pos n) else none)
unfolding decimal
parse_int-decimal zero = unfold parse_int parse_digits decimal_digits of_digits in refl
parse_int-decimal (suc n) =
    read (to_digits 10 (suc n) (suc n) []) (to_digits-ne-nil n)
      (to_digits_lt 10 (suc n) (suc n) [] (omega arith) tt)
      (of_digits-to_digits 10 (suc n) (suc n) [] (omega arith) (omega arith)
        ∙ unfold of_digits in refl)
  where
    read :
        (ds : List ℕ)
        → ds ≢ []
        → All (λ d. d < 10) ds
        → of_digits 10 0 ds ≡ suc n
        → parse_int (map (λ d. d + b'0') ds) ≡ capped (suc n)
    read [] m h e = absurd (m refl)
    read (d ∷ ds) m h e = parse_int-digits d ds h ∙ ap capped e
