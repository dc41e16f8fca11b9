-- ===== src/Base/Radix.antt =====
-- Numbers written in a base, most significant digit first, and decimal text.
use Prim.Native.Nat.{ℕ, zero, suc, ◌+◌, ◌*◌, ◌/◌, ◌%◌, ◌≤◌, ◌<◌}
use mathlib.Core.Path.{◌≡◌, refl, ap, ◌∙◌}
use mathlib.Core.List.{List, [], ◌∷◌, ◌++◌, map}
use native.Mathlib.Omega.{arith}
use native.Mathlib.Nat.{div-add-mod', div-lt_self, mod-lt}
use lierc_api.Base.Lists.{Bytes, All}

unfoldable pub of_digits : ℕ → ℕ → List ℕ → ℕ
of_digits base acc [] = acc
of_digits base acc (d ∷ ds) = of_digits base (acc * base + d) ds

pub of_digits-append :
    (base acc : ℕ) (ds es : List ℕ)
    → of_digits base acc (ds ++ es) ≡ of_digits base (of_digits base acc ds) es
unfolding of_digits
of_digits-append base acc [] es = refl
of_digits-append base acc (d ∷ ds) es = of_digits-append base (acc * base + d) ds es

-- `for n > 0 { n, mod = n/base, n%base; ... }`, the digits put in front of `ds`. The fuel `n` is
-- enough, as `n` falls in every round.
unfoldable pub to_digits : ℕ → ℕ → ℕ → List ℕ → List ℕ
to_digits base zero n ds = ds
to_digits base (suc fuel) zero ds = ds
to_digits base (suc fuel) (suc n) ds = to_digits base fuel (suc n / base) ((suc n % base) ∷ ds)

falls : (base n fuel : ℕ) → 1 < base → suc n ≤ suc fuel → suc n / base ≤ fuel
falls base n fuel hb h = omega (arith, div-lt_self {n = suc n} {k = base} (omega arith) hb)

pub of_digits-to_digits :
    (base fuel n : ℕ) (ds : List ℕ)
    → 1 < base
    → n ≤ fuel
    → of_digits base 0 (to_digits base fuel n ds) ≡ of_digits base n ds
unfolding to_digits of_digits
of_digits-to_digits base zero n ds hb h =
    let e : 0 ≡ n = omega arith in ap (λ k. of_digits base k ds) e
of_digits-to_digits base (suc fuel) zero ds hb h = refl
of_digits-to_digits base (suc fuel) (suc n) ds hb h =
    of_digits-to_digits base fuel (suc n / base) ((suc n % base) ∷ ds) hb (falls base n fuel hb h)
    ∙ ap (λ k. of_digits base k ds) (div-add-mod' (suc n) base)

pub to_digits_lt :
    (base fuel n : ℕ) (ds : List ℕ)
    → 1 < base
    → All (λ d. d < base) ds
    → All (λ d. d < base) (to_digits base fuel n ds)
unfolding to_digits
to_digits_lt base zero n ds hb h = h
to_digits_lt base (suc fuel) zero ds hb h = h
to_digits_lt base (suc fuel) (suc n) ds hb h =
    to_digits_lt base fuel (suc n / base) ((suc n % base) ∷ ds) hb
      (mod-lt (suc n) {m = base} (omega arith), h)

-- `strconv.Itoa` of a number that is not negative.
unfoldable pub decimal : ℕ → Bytes
unfolding to_digits
decimal zero = b'0' ∷ []
decimal (suc n) = map (λ d. d + b'0') (to_digits 10 (suc n) (suc n) [])
