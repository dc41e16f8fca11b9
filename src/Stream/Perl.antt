-- ===== src/Stream/Perl.antt =====
-- internal/stream/server.go, `perlTrue` and `perlString`: how Perl reads a decoded JSON value.
-- A raw value is the text of one JSON value, so the blanks that `bytes.TrimSpace` takes off it
-- are ASCII. Of the standard library, `encoding/json`'s reading of a quoted string and
-- `strconv`'s floats are the record `Codec`; `strconv.ParseInt` is defined here.
pub mod Decimal
use lierc_api.Base.{
  ℕ, zero, suc, ◌-◌, ◌^◌, Bool, true, false, ◌&&◌, ◌||◌, List, [], ◌∷◌, reverse, Option, none, some,
  ℤ, pos, negsuc, Bytes, leb, ltb, if◌then◌else◌, ◌==◌, nat_eq, list_eq, txt, ◌>>=◌,
}
use lierc_api.Base.Radix.{of_digits}

pub record Codec : Type 0 where
  -- `json.Unmarshal` of a value into a string
  pub unquote : Bytes → Option Bytes
  -- `strconv.ParseFloat(s, 64)`: whether the number is other than 0, and its text by
  -- `strconv.FormatFloat(f, 'g', 15, 64)`
  pub parse_float : Bytes → Option (Bool × Bytes)

is_space : ℕ → Bool
is_space c = c == b' ' || (leb b'\t' c && leb c b'\r')

unfoldable pub drop_space : Bytes → Bytes
unfolding is_space
drop_space [] = []
drop_space (c ∷ cs) = let rest = drop_space cs in if is_space c then rest else c ∷ cs

-- `bytes.TrimSpace`
unfoldable pub trim_space : Bytes → Bytes
unfolding drop_space
trim_space s = reverse (drop_space (reverse (drop_space s)))

unfoldable pub decimal_digits : Bytes → Option (List ℕ)
decimal_digits [] = some []
decimal_digits (c ∷ cs) =
    let rest = (decimal_digits cs >>= λ ds. some ((c - b'0') ∷ ds)) in
    if leb b'0' c && leb c b'9' then rest else none

-- The digits behind the sign, at least one.
unfoldable pub parse_digits : Bytes → Option ℕ
parse_digits [] = none
parse_digits (c ∷ cs) = decimal_digits (c ∷ cs) >>= λ ds. some (of_digits 10 0 ds)

abbrev in_range : Bool → ℕ → Option ℤ
in_range false n = if ltb n (2 ^ 63) then some (pos n) else none
in_range true zero = some (pos 0)
in_range true (suc n) = if ltb n (2 ^ 63) then some (negsuc n) else none

-- `strconv.ParseInt(s, 10, 64)`, an error as `none`.
unfoldable pub parse_int : Bytes → Option ℤ
parse_int [] = none
parse_int (c ∷ cs) =
    if c == b'-'
    then (parse_digits cs >>= in_range true)
    else if c == b'+'
    then (parse_digits cs >>= in_range false)
    else (parse_digits (c ∷ cs) >>= in_range false)

module _ (codec : Codec) where
  unfoldable pub perl_true : Bytes → Bool
  perl_true v =
      let s = trim_space v in
      if s == [] || s == txt "null" || s == txt "false" || s == txt "\"\"" || s == txt "\"0\""
      then false
      else elim (codec.parse_float s) [ some (nonzero, _) ↦ nonzero | none ↦ true ]

  -- The numbers, and what is no scalar.
  unfoldable pub perl_number : Bytes → Bytes
  perl_number s = elim (parse_int s) [
    | some _ ↦ s
    | none ↦ elim (codec.parse_float s) [ some (_, text) ↦ text | none ↦ s ]
  ]

  unfoldable pub perl_quoted : Bytes → Bytes → Bytes
  perl_quoted v [] = []
  perl_quoted v (c ∷ cs) =
      if c == b'"'
      then elim (codec.unquote v) [ some text ↦ text | none ↦ perl_number (c ∷ cs) ]
      else perl_number (c ∷ cs)

  unfoldable pub perl_string : Bytes → Bytes
  perl_string v =
      let s = trim_space v in
      if s == [] || s == txt "null"
      then []
      else if s == txt "true"
      then txt "1"
      else if s == txt "false"
      then txt "0"
      else perl_quoted v s
