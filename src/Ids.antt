-- ===== src/Ids.antt =====
-- internal/ids/ids.go: base-62 ids from hexadecimal text and from random bytes. `big.Int` is ℤ,
-- and the bytes that `rand.Read` fills in are an argument.
pub mod Value
pub mod Distinct
pub mod Written
use lierc_api.Base.Radix.{of_digits}
use lierc_api.Base.{
  ℕ, zero, suc, ◌+◌, ◌-◌, ◌/◌, ◌%◌, Bool, ◌&&◌, List, [], ◌∷◌, ◌++◌, map, reverse, Option, none,
  some, ℤ, pos, negsuc, Bytes, get_or, leb, if◌then◌else◌, ◌==◌, nat_eq, txt, ◌>>=◌,
}

-- `const digits`
abbrev pub digits : Bytes
digits = txt "0123456789ABCDEFGHIJKLMNOPQRSTUVWXYZabcdefghijklmnopqrstuvwxyz"

-- `digits[mod.Int64()]`
unfoldable pub digit : ℕ → ℕ
digit d = get_or digits d 0

-- `strings.TrimPrefix` by "0x", then by "0X".
abbrev pub trim_zero_x : ℕ → Bytes → Bytes
trim_zero_x x [] = []
trim_zero_x x (a ∷ []) = a ∷ []
trim_zero_x x (a ∷ b ∷ rest) = if a == b'0' && b == x then rest else a ∷ b ∷ rest

abbrev pub strip : Bytes → Bytes
strip h = trim_zero_x b'X' (trim_zero_x b'x' h)

unfoldable pub hex_digit : ℕ → Option ℕ
hex_digit c =
    if leb b'0' c && leb c b'9'
    then some (c - b'0')
    else if leb b'a' c && leb c b'f'
    then some (c - b'a' + 10)
    else if leb b'A' c && leb c b'F'
    then some (c - b'A' + 10)
    else none

unfoldable pub hex_digits : Bytes → Option (List ℕ)
hex_digits [] = some []
hex_digits (c ∷ cs) = do d ← hex_digit c; ds ← hex_digits cs; some (d ∷ ds)

-- `SetString(h, 16)` behind the sign: at least one digit, and digits alone.
unfoldable pub parse_magnitude : Bytes → Option ℕ
parse_magnitude [] = none
parse_magnitude (c ∷ cs) = do ds ← hex_digits (c ∷ cs); some (of_digits 16 0 ds)

abbrev pub negate : ℕ → ℤ
negate zero = pos 0
negate (suc n) = negsuc n

-- `new(big.Int).SetString(h, 16)`, with its optional sign.
unfoldable pub set_string : Bytes → Option ℤ
set_string [] = none
set_string (c ∷ cs) =
    if c == b'-'
    then (parse_magnitude cs >>= λ n. some (negate n))
    else if c == b'+'
    then (parse_magnitude cs >>= λ n. some (pos n))
    else (parse_magnitude (c ∷ cs) >>= λ n. some (pos n))

-- `for n.Sign() > 0 { n.DivMod(n, base, mod); out = append(out, ...) }`, with the fuel `n`.
unfoldable pub digit_loop : ℕ → ℕ → Bytes → Bytes
digit_loop zero n out = out
digit_loop (suc fuel) zero out = out
digit_loop (suc fuel) (suc n) out = digit_loop fuel (suc n / 62) (out ++ (digit (suc n % 62) ∷ []))

-- What `FromHex` makes of the parsed number: the loop does not run on a negative one.
unfoldable pub of_big : ℤ → Bytes
of_big (pos zero) = b'0' ∷ []
of_big (pos (suc n)) = reverse (digit_loop (suc n) (suc n) [])
of_big (negsuc n) = []

unfoldable pub from_hex : Bytes → Bytes
from_hex h = elim (set_string (strip h)) [ none ↦ b'0' ∷ [] | some n ↦ of_big n ]

-- `strings.ToUpper(hex.EncodeToString(b))`
abbrev pub upper_hex_digit : ℕ → ℕ
upper_hex_digit d = get_or (txt "0123456789ABCDEF") d 0

unfoldable pub upper_hex : Bytes → Bytes
upper_hex [] = []
upper_hex (b ∷ bs) = upper_hex_digit (b / 16) ∷ upper_hex_digit (b % 16) ∷ upper_hex bs

-- `New`, on the random bytes.
unfoldable pub new_id : Bytes → Bytes
new_id random = from_hex (upper_hex random)
