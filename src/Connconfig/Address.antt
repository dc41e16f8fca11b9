-- ===== src/Connconfig/Address.antt =====
-- internal/connconfig/connconfig.go: the blocked networks, `BlockedIP`, `Exempt`, `perlInt` and
-- `CheckHost`. `netip.ParseAddr`, the resolver, `strings.ToLower` and strconv's floats are
-- arguments; an address of package netip is its number, and a zone where it is of IPv6.
pub mod Public
use lierc_api.Base.{
  ℕ, zero, suc, ◌+◌, ◌-◌, ◌*◌, ◌/◌, ◌%◌, ◌^◌, Bool, true, false, not, ◌||◌, ◌&&◌, List, [], ◌∷◌,
  ◌++◌, Option, none, some, ℤ, pos, leb, ltb, if◌then◌else◌, ◌==◌, nat_eq, list_eq, txt,
}
use lierc_api.Utf8.{Text}
use lierc_api.Connconfig.Text.{Checked, valid, invalid}
use lierc_api.Connconfig.Host.{ipv4_literal, is_digit}

-- `netip.Addr`: the zone of an IPv6 address may be empty.
pub data Addr : Type 0 where
  v4 : ℕ → Addr
  v6 : ℕ → Text → Addr

-- `netip.Prefix`: the address and the number of bits.
pub data Prefix : Type 0 where
  net4 : ℕ → ℕ → Prefix
  net6 : ℕ → ℕ → Prefix

abbrev pub dotted : ℕ → ℕ → ℕ → ℕ → ℕ
dotted a b c d = a * 2 ^ 24 + b * 2 ^ 16 + c * 2 ^ 8 + d

-- `blocked`
unfoldable pub blocked : List Prefix
blocked =
    net4 (dotted 0 0 0 0) 8
    ∷ net4 (dotted 10 0 0 0) 8
    ∷ net4 (dotted 100 64 0 0) 10
    ∷ net4 (dotted 127 0 0 0) 8
    ∷ net4 (dotted 169 254 0 0) 16
    ∷ net4 (dotted 172 16 0 0) 12
    ∷ net4 (dotted 192 0 0 0) 24
    ∷ net4 (dotted 192 168 0 0) 16
    ∷ net4 (dotted 198 18 0 0) 15
    ∷ net4 (dotted 224 0 0 0) 4
    ∷ net4 (dotted 240 0 0 0) 4
    ∷ net6 0 128
    ∷ net6 1 128
    ∷ net6 (0xfc00 * 2 ^ 112) 7
    ∷ net6 (0xfe80 * 2 ^ 112) 10
    ∷ net6 (0xff00 * 2 ^ 112) 8
    ∷ net6 (0x64 * 2 ^ 112 + 0xff9b * 2 ^ 96) 96
    ∷ []

-- `p.Contains(a)`, of an address without a zone: the same family, and the same bits in front.
unfoldable pub contains : Prefix → Addr → Bool
contains (net4 base bits) (v4 a) = a / 2 ^ (32 - bits) == base / 2 ^ (32 - bits)
contains (net6 base bits) (v6 a _) = a / 2 ^ (128 - bits) == base / 2 ^ (128 - bits)
contains _ _ = false

unfoldable pub any_contains : List Prefix → Addr → Bool
any_contains [] a = false
any_contains (p ∷ ps) a = contains p a || any_contains ps a

-- `a.Unmap()`
unfoldable pub unmap : Addr → Addr
unmap (v4 a) = v4 a
unmap (v6 a zone) = if a / 2 ^ 32 == 0xffff then v4 (a % 2 ^ 32) else v6 a zone

abbrev pub has_zone : Addr → Bool
has_zone (v4 _) = false
has_zone (v6 _ zone) = not (zone == [])

abbrev pub is6 : Addr → Bool
is6 (v4 _) = false
is6 (v6 _ _) = true

unfoldable pub has_colon : Text → Bool
has_colon [] = false
has_colon (c ∷ cs) = c == b':' || has_colon cs

abbrev pub xor : Bool → Bool → Bool
xor true b = not b
xor false b = b

unfoldable pub blocked_addr : Text → Option Addr → Bool
blocked_addr ip none = true
blocked_addr ip (some a) =
    if has_zone a
    then true
    else if xor (has_colon ip) (is6 a)
    then true
    else any_contains blocked (unmap a)

-- The spaces in front of `numPrefix`, and the digits at the front of a text with what is behind.
unfoldable pub skip_blanks : Text → Text
skip_blanks [] = []
skip_blanks (c ∷ cs) =
    let rest = skip_blanks cs in if leb b'\t' c && leb c b'\r' || c == b' ' then rest else c ∷ cs

unfoldable pub digits_of : Text → Text × Text
digits_of [] = ([], [])
digits_of (c ∷ cs) =
    let rest = digits_of cs in if is_digit c then (c ∷ rest.0, rest.1) else ([], c ∷ cs)

-- `[+-]?` at the front.
abbrev pub sign_of : Text → Text × Text
sign_of [] = ([], [])
sign_of (c ∷ cs) = if c == b'+' || c == b'-' then (c ∷ [], cs) else ([], c ∷ cs)

abbrev pub exponent_digits : ℕ → Text → Text × Text → Text
exponent_digits e sign ([], _) = []
exponent_digits e sign (d ∷ ds, _) = e ∷ (sign ++ (d ∷ ds))

-- `(?:[eE][+-]?[0-9]+)?`
unfoldable pub exponent_of : Text → Text
exponent_of [] = []
exponent_of (e ∷ cs) =
    if e == b'e' || e == b'E'
    then exponent_digits e (sign_of cs).0 (digits_of (sign_of cs).1)
    else []

-- `\.[0-9]*` behind digits, or `\.[0-9]+` without any, with the exponent.
abbrev pub fraction_of : Text → Option Text
fraction_of [] = none
fraction_of (c ∷ cs) =
    if c == b'.' then some (c ∷ ((digits_of cs).0 ++ exponent_of (digits_of cs).1)) else none

abbrev pub bare_fraction : Text → Option Text
bare_fraction [] = none
bare_fraction (c ∷ cs) = if is_digit c then fraction_of (b'.' ∷ c ∷ cs) else none

abbrev pub mantissa_of : Text × Text → Option Text
mantissa_of ([], []) = none
mantissa_of ([], c ∷ cs) = if c == b'.' then bare_fraction cs else none
mantissa_of (d ∷ ds, rest) = elim (fraction_of rest) [
  | some f ↦ some (d ∷ (ds ++ f))
  | none ↦ some (d ∷ (ds ++ exponent_of rest))
]

abbrev pub signed : Text → Option Text → Option Text
signed sign none = none
signed sign (some m) = some (sign ++ m)

-- `numPrefix.FindStringSubmatch`, its group.
unfoldable pub num_prefix : Text → Option Text
num_prefix s =
    let (sign, rest) = sign_of (skip_blanks s) in signed sign (mantissa_of (digits_of rest))

pub record Platform : Type 0 where
  -- `netip.ParseAddr`, an error as `none`
  pub parse_addr : Text → Option Addr
  pub getenv : Text → Text
  -- the resolver, an error as `none`
  pub resolve : Text → Option (List Text)
  -- `strings.ToLower`
  pub lower : Text → Text
  -- `math.Trunc` of `strconv.ParseFloat`, `none` for an infinite number
  pub truncated : Text → Option ℤ

module _ (platform : Platform) where
  -- `BlockedIP`
  unfoldable pub blocked_ip : Text → Bool
  blocked_ip ip = blocked_addr ip (platform.parse_addr ip)

  -- `perlInt`
  abbrev pub prefix_int : Option Text → Option ℤ
  prefix_int none = some (pos 0)
  prefix_int (some m) = platform.truncated m

  unfoldable pub perl_int : Text → Option ℤ
  perl_int s = prefix_int (num_prefix s)

  abbrev pub is_port : ℕ → Option ℤ → Bool
  is_port port (some (pos n)) = port == n
  is_port port _ = false

  -- `Exempt`
  unfoldable pub exempt : Text → ℕ → Bool
  exempt host port =
      let def = platform.getenv (txt "DEFAULT_NETWORK_HOST") in
      let p = platform.getenv (txt "DEFAULT_NETWORK_PORT") in
      if def == []
      then false
      else platform.lower host == platform.lower def
        && is_port port (perl_int (if p == [] || p == txt "0" then txt "6667" else p))

  abbrev pub or_nothing : Option (List Text) → List Text
  or_nothing none = []
  or_nothing (some ips) = ips

  -- The addresses of a host: itself, or what it resolves to.
  unfoldable pub addresses : Text → List Text
  addresses host = if ipv4_literal host then host ∷ [] else or_nothing (platform.resolve host)

  unfoldable pub check_ips : Text → List Text → Checked (Unit {0})
  check_ips host [] = valid tt
  check_ips host (ip ∷ ips) =
      if blocked_ip ip
      then invalid (txt "Host " ++ (host ++ txt " points to a private address"))
      else check_ips host ips

  abbrev pub check_found : Text → List Text → Checked (Unit {0})
  check_found host [] = invalid (txt "Couldn't find host " ++ host)
  check_found host (ip ∷ ips) = check_ips host (ip ∷ ips)

  -- `CheckHost`
  unfoldable pub check_host : Text → ℕ → Checked (Unit {0})
  check_host host port = if exempt host port then valid tt else check_found host (addresses host)
