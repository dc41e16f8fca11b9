-- ===== src/Session.antt =====
-- internal/session/session.go: the user that a "chats" cookie names. `sign` is the hexadecimal
-- HMAC-SHA1 of a text under the secret; the rest of the standard library is defined here.
pub mod Sound
pub mod Accepted
use lierc_api.Base.{
  ℕ, zero, suc, ◌+◌, ◌-◌, ◌*◌, ◌/◌, ◌%◌, Bool, ◌&&◌, ◌||◌, List, [], ◌∷◌, ◌++◌, Option, none, some,
  Bytes, leb, if◌then◌else◌, ◌==◌, nat_eq, list_eq, txt, ◌>>=◌,
}
use lierc_api.Base.Assoc.{lookup}
use lierc_api.Ids.{hex_digit}
use lierc_api.Storable.{Hash, decode_hash}

-- A byte from its two hexadecimal digits, before what was read behind it.
abbrev pub unescaped : ℕ → ℕ → Option Bytes → Option Bytes
unescaped a b rest = do x ← hex_digit a; y ← hex_digit b; bs ← rest; some ((x * 16 + y) ∷ bs)

abbrev pub before : ℕ → Option Bytes → Option Bytes
before c rest = rest >>= λ bs. some (c ∷ bs)

-- `url.PathUnescape`: a percent sign needs two hexadecimal digits behind it.
unfoldable pub path_unescape : Bytes → Option Bytes
path_unescape [] = some []
path_unescape (c ∷ []) = if c == b'%' then none else some (c ∷ [])
path_unescape (c ∷ d ∷ []) =
    let rest = path_unescape (d ∷ []) in if c == b'%' then none else before c rest
path_unescape (c ∷ d ∷ e ∷ cs) =
    let rest = path_unescape (d ∷ e ∷ cs) in
    let behind = path_unescape cs in if c == b'%' then unescaped d e behind else before c rest

-- `strings.Split(v, ":")`: the first part, and the others.
abbrev pub onto_first : ℕ → Bytes × List Bytes → Bytes × List Bytes
onto_first c (first, rest) = (c ∷ first, rest)

abbrev pub new_first : Bytes × List Bytes → Bytes × List Bytes
new_first (first, rest) = ([], first ∷ rest)

unfoldable pub split : Bytes → Bytes × List Bytes
split [] = ([], [])
split (c ∷ cs) = let parts = split cs in if c == b':' then new_first parts else onto_first c parts

-- The three parts, if there are three.
abbrev pub three : Bytes × List Bytes → Option (Bytes × Bytes × Bytes)
three (a, b ∷ c ∷ []) = some (a, b, c)
three _ = none

-- The value of a base-64 digit.
unfoldable pub value64 : ℕ → Option ℕ
value64 c =
    if leb b'A' c && leb c b'Z'
    then some (c - b'A')
    else if leb b'a' c && leb c b'z'
    then some (c - b'a' + 26)
    else if leb b'0' c && leb c b'9'
    then some (c - b'0' + 52)
    else if c == b'+'
    then some 62
    else if c == b'/'
    then some 63
    else none

unfoldable pub without_newlines : Bytes → Bytes
without_newlines [] = []
without_newlines (c ∷ cs) =
    let rest = without_newlines cs in if c == b'\n' || c == b'\r' then rest else c ∷ rest

abbrev pub one_byte : ℕ → ℕ → Option Bytes
one_byte a b = do x ← value64 a; y ← value64 b; some ((x * 4 + y / 16) ∷ [])

abbrev pub two_bytes : ℕ → ℕ → ℕ → Option Bytes
two_bytes a b c = do
  x ← value64 a
  y ← value64 b
  z ← value64 c
  some ((x * 4 + y / 16) ∷ (y % 16 * 16 + z / 4) ∷ [])

abbrev pub three_bytes : ℕ → ℕ → ℕ → ℕ → Option Bytes → Option Bytes
three_bytes a b c d rest = do
  x ← value64 a
  y ← value64 b
  z ← value64 c
  w ← value64 d
  bs ← rest
  some ((x * 4 + y / 16) ∷ (y % 16 * 16 + z / 4) ∷ (z % 4 * 64 + w) ∷ bs)

-- `base64.StdEncoding`: four digits at a time, the last four padded.
unfoldable pub decode_quads : Bytes → Option Bytes
decode_quads [] = some []
decode_quads (a ∷ b ∷ c ∷ d ∷ rest) =
    let bytes = decode_quads rest in
    if d == b'='
    then (if rest == [] then (if c == b'=' then one_byte a b else two_bytes a b c) else none)
    else three_bytes a b c d bytes
decode_quads _ = none

unfoldable pub decode_base64 : Bytes → Option Bytes
decode_base64 s = decode_quads (without_newlines s)

-- `h["user"]`, refused when empty or missing.
abbrev pub nonempty : Option Bytes → Option Bytes
nonempty none = none
nonempty (some []) = none
nonempty (some (c ∷ cs)) = some (c ∷ cs)

module _ (sign : Bytes → Bytes → Bytes) where
  -- The checks on the parts: the signature, before anything is decoded.
  unfoldable pub read_parts : Bytes → Bytes × Bytes × Bytes → Option Bytes
  read_parts secret (id, payload, mac) =
      if sign secret payload == mac
      then (do
        raw ← decode_base64 payload
        hash ← decode_hash raw
        nonempty (lookup (txt "user") hash))
      else none

  -- `ReadPerl`
  unfoldable pub read_perl : Bytes → Bytes → Option Bytes
  read_perl cookie secret = do
    v ← path_unescape cookie
    parts ← three (split v)
    read_parts secret parts

  -- `User`, of the first "chats" cookie of the request; no user is the empty text.
  abbrev pub or_nobody : Option Bytes → Bytes
  or_nobody none = []
  or_nobody (some u) = u

  unfoldable pub user : Option Bytes → Bytes → Bytes
  user none secret = []
  user (some cookie) secret = or_nobody (read_perl cookie secret)
