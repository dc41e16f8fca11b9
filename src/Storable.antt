-- ===== src/Storable.antt =====
-- internal/storable/storable.go: a reader of Perl's Storable `nfreeze` format, for a flat hash
-- of strings. A Go string or byte slice is a list of bytes, and an error is `none`: the source
-- has the one error `errFormat`.
pub mod Format
pub mod Guard
pub mod RoundTrip
pub mod Sound
use lierc_api.Base.{
  ℕ, zero, suc, ◌+◌, ◌*◌, ◌||◌, [], ◌∷◌, Option, none, some, Bytes, length, take, drop, ltb,
  if◌then◌else◌, ◌==◌, nat_eq, list_eq, ◌>>=◌,
}
use lierc_api.Base.Assoc.{Assoc, insert}

-- The opcodes, and the first byte of the header: major version 2 with the network order bit.
abbrev pub sx_lscalar : ℕ
sx_lscalar = 1

abbrev pub sx_hash : ℕ
sx_hash = 3

abbrev pub sx_scalar : ℕ
sx_scalar = 10

abbrev pub sx_utf8_str : ℕ
sx_utf8_str = 23

abbrev pub sx_lutf8_str : ℕ
sx_lutf8_str = 24

abbrev pub header : ℕ
header = 2 * 2 + 1

-- `map[string]string`
abbrev pub Hash : Type 0
Hash = Assoc Bytes Bytes

-- `binary.BigEndian.Uint32`, with the bytes behind the four.
unfoldable pub uint32 : Bytes → Option (ℕ × Bytes)
uint32 (a ∷ b ∷ c ∷ d ∷ rest) = some (((a * 256 + b) * 256 + c) * 256 + d, rest)
uint32 _ = none

-- `b[:l]` and `b[l:]`, refused when `l > len(b)`.
unfoldable pub slice : ℕ → Bytes → Option (Bytes × Bytes)
slice l b = if ltb (length b) l then none else some (take l b, drop l b)

unfoldable pub uint8 : Bytes → Option (ℕ × Bytes)
uint8 [] = none
uint8 (a ∷ rest) = some (a, rest)

-- The `switch op`: the length of a scalar, in one byte or in four.
unfoldable pub read_length : ℕ → Bytes → Option (ℕ × Bytes)
read_length op b =
    if op == sx_scalar || op == sx_utf8_str
    then uint8 b
    else if op == sx_lscalar || op == sx_lutf8_str
    then uint32 b
    else none

unfoldable pub read_string : Bytes → Option (Bytes × Bytes)
read_string [] = none
read_string (op ∷ b) = do (l, b') ← read_length op b; slice l b'

-- The key behind a value: its length in four bytes, then its bytes.
unfoldable pub read_key : Bytes → Option (Bytes × Bytes)
read_key b = do (l, b') ← uint32 b; slice l b'

-- The loop `for i := uint32(0); i < n; i++`, with the rounds left, and the check behind it.
unfoldable pub decode_entries : ℕ → Bytes → Hash → Option Hash
decode_entries zero [] out = some out
decode_entries zero (_ ∷ _) out = none
decode_entries (suc i) b out = do
  (v, b1) ← read_string b
  (k, b2) ← read_key b1
  decode_entries i b2 (insert k v out)

-- The guard on the count before the map is allocated. `uint64(n)*6` does not wrap: `n < 2^32`.
unfoldable pub decode_counted : ℕ × Bytes → Option Hash
decode_counted (n, b) = if ltb (length b) (n * 6) then none else decode_entries n b []

unfoldable pub decode_hash_body : Bytes → Option Hash
decode_hash_body [] = none
decode_hash_body (op ∷ b) = if op == sx_hash then uint32 b >>= decode_counted else none

unfoldable pub decode_hash : Bytes → Option Hash
decode_hash (major ∷ minor ∷ b) = if major == header then decode_hash_body b else none
decode_hash _ = none
