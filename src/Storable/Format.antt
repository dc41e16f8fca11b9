-- ===== src/Storable/Format.antt =====
-- The format that `nfreeze` writes for a flat hash of strings: the independent description that
-- the reader is held to.
use lierc_api.Base.{ℕ, ◌/◌, ◌%◌, ◌^◌, ◌<◌, List, [], ◌∷◌, ◌++◌, Bytes, length, nat_eq, list_eq}
use lierc_api.Base.Assoc.{insert}
use lierc_api.Storable.{Hash, sx_scalar, sx_utf8_str, sx_lscalar, sx_lutf8_str, sx_hash, header}

-- A number below 2^32 in network order.
abbrev pub be32 : ℕ → Bytes
be32 n = (n / 16777216) ∷ (n / 65536 % 256) ∷ (n / 256 % 256) ∷ (n % 256) ∷ []

-- The four ways to write a string: bytes or UTF-8, its length in one byte or in four.
pub data Scalar : Type 0 where
  short utf8_short long utf8_long : Scalar

pub record Entry : Type 0 where
  pub scalar : Scalar
  pub value : Bytes
  pub key : Bytes

abbrev pub opcode : Scalar → ℕ
opcode short = sx_scalar
opcode utf8_short = sx_utf8_str
opcode long = sx_lscalar
opcode utf8_long = sx_lutf8_str

abbrev pub freeze_length : Scalar → ℕ → Bytes
freeze_length short l = l ∷ []
freeze_length utf8_short l = l ∷ []
freeze_length long l = be32 l
freeze_length utf8_long l = be32 l

abbrev pub limit : Scalar → ℕ
limit short = 256
limit utf8_short = 256
limit long = 2 ^ 32
limit utf8_long = 2 ^ 32

-- What the lengths of an entry must be to be written.
abbrev pub Fits : Entry → Type 0
Fits e = (length e.value < limit e.scalar) × (length e.key < 2 ^ 32)

abbrev pub freeze_value : Scalar → Bytes → Bytes
freeze_value s v = opcode s ∷ (freeze_length s (length v) ++ v)

abbrev pub freeze_key : Bytes → Bytes
freeze_key k = be32 (length k) ++ k

unfoldable pub freeze_entries : List Entry → Bytes
freeze_entries [] = []
freeze_entries (e ∷ es) = freeze_value e.scalar e.value ++ (freeze_key e.key ++ freeze_entries es)

-- The minor version is not checked.
unfoldable pub freeze : ℕ → List Entry → Bytes
unfolding freeze_entries
freeze minor es = header ∷ minor ∷ sx_hash ∷ (be32 (length es) ++ freeze_entries es)

-- The map that the entries make, a later entry over an earlier one with its key.
unfoldable pub hash_onto : Hash → List Entry → Hash
hash_onto out [] = out
hash_onto out (e ∷ es) = hash_onto (insert e.key e.value out) es
