-- ===== src/Storable/RoundTrip.antt =====
-- The reader and the format are each other's inverse.
use lierc_api.Base.{
  ℕ, ◌^◌, ◌<◌, ◌≡◌, refl, ◌∙◌, ap, List, [], ◌∷◌, ◌++◌, some, Bytes, length, All, arith,
  length-append, take-append, drop-append, nat_eq, list_eq, ◌>>=◌,
}
use lierc_api.Base.Assoc.{insert}
use lierc_api.Storable.{
  Hash, uint32, slice, read_length, read_string, uint8, decode_hash_body, read_key, decode_entries,
  decode_counted, decode_hash,
}
use lierc_api.Storable.Format.{
  Scalar, short, utf8_short, long, utf8_long, Entry, Fits, limit, freeze_value, freeze_key,
  freeze_entries, freeze, be32, hash_onto,
}
use lierc_api.Storable.Guard.{decode_counted-eq-decode_entries}

uint32-be32 : (n : ℕ) (rest : Bytes) → n < 2 ^ 32 → uint32 (be32 n ++ rest) ≡ some (n, rest)
unfolding uint32
uint32-be32 n rest h = ground arith

slice-append : (s rest : Bytes) → slice (length s) (s ++ rest) ≡ some (s, rest)
unfolding slice
slice-append s rest = ground (arith, length-append s rest, take-append s rest, drop-append s rest)

-- A length in network order, and as many bytes.
be32-slice :
    (s rest : Bytes)
    → length s < 2 ^ 32
    → (uint32 (be32 (length s) ++ (s ++ rest)) >>= λ p. slice p.0 p.1) ≡ some (s, rest)
be32-slice s rest h =
    ap (λ o. o >>= λ p. slice p.0 p.1) (uint32-be32 (length s) (s ++ rest) h) ∙ slice-append s rest

read_string-freeze_value :
    (s : Scalar) (v rest : Bytes)
    → length v < limit s
    → read_string (freeze_value s v ++ rest) ≡ some (v, rest)
unfolding read_string read_length uint8
read_string-freeze_value short v rest h = slice-append v rest
read_string-freeze_value utf8_short v rest h = slice-append v rest
read_string-freeze_value long v rest h = be32-slice v rest h
read_string-freeze_value utf8_long v rest h = be32-slice v rest h

read_key-freeze_key :
    (k rest : Bytes) → length k < 2 ^ 32 → read_key (freeze_key k ++ rest) ≡ some (k, rest)
unfolding read_key
read_key-freeze_key k rest h = be32-slice k rest h

decode_entries-freeze_entries :
    (es : List Entry) (out : Hash)
    → All Fits es
    → decode_entries (length es) (freeze_entries es) out ≡ some (hash_onto out es)
unfolding decode_entries freeze_entries hash_onto
decode_entries-freeze_entries [] out h = refl
decode_entries-freeze_entries (e ∷ es) out h =
    ap (λ o. o >>= λ p. read_key p.1 >>= λ q. decode_entries (length es) q.1 (insert q.0 p.0 out))
      (read_string-freeze_value e.scalar e.value (freeze_key e.key ++ freeze_entries es) h.0.0)
    ∙ ap (λ o. o >>= λ q. decode_entries (length es) q.1 (insert q.0 e.value out))
        (read_key-freeze_key e.key (freeze_entries es) h.0.1)
    ∙ decode_entries-freeze_entries es (insert e.key e.value out) h.1

-- Whatever entries a hash is frozen from, in any of the four string forms and under any minor
-- version, the reader returns the map that they make, a later entry over an earlier one.
pub decode_hash-freeze :
    (minor : ℕ) (es : List Entry)
    → length es < 2 ^ 32
    → All Fits es
    → decode_hash (freeze minor es) ≡ some (hash_onto [] es)
unfolding decode_hash decode_hash_body freeze
decode_hash-freeze minor es n h =
    ap (λ o. o >>= decode_counted) (uint32-be32 (length es) (freeze_entries es) n)
    ∙ decode_counted-eq-decode_entries (length es) (freeze_entries es)
    ∙ decode_entries-freeze_entries es [] h
