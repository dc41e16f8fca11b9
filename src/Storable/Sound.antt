-- ===== src/Storable/Sound.antt =====
-- What the reader accepts is what the format writes, and nothing else.
use lierc_api.Base.{
  ℕ, zero, suc, ◌^◌, ◌<◌, ◌≡◌, refl, sym, ◌∙◌, ap, ap₂, subst, List, [], ◌∷◌, ◌++◌, some, Bytes,
  length, All, arith, append_assoc, length-take, take-append-drop, All-drop, IsByte, ◌⊎◌, inl, inr,
  nat_eq, list_eq, >>=-eq-some, ◌>>=◌,
}
use lierc_api.Base.Assoc.{insert}
use lierc_api.Storable.{
  Hash, uint32, slice, read_length, read_string, uint8, read_key, decode_entries, decode_counted,
  decode_hash, decode_hash_body, sx_hash, sx_scalar, sx_utf8_str, sx_lscalar, sx_lutf8_str, header,
}
use lierc_api.Storable.Format.{
  Scalar, short, utf8_short, long, utf8_long, Entry, Fits, limit, opcode, freeze_length,
  freeze_value, freeze_key, freeze_entries, freeze, be32, hash_onto,
}
use lierc_api.Storable.Guard.{decode_counted-eq-decode_entries}

uint32_sound :
    (b : Bytes) {n : ℕ} {rest : Bytes}
    → All IsByte b
    → uint32 b ≡ some (n, rest)
    → (b ≡ be32 n ++ rest) × (n < 2 ^ 32) × All IsByte rest
unfolding uint32
uint32_sound (x ∷ y ∷ z ∷ w ∷ b) h e = ground arith
uint32_sound (x ∷ y ∷ z ∷ []) h e = cc
uint32_sound (x ∷ y ∷ []) h e = cc
uint32_sound (x ∷ []) h e = cc
uint32_sound [] h e = cc

slice_sound :
    (l : ℕ) (b : Bytes) {s rest : Bytes}
    → All IsByte b
    → slice l b ≡ some (s, rest)
    → (b ≡ s ++ rest) × (length s ≡ l) × All IsByte rest
unfolding slice
slice_sound l b {s} {rest} h e =
    ground (arith, take-append-drop l b, length-take l b, All-drop IsByte l b h)

uint8_sound :
    (b : Bytes) {n : ℕ} {rest : Bytes}
    → All IsByte b
    → uint8 b ≡ some (n, rest)
    → (b ≡ n ∷ rest) × (n < 256) × All IsByte rest
unfolding uint8
uint8_sound [] h e = cc
uint8_sound (x ∷ b) h e = ground arith

-- One or four bytes of length, by the opcode.
read_length_cases :
    (op : ℕ) (b : Bytes) {r : ℕ × Bytes}
    → read_length op b ≡ some r
    → (((op ≡ sx_scalar) ⊎ (op ≡ sx_utf8_str)) × (uint8 b ≡ some r))
      ⊎ (((op ≡ sx_lscalar) ⊎ (op ≡ sx_lutf8_str)) × (uint32 b ≡ some r))
unfolding read_length
read_length_cases op b e = ground arith

read_length_sound :
    (op : ℕ) (b : Bytes) {l : ℕ} {rest : Bytes}
    → All IsByte b
    → read_length op b ≡ some (l, rest)
    → (s : Scalar) × (op ≡ opcode s)
      × (b ≡ freeze_length s l ++ rest)
      × (l < limit s)
      × All IsByte rest
read_length_sound op b h e = elim (read_length_cases op b e) [
  | inl (inl o, f) ↦ let (p, q, r) = uint8_sound b h f in (short, o, p, q, r)
  | inl (inr o, f) ↦ let (p, q, r) = uint8_sound b h f in (utf8_short, o, p, q, r)
  | inr (inl o, f) ↦ let (p, q, r) = uint32_sound b h f in (long, o, p, q, r)
  | inr (inr o, f) ↦ let (p, q, r) = uint32_sound b h f in (utf8_long, o, p, q, r)
]

glue :
    (s : Scalar) (l : ℕ) (b b' v rest : Bytes)
    → b ≡ freeze_length s l ++ b'
    → b' ≡ v ++ rest
    → length v ≡ l
    → b ≡ (freeze_length s (length v) ++ v) ++ rest
glue s l b b' v rest p q e = rw (p, q, e, append_assoc (freeze_length s l) v rest) refl

read_string_sound :
    (b : Bytes) {v rest : Bytes}
    → All IsByte b
    → read_string b ≡ some (v, rest)
    → (s : Scalar) × (b ≡ freeze_value s v ++ rest) × (length v < limit s) × All IsByte rest
unfolding read_string
read_string_sound [] h e = cc
read_string_sound (op ∷ b) {v} {rest} h e =
    let ((l, b'), f, g) = >>=-eq-some (read_length op b) _ e in
    let (s, o, p, q, r) = read_length_sound op b h.1 f in
    let (p', q', r') = slice_sound l b' r g in
    (s, ap₂ ◌∷◌ o (glue s l b b' v rest p p' q'), rw q' q, r')

read_key_sound :
    (b : Bytes) {k rest : Bytes}
    → All IsByte b
    → read_key b ≡ some (k, rest)
    → (b ≡ freeze_key k ++ rest) × (length k < 2 ^ 32) × All IsByte rest
unfolding read_key
read_key_sound b {k} {rest} h e =
    let ((l, b'), f, g) = >>=-eq-some (uint32 b) _ e in
    let (p, q, r) = uint32_sound b h f in
    let (p', q', r') = slice_sound l b' r g in (glue long l b b' k rest p p' q', rw q' q, r')

decode_entries_sound :
    (n : ℕ) (b : Bytes) (out : Hash) {hash : Hash}
    → All IsByte b
    → decode_entries n b out ≡ some hash
    → (es : List Entry) × (b ≡ freeze_entries es)
      × (length es ≡ n)
      × All Fits es
      × (hash ≡ hash_onto out es)
unfolding decode_entries freeze_entries hash_onto
decode_entries_sound zero [] out h e = ([], refl, refl, tt, cc)
decode_entries_sound zero (x ∷ b) out h e = cc
decode_entries_sound (suc n) b out h e =
    let ((v, b1), e1, f1) = >>=-eq-some (read_string b) _ e in
    let ((k, b2), e2, f2) = >>=-eq-some (read_key b1) _ f1 in
    let (s, p, fit, h1) = read_string_sound b h e1 in
    let (q, fit', h2) = read_key_sound b1 h1 e2 in
    let (es, r, count, fits, made) = decode_entries_sound n b2 (insert k v out) h2 f2 in
    let entry : Entry = record { scalar = s; value = v; key = k } in
    (
      entry ∷ es,
      p ∙ ap (λ t. freeze_value s v ++ t) (q ∙ ap (λ t. freeze_key k ++ t) r),
      ap suc count,
      ((fit, fit'), fits),
      made,
    )

-- The two header bytes and the opcode of a hash stand in front of the count.
decode_hash-header :
    (b : Bytes) {hash : Hash}
    → decode_hash b ≡ some hash
    → (minor : ℕ) × (rest : Bytes) × (b ≡ header ∷ minor ∷ sx_hash ∷ rest)
      × ((uint32 rest >>= decode_counted) ≡ some hash)
unfolding decode_hash decode_hash_body
decode_hash-header [] e = cc
decode_hash-header (x ∷ []) e = cc
decode_hash-header (x ∷ minor ∷ []) e = ground arith
decode_hash-header (x ∷ minor ∷ op ∷ rest) e = (minor, rest, ground arith, ground arith)

freeze_glue :
    (minor n : ℕ) (b b' rest : Bytes) (es : List Entry)
    → b ≡ header ∷ minor ∷ sx_hash ∷ rest
    → rest ≡ be32 n ++ b'
    → b' ≡ freeze_entries es
    → length es ≡ n
    → b ≡ freeze minor es
unfolding freeze
freeze_glue minor n b b' rest es p q r len = rw (p, q, r, len) refl

-- Of any input bytes: if the reader returns a hash, the input is exactly what some list of
-- entries is frozen to, under the minor version that stands in it, and the hash is the map that
-- those entries make.
pub decode_hash_sound :
    (b : Bytes) {hash : Hash}
    → All IsByte b
    → decode_hash b ≡ some hash
    → (minor : ℕ) × (es : List Entry) × (b ≡ freeze minor es)
      × (length es < 2 ^ 32)
      × All Fits es
      × (hash ≡ hash_onto [] es)
decode_hash_sound b h e =
    let (minor, rest, p, f) = decode_hash-header b e in
    let ((n, b'), g, k) = >>=-eq-some (uint32 rest) decode_counted f in
    let h' : All IsByte rest = (subst (All IsByte) p h).1.1.1 in
    let (q, count, h'') = uint32_sound rest h' g in
    let accepted = ((sym (decode_counted-eq-decode_entries n b')) ∙ k) in
    let (es, r, len, fits, made) = decode_entries_sound n b' [] h'' accepted in
    (
      minor,
      es,
      freeze_glue minor n b b' rest es p q r len,
      subst (λ t. t < 2 ^ 32) (sym len) count,
      fits,
      made,
    )
