-- ===== src/Utf8/Valid.antt =====
-- package unicode/utf8: what is encoded is valid, and is decoded to the same text.
use lierc_api.Base.{
  Bool-cases, ℕ, ◌+◌, ◌/◌, ◌%◌, ◌≤◌, ◌<◌, ◌≡◌, refl, ap, ◌∙◌, inl, inr, [], ◌∷◌, ◌++◌, some, Bytes,
  ltb, arith, All,
}
use lierc_api.Utf8.{Text, IsRune, encode_rune, encode, ready, lead, step, onto, decode_from, decode}

two :
    (r : ℕ) (bs : Bytes)
    → 0x80 ≤ r
    → r < 0x800
    → decode_from ready ((192 + r / 64) ∷ (128 + r % 64) ∷ bs)
      ≡ onto (some r) (decode_from ready bs)
unfolding decode_from step lead
two r bs h k = ground arith

three :
    (r : ℕ) (bs : Bytes)
    → 0x800 ≤ r
    → r < 0x10000
    → IsRune r
    → decode_from ready ((224 + r / 4096) ∷ (128 + r / 64 % 64) ∷ (128 + r % 64) ∷ bs)
      ≡ onto (some r) (decode_from ready bs)
unfolding decode_from step lead
three r bs h k v = ground arith

four :
    (r : ℕ) (bs : Bytes)
    → 0x10000 ≤ r
    → IsRune r
    → decode_from ready
        ((240 + r / 262144) ∷ (128 + r / 4096 % 64) ∷ (128 + r / 64 % 64) ∷ (128 + r % 64) ∷ bs)
      ≡ onto (some r) (decode_from ready bs)
unfolding decode_from step lead
four r bs h v = ground arith

pub one :
    (r : ℕ) (bs : Bytes)
    → r < 0x80
    → decode_from ready (r ∷ bs) ≡ onto (some r) (decode_from ready bs)
unfolding decode_from step lead
one r bs h = ground arith

-- A code point's bytes in front of others are read as this code point.
decode_from-encode_rune :
    (r : ℕ) (bs : Bytes)
    → IsRune r
    → decode_from ready (encode_rune r ++ bs) ≡ onto (some r) (decode_from ready bs)
unfolding encode_rune
decode_from-encode_rune r bs v = elim (Bool-cases (ltb r 0x80)) [
  | inl a ↦ rw a (one r bs (ground arith))
  | inr a ↦ elim (Bool-cases (ltb r 0x800)) [
    | inl b ↦ rw (a, b) (two r bs (ground arith) (ground arith))
    | inr b ↦ elim (Bool-cases (ltb r 0x10000)) [
      | inl c ↦ rw (a, b, c) (three r bs (ground arith) (ground arith) v)
      | inr c ↦ rw (a, b, c) (four r bs (ground arith) v)
    ]
  ]
]

pub decode-encode : (t : Text) → All IsRune t → decode (encode t) ≡ some t
unfolding decode encode
decode-encode [] h = unfold decode_from in refl
decode-encode (r ∷ rs) h =
    decode_from-encode_rune r (encode rs) h.0 ∙ ap (onto (some r)) (decode-encode rs h.1)
