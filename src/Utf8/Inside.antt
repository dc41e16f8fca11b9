-- ===== src/Utf8/Inside.antt =====
-- package unicode/utf8: the bytes inside a code point, and the code points of two to four bytes.
use lierc_api.Base.{
  Bool-cases, ℕ, suc, ◌+◌, ◌-◌, ◌*◌, ◌≤◌, ◌<◌, ◌≡◌, refl, inl, inr, ◌&&◌, [], ◌∷◌, Option, none,
  some, Bytes, leb, arith, length,
}
use lierc_api.Utf8.{Text, encode_rune, ready, inside, step, onto, decode_from}

-- Reading goes on inside a code point only over bytes in range, and ends with it.
module _ (acc lo hi : ℕ) where
  pub last_byte :
      (bs : Bytes) (t : Text)
      → decode_from (inside 0 acc lo hi) bs ≡ some t
      → (b : ℕ) × (bs' : Bytes) × (t' : Text) × (bs ≡ b ∷ bs')
        × (lo ≤ b)
        × (b ≤ hi)
        × (t ≡ (acc * 64 + (b - 128)) ∷ t')
        × (decode_from ready bs' ≡ some t')
  unfolding decode_from step
  last_byte [] t e = cc
  last_byte (b ∷ bs) t e = elim (Bool-cases (leb lo b && leb b hi)) [
    | inr f ↦ absurd (ground arith)
    | inl f ↦ emitted (decode_from ready bs) refl (rw (f, decode_from, step) at e)
  ]
    where
      emitted :
          (o : Option Text)
          → decode_from ready bs ≡ o
          → onto (some (acc * 64 + (b - 128))) o ≡ some t
          → (c : ℕ) × (bs' : Bytes) × (t' : Text) × (b ∷ bs ≡ c ∷ bs')
            × (lo ≤ c)
            × (c ≤ hi)
            × (t ≡ (acc * 64 + (c - 128)) ∷ t')
            × (decode_from ready bs' ≡ some t')
      emitted none p k = cc
      emitted (some t') p k = (b, bs, t', refl, ground arith, ground arith, cc, p)

  pub more_bytes :
      (n : ℕ) (bs : Bytes) (t : Text)
      → decode_from (inside (suc n) acc lo hi) bs ≡ some t
      → (b : ℕ) × (bs' : Bytes) × (bs ≡ b ∷ bs')
        × (lo ≤ b)
        × (b ≤ hi)
        × (decode_from (inside n (acc * 64 + (b - 128)) 0x80 0xbf) bs' ≡ some t)
  unfolding decode_from step
  more_bytes n [] t e = cc
  more_bytes n (b ∷ bs) t e = elim (Bool-cases (leb lo b && leb b hi)) [
    | inr f ↦ absurd (ground arith)
    | inl f ↦ (b, bs, refl, ground arith, ground arith, unonto _ (rw (f, decode_from, step) at e))
  ]
    where
      unonto : (o : Option Text) → onto none o ≡ some t → o ≡ some t
      unonto none k = cc
      unonto (some u) k = k

pub encode_two :
    (b c : ℕ)
    → 0xc2 ≤ b
    → b < 0xe0
    → 0x80 ≤ c
    → c ≤ 0xbf
    → encode_rune ((b - 192) * 64 + (c - 128)) ≡ b ∷ c ∷ []
unfolding encode_rune
encode_two b c h k l m = ground arith

pub encode_three :
    (b c d : ℕ)
    → 0xe0 ≤ b
    → b < 0xf0
    → 0x80 ≤ c
    → c ≤ 0xbf
    → 0x80 ≤ d
    → d ≤ 0xbf
    → 0x800 ≤ ((b - 224) * 64 + (c - 128)) * 64 + (d - 128)
    → encode_rune (((b - 224) * 64 + (c - 128)) * 64 + (d - 128)) ≡ b ∷ c ∷ d ∷ []
unfolding encode_rune
encode_three b c d h k l m n o p = ground arith

pub encode_four :
    (b c d e : ℕ)
    → 0xf0 ≤ b
    → b < 0xf5
    → 0x80 ≤ c
    → c ≤ 0xbf
    → 0x80 ≤ d
    → d ≤ 0xbf
    → 0x80 ≤ e
    → e ≤ 0xbf
    → 0x10000 ≤ (((b - 240) * 64 + (c - 128)) * 64 + (d - 128)) * 64 + (e - 128)
    → encode_rune ((((b - 240) * 64 + (c - 128)) * 64 + (d - 128)) * 64 + (e - 128))
      ≡ b ∷ c ∷ d ∷ e ∷ []
unfolding encode_rune
encode_four b c d e h k l m n o p q s = ground arith

pub encode_rune-length : (r : ℕ) → 1 ≤ length (encode_rune r)
unfolding encode_rune
encode_rune-length r = ground arith

pub unonto : (o : Option Text) (t : Text) → onto none o ≡ some t → o ≡ some t
unonto none t k = cc
unonto (some u) t k = k
