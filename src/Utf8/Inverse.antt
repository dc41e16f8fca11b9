-- ===== src/Utf8/Inverse.antt =====
-- package unicode/utf8: what is decoded encodes to the input.
use lierc_api.Base.{
  Bool-cases, sym, subst, ℕ, zero, suc, ◌+◌, ◌-◌, ◌*◌, ◌≤◌, ◌<◌, ◌≡◌, refl, ap, ◌∙◌, inl, inr, [],
  ◌∷◌, ◌++◌, Option, none, some, Bytes, ltb, arith, All, length, length-append,
}
use lierc_api.Utf8.{
  Text, IsRune, encode_rune, encode, State, ready, inside, lead, step, onto, decode_from, decode,
}
use lierc_api.Utf8.Valid.{one}
use lierc_api.Utf8.Inside.{
  last_byte, more_bytes, encode_two, encode_three, encode_four, encode_rune-length, unonto,
}

-- One code point in front of a valid encoding.
Fronted : Bytes → Text → Type 0
Fronted bs t =
    (r : ℕ) × (bs' : Bytes) × (t' : Text) × (bs ≡ encode_rune r ++ bs')
    × (t ≡ r ∷ t')
    × IsRune r
    × (decode_from ready bs' ≡ some t')

module _ (b : ℕ) (bs : Bytes) (t : Text) where
  one_front : b < 0x80 → decode_from ready (b ∷ bs) ≡ some t → Fronted (b ∷ bs) t
  unfolding Fronted encode_rune
  one_front h e = read (decode_from ready bs) refl (sym (one b bs h) ∙ e)
    where
      read :
          (o : Option Text)
          → decode_from ready bs ≡ o
          → onto (some b) o ≡ some t
          → Fronted (b ∷ bs) t
      read none p k = cc
      read (some u) p k = (b, bs, u, ground arith, cc, inl (omega arith), p)

  two_front :
      0xc2 ≤ b
      → b < 0xe0
      → decode_from (inside 0 (b - 192) 0x80 0xbf) bs ≡ some t
      → Fronted (b ∷ bs) t
  unfolding Fronted
  two_front h k e =
      let (c, bs', t', p, l, m, q, d) = last_byte (b - 192) 0x80 0xbf bs t e in
      ((b - 192) * 64 + (c - 128), bs', t', rw (p, encode_two b c h k l m), q, inl (omega arith), d)

  three_front :
      (lo hi : ℕ)
      → 0xe0 ≤ b
      → b < 0xf0
      → 0x80 ≤ lo
      → hi ≤ 0xbf
      → (b ≡ 0xe0 → 0xa0 ≤ lo)
      → (b ≡ 0xed → hi ≤ 0x9f)
      → decode_from (inside 1 (b - 224) lo hi) bs ≡ some t
      → Fronted (b ∷ bs) t
  unfolding Fronted
  three_front lo hi h k wl wh low high e =
      let (c, cs, p, l, m, e') = more_bytes (b - 224) lo hi 0 bs t e in
      let (d, ds, t', p', l', m', q, g) =
        last_byte ((b - 224) * 64 + (c - 128)) 0x80 0xbf cs t e' in
      (
        ((b - 224) * 64 + (c - 128)) * 64 + (d - 128),
        ds,
        t',
        rw (p, p', encode_three b c d h k (omega arith) (omega arith) l' m' (ground arith)),
        q,
        ground arith,
        g,
      )

  four_front :
      (lo hi : ℕ)
      → 0xf0 ≤ b
      → b < 0xf5
      → 0x80 ≤ lo
      → hi ≤ 0xbf
      → (b ≡ 0xf0 → 0x90 ≤ lo)
      → (b ≡ 0xf4 → hi ≤ 0x8f)
      → decode_from (inside 2 (b - 240) lo hi) bs ≡ some t
      → Fronted (b ∷ bs) t
  unfolding Fronted
  four_front lo hi h k wl wh low high e =
      let (c, cs, p, l, m, e') = more_bytes (b - 240) lo hi 1 bs t e in
      let (d, ds, p', l', m', e'') = more_bytes ((b - 240) * 64 + (c - 128)) 0x80 0xbf 0 cs t e' in
      let (f, fs, t', p'', l'', m'', q, g) =
        last_byte (((b - 240) * 64 + (c - 128)) * 64 + (d - 128)) 0x80 0xbf ds t e'' in
      (
        (((b - 240) * 64 + (c - 128)) * 64 + (d - 128)) * 64 + (f - 128),
        fs,
        t',
        rw (
          p,
          p',
          p'',
          encode_four b c d f h k (omega arith) (omega arith) l' m' l'' m'' (ground arith),
        ),
        q,
        ground arith,
        g,
      )

  -- What the first byte of a longer code point asks of the next one.
  abbrev Asks : Option (Option ℕ × State) → Type 0
  Asks none = Unit
  Asks (some (some _, s)) = b < 0x80
  Asks (some (none, ready)) = ⊥
  Asks (some (none, inside zero acc lo hi)) =
      (0xc2 ≤ b) × (b < 0xe0) × (acc ≡ b - 192) × (lo ≡ 0x80) × (hi ≡ 0xbf)
  Asks (some (none, inside (suc zero) acc lo hi)) =
      (0xe0 ≤ b)
      × (b < 0xf0)
      × (acc ≡ b - 224)
      × (0x80 ≤ lo)
      × (hi ≤ 0xbf)
      × (b ≡ 0xe0 → 0xa0 ≤ lo)
      × (b ≡ 0xed → hi ≤ 0x9f)
  Asks (some (none, inside (suc (suc zero)) acc lo hi)) =
      (0xf0 ≤ b)
      × (b < 0xf5)
      × (acc ≡ b - 240)
      × (0x80 ≤ lo)
      × (hi ≤ 0xbf)
      × (b ≡ 0xf0 → 0x90 ≤ lo)
      × (b ≡ 0xf4 → hi ≤ 0x8f)
  Asks (some (none, inside (suc (suc (suc n))) acc lo hi)) = ⊥

  lead-Asks : Asks (lead b)
  unfolding lead
  lead-Asks = ground arith

  onto_next : Option (Option ℕ × State) → Option Text
  onto_next o = elim o [ none ↦ none | some (r, s) ↦ onto r (decode_from s bs) ]

  longer :
      0x80 ≤ b
      → (o : Option (Option ℕ × State)) → Asks o
      → onto_next o ≡ some t
      → Fronted (b ∷ bs) t
  unfolding onto_next
  longer h none a k = cc
  longer h (some (some r, s)) a k = absurd (omega arith)
  longer h (some (none, ready)) a k = absurd a
  longer h (some (none, inside zero acc lo hi)) (x, y, ea, el, eh) k = two_front x y (
      subst (λ (q : ℕ × ℕ × ℕ). decode_from (inside 0 q.0 q.1 q.2) bs ≡ some t) (cc) (unonto _ t k))
  longer h (some (none, inside (suc zero) acc lo hi)) (x, y, ea, l, m, low, high) k =
      three_front lo hi x y l m low high (rw ea at (unonto _ t k))
  longer h (some (none, inside (suc (suc zero)) acc lo hi)) (x, y, ea, l, m, low, high) k =
      four_front lo hi x y l m low high (rw ea at (unonto _ t k))
  longer h (some (none, inside (suc (suc (suc n))) acc lo hi)) a k = absurd a

  front : decode_from ready (b ∷ bs) ≡ some t → Fronted (b ∷ bs) t
  unfolding onto_next decode_from step
  front e = elim (Bool-cases (ltb b 0x80)) [
    | inl h ↦ one_front (ground arith) e
    | inr h ↦ longer (ground arith) (lead b) lead-Asks e
  ]

-- What is decoded is a text of code points that encodes to the input.
sound :
    (fuel : ℕ) (bs : Bytes) (t : Text)
    → length bs ≤ fuel
    → decode_from ready bs ≡ some t
    → (encode t ≡ bs) × All IsRune t
unfolding encode Fronted decode_from
sound fuel [] t h e =
    let z : [] ≡ t = (cc) in subst (λ u. (encode u ≡ []) × All IsRune u) z (refl, tt)
sound zero (b ∷ bs) t h e = absurd (omega arith)
sound (suc fuel) (b ∷ bs) t h e =
    let (r, bs', t', p, q, v, d) = front b bs t e in
    let (x, y) = sound fuel bs' t' (shorter r bs' p) d in
    rw q (ap (λ z. encode_rune r ++ z) x ∙ sym p, (v, y))
  where
    shorter : (r : ℕ) (bs' : Bytes) → b ∷ bs ≡ encode_rune r ++ bs' → length bs' ≤ fuel
    shorter r bs' p =
        omega (arith, ap length p, length-append (encode_rune r) bs', encode_rune-length r)

pub decode_sound : (bs : Bytes) (t : Text) → decode bs ≡ some t → (encode t ≡ bs) × All IsRune t
unfolding decode
decode_sound bs t e = sound (length bs) bs t (omega arith) e
