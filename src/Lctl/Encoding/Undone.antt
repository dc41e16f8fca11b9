-- ===== src/Lctl/Encoding/Undone.antt =====
-- internal/lctl/fix_config_encoding.go: which texts `undoDoubleUTF8` takes for encoded twice.
use lierc_api.Base.{
  ℕ, ◌≡◌, ◌↔◌, ◌≤◌, refl, sym, ap, ◌∙◌, inl, inr, Bool, true, false, ◌||◌, [], ◌∷◌, ◌++◌,
  append_assoc, append-nil, ap₂, Option, none, some, Bytes, All, All-append, arith, Bool-cases, ltb,
  leb,
}
use lierc_api.Utf8.{Text, IsRune, encode_rune, encode, decode}
use lierc_api.Utf8.Valid.{decode-encode}
use lierc_api.Utf8.Inverse.{decode_sound}
use lierc_api.Lctl.Encoding.{latin1, if_high, undo_double_utf8}

-- Whether a character is not ASCII.
abbrev pub any_high : Text → Bool
any_high [] = false
any_high (r ∷ rs) = leb 0x80 r || any_high rs

abbrev IsLatin1 : Text → Type 0
IsLatin1 s = All (λ r. r ≤ 0xff) s

latin1-IsLatin1 :
    (s : Text) (b : Bytes) (high : Bool)
    → IsLatin1 s
    → latin1 s b high ≡ some (b ++ s, high || any_high s)
unfolding latin1
latin1-IsLatin1 [] b high h = ground (arith, append-nil b)
latin1-IsLatin1 (r ∷ rs) b high h = ground (
  arith,
  latin1-IsLatin1 rs (b ++ (r ∷ [])) (high || leb 0x80 r) h.1,
  append_assoc b (r ∷ []) rs,
  or_assoc high (leb 0x80 r) (any_high rs),
)
  where
    or_assoc : (x y z : Bool) → ((x || y) || z) ≡ (x || (y || z))
    or_assoc true y z = refl
    or_assoc false y z = refl

latin1_sound :
    (s : Text) (b : Bytes) (high : Bool) (q : Bytes × Bool) → latin1 s b high ≡ some q → IsLatin1 s
unfolding latin1
latin1_sound [] b high q e = tt
latin1_sound (r ∷ rs) b high q e = elim (Bool-cases (ltb 0xff r)) [
  | inl h ↦ absurd (ground arith)
  | inr h ↦
      (ground arith, latin1_sound rs (b ++ (r ∷ [])) (high || leb 0x80 r) q (rw (h, latin1) at e))
]

encode_rune-IsLatin1 : (r : ℕ) → IsRune r → IsLatin1 (encode_rune r)
unfolding encode_rune
encode_rune-IsLatin1 r h = ground arith

encode-IsLatin1 : (t : Text) → All IsRune t → IsLatin1 (encode t)
unfolding encode
encode-IsLatin1 [] h = tt
encode-IsLatin1 (r ∷ rs) h =
    All-append (λ r. r ≤ 0xff) (encode_rune r) (encode rs) (encode_rune-IsLatin1 r h.0)
      (encode-IsLatin1 rs h.1)

any_high-append : (s t : Text) → any_high (s ++ t) ≡ (any_high s || any_high t)
any_high-append [] t = refl
any_high-append (r ∷ rs) t = ground (arith, any_high-append rs t)

any_high-encode_rune : (r : ℕ) → any_high (encode_rune r) ≡ leb 0x80 r
unfolding encode_rune
any_high-encode_rune r = ground arith

pub any_high-encode : (t : Text) → any_high (encode t) ≡ any_high t
unfolding encode
any_high-encode [] = refl
any_high-encode (r ∷ rs) =
    any_high-append (encode_rune r) (encode rs)
    ∙ ap₂ (λ x y. x || y) (any_high-encode_rune r) (any_high-encode rs)

-- `undoDoubleUTF8` makes `t` of a text exactly if the text is the UTF-8 encoding of `t`, byte by
-- byte taken as characters, and `t` is a text of code points that has one beyond ASCII.
pub undo_double_utf8_lem :
    (s t : Text)
    → (undo_double_utf8 s ≡ some t) ↔ ((s ≡ encode t) × All IsRune t × (any_high t ≡ true))
unfolding undo_double_utf8
undo_double_utf8_lem s t = (there, back)
  where
    decoded :
        (high : Bool) → if_high (some (s, high)) ≡ some t → (high ≡ true) × (decode s ≡ some t)
    decoded true e = (refl, e)
    decoded false e = cc

    found : (o : Option (Bytes × Bool)) → latin1 s [] false ≡ o → if_high o ≡ some t → IsLatin1 s
    found none p e = cc
    found (some q) p e = latin1_sound s [] false q p

    there :
        if_high (latin1 s [] false) ≡ some t → (s ≡ encode t) × All IsRune t × (any_high t ≡ true)
    there e =
        let l = found (latin1 s [] false) refl e in
        let (h, d) = decoded (any_high s) (rw (latin1-IsLatin1 s [] false l) at e) in
        let (x, v) = decode_sound s t d in (sym x, v, sym (any_high-encode t) ∙ ap any_high x ∙ h)

    back :
        (s ≡ encode t) × All IsRune t × (any_high t ≡ true) → if_high (latin1 s [] false) ≡ some t
    back (p, v, h) = rw p (
        rw (latin1-IsLatin1 (encode t) [] false (encode-IsLatin1 t v), any_high-encode t, h)
          (decode-encode t v))
