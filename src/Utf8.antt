-- ===== src/Utf8.antt =====
-- UTF-8 as Go's package unicode/utf8 reads and writes it. A Go string that is valid UTF-8, as each
-- string of a decoded JSON value is, stands in the model as the list of its code points, a `Text`.
pub mod Valid
pub mod Inside
pub mod Inverse
use lierc_api.Base.{
  ℕ, zero, suc, ◌+◌, ◌-◌, ◌*◌, ◌/◌, ◌%◌, ◌≤◌, ◌<◌, ◌⊎◌, Bool, ◌&&◌, List, [], ◌∷◌, ◌++◌, Option,
  none, some, Bytes, ltb, leb, if◌then◌else◌,
}

abbrev pub Text : Type 0
Text = List ℕ

-- A code point that is no surrogate.
abbrev pub IsRune : ℕ → Type 0
IsRune r = (r < 0xd800) ⊎ ((0xe000 ≤ r) × (r < 0x110000))

-- `utf8.RuneLen`
unfoldable pub rune_len : ℕ → ℕ
rune_len r = if ltb r 0x80 then 1 else if ltb r 0x800 then 2 else if ltb r 0x10000 then 3 else 4

-- `len` of the string.
unfoldable pub byte_len : Text → ℕ
byte_len [] = 0
byte_len (r ∷ rs) = rune_len r + byte_len rs

unfoldable pub encode_rune : ℕ → Bytes
encode_rune r =
    if ltb r 0x80
    then r ∷ []
    else if ltb r 0x800
    then (192 + r / 64) ∷ (128 + r % 64) ∷ []
    else if ltb r 0x10000
    then (224 + r / 4096) ∷ (128 + r / 64 % 64) ∷ (128 + r % 64) ∷ []
    else (240 + r / 262144) ∷ (128 + r / 4096 % 64) ∷ (128 + r / 64 % 64) ∷ (128 + r % 64) ∷ []

unfoldable pub encode : Text → Bytes
encode [] = []
encode (r ∷ rs) = encode_rune r ++ encode rs

-- Between two code points, or inside one: the continuation bytes to come after the next, the bits
-- read so far, and the range that the next byte must be in.
pub data State : Type 0 where
  ready : State
  inside : ℕ → ℕ → ℕ → ℕ → State

-- The first byte of a code point.
unfoldable pub lead : ℕ → Option (Option ℕ × State)
lead b =
    if ltb b 0x80
    then some (some b, ready)
    else if ltb b 0xc2
    then none
    else if ltb b 0xe0
    then some (none, inside 0 (b - 192) 0x80 0xbf)
    else if ltb b 0xe1
    then some (none, inside 1 (b - 224) 0xa0 0xbf)
    else if ltb b 0xed
    then some (none, inside 1 (b - 224) 0x80 0xbf)
    else if ltb b 0xee
    then some (none, inside 1 (b - 224) 0x80 0x9f)
    else if ltb b 0xf0
    then some (none, inside 1 (b - 224) 0x80 0xbf)
    else if ltb b 0xf1
    then some (none, inside 2 (b - 240) 0x90 0xbf)
    else if ltb b 0xf4
    then some (none, inside 2 (b - 240) 0x80 0xbf)
    else if ltb b 0xf5
    then some (none, inside 2 (b - 240) 0x80 0x8f)
    else none

abbrev pub gathered : ℕ → ℕ → Option ℕ × State
gathered zero r = (some r, ready)
gathered (suc n) r = (none, inside n r 0x80 0xbf)

unfoldable pub step : State → ℕ → Option (Option ℕ × State)
step ready b = lead b
step (inside n acc lo hi) b =
    if leb lo b && leb b hi then some (gathered n (acc * 64 + (b - 128))) else none

abbrev pub onto : Option ℕ → Option Text → Option Text
onto r none = none
onto none (some t) = some t
onto (some r) (some t) = some (r ∷ t)

unfoldable pub decode_from : State → Bytes → Option Text
decode_from ready [] = some []
decode_from (inside _ _ _ _) [] = none
decode_from s (b ∷ bs) = elim (step s b) [ none ↦ none | some (r, s') ↦ onto r (decode_from s' bs) ]

-- The text of a valid encoding, `none` where `utf8.Valid` is false.
unfoldable pub decode : Bytes → Option Text
decode bs = decode_from ready bs
