-- ===== src/Lctl/Encoding/Repaired.antt =====
-- internal/lctl/fix_config_encoding.go: a value whose texts were each encoded twice is repaired.
use lierc_api.Base.{
  ◌≡◌, refl, ap, ap₂, inl, inr, false, [], ◌∷◌, Option, none, some, All, arith, Bool-cases,
}
use lierc_api.Utf8.{Text, IsRune, encode_rune, encode}
use lierc_api.Json.{
  Json, null, boolean, number, text, array, object, Items, nil, cons, Fields, end, field,
}
use lierc_api.Lctl.Encoding.{
  undo_double_utf8, repaired_text, repair_value, repair_items, repair_fields,
}
use lierc_api.Lctl.Encoding.Undone.{any_high, any_high-encode, undo_double_utf8_lem}

-- What the Perl service saved: each text as its UTF-8 bytes, taken as characters.
unfoldable mutual
  pub encode_twice : Json → Json
  encode_twice null = null
  encode_twice (boolean b) = boolean b
  encode_twice (number n) = number n
  encode_twice (text s) = text (encode s)
  encode_twice (array items) = array (encode_items items)
  encode_twice (object fields) = object (encode_fields fields)

  pub encode_items : Items → Items
  encode_items nil = nil
  encode_items (cons v items) = cons (encode_twice v) (encode_items items)

  pub encode_fields : Fields → Fields
  encode_fields end = end
  encode_fields (field k v fields) = field k (encode_twice v) (encode_fields fields)

-- The texts are of code points.
unfoldable mutual
  pub AllRunes : Json → Type 0
  AllRunes (text s) = All IsRune s
  AllRunes (array items) = ItemRunes items
  AllRunes (object fields) = FieldRunes fields
  AllRunes null = Unit
  AllRunes (boolean b) = Unit
  AllRunes (number n) = Unit

  pub ItemRunes : Items → Type 0
  ItemRunes nil = Unit
  ItemRunes (cons v items) = AllRunes v × ItemRunes items

  pub FieldRunes : Fields → Type 0
  FieldRunes end = Unit
  FieldRunes (field k v fields) = AllRunes v × FieldRunes fields

encode_ascii : (s : Text) → any_high s ≡ false → encode s ≡ s
unfolding encode encode_rune
encode_ascii [] h = refl
encode_ascii (r ∷ rs) h = ground (arith, encode_ascii rs)

repaired_text-encode :
    (s : Text) → All IsRune s → (repaired_text (encode s) (undo_double_utf8 (encode s))).0 ≡ text s
repaired_text-encode s v = elim (Bool-cases (any_high s)) [
  | inl h ↦ rw ((undo_double_utf8_lem (encode s) s).1 (refl, v, h))
  | inr h ↦ ascii (undo_double_utf8 (encode s)) refl h
]
  where
    ascii :
        (o : Option Text)
        → undo_double_utf8 (encode s) ≡ o
        → any_high s ≡ false
        → (repaired_text (encode s) o).0 ≡ text s
    ascii none p h = ap text (encode_ascii s h)
    ascii (some t) p h =
        let (x, _, k) = (undo_double_utf8_lem (encode s) t).0 p in
        let z : any_high (encode t) ≡ any_high t = any_high-encode t in
        let y : any_high (encode s) ≡ any_high s = any_high-encode s in
        let w : any_high (encode s) ≡ any_high (encode t) = ap any_high x in cc

mutual
  unfolding repair_value encode_twice AllRunes

  repaired : (v : Json) → AllRunes v → (repair_value (encode_twice v)).0 ≡ v
  repaired null h = refl
  repaired (boolean b) h = refl
  repaired (number n) h = refl
  repaired (text s) h = repaired_text-encode s h
  repaired (array items) h = ap array (items_repaired items h)
  repaired (object fields) h = ap object (fields_repaired fields h)

  items_repaired : (items : Items) → ItemRunes items → (repair_items (encode_items items)).0 ≡ items
  items_repaired nil h = refl
  items_repaired (cons v items) h = ap₂ cons (repaired v h.0) (items_repaired items h.1)

  fields_repaired :
      (fields : Fields) → FieldRunes fields → (repair_fields (encode_fields fields)).0 ≡ fields
  fields_repaired end h = refl
  fields_repaired (field k v fields) h = ap₂ (field k) (repaired v h.0) (fields_repaired fields h.1)

-- Whatever value had each of its texts encoded twice, `repairValue` gives it back.
pub repair_value-encode_twice : (v : Json) → AllRunes v → (repair_value (encode_twice v)).0 ≡ v
repair_value-encode_twice v h = repaired v h
