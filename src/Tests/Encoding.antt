-- ===== src/Tests/Encoding.antt =====
-- Texts and configs that were encoded twice.
use lierc_api.Base.{
  ◌≡◌, ◌↔◌, refl, inl, inr, [], ◌∷◌, true, none, some, txt, nat_eq, list_eq, All, arith,
}
use lierc_api.Utf8.{IsRune, encode, decode, decode_from, step, lead}
use lierc_api.Json.{Json, text, array, object, nil, cons, end, field}
use lierc_api.World.{ok}
use lierc_api.World.Acts.{Extends}
use lierc_api.Lctl.Encoding.{
  latin1, undo_double_utf8, repair_value, Row, Store, fix_config_encoding,
}
use lierc_api.Lctl.Encoding.Undone.{any_high, undo_double_utf8_lem}
use lierc_api.Lctl.Encoding.Repaired.{encode_twice, AllRunes, repair_value-encode_twice}
use lierc_api.Lctl.Encoding.Saved.{SavesRepair, fix_config_encoding-SavesRepair}

-- "é!" as the two characters of its encoding.
undone : undo_double_utf8 (0xc3 ∷ 0xa9 ∷ b'!' ∷ []) ≡ some (0xe9 ∷ b'!' ∷ [])
unfolding undo_double_utf8 latin1 decode decode_from step lead
undone = refl

-- "é" as it should be is no valid encoding.
left_alone : undo_double_utf8 (0xe9 ∷ []) ≡ none
unfolding undo_double_utf8 latin1 decode decode_from step lead
left_alone = refl

undo_double_utf8_lem_example : (undo_double_utf8 (0xc3 ∷ 0xa9 ∷ []) ≡ some (0xe9 ∷ [])) ↔ (
    (0xc3 ∷ 0xa9 ∷ [] ≡ encode (0xe9 ∷ []))
    × All IsRune (0xe9 ∷ [])
    × (any_high (0xe9 ∷ []) ≡ true))
undo_double_utf8_lem_example = undo_double_utf8_lem (0xc3 ∷ 0xa9 ∷ []) (0xe9 ∷ [])

abbrev config : Json
config =
    object (
      field (txt "Highlight") (array (cons (text (0x1f370 ∷ [])) (cons (text (txt "ann")) nil)))
        end)

runes : AllRunes config
unfolding AllRunes
runes = (
  (
    (inr (omega arith), tt),
    ((inl (omega arith), (inl (omega arith), (inl (omega arith), tt))), tt),
  ),
  tt,
)

repair_value-encode_twice_example : (repair_value (encode_twice config)).0 ≡ config
repair_value-encode_twice_example = repair_value-encode_twice config runes

abbrev row : Row
row = record { id = txt "c1"; username = txt "ann"; config = txt "old" }

abbrev store : Store
store = record {
  decode_json = λ s. some (object (field (txt "Nick") (text (0xc3 ∷ 0xa9 ∷ [])) end));
  encode_json = λ f. some (txt "new");
  update_config = λ h id new old. ok 1;
  notify_error = λ h. none;
}

fix_config_encoding-SavesRepair_example :
    Extends
      (SavesRepair store true (row ∷ []))
      []
      (fix_config_encoding store true (ok (row ∷ [])) []).1
fix_config_encoding-SavesRepair_example = fix_config_encoding-SavesRepair store true (row ∷ []) []
