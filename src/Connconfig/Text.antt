-- ===== src/Connconfig/Text.antt =====
-- internal/connconfig/connconfig.go: `trim`, and `str`, `list` and `boolean`, which read a field.
-- An error is the text of its message.
pub mod Trimmed
use lierc_api.Base.{
  ℕ, zero, suc, Bool, true, false, ◌||◌, ◌&&◌, List, [], ◌∷◌, ◌++◌, reverse, Option, none, some,
  leb, if◌then◌else◌, ◌==◌, nat_eq, list_eq, txt,
}
use lierc_api.Utf8.{Text}
use lierc_api.Json.{Json, null, boolean, number, text, array, object, Items, nil, cons}

pub data Checked (A : Type 0) : Type 0 where
  valid : A → Checked A
  invalid : Text → Checked A

infixl 5 ◌>>=◌
abbrev pub ◌>>=◌ : {A B : Type 0} → Checked A → (A → Checked B) → Checked B
valid a >>= f = f a
invalid e >>= f = invalid e

-- `unicode.IsSpace`, and the class `perlSpace`: the White_Space property.
unfoldable pub is_space : ℕ → Bool
is_space c =
    (leb 0x9 c && leb c 0xd)
    || (c == b' '
        || (c == 0x85
            || (c == 0xa0
                || (c == 0x1680
                    || ((leb 0x2000 c && leb c 0x200a)
                        || (c == 0x2028
                            || (c == 0x2029 || (c == 0x202f || (c == 0x205f || c == 0x3000)))))))))

unfoldable pub drop_space : Text → Text
drop_space [] = []
drop_space (c ∷ cs) = let rest = drop_space cs in if is_space c then rest else c ∷ cs

-- `trim`
unfoldable pub trim : Text → Text
trim s = reverse (drop_space (reverse (drop_space s)))

-- `str`: a missing field is `none`.
unfoldable pub str : Json → Text → Checked (Option Text)
str null label = valid none
str (text s) label = valid (some s)
str _ label = invalid (label ++ txt " must be a string")

abbrev pub or_empty : Option Text → Text
or_empty none = []
or_empty (some s) = s

abbrev pub unless_blank : Text → List Text → List Text
unless_blank [] items = items
unless_blank (c ∷ cs) items = (c ∷ cs) ∷ items

-- The loop of `list`, over its items.
unfoldable pub list_items : Items → Text → Checked (List Text)
list_items nil name = valid []
list_items (cons (text s) items) name = do
  rest ← list_items items name
  valid (unless_blank (trim s) rest)
list_items (cons _ items) name = invalid (name ++ txt " must be a list of strings")

-- `list`
unfoldable pub list : Json → Text → Checked (List Text)
list null name = valid []
list (array items) name = list_items items name
list _ name = invalid (name ++ txt " must be a list of strings")

-- `boolean`
unfoldable pub read_boolean : Json → Text → Checked Bool
read_boolean null name = valid false
read_boolean (boolean b) name = valid b
read_boolean _ name = invalid (name ++ txt " must be true or false")
