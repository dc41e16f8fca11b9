-- ===== src/Json.antt =====
-- A JSON value as encoding/json decodes it into `any` with UseNumber: a number is its text, and an
-- object a map, whose entries stand in a list. Reading the text of a value is an argument where it
-- is used.
use lierc_api.Base.{Bool, Option, none, some, if◌then◌else◌, ◌==◌, nat_eq, list_eq}
use lierc_api.Utf8.{Text}

mutual
  pub data Json : Type 0 where
    null : Json
    boolean : Bool → Json
    number : Text → Json
    text : Text → Json
    array : Items → Json
    object : Fields → Json

  pub data Items : Type 0 where
    nil : Items
    cons : Json → Items → Items

  pub data Fields : Type 0 where
    end : Fields
    field : Text → Json → Fields → Fields

-- `params[k]`, nil for a missing key.
abbrev pub get : Text → Fields → Json
get k end = null
get k (field j v rest) = if j == k then v else get k rest

-- `Display`: a scalar as text for messages.
unfoldable pub display : Json → Option Text
display (text s) = some s
display (number s) = some s
display _ = none
