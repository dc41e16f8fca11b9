-- ===== src/Connconfig/Clean/Again.antt =====
-- internal/connconfig/connconfig.go: settings that `Clean` has returned pass it again unchanged, as
-- when lctl checks what the API saved.
use lierc_api.Base.{
  ℕ, ◌≡◌, ◌≤◌, refl, ap, ◌∙◌, ◌++◌, Option, none, some, true, false, arith, ◌==◌, nat_eq, list_eq,
  txt,
}
use lierc_api.Base.Radix.{decimal}
use lierc_api.Utf8.{Text}
use lierc_api.Json.{Json, null, boolean, number, text, array, object, Fields, end, field, get}
use lierc_api.Connconfig.Text.{valid, read_boolean}
use lierc_api.Connconfig.Text.Trimmed.{items_of}
use lierc_api.Connconfig.Clean.{
  Tables, Settings, host_of, port_of, nick_of, user_of, pass_of, channels_of, highlight_of,
  alias_of, clean_fields, clean_value,
}
use lierc_api.Connconfig.Patterns.{
  user_re, err_user, alias_re, err_alias, channel_re, not_in, is_control,
}
use lierc_api.Connconfig.Clean.Kept.{
  json_of, optional_again, pass_again, list_again, boolean_again, host_again, nick_again,
  port_again,
}

-- The settings as the JSON object that is saved: an optional key is missing where it has no value.
abbrev field_if : Text → Option Text → Fields → Fields
field_if key none rest = rest
field_if key (some s) rest = field key (text s) rest

abbrev optionals : Settings → Fields
optionals c =
    field_if (txt "User") c.user (field_if (txt "Pass") c.pass (field_if (txt "Alias") c.alias end))

unfoldable pub fields_of : Settings → Fields
fields_of c = field (txt "Host") (text c.host) (
    field (txt "Port") (number (decimal c.port)) (
      field (txt "Nick") (text c.nick) (
        field (txt "Channels") (array (items_of c.channels)) (
          field (txt "Highlight") (array (items_of c.highlight)) (
            field (txt "Ssl") (boolean c.ssl)
              (field (txt "SASL") (boolean c.sasl) (optionals c)))))))

get-field_if_ne :
    (k j : Text) (o : Option Text) (rest : Fields)
    → (j == k) ≡ false
    → get k (field_if j o rest) ≡ get k rest
get-field_if_ne k j none rest h = refl
get-field_if_ne k j (some s) rest h = rw h

get-field_if :
    (k : Text) (o : Option Text) (rest : Fields)
    → (k == k) ≡ true
    → get k rest ≡ null
    → get k (field_if k o rest) ≡ json_of o
get-field_if k none rest h z = z
get-field_if k (some s) rest h z = rw h

module _ (c : Settings) where
  get-User : get (txt "User") (optionals c) ≡ json_of c.user
  get-User = get-field_if (txt "User") c.user _ refl (
      get-field_if_ne (txt "User") (txt "Pass") c.pass _ refl
      ∙ get-field_if_ne (txt "User") (txt "Alias") c.alias _ refl)

  get-Pass : get (txt "Pass") (optionals c) ≡ json_of c.pass
  get-Pass =
      get-field_if_ne (txt "Pass") (txt "User") c.user _ refl
      ∙ get-field_if (txt "Pass") c.pass _ refl
          (get-field_if_ne (txt "Pass") (txt "Alias") c.alias _ refl)

  get-Alias : get (txt "Alias") (optionals c) ≡ json_of c.alias
  get-Alias =
      get-field_if_ne (txt "Alias") (txt "User") c.user _ refl
      ∙ (get-field_if_ne (txt "Alias") (txt "Pass") c.pass _ refl
          ∙ get-field_if (txt "Alias") c.alias _ refl refl)

module _ (tables : Tables) (params : Fields) where
  -- What each field was read as.
  abbrev Read : Settings → Type 0
  Read c =
      (host_of tables (get (txt "Host") params) ≡ valid c.host)
      × (port_of tables (get (txt "Port") params) ≡ valid c.port)
      × (nick_of tables (get (txt "Nick") params) ≡ valid c.nick)
      × (user_of (get (txt "User") params) ≡ valid c.user)
      × (pass_of (get (txt "Pass") params) ≡ valid c.pass)
      × (channels_of (get (txt "Channels") params) ≡ valid c.channels)
      × (highlight_of (get (txt "Highlight") params) ≡ valid c.highlight)
      × (alias_of (get (txt "Alias") params) ≡ valid c.alias)
      × (read_boolean (get (txt "Ssl") params) (txt "Ssl") ≡ valid c.ssl)
      × (read_boolean (get (txt "SASL") params) (txt "SASL") ≡ valid c.sasl)

  clean_fields-Read : (c : Settings) → clean_fields tables params ≡ valid c → Read c
  unfolding clean_fields
  clean_fields-Read c e = ground arith

  Read-clean_fields : (c : Settings) → Read c → clean_fields tables params ≡ valid c
  unfolding clean_fields
  Read-clean_fields c (h, p, n, u, w, s, l, a, x, y) = rw (h, p, n, u, w, s, l, a, x, y)

-- If `Clean` accepts any settings, it accepts what it made of them, saved as JSON with the optional
-- keys that have a value, and makes the same of it, where `strconv.ParseFloat` reads back the text of
-- a whole number up to 65535.
pub clean_value-fields_of :
    (tables : Tables)
    → ((n : ℕ) → n ≤ 65535 → tables.whole (decimal n) ≡ some n)
    → (raw : Option Json) (c : Settings) → clean_value tables raw ≡ valid c
    → clean_value tables (some (object (fields_of c))) ≡ valid c
unfolding clean_value fields_of user_of channels_of highlight_of alias_of
clean_value-fields_of tables exact none c e = cc
clean_value-fields_of tables exact (some null) c e = cc
clean_value-fields_of tables exact (some (boolean _)) c e = cc
clean_value-fields_of tables exact (some (number _)) c e = cc
clean_value-fields_of tables exact (some (text _)) c e = cc
clean_value-fields_of tables exact (some (array _)) c e = cc
clean_value-fields_of tables exact (some (object params)) c e =
    let (h, p, n, u, w, s, l, a, x, y) = clean_fields-Read tables params c e in
    Read-clean_fields tables (fields_of c) c (
      host_again tables _ c.host h,
      port_again tables exact _ c.port p,
      nick_again tables _ c.nick n,
      ap user_of (get-User c) ∙ optional_again user_re err_user (txt "Username") _ c.user u,
      ap pass_of (get-Pass c) ∙ pass_again _ c.pass w,
      list_again channel_re (λ c. c ++ txt " isn't a valid channel name") _ (txt "Channels")
          c.channels s,
      list_again (not_in is_control) (λ h. txt "Highlight words can't contain control characters") _
          (txt "Highlight") c.highlight l,
      ap alias_of (get-Alias c)
          ∙ optional_again alias_re err_alias (txt "Network alias") _ c.alias a,
      boolean_again (txt "Ssl") c.ssl,
      boolean_again (txt "SASL") c.sasl,
    )
