-- ===== src/Connconfig/Clean.antt =====
-- internal/connconfig/connconfig.go: `Clean`, field by field in its order. The map that it returns
-- is the record `Settings`, whose optional keys may be missing. Reading JSON, strconv's floats, the
-- tables of Unicode and the folding and normal form of golang.org/x/text are the record `Tables`.
pub mod Kept
pub mod Again
use lierc_api.Base.{
  ℕ, Bool, true, false, not, ◌||◌, ◌&&◌, List, [], ◌∷◌, ◌++◌, Option, none, some, leb, ltb, Bytes,
  if◌then◌else◌, ◌==◌, nat_eq, list_eq, length, txt,
}
use lierc_api.Utf8.{Text, byte_len}
use lierc_api.Json.{Json, null, boolean, number, text, array, object, Items, nil, cons, Fields, get}
use lierc_api.Connconfig.Text.{
  Checked, valid, invalid, ◌>>=◌, trim, str, or_empty, list, read_boolean, is_space,
}
use lierc_api.Connconfig.Host.{valid_host, chomp, all_of, is_alnum}
use lierc_api.Connconfig.Patterns.{
  one_of, contains_any, nick_forbidden, err_nick, err_nick_long, err_user, err_alias, check_each,
  user_re, is_control, channel_body, channel_re, alias_body, alias_re, not_in, nick_re,
  reserved_names, is_reserved,
}

pub record Tables : Type 0 where
  -- `Decode`, an error as `none`
  pub decode_json : Bytes → Option Json
  -- `strconv.ParseFloat` of a number's text, where it has no error, and is whole and not negative
  pub whole : Text → Option ℕ
  -- `\pN`, and `[\pL\pN\pP\pS]`
  pub is_number : ℕ → Bool
  pub is_visible : ℕ → Bool
  -- `foldcase.Fold().String` and `norm.NFD.String`
  pub fold : Text → Text
  pub nfd : Text → Text

pub record Settings : Type 0 where
  pub host : Text
  pub port : ℕ
  pub nick : Text
  pub user : Option Text
  pub pass : Option Text
  pub channels : List Text
  pub highlight : List Text
  pub alias : Option Text
  pub ssl : Bool
  pub sasl : Bool

module _ (tables : Tables) where
  unfoldable pub checked_host : Text → Checked Text
  checked_host [] = invalid (txt "Host is required")
  checked_host (c ∷ cs) =
      if valid_host tables.is_number (c ∷ cs)
      then valid (c ∷ cs)
      else invalid (txt "Host must be an IPv4 address or a domain name")

  unfoldable pub host_of : Json → Checked Text
  host_of j = do s ← str j (txt "Host"); checked_host (trim (or_empty s))

  unfoldable pub checked_port : Option ℕ → Checked ℕ
  checked_port none = invalid (txt "Port must be a number from 1 to 65535")
  checked_port (some n) =
      if leb 1 n && leb n 65535
      then valid n
      else invalid (txt "Port must be a number from 1 to 65535")

  unfoldable pub port_of : Json → Checked ℕ
  port_of null = invalid (txt "Port must be a number from 1 to 65535")
  port_of (number s) = checked_port (tables.whole s)
  port_of _ = invalid (txt "Port must be a number")

  unfoldable pub checked_nick : Text → Checked Text
  checked_nick [] = invalid (txt "Nick is required")
  checked_nick (c ∷ cs) =
      let nick = c ∷ cs in
      if not (nick_re tables.is_visible nick) || contains_any nick nick_forbidden
      then invalid err_nick
      else if ltb 32 (byte_len nick)
          || ltb 32 (byte_len (tables.nfd (tables.fold (tables.nfd nick))))
      then invalid err_nick_long
      else if is_reserved tables.fold reserved_names (tables.fold nick)
      then invalid (txt "Nick " ++ (nick ++ txt " is reserved"))
      else valid nick

  unfoldable pub nick_of : Json → Checked Text
  nick_of j = do s ← str j (txt "Nick"); checked_nick (trim (or_empty s))

-- An optional field that must fit where it is not empty.
unfoldable pub optional : (Text → Bool) → Text → Text → Checked (Option Text)
optional fits problem [] = valid none
optional fits problem (c ∷ cs) = if fits (c ∷ cs) then valid (some (c ∷ cs)) else invalid problem

unfoldable pub user_of : Json → Checked (Option Text)
user_of j = do s ← str j (txt "Username"); optional user_re err_user (trim (or_empty s))

unfoldable pub no_breaks : Text → Bool
no_breaks s = not (contains_any s (txt "\r\n\0"))

unfoldable pub pass_of : Json → Checked (Option Text)
pass_of j = do
  s ← str j (txt "Password")
  optional no_breaks (txt "Password can't contain line breaks") (or_empty s)

unfoldable pub channels_of : Json → Checked (List Text)
channels_of j = do
  items ← list j (txt "Channels")
  check_each channel_re (λ c. c ++ txt " isn't a valid channel name") items

unfoldable pub highlight_of : Json → Checked (List Text)
highlight_of j = do
  items ← list j (txt "Highlight")
  check_each (not_in is_control) (λ h. txt "Highlight words can't contain control characters") items

unfoldable pub alias_of : Json → Checked (Option Text)
alias_of j = do s ← str j (txt "Network alias"); optional alias_re err_alias (trim (or_empty s))

module _ (tables : Tables) where
  -- Behind the decoding: the fields in their order.
  unfoldable pub clean_fields : Fields → Checked Settings
  clean_fields params = do
    host ← host_of tables (get (txt "Host") params)
    port ← port_of tables (get (txt "Port") params)
    nick ← nick_of tables (get (txt "Nick") params)
    user ← user_of (get (txt "User") params)
    pass ← pass_of (get (txt "Pass") params)
    channels ← channels_of (get (txt "Channels") params)
    highlight ← highlight_of (get (txt "Highlight") params)
    alias ← alias_of (get (txt "Alias") params)
    ssl ← read_boolean (get (txt "Ssl") params) (txt "Ssl")
    sasl ← read_boolean (get (txt "SASL") params) (txt "SASL")
    valid (record {
      host = host;
      port = port;
      nick = nick;
      user = user;
      pass = pass;
      channels = channels;
      highlight = highlight;
      alias = alias;
      ssl = ssl;
      sasl = sasl;
    })

  unfoldable pub clean_value : Option Json → Checked Settings
  clean_value none = invalid (txt "Invalid connection settings")
  clean_value (some (object params)) = clean_fields params
  clean_value (some _) = invalid (txt "Host is required")

  -- `Clean`
  unfoldable pub clean : Bytes → Checked Settings
  clean raw = clean_value (tables.decode_json raw)
