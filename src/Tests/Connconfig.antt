-- ===== src/Tests/Connconfig.antt =====
-- A connection's settings, and hosts with public and private addresses.
use lierc_api.Base.{
  ℕ, zero, suc, ◌+◌, ◌-◌, ◌*◌, ◌≡◌, ◌≢◌, ◌↔◌, ◌⊎◌, ◌∙◌, refl, ap, List, [], ◌∷◌, map, true, false,
  none, some, txt, ◌==◌, nat_eq, list_eq, if◌then◌else◌, pos, All, arith, leb, ◌&&◌,
}
use lierc_api.Base.Radix.{of_digits, to_digits, decimal, of_digits-to_digits}
use lierc_api.Utf8.{Text, byte_len, rune_len}
use lierc_api.Json.{null, number, text, array, object, nil, cons, Fields, end, field}
use lierc_api.Connconfig.Text.{
  valid, invalid, is_space, drop_space, trim, str, list_items, list, read_boolean,
}
use lierc_api.Connconfig.Host.{
  all_of, chomp, split_dots, atoi, is_octet, ipv4_literal, label_rest, is_label, all_labels,
  last_label, valid_labels, valid_host,
}
use lierc_api.Connconfig.Clean.{
  Tables, Settings, checked_host, host_of, checked_port, port_of, checked_nick, nick_of, optional,
  user_of, pass_of, channels_of, highlight_of, alias_of, clean_fields, clean_value,
}
use lierc_api.Connconfig.Patterns.{
  one_of, contains_any, nick_forbidden, check_each, is_control, channel_body, channel_re,
  alias_body, alias_re, nick_re, reserved_names, is_reserved,
}
use lierc_api.Connconfig.Clean.Again.{fields_of, clean_value-fields_of}
use lierc_api.Lctl.Check.{has_prefix, is_unresolved}
use lierc_api.Connconfig.Address.{
  v4, v6, Platform, exempt, addresses, check_host, blocked, contains, any_contains, unmap,
  has_colon, blocked_addr, blocked_ip, check_ips,
}
use lierc_api.Connconfig.Address.Public.{PublicText, check_host_lem}

atoi-map : (acc : ℕ) (ds : List ℕ) → atoi acc (map (λ d. d + b'0') ds) ≡ of_digits 10 acc ds
unfolding atoi of_digits
atoi-map acc [] = refl
atoi-map acc (d ∷ ds) =
    let e : acc * 10 + (d + b'0' - b'0') ≡ acc * 10 + d = omega arith in
    ap (λ k. atoi k (map (λ d. d + b'0') ds)) e ∙ atoi-map (acc * 10 + d) ds

atoi-decimal : (n : ℕ) → atoi 0 (decimal n) ≡ n
unfolding decimal
atoi-decimal zero = unfold atoi in refl
atoi-decimal (suc n) =
    atoi-map 0 (to_digits 10 (suc n) (suc n) [])
    ∙ (of_digits-to_digits 10 (suc n) (suc n) [] (omega arith) (omega arith)
        ∙ unfold of_digits in refl)

abbrev tables : Tables
tables = record {
  decode_json = λ b. none;
  whole = λ s. some (atoi 0 s);
  is_number = λ c. leb b'0' c && leb c b'9';
  is_visible = λ c. leb b'!' c;
  fold = λ s. s;
  nfd = λ s. s;
}

abbrev raw : Fields
raw = field (txt "Host") (text (txt " irc.example.org\n")) (
    field (txt "Port") (number (txt "6697")) (
      field (txt "Nick") (text (txt "ann ")) (
        field (txt "User") (text (txt " ")) (
          field (txt "Channels") (array (cons (text (txt " #go")) (cons (text []) nil)))
            (field (txt "Alias") (text (txt "work")) (field (txt "x") null end))))))

abbrev settings : Settings
settings = record {
  host = txt "irc.example.org";
  port = 6697;
  nick = txt "ann";
  user = none;
  pass = none;
  channels = txt "#go" ∷ [];
  highlight = [];
  alias = some (txt "work");
  ssl = false;
  sasl = false;
}

cleaned : clean_value tables (some (object raw)) ≡ valid settings
unfolding clean_value clean_fields host_of checked_host str trim drop_space is_space valid_host
    ipv4_literal split_dots chomp is_octet all_of valid_labels last_label all_labels is_label
    label_rest port_of checked_port atoi nick_of checked_nick nick_re contains_any one_of
    nick_forbidden byte_len rune_len is_reserved reserved_names user_of optional pass_of channels_of
    list list_items check_each channel_re channel_body is_control highlight_of alias_of alias_re
    alias_body read_boolean
cleaned = refl

clean_value-fields_of_example :
    clean_value tables (some (object (fields_of settings))) ≡ valid settings
clean_value-fields_of_example =
    clean_value-fields_of tables (λ n h. ap some (atoi-decimal n)) (some (object raw)) settings
      cleaned

-- A channel that is named like the message of a host that does not resolve.
abbrev odd : Fields
odd = field (txt "Host") (text (txt "irc.example.org")) (
    field (txt "Port") (number (txt "6697")) (
      field (txt "Nick") (text (txt "ann"))
        (field (txt "Channels") (array (cons (text (txt "Couldn't find host")) nil)) end)))

abbrev odd_problem : Text
odd_problem = txt "Couldn't find host isn't a valid channel name"

odd_channel : clean_value tables (some (object odd)) ≡ invalid odd_problem
unfolding clean_value clean_fields host_of checked_host str trim drop_space is_space valid_host
    ipv4_literal split_dots chomp is_octet all_of valid_labels last_label all_labels is_label
    label_rest port_of checked_port atoi nick_of checked_nick nick_re contains_any one_of
    nick_forbidden byte_len rune_len is_reserved reserved_names user_of optional pass_of channels_of
    list list_items check_each channel_re channel_body is_control highlight_of alias_of alias_re
    alias_body read_boolean
odd_channel = refl

odd_unresolved : is_unresolved odd_problem ≡ true
unfolding is_unresolved has_prefix
odd_unresolved = refl

-- One host is public, and another is loopback written in IPv6.
abbrev platform : Platform
platform = record {
  parse_addr =
      λ s. if s == txt "9.9.9.9" then some (v4 0x0909_0909) else some (v6 0xffff_7f00_0001 []);
  getenv = λ k. [];
  resolve = λ host.
      some
        (if host == txt "a" then txt "9.9.9.9" ∷ [] else txt "9.9.9.9" ∷ txt "::ffff:7f00:1" ∷ []);
  lower = λ s. s;
  truncated = λ s. some (pos 0);
}

accepted : check_host platform (txt "a") 6667 ≡ valid tt
unfolding check_host exempt addresses ipv4_literal split_dots chomp is_octet all_of atoi check_ips
    blocked_ip blocked_addr has_colon unmap any_contains contains blocked
accepted = refl

refused : check_host platform (txt "b") 6667 ≢ valid tt
unfolding check_host exempt addresses ipv4_literal split_dots chomp is_octet all_of atoi check_ips
    blocked_ip blocked_addr has_colon unmap any_contains contains blocked
refused e = cc

check_host_lem_example : (check_host platform (txt "b") 6667 ≡ valid tt) ↔ (
    (exempt platform (txt "b") 6667 ≡ true)
    ⊎ ((addresses platform (txt "b") ≢ [])
        × All (λ ip. PublicText ip (platform.parse_addr ip)) (addresses platform (txt "b"))))
check_host_lem_example = check_host_lem platform (txt "b") 6667
