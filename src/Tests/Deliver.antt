-- ===== src/Tests/Deliver.antt =====
-- A message for a connection of Anna's, who has a stream, and the statistics.
use lierc_api.Base.{◌≡◌, refl, ◌⊎◌, [], ◌∷◌, none, some, txt, nat_eq, list_eq, ◌==◌, if◌then◌else◌}
use lierc_api.Base.Assoc.{lookup, insert}
use lierc_api.World.{ok}
use lierc_api.Base.Radix.{of_digits}
use lierc_api.Stream.Sse.{sse_event}
use lierc_api.Stream.Perl.{
  Codec, perl_string, perl_true, perl_quoted, perl_number, trim_space, drop_space, parse_int,
  parse_digits, decimal_digits,
}
use lierc_api.Stream.Registry.{
  Server, new_server, new_stream, register, deliver_locked, raise_parsed, raise_if_open,
  raise_latest, offer_each, offer_locked, offer,
}
use lierc_api.Stream.Registry.Steps.{Reach, here, next, registers, Reach-Inv}
use lierc_api.Stream.Registry.Hub.{view, running}
use lierc_api.Stream.Deliver.{Broker, deliver}
use lierc_api.Stream.Deliver.Owned.{Gets, deliver-Gets}
use lierc_api.Stream.Stats.{counts, details, count_streams, infos, stats, serve_stats}

abbrev codec : Codec
codec = record { unquote = λ s. none; parse_float = λ s. none }

abbrev broker : Broker
broker = record {
  read_message = λ body. some (txt "c1", txt "7");
  owner_row = λ conn. if conn == txt "c1" then ok (some (txt "anna")) else ok none;
}

abbrev alone : Server
alone = register (new_stream (txt "s1") (txt "anna") (txt "10.0.0.1") none 100) new_server

alone-Reach : Reach new_server alone
alone-Reach = next here (registers (txt "s1") (txt "anna") (txt "10.0.0.1") none 100)

deliver-Gets_example :
    (view (deliver codec broker alone (txt "{}") alone) (txt "anna") (txt "s1")
      ≡ view alone (txt "anna") (txt "s1"))
    ⊎ Gets codec broker
        (txt "{}")
        (txt "anna")
        (view alone (txt "anna") (txt "s1"))
        (view (deliver codec broker alone (txt "{}") alone) (txt "anna") (txt "s1"))
deliver-Gets_example =
    deliver-Gets codec broker alone (txt "{}") alone (txt "anna") (txt "s1") (Reach-Inv alone-Reach)

all_counts : serve_stats (some (txt "key")) (txt "key") [] alone ≡ counts ((txt "anna", 1) ∷ [])
unfolding serve_stats stats count_streams register insert lookup
all_counts = refl

annas :
    serve_stats (some (txt "key")) (txt "key") (txt "anna") alone
    ≡ details (record { remote = txt "10.0.0.1"; agent = none; created = 100 } ∷ [])
unfolding serve_stats stats infos register insert lookup
annas = refl

-- Anna's stream gets the body as it is, with the message's id.
annas_event :
    view (deliver codec broker alone (txt "{}") alone) (txt "anna") (txt "s1")
    ≡ some (running (sse_event (txt "irc") (txt "{}") (txt "7") ∷ []))
unfolding deliver perl_string perl_true perl_quoted perl_number trim_space drop_space deliver_locked
    raise_parsed raise_if_open raise_latest offer_each offer_locked offer parse_int parse_digits
    decimal_digits of_digits register insert lookup
annas_event = refl
