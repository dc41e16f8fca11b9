-- ===== src/Tests/Serve.antt =====
-- A stream that is opened and closed.
use lierc_api.Base.{◌≡◌, refl, [], ◌∷◌, none, some, txt, true, nat_eq, list_eq, arith}
use lierc_api.Base.Assoc.{lookup, insert}
use lierc_api.Base.Radix.{decimal}
use lierc_api.Stream.Sse.{ping_body, itoa}
use lierc_api.Stream.Sse.Reader.{read_stream}
use lierc_api.Stream.Registry.{Stream, Server, new_server, new_stream, register, members, newest}
use lierc_api.Stream.Serve.{handshake, close_stream}
use lierc_api.Stream.Serve.Opening.{read_stream-handshake}
use lierc_api.Stream.Serve.Closing.{close_stream_lem}

abbrev ann : Stream
ann = new_stream (txt "s1") (txt "ann") (txt "10.0.0.1") none 100

server : Server
server = register ann new_server

at_zero : lookup 0 server.heap ≡ some ann
unfolding server register insert lookup
at_zero = refl

read_stream-handshake_example :
    read_stream (handshake (txt "1.5") (txt "s1") (txt "ann") new_server)
    ≡ record { kind = txt "stream"; body = txt "{\"id\":\"s1\"}"; id = none }
      ∷ record {
        kind = txt "ping";
        body = ping_body (txt "1.5") (newest (txt "ann") new_server);
        id = none;
      }
      ∷ []
unfolding ping_body itoa lookup decimal
read_stream-handshake_example =
    read_stream-handshake (txt "1.5") (txt "s1") (txt "ann") new_server (omega arith) (omega arith)

close_stream_lem_example :
    (lookup (txt "s1") (members (txt "ann") (close_stream 0 server)) ≡ none)
    × (lookup 0 (close_stream 0 server).heap ≡ some (record ann { done = true }))
close_stream_lem_example = close_stream_lem 0 ann server at_zero
