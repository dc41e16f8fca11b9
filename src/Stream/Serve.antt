-- ===== src/Stream/Serve.antt =====
-- internal/stream/writer.go: the life of a stream in `serveStream`, as the sections that it runs
-- on the server, and the handshake. What the writer takes from the queue is `take_out`.
pub mod Opening
pub mod Closing
use lierc_api.Base.{
  ℕ, zero, suc, Bool, true, false, List, [], ◌∷◌, ◌++◌, Option, none, some, ℤ, pos, Bytes, txt,
  if◌then◌else◌, nat_eq, list_eq,
}
use lierc_api.Base.Assoc.{lookup}
use lierc_api.Stream.Sse.{ping_event, stream_event}
use lierc_api.Stream.Registry.{Server, newest, raise_if_open, stop, deregister}

unfoldable pub spaces : ℕ → Bytes
spaces zero = []
spaces (suc n) = b' ' ∷ spaces n

-- `padding`: a comment line of 2 KB.
unfoldable pub padding : Bytes
padding = b':' ∷ (spaces 2048 ++ (b'\n' ∷ []))

-- `_, known := s.latest[user]`
abbrev pub is_some : Option ℤ → Bool
is_some none = false
is_some (some n) = true

unfoldable pub known : Bytes → Server → Bool
known user s = is_some (lookup user s.latest)

-- The section behind the query of the newest message id, 0 after an error; it is not run when the
-- id was known.
abbrev pub id_or_zero : Option ℤ → ℤ
id_or_zero none = pos 0
id_or_zero (some n) = n

unfoldable pub learn_latest : Bool → Bytes → Option ℤ → Server → Server
learn_latest true user queried s = s
learn_latest false user queried s = raise_if_open user (id_or_zero queried) s

-- The bytes of the handshake.
unfoldable pub handshake : Bytes → Bytes → Bytes → Server → Bytes
handshake time id user s = padding ++ (stream_event id ++ ping_event time (newest user s))

-- What the deferred function does to the server first: `st.stop()` and `s.deregister(st)`.
unfoldable pub close_stream : ℕ → Server → Server
close_stream p s = deregister p (stop p s)
