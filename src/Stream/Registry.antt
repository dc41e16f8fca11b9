-- ===== src/Stream/Registry.antt =====
-- internal/stream/server.go and writer.go: the open streams, their queues, and each user's newest
-- message id. Every function is one section that the source runs under `s.mu`, or one channel
-- operation of a stream. A stream is shared by the registry and by the goroutine that serves it,
-- so it lives in a heap under a number, its pointer.
--
-- A map is an association list, so a `range` over one runs in the list's order; the source's
-- order is not fixed. A text that `pingEvent` makes takes the time as an argument.
pub mod Invariant
pub mod Members
pub mod Registering
pub mod Sections
pub mod Stopping
pub mod Raising
pub mod Steps
pub mod Evolution
pub mod Delivery
pub mod Newest
pub mod Hub
use lierc_api.Base.{
  ℕ, suc, ◌+◌, Bool, true, false, List, [], ◌∷◌, ◌++◌, map, Option, none, some, ℤ, pos, negsuc,
  Bytes, length, ltb, lt_ℤ, if◌then◌else◌, nat_eq, list_eq, arith,
}
use lierc_api.Base.Assoc.{Assoc, lookup, insert, erase}
use lierc_api.Stream.Sse.{ping_event}
use lierc_api.Stream.Perl.{parse_int}

-- `bufferSize`
abbrev pub buffer_size : ℕ
buffer_size = 1024

-- `out` is what the buffered channel holds, `done` whether the channel `done` is closed. Replay
-- events pass through a channel without a buffer, which holds nothing.
pub record Stream : Type 0 where
  pub id : Bytes
  pub user : Bytes
  pub remote : Bytes
  pub agent : Option Bytes
  pub created : ℕ
  pub out : List Bytes
  pub done : Bool

pub record Server : Type 0 where
  pub heap : Assoc ℕ Stream
  pub next : ℕ
  pub streams : Assoc Bytes (Assoc Bytes ℕ)
  pub latest : Assoc Bytes ℤ
  pub closed : Bool

-- The maps and the flag that `New` starts with.
abbrev pub new_server : Server
new_server = record { heap = []; next = 0; streams = []; latest = []; closed = false }

-- `s.streams[user]`, the nil map if there is none.
abbrev pub or_nil {ℓ} : {A : Type ℓ} → Option (List A) → List A
or_nil none = []
or_nil (some m) = m

abbrev pub members : Bytes → Server → Assoc Bytes ℕ
members user s = or_nil (lookup user s.streams)

-- `s.latest[user]`
abbrev pub or_zero : Option ℤ → ℤ
or_zero none = pos 0
or_zero (some n) = n

abbrev pub newest : Bytes → Server → ℤ
newest user s = or_zero (lookup user s.latest)

-- `st.stop()`, which closes `done` once.
unfoldable pub stop : ℕ → Server → Server
stop p s = elim (lookup p s.heap) [
  | none ↦ s
  | some st ↦ record s { heap = insert p (record st { done = true }) s.heap }
]

-- The streams of `user` without the entry `id`; with none left the user is forgotten.
abbrev pub set_members : Bytes → Assoc Bytes ℕ → Server → Server
set_members user [] s = record s { streams = erase user s.streams; latest = erase user s.latest }
set_members user (m ∷ ms) s = record s { streams = insert user (m ∷ ms) s.streams }

-- `deregisterLocked`, of the stream with this user and id.
unfoldable pub deregister_locked : Bytes → Bytes → Server → Server
deregister_locked user id s = set_members user (erase id (members user s)) s

-- `deregister`
unfoldable pub deregister : ℕ → Server → Server
deregister p s = elim (lookup p s.heap) [ none ↦ s | some st ↦ deregister_locked st.user st.id s ]

-- The stream that `serveStream` makes: an empty buffer, not stopped.
abbrev pub new_stream : Bytes → Bytes → Bytes → Option Bytes → ℕ → Stream
new_stream id user remote agent created = record {
  id = id;
  user = user;
  remote = remote;
  agent = agent;
  created = created;
  out = [];
  done = false;
}

-- `if s.closed { st.stop() }`
abbrev pub if_closed : Bool → Stream → Stream
if_closed closed st = if closed then record st { done = true } else st

-- `register`, of a stream that `serveStream` has just made; its pointer is `s.next`.
unfoldable pub register : Stream → Server → Server
register st s = record s {
  heap = insert s.next (if_closed s.closed st) s.heap;
  next = suc s.next;
  streams = insert st.user (insert st.id s.next (members st.user s)) s.streams;
}

-- `offer`: the server after it, and its result.
unfoldable pub offer : ℕ → Bytes → Server → Server × Bool
offer p b s = elim (lookup p s.heap) [
  | none ↦ (s, true)
  | some st ↦
      if st.done
      then (s, true)
      else if ltb (length st.out) buffer_size
      then (record s { heap = insert p (record st { out = st.out ++ (b ∷ []) }) s.heap }, true)
      else (stop p s, false)
]

-- `offerLocked`
unfoldable pub offer_locked : ℕ → Bytes → Server → Server
offer_locked p b s = let r = offer p b s in if r.1 then r.0 else deregister p r.0

-- `pingLocked`
unfoldable pub ping_locked : Bytes → ℕ → Server → Server
ping_locked time p s = elim (lookup p s.heap) [
  | none ↦ s
  | some st ↦ offer_locked p (ping_event time (newest st.user s)) s
]

abbrev pub pointers : Assoc Bytes ℕ → List ℕ
pointers [] = []
pointers ((_, p) ∷ m) = p ∷ pointers m

abbrev pub all_pointers : Assoc Bytes (Assoc Bytes ℕ) → List ℕ
all_pointers [] = []
all_pointers ((_, m) ∷ ms) = pointers m ++ all_pointers ms

-- The two loops of `pingAll` over the streams of every user.
unfoldable pub ping_each : Bytes → List ℕ → Server → Server
ping_each time [] s = s
ping_each time (p ∷ ps) s = ping_each time ps (ping_locked time p s)

-- `pingAll`
unfoldable pub ping_all : Bytes → Server → Server
ping_all time s = ping_each time (all_pointers s.streams) s

-- `servePing`: whether the stream is known (204) or not (404).
unfoldable pub serve_ping : Bytes → Bytes → Bytes → Server → Server × Bool
serve_ping time user id s = elim (lookup id (members user s)) [
  | none ↦ (s, false)
  | some p ↦ (ping_locked time p s, true)
]

-- `raiseLatestLocked`
unfoldable pub raise_latest : Bytes → ℤ → Server → Server
raise_latest user id s =
    if lt_ℤ (newest user s) id then record s { latest = insert user id s.latest } else s

-- `if len(s.streams[user]) > 0 { s.raiseLatestLocked(user, id) }`
unfoldable pub raise_if_open : Bytes → ℤ → Server → Server
raise_if_open user id s = elim (members user s) [ [] ↦ s | _ ∷ _ ↦ raise_latest user id s ]

-- `CloseStreams`, its loops over every stream.
unfoldable pub stop_each : List ℕ → Server → Server
stop_each [] s = s
stop_each (p ∷ ps) s = stop_each ps (stop p s)

unfoldable pub close_streams : Server → Server
close_streams s = stop_each (all_pointers s.streams) (record s { closed = true })

unfoldable pub offer_each : Bytes → List ℕ → Server → Server
offer_each b [] s = s
offer_each b (p ∷ ps) s = offer_each b ps (offer_locked p b s)

-- The last section of `Deliver`: the id of the message as text, and the event.
unfoldable pub raise_parsed : Bytes → Option ℤ → Server → Server
raise_parsed owner none s = s
raise_parsed owner (some n) s = raise_if_open owner n s

unfoldable pub deliver_locked : Bytes → Bytes → Bytes → Server → Server
deliver_locked owner id ev s =
    let s' = raise_parsed owner (parse_int id) s in offer_each ev (pointers (members owner s')) s'

abbrev pub take_queued : ℕ → Server → Stream → List Bytes → Option (Bytes × Server)
take_queued p s st [] = none
take_queued p s st (b ∷ bs) = some (b, record s { heap = insert p (record st { out = bs }) s.heap })

-- `case b := <-st.out` of the writer: the oldest queued event.
unfoldable pub take_out : ℕ → Server → Option (Bytes × Server)
take_out p s = elim (lookup p s.heap) [ none ↦ none | some st ↦ take_queued p s st st.out ]
