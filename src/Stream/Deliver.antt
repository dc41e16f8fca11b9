-- ===== src/Stream/Deliver.antt =====
-- internal/stream/server.go, `Deliver`: a message from NSQ, up to its last section, which is
-- `deliver_locked`. The server may change between the two sections. Reading the JSON of the message
-- and the answer of `LookupOwner` are the record `Broker`.
pub mod Owned
use lierc_api.Base.{
  Bool, true, false, List, [], ◌∷◌, Option, none, some, Bytes, txt, if◌then◌else◌, nat_eq, list_eq,
}
use lierc_api.World.{Result, ok, fail}
use lierc_api.Stream.Sse.{sse_event}
use lierc_api.Stream.Perl.{Codec, perl_true, perl_string}
use lierc_api.Stream.Registry.{Server, deliver_locked}

pub record Broker : Type 0 where
  -- `json.Unmarshal`: the texts of ConnectionId and MessageId, empty where missing
  pub read_message : Bytes → Option (Bytes × Bytes)
  -- no row is `none`
  pub owner_row : Bytes → Result (Option Bytes)

-- `len(s.streams) == 0`
abbrev pub is_idle : Server → Bool
is_idle s = elim s.streams [ [] ↦ true | _ ∷ _ ↦ false ]

module _ (codec : Codec) (broker : Broker) where
  abbrev pub message_id : Bytes → Bytes
  message_id raw = if perl_true codec raw then perl_string codec raw else []

  -- The end of `Deliver`, on the server as it is then.
  abbrev pub behind_owner : Bytes → Bytes → Server → Result (Option Bytes) → Server
  behind_owner body msg s (fail e) = s
  behind_owner body msg s (ok none) = s
  behind_owner body msg s (ok (some owner)) =
      deliver_locked owner (message_id msg) (sse_event (txt "irc") body (message_id msg)) s

  abbrev pub behind_message : Bool → Bytes → Server → Option (Bytes × Bytes) → Server
  behind_message idle body s none = s
  behind_message idle body s (some (conn, msg)) =
      if idle then s else behind_owner body msg s (broker.owner_row (perl_string codec conn))

  -- `Deliver`, which asks the server `first` whether it is idle, and delivers to it later.
  unfoldable pub deliver : Server → Bytes → Server → Server
  deliver first body later = behind_message (is_idle first) body later (broker.read_message body)
