-- ===== src/Tests/Replay.antt =====
-- A connection with one channel, replayed.
use lierc_api.Base.{
  ℕ, zero, suc, ◌+◌, ◌/◌, ◌≡◌, refl, List, [], ◌∷◌, ◌++◌, map, Option, none, some, Bytes, txt, All,
  length, nat_eq, list_eq,
}
use lierc_api.Stream.Perl.{Codec, perl_true, trim_space, drop_space}
use lierc_api.Stream.Replay.{
  Channel, Status, Message, each, chunks, chunk_loop, join, join_strings, replay, replay_events,
  all_found, registered_only, push_connect, push_welcome, push_join, push_topic, push_nicks,
  push_mode,
}
use lierc_api.Stream.Replay.Chunks.{IsChunk, chunks_lem}
use lierc_api.Stream.Replay.Origin.{HasOrigin, replay-HasOrigin}

-- A quoted string without escapes, and no floats.
inner : Bytes → Bytes
inner [] = []
inner (c ∷ []) = []
inner (c ∷ d ∷ cs) = c ∷ inner (d ∷ cs)

unquoted : Bytes → Option Bytes
unquoted [] = none
unquoted (c ∷ cs) = some (inner cs)

abbrev codec : Codec
codec = record { unquote = unquoted; parse_float = λ s. none }

quote : Bytes → Bytes
quote s = b'"' ∷ (s ++ (b'"' ∷ []))

sixty : ℕ → List Bytes
sixty zero = []
sixty (suc n) = txt "\"nick\"" ∷ sixty n

abbrev chat : Channel
unfolding sixty
chat = record {
  name = txt "\"#chat\"";
  mode = txt "null";
  topic = txt "\"hello\"";
  topic_user = txt "\"ann\"";
  topic_time = txt "5";
  nicks = some (sixty 60);
}

abbrev status : Status
status = record {
  id = txt "\"c1\"";
  nick = txt "\"ann\"";
  alias = txt "null";
  host = txt "\"irc.example\"";
  connected = txt "true";
  registered = txt "true";
  isupport = [];
  caps_acked = [];
  channels = chat ∷ [];
}

sent : List Message
sent = replay_events codec quote (status ∷ [])

-- CREATE, CONNECT, 001, JOIN, 332, 333, two pieces of names, 366; no modes.
sent_nine : length sent ≡ 9
unfolding sent replay_events registered_only push_connect push_welcome push_join push_topic
    push_nicks push_mode chunks chunk_loop join_strings join perl_true trim_space drop_space chat
sent_nine = refl

replays : replay codec quote (some status ∷ []) ≡ some sent
unfolding replay all_found sent
replays = refl

replay-HasOrigin_example :
    (statuses : List Status) × (some status ∷ [] ≡ map some statuses)
    × All (HasOrigin codec quote statuses) sent
replay-HasOrigin_example = replay-HasOrigin codec quote (some status ∷ []) sent replays

chunks_lem_example :
    (each (λ c. c) (chunks (sixty 60)) ≡ sixty 60)
    × All IsChunk (chunks (sixty 60))
    × (length (chunks (sixty 60)) ≡ (length (sixty 60) + 49) / 50)
chunks_lem_example = chunks_lem (sixty 60)
