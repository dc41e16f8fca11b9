-- ===== src/Stream/Replay.antt =====
-- internal/stream/replay.go: the events that bring a new stream up to date. A raw JSON value is
-- its text. An event is the record `Message` of the values that `ircEvent` encodes, without the
-- time; `jsonString` is the field `quote` of `Texts`.
pub mod Chunks
pub mod Origin
use lierc_api.Base.{
  ℕ, zero, suc, ◌-◌, min, Bool, true, false, List, [], ◌∷◌, ◌++◌, map, Option, none, some, Bytes,
  length, take, drop, if◌then◌else◌, txt, ◌>>=◌,
}
use lierc_api.Stream.Perl.{Codec, perl_true, perl_string}

pub record Channel : Type 0 where
  pub name : Bytes
  pub mode : Bytes
  pub topic : Bytes
  pub topic_user : Bytes
  pub topic_time : Bytes
  -- none if missing or null
  pub nicks : Option (List Bytes)

pub record Status : Type 0 where
  pub id : Bytes
  pub nick : Bytes
  pub alias : Bytes
  pub host : Bytes
  pub connected : Bytes
  pub registered : Bytes
  pub isupport : List Bytes
  pub caps_acked : List Bytes
  pub channels : List Channel

pub record Message : Type 0 where
  pub id : Bytes
  pub prefix : Bytes
  pub command : Bytes
  pub params : List Bytes

-- `strings.Join(parts, " ")`
unfoldable pub join : List Bytes → Bytes
join [] = []
join (p ∷ []) = p
join (p ∷ q ∷ ps) = p ++ (b' ' ∷ join (q ∷ ps))

-- `for len(nicks) > 0`, with the fuel `length nicks`: at most 50 nicks at a time.
unfoldable pub chunk_loop {ℓ} : {A : Type ℓ} → ℕ → List A → List (List A)
chunk_loop zero nicks = []
chunk_loop (suc fuel) [] = []
chunk_loop (suc fuel) (x ∷ xs) =
    take (min 50 (length (x ∷ xs))) (x ∷ xs)
    ∷ chunk_loop fuel (drop (min 50 (length (x ∷ xs))) (x ∷ xs))

unfoldable pub chunks {ℓ} : {A : Type ℓ} → List A → List (List A)
chunks nicks = chunk_loop (length nicks) nicks

-- `for _, x := range xs` with `emit` in its body.
abbrev pub each {ℓ κ} : {A : Type ℓ} {B : Type κ} → (A → List B) → List A → List B
each f [] = []
each f (x ∷ xs) = f x ++ each f xs

-- The statuses, or nothing when one could not be found, recreated or decoded.
unfoldable pub all_found : List (Option Status) → Option (List Status)
all_found [] = some []
all_found (none ∷ rest) = none
all_found (some st ∷ rest) = all_found rest >>= λ sts. some (st ∷ sts)

-- `joinStrings`
unfoldable pub join_strings : Codec → List Bytes → Bytes
join_strings codec vs = join (map (perl_string codec) vs)

module _ (codec : Codec) (quote : Bytes → Bytes) where
  abbrev pub liercd_prefix : Bytes
  liercd_prefix = quote (txt "liercd")

  -- `emit`
  abbrev pub from_liercd : Status → Bytes → List Bytes → Message
  from_liercd st command params = record {
    id = st.id;
    prefix = liercd_prefix;
    command = command;
    params = params;
  }

  abbrev pub if_true : Bytes → List Message → List Message
  if_true v ms = if perl_true codec v then ms else []

  abbrev pub unless_empty : List Bytes → Message → List Message
  unless_empty [] m = []
  unless_empty (v ∷ vs) m = m ∷ []

  unfoldable pub push_connect : Status → List Message
  push_connect st =
      from_liercd st (txt "CREATE")
        (st.nick ∷ (if perl_true codec st.alias then st.alias else st.host) ∷ [])
      ∷ if_true st.connected (from_liercd st (txt "CONNECT") [] ∷ [])

  unfoldable pub push_welcome : Status → List Message
  push_welcome st =
      from_liercd st (txt "001") (
        st.nick
        ∷ quote (txt "Welcome to the Internet Relay Network " ++ perl_string codec st.nick)
        ∷ [])
      ∷ (unless_empty st.isupport
            (from_liercd st (txt "005") (st.nick ∷ quote (join_strings codec st.isupport) ∷ []))
          ++ unless_empty st.caps_acked (
              from_liercd st (txt "CAP") (
                quote (txt "*")
                ∷ quote (txt "ACK")
                ∷ quote (join_strings codec st.caps_acked)
                ∷ [])))

  unfoldable pub push_join : Status → Channel → List Message
  push_join st ch =
      record { id = st.id; prefix = st.nick; command = txt "JOIN"; params = ch.name ∷ [] } ∷ []

  unfoldable pub push_topic : Status → Channel → List Message
  push_topic st ch = if_true ch.topic (
      from_liercd st (txt "332") (st.nick ∷ ch.name ∷ ch.topic ∷ [])
      ∷ from_liercd st (txt "333") (st.nick ∷ ch.name ∷ ch.topic_user ∷ ch.topic_time ∷ [])
      ∷ [])

  abbrev pub names_reply : Status → Channel → List Bytes → Message
  names_reply st ch nicks =
      from_liercd st (txt "353")
        (st.nick ∷ quote (txt "=") ∷ ch.name ∷ quote (join_strings codec nicks) ∷ [])

  abbrev pub push_names : Status → Channel → Option (List Bytes) → List Message
  push_names st ch none = []
  push_names st ch (some nicks) =
      map (names_reply st ch) (chunks nicks)
      ++ (from_liercd st (txt "366") (st.nick ∷ ch.name ∷ quote (txt "End of /NAMES list.") ∷ [])
          ∷ [])

  unfoldable pub push_nicks : Status → Channel → List Message
  push_nicks st ch = push_names st ch ch.nicks

  unfoldable pub push_mode : Status → Channel → List Message
  push_mode st ch = if_true ch.mode (from_liercd st (txt "324") (ch.name ∷ ch.mode ∷ []) ∷ [])

  -- `perlTrue(stat.Registered)`
  unfoldable pub registered_only : List Status → List Status
  registered_only [] = []
  registered_only (st ∷ sts) =
      let rest = registered_only sts in if perl_true codec st.registered then st ∷ rest else rest

  -- A loop over the channels of each status.
  abbrev pub each_channel : (Status → Channel → List Message) → List Status → List Message
  each_channel f = each (λ st. each (f st) st.channels)

  -- `evs`, all six loops.
  unfoldable pub replay_events : List Status → List Message
  replay_events statuses =
      let registered = registered_only statuses in
      each push_connect statuses
      ++ (each push_welcome registered
          ++ (each_channel push_join registered
              ++ (each_channel push_topic registered
                  ++ (each_channel push_nicks registered ++ each_channel push_mode registered))))

  -- `replay`, up to the loop that pushes.
  unfoldable pub replay : List (Option Status) → Option (List Message)
  replay found = all_found found >>= λ statuses. some (replay_events statuses)
