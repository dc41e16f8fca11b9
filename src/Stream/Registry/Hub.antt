-- ===== src/Stream/Registry/Hub.antt =====
-- What the registry promises, without pointers and maps: a table of the open streams by user and
-- id, each a bounded queue that runs or is stopped.
pub mod Viewed
pub mod Rounds
pub mod Keys
pub mod Shut
pub mod Followed
pub mod Refined
use lierc_api.Base.{
  ℕ, ◌≡◌, Bool, true, false, List, [], ◌∷◌, ◌++◌, Option, none, some, ℤ, Bytes, length, ltb, ◌&&◌,
  if◌then◌else◌, ◌==◌, nat_eq, list_eq,
}
use lierc_api.Base.Assoc.{Assoc, lookup}
use lierc_api.Stream.Sse.{ping_event}
use lierc_api.Stream.Registry.{Stream, Server, members, buffer_size}
use lierc_api.Stream.Registry.Steps.{
  Step, registers, deregisters, stops, pings, wakes, raises, delivers, closes, takes, Reach, here,
  next,
}

pub data Channel : Type 0 where
  running : List Bytes → Channel
  stopped : List Bytes → Channel

abbrev pub Table : Type 0
Table = Bytes → Bytes → Option Channel

pub record Hub : Type 0 where
  pub table : Table
  pub shut : Bool

abbrev pub new_hub : Hub
new_hub = record { table = λ user id. none; shut = false }

-- A running channel takes the event, or is dropped from the table where it is full.
abbrev pub offered : Bytes → Option Channel → Option Channel
offered b (some (running q)) =
    if ltb (length q) buffer_size then some (running (q ++ (b ∷ []))) else none
offered b c = c

abbrev pub halted : Option Channel → Option Channel
halted (some (running q)) = some (stopped q)
halted c = c

abbrev pub dequeued : Option Channel → Option (Bytes × Channel)
dequeued (some (running (b ∷ q))) = some (b, running q)
dequeued (some (stopped (b ∷ q))) = some (b, stopped q)
dequeued _ = none

abbrev pub born : Bool → Channel
born true = stopped []
born false = running []

abbrev pub put : Bytes → Bytes → Option Channel → Table → Table
put user id c h other key = if user == other && id == key then c else h other key

-- What happens to a hub.
pub data Event : Type 0 where
  opened : Bytes → Bytes → Event
  left : Bytes → Bytes → Event
  cut : Bytes → Bytes → Event
  published : Bytes → Bytes → Event
  pinged : Bytes → Event
  woken : Bytes → Bytes → Bytes → Event
  shut_down : Event
  taken : Bytes → Bytes → Bytes → Event
  idle : Event

abbrev pub SameAs : Table → Table → Type 0
SameAs k h = (user id : Bytes) → k user id ≡ h user id

-- What a hub may become by an event. The number in a ping is left open.
abbrev pub Follows : Event → Hub → Hub → Type 0
Follows (opened user id) h k =
    (k.shut ≡ h.shut) × SameAs k.table (put user id (some (born h.shut)) h.table)
Follows (left user id) h k = (k.shut ≡ h.shut) × SameAs k.table (put user id none h.table)
Follows (cut user id) h k =
    (k.shut ≡ h.shut) × SameAs k.table (put user id (halted (h.table user id)) h.table)
Follows (published user b) h k =
    (k.shut ≡ h.shut)
    × SameAs k.table
        (λ other id. if user == other then offered b (h.table other id) else h.table other id)
Follows (pinged time) h k =
    (k.shut ≡ h.shut)
    × ((user id : Bytes)
        → (n : ℤ) × (k.table user id ≡ offered (ping_event time n) (h.table user id)))
Follows (woken time user id) h k =
    (k.shut ≡ h.shut)
    × ((n : ℤ) × SameAs k.table
          (put user id (offered (ping_event time n) (h.table user id)) h.table))
Follows shut_down h k = (k.shut ≡ true) × SameAs k.table (λ user id. halted (h.table user id))
Follows (taken user id b) h k =
    (k.shut ≡ h.shut)
    × ((c : Channel) × (dequeued (h.table user id) ≡ some (b, c))
        × SameAs k.table (put user id (some c) h.table))
Follows idle h k = (k.shut ≡ h.shut) × SameAs k.table h.table

-- The hub of a server: what stands under a user and an id.
abbrev pub channel : Stream → Channel
channel st = if st.done then stopped st.out else running st.out

abbrev pub channel_of : Option Stream → Option Channel
channel_of none = none
channel_of (some st) = some (channel st)

abbrev pub pointed : Assoc ℕ Stream → Option ℕ → Option Channel
pointed heap none = none
pointed heap (some p) = channel_of (lookup p heap)

abbrev pub view : Server → Table
view s user id = pointed s.heap (lookup id (members user s))

abbrev pub hub_of : Server → Hub
hub_of s = record { table = view s; shut = s.closed }

-- The event of a section: about a stream that is registered, if it is about a stream.
abbrev pub if_registered : ℕ → Option ℕ → Event → Event
if_registered p none e = idle
if_registered p (some q) e = if p == q then e else idle

abbrev pub about : ℕ → Server → (Bytes → Bytes → Event) → Option Stream → Event
about p s e none = idle
about p s e (some st) = if_registered p (lookup st.id (members st.user s)) (e st.user st.id)

abbrev pub leaving : Option Stream → Event
leaving none = idle
leaving (some st) = left st.user st.id

unfoldable pub event_of : {s t : Server} → Step s t → Event
event_of (registers id user remote agent created) = opened user id
event_of {s} (deregisters p) = leaving (lookup p s.heap)
event_of {s} (stops p) = about p s cut (lookup p s.heap)
event_of (pings time) = pinged time
event_of (wakes time user id) = woken time user id
event_of (raises user n) = idle
event_of (delivers owner id ev) = published owner ev
event_of closes = shut_down
event_of {s} (takes p b t h) = about p s (λ user id. taken user id b) (lookup p s.heap)

-- A run of hubs, by a list of events, the last first.
abbrev pub Runs : List Event → Hub → Hub → Type 0
Runs [] h k = h ≡ k
Runs (e ∷ es) h k = (mid : Hub) × Runs es h mid × Follows e mid k

unfoldable pub events_of : {s t : Server} → Reach s t → List Event
events_of here = []
events_of (next r st) = event_of st ∷ events_of r
