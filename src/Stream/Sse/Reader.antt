-- ===== src/Stream/Sse/Reader.antt =====
-- How a client reads an event stream, by the Server-Sent Events standard: the mark of byte order at the
-- front, the three ends of a line, the fields, and the last event id, which stays from one event to the
-- next. The server's framing is checked against it. Fields that make no event, as `retry`, are skipped.
use lierc_api.Base.{
  Bool, true, false, ◌||◌, ◌&&◌, List, [], ◌∷◌, ◌++◌, Option, none, some, Bytes, txt, ◌==◌, nat_eq,
  list_eq, if◌then◌else◌,
}

pub record Event : Type 0 where
  pub kind : Bytes
  pub body : Bytes
  pub id : Option Bytes

-- The type and the data read since the last blank line, the last id, none before the first, and the
-- events so far, newest last.
pub record State : Type 0 where
  pub kind : Bytes
  pub body : List Bytes
  pub id : Option Bytes
  pub events : List Event

abbrev pub fresh : Option Bytes → List Event → State
fresh last es = record { kind = []; body = []; id = last; events = es }

-- The field's name before the first colon, and its value behind it less one blank.
abbrev pub value_of : Bytes → Bytes
value_of [] = []
value_of (c ∷ cs) = if c == b' ' then cs else c ∷ cs

abbrev pub cut : Bytes → Bytes × Bytes
cut [] = ([], [])
cut (c ∷ cs) = let rest = cut cs in if c == b':' then ([], value_of cs) else (c ∷ rest.0, rest.1)

abbrev join_lines : List Bytes → Bytes
join_lines [] = []
join_lines (l ∷ []) = l
join_lines (l ∷ m ∷ ls) = l ++ (b'\n' ∷ join_lines (m ∷ ls))

abbrev pub has_null : Bytes → Bool
has_null [] = false
has_null (c ∷ cs) = c == 0 || has_null cs

-- An id with a null character is ignored.
abbrev pub set_id : State → Bytes → Bool → State
set_id s value true = s
set_id s value false = record s { id = some value }

abbrev pub field : State → Bytes × Bytes → State
field s (name, value) =
    if name == txt "event"
    then record s { kind = value }
    else if name == txt "data"
    then record s { body = s.body ++ (value ∷ []) }
    else if name == txt "id"
    then set_id s value (has_null value)
    else s

-- The type of an event without one.
abbrev pub or_message : Bytes → Bytes
or_message [] = txt "message"
or_message (c ∷ cs) = c ∷ cs

-- A blank line dispatches what was read, if it holds data.
abbrev pub dispatch : State → List Bytes → State
dispatch s [] = fresh s.id s.events
dispatch s (l ∷ ls) =
    fresh s.id (
      s.events ++ (record { kind = or_message s.kind; body = join_lines (l ∷ ls); id = s.id } ∷ []))

unfoldable pub read_line : State → Bytes → State
read_line s [] = dispatch s s.body
read_line s (c ∷ cs) = field s (cut (c ∷ cs))

-- The bytes of the stream one by one, `line` the bytes since the last line feed.
unfoldable pub read : State → Bytes → Bytes → State
read s line [] = s
read s line (c ∷ cs) = elim (c == b'\n') [
  | true ↦ read (read_line s line) [] cs
  | false ↦ read s (line ++ (c ∷ [])) cs
]

-- A carriage return, or one with a line feed, ends a line as a line feed does: each becomes a line
-- feed. The Boolean says whether a carriage return is right before.
unfoldable pub line_ends : Bool → Bytes → Bytes
line_ends cr [] = []
line_ends cr (c ∷ cs) =
    let rest = line_ends (c == b'\r') cs in
    if c == b'\r' then b'\n' ∷ rest else if cr && c == b'\n' then rest else c ∷ rest

-- The mark of byte order in UTF-8 is taken off the front.
abbrev pub behind_ef : Bytes → Bytes
behind_ef (b ∷ c ∷ cs) = if b == 0xbb && c == 0xbf then cs else 0xef ∷ b ∷ c ∷ cs
behind_ef cs = 0xef ∷ cs

abbrev pub drop_mark : Bytes → Bytes
drop_mark [] = []
drop_mark (c ∷ cs) = if c == 0xef then behind_ef cs else c ∷ cs

unfoldable pub read_stream : Bytes → List Event
read_stream bytes = (read (fresh none []) [] (line_ends false (drop_mark bytes))).events
