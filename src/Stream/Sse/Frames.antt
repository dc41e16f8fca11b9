-- ===== src/Stream/Sse/Frames.antt =====
-- What the server writes, a client reads back: events arrive whole and in order.
use lierc_api.Base.{
  false, ◌==◌, subst, ℕ, List, [], ◌∷◌, ◌++◌, Option, none, some, Bytes, txt, nat_eq, list_eq, All,
  ◌≢◌, ◌≡◌, refl, sym, ◌∙◌, ap, All-append, arith, append_assoc, append-nil,
}
use lierc_api.Stream.Sse.{sse_event}
use lierc_api.Stream.Sse.Reader.{
  Event, State, fresh, has_null, set_id, or_message, drop_mark, line_ends, read, read_line,
  read_stream,
}

-- One line: no line feed and no carriage return.
abbrev pub IsLine : Bytes → Type 0
IsLine s = All (λ c. (c ≢ b'\n') × (c ≢ b'\r')) s

-- The arguments of one call of `sseEvent`.
pub record Frame : Type 0 where
  pub typ : Bytes
  pub body : Bytes
  pub id : Bytes

abbrev pub IsFrame : Frame → Type 0
IsFrame f = IsLine f.typ × IsLine f.body × IsLine f.id × All (λ c. c ≢ 0) f.id

abbrev pub write_frames : List Frame → Bytes
write_frames [] = []
write_frames (f ∷ fs) = sse_event f.typ f.body f.id ++ write_frames fs

-- An empty id leaves the last one.
abbrev pub last_id : Option Bytes → Bytes → Option Bytes
last_id last [] = last
last_id last (c ∷ cs) = some (c ∷ cs)

-- The events of the frames, behind the id `last`.
abbrev pub events_of : Option Bytes → List Frame → List Event
events_of last [] = []
events_of last (f ∷ fs) =
    record { kind = or_message f.typ; body = f.body; id = last_id last f.id }
    ∷ events_of (last_id last f.id) fs

read-cons :
    (s : State) (line : Bytes) (c : ℕ) (cs : Bytes)
    → (c ≢ b'\n') × (c ≢ b'\r')
    → read s line (c ∷ cs) ≡ read s (line ++ (c ∷ [])) cs
unfolding read
read-cons s line c cs h = ground arith

pub read-line :
    (s : State) (line x rest : Bytes)
    → IsLine x
    → read s line (x ++ (b'\n' ∷ rest)) ≡ read (read_line s (line ++ x)) [] rest
read-line s line [] rest h = rw append-nil (unfold read in refl)
read-line s line (c ∷ x) rest h =
    read-cons s line c (x ++ (b'\n' ∷ rest)) h.0
    ∙ read-line s (line ++ (c ∷ [])) x rest h.1
    ∙ ap (λ l. read (read_line s l) [] rest) (append_assoc line (c ∷ []) x)

-- A field's line, by its name and its blank.
read-field :
    (s : State) (name x rest : Bytes)
    → IsLine name
    → IsLine x
    → read s [] (name ++ (x ++ (b'\n' ∷ rest))) ≡ read (read_line s (name ++ x)) [] rest
read-field s name x rest hn hx =
    ap (read s []) (sym (append_assoc name x (b'\n' ∷ rest)))
    ∙ read-line s [] (name ++ x) rest (All-append _ name x hn hx)

-- What stands behind the data's bytes: the end of its line, the id's line if there is one, and a
-- blank line.
abbrev tail_of : Bytes → Bytes → Bytes
tail_of [] rest = b'\n' ∷ b'\n' ∷ rest
tail_of (c ∷ cs) rest = b'\n' ∷ (txt "id: " ++ ((c ∷ cs) ++ (b'\n' ∷ b'\n' ∷ rest)))

sse_event-tail_of :
    (typ body id rest : Bytes)
    → sse_event typ body id ++ rest
      ≡ txt "event: " ++ (typ ++ (b'\n' ∷ (txt "data: " ++ (body ++ tail_of id rest))))
unfolding sse_event
sse_event-tail_of typ body [] rest = simp append_assoc
sse_event-tail_of typ body (c ∷ cs) rest = simp append_assoc

has_null-false : (s : Bytes) → All (λ c. c ≢ 0) s → has_null s ≡ false
has_null-false [] h = refl
has_null-false (c ∷ cs) h = let e = has_null-false cs h.1 in ground (arith, h.0)

read-tail_of :
    (last : Option Bytes) (es : List Event) (typ body id rest : Bytes)
    → IsLine body
    → IsLine id
    → All (λ c. c ≢ 0) id
    → read
        (record { kind = typ; body = []; id = last; events = es })
        []
        (txt "data: " ++ (body ++ tail_of id rest))
      ≡ read
          (fresh
            (last_id last id)
            (es ++ (record { kind = or_message typ; body = body; id = last_id last id } ∷ [])))
          []
          rest
unfolding read_line read
read-tail_of last es typ body [] rest hb hi hn =
    read-field _ (txt "data: ") body (b'\n' ∷ rest) (omega arith) hb
read-tail_of last es typ body (c ∷ cs) rest hb hi hn =
    read-field _ (txt "data: ") body _ (omega arith) hb
    ∙ read-field _ (txt "id: ") (c ∷ cs) (b'\n' ∷ rest) (omega arith) hi
    ∙ ap
        (λ b.
          read (set_id (record { kind = typ; body = body ∷ []; id = last; events = es }) (c ∷ cs) b)
            [] (b'\n' ∷ rest))
        (has_null-false (c ∷ cs) hn)

-- The lines of one event: its kind, its data, its id if there is one, and a blank line.
read-sse_event :
    (last : Option Bytes) (es : List Event) (f : Frame) (rest : Bytes)
    → IsFrame f
    → read (fresh last es) [] (sse_event f.typ f.body f.id ++ rest)
      ≡ read
          (fresh (last_id last f.id) (
            es ++ (record { kind = or_message f.typ; body = f.body; id = last_id last f.id } ∷ [])))
          []
          rest
unfolding read_line
read-sse_event last es f rest (ht, hb, hi, hn) =
    ap (read (fresh last es) []) (sse_event-tail_of f.typ f.body f.id rest)
    ∙ read-field (fresh last es) (txt "event: ") f.typ _ (omega arith) ht
    ∙ read-tail_of last es f.typ f.body f.id rest hb hi hn

pub read-write_frames :
    (last : Option Bytes) (es : List Event) (fs : List Frame)
    → All IsFrame fs
    → (read (fresh last es) [] (write_frames fs)).events ≡ es ++ events_of last fs
read-write_frames last es [] h = unfold read in sym (append-nil es)
read-write_frames last es (f ∷ fs) h =
    let e : Event = record { kind = or_message f.typ; body = f.body; id = last_id last f.id } in
    ap (λ s. s.events) (read-sse_event last es f (write_frames fs) h.0)
    ∙ read-write_frames (last_id last f.id) (es ++ (e ∷ [])) fs h.1
    ∙ append_assoc es (e ∷ []) (events_of (last_id last f.id) fs)

abbrev pub NoReturn : Bytes → Type 0
NoReturn s = All (λ c. c ≢ b'\r') s

pub line_ends-same : (s : Bytes) → NoReturn s → line_ends false s ≡ s
unfolding line_ends
line_ends-same [] h = refl
line_ends-same (c ∷ cs) h =
    let f : (c == b'\r') ≡ false = ground (arith, h.0) in rw (f, line_ends-same cs h.1) refl

pub IsLine-NoReturn : (s : Bytes) → IsLine s → NoReturn s
IsLine-NoReturn [] h = tt
IsLine-NoReturn (c ∷ cs) h = (h.0.1, IsLine-NoReturn cs h.1)

pub write_frames-NoReturn : (fs : List Frame) → All IsFrame fs → NoReturn (write_frames fs)
write_frames-NoReturn [] h = tt
write_frames-NoReturn (f ∷ fs) ((ht, hb, hi, hn), hs) =
    subst NoReturn (sym (sse_event-tail_of f.typ f.body f.id (write_frames fs))) (
      All-append (λ c. c ≢ b'\r') (txt "event: ") _ (omega arith)
        (All-append _ f.typ _ (IsLine-NoReturn f.typ ht) (
          omega arith,
          All-append (λ c. c ≢ b'\r') (txt "data: ") _ (omega arith)
              (All-append _ f.body _ (IsLine-NoReturn f.body hb) (
                tail f.id (IsLine-NoReturn f.id hi) (write_frames fs)
                  (write_frames-NoReturn fs hs))),
        )))
  where
    tail : (id : Bytes) → NoReturn id → (rest : Bytes) → NoReturn rest → NoReturn (tail_of id rest)
    tail [] h rest r = (omega arith, (omega arith, r))
    tail (c ∷ cs) h rest r = (
      omega arith,
      All-append (λ c. c ≢ b'\r') (txt "id: ") ((c ∷ cs) ++ (b'\n' ∷ b'\n' ∷ rest)) (omega arith)
          (All-append (λ c. c ≢ b'\r') (c ∷ cs) (b'\n' ∷ b'\n' ∷ rest) h
            (omega arith, (omega arith, r))),
    )

write_frames-mark : (fs : List Frame) → drop_mark (write_frames fs) ≡ write_frames fs
unfolding sse_event
write_frames-mark [] = refl
write_frames-mark (f ∷ fs) = refl

-- A client that reads by the standard what the server wrote for a sequence of events, each with a kind,
-- data and an id of one line, without line feed and carriage return, and the id without a null
-- character: it gets these events and no other, in order and with their data, and with the id or,
-- where it is empty, the last one before it.
pub read_stream-write_frames :
    (fs : List Frame) → All IsFrame fs → read_stream (write_frames fs) ≡ events_of none fs
unfolding read_stream
read_stream-write_frames fs h =
    ap (λ b. (read (fresh none []) [] (line_ends false b)).events) (write_frames-mark fs)
    ∙ ap (λ b. (read (fresh none []) [] b).events)
        (line_ends-same (write_frames fs) (write_frames-NoReturn fs h))
    ∙ read-write_frames none [] fs h
