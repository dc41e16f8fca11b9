-- ===== src/Stream/Serve/Opening.antt =====
-- internal/stream/writer.go: what a client reads of the handshake.
use lierc_api.Base.{
  ℕ, zero, suc, ◌≡◌, sym, ap, ◌∙◌, List, [], ◌∷◌, ◌++◌, none, Bytes, txt, nat_eq, list_eq, All,
  All-append, append_assoc, append-nil, arith,
}
use lierc_api.Stream.Sse.{stream_event, ping_event, ping_body}
use lierc_api.Stream.Sse.Reader.{Event, fresh, read, read_line, read_stream}
use lierc_api.Stream.Sse.Frames.{
  IsLine, Frame, IsFrame, write_frames, NoReturn, IsLine-NoReturn, line_ends-same,
  write_frames-NoReturn, read-line, read-write_frames,
}
use lierc_api.Stream.Registry.{Server, newest}
use lierc_api.Stream.Serve.{spaces, padding, handshake}

spaces-IsLine : (n : ℕ) → IsLine (spaces n)
unfolding spaces
spaces-IsLine zero = tt
spaces-IsLine (suc n) = ((omega arith, omega arith), spaces-IsLine n)

-- A comment is read over.
read-comment :
    (es : List Event) (n : ℕ) (rest : Bytes)
    → read (fresh none es) [] (b':' ∷ (spaces n ++ (b'\n' ∷ rest))) ≡ read (fresh none es) [] rest
unfolding read_line
read-comment es n rest =
    read-line (fresh none es) [] (b':' ∷ spaces n) rest
      ((omega arith, omega arith), spaces-IsLine n)

-- A stream that starts with a comment and has no carriage return is read as it is.
read_stream-comment :
    (n : ℕ) (rest : Bytes)
    → NoReturn rest
    → read_stream (b':' ∷ (spaces n ++ (b'\n' ∷ rest))) ≡ (read (fresh none []) [] rest).events
unfolding read_stream
read_stream-comment n rest h =
    ap (λ b. (read (fresh none []) [] b).events)
      (line_ends-same (b':' ∷ (spaces n ++ (b'\n' ∷ rest))) (
        omega arith,
        All-append _ (spaces n) (b'\n' ∷ rest) (IsLine-NoReturn _ (spaces-IsLine n))
            (omega arith, h),
      ))
    ∙ ap (λ st. st.events) (read-comment [] n rest)

-- The frame that `streamEvent` writes.
abbrev stream_frame : Bytes → Frame
stream_frame id = record {
  typ = txt "stream";
  body = txt "{\"id\":\"" ++ (id ++ txt "\"}");
  id = [];
}

abbrev ping_frame : Bytes → Bytes → Server → Frame
ping_frame time user s = record { typ = txt "ping"; body = ping_body time (newest user s); id = [] }

-- Where the id, the time and the printed number have no end of line: a client reads two events from
-- the handshake, its stream's id and a ping with the user's newest message id, and the padding
-- before them adds nothing.
pub read_stream-handshake :
    (time id user : Bytes) (s : Server)
    → IsLine id
    → IsLine (ping_body time (newest user s))
    → read_stream (handshake time id user s)
      ≡ record { kind = txt "stream"; body = txt "{\"id\":\"" ++ (id ++ txt "\"}"); id = none }
        ∷ record { kind = txt "ping"; body = ping_body time (newest user s); id = none }
        ∷ []
unfolding handshake padding stream_event ping_event
read_stream-handshake time id user s hi hp =
    ap (λ b. read_stream (b':' ∷ b))
      (append_assoc (spaces 2048) (b'\n' ∷ []) (stream_event id ++ ping_event time (newest user s)))
    ∙ ap (λ b. read_stream (b':' ∷ (spaces 2048 ++ (b'\n' ∷ (stream_event id ++ b)))))
        (sym (append-nil (ping_event time (newest user s))))
    ∙ read_stream-comment 2048 (write_frames frames) (write_frames-NoReturn frames are_frames)
    ∙ read-write_frames none [] frames are_frames
  where
    frames : List Frame
    frames = stream_frame id ∷ ping_frame time user s ∷ []

    body_line : IsLine (txt "{\"id\":\"" ++ (id ++ txt "\"}"))
    body_line =
        All-append _ (txt "{\"id\":\"") (id ++ txt "\"}") (omega arith)
          (All-append _ id (txt "\"}") hi (omega arith))

    are_frames : All IsFrame frames
    are_frames = ((omega arith, body_line, tt, tt), ((omega arith, hp, tt, tt), tt))
