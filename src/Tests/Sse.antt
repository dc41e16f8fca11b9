-- ===== src/Tests/Sse.antt =====
-- Two events on the wire and read back.
use lierc_api.Base.{◌≡◌, refl, List, [], ◌∷◌, txt, some, arith, pos}
use lierc_api.Base.Radix.{decimal}
use lierc_api.Stream.Sse.{sse_event, ping_event, ping_body, itoa}
use lierc_api.Stream.Sse.Reader.{read_stream}
use lierc_api.Stream.Sse.Frames.{Frame, write_frames, read_stream-write_frames}

wire : sse_event (txt "irc") (txt "{}") (txt "7") ≡ txt "event: irc\ndata: {}\nid: 7\n\n"
unfolding sse_event
wire = refl

ping : ping_event (txt "1.5") (pos 42) ≡ txt "event: ping\ndata: {\"time\":1.5,\"last_id\":42}\n\n"
unfolding ping_event ping_body sse_event itoa decimal
ping = refl

frames : List Frame
frames =
    record { typ = txt "irc"; body = txt "{}"; id = txt "7" }
    ∷ record { typ = txt "ping"; body = txt "{\"time\":1}"; id = [] }
    ∷ []

-- The ping comes with the id of the message before it.
read_stream-write_frames_example :
    read_stream (write_frames frames)
    ≡ record { kind = txt "irc"; body = txt "{}"; id = some (txt "7") }
      ∷ record { kind = txt "ping"; body = txt "{\"time\":1}"; id = some (txt "7") }
      ∷ []
unfolding frames
read_stream-write_frames_example = read_stream-write_frames frames (omega arith)
