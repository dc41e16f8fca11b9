-- ===== src/Stream/Sse.antt =====
-- internal/stream/server.go: the text of an event (`sseEvent`, `pingEvent`, `streamEvent`). The
-- time that a ping carries is an argument, the text that `hiresTime` prints.
pub mod Reader
pub mod Frames
use lierc_api.Base.{ℕ, suc, ◌+◌, List, [], ◌∷◌, ◌++◌, ℤ, pos, negsuc, Bytes, txt}
use lierc_api.Base.Radix.{decimal}

-- The id line stands only under a non-empty id.
abbrev id_line : Bytes → Bytes
id_line [] = []
id_line (c ∷ cs) = txt "\nid: " ++ (c ∷ cs)

-- `sseEvent`
unfoldable pub sse_event : Bytes → Bytes → Bytes → Bytes
sse_event typ body id =
    txt "event: " ++ (typ ++ (txt "\ndata: " ++ (body ++ (id_line id ++ txt "\n\n"))))

-- `strconv.FormatInt`, as `encoding/json` writes an int64.
unfoldable pub itoa : ℤ → Bytes
itoa (pos n) = decimal n
itoa (negsuc n) = b'-' ∷ decimal (suc n)

-- The JSON of a ping.
unfoldable pub ping_body : Bytes → ℤ → Bytes
ping_body time last_id =
    txt "{\"time\":" ++ (time ++ (txt ",\"last_id\":" ++ (itoa last_id ++ txt "}")))

-- `pingEvent`
unfoldable pub ping_event : Bytes → ℤ → Bytes
ping_event time last_id = sse_event (txt "ping") (ping_body time last_id) []

-- `streamEvent`. A stream id is alphanumeric, so JSON quotes it as it is.
unfoldable pub stream_event : Bytes → Bytes
stream_event id = sse_event (txt "stream") (txt "{\"id\":\"" ++ (id ++ txt "\"}")) []
