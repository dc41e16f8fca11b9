-- ===== src/Stream/Registry/Steps.antt =====
-- The interleavings of the goroutines: each section of the registry as a step.
use lierc_api.Base.{ℕ, ◌≡◌, Option, some, ℤ, Bytes, refl}
use lierc_api.Stream.Registry.{
  Server, new_server, new_stream, register, deregister, stop, ping_all, serve_ping, raise_if_open,
  deliver_locked, close_streams, take_out, all_pointers,
}
use lierc_api.Stream.Registry.Invariant.{Inv}
use lierc_api.Stream.Registry.Registering.{register-Inv}
use lierc_api.Stream.Registry.Sections.{
  new_server-Inv, deregister-Inv, stop-Inv, ping_each-Inv, serve_ping-Inv,
}
use lierc_api.Stream.Registry.Stopping.{close_streams-Inv}
use lierc_api.Stream.Registry.Raising.{raise_if_open-Inv, deliver_locked-Inv, take_out-Inv}

-- A stream is opened, ended by its handler or stopped, all are pinged, one is pinged on wake, the
-- newest id found at the opening is recorded, a message is delivered, all are closed, or a
-- writer takes an event.
pub data Step (s : Server) : Server → Type 0 where
  registers :
      (id user remote : Bytes) (agent : Option Bytes) (created : ℕ)
      → Step s (register (new_stream id user remote agent created) s)
  deregisters : (p : ℕ) → Step s (deregister p s)
  stops : (p : ℕ) → Step s (stop p s)
  pings : (time : Bytes) → Step s (ping_all time s)
  wakes : (time user id : Bytes) → Step s (serve_ping time user id s).0
  raises : (user : Bytes) (n : ℤ) → Step s (raise_if_open user n s)
  delivers : (owner id ev : Bytes) → Step s (deliver_locked owner id ev s)
  closes : Step s (close_streams s)
  takes : (p : ℕ) (b : Bytes) (t : Server) → take_out p s ≡ some (b, t) → Step s t

pub data Reach (s : Server) : Server → Type 0 where
  here : Reach s s
  next : {t u : Server} → Reach s t → Step t u → Reach s u

pub Step-Inv : {s t : Server} → Step s t → Inv s → Inv t
unfolding ping_all
Step-Inv {s} (registers id user remote agent created) v =
    register-Inv (new_stream id user remote agent created) s refl v
Step-Inv {s} (deregisters p) v = deregister-Inv p s v
Step-Inv {s} (stops p) v = stop-Inv p s v
Step-Inv {s} (pings time) v = ping_each-Inv time (all_pointers s.streams) s v
Step-Inv {s} (wakes time user id) v = serve_ping-Inv time user id s v
Step-Inv {s} (raises user n) v = raise_if_open-Inv user n s v
Step-Inv {s} (delivers owner id ev) v = deliver_locked-Inv owner id ev s v
Step-Inv {s} closes v = close_streams-Inv s v
Step-Inv {s} (takes p b t h) v = take_out-Inv p s v h

-- In every state that a new server reaches, by any interleaving of its sections: an entry of the
-- registry points to a stream with the user and the id it stands under; no id stands twice under
-- a user and no user is kept without streams; a newest id is kept only for a user with streams
-- and is positive; no queue holds more than 1024 events; a pointer not yet given out has no
-- stream; and once the streams are closed, every registered stream is stopped.
pub Reach-Inv : {t : Server} → Reach new_server t → Inv t
Reach-Inv here = new_server-Inv
Reach-Inv (next r st) = Step-Inv st (Reach-Inv r)
