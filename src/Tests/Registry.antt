-- ===== src/Tests/Registry.antt =====
-- Two users' streams: pings, a delivery, a slow client and a shutdown.
use lierc_api.Base.{
  ◌≡◌, refl, ◌≢◌, List, [], ◌∷◌, ◌++◌, Bytes, none, some, pos, txt, Bool, true, false, ◌⊎◌, nat_eq,
  list_eq, lt_ℤ,
}
use lierc_api.Base.Assoc.{lookup, insert, erase}
use lierc_api.Base.Radix.{of_digits}
use lierc_api.Stream.Perl.{parse_int, parse_digits, decimal_digits}
use lierc_api.Stream.Registry.{
  Stream, Server, new_server, new_stream, register, offer, offer_locked, members, newest,
  raise_latest, raise_if_open, raise_parsed, deliver_locked, close_streams, serve_ping, take_out,
  stop, offer_each,
}
use lierc_api.Stream.Registry.Invariant.{Inv}
use lierc_api.Stream.Registry.Steps.{
  Reach, here, next, registers, raises, delivers, closes, takes, wakes, stops, Reach-Inv,
}
use lierc_api.Stream.Registry.Evolution.{Reach-KeepsQueue}
use lierc_api.Stream.Registry.Hub.{
  new_hub, opened, published, woken, taken, shut_down, event_of, events_of, Runs, hub_of,
}
use lierc_api.Stream.Registry.Hub.Refined.{Reach-Runs}
use lierc_api.Stream.Registry.Newest.{Step-newest}

abbrev anna : Stream
anna = new_stream (txt "s1") (txt "anna") (txt "10.0.0.1") none 100

abbrev bert : Stream
bert = new_stream (txt "s2") (txt "bert") (txt "10.0.0.2") (some (txt "curl")) 101

both : Server
both = register bert (register anna new_server)

both-Reach : Reach new_server both
unfolding both
both-Reach =
    next (next here (registers (txt "s1") (txt "anna") (txt "10.0.0.1") none 100))
      (registers (txt "s2") (txt "bert") (txt "10.0.0.2") (some (txt "curl")) 101)

runs : Server → Server
unfolding register deliver_locked raise_parsed raise_if_open raise_latest offer_each offer_locked
    offer parse_int parse_digits decimal_digits of_digits lookup insert erase both take_out
runs s = s

anna_at : lookup 0 both.heap ≡ some anna
unfolding runs
anna_at = refl

bert_at : lookup 1 both.heap ≡ some bert
unfolding runs
bert_at = refl

anna_member : lookup (txt "s1") (members (txt "anna") both) ≡ some 0
unfolding runs
anna_member = refl

-- Anna's stream gets the event and her newest id is recorded; Bert has none.
delivered : newest (txt "anna") (deliver_locked (txt "anna") (txt "7") (txt "ev") both) ≡ pos 7
unfolding runs
delivered = refl

Reach-Inv_example : Inv both
Reach-Inv_example = Reach-Inv both-Reach

took : Server
took = record both {
  heap = insert 0 anna (insert 0 (record anna { out = txt "ev" ∷ [] }) both.heap);
  latest = insert (txt "anna") (pos 7) both.latest;
}

taking : take_out 0 (deliver_locked (txt "anna") (txt "7") (txt "ev") both) ≡ some (txt "ev", took)
unfolding runs took
taking = refl

-- Two streams are both, one gets an event and takes it, is pinged on wake, and all are closed.
busy : Reach new_server (close_streams (serve_ping (txt "12:00") (txt "anna") (txt "s1") took).0)
busy =
    next
      (next
        (next (next both-Reach (delivers (txt "anna") (txt "7") (txt "ev")))
          (takes 0 (txt "ev") took taking))
        (wakes (txt "12:00") (txt "anna") (txt "s1")))
      closes

busy_events :
    events_of busy
    ≡ shut_down
      ∷ woken (txt "12:00") (txt "anna") (txt "s1")
      ∷ taken (txt "anna") (txt "s1") (txt "ev")
      ∷ published (txt "anna") (txt "ev")
      ∷ opened (txt "bert") (txt "s2")
      ∷ opened (txt "anna") (txt "s1")
      ∷ []
unfolding runs events_of event_of busy both-Reach
busy_events = refl

Reach-Runs_example :
    Runs
      (events_of busy)
      new_hub
      (hub_of (close_streams (serve_ping (txt "12:00") (txt "anna") (txt "s1") took).0))
Reach-Runs_example = Reach-Runs busy

-- Anna's stream is stopped with one event in its queue, and a second one is published.
stopped : Server
stopped = stop 0 (deliver_locked (txt "anna") (txt "7") (txt "ev") both)

stopped-Reach : Reach new_server stopped
unfolding stopped
stopped-Reach = next (next both-Reach (delivers (txt "anna") (txt "7") (txt "ev"))) (stops 0)

stopped_at : lookup 0 stopped.heap ≡ some (record anna { out = txt "ev" ∷ []; done = true })
unfolding runs stopped stop
stopped_at = refl

drained : Server
drained = record stopped { heap = insert 0 (record anna { done = true }) stopped.heap }

draining : take_out 0 stopped ≡ some (txt "ev", drained)
unfolding runs stopped stop drained
draining = refl

-- The writer takes that event, and the second one is not added.
abbrev drains : Reach stopped (deliver_locked (txt "anna") (txt "8") (txt "more") drained)
drains =
    next (next here (takes 0 (txt "ev") drained draining))
      (delivers (txt "anna") (txt "8") (txt "more"))

Reach-KeepsQueue_example :
    (y : Stream) × (lookup 0 (deliver_locked (txt "anna") (txt "8") (txt "more") drained).heap
      ≡ some y)
    × (y.user ≡ txt "anna")
    × (y.id ≡ txt "s1")
    × ((added : List Bytes) × ((txt "ev" ∷ []) ++ added ≡ (txt "ev" ∷ []) ++ y.out)
        × ((◌≡◌ {A = Bool} true false) ⊎ ((y.done ≡ true) × (added ≡ []))))
Reach-KeepsQueue_example =
    Reach-KeepsQueue (Reach-Inv stopped-Reach) drains 0
      (record anna { out = txt "ev" ∷ []; done = true }) stopped_at

anna_open : members (txt "anna") both ≢ []
unfolding runs
anna_open e = cc

anna_still : members (txt "anna") (raise_if_open (txt "anna") (pos 7) both) ≢ []
unfolding runs
anna_still e = cc

Step-newest_example :
    lt_ℤ (newest (txt "anna") (raise_if_open (txt "anna") (pos 7) both)) (newest (txt "anna") both)
    ≡ false
Step-newest_example =
    Step-newest (txt "anna") {s = both} (raises (txt "anna") (pos 7)) anna_open anna_still
