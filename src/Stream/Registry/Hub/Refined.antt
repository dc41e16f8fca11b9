-- ===== src/Stream/Registry/Hub/Refined.antt =====
-- The registry refines the table of channels: the sections with loops, and all sections together.
use lierc_api.Base.{
  ℕ, ◌≡◌, refl, sym, ◌∙◌, ap, ap₂, subst, inl, inr, true, List, ◌∷◌, Option, none, some, ℤ, pos,
  Bytes, nat_eq, list_eq, arith, key_cases, Option-cases, ◌==◌, if◌then◌else◌,
}
use lierc_api.Base.Assoc.{lookup, insert}
use lierc_api.Stream.Sse.{ping_event}
use lierc_api.Stream.Perl.{parse_int}
use lierc_api.Stream.Registry.{
  Stream, Server, new_server, members, or_nil, stop, ping_all, serve_ping, ping_locked,
  raise_if_open, raise_parsed, deliver_locked, offer_locked, offer_each, close_streams, take_out,
  pointers, all_pointers,
}
use lierc_api.Stream.Registry.Invariant.{Inv, none-some}
use lierc_api.Stream.Registry.Sections.{new_server-Inv}
use lierc_api.Stream.Registry.Raising.{raise_parsed-Inv, take_out_inv}
use lierc_api.Stream.Registry.Stopping.{In, registered-In, lookup-In-pointers, stop_each_closed}
use lierc_api.Stream.Registry.Evolution.{raise_if_open_heap, raise_parsed_heap}
use lierc_api.Stream.Registry.Delivery.{NoDup, raise_parsed_streams}
use lierc_api.Stream.Registry.Steps.{
  Step, registers, deregisters, stops, pings, wakes, raises, delivers, closes, takes, Reach, here,
  next, Step-Inv,
}
use lierc_api.Stream.Registry.Hub.{
  Channel, new_hub, offered, halted, dequeued, published, pinged, woken, shut_down, taken, SameAs,
  channel, pointed, view, hub_of, event_of, events_of, Runs, about,
}
use lierc_api.Stream.Registry.Hub.Viewed.{
  one_place, Registered, rewritten-view, rewritten-Only, rewritten-Elsewhere, ping_locked-Offers,
}
use lierc_api.Stream.Registry.Hub.Rounds.{
  Section, AllRegistered, round, round-In, round-out, offer_locked-Section, ping_locked-Section,
  stop-Section, offer_each-round, ping_each-round, stop_each-round,
}
use lierc_api.Stream.Registry.Hub.Keys.{
  UserKeys, Step-UserKeys, streams-NoDup, streams-AllRegistered, members-NoDup,
  members-AllRegistered, members-owner, raise_if_open_streams,
}
use lierc_api.Stream.Registry.Hub.Shut.{
  offer_each_closed, ping_locked_closed, ping_each_closed, raise_if_open_closed,
  raise_parsed_closed,
}
use lierc_api.Stream.Registry.Hub.Followed.{
  Goes, Only-put, registers-Goes, deregisters-Goes, stops-Goes, about_lem, nowhere,
}

module _ (s : Server) (v : Inv s) where
  -- Where no stream stands, the view is empty.
  view-none : (user id : Bytes) → lookup id (members user s) ≡ none → view s user id ≡ none
  view-none user id h = ap (pointed s.heap) h

  module _ (R : Option Channel → Option Channel → Type 0) (f : ℕ → Server → Server)
      (each : Section R f) (empty : R none none) where
    -- A round over a list with the stream of `user` and `id`, if there is one.
    round-view :
        (ps : List ℕ) (user id : Bytes)
        → NoDup ps
        → AllRegistered ps s
        → ((q : ℕ) → Registered s user id q → In q ps)
        → R (view s user id) (view (round R f each ps s) user id)
    round-view ps user id once all has = by (lookup id (members user s)) refl
      where
        by :
            (o : Option ℕ)
            → lookup id (members user s) ≡ o
            → R (view s user id) (view (round R f each ps s) user id)
        by none h =
            let e = view-none user id h in
            let g = round-out R f each ps s user id once all v (λ q k. absurd (none-some h k)) in
            subst (λ c. R c (view (round R f each ps s) user id)) (sym e)
              (subst (R none) (sym (g ∙ e)) empty)
        by (some q) h = round-In R f each ps s user id q once all v h (has q h)

  -- `offerLocked` for each stream of `owner`.
  offer_each-view :
      (b owner : Bytes)
      → SameAs
          (view (offer_each b (pointers (members owner s)) s))
          (λ other id. if owner == other then offered b (view s other id) else view s other id)
  offer_each-view b owner other id = elim (key_cases owner other) [
    | inl (e, t) ↦ rw t (
        subst
          (λ u. view (offer_each b (pointers (members owner s)) s) u id ≡ offered b (view s u id)) e
          (ap (λ t. view t owner id) (offer_each-round b (pointers (members owner s)) s)
            ∙ round-view (λ c d. d ≡ offered b c) (λ p. offer_locked p b) (offer_locked-Section b)
                refl (pointers (members owner s)) owner id (members-NoDup s v owner)
                (members-AllRegistered s v owner)
                (λ q h. lookup-In-pointers id (members owner s) q h)))
    | inr (n, f) ↦ rw f (
        ap (λ t. view t other id) (offer_each-round b (pointers (members owner s)) s)
        ∙ round-out (λ c d. d ≡ offered b c) (λ p. offer_locked p b) (offer_locked-Section b)
            (pointers (members owner s)) s other id (members-NoDup s v owner)
            (members-AllRegistered s v owner) v
            (λ q k i. n (one_place s v (members-owner s v owner q i).1 k).0))
  ]

  module _ (keys : UserKeys s) where
    pings-Goes : (time : Bytes) → Goes (pinged time) s (ping_all time s)
    unfolding ping_all
    pings-Goes time = (
      ping_each_closed time (all_pointers s.streams) s,
      λ user id.
          subst (λ t. (n : ℤ) × (view t user id ≡ offered (ping_event time n) (view s user id)))
            (sym (ping_each-round time (all_pointers s.streams) s))
            (round-view (λ c d. (n : ℤ) × (d ≡ offered (ping_event time n) c)) (ping_locked time)
              (ping_locked-Section time) (pos 0, refl) (all_pointers s.streams) user id
              (streams-NoDup s v keys) (streams-AllRegistered s v keys)
              (λ q h. registered-In s user id q h)),
    )

    closes-Goes : Goes shut_down s (close_streams s)
    unfolding close_streams
    closes-Goes =
        subst (Goes shut_down s) (sym (stop_each_closed (all_pointers s.streams) s true)) (
          refl,
          λ user id.
              ap (λ t. view t user id) (stop_each-round (all_pointers s.streams) s)
              ∙ round-view (λ c d. d ≡ halted c) stop stop-Section refl (all_pointers s.streams)
                  user id (streams-NoDup s v keys) (streams-AllRegistered s v keys)
                  (λ q h. registered-In s user id q h),
        )

  serve_ping-none :
      (time user id : Bytes) → lookup id (members user s) ≡ none → (serve_ping time user id s).0 ≡ s
  unfolding serve_ping
  serve_ping-none time user id e = rw (e, serve_ping)

  serve_ping-some :
      (time user id : Bytes) (p : ℕ)
      → lookup id (members user s) ≡ some p
      → (serve_ping time user id s).0 ≡ ping_locked time p s
  unfolding serve_ping
  serve_ping-some time user id p e = rw (e, serve_ping)

  wakes-Goes : (time user id : Bytes) → Goes (woken time user id) s (serve_ping time user id s).0
  wakes-Goes time user id = elim (Option-cases (lookup id (members user s))) [
    | inl e ↦
        let w = view-none user id e in
        subst (Goes (woken time user id) s) (sym (serve_ping-none time user id e)) (
          refl,
          (
            pos 0,
            Only-put user id s s (offered (ping_event time (pos 0)) (view s user id))
                (w ∙ sym (ap (offered (ping_event time (pos 0))) w))
                (λ other key. inr (refl, refl)),
          ),
        )
    | inr (p, e) ↦
        let (n, (x, only)) = ping_locked-Offers p s user id v e time in
        subst (Goes (woken time user id) s) (sym (serve_ping-some time user id p e)) (
          ping_locked_closed time p s,
          (
            n,
            Only-put user id s (ping_locked time p s) (offered (ping_event time n) (view s user id))
                x only,
          ),
        )
  ]

  takes-Goes :
      (p : ℕ) (b : Bytes) (t : Server)
      → take_out p s ≡ some (b, t)
      → Goes (about p s (λ user id. taken user id b) (lookup p s.heap)) s t
  takes-Goes p b t h =
      let (st, at, bs, o, e) = take_out_inv p s h in
      subst (λ o. Goes (about p s (λ user id. taken user id b) o) s t) (sym at)
        (subst (Goes (about p s (λ user id. taken user id b) (some st)) s) (sym e) (
          about_lem p s v
            (λ ev. Goes ev s (record s { heap = insert p (record st { out = bs }) s.heap })) st
            (λ user id. taken user id b)
            (λ n. (
              refl,
              λ other key.
                  (rewritten-Elsewhere s p (record st { out = bs }) other key
                    (nowhere p s v st at n other key)).1,
            ))
            (λ k. (
              refl,
              (
                channel (record st { out = bs }),
                first st bs at k o,
                Only-put st.user st.id s
                    (record s { heap = insert p (record st { out = bs }) s.heap })
                    (some (channel (record st { out = bs })))
                    (rewritten-view s p (record st { out = bs }) st.user st.id k)
                    (rewritten-Only s p (record st { out = bs }) st.user st.id v k),
              ),
            ))))
    where
      first :
          (st : Stream) (bs : List Bytes)
          → lookup p s.heap ≡ some st
          → Registered s st.user st.id p
          → st.out ≡ b ∷ bs
          → dequeued (view s st.user st.id) ≡ some (b, channel (record st { out = bs }))
      first st bs at k o = rw (k, at) (ground (arith, o))

-- What does not touch the streams does not touch the table.
raised-SameAs : (s t : Server) → t.heap ≡ s.heap → t.streams ≡ s.streams → SameAs (view t) (view s)
raised-SameAs s t h m user id = ap₂ pointed h (ap (λ l. lookup id (or_nil (lookup user l))) m)

pub delivers-Goes :
    (owner id ev : Bytes) (s : Server)
    → Inv s
    → Goes (published owner ev) s (deliver_locked owner id ev s)
unfolding deliver_locked
delivers-Goes owner id ev s v =
    let n = parse_int id in
    let r = raise_parsed owner n s in
    let same = raised-SameAs s r (raise_parsed_heap owner n s) (raise_parsed_streams owner n s) in
    (
      offer_each_closed ev (pointers (members owner r)) r ∙ raise_parsed_closed owner n s,
      λ other key.
          offer_each-view r (raise_parsed-Inv owner n s v) ev owner other key
          ∙ ap (λ c. if owner == other then offered ev c else c) (same other key),
    )

-- One section, on a state that the invariant holds of.
Step-Goes : {s t : Server} (e : Step s t) → Inv s → UserKeys s → Goes (event_of e) s t
unfolding event_of
Step-Goes {s} (registers id user remote agent created) v k =
    registers-Goes user id remote agent created s v
Step-Goes {s} (deregisters p) v k = deregisters-Goes p s v (lookup p s.heap) refl
Step-Goes {s} (stops p) v k = stops-Goes p s v (lookup p s.heap) refl
Step-Goes {s} (pings time) v k = pings-Goes s v k time
Step-Goes {s} (wakes time user id) v k = wakes-Goes s v time user id
Step-Goes {s} (raises user n) v k = (
  raise_if_open_closed user n s,
  raised-SameAs s (raise_if_open user n s) (raise_if_open_heap user n s)
      (raise_if_open_streams user n s),
)
Step-Goes {s} (delivers owner id ev) v k = delivers-Goes owner id ev s v
Step-Goes {s} closes v k = closes-Goes s v k
Step-Goes {s} (takes p b t h) v k = takes-Goes s v p b t h

Reach-Goes :
    {t : Server} (r : Reach new_server t)
    → Inv t × UserKeys t × Runs (events_of r) new_hub (hub_of t)
unfolding events_of lookup
Reach-Goes here = (new_server-Inv, tt, refl)
Reach-Goes (next {t = t} r e) =
    let (v, k, runs) = Reach-Goes r in
    (Step-Inv e v, Step-UserKeys e k, (hub_of t, runs, Step-Goes e v k))

-- The server refines a table of channels by user and id, each a queue that runs or is stopped:
-- through any interleaving of its sections from the start, each section does to what stands under
-- the users and ids what its event says, and nothing else. A stream that opens is an empty queue,
-- stopped if the streams were closed before. A published event goes to the end of each running
-- queue of its user, and drops one that is full; so do a ping, to all, and a ping on wake, to one,
-- with some number. The end of a stream takes away what stands under its user and id. A stop keeps
-- the queue, a shutdown stops all, and a writer takes the event in front.
pub Reach-Runs : {t : Server} (r : Reach new_server t) → Runs (events_of r) new_hub (hub_of t)
Reach-Runs r = (Reach-Goes r).2

pub Reach-UserKeys : {t : Server} → Reach new_server t → UserKeys t
Reach-UserKeys r = (Reach-Goes r).1
