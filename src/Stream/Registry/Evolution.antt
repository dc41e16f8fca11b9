-- ===== src/Stream/Registry/Evolution.antt =====
-- What becomes of one stream while the server runs: it stays, with its user and its id, its queue is
-- emptied by its writer only, and once it is stopped nothing is added to it.
pub mod Kept
use lierc_api.Base.{
  ℕ, ◌≡◌, refl, sym, ◌∙◌, ap, ap₂, subst, inl, inr, true, List, [], ◌∷◌, ◌++◌, Option, none, some,
  ℤ, Bytes, nat_eq, list_eq, arith, key_cases, eqb_refl, ◌≢◌, ◌==◌, if◌then◌else◌, false, ◌⊎◌,
  Bool-cases, Option-cases, append_assoc, append-nil,
}
use lierc_api.Base.Assoc.{lookup, insert, lookup-insert_self, lookup-insert_ne}
use lierc_api.Stream.Sse.{ping_event}
use lierc_api.Stream.Perl.{parse_int}
use lierc_api.Stream.Registry.{
  Stream, Server, new_stream, deregister, deregister_locked, stop, offer_locked, ping_locked,
  ping_each, ping_all, serve_ping, newest, raise_latest, raise_if_open, raise_parsed,
  deliver_locked, stop_each, close_streams, take_out, offer_each, all_pointers, members, pointers,
}
use lierc_api.Stream.Registry.Invariant.{Inv, some_inj}
use lierc_api.Stream.Registry.Members.{set_members_heap}
use lierc_api.Stream.Registry.Registering.{register_old}
use lierc_api.Stream.Registry.Sections.{offer_locked_cases}
use lierc_api.Stream.Registry.Raising.{take_out_inv}
use lierc_api.Stream.Registry.Steps.{
  Step, registers, deregisters, stops, pings, wakes, raises, delivers, closes, takes, Reach, here,
  next, Step-Inv,
}
use lierc_api.Stream.Registry.Evolution.Kept.{
  Evolves, stays, Takes, KeepsBehind, KeepsStreams, keeps_same, keeps_behind, keeps_trans,
  KeepsBehind-written, keeps_written,
}

stop_keeps : (p : ℕ) (s : Server) → KeepsStreams s (stop p s)
unfolding stop
stop_keeps p s = elim (Option-cases (lookup p s.heap)) [
  | inl e ↦ rw (e, stop) (keeps_same s s refl)
  | inr (st, e) ↦
      rw (e, stop)
        (keeps_written s p st (record st { done = true }) e
          (record {
            same_user = refl;
            same_id = refl;
            still_done = λ d. refl;
            added = [];
            fifo = append-nil st.out;
            none_added = λ _. refl;
          }))
]

pub deregister_heap : (p : ℕ) (s : Server) → (deregister p s).heap ≡ s.heap
unfolding deregister deregister_locked
deregister_heap p s = elim (Option-cases (lookup p s.heap)) [
  | inl e ↦ rw (e, deregister)
  | inr (st, e) ↦ rw (e, deregister) (set_members_heap st.user _ s)
]

offer_locked_keeps : (p : ℕ) (b : Bytes) (s : Server) → KeepsStreams s (offer_locked p b s)
offer_locked_keeps p b s =
    offer_locked_cases (KeepsStreams s) p b s (keeps_same s s refl)
      (λ st at d room.
        keeps_written s p st (record st { out = st.out ++ (b ∷ []) }) at
          (record {
            same_user = refl;
            same_id = refl;
            still_done = λ e. e;
            added = b ∷ [];
            fifo = refl;
            none_added = λ e. cc;
          }))
      (λ st at d full.
        keeps_trans s (stop p s) (deregister p (stop p s)) (stop_keeps p s)
          (keeps_same (stop p s) (deregister p (stop p s)) (deregister_heap p (stop p s))))

ping_locked_keeps : (time : Bytes) (p : ℕ) (s : Server) → KeepsStreams s (ping_locked time p s)
unfolding ping_locked
ping_locked_keeps time p s = elim (Option-cases (lookup p s.heap)) [
  | inl e ↦ rw (e, ping_locked) (keeps_same s s refl)
  | inr (st, e) ↦ rw (e, ping_locked) (offer_locked_keeps p (ping_event time (newest st.user s)) s)
]

ping_each_keeps : (time : Bytes) (ps : List ℕ) (s : Server) → KeepsStreams s (ping_each time ps s)
unfolding ping_each
ping_each_keeps time [] s = keeps_same s s refl
ping_each_keeps time (p ∷ ps) s =
    keeps_trans s (ping_locked time p s) (ping_each time ps (ping_locked time p s))
      (ping_locked_keeps time p s) (ping_each_keeps time ps (ping_locked time p s))

offer_each_keeps : (b : Bytes) (ps : List ℕ) (s : Server) → KeepsStreams s (offer_each b ps s)
unfolding offer_each
offer_each_keeps b [] s = keeps_same s s refl
offer_each_keeps b (p ∷ ps) s =
    keeps_trans s (offer_locked p b s) (offer_each b ps (offer_locked p b s))
      (offer_locked_keeps p b s) (offer_each_keeps b ps (offer_locked p b s))

stop_each_keeps : (ps : List ℕ) (s : Server) → KeepsStreams s (stop_each ps s)
unfolding stop_each
stop_each_keeps [] s = keeps_same s s refl
stop_each_keeps (p ∷ ps) s =
    keeps_trans s (stop p s) (stop_each ps (stop p s)) (stop_keeps p s)
      (stop_each_keeps ps (stop p s))

serve_ping_keeps :
    (time user id : Bytes) (s : Server) → KeepsStreams s (serve_ping time user id s).0
unfolding serve_ping
serve_ping_keeps time user id s = elim (Option-cases (lookup id (members user s))) [
  | inl e ↦ rw (e, serve_ping) (keeps_same s s refl)
  | inr (p, e) ↦ rw (e, serve_ping) (ping_locked_keeps time p s)
]

pub raise_if_open_heap :
    (user : Bytes) (n : ℤ) (s : Server) → (raise_if_open user n s).heap ≡ s.heap
unfolding raise_if_open raise_latest
raise_if_open_heap user n s = ground arith

pub raise_parsed_heap :
    (owner : Bytes) (n : Option ℤ) (s : Server) → (raise_parsed owner n s).heap ≡ s.heap
unfolding raise_parsed
raise_parsed_heap owner none s = refl
raise_parsed_heap owner (some n) s = raise_if_open_heap owner n s

deliver_locked_keeps :
    (owner id ev : Bytes) (s : Server) → KeepsStreams s (deliver_locked owner id ev s)
unfolding deliver_locked
deliver_locked_keeps owner id ev s =
    let s' = raise_parsed owner (parse_int id) s in
    keeps_trans s s' (offer_each ev (pointers (members owner s')) s')
      (keeps_same s s' (raise_parsed_heap owner (parse_int id) s))
      (offer_each_keeps ev (pointers (members owner s')) s')

-- What the writer of `p` takes in one section.
abbrev pub taken_by : {s t : Server} → Step s t → Takes
taken_by (takes p b t h) q = if p == q then b ∷ [] else []
taken_by (registers id user remote agent created) q = []
taken_by (deregisters p) q = []
taken_by (stops p) q = []
taken_by (pings time) q = []
taken_by (wakes time user id) q = []
taken_by (raises user n) q = []
taken_by (delivers owner id ev) q = []
taken_by closes q = []

-- What it takes in a run, first to last.
abbrev pub taken_in : {s t : Server} → Reach s t → Takes
taken_in here q = []
taken_in (next r st) q = taken_in r q ++ taken_by st q

take_out_keeps :
    (p : ℕ) (s : Server) {b : Bytes} {t : Server}
    → take_out p s ≡ some (b, t)
    → KeepsBehind (λ q. if p == q then b ∷ [] else []) s t
take_out_keeps p s {b} h =
    let (st, e, bs, o, k) = take_out_inv p s h in
    let f : Takes = λ q. if p == q then b ∷ [] else [] in
    let own : f p ≡ b ∷ [] = rw (eqb_refl p) refl in
    let moved : Evolves (b ∷ []) st (record st { out = bs }) = record {
      same_user = refl;
      same_id = refl;
      still_done = λ d. d;
      added = [];
      fifo = append-nil st.out ∙ o;
      none_added = λ _. refl;
    } in
    subst (KeepsBehind f s) (sym k) (
      KeepsBehind-written f s p st (record st { out = bs }) e
        (subst (λ l. Evolves l st (record st { out = bs })) (sym own) moved)
        (λ q n. elim (key_cases p q) [ inl (e, _) ↦ absurd (n e) | inr (_, w) ↦ rw w refl ]))

-- One section of the server, on a state that the invariant holds of: every stream that is there
-- stays and has evolved.
pub Step-KeepsBehind : {s t : Server} (st : Step s t) → Inv s → KeepsBehind (taken_by st) s t
unfolding ping_all close_streams
Step-KeepsBehind {s} (registers id user remote agent created) v = λ p x h. (
  x,
  register_old (new_stream id user remote agent created) s p x (v.fresh s.next (omega arith)) h,
  stays x,
)
Step-KeepsBehind {s} (deregisters p) v = keeps_same s (deregister p s) (deregister_heap p s)
Step-KeepsBehind {s} (stops p) v = stop_keeps p s
Step-KeepsBehind {s} (pings time) v = ping_each_keeps time (all_pointers s.streams) s
Step-KeepsBehind {s} (wakes time user id) v = serve_ping_keeps time user id s
Step-KeepsBehind {s} (raises user n) v =
    keeps_same s (raise_if_open user n s) (raise_if_open_heap user n s)
Step-KeepsBehind {s} (delivers owner id ev) v = deliver_locked_keeps owner id ev s
Step-KeepsBehind {s} closes v =
    stop_each_keeps (all_pointers s.streams) (record s { closed = true })
Step-KeepsBehind {s} (takes p b t h) v = take_out_keeps p s h

Reach-keeps : {s t : Server} → Inv s → (r : Reach s t) → Inv t × KeepsBehind (taken_in r) s t
Reach-keeps {s} v here = (v, keeps_same s s refl)
Reach-keeps {s} v (next {t = t} {u = u} r st) =
    let (w, k) = Reach-keeps v r in
    (Step-Inv st w, keeps_behind (taken_in r) (taken_by st) s t u k (Step-KeepsBehind st w))

-- Over any number of sections and through any interleaving, from a state that the invariant holds of:
-- a stream stays, with its user and its id. The events that its writer took in these sections, and
-- behind them those in its queue, are the ones that were in its queue before and, behind them, those
-- added since. So none that was queued is lost, repeated or reordered, and it leaves the queue only to
-- the writer. A stopped stream stays stopped, and nothing is added to it.
pub Reach-KeepsQueue :
    {s t : Server}
    → Inv s
    → (r : Reach s t) (p : ℕ) (x : Stream) → lookup p s.heap ≡ some x
    → (y : Stream) × (lookup p t.heap ≡ some y)
      × (y.user ≡ x.user)
      × (y.id ≡ x.id)
      × ((added : List Bytes) × (x.out ++ added ≡ taken_in r p ++ y.out)
          × ((x.done ≡ false) ⊎ ((y.done ≡ true) × (added ≡ []))))
Reach-KeepsQueue v r p x h =
    let (y, at, k) = (Reach-keeps v r).1 p x h in
    (
      y,
      at,
      k.same_user,
      k.same_id,
      (
        k.added,
        k.fifo,
        elim (Bool-cases x.done) [ inl d ↦ inr (k.still_done d, k.none_added d) | inr d ↦ inl d ],
      ),
    )
