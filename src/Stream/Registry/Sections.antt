-- ===== src/Stream/Registry/Sections.antt =====
-- Every section of the registry keeps its invariant.
use lierc_api.Base.{
  ℕ, ◌≤◌, ◌<◌, ◌≡◌, refl, sym, subst, inl, inr, true, false, List, [], ◌∷◌, ◌++◌, none, some, Bytes,
  length, nat_eq, list_eq, arith, Bool-cases, Option-cases, length-append, dec_lt,
}
use lierc_api.Base.Assoc.{lookup, insert}
use lierc_api.Stream.Registry.{
  Stream, Server, buffer_size, members, deregister, stop, offer, offer_locked, ping_locked,
  ping_each, serve_ping, newest, offer_each, new_server,
}
use lierc_api.Stream.Sse.{ping_event}
use lierc_api.Stream.Registry.Invariant.{Inv, written-Inv}
use lierc_api.Stream.Registry.Members.{deregister_locked-Inv}

pub new_server-Inv : Inv new_server
unfolding lookup
new_server-Inv = record {
  keyed = λ u id p h. cc;
  distinct = λ u. tt;
  nonempty = λ u h. cc;
  latest_open = λ u h. refl;
  latest_pos = λ u n h. cc;
  bounded = λ p st h. cc;
  fresh = λ p h. refl;
  stopped = λ c u id p st h. cc;
}

-- The cases of `offer` on a stream that is there.
module _ (p : ℕ) (b : Bytes) (s : Server) (st : Stream) (at : lookup p s.heap ≡ some st) where
  abbrev pub queued : Server
  queued = record s { heap = insert p (record st { out = st.out ++ (b ∷ []) }) s.heap }

  offer_done : st.done ≡ true → offer p b s ≡ (s, true)
  unfolding offer
  offer_done d = rw (at, offer) (ground arith)

  offer_room : st.done ≡ false → length st.out < buffer_size → offer p b s ≡ (queued, true)
  unfolding offer
  offer_room d room = rw (at, offer) (ground arith)

  offer_full : st.done ≡ false → buffer_size ≤ length st.out → offer p b s ≡ (stop p s, false)
  unfolding offer
  offer_full d full = rw (at, offer) (ground arith)

  pub offer_locked_done : st.done ≡ true → offer_locked p b s ≡ s
  unfolding offer_locked
  offer_locked_done d = rw (offer_done d, offer_locked)

  pub offer_locked_room :
      st.done ≡ false → length st.out < buffer_size → offer_locked p b s ≡ queued
  unfolding offer_locked
  offer_locked_room d room = rw (offer_room d room, offer_locked)

  pub offer_locked_full :
      st.done ≡ false → buffer_size ≤ length st.out → offer_locked p b s ≡ deregister p (stop p s)
  unfolding offer_locked
  offer_locked_full d full = rw (offer_full d full, offer_locked)

pub offer_locked-none :
    (p : ℕ) (b : Bytes) (s : Server) → lookup p s.heap ≡ none → offer_locked p b s ≡ s
unfolding offer_locked offer
offer_locked-none p b s e = rw (e, offer_locked, offer)

-- What becomes of the server by `offerLocked`: nothing happens, `b` is queued, or the stream is
-- stopped and dropped.
pub offer_locked_cases {ℓ} :
    (P : Server → Type ℓ) (p : ℕ) (b : Bytes) (s : Server)
    → P s
    → ((st : Stream) (at : lookup p s.heap ≡ some st)
        → st.done ≡ false
        → length st.out < buffer_size
        → P (queued p b s st at))
    → ((st : Stream)
        → lookup p s.heap ≡ some st
        → st.done ≡ false
        → buffer_size ≤ length st.out
        → P (deregister p (stop p s)))
    → P (offer_locked p b s)
offer_locked_cases P p b s same queues drops = elim (Option-cases (lookup p s.heap)) [
  | inl e ↦ subst P (sym (offer_locked-none p b s e)) same
  | inr (st, e) ↦ elim (Bool-cases st.done) [
    | inl d ↦ subst P (sym (offer_locked_done p b s st e d)) same
    | inr d ↦ elim (dec_lt (length st.out) buffer_size) [
      | yes room ↦ subst P (sym (offer_locked_room p b s st e d room)) (queues st e d room)
      | no full ↦
          let f : buffer_size ≤ length st.out = omega arith in
          subst P (sym (offer_locked_full p b s st e d f)) (drops st e d f)
    ]
  ]
]

pub stop-Inv : (p : ℕ) (s : Server) → Inv s → Inv (stop p s)
unfolding stop
stop-Inv p s v = elim (Option-cases (lookup p s.heap)) [
  | inl e ↦ rw (e, stop) v
  | inr (st, e) ↦
      rw (e, stop)
        (written-Inv s p st (record st { done = true }) e
          (record { same_user = refl; same_id = refl; still_done = λ d. refl }) (v.bounded p st e)
          v)
]

pub deregister-Inv : (p : ℕ) (s : Server) → Inv s → Inv (deregister p s)
unfolding deregister
deregister-Inv p s v = elim (Option-cases (lookup p s.heap)) [
  | inl e ↦ rw (e, deregister) v
  | inr (st, e) ↦ rw (e, deregister) (deregister_locked-Inv st.user st.id s v)
]

pub offer_locked-Inv : (p : ℕ) (b : Bytes) (s : Server) → Inv s → Inv (offer_locked p b s)
offer_locked-Inv p b s v =
    offer_locked_cases Inv p b s v
      (λ st at d room.
        written-Inv s p st (record st { out = st.out ++ (b ∷ []) }) at
          (record { same_user = refl; same_id = refl; still_done = λ e. e })
          (omega (arith, length-append st.out (b ∷ []))) v)
      (λ st at d full. deregister-Inv p (stop p s) (stop-Inv p s v))

pub ping_locked-Inv : (time : Bytes) (p : ℕ) (s : Server) → Inv s → Inv (ping_locked time p s)
unfolding ping_locked
ping_locked-Inv time p s v = elim (Option-cases (lookup p s.heap)) [
  | inl e ↦ rw (e, ping_locked) v
  | inr (st, e) ↦ rw (e, ping_locked) (offer_locked-Inv p (ping_event time (newest st.user s)) s v)
]

pub ping_each-Inv : (time : Bytes) (ps : List ℕ) (s : Server) → Inv s → Inv (ping_each time ps s)
unfolding ping_each
ping_each-Inv time [] s v = v
ping_each-Inv time (p ∷ ps) s v = ping_each-Inv time ps _ (ping_locked-Inv time p s v)

pub offer_each-Inv : (b : Bytes) (ps : List ℕ) (s : Server) → Inv s → Inv (offer_each b ps s)
unfolding offer_each
offer_each-Inv b [] s v = v
offer_each-Inv b (p ∷ ps) s v = offer_each-Inv b ps _ (offer_locked-Inv p b s v)

pub serve_ping-Inv : (time user id : Bytes) (s : Server) → Inv s → Inv (serve_ping time user id s).0
unfolding serve_ping
serve_ping-Inv time user id s v = elim (Option-cases (lookup id (members user s))) [
  | inl e ↦ rw (e, serve_ping) v
  | inr (p, e) ↦ rw (e, serve_ping) (ping_locked-Inv time p s v)
]
