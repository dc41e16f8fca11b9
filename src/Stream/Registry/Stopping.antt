-- ===== src/Stream/Registry/Stopping.antt =====
-- `CloseStreams` stops every registered stream, and keeps the invariant.
use lierc_api.Base.{
  ℕ, ◌≡◌, refl, sym, ◌∙◌, ap, subst, ◌⊎◌, inl, inr, Bool, true, false, List, [], ◌∷◌, ◌++◌, some,
  Bytes, nat_eq, list_eq, arith, key_cases, Option-cases,
}
use lierc_api.Base.Assoc.{Assoc, lookup, insert, lookup-insert_self}
use lierc_api.Stream.Registry.{
  Stream, Server, members, or_nil, stop, stop_each, close_streams, pointers, all_pointers,
}
use lierc_api.Stream.Registry.Invariant.{Inv, Kept, none-some, some_inj, lookup_written}
use lierc_api.Stream.Registry.Sections.{stop-Inv}

abbrev pub In : ℕ → List ℕ → Type 0
In p [] = ⊥
In p (q ∷ qs) = (p ≡ q) ⊎ In p qs

In-append_left : (p : ℕ) (ps qs : List ℕ) → In p ps → In p (ps ++ qs)
In-append_left p [] qs h = absurd h
In-append_left p (x ∷ ps) qs (inl e) = inl e
In-append_left p (x ∷ ps) qs (inr h) = inr (In-append_left p ps qs h)

In-append_right : (p : ℕ) (ps qs : List ℕ) → In p qs → In p (ps ++ qs)
In-append_right p [] qs h = h
In-append_right p (x ∷ ps) qs h = inr (In-append_right p ps qs h)

pub lookup-In-pointers :
    (id : Bytes) (m : Assoc Bytes ℕ) (p : ℕ) → lookup id m ≡ some p → In p (pointers m)
unfolding lookup
lookup-In-pointers id [] p h = cc
lookup-In-pointers id ((i, q) ∷ m) p h = elim (key_cases i id) [
  | inl (_, t) ↦ inl (some_inj (sym (rw t at h)))
  | inr (_, f) ↦ inr (lookup-In-pointers id m p (rw f at h))
]

lookup-In-all_pointers :
    (user : Bytes) (ms : Assoc Bytes (Assoc Bytes ℕ)) (m : Assoc Bytes ℕ) (p : ℕ)
    → lookup user ms ≡ some m
    → In p (pointers m)
    → In p (all_pointers ms)
unfolding lookup
lookup-In-all_pointers user [] m p h i = cc
lookup-In-all_pointers user ((u, l) ∷ ms) m p h i = elim (key_cases u user) [
  | inl (_, t) ↦
      In-append_left p (pointers l) _
        (subst (λ k. In p (pointers k)) (some_inj (sym (rw t at h))) i)
  | inr (_, f) ↦ In-append_right p (pointers l) _ (lookup-In-all_pointers user ms m p (rw f at h) i)
]

pub registered-In :
    (s : Server) (user id : Bytes) (p : ℕ)
    → lookup id (members user s) ≡ some p
    → In p (all_pointers s.streams)
unfolding lookup
registered-In s user id p h = elim (Option-cases (lookup user s.streams)) [
  | inl e ↦ absurd (none-some refl (subst (λ o. lookup id (or_nil o) ≡ some p) e h))
  | inr (m, e) ↦
      lookup-In-all_pointers user s.streams m p e
        (lookup-In-pointers id m p (subst (λ o. lookup id (or_nil o) ≡ some p) e h))
]

Kept-trans : {x y z : Stream} → Kept x y → Kept y z → Kept x z
Kept-trans k l = record {
  same_user = l.same_user ∙ k.same_user;
  same_id = l.same_id ∙ k.same_id;
  still_done = λ d. l.still_done (k.still_done d);
}

-- A stopped stream is done, and every other stays as it is.
stop_keeps :
    (p : ℕ) (s : Server) (q : ℕ) (x : Stream)
    → lookup q s.heap ≡ some x
    → (y : Stream) × (lookup q (stop p s).heap ≡ some y) × Kept x y × (q ≡ p → y.done ≡ true)
unfolding stop
stop_keeps p s q x h = elim (Option-cases (lookup p s.heap)) [
  | inl e ↦
      rw (e, stop)
        (
          x,
          h,
          record { same_user = refl; same_id = refl; still_done = λ d. d },
          λ k. absurd (none-some e (subst (λ i. lookup i s.heap ≡ some x) k h)),
        )
  | inr (st, e) ↦
      rw (e, stop)
        (let (y, a, k) =
            lookup_written s p st (record st { done = true }) e
              (record { same_user = refl; same_id = refl; still_done = λ d. refl }) q x h in
          (
            y,
            a,
            k,
            λ i.
                ap (λ z. z.done)
                  (some_inj (
                    sym a
                    ∙ subst
                        (λ j.
                          lookup j (insert p (record st { done = true }) s.heap)
                          ≡ some (record st { done = true }))
                        (sym i) (lookup-insert_self p (record st { done = true }) s.heap))),
          ))
]

stop_each_keeps :
    (ps : List ℕ) (s : Server) (q : ℕ) (x : Stream)
    → lookup q s.heap ≡ some x
    → (y : Stream) × (lookup q (stop_each ps s).heap ≡ some y)
      × Kept x y
      × (In q ps → y.done ≡ true)
unfolding stop_each
stop_each_keeps [] s q x h =
    (x, h, record { same_user = refl; same_id = refl; still_done = λ d. d }, λ i. absurd i)
stop_each_keeps (p ∷ ps) s q x h =
    let (y, a, k, d) = stop_keeps p s q x h in
    let (z, b, l, e) = stop_each_keeps ps (stop p s) q y a in
    (z, b, Kept-trans k l, elim [ inl i ↦ l.still_done (d i) | inr i ↦ e i ])

stop_closed :
    (p : ℕ) (s : Server) (c : Bool)
    → stop p (record s { closed = c }) ≡ record (stop p s) { closed = c }
unfolding stop
stop_closed p s c = ground arith

pub stop_streams :
    (p : ℕ) (s : Server) → ((stop p s).streams ≡ s.streams) × ((stop p s).closed ≡ s.closed)
unfolding stop
stop_streams p s = ground arith

pub stop_each_closed :
    (ps : List ℕ) (s : Server) (c : Bool)
    → stop_each ps (record s { closed = c }) ≡ record (stop_each ps s) { closed = c }
unfolding stop_each
stop_each_closed [] s c = refl
stop_each_closed (p ∷ ps) s c =
    ap (stop_each ps) (stop_closed p s c) ∙ stop_each_closed ps (stop p s) c

pub stop_each_streams : (ps : List ℕ) (s : Server) → (stop_each ps s).streams ≡ s.streams
unfolding stop_each
stop_each_streams [] s = refl
stop_each_streams (p ∷ ps) s = stop_each_streams ps (stop p s) ∙ (stop_streams p s).0

stop_each-Inv : (ps : List ℕ) (s : Server) → Inv s → Inv (stop_each ps s)
unfolding stop_each
stop_each-Inv [] s v = v
stop_each-Inv (p ∷ ps) s v = stop_each-Inv ps (stop p s) (stop-Inv p s v)

reopened-Inv : (s : Server) → Inv s → Inv (record s { closed = false })
reopened-Inv s v = record {
  keyed = v.keyed;
  distinct = v.distinct;
  nonempty = v.nonempty;
  latest_open = v.latest_open;
  latest_pos = v.latest_pos;
  bounded = v.bounded;
  fresh = v.fresh;
  stopped = λ c. cc;
}

pub close_streams-Inv : (s : Server) → Inv s → Inv (close_streams s)
unfolding close_streams
close_streams-Inv s v =
    let s0 : Server = record s { closed = false } in
    let ps = all_pointers s.streams in
    let w = stop_each-Inv ps s0 (reopened-Inv s v) in
    subst Inv (sym (stop_each_closed ps s0 true)) (record {
      keyed = w.keyed;
      distinct = w.distinct;
      nonempty = w.nonempty;
      latest_open = w.latest_open;
      latest_pos = w.latest_pos;
      bounded = w.bounded;
      fresh = w.fresh;
      stopped = λ _ user id p st m h.
          let m' =
            subst (λ l. lookup id (or_nil (lookup user l)) ≡ some p) (stop_each_streams ps s0) m in
          let (x, a, _, _) = v.keyed user id p m' in
          let (y, b, _, d) = stop_each_keeps ps s0 p x a in
          subst (λ z. z.done ≡ true) (some_inj (sym b ∙ h)) (d (registered-In s user id p m'));
    })
