-- ===== src/Stream/Registry/Newest.antt =====
-- A user's newest message id only rises while the user has streams.
use lierc_api.Base.{
  ℕ, ◌≡◌, refl, sym, ◌∙◌, ap, subst, ◌≢◌, inl, inr, true, false, List, [], ◌∷◌, ◌++◌, Option, none,
  some, ℤ, pos, negsuc, Bytes, lt_ℤ, nat_eq, list_eq, arith, key_cases, Option-cases, Bool-cases,
}
use lierc_api.Base.Assoc.{
  Assoc, lookup, insert, erase, lookup-insert_self, lookup-insert_ne, lookup-erase_ne,
}
use lierc_api.Stream.Sse.{ping_event}
use lierc_api.Stream.Perl.{parse_int}
use lierc_api.Stream.Registry.{
  Server, members, newest, or_zero, set_members, register, deregister, deregister_locked, stop,
  offer_locked, ping_locked, ping_each, ping_all, serve_ping, raise_latest, raise_if_open,
  raise_parsed, deliver_locked, stop_each, close_streams, take_out, offer_each, all_pointers,
  pointers,
}
use lierc_api.Stream.Registry.Members.{members-set_members_self, members-set_members_ne}
use lierc_api.Stream.Registry.Sections.{offer_locked_cases}
use lierc_api.Stream.Registry.Raising.{
  take_out_inv, raise_if_open_closed, raise_if_open_open, List-cases,
}
use lierc_api.Stream.Registry.Steps.{
  Step, registers, deregisters, stops, pings, wakes, raises, delivers, closes, takes,
}

lt_ℤ_irrefl : (a : ℤ) → lt_ℤ a a ≡ false
lt_ℤ_irrefl (pos a) = ground arith
lt_ℤ_irrefl (negsuc a) = ground arith

lt_ℤ_asym : (a b : ℤ) → lt_ℤ a b ≡ true → lt_ℤ b a ≡ false
lt_ℤ_asym (pos a) (pos b) h = ground arith
lt_ℤ_asym (pos a) (negsuc b) h = cc
lt_ℤ_asym (negsuc a) (pos b) h = refl
lt_ℤ_asym (negsuc a) (negsuc b) h = ground arith

-- `a ≤ b ≤ c`, as `not (b < a)`.
lt_ℤ_trans : (a b c : ℤ) → lt_ℤ b a ≡ false → lt_ℤ c b ≡ false → lt_ℤ c a ≡ false
lt_ℤ_trans (pos a) (pos b) (pos c) h k = ground arith
lt_ℤ_trans (pos a) (pos b) (negsuc c) h k = cc
lt_ℤ_trans (pos a) (negsuc b) c h k = cc
lt_ℤ_trans (negsuc a) (pos b) (pos c) h k = refl
lt_ℤ_trans (negsuc a) (pos b) (negsuc c) h k = cc
lt_ℤ_trans (negsuc a) (negsuc b) (pos c) h k = refl
lt_ℤ_trans (negsuc a) (negsuc b) (negsuc c) h k = ground arith

module _ (user : Bytes) where
  -- If the user has streams in `t`, it had in `s`, and the newest id has not fallen.
  abbrev Rises : Server → Server → Type 0
  Rises s t =
      members user t ≢ [] → (members user s ≢ []) × (lt_ℤ (newest user t) (newest user s) ≡ false)

  Rises-same :
      (s t : Server) → members user t ≡ members user s → newest user t ≡ newest user s → Rises s t
  Rises-same s t m n h = (
    λ e. h (m ∙ e),
    subst (λ z. lt_ℤ z (newest user s) ≡ false) (sym n) (lt_ℤ_irrefl (newest user s)),
  )

  Rises-trans : (s t u : Server) → Rises s t → Rises t u → Rises s u
  Rises-trans s t u f g h =
      let (k, b) = g h in
      let (l, a) = f k in (l, lt_ℤ_trans (newest user s) (newest user t) (newest user u) a b)

  set_members-Rises :
      (u : Bytes) (m : Assoc Bytes ℕ) (s : Server)
      → (m ≢ [] → members u s ≢ [])
      → Rises s (set_members u m s)
  set_members-Rises u [] s k = elim (key_cases u user) [
    | inl (e, _) ↦ λ h.
        absurd
          (h (subst (λ w. members w (set_members u [] s) ≡ []) e (members-set_members_self u [] s)))
    | inr (n, _) ↦
        Rises-same s (set_members u [] s) (members-set_members_ne u user [] s n)
          (ap or_zero (lookup-erase_ne u user s.latest n))
  ]
  set_members-Rises u (x ∷ m) s k = elim (key_cases u user) [
    | inl (e, _) ↦ λ h. (subst (λ w. members w s ≢ []) e (k (λ c. cc)), lt_ℤ_irrefl (newest user s))
    | inr (n, _) ↦
        Rises-same s (set_members u (x ∷ m) s) (members-set_members_ne u user (x ∷ m) s n) refl
  ]

  erase-nil : (id : Bytes) (m : Assoc Bytes ℕ) → erase id m ≢ [] → m ≢ []
  unfolding erase
  erase-nil id m h e = h (subst (λ l. erase id l ≡ []) (sym e) refl)

  deregister-Rises : (p : ℕ) (s : Server) → Rises s (deregister p s)
  unfolding deregister deregister_locked
  deregister-Rises p s = elim (Option-cases (lookup p s.heap)) [
    | inl e ↦ rw (e, deregister) (Rises-same s s refl refl)
    | inr (st, e) ↦
        rw (e, deregister) (set_members-Rises st.user _ s (erase-nil st.id (members st.user s)))
  ]

  stop-Rises : (p : ℕ) (s : Server) → Rises s (stop p s)
  unfolding stop
  stop-Rises p s = elim (Option-cases (lookup p s.heap)) [
    | inl e ↦ rw (e, stop) (Rises-same s s refl refl)
    | inr (st, e) ↦
        rw (e, stop)
          (Rises-same s (record s { heap = insert p (record st { done = true }) s.heap }) refl refl)
  ]

  offer_locked-Rises : (p : ℕ) (b : Bytes) (s : Server) → Rises s (offer_locked p b s)
  offer_locked-Rises p b s =
      offer_locked_cases (Rises s) p b s (Rises-same s s refl refl)
        (λ st at d room.
          Rises-same s
            (record s { heap = insert p (record st { out = st.out ++ (b ∷ []) }) s.heap }) refl
            refl)
        (λ st at d full.
          Rises-trans s (stop p s) (deregister p (stop p s)) (stop-Rises p s)
            (deregister-Rises p (stop p s)))

  ping_locked-Rises : (time : Bytes) (p : ℕ) (s : Server) → Rises s (ping_locked time p s)
  unfolding ping_locked
  ping_locked-Rises time p s = elim (Option-cases (lookup p s.heap)) [
    | inl e ↦ rw (e, ping_locked) (Rises-same s s refl refl)
    | inr (st, e) ↦
        rw (e, ping_locked) (offer_locked-Rises p (ping_event time (newest st.user s)) s)
  ]

  ping_each-Rises : (time : Bytes) (ps : List ℕ) (s : Server) → Rises s (ping_each time ps s)
  unfolding ping_each
  ping_each-Rises time [] s = Rises-same s s refl refl
  ping_each-Rises time (p ∷ ps) s =
      Rises-trans s (ping_locked time p s) (ping_each time ps (ping_locked time p s))
        (ping_locked-Rises time p s) (ping_each-Rises time ps (ping_locked time p s))

  offer_each-Rises : (b : Bytes) (ps : List ℕ) (s : Server) → Rises s (offer_each b ps s)
  unfolding offer_each
  offer_each-Rises b [] s = Rises-same s s refl refl
  offer_each-Rises b (p ∷ ps) s =
      Rises-trans s (offer_locked p b s) (offer_each b ps (offer_locked p b s))
        (offer_locked-Rises p b s) (offer_each-Rises b ps (offer_locked p b s))

  stop_each-Rises : (ps : List ℕ) (s : Server) → Rises s (stop_each ps s)
  unfolding stop_each
  stop_each-Rises [] s = Rises-same s s refl refl
  stop_each-Rises (p ∷ ps) s =
      Rises-trans s (stop p s) (stop_each ps (stop p s)) (stop-Rises p s)
        (stop_each-Rises ps (stop p s))

  raised_newest :
      (u : Bytes) (n : ℤ) (s : Server)
      → lt_ℤ (newest u s) n ≡ true
      → lt_ℤ (or_zero (lookup user (insert u n s.latest))) (newest user s) ≡ false
  raised_newest u n s h = elim (key_cases u user) [
    | inl (e, _) ↦
        subst (λ w. lt_ℤ (or_zero (lookup w (insert u n s.latest))) (newest w s) ≡ false) e
          (subst (λ o. lt_ℤ (or_zero o) (newest u s) ≡ false)
            (sym (lookup-insert_self u n s.latest)) (lt_ℤ_asym (newest u s) n h))
    | inr (ne, _) ↦
        subst (λ o. lt_ℤ (or_zero o) (newest user s) ≡ false)
          (sym (lookup-insert_ne u user n s.latest ne)) (lt_ℤ_irrefl (newest user s))
  ]

  raise_latest-Rises : (u : Bytes) (n : ℤ) (s : Server) → Rises s (raise_latest u n s)
  unfolding raise_latest
  raise_latest-Rises u n s = elim (Bool-cases (lt_ℤ (newest u s) n)) [
    | inl above ↦ rw (above, raise_latest) (λ h. (h, raised_newest u n s above))
    | inr below ↦ rw (below, raise_latest) (Rises-same s s refl refl)
  ]

  raise_if_open-Rises : (u : Bytes) (n : ℤ) (s : Server) → Rises s (raise_if_open u n s)
  raise_if_open-Rises u n s = elim (List-cases (members u s)) [
    | inl e ↦ subst (Rises s) (sym (raise_if_open_closed u n s e)) (Rises-same s s refl refl)
    | inr (x, xs, e) ↦
        subst (Rises s) (sym (raise_if_open_open u n s (λ h. cc))) (raise_latest-Rises u n s)
  ]

  raise_parsed-Rises :
      (owner : Bytes) (n : Option ℤ) (s : Server) → Rises s (raise_parsed owner n s)
  unfolding raise_parsed
  raise_parsed-Rises owner none s = Rises-same s s refl refl
  raise_parsed-Rises owner (some n) s = raise_if_open-Rises owner n s

  serve_ping-Rises : (time u id : Bytes) (s : Server) → Rises s (serve_ping time u id s).0
  unfolding serve_ping
  serve_ping-Rises time u id s = elim (Option-cases (lookup id (members u s))) [
    | inl e ↦ rw (e, serve_ping) (Rises-same s s refl refl)
    | inr (p, e) ↦ rw (e, serve_ping) (ping_locked-Rises time p s)
  ]

  deliver_locked-Rises : (owner id ev : Bytes) (s : Server) → Rises s (deliver_locked owner id ev s)
  unfolding deliver_locked
  deliver_locked-Rises owner id ev s =
      let s' = raise_parsed owner (parse_int id) s in
      Rises-trans s s' (offer_each ev (pointers (members owner s')) s')
        (raise_parsed-Rises owner (parse_int id) s)
        (offer_each-Rises ev (pointers (members owner s')) s')

  take_out-Rises :
      (p : ℕ) (s : Server) {b : Bytes} {t : Server} → take_out p s ≡ some (b, t) → Rises s t
  take_out-Rises p s h =
      let (st, e, bs, o, k) = take_out_inv p s h in
      subst (Rises s) (sym k)
        (Rises-same s (record s { heap = insert p (record st { out = bs }) s.heap }) refl refl)

  Step-Rises : {s t : Server} → Step s t → members user s ≢ [] → Rises s t
  unfolding ping_all close_streams register
  Step-Rises {s} (registers id u remote agent created) opened =
      λ h. (opened, lt_ℤ_irrefl (newest user s))
  Step-Rises {s} (deregisters p) opened = deregister-Rises p s
  Step-Rises {s} (stops p) opened = stop-Rises p s
  Step-Rises {s} (pings time) opened = ping_each-Rises time (all_pointers s.streams) s
  Step-Rises {s} (wakes time u id) opened = serve_ping-Rises time u id s
  Step-Rises {s} (raises u n) opened = raise_if_open-Rises u n s
  Step-Rises {s} (delivers owner id ev) opened = deliver_locked-Rises owner id ev s
  Step-Rises {s} closes opened =
      Rises-trans s (record s { closed = true }) (close_streams s)
        (Rises-same s (record s { closed = true }) refl refl)
        (stop_each-Rises (all_pointers s.streams) (record s { closed = true }))
  Step-Rises {s} (takes p b t e) opened = take_out-Rises p s e

  -- Through any section of the server, if the user has streams before and after it, the newest
  -- message id that the user's pings carry does not fall.
  pub Step-newest :
      {s t : Server}
      → Step s t
      → members user s ≢ []
      → members user t ≢ []
      → lt_ℤ (newest user t) (newest user s) ≡ false
  Step-newest st opened still = (Step-Rises st opened still).1
