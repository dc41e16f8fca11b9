-- ===== src/Stream/Registry/Hub/Followed.antt =====
-- Every section of the registry does to the table of channels what its event says.
use lierc_api.Base.{
  ℕ, ◌≡◌, refl, sym, ◌∙◌, ap, subst, ◌⊎◌, inl, inr, Bool, true, false, Option, none, some, Bytes,
  nat_eq, list_eq, arith, key_cases, eqb_refl,
}
use lierc_api.Base.Assoc.{lookup, lookup-insert_self, lookup-insert_ne}
use lierc_api.Stream.Registry.{
  Stream, Server, new_stream, members, register, deregister, deregister_locked, stop, if_closed,
}
use lierc_api.Stream.Registry.Invariant.{Inv, none-some, some_inj}
use lierc_api.Stream.Registry.Registering.{members-register_self, members-register_ne}
use lierc_api.Stream.Registry.Stopping.{stop_streams}
use lierc_api.Stream.Registry.Hub.{
  Channel, opened, cut, if_registered, Table, halted, born, put, Event, idle, SameAs, Follows,
  channel, channel_of, pointed, view, hub_of, about, leaving,
}
use lierc_api.Stream.Registry.Hub.Shut.{deregister_closed}
use lierc_api.Stream.Registry.Hub.Viewed.{
  Registered, Only, stop-view, stop-Only, deregister_locked-view, deregister_locked-Only,
  rewritten-Elsewhere,
}

put_self : (user id : Bytes) (c : Option Channel) (h : Table) → put user id c h user id ≡ c
put_self user id c h = rw (eqb_refl user, eqb_refl id)

put-ne :
    (user id other key : Bytes) (c : Option Channel) (h : Table)
    → ¬ ((user ≡ other) × (id ≡ key))
    → put user id c h other key ≡ h other key
put-ne user id other key c h n = elim (key_cases user other) [
  | inr (_, f) ↦ rw f
  | inl (e, t) ↦ elim (key_cases id key) [ inr (_, f) ↦ rw (t, f) | inl (d, _) ↦ absurd (n (e, d)) ]
]

-- A change under one user and id only.
pub Only-put :
    (user id : Bytes) (s t : Server) (c : Option Channel)
    → view t user id ≡ c
    → Only user id s t
    → SameAs (view t) (put user id c (view s))
Only-put user id s t c e only other key = elim (key_cases user other) [
  | inl (p, x) ↦ elim (key_cases id key) [
    | inl (q, y) ↦ rw (x, y) (subst (λ u. view t u key ≡ c) p (subst (λ k. view t user k ≡ c) q e))
    | inr (n, y) ↦ rw (x, y) (elim (only other key) [ inl d ↦ absurd (n d.1) | inr d ↦ d.1 ])
  ]
  | inr (n, x) ↦ rw x (elim (only other key) [ inl d ↦ absurd (n d.0) | inr d ↦ d.1 ])
]

abbrev pub Goes : Event → Server → Server → Type 0
Goes e s t = Follows e (hub_of s) (hub_of t)

module _ (user id remote : Bytes) (agent : Option Bytes) (created : ℕ) (s : Server)
    (v : Inv s) where
  abbrev fresh_stream : Stream
  fresh_stream = new_stream id user remote agent created

  abbrev registered : Server
  registered = register fresh_stream s

  born_lem : (b : Bool) → channel (if_closed b fresh_stream) ≡ born b
  born_lem true = refl
  born_lem false = refl

  register-view : view registered user id ≡ some (born s.closed)
  unfolding register
  register-view =
      ap (λ m. pointed registered.heap (lookup id m))
        (members-register_self fresh_stream s user refl)
      ∙ ap (pointed registered.heap) (lookup-insert_self id s.next (members user s))
      ∙ ap channel_of (lookup-insert_self s.next (if_closed s.closed fresh_stream) s.heap)
      ∙ ap some (born_lem s.closed)

  heap_old :
      (o : Option ℕ) (other key : Bytes)
      → lookup key (members other s) ≡ o
      → pointed registered.heap o ≡ pointed s.heap o
  unfolding register
  heap_old none other key h = refl
  heap_old (some q) other key h =
      let (x, a, _, _) = v.keyed other key q h in
      ap channel_of (
        lookup-insert_ne s.next q _ s.heap (λ e.
          none-some (v.fresh s.next (omega arith))
            (subst (λ k. lookup k s.heap ≡ some x) (sym e) a)))

  register_entries :
      (other key : Bytes)
      → ((user ≡ other) × (id ≡ key))
        ⊎ (lookup key (members other registered) ≡ lookup key (members other s))
  register_entries other key = elim (key_cases user other) [
    | inr (n, _) ↦ inr (ap (lookup key) (members-register_ne fresh_stream s other n))
    | inl (e, _) ↦ elim (key_cases id key) [
      | inl (f, _) ↦ inl (e, f)
      | inr (n, _) ↦ inr (
          ap (lookup key) (members-register_self fresh_stream s other e)
          ∙ lookup-insert_ne id key s.next (members other s) n)
    ]
  ]

  register-Only : Only user id s registered
  register-Only other key = elim (register_entries other key) [
    | inl e ↦ inl e
    | inr m ↦
        inr (
          m,
          ap (pointed registered.heap) m ∙ heap_old (lookup key (members other s)) other key refl,
        )
  ]

  pub registers-Goes : Follows (opened user id) (hub_of s) (hub_of registered)
  unfolding register
  registers-Goes =
      (refl, Only-put user id s registered (some (born s.closed)) register-view register-Only)

module _ (p : ℕ) (s : Server) (v : Inv s) where
  pub deregisters-Goes :
      (o : Option Stream) → lookup p s.heap ≡ o → Goes (leaving o) s (deregister p s)
  unfolding deregister
  deregisters-Goes none e = rw (e, deregister) (refl, λ user id. refl)
  deregisters-Goes (some st) e = (
    deregister_closed p s,
    rw (e, deregister)
        (Only-put st.user st.id s (deregister_locked st.user st.id s) none
          (deregister_locked-view st.user st.id s) (deregister_locked-Only st.user st.id s)),
  )

  -- What holds of a stream, by whether it stands in the registry.
  pub about_lem :
      (P : Event → Type 0) (st : Stream) (e : Bytes → Bytes → Event)
      → (¬ Registered s st.user st.id p → P idle)
      → (Registered s st.user st.id p → P (e st.user st.id))
      → P (about p s e (some st))
  about_lem P st e out in_it = by (lookup st.id (members st.user s)) refl
    where
      by :
          (o : Option ℕ)
          → lookup st.id (members st.user s) ≡ o
          → P (if_registered p o (e st.user st.id))
      by none h = out (λ k. none-some h k)
      by (some q) h = elim (key_cases p q) [
        | inl (x, t) ↦ rw t (in_it (h ∙ ap some (sym x)))
        | inr (n, f) ↦ rw f (out (λ k. n (some_inj (sym k ∙ h))))
      ]

  -- A stream that does not stand under its user and id does not stand anywhere.
  pub nowhere :
      (st : Stream)
      → lookup p s.heap ≡ some st
      → ¬ Registered s st.user st.id p
      → (other key : Bytes) → ¬ Registered s other key p
  nowhere st at n other key k =
      let (x, a, b, c) = v.keyed other key p k in
      let z : x ≡ st = some_inj (sym a ∙ at) in
      n (
        subst (λ y. Registered s y.user y.id p) z
          (subst (λ u. Registered s u x.id p) (sym b)
            (subst (λ i. Registered s other i p) (sym c) k)))

  pub stops-Goes : (o : Option Stream) → lookup p s.heap ≡ o → Goes (about p s cut o) s (stop p s)
  unfolding stop
  stops-Goes none e = rw (e, stop) (refl, λ user id. refl)
  stops-Goes (some st) e =
      about_lem (λ ev. Goes ev s (stop p s)) st cut
        (λ n. (
          (stop_streams p s).1,
          λ other key.
              rw (e, stop)
                (rewritten-Elsewhere s p (record st { done = true }) other key
                  (nowhere st e n other key)).1,
        ))
        (λ h. (
          (stop_streams p s).1,
          Only-put st.user st.id s (stop p s) (halted (view s st.user st.id))
              (stop-view p s st.user st.id v h) (stop-Only p s st.user st.id v h),
        ))
