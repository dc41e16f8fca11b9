-- ===== src/Stream/Registry/Hub/Viewed.antt =====
-- One stream in the view of the registry as a table: a write to it, its removal, an offer to it.
use lierc_api.Base.{
  ℕ, ◌≡◌, refl, sym, ◌∙◌, ap, ap₂, subst, ◌⊎◌, inl, inr, true, [], ◌∷◌, ◌++◌, Option, none, some, ℤ,
  Bytes, length, nat_eq, list_eq, arith, key_cases, Bool-cases, Option-cases, dec_lt,
}
use lierc_api.Base.Assoc.{
  lookup, insert, erase, lookup-insert_self, lookup-insert_ne, lookup-erase_self, lookup-erase_ne,
}
use lierc_api.Stream.Sse.{ping_event}
use lierc_api.Stream.Registry.{
  Stream, Server, members, set_members, deregister, deregister_locked, stop, offer_locked,
  ping_locked, newest, buffer_size,
}
use lierc_api.Stream.Registry.Invariant.{Inv, none-some, some_inj}
use lierc_api.Stream.Registry.Members.{
  members-set_members_self, members-set_members_ne, set_members_heap,
}
use lierc_api.Stream.Registry.Sections.{offer_locked_done, offer_locked_room, offer_locked_full}
use lierc_api.Stream.Registry.Hub.{offered, halted, channel, channel_of, pointed, view}

abbrev pub Registered : Server → Bytes → Bytes → ℕ → Type 0
Registered s user id p = lookup id (members user s) ≡ some p

-- Where nothing happens but under one user and id.
abbrev pub Elsewhere : Server → Server → Bytes → Bytes → Type 0
Elsewhere s t other key =
    (lookup key (members other t) ≡ lookup key (members other s))
    × (view t other key ≡ view s other key)

abbrev pub Only : Bytes → Bytes → Server → Server → Type 0
Only user id s t = (other key : Bytes) → ((user ≡ other) × (id ≡ key)) ⊎ Elsewhere s t other key

pub Only-trans :
    {user id : Bytes} (s t u : Server) → Only user id s t → Only user id t u → Only user id s u
Only-trans s t u f g other key = elim (f other key) [
  | inl e ↦ inl e
  | inr (a, b) ↦ elim (g other key) [ inl e ↦ inl e | inr (c, d) ↦ inr (c ∙ a, d ∙ b) ]
]

-- A stream stands under one user and id only.
pub one_place :
    (s : Server) {user id other key : Bytes} {p : ℕ}
    → Inv s
    → Registered s user id p
    → Registered s other key p
    → (user ≡ other) × (id ≡ key)
one_place s {user} {id} {other} {key} {p} v h k =
    let (x, a, b, c) = v.keyed user id p h in
    let (y, d, e, f) = v.keyed other key p k in
    let z : x ≡ y = some_inj (sym a ∙ d) in
    (sym b ∙ ap (λ w. w.user) z ∙ e, sym c ∙ ap (λ w. w.id) z ∙ f)

module _ (s : Server) (p : ℕ) (st' : Stream) where
  abbrev rewritten : Server
  rewritten = record s { heap = insert p st' s.heap }

  pub rewritten-view :
      (user id : Bytes) → Registered s user id p → view rewritten user id ≡ some (channel st')
  rewritten-view user id h = rw (h, lookup-insert_self p st' s.heap)

  pub rewritten-Elsewhere :
      (other key : Bytes) → ¬ Registered s other key p → Elsewhere s rewritten other key
  rewritten-Elsewhere other key n = (refl, same (lookup key (members other s)) refl)
    where
      same :
          (o : Option ℕ)
          → lookup key (members other s) ≡ o
          → pointed rewritten.heap o ≡ pointed s.heap o
      same none h = refl
      same (some q) h =
          ap channel_of (lookup-insert_ne p q st' s.heap (λ e. n (h ∙ ap some (sym e))))

  pub rewritten-Only : (user id : Bytes) → Inv s → Registered s user id p → Only user id s rewritten
  rewritten-Only user id v h other key = elim (Option-cases (lookup key (members other s))) [
    | inl e ↦ inr (rewritten-Elsewhere other key (λ k. none-some e k))
    | inr (q, e) ↦ elim (key_cases p q) [
      | inl (f, _) ↦ inl (one_place s v h (e ∙ ap some (sym f)))
      | inr (n, _) ↦ inr (rewritten-Elsewhere other key (λ k. n (some_inj (sym k ∙ e))))
    ]
  ]

-- `deregisterLocked`
module _ (user id : Bytes) (s : Server) where
  gone : lookup id (members user (deregister_locked user id s)) ≡ none
  unfolding deregister_locked
  gone =
      ap (lookup id) (members-set_members_self user (erase id (members user s)) s)
      ∙ lookup-erase_self id (members user s)

  pub deregister_locked-view : view (deregister_locked user id s) user id ≡ none
  deregister_locked-view = ap (pointed (deregister_locked user id s).heap) gone

  heap_same : (deregister_locked user id s).heap ≡ s.heap
  unfolding deregister_locked
  heap_same = set_members_heap user _ s

  still :
      (other key : Bytes)
      → ((user ≡ other) × (id ≡ key))
        ⊎ (lookup key (members other (deregister_locked user id s)) ≡ lookup key (members other s))
  unfolding deregister_locked
  still other key = elim (key_cases user other) [
    | inr (n, _) ↦ inr (ap (lookup key) (members-set_members_ne user other _ s n))
    | inl (e, _) ↦ elim (key_cases id key) [
      | inl (f, _) ↦ inl (e, f)
      | inr (n, _) ↦ inr (
          subst
            (λ u.
              lookup key (members u (set_members user (erase id (members user s)) s))
              ≡ lookup key (members u s))
            e
            (ap (lookup key) (members-set_members_self user (erase id (members user s)) s)
              ∙ lookup-erase_ne id key (members user s) n))
    ]
  ]

  pub deregister_locked-Only : Only user id s (deregister_locked user id s)
  deregister_locked-Only other key = elim (still other key) [
    | inl e ↦ inl e
    | inr e ↦ inr (e, ap₂ pointed heap_same e)
  ]

-- One stream that is registered under `user` and `id`.
module _ (p : ℕ) (s : Server) (user id : Bytes) (v : Inv s) (h : Registered s user id p) where
  view_at : (st : Stream) → lookup p s.heap ≡ some st → view s user id ≡ some (channel st)
  view_at st at = ap (pointed s.heap) h ∙ ap channel_of at

  pub stop-view : view (stop p s) user id ≡ halted (view s user id)
  unfolding stop
  stop-view =
      let (st, at, _, _) = v.keyed user id p h in
      rw (at, stop)
        (rewritten-view s p (record st { done = true }) user id h
          ∙ ground arith
          ∙ ap halted (sym (view_at st at)))

  pub stop-Only : Only user id s (stop p s)
  unfolding stop
  stop-Only =
      let (st, at, _, _) = v.keyed user id p h in
      rw (at, stop) (rewritten-Only s p (record st { done = true }) user id v h)

  stop-at :
      (st : Stream)
      → lookup p s.heap ≡ some st
      → lookup p (stop p s).heap ≡ some (record st { done = true })
  unfolding stop
  stop-at st at = rw (at, stop) (lookup-insert_self p (record st { done = true }) s.heap)

  dropped :
      (st : Stream)
      → lookup p s.heap ≡ some st
      → st.user ≡ user
      → st.id ≡ id
      → deregister p (stop p s) ≡ deregister_locked user id (stop p s)
  unfolding deregister
  dropped st at u i =
      rw (stop-at st at, deregister) (ap₂ (λ u i. deregister_locked u i (stop p s)) u i)

  abbrev pub Offers : Bytes → Server → Type 0
  Offers b t = (view t user id ≡ offered b (view s user id)) × Only user id s t

  pub offer_locked-Offers : (b : Bytes) → Offers b (offer_locked p b s)
  offer_locked-Offers b =
      let (st, at, u, i) = v.keyed user id p h in
      elim (Bool-cases st.done) [
        | inl d ↦
            subst (Offers b) (sym (offer_locked_done p b s st at d))
              (rw (view_at st at) (ground arith), λ other key. inr (refl, refl))
        | inr d ↦ elim (dec_lt (length st.out) buffer_size) [
          | yes room ↦ subst (Offers b) (sym (offer_locked_room p b s st at d room)) (
            rewritten-view s p (record st { out = st.out ++ (b ∷ []) }) user id h
                ∙ rw (view_at st at) (ground arith),
            rewritten-Only s p (record st { out = st.out ++ (b ∷ []) }) user id v h,
          )
          | no full ↦
              subst (Offers b)
                (sym (offer_locked_full p b s st at d (omega arith) ∙ dropped st at u i))
                (
                  deregister_locked-view user id (stop p s) ∙ rw (view_at st at) (ground arith),
                  Only-trans s (stop p s) (deregister_locked user id (stop p s)) stop-Only
                      (deregister_locked-Only user id (stop p s)),
                )
        ]
      ]

  pub ping_locked-Offers :
      (time : Bytes) → (n : ℤ) × Offers (ping_event time n) (ping_locked time p s)
  unfolding ping_locked
  ping_locked-Offers time =
      let (st, at, _, _) = v.keyed user id p h in
      (
        newest st.user s,
        rw (at, ping_locked) (offer_locked-Offers (ping_event time (newest st.user s))),
      )
