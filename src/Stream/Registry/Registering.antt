-- ===== src/Stream/Registry/Registering.antt =====
-- `register` keeps the invariant.
use lierc_api.Base.{
  ℕ, suc, ◌≤◌, ◌≡◌, refl, sym, ◌∙◌, ap, subst, ◌≢◌, ◌⊎◌, inl, inr, Bool, true, false, [], none,
  some, Bytes, length, nat_eq, list_eq, arith, key_cases,
}
use lierc_api.Base.Assoc.{
  lookup, insert, NodupKeys, lookup-insert_self, lookup-insert_ne, insert-NodupKeys, insert-ne-nil,
}
use lierc_api.Stream.Registry.{Stream, Server, buffer_size, members, or_nil, register, if_closed}
use lierc_api.Stream.Registry.Invariant.{Inv, none-some, some_inj}

module _ (st : Stream) (s : Server) where
  -- The members of the stream's user have the new entry.
  pub members-register_self :
      (user : Bytes)
      → st.user ≡ user
      → members user (register st s) ≡ insert st.id s.next (members user s)
  unfolding register
  members-register_self user e =
      subst (λ u. members u (register st s) ≡ insert st.id s.next (members u s)) e
        (ap or_nil (lookup-insert_self st.user _ s.streams))

  pub members-register_ne :
      (user : Bytes) → st.user ≢ user → members user (register st s) ≡ members user s
  unfolding register
  members-register_ne user n = ap or_nil (lookup-insert_ne st.user user _ s.streams n)

  -- An entry is the new one or was there before.
  register_entry :
      (user id : Bytes) (p : ℕ)
      → lookup id (members user (register st s)) ≡ some p
      → ((st.user ≡ user) × (st.id ≡ id) × (s.next ≡ p)) ⊎ (lookup id (members user s) ≡ some p)
  register_entry user id p h = elim (key_cases st.user user) [
    | inl (e, _) ↦
        let h' = subst (λ l. lookup id l ≡ some p) (members-register_self user e) h in
        elim (key_cases st.id id) [
          | inl (f, _) ↦ inl (
            e,
            f,
            some_inj (
                subst (λ i. some s.next ≡ lookup i (insert st.id s.next (members user s))) f
                  (sym (lookup-insert_self st.id s.next (members user s)))
                ∙ h'),
          )
          | inr (n, _) ↦ inr (sym (lookup-insert_ne st.id id s.next (members user s) n) ∙ h')
        ]
    | inr (n, _) ↦ inr (subst (λ l. lookup id l ≡ some p) (members-register_ne user n) h)
  ]

  -- The streams that were there stay as they are.
  pub register_old :
      (p : ℕ) (x : Stream)
      → lookup s.next s.heap ≡ none
      → lookup p s.heap ≡ some x
      → lookup p (register st s).heap ≡ some x
  unfolding register
  register_old p x unused h =
      lookup-insert_ne s.next p _ s.heap
        (λ e. none-some unused (subst (λ k. lookup k s.heap ≡ some x) (sym e) h))
      ∙ h

  register_new : lookup s.next (register st s).heap ≡ some (if_closed s.closed st)
  unfolding register
  register_new = lookup-insert_self s.next _ s.heap

  if_closed_user :
      (b : Bool)
      → ((if_closed b st).user ≡ st.user)
        × ((if_closed b st).id ≡ st.id)
        × ((if_closed b st).out ≡ st.out)
  if_closed_user true = (refl, refl, refl)
  if_closed_user false = (refl, refl, refl)

  register_distinct :
      ((user : Bytes) → NodupKeys (members user s))
      → (user : Bytes) → NodupKeys (members user (register st s))
  register_distinct all user = elim (key_cases st.user user) [
    | inl (e, _) ↦
        subst NodupKeys (sym (members-register_self user e))
          (insert-NodupKeys st.id s.next (members user s) (all user))
    | inr (n, _) ↦ subst NodupKeys (sym (members-register_ne user n)) (all user)
  ]

  register_nonempty :
      ((user : Bytes) → lookup user s.streams ≢ some [])
      → (user : Bytes) → lookup user (register st s).streams ≢ some []
  unfolding register
  register_nonempty all user h = elim (key_cases st.user user) [
    | inl (e, _) ↦ insert-ne-nil st.id s.next (members st.user s) (
        some_inj (
          sym (lookup-insert_self st.user _ s.streams)
          ∙ subst (λ u. lookup u (register st s).streams ≡ some []) (sym e) h))
    | inr (n, _) ↦ all user (sym (lookup-insert_ne st.user user _ s.streams n) ∙ h)
  ]

  register_latest_open :
      ((user : Bytes) → members user s ≡ [] → lookup user s.latest ≡ none)
      → (user : Bytes) → members user (register st s) ≡ []
      → lookup user s.latest ≡ none
  register_latest_open all user h = elim (key_cases st.user user) [
    | inl (e, _) ↦
        absurd
          (insert-ne-nil st.id s.next (members user s) (sym (members-register_self user e) ∙ h))
    | inr (n, _) ↦ all user (sym (members-register_ne user n) ∙ h)
  ]

  -- A stream that is there is the new one or was there before.
  register-lookup :
      (p : ℕ) (x : Stream)
      → lookup p (register st s).heap ≡ some x
      → ((s.next ≡ p) × (x ≡ if_closed s.closed st)) ⊎ (lookup p s.heap ≡ some x)
  unfolding register
  register-lookup p x h = elim (key_cases s.next p) [
    | inl (e, _) ↦ inl (
      e,
      some_inj (
          sym h
          ∙ subst (λ k. lookup k (register st s).heap ≡ some (if_closed s.closed st)) e
              register_new),
    )
    | inr (n, _) ↦ inr (sym (lookup-insert_ne s.next p _ s.heap n) ∙ h)
  ]

  register_bounded :
      st.out ≡ []
      → ((p : ℕ) (x : Stream) → lookup p s.heap ≡ some x → length x.out ≤ buffer_size)
      → (p : ℕ) (x : Stream) → lookup p (register st s).heap ≡ some x
      → length x.out ≤ buffer_size
  register_bounded empty all p x h = elim (register-lookup p x h) [
    | inl (_, e) ↦
        let o : x.out ≡ [] = ap (λ z. z.out) e ∙ (if_closed_user s.closed).2 ∙ empty in
        subst (λ l. length l ≤ buffer_size) (sym o) (omega arith)
    | inr old ↦ all p x old
  ]

  register_fresh :
      ((p : ℕ) → s.next ≤ p → lookup p s.heap ≡ none)
      → (p : ℕ) → suc s.next ≤ p
      → lookup p (register st s).heap ≡ none
  unfolding register
  register_fresh all p h =
      lookup-insert_ne s.next p _ s.heap (λ e. omega arith) ∙ all p (omega arith)

  if_closed_done : (b : Bool) → b ≡ true → (if_closed b st).done ≡ true
  if_closed_done true h = refl
  if_closed_done false h = cc

  register_stopped :
      Inv s
      → s.closed ≡ true
      → (user id : Bytes) (p : ℕ) (x : Stream) → lookup id (members user (register st s)) ≡ some p
      → lookup p (register st s).heap ≡ some x
      → x.done ≡ true
  register_stopped v c user id p x m h = elim (register-lookup p x h) [
    | inl (_, e) ↦ ap (λ z. z.done) e ∙ if_closed_done s.closed c
    | inr old ↦ elim (register_entry user id p m) [
      | inl (_, _, k) ↦ absurd (
          none-some (v.fresh s.next (omega arith))
            (subst (λ q. lookup q s.heap ≡ some x) (sym k) old))
      | inr before ↦ v.stopped c user id p x before old
    ]
  ]

  pub register-Inv : st.out ≡ [] → Inv s → Inv (register st s)
  unfolding register
  register-Inv empty v =
      let unused = v.fresh s.next (omega arith) in
      record {
        keyed = λ user id p h. elim (register_entry user id p h) [
          | inl (e, f, k) ↦
              let (a, b, _) = if_closed_user s.closed in
              (
                if_closed s.closed st,
                subst (λ q. lookup q (register st s).heap ≡ some (if_closed s.closed st)) k
                    register_new,
                a ∙ e,
                b ∙ f,
              )
          | inr old ↦
              let (x, a, b, c) = v.keyed user id p old in (x, register_old p x unused a, b, c)
        ];
        distinct = register_distinct v.distinct;
        nonempty = register_nonempty v.nonempty;
        latest_open = register_latest_open v.latest_open;
        latest_pos = v.latest_pos;
        bounded = register_bounded empty v.bounded;
        fresh = register_fresh v.fresh;
        stopped = register_stopped v;
      }
