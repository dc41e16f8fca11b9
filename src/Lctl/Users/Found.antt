-- ===== src/Lctl/Users/Found.antt =====
-- internal/lctl/delete_users.go: each id is of a user who was found, or is reported.
use lierc_api.Base.{
  suc, ◌≡◌, ◌⊎◌, inl, inr, refl, subst, Bool, true, false, List, [], ◌∷◌, ◌++◌, Option, none, some,
  Bytes, All-append, ◌==◌, nat_eq, list_eq, eqb_refl,
}
use lierc_api.World.{Event, pure, print, printed, ◌>>◌, no_such_user, user_line, listed_conns}
use lierc_api.Lctl.Delete.Guarded.{Allowed, Keeps-more, Keeps-refl, happened, is_listing}
use lierc_api.Lctl.Users.{
  User, UserStore, Sorted, user_tables, ask, count_tables, show_user, count_user, look_at,
  behind_row, find_each, list_conns,
}
use lierc_api.Lctl.Users.Triples.{
  Held, Stays, Triple, >>=-Triple, pure-Triple, ask-Triple, print->>-Triple,
}
use lierc_api.Lctl.Users.Stopped.{Nothing, Listed, AllListed, AllListed-Stays}

-- The line that there is no such user.
unfoldable pub says_no_user : Bytes → Event → Bool
says_no_user id (printed (no_such_user j)) = j == id
says_no_user id _ = false

unfoldable pub Has : Bytes → List User → Type 0
Has id [] = ⊥
Has id (u ∷ us) = (u.id ≡ id) ⊎ Has id us

Has-append : (id : Bytes) (us vs : List User) → Has id us → Has id (us ++ vs)
unfolding Has
Has-append id [] vs h = absurd h
Has-append id (u ∷ us) vs (inl e) = inl e
Has-append id (u ∷ us) vs (inr h) = inr (Has-append id us vs h)

Has-last : (us : List User) (u : User) → Has u.id (us ++ (u ∷ []))
unfolding Has
Has-last [] u = inl refl
Has-last (v ∷ us) u = inr (Has-last us u)

-- Each id is among the users found, or was reported as unknown.
unfoldable pub Known : List Bytes → List User → Held
Known [] found h = Unit
Known (id ∷ ids) found h =
    ((happened (says_no_user id) h ≡ true) ⊎ Has id found) × Known ids found h

pub Known-Stays : (ids : List Bytes) (found : List User) → Stays (Known ids found)
unfolding Known
Known-Stays [] found h t k p = tt
Known-Stays (id ∷ ids) found h t k (inl e, p) =
    (inl (k.1 (says_no_user id) e), Known-Stays ids found h t k p)
Known-Stays (id ∷ ids) found h t k (inr e, p) = (inr e, Known-Stays ids found h t k p)

module _ (store : UserStore) where
  count_tables-Triple :
      (ts : List Bytes) (id : Bytes) (conns : List Bytes)
      → Triple Nothing (count_tables store ts id conns) (λ _. Nothing)
  unfolding count_tables
  count_tables-Triple [] id conns = pure-Triple Nothing (λ _. Nothing) [] (λ h p. p)
  count_tables-Triple (t ∷ ts) id conns =
      >>=-Triple Nothing (λ _. Nothing) (λ _. Nothing) (ask (λ h. store.count_of h t id conns)) _
        (ask-Triple Nothing (λ h. store.count_of h t id conns))
        (λ n.
          >>=-Triple Nothing (λ _. Nothing) (λ _. Nothing) (count_tables store ts id conns)
            (λ counts. pure (n ∷ counts)) (count_tables-Triple ts id conns)
            (λ counts. pure-Triple Nothing (λ _. Nothing) (n ∷ counts) (λ h p. p)))

  look_at-Triple :
      (id : Bytes) (row : Bytes × Bytes)
      → Triple Nothing (look_at store id row) (λ u h. (u.id ≡ id) × Listed u h)
  unfolding look_at Allowed is_listing
  look_at-Triple id row =
      >>=-Triple Nothing Seen Post (list_conns store id) (count_user store id row) listed (λ conns.
        let u : User = record { id = id; username = row.0; email = row.1; conns = conns } in
        >>=-Triple (Seen conns) (λ _. Seen conns) Post (count_tables store user_tables id conns)
          (show_user store u)
          (λ h p.
            let (k, f) = count_tables-Triple user_tables id conns h tt in
            (k, λ a z. k.1 (is_listing id conns) p))
          (λ counts.
            print->>-Triple (Seen conns) Post (user_line id row.0 row.1 counts) (pure u)
              (λ h t k p. k.1 (is_listing id conns) p)
              (pure-Triple (Seen conns) Post u (λ h p. (refl, p)))))
    where
      Seen : List Bytes → Held
      Seen conns h = happened (is_listing id conns) h ≡ true

      Post : User → Held
      Post u h = (u.id ≡ id) × Listed u h

      listed : Triple Nothing (list_conns store id) Seen
      listed h p = (
        Keeps-more (listed_conns id (store.user_conns h id)) h h (Keeps-refl h) tt,
        λ conns z. rw z (rw (eqb_refl id, eqb_refl conns) refl),
      )

  pub find_each-Triple :
      (ids : List Bytes) (s : Sorted)
      → Triple
          (AllListed s.0)
          (find_each store ids s)
          (λ s' h. ((j : Bytes) → Has j s.0 → Has j s'.0) × AllListed s'.0 h × Known ids s'.0 h)
  unfolding find_each Known says_no_user Allowed
  find_each-Triple [] s =
      pure-Triple (AllListed s.0)
        (λ s' h. ((j : Bytes) → Has j s.0 → Has j s'.0) × AllListed s'.0 h × Unit) s
        (λ h p. (λ j x. x, p, tt))
  find_each-Triple (id ∷ ids) (found, skipped) =
      >>=-Triple (AllListed found) (λ _. AllListed found) Post (ask (λ h. store.user_row h id))
        (behind_row store (find_each store ids) id (found, skipped))
        (ask-Triple (AllListed found) (λ h. store.user_row h id))
        (λ row.
          next row (find_each-Triple ids (found, suc skipped))
            (λ u. find_each-Triple ids (found ++ (u ∷ []), skipped)))
    where
      Rest : List User → Sorted → Held
      Rest before s' h =
          ((j : Bytes) → Has j before → Has j s'.0) × AllListed s'.0 h × Known ids s'.0 h

      Post : Sorted → Held
      Post s' h =
          ((j : Bytes) → Has j found → Has j s'.0)
          × AllListed s'.0 h
          × (((happened (says_no_user id) h ≡ true) ⊎ Has id s'.0) × Known ids s'.0 h)

      told :
          Triple (AllListed found) (find_each store ids (found, suc skipped)) (Rest found)
          → Triple
              (AllListed found)
              (print (no_such_user id) >> find_each store ids (found, suc skipped))
              Post
      told x =
          >>=-Triple (AllListed found)
            (λ _ h. (happened (says_no_user id) h ≡ true) × AllListed found h) Post
            (print (no_such_user id)) (λ _. find_each store ids (found, suc skipped))
            (λ h p.
              let k = Keeps-more (printed (no_such_user id)) h h (Keeps-refl h) tt in
              (
                k,
                λ b z. (
                  rw (eqb_refl id) refl,
                  AllListed-Stays found h (printed (no_such_user id) ∷ h) k p,
                ),
              ))
            (λ _ h (e, l).
              let (k, f) = x h l in
              (k, λ s' z. let (g, l, m) = f s' z in (g, l, (inl (k.1 (says_no_user id) e), m))))

      next :
          (row : Option (Bytes × Bytes))
          → Triple (AllListed found) (find_each store ids (found, suc skipped)) (Rest found)
          → ((u : User)
              → Triple
                  (AllListed (found ++ (u ∷ [])))
                  (find_each store ids (found ++ (u ∷ []), skipped))
                  (Rest (found ++ (u ∷ []))))
          → Triple
              (AllListed found)
              (behind_row store (find_each store ids) id (found, skipped) row)
              Post
      next none x y = told x
      next (some row) x y =
          >>=-Triple (AllListed found) (λ u h. ((u.id ≡ id) × Listed u h) × AllListed found h) Post
            (look_at store id row) (λ u. find_each store ids (found ++ (u ∷ []), skipped))
            (λ h l.
              let (k, f) = look_at-Triple id row h tt in
              (k, λ u z. (f u z, AllListed-Stays found h _ k l)))
            (λ u h ((e, l), ls).
              let (k, f) = y u h (All-append (λ u. Listed u h) found (u ∷ []) ls (l, tt)) in
              (
                k,
                λ s' z.
                    let (g, l, m) = f s' z in
                    (
                      λ j p. g j (Has-append j found (u ∷ []) p),
                      l,
                      (inr (g id (subst (λ i. Has i (found ++ (u ∷ []))) e (Has-last found u))), m),
                    ),
              ))
