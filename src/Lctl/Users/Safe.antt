-- ===== src/Lctl/Users/Safe.antt =====
-- internal/lctl/delete_users.go: what `deleteUsers` deletes, and when.
use lierc_api.Base.{
  ℕ, zero, suc, ◌≡◌, refl, subst, true, false, List, [], ◌∷◌, ◌++◌, Option, none, some, Bytes,
  All-append, nat_eq, list_eq, eqb_refl,
}
use lierc_api.World.{
  Outside, Act, Result, ok, fail, Error, Trace, print, ◌>>◌, deleted_of, user_committed, swept_of,
  user_deleted, user_not_deleted, late_user_rows,
}
use lierc_api.Lctl.Delete.Guarded.{
  Allowed, Keeps, Keeps-more, Keeps-refl, Keeps-trans, happened, is_listing, is_user_commit,
  with_deletes,
}
use lierc_api.Lctl.Users.{
  User, UserStore, Sorted, user_tables, commit_user, behind_delete, delete_user_tables, begun,
  delete_user, behind_deleted, unless_cancelled, delete_users_each, late_line, sweep_user,
  sweep_each,
}
use lierc_api.Lctl.Users.Triples.{
  Held, Stays, After, Triple, >>=-Triple, pure-Triple, print-Triple, print->>-Triple,
}
-- The connections are destroyed; so are those of each user; each user is deleted.
use lierc_api.Lctl.Users.Stopped.{
  Destroyed, Listed, Stopped, Deleted, Destroyed-Stays, Stopped-Stays, Deleted-Stays, Grown,
  Grown-taken, Grown-left, Grown-refl, Nothing,
}

module _ (world : Outside) (store : UserStore) where
  delete_user_tables-After :
      (u : User) (ts : List Bytes) (h before : Trace)
      → with_deletes u.id u.conns ts h ≡ with_deletes u.id u.conns user_tables before
      → Listed u h × Destroyed u.conns h
      → After h
          (λ _ t. happened (is_user_commit u.id) t ≡ true)
          (delete_user_tables world store u ts h)
  unfolding delete_user_tables Allowed is_user_commit
  delete_user_tables-After u [] h before e d = committed (world.commit_error h)
    where
      committed :
          (o : Option Error)
          → After h
              (λ _ t. happened (is_user_commit u.id) t ≡ true)
              (commit_user world store u.id o h)
      committed none = (
        Keeps-more (user_committed u.id true) h h (Keeps-refl h) (u.conns, before, e),
        λ a z. rw (eqb_refl u.id) refl,
      )
      committed (some x) = (Keeps-more (user_committed u.id false) h h (Keeps-refl h) tt, λ a z. cc)
  delete_user_tables-After u (t ∷ ts) h before e d = next (store.delete_of h t u.id u.conns) (
      delete_user_tables-After u ts h' before e
        (one.1 (is_listing u.id u.conns) d.0, Destroyed-Stays u.conns h h' one d.1))
    where
      h' : Trace
      h' = deleted_of t u.id u.conns ∷ h

      one : Keeps h h'
      one = Keeps-more (deleted_of t u.id u.conns) h h (Keeps-refl h) d

      next :
          (r : Result ℕ)
          → After h'
              (λ _ t. happened (is_user_commit u.id) t ≡ true)
              (delete_user_tables world store u ts h')
          → After h
              (λ _ t. happened (is_user_commit u.id) t ≡ true)
              (behind_delete world store (delete_user_tables world store u ts) u.id r h')
      next (fail x) ih = (Keeps-more (user_committed u.id false) h h' one tt, λ a z. cc)
      next (ok n) ih = (Keeps-trans h h' (delete_user_tables world store u ts h').1 one ih.0, ih.1)

  delete_user-Triple :
      (u : User)
      → Triple
          (λ h. Listed u h × Destroyed u.conns h)
          (delete_user world store u)
          (λ _ t. happened (is_user_commit u.id) t ≡ true)
  unfolding delete_user
  delete_user-Triple u h d = next (world.begin_error h)
    where
      next :
          (o : Option Error)
          → After h (λ _ t. happened (is_user_commit u.id) t ≡ true) (begun world store u o h)
      next (some e) = (Keeps-refl h, λ a z. cc)
      next none = delete_user_tables-After u user_tables h h refl d

  -- What the delete loop needs: those to come stopped, those done deleted.
  abbrev pub Ready : List User → List User → Held
  Ready us done h = Stopped us h × Deleted done h

  Ready-Stays : (us done : List User) → Stays (Ready us done)
  Ready-Stays us done h t k r = (Stopped-Stays us h t k r.0, Deleted-Stays done h t k r.1)

  pub delete_users_each-Triple :
      (us : List User) (s : Sorted)
      → Triple
          (Ready us s.0)
          (delete_users_each world store us s)
          (λ s' h. Deleted s'.0 h × Grown us s.0 s'.0)
  unfolding delete_users_each
  delete_users_each-Triple [] s h r = (
    Keeps-refl h,
    λ s' z.
        let e : s ≡ s' = (cc) in
        subst (λ (q : Sorted). Deleted q.0 h × Grown [] s.0 q.0) e (r.1, Grown-refl s.0),
  )
  delete_users_each-Triple (u ∷ us) (done, skipped) h r = running (world.context_error h) (
      next (delete_user world store u h) (delete_user-Triple u h r.0.0)
        (print->>-Triple (Ready us (done ++ (u ∷ [])))
          (λ s' h. Deleted s'.0 h × Grown us (done ++ (u ∷ [])) s'.0) (user_deleted u.id) _
          (Ready-Stays us (done ++ (u ∷ [])))
          (delete_users_each-Triple us (done ++ (u ∷ []), skipped)))
        (λ e.
          print->>-Triple (Ready us done) (λ s' h. Deleted s'.0 h × Grown us done s'.0)
            (user_not_deleted u.id e) _ (Ready-Stays us done)
            (delete_users_each-Triple us (done, suc skipped))))
    where
      Post : Sorted → Held
      Post s' h = Deleted s'.0 h × Grown (u ∷ us) done s'.0

      rest : Sorted → Act Sorted
      rest = delete_users_each world store us

      next :
          (q : Result (Unit {0}) × Trace)
          → After h (λ _ t. happened (is_user_commit u.id) t ≡ true) q
          → Triple
              (Ready us (done ++ (u ∷ [])))
              (print (user_deleted u.id) >> rest (done ++ (u ∷ []), skipped))
              (λ s' h. Deleted s'.0 h × Grown us (done ++ (u ∷ [])) s'.0)
          → ((e : Error)
              → Triple
                  (Ready us done)
                  (print (user_not_deleted u.id e) >> rest (done, suc skipped))
                  (λ s' h. Deleted s'.0 h × Grown us done s'.0))
          → After h Post (behind_deleted world store rest u (done, skipped) q.0 q.1)
      next (fail e, t) (k, d) x y =
          let (k', f) = y e t (Stopped-Stays us h t k r.0.1, Deleted-Stays done h t k r.1) in
          (Keeps-trans h t _ k k', λ s' z. let (q, g) = f s' z in (q, Grown-left u us done s'.0 g))
      next (ok v, t) (k, d) x y =
          let (k', f) = x t (
            Stopped-Stays us h t k r.0.1,
            All-append (λ u. happened (is_user_commit u.id) t ≡ true) done (u ∷ [])
                (Deleted-Stays done h t k r.1) (d v refl, tt),
          ) in
          (Keeps-trans h t _ k k', λ s' z. let (q, g) = f s' z in (q, Grown-taken u us done s'.0 g))

      running :
          (o : Option Error)
          → After h Post (
              let (q, h') = delete_user world store u h in
              behind_deleted world store rest u (done, skipped) q h')
          → After h Post (
              unless_cancelled world store o
                (λ h.
                  let (q, h') = delete_user world store u h in
                  behind_deleted world store rest u (done, skipped) q h')
                h)
      running (some e) a = (Keeps-refl h, λ b z. cc)
      running none a = a

  pub sweep_each-Triple :
      (last : ℕ) (us : List User)
      → Triple (Deleted us) (sweep_each world store last us) (λ _. Nothing)
  unfolding sweep_each Allowed
  sweep_each-Triple last [] = pure-Triple (Deleted []) (λ _. Nothing) tt (λ h p. tt)
  sweep_each-Triple last (u ∷ us) =
      >>=-Triple (Deleted (u ∷ us)) (λ _. Deleted us) (λ _. Nothing) (sweep_user world store last u)
        _
        (λ h d.
          let k = Keeps-more (swept_of u.id last u.conns) h h (Keeps-refl h) d.0 in
          (k, λ n z. Deleted-Stays us h (swept_of u.id last u.conns ∷ h) k d.1))
        (λ n.
          >>=-Triple (Deleted us) (λ _. Deleted us) (λ _. Nothing) (late_line world store u.id n) _
            (told n) (λ _. sweep_each-Triple last us))
    where
      told : (n : ℕ) → Triple (Deleted us) (late_line world store u.id n) (λ _. Deleted us)
      told zero = pure-Triple (Deleted us) (λ _. Deleted us) tt (λ h p. p)
      told (suc n) = print-Triple (Deleted us) (late_user_rows u.id (suc n)) (Deleted-Stays us)
