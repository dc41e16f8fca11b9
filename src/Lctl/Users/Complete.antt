-- ===== src/Lctl/Users/Complete.antt =====
-- internal/lctl/delete_users.go: the command as a whole, safe on every path and complete where it
-- reports success.
use lierc_api.Base.{
  ◌≤◌, ◌∙◌, arith, ℕ, ◌≡◌, ◌⊎◌, inl, inr, ap, subst, Bool, true, false, ◌||◌, Bool-cases, ltb, List,
  [], ◌∷◌, Bytes, All, length, nat_eq, list_eq,
}
use lierc_api.World.{Outside, ok, Trace, slept, dry_run, users_total}
use lierc_api.Liercd.{Client}
use lierc_api.Lctl.Delete.Guarded.{
  Allowed, Guarded, Keeps-more, Keeps-refl, happened, is_user_commit,
}
use lierc_api.Lctl.Users.{
  User, UserStore, Sorted, ask, find_each, destroy_users, wait_if, delete_users_each, sweep_each,
  verdict, conclude, delete_ready, delete_found, behind_found, delete_users, any_conns,
}
use lierc_api.Lctl.Users.Triples.{
  Held, Stays, Triple, >>=-Triple, pure-Triple, ask-Triple, print-Triple, print->>-Triple,
  frame-Triple,
}
use lierc_api.Lctl.Users.Safe.{delete_users_each-Triple, sweep_each-Triple}
use lierc_api.Lctl.Users.Stopped.{
  Stopped, Stopped-Stays, Deleted, Deleted-Stays, AllListed, Nothing, Grown, destroy_users-Triple,
}
-- The line that there is no such user.
use lierc_api.Lctl.Users.Found.{says_no_user, Has, Known, Known-Stays, find_each-Triple}

verdict-Triple :
    (P : Held) (found ready deleted : ℕ)
    → Triple P (verdict found ready deleted) (λ _ h. (P h × (found ≤ ready)) × (ready ≤ deleted))
unfolding verdict
verdict-Triple P found ready deleted h p =
    elim (Bool-cases (ltb ready found || ltb deleted ready)) [
      | inl e ↦ rw e (Keeps-refl h, λ a z. cc)
      | inr e ↦ rw e (Keeps-refl h, λ a z. ((p, ground arith), ground arith))
    ]

wait_if-Triple :
    (world : Outside) (store : UserStore) (b : Bool) (settle : ℕ) (P : Held)
    → Stays P
    → Triple P (wait_if world store b settle) (λ _. P)
unfolding wait_if Allowed
wait_if-Triple world store false settle P s = pure-Triple P (λ _. P) tt (λ h p. p)
wait_if-Triple world store true settle P s = λ h p.
    let k = Keeps-more (slept settle) h h (Keeps-refl h) tt in
    (k, λ a z. s h (slept settle ∷ h) k p)

module _ (world : Outside) (client : Client) (store : UserStore) where
  -- Behind the delete loop: where as many were deleted as made ready and as found, all are.
  conclude-Triple :
      (found ready deleted : List User) (last skipped : ℕ)
      → Grown found [] ready
      → Grown ready [] deleted
      → Triple
          (Deleted deleted)
          (conclude world client store (length found) (length ready) last (deleted, skipped))
          (λ _. Deleted found)
  conclude-Triple found ready deleted last skipped g k =
      >>=-Triple (Deleted deleted) (λ _. Deleted deleted) (λ _. Deleted found)
        (sweep_each world store last deleted) _ swept
        (λ _.
          print->>-Triple (Deleted deleted) (λ _. Deleted found)
            (users_total (length deleted) skipped)
            (verdict (length found) (length ready) (length deleted)) (Deleted-Stays deleted) judged)
    where
      swept : Triple (Deleted deleted) (sweep_each world store last deleted) (λ _. Deleted deleted)
      swept h d =
          let (k, f) = sweep_each-Triple world store last deleted h d in
          (k, λ a z. Deleted-Stays deleted h (sweep_each world store last deleted h).1 k d)

      judged :
          Triple
            (Deleted deleted)
            (verdict (length found) (length ready) (length deleted))
            (λ _. Deleted found)
      judged h d =
          let (k', f) =
            verdict-Triple (Deleted deleted) (length found) (length ready) (length deleted) h d in
          (
            k',
            λ a z.
                let ((p, x), y) = f a z in
                let m : ready ≡ found = g.1 (omega (arith, g.0)) in
                let n : deleted ≡ ready = k.1 (omega (arith, k.0)) in
                subst
                  (λ us. Deleted us (verdict (length found) (length ready) (length deleted) h).1)
                  (n ∙ m) p,
          )

  delete_ready-Triple :
      (settle : ℕ) (found ready : List User) (last skipped : ℕ)
      → Grown found [] ready
      → Triple
          (Stopped ready)
          (delete_ready world client store settle (length found) last (ready, skipped))
          (λ _. Deleted found)
  delete_ready-Triple settle found ready last skipped g =
      >>=-Triple (Stopped ready) (λ _. Stopped ready) (λ _. Deleted found)
        (wait_if world store (any_conns ready) settle) _
        (wait_if-Triple world store (any_conns ready) settle (Stopped ready) (Stopped-Stays ready))
        (λ _.
          >>=-Triple (Stopped ready) (λ s h. Deleted s.0 h × Grown ready [] s.0)
            (λ _. Deleted found) (delete_users_each world store ready ([], skipped))
            (conclude world client store (length found) (length ready) last)
            (λ h p. delete_users_each-Triple world store ready ([], skipped) h (p, tt))
            (λ s h (d, k). conclude-Triple found ready s.0 last s.1 g k h d))

  delete_found-Triple :
      (settle : ℕ) (s : Sorted) (last : ℕ)
      → Triple (AllListed s.0) (delete_found world client store settle s last) (λ _. Deleted s.0)
  delete_found-Triple settle s last =
      >>=-Triple (AllListed s.0) (λ q h. Stopped q.0 h × Grown s.0 [] q.0) (λ _. Deleted s.0)
        (destroy_users world client s.0 ([], s.1)) _
        (λ h p. destroy_users-Triple world client s.0 ([], s.1) h (tt, p))
        (λ q h (d, g). delete_ready-Triple settle s.0 q.0 last q.1 g h d)

  -- With --delete, each id is unknown or its user deleted, where the command ends without an error.
  abbrev Settled : Bool → List Bytes → Held
  Settled true ids h =
      All (λ id. (happened (says_no_user id) h ≡ true) ⊎ (happened (is_user_commit id) h ≡ true))
        ids
  Settled false ids h = Unit

  settled :
      (ids : List Bytes) (found : List User) (h : Trace)
      → Known ids found h
      → Deleted found h
      → Settled true ids h
  unfolding Known Has
  settled [] found h k d = tt
  settled (id ∷ ids) found h (inl e, k) d = (inl e, settled ids found h k d)
  settled (id ∷ ids) found h (inr x, k) d = (inr (among found x d), settled ids found h k d)
    where
      among : (us : List User) → Has id us → Deleted us h → happened (is_user_commit id) h ≡ true
      among [] x d = absurd x
      among (u ∷ us) (inl e) d = subst (λ i. happened (is_user_commit i) h ≡ true) e d.0
      among (u ∷ us) (inr x) d = among us x d.1

  behind_found-Triple :
      (del : Bool) (settle : ℕ) (ids : List Bytes) (s : Sorted)
      → Triple
          (λ h. Known ids s.0 h × AllListed s.0 h)
          (behind_found world client store del settle s)
          (λ _. Settled del ids)
  unfolding behind_found
  behind_found-Triple false settle ids s =
      λ h k. let (x, f) = print-Triple Nothing dry_run (λ h t k p. p) h tt in (x, λ a z. tt)
  behind_found-Triple true settle ids s =
      >>=-Triple (λ h. Known ids s.0 h × AllListed s.0 h) (λ _ h. Known ids s.0 h × AllListed s.0 h)
        (λ _. Settled true ids) (ask store.last_log_id) (delete_found world client store settle s)
        (ask-Triple (λ h. Known ids s.0 h × AllListed s.0 h) store.last_log_id)
        (λ last h k.
          let (x, f) =
            frame-Triple (Known ids s.0) (AllListed s.0) (λ _. Deleted s.0)
              (delete_found world client store settle s last) (Known-Stays ids s.0)
              (delete_found-Triple settle s last) h k in
          (x, λ a z. let (y, d) = f a z in settled ids s.0 _ y d))

  delete_users-Triple :
      (del : Bool) (settle : ℕ) (ids : List Bytes)
      → Triple Nothing (delete_users world client store del settle ids) (λ _. Settled del ids)
  unfolding delete_users
  delete_users-Triple del settle ids =
      >>=-Triple Nothing (λ s h. Known ids s.0 h × AllListed s.0 h) (λ _. Settled del ids)
        (find_each store ids ([], 0)) (behind_found world client store del settle)
        (λ h p.
          let (k, f) = find_each-Triple store ids ([], 0) h tt in
          (k, λ s z. let (g, l, m) = f s z in (m, l)))
        (behind_found-Triple del settle ids)

  -- delete-users with --delete reports success only if of each id that it was given it said that
  -- there is no such user, or deleted the user.
  pub delete_users-Settled :
      (settle : ℕ) (ids : List Bytes) (h t : Trace)
      → delete_users world client store true settle ids h ≡ (ok tt, t)
      → All
          (λ id. (happened (says_no_user id) t ≡ true) ⊎ (happened (is_user_commit id) t ≡ true))
          ids
  delete_users-Settled settle ids h t e =
      let (k, f) = delete_users-Triple true settle ids h tt in
      subst (λ q. Settled true ids q) (ap (λ q. q.1) e) (f tt (ap (λ q. q.0) e))
