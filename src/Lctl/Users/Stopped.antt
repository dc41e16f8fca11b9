-- ===== src/Lctl/Users/Stopped.antt =====
-- internal/lctl/delete_users.go: the connections of the users are destroyed first.
use lierc_api.Base.{
  ◌≤◌, ◌+◌, ◌∙◌, append_assoc, append-nil, length-append, arith, suc, ◌≡◌, refl, sym, Bool, true,
  false, List, [], ◌∷◌, ◌++◌, Bytes, All, All-append, length, nat_eq, list_eq,
}
use lierc_api.World.{Outside, Result, ok, fail, Trace, printed, skipping_user}
use lierc_api.Liercd.{Client}
use lierc_api.Lctl.Delete.{destroy}
use lierc_api.Lctl.Delete.Guarded.{
  Allowed, Keeps, Keeps-more, Keeps-refl, Keeps-trans, Keeps-happened, happened, is_destroy,
  is_listing, is_user_commit, destroy_lem, destroy-Keeps,
}
use lierc_api.Lctl.Users.{User, Sorted, behind_destroy, destroy_conns, behind_user, destroy_users}
use lierc_api.Lctl.Users.Triples.{Held, Stays, After, Triple, >>=-Triple, pure-Triple}

-- The connections are destroyed; so are those of each user; each user is deleted.
abbrev pub Destroyed : List Bytes → Held
Destroyed conns h = All (λ c. happened (is_destroy c) h ≡ true) conns

-- The connections are those that Postgres listed for the user.
abbrev pub Listed : User → Held
Listed u h = happened (is_listing u.id u.conns) h ≡ true

abbrev pub AllListed : List User → Held
AllListed us h = All (λ u. Listed u h) us

pub AllListed-Stays : (us : List User) → Stays (AllListed us)
AllListed-Stays [] h t k d = tt
AllListed-Stays (u ∷ us) h t k d = (k.1 (is_listing u.id u.conns) d.0, AllListed-Stays us h t k d.1)

abbrev pub Stopped : List User → Held
Stopped us h = All (λ u. Listed u h × Destroyed u.conns h) us

abbrev pub Deleted : List User → Held
Deleted us h = All (λ u. happened (is_user_commit u.id) h ≡ true) us

pub Destroyed-Stays : (conns : List Bytes) → Stays (Destroyed conns)
Destroyed-Stays conns h t k d = Keeps-happened is_destroy h t conns k d

pub Stopped-Stays : (us : List User) → Stays (Stopped us)
Stopped-Stays [] h t k d = tt
Stopped-Stays (u ∷ us) h t k ((l, d), ds) =
    ((k.1 (is_listing u.id u.conns) l, Destroyed-Stays u.conns h t k d), Stopped-Stays us h t k ds)

pub Deleted-Stays : (us : List User) → Stays (Deleted us)
Deleted-Stays [] h t k d = tt
Deleted-Stays (u ∷ us) h t k d = (k.1 (is_user_commit u.id) d.0, Deleted-Stays us h t k d.1)

-- Of the users to come, those that a loop added to its list: all of them, if it added as many.
abbrev pub Grown : List User → List User → List User → Type 0
Grown us done done' =
    (length done' ≤ length done + length us)
    × (length done' ≡ length done + length us → done' ≡ done ++ us)

pub Grown-taken :
    (u : User) (us done done' : List User)
    → Grown us (done ++ (u ∷ [])) done'
    → Grown (u ∷ us) done done'
Grown-taken u us done done' (l, f) =
    let n = length-append done (u ∷ []) in
    (omega arith, λ e. f (omega arith) ∙ append_assoc done (u ∷ []) us)

pub Grown-left :
    (u : User) (us done done' : List User) → Grown us done done' → Grown (u ∷ us) done done'
Grown-left u us done done' (l, f) = (omega arith, λ e. absurd (omega arith))

pub Grown-refl : (done : List User) → Grown [] done done
Grown-refl done = (omega arith, λ e. sym (append-nil done))

abbrev pub Nothing : Held
Nothing h = Unit

module _ (world : Outside) (client : Client) where
  destroy_conns-Triple :
      (user : Bytes) (cs : List Bytes)
      → Triple Nothing
          (destroy_conns world client user cs)
          (λ ok_all h. ok_all ≡ true → Destroyed cs h)
  unfolding destroy_conns
  destroy_conns-Triple user [] h p = (Keeps-refl h, λ b z e. tt)
  destroy_conns-Triple user (c ∷ cs) h p =
      next (destroy world client c h) (destroy-Keeps world client c h)
        (destroy_lem world client c h) (λ t. destroy_conns-Triple user cs t tt)
    where
      Post : Bool → Held
      Post b t = b ≡ true → Destroyed (c ∷ cs) t

      next :
          (q : Result Bool × Trace)
          → Keeps h q.1
          → ((v : Bool) → q.0 ≡ ok v → happened (is_destroy c) q.1 ≡ true)
          → ((t : Trace)
              → After t (λ b u. b ≡ true → Destroyed cs u) (destroy_conns world client user cs t))
          → After h Post
              (behind_destroy world client (destroy_conns world client user cs) user c q.0 q.1)
      next (fail e, t) k d rest = (
        Keeps-more (printed (skipping_user user c e)) h t k (unfold Allowed in tt),
        λ b z f. let w : false ≡ b = (cc) in cc,
      )
      next (ok v, t) k d rest =
          let (k', d') = rest t in
          (
            Keeps-trans h t (destroy_conns world client user cs t).1 k k',
            λ b z f. (k'.1 (is_destroy c) (d v refl), d' b z f),
          )

  pub destroy_users-Triple :
      (us : List User) (s : Sorted)
      → Triple
          (λ h. Stopped s.0 h × AllListed us h)
          (destroy_users world client us s)
          (λ s' h. Stopped s'.0 h × Grown us s.0 s'.0)
  unfolding destroy_users
  destroy_users-Triple [] s =
      pure-Triple (λ h. Stopped s.0 h × AllListed [] h) (λ s' h. Stopped s'.0 h × Grown [] s.0 s'.0)
        s (λ h p. (p.0, Grown-refl s.0))
  destroy_users-Triple (u ∷ us) (ready, skipped) =
      >>=-Triple (λ h. Stopped ready h × AllListed (u ∷ us) h) Mid Post
        (destroy_conns world client u.id u.conns)
        (behind_user world client (destroy_users world client us) u (ready, skipped)) first
        (λ b.
          next b (destroy_users-Triple us (ready ++ (u ∷ []), skipped))
            (destroy_users-Triple us (ready, suc skipped)))
    where
      Post : Sorted → Held
      Post s' h = Stopped s'.0 h × Grown (u ∷ us) ready s'.0

      Mid : Bool → Held
      Mid b h = Stopped ready h × (b ≡ true → Destroyed u.conns h) × AllListed (u ∷ us) h

      first :
          Triple
            (λ h. Stopped ready h × AllListed (u ∷ us) h)
            (destroy_conns world client u.id u.conns)
            Mid
      first h (p, l) =
          let (k, d) = destroy_conns-Triple u.id u.conns h tt in
          (k, λ b z. (Stopped-Stays ready h _ k p, d b z, AllListed-Stays (u ∷ us) h _ k l))

      next :
          (b : Bool)
          → Triple
              (λ h. Stopped (ready ++ (u ∷ [])) h × AllListed us h)
              (destroy_users world client us (ready ++ (u ∷ []), skipped))
              (λ s' h. Stopped s'.0 h × Grown us (ready ++ (u ∷ [])) s'.0)
          → Triple
              (λ h. Stopped ready h × AllListed us h)
              (destroy_users world client us (ready, suc skipped))
              (λ s' h. Stopped s'.0 h × Grown us ready s'.0)
          → Triple
              (Mid b)
              (behind_user world client (destroy_users world client us) u (ready, skipped) b)
              Post
      next true x y h (p, d, (l, ls)) =
          let (k, f) = x h (
            All-append (λ u. Listed u h × Destroyed u.conns h) ready (u ∷ []) p ((l, d refl), tt),
            ls,
          ) in
          (k, λ s' z. let (q, g) = f s' z in (q, Grown-taken u us ready s'.0 g))
      next false x y h (p, d, (l, ls)) =
          let (k, f) = y h (p, ls) in
          (k, λ s' z. let (q, g) = f s' z in (q, Grown-left u us ready s'.0 g))
