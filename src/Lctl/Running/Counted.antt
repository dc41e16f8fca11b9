-- ===== src/Lctl/Running/Counted.antt =====
-- internal/lctl/reconnect.go: what a reconnect that reports success has done.
use lierc_api.Base.{
  ℕ, zero, suc, ◌+◌, ◌≤◌, ◌≡◌, refl, ap, ap₂, subst, inl, inr, ◌⊎◌, ◌∙◌, List, [], ◌∷◌, Bytes, All,
  length, arith,
}
use lierc_api.World.{
  Outside, Act, Result, ok, fail, Trace, attempt, print, ◌>>=◌, ◌>>◌, totals, reconnected, failure,
}
use lierc_api.World.Acts.{
  here, more, Does, >>=-Does, >>-Does, Extends-trans, ok-eq, fail-ne-ok, >>=-eq-ok,
}
use lierc_api.Liercd.{Client}
use lierc_api.Lctl.Instance.{reconnect_one}
use lierc_api.Lctl.Running.{
  Tally, context, behind_reconnect, reconnect_each, reconnect, unless_failed,
}
use lierc_api.Lctl.Running.Restarted.{
  Follows, Restarted, reconnect_one-Restarted, reconnect_one-Follows,
}

-- Between the traces `h` and `t`, the connection was destroyed and created again.
abbrev pub Reconnected : Outside → Trace → Trace → Bytes → Type 0
Reconnected world h t id =
    (from : Trace) × (to : Trace) × Follows h from × Restarted world id from to × Follows to t

module _ (world : Outside) (client : Client) where
  earlier :
      (h g t : Trace) (ids : List Bytes)
      → Follows h g
      → All (Reconnected world g t) ids
      → All (Reconnected world h t) ids
  earlier h g t [] f a = tt
  earlier h g t (id ∷ ids) f ((from, to, x, r, y), a) =
      ((from, to, Extends-trans (λ _. Unit) f x, r, y), earlier h g t ids f a)

  reconnect_each-Follows :
      (ids : List Bytes) (tally : Tally) → Does (λ _. Unit) (reconnect_each world client ids tally)
  unfolding reconnect_each behind_reconnect
  reconnect_each-Follows [] tally h = here
  reconnect_each-Follows (id ∷ ids) (s, f) h =
      >>-Does (λ _. Unit) (context world client)
        (attempt (reconnect_one world client id)
          >>= behind_reconnect world client id (reconnect_each world client ids) (s, f))
        (λ h. here)
        (>>=-Does (λ _. Unit) (attempt (reconnect_one world client id))
          (behind_reconnect world client id (reconnect_each world client ids) (s, f))
          (reconnect_one-Follows world client id)
          (behind (reconnect_each-Follows ids (suc s, f)) (reconnect_each-Follows ids (s, suc f))))
        h
    where
      behind :
          Does (λ _. Unit) (reconnect_each world client ids (suc s, f))
          → Does (λ _. Unit) (reconnect_each world client ids (s, suc f))
          → (res : Result Unit)
          → Does
              (λ _. Unit)
              (behind_reconnect world client id (reconnect_each world client ids) (s, f) res)
      behind x y (fail e) =
          >>-Does (λ _. Unit) (print (failure e)) (reconnect_each world client ids (s, suc f))
            (λ h. more tt here) y
      behind x y (ok u) =
          >>-Does (λ _. Unit) (print (reconnected id)) (reconnect_each world client ids (suc s, f))
            (λ h. more tt here) x

  -- One more counted, and one more failed unless it succeeded.
  behind_reconnect-eq :
      (id : Bytes) (rest : Tally → Act Tally) (s f : ℕ) (res : Result Unit) (h t : Trace)
      (q : Tally)
      → behind_reconnect world client id rest (s, f) res h ≡ (ok q, t)
      → (h' : Trace) × Follows h h'
        × (((res ≡ ok tt) × (rest (suc s, f) h' ≡ (ok q, t))) ⊎ (rest (s, suc f) h' ≡ (ok q, t)))
  unfolding behind_reconnect
  behind_reconnect-eq id rest s f (fail e) h t q k =
      let (u, h', e', k') = >>=-eq-ok (print (failure e)) (λ _. rest (s, suc f)) h t q k in
      (h', subst (Follows h) (ap (λ q. q.1) e') (more tt here), inr k')
  behind_reconnect-eq id rest s f (ok u) h t q k =
      let (v, h', e', k') = >>=-eq-ok (print (reconnected id)) (λ _. rest (suc s, f)) h t q k in
      (h', subst (Follows h) (ap (λ q. q.1) e') (more tt here), inl (refl, k'))

  abbrev Counted : Trace → Trace → List Bytes → ℕ → ℕ → Tally → Type 0
  Counted h t ids s f q =
      (q.0 + q.1 ≡ s + f + length ids) × (f ≤ q.1) × (q.1 ≤ f → All (Reconnected world h t) ids)

  reconnect_each-Counted :
      (ids : List Bytes) (s f : ℕ) (h t : Trace) (q : Tally)
      → reconnect_each world client ids (s, f) h ≡ (ok q, t)
      → Counted h t ids s f q
  unfolding reconnect_each
  reconnect_each-Counted [] s f h t q e =
      let (p, _) = ok-eq e in subst (Counted h t [] s f) p (omega arith, omega arith, λ z. tt)
  reconnect_each-Counted (id ∷ ids) s f h t q e =
      let (u, h1, e1, k1) =
        >>=-eq-ok (context world client)
          (λ _.
            attempt (reconnect_one world client id)
            >>= behind_reconnect world client id (reconnect_each world client ids) (s, f))
          h t q e in
      let (res, h2, e2, k2) =
        >>=-eq-ok (attempt (reconnect_one world client id))
          (behind_reconnect world client id (reconnect_each world client ids) (s, f)) h1 t q k1 in
      let (h3, g, cases) =
        behind_reconnect-eq id (reconnect_each world client ids) s f res h2 t q k2 in
      let (r, w) = ok-eq e2 in
      let f1 : Follows h h1 = subst (Follows h) (ap (λ q. q.1) e1) here in
      let f2 : Follows h1 h2 = subst (Follows h1) w (reconnect_one-Follows world client id h1) in
      next h1 h2 f1 f2 (λ p. pair (r ∙ p) w) h3 g cases
        (λ s f k. reconnect_each-Counted ids s f h3 t q k)
        (λ s f k. subst (Follows h3) (ap (λ q. q.1) k) (reconnect_each-Follows ids (s, f) h3))
    where
      pair : {q : Result Unit × Trace} {t : Trace} → q.0 ≡ ok tt → q.1 ≡ t → q ≡ (ok tt, t)
      pair x y = ap₂ (λ a b. (a, b)) x y

      next :
          {res : Result Unit} (h1 h2 : Trace)
          → Follows h h1
          → Follows h1 h2
          → (res ≡ ok tt → reconnect_one world client id h1 ≡ (ok tt, h2))
          → (h3 : Trace) → Follows h2 h3
          → ((res ≡ ok tt) × (reconnect_each world client ids (suc s, f) h3 ≡ (ok q, t)))
            ⊎ (reconnect_each world client ids (s, suc f) h3 ≡ (ok q, t))
          → ((s f : ℕ)
              → reconnect_each world client ids (s, f) h3 ≡ (ok q, t)
              → Counted h3 t ids s f q)
          → ((s f : ℕ) → reconnect_each world client ids (s, f) h3 ≡ (ok q, t) → Follows h3 t)
          → Counted h t (id ∷ ids) s f q
      next h1 h2 f1 f2 made h3 f3 (inl (p, k)) ih on =
          let (n, l, a) = ih (suc s) f k in
          let so_far = Extends-trans (λ _. Unit) (Extends-trans (λ _. Unit) f1 f2) f3 in
          (
            omega arith,
            l,
            λ z. (
              (
                h1,
                h2,
                f1,
                reconnect_one-Restarted world client id h1 h2 (made p),
                Extends-trans (λ _. Unit) f3 (on (suc s) f k),
              ),
              earlier h h3 t ids so_far (a z),
            ),
          )
      next h1 h2 f1 f2 made h3 f3 (inr k) ih on =
          let (n, l, a) = ih s (suc f) k in (omega arith, omega arith, λ z. absurd (omega arith))

  -- reconnect reports success only if in its own run, of each connection that it was given, the config
  -- was read, behind that a destroy was sent that liercd answered with 200 or 404, and behind that a
  -- create with the config that was read, which liercd answered with 200.
  pub reconnect_lem :
      (ids : List Bytes) (h t : Trace)
      → reconnect world client ids h ≡ (ok tt, t)
      → All (Reconnected world h t) ids
  unfolding reconnect
  reconnect_lem ids h t e =
      let (q, h1, e1, k1) =
        >>=-eq-ok (reconnect_each world client ids (0, 0))
          (λ q. print (totals q.0 q.1) >> unless_failed q.1 (length ids)) h t tt e in
      let (u, h2, e2, k2) =
        >>=-eq-ok (print (totals q.0 q.1)) (λ _. unless_failed q.1 (length ids)) h1 t tt k1 in
      let (n, l, a) = reconnect_each-Counted ids 0 0 h h1 q e1 in
      later h1
        (Extends-trans (λ _. Unit) (subst (Follows h1) (ap (λ q. q.1) e2) (more tt here))
          (ended q.1 h2 k2))
        ids (a (none_failed q.1 h2 k2))
    where
      none_failed : (f : ℕ) (h2 : Trace) → unless_failed f (length ids) h2 ≡ (ok tt, t) → f ≤ 0
      none_failed zero h2 k = omega arith
      none_failed (suc f) h2 k = absurd (fail-ne-ok k)

      ended : (f : ℕ) (h2 : Trace) → unless_failed f (length ids) h2 ≡ (ok tt, t) → Follows h2 t
      ended zero h2 k = subst (Follows h2) (ap (λ q. q.1) k) here
      ended (suc f) h2 k = absurd (fail-ne-ok k)

      later :
          (g : Trace)
          → Follows g t
          → (js : List Bytes) → All (Reconnected world h g) js
          → All (Reconnected world h t) js
      later g f [] a = tt
      later g f (j ∷ js) ((from, to, x, r, y), a) =
          ((from, to, x, r, Extends-trans (λ _. Unit) y f), later g f js a)
