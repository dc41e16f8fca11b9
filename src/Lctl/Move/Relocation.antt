-- ===== src/Lctl/Move/Relocation.antt =====
-- internal/lctl/move_connection.go: where a connection runs, and what its column says, once
-- `moveOne` has moved it.
use lierc_api.Base.{
  suc, ◌≡◌, refl, sym, subst, ap, ◌∙◌, inl, inr, Bool, true, false, [], ◌∷◌, Option, none, some,
  Bytes, length, if◌then◌else◌, ◌==◌, nat_eq, list_eq, eqb_refl, eqb_false-ne, length-append,
  key_cases, Bool-cases, txt, arith,
}
use lierc_api.World.{
  Outside, Result, ok, fail, Error, Method, get, post, Trace, sent, printed, wrote_instance, Reply,
  no_answer, answered, destroying_again, slipped_in, unless_error,
}
use lierc_api.World.Acts.{ok-eq, fail-ne-ok, >>=-eq-ok}
use lierc_api.Database.{column, succeeded, set_liercd}
use lierc_api.Liercd.{
  at_base, request, base, send, response, trim_slash, create_path, destroy_path, status_path,
}
use lierc_api.Lctl.Instance.{destroyed, created, destroy_on, create_on}
use lierc_api.Lctl.Move.{
  vacant, stored, settle, behind_second, destroy_again, write_column, behind_first, relocate,
  first_problem, report_created,
}
use lierc_api.Lctl.Move.Observed.{
  stopped, running, observed, recorded, seen, after_destroy, after_create, after_status,
}

length-trim :
    (id : Bytes)
    → length (trim_slash (destroy_path id)) ≡ suc (length (trim_slash (create_path id)))
unfolding trim_slash
length-trim [] = refl
length-trim (c ∷ cs) = elim (Bool-cases (c == b'/')) [
  | inl e ↦ rw e (length-trim cs)
  | inr e ↦
      rw e (omega (arith, length-append cs (txt "/destroy"), length-append cs (txt "/create")))
]

-- The path of a create is not that of a destroy.
create-ne-destroy :
    (id : Bytes) → (trim_slash (create_path id) == trim_slash (destroy_path id)) ≡ false
create-ne-destroy id =
    elim (key_cases (trim_slash (create_path id)) (trim_slash (destroy_path id))) [
      | inl (p, _) ↦ absurd (omega (arith, length-trim id, ap length p))
      | inr (_, f) ↦ f
    ]

module _ (base : Bytes) (id : Bytes) (h : Trace) where
  pub observed-destroyed :
      (body : Option Bytes) (r : Reply) (w : Bool)
      → destroyed (response r) ≡ ok w
      → observed base id (sent base post (trim_slash (destroy_path id)) body r ∷ h) ≡ stopped
  unfolding observed seen after_destroy destroyed
  observed-destroyed body (no_answer _) w e = cc
  observed-destroyed body (answered s b) w e =
      rw (eqb_refl base, eqb_refl (trim_slash (destroy_path id))) (ground arith)

  pub observed-created :
      (body : Option Bytes) (r : Reply)
      → created id (response r) ≡ ok tt
      → observed base id (sent base post (trim_slash (create_path id)) body r ∷ h) ≡ running
  unfolding observed seen after_create created
  observed-created body (no_answer _) e = cc
  observed-created body (answered s b) e =
      rw (eqb_refl base, create-ne-destroy id, eqb_refl (trim_slash (create_path id)))
        (ground arith)

  pub observed-vacant :
      (target : Bytes) (body : Option Bytes) (r : Reply)
      → vacant id target (response r) ≡ ok tt
      → observed base id (sent base get (trim_slash (status_path id)) body r ∷ h) ≡ stopped
  unfolding observed seen after_status vacant
  observed-vacant target body (no_answer _) e = cc
  observed-vacant target body (answered s b) e =
      rw (eqb_refl base, eqb_refl (trim_slash (status_path id))) (ground arith)

  pub observed-elsewhere :
      (other : Bytes) (m : Method) (path : Bytes) (body : Option Bytes) (r : Reply)
      → (other == base) ≡ false
      → observed base id (sent other m path body r ∷ h) ≡ observed base id h
  unfolding observed
  observed-elsewhere other m path body r e = rw e

eqb-swap : (x y : Bytes) → (x == y) ≡ false → (y == x) ≡ false
eqb-swap x y f = elim (key_cases y x) [
  | inl (p, _) ↦ absurd (eqb_false-ne x y f (sym p))
  | inr (_, g) ↦ g
]

-- The end of a move, with the target's instance at `b` and any other instance at `a`.
module _ (world : Outside) (id target source config a b : Bytes) (ne : (b == a) ≡ false) where
  abbrev EndsAs : Bool → Trace → Trace → Type 0
  EndsAs s h t =
      (observed a id t ≡ observed a id h)
      × (recorded id t ≡ recorded id h)
      × (observed b id t ≡ (if s then running else observed b id h))

  report_created-ends :
      (h t : Trace) (s : Bool) (r : Reply) (c : Result Unit)
      → created id (response r) ≡ c
      → report_created world id target source config
          (at_base a)
          (at_base b)
          c
          (sent b post (trim_slash (create_path id)) (some config) r ∷ h)
        ≡ (ok s, t)
      → (s ≡ true) × EndsAs true h t
  unfolding report_created observed recorded
  report_created-ends h t s r (fail x) c e = let p : fail x ≡ ok s = ap (λ q. q.0) e in cc
  report_created-ends h t s r (ok u) c e =
      let p : ok true ≡ ok s = ap (λ q. q.0) e in
      (
        cc,
        subst (EndsAs true h) (ap (λ q. q.1) e) (
          observed-elsewhere a id h b post (trim_slash (create_path id)) (some config) r ne,
          refl,
          observed-created b id h (some config) r c,
        ),
      )

  settle-ends :
      (h t : Trace) (s w : Bool)
      → settle world id target source config (at_base a) (at_base b) w h ≡ (ok s, t)
      → (s ≡ w) × EndsAs w h t
  unfolding settle create_on request base send
  settle-ends h t s false e =
      let p : ok false ≡ ok s = ap (λ q. q.0) e in
      (
        cc,
        subst (EndsAs false h) (ap (λ q. q.1) e) (unfold observed recorded in (refl, refl, refl)),
      )
  settle-ends h t s true e = report_created-ends h t s _ _ refl e

  behind_second-ends :
      (h t : Trace) (s w : Bool) (again : Result Bool)
      → behind_second world id target source config (at_base a) (at_base b) w again h ≡ (ok s, t)
      → ((v : Bool) × (again ≡ ok v)) × EndsAs s h t
  unfolding behind_second
  behind_second-ends h t s w (fail x) e =
      let p : fail (destroying_again id source x) ≡ ok s = ap (λ q. q.0) e in cc
  behind_second-ends h t s w (ok true) e =
      let (p, q) = settle-ends (printed (slipped_in source) ∷ h) t s true e in
      ((true, refl), subst (λ v. EndsAs v h t) (sym p) (unfold observed recorded in q))
  behind_second-ends h t s w (ok false) e =
      let (p, q) = settle-ends h t s w e in ((false, refl), subst (λ v. EndsAs v h t) (sym p) q)

  destroy_on-ends :
      (h t : Trace) (res : Result Bool)
      → destroy_on world (at_base a) id h ≡ (ok res, t)
      → (recorded id t ≡ recorded id h)
        × (observed b id t ≡ observed b id h)
        × ((v : Bool) → res ≡ ok v → observed a id t ≡ stopped)
  unfolding destroy_on request base send recorded
  destroy_on-ends h t res e =
      let (p, q) = ok-eq e in
      let path : Bytes = trim_slash (destroy_path id) in
      let r : Reply = world.http h a post path none in
      subst
        (λ t.
          (recorded id t ≡ recorded id h)
          × (observed b id t ≡ observed b id h)
          × ((v : Bool) → res ≡ ok v → observed a id t ≡ stopped))
        q
        (
          refl,
          observed-elsewhere b id h a post path none r (eqb-swap b a ne),
          λ v z. observed-destroyed a id h none r v (p ∙ z),
        )

  set_liercd-ends :
      (h t : Trace) (name : Bytes) (u : Unit)
      → set_liercd world id name h ≡ (ok u, t)
      → (recorded id t ≡ some (column name)) × (observed b id t ≡ observed b id h)
  unfolding set_liercd recorded observed
  set_liercd-ends h t name u e = written (world.update_instance h id (column name)) e
    where
      written :
          (x : Option Error)
          → ◌≡◌ {A = Result Unit × Trace}
              (unless_error x, wrote_instance id (column name) (succeeded x) ∷ h)
              (ok u, t)
          → (recorded id t ≡ some (column name)) × (observed b id t ≡ observed b id h)
      written none e =
          subst (λ t. (recorded id t ≡ some (column name)) × (observed b id t ≡ observed b id h))
            (ok-eq e).1 (rw (eqb_refl id) refl, refl)
      written (some x) e = absurd (fail-ne-ok e)

  -- The connection is stopped at `a`, its column is the target's, and it runs at `b` if started.
  abbrev Moved : Bool → Trace → Trace → Type 0
  Moved s h t =
      (observed a id t ≡ stopped)
      × (recorded id t ≡ some (column (stored target)))
      × (observed b id t ≡ (if s then running else observed b id h))

  destroy_again-Moved :
      (h t : Trace) (s w : Bool)
      → recorded id h ≡ some (column (stored target))
      → destroy_again world id target source config (at_base a) (at_base b) w h ≡ (ok s, t)
      → Moved s h t
  unfolding destroy_again
  destroy_again-Moved h t s w r e =
      let (again, h1, e1, k1) =
        >>=-eq-ok (destroy_on world (at_base a) id)
          (behind_second world id target source config (at_base a) (at_base b) w) h t s e in
      let ((v, av), (ea, er, eb)) = behind_second-ends h1 t s w again k1 in
      let (r1, b1, a1) = destroy_on-ends h h1 again e1 in
      (ea ∙ a1 v av, er ∙ r1 ∙ r, eb ∙ ap (λ o. if s then running else o) b1)

  write_column-Moved :
      (h t : Trace) (s w : Bool)
      → write_column world id target source config (at_base a) (at_base b) w h ≡ (ok s, t)
      → Moved s h t
  unfolding write_column
  write_column-Moved h t s w e =
      let (u, h1, e1, k1) =
        >>=-eq-ok (set_liercd world id (stored target))
          (λ _. destroy_again world id target source config (at_base a) (at_base b) w) h t s e in
      let (r1, b1) = set_liercd-ends h h1 (stored target) u e1 in
      let (ma, mr, mb) = destroy_again-Moved h1 t s w r1 k1 in
      (ma, mr, mb ∙ ap (λ o. if s then running else o) b1)

  behind_first-Moved :
      (h t : Trace) (s : Bool) (first : Result Bool)
      → behind_first world id target source config (at_base a) (at_base b) first h ≡ (ok s, t)
      → Moved s h t
  unfolding behind_first first_problem
  behind_first-Moved h t s (fail x) e = absurd (fail-ne-ok e)
  behind_first-Moved h t s (ok w) e = write_column-Moved h t s w e

  pub relocate-Moved :
      (h t : Trace) (s : Bool)
      → relocate world id target source config (at_base a) (at_base b) h ≡ (ok s, t)
      → Moved s h t
  unfolding relocate
  relocate-Moved h t s e =
      let (first, h1, e1, k1) =
        >>=-eq-ok (destroy_on world (at_base a) id)
          (behind_first world id target source config (at_base a) (at_base b)) h t s e in
      let (ma, mr, mb) = behind_first-Moved h1 t s first k1 in
      let (_, b1, _) = destroy_on-ends h h1 first e1 in
      (ma, mr, mb ∙ ap (λ o. if s then running else o) b1)
