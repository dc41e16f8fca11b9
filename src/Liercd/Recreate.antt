-- ===== src/Liercd/Recreate.antt =====
-- internal/liercd/liercd.go: what `FindOrRecreate` has seen when it returns a body.
use lierc_api.Base.{
  ◌≡◌, sym, ap, ap₂, subst, ◌∙◌, inl, inr, ◌∷◌, Option, none, some, Bytes, nat_eq, key_cases,
}
use lierc_api.World.{
  Outside, Result, ok, Trace, Method, get, post, sent, Reply, answered, no_answer,
}
use lierc_api.World.Acts.{>>=-eq-ok, ok-eq, fail-ne-ok}
use lierc_api.Database.{lookup_config}
use lierc_api.Liercd.{
  Client, Response, response, request, base, send, trim_slash, status_path, create_path, recreate,
  behind_create, behind_first, behind_second, find_with_config, find_or_recreate,
}

-- A request that ends well is the newest event, with its answer.
pub request_lem :
    (world : Outside) (client : Client) (m : Method) (path : Bytes) (body : Option Bytes)
    (h t : Trace) (res : Response)
    → request world client m path body h ≡ (ok res, t)
    → (url : Bytes) × (rest : Trace) × (t
        ≡ sent url m (trim_slash path) body (answered res.status res.body) ∷ rest)
unfolding request send
request_lem world client m path body h t res e =
    let (url, h1, e1, k1) =
      >>=-eq-ok (base world client (trim_slash path))
        (λ url. send world url m (trim_slash path) body) h t res e in
    answer url h1 (world.http h1 url m (trim_slash path) body) k1
  where
    answer :
        (url : Bytes) (h1 : Trace) (r : Reply)
        → ◌≡◌ {A = Result Response × Trace}
            (response r, sent url m (trim_slash path) body r ∷ h1)
            (ok res, t)
        → (url : Bytes) × (rest : Trace) × (t
            ≡ sent url m (trim_slash path) body (answered res.status res.body) ∷ rest)
    answer url h1 (no_answer x) k = absurd (fail-ne-ok k)
    answer url h1 (answered s b) k =
        let (p, q) = ok-eq k in
        (
          url,
          h1,
          sym q ∙ ap (λ r. sent url m (trim_slash path) body (answered r.status r.body) ∷ h1) p,
        )

module _ (world : Outside) (client : Client) (id : Bytes) where
  abbrev Found : Bytes → Trace → Type 0
  Found body t =
      (url : Bytes) × (rest : Trace) × (t
        ≡ sent url get (trim_slash (status_path id)) none (answered 200 body) ∷ rest)

  -- A response with status 200, and the body of it.
  found :
      (h t : Trace) (res : Response) (body : Bytes)
      → request world client get (status_path id) none h ≡ (ok res, t)
      → res.status ≡ 200
      → res.body ≡ body
      → Found body t
  found h t res body e s b =
      let (url, rest, p) = request_lem world client get (status_path id) none h t res e in
      (
        url,
        rest,
        p ∙ ap₂ (λ s b. sent url get (trim_slash (status_path id)) none (answered s b) ∷ rest) s b,
      )

  behind_second-Found :
      (h h1 t : Trace) (res : Response) (body : Bytes)
      → request world client get (status_path id) none h ≡ (ok res, h1)
      → behind_second world res h1 ≡ (ok body, t)
      → Found body t
  unfolding behind_second
  behind_second-Found h h1 t res body e k = elim (key_cases res.status 200) [
    | inl (s, f) ↦
        let (p, q) = ok-eq (rw f at k) in subst (Found body) q (found h h1 res body e s p)
    | inr (_, f) ↦ absurd (fail-ne-ok (rw f at k))
  ]

  behind_create-Found :
      (h t : Trace) (res : Response) (body : Bytes)
      → behind_create world client id res h ≡ (ok body, t)
      → Found body t
  unfolding behind_create
  behind_create-Found h t res body k = elim (key_cases res.status 200) [
    | inr (_, f) ↦ absurd (fail-ne-ok (rw f at k))
    | inl (s, f) ↦
        let (again, h1, e1, k1) =
          >>=-eq-ok (request world client get (status_path id) none) (behind_second world) h t body
            (rw f at k) in
        behind_second-Found h h1 t again body e1 k1
  ]

  behind_first-Found :
      (h h1 t : Trace) (config : Bytes) (res : Response) (body : Bytes)
      → request world client get (status_path id) none h ≡ (ok res, h1)
      → behind_first world client id config res h1 ≡ (ok body, t)
      → Found body t
  unfolding behind_first recreate
  behind_first-Found h h1 t config res body e k = elim (key_cases res.status 200) [
    | inl (s, f) ↦
        let (p, q) = ok-eq (rw f at k) in subst (Found body) q (found h h1 res body e s p)
    | inr (_, f) ↦
        let (made, h2, e2, k2) =
          >>=-eq-ok (request world client post (create_path id) (some config))
            (behind_create world client id) h1 t body (rw f at k) in
        behind_create-Found h2 t made body k2
  ]

-- Whatever liercd and the database answer: if `FindOrRecreate` returns a body, the connection has
-- a stored config, and the newest thing that happened is a status request about the connection,
-- answered with 200 and this body.
pub find_or_recreate_lem :
    (world : Outside) (client : Client) (id : Bytes) (h t : Trace) (body : Bytes)
    → find_or_recreate world client id h ≡ (ok body, t)
    → ((config : Bytes) × (world.config_row h id ≡ ok (some config)))
      × ((url : Bytes) × (rest : Trace) × (t
            ≡ sent url get (trim_slash (status_path id)) none (answered 200 body) ∷ rest))
unfolding find_or_recreate find_with_config lookup_config
find_or_recreate_lem world client id h t body e =
    let (config, h1, e1, k1) =
      >>=-eq-ok (lookup_config world id) (find_with_config world client id) h t body e in
    with_row config h1 (ap (λ q. q.0) e1) k1
  where
    with_row :
        (config : Option Bytes) (h1 : Trace)
        → world.config_row h id ≡ ok config
        → find_with_config world client id config h1 ≡ (ok body, t)
        → ((config : Bytes) × (world.config_row h id ≡ ok (some config)))
          × Found world client id body t
    with_row none h1 p k = absurd (fail-ne-ok k)
    with_row (some config) h1 p k =
        let (first, h2, e2, k2) =
          >>=-eq-ok (request world client get (status_path id) none)
            (behind_first world client id config) h1 t body k in
        ((config, p), behind_first-Found world client id h1 h2 t config first body e2 k2)
