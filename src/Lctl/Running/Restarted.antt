-- ===== src/Lctl/Running/Restarted.antt =====
-- internal/lctl/reconnect.go: what `reconnectOne` leaves in the trace where it reports success.
use lierc_api.Base.{
  ◌≡◌, refl, sym, ◌∙◌, ap, subst, Bool, true, false, ◌&&◌, [], ◌∷◌, Option, none, some, Bytes, ◌==◌,
  nat_eq, list_eq, eqb_refl, if◌then◌else◌, arith,
}
use lierc_api.World.{
  Outside, Result, ok, fail, Trace, Event, Method, post, sent, answered, no_answer, read_config,
  read_instance, pure, done, attempt, Reply,
}
use lierc_api.World.Acts.{Extends, here, more, Does, >>=-Does, >>=-eq-ok, ok-eq, fail-ne-ok}
use lierc_api.Database.{lookup_config, lookup_liercd, instance_answer}
use lierc_api.Liercd.{
  Client, Response, request, base, base_of, routed_base, send, path_id, trim_slash, destroy_path,
  create_path, response,
}
use lierc_api.Lctl.Instance.{
  destroyed, created, destroy_on, create_on, restart, reconnect_found, reconnect_one,
}
use lierc_api.Lctl.Delete.Guarded.{is_destroy}

-- `t` is `h` with more events.
abbrev pub Follows : Trace → Trace → Type 0
Follows h t = Extends (λ _. Unit) h t

-- A create of `id` with this config that liercd answered with 200.
unfoldable pub is_create : Bytes → Bytes → Event → Bool
is_create id config (sent _ post path (some body) (answered status _)) =
    path == trim_slash (create_path id) && (body == config && status == 200)
is_create id config _ = false

-- From `h` to `t`: the config was read; behind that the connection was destroyed; and behind that it
-- was created with the config, which is the last event.
abbrev pub Restarted : Outside → Bytes → Trace → Trace → Type 0
Restarted world id h t =
    (config : Bytes) × (d : Event) × (r1 : Trace) × (c : Event) × (r2 : Trace) × (world.config_row h
        id
      ≡ ok (some config))
    × Follows (read_config id ∷ h) r1
    × (is_destroy id d ≡ true)
    × Follows (d ∷ r1) r2
    × (is_create id config c ≡ true)
    × (t ≡ c ∷ r2)

module _ (world : Outside) (client : Client) where
  base-Follows : (path : Bytes) → Does (λ _. Unit) (base world client path)
  unfolding base routed_base lookup_liercd
  base-Follows path = either client.routed
    where
      routed : (id : Bytes) → Does (λ _. Unit) (routed_base world client id)
      routed [] = λ h. here
      routed (c ∷ cs) =
          >>=-Does (λ _. Unit)
            (λ h. (instance_answer (world.instance_row h (c ∷ cs)), read_instance (c ∷ cs) ∷ h))
            (λ name. done (base_of client name)) (λ h. more tt here) (λ name h. here)

      either :
          (b : Bool)
          → Does
              (λ _. Unit)
              (if b then routed_base world client (path_id path) else pure client.base_url)
      either true = routed (path_id path)
      either false = λ h. here

  request-Follows :
      (m : Method) (path : Bytes) (body : Option Bytes)
      → Does (λ _. Unit) (request world client m path body)
  unfolding request send
  request-Follows m path body =
      >>=-Does (λ _. Unit) (base world client (trim_slash path))
        (λ url. send world url m (trim_slash path) body) (base-Follows (trim_slash path))
        (λ url h. more tt here)

  -- A request that ends well is the newest event, with its answer, and nothing before it is lost.
  request-sent :
      (m : Method) (path : Bytes) (body : Option Bytes) (h t : Trace) (res : Response)
      → request world client m path body h ≡ (ok res, t)
      → (url : Bytes) × (rest : Trace) × Follows h rest
        × (t ≡ sent url m (trim_slash path) body (answered res.status res.body) ∷ rest)
  unfolding request send
  request-sent m path body h t res e =
      let (url, h1, e1, k1) =
        >>=-eq-ok (base world client (trim_slash path))
          (λ url. send world url m (trim_slash path) body) h t res e in
      answer url h1 (subst (λ q. Follows h q.1) e1 (base-Follows (trim_slash path) h))
        (world.http h1 url m (trim_slash path) body) k1
    where
      answer :
          (url : Bytes) (h1 : Trace)
          → Follows h h1
          → (r : Reply)
          → ◌≡◌ {A = Result Response × Trace}
              (response r, sent url m (trim_slash path) body r ∷ h1)
              (ok res, t)
          → (url : Bytes) × (rest : Trace) × Follows h rest
            × (t ≡ sent url m (trim_slash path) body (answered res.status res.body) ∷ rest)
      answer url h1 f (no_answer x) k = absurd (fail-ne-ok k)
      answer url h1 f (answered s b) k =
          let (p, q) = ok-eq k in
          (
            url,
            h1,
            f,
            sym q ∙ ap (λ r. sent url m (trim_slash path) body (answered r.status r.body) ∷ h1) p,
          )

  destroy_on_lem :
      (id : Bytes) (h t : Trace) (v : Bool)
      → destroy_on world client id h ≡ (ok (ok v), t)
      → (d : Event) × (rest : Trace) × Follows h rest × (is_destroy id d ≡ true) × (t ≡ d ∷ rest)
  unfolding destroy_on destroyed is_destroy
  destroy_on_lem id h t v e =
      let (res, h1, e1, k1) =
        >>=-eq-ok (attempt (request world client post (destroy_path id) none))
          (λ res. pure (destroyed res)) h t (ok v) e in
      let (r, x) = ok-eq e1 in let (d, y) = ok-eq k1 in made res h1 d r x y
    where
      made :
          (res : Result Response) (h1 : Trace)
          → destroyed res ≡ ok v
          → (request world client post (destroy_path id) none h).0 ≡ res
          → (request world client post (destroy_path id) none h).1 ≡ h1
          → h1 ≡ t
          → (d : Event) × (rest : Trace) × Follows h rest
            × (is_destroy id d ≡ true)
            × (t ≡ d ∷ rest)
      made (fail e) h1 d r x y = cc
      made (ok res) h1 d r x y =
          let (url, rest, f, s) = request-sent post (destroy_path id) none h h1 res (cc) in
          (
            sent url post (trim_slash (destroy_path id)) none (answered res.status res.body),
            rest,
            f,
            rw (eqb_refl (trim_slash (destroy_path id))) (ground arith),
            sym y ∙ s,
          )

  create_on_lem :
      (id config : Bytes) (h t : Trace)
      → create_on world client id config h ≡ (ok tt, t)
      → (c : Event) × (rest : Trace) × Follows h rest
        × (is_create id config c ≡ true)
        × (t ≡ c ∷ rest)
  unfolding create_on created is_create
  create_on_lem id config h t e =
      let (res, h1, e1, k1) =
        >>=-eq-ok (attempt (request world client post (create_path id) (some config)))
          (λ res. done (created id res)) h t tt e in
      let (r, x) = ok-eq e1 in made res h1 (ap (λ q. q.0) k1) r x (ap (λ q. q.1) k1)
    where
      made :
          (res : Result Response) (h1 : Trace)
          → created id res ≡ ok tt
          → (request world client post (create_path id) (some config) h).0 ≡ res
          → (request world client post (create_path id) (some config) h).1 ≡ h1
          → h1 ≡ t
          → (c : Event) × (rest : Trace) × Follows h rest
            × (is_create id config c ≡ true)
            × (t ≡ c ∷ rest)
      made (fail e) h1 d r x y = cc
      made (ok res) h1 d r x y =
          let (url, rest, f, s) = request-sent post (create_path id) (some config) h h1 res (cc) in
          (
            sent url post (trim_slash (create_path id)) (some config)
                (answered res.status res.body),
            rest,
            f,
            rw (eqb_refl (trim_slash (create_path id)), eqb_refl config) (ground arith),
            sym y ∙ s,
          )

  pub reconnect_one-Restarted :
      (id : Bytes) (h t : Trace)
      → reconnect_one world client id h ≡ (ok tt, t)
      → Restarted world id h t
  unfolding reconnect_one lookup_config reconnect_found restart
  reconnect_one-Restarted id h t e =
      let (r, h1, e1, k1) =
        >>=-eq-ok (attempt (lookup_config world id)) (reconnect_found world client id) h t tt e in
      let (p, q) = ok-eq e1 in
      found (world.config_row h id) refl (
        ap (λ g. reconnect_found world client id (world.config_row h id) g) q
        ∙ ap (λ r. reconnect_found world client id r h1) p
        ∙ k1)
    where
      found :
          (r : Result (Option Bytes))
          → world.config_row h id ≡ r
          → reconnect_found world client id r (read_config id ∷ h) ≡ (ok tt, t)
          → Restarted world id h t
      found (fail x) p k = absurd (fail-ne-ok k)
      found (ok none) p k = absurd (fail-ne-ok k)
      found (ok (some config)) p k =
          let (v, h2, e2, k2) =
            >>=-eq-ok (destroy_on world client id) (restart world client id config)
              (read_config id ∷ h) t tt k in
          again config p v h2 e2 k2
        where
          again :
              (config : Bytes)
              → world.config_row h id ≡ ok (some config)
              → (v : Result Bool) (h2 : Trace)
              → destroy_on world client id (read_config id ∷ h) ≡ (ok v, h2)
              → restart world client id config v h2 ≡ (ok tt, t)
              → Restarted world id h t
          again config p (fail x) h2 e2 k2 = absurd (fail-ne-ok k2)
          again config p (ok v) h2 e2 k2 =
              let (d, r1, f, x, y) = destroy_on_lem id (read_config id ∷ h) h2 v e2 in
              let (c, r2, g, z, w) = create_on_lem id config h2 t k2 in
              (config, d, r1, c, r2, p, f, x, subst (λ q. Follows q r2) y g, z, w)

  pub reconnect_one-Follows : (id : Bytes) → Does (λ _. Unit) (reconnect_one world client id)
  unfolding reconnect_one lookup_config reconnect_found restart destroy_on create_on
  reconnect_one-Follows id =
      >>=-Does (λ _. Unit) (attempt (lookup_config world id)) (reconnect_found world client id)
        (λ h. more tt here) found
    where
      again :
          (config : Bytes) (v : Result Bool) → Does (λ _. Unit) (restart world client id config v)
      again config (fail x) = λ h. here
      again config (ok v) =
          >>=-Does (λ _. Unit) (attempt (request world client post (create_path id) (some config)))
            (λ res. done (created id res)) (request-Follows post (create_path id) (some config))
            (λ res h. here)

      found : (r : Result (Option Bytes)) → Does (λ _. Unit) (reconnect_found world client id r)
      found (fail x) = λ h. here
      found (ok none) = λ h. here
      found (ok (some config)) =
          >>=-Does (λ _. Unit) (destroy_on world client id) (restart world client id config)
            (>>=-Does (λ _. Unit) (attempt (request world client post (destroy_path id) none))
              (λ res. pure (destroyed res)) (request-Follows post (destroy_path id) none)
              (λ res h. here))
            (again config)
