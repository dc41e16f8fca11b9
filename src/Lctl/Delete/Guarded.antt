-- ===== src/Lctl/Delete/Guarded.antt =====
-- internal/lctl/check_connections.go: what must have happened before anything is deleted.
use lierc_api.Base.{
  ◌≡◌, refl, sym, subst, Bool, true, false, ◌&&◌, ◌||◌, List, [], ◌∷◌, Option, none, Bytes, All,
  if◌then◌else◌, ◌==◌, nat_eq, list_eq, eqb_refl, arith,
}
use lierc_api.World.{
  Outside, Result, ok, fail, Trace, Event, sent, read_instance, deleted_from, committed, swept,
  deleted_of, listed_conns, user_committed, swept_of, Method, post, answered, ◌>>=◌, done, pure,
}
use lierc_api.Database.{lookup_liercd, instance_answer}
use lierc_api.Liercd.{
  Client, Response, request, base, base_of, routed_base, send, path_id, trim_slash, destroy_path,
}
use lierc_api.Liercd.Recreate.{request_lem}
use lierc_api.Lctl.Instance.{destroy_on, destroyed}
use lierc_api.Lctl.Delete.{destroy}
use lierc_api.Lctl.Users.{user_tables}

abbrev pub happened : (Event → Bool) → Trace → Bool
happened p [] = false
happened p (e ∷ h) = p e || happened p h

-- A destroy of `id` that liercd answered with 200 or 404.
unfoldable pub is_destroy : Bytes → Event → Bool
is_destroy id (sent _ post path _ (answered status _)) =
    path == trim_slash (destroy_path id) && (status == 200 || status == 404)
is_destroy id _ = false

unfoldable pub is_commit : Bytes → Event → Bool
is_commit id (committed j true) = j == id
is_commit id _ = false

-- A user's transaction that was committed.
unfoldable pub is_user_commit : Bytes → Event → Bool
is_user_commit id (user_committed j true) = j == id
is_user_commit id _ = false

-- The query of a user's connections, with this answer.
unfoldable pub is_listing : Bytes → List Bytes → Event → Bool
is_listing id conns (listed_conns j (ok found)) = j == id && found == conns
is_listing id conns _ = false

-- The trace behind the DELETEs of a user's rows, table by table.
abbrev pub with_deletes : Bytes → List Bytes → List Bytes → Trace → Trace
with_deletes id conns [] h = h
with_deletes id conns (t ∷ ts) h = with_deletes id conns ts (deleted_of t id conns ∷ h)

-- What must stand before an event: a row is deleted only behind the destroy of its connection,
-- and late rows only of connections whose deletion was committed; a user's rows are deleted
-- only by connections that Postgres listed for the user, behind the destroys of them, the transaction is committed only with the
-- DELETEs from each table right before it, and late rows go only of users so deleted.
unfoldable pub Allowed : Event → Trace → Type 0
Allowed (deleted_from table id) h = happened (is_destroy id) h ≡ true
Allowed (swept ids) h = All (λ id. happened (is_commit id) h ≡ true) ids
Allowed (deleted_of table id conns) h =
    (happened (is_listing id conns) h ≡ true) × All (λ c. happened (is_destroy c) h ≡ true) conns
Allowed (user_committed id true) h =
    (conns : List Bytes) × (before : Trace) × (h ≡ with_deletes id conns user_tables before)
Allowed (swept_of id last conns) h = happened (is_user_commit id) h ≡ true
Allowed _ h = Unit

abbrev pub Guarded : Trace → Type 0
Guarded [] = Unit
Guarded (e ∷ h) = Allowed e h × Guarded h

abbrev pub Keeps : Trace → Trace → Type 0
Keeps h t =
    (Guarded h → Guarded t) × ((p : Event → Bool) → happened p h ≡ true → happened p t ≡ true)

pub Keeps-more : (e : Event) (h t : Trace) → Keeps h t → Allowed e t → Keeps h (e ∷ t)
Keeps-more e h t k a = (λ g. (a, k.0 g), λ p z. or_true (p e) (happened p t) (k.1 p z))
  where
    or_true : (x y : Bool) → y ≡ true → (x || y) ≡ true
    or_true true y z = refl
    or_true false y z = z

pub Keeps-refl : (h : Trace) → Keeps h h
Keeps-refl h = (λ g. g, λ p z. z)

pub Keeps-trans : (h t u : Trace) → Keeps h t → Keeps t u → Keeps h u
Keeps-trans h t u k l = (λ g. l.0 (k.0 g), λ p z. l.1 p (k.1 p z))

pub Keeps-happened :
    (p : Bytes → Event → Bool) (h t : Trace) (ids : List Bytes)
    → Keeps h t
    → All (λ id. happened (p id) h ≡ true) ids
    → All (λ id. happened (p id) t ≡ true) ids
Keeps-happened p h t [] k a = tt
Keeps-happened p h t (id ∷ ids) k a = (k.1 (p id) a.0, Keeps-happened p h t ids k a.1)

module _ (world : Outside) (client : Client) where
  base-Keeps : (path : Bytes) (h : Trace) → Keeps h (base world client path h).1
  unfolding base routed_base lookup_liercd Allowed
  base-Keeps path h = either client.routed
    where
      named :
          (id : Bytes) (r : Result Bytes)
          → Keeps h
              (((λ g. (r, read_instance id ∷ g)) >>= (λ name. done (base_of client name))) h).1
      named id (ok name) = Keeps-more (read_instance id) h h (Keeps-refl h) tt
      named id (fail e) = Keeps-more (read_instance id) h h (Keeps-refl h) tt

      routed : (id : Bytes) → Keeps h (routed_base world client id h).1
      routed [] = Keeps-refl h
      routed (c ∷ cs) = named (c ∷ cs) (instance_answer (world.instance_row h (c ∷ cs)))

      either :
          (b : Bool)
          → Keeps h
              ((if b then routed_base world client (path_id path) else pure client.base_url) h).1
      either true = routed (path_id path)
      either false = Keeps-refl h

  request-Keeps :
      (m : Method) (path : Bytes) (body : Option Bytes) (h : Trace)
      → Keeps h (request world client m path body h).1
  unfolding request send Allowed
  request-Keeps m path body h =
      sent-Keeps (base world client (trim_slash path) h) (base-Keeps (trim_slash path) h)
    where
      sent-Keeps :
          (q : Result Bytes × Trace)
          → Keeps h q.1
          → Keeps h (((λ g. q) >>= (λ url. send world url m (trim_slash path) body)) h).1
      sent-Keeps (ok url, t) k =
          Keeps-more (sent url m (trim_slash path) body (world.http t url m (trim_slash path) body))
            h t k tt
      sent-Keeps (fail e, t) k = k

  pub destroy_lem :
      (id : Bytes) (h : Trace) (v : Bool)
      → (destroy world client id h).0 ≡ ok v
      → happened (is_destroy id) (destroy world client id h).1 ≡ true
  unfolding destroy destroy_on destroyed is_destroy
  destroy_lem id h v e = answered_so (request world client post (destroy_path id) none h) refl e
    where
      answered_so :
          (q : Result Response × Trace)
          → request world client post (destroy_path id) none h ≡ q
          → destroyed q.0 ≡ ok v
          → happened (is_destroy id) q.1 ≡ true
      answered_so (fail x, t) p z = cc
      answered_so (ok res, t) p z =
          let (url, rest, s) = request_lem world client post (destroy_path id) none h t res p in
          subst (λ t. happened (is_destroy id) t ≡ true) (sym s)
            (rw (eqb_refl (trim_slash (destroy_path id))) (ground arith))

  pub destroy-Keeps : (id : Bytes) (h : Trace) → Keeps h (destroy world client id h).1
  unfolding destroy destroy_on
  destroy-Keeps id h = request-Keeps post (destroy_path id) none h
