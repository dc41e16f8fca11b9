-- ===== src/Stream/Http.antt =====
-- internal/stream/server.go: `ServeHTTP`, `user` and the path of a wake ping; internal/db/db.go:
-- `UserState`. The rows of Postgres are arguments, `fail` for an error of the query.
pub mod Access
pub mod Paths
use lierc_api.Base.{
  ℕ, Bool, true, false, ◌&&◌, List, [], ◌∷◌, Option, none, some, Bytes, if◌then◌else◌, ◌==◌, nat_eq,
  list_eq, txt,
}
use lierc_api.World.{Result, ok, fail, Error}
use lierc_api.Session.{user}

-- What `user` writes when it reports false, and the user when it reports true.
pub data Login : Type 0 where
  server_error : Login
  unauthorized : Login
  unverified : Login
  logged_in : Bytes → Login

-- `UserState`: the row is `verified IS NOT DISTINCT FROM false`; no row is no user.
abbrev pub user_state : Result (Option Bool) → Result (Bool × Bool)
user_state (fail e) = fail e
user_state (ok none) = ok (false, false)
user_state (ok (some u)) = ok (true, u)

-- The `switch` of `user`.
abbrev pub decide : Bytes → Result (Bool × Bool) → Login
decide name (fail e) = server_error
decide name (ok (false, _)) = unauthorized
decide name (ok (true, true)) = unverified
decide name (ok (true, false)) = logged_in name

-- `user`: the row is asked for only where the cookie names a user.
unfoldable pub login : (Bytes → Result (Option Bool)) → Bytes → Login
login row [] = decide [] (ok (false, false))
login row (c ∷ cs) = decide (c ∷ cs) (user_state (row (c ∷ cs)))

-- `[^/]+` and `/ping$` of `pingPath`: the id, and nothing behind.
unfoldable pub id_then_ping : Bytes → Option Bytes
id_then_ping [] = none
id_then_ping (c ∷ cs) =
    let rest = id_then_ping cs in
    if c == b'/'
    then none
    else if cs == txt "/ping"
    then some (c ∷ [])
    else elim rest [ none ↦ none | some id ↦ some (c ∷ id) ]

-- `^/+`: one slash, and any others.
unfoldable pub after_slashes : Bytes → Bytes
after_slashes [] = []
after_slashes (c ∷ cs) = let rest = after_slashes cs in if c == b'/' then rest else c ∷ cs

-- `pingPath.FindStringSubmatch`
unfoldable pub ping_path : Bytes → Option Bytes
ping_path [] = none
ping_path (c ∷ cs) = if c == b'/' then id_then_ping (after_slashes cs) else none

-- What a request is answered with.
pub data Answer : Type 0 where
  stats : Answer
  refused : Login → Answer
  -- `servePing`, for a user and a stream id
  ping : Bytes → Bytes → Answer
  no_connections : Answer
  -- `serveStream`, for a user and the connections
  stream : Bytes → List (Bytes × Bytes) → Answer

abbrev pub serve_connections : Bytes → Result (List (Bytes × Bytes)) → Answer
serve_connections name (fail e) = no_connections
serve_connections name (ok conns) = stream name conns

module _ (connections : Bytes → Result (List (Bytes × Bytes))) (path : Bytes) (is_post : Bool) where
  abbrev pub serve_user : Bytes → Option Bytes → Bool → Answer
  serve_user name (some id) true = ping name id
  serve_user name (some id) false = serve_connections name (connections name)
  serve_user name none _ = serve_connections name (connections name)

  abbrev pub serve_login : Login → Answer
  serve_login (logged_in name) = serve_user name (ping_path path) is_post
  serve_login server_error = refused server_error
  serve_login unauthorized = refused unauthorized
  serve_login unverified = refused unverified

  -- `ServeHTTP`
  unfoldable pub serve_http :
      (Bytes → Bytes → Bytes) → Bytes → (Bytes → Result (Option Bool)) → Option Bytes → Answer
  serve_http sign secret row cookie =
      if path == txt "/stats" then stats else serve_login (login row (user sign cookie secret))
