-- ===== src/Liercd.antt =====
-- internal/liercd/liercd.go: the HTTP client of liercd, and the instance that each request is
-- routed to. `net.SplitHostPort` is an argument, whether it accepts the host.
pub mod Routing
pub mod Recreate
use lierc_api.Base.{
  ℕ, Bool, true, false, ◌||◌, [], ◌∷◌, ◌++◌, Option, none, some, Bytes, if◌then◌else◌, ◌==◌, nat_eq,
  list_eq, txt,
}
use lierc_api.World.{
  Outside, Act, Result, ok, fail, Error, no_host, unknown_instance, no_connection, unable_to_create,
  Method, get, post, Reply, no_answer, answered, sent, raise, pure, done, ◌>>=◌,
}
use lierc_api.Database.{lookup_config, lookup_liercd}

-- `routed` is whether `instanceOf` is set; it is `LookupLiercd` wherever the program sets it.
pub record Client : Type 0 where
  pub base_url : Bytes
  pub next_url : Bytes
  pub routed : Bool

pub record Response : Type 0 where
  pub status : ℕ
  pub body : Bytes

-- `baseURL`
unfoldable pub url_of : (Bytes → Bool) → Bytes → Bytes
url_of has_port host =
    if has_port host then txt "http://" ++ host else txt "http://" ++ (host ++ txt ":5005")

-- `NewRouted`; an empty host of next leaves its URL empty.
abbrev pub next_base : (Bytes → Bool) → Bytes → Bytes
next_base has_port [] = []
next_base has_port (c ∷ cs) = url_of has_port (c ∷ cs)

unfoldable pub new_routed : (Bytes → Bool) → Bytes → Bytes → Client
new_routed has_port main next = record {
  base_url = url_of has_port main;
  next_url = next_base has_port next;
  routed = true;
}

-- `trimSlash`
unfoldable pub trim_slash : Bytes → Bytes
trim_slash [] = []
trim_slash (c ∷ cs) = let rest = trim_slash cs in if c == b'/' then rest else c ∷ cs

-- `strings.Cut(path, "/")`: the part before the first slash.
unfoldable pub path_id : Bytes → Bytes
path_id [] = []
path_id (c ∷ cs) = let rest = path_id cs in if c == b'/' then [] else c ∷ rest

-- The URL of next, refused when it has no host.
abbrev pub next_or_error : Bytes → Result Bytes
next_or_error [] = fail no_host
next_or_error (c ∷ cs) = ok (c ∷ cs)

-- The `switch inst` of `base`.
unfoldable pub base_of : Client → Bytes → Result Bytes
base_of client name =
    if name == []
    then ok client.base_url
    else if name == txt "next"
    then next_or_error client.next_url
    else fail (unknown_instance name)

-- The `switch instance` of `For`.
unfoldable pub pinned_base : Client → Bytes → Result Bytes
pinned_base client name =
    if name == txt "main"
    then ok client.base_url
    else if name == txt "next"
    then next_or_error client.next_url
    else fail (unknown_instance name)

-- `&Client{BaseURL: base, HTTP: c.HTTP}`
abbrev pub at_base : Bytes → Client
at_base base = record { base_url = base; next_url = []; routed = false }

-- `For`
unfoldable pub pinned : Client → Bytes → Result Client
pinned client name = elim (pinned_base client name) [
  | ok base ↦ ok (at_base base)
  | fail e ↦ fail e
]

abbrev pub response : Reply → Result Response
response (no_answer e) = fail e
response (answered status body) = ok (record { status = status; body = body })

abbrev pub status_path : Bytes → Bytes
status_path id = id ++ txt "/status"

abbrev pub create_path : Bytes → Bytes
create_path id = id ++ txt "/create"

abbrev pub destroy_path : Bytes → Bytes
destroy_path id = id ++ txt "/destroy"

module _ (world : Outside) where
  unfoldable pub routed_base : Client → Bytes → Act Bytes
  routed_base client [] = pure client.base_url
  routed_base client (c ∷ cs) = do name ← lookup_liercd world (c ∷ cs); done (base_of client name)

  -- `base`
  unfoldable pub base : Client → Bytes → Act Bytes
  base client path =
      if client.routed then routed_base client (path_id path) else pure client.base_url

  unfoldable pub send : Bytes → Method → Bytes → Option Bytes → Act Response
  send url method path body h =
      let reply = world.http h url method path body in
      (response reply, sent url method path body reply ∷ h)

  -- `Do`
  unfoldable pub request : Client → Method → Bytes → Option Bytes → Act Response
  request client method path body = do
    url ← base client (trim_slash path)
    send url method (trim_slash path) body

  -- The stages of `FindOrRecreate`, last first: what it makes of each response.
  unfoldable pub behind_second : Response → Act Bytes
  behind_second res =
      if res.status == 200 then pure res.body else raise (unable_to_create res.status)

  unfoldable pub behind_create : Client → Bytes → Response → Act Bytes
  behind_create client id res =
      if res.status == 200
      then (request client get (status_path id) none >>= behind_second)
      else raise (unable_to_create res.status)

  unfoldable pub recreate : Client → Bytes → Bytes → Act Bytes
  recreate client id config = do
    res ← request client post (create_path id) (some config)
    behind_create client id res

  unfoldable pub behind_first : Client → Bytes → Bytes → Response → Act Bytes
  behind_first client id config res =
      if res.status == 200 then pure res.body else recreate client id config

  unfoldable pub find_with_config : Client → Bytes → Option Bytes → Act Bytes
  find_with_config client id none = raise no_connection
  find_with_config client id (some config) = do
    res ← request client get (status_path id) none
    behind_first client id config res

  -- `FindOrRecreate`
  unfoldable pub find_or_recreate : Client → Bytes → Act Bytes
  find_or_recreate client id = do config ← lookup_config world id; find_with_config client id config
