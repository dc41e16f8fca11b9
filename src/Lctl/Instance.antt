-- ===== src/Lctl/Instance.antt =====
-- internal/lctl: `destroyOn` of move_connection.go, `createOn` and `reconnectOne` of reconnect.go.
--
-- `destroyOn` returns a problem as text, empty for none. No error has an empty text and no status
-- line is empty, so the model has the error itself, and the Boolean where there is none.
use lierc_api.Base.{Bool, true, false, Option, none, some, Bytes, if◌then◌else◌, ◌==◌, nat_eq}
use lierc_api.World.{
  Outside, Act, Result, ok, fail, bad_status, creating, refused, destroy_failed, unknown_connection,
  looking_up, post, pure, done, attempt, ◌>>=◌, raise,
}
use lierc_api.Database.{lookup_config}
use lierc_api.Liercd.{Client, Response, request, create_path, destroy_path}

-- The `switch res.Status` of `destroyOn`: whether the connection was running.
unfoldable pub destroyed : Result Response → Result Bool
destroyed (fail e) = fail e
destroyed (ok res) =
    if res.status == 200
    then ok true
    else if res.status == 404
    then ok false
    else fail (bad_status res.status)

-- What `createOn` makes of the reply.
unfoldable pub created : Bytes → Result Response → Result Unit
created id (fail e) = fail (creating id e)
created id (ok res) =
    if res.status == 200 then ok tt else fail (creating id (refused res.status res.body))

module _ (world : Outside) where
  unfoldable pub destroy_on : Client → Bytes → Act (Result Bool)
  destroy_on client id = do
    res ← attempt (request world client post (destroy_path id) none)
    pure (destroyed res)

  unfoldable pub create_on : Client → Bytes → Bytes → Act Unit
  create_on client id config = do
    res ← attempt (request world client post (create_path id) (some config))
    done (created id res)

  -- A failed destroy leaves the connection alone.
  unfoldable pub restart : Client → Bytes → Bytes → Result Bool → Act Unit
  restart client id config (fail e) = raise (destroy_failed id e)
  restart client id config (ok _) = create_on client id config

  unfoldable pub reconnect_found : Client → Bytes → Result (Option Bytes) → Act Unit
  reconnect_found client id (fail e) = raise (looking_up id e)
  reconnect_found client id (ok none) = raise (unknown_connection id)
  reconnect_found client id (ok (some config)) = do
    res ← destroy_on client id
    restart client id config res

  -- `reconnectOne`, with the routed client.
  unfoldable pub reconnect_one : Client → Bytes → Act Unit
  reconnect_one client id = do
    config ← attempt (lookup_config world id)
    reconnect_found client id config
