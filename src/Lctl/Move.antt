-- ===== src/Lctl/Move.antt =====
-- internal/lctl/move_connection.go: `moveOne`, which moves a connection to another instance.
-- `client` is `env.Liercd` and `next_host` is `env.Config.LiercdNextHost`.
pub mod Observed
pub mod Relocation
pub mod Moving
pub mod Rerouted
use lierc_api.Base.{
  Bool, true, false, not, ◌&&◌, [], ◌∷◌, Option, none, some, Bytes, if◌then◌else◌, ◌==◌, nat_eq,
  list_eq, txt,
}
use lierc_api.World.{
  Outside, Act, Result, ok, fail, Error, get, pure, raise, done, attempt, print, ◌>>=◌, ◌>>◌,
  unknown_connection, already_on, no_next_host, already_running, not_reachable, bad_status,
  destroying, destroying_again, destroy_again_failed, slipped_in, moved_dormant, create_failed,
  moved,
}
use lierc_api.Database.{lookup_config, lookup_liercd, set_liercd}
use lierc_api.Liercd.{Client, Response, request, pinned, status_path}
use lierc_api.Lctl.Instance.{destroy_on, create_on}

-- `if source == "" { source = "main" }`
unfoldable pub or_main : Bytes → Bytes
or_main [] = txt "main"
or_main (c ∷ cs) = c ∷ cs

-- `stored := target`, empty for main.
unfoldable pub stored : Bytes → Bytes
stored target = if target == txt "main" then [] else target

-- What the status of the target says: the move goes on only where it is not running.
unfoldable pub vacant : Bytes → Bytes → Result Response → Result Unit
vacant id target (fail e) = fail (not_reachable target e)
vacant id target (ok res) =
    if res.status == 200
    then fail (already_running id target)
    else if res.status == 404
    then ok tt
    else fail (not_reachable target (bad_status res.status))

unfoldable pub first_problem : Bytes → Bytes → Result Bool → Result Bool
first_problem id source (fail e) = fail (destroying id source e)
first_problem id source (ok running) = ok running

module _ (world : Outside) (id target source config : Bytes) (src dst : Client) where
  unfoldable pub report_created : Result Unit → Act Bool
  report_created (fail e) = print (create_failed id target e) >> raise e
  report_created (ok _) = print (moved id source target) >> pure true

  -- The end of the move: a dormant connection is left for its user's next stream.
  unfoldable pub settle : Bool → Act Bool
  settle false = print (moved_dormant id source target) >> pure false
  settle true = do res ← attempt (create_on world dst id config); report_created res

  -- Behind the second destroy: `was_running` is what the first one found.
  unfoldable pub behind_second : Bool → Result Bool → Act Bool
  behind_second was_running (fail e) =
      print (destroy_again_failed id target source e) >> raise (destroying_again id source e)
  behind_second was_running (ok true) = print (slipped_in source) >> settle true
  behind_second was_running (ok false) = settle was_running

  -- From the second destroy on.
  unfoldable pub destroy_again : Bool → Act Bool
  destroy_again was_running = do again ← destroy_on world src id; behind_second was_running again

  -- From the update of the column on.
  unfoldable pub write_column : Bool → Act Bool
  write_column was_running = do set_liercd world id (stored target); destroy_again was_running

  unfoldable pub behind_first : Result Bool → Act Bool
  behind_first first = do
    was_running ← done (first_problem id source first)
    write_column was_running

  -- From the first destroy on.
  unfoldable pub relocate : Act Bool
  relocate = do first ← destroy_on world src id; behind_first first

  unfoldable pub behind_probe : Result Response → Act Bool
  behind_probe res = do done (vacant id target res); relocate

  unfoldable pub probe_and_relocate : Act Bool
  probe_and_relocate = do
    res ← attempt (request world dst get (status_path id) none)
    behind_probe res

module _ (world : Outside) (client : Client) (next_host : Bytes) where
  -- The two pinned clients.
  unfoldable pub move_between : Bytes → Bytes → Bytes → Bytes → Act Bool
  move_between id target config source = do
    src ← done (pinned client source)
    dst ← done (pinned client target)
    probe_and_relocate world id target source config src dst

  -- The checks on the names.
  unfoldable pub move_from : Bytes → Bytes → Bytes → Bytes → Act Bool
  move_from id target config source =
      if source == target
      then raise (already_on id target)
      else if target == txt "next" && next_host == []
      then raise no_next_host
      else move_between id target config source

  unfoldable pub move_stored : Bytes → Bytes → Bytes → Bytes → Act Bool
  move_stored id target config name = move_from id target config (or_main name)

  unfoldable pub move_found : Bytes → Bytes → Option Bytes → Act Bool
  move_found id target none = raise (unknown_connection id)
  move_found id target (some config) = do
    name ← lookup_liercd world id
    move_stored id target config name

  -- `moveOne`
  unfoldable pub move_one : Bytes → Bytes → Act Bool
  move_one id target = do config ← lookup_config world id; move_found id target config
