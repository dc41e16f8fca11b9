-- ===== src/Tests/Lctl.antt =====
-- A connection that runs on main: moved to next, found again, and deleted.
use lierc_api.Base.{
  ◌≡◌, refl, ◌≢◌, ◌≤◌, ◌+◌, [], ◌∷◌, ◌++◌, true, Option, none, some, Bytes, txt, nat_eq, list_eq,
  eqb_false-ne,
}
use lierc_api.World.{Outside, Method, get, post, Reply, answered, ok, Trace, sent, read_instance}
use lierc_api.Database.{lookup_config, lookup_liercd, set_liercd, column}
use lierc_api.Liercd.{
  Client, base, base_of, routed_base, send, request, pinned, pinned_base, trim_slash, path_id,
  status_path, find_or_recreate, find_with_config, behind_first,
}
use lierc_api.Liercd.Routing.{IsPlain}
use lierc_api.Liercd.Recreate.{find_or_recreate_lem}
use lierc_api.Lctl.Instance.{destroy_on, destroyed, create_on, created}
use lierc_api.Lctl.Move.{
  behind_first as first_move, behind_second as second_move, move_one, move_found, move_stored,
  move_from, move_between, or_main, stored, vacant, probe_and_relocate, behind_probe, relocate,
  write_column, destroy_again, settle, report_created, first_problem,
}
use lierc_api.Lctl.Move.Observed.{observed, recorded, stopped, running}
use lierc_api.World.{read_config}
use lierc_api.Database.{instance_text}
use lierc_api.Lctl.Move.{or_main}
use lierc_api.Lctl.Move.Moving.{move_one_lem}
use lierc_api.Lctl.Move.Rerouted.{base-stored}
use lierc_api.Lctl.Delete.{destroy_and_delete, connection_tables}
use lierc_api.Lctl.Delete.Guarded.{Guarded}
use lierc_api.Lctl.Delete.Safe.{destroy_and_delete-Guarded}
use lierc_api.Lctl.Delete.Counts.{destroy_and_delete-Counts}

-- No connection has a status before it is created; a destroy and a create succeed.
answer : Trace → Bytes → Method → Bytes → Option Bytes → Reply
answer h url get path body = answered 404 []
answer h url post path body = answered 200 []

abbrev world : Outside
unfolding answer
world = record {
  http = answer;
  config_row = λ h id. ok (some (txt "{}"));
  instance_row = λ h id. ok (some none);
  update_instance = λ h id value. none;
  context_error = λ h. none;
  sleep_error = λ h seconds. none;
  begin_error = λ h. none;
  delete_from = λ h table id. ok 2;
  commit_error = λ h. none;
  sweep = λ h ids. ok 1;
}

abbrev client : Client
client = record { base_url = txt "http://a"; next_url = txt "http://b"; routed = true }

abbrev id : Bytes
id = txt "c1"

moved_trace : Trace
moved_trace = (move_one world client (txt "b") id (txt "next") []).1

runs : Trace → Trace
unfolding move_one move_found move_stored move_from move_between or_main stored vacant
    probe_and_relocate behind_probe relocate write_column destroy_again settle report_created
    first_problem destroy_on destroyed create_on created lookup_config lookup_liercd set_liercd
    request base send pinned pinned_base trim_slash path_id moved_trace answer first_move
    second_move
runs t = t

moves : move_one world client (txt "b") id (txt "next") [] ≡ (ok true, moved_trace)
unfolding runs
moves = refl

move_one_lem_example :
    (row : Option (Option Bytes)) × (source a b : Bytes) × (world.instance_row
        (read_config id ∷ [])
        id
      ≡ ok row)
    × (source ≡ or_main (instance_text row))
    × (source ≢ txt "next")
    × (pinned_base client source ≡ ok a)
    × (pinned_base client (txt "next") ≡ ok b)
    × (observed a id moved_trace ≡ stopped)
    × (recorded id moved_trace ≡ some (column (stored (txt "next"))))
    × (observed b id moved_trace ≡ running)
move_one_lem_example =
    move_one_lem world client (txt "b") id (txt "next") [] moved_trace true
      (eqb_false-ne (txt "http://a") (txt "http://b") refl) moves

next_url : pinned_base client (txt "next") ≡ ok (txt "http://b")
unfolding runs pinned_base
next_url = refl

id-IsPlain : IsPlain id
id-IsPlain = (eqb_false-ne id [] refl, (refl, (refl, tt)))

-- The world after the move: the column says next, and each request is answered with 200.
abbrev after : Outside
after = record world {
  instance_row = λ h j. ok (some (some (txt "next")));
  http = λ h url m path body. answered 200 (txt "ok");
}

next_row : after.instance_row [] id ≡ ok (some (column (stored (txt "next"))))
unfolding stored
next_row = refl

base-stored_example :
    base after client (trim_slash (id ++ (b'/' ∷ txt "status"))) []
    ≡ (ok (txt "http://b"), read_instance id ∷ [])
base-stored_example =
    base-stored after (txt "http://a") (txt "http://b") (txt "next") id (txt "status")
      (txt "http://b") [] id-IsPlain next_url next_row

found_trace : Trace
found_trace = (find_or_recreate after client id []).1

finds : find_or_recreate after client id [] ≡ (ok (txt "ok"), found_trace)
unfolding find_or_recreate find_with_config behind_first lookup_config lookup_liercd request base
    routed_base base_of send trim_slash path_id found_trace world
finds = refl

find_or_recreate_lem_example :
    ((config : Bytes) × (after.config_row [] id ≡ ok (some config)))
    × ((url : Bytes) × (rest : Trace) × (found_trace
          ≡ sent url get (trim_slash (status_path id)) none (answered 200 (txt "ok")) ∷ rest))
find_or_recreate_lem_example = find_or_recreate_lem after client id [] found_trace (txt "ok") finds

destroy_and_delete-Guarded_example :
    Guarded (destroy_and_delete world client connection_tables 5 (id ∷ txt "c2" ∷ []) []).1
destroy_and_delete-Guarded_example =
    destroy_and_delete-Guarded world client connection_tables 5 (id ∷ txt "c2" ∷ []) [] tt

destroy_and_delete-Counts_example :
    ((destroy_and_delete world client connection_tables 5 (id ∷ []) []).0.deleted
        + (destroy_and_delete world client connection_tables 5 (id ∷ []) []).0.skipped
      ≤ 1)
    × ((destroy_and_delete world client connection_tables 5 (id ∷ []) []).0.error ≡ none
        → (destroy_and_delete world client connection_tables 5 (id ∷ []) []).0.deleted
            + (destroy_and_delete world client connection_tables 5 (id ∷ []) []).0.skipped
          ≡ 1)
destroy_and_delete-Counts_example =
    destroy_and_delete-Counts world client connection_tables 5 (id ∷ []) []
