-- ===== src/Tests/Batch.antt =====
-- Two connections on main, listed and then moved to next.
use lierc_api.Base.{
  ◌≡◌, refl, ◌≤◌, ◌+◌, List, [], ◌∷◌, true, false, Option, none, some, Bytes, txt, pos, All, nat_eq,
  list_eq, length,
}
use lierc_api.World.{Outside, Method, get, post, Reply, answered, ok, Trace}
use lierc_api.Database.{lookup_config, lookup_liercd, set_liercd}
use lierc_api.Liercd.{
  Client, base, base_of, routed_base, path_id, send, request, pinned, pinned_base, trim_slash,
}
use lierc_api.Lctl.Instance.{
  destroy_on, destroyed, create_on, created, reconnect_one, reconnect_found, restart,
}
use lierc_api.Lctl.Move.{
  move_one, move_found, move_stored, move_from, move_between, or_main, stored, vacant,
  probe_and_relocate, behind_probe, relocate, write_column, destroy_again, settle, report_created,
  first_problem, behind_first, behind_second,
}
use lierc_api.Lctl.Batch.{Flags, Owner, move_each, behind_move, unless_cancelled, rest_of_batch}
use lierc_api.Lctl.Running.{reconnect, reconnect_each, behind_reconnect}
use lierc_api.Lctl.Running.Counted.{Reconnected, reconnect_lem}
use lierc_api.Lctl.Batch.Moves.{Moved, move_each-Moved}

answer : Trace → Bytes → Method → Bytes → Option Bytes → Reply
answer h url get path body = answered 404 []
answer h url post path body = answered 200 []

abbrev world : Outside
unfolding answer
world = record {
  http = answer;
  config_row = λ h id. ok (some (txt "{}"));
  instance_row = λ h id. ok (some none);
  update_instance = λ h id value. none;
  context_error = λ h. none;
  sleep_error = λ h seconds. none;
  begin_error = λ h. none;
  delete_from = λ h table id. ok 2;
  commit_error = λ h. none;
  sweep = λ h ids. ok 1;
}

abbrev client : Client
client = record { base_url = txt "http://a"; next_url = txt "http://b"; routed = true }

abbrev owners : List Owner
owners = (txt "c1", txt "ann") ∷ (txt "c2", txt "bob") ∷ []

abbrev flags : Flags
flags = record { move = false; dormant_only = true; batch = pos 5; pause = pos 30; limit = pos 0 }

after : Trace
after = (move_each world client (txt "b") (txt "next") 1 30 2 owners 0 0 []).1

moves : move_each world client (txt "b") (txt "next") 1 30 2 owners 0 0 [] ≡ (ok 2, after)
unfolding move_each behind_move unless_cancelled rest_of_batch move_one move_found move_stored
    move_from move_between or_main stored vacant probe_and_relocate behind_probe relocate
    write_column destroy_again settle report_created first_problem behind_first behind_second
    destroy_on destroyed create_on created lookup_config lookup_liercd set_liercd request base send
    pinned pinned_base trim_slash after world
moves = refl

move_each-Moved_example :
    All (Moved world client (txt "b") (txt "next") 1 30 2) owners
    × (0 ≤ 2)
    × (2 ≤ 0 + length owners)
move_each-Moved_example =
    move_each-Moved world client (txt "b") (txt "next") 1 30 2 owners 0 0 [] after 2 moves

done_trace : Trace
done_trace = (reconnect world client (txt "c1" ∷ []) []).1

reconnects : reconnect world client (txt "c1" ∷ []) [] ≡ (ok tt, done_trace)
unfolding reconnect reconnect_each behind_reconnect reconnect_one reconnect_found restart destroy_on
    destroyed create_on created lookup_config lookup_liercd request base routed_base base_of send
    trim_slash path_id done_trace world
reconnects = refl

reconnect_lem_example : All (Reconnected world [] done_trace) (txt "c1" ∷ [])
reconnect_lem_example = reconnect_lem world client (txt "c1" ∷ []) [] done_trace reconnects
