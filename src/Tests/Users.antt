-- ===== src/Tests/Users.antt =====
-- Two ids, one of a user with a connection, the other of nobody.
use lierc_api.Base.{
  ◌≡◌, ◌⊎◌, refl, List, [], ◌∷◌, true, none, some, Bytes, txt, ◌==◌, nat_eq, list_eq, if◌then◌else◌,
  All,
}
use lierc_api.World.{Outside, Trace, ok, answered}
use lierc_api.Liercd.{Client, base, base_of, routed_base, path_id, send, request, trim_slash}
use lierc_api.Database.{lookup_liercd}
use lierc_api.Lctl.Instance.{destroy_on, destroyed}
use lierc_api.Lctl.Delete.{destroy}
use lierc_api.Lctl.Delete.Guarded.{Guarded, happened, is_user_commit}
use lierc_api.Lctl.Users.{
  UserStore, count_tables, look_at, find_each, destroy_conns, destroy_users, any_conns, wait_if,
  delete_user_tables, delete_user, delete_users_each, sweep_each, verdict, behind_found,
  delete_users,
}
use lierc_api.Lctl.Users.Found.{says_no_user}
use lierc_api.Lctl.Users.Complete.{delete_users-Settled}

abbrev world : Outside
world = record {
  http = λ h url m path body. answered 200 [];
  config_row = λ h id. ok none;
  instance_row = λ h id. ok (some none);
  update_instance = λ h id value. none;
  context_error = λ h. none;
  sleep_error = λ h seconds. none;
  begin_error = λ h. none;
  delete_from = λ h table id. ok 2;
  commit_error = λ h. none;
  sweep = λ h ids. ok 1;
}

abbrev client : Client
client = record { base_url = txt "http://a"; next_url = []; routed = true }

abbrev store : UserStore
store = record {
  user_row = λ h id. ok (if id == txt "u1" then some (txt "ann", txt "ann@example.org") else none);
  user_conns = λ h id. ok (txt "c1" ∷ []);
  count_of = λ h table id conns. ok 2;
  last_log_id = λ h. ok 100;
  delete_of = λ h table id conns. ok 2;
  sweep_of = λ h last conns. ok 1;
}

abbrev both_ids : List Bytes
both_ids = txt "u1" ∷ txt "u2" ∷ []

abbrev after : Trace
unfolding delete_users
after = (delete_users world client store true 5 both_ids []).1

succeeds : delete_users world client store true 5 both_ids [] ≡ (ok tt, after)
unfolding delete_users count_tables look_at find_each destroy destroy_conns destroy_users any_conns
    wait_if delete_user_tables delete_user delete_users_each sweep_each verdict behind_found
    destroy_on destroyed request send base base_of routed_base path_id trim_slash lookup_liercd
succeeds = refl

delete_users-Settled_example :
    All
      (λ id.
        (happened (says_no_user id) after ≡ true) ⊎ (happened (is_user_commit id) after ≡ true))
      both_ids
delete_users-Settled_example = delete_users-Settled world client store 5 both_ids [] after succeeds
