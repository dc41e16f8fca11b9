-- ===== src/Lctl/Users.antt =====
-- internal/lctl/delete_users.go: `deleteUsers` and `deleteUser`. The flags, the ids and the answers
-- of Postgres are arguments.
pub mod Triples
pub mod Stopped
pub mod Safe
pub mod Found
pub mod Complete
use lierc_api.Base.{
  ℕ, zero, suc, ◌+◌, ◌-◌, Bool, true, false, not, ◌||◌, ◌&&◌, List, [], ◌∷◌, ◌++◌, Option, none,
  some, Bytes, length, ltb, if◌then◌else◌, txt,
}
use lierc_api.World.{
  Outside, Act, Result, ok, fail, Error, Trace, pure, raise, done, print, wait, unless_error, ◌>>=◌,
  ◌>>◌, deleted_of, user_committed, swept_of, users_left, no_such_user, listed_conns, user_line,
  dry_run, skipping_user, user_not_deleted, user_deleted, late_user_rows, users_total,
}
use lierc_api.Liercd.{Client}
use lierc_api.Lctl.Delete.{destroy}

-- `userTables`, in delete order.
abbrev pub user_tables : List Bytes
user_tables =
    txt "log"
    ∷ txt "seen"
    ∷ txt "private"
    ∷ txt "pref"
    ∷ txt "web_push"
    ∷ txt "connection"
    ∷ txt "user"
    ∷ []

-- `foundUser`
pub record User : Type 0 where
  pub id : Bytes
  pub username : Bytes
  pub email : Bytes
  pub conns : List Bytes

-- The answers of Postgres. A count and a DELETE are of the user's rows of a table, by `tableArgs`.
pub record UserStore : Type 0 where
  pub user_row : Trace → Bytes → Result (Option (Bytes × Bytes))
  pub user_conns : Trace → Bytes → Result (List Bytes)
  pub count_of : Trace → Bytes → Bytes → List Bytes → Result ℕ
  pub last_log_id : Trace → Result ℕ
  pub delete_of : Trace → Bytes → Bytes → List Bytes → Result ℕ
  pub sweep_of : Trace → ℕ → List Bytes → Result ℕ

-- What a loop has found, made ready or deleted, and how many users it skipped.
abbrev pub Sorted : Type 0
Sorted = List User × ℕ

abbrev pub is_empty : List Bytes → Bool
is_empty [] = true
is_empty (c ∷ cs) = false

-- A query: its answer, nothing changed.
abbrev pub ask : {A : Type 0} → (Trace → Result A) → Act A
ask q h = (q h, h)

module _ (store : UserStore) where
  unfoldable pub count_tables : List Bytes → Bytes → List Bytes → Act (List ℕ)
  count_tables [] id conns = pure []
  count_tables (t ∷ ts) id conns = ask (λ h. store.count_of h t id conns) >>= λ n.
      (count_tables ts id conns >>= λ counts. pure (n ∷ counts))

  -- A user who exists: the connections, the counts, and the line.
  abbrev pub show_user : User → List ℕ → Act User
  show_user u counts = print (user_line u.id u.username u.email counts) >> pure u

  abbrev pub count_user : Bytes → Bytes × Bytes → List Bytes → Act User
  count_user id row conns =
      count_tables user_tables id conns
      >>= show_user (record { id = id; username = row.0; email = row.1; conns = conns })

  -- The query of the user's connections.
  abbrev pub list_conns : Bytes → Act (List Bytes)
  list_conns id h = (store.user_conns h id, listed_conns id (store.user_conns h id) ∷ h)

  unfoldable pub look_at : Bytes → Bytes × Bytes → Act User
  look_at id row = list_conns id >>= count_user id row

  -- The loop over the ids; `rest` is its next round.
  abbrev pub behind_row :
      (Sorted → Act Sorted) → Bytes → Sorted → Option (Bytes × Bytes) → Act Sorted
  behind_row rest id (found, skipped) none = print (no_such_user id) >> rest (found, suc skipped)
  behind_row rest id (found, skipped) (some row) =
      look_at id row >>= λ u. rest (found ++ (u ∷ []), skipped)

  unfoldable pub find_each : List Bytes → Sorted → Act Sorted
  find_each [] s = pure s
  find_each (id ∷ ids) s = ask (λ h. store.user_row h id) >>= behind_row (find_each ids) id s

module _ (world : Outside) (client : Client) where
  abbrev pub behind_destroy : Act Bool → Bytes → Bytes → Result Bool → Trace → Result Bool × Trace
  behind_destroy rest user c (fail e) h = (print (skipping_user user c e) >> pure false) h
  behind_destroy rest user c (ok _) h = rest h

  -- The loop that destroys a user's connections, to the first that fails.
  unfoldable pub destroy_conns : Bytes → List Bytes → Act Bool
  destroy_conns user [] h = (ok true, h)
  destroy_conns user (c ∷ cs) h =
      let (r, h') = destroy world client c h in behind_destroy (destroy_conns user cs) user c r h'

  abbrev pub behind_user : (Sorted → Act Sorted) → User → Sorted → Bool → Act Sorted
  behind_user rest u (ready, skipped) true = rest (ready ++ (u ∷ []), skipped)
  behind_user rest u (ready, skipped) false = rest (ready, suc skipped)

  unfoldable pub destroy_users : List User → Sorted → Act Sorted
  destroy_users [] s = pure s
  destroy_users (u ∷ us) s = destroy_conns u.id u.conns >>= behind_user (destroy_users us) u s

unfoldable pub any_conns : List User → Bool
any_conns [] = false
any_conns (u ∷ us) = not (is_empty u.conns) || any_conns us

module _ (world : Outside) (store : UserStore) where
  -- The wait for QUIT messages, where a connection was destroyed.
  unfoldable pub wait_if : Bool → ℕ → Act (Unit {0})
  wait_if true settle = wait world settle
  wait_if false settle = pure tt

  -- `tx.Commit(ctx)`
  abbrev pub commit_user : Bytes → Option Error → Act (Unit {0})
  commit_user id none h = (ok tt, user_committed id true ∷ h)
  commit_user id (some e) h = (fail e, user_committed id false ∷ h)

  abbrev pub behind_delete : Act (Unit {0}) → Bytes → Result ℕ → Act (Unit {0})
  behind_delete rest id (fail e) h = (fail e, user_committed id false ∷ h)
  behind_delete rest id (ok n) h = rest h

  -- The loop of `deleteUser` over the tables; an error rolls the transaction back.
  unfoldable pub delete_user_tables : User → List Bytes → Act (Unit {0})
  delete_user_tables u [] h = commit_user u.id (world.commit_error h) h
  delete_user_tables u (t ∷ ts) h =
      behind_delete (delete_user_tables u ts) u.id (store.delete_of h t u.id u.conns)
        (deleted_of t u.id u.conns ∷ h)

  abbrev pub begun : User → Option Error → Act (Unit {0})
  begun u (some e) h = (fail e, h)
  begun u none h = delete_user_tables u user_tables h

  -- `deleteUser`
  unfoldable pub delete_user : User → Act (Unit {0})
  delete_user u h = begun u (world.begin_error h) h

  abbrev pub behind_deleted :
      (Sorted → Act Sorted) → User → Sorted → Result (Unit {0}) → Trace → Result Sorted × Trace
  behind_deleted rest u (deleted, skipped) (fail e) h =
      (print (user_not_deleted u.id e) >> rest (deleted, suc skipped)) h
  behind_deleted rest u (deleted, skipped) (ok _) h =
      (print (user_deleted u.id) >> rest (deleted ++ (u ∷ []), skipped)) h

  abbrev pub unless_cancelled : Option Error → Act Sorted → Act Sorted
  unless_cancelled (some e) rest = raise e
  unless_cancelled none rest = rest

  unfoldable pub delete_users_each : List User → Sorted → Act Sorted
  delete_users_each [] s h = (ok s, h)
  delete_users_each (u ∷ us) s h =
      unless_cancelled (world.context_error h)
        (λ h. let (r, h') = delete_user u h in behind_deleted (delete_users_each us) u s r h') h

  abbrev pub late_line : Bytes → ℕ → Act (Unit {0})
  late_line id zero = pure tt
  late_line id (suc n) = print (late_user_rows id (suc n))

  abbrev pub sweep_user : ℕ → User → Act ℕ
  sweep_user last u h = (store.sweep_of h last u.conns, swept_of u.id last u.conns ∷ h)

  unfoldable pub sweep_each : ℕ → List User → Act (Unit {0})
  sweep_each last [] = pure tt
  sweep_each last (u ∷ us) = sweep_user last u >>= λ n. (late_line u.id n >> sweep_each last us)

-- The end of the command, where as many users were found, made ready and deleted.
unfoldable pub verdict : ℕ → ℕ → ℕ → Act (Unit {0})
verdict found ready deleted =
    if ltb ready found || ltb deleted ready then raise (users_left (found - deleted)) else pure tt

module _ (world : Outside) (client : Client) (store : UserStore) where
  abbrev pub conclude : ℕ → ℕ → ℕ → Sorted → Act (Unit {0})
  conclude found ready last (deleted, skipped) =
      sweep_each world store last deleted
      >> (print (users_total (length deleted) skipped) >> verdict found ready (length deleted))

  abbrev pub delete_ready : ℕ → ℕ → ℕ → Sorted → Act (Unit {0})
  delete_ready settle found last (ready, skipped) =
      wait_if world store (any_conns ready) settle
      >> (delete_users_each world store ready ([], skipped) >>= conclude found (length ready) last)

  abbrev pub delete_found : ℕ → Sorted → ℕ → Act (Unit {0})
  delete_found settle (found, skipped) last =
      destroy_users world client found ([], skipped) >>= delete_ready settle (length found) last

  unfoldable pub behind_found : Bool → ℕ → Sorted → Act (Unit {0})
  behind_found del settle s =
      if del then ask store.last_log_id >>= delete_found settle s else print dry_run

  -- `deleteUsers`, behind the flags and the ids.
  unfoldable pub delete_users : Bool → ℕ → List Bytes → Act (Unit {0})
  delete_users del settle ids = find_each store ids ([], 0) >>= behind_found del settle
