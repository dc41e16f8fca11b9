-- ===== src/World.antt =====
-- What the liercd client, the database layer and the admin commands ask of the world outside:
-- HTTP requests, queries, waiting and printing. The world is the record `Outside`, whose answers
-- may depend on all that happened before; every action is recorded in a trace, newest first.
--
-- An error and a printed line are values that name the message in the source, with its arguments.
pub mod Acts
use lierc_api.Base.{ℕ, ◌≡◌, refl, List, [], ◌∷◌, Bool, Option, none, some, Bytes}

pub data Method : Type 0 where
  get : Method
  post : Method

pub data Error : Type 0 where
  -- an error of the HTTP client, the database or the context, its text not empty
  external : ℕ → Bytes → Error
  -- `liercd instance "next" has no host (LIERCD_NEXT_HOST)`
  no_host : Error
  unknown_instance : Bytes → Error
  -- `Connection does not exist`
  no_connection : Error
  -- `Unable to create new connection: ` and the status line
  unable_to_create : ℕ → Error
  usage : Bytes → Error
  unknown_connection : Bytes → Error
  already_on : Bytes → Bytes → Error
  no_next_host : Error
  already_running : Bytes → Bytes → Error
  not_reachable : Bytes → Error → Error
  bad_status : ℕ → Error
  destroying : Bytes → Bytes → Error → Error
  destroying_again : Bytes → Bytes → Error → Error
  creating : Bytes → Error → Error
  looking_up : Bytes → Error → Error
  destroy_failed : Bytes → Error → Error
  -- `creating %s: liercd said` the status line and the trimmed body
  refused : ℕ → Bytes → Error
  asking : Bytes → Bytes → Error → Error
  count_failed : ℕ → ℕ → Error
  failed_to_start : ℕ → Error
  -- encoding/json refuses a value
  not_encoded : Error
  changed_while_fixing : ℕ → Error
  users_left : ℕ → Error
  connections_skipped : ℕ → Error
  not_checked : ℕ → Error

pub data Line : Type 0 where
  destroy_again_failed : Bytes → Bytes → Bytes → Error → Line
  slipped_in : Bytes → Line
  moved_dormant : Bytes → Bytes → Bytes → Line
  create_failed : Bytes → Bytes → Error → Line
  moved : Bytes → Bytes → Bytes → Line
  stopped_after : ℕ → ℕ → Option (Bytes × Error) → Line
  pausing : ℕ → ℕ → Line
  reconnected : Bytes → Line
  failure : Error → Line
  totals : ℕ → ℕ → Line
  skipped_line : Bytes → Error → Line
  nothing_deleted : Bytes → Error → Line
  deleted_line : Bytes → List ℕ → Line
  late_rows : ℕ → Line
  started_line : Bytes → Line
  refused_line : Bytes → ℕ → Line
  no_response : Bytes → Error → Line
  no_connections_on : Bytes → Line
  no_dormant_on : Bytes → ℕ → Line
  would_move : ℕ → ℕ → Line
  listed : Bytes → Bytes → Line
  run_again : Line
  moved_total : ℕ → ℕ → Line
  left_running : ℕ → Line
  started_total : ℕ → ℕ → Line
  changed_meanwhile : Bytes → Line
  -- a connection and its user, and whether it needs a reconnect
  repaired_line : Bytes → Bytes → Bool → Line
  field_hidden : Bytes → Line
  field_line : Bytes → List Bytes → Line
  would_fix : ℕ → Line
  fix_again : Line
  fixed_total : ℕ → Line
  reconnect_now : List Bytes → Line
  no_such_user : Bytes → Line
  -- a user's id, name and email, and the rows of each table
  user_line : Bytes → Bytes → Bytes → List ℕ → Line
  dry_run : Line
  dry_run_invalid : Line
  skipping_user : Bytes → Bytes → Error → Line
  user_not_deleted : Bytes → Error → Line
  user_deleted : Bytes → Line
  late_user_rows : Bytes → ℕ → Line
  users_total : ℕ → ℕ → Line
  no_such_connection : Bytes → Line
  instance_failed : Bytes → Error → Line
  not_reached : Bytes → Bytes → Error → Line
  said_status : Bytes → ℕ → Line
  -- a connection that was stopped, or would be: id, username, host and port, instance
  stopped_connection : Bytes → Bytes → Bytes → Bytes → Line
  stopped_total : ℕ → ℕ → Line
  would_stop_total : ℕ → ℕ → Line
  stop_again : Line
  -- an invalid connection: id, user, name, host and port, and the problem
  invalid_line : Bytes → Bytes → Bytes → Bytes → Bytes → Line
  -- how many were checked, are valid, are invalid, and whether without DNS
  checked_total : ℕ → ℕ → ℕ → Bool → Line
  kept_line : ℕ → Line
  deleted_total : ℕ → ℕ → Line
  -- a connection to delete, like an invalid one, and the rows of each table
  connection_line : Bytes → Bytes → Bytes → Bytes → List ℕ → Line

-- The end of a request: an error, or a status and a body.
pub data Reply : Type 0 where
  no_answer : Error → Reply
  answered : ℕ → Bytes → Reply

pub data Result (A : Type 0) : Type 0 where
  ok : A → Result A
  fail : Error → Result A

pub data Event : Type 0 where
  -- base URL, method, path, body
  sent : Bytes → Method → Bytes → Option Bytes → Reply → Event
  read_config : Bytes → Event
  read_instance : Bytes → Event
  -- the new value of the column, NULL as `none`, and whether the update was made
  wrote_instance : Bytes → Option Bytes → Bool → Event
  printed : Line → Event
  slept : ℕ → Event
  -- a DELETE from a table, by the connection's id
  deleted_from : Bytes → Bytes → Event
  -- the end of a transaction that deletes a connection's rows, and whether it was committed
  committed : Bytes → Bool → Event
  -- the DELETE of the log rows that arrived late
  swept : List Bytes → Event
  -- UPDATE of a connection's config where the column still has the old text, and the rows updated
  saved_config : Bytes → Bytes → Bytes → Result ℕ → Event
  -- a DELETE from a table, by a user's id and connections
  deleted_of : Bytes → Bytes → List Bytes → Event
  -- the end of a transaction that deletes a user, and whether it was committed
  user_committed : Bytes → Bool → Event
  -- the DELETE of the late log rows of a user's connections, from a row id on
  swept_of : Bytes → ℕ → List Bytes → Event
  -- NOTIFY highlights
  notified : Event
  -- the query of the connections whose users have not logged in for a duration
  asked_inactive : ℕ → Event
  -- the query of a user's connections, and its answer
  listed_conns : Bytes → Result (List Bytes) → Event

abbrev pub Trace : Type 0
Trace = List Event

pub record Outside : Type 0 where
  pub http : Trace → Bytes → Method → Bytes → Option Bytes → Reply
  -- `SELECT config`: no row is `none`
  pub config_row : Trace → Bytes → Result (Option Bytes)
  -- `SELECT liercd`: no row, NULL or a text
  pub instance_row : Trace → Bytes → Result (Option (Option Bytes))
  pub update_instance : Trace → Bytes → Option Bytes → Option Error
  -- `ctx.Err()`
  pub context_error : Trace → Option Error
  pub sleep_error : Trace → ℕ → Option Error
  pub begin_error : Trace → Option Error
  -- the rows that a DELETE from a table removes, by the connection's id
  pub delete_from : Trace → Bytes → Bytes → Result ℕ
  pub commit_error : Trace → Option Error
  pub sweep : Trace → List Bytes → Result ℕ

-- An action: its end, and the trace after it.
abbrev pub Act : Type 0 → Type 0
Act A = Trace → Result A × Trace

infixl 5 ◌>>=◌ ◌>>◌
abbrev pub ◌>>=◌ : {A B : Type 0} → Act A → (A → Act B) → Act B
◌>>=◌ m f h = let (r, h') = m h in elim r [ ok a ↦ f a h' | fail e ↦ (fail e, h') ]

abbrev pub ◌>>◌ : {A B : Type 0} → Act A → Act B → Act B
m >> k = m >>= λ _. k

abbrev pub pure : {A : Type 0} → A → Act A
pure a h = (ok a, h)

abbrev pub raise : {A : Type 0} → Error → Act A
raise e h = (fail e, h)

-- Records what happened.
abbrev pub log : Event → Act Unit
log e h = (ok tt, e ∷ h)

abbrev pub unless_error : Option Error → Result Unit
unless_error none = ok tt
unless_error (some e) = fail e

-- `env.Sleep`
abbrev pub wait : Outside → ℕ → Act Unit
wait world seconds h = (unless_error (world.sleep_error h seconds), slept seconds ∷ h)

abbrev pub print : Line → Act Unit
print l = log (printed l)

-- Hands the end of an action on as a value, for code that looks at the error itself.
abbrev pub attempt : {A : Type 0} → Act A → Act (Result A)
attempt m h = let (r, t) = m h in (ok r, t)

-- `return err`, or on with the value.
abbrev pub done : {A : Type 0} → Result A → Act A
done r h = (r, h)
