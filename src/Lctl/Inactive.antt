-- ===== src/Lctl/Inactive.antt =====
-- internal/lctl/inactive_users.go: `parseSince`; internal/lctl/stop_inactive.go: `stopInactive`. A
-- duration is a number of nanoseconds. `time.ParseDuration`, the flags as parsed and the rows are
-- arguments.
pub mod Since
pub mod Stops
use lierc_api.Base.{
  ℕ, zero, suc, ◌+◌, ◌*◌, ◌%◌, ◌^◌, Bool, true, false, not, ◌||◌, ◌&&◌, List, [], ◌∷◌, ◌++◌, Option,
  none, some, Bytes, ℤ, pos, negsuc, length, ltb, leb, if◌then◌else◌, ◌==◌, nat_eq, list_eq, txt,
}
use lierc_api.Stream.Perl.{parse_int}
use lierc_api.Connconfig.Clean.{Tables}
use lierc_api.World.{
  Outside, Act, Result, ok, fail, Error, Trace, Method, get, post, pure, raise, done, print,
  attempt, ◌>>=◌, ◌>>◌, usage, not_checked, instance_failed, not_reached, said_status,
  stopped_connection, stopped_total, would_stop_total, stop_again, asked_inactive,
}
use lierc_api.Liercd.{Client, Response, request, pinned, status_path, destroy_path}
use lierc_api.Lctl.Check.{host_port}

-- `strings.CutSuffix(s, "d")`
unfoldable pub cut_d : Bytes → Option Bytes
cut_d [] = none
cut_d (c ∷ []) = if c == b'd' then some [] else none
cut_d (c ∷ d ∷ ds) = elim (cut_d (d ∷ ds)) [ none ↦ none | some r ↦ some (c ∷ r) ]

-- `24 * time.Hour`
abbrev pub day : ℕ
day = 24 * 3600 * 10 ^ 9

-- The number of days, in range, times a day: an int64, whose product wraps.
abbrev pub days : Option ℤ → Option ℕ
days (some (pos n)) = if leb 1 n && leb n 100000 then some (n * day % 2 ^ 64) else none
days _ = none

abbrev pub positive : Option ℤ → Option ℕ
positive (some (pos (suc n))) = some (suc n)
positive _ = none

abbrev pub since_of : Option ℤ → Option Bytes → Option ℕ
since_of duration (some s) = days (parse_int s)
since_of duration none = positive duration

-- `parseSince`
unfoldable pub parse_since : (Bytes → Option ℤ) → Bytes → Option ℕ
parse_since parse_duration s = since_of (parse_duration s) (cut_d s)

-- `stopInactiveFloor`
abbrev pub stop_inactive_floor : ℕ
stop_inactive_floor = 168 * 3600 * 10 ^ 9

-- A row of the query: the column of the instance is empty for NULL.
pub record Conn : Type 0 where
  pub id : Bytes
  pub instance_name : Bytes
  pub config : Bytes
  pub user : Bytes
  pub username : Bytes

abbrev pub or_main : Bytes → Bytes
or_main [] = txt "main"
or_main (c ∷ cs) = c ∷ cs

-- The counts, and the users whose connections run.
pub record Seen : Type 0 where
  pub stopped : ℕ
  pub failed : ℕ
  pub users : List Bytes

unfoldable pub add_user : Bytes → List Bytes → List Bytes
add_user user [] = user ∷ []
add_user user (u ∷ us) = let rest = add_user user us in if u == user then u ∷ us else u ∷ rest

abbrev pub count_failed : Seen → Seen
count_failed s = record s { failed = suc s.failed }

abbrev pub count_stopped : Conn → Seen → Seen
count_stopped c s = record s { stopped = suc s.stopped; users = add_user c.user s.users }

module _ (tables : Tables) where
  -- The `switch res.Status`.
  unfoldable pub behind_status : Conn → Seen → ℕ → Act Seen
  behind_status c s status =
      if status == 200
      then (print (
            stopped_connection c.id c.username (host_port tables c.config)
              (or_main c.instance_name))
          >> pure (count_stopped c s))
      else if status == 404
      then pure s
      else (print (said_status c.id status) >> pure (count_failed s))

  unfoldable pub behind_reply : Conn → Seen → Result Response → Act Seen
  behind_reply c s (fail e) =
      print (not_reached c.id (or_main c.instance_name) e) >> pure (count_failed s)
  behind_reply c s (ok res) = behind_status c s res.status

  module _ (world : Outside) (client : Client) (stop : Bool) where
    -- The request, with or without --stop.
    unfoldable pub ask_or_stop : Client → Bytes → Act Response
    ask_or_stop lc id =
        if stop
        then request world lc post (destroy_path id) none
        else request world lc get (status_path id) none

    abbrev pub on_instance : Conn → Seen → Result Client → Act Seen
    on_instance c s (fail e) = print (instance_failed c.id e) >> pure (count_failed s)
    on_instance c s (ok lc) = attempt (ask_or_stop lc c.id) >>= behind_reply c s

    -- `ctx.Err()`
    abbrev pub context : Trace → Result Unit × Trace
    context h =
        (elim (world.context_error h) as (λ x. Result Unit) [ none ↦ ok tt | some e ↦ fail e ], h)

    -- The loop over the connections.
    unfoldable pub stop_each : List Conn → Seen → Act Seen
    stop_each [] s = pure s
    stop_each (c ∷ cs) s =
        context >> (on_instance c s (pinned client (or_main c.instance_name)) >>= stop_each cs)

    abbrev pub suggest : ℕ → Act (Unit {0})
    suggest zero = pure tt
    suggest (suc n) = print stop_again

    abbrev pub totals : Seen → Act (Unit {0})
    totals s =
        if stop
        then print (stopped_total s.stopped (length s.users))
        else print (would_stop_total s.stopped (length s.users)) >> suggest s.stopped

    abbrev pub unless_failed : ℕ → Result (Unit {0})
    unless_failed zero = ok tt
    unless_failed (suc n) = fail (not_checked (suc n))

    unfoldable pub conclude : Seen → Act (Unit {0})
    conclude s = totals s >> done (unless_failed s.failed)

    unfoldable pub stop_rows : List Conn → Act (Unit {0})
    stop_rows conns = stop_each conns (record { stopped = 0; failed = 0; users = [] }) >>= conclude

-- The checks on the command line, with the number of other arguments.
abbrev pub long_enough : Option ℕ → ℕ → Result ℕ
long_enough none others = fail (usage (txt "--since needs a duration such as 30d or 720h"))
long_enough (some d) others =
    if ltb d stop_inactive_floor
    then fail (
        usage (
          txt
            "--since must be at least 7d: every liercd restart revives users active in the last 7 days (revive --since 168h)"))
    else if ltb 0 others
    then fail (usage (txt "stop-inactive takes no arguments"))
    else ok d

unfoldable pub check_since : (Bytes → Option ℤ) → Bytes → ℕ → Result ℕ
check_since parse_duration [] others = fail (usage (txt "--since is required, e.g. --since 30d"))
check_since parse_duration (c ∷ cs) others =
    long_enough (parse_since parse_duration (c ∷ cs)) others

-- The query of those without a login in the duration, its answer by what happened before.
abbrev pub ask_inactive : (Trace → ℕ → Result (List Conn)) → ℕ → Act (List Conn)
ask_inactive query d h = (query h d, asked_inactive d ∷ h)

-- `stopInactive`
unfoldable pub stop_inactive :
    Tables
    → Outside
    → Client
    → (Bytes → Option ℤ)
    → (Trace → ℕ → Result (List Conn))
    → Bool
    → Bytes
    → ℕ
    → Act (Unit {0})
stop_inactive tables world client parse_duration query stop since others =
    done (check_since parse_duration since others) >>= λ d.
    (ask_inactive query d >>= stop_rows tables world client stop)
