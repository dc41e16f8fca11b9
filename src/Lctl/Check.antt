-- ===== src/Lctl/Check.antt =====
-- internal/lctl/check_connections.go: `checkConnections`, and what it finds wrong with a
-- saved config. The flags as parsed, the end of `ReadIDs` and
-- the rows are arguments.
pub mod Rows
pub mod Touched
use lierc_api.Base.{
  ℕ, zero, suc, ◌+◌, Bool, true, false, not, ◌||◌, ◌&&◌, List, [], ◌∷◌, ◌++◌, Option, none, some,
  Bytes, ℤ, pos, negsuc, lt_ℤ, length, ltb, if◌then◌else◌, ◌==◌, nat_eq, list_eq, txt,
}
use lierc_api.Utf8.{Text}
use lierc_api.Json.{Json, null, boolean, number, text, array, object, Fields, get, display}
use lierc_api.Connconfig.Text.{Checked, valid, invalid}
use lierc_api.Connconfig.Clean.{Tables, Settings, clean}
use lierc_api.Connconfig.Address.{Platform, check_host}
use lierc_api.World.{
  Outside, Act, Result, ok, fail, Error, Trace, pure, raise, done, print, ◌>>=◌, ◌>>◌, usage,
  external, connections_skipped, no_such_connection, invalid_line, checked_total, kept_line,
  deleted_total, dry_run_invalid,
}
use lierc_api.Liercd.{Client}
use lierc_api.Lctl.Main.{Ids, ids, no_ids, unreadable}
use lierc_api.Lctl.Delete.{Tally, connection_tables, destroy_and_delete}

pub record Flags : Type 0 where
  pub del : Bool
  pub unresolved : Bool
  pub no_dns : Bool
  pub settle : ℤ

-- A row of the query: the name is missing where the user is.
pub record Row : Type 0 where
  pub id : Bytes
  pub user : Bytes
  pub config : Bytes
  pub username : Option Bytes

pub data Problem : Type 0 where
  no_problem : Problem
  problem : Text → Problem

abbrev pub problem_of : {A : Type 0} → Checked A → Problem
problem_of (valid _) = no_problem
problem_of (invalid why) = problem why

module _ (tables : Tables) (platform : Platform) where
  abbrev pub cleaned : Bool → Checked Settings → Problem
  cleaned dns (invalid why) = problem why
  cleaned false (valid c) = no_problem
  cleaned true (valid c) = problem_of (check_host platform c.host c.port)

  -- `connectionProblem`, by what the config decodes to.
  abbrev pub if_object : Problem → Option Json → Problem
  if_object p (some (object _)) = p
  if_object p _ = problem (txt "config isn't a JSON object")

  unfoldable pub connection_problem : Bytes → Bool → Problem
  connection_problem raw dns = if_object (cleaned dns (clean tables raw)) (tables.decode_json raw)

abbrev pub part : Option Text → Text
part none = txt "?"
part (some s) = s

abbrev pub host_port_of : Option Json → Text
host_port_of (some (object params)) =
    part (display (get (txt "Host") params)) ++ (b':' ∷ part (display (get (txt "Port") params)))
host_port_of _ = txt "?"

-- `hostPort`
unfoldable pub host_port : Tables → Bytes → Text
host_port tables raw = host_port_of (tables.decode_json raw)

-- `strings.HasPrefix`
unfoldable pub has_prefix : Text → Text → Bool
has_prefix s [] = true
has_prefix [] (p ∷ ps) = false
has_prefix (c ∷ cs) (p ∷ ps) = c == p && has_prefix cs ps

unfoldable pub is_unresolved : Text → Bool
is_unresolved why = has_prefix why (txt "Couldn't find host")

abbrev pub name_of : Option Bytes → Bytes
name_of none = txt "no such user"
name_of (some n) = n

-- The ids on the command line, and the checks on the flags.
abbrev pub is_nil : List Bytes → Bool
is_nil [] = true
is_nil (i ∷ is) = false

unfoldable pub check_flags : Flags → List Bytes → Result (Unit {0})
check_flags flags given =
    if lt_ℤ flags.settle (pos 0)
    then fail (usage (txt "--settle needs a number of seconds"))
    else if flags.unresolved && not flags.del
    then fail (usage (txt "--delete-unresolved needs --delete"))
    else if flags.del && (flags.no_dns && is_nil given)
    then fail (
        usage (
          txt
            "--delete with --no-dns would skip the address check; pass connection ids or drop --no-dns"))
    else ok tt

unfoldable pub given_ids : Ids → Result (List Bytes)
given_ids (ids given) = ok given
given_ids no_ids = fail (
    usage
      (txt "no ids on stdin; to check every connection, run it on a terminal (over ssh: ssh -t)"))
given_ids (unreadable e) = fail (external 0 e)

unfoldable pub has_row : Bytes → List Row → Bool
has_row id [] = false
has_row id (r ∷ rs) = r.id == id || has_row id rs

unfoldable pub report_missing : List Bytes → List Row → Act (Unit {0})
report_missing [] rows = pure tt
report_missing (id ∷ given) rows =
    (if has_row id rows then pure tt else print (no_such_connection id))
    >> report_missing given rows

-- `checkedConn`, as far as it is used behind its line.
pub record Invalid : Type 0 where
  pub id : Bytes
  pub unresolved : Bool

-- The number of valid connections, and the invalid ones.
abbrev pub Judged : Type 0
Judged = ℕ × List Invalid

abbrev pub natural : ℤ → ℕ
natural (pos n) = n
natural (negsuc n) = 0

module _ (tables : Tables) (platform : Platform) (dns : Bool) where
  abbrev pub judge : (Judged → Act Judged) → Row → Judged → Problem → Act Judged
  judge rest r (good, bad) no_problem = rest (suc good, bad)
  judge rest r (good, bad) (problem why) =
      print (invalid_line r.id r.user (name_of r.username) (host_port tables r.config) why)
      >> rest (good, bad ++ (record { id = r.id; unresolved = is_unresolved why } ∷ []))

  -- The loop over the rows.
  unfoldable pub judge_each : List Row → Judged → Act Judged
  judge_each [] j = pure j
  judge_each (r ∷ rs) j =
      judge (judge_each rs) r j (connection_problem tables platform r.config dns)

-- The connections to delete, and how many unresolved ones are kept.
unfoldable pub targets : Bool → List Invalid → List Bytes
targets unresolved [] = []
targets unresolved (c ∷ cs) =
    let rest = targets unresolved cs in if c.unresolved && not unresolved then rest else c.id ∷ rest

unfoldable pub kept : Bool → List Invalid → ℕ
kept unresolved [] = 0
kept unresolved (c ∷ cs) =
    let rest = kept unresolved cs in if c.unresolved && not unresolved then suc rest else rest

abbrev pub if_kept : ℕ → Act (Unit {0})
if_kept zero = pure tt
if_kept (suc n) = print (kept_line (suc n))

abbrev pub skipped_error : ℕ → Option Error → Result (Unit {0})
skipped_error n (some e) = fail e
skipped_error zero none = ok tt
skipped_error (suc n) none = fail (connections_skipped (suc n))

abbrev pub if_invalid : List Invalid → Act (Unit {0})
if_invalid [] = pure tt
if_invalid (c ∷ cs) = print dry_run_invalid

module _ (world : Outside) (client : Client) where
  abbrev pub behind_tally : Tally → Act (Unit {0})
  behind_tally t =
      print (deleted_total t.deleted t.skipped) >> done (skipped_error t.skipped t.error)

  -- `destroyAndDelete`, with the totals and the end of both commands.
  unfoldable pub delete_and_report : ℕ → List Bytes → Act (Unit {0})
  delete_and_report settle [] h = (ok tt, h)
  delete_and_report settle (id ∷ rest) h =
      let (t, h') = destroy_and_delete world client connection_tables settle (id ∷ rest) h in
      behind_tally t h'

  unfoldable pub delete_invalid : Flags → List Invalid → Act (Unit {0})
  delete_invalid flags bad =
      if_kept (kept flags.unresolved bad)
      >> delete_and_report (natural flags.settle) (targets flags.unresolved bad)

  -- Behind the loop.
  unfoldable pub behind_judged : Flags → ℕ → Judged → Act (Unit {0})
  behind_judged flags n (good, bad) =
      print (checked_total n good (length bad) flags.no_dns)
      >> (if flags.del then delete_invalid flags bad else if_invalid bad)

  module _ (tables : Tables) (platform : Platform) where
    unfoldable pub check_rows : Flags → List Bytes → List Row → Act (Unit {0})
    check_rows flags given rows =
        report_missing given rows
        >> (judge_each tables platform (not flags.no_dns) rows (0, [])
            >>= behind_judged flags (length rows))

    -- `checkConnections`, behind the parsing of the flags.
    unfoldable pub check_connections :
        Flags → Ids → (List Bytes → Result (List Row)) → Act (Unit {0})
    check_connections flags read query = done (given_ids read) >>= λ given.
        (done (check_flags flags given) >> (done (query given) >>= check_rows flags given))
