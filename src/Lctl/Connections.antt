-- ===== src/Lctl/Connections.antt =====
-- internal/lctl/delete_connections.go: `deleteConnections`. The flags as parsed, the end of
-- `ReadIDs` and the answers of Postgres are arguments.
use lierc_api.Base.{
  ℕ, ◌++◌, Bool, List, [], ◌∷◌, Option, none, some, Bytes, ℤ, pos, lt_ℤ, if◌then◌else◌, txt,
}
use lierc_api.Connconfig.Clean.{Tables}
use lierc_api.World.{
  Outside, Act, Result, ok, fail, Trace, pure, done, print, ◌>>=◌, ◌>>◌, usage, external,
  no_such_connection, connection_line, dry_run,
}
use lierc_api.Liercd.{Client}
use lierc_api.Lctl.Main.{Ids, ids, no_ids, unreadable}
use lierc_api.Lctl.Delete.{connection_tables}
use lierc_api.Lctl.Users.{ask}
use lierc_api.Lctl.Check.{Row, name_of, host_port, natural, delete_and_report}

pub record ConnectionStore : Type 0 where
  pub row : Trace → Bytes → Result (Option Row)
  pub count_rows : Trace → Bytes → Bytes → Result ℕ

-- The checks on the command line.
abbrev pub some_given : List Bytes → Result (List Bytes)
some_given [] = fail (usage (txt "give connection ids as arguments or on stdin"))
some_given (i ∷ is) = ok (i ∷ is)

unfoldable pub read_given : Ids → Result (List Bytes)
read_given (ids given) = some_given given
read_given no_ids = some_given []
read_given (unreadable e) = fail (external 0 e)

unfoldable pub check_settle : ℤ → Result (Unit {0})
check_settle settle =
    if lt_ℤ settle (pos 0) then fail (usage (txt "--settle needs a number of seconds")) else ok tt

module _ (store : ConnectionStore) (tables : Tables) where
  unfoldable pub count_each : Bytes → List Bytes → Act (List ℕ)
  count_each id [] = pure []
  count_each id (t ∷ ts) =
      ask (λ h. store.count_rows h t id) >>= λ n. (count_each id ts >>= λ counts. pure (n ∷ counts))

  abbrev pub show_row : Bytes → Row → List ℕ → Act (Unit {0})
  show_row id r counts =
      print (connection_line id r.user (name_of r.username) (host_port tables r.config) counts)

  -- The loop over the ids; `rest` is its next round.
  abbrev pub behind_row :
      (List Bytes → Act (List Bytes)) → Bytes → List Bytes → Option Row → Act (List Bytes)
  behind_row rest id found none = print (no_such_connection id) >> rest found
  behind_row rest id found (some r) =
      (count_each id connection_tables >>= show_row id r) >> rest (found ++ (id ∷ []))

  unfoldable pub find_rows : List Bytes → List Bytes → Act (List Bytes)
  find_rows [] found = pure found
  find_rows (id ∷ given) found = ask (λ h. store.row h id) >>= behind_row (find_rows given) id found

  module _ (world : Outside) (client : Client) where
    unfoldable pub behind_rows : Bool → ℕ → List Bytes → Act (Unit {0})
    behind_rows del settle found =
        if del then delete_and_report world client settle found else print dry_run

    -- `deleteConnections`
    unfoldable pub delete_connections : Bool → ℤ → Ids → Act (Unit {0})
    delete_connections del settle read =
        done (check_settle settle)
        >> (done (read_given read) >>= λ given.
            (find_rows given [] >>= behind_rows del (natural settle)))
