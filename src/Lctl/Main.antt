-- ===== src/Lctl/Main.antt =====
-- internal/lctl/lctl.go: `mainWith`, the exit codes of the command, and `ReadIDs`. The commands are
-- their names in order, and what `Run` returns is an argument. The lines of stdin, as the scanner
-- cuts them, and `strings.TrimSpace` are arguments too.
pub mod Exits
use lierc_api.Base.{
  ℕ, ◌++◌, Bool, true, false, ◌||◌, List, [], ◌∷◌, Option, none, some, Bytes, if◌then◌else◌, ◌==◌,
  nat_eq, list_eq, txt,
}

-- What `Run` returns: nil, `flag.ErrHelp`, a `UsageError` or another error.
pub data End : Type 0 where
  success : End
  help_asked : End
  misused : Bytes → End
  broke : Bytes → End

-- What `mainWith` does, newest last.
pub data Deed : Type 0 where
  help_out : Deed
  help_err : Deed
  complained : Bytes → Deed
  opened : Deed
  ran : Bytes → List Bytes → Deed
  released : Deed

unfoldable pub is_help : Bytes → Bool
is_help a = a == txt "help" || (a == txt "-h" || a == txt "--help")

-- The loop over the commands: the last one with the name.
unfoldable pub find_command : Bytes → List Bytes → Option Bytes → Option Bytes
find_command name [] found = found
find_command name (c ∷ cs) found = find_command name cs (if c == name then some c else found)

-- The exit code, and what is printed, by the `switch`.
unfoldable pub exit_code : End → ℕ
exit_code success = 0
exit_code help_asked = 0
exit_code (misused _) = 2
exit_code (broke _) = 1

abbrev pub complaint : End → List Deed
complaint success = []
complaint help_asked = []
complaint (misused []) = complained (txt "usage") ∷ []
complaint (misused (c ∷ cs)) = complained (c ∷ cs) ∷ complained (txt "usage") ∷ []
complaint (broke e) = complained e ∷ []

module _ (commands : List Bytes) (open_error : Option Bytes) (run : Bytes → List Bytes → End) where
  -- Behind the environment: `defer release()` runs after the complaint.
  unfoldable pub run_command : Bytes → List Bytes → Option Bytes → ℕ × List Deed
  run_command name args (some e) = (1, complained e ∷ [])
  run_command name args none = (
    exit_code (run name args),
    opened ∷ ran name args ∷ (complaint (run name args) ++ (released ∷ [])),
  )

  unfoldable pub run_found : List Bytes → Bytes → Option Bytes → ℕ × List Deed
  run_found args name none = (2, complained name ∷ help_err ∷ [])
  run_found args name (some command) = run_command command args open_error

  -- `mainWith`
  unfoldable pub main_with : List Bytes → ℕ × List Deed
  main_with [] = (0, help_out ∷ [])
  main_with (a ∷ args) =
      if is_help a then (0, help_out ∷ []) else run_found args a (find_command a commands none)

-- `ReadIDs`
pub data Ids : Type 0 where
  ids : List Bytes → Ids
  no_ids : Ids
  unreadable : Bytes → Ids

unfoldable pub not_blank : (Bytes → Bytes) → List Bytes → List Bytes
not_blank trim [] = []
not_blank trim (l ∷ ls) =
    let rest = not_blank trim ls in if trim l == [] then rest else trim l ∷ rest

abbrev pub some_ids : List Bytes → Ids
some_ids [] = no_ids
some_ids (l ∷ ls) = ids (l ∷ ls)

abbrev pub scanned : List Bytes → Option Bytes → Ids
scanned found (some e) = unreadable e
scanned found none = some_ids found

unfoldable pub read_ids : (Bytes → Bytes) → Bool → List Bytes → Option Bytes → List Bytes → Ids
read_ids trim terminal lines scan_error (a ∷ args) = ids (a ∷ args)
read_ids trim true lines scan_error [] = ids []
read_ids trim false lines scan_error [] = scanned (not_blank trim lines) scan_error
