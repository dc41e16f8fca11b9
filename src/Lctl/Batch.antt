-- ===== src/Lctl/Batch.antt =====
-- internal/lctl/move_connections.go: the move of every connection of an instance, in batches. The
-- rows of `connectionsOn` are an argument; a duration is a number.
pub mod DryRun
pub mod Moves
use lierc_api.Base.{
  ℕ, zero, suc, ◌+◌, ◌-◌, ◌%◌, Bool, true, false, not, ◌&&◌, ◌||◌, List, [], ◌∷◌, Option, none,
  some, Bytes, length, take, ltb, if◌then◌else◌, ◌==◌, nat_eq, list_eq, txt, ℤ, pos, negsuc, lt_ℤ,
}
use lierc_api.World.{
  Outside, Act, Result, ok, fail, Error, Line, get, pure, raise, done, attempt, print, wait, ◌>>=◌,
  ◌>>◌, usage, no_next_host, asking, bad_status, stopped_after, pausing, no_connections_on,
  no_dormant_on, would_move, listed, run_again, moved_total, left_running, started_total,
}
use lierc_api.Liercd.{Client, Response, request, pinned, status_path}
use lierc_api.Lctl.Move.{move_one}

pub record Flags : Type 0 where
  pub move : Bool
  pub dormant_only : Bool
  pub batch : ℤ
  pub pause : ℤ
  pub limit : ℤ

-- The `id` and `username` of `connOwner`.
abbrev pub Owner : Type 0
Owner = Bytes × Bytes

unfoldable pub is_instance : Bytes → Bool
is_instance name = name == txt "main" || name == txt "next"

-- The checks on the command line.
unfoldable pub check_flags : Flags → Bytes → Bytes → Result Unit
check_flags flags source target =
    if not (is_instance source)
    then fail (usage (txt "instances are main or next"))
    else if not (is_instance target)
    then fail (usage (txt "instances are main or next"))
    else if source == target
    then fail (usage (txt "the instances must differ"))
    else if lt_ℤ flags.batch (pos 1)
    then fail (usage (txt "--batch must be at least 1"))
    else if lt_ℤ flags.limit (pos 0)
    then fail (usage (txt "--limit can't be negative"))
    else if lt_ℤ flags.pause (pos 0)
    then fail (usage (txt "--pause can't be negative"))
    else ok tt

-- A flag that the checks have found not to be negative.
abbrev pub natural : ℤ → ℕ
natural (pos n) = n
natural (negsuc n) = 0

-- `if *limit > 0 && *limit < len(todo) { todo = todo[:*limit] }`
unfoldable pub limited {ℓ} : {A : Type ℓ} → ℕ → List A → List A
limited limit conns = if ltb 0 limit && ltb limit (length conns) then take limit conns else conns

-- The status of a connection, for `dormantOn`: whether it runs.
unfoldable pub runs_there : Bytes → Bytes → Result Response → Result Bool
runs_there inst id (fail e) = fail (asking inst id e)
runs_there inst id (ok res) =
    if res.status == 200
    then ok true
    else if res.status == 404
    then ok false
    else fail (asking inst id (bad_status res.status))

abbrev pub sort_out : Owner → Bool → List Owner × ℕ → List Owner × ℕ
sort_out c true (dormant, running) = (dormant, suc running)
sort_out c false (dormant, running) = (c ∷ dormant, running)

module _ (world : Outside) where
  -- The loop of `dormantOn`: those that don't run, and how many do.
  unfoldable pub ask_each : Client → Bytes → List Owner → Act (List Owner × ℕ)
  ask_each lc inst [] = pure ([], 0)
  ask_each lc inst (c ∷ cs) = do
    res ← attempt (request world lc get (status_path c.0) none)
    running ← done (runs_there inst c.0 res)
    rest ← ask_each lc inst cs
    pure (sort_out c running rest)

  unfoldable pub dormant_on : Client → Bytes → List Owner → Act (List Owner × ℕ)
  dormant_on client inst conns = do lc ← done (pinned client inst); ask_each lc inst conns

  -- The lines of a dry run.
  unfoldable pub list_each : List Owner → Act Unit
  list_each [] = print run_again
  list_each ((id, username) ∷ cs) = print (listed id username) >> list_each cs

module _ (world : Outside) (client : Client) (next_host target : Bytes)
    (batch pause total : ℕ) where
  -- Behind a connection that was started: a pause after each batch, but not after the last one.
  unfoldable pub rest_of_batch : ℕ → ℕ → Act ℕ → Act ℕ
  rest_of_batch i started rest =
      if started % batch == 0 && ltb (suc i) total
      then (do
        print (pausing started pause)
        slept_well ← attempt (wait world pause)
        elim slept_well [
          | fail e ↦ print (stopped_after (suc i) total none) >> raise e
          | ok _ ↦ rest
        ])
      else rest

  -- What becomes of one `moveOne`; `rest` is the next round, from the number started.
  unfoldable pub behind_move : Bytes → ℕ → ℕ → (ℕ → Act ℕ) → Result Bool → Act ℕ
  behind_move id i started rest (fail e) = print (stopped_after i total (some (id, e))) >> raise e
  behind_move id i started rest (ok false) = rest started
  behind_move id i started rest (ok true) = rest_of_batch i (suc started) (rest (suc started))

  unfoldable pub unless_cancelled : ℕ → Option Error → Act ℕ → Act ℕ
  unless_cancelled i (some e) rest = print (stopped_after i total none) >> raise e
  unless_cancelled i none rest = rest

  -- `for i, c := range todo`: how many were started.
  unfoldable pub move_each : List Owner → ℕ → ℕ → Act ℕ
  move_each [] i started h = (ok started, h)
  move_each (c ∷ cs) i started h =
      unless_cancelled i (world.context_error h)
        (do
          res ← attempt (move_one world client next_host c.0 target)
          behind_move c.0 i started (move_each cs (suc i)) res)
        h

abbrev pub print_if_some : ℕ → Line → Act Unit
print_if_some zero line = pure tt
print_if_some (suc n) line = print line

module _ (world : Outside) (client : Client) (next_host : Bytes) (flags : Flags)
    (source target : Bytes) where
  -- The lines at the end.
  unfoldable pub report : ℕ → ℕ → ℕ → ℕ → Act Unit
  report todo left running started =
      print (moved_total todo left)
      >> print_if_some running (left_running running)
      >> print_if_some (todo - started) (started_total started (todo - started))

  unfoldable pub move_all : List Owner → ℕ → ℕ → Act Unit
  move_all todo left running = do
    started ←
        move_each world client next_host target (natural flags.batch) (natural flags.pause)
          (length todo) todo 0 0
    report (length todo) left running started

  unfoldable pub dry_run : List Owner → ℕ → Act Unit
  dry_run todo picked = print (would_move (length todo) picked) >> list_each world todo

  -- From the choice of `todo` on; nothing is picked only with --dormant.
  unfoldable pub behind_picked : List Owner × ℕ → Act Unit
  behind_picked ([], running) = print (no_dormant_on source running)
  behind_picked (c ∷ cs, running) =
      let todo = limited (natural flags.limit) (c ∷ cs) in
      if not flags.move
      then dry_run todo (length (c ∷ cs))
      else if target == txt "next" && next_host == []
      then raise no_next_host
      else move_all todo (length (c ∷ cs) - length todo) running

  unfoldable pub pick : List Owner → Act (List Owner × ℕ)
  pick conns = if flags.dormant_only then dormant_on world client source conns else pure (conns, 0)

  unfoldable pub behind_query : List Owner → Act Unit
  behind_query [] = print (no_connections_on source)
  behind_query (c ∷ cs) = do picked ← pick (c ∷ cs); behind_picked picked

  -- `moveConnections`, behind the parsing of the flags.
  unfoldable pub move_connections : Result (List Owner) → Act Unit
  move_connections query = do
    done (check_flags flags source target)
    conns ← done query
    behind_query conns
