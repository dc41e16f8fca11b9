-- ===== src/Lctl/Running.antt =====
-- internal/lctl: the loops of reconnect.go, revive.go and stop_inactive.go over the connections
-- that a command has found. The rows of a query are arguments.
pub mod Restarted
pub mod Counted
use lierc_api.Base.{
  ℕ, zero, suc, ◌+◌, ◌%◌, Bool, true, false, ◌&&◌, List, [], ◌∷◌, Option, none, some, Bytes, length,
  leb, ltb, if◌then◌else◌, ◌==◌, nat_eq, list_eq, txt,
}
use lierc_api.World.{
  Outside, Act, Result, ok, fail, Error, Line, Trace, get, post, pure, raise, done, attempt, print,
  wait, ◌>>=◌, ◌>>◌, unless_error, reconnected, failure, totals, count_failed, failed_to_start,
  bad_status, pausing, started_line, refused_line, no_response,
}
use lierc_api.Liercd.{Client, Response, request, pinned, status_path, create_path, destroy_path}
use lierc_api.Lctl.Instance.{reconnect_one}

-- The number that succeeded and the number that failed.
abbrev pub Tally : Type 0
Tally = ℕ × ℕ

abbrev pub succeeded : Tally → Tally
succeeded (s, f) = (suc s, f)

abbrev pub failed : Tally → Tally
failed (s, f) = (s, suc f)

-- `if failed > 0 { return fmt.Errorf(...) }`
abbrev pub unless_failed : ℕ → ℕ → Act Unit
unless_failed zero total = pure tt
unless_failed (suc f) total = raise (count_failed (suc f) total)

abbrev pub unless_not_started : ℕ → Act Unit
unless_not_started zero = pure tt
unless_not_started (suc f) = raise (failed_to_start (suc f))

module _ (world : Outside) (client : Client) where
  abbrev pub context : Act Unit
  context h = (unless_error (world.context_error h), h)

  unfoldable pub behind_reconnect : Bytes → (Tally → Act Tally) → Tally → Result Unit → Act Tally
  behind_reconnect id rest tally (fail e) = print (failure e) >> rest (failed tally)
  behind_reconnect id rest tally (ok _) = print (reconnected id) >> rest (succeeded tally)

  -- The loop of `reconnect`.
  unfoldable pub reconnect_each : List Bytes → Tally → Act Tally
  reconnect_each [] tally h = (ok tally, h)
  reconnect_each (id ∷ ids) tally h =
      (do
        context
        res ← attempt (reconnect_one world client id)
        behind_reconnect id (reconnect_each ids) tally res)
        h

  -- `reconnect`, behind the reading of the ids.
  unfoldable pub reconnect : List Bytes → Act Unit
  reconnect ids = do
    tally ← reconnect_each ids (0, 0)
    print (totals tally.0 tally.1)
    unless_failed tally.1 (length ids)

  -- What a status of 200 is to `revive`: the connection runs.
  abbrev pub runs_now : Result Response → Bool
  runs_now (fail e) = false
  runs_now (ok res) = res.status == 200

  -- The pause before each batch but the first.
  unfoldable pub pause_before : ℕ → ℕ → ℕ → Act Unit
  pause_before batch pause n =
      if ltb 0 n && n % batch == 0 then (print (pausing n pause) >> wait world pause) else pure tt

  unfoldable pub behind_create : Bytes → (Tally → Act Tally) → Tally → Result Response → Act Tally
  behind_create id rest tally (fail e) = print (no_response id e) >> rest (failed tally)
  behind_create id rest tally (ok res) =
      if res.status == 200
      then print (started_line id) >> rest (succeeded tally)
      else print (refused_line id res.status) >> rest (failed tally)

  unfoldable pub behind_status :
      ℕ → ℕ → Bytes → Bytes → (Tally → Act Tally) → Tally → Result Response → Act Tally
  behind_status batch pause id config rest tally res = if runs_now res then rest tally else (do
    pause_before batch pause (tally.0 + tally.1)
    created ← attempt (request world client post (create_path id) (some config))
    behind_create id rest tally created)

  -- The loop of `revive` over ids and configs.
  unfoldable pub revive_each : ℕ → ℕ → List (Bytes × Bytes) → Tally → Act Tally
  revive_each batch pause [] tally h = (ok tally, h)
  revive_each batch pause ((id, config) ∷ cs) tally h =
      (do
        context
        res ← attempt (request world client get (status_path id) none)
        behind_status batch pause id config (revive_each batch pause cs) tally res)
        h

  unfoldable pub revive : ℕ → ℕ → List (Bytes × Bytes) → Act Unit
  revive batch pause conns = do
    tally ← revive_each batch pause conns (0, 0)
    print (totals tally.0 tally.1)
    unless_not_started tally.1
