-- ===== src/Lctl/Prune.antt =====
-- internal/lctl/prune.go: `pruneLogs` with --delete. Of the log table the model has the number of rows
-- by connection, as the query finds the connections that are gone, and what others do to it meanwhile:
-- rows that are logged late, and a connection that is there again. Each of these, and whether a
-- statement or the context fails, is an argument, by the number of statements before.
pub mod Emptied
use lierc_api.Base.{
  ℕ, zero, suc, ◌+◌, ◌-◌, ◌≤◌, min, Bool, true, false, List, [], ◌∷◌, Option, none, some, length,
  ltb, if◌then◌else◌,
}
use lierc_api.World.{Error}

-- The rows that each statement deleted, newest first; of each connection that is done, the number of
-- its last statement and the rows left by it; and the rows by connection of those to come.
pub record Pruned : Type 0 where
  pub total : ℕ
  pub statements : List ℕ
  pub finished : List (ℕ × ℕ)
  pub left : List ℕ

pub data End : Type 0 where
  deleted : Pruned → End
  -- interrupted, with the line that says how many rows were deleted
  interrupted : Error → Pruned → End
  failed : Error → Pruned → End
  out_of_fuel : End

pub record Meanwhile : Type 0 where
  pub context_error : ℕ → Option Error
  pub delete_error : ℕ → Option Error
  -- the rows logged for the statement's connection since its last statement, or since the query
  pub arrived : ℕ → ℕ
  -- whether the statement's connection is in the table of connections
  pub is_back : ℕ → Bool

-- The rows that the DELETE takes of the `n` of the connection: LIMIT gives at most a batch, and NOT
-- EXISTS none where the connection is there.
abbrev pub affected : ℕ → Bool → ℕ → ℕ
affected batch back n = if back then 0 else min batch n

module _ (meanwhile : Meanwhile) (batch : ℕ) where
  abbrev pub Next : Type 0
  Next = ℕ → List ℕ → List (ℕ × ℕ) → End

  -- One DELETE of a connection with `n` rows: `rest` is the loop's next round, and `next` goes on
  -- behind the loop.
  abbrev pub behind_batch :
      (ℕ → ℕ → List ℕ → End) → Next → Bool → ℕ → ℕ → List ℕ → List (ℕ × ℕ) → End
  behind_batch rest next back n total ss done =
      let k = affected batch back n in
      let more = rest (n - k) (total + k) (k ∷ ss) in
      let on = next (total + k) (k ∷ ss) ((length ss, n - k) ∷ done) in
      if ltb k batch then on else more

  abbrev pub statement : Option Error → Option Error → End → (Error → End) → (Error → End) → End
  statement (some e) _ go stop fault = stop e
  statement none (some e) go stop fault = fault e
  statement none none go stop fault = go

  -- The inner loop, with the rows of the connections to come.
  unfoldable pub prune_one : ℕ → List ℕ → Next → List (ℕ × ℕ) → ℕ → ℕ → List ℕ → End
  prune_one zero others next done n total ss = out_of_fuel
  prune_one (suc fuel) others next done n total ss =
      let here : Pruned = record {
        total = total;
        statements = ss;
        finished = done;
        left = n ∷ others;
      } in
      statement (meanwhile.context_error (length ss)) (meanwhile.delete_error (length ss))
        (behind_batch (prune_one fuel others next done) next (meanwhile.is_back (length ss))
          (n + meanwhile.arrived (length ss)) total ss done)
        (λ e. interrupted e here) (λ e. failed e here)

  -- The loop over the connections, each of which is given the same fuel.
  unfoldable pub prune_each : ℕ → List ℕ → Next
  prune_each fuel [] total ss done =
      deleted (record { total = total; statements = ss; finished = done; left = [] })
  prune_each fuel (n ∷ ns) total ss done = prune_one fuel ns (prune_each fuel ns) done n total ss

  -- `pruneLogs` with --delete, of the numbers of rows that the query leads to.
  unfoldable pub prune_logs : ℕ → List ℕ → End
  prune_logs fuel rows = prune_each fuel rows 0 [] []
