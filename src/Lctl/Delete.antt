-- ===== src/Lctl/Delete.antt =====
-- internal/lctl/check_connections.go: `destroyAndDelete`, which check-connections and
-- delete-connections end with. It returns two counts and an error, all three at every return, so
-- it is a function of the trace that yields a `Tally`.
pub mod Guarded
pub mod Safe
pub mod Counts
pub mod Only
use lierc_api.Base.{
  ℕ, zero, suc, ◌++◌, List, [], ◌∷◌, Option, none, some, Bytes, if◌then◌else◌, ltb, txt, Bool, true,
  false, length,
}
use lierc_api.World.{
  Outside, Result, ok, fail, Error, Trace, printed, slept, deleted_from, committed, swept,
  skipped_line, nothing_deleted, deleted_line, late_rows,
}
use lierc_api.Liercd.{Client}
use lierc_api.Lctl.Instance.{destroy_on}

pub record Tally : Type 0 where
  pub deleted : ℕ
  pub skipped : ℕ
  pub error : Option Error

-- `connectionTables`
abbrev pub connection_tables : List Bytes
connection_tables = txt "log" ∷ txt "seen" ∷ txt "private" ∷ txt "connection" ∷ []

module _ (world : Outside) (client : Client) where
  -- `tx.Commit(ctx)`, with the counts.
  unfoldable pub commit : Bytes → List ℕ → Option Error → Trace → Result (List ℕ) × Trace
  commit id counts none h = (ok counts, committed id true ∷ h)
  commit id counts (some e) h = (fail e, committed id false ∷ h)

  -- The loop over the tables; an error rolls the transaction back.
  unfoldable pub delete_tables : Bytes → List Bytes → List ℕ → Trace → Result (List ℕ) × Trace
  delete_tables id [] counts h = commit id counts (world.commit_error h) h
  delete_tables id (table ∷ tables) counts h = elim (world.delete_from h table id) [
    | fail e ↦ (fail e, committed id false ∷ deleted_from table id ∷ h)
    | ok n ↦ delete_tables id tables (counts ++ (n ∷ [])) (deleted_from table id ∷ h)
  ]

  -- `deleteRows`
  unfoldable pub delete_rows : List Bytes → Bytes → Trace → Result (List ℕ) × Trace
  delete_rows tables id h = elim (world.begin_error h) [
    | some e ↦ (fail e, h)
    | none ↦ delete_tables id tables [] h
  ]

  -- The sweep of log rows that arrived late, of the connections that were deleted.
  unfoldable pub swept_ok : List Bytes → ℕ → Result ℕ → Trace → Tally × Trace
  swept_ok done skipped (fail e) h =
      (record { deleted = length done; skipped = skipped; error = some e }, h)
  swept_ok done skipped (ok zero) h =
      (record { deleted = length done; skipped = skipped; error = none }, h)
  swept_ok done skipped (ok (suc n)) h = (
    record { deleted = length done; skipped = skipped; error = none },
    printed (late_rows (suc n)) ∷ h,
  )

  unfoldable pub sweep_late : List Bytes → ℕ → Trace → Tally × Trace
  sweep_late [] skipped h = (record { deleted = 0; skipped = skipped; error = none }, h)
  sweep_late (id ∷ ids) skipped h =
      swept_ok (id ∷ ids) skipped (world.sweep h (id ∷ ids)) (swept (id ∷ ids) ∷ h)

  -- A failed transaction is reported and the connection skipped; `rest` is the loop's next round.
  abbrev pub after_rows :
      (List Bytes → ℕ → Trace → Tally × Trace)
      → Bytes
      → List Bytes
      → ℕ
      → Result (List ℕ)
      → Trace
      → Tally × Trace
  after_rows rest id done skipped (fail e) h =
      rest done (suc skipped) (printed (nothing_deleted id e) ∷ h)
  after_rows rest id done skipped (ok counts) h =
      rest (done ++ (id ∷ [])) skipped (printed (deleted_line id counts) ∷ h)

  -- The loop over the connections that were destroyed; `done` are those deleted so far.
  unfoldable pub delete_each : List Bytes → List Bytes → List Bytes → ℕ → Trace → Tally × Trace
  delete_each tables [] done skipped h = sweep_late done skipped h
  delete_each tables (id ∷ ids) done skipped h = elim (world.context_error h) [
    | some e ↦ (record { deleted = length done; skipped = skipped; error = some e }, h)
    | none ↦
        let (r, h') = delete_rows tables id h in
        after_rows (delete_each tables ids) id done skipped r h'
  ]

  -- The wait for QUIT messages, once something was destroyed.
  unfoldable pub wait_and_delete : List Bytes → ℕ → List Bytes → ℕ → Trace → Tally × Trace
  wait_and_delete tables settle [] skipped h =
      (record { deleted = 0; skipped = skipped; error = none }, h)
  wait_and_delete tables settle (id ∷ ids) skipped h = elim (world.sleep_error h settle) [
    | some e ↦ (record { deleted = 0; skipped = skipped; error = some e }, slept settle ∷ h)
    | none ↦ delete_each tables (id ∷ ids) [] skipped (slept settle ∷ h)
  ]

  -- `destroy`, through the routed client: a problem as its error.
  abbrev pub problem_of : Result (Result Bool) → Result Bool
  problem_of (ok r) = r
  problem_of (fail e) = fail e

  unfoldable pub destroy : Bytes → Trace → Result Bool × Trace
  destroy id h = let (r, h') = destroy_on world client id h in (problem_of r, h')

  -- A failed destroy is reported and the connection skipped; `rest` is the loop's next round.
  abbrev pub after_destroy :
      (List Bytes → ℕ → Trace → Tally × Trace)
      → Bytes
      → List Bytes
      → ℕ
      → Result Bool
      → Trace
      → Tally × Trace
  after_destroy rest id ready skipped (fail e) h =
      rest ready (suc skipped) (printed (skipped_line id e) ∷ h)
  after_destroy rest id ready skipped (ok _) h = rest (ready ++ (id ∷ [])) skipped h

  -- The loop that destroys each connection; `ready` are those destroyed so far.
  unfoldable pub destroy_each : List Bytes → ℕ → List Bytes → List Bytes → ℕ → Trace → Tally × Trace
  destroy_each tables settle [] ready skipped h = wait_and_delete tables settle ready skipped h
  destroy_each tables settle (id ∷ ids) ready skipped h =
      let (r, h') = destroy id h in
      after_destroy (destroy_each tables settle ids) id ready skipped r h'

  -- `destroyAndDelete`
  unfoldable pub destroy_and_delete : List Bytes → ℕ → List Bytes → Trace → Tally × Trace
  destroy_and_delete tables settle ids h = destroy_each tables settle ids [] 0 h
