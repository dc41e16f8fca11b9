-- ===== src/Lctl/Delete/Safe.antt =====
-- internal/lctl/check_connections.go: `destroyAndDelete` deletes nothing before its turn.
use lierc_api.Base.{
  ℕ, zero, suc, ◌≡◌, refl, ◌++◌, Bool, true, false, List, [], ◌∷◌, Option, none, some, Bytes, All,
  All-append, length, nat_eq, list_eq, eqb_refl,
}
use lierc_api.World.{
  Outside, Result, ok, fail, Error, Trace, printed, slept, deleted_from, committed, swept,
  skipped_line, nothing_deleted, deleted_line, late_rows,
}
use lierc_api.Liercd.{Client}
use lierc_api.Lctl.Delete.{
  Tally, commit, delete_tables, delete_rows, swept_ok, sweep_late, after_rows, delete_each,
  wait_and_delete, destroy, after_destroy, destroy_each, destroy_and_delete,
}
use lierc_api.Lctl.Delete.Guarded.{
  happened, is_destroy, is_commit, Allowed, Guarded, Keeps, Keeps-more, Keeps-refl, Keeps-trans,
  Keeps-happened, destroy_lem, destroy-Keeps,
}

module _ (world : Outside) (client : Client) where
  -- The end of a transaction for `id`: nothing out of turn, and a commit where it says so.
  abbrev Ended : Bytes → Trace → Result (List ℕ) × Trace → Type 0
  Ended id h q =
      Keeps h q.1 × ((counts : List ℕ) → q.0 ≡ ok counts → happened (is_commit id) q.1 ≡ true)

  commit-Ended :
      (id : Bytes) (counts : List ℕ) (e : Option Error) (h : Trace)
      → Ended id h (commit world client id counts e h)
  unfolding commit Allowed is_commit
  commit-Ended id counts none h =
      (Keeps-more (committed id true) h h (Keeps-refl h) tt, λ c z. rw (eqb_refl id) refl)
  commit-Ended id counts (some e) h =
      (Keeps-more (committed id false) h h (Keeps-refl h) tt, λ c z. cc)

  delete_tables-Ended :
      (id : Bytes) (tables : List Bytes) (counts : List ℕ) (h : Trace)
      → happened (is_destroy id) h ≡ true
      → Ended id h (delete_tables world client id tables counts h)
  unfolding delete_tables Allowed
  delete_tables-Ended id [] counts h d = commit-Ended id counts (world.commit_error h) h
  delete_tables-Ended id (table ∷ tables) counts h d = removed (world.delete_from h table id) (λ n.
      delete_tables-Ended id tables (counts ++ (n ∷ [])) (deleted_from table id ∷ h)
        (one.1 (is_destroy id) d))
    where
      one : Keeps h (deleted_from table id ∷ h)
      one = Keeps-more (deleted_from table id) h h (Keeps-refl h) d

      removed :
          (r : Result ℕ)
          → ((n : ℕ)
              → Ended id (deleted_from table id ∷ h) (
                  delete_tables world client id tables
                    (counts ++ (n ∷ []))
                    (deleted_from table id ∷ h)))
          → Ended id h (elim r [
            | fail e ↦ (fail e, committed id false ∷ deleted_from table id ∷ h)
            | ok n ↦
                delete_tables world client id tables
                  (counts ++ (n ∷ []))
                  (deleted_from table id ∷ h)
          ])
      removed (fail e) ih =
          (Keeps-more (committed id false) h (deleted_from table id ∷ h) one tt, λ c z. cc)
      removed (ok n) ih = (Keeps-trans h (deleted_from table id ∷ h) _ one (ih n).0, (ih n).1)

  delete_rows-Ended :
      (id : Bytes) (tables : List Bytes) (h : Trace)
      → happened (is_destroy id) h ≡ true
      → Ended id h (delete_rows world client tables id h)
  unfolding delete_rows
  delete_rows-Ended id tables h d = begun (world.begin_error h)
    where
      begun :
          (e : Option Error)
          → Ended id h
              (elim e [ some x ↦ (fail x, h) | none ↦ delete_tables world client id tables [] h ])
      begun (some x) = (Keeps-refl h, λ c z. cc)
      begun none = delete_tables-Ended id tables [] h d

  sweep_late-Keeps :
      (done : List Bytes) (skipped : ℕ) (h : Trace)
      → All (λ id. happened (is_commit id) h ≡ true) done
      → Keeps h (sweep_late world client done skipped h).1
  unfolding sweep_late swept_ok Allowed
  sweep_late-Keeps [] skipped h c = Keeps-refl h
  sweep_late-Keeps (id ∷ ids) skipped h c = rows (world.sweep h (id ∷ ids))
    where
      one : Keeps h (swept (id ∷ ids) ∷ h)
      one = Keeps-more (swept (id ∷ ids)) h h (Keeps-refl h) c

      rows :
          (r : Result ℕ)
          → Keeps h (swept_ok world client (id ∷ ids) skipped r (swept (id ∷ ids) ∷ h)).1
      rows (fail e) = one
      rows (ok zero) = one
      rows (ok (suc n)) = Keeps-more (printed (late_rows (suc n))) h (swept (id ∷ ids) ∷ h) one tt

  -- What the delete loop needs of the trace: those to come destroyed, those done committed.
  abbrev Ready : List Bytes → List Bytes → Trace → Type 0
  Ready ids done h =
      All (λ id. happened (is_destroy id) h ≡ true) ids
      × All (λ id. happened (is_commit id) h ≡ true) done

  Ready-later :
      (ids done : List Bytes) (h t : Trace) → Keeps h t → Ready ids done h → Ready ids done t
  Ready-later ids done h t k r =
      (Keeps-happened is_destroy h t ids k r.0, Keeps-happened is_commit h t done k r.1)

  delete_each-Keeps :
      (tables ids done : List Bytes) (skipped : ℕ) (h : Trace)
      → Ready ids done h
      → Keeps h (delete_each world client tables ids done skipped h).1
  unfolding delete_each Allowed
  delete_each-Keeps tables [] done skipped h r = sweep_late-Keeps done skipped h r.1
  delete_each-Keeps tables (id ∷ ids) done skipped h ((d, ds), cs) =
      running (world.context_error h) (
        ended (delete_rows world client tables id h) (delete_rows-Ended id tables h d)
          (λ done skipped h r. delete_each-Keeps tables ids done skipped h r))
    where
      After : Result (List ℕ) × Trace → Type 0
      After q =
          Keeps h
            (after_rows world client (delete_each world client tables ids) id done skipped q.0
              q.1).1

      ended :
          (q : Result (List ℕ) × Trace)
          → Ended id h q
          → ((done : List Bytes) (skipped : ℕ) (h : Trace)
              → Ready ids done h
              → Keeps h (delete_each world client tables ids done skipped h).1)
          → After q
      ended (fail e, t) (k, c) ih =
          let one = Keeps-more (printed (nothing_deleted id e)) h t k tt in
          let t' : Trace = printed (nothing_deleted id e) ∷ t in
          Keeps-trans h t' (delete_each world client tables ids done (suc skipped) t').1 one
            (ih done (suc skipped) t' (Ready-later ids done h t' one (ds, cs)))
      ended (ok counts, t) (k, c) ih =
          let one = Keeps-more (printed (deleted_line id counts)) h t k tt in
          let line = Keeps-more (printed (deleted_line id counts)) t t (Keeps-refl t) tt in
          let t' : Trace = printed (deleted_line id counts) ∷ t in
          let (x, y) = Ready-later ids done h t' one (ds, cs) in
          Keeps-trans h t' (delete_each world client tables ids (done ++ (id ∷ [])) skipped t').1
            one
            (ih (done ++ (id ∷ [])) skipped t' (
              x,
              All-append (λ j. happened (is_commit j) (printed (deleted_line id counts) ∷ t) ≡ true)
                  done (id ∷ []) y (line.1 (is_commit id) (c counts refl), tt),
            ))

      running :
          (e : Option Error)
          → After (delete_rows world client tables id h)
          → Keeps h
              (elim e as (λ x. Tally × Trace) [
                | some x ↦ (record { deleted = length done; skipped = skipped; error = some x }, h)
                | none ↦
                    let (r, h') = delete_rows world client tables id h in
                    after_rows world client
                      (delete_each world client tables ids)
                      id
                      done
                      skipped
                      r
                      h'
              ]).1
      running (some x) a = Keeps-refl h
      running none a = a

  wait_and_delete-Keeps :
      (tables : List Bytes) (settle : ℕ) (ready : List Bytes) (skipped : ℕ) (h : Trace)
      → All (λ id. happened (is_destroy id) h ≡ true) ready
      → Keeps h (wait_and_delete world client tables settle ready skipped h).1
  unfolding wait_and_delete Allowed
  wait_and_delete-Keeps tables settle [] skipped h d = Keeps-refl h
  wait_and_delete-Keeps tables settle (id ∷ ids) skipped h d = waited (world.sleep_error h settle)
    where
      one : Keeps h (slept settle ∷ h)
      one = Keeps-more (slept settle) h h (Keeps-refl h) tt

      waited :
          (e : Option Error)
          → Keeps h
              (elim e as (λ x. Tally × Trace) [
                | some x ↦
                    (record { deleted = 0; skipped = skipped; error = some x }, slept settle ∷ h)
                | none ↦ delete_each world client tables (id ∷ ids) [] skipped (slept settle ∷ h)
              ]).1
      waited (some x) = one
      waited none = Keeps-trans h (slept settle ∷ h) _ one (
          delete_each-Keeps tables (id ∷ ids) [] skipped (slept settle ∷ h)
            (Keeps-happened is_destroy h (slept settle ∷ h) (id ∷ ids) one d, tt))

  destroy_each-Keeps :
      (tables : List Bytes) (settle : ℕ) (ids ready : List Bytes) (skipped : ℕ) (h : Trace)
      → All (λ id. happened (is_destroy id) h ≡ true) ready
      → Keeps h (destroy_each world client tables settle ids ready skipped h).1
  unfolding destroy_each Allowed
  destroy_each-Keeps tables settle [] ready skipped h d =
      wait_and_delete-Keeps tables settle ready skipped h d
  destroy_each-Keeps tables settle (id ∷ ids) ready skipped h d =
      ended (destroy world client id h) (destroy-Keeps world client id h)
        (destroy_lem world client id h)
        (λ ready skipped h d. destroy_each-Keeps tables settle ids ready skipped h d)
    where
      ended :
          (q : Result Bool × Trace)
          → Keeps h q.1
          → ((v : Bool) → q.0 ≡ ok v → happened (is_destroy id) q.1 ≡ true)
          → ((ready : List Bytes) (skipped : ℕ) (h : Trace)
              → All (λ id. happened (is_destroy id) h ≡ true) ready
              → Keeps h (destroy_each world client tables settle ids ready skipped h).1)
          → Keeps h
              (after_destroy world client
                (destroy_each world client tables settle ids)
                id
                ready
                skipped
                q.0
                q.1).1
      ended (fail e, t) k c ih =
          let one = Keeps-more (printed (skipped_line id e)) h t k tt in
          Keeps-trans h (printed (skipped_line id e) ∷ t)
            (destroy_each world client tables settle ids ready (suc skipped)
              (printed (skipped_line id e) ∷ t)).1
            one
            (ih ready (suc skipped) (printed (skipped_line id e) ∷ t)
              (Keeps-happened is_destroy h (printed (skipped_line id e) ∷ t) ready one d))
      ended (ok v, t) k c ih =
          Keeps-trans h t
            (destroy_each world client tables settle ids (ready ++ (id ∷ [])) skipped t).1 k
            (ih (ready ++ (id ∷ [])) skipped t (
              All-append (λ j. happened (is_destroy j) t ≡ true) ready (id ∷ [])
                (Keeps-happened is_destroy h t ready k d) (c v refl, tt)))

  -- Whatever liercd and the database answer, and wherever it stops: in the trace that
  -- `destroyAndDelete` leaves, each DELETE of a connection's rows stands behind a destroy of that
  -- connection that liercd answered with 200 or 404, and the last sweep is only of connections
  -- whose deletion was committed, if this was so of the trace before.
  pub destroy_and_delete-Guarded :
      (tables : List Bytes) (settle : ℕ) (ids : List Bytes) (h : Trace)
      → Guarded h
      → Guarded (destroy_and_delete world client tables settle ids h).1
  unfolding destroy_and_delete
  destroy_and_delete-Guarded tables settle ids h g =
      (destroy_each-Keeps tables settle ids [] 0 h tt).0 g
