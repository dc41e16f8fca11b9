-- ===== src/Lctl/Delete/Counts.antt =====
-- internal/lctl/check_connections.go: what `destroyAndDelete` counts.
use lierc_api.Base.{
  ℕ, zero, suc, Bool, ◌+◌, ◌≤◌, ◌≡◌, refl, subst, ◌++◌, List, [], ◌∷◌, Option, none, some, Bytes,
  length, length-append, arith,
}
use lierc_api.World.{Outside, Result, ok, fail, Error, Trace, slept, swept}
use lierc_api.Liercd.{Client}
use lierc_api.Lctl.Delete.{
  Tally, delete_rows, swept_ok, sweep_late, after_rows, delete_each, wait_and_delete, destroy,
  after_destroy, destroy_each, destroy_and_delete,
}

-- At most `n` connections are counted, and all of them unless an error cut the work short.
abbrev Counts : ℕ → Tally → Type 0
Counts n t = (t.deleted + t.skipped ≤ n) × (t.error ≡ none → t.deleted + t.skipped ≡ n)

Counts-eq : (n m : ℕ) (t : Tally) → n ≡ m → Counts n t → Counts m t
Counts-eq n m t e c = subst (λ k. Counts k t) e c

module _ (world : Outside) (client : Client) where
  sweep_late-Counts :
      (done : List Bytes) (skipped : ℕ) (h : Trace)
      → Counts (length done + skipped) (sweep_late world client done skipped h).0
  unfolding sweep_late swept_ok
  sweep_late-Counts [] skipped h = (omega arith, λ e. refl)
  sweep_late-Counts (id ∷ ids) skipped h = rows (world.sweep h (id ∷ ids))
    where
      rows :
          (r : Result ℕ)
          → Counts
              (length (id ∷ ids) + skipped)
              (swept_ok world client (id ∷ ids) skipped r (swept (id ∷ ids) ∷ h)).0
      rows (fail e) = (omega arith, λ e. refl)
      rows (ok zero) = (omega arith, λ e. refl)
      rows (ok (suc n)) = (omega arith, λ e. refl)

  delete_each-Counts :
      (tables ids done : List Bytes) (skipped : ℕ) (h : Trace)
      → Counts
          (length ids + (length done + skipped))
          (delete_each world client tables ids done skipped h).0
  unfolding delete_each
  delete_each-Counts tables [] done skipped h =
      Counts-eq (length done + skipped) (0 + (length done + skipped))
        (sweep_late world client done skipped h).0 (omega arith) (sweep_late-Counts done skipped h)
  delete_each-Counts tables (id ∷ ids) done skipped h = running (world.context_error h) (
      after (delete_rows world client tables id h)
        (λ done skipped h. delete_each-Counts tables ids done skipped h))
    where
      total : ℕ
      total = length (id ∷ ids) + (length done + skipped)

      After : Result (List ℕ) × Trace → Type 0
      After q =
          Counts total
            (after_rows world client (delete_each world client tables ids) id done skipped q.0
              q.1).0

      after :
          (q : Result (List ℕ) × Trace)
          → ((done : List Bytes) (skipped : ℕ) (h : Trace)
              → Counts
                  (length ids + (length done + skipped))
                  (delete_each world client tables ids done skipped h).0)
          → After q
      after (fail e, t) ih = Counts-eq _ total _ (omega arith) (ih done (suc skipped) _)
      after (ok counts, t) ih =
          Counts-eq _ total _ (omega (arith, length-append done (id ∷ [])))
            (ih (done ++ (id ∷ [])) skipped _)

      running :
          (e : Option Error)
          → After (delete_rows world client tables id h)
          → Counts total
              (elim e as (λ x. Tally × Trace) [
                | some x ↦ (record { deleted = length done; skipped = skipped; error = some x }, h)
                | none ↦
                    let (r, h') = delete_rows world client tables id h in
                    after_rows world client
                      (delete_each world client tables ids)
                      id
                      done
                      skipped
                      r
                      h'
              ]).0
      running (some x) a = (omega arith, λ e. cc)
      running none a = a

  wait_and_delete-Counts :
      (tables : List Bytes) (settle : ℕ) (ready : List Bytes) (skipped : ℕ) (h : Trace)
      → Counts
          (length ready + skipped)
          (wait_and_delete world client tables settle ready skipped h).0
  unfolding wait_and_delete
  wait_and_delete-Counts tables settle [] skipped h = (omega arith, λ e. refl)
  wait_and_delete-Counts tables settle (id ∷ ids) skipped h = waited (world.sleep_error h settle)
    where
      waited :
          (e : Option Error)
          → Counts
              (length (id ∷ ids) + skipped)
              (elim e as (λ x. Tally × Trace) [
                | some x ↦
                    (record { deleted = 0; skipped = skipped; error = some x }, slept settle ∷ h)
                | none ↦ delete_each world client tables (id ∷ ids) [] skipped (slept settle ∷ h)
              ]).0
      waited (some x) = (omega arith, λ e. cc)
      waited none =
          Counts-eq (length (id ∷ ids) + (0 + skipped)) (length (id ∷ ids) + skipped)
            (delete_each world client tables (id ∷ ids) [] skipped (slept settle ∷ h)).0
            (omega arith) (delete_each-Counts tables (id ∷ ids) [] skipped (slept settle ∷ h))

  destroy_each-Counts :
      (tables : List Bytes) (settle : ℕ) (ids ready : List Bytes) (skipped : ℕ) (h : Trace)
      → Counts
          (length ids + (length ready + skipped))
          (destroy_each world client tables settle ids ready skipped h).0
  unfolding destroy_each
  destroy_each-Counts tables settle [] ready skipped h =
      Counts-eq (length ready + skipped) (0 + (length ready + skipped))
        (wait_and_delete world client tables settle ready skipped h).0 (omega arith)
        (wait_and_delete-Counts tables settle ready skipped h)
  destroy_each-Counts tables settle (id ∷ ids) ready skipped h =
      after (destroy world client id h)
        (λ ready skipped h. destroy_each-Counts tables settle ids ready skipped h)
    where
      total : ℕ
      total = length (id ∷ ids) + (length ready + skipped)

      after :
          (q : Result Bool × Trace)
          → ((ready : List Bytes) (skipped : ℕ) (h : Trace)
              → Counts
                  (length ids + (length ready + skipped))
                  (destroy_each world client tables settle ids ready skipped h).0)
          → Counts total
              (after_destroy world client
                (destroy_each world client tables settle ids)
                id
                ready
                skipped
                q.0
                q.1).0
      after (fail e, t) ih = Counts-eq _ total _ (omega arith) (ih ready (suc skipped) _)
      after (ok v, t) ih =
          Counts-eq _ total _ (omega (arith, length-append ready (id ∷ [])))
            (ih (ready ++ (id ∷ [])) skipped _)

  -- Whatever liercd and the database answer: `destroyAndDelete` never counts more connections
  -- than it was given, and without an error it counts each of them, as deleted or as skipped.
  pub destroy_and_delete-Counts :
      (tables : List Bytes) (settle : ℕ) (ids : List Bytes) (h : Trace)
      → ((destroy_and_delete world client tables settle ids h).0.deleted
            + (destroy_and_delete world client tables settle ids h).0.skipped
          ≤ length ids)
        × ((destroy_and_delete world client tables settle ids h).0.error ≡ none
            → (destroy_and_delete world client tables settle ids h).0.deleted
                + (destroy_and_delete world client tables settle ids h).0.skipped
              ≡ length ids)
  unfolding destroy_and_delete
  destroy_and_delete-Counts tables settle ids h =
      Counts-eq (length ids + 0) (length ids) _ (omega arith)
        (destroy_each-Counts tables settle ids [] 0 h)
