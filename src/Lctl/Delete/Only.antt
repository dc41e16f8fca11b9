-- ===== src/Lctl/Delete/Only.antt =====
-- internal/lctl/check_connections.go: `destroyAndDelete` touches no connection but those given.
use lierc_api.Base.{
  ℕ, zero, suc, ◌≡◌, refl, ◌++◌, Bool, true, false, List, [], ◌∷◌, Option, none, some, Bytes, All,
  All-append, length, if◌then◌else◌,
}
use lierc_api.World.{
  Outside, Result, ok, fail, Error, Trace, Event, post, sent, read_instance, printed, slept,
  deleted_from, committed, swept, skipped_line, nothing_deleted, deleted_line, done, pure,
}
use lierc_api.World.Acts.{Extends, here, more, Extends-trans, Does, >>=-Does}
use lierc_api.Database.{lookup_liercd, instance_answer}
use lierc_api.Liercd.{
  Client, request, base, base_of, routed_base, send, path_id, trim_slash, destroy_path,
}
use lierc_api.Lctl.Instance.{destroy_on}
use lierc_api.Lctl.Delete.{
  Tally, commit, delete_tables, delete_rows, swept_ok, sweep_late, after_rows, delete_each,
  wait_and_delete, destroy, after_destroy, destroy_each, destroy_and_delete,
}

-- A destroy, or a change of the database, is of a connection with the property `T`.
abbrev pub Touches : (Bytes → Type 0) → Event → Type 0
Touches T (sent _ post path _ _) = (id : Bytes) × T id × (path ≡ trim_slash (destroy_path id))
Touches T (read_instance _) = Unit
Touches T (printed _) = Unit
Touches T (slept _) = Unit
Touches T (deleted_from _ id) = T id
Touches T (committed id _) = T id
Touches T (swept ids) = All T ids
Touches T _ = ⊥

module _ (T : Bytes → Type 0) (world : Outside) (client : Client) where
  P : Event → Type 0
  P e = Touches T e

  base-P : (path : Bytes) → Does P (base world client path)
  unfolding base routed_base lookup_liercd P
  base-P path = either client.routed
    where
      routed : (id : Bytes) → Does P (routed_base world client id)
      routed [] = λ h. here
      routed (c ∷ cs) =
          >>=-Does P
            (λ h. (instance_answer (world.instance_row h (c ∷ cs)), read_instance (c ∷ cs) ∷ h))
            (λ name. done (base_of client name)) (λ h. more tt here) (λ name h. here)

      either :
          (b : Bool)
          → Does P (if b then routed_base world client (path_id path) else pure client.base_url)
      either true = routed (path_id path)
      either false = λ h. here

  destroy-P : (id : Bytes) → T id → (h : Trace) → Extends P h (destroy world client id h).1
  unfolding destroy destroy_on request send P
  destroy-P id x h =
      >>=-Does P (base world client (trim_slash (destroy_path id)))
        (λ url. send world url post (trim_slash (destroy_path id)) none)
        (base-P (trim_slash (destroy_path id))) (λ url h. more (id, x, refl) here) h

  delete_tables-P :
      (id : Bytes) (tables : List Bytes) (counts : List ℕ) (h : Trace)
      → T id
      → Extends P h (delete_tables world client id tables counts h).1
  unfolding delete_tables commit P
  delete_tables-P id [] counts h x = ended (world.commit_error h)
    where
      ended : (e : Option Error) → Extends P h (commit world client id counts e h).1
      ended none = more x here
      ended (some e) = more x here
  delete_tables-P id (table ∷ tables) counts h x =
      next (world.delete_from h table id)
        (λ n. delete_tables-P id tables (counts ++ (n ∷ [])) (deleted_from table id ∷ h) x)
    where
      next :
          (r : Result ℕ)
          → ((n : ℕ)
              → Extends P
                  (deleted_from table id ∷ h)
                  (delete_tables world client id tables
                    (counts ++ (n ∷ []))
                    (deleted_from table id ∷ h)).1)
          → Extends P h
              (elim r as (λ z. Result (List ℕ) × Trace) [
                | fail e ↦ (fail e, committed id false ∷ deleted_from table id ∷ h)
                | ok n ↦
                    delete_tables world client id tables
                      (counts ++ (n ∷ []))
                      (deleted_from table id ∷ h)
              ]).1
      next (fail e) ih = more x (more x here)
      next (ok n) ih = Extends-trans P (more x here) (ih n)

  delete_rows-P :
      (id : Bytes) (tables : List Bytes) (h : Trace)
      → T id
      → Extends P h (delete_rows world client tables id h).1
  unfolding delete_rows
  delete_rows-P id tables h x = begun (world.begin_error h)
    where
      begun :
          (e : Option Error)
          → Extends P h
              (elim e as (λ z. Result (List ℕ) × Trace) [
                | some e ↦ (fail e, h)
                | none ↦ delete_tables world client id tables [] h
              ]).1
      begun (some e) = here
      begun none = delete_tables-P id tables [] h x

  sweep_late-P :
      (done : List Bytes) (skipped : ℕ) (h : Trace)
      → All T done
      → Extends P h (sweep_late world client done skipped h).1
  unfolding sweep_late swept_ok P
  sweep_late-P [] skipped h a = here
  sweep_late-P (id ∷ ids) skipped h a = rows (world.sweep h (id ∷ ids))
    where
      rows :
          (r : Result ℕ)
          → Extends P h (swept_ok world client (id ∷ ids) skipped r (swept (id ∷ ids) ∷ h)).1
      rows (fail e) = more a here
      rows (ok zero) = more a here
      rows (ok (suc n)) = more tt (more a here)

  delete_each-P :
      (tables ids done : List Bytes) (skipped : ℕ) (h : Trace)
      → All T ids
      → All T done
      → Extends P h (delete_each world client tables ids done skipped h).1
  unfolding delete_each P
  delete_each-P tables [] done skipped h a b = sweep_late-P done skipped h b
  delete_each-P tables (id ∷ ids) done skipped h a b = running (world.context_error h) (
      next (delete_rows world client tables id h) (delete_rows-P id tables h a.0)
        (λ done skipped h b. delete_each-P tables ids done skipped h a.1 b))
    where
      rest : List Bytes → ℕ → Trace → Tally × Trace
      rest = delete_each world client tables ids

      next :
          (q : Result (List ℕ) × Trace)
          → Extends P h q.1
          → ((done : List Bytes) (skipped : ℕ) (h : Trace)
              → All T done
              → Extends P h (rest done skipped h).1)
          → Extends P h (after_rows world client rest id done skipped q.0 q.1).1
      next (fail e, t) x ih =
          Extends-trans P (more tt x) (ih done (suc skipped) (printed (nothing_deleted id e) ∷ t) b)
      next (ok counts, t) x ih = Extends-trans P (more tt x) (
          ih (done ++ (id ∷ [])) skipped (printed (deleted_line id counts) ∷ t)
            (All-append T done (id ∷ []) b (a.0, tt)))

      running :
          (e : Option Error)
          → Extends P h
              (let (r, h') = delete_rows world client tables id h in
                after_rows world client rest id done skipped r h').1
          → Extends P h
              (elim e as (λ z. Tally × Trace) [
                | some e ↦ (record { deleted = length done; skipped = skipped; error = some e }, h)
                | none ↦
                    let (r, h') = delete_rows world client tables id h in
                    after_rows world client rest id done skipped r h'
              ]).1
      running (some e) x = here
      running none x = x

  wait_and_delete-P :
      (tables : List Bytes) (settle : ℕ) (ready : List Bytes) (skipped : ℕ) (h : Trace)
      → All T ready
      → Extends P h (wait_and_delete world client tables settle ready skipped h).1
  unfolding wait_and_delete P
  wait_and_delete-P tables settle [] skipped h a = here
  wait_and_delete-P tables settle (id ∷ ids) skipped h a = waited (world.sleep_error h settle)
    where
      waited :
          (e : Option Error)
          → Extends P h
              (elim e as (λ z. Tally × Trace) [
                | some e ↦
                    (record { deleted = 0; skipped = skipped; error = some e }, slept settle ∷ h)
                | none ↦ delete_each world client tables (id ∷ ids) [] skipped (slept settle ∷ h)
              ]).1
      waited (some e) = more tt here
      waited none =
          Extends-trans P (more tt here)
            (delete_each-P tables (id ∷ ids) [] skipped (slept settle ∷ h) a tt)

  destroy_each-P :
      (tables : List Bytes) (settle : ℕ) (ids ready : List Bytes) (skipped : ℕ) (h : Trace)
      → All T ids
      → All T ready
      → Extends P h (destroy_each world client tables settle ids ready skipped h).1
  unfolding destroy_each P
  destroy_each-P tables settle [] ready skipped h a b =
      wait_and_delete-P tables settle ready skipped h b
  destroy_each-P tables settle (id ∷ ids) ready skipped h a b =
      next (destroy world client id h) (destroy-P id a.0 h)
        (λ ready skipped h b. destroy_each-P tables settle ids ready skipped h a.1 b)
    where
      rest : List Bytes → ℕ → Trace → Tally × Trace
      rest = destroy_each world client tables settle ids

      next :
          (q : Result Bool × Trace)
          → Extends P h q.1
          → ((ready : List Bytes) (skipped : ℕ) (h : Trace)
              → All T ready
              → Extends P h (rest ready skipped h).1)
          → Extends P h (after_destroy world client rest id ready skipped q.0 q.1).1
      next (fail e, t) x ih =
          Extends-trans P (more tt x) (ih ready (suc skipped) (printed (skipped_line id e) ∷ t) b)
      next (ok v, t) x ih =
          Extends-trans P x
            (ih (ready ++ (id ∷ [])) skipped t (All-append T ready (id ∷ []) b (a.0, tt)))

pub destroy_and_delete-Touches :
    (T : Bytes → Type 0) (world : Outside) (client : Client) (tables : List Bytes) (settle : ℕ)
    (ids : List Bytes) (h : Trace)
    → All T ids
    → Extends (Touches T) h (destroy_and_delete world client tables settle ids h).1
unfolding destroy_and_delete P
destroy_and_delete-Touches T world client tables settle ids h a =
    destroy_each-P T world client tables settle ids [] 0 h a tt
