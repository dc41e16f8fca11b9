-- ===== src/Lctl/Batch/Moves.antt =====
-- internal/lctl/move_connections.go: what the loop has moved.
use lierc_api.Base.{
  ℕ, suc, ◌+◌, ◌≤◌, ◌%◌, ◌≡◌, refl, ap₂, ◌∙◌, Bool, true, false, ◌&&◌, List, [], ◌∷◌, Option, none,
  some, Bytes, All, length, if◌then◌else◌, ◌==◌, nat_eq, ltb, Bool-cases, inl, inr, arith,
}
use lierc_api.World.{
  Outside, Act, Result, ok, fail, Error, Trace, attempt, print, wait, raise, ◌>>=◌, ◌>>◌, pausing,
  stopped_after,
}
use lierc_api.World.Acts.{ok-eq, fail-ne-ok, >>=-eq-ok}
use lierc_api.Liercd.{Client}
use lierc_api.Lctl.Move.{move_one}
use lierc_api.Lctl.Batch.{Owner, rest_of_batch, behind_move, unless_cancelled, move_each}

module _ (world : Outside) (client : Client) (next_host target : Bytes)
    (batch pause total : ℕ) where
  rest_of_batch-ok :
      (i started : ℕ) (rest : Act ℕ) (h t : Trace) (n : ℕ)
      → rest_of_batch world client next_host target batch pause total i started rest h ≡ (ok n, t)
      → (h' : Trace) × (rest h' ≡ (ok n, t))
  unfolding rest_of_batch
  rest_of_batch-ok i started rest h t n e =
      elim (Bool-cases (started % batch == 0 && ltb (suc i) total)) [
        | inr f ↦ (h, rw f at e)
        | inl f ↦
            let (u, h1, e1, k1) =
              >>=-eq-ok (print (pausing started pause))
                (λ _. attempt (wait world pause) >>= behind_wait) h t n (rw f at e) in
            let (r, h2, e2, k2) = >>=-eq-ok (attempt (wait world pause)) behind_wait h1 t n k1 in
            waited r h2 k2
      ]
    where
      behind_wait : Result Unit → Act ℕ
      behind_wait r = elim r [
        | fail e ↦ print (stopped_after (suc i) total none) >> raise e
        | ok _ ↦ rest
      ]

      waited :
          (r : Result Unit) (h2 : Trace)
          → behind_wait r h2 ≡ (ok n, t)
          → (h' : Trace) × (rest h' ≡ (ok n, t))
      waited (fail e) h2 k = absurd (fail-ne-ok k)
      waited (ok u) h2 k = (h2, k)

  -- The connection was moved at some point.
  abbrev pub Moved : Owner → Type 0
  Moved c = (h t : Trace) × (s : Bool) × (move_one world client next_host c.0 target h ≡ (ok s, t))

  behind_move-ok :
      (id : Bytes) (i started : ℕ) (rest : ℕ → Act ℕ) (res : Result Bool) (h t : Trace) (n : ℕ)
      → behind_move world client next_host target batch pause total id i started rest res h
        ≡ (ok n, t)
      → (s : Bool) × (res ≡ ok s)
        × (h' : Trace) × (rest (if s then suc started else started) h' ≡ (ok n, t))
  unfolding behind_move
  behind_move-ok id i started rest (fail e) h t n k = absurd (fail-ne-ok k)
  behind_move-ok id i started rest (ok false) h t n k = (false, refl, h, k)
  behind_move-ok id i started rest (ok true) h t n k =
      let (h', k') = rest_of_batch-ok i (suc started) (rest (suc started)) h t n k in
      (true, refl, h', k')

  -- If the loop of move-connections ends without an error, `moveOne` has succeeded for each
  -- connection of the list, and the number that it reports as started is at most their number.
  pub move_each-Moved :
      (conns : List Owner) (i started : ℕ) (h t : Trace) (n : ℕ)
      → move_each world client next_host target batch pause total conns i started h ≡ (ok n, t)
      → All Moved conns × (started ≤ n) × (n ≤ started + length conns)
  unfolding move_each unless_cancelled
  move_each-Moved [] i started h t n e =
      let (p, q) = ok-eq e in (tt, omega (arith, p), omega (arith, p))
  move_each-Moved (c ∷ cs) i started h t n e =
      let (res, h1, e1, k1) =
        >>=-eq-ok (attempt (move_one world client next_host c.0 target))
          (behind_move world client next_host target batch pause total c.0 i started
            (move_each world client next_host target batch pause total cs (suc i)))
          h t n (running (world.context_error h) e) in
      let (s, p, h2, k2) = behind_move-ok c.0 i started _ res h1 t n k1 in
      let (q, r) = ok-eq e1 in
      let (moved, lo, hi) =
        move_each-Moved cs (suc i) (if s then suc started else started) h2 t n k2 in
      (((h, h1, s, pair (q ∙ p) r), moved), at_least s lo, at_most s hi)
    where
      first : Act ℕ
      first =
          attempt (move_one world client next_host c.0 target)
          >>= behind_move world client next_host target batch pause total c.0 i started
              (move_each world client next_host target batch pause total cs (suc i))

      running :
          (x : Option Error)
          → unless_cancelled world client next_host target batch pause total i x first h ≡ (ok n, t)
          → first h ≡ (ok n, t)
      running (some x) k = absurd (fail-ne-ok k)
      running none k = k

      pair : {q : Result Bool × Trace} {s : Bool} {t : Trace} → q.0 ≡ ok s → q.1 ≡ t → q ≡ (ok s, t)
      pair x y = ap₂ (λ a b. (a, b)) x y

      at_least : (s : Bool) → (if s then suc started else started) ≤ n → started ≤ n
      at_least true l = omega arith
      at_least false l = l

      at_most :
          (s : Bool)
          → n ≤ (if s then suc started else started) + length cs
          → n ≤ started + suc (length cs)
      at_most true l = omega arith
      at_most false l = omega arith
