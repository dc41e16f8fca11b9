-- ===== src/Lctl/Prune/Emptied.antt =====
-- internal/lctl/prune.go: pruneLogs ends, and what is left of the rows where it does.
use lierc_api.Base.{
  ℕ, zero, suc, ◌+◌, ◌-◌, ◌≤◌, ◌<◌, ◌≡◌, ◌⊎◌, inl, inr, refl, Bool, true, false, List, [], ◌∷◌,
  Option, none, some, length, All, ltb, Bool-cases, arith,
}
use lierc_api.World.{Error}
use lierc_api.Lctl.Prune.{
  Pruned, End, deleted, interrupted, failed, out_of_fuel, Meanwhile, affected, behind_batch,
  statement, prune_one, prune_each, prune_logs,
}

abbrev pub sum : List ℕ → ℕ
sum [] = 0
sum (n ∷ ns) = n + sum ns

-- The rows left by connections that are done.
abbrev pub remaining : List (ℕ × ℕ) → ℕ
remaining [] = 0
remaining ((k, n) ∷ done) = n + remaining done

-- The rows that arrived for the first statements.
abbrev pub late : (ℕ → ℕ) → ℕ → ℕ
late arrived zero = 0
late arrived (suc k) = late arrived k + arrived k

module _ (meanwhile : Meanwhile) (batch : ℕ) where
  -- A connection left with rows was there again at its last statement.
  abbrev pub Emptied : ℕ × ℕ → Type 0
  Emptied (k, n) = (meanwhile.is_back k ≡ true) ⊎ (n ≡ 0)

  -- Of `all` rows at first: those deleted, those of connections done and those of connections to come
  -- are all rows, with those that arrived; what was counted is what the statements deleted.
  abbrev pub Balanced : ℕ → Pruned → Type 0
  Balanced all p =
      (p.total + (remaining p.finished + sum p.left)
        ≡ all + late meanwhile.arrived (length p.statements))
      × (sum p.statements ≡ p.total)
      × All Emptied p.finished

  abbrev pub Accounts : ℕ → End → Type 0
  Accounts all (deleted p) = Balanced all p × (p.left ≡ [])
  Accounts all (interrupted e p) = Balanced all p
  Accounts all (failed e p) = Balanced all p
  Accounts all out_of_fuel = ⊥

  affected_le : (back : Bool) (n : ℕ) → affected batch back n ≤ n
  affected_le back n = ground arith

  -- A statement that deletes less than a batch leaves nothing, unless the connection is back.
  affected-Emptied :
      (k n : ℕ)
      → affected batch (meanwhile.is_back k) n < batch
      → Emptied (k, n - affected batch (meanwhile.is_back k) n)
  affected-Emptied k n l = either (meanwhile.is_back k) refl l
    where
      either :
          (b : Bool)
          → meanwhile.is_back k ≡ b
          → affected batch b n < batch
          → (meanwhile.is_back k ≡ true) ⊎ (n - affected batch b n ≡ 0)
      either true e l = inl e
      either false e l = inr (omega arith)

  -- A statement that is not made, or fails, changes nothing.
  statement-Accounts :
      (all : ℕ) (c e : Option Error) (go : End) (p : Pruned)
      → Accounts all go
      → Balanced all p
      → Accounts all (statement meanwhile batch c e go (λ x. interrupted x p) (λ x. failed x p))
  statement-Accounts all (some x) e go p a b = b
  statement-Accounts all none (some x) go p a b = b
  statement-Accounts all none none go p a b = a

  module _ (some_rows : 0 < batch) (a all : ℕ) (few : (k : ℕ) → late meanwhile.arrived k ≤ a) where
    abbrev Exact : ℕ → List ℕ → List (ℕ × ℕ) → List ℕ → Type 0
    Exact total ss done left =
        (total + (remaining done + sum left) ≡ all + late meanwhile.arrived (length ss))
        × (sum ss ≡ total)
        × All Emptied done

    prune_one-Accounts :
        (fuel : ℕ) (others : List ℕ) (next : ℕ → List ℕ → List (ℕ × ℕ) → End) (done : List (ℕ × ℕ))
        (n total : ℕ) (ss : List ℕ)
        → n + a < fuel + late meanwhile.arrived (length ss)
        → Exact total ss done (n ∷ others)
        → ((total : ℕ) (ss : List ℕ) (done : List (ℕ × ℕ))
            → Exact total ss done others
            → Accounts all (next total ss done))
        → Accounts all (prune_one meanwhile batch fuel others next done n total ss)
    unfolding prune_one
    prune_one-Accounts zero others next done n total ss f s k =
        let l = few (length ss) in absurd (omega arith)
    prune_one-Accounts (suc fuel) others next done n total ss f s k =
        statement-Accounts all (meanwhile.context_error (length ss))
          (meanwhile.delete_error (length ss)) go
          (record { total = total; statements = ss; finished = done; left = n ∷ others })
          (batched (λ l.
            prune_one-Accounts fuel others next done (m - d) (total + d) (d ∷ ss)
              (omega (arith, d_le, l, f)) (omega (arith, s.0, d_le), omega (arith, s.1), s.2) k))
          s
      where
        m : ℕ
        m = n + meanwhile.arrived (length ss)

        d : ℕ
        d = affected batch (meanwhile.is_back (length ss)) m

        d_le : d ≤ m
        d_le = affected_le (meanwhile.is_back (length ss)) m

        go : End
        go =
            behind_batch meanwhile batch (prune_one meanwhile batch fuel others next done) next
              (meanwhile.is_back (length ss)) m total ss done

        batched :
            (batch ≤ d
              → Accounts all
                  (prune_one meanwhile batch fuel others next done (m - d) (total + d) (d ∷ ss)))
            → Accounts all go
        batched ih = elim (Bool-cases (ltb d batch)) [
          | inl l ↦ rw l (
              k (total + d) (d ∷ ss) ((length ss, m - d) ∷ done) (
                omega (arith, s.0, d_le),
                omega (arith, s.1),
                (affected-Emptied (length ss) m (ground arith), s.2),
              ))
          | inr l ↦ rw l (ih (ground arith))
        ]

    prune_each-Accounts :
        (fuel : ℕ) (rows : List ℕ) (total : ℕ) (ss : List ℕ) (done : List (ℕ × ℕ))
        → All (λ n. n + a < fuel) rows
        → Exact total ss done rows
        → Accounts all (prune_each meanwhile batch fuel rows total ss done)
    unfolding prune_each
    prune_each-Accounts fuel [] total ss done f s = (s, refl)
    prune_each-Accounts fuel (n ∷ ns) total ss done f s =
        prune_one-Accounts fuel ns (prune_each meanwhile batch fuel ns) done n total ss
          (omega (arith, f.0)) s
          (λ total ss done s. prune_each-Accounts fuel ns total ss done f.1 s)

-- prune-logs --delete, with a batch of at least one row: where only so many rows are logged meanwhile,
-- `a` at most, it ends, in no more rounds for a connection than it has rows, `a` and one. However it
-- ends, the rows that it counted as deleted, those left of the connections that it is done with and
-- those of the connections to come are all rows that there were and that came. A connection that it is
-- done with has no row left, unless it was there again; and without an error it is done with all.
pub prune_logs-Accounts :
    (meanwhile : Meanwhile) (batch fuel a : ℕ) (rows : List ℕ)
    → 0 < batch
    → ((k : ℕ) → late meanwhile.arrived k ≤ a)
    → All (λ n. n + a < fuel) rows
    → Accounts meanwhile batch (sum rows) (prune_logs meanwhile batch fuel rows)
unfolding prune_logs
prune_logs-Accounts meanwhile batch fuel a rows b l f =
    prune_each-Accounts meanwhile batch b a (sum rows) l fuel rows 0 [] [] f (omega arith, refl, tt)
