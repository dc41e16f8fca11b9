-- ===== src/Lctl/Check/Rows.antt =====
-- internal/lctl/check_connections.go: what the loop over the rows and the deletion behind it touch.
use lierc_api.Base.{
  ℕ, zero, suc, ◌≡◌, ◌⊎◌, inl, inr, refl, ◌++◌, Bool, true, false, not, ◌&&◌, List, [], ◌∷◌, Bytes,
  All, subst, All-append, length, if◌then◌else◌, Bool-cases,
}
use lierc_api.Utf8.{Text}
use lierc_api.Connconfig.Clean.{Tables}
use lierc_api.Connconfig.Address.{Platform}
use lierc_api.World.{
  Outside, ok, Trace, Event, Line, printed, print, pure, ◌>>=◌, ◌>>◌, no_such_connection,
  invalid_line, checked_total,
}
use lierc_api.World.Acts.{Extends, here, more, Extends-trans, Does, >>-Does, >>=-Extends, ok-eq}
use lierc_api.Liercd.{Client}
use lierc_api.Lctl.Delete.{connection_tables}
use lierc_api.Lctl.Delete.Only.{Touches, destroy_and_delete-Touches}
use lierc_api.Lctl.Check.{
  Flags, Row, Problem, no_problem, problem, connection_problem, name_of, host_port, is_unresolved,
  has_row, report_missing, Invalid, Judged, judge, judge_each, targets, kept, if_kept, if_invalid,
  delete_and_report, delete_invalid, behind_judged, check_rows, natural,
}

module _ (T : Bytes → Type 0) (flags : Flags) where
  -- An invalid connection whose deletion would be right.
  abbrev Judges : Invalid → Type 0
  Judges c = ((c.unresolved ≡ false) ⊎ (flags.unresolved ≡ true)) → T c.id

  targets-All : (bad : List Invalid) → All Judges bad → All T (targets flags.unresolved bad)
  unfolding targets
  targets-All [] a = tt
  targets-All (c ∷ cs) a = elim (Bool-cases (c.unresolved && not flags.unresolved)) [
    | inl e ↦ rw e (targets-All cs a.1)
    | inr e ↦ rw e (a.0 (resolved c.unresolved flags.unresolved e), targets-All cs a.1)
  ]
    where
      resolved : (x y : Bool) → (x && not y) ≡ false → (x ≡ false) ⊎ (y ≡ true)
      resolved false y e = inl refl
      resolved true true e = inr refl
      resolved true false e = cc

module _ (T : Bytes → Type 0) (tables : Tables) (platform : Platform) (flags : Flags) where
  abbrev P : Event → Type 0
  P = Touches T

  -- A row that may be deleted if it is invalid.
  abbrev pub Sound : Row → Type 0
  Sound r =
      (why : Text)
      → connection_problem tables platform r.config (not flags.no_dns) ≡ problem why
      → (is_unresolved why ≡ false) ⊎ (flags.unresolved ≡ true)
      → T r.id

  judge_each-P :
      (rows : List Row) (j : Judged) → Does P (judge_each tables platform (not flags.no_dns) rows j)
  unfolding judge_each
  judge_each-P [] j h = here
  judge_each-P (r ∷ rs) (good, bad) h =
      judged (connection_problem tables platform r.config (not flags.no_dns))
        (λ j h. judge_each-P rs j h)
    where
      judged :
          (p : Problem)
          → ((j : Judged) → Does P (judge_each tables platform (not flags.no_dns) rs j))
          → Extends P h
              (judge tables platform
                (not flags.no_dns)
                (judge_each tables platform (not flags.no_dns) rs)
                r
                (good, bad)
                p
                h).1
      judged no_problem ih = ih (suc good, bad) h
      judged (problem why) ih = Extends-trans P (more tt here) (
          ih (good, bad ++ (record { id = r.id; unresolved = is_unresolved why } ∷ []))
            (printed (invalid_line r.id r.user (name_of r.username) (host_port tables r.config) why)
              ∷ h))

  judge_each-Judges :
      (rows : List Row) (j j' : Judged) (h t : Trace)
      → All Sound rows
      → All (Judges T flags) j.1
      → judge_each tables platform (not flags.no_dns) rows j h ≡ (ok j', t)
      → All (Judges T flags) j'.1
  unfolding judge_each
  judge_each-Judges [] j j' h t s a e =
      let z : j ≡ j' = (ok-eq e).0 in subst (λ (k : Judged). All (Judges T flags) k.1) z a
  judge_each-Judges (r ∷ rs) (good, bad) j' h t (s, ss) a e =
      judged (connection_problem tables platform r.config (not flags.no_dns)) refl e
        (λ j h a e. judge_each-Judges rs j j' h t ss a e)
    where
      judged :
          (p : Problem)
          → connection_problem tables platform r.config (not flags.no_dns) ≡ p
          → judge tables platform
              (not flags.no_dns)
              (judge_each tables platform (not flags.no_dns) rs)
              r
              (good, bad)
              p
              h
            ≡ (ok j', t)
          → ((j : Judged) (h : Trace)
              → All (Judges T flags) j.1
              → judge_each tables platform (not flags.no_dns) rs j h ≡ (ok j', t)
              → All (Judges T flags) j'.1)
          → All (Judges T flags) j'.1
      judged no_problem p e ih = ih (suc good, bad) h a e
      judged (problem why) p e ih =
          ih (good, bad ++ (record { id = r.id; unresolved = is_unresolved why } ∷ []))
            (printed (invalid_line r.id r.user (name_of r.username) (host_port tables r.config) why)
              ∷ h)
            (All-append (Judges T flags) bad
              (record { id = r.id; unresolved = is_unresolved why } ∷ []) a (s why p, tt))
            e

  module _ (world : Outside) (client : Client) where
    print-P : (l : Line) → Does P (print l)
    print-P l h = more tt here

    delete_and_report-P :
        (settle : ℕ) (targets : List Bytes)
        → All T targets
        → Does P (delete_and_report world client settle targets)
    unfolding delete_and_report
    delete_and_report-P settle [] a = λ h. here
    delete_and_report-P settle (id ∷ rest) a = λ h.
        more tt (destroy_and_delete-Touches T world client connection_tables settle (id ∷ rest) h a)

    behind_judged-P :
        (n : ℕ) (j : Judged)
        → (flags.del ≡ true → All (Judges T flags) j.1)
        → Does P (behind_judged world client flags n j)
    unfolding behind_judged delete_invalid
    behind_judged-P n (good, bad) a =
        >>-Does P (print (checked_total n good (length bad) flags.no_dns))
          (if flags.del
            then (if_kept (kept flags.unresolved bad)
                >> delete_and_report world client (natural flags.settle)
                    (targets flags.unresolved bad))
            else if_invalid bad)
          (print-P _) (either flags.del a)
      where
        if_kept-P : (k : ℕ) → Does P (if_kept k)
        if_kept-P zero = λ h. here
        if_kept-P (suc k) = print-P _

        if_invalid-P : (bad : List Invalid) → Does P (if_invalid bad)
        if_invalid-P [] = λ h. here
        if_invalid-P (c ∷ cs) = print-P _

        either :
            (b : Bool)
            → (b ≡ true → All (Judges T flags) bad)
            → Does P (
                if b
                then (if_kept (kept flags.unresolved bad)
                    >> delete_and_report world client
                        (natural flags.settle)
                        (targets flags.unresolved bad))
                else if_invalid bad)
        either true a =
            >>-Does P (if_kept (kept flags.unresolved bad))
              (delete_and_report world client (natural flags.settle) (targets flags.unresolved bad))
              (if_kept-P (kept flags.unresolved bad))
              (delete_and_report-P (natural flags.settle) (targets flags.unresolved bad)
                (targets-All T flags bad (a refl)))
        either false a = if_invalid-P bad

    report_missing-P : (given : List Bytes) (rows : List Row) → Does P (report_missing given rows)
    unfolding report_missing
    report_missing-P [] rows = λ h. here
    report_missing-P (id ∷ given) rows =
        >>-Does P (if has_row id rows then pure tt else print (no_such_connection id))
          (report_missing given rows) (said (has_row id rows)) (report_missing-P given rows)
      where
        said : (b : Bool) → Does P (if b then pure tt else print (no_such_connection id))
        said true = λ h. here
        said false = print-P _

    pub check_rows-P :
        (given : List Bytes) (rows : List Row)
        → (flags.del ≡ true → All Sound rows)
        → Does P (check_rows world client tables platform flags given rows)
    unfolding check_rows
    check_rows-P given rows s =
        >>-Does P (report_missing given rows)
          (judge_each tables platform (not flags.no_dns) rows (0, [])
            >>= behind_judged world client flags (length rows))
          (report_missing-P given rows)
          (λ h.
            >>=-Extends P (judge_each tables platform (not flags.no_dns) rows (0, []))
              (behind_judged world client flags (length rows)) h (judge_each-P rows (0, []) h)
              (λ j t e.
                behind_judged-P (length rows) j
                  (λ d. judge_each-Judges rows (0, []) j h t (s d) tt e) t))
