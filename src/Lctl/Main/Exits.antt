-- ===== src/Lctl/Main/Exits.antt =====
-- internal/lctl/lctl.go: what an exit code says.
use lierc_api.Base.{
  ◌≡◌, ◌≢◌, refl, sym, subst, ◌∙◌, ◌⊎◌, inl, inr, true, false, ◌++◌, List, [], ◌∷◌, Option, none,
  some, Bytes, All, nat_eq, list_eq, key_cases, Bool-cases, arith,
}
use lierc_api.Lctl.Main.{
  End, success, help_asked, misused, broke, Deed, help_out, opened, ran, released, complaint,
  is_help, find_command, exit_code, run_command, run_found, main_with, ids, not_blank, read_ids,
  some_ids,
}

abbrev pub IsCommand : Bytes → List Bytes → Type 0
IsCommand name [] = ⊥
IsCommand name (c ∷ cs) = (c ≡ name) ⊎ IsCommand name cs

-- A command that is found has the name and is one of the commands, or was found before.
find_command-eq :
    (name : Bytes) (cs : List Bytes) (found : Option Bytes) (c : Bytes)
    → find_command name cs found ≡ some c
    → ((c ≡ name) × IsCommand name cs) ⊎ (found ≡ some c)
unfolding find_command
find_command-eq name [] found c e = inr e
find_command-eq name (d ∷ cs) found c e = elim (key_cases d name) [
  | inr (_, f) ↦ elim (find_command-eq name cs found c (rw f at e)) [
    | inl (q, i) ↦ inl (q, inr i)
    | inr q ↦ inr q
  ]
  | inl (p, t) ↦ elim (find_command-eq name cs (some d) c (rw t at e)) [
    | inl (q, i) ↦ inl (q, inr i)
    | inr q ↦ let z : d ≡ c = cc in inl (sym z ∙ p, inl p)
  ]
]

-- Nothing to complain about: no error, or a question for the help.
abbrev pub Fine : End → Type 0
Fine e = (e ≡ success) ⊎ (e ≡ help_asked)

module _ (commands : List Bytes) (open_error : Option Bytes) (run : Bytes → List Bytes → End) where
  -- The usage is printed because it was asked for, and nothing is done; or the command of the first
  -- argument ran, in an environment opened before and released behind, and ended well.
  abbrev pub Exited : List Bytes → List Deed → Type 0
  Exited [] deeds = deeds ≡ help_out ∷ []
  Exited (a ∷ args) deeds =
      ((is_help a ≡ true) × (deeds ≡ help_out ∷ []))
      ⊎ (IsCommand a commands
          × (open_error ≡ none)
          × (deeds ≡ opened ∷ ran a args ∷ released ∷ [])
          × Fine (run a args))

  run_command-zero :
      (name : Bytes) (args : List Bytes) (o : Option Bytes)
      → (run_command commands open_error run name args o).0 ≡ 0
      → (o ≡ none)
        × ((run_command commands open_error run name args o).1
            ≡ opened ∷ ran name args ∷ released ∷ [])
        × Fine (run name args)
  unfolding run_command exit_code
  run_command-zero name args (some e) z = absurd (omega (arith, z))
  run_command-zero name args none z = ended (run name args) refl z
    where
      ended :
          (r : End)
          → run name args ≡ r
          → exit_code r ≡ 0
          → (◌≡◌ {A = Option Bytes} none none)
            × ((opened ∷ ran name args ∷ (complaint (run name args) ++ (released ∷ [])))
                ≡ opened ∷ ran name args ∷ released ∷ [])
            × Fine (run name args)
      ended success p z = (refl, rw p refl, inl p)
      ended help_asked p z = (refl, rw p refl, inr p)
      ended (misused m) p z = absurd (omega (arith, z))
      ended (broke m) p z = absurd (omega (arith, z))

  -- The exit code is 0 only if lctl printed its usage and did nothing else, for no argument or a first
  -- argument that asks for help; or the first argument names one of the commands, and all that lctl did
  -- is to open the environment, which did not fail, run that command with the other arguments, which
  -- returned no error or asked for help, and release the environment.
  pub main_with_lem :
      (args : List Bytes)
      → (main_with commands open_error run args).0 ≡ 0
      → Exited args (main_with commands open_error run args).1
  unfolding main_with run_found
  main_with_lem [] z = refl
  main_with_lem (a ∷ args) z = elim (Bool-cases (is_help a)) [
    | inl t ↦ inl (t, rw t refl)
    | inr f ↦ rw f (inr (found (find_command a commands none) refl (rw f at z)))
  ]
    where
      found :
          (o : Option Bytes)
          → find_command a commands none ≡ o
          → (run_found commands open_error run args a o).0 ≡ 0
          → IsCommand a commands
            × (open_error ≡ none)
            × ((run_found commands open_error run args a o).1 ≡ opened ∷ ran a args ∷ released ∷ [])
            × Fine (run a args)
      found none p z = absurd (omega (arith, z))
      found (some c) p z = elim (find_command-eq a commands none c p) [
        | inr q ↦ cc
        | inl (q, i) ↦
            let (x, y, w) = run_command-zero c args open_error z in
            (
              i,
              x,
              subst
                  (λ n.
                    (run_command commands open_error run c args open_error).1
                    ≡ opened ∷ ran n args ∷ released ∷ [])
                  q y,
              subst (λ n. Fine (run n args)) q w,
            )
      ]

not_blank-All : (trim : Bytes → Bytes) (ls : List Bytes) → All (λ i. i ≢ []) (not_blank trim ls)
unfolding not_blank
not_blank-All trim [] = tt
not_blank-All trim (l ∷ ls) = elim (key_cases (trim l) []) [
  | inl (_, t) ↦ rw t (not_blank-All trim ls)
  | inr (n, f) ↦ rw f (n, not_blank-All trim ls)
]

-- What is read from stdin as ids has no blank one, and is never nothing.
read_ids_lem :
    (trim : Bytes → Bytes) (lines : List Bytes) (scan_error : Option Bytes) (found : List Bytes)
    → read_ids trim false lines scan_error [] ≡ ids found
    → (found ≢ []) × (found ≡ not_blank trim lines) × All (λ i. i ≢ []) found
unfolding read_ids
read_ids_lem trim lines (some e) found k = cc
read_ids_lem trim lines none found k = held (not_blank trim lines) (not_blank-All trim lines) refl k
  where
    held :
        (ls : List Bytes)
        → All (λ i. i ≢ []) ls
        → ls ≡ not_blank trim lines
        → some_ids ls ≡ ids found
        → (found ≢ []) × (found ≡ not_blank trim lines) × All (λ i. i ≢ []) found
    held [] h p k = cc
    held (l ∷ ls) h p k =
        let z : l ∷ ls ≡ found = cc in (λ q. cc, sym z ∙ p, subst (All (λ i. i ≢ [])) z h)
