-- ===== src/Tests/Main.antt =====
-- Two commands, and ids on stdin.
use lierc_api.Base.{◌≡◌, refl, List, [], ◌∷◌, false, none, Bytes, txt, nat_eq, list_eq}
use lierc_api.Lctl.Main.{
  End, success, misused, main_with, run_found, run_command, exit_code, find_command, is_help, ids,
  not_blank, read_ids,
}
use lierc_api.Lctl.Main.Exits.{Exited, main_with_lem}

abbrev commands : List Bytes
commands = txt "stats" ∷ txt "prune" ∷ []

run : Bytes → List Bytes → End
run name [] = misused []
run name (a ∷ args) = success

zero_exit : (main_with commands none run (txt "prune" ∷ txt "log" ∷ [])).0 ≡ 0
unfolding main_with run_found run_command exit_code find_command is_help run
zero_exit = refl

main_with_lem_example :
    Exited commands none run
      (txt "prune" ∷ txt "log" ∷ [])
      (main_with commands none run (txt "prune" ∷ txt "log" ∷ [])).1
main_with_lem_example = main_with_lem commands none run (txt "prune" ∷ txt "log" ∷ []) zero_exit

read :
    read_ids (λ s. s) false (txt "c1" ∷ [] ∷ txt "c2" ∷ []) none [] ≡ ids (txt "c1" ∷ txt "c2" ∷ [])
unfolding read_ids not_blank
read = refl
