-- ===== src/Lctl/Encoding/Saved.antt =====
-- internal/lctl/fix_config_encoding.go: what the command does to the connections.
use lierc_api.Base.{
  ℕ, zero, suc, ◌≡◌, refl, ap, Bool, true, false, List, [], ◌∷◌, Option, none, some, Bytes,
  if◌then◌else◌, nat_eq, list_eq,
}
use lierc_api.Utf8.{Text}
use lierc_api.Json.{Json, null, boolean, number, text, array, object, Fields}
use lierc_api.World.{
  ok, Event, Line, pure, print, printed, ◌>>◌, saved_config, notified, changed_meanwhile, would_fix,
  fixed_total,
}
use lierc_api.World.Acts.{here, more, Does, >>=-Does, >>-Does, log-Does}
use lierc_api.Lctl.Encoding.{
  Row, Progress, counted_in, skip_one, no_rows, Store, Changed, repair_config, sort_keys,
  print_fields, report, update, behind_update, save_text, fix_changed, fix_decoded, fix_each,
  notify, remind, fail_if_skipped, suggest, conclude, fix_config_encoding,
}

pub data Among (row : Row) : List Row → Type 0 where
  first : {rows : List Row} → Among row (row ∷ rows)
  later : {other : Row} {rows : List Row} → Among row rows → Among row (other ∷ rows)

-- A config is saved only with --fix, over the text that was read of its row, as the JSON text of
-- that config with its values repaired.
abbrev pub SavesRepair : Store → Bool → List Row → Event → Type 0
SavesRepair store fix rows (printed _) = Unit
SavesRepair store fix rows notified = fix ≡ true
SavesRepair store fix rows (saved_config id new old _) =
    (fix ≡ true)
    × (row : Row) × (config : Fields) × Among row rows
    × (id ≡ row.id)
    × (old ≡ row.config)
    × (store.decode_json old ≡ some (object config))
    × (store.encode_json (repair_config config).0 ≡ some new)
SavesRepair store fix rows _ = ⊥

module _ (store : Store) (fix : Bool) (rows : List Row) where
  P : Event → Type 0
  P e = SavesRepair store fix rows e

  pure-P : {A : Type 0} (a : A) → Does P (pure a)
  pure-P a h = here

  print-P : (l : Line) → Does P (print l)
  unfolding P
  print-P l = log-Does P (printed l) tt

  print_fields-P : (changed : Changed) → Does P (print_fields changed)
  unfolding print_fields
  print_fields-P [] = pure-P tt
  print_fields-P (entry ∷ rest) =
      >>-Does P (print _) (print_fields rest) (print-P _) (print_fields-P rest)

  report-P : (row : Row) (changed : Changed) (p : Progress) → Does P (report row changed p)
  unfolding report
  report-P row changed p =
      >>-Does P (print _) (print_fields (sort_keys changed) >> pure (counted_in row changed p))
        (print-P _)
        (>>-Does P (print_fields (sort_keys changed)) (pure (counted_in row changed p))
          (print_fields-P (sort_keys changed)) (pure-P (counted_in row changed p)))

  module _ (row : Row) (config : Fields) (among : Among row rows)
      (read : store.decode_json row.config ≡ some (object config)) where
    save_text-P :
        (changed : Changed) (p : Progress) (o : Option Text)
        → fix ≡ true
        → store.encode_json (repair_config config).0 ≡ o
        → Does P (save_text store row changed p o)
    unfolding update P
    save_text-P changed p none f e = λ h. here
    save_text-P changed p (some new) f e =
        >>=-Does P (update store row new) (behind_update row changed p)
          (λ h. more (f, row, config, among, refl, refl, read, e) here) behind
      where
        behind : (n : ℕ) → Does P (behind_update row changed p n)
        behind zero =
            >>-Does P (print (changed_meanwhile row.id)) (pure (skip_one p)) (print-P _)
              (pure-P (skip_one p))
        behind (suc n) = report-P row changed p

    fix_changed-P :
        (q : Fields × Changed) (p : Progress)
        → repair_config config ≡ q
        → Does P (fix_changed store fix row q p)
    unfolding fix_changed
    fix_changed-P (repaired, []) p e = pure-P p
    fix_changed-P (repaired, entry ∷ rest) p e = either fix refl
      where
        either :
            (b : Bool)
            → fix ≡ b
            → Does P (
                if b
                then save_text store row (entry ∷ rest) p (store.encode_json repaired)
                else report row (entry ∷ rest) p)
        either true f =
            save_text-P (entry ∷ rest) p (store.encode_json repaired) f
              (ap (λ q. store.encode_json q.0) e)
        either false f = report-P row (entry ∷ rest) p

  fix_decoded-P :
      (row : Row) (o : Option Json) (p : Progress)
      → Among row rows
      → store.decode_json row.config ≡ o
      → Does P (fix_decoded store fix row o p)
  unfolding fix_decoded
  fix_decoded-P row none p a e = pure-P p
  fix_decoded-P row (some null) p a e = pure-P p
  fix_decoded-P row (some (boolean _)) p a e = pure-P p
  fix_decoded-P row (some (number _)) p a e = pure-P p
  fix_decoded-P row (some (text _)) p a e = pure-P p
  fix_decoded-P row (some (array _)) p a e = pure-P p
  fix_decoded-P row (some (object config)) p a e =
      fix_changed-P row config a e (repair_config config) p refl

  abbrev AllAmong : List Row → Type 0
  AllAmong [] = Unit
  AllAmong (row ∷ rest) = Among row rows × AllAmong rest

  fix_each-P : (todo : List Row) (p : Progress) → AllAmong todo → Does P (fix_each store fix todo p)
  unfolding fix_each
  fix_each-P [] p a = pure-P p
  fix_each-P (row ∷ rest) p a =
      >>=-Does P (fix_decoded store fix row (store.decode_json row.config) p)
        (fix_each store fix rest) (fix_decoded-P row (store.decode_json row.config) p a.0 refl)
        (λ q. fix_each-P rest q a.1)

  conclude-P : (p : Progress) → Does P (conclude store fix p)
  unfolding conclude notify P
  conclude-P p = either fix refl
    where
      notified_so : (n : ℕ) → fix ≡ true → Does P (notify store n)
      notified_so zero f h = here
      notified_so (suc n) f h = more f here

      reminded : (ids : List Bytes) → Does P (remind ids)
      reminded [] = pure-P tt
      reminded (id ∷ ids) = print-P _

      counted : (n : ℕ) → Does P (fail_if_skipped n)
      counted zero h = here
      counted (suc n) h = here

      suggested : (n : ℕ) → Does P (suggest n)
      suggested zero = pure-P tt
      suggested (suc n) = print-P _

      either :
          (b : Bool)
          → fix ≡ b
          → Does P (
              if b
              then notify store p.fixed
                >> (print (fixed_total p.fixed)
                    >> (remind p.reconnects >> fail_if_skipped p.skipped))
              else print (would_fix p.fixed) >> suggest p.fixed)
      either true f =
          >>-Does P (notify store p.fixed)
            (print (fixed_total p.fixed) >> (remind p.reconnects >> fail_if_skipped p.skipped))
            (notified_so p.fixed f)
            (>>-Does P (print (fixed_total p.fixed))
              (remind p.reconnects >> fail_if_skipped p.skipped) (print-P _)
              (>>-Does P (remind p.reconnects) (fail_if_skipped p.skipped) (reminded p.reconnects)
                (counted p.skipped)))
      either false f =
          >>-Does P (print (would_fix p.fixed)) (suggest p.fixed) (print-P _) (suggested p.fixed)

  all_among : (todo : List Row) → ((row : Row) → Among row todo → Among row rows) → AllAmong todo
  all_among [] f = tt
  all_among (row ∷ rest) f = (f row first, all_among rest (λ r a. f r (later a)))

-- All that fix-config-encoding does, whatever the database answers, is to print and to save repairs:
-- a config is written, and highlights are notified, only with --fix; each write is guarded by the
-- text that was read of its row, and is the JSON text of the config read with its values repaired.
pub fix_config_encoding-SavesRepair :
    (store : Store) (fix : Bool) (rows : List Row)
    → Does (SavesRepair store fix rows) (fix_config_encoding store fix (ok rows))
unfolding fix_config_encoding P
fix_config_encoding-SavesRepair store fix rows =
    >>=-Does (SavesRepair store fix rows) (fix_each store fix rows no_rows) (conclude store fix)
      (fix_each-P store fix rows rows _ (all_among store fix rows rows (λ r a. a)))
      (λ p. conclude-P store fix rows p)
