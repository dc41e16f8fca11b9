-- ===== src/Lctl/Encoding.antt =====
-- internal/lctl/fix_config_encoding.go: the repair of configs whose texts were encoded twice. The
-- rows that are read, reading and writing JSON, and the answers of the UPDATE and the NOTIFY are
-- arguments.
pub mod Undone
pub mod Repaired
pub mod Saved
use lierc_api.Base.{
  ℕ, zero, suc, ◌+◌, Bool, true, false, not, ◌||◌, ◌&&◌, List, [], ◌∷◌, ◌++◌, Option, none, some,
  Bytes, map, ltb, leb, if◌then◌else◌, ◌==◌, nat_eq, list_eq, txt,
}
use lierc_api.Utf8.{Text, decode}
use lierc_api.Json.{
  Json, null, boolean, number, text, array, object, Items, nil, cons, Fields, end, field,
}
use lierc_api.World.{
  Act, Result, ok, Error, Trace, pure, unless_error, raise, done, print, log, ◌>>=◌, ◌>>◌,
  saved_config, notified, not_encoded, changed_while_fixing, changed_meanwhile, repaired_line,
  field_hidden, field_line, would_fix, fix_again, fixed_total, reconnect_now,
}

-- The loop of `undoDoubleUTF8`: the bytes so far, and whether one of them is not ASCII.
unfoldable pub latin1 : Text → Bytes → Bool → Option (Bytes × Bool)
latin1 [] b high = some (b, high)
latin1 (r ∷ rs) b high =
    let rest = latin1 rs (b ++ (r ∷ [])) (high || leb 0x80 r) in if ltb 0xff r then none else rest

abbrev pub if_high : Option (Bytes × Bool) → Option Text
if_high none = none
if_high (some (b, false)) = none
if_high (some (b, true)) = decode b

-- `undoDoubleUTF8`
unfoldable pub undo_double_utf8 : Text → Option Text
undo_double_utf8 s = if_high (latin1 s [] false)

abbrev pub repaired_text : Text → Option Text → Json × List Text
repaired_text s none = (text s, [])
repaired_text s (some t) = (text t, t ∷ [])

-- `repairValue`, with the texts that it hands to `fixed`.
unfoldable mutual
  pub repair_value : Json → Json × List Text
  repair_value null = (null, [])
  repair_value (boolean b) = (boolean b, [])
  repair_value (number n) = (number n, [])
  repair_value (text s) = repaired_text s (undo_double_utf8 s)
  repair_value (array items) = let (r, fixed) = repair_items items in (array r, fixed)
  repair_value (object fields) = let (r, fixed) = repair_fields fields in (object r, fixed)

  pub repair_items : Items → Items × List Text
  repair_items nil = (nil, [])
  repair_items (cons v items) =
      let (r, fixed) = repair_value v in
      let (rs, more) = repair_items items in (cons r rs, fixed ++ more)

  pub repair_fields : Fields → Fields × List Text
  repair_fields end = (end, [])
  repair_fields (field k v fields) =
      let (r, fixed) = repair_value v in
      let (rs, more) = repair_fields fields in (field k r rs, fixed ++ more)

-- `changed`: the repaired texts by their key.
abbrev pub Changed : Type 0
Changed = List (Text × List Text)

abbrev pub add_changed : Text → List Text → Changed → Changed
add_changed k [] changed = changed
add_changed k (t ∷ ts) changed = (k, t ∷ ts) ∷ changed

-- The loop over the keys of a config.
unfoldable pub repair_config : Fields → Fields × Changed
repair_config end = (end, [])
repair_config (field k v fields) =
    let (r, fixed) = repair_value v in
    let (rs, changed) = repair_config fields in (field k r rs, add_changed k fixed changed)

unfoldable pub text_lt : Text → Text → Bool
text_lt [] [] = false
text_lt [] (d ∷ ds) = true
text_lt (c ∷ cs) [] = false
text_lt (c ∷ cs) (d ∷ ds) = ltb c d || (c == d && text_lt cs ds)

unfoldable pub insert_key : Text × List Text → Changed → Changed
insert_key entry [] = entry ∷ []
insert_key entry (other ∷ rest) =
    let later = insert_key entry rest in
    if text_lt other.0 entry.0 then other ∷ later else entry ∷ other ∷ rest

-- `sort.Strings(keys)`
unfoldable pub sort_keys : Changed → Changed
sort_keys [] = []
sort_keys (entry ∷ rest) = insert_key entry (sort_keys rest)

abbrev pub is_live : Text → Bool
is_live k = not (k == txt "Highlight" || k == txt "Alias")

-- Whether a field that liercd uses has changed.
unfoldable pub needs_reconnect : Changed → Bool
needs_reconnect [] = false
needs_reconnect (entry ∷ rest) = is_live entry.0 || needs_reconnect rest

pub record Row : Type 0 where
  pub id : Bytes
  pub username : Bytes
  pub config : Text

pub record Progress : Type 0 where
  pub fixed : ℕ
  pub skipped : ℕ
  pub reconnects : List Bytes

-- The standard library and Postgres.
pub record Store : Type 0 where
  pub decode_json : Text → Option Json
  pub encode_json : Fields → Option Text
  -- the rows that the UPDATE changes: id, new and old text
  pub update_config : Trace → Bytes → Text → Text → Result ℕ
  pub notify_error : Trace → Option Error

-- The lines of a repaired connection.
unfoldable pub print_fields : Changed → Act (Unit {0})
print_fields [] = pure tt
print_fields (entry ∷ rest) =
    print (if entry.0 == txt "Pass" then field_hidden entry.0 else field_line entry.0 entry.1)
    >> print_fields rest

abbrev pub counted_in : Row → Changed → Progress → Progress
counted_in row changed p = record p {
  fixed = suc p.fixed;
  reconnects = if needs_reconnect changed then p.reconnects ++ (row.id ∷ []) else p.reconnects;
}

unfoldable pub report : Row → Changed → Progress → Act Progress
report row changed p =
    print (repaired_line row.id row.username (needs_reconnect changed))
    >> (print_fields (sort_keys changed) >> pure (counted_in row changed p))

abbrev pub skip_one : Progress → Progress
skip_one p = record p { skipped = suc p.skipped }

abbrev pub behind_update : Row → Changed → Progress → ℕ → Act Progress
behind_update row changed p zero = print (changed_meanwhile row.id) >> pure (skip_one p)
behind_update row changed p (suc n) = report row changed p

abbrev pub remind : List Bytes → Act (Unit {0})
remind [] = pure tt
remind (id ∷ ids) = print (reconnect_now (id ∷ ids))

abbrev pub fail_if_skipped : ℕ → Act (Unit {0})
fail_if_skipped zero = pure tt
fail_if_skipped (suc n) = raise (changed_while_fixing (suc n))

abbrev pub suggest : ℕ → Act (Unit {0})
suggest zero = pure tt
suggest (suc n) = print fix_again

abbrev pub no_rows : Progress
no_rows = record { fixed = 0; skipped = 0; reconnects = [] }

module _ (store : Store) where
  -- The UPDATE, with the number of rows.
  unfoldable pub update : Row → Text → Act ℕ
  update row new h =
      let r = store.update_config h row.id new row.config in
      (r, saved_config row.id new row.config r ∷ h)

  abbrev pub save_text : Row → Changed → Progress → Option Text → Act Progress
  save_text row changed p none = raise not_encoded
  save_text row changed p (some new) = update row new >>= behind_update row changed p

  -- NOTIFY, where something was fixed.
  unfoldable pub notify : ℕ → Act (Unit {0})
  notify zero h = (ok tt, h)
  notify (suc n) h = (unless_error (store.notify_error h), notified ∷ h)

module _ (store : Store) (fix : Bool) where
  -- One connection, its config decoded and repaired.
  unfoldable pub fix_changed : Row → Fields × Changed → Progress → Act Progress
  fix_changed row (repaired, []) p = pure p
  fix_changed row (repaired, entry ∷ rest) p =
      if fix
      then save_text store row (entry ∷ rest) p (store.encode_json repaired)
      else report row (entry ∷ rest) p

  unfoldable pub fix_decoded : Row → Option Json → Progress → Act Progress
  fix_decoded row (some (object config)) p = fix_changed row (repair_config config) p
  fix_decoded row _ p = pure p

  -- The loop over the connections.
  unfoldable pub fix_each : List Row → Progress → Act Progress
  fix_each [] p = pure p
  fix_each (row ∷ rows) p = fix_decoded row (store.decode_json row.config) p >>= fix_each rows

  -- Behind the loop.
  unfoldable pub conclude : Progress → Act (Unit {0})
  conclude p =
      if fix
      then notify store p.fixed
        >> (print (fixed_total p.fixed) >> (remind p.reconnects >> fail_if_skipped p.skipped))
      else print (would_fix p.fixed) >> suggest p.fixed

  -- `fixConfigEncoding`, behind the flags and the query.
  unfoldable pub fix_config_encoding : Result (List Row) → Act (Unit {0})
  fix_config_encoding rows = done rows >>= λ rows. fix_each rows no_rows >>= conclude
