-- ===== src/Tests/Storable.antt =====
-- Frozen hashes: what the reader makes of them.
use lierc_api.Base.{
  ℕ, ◌<◌, ◌^◌, ◌≡◌, refl, List, [], ◌∷◌, ◌++◌, Option, none, some, Bytes, txt, length, All, arith,
  nat_eq, list_eq,
}
use lierc_api.Base.Assoc.{insert}
use lierc_api.Storable.{
  Hash, uint8, uint32, slice, read_length, read_string, read_key, decode_entries, decode_counted,
  decode_hash, decode_hash_body,
}
use lierc_api.Storable.Format.{Entry, short, long, utf8_short, Fits, freeze, hash_onto}
use lierc_api.Storable.Guard.{decode_counted-eq-decode_entries}
use lierc_api.Storable.RoundTrip.{decode_hash-freeze}
use lierc_api.Storable.Sound.{decode_hash_sound}

-- { user => "7", n => "a" }, the second value in the long form.
abbrev frozen : Bytes
frozen =
    5 ∷ 11 ∷ 3 ∷ 0 ∷ 0 ∷ 0 ∷ 2 ∷ 10 ∷ 1 ∷ b'7' ∷ 0 ∷ 0 ∷ 0 ∷ 4 ∷ b'u' ∷ b's' ∷ b'e' ∷ b'r' ∷ 1 ∷ 0
    ∷ 0 ∷ 0 ∷ 1 ∷ b'a' ∷ 0 ∷ 0 ∷ 0 ∷ 1 ∷ b'n' ∷ []

abbrev hash : Hash
hash = (txt "user", txt "7") ∷ (txt "n", txt "a") ∷ []

run : Bytes → Option Hash
unfolding decode_hash decode_hash_body decode_counted decode_entries read_string read_key
    read_length uint8 uint32 slice insert
run = decode_hash

run-frozen : run frozen ≡ some hash
unfolding run
run-frozen = refl

-- One byte behind the last entry is refused, and so is a count that the input cannot hold.
run_trailing : run (frozen ++ (0 ∷ [])) ≡ none
unfolding run
run_trailing = refl

run_count : run (5 ∷ 11 ∷ 3 ∷ 255 ∷ 255 ∷ 255 ∷ 255 ∷ []) ≡ none
unfolding run
run_count = refl

abbrev entries : List Entry
entries =
    record { scalar = short; value = txt "7"; key = txt "user" }
    ∷ record { scalar = long; value = txt "a"; key = txt "n" }
    ∷ record { scalar = utf8_short; value = txt "8"; key = txt "user" }
    ∷ []

decode_hash-freeze_example : decode_hash (freeze 11 entries) ≡ some (hash_onto [] entries)
decode_hash-freeze_example = decode_hash-freeze 11 entries (omega arith) (omega arith)

decode_hash_sound_example :
    (minor : ℕ) × (es : List Entry) × (frozen ≡ freeze minor es)
    × (length es < 2 ^ 32)
    × All Fits es
    × (hash ≡ hash_onto [] es)
unfolding run
decode_hash_sound_example = decode_hash_sound frozen {hash = hash} (omega arith) run-frozen

decode_counted-eq-decode_entries_example :
    decode_counted (3, 10 ∷ 0 ∷ []) ≡ decode_entries 3 (10 ∷ 0 ∷ []) []
decode_counted-eq-decode_entries_example = decode_counted-eq-decode_entries 3 (10 ∷ 0 ∷ [])
