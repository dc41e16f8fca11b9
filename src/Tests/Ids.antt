-- ===== src/Tests/Ids.antt =====
-- Ids from known texts and bytes.
use lierc_api.Base.{true, false, ◌≡◌, refl, [], ◌∷◌, Bytes, txt, arith}
use lierc_api.Base.Radix.{of_digits}
use lierc_api.Ids.{
  digit, hex_digit, hex_digits, parse_magnitude, set_string, digit_loop, of_big, from_hex,
  upper_hex, new_id,
}
use lierc_api.Ids.Value.{value62}
use lierc_api.Ids.Written.{small, Writes, from_hex-Writes}
use lierc_api.Ids.Distinct.{value62-new_id}

run : Bytes → Bytes
unfolding from_hex set_string parse_magnitude hex_digits hex_digit of_digits of_big digit_loop digit
    upper_hex new_id
run = from_hex

run_ff : run (txt "0xFF") ≡ txt "47"
unfolding run
run_ff = refl

run_zero : run (txt "0") ≡ txt "0"
unfolding run
run_zero = refl

-- No number at all is answered like zero, and a negative one by nothing.
run_word : run (txt "lierc") ≡ txt "0"
unfolding run
run_word = refl

run_negative : run (txt "-5") ≡ []
unfolding run
run_negative = refl

run_wide : run (txt "FFFFFFFFFFFFFFFFFFFFFFFFFFFFFFFF") ≡ txt "7n42DGM5Tflk9n8mt7Fhc7"
unfolding run
run_wide = refl

abbrev eight : Bytes
eight = 1 ∷ 2 ∷ 3 ∷ 4 ∷ 5 ∷ 6 ∷ 7 ∷ 250 ∷ []

-- 0xFf, with one digit in capitals.
from_hex-Writes_example : Writes 255 (from_hex (txt "0xFf"))
unfolding of_digits
from_hex-Writes_example = from_hex-Writes small (true, 15) ((false, 15) ∷ []) (omega arith)

value62-new_id_example : value62 (new_id eight) ≡ 72623859790383098
unfolding of_digits
value62-new_id_example = value62-new_id 1 (2 ∷ 3 ∷ 4 ∷ 5 ∷ 6 ∷ 7 ∷ 250 ∷ []) (omega arith)
