-- ===== src/Lctl/Inactive/Since.antt =====
-- internal/lctl/inactive_users.go: which numbers of days `parseSince` takes, and for how long.
use lierc_api.Base.{
  ℕ, ◌≡◌, ◌<◌, ◌≤◌, ◌*◌, ◌^◌, refl, ap, ◌∙◌, ◌&&◌, [], ◌∷◌, ◌++◌, Option, none, some, ℤ, pos, Bytes,
  if◌then◌else◌, ltb, leb, arith, nat_eq, txt,
}
use lierc_api.Base.Radix.{decimal}
use lierc_api.Stream.Perl.Decimal.{parse_int-decimal}
use lierc_api.Lctl.Inactive.{cut_d, days, parse_since}

cut_d-append : (s : Bytes) → cut_d (s ++ txt "d") ≡ some s
unfolding cut_d
cut_d-append [] = refl
cut_d-append (c ∷ []) = refl
cut_d-append (c ∷ d ∷ ds) = rw (cut_d-append (d ∷ ds))

days_lem :
    (n : ℕ)
    → days (if ltb n (2 ^ 63) then some (pos n) else none)
      ≡ (if leb 1 n && leb n 100000 then some (n * (24 * 3600 * 10 ^ 9)) else none)
days_lem n = ground arith

-- A number of days in decimal, followed by "d", is a duration exactly if it is from 1 to 100000, and
-- then it is that many days in nanoseconds, a number that an int64 holds.
pub parse_since_days :
    (parse_duration : Bytes → Option ℤ) (n : ℕ)
    → (parse_since parse_duration (decimal n ++ txt "d")
        ≡ (if leb 1 n && leb n 100000 then some (n * (24 * 3600 * 10 ^ 9)) else none))
      × (n ≤ 100000 → n * (24 * 3600 * 10 ^ 9) < 2 ^ 63)
unfolding parse_since
parse_since_days parse_duration n =
    (rw (cut_d-append (decimal n)) (ap days (parse_int-decimal n) ∙ days_lem n), λ h. omega arith)
