-- ===== src/Connconfig/Host.antt =====
-- internal/connconfig/connconfig.go: `ipv4Literal` and `validHost`. A pattern that ends in `\n?$`,
-- of a class without the line feed, fits a text exactly if it fits the text less one line feed at
-- its end.
use lierc_api.Base.{
  ℕ, ◌+◌, ◌-◌, ◌*◌, Bool, true, false, ◌||◌, ◌&&◌, List, [], ◌∷◌, leb, ltb, if◌then◌else◌, ◌==◌,
  nat_eq, list_eq, length,
}
use lierc_api.Utf8.{Text}

unfoldable pub all_of : (ℕ → Bool) → Text → Bool
all_of p [] = true
all_of p (c ∷ cs) = p c && all_of p cs

-- Less a line feed at the end.
unfoldable pub chomp : Text → Text
chomp [] = []
chomp (c ∷ []) = if c == b'\n' then [] else c ∷ []
chomp (c ∷ d ∷ ds) = c ∷ chomp (d ∷ ds)

abbrev pub is_digit : ℕ → Bool
is_digit c = leb b'0' c && leb c b'9'

abbrev pub is_alnum : ℕ → Bool
is_alnum c = is_digit c || ((leb b'A' c && leb c b'Z') || (leb b'a' c && leb c b'z'))

-- `strings.Split(host, ".")`: the first label, and the others.
abbrev pub onto_first : ℕ → Text × List Text → Text × List Text
onto_first c (first, rest) = (c ∷ first, rest)

abbrev pub new_first : Text × List Text → Text × List Text
new_first (first, rest) = ([], first ∷ rest)

unfoldable pub split_dots : Text → Text × List Text
split_dots [] = ([], [])
split_dots (c ∷ cs) =
    let parts = split_dots cs in if c == b'.' then new_first parts else onto_first c parts

-- `strconv.Atoi` of ASCII digits.
unfoldable pub atoi : ℕ → Text → ℕ
atoi n [] = n
atoi n (c ∷ cs) = atoi (n * 10 + (c - b'0')) cs

-- A group of `ipv4Re` that passes the loop: one to three digits, at most 255.
unfoldable pub is_octet : Text → Bool
is_octet p = leb 1 (length p) && (leb (length p) 3 && (all_of is_digit p && leb (atoi 0 p) 255))

abbrev pub four_octets : Text × List Text → Bool
four_octets (a, b ∷ c ∷ d ∷ []) = is_octet a && (is_octet b && (is_octet c && is_octet d))
four_octets _ = false

-- `ipv4Literal`
unfoldable pub ipv4_literal : Text → Bool
ipv4_literal host = four_octets (split_dots (chomp host))

-- The class of `labelRe`, behind the first character: the last one is no hyphen.
unfoldable pub label_rest : Text → Bool
label_rest [] = true
label_rest (c ∷ []) = is_alnum c
label_rest (c ∷ d ∷ ds) = (is_alnum c || c == b'-') && label_rest (d ∷ ds)

abbrev pub label_body : Text → Bool
label_body [] = false
label_body (c ∷ cs) = is_alnum c && (label_rest cs && leb (length cs) 62)

-- `labelRe`
unfoldable pub is_label : Text → Bool
is_label l = label_body (chomp l)

unfoldable pub all_labels : List Text → Bool
all_labels [] = true
all_labels (l ∷ ls) = is_label l && all_labels ls

unfoldable pub last_label : Text → List Text → Text
last_label l [] = l
last_label l (m ∷ ms) = last_label m ms

abbrev pub some_numbers : (ℕ → Bool) → Text → Bool
some_numbers is_number [] = false
some_numbers is_number (c ∷ cs) = all_of is_number (c ∷ cs)

-- `validHost`; `is_number` is the class `\pN` of Unicode.
unfoldable pub valid_labels : (ℕ → Bool) → Text × List Text → Bool
valid_labels is_number (first, rest) =
    if some_numbers is_number (chomp (last_label first rest))
    then false
    else all_labels (first ∷ rest)

unfoldable pub valid_host : (ℕ → Bool) → Text → Bool
valid_host is_number host =
    if ipv4_literal host
    then true
    else if ltb 253 (length host)
    then false
    else valid_labels is_number (split_dots host)
