-- ===== src/Connconfig/Clean/Kept.antt =====
-- internal/connconfig/connconfig.go: a field that was accepted is accepted again unchanged.
use lierc_api.Base.{
  ℕ, ◌≡◌, ◌≤◌, refl, ap, sym, subst, ◌∙◌, List, [], ◌∷◌, ◌++◌, Option, none, some, Bool-cases, inl,
  inr, Bool, true, false, ◌&&◌, ◌||◌, not, arith, if◌then◌else◌, nat_eq, list_eq, txt, leb, ltb,
}
use lierc_api.Base.Radix.{decimal}
use lierc_api.Utf8.{Text, byte_len}
use lierc_api.Json.{Json, null, boolean, number, text, array, object}
use lierc_api.Connconfig.Text.{
  Checked, valid, invalid, ◌>>=◌, trim, str, or_empty, list, read_boolean,
}
use lierc_api.Connconfig.Text.Trimmed.{trim-trim, list-Tidy, items_of, list_items-items_of}
use lierc_api.Connconfig.Host.{valid_host}
use lierc_api.Connconfig.Clean.{
  Tables, checked_host, host_of, checked_port, port_of, checked_nick, nick_of, optional, pass_of,
  no_breaks,
}
use lierc_api.Connconfig.Patterns.{
  check_each, err_nick, err_nick_long, nick_re, contains_any, nick_forbidden, is_reserved,
  reserved_names,
}

>>=-eq-valid :
    {A B : Type 0} (m : Checked A) (f : A → Checked B) {b : B}
    → (m >>= f) ≡ valid b
    → (a : A) × (m ≡ valid a) × (f a ≡ valid b)
>>=-eq-valid (valid a) f h = (a, refl, h)
>>=-eq-valid (invalid e) f h = cc

-- An optional text as JSON.
abbrev pub json_of : Option Text → Json
json_of none = null
json_of (some s) = text s

str-json_of : (o : Option Text) (label : Text) → str (json_of o) label ≡ valid o
unfolding str
str-json_of none label = refl
str-json_of (some s) label = refl

optional_id :
    (fits : Text → Bool) (problem t : Text) (o : Option Text)
    → optional fits problem t ≡ valid o
    → or_empty o ≡ t
unfolding optional
optional_id fits problem [] o e = let z : o ≡ none = (cc) in rw z refl
optional_id fits problem (c ∷ cs) o e = elim (Bool-cases (fits (c ∷ cs))) [
  | inl f ↦ let z : some (c ∷ cs) ≡ o = ground arith in subst (λ u. or_empty u ≡ c ∷ cs) z refl
  | inr f ↦ absurd (ground arith)
]

-- A trimmed optional field, and one that is not trimmed.
pub optional_again :
    (fits : Text → Bool) (problem label : Text) (j : Json) (o : Option Text)
    → (str j label >>= λ s. optional fits problem (trim (or_empty s))) ≡ valid o
    → (str (json_of o) label >>= λ s. optional fits problem (trim (or_empty s))) ≡ valid o
optional_again fits problem label j o e =
    let (s, _, k) = >>=-eq-valid (str j label) (λ s. optional fits problem (trim (or_empty s))) e in
    rw
      (
        str-json_of o label,
        optional_id fits problem (trim (or_empty s)) o k,
        trim-trim (or_empty s),
      )
      k

pub pass_again : (j : Json) (o : Option Text) → pass_of j ≡ valid o → pass_of (json_of o) ≡ valid o
unfolding pass_of
pass_again j o e =
    let (s, _, k) =
      >>=-eq-valid (str j (txt "Password"))
        (λ s. optional no_breaks (txt "Password can't contain line breaks") (or_empty s)) e in
    rw
      (
        str-json_of o (txt "Password"),
        optional_id no_breaks (txt "Password can't contain line breaks") (or_empty s) o k,
      )
      k

check_each_id :
    (fits : Text → Bool) (because : Text → Text) (ss out : List Text)
    → check_each fits because ss ≡ valid out
    → out ≡ ss
unfolding check_each
check_each_id fits because [] out e = cc
check_each_id fits because (s ∷ ss) out e = elim (Bool-cases (fits s)) [
  | inr f ↦ absurd (ground arith)
  | inl f ↦
      let (rest, p, k) =
        >>=-eq-valid (check_each fits because ss) (λ ok_ones. valid (s ∷ ok_ones))
          (rw (f, check_each) at e) in
      let z : rest ≡ ss = check_each_id fits because ss rest p in cc
]

pub list_again :
    (fits : Text → Bool) (because : Text → Text) (j : Json) (name : Text) (out : List Text)
    → (list j name >>= check_each fits because) ≡ valid out
    → (list (array (items_of out)) name >>= check_each fits because) ≡ valid out
unfolding list
list_again fits because j name out e =
    let (items, p, k) = >>=-eq-valid (list j name) (check_each fits because) e in
    let same : out ≡ items = check_each_id fits because items out k in
    rw (same, list_items-items_of items name (list-Tidy j name items p)) (rw same at k)

pub boolean_again : (name : Text) (b : Bool) → read_boolean (boolean b) name ≡ valid b
unfolding read_boolean
boolean_again name b = refl

-- Three tests that raise an error, none of which did.
through :
    {A : Type 0} (p q r : Bool) (x y z : Text) (a b : A)
    → (if p then invalid x else if q then invalid y else if r then invalid z else valid a) ≡ valid b
    → a ≡ b
through true q r x y z a b e = cc
through false true r x y z a b e = cc
through false false true x y z a b e = cc
through false false false x y z a b e = cc

module _ (tables : Tables) where
  checked_host_id : (t h : Text) → checked_host tables t ≡ valid h → t ≡ h
  unfolding checked_host
  checked_host_id [] h e = cc
  checked_host_id (c ∷ cs) h e = elim (Bool-cases (valid_host tables.is_number (c ∷ cs))) [
    | inl f ↦ ground arith
    | inr f ↦ absurd (ground arith)
  ]

  pub host_again :
      (j : Json) (h : Text) → host_of tables j ≡ valid h → host_of tables (text h) ≡ valid h
  unfolding host_of str
  host_again j h e =
      let (s, _, k) =
        >>=-eq-valid (str j (txt "Host")) (λ s. checked_host tables (trim (or_empty s))) e in
      rw (← checked_host_id (trim (or_empty s)) h k)
        (rw (trim-trim (or_empty s)) (k ∙ ap valid (sym (checked_host_id (trim (or_empty s)) h k))))

  checked_nick_id : (t n : Text) → checked_nick tables t ≡ valid n → t ≡ n
  unfolding checked_nick
  checked_nick_id [] n e = cc
  checked_nick_id (c ∷ cs) n e =
      let nick = c ∷ cs in
      through (not (nick_re tables.is_visible nick) || contains_any nick nick_forbidden)
        (ltb 32 (byte_len nick) || ltb 32 (byte_len (tables.nfd (tables.fold (tables.nfd nick)))))
        (is_reserved tables.fold reserved_names (tables.fold nick)) err_nick err_nick_long
        (txt "Nick " ++ (nick ++ txt " is reserved")) nick n e

  pub nick_again :
      (j : Json) (n : Text) → nick_of tables j ≡ valid n → nick_of tables (text n) ≡ valid n
  unfolding nick_of str
  nick_again j n e =
      let (s, _, k) =
        >>=-eq-valid (str j (txt "Nick")) (λ s. checked_nick tables (trim (or_empty s))) e in
      rw (← checked_nick_id (trim (or_empty s)) n k)
        (rw (trim-trim (or_empty s)) (k ∙ ap valid (sym (checked_nick_id (trim (or_empty s)) n k))))

  pub port_again :
      ((n : ℕ) → n ≤ 65535 → tables.whole (decimal n) ≡ some n)
      → (j : Json) (n : ℕ) → port_of tables j ≡ valid n
      → port_of tables (number (decimal n)) ≡ valid n
  unfolding port_of checked_port
  port_again exact null n e = cc
  port_again exact (boolean _) n e = cc
  port_again exact (text _) n e = cc
  port_again exact (array _) n e = cc
  port_again exact (object _) n e = cc
  port_again exact (number s) n e = checked (tables.whole s) e
    where
      checked :
          (o : Option ℕ)
          → checked_port tables o ≡ valid n
          → checked_port tables (tables.whole (decimal n)) ≡ valid n
      checked none k = cc
      checked (some m) k = elim (Bool-cases (leb 1 m && leb m 65535)) [
        | inr f ↦ absurd (ground arith)
        | inl f ↦
            let z : m ≡ n = ground arith in
            rw (exact n (ground arith)) (subst (λ u. checked_port tables (some u) ≡ valid n) z k)
      ]
