-- ===== src/Connconfig/Text/Trimmed.antt =====
-- internal/connconfig/connconfig.go: what `trim` and `list` leave, they leave again.
use lierc_api.Base.{
  ◌≡◌, ◌≢◌, refl, ap, sym, subst, ◌∙◌, List, [], ◌∷◌, ◌++◌, reverse, Bool-cases, inl, inr, false,
  All,
}
use mathlib.Core.List.{reverse-reverse, reverse-append}
use lierc_api.Json.{Json, null, boolean, number, text, array, object, Items, nil, cons}
use lierc_api.Utf8.{Text}
use lierc_api.Connconfig.Text.{
  is_space, drop_space, trim, Checked, valid, invalid, ◌>>=◌, list_items, list, unless_blank,
}

-- No space in front.
abbrev Plain : Text → Type 0
Plain [] = Unit
Plain (c ∷ cs) = is_space c ≡ false

drop_space-Plain : (s : Text) → Plain (drop_space s)
unfolding drop_space
drop_space-Plain [] = tt
drop_space-Plain (c ∷ cs) = elim (Bool-cases (is_space c)) [
  | inl a ↦ rw a (drop_space-Plain cs)
  | inr a ↦ rw a a
]

drop_space_id : (s : Text) → Plain s → drop_space s ≡ s
unfolding drop_space
drop_space_id [] h = refl
drop_space_id (c ∷ cs) h = rw h

drop_space-suffix : (s : Text) → (p : Text) × (s ≡ p ++ drop_space s)
unfolding drop_space
drop_space-suffix [] = ([], refl)
drop_space-suffix (c ∷ cs) = elim (Bool-cases (is_space c)) [
  | inl a ↦ let (p, e) = drop_space-suffix cs in (c ∷ p, rw a (ap (λ t. c ∷ t) e))
  | inr a ↦ ([], rw a)
]

Plain-front : (s t : Text) → Plain (s ++ t) → Plain s
Plain-front [] t h = tt
Plain-front (c ∷ cs) t h = h

pub trim-trim : (s : Text) → trim (trim s) ≡ trim s
unfolding trim
trim-trim s =
    let u = drop_space s in
    let w = drop_space (reverse u) in
    let (p, e) = drop_space-suffix (reverse u) in
    let split : u ≡ reverse w ++ reverse p =
      sym (reverse-reverse u) ∙ ap reverse e ∙ reverse-append p w in
    let plain : Plain (reverse w) =
      Plain-front (reverse w) (reverse p) (subst Plain split (drop_space-Plain s)) in
    rw (
      drop_space_id (reverse w) plain,
      reverse-reverse w,
      drop_space_id w (drop_space-Plain (reverse u)),
    )

-- Trimmed, and not blank.
abbrev pub Tidy : Text → Type 0
Tidy s = (trim s ≡ s) × (s ≢ [])

unless_blank-Tidy :
    (s : Text) (items : List Text) → trim s ≡ s → All Tidy items → All Tidy (unless_blank s items)
unless_blank-Tidy [] items e h = h
unless_blank-Tidy (c ∷ cs) items e h = ((e, λ p. cc), h)

pub list_items-Tidy :
    (items : Items) (name : Text) (out : List Text)
    → list_items items name ≡ valid out
    → All Tidy out
unfolding list_items
list_items-Tidy nil name out e = let z : out ≡ [] = (cc) in rw z tt
list_items-Tidy (cons (text s) items) name out e =
    rest (list_items items name) (list_items-Tidy items name) e
  where
    rest :
        (r : Checked (List Text))
        → ((out : List Text) → r ≡ valid out → All Tidy out)
        → (r >>= λ rest. valid (unless_blank (trim s) rest)) ≡ valid out
        → All Tidy out
    rest (invalid x) ih k = cc
    rest (valid xs) ih k =
        let z : unless_blank (trim s) xs ≡ out = (cc) in
        subst (λ u. All Tidy u) z (unless_blank-Tidy (trim s) xs (trim-trim s) (ih xs refl))
list_items-Tidy (cons null items) name out e = cc
list_items-Tidy (cons (boolean _) items) name out e = cc
list_items-Tidy (cons (number _) items) name out e = cc
list_items-Tidy (cons (array _) items) name out e = cc
list_items-Tidy (cons (object _) items) name out e = cc

pub list-Tidy : (j : Json) (name : Text) (out : List Text) → list j name ≡ valid out → All Tidy out
unfolding list
list-Tidy null name out e = let z : out ≡ [] = (cc) in rw z tt
list-Tidy (array items) name out e = list_items-Tidy items name out e
list-Tidy (boolean _) name out e = cc
list-Tidy (number _) name out e = cc
list-Tidy (text _) name out e = cc
list-Tidy (object _) name out e = cc

-- A list of texts as a JSON array.
abbrev pub items_of : List Text → Items
items_of [] = nil
items_of (s ∷ ss) = cons (text s) (items_of ss)

pub list_items-items_of :
    (ss : List Text) (name : Text) → All Tidy ss → list_items (items_of ss) name ≡ valid ss
unfolding list_items
list_items-items_of [] name h = refl
list_items-items_of ([] ∷ ss) name h = absurd (h.0.1 refl)
list_items-items_of ((c ∷ cs) ∷ ss) name h = rw (list_items-items_of ss name h.1, h.0.0)
