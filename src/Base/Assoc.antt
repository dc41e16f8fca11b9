-- ===== src/Base/Assoc.antt =====
-- Maps with comparable keys, as association lists: Go's `map[K]V`.
use mathlib.Core.Path.{◌≡◌, refl, sym, ap, ◌∙◌, subst}
use mathlib.Core.Option.{Option, none, some}
use mathlib.Core.List.{List, [], ◌∷◌}
use native.Mathlib.Omega.{arith}
use mathlib.Core.Logic.{inl, inr, ◌≢◌}
use lierc_api.Base.Tests.{if◌then◌else◌}
use lierc_api.Base.Equality.{Eq, ◌==◌, eqb_refl, key_cases}

abbrev pub Assoc {ℓ κ} : Type ℓ → Type κ → Type (ℓ ⊔ κ)
Assoc K V = List (K × V)

module _ {ℓ κ} {K : Type ℓ} {V : Type κ} ⦃e : Eq K⦄ where
  unfoldable pub lookup : K → Assoc K V → Option V
  lookup k [] = none
  lookup k ((j, v) ∷ m) = if j == k then some v else lookup k m

  -- `m[k] = v`
  unfoldable pub insert : K → V → Assoc K V → Assoc K V
  insert key new [] = (key, new) ∷ []
  insert key new ((i, old) ∷ rest) =
      let later = insert key new rest in if i == key then (key, new) ∷ rest else (i, old) ∷ later

  -- `delete(m, k)`
  unfoldable pub erase : K → Assoc K V → Assoc K V
  erase k [] = []
  erase k ((j, w) ∷ m) = let rest = erase k m in if j == k then rest else (j, w) ∷ rest

  pub lookup-insert :
      (k j : K) (v : V) (m : Assoc K V)
      → lookup j (insert k v m) ≡ (if k == j then some v else lookup j m)
  unfolding lookup insert
  lookup-insert key j new [] = refl
  lookup-insert key j new ((i, old) ∷ rest) =
      ground (arith, lookup-insert key j new rest, e.eqb_iff i key, e.eqb_iff i j, e.eqb_iff key j)

  pub lookup-erase :
      (k j : K) (m : Assoc K V) → lookup j (erase k m) ≡ (if k == j then none else lookup j m)
  unfolding lookup erase
  lookup-erase k j [] = ground arith
  lookup-erase k j ((i, w) ∷ m) =
      ground (arith, e.eqb_iff k j, e.eqb_iff i k, e.eqb_iff i j, lookup-erase k j m)

  pub lookup-insert_self : (k : K) (v : V) (m : Assoc K V) → lookup k (insert k v m) ≡ some v
  lookup-insert_self k v m = rw (lookup-insert k k v m, eqb_refl k)

  pub insert-ne-nil : (k : K) (v : V) (m : Assoc K V) → insert k v m ≢ []
  unfolding lookup
  insert-ne-nil k v m h =
      let e : none ≡ some v = ap (lookup k) (sym h) ∙ lookup-insert_self k v m in cc

  pub lookup-insert_ne :
      (k j : K) (v : V) (m : Assoc K V) → k ≢ j → lookup j (insert k v m) ≡ lookup j m
  lookup-insert_ne k j v m n = elim (key_cases k j) [
    | inl (p, _) ↦ absurd (n p)
    | inr (_, f) ↦ rw (lookup-insert k j v m, f)
  ]

  pub lookup-erase_self : (k : K) (m : Assoc K V) → lookup k (erase k m) ≡ none
  lookup-erase_self k m = rw (lookup-erase k k m, eqb_refl k)

  pub lookup-erase_ne : (k j : K) (m : Assoc K V) → k ≢ j → lookup j (erase k m) ≡ lookup j m
  lookup-erase_ne k j m n = elim (key_cases k j) [
    | inl (p, _) ↦ absurd (n p)
    | inr (_, f) ↦ rw (lookup-erase k j m, f)
  ]

  -- No key stands twice.
  abbrev pub NodupKeys : Assoc K V → Type κ
  NodupKeys [] = Unit
  NodupKeys ((k, v) ∷ m) = (lookup k m ≡ none) × NodupKeys m

  pub insert-NodupKeys : (k : K) (v : V) (m : Assoc K V) → NodupKeys m → NodupKeys (insert k v m)
  unfolding insert
  insert-NodupKeys k v [] h = (unfold lookup in refl, tt)
  insert-NodupKeys k v ((j, w) ∷ m) h = elim (key_cases j k) [
    | inl (p, t) ↦ rw t (subst (λ i. lookup i m ≡ none) p h.0, h.1)
    | inr (n, f) ↦
        rw f (lookup-insert_ne k j v m (λ p. n (sym p)) ∙ h.0, insert-NodupKeys k v m h.1)
  ]

  pub erase-NodupKeys : (k : K) (m : Assoc K V) → NodupKeys m → NodupKeys (erase k m)
  unfolding erase
  erase-NodupKeys k [] h = tt
  erase-NodupKeys k ((j, w) ∷ m) h = elim (key_cases j k) [
    | inl (p, t) ↦ rw t (erase-NodupKeys k m h.1)
    | inr (n, f) ↦ rw f (lookup-erase_ne k j m (λ p. n (sym p)) ∙ h.0, erase-NodupKeys k m h.1)
  ]
