-- ===== src/Stream/Registry/Members.antt =====
-- Changes of one user's members: `register` and `deregisterLocked` keep the invariant.
use lierc_api.Base.{
  ℕ, ◌≡◌, refl, sym, ◌∙◌, ap, subst, ◌≢◌, inl, inr, true, List, [], ◌∷◌, Option, none, some, ℤ, pos,
  Bytes, lt_ℤ, nat_eq, list_eq, key_cases,
}
use lierc_api.Base.Assoc.{
  Assoc, lookup, insert, erase, NodupKeys, lookup-insert_self, lookup-insert_ne, lookup-erase_self,
  lookup-erase_ne, erase-NodupKeys,
}
use lierc_api.Stream.Registry.{Server, members, or_nil, set_members, deregister_locked}
use lierc_api.Stream.Registry.Invariant.{Inv, none-some, some_inj}

pub members-set_members_self :
    (user : Bytes) (m : Assoc Bytes ℕ) (s : Server) → members user (set_members user m s) ≡ m
members-set_members_self user [] s = ap or_nil (lookup-erase_self user s.streams)
members-set_members_self user (e ∷ m) s = ap or_nil (lookup-insert_self user (e ∷ m) s.streams)

pub members-set_members_ne :
    (user other : Bytes) (m : Assoc Bytes ℕ) (s : Server)
    → user ≢ other
    → members other (set_members user m s) ≡ members other s
members-set_members_ne user other [] s n = ap or_nil (lookup-erase_ne user other s.streams n)
members-set_members_ne user other (e ∷ m) s n =
    ap or_nil (lookup-insert_ne user other (e ∷ m) s.streams n)

pub set_members_heap :
    (user : Bytes) (m : Assoc Bytes ℕ) (s : Server) → (set_members user m s).heap ≡ s.heap
set_members_heap user [] s = refl
set_members_heap user (e ∷ m) s = refl

abbrev Within : Assoc Bytes ℕ → Assoc Bytes ℕ → Type 0
Within m m' = (id : Bytes) (p : ℕ) → lookup id m ≡ some p → lookup id m' ≡ some p

-- Each user's members are among those before.
set_members-Within :
    (user : Bytes) (m : Assoc Bytes ℕ) (s : Server)
    → Within m (members user s)
    → (other : Bytes) → Within (members other (set_members user m s)) (members other s)
set_members-Within user m s sub other id p h = elim (key_cases user other) [
  | inl (e, _) ↦
      subst (λ u. lookup id (members u s) ≡ some p) e
        (sub id p (
          subst (λ l. lookup id l ≡ some p) (members-set_members_self user m s)
            (subst (λ u. lookup id (members u (set_members user m s)) ≡ some p) (sym e) h)))
  | inr (n, _) ↦ subst (λ l. lookup id l ≡ some p) (members-set_members_ne user other m s n) h
]

set_members_distinct :
    (user : Bytes) (m : Assoc Bytes ℕ) (s : Server)
    → NodupKeys m
    → ((u : Bytes) → NodupKeys (members u s))
    → (other : Bytes) → NodupKeys (members other (set_members user m s))
set_members_distinct user m s one all other = elim (key_cases user other) [
  | inl (e, _) ↦
      subst (λ u. NodupKeys (members u (set_members user m s))) e
        (subst NodupKeys (sym (members-set_members_self user m s)) one)
  | inr (n, _) ↦ subst NodupKeys (sym (members-set_members_ne user other m s n)) (all other)
]

cons_nil {ℓ} : {A : Type ℓ} {x : A} {xs : List A} → x ∷ xs ≡ [] → ⊥
cons_nil h = cc

not_some_nil : (o : Option (Assoc Bytes ℕ)) (m : Assoc Bytes ℕ) → o ≡ some m → m ≢ [] → o ≢ some []
not_some_nil o m h n k = n (some_inj (sym h ∙ k))

set_members_nonempty :
    (user : Bytes) (m : Assoc Bytes ℕ) (s : Server)
    → ((u : Bytes) → lookup u s.streams ≢ some [])
    → (other : Bytes) → lookup other (set_members user m s).streams ≢ some []
set_members_nonempty user [] s all other h = elim (key_cases user other) [
  | inl (e, _) ↦
      none-some
        (subst (λ u. lookup u (erase user s.streams) ≡ none) e (lookup-erase_self user s.streams)) h
  | inr (n, _) ↦ all other (sym (lookup-erase_ne user other s.streams n) ∙ h)
]
set_members_nonempty user (x ∷ m) s all other h = elim (key_cases user other) [
  | inl (e, _) ↦
      not_some_nil _ (x ∷ m)
        (subst (λ u. lookup u (insert user (x ∷ m) s.streams) ≡ some (x ∷ m)) e
          (lookup-insert_self user (x ∷ m) s.streams))
        (λ k. cc) h
  | inr (n, _) ↦ all other (sym (lookup-insert_ne user other (x ∷ m) s.streams n) ∙ h)
]

set_members_latest_open :
    (user : Bytes) (m : Assoc Bytes ℕ) (s : Server)
    → ((u : Bytes) → members u s ≡ [] → lookup u s.latest ≡ none)
    → (other : Bytes) → members other (set_members user m s) ≡ []
    → lookup other (set_members user m s).latest ≡ none
set_members_latest_open user [] s all other h = elim (key_cases user other) [
  | inl (e, _) ↦
      subst (λ u. lookup u (erase user s.latest) ≡ none) e (lookup-erase_self user s.latest)
  | inr (n, _) ↦
      lookup-erase_ne user other s.latest n
      ∙ all other (sym (members-set_members_ne user other [] s n) ∙ h)
]
set_members_latest_open user (x ∷ m) s all other h = elim (key_cases user other) [
  | inl (e, _) ↦ absurd (
      cons_nil (
        sym (members-set_members_self user (x ∷ m) s)
        ∙ subst (λ u. members u (set_members user (x ∷ m) s) ≡ []) (sym e) h))
  | inr (n, _) ↦ all other (sym (members-set_members_ne user other (x ∷ m) s n) ∙ h)
]

erase_latest_pos :
    (user : Bytes) (latest : Assoc Bytes ℤ)
    → ((u : Bytes) (n : ℤ) → lookup u latest ≡ some n → lt_ℤ (pos 0) n ≡ true)
    → (u : Bytes) (n : ℤ) → lookup u (erase user latest) ≡ some n
    → lt_ℤ (pos 0) n ≡ true
erase_latest_pos user latest all u n h = elim (key_cases user u) [
  | inl (e, _) ↦ absurd (
      none-some (subst (λ w. lookup w (erase user latest) ≡ none) e (lookup-erase_self user latest))
        h)
  | inr (ne, _) ↦ all u n (sym (lookup-erase_ne user u latest ne) ∙ h)
]

-- Taking members away keeps the invariant.
pub set_members-Inv :
    (user : Bytes) (m : Assoc Bytes ℕ) (s : Server)
    → Within m (members user s)
    → NodupKeys m
    → Inv s
    → Inv (set_members user m s)
set_members-Inv user [] s sub one v = record {
  keyed = λ u id p h. v.keyed u id p (set_members-Within user [] s sub u id p h);
  distinct = set_members_distinct user [] s one v.distinct;
  nonempty = set_members_nonempty user [] s v.nonempty;
  latest_open = set_members_latest_open user [] s v.latest_open;
  latest_pos = erase_latest_pos user s.latest v.latest_pos;
  bounded = v.bounded;
  fresh = v.fresh;
  stopped = λ c u id p st h. v.stopped c u id p st (set_members-Within user [] s sub u id p h);
}
set_members-Inv user (x ∷ m) s sub one v = record {
  keyed = λ u id p h. v.keyed u id p (set_members-Within user (x ∷ m) s sub u id p h);
  distinct = set_members_distinct user (x ∷ m) s one v.distinct;
  nonempty = set_members_nonempty user (x ∷ m) s v.nonempty;
  latest_open = set_members_latest_open user (x ∷ m) s v.latest_open;
  latest_pos = v.latest_pos;
  bounded = v.bounded;
  fresh = v.fresh;
  stopped = λ c u id p st h. v.stopped c u id p st (set_members-Within user (x ∷ m) s sub u id p h);
}

erase-Within : (id : Bytes) (m : Assoc Bytes ℕ) → Within (erase id m) m
erase-Within id m j p h = elim (key_cases id j) [
  | inl (e, _) ↦
      absurd (none-some (subst (λ i. lookup i (erase id m) ≡ none) e (lookup-erase_self id m)) h)
  | inr (n, _) ↦ sym (lookup-erase_ne id j m n) ∙ h
]

pub deregister_locked-Inv :
    (user id : Bytes) (s : Server) → Inv s → Inv (deregister_locked user id s)
unfolding deregister_locked
deregister_locked-Inv user id s v =
    set_members-Inv user _ s (erase-Within id (members user s))
      (erase-NodupKeys id (members user s) (v.distinct user)) v
