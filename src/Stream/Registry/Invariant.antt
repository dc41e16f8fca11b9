-- ===== src/Stream/Registry/Invariant.antt =====
-- What holds of the registry between any two of its sections, and that writing to a stream, and
-- changing the members of a user, keep it.
use lierc_api.Base.{
  ℕ, ◌≤◌, ◌≡◌, refl, sym, ◌∙◌, subst, ◌≢◌, ◌⊎◌, inl, inr, true, [], Option, none, some, ℤ, pos,
  Bytes, length, lt_ℤ, nat_eq, list_eq, key_cases,
}
use lierc_api.Base.Assoc.{lookup, insert, NodupKeys, lookup-insert_self, lookup-insert_ne}
use lierc_api.Stream.Registry.{Stream, Server, buffer_size, members}

-- The pointer is that of a stream with this user and id.
abbrev pub Held : Server → Bytes → Bytes → ℕ → Type 0
Held s user id p = (st : Stream) × (lookup p s.heap ≡ some st) × (st.user ≡ user) × (st.id ≡ id)

pub record Inv (s : Server) : Type 0 where
  pub keyed : (user id : Bytes) (p : ℕ) → lookup id (members user s) ≡ some p → Held s user id p
  pub distinct : (user : Bytes) → NodupKeys (members user s)
  pub nonempty : (user : Bytes) → lookup user s.streams ≢ some []
  pub latest_open : (user : Bytes) → members user s ≡ [] → lookup user s.latest ≡ none
  pub latest_pos : (user : Bytes) (n : ℤ) → lookup user s.latest ≡ some n → lt_ℤ (pos 0) n ≡ true
  pub bounded : (p : ℕ) (st : Stream) → lookup p s.heap ≡ some st → length st.out ≤ buffer_size
  pub fresh : (p : ℕ) → s.next ≤ p → lookup p s.heap ≡ none
  pub stopped :
      s.closed ≡ true
      → (user id : Bytes) (p : ℕ) (st : Stream) → lookup id (members user s) ≡ some p
      → lookup p s.heap ≡ some st
      → st.done ≡ true

-- What a write to a stream leaves as it is.
pub record Kept (x y : Stream) : Type 0 where
  pub same_user : y.user ≡ x.user
  pub same_id : y.id ≡ x.id
  pub still_done : x.done ≡ true → y.done ≡ true

pub some_inj {ℓ} : {A : Type ℓ} {x y : A} → some x ≡ some y → x ≡ y
some_inj h = cc

pub none-some {ℓ} : {A : Type ℓ} {x : A} {o : Option A} → o ≡ none → o ≡ some x → ⊥
none-some h k = cc

-- A write to the stream `p`.
module _ (s : Server) (p : ℕ) (st st' : Stream) (at : lookup p s.heap ≡ some st)
    (kept : Kept st st') where
  abbrev written : Server
  written = record s { heap = insert p st' s.heap }

  -- Every stream is still there, itself or kept.
  pub lookup_written :
      (q : ℕ) (x : Stream)
      → lookup q s.heap ≡ some x
      → (y : Stream) × (lookup q written.heap ≡ some y) × Kept x y
  lookup_written q x h = elim (key_cases p q) [
    | inl (e, _) ↦ (
      st',
      subst (λ k. lookup k written.heap ≡ some st') e (lookup-insert_self p st' s.heap),
      subst (λ z. Kept z st') (some_inj (sym at ∙ subst (λ k. lookup k s.heap ≡ some x) (sym e) h))
          kept,
    )
    | inr (n, _) ↦ (
      x,
      lookup-insert_ne p q st' s.heap n ∙ h,
      record { same_user = refl; same_id = refl; still_done = λ d. d },
    )
  ]

  -- A stream that is there is the written one or was there before.
  pub lookup_written_inv :
      (q : ℕ) (y : Stream)
      → lookup q written.heap ≡ some y
      → ((p ≡ q) × (y ≡ st')) ⊎ (lookup q s.heap ≡ some y)
  lookup_written_inv q y h = elim (key_cases p q) [
    | inl (e, _) ↦ inl (
      e,
      some_inj (
          sym h
          ∙ subst (λ k. lookup k written.heap ≡ some st') e (lookup-insert_self p st' s.heap)),
    )
    | inr (n, _) ↦ inr (sym (lookup-insert_ne p q st' s.heap n) ∙ h)
  ]

  pub written-Inv : length st'.out ≤ buffer_size → Inv s → Inv written
  written-Inv room v = record {
    keyed = λ user id q m.
        let (x, a, b, c) = v.keyed user id q m in
        let (y, e, k) = lookup_written q x a in (y, e, k.same_user ∙ b, k.same_id ∙ c);
    distinct = v.distinct;
    nonempty = v.nonempty;
    latest_open = v.latest_open;
    latest_pos = v.latest_pos;
    bounded = λ q y h. elim (lookup_written_inv q y h) [
      | inl (_, e) ↦ subst (λ z. length z.out ≤ buffer_size) (sym e) room
      | inr old ↦ v.bounded q y old
    ];
    fresh = λ q h.
        lookup-insert_ne p q st' s.heap
          (λ e. none-some (v.fresh q h) (subst (λ k. lookup k s.heap ≡ some st) e at))
        ∙ v.fresh q h;
    stopped = λ c user id q y m h. elim (lookup_written_inv q y h) [
      | inl (e, k) ↦
          subst (λ z. z.done ≡ true) (sym k)
            (kept.still_done (
              v.stopped c user id p st (subst (λ i. lookup id (members user s) ≡ some i) (sym e) m)
                at))
      | inr old ↦ v.stopped c user id q y m old
    ];
  }
