-- ===== src/Stream/Registry/Raising.antt =====
-- The newest message ids: `raiseLatestLocked` and its callers keep the invariant.
use lierc_api.Base.{
  ℕ, ◌≤◌, ◌≡◌, refl, sym, ◌∙◌, ap, subst, ◌≢◌, ◌⊎◌, inl, inr, true, List, [], ◌∷◌, Option, none,
  some, ℤ, pos, negsuc, Bytes, lt_ℤ, length, nat_eq, list_eq, arith, key_cases, Option-cases,
  Bool-cases,
}
use lierc_api.Base.Assoc.{lookup, insert, lookup-insert_self, lookup-insert_ne}
use lierc_api.Stream.Perl.{parse_int}
use lierc_api.Stream.Registry.{
  Stream, Server, members, newest, or_zero, raise_latest, raise_if_open, raise_parsed,
  deliver_locked, take_out, take_queued, buffer_size,
}
use lierc_api.Stream.Registry.Invariant.{Inv, none-some, some_inj, written-Inv}
use lierc_api.Stream.Registry.Sections.{offer_each-Inv}

-- What is above a number that is not negative is above zero.
lt_ℤ_pos :
    (a b : ℤ) → ((a ≡ pos 0) ⊎ (lt_ℤ (pos 0) a ≡ true)) → lt_ℤ a b ≡ true → lt_ℤ (pos 0) b ≡ true
lt_ℤ_pos (pos a) (pos b) h k = ground arith
lt_ℤ_pos (pos a) (negsuc b) h k = cc
lt_ℤ_pos (negsuc a) b h k = ground arith

newest_pos :
    (user : Bytes) (s : Server)
    → Inv s
    → (newest user s ≡ pos 0) ⊎ (lt_ℤ (pos 0) (newest user s) ≡ true)
newest_pos user s v = elim (Option-cases (lookup user s.latest)) [
  | inl e ↦ inl (ap or_zero e)
  | inr (n, e) ↦ inr (ap (λ o. lt_ℤ (pos 0) (or_zero o)) e ∙ v.latest_pos user n e)
]

raised_pos :
    (user : Bytes) (id : ℤ) (s : Server)
    → Inv s
    → lt_ℤ (newest user s) id ≡ true
    → (u : Bytes) (n : ℤ) → lookup u (insert user id s.latest) ≡ some n
    → lt_ℤ (pos 0) n ≡ true
raised_pos user id s v above u n h = elim (key_cases user u) [
  | inl (e, _) ↦
      subst (λ z. lt_ℤ (pos 0) z ≡ true)
        (some_inj (
          subst (λ w. some id ≡ lookup w (insert user id s.latest)) e
            (sym (lookup-insert_self user id s.latest))
          ∙ h))
        (lt_ℤ_pos (newest user s) id (newest_pos user s v) above)
  | inr (ne, _) ↦ v.latest_pos u n (sym (lookup-insert_ne user u id s.latest ne) ∙ h)
]

raise_latest-Inv :
    (user : Bytes) (id : ℤ) (s : Server)
    → members user s ≢ []
    → Inv s
    → Inv (raise_latest user id s)
unfolding raise_latest
raise_latest-Inv user id s here v = elim (Bool-cases (lt_ℤ (newest user s) id)) [
  | inl above ↦
      rw (above, raise_latest)
        (record {
          keyed = v.keyed;
          distinct = v.distinct;
          nonempty = v.nonempty;
          latest_open = λ u m.
              lookup-insert_ne user u id s.latest
                (λ e. here (subst (λ w. members w s ≡ []) (sym e) m))
              ∙ v.latest_open u m;
          latest_pos = raised_pos user id s v above;
          bounded = v.bounded;
          fresh = v.fresh;
          stopped = v.stopped;
        })
  | inr below ↦ rw (below, raise_latest) v
]

pub List-cases {ℓ} : {A : Type ℓ} (l : List A) → (l ≡ []) ⊎ ((x : A) × (xs : List A) × (l ≡ x ∷ xs))
List-cases [] = inl refl
List-cases (x ∷ xs) = inr (x, xs, refl)

pub raise_if_open_closed :
    (user : Bytes) (id : ℤ) (s : Server) → members user s ≡ [] → raise_if_open user id s ≡ s
unfolding raise_if_open
raise_if_open_closed user id s e = rw (e, raise_if_open)

pub raise_if_open_open :
    (user : Bytes) (id : ℤ) (s : Server)
    → members user s ≢ []
    → raise_if_open user id s ≡ raise_latest user id s
unfolding raise_if_open
raise_if_open_open user id s n = elim (List-cases (members user s)) [
  | inl e ↦ absurd (n e)
  | inr (x, xs, e) ↦ rw (e, raise_if_open)
]

pub raise_if_open-Inv : (user : Bytes) (id : ℤ) (s : Server) → Inv s → Inv (raise_if_open user id s)
raise_if_open-Inv user id s v = elim (List-cases (members user s)) [
  | inl e ↦ subst Inv (sym (raise_if_open_closed user id s e)) v
  | inr (x, xs, e) ↦
      let n : members user s ≢ [] = λ h. cc in
      subst Inv (sym (raise_if_open_open user id s n)) (raise_latest-Inv user id s n v)
]

pub raise_parsed-Inv :
    (owner : Bytes) (n : Option ℤ) (s : Server) → Inv s → Inv (raise_parsed owner n s)
unfolding raise_parsed
raise_parsed-Inv owner none s v = v
raise_parsed-Inv owner (some n) s v = raise_if_open-Inv owner n s v

pub deliver_locked-Inv :
    (owner id ev : Bytes) (s : Server) → Inv s → Inv (deliver_locked owner id ev s)
unfolding deliver_locked
deliver_locked-Inv owner id ev s v =
    offer_each-Inv ev _ _ (raise_parsed-Inv owner (parse_int id) s v)

take_queued_inv :
    (p : ℕ) (s : Server) (st : Stream) (out : List Bytes) {b : Bytes} {t : Server}
    → take_queued p s st out ≡ some (b, t)
    → (bs : List Bytes) × (out ≡ b ∷ bs)
      × (t ≡ record s { heap = insert p (record st { out = bs }) s.heap })
take_queued_inv p s st [] h = cc
take_queued_inv p s st (x ∷ xs) h =
    (xs, ap (λ z. z ∷ xs) (ap (λ q. q.0) (some_inj h)), sym (ap (λ q. q.1) (some_inj h)))

-- What `take_out` takes, and where.
pub take_out_inv :
    (p : ℕ) (s : Server) {b : Bytes} {t : Server}
    → take_out p s ≡ some (b, t)
    → (st : Stream) × (lookup p s.heap ≡ some st)
      × (bs : List Bytes) × (st.out ≡ b ∷ bs)
      × (t ≡ record s { heap = insert p (record st { out = bs }) s.heap })
unfolding take_out
take_out_inv p s h = elim (Option-cases (lookup p s.heap)) [
  | inl e ↦ absurd (none-some refl (rw (e, take_out) at h))
  | inr (st, e) ↦
      let (bs, o, k) = take_queued_inv p s st st.out (rw (e, take_out) at h) in (st, e, bs, o, k)
]

pub take_out-Inv :
    (p : ℕ) (s : Server) {b : Bytes} {t : Server} → Inv s → take_out p s ≡ some (b, t) → Inv t
take_out-Inv p s v h =
    let (st, e, bs, o, k) = take_out_inv p s h in
    let room : length st.out ≤ buffer_size = v.bounded p st e in
    subst Inv (sym k) (
      written-Inv s p st (record st { out = bs }) e
        (record { same_user = refl; same_id = refl; still_done = λ d. d })
        (omega (arith, ap length o)) v)
