-- ===== src/Stream/Registry/Hub/Rounds.antt =====
-- A loop over streams, in the view of the registry as a table: each stream of the list is changed
-- once, and nothing else is.
use lierc_api.Base.{
  ℕ, ◌≡◌, refl, sym, ◌∙◌, ap, subst, inl, inr, List, [], ◌∷◌, Option, some, ℤ, Bytes, nat_eq,
  list_eq,
}
use lierc_api.Base.Assoc.{lookup}
use lierc_api.Stream.Sse.{ping_event}
use lierc_api.Stream.Registry.{
  Server, members, stop, offer_locked, ping_locked, offer_each, ping_each, stop_each,
}
use lierc_api.Stream.Registry.Invariant.{Inv, some_inj}
use lierc_api.Stream.Registry.Sections.{stop-Inv, offer_locked-Inv, ping_locked-Inv}
use lierc_api.Stream.Registry.Stopping.{In}
use lierc_api.Stream.Registry.Delivery.{NoDup}
use lierc_api.Stream.Registry.Hub.{Channel, offered, halted, view}
use lierc_api.Stream.Registry.Hub.Viewed.{
  Registered, Only, one_place, stop-view, stop-Only, offer_locked-Offers, ping_locked-Offers,
}

-- Every pointer of the list stands under a user and an id.
abbrev pub AllRegistered : List ℕ → Server → Type 0
AllRegistered ps s = (p : ℕ) → In p ps → (user : Bytes) × (id : Bytes) × Registered s user id p

-- A section for one stream that keeps the invariant and changes its channel by `R`.
abbrev pub Section : (Option Channel → Option Channel → Type 0) → (ℕ → Server → Server) → Type 0
Section R f =
    (p : ℕ) (s : Server) (user id : Bytes)
    → Inv s
    → Registered s user id p
    → Inv (f p s) × R (view s user id) (view (f p s) user id) × Only user id s (f p s)

module _ (R : Option Channel → Option Channel → Type 0) (f : ℕ → Server → Server)
    (each : Section R f) where
  unfoldable pub round : List ℕ → Server → Server
  round [] s = s
  round (p ∷ ps) s = round ps (f p s)

  -- Behind the section for `p`, which stands under `user` and `id`.
  module _ (p : ℕ) (ps : List ℕ) (s : Server) (user id : Bytes) (v : Inv s)
      (h : Registered s user id p) (once : ¬ In p ps) (all : AllRegistered ps s) where
    later : AllRegistered ps (f p s)
    later q i =
        let (other, key, k) = all q i in
        elim ((each p s user id v h).2 other key) [
          | inl (e, d) ↦ absurd (
              once (
                subst (λ r. In r ps)
                  (some_inj (
                    sym k
                    ∙ subst (λ u. lookup key (members u s) ≡ some p) e
                        (subst (λ j. lookup j (members user s) ≡ some p) d h)))
                  i))
          | inr (m, _) ↦ (other, key, m ∙ k)
        ]

    -- Under the user and the id stands no other of the streams to come.
    not_again : (q : ℕ) → Registered (f p s) user id q → ¬ In q ps
    not_again q k i =
        let (other, key, l) = all q i in
        let r : (user ≡ other) × (id ≡ key) = again q k i in
        once (
          subst (λ r. In r ps)
            (some_inj (
              sym l
              ∙ subst (λ u. lookup key (members u s) ≡ some p) r.0
                  (subst (λ j. lookup j (members user s) ≡ some p) r.1 h)))
            i)
      where
        again :
            (q : ℕ)
            → Registered (f p s) user id q
            → (i : In q ps) → (user ≡ (all q i).0) × (id ≡ (all q i).1)
        again q k i = elim ((each p s user id v h).2 (all q i).0 (all q i).1) [
          | inl e ↦ e
          | inr (m, _) ↦ one_place (f p s) (each p s user id v h).0 k (m ∙ (all q i).2)
        ]

  pub round-out :
      (ps : List ℕ) (s : Server) (user id : Bytes)
      → NoDup ps
      → AllRegistered ps s
      → Inv s
      → ((q : ℕ) → Registered s user id q → ¬ In q ps)
      → view (round ps s) user id ≡ view s user id
  unfolding round
  round-out [] s user id once all v n = refl
  round-out (p ∷ ps) s user id once all v n =
      let (other, key, h) = all p (inl refl) in
      let (w, _, only) = each p s other key v h in
      let l = later p ps s other key v h once.0 (λ q i. all q (inr i)) in
      elim (only user id) [
        | inl (e, d) ↦ absurd (
            n p
              (subst (λ u. lookup id (members u s) ≡ some p) e
                (subst (λ j. lookup j (members other s) ≡ some p) d h))
              (inl refl))
        | inr (m, x) ↦
            round-out ps (f p s) user id once.1 l w (λ q k i. n q (sym m ∙ k) (inr i)) ∙ x
      ]

  pub round-In :
      (ps : List ℕ) (s : Server) (user id : Bytes) (q : ℕ)
      → NoDup ps
      → AllRegistered ps s
      → Inv s
      → Registered s user id q
      → In q ps
      → R (view s user id) (view (round ps s) user id)
  unfolding round
  round-In [] s user id q once all v k i = absurd i
  round-In (p ∷ ps) s user id q once all v k (inl e) =
      let h : Registered s user id p = k ∙ ap some e in
      let (w, r, _) = each p s user id v h in
      let rest : AllRegistered ps s = λ q i. all q (inr i) in
      subst (R (view s user id))
        (sym (
          round-out ps (f p s) user id once.1 (later p ps s user id v h once.0 rest) w
            (not_again p ps s user id v h once.0 rest)))
        r
  round-In (p ∷ ps) s user id q once all v k (inr i) =
      let (other, key, h) = all p (inl refl) in
      let (w, _, only) = each p s other key v h in
      let l = later p ps s other key v h once.0 (λ q i. all q (inr i)) in
      elim (only user id) [
        | inl (e, d) ↦ absurd (
            once.0 (
              subst (λ r. In r ps)
                (some_inj (
                  sym k
                  ∙ subst (λ u. lookup id (members u s) ≡ some p) e
                      (subst (λ j. lookup j (members other s) ≡ some p) d h)))
                i))
        | inr (m, x) ↦
            subst (λ c. R c (view (round ps (f p s)) user id)) x
              (round-In ps (f p s) user id q once.1 l w (m ∙ k) i)
      ]

pub stop-Section : Section (λ c d. d ≡ halted c) stop
stop-Section p s user id v h =
    (stop-Inv p s v, stop-view p s user id v h, stop-Only p s user id v h)

pub offer_locked-Section : (b : Bytes) → Section (λ c d. d ≡ offered b c) (λ p. offer_locked p b)
offer_locked-Section b p s user id v h =
    let (e, only) = offer_locked-Offers p s user id v h b in (offer_locked-Inv p b s v, e, only)

pub ping_locked-Section :
    (time : Bytes)
    → Section (λ c d. (n : ℤ) × (d ≡ offered (ping_event time n) c)) (ping_locked time)
ping_locked-Section time p s user id v h =
    let (n, (e, only)) = ping_locked-Offers p s user id v h time in
    (ping_locked-Inv time p s v, (n, e), only)

-- The loops of the source are rounds.
module _ (b : Bytes) where
  pub offer_each-round :
      (ps : List ℕ) (s : Server)
      → offer_each b ps s
        ≡ round (λ c d. d ≡ offered b c) (λ p. offer_locked p b) (offer_locked-Section b) ps s
  unfolding offer_each round
  offer_each-round [] s = refl
  offer_each-round (p ∷ ps) s = offer_each-round ps (offer_locked p b s)

  pub ping_each-round :
      (ps : List ℕ) (s : Server)
      → ping_each b ps s
        ≡ round
            (λ c d. (n : ℤ) × (d ≡ offered (ping_event b n) c))
            (ping_locked b)
            (ping_locked-Section b)
            ps
            s
  unfolding ping_each round
  ping_each-round [] s = refl
  ping_each-round (p ∷ ps) s = ping_each-round ps (ping_locked b p s)

pub stop_each-round :
    (ps : List ℕ) (s : Server) → stop_each ps s ≡ round (λ c d. d ≡ halted c) stop stop-Section ps s
unfolding stop_each round
stop_each-round [] s = refl
stop_each-round (p ∷ ps) s = stop_each-round ps (stop p s)
