-- ===== src/Stream/Http/Paths.antt =====
-- internal/stream/server.go: which paths are wake pings.
use lierc_api.Base.{
  ℕ, ◌≡◌, refl, ap, ap₂, subst, ◌∙◌, ◌↔◌, inl, inr, false, [], ◌∷◌, ◌++◌, Option, none, some, Bytes,
  All, ◌==◌, nat_eq, list_eq, key_cases, txt,
}
use lierc_api.Liercd.Routing.{IsPlain}
use lierc_api.Stream.Http.{id_then_ping, after_slashes, ping_path}

-- `n` slashes more than one.
abbrev pub Slashes : Bytes → Type 0
Slashes = All (λ c. c ≡ b'/')

Extends : Option Bytes → Bytes → Bytes → Type 0
Extends o v id = o ≡ some id → (v ≡ id ++ txt "/ping") × IsPlain id

extended :
    (c : ℕ) (cs : Bytes) (o : Option Bytes) (id : Bytes)
    → (c == b'/') ≡ false
    → ((i : Bytes) → o ≡ some i → (cs ≡ i ++ txt "/ping") × IsPlain i)
    → (elim o as (λ _. Option Bytes) [ none ↦ none | some i ↦ some (c ∷ i) ]) ≡ some id
    → (c ∷ cs ≡ id ++ txt "/ping") × IsPlain id
extended c cs none id f h e = cc
extended c cs (some i) id f h e =
    let (p, plain) = h i refl in
    let same : c ∷ i ≡ id = cc in
    (ap (◌∷◌ c) p ∙ ap (λ j. j ++ txt "/ping") same, subst IsPlain same (λ z. cc, (f, plain.1)))

id_then_ping-eq : (v id : Bytes) → id_then_ping v ≡ some id → (v ≡ id ++ txt "/ping") × IsPlain id
unfolding id_then_ping
id_then_ping-eq [] id e = cc
id_then_ping-eq (c ∷ cs) id e = elim (key_cases c b'/') [
  | inl (_, t) ↦ let z : none ≡ some id = rw t at e in cc
  | inr (_, f) ↦ elim (key_cases cs (txt "/ping")) [
    | inl (p, t) ↦
        let same : some (c ∷ []) ≡ some id = rw (f, t) at e in
        let q : c ∷ [] ≡ id = cc in
        (ap (◌∷◌ c) p ∙ ap (λ j. j ++ txt "/ping") q, subst IsPlain q (λ z. cc, (f, tt)))
    | inr (_, g) ↦
        extended c cs (id_then_ping cs) id f (λ i p. id_then_ping-eq cs i p) (rw (f, g) at e)
  ]
]

id_then_ping-next :
    (c : ℕ) (cs id : Bytes)
    → (c == b'/') ≡ false
    → (cs == txt "/ping") ≡ false
    → id_then_ping cs ≡ some id
    → id_then_ping (c ∷ cs) ≡ some (c ∷ id)
unfolding id_then_ping
id_then_ping-next c cs id f g e = rw (f, g, e) refl

id_then_ping-append : (id : Bytes) → IsPlain id → id_then_ping (id ++ txt "/ping") ≡ some id
id_then_ping-append [] h = absurd (h.0 refl)
id_then_ping-append (c ∷ []) h = unfold id_then_ping in rw (h.1.0) refl
id_then_ping-append (c ∷ d ∷ ds) h =
    id_then_ping-next c ((d ∷ ds) ++ txt "/ping") (d ∷ ds) h.1.0 (rw (h.1.1.0) refl)
      (id_then_ping-append (d ∷ ds) (λ z. cc, h.1.1))

after_slashes-split : (v : Bytes) → (s : Bytes) × (v ≡ s ++ after_slashes v) × Slashes s
unfolding after_slashes
after_slashes-split [] = ([], refl, tt)
after_slashes-split (c ∷ cs) = elim (key_cases c b'/') [
  | inl (p, t) ↦ let (s, e, h) = after_slashes-split cs in rw t (c ∷ s, ap (◌∷◌ c) e, (p, h))
  | inr (_, f) ↦ rw f ([], refl, tt)
]

after_slashes-append :
    (s id rest : Bytes) → Slashes s → IsPlain id → after_slashes (s ++ (id ++ rest)) ≡ id ++ rest
unfolding after_slashes
after_slashes-append [] [] rest h p = absurd (p.0 refl)
after_slashes-append [] (c ∷ cs) rest h p = rw (p.1.0) refl
after_slashes-append (c ∷ s) id rest h p =
    rw ((nat_eq.eqb_iff c b'/').1 h.0) (after_slashes-append s id rest h.1 p)

-- A path is a wake ping for `id` exactly if it is one or more slashes, then `id`, then "/ping",
-- where `id` is not empty and has no slash.
pub ping_path_lem :
    (v id : Bytes)
    → (ping_path v ≡ some id)
      ↔ ((s : Bytes) × (v ≡ b'/' ∷ (s ++ (id ++ txt "/ping"))) × Slashes s × IsPlain id)
unfolding ping_path
ping_path_lem v id = (forward v, λ (s, e, h, p). ap ping_path e ∙ backward s h p)
  where
    forward :
        (v : Bytes)
        → ping_path v ≡ some id
        → (s : Bytes) × (v ≡ b'/' ∷ (s ++ (id ++ txt "/ping"))) × Slashes s × IsPlain id
    forward [] e = cc
    forward (c ∷ cs) e = elim (key_cases c b'/') [
      | inr (_, f) ↦ let z : none ≡ some id = rw f at e in cc
      | inl (p, t) ↦
          let (q, plain) = id_then_ping-eq (after_slashes cs) id (rw t at e) in
          let (s, es, hs) = after_slashes-split cs in
          (s, ap₂ ◌∷◌ p (es ∙ ap (λ r. s ++ r) q), hs, plain)
    ]

    backward :
        (s : Bytes)
        → Slashes s
        → IsPlain id
        → ping_path (b'/' ∷ (s ++ (id ++ txt "/ping"))) ≡ some id
    backward s h p =
        ap id_then_ping (after_slashes-append s id (txt "/ping") h p) ∙ id_then_ping-append id p
