-- ===== src/Session/Sound.antt =====
-- internal/session/session.go: what a cookie that names a user must hold.
use lierc_api.Base.{
  ◌≡◌, refl, sym, ap, ap₂, ◌∙◌, ◌≢◌, inl, inr, List, [], ◌∷◌, ◌++◌, Option, none, some, Bytes,
  nat_eq, list_eq, key_cases, txt, ◌>>=◌, >>=-eq-some,
}
use lierc_api.Base.Assoc.{lookup}
use lierc_api.Storable.{Hash, decode_hash}
use lierc_api.Session.{
  path_unescape, split, onto_first, new_first, three, decode_base64, nonempty, read_parts,
  read_perl,
}

-- The text that parts are split from.
abbrev unsplit : Bytes × List Bytes → Bytes
unsplit (first, []) = first
unsplit (first, next ∷ rest) = first ++ (b':' ∷ unsplit (next, rest))

unsplit-split : (v : Bytes) → unsplit (split v) ≡ v
unfolding split
unsplit-split [] = refl
unsplit-split (c ∷ cs) = elim (key_cases c b':') [
  | inl (p, f) ↦ rw f (unsplit-new_first (split cs) ∙ ap₂ ◌∷◌ (sym p) (unsplit-split cs))
  | inr (_, f) ↦ rw f (unsplit-onto_first (split cs) ∙ ap (◌∷◌ c) (unsplit-split cs))
]
  where
    unsplit-new_first : (q : Bytes × List Bytes) → unsplit (new_first q) ≡ b':' ∷ unsplit q
    unsplit-new_first (first, []) = refl
    unsplit-new_first (first, next ∷ rest) = refl

    unsplit-onto_first : (q : Bytes × List Bytes) → unsplit (onto_first c q) ≡ c ∷ unsplit q
    unsplit-onto_first (first, []) = refl
    unsplit-onto_first (first, next ∷ rest) = refl

three-eq : (q : Bytes × List Bytes) (a b c : Bytes) → three q ≡ some (a, b, c) → q ≡ (a, b ∷ c ∷ [])
three-eq (x, []) a b c e = cc
three-eq (x, y ∷ []) a b c e = cc
three-eq (x, y ∷ z ∷ []) a b c e =
    let p : (x, y, z) ≡ (a, b, c) = some_inj e in ap (λ t. (t.0, t.1 ∷ t.2 ∷ [])) p
  where
    some_inj : {s t : Bytes × Bytes × Bytes} → some s ≡ some t → s ≡ t
    some_inj e = cc
three-eq (x, y ∷ z ∷ w ∷ rest) a b c e = cc

nonempty-eq :
    (o : Option Bytes) (user : Bytes) → nonempty o ≡ some user → (o ≡ some user) × (user ≢ [])
nonempty-eq none user e = cc
nonempty-eq (some []) user e = cc
nonempty-eq (some (c ∷ cs)) user e = (e, λ z. cc)

module _ (sign : Bytes → Bytes → Bytes) where
  -- The payload decodes to a hash that holds the user, who has a name.
  abbrev Holds : Bytes → Bytes → Type 0
  Holds payload user =
      (raw : Bytes) × (hash : Hash) × (decode_base64 payload ≡ some raw)
      × (decode_hash raw ≡ some hash)
      × (lookup (txt "user") hash ≡ some user)
      × (user ≢ [])

  read_parts-Holds :
      (secret id payload mac user : Bytes)
      → read_parts sign secret (id, payload, mac) ≡ some user
      → (mac ≡ sign secret payload) × Holds payload user
  unfolding read_parts
  read_parts-Holds secret id payload mac user e = elim (key_cases (sign secret payload) mac) [
    | inr (_, f) ↦ let z : none ≡ some user = rw f at e in cc
    | inl (p, f) ↦
        let (raw, d, k) =
          >>=-eq-some (decode_base64 payload)
            (λ raw. decode_hash raw >>= λ hash. nonempty (lookup (txt "user") hash)) (rw f at e) in
        let (hash, h, n) =
          >>=-eq-some (decode_hash raw) (λ hash. nonempty (lookup (txt "user") hash)) k in
        let (u, ne) = nonempty-eq (lookup (txt "user") hash) user n in
        (sym p, (raw, hash, d, h, u, ne))
  ]

  -- No user without a signature: if a cookie names a user, its unescaped text has exactly three
  -- parts, the last is what `sign` makes of the second under the secret, and the second decodes
  -- to a hash that holds this user under "user", who is not empty.
  pub read_perl_lem :
      (cookie secret user : Bytes)
      → read_perl sign cookie secret ≡ some user
      → (id payload : Bytes) × (path_unescape cookie
          ≡ some (id ++ (b':' ∷ (payload ++ (b':' ∷ sign secret payload)))))
        × (raw : Bytes) × (hash : Hash) × (decode_base64 payload ≡ some raw)
        × (decode_hash raw ≡ some hash)
        × (lookup (txt "user") hash ≡ some user)
        × (user ≢ [])
  unfolding read_perl
  read_perl_lem cookie secret user e =
      let (v, u, k) =
        >>=-eq-some (path_unescape cookie) (λ v. three (split v) >>= read_parts sign secret) e in
      let ((id, payload, mac), t, r) = >>=-eq-some (three (split v)) (read_parts sign secret) k in
      let (m, (raw, hash, d, h, l, ne)) = read_parts-Holds secret id payload mac user r in
      let s : split v ≡ (id, payload ∷ mac ∷ []) = three-eq (split v) id payload mac t in
      let w : v ≡ id ++ (b':' ∷ (payload ++ (b':' ∷ mac))) = sym (unsplit-split v) ∙ ap unsplit s in
      (
        id,
        payload,
        u ∙ ap some (w ∙ ap (λ x. id ++ (b':' ∷ (payload ++ (b':' ∷ x)))) m),
        raw,
        hash,
        d,
        h,
        l,
        ne,
      )
