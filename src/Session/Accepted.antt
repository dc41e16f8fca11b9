-- ===== src/Session/Accepted.antt =====
-- internal/session/session.go: which cookies are accepted.
use lierc_api.Base.{
  ◌≡◌, refl, ap, false, [], ◌∷◌, ◌++◌, some, Bytes, All, ◌==◌, nat_eq, list_eq, eqb_refl, txt,
}
use lierc_api.Base.Assoc.{lookup}
use lierc_api.Storable.{Hash, decode_hash}
use lierc_api.Session.{
  path_unescape, before, split, onto_first, decode_base64, nonempty, read_parts, read_perl,
}

-- A text without percent signs is its own unescaped text.
path_unescape-plain : (v : Bytes) → All (λ c. (c == b'%') ≡ false) v → path_unescape v ≡ some v
unfolding path_unescape
path_unescape-plain [] h = refl
path_unescape-plain (c ∷ []) h = rw (h.0) refl
path_unescape-plain (c ∷ d ∷ []) h = rw (h.0) (ap (before c) (path_unescape-plain (d ∷ []) h.1))
path_unescape-plain (c ∷ d ∷ e ∷ cs) h =
    rw (h.0) (ap (before c) (path_unescape-plain (d ∷ e ∷ cs) h.1))

abbrev pub NoColon : Bytes → Type 0
NoColon = All (λ c. (c == b':') ≡ false)

abbrev pub NoPercent : Bytes → Type 0
NoPercent = All (λ c. (c == b'%') ≡ false)

split-last : (v : Bytes) → NoColon v → split v ≡ (v, [])
unfolding split
split-last [] h = refl
split-last (c ∷ cs) h = rw (h.0) (ap (onto_first c) (split-last cs h.1))

split-next :
    (v rest : Bytes) → NoColon v → split (v ++ (b':' ∷ rest)) ≡ (v, (split rest).0 ∷ (split rest).1)
unfolding split
split-next [] rest h = refl
split-next (c ∷ cs) rest h = rw (h.0) (ap (onto_first c) (split-next cs rest h.1))

-- The converse: a cookie of three parts without colons or percent signs, the last the signature
-- of the second, whose second decodes to a hash with a user who is not empty, names this user.
pub read_perl-signed :
    (sign : Bytes → Bytes → Bytes) (secret id payload raw user : Bytes) (hash : Hash)
    → NoColon id
    → NoColon payload
    → NoColon (sign secret payload)
    → NoPercent (id ++ (b':' ∷ (payload ++ (b':' ∷ sign secret payload))))
    → decode_base64 payload ≡ some raw
    → decode_hash raw ≡ some hash
    → nonempty (lookup (txt "user") hash) ≡ some user
    → read_perl sign (id ++ (b':' ∷ (payload ++ (b':' ∷ sign secret payload)))) secret ≡ some user
unfolding read_perl read_parts
read_perl-signed sign secret id payload raw user hash ci cp cm plain d h n =
    rw
      (
        path_unescape-plain (id ++ (b':' ∷ (payload ++ (b':' ∷ sign secret payload)))) plain,
        split-next id (payload ++ (b':' ∷ sign secret payload)) ci,
        split-next payload (sign secret payload) cp,
        split-last (sign secret payload) cm,
        eqb_refl (sign secret payload),
        d,
        h,
      )
      n
