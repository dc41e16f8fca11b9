-- ===== src/Storable/Guard.antt =====
-- The count guard of `DecodeHash`: what an entry takes at least, and that the guard refuses
-- nothing that the loop would accept.
use lierc_api.Base.{
  ℕ, zero, suc, ◌+◌, ◌*◌, ◌≤◌, ◌≡◌, [], ◌∷◌, some, Bytes, length, arith, inl, inr, Option-cases,
  >>=-eq-some, length-drop, list_eq, nat_eq,
}
use lierc_api.Storable.{
  Hash, uint32, slice, read_length, read_string, uint8, read_key, decode_entries, decode_counted,
}
use lierc_api.Base.Assoc.{insert}

uint32_takes :
    (b : Bytes) {n : ℕ} {rest : Bytes} → uint32 b ≡ some (n, rest) → length b ≡ length rest + 4
unfolding uint32
uint32_takes (x ∷ y ∷ z ∷ w ∷ b) h = ground arith
uint32_takes (x ∷ y ∷ z ∷ []) h = cc
uint32_takes (x ∷ y ∷ []) h = cc
uint32_takes (x ∷ []) h = cc
uint32_takes [] h = cc

slice_takes :
    (l : ℕ) (b : Bytes) {s rest : Bytes} → slice l b ≡ some (s, rest) → length rest ≤ length b
unfolding slice
slice_takes l b h = ground (arith, length-drop l b)

read_length_takes :
    (op : ℕ) (b : Bytes) {l : ℕ} {rest : Bytes}
    → read_length op b ≡ some (l, rest)
    → length rest + 1 ≤ length b
unfolding read_length uint8 uint32
read_length_takes op [] h = ground arith
read_length_takes op (x ∷ []) h = ground arith
read_length_takes op (x ∷ y ∷ []) h = ground arith
read_length_takes op (x ∷ y ∷ z ∷ []) h = ground arith
read_length_takes op (x ∷ y ∷ z ∷ w ∷ b) h = ground arith

read_string_takes :
    (b : Bytes) {v rest : Bytes} → read_string b ≡ some (v, rest) → length rest + 2 ≤ length b
unfolding read_string
read_string_takes [] h = cc
read_string_takes (op ∷ b) h =
    let ((l, b'), e, f) = >>=-eq-some (read_length op b) _ h in
    omega (arith, read_length_takes op b e, slice_takes l b' f)

read_key_takes :
    (b : Bytes) {k rest : Bytes} → read_key b ≡ some (k, rest) → length rest + 4 ≤ length b
unfolding read_key
read_key_takes b h =
    let ((l, b'), e, f) = >>=-eq-some (uint32 b) _ h in
    omega (arith, uint32_takes b e, slice_takes l b' f)

pub decode_entries_takes :
    (n : ℕ) (b : Bytes) (out : Hash) {h : Hash} → decode_entries n b out ≡ some h → n * 6 ≤ length b
unfolding decode_entries
decode_entries_takes zero b out e = omega arith
decode_entries_takes (suc n) b out e =
    let ((v, b1), e1, f1) = >>=-eq-some (read_string b) _ e in
    let ((k, b2), e2, f2) = >>=-eq-some (read_key b1) _ f1 in
    omega (
      arith,
      read_string_takes b e1,
      read_key_takes b1 e2,
      decode_entries_takes n b2 (insert k v out) f2,
    )

-- The guard on the count changes no result: on any count and input, `decode_counted` accepts
-- exactly what the loop without the guard accepts, with the same hash.
pub decode_counted-eq-decode_entries :
    (n : ℕ) (b : Bytes) → decode_counted (n, b) ≡ decode_entries n b []
unfolding decode_counted
decode_counted-eq-decode_entries n b = elim (Option-cases (decode_entries n b [])) [
  | inl e ↦ ground arith
  | inr (h, e) ↦ ground (arith, decode_entries_takes n b [] e)
]
