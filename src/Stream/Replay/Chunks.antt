-- ===== src/Stream/Replay/Chunks.antt =====
-- internal/stream/replay.go: the nicks of a channel, fifty at a time.
use lierc_api.Base.{
  ℕ, zero, suc, ◌+◌, ◌/◌, ◌≤◌, ◌≡◌, refl, sym, ap, ◌∙◌, min, List, [], ◌∷◌, ◌++◌, Bytes, All,
  length, take, drop, take-append-drop, length-take, length-drop, append-nil, append_assoc, map,
  arith,
}
use lierc_api.Stream.Replay.{each, chunk_loop, chunks, join, join_strings}
use lierc_api.Stream.Perl.{Codec, perl_string}

abbrev pub IsChunk {ℓ} : {A : Type ℓ} → List A → Type 0
IsChunk c = (1 ≤ length c) × (length c ≤ 50)

module _ {ℓ} {A : Type ℓ} where
  chunk_loop_lem :
      (fuel : ℕ) (xs : List A)
      → length xs ≤ fuel
      → (each (λ c. c) (chunk_loop fuel xs) ≡ xs)
        × All IsChunk (chunk_loop fuel xs)
        × (length (chunk_loop fuel xs) ≡ (length xs + 49) / 50)
  unfolding chunk_loop
  chunk_loop_lem zero [] h = (refl, tt, refl)
  chunk_loop_lem zero (x ∷ xs) h = absurd (omega arith)
  chunk_loop_lem (suc fuel) [] h = (refl, tt, refl)
  chunk_loop_lem (suc fuel) (x ∷ xs) h =
      let n : ℕ = min 50 (length (x ∷ xs)) in
      let (whole, sizes, count) =
        chunk_loop_lem fuel (drop n (x ∷ xs)) (omega (arith, length-drop n (x ∷ xs))) in
      (
        ap (λ ys. take n (x ∷ xs) ++ ys) whole ∙ take-append-drop n (x ∷ xs),
        ((omega (arith, length-take n (x ∷ xs)), omega (arith, length-take n (x ∷ xs))), sizes),
        omega (arith, count, length-drop n (x ∷ xs)),
      )

  -- The loop over a channel's nicks ends, with every nick in one of its pieces and in order; no
  -- piece is empty or longer than 50, and there are no more pieces than that needs.
  pub chunks_lem :
      (xs : List A)
      → (each (λ c. c) (chunks xs) ≡ xs)
        × All IsChunk (chunks xs)
        × (length (chunks xs) ≡ (length xs + 49) / 50)
  unfolding chunks
  chunks_lem xs = chunk_loop_lem (length xs) xs (omega arith)

join-append :
    (p q : Bytes) (ps qs : List Bytes)
    → join ((p ∷ ps) ++ (q ∷ qs)) ≡ join (p ∷ ps) ++ (b' ' ∷ join (q ∷ qs))
unfolding join
join-append p q [] qs = refl
join-append p q (r ∷ ps) qs =
    ap (λ rest. p ++ (b' ' ∷ rest)) (join-append r q ps qs)
    ∙ sym (append_assoc p (b' ' ∷ join (r ∷ ps)) (b' ' ∷ join (q ∷ qs)))

map-append : (f : Bytes → Bytes) (xs ys : List Bytes) → map f (xs ++ ys) ≡ map f xs ++ map f ys
map-append f [] ys = refl
map-append f (x ∷ xs) ys = ap (λ r. f x ∷ r) (map-append f xs ys)

join-pieces :
    (f : Bytes → Bytes) (cs : List (List Bytes))
    → All IsChunk cs
    → join (map (λ c. join (map f c)) cs) ≡ join (map f (each (λ c. c) cs))
unfolding join
join-pieces f [] h = refl
join-pieces f ([] ∷ cs) h = absurd (omega (arith, h.0.0))
join-pieces f ((x ∷ xs) ∷ []) h = ap (λ ys. join (f x ∷ map f ys)) (sym (append-nil xs))
join-pieces f ((x ∷ xs) ∷ [] ∷ cs) h = absurd (omega (arith, h.1.0.0))
join-pieces f ((x ∷ xs) ∷ (y ∷ ys) ∷ cs) h =
    ap (λ r. join (f x ∷ map f xs) ++ (b' ' ∷ r)) (join-pieces f ((y ∷ ys) ∷ cs) h.1)
    ∙ sym (join-append (f x) (f y) (map f xs) (map f (ys ++ each (λ c. c) cs)))
    ∙ ap (λ r. join (f x ∷ r)) (sym (map-append f xs (y ∷ (ys ++ each (λ c. c) cs))))

-- The nicks of the 353 replies of a channel, read one reply after the other with a space between,
-- are the nicks of the channel as they would stand in a single reply.
join-chunks :
    (codec : Codec) (nicks : List Bytes)
    → join (map (join_strings codec) (chunks nicks)) ≡ join_strings codec nicks
unfolding join_strings
join-chunks codec nicks =
    let (whole, sizes, count) = chunks_lem nicks in
    join-pieces (perl_string codec) (chunks nicks) sizes
    ∙ ap (λ ys. join (map (perl_string codec) ys)) whole
