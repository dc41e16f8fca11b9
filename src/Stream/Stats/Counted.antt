-- ===== src/Stream/Stats/Counted.antt =====
-- `stats`: the counts are those of the users with streams.
use lierc_api.Base.{
  ℕ, ◌≡◌, refl, ◌∙◌, ap, subst, inl, inr, [], ◌∷◌, Option, none, some, Bytes, length, key_cases,
  nat_eq, list_eq,
}
use lierc_api.Base.Assoc.{Assoc, lookup, NodupKeys}
use lierc_api.Stream.Registry.{Server, new_server, members, or_nil}
use lierc_api.Stream.Registry.Steps.{Reach}
use lierc_api.Stream.Registry.Hub.Refined.{Reach-UserKeys}
use lierc_api.Stream.Stats.{counts, count_streams, stats}

abbrev pub counted : Assoc Bytes ℕ → Option ℕ
counted [] = none
counted (m ∷ ms) = some (length (m ∷ ms))

lookup-count_streams :
    (user : Bytes) (ms : Assoc Bytes (Assoc Bytes ℕ))
    → NodupKeys ms
    → lookup user (count_streams ms) ≡ counted (or_nil (lookup user ms))
unfolding count_streams lookup
lookup-count_streams user [] k = refl
lookup-count_streams user ((u, []) ∷ ms) k = elim (key_cases u user) [
  | inl (e, t) ↦ rw t (
      lookup-count_streams user ms k.1
      ∙ ap (λ o. counted (or_nil o)) (subst (λ w. lookup w ms ≡ none) e k.0))
  | inr (n, f) ↦ rw f (lookup-count_streams user ms k.1)
]
lookup-count_streams user ((u, m ∷ l) ∷ ms) k = elim (key_cases u user) [
  | inl (e, t) ↦ rw t
  | inr (n, f) ↦ rw f (lookup-count_streams user ms k.1)
]

-- In every state that a new server reaches, the statistics without a user name each user with
-- streams, with their number, and no other.
pub stats-counted :
    {t : Server} (r : Reach new_server t)
    → (c : Assoc Bytes ℕ) × (stats [] t ≡ counts c)
      × ((user : Bytes) → lookup user c ≡ counted (members user t))
unfolding stats
stats-counted {t} r =
    (count_streams t.streams, refl, λ user. lookup-count_streams user t.streams (Reach-UserKeys r))
