-- ===== src/Stream/Registry/Hub/Keys.antt =====
-- The pointers that the loops of the registry run over: no user stands twice in the map, and no
-- pointer twice in the list.
use lierc_api.Base.{
  ℕ, ◌≡◌, refl, sym, ◌∙◌, ap, subst, ◌⊎◌, inl, inr, true, List, [], ◌∷◌, ◌++◌, none, some, ℤ, Bytes,
  nat_eq, list_eq, arith, key_cases, eqb_refl, Option-cases,
}
use lierc_api.Base.Assoc.{Assoc, lookup, NodupKeys, insert-NodupKeys, erase-NodupKeys}
use lierc_api.Stream.Perl.{parse_int}
use lierc_api.Stream.Registry.{
  newest, Server, members, or_nil, set_members, register, deregister, deregister_locked, stop,
  offer_locked, ping_locked, ping_each, ping_all, serve_ping, raise_if_open, raise_latest,
  deliver_locked, offer_each, close_streams, pointers, all_pointers, raise_parsed,
}
use lierc_api.Stream.Sse.{ping_event}
use lierc_api.Stream.Registry.Invariant.{Inv, none-some}
use lierc_api.Stream.Registry.Sections.{offer_locked_cases}
use lierc_api.Stream.Registry.Stopping.{In, stop_each_streams}
use lierc_api.Stream.Registry.Raising.{take_out_inv}
use lierc_api.Stream.Registry.Steps.{
  Step, registers, deregisters, stops, pings, wakes, raises, delivers, closes, takes,
}
use lierc_api.Stream.Registry.Delivery.{
  NoDup, In-pointers, pointers-NoDup, members-OneId, raise_parsed_streams,
}
use lierc_api.Stream.Registry.Hub.Viewed.{Registered, one_place}
use lierc_api.Stream.Registry.Hub.Rounds.{AllRegistered}

abbrev pub UserKeys : Server → Type 0
UserKeys s = NodupKeys s.streams

set_members-UserKeys :
    (user : Bytes) (m : Assoc Bytes ℕ) (s : Server) → UserKeys s → UserKeys (set_members user m s)
set_members-UserKeys user [] s k = erase-NodupKeys user s.streams k
set_members-UserKeys user (x ∷ m) s k = insert-NodupKeys user (x ∷ m) s.streams k

deregister-UserKeys : (p : ℕ) (s : Server) → UserKeys s → UserKeys (deregister p s)
unfolding deregister deregister_locked
deregister-UserKeys p s k = elim (Option-cases (lookup p s.heap)) [
  | inl e ↦ rw (e, deregister) k
  | inr (st, e) ↦ rw (e, deregister) (set_members-UserKeys st.user _ s k)
]

stop-UserKeys : (p : ℕ) (s : Server) → UserKeys s → UserKeys (stop p s)
unfolding stop
stop-UserKeys p s k = elim (Option-cases (lookup p s.heap)) [
  | inl e ↦ rw (e, stop) k
  | inr (st, e) ↦ rw (e, stop) k
]

offer_locked-UserKeys :
    (p : ℕ) (b : Bytes) (s : Server) → UserKeys s → UserKeys (offer_locked p b s)
offer_locked-UserKeys p b s k =
    offer_locked_cases UserKeys p b s k (λ st at d room. k)
      (λ st at d full. deregister-UserKeys p (stop p s) (stop-UserKeys p s k))

offer_each-UserKeys :
    (b : Bytes) (ps : List ℕ) (s : Server) → UserKeys s → UserKeys (offer_each b ps s)
unfolding offer_each
offer_each-UserKeys b [] s k = k
offer_each-UserKeys b (p ∷ ps) s k =
    offer_each-UserKeys b ps (offer_locked p b s) (offer_locked-UserKeys p b s k)

ping_locked-UserKeys :
    (time : Bytes) (p : ℕ) (s : Server) → UserKeys s → UserKeys (ping_locked time p s)
unfolding ping_locked
ping_locked-UserKeys time p s k = elim (Option-cases (lookup p s.heap)) [
  | inl e ↦ rw (e, ping_locked) k
  | inr (st, e) ↦
      rw (e, ping_locked) (offer_locked-UserKeys p (ping_event time (newest st.user s)) s k)
]

ping_each-UserKeys :
    (time : Bytes) (ps : List ℕ) (s : Server) → UserKeys s → UserKeys (ping_each time ps s)
unfolding ping_each
ping_each-UserKeys time [] s k = k
ping_each-UserKeys time (p ∷ ps) s k =
    ping_each-UserKeys time ps (ping_locked time p s) (ping_locked-UserKeys time p s k)

serve_ping-UserKeys :
    (time user id : Bytes) (s : Server) → UserKeys s → UserKeys (serve_ping time user id s).0
unfolding serve_ping
serve_ping-UserKeys time user id s k = elim (Option-cases (lookup id (members user s))) [
  | inl e ↦ rw (e, serve_ping) k
  | inr (p, e) ↦ rw (e, serve_ping) (ping_locked-UserKeys time p s k)
]

pub raise_if_open_streams :
    (user : Bytes) (n : ℤ) (s : Server) → (raise_if_open user n s).streams ≡ s.streams
unfolding raise_if_open raise_latest
raise_if_open_streams user n s = ground arith

-- Every section keeps the users apart.
pub Step-UserKeys : {s t : Server} → Step s t → UserKeys s → UserKeys t
unfolding ping_all close_streams register deliver_locked
Step-UserKeys {s} (registers id user remote agent created) k = insert-NodupKeys user _ s.streams k
Step-UserKeys {s} (deregisters p) k = deregister-UserKeys p s k
Step-UserKeys {s} (stops p) k = stop-UserKeys p s k
Step-UserKeys {s} (pings time) k = ping_each-UserKeys time (all_pointers s.streams) s k
Step-UserKeys {s} (wakes time user id) k = serve_ping-UserKeys time user id s k
Step-UserKeys {s} (raises user n) k = subst NodupKeys (sym (raise_if_open_streams user n s)) k
Step-UserKeys {s} (delivers owner id ev) k =
    offer_each-UserKeys ev _ (raise_parsed owner (parse_int id) s)
      (subst NodupKeys (sym (raise_parsed_streams owner (parse_int id) s)) k)
Step-UserKeys {s} closes k =
    subst NodupKeys (sym (stop_each_streams (all_pointers s.streams) (record s { closed = true })))
      k
Step-UserKeys {s} (takes p b t h) k =
    let (st, e, bs, o, x) = take_out_inv p s h in subst UserKeys (sym x) k

-- A pointer of the maps, with its user, the user's map and the id.
abbrev Placed : Assoc Bytes (Assoc Bytes ℕ) → Bytes → Bytes → ℕ → Type 0
Placed ms user id p = (m : Assoc Bytes ℕ) × (lookup user ms ≡ some m) × (lookup id m ≡ some p)

-- The maps under the keys have no double keys, and each pointer stands in one place.
record Tidy (ms : Assoc Bytes (Assoc Bytes ℕ)) : Type 0 where
  inner : (user : Bytes) (m : Assoc Bytes ℕ) → lookup user ms ≡ some m → NodupKeys m
  single :
      (user id other key : Bytes) (p : ℕ)
      → Placed ms user id p
      → Placed ms other key p
      → (user ≡ other) × (id ≡ key)

module _ (u : Bytes) (l : Assoc Bytes ℕ) (ms : Assoc Bytes (Assoc Bytes ℕ))
    (fresh : lookup u ms ≡ none) where
  first : lookup u ((u, l) ∷ ms) ≡ some l
  unfolding lookup
  first = rw (eqb_refl u)

  behind :
      (user : Bytes) (m : Assoc Bytes ℕ)
      → lookup user ms ≡ some m
      → lookup user ((u, l) ∷ ms) ≡ some m
  unfolding lookup
  behind user m h = elim (key_cases u user) [
    | inl (e, _) ↦ absurd (none-some fresh (subst (λ k. lookup k ms ≡ some m) (sym e) h))
    | inr (_, f) ↦ rw f h
  ]

  Tidy-behind : Tidy ((u, l) ∷ ms) → Tidy ms
  Tidy-behind t = record {
    inner = λ user m h. t.inner user m (behind user m h);
    single = λ user id other key p (m, a, b) (n, c, d).
        t.single user id other key p (m, behind user m a, b) (n, behind other n c, d);
  }

In-append : (p : ℕ) (ps qs : List ℕ) → In p (ps ++ qs) → In p ps ⊎ In p qs
In-append p [] qs h = inr h
In-append p (x ∷ ps) qs (inl e) = inl (inl e)
In-append p (x ∷ ps) qs (inr h) = elim (In-append p ps qs h) [ inl a ↦ inl (inr a) | inr b ↦ inr b ]

NoDup-append :
    (ps qs : List ℕ) → NoDup ps → NoDup qs → ((p : ℕ) → In p ps → ¬ In p qs) → NoDup (ps ++ qs)
NoDup-append [] qs a b n = b
NoDup-append (p ∷ ps) qs a b n = (
  λ h. elim (In-append p ps qs h) [ inl i ↦ a.0 i | inr i ↦ n p (inl refl) i ],
  NoDup-append ps qs a.1 b (λ q i. n q (inr i)),
)

In-all_pointers :
    (ms : Assoc Bytes (Assoc Bytes ℕ)) (p : ℕ)
    → NodupKeys ms
    → Tidy ms
    → In p (all_pointers ms)
    → (user : Bytes) × (id : Bytes) × Placed ms user id p
In-all_pointers [] p k t h = absurd h
In-all_pointers ((u, l) ∷ ms) p k t h = elim (In-append p (pointers l) (all_pointers ms) h) [
  | inl i ↦
      let (id, at) = In-pointers l p (t.inner u l (first u l ms k.0)) i in
      (u, id, (l, first u l ms k.0, at))
  | inr i ↦
      let (user, id, (m, a, b)) = In-all_pointers ms p k.1 (Tidy-behind u l ms k.0 t) i in
      (user, id, (m, behind u l ms k.0 user m a, b))
]

all_pointers-NoDup :
    (ms : Assoc Bytes (Assoc Bytes ℕ)) → NodupKeys ms → Tidy ms → NoDup (all_pointers ms)
all_pointers-NoDup [] k t = tt
all_pointers-NoDup ((u, l) ∷ ms) k t =
    NoDup-append (pointers l) (all_pointers ms)
      (pointers-NoDup l keys (λ id id' p a b. (t.single u id u id' p (l, at, a) (l, at, b)).1))
      (all_pointers-NoDup ms k.1 (Tidy-behind u l ms k.0 t))
      (λ p i j.
        let (id, a) = In-pointers l p keys i in
        let (user, key, (m, b, c)) = In-all_pointers ms p k.1 (Tidy-behind u l ms k.0 t) j in
        let (e, _) = t.single u id user key p (l, at, a) (m, behind u l ms k.0 user m b, c) in
        none-some (subst (λ w. lookup w ms ≡ none) e k.0) b)
  where
    at : lookup u ((u, l) ∷ ms) ≡ some l
    at = first u l ms k.0

    keys : NodupKeys l
    keys = t.inner u l at

module _ (s : Server) (v : Inv s) where
  Placed-Registered :
      (user id : Bytes) (p : ℕ) → Placed s.streams user id p → Registered s user id p
  Placed-Registered user id p (m, a, b) = ap (λ o. lookup id (or_nil o)) a ∙ b

  tidy : Tidy s.streams
  tidy = record {
    inner = λ user m h. subst (λ o. NodupKeys (or_nil o)) h (v.distinct user);
    single = λ user id other key p a b.
        one_place s v (Placed-Registered user id p a) (Placed-Registered other key p b);
  }

  pub streams-NoDup : UserKeys s → NoDup (all_pointers s.streams)
  streams-NoDup k = all_pointers-NoDup s.streams k tidy

  pub streams-AllRegistered : UserKeys s → AllRegistered (all_pointers s.streams) s
  streams-AllRegistered k p i =
      let (user, id, a) = In-all_pointers s.streams p k tidy i in
      (user, id, Placed-Registered user id p a)

  pub members-NoDup : (user : Bytes) → NoDup (pointers (members user s))
  members-NoDup user = pointers-NoDup (members user s) (v.distinct user) (members-OneId user s v)

  pub members-owner :
      (user : Bytes) (p : ℕ)
      → In p (pointers (members user s))
      → (id : Bytes) × Registered s user id p
  members-owner user p i = In-pointers (members user s) p (v.distinct user) i

  pub members-AllRegistered : (user : Bytes) → AllRegistered (pointers (members user s)) s
  members-AllRegistered user p i = let (id, h) = members-owner user p i in (user, id, h)
