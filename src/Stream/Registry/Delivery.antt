-- ===== src/Stream/Registry/Delivery.antt =====
-- Who gets a message: every stream of its owner, once, and no stream of anybody else.
use lierc_api.Base.{
  ℕ, ◌≡◌, refl, sym, ◌∙◌, ap, subst, ◌≢◌, inl, inr, true, List, [], ◌∷◌, ◌++◌, Option, none, some,
  ℤ, Bytes, length, eqb_refl, nat_eq, list_eq, arith, key_cases, Option-cases, Bool-cases, ltb,
  dec_lt, if◌then◌else◌,
}
use lierc_api.Base.Assoc.{Assoc, lookup, NodupKeys, lookup-insert_self, lookup-insert_ne}
use lierc_api.Stream.Perl.{parse_int}
use lierc_api.Stream.Registry.{
  Stream, Server, stop, offer_locked, raise_latest, raise_if_open, raise_parsed, deliver_locked,
  offer_each, buffer_size, members, pointers, or_nil,
}
use lierc_api.Stream.Registry.Invariant.{Inv, none-some, some_inj}
use lierc_api.Stream.Registry.Sections.{
  offer_locked_cases, offer_locked_done, offer_locked_room, offer_locked_full,
}
use lierc_api.Stream.Registry.Stopping.{In, lookup-In-pointers}
use lierc_api.Stream.Registry.Evolution.{deregister_heap, raise_parsed_heap}

-- What `offer` makes of a stream.
abbrev pub offered : Bytes → Stream → Stream
offered b st =
    if st.done
    then st
    else if ltb (length st.out) buffer_size
    then record st { out = st.out ++ (b ∷ []) }
    else record st { done = true }

lookup-stop_ne : (p q : ℕ) (s : Server) → p ≢ q → lookup q (stop p s).heap ≡ lookup q s.heap
unfolding stop
lookup-stop_ne p q s n = elim (Option-cases (lookup p s.heap)) [
  | inl e ↦ rw (e, stop)
  | inr (st, e) ↦ rw (e, stop) (lookup-insert_ne p q (record st { done = true }) s.heap n)
]

lookup-stop_self :
    (p : ℕ) (s : Server) (st : Stream)
    → lookup p s.heap ≡ some st
    → lookup p (stop p s).heap ≡ some (record st { done = true })
unfolding stop
lookup-stop_self p s st e = rw (e, stop) (lookup-insert_self p (record st { done = true }) s.heap)

lookup-offer_locked_ne :
    (p q : ℕ) (b : Bytes) (s : Server)
    → p ≢ q
    → lookup q (offer_locked p b s).heap ≡ lookup q s.heap
lookup-offer_locked_ne p q b s n =
    offer_locked_cases (λ t. lookup q t.heap ≡ lookup q s.heap) p b s refl
      (λ st at d room. lookup-insert_ne p q (record st { out = st.out ++ (b ∷ []) }) s.heap n)
      (λ st at d full. ap (lookup q) (deregister_heap p (stop p s)) ∙ lookup-stop_ne p q s n)

lookup-offer_locked_self :
    (p : ℕ) (b : Bytes) (s : Server) (st : Stream)
    → lookup p s.heap ≡ some st
    → lookup p (offer_locked p b s).heap ≡ some (offered b st)
lookup-offer_locked_self p b s st at = elim (Bool-cases st.done) [
  | inl d ↦
      ap (λ t. lookup p t.heap) (offer_locked_done p b s st at d) ∙ at ∙ ap some (ground arith)
  | inr d ↦ elim (dec_lt (length st.out) buffer_size) [
    | yes room ↦
        ap (λ t. lookup p t.heap) (offer_locked_room p b s st at d room)
        ∙ lookup-insert_self p (record st { out = st.out ++ (b ∷ []) }) s.heap
        ∙ ap some (ground arith)
    | no full ↦
        ap (λ t. lookup p t.heap) (offer_locked_full p b s st at d (omega arith))
        ∙ ap (lookup p) (deregister_heap p (stop p s))
        ∙ lookup-stop_self p s st at
        ∙ ap some (ground arith)
  ]
]

lookup-offer_each_out :
    (b : Bytes) (ps : List ℕ) (q : ℕ) (s : Server)
    → ¬ In q ps
    → lookup q (offer_each b ps s).heap ≡ lookup q s.heap
unfolding offer_each
lookup-offer_each_out b [] q s h = refl
lookup-offer_each_out b (p ∷ ps) q s h =
    lookup-offer_each_out b ps q (offer_locked p b s) (λ i. h (inr i))
    ∙ lookup-offer_locked_ne p q b s (λ e. h (inl (sym e)))

abbrev pub NoDup : List ℕ → Type 0
NoDup [] = Unit
NoDup (p ∷ ps) = (¬ In p ps) × NoDup ps

lookup-offer_each-In :
    (b : Bytes) (ps : List ℕ) (q : ℕ) (s : Server) (st : Stream)
    → NoDup ps
    → In q ps
    → lookup q s.heap ≡ some st
    → lookup q (offer_each b ps s).heap ≡ some (offered b st)
unfolding offer_each
lookup-offer_each-In b [] q s st once h at = absurd h
lookup-offer_each-In b (p ∷ ps) q s st once (inl e) at =
    lookup-offer_each_out b ps q _ (subst (λ i. ¬ In i ps) (sym e) once.0)
    ∙ subst (λ i. lookup q (offer_locked i b s).heap ≡ some (offered b st)) e
        (lookup-offer_locked_self q b s st at)
lookup-offer_each-In b (p ∷ ps) q s st once (inr i) at =
    lookup-offer_each-In b ps q (offer_locked p b s) st once.1 i
      (lookup-offer_locked_ne p q b s (λ e. once.0 (subst (λ j. In j ps) (sym e) i)) ∙ at)

pub lookup-cons_old :
    (i id : Bytes) (p q : ℕ) (m : Assoc Bytes ℕ)
    → lookup i m ≡ none
    → lookup id m ≡ some p
    → lookup id ((i, q) ∷ m) ≡ some p
unfolding lookup
lookup-cons_old i id p q m fresh at = elim (key_cases i id) [
  | inl (e, _) ↦ absurd (none-some fresh (subst (λ k. lookup k m ≡ some p) (sym e) at))
  | inr (_, f) ↦ rw f at
]

pub lookup-cons_new : (i : Bytes) (q : ℕ) (m : Assoc Bytes ℕ) → lookup i ((i, q) ∷ m) ≡ some q
unfolding lookup
lookup-cons_new i q m = rw (eqb_refl i)

-- A pointer among those of a map without double keys stands under some id.
pub In-pointers :
    (m : Assoc Bytes ℕ) (p : ℕ)
    → NodupKeys m
    → In p (pointers m)
    → (id : Bytes) × (lookup id m ≡ some p)
In-pointers [] p u h = absurd h
In-pointers ((i, q) ∷ m) p u (inl e) = (i, lookup-cons_new i q m ∙ ap some (sym e))
In-pointers ((i, q) ∷ m) p u (inr h) =
    let (id, at) = In-pointers m p u.1 h in (id, lookup-cons_old i id p q m u.0 at)

abbrev pub OneId : Assoc Bytes ℕ → Type 0
OneId m = (id id' : Bytes) (p : ℕ) → lookup id m ≡ some p → lookup id' m ≡ some p → id ≡ id'

pub pointers-NoDup : (m : Assoc Bytes ℕ) → NodupKeys m → OneId m → NoDup (pointers m)
pointers-NoDup [] u one = tt
pointers-NoDup ((i, q) ∷ m) u one = (
  λ h.
      let (id, at) = In-pointers m q u.1 h in
      none-some u.0 (
        subst (λ k. lookup k m ≡ some q)
          (one id i q (lookup-cons_old i id q q m u.0 at) (lookup-cons_new i q m)) at),
  pointers-NoDup m u.1 (λ id id' p a b.
      one id id' p (lookup-cons_old i id p q m u.0 a) (lookup-cons_old i id' p q m u.0 b)),
)

pub members-OneId : (user : Bytes) (s : Server) → Inv s → OneId (members user s)
members-OneId user s v id id' p h k =
    let (x, a, _, e) = v.keyed user id p h in
    let (y, b, _, f) = v.keyed user id' p k in sym e ∙ ap (λ z. z.id) (some_inj (sym a ∙ b)) ∙ f

pub raise_parsed_streams :
    (owner : Bytes) (n : Option ℤ) (s : Server) → (raise_parsed owner n s).streams ≡ s.streams
unfolding raise_parsed raise_if_open raise_latest
raise_parsed_streams owner none s = refl
raise_parsed_streams owner (some n) s = ground arith

-- After the owner's newest id is recorded, the members and the streams are as they were.
module _ (owner id ev : Bytes) (s : Server) where
  raised : Server
  raised = raise_parsed owner (parse_int id) s

  raised_lookup : (q : ℕ) → lookup q raised.heap ≡ lookup q s.heap
  unfolding raised
  raised_lookup q = ap (lookup q) (raise_parsed_heap owner (parse_int id) s)

  raised-members : members owner raised ≡ members owner s
  unfolding raised
  raised-members = ap (λ l. or_nil (lookup owner l)) (raise_parsed_streams owner (parse_int id) s)

  -- On a state that the invariant holds of: a message for `owner` is offered once to every stream
  -- registered under the owner. It is queued last if the stream runs and has room; a running
  -- stream with a full queue is stopped; a stopped stream stays as it is.
  lookup-deliver_locked_owner :
      (stream_id : Bytes) (q : ℕ) (st : Stream)
      → Inv s
      → lookup stream_id (members owner s) ≡ some q
      → lookup q s.heap ≡ some st
      → lookup q (deliver_locked owner id ev s).heap ≡ some (offered ev st)
  unfolding deliver_locked raised
  lookup-deliver_locked_owner stream_id q st v h at =
      lookup-offer_each-In ev (pointers (members owner raised)) q raised st
        (subst (λ m. NoDup (pointers m)) (sym raised-members)
          (pointers-NoDup (members owner s) (v.distinct owner) (members-OneId owner s v)))
        (subst (λ m. In q (pointers m)) (sym raised-members)
          (lookup-In-pointers stream_id (members owner s) q h))
        (raised_lookup q ∙ at)

  -- On a state that the invariant holds of: a stream of another user is exactly as it was after a
  -- message for `owner` is delivered.
  lookup-deliver_locked_other :
      (q : ℕ) (st : Stream)
      → Inv s
      → lookup q s.heap ≡ some st
      → st.user ≢ owner
      → lookup q (deliver_locked owner id ev s).heap ≡ some st
  unfolding deliver_locked raised
  lookup-deliver_locked_other q st v at other =
      lookup-offer_each_out ev (pointers (members owner raised)) q raised (λ i.
        let (k, h) =
          In-pointers (members owner s) q (v.distinct owner)
            (subst (λ m. In q (pointers m)) raised-members i) in
        let (x, a, e, _) = v.keyed owner k q h in
        other (ap (λ z. z.user) (some_inj (sym at ∙ a)) ∙ e))
      ∙ raised_lookup q
      ∙ at
