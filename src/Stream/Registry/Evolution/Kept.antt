-- ===== src/Stream/Registry/Evolution/Kept.antt =====
-- What becomes of one stream from one state of the server to another: the relation, and how it is put
-- together.
use lierc_api.Base.{
  ℕ, ◌≡◌, refl, sym, ◌∙◌, ap, ap₂, subst, inl, inr, true, List, [], ◌++◌, some, Bytes, nat_eq,
  list_eq, key_cases, ◌≢◌, append_assoc, append-nil,
}
use lierc_api.Base.Assoc.{lookup, insert, lookup-insert_self, lookup-insert_ne}
use lierc_api.Stream.Registry.{Stream, Server}
use lierc_api.Stream.Registry.Invariant.{some_inj}

-- The stream has the same user and id. What the writer took of it, and what is queued, are the events
-- that were queued before and, behind them, the ones added since. A stream that was stopped still is,
-- and nothing was added to it.
pub record Evolves (taken : List Bytes) (x y : Stream) : Type 0 where
  pub same_user : y.user ≡ x.user
  pub same_id : y.id ≡ x.id
  pub still_done : x.done ≡ true → y.done ≡ true
  pub added : List Bytes
  pub fifo : x.out ++ added ≡ taken ++ y.out
  pub none_added : x.done ≡ true → added ≡ []

pub stays : (x : Stream) → Evolves [] x x
stays x = record {
  same_user = refl;
  same_id = refl;
  still_done = λ d. d;
  added = [];
  fifo = append-nil x.out;
  none_added = λ _. refl;
}

fifo_trans :
    (a b c m n p q : List Bytes) → a ++ m ≡ p ++ b → b ++ n ≡ q ++ c → a ++ (m ++ n) ≡ (p ++ q) ++ c
fifo_trans a b c m n p q h k =
    sym (append_assoc a m n)
    ∙ ap (λ l. l ++ n) h
    ∙ append_assoc p b n
    ∙ ap (λ l. p ++ l) k
    ∙ sym (append_assoc p q c)

Evolves-trans :
    {p q : List Bytes} {x y z : Stream} → Evolves p x y → Evolves q y z → Evolves (p ++ q) x z
Evolves-trans {p} {q} {x} {y} {z} k l = record {
  same_user = l.same_user ∙ k.same_user;
  same_id = l.same_id ∙ k.same_id;
  still_done = λ d. l.still_done (k.still_done d);
  added = k.added ++ l.added;
  fifo = fifo_trans x.out y.out z.out k.added l.added p q k.fifo l.fifo;
  none_added = λ d. ap₂ ◌++◌ (k.none_added d) (l.none_added (k.still_done d));
}

-- What a writer took, by the number of its stream.
abbrev pub Takes : Type 0
Takes = ℕ → List Bytes

abbrev pub none_taken : Takes
none_taken p = []

-- Every stream of `s` is there in `t` and has evolved.
abbrev pub KeepsBehind : Takes → Server → Server → Type 0
KeepsBehind taken s t =
    (p : ℕ) (x : Stream)
    → lookup p s.heap ≡ some x
    → (y : Stream) × (lookup p t.heap ≡ some y) × Evolves (taken p) x y

abbrev pub KeepsStreams : Server → Server → Type 0
KeepsStreams s t = KeepsBehind none_taken s t

pub keeps_same : (s t : Server) → t.heap ≡ s.heap → KeepsStreams s t
keeps_same s t e p x h = (x, ap (lookup p) e ∙ h, stays x)

pub keeps_behind :
    (f g : Takes) (s t u : Server)
    → KeepsBehind f s t
    → KeepsBehind g t u
    → KeepsBehind (λ p. f p ++ g p) s u
keeps_behind f g s t u k l p x h =
    let (y, a, m) = k p x h in let (z, b, n) = l p y a in (z, b, Evolves-trans m n)

pub keeps_trans : (s t u : Server) → KeepsStreams s t → KeepsStreams t u → KeepsStreams s u
keeps_trans s t u f g = keeps_behind none_taken none_taken s t u f g

pub KeepsBehind-written :
    (taken : Takes) (s : Server) (p : ℕ) (st st' : Stream)
    → lookup p s.heap ≡ some st
    → Evolves (taken p) st st'
    → ((q : ℕ) → p ≢ q → taken q ≡ [])
    → KeepsBehind taken s (record s { heap = insert p st' s.heap })
KeepsBehind-written taken s p st st' at k others q x h = elim (key_cases p q) [
  | inl (e, _) ↦ (
    st',
    subst (λ i. lookup i (insert p st' s.heap) ≡ some st') e (lookup-insert_self p st' s.heap),
    subst (λ z. Evolves (taken q) z st')
        (some_inj (sym at ∙ subst (λ i. lookup i s.heap ≡ some x) (sym e) h))
        (subst (λ i. Evolves (taken i) st st') e k),
  )
  | inr (n, _) ↦ (
    x,
    lookup-insert_ne p q st' s.heap n ∙ h,
    subst (λ l. Evolves l x x) (sym (others q n)) (stays x),
  )
]

pub keeps_written :
    (s : Server) (p : ℕ) (st st' : Stream)
    → lookup p s.heap ≡ some st
    → Evolves [] st st'
    → KeepsStreams s (record s { heap = insert p st' s.heap })
keeps_written s p st st' at k = KeepsBehind-written none_taken s p st st' at k (λ q n. refl)
