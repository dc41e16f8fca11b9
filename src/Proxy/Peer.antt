-- ===== src/Proxy/Peer.antt =====
-- internal/proxy/proxy.go: which address a handler sees, and what the log says of a response.
use lierc_api.Base.{
  ℕ, ◌+◌, ◌≡◌, ◌≢◌, refl, sym, ap, subst, ◌∙◌, ◌⊎◌, inl, inr, Bool, true, false, List, [], ◌∷◌,
  ◌++◌, reverse, some, Bytes, All, All-append, leb, if◌then◌else◌, Bool-cases, Option-cases, arith,
}
use mathlib.Core.List.{reverse-cons, reverse-append, reverse-reverse}
use lierc_api.Proxy.{
  Net, is_separator, run_of, unless_nil, last_hop, host_and_port, is_trusted, rewrite, Writer, Call,
  write_header, write, call, calls,
}

-- The text is empty or ends in a separator.
abbrev pub EndsApart : Bytes → Type 0
EndsApart v = (v ≡ []) ⊎ ((w : Bytes) × (c : ℕ) × (v ≡ w ++ (c ∷ [])) × (is_separator c ≡ true))

abbrev pub NoSeparator : Bytes → Type 0
NoSeparator = All (λ c. is_separator c ≡ false)

StartsApart : Bytes → Type 0
StartsApart [] = Unit
StartsApart (c ∷ cs) = is_separator c ≡ true

run_of_lem :
    (v : Bytes)
    → (v ≡ (run_of v).0 ++ (run_of v).1) × NoSeparator (run_of v).0 × StartsApart (run_of v).1
unfolding run_of StartsApart
run_of_lem [] = (refl, tt, tt)
run_of_lem (c ∷ cs) = elim (Bool-cases (is_separator c)) [
  | inl t ↦ rw t (refl, tt, t)
  | inr f ↦ let (e, h, s) = run_of_lem cs in rw f (ap (◌∷◌ c) e, (f, h), s)
]

-- What the log says: the first final status that was written before any data, and the bytes.
abbrev pub first_status : List Call → ℕ
first_status [] = 200
first_status (write_header code ∷ cs) = if leb 200 code then code else first_status cs
first_status (write n ∷ cs) = 200

abbrev pub total : List Call → ℕ
total [] = 0
total (write_header code ∷ cs) = total cs
total (write n ∷ cs) = n + total cs

calls-written :
    (st b : ℕ) (cs : List Call)
    → ((calls (record { status = st; wrote_header = true; bytes = b }) cs).status ≡ st)
      × ((calls (record { status = st; wrote_header = true; bytes = b }) cs).bytes ≡ b + total cs)
unfolding calls call
calls-written st b [] = (refl, omega arith)
calls-written st b (write_header code ∷ cs) = calls-written st b cs
calls-written st b (write n ∷ cs) =
    let (s, k) = calls-written st (b + n) cs in (s, omega (arith, k))

-- Whatever a handler calls: the access log has the number of bytes that it wrote, and the first
-- status of at least 200 that it set before it wrote, or 200 where it set none.
calls_lem :
    (b : ℕ) (cs : List Call)
    → ((calls (record { status = 200; wrote_header = false; bytes = b }) cs).status
        ≡ first_status cs)
      × ((calls (record { status = 200; wrote_header = false; bytes = b }) cs).bytes ≡ b + total cs)
unfolding calls call
calls_lem b [] = (refl, omega arith)
calls_lem b (write_header code ∷ cs) = chosen (leb 200 code) (calls_lem b cs)
  where
    unset : Writer
    unset = record { status = 200; wrote_header = false; bytes = b }

    chosen :
        (x : Bool)
        → ((calls unset cs).status ≡ first_status cs) × ((calls unset cs).bytes ≡ b + total cs)
        → ((calls
              (if x then record { status = code; wrote_header = true; bytes = b } else unset)
              cs).status
            ≡ (if x then code else first_status cs))
          × ((calls
                (if x then record { status = code; wrote_header = true; bytes = b } else unset)
                cs).bytes
              ≡ b + total cs)
    chosen true ih = calls-written code b cs
    chosen false ih = ih
calls_lem b (write n ∷ cs) = let (s, k) = calls-written 200 (b + n) cs in (s, omega (arith, k))

StartsApart-reverse : (v : Bytes) → StartsApart v → EndsApart (reverse v)
unfolding StartsApart
StartsApart-reverse [] h = inl refl
StartsApart-reverse (c ∷ cs) h = inr (reverse cs, c, reverse-cons c cs, h)

NoSeparator-reverse : (v : Bytes) → NoSeparator v → NoSeparator (reverse v)
NoSeparator-reverse [] h = tt
NoSeparator-reverse (c ∷ cs) h = subst NoSeparator (sym (reverse-cons c cs)) (
    All-append (λ c. is_separator c ≡ false) (reverse cs) (c ∷ []) (NoSeparator-reverse cs h.1)
      (h.0, tt))

-- The last hop of a header: what is behind its last separator, if that is not empty.
abbrev pub IsLastHop : Bytes → Bytes → Type 0
IsLastHop header hop =
    (front : Bytes) × (header ≡ front ++ hop) × EndsApart front × NoSeparator hop × (hop ≢ [])

last_hop-eq : (header hop : Bytes) → last_hop header ≡ some hop → IsLastHop header hop
unfolding last_hop
last_hop-eq header hop e =
    let (whole, plain, apart) = run_of_lem (reverse header) in
    let (same, ne) = unless_nil-eq (reverse (run_of (reverse header)).0) e in
    (
      reverse (run_of (reverse header)).1,
      sym (reverse-reverse header)
          ∙ ap reverse whole
          ∙ reverse-append (run_of (reverse header)).0 (run_of (reverse header)).1
          ∙ ap (λ h. reverse (run_of (reverse header)).1 ++ h) same,
      StartsApart-reverse (run_of (reverse header)).1 apart,
      subst NoSeparator same (NoSeparator-reverse (run_of (reverse header)).0 plain),
      ne,
    )
  where
    unless_nil-eq : (v : Bytes) → unless_nil v ≡ some hop → (v ≡ hop) × (hop ≢ [])
    unless_nil-eq [] z = cc
    unless_nil-eq (c ∷ cs) z = let p : c ∷ cs ≡ hop = cc in (p, λ q. cc)

-- A client cannot choose its address: what the handler sees is the peer's own address, or the
-- peer is trusted and it is the last hop of the header, with the peer's port.
pub rewrite_lem :
    (net : Net) (trusted : List Bytes) (remote header : Bytes)
    → ((rewrite net trusted remote header).1 ≡ remote)
      ⊎ ((is_trusted net trusted
              (net.parse_ip (host_and_port net remote (net.split_host_port remote)).0)
            ≡ true)
          × (hop : Bytes) × IsLastHop header hop
          × ((rewrite net trusted remote header).1
              ≡ net.join_host_port hop (host_and_port net remote (net.split_host_port remote)).1))
unfolding rewrite
rewrite_lem net trusted remote header =
    elim (Bool-cases (
      is_trusted net trusted
        (net.parse_ip (host_and_port net remote (net.split_host_port remote)).0))) [
          | inr f ↦ inl (rw f refl)
          | inl t ↦ elim (Option-cases (last_hop header)) [
            | inl n ↦ inl (rw (t, n) refl)
            | inr (hop, s) ↦ inr (t, hop, last_hop-eq header hop s, rw (t, s) refl)
          ]
        ]
