-- ===== src/Lctl/Move/Moving.antt =====
-- internal/lctl/move_connection.go: what holds once `moveOne` reports success.
use lierc_api.Base.{
  ◌≡◌, refl, sym, ap, ap₂, ◌&&◌, ◌∙◌, ◌≢◌, ◌⊎◌, inl, inr, Bool, false, [], ◌∷◌, Option, none, some,
  Bytes, if◌then◌else◌, ◌==◌, nat_eq, list_eq, key_cases, Bool-cases, txt,
}
use lierc_api.World.{
  Outside, sent, read_config, unknown_instance, Result, ok, fail, get, Trace, Reply, done, ◌>>=◌,
}
use lierc_api.World.Acts.{fail-ne-ok, >>=-eq-ok}
use lierc_api.Database.{column, instance_text, instance_answer, lookup_config, lookup_liercd}
use lierc_api.Liercd.{
  Client, at_base, pinned, pinned_base, next_or_error, request, base, send, response, status_path,
  trim_slash,
}
use lierc_api.Lctl.Move.{
  stored, vacant, or_main, relocate, behind_probe, probe_and_relocate, move_between, move_from,
  move_stored, move_found, move_one,
}
use lierc_api.Lctl.Move.Observed.{stopped, running, observed, recorded}
use lierc_api.Lctl.Move.Relocation.{observed-vacant, relocate-Moved}

pinned_base-cases :
    (client : Client) (n a : Bytes)
    → pinned_base client n ≡ ok a
    → ((n ≡ txt "main") × (a ≡ client.base_url)) ⊎ ((n ≡ txt "next") × (a ≡ client.next_url))
unfolding pinned_base
pinned_base-cases client n a e = elim (key_cases n (txt "main")) [
  | inl (p, t) ↦ let z : ok client.base_url ≡ ok a = sym (rw t refl) ∙ e in inl (p, cc)
  | inr (_, f) ↦ elim (key_cases n (txt "next")) [
    | inl (p, t) ↦ inr (p, next_url (client.next_url) (sym (rw (f, t) refl) ∙ e))
    | inr (_, g) ↦ let z : fail (unknown_instance n) ≡ ok a = sym (rw (f, g) refl) ∙ e in cc
  ]
]
  where
    next_url : (u : Bytes) → next_or_error u ≡ ok a → a ≡ u
    next_url [] z = cc
    next_url (c ∷ cs) z = cc

-- Two names have two hosts, where the instances have.
pinned_base-apart :
    (client : Client) (n m a b : Bytes)
    → client.base_url ≢ client.next_url
    → n ≢ m
    → pinned_base client n ≡ ok a
    → pinned_base client m ≡ ok b
    → (b == a) ≡ false
pinned_base-apart client n m a b hosts names p q = elim (key_cases b a) [
  | inr (_, f) ↦ f
  | inl (same, _) ↦
      absurd (clash same (pinned_base-cases client n a p) (pinned_base-cases client m b q))
]
  where
    clash :
        b ≡ a
        → ((n ≡ txt "main") × (a ≡ client.base_url)) ⊎ ((n ≡ txt "next") × (a ≡ client.next_url))
        → ((m ≡ txt "main") × (b ≡ client.base_url)) ⊎ ((m ≡ txt "next") × (b ≡ client.next_url))
        → ⊥
    clash z (inl (p, x)) (inl (q, y)) = names (p ∙ sym q)
    clash z (inr (p, x)) (inr (q, y)) = names (p ∙ sym q)
    clash z (inl (p, x)) (inr (q, y)) = hosts (sym x ∙ sym z ∙ y)
    clash z (inr (p, x)) (inl (q, y)) = hosts (sym y ∙ z ∙ x)

pinned-eq :
    (client : Client) (n : Bytes) (c : Client)
    → pinned client n ≡ ok c
    → (a : Bytes) × (pinned_base client n ≡ ok a) × (c ≡ at_base a)
unfolding pinned
pinned-eq client n c e = bound (pinned_base client n) refl e
  where
    bound :
        (r : Result Bytes)
        → pinned_base client n ≡ r
        → ◌≡◌ {A = Result Client} (elim r [ ok base ↦ ok (at_base base) | fail x ↦ fail x ]) (ok c)
        → (a : Bytes) × (pinned_base client n ≡ ok a) × (c ≡ at_base a)
    bound (ok a) p e = (a, p, cc)
    bound (fail x) p e = cc

module _ (world : Outside) (id target source config a b : Bytes) (ne : (b == a) ≡ false) where
  abbrev Arrived : Bool → Trace → Type 0
  Arrived s t =
      (observed a id t ≡ stopped)
      × (recorded id t ≡ some (column (stored target)))
      × (observed b id t ≡ (if s then running else stopped))

  behind_probe-Arrived :
      (h t : Trace) (s : Bool) (body : Option Bytes) (r : Reply)
      → behind_probe world id target source config
          (at_base a)
          (at_base b)
          (response r)
          (sent b get (trim_slash (status_path id)) body r ∷ h)
        ≡ (ok s, t)
      → Arrived s t
  unfolding behind_probe
  behind_probe-Arrived h t s body r e =
      let h1 : Trace = sent b get (trim_slash (status_path id)) body r ∷ h in
      let (u, h2, e2, k) =
        >>=-eq-ok (done (vacant id target (response r)))
          (λ _. relocate world id target source config (at_base a) (at_base b)) h1 t s e in
      let (v, same) = ok_eq (vacant id target (response r)) e2 in
      let (ma, mr, mb) = relocate-Moved world id target source config a b ne h2 t s k in
      (
        ma,
        mr,
        mb
            ∙ ap (λ o. if s then running else o)
                (ap (observed b id) (sym same) ∙ observed-vacant b id h target body r v),
      )
    where
      ok_eq :
          {h h2 : Trace} {u : Unit} (r : Result Unit)
          → ◌≡◌ {A = Result Unit × Trace} (r, h) (ok u, h2)
          → (r ≡ ok u) × (h ≡ h2)
      ok_eq r e = (ap (λ q. q.0) e, ap (λ q. q.1) e)

  probe-Arrived :
      (h t : Trace) (s : Bool)
      → probe_and_relocate world id target source config (at_base a) (at_base b) h ≡ (ok s, t)
      → Arrived s t
  unfolding probe_and_relocate request base send
  probe-Arrived h t s e =
      let r : Reply = world.http h b get (trim_slash (status_path id)) none in
      behind_probe-Arrived h t s none r e

module _ (world : Outside) (client : Client) (next_host id target : Bytes)
    (hosts : client.base_url ≢ client.next_url) where
  abbrev Landed : Bytes → Bool → Trace → Type 0
  Landed source started t =
      (a b : Bytes) × (source ≢ target)
      × (pinned_base client source ≡ ok a)
      × (pinned_base client target ≡ ok b)
      × (observed a id t ≡ stopped)
      × (recorded id t ≡ some (column (stored target)))
      × (observed b id t ≡ (if started then running else stopped))

  move_between-Landed :
      (source config : Bytes) (h t : Trace) (s : Bool)
      → source ≢ target
      → move_between world client next_host id target config source h ≡ (ok s, t)
      → Landed source s t
  unfolding move_between
  move_between-Landed source config h t s names e =
      let (src, h1, e1, k1) =
        >>=-eq-ok (done (pinned client source))
          (λ src. done (pinned client target) >>= λ dst.
            probe_and_relocate world id target source config src dst)
          h t s e in
      let (dst, h2, e2, k2) =
        >>=-eq-ok (done (pinned client target))
          (λ dst. probe_and_relocate world id target source config src dst) h1 t s k1 in
      let (a, pa, sa) = pinned-eq client source src (ap (λ q. q.0) e1) in
      let (b, pb, sb) = pinned-eq client target dst (ap (λ q. q.0) e2) in
      let ne = pinned_base-apart client source target a b hosts names pa pb in
      let (x, y, z) = probe-Arrived world id target source config a b ne h2 t s (
        ap₂ (λ x y. probe_and_relocate world id target source config x y h2) (sym sa) (sym sb)
        ∙ k2) in
      (a, b, names, pa, pb, x, y, z)

  move_from-Landed :
      (source config : Bytes) (h t : Trace) (s : Bool)
      → move_from world client next_host id target config source h ≡ (ok s, t)
      → Landed source s t
  unfolding move_from
  move_from-Landed source config h t s e = elim (key_cases source target) [
    | inl (_, f) ↦ absurd (fail-ne-ok (rw f at e))
    | inr (names, f) ↦ elim (Bool-cases (target == txt "next" && next_host == [])) [
      | inl g ↦ absurd (fail-ne-ok (rw (f, g) at e))
      | inr g ↦ move_between-Landed source config h t s names (rw (f, g) at e)
    ]
  ]

  -- What the column of the connection held when it was read, and the instance it names.
  abbrev ReadsFrom : Trace → Bytes → Type 0
  ReadsFrom h source =
      (row : Option (Option Bytes)) × (world.instance_row h id ≡ ok row)
      × (source ≡ or_main (instance_text row))

  read_row :
      (h h1 : Trace) (name : Bytes)
      → lookup_liercd world id h ≡ (ok name, h1)
      → ReadsFrom h (or_main name)
  unfolding lookup_liercd
  read_row h h1 name e = answered (world.instance_row h id) refl (ap (λ q. q.0) e)
    where
      answered :
          (r : Result (Option (Option Bytes)))
          → world.instance_row h id ≡ r
          → instance_answer r ≡ ok name
          → ReadsFrom h (or_main name)
      answered (fail x) p k = cc
      answered (ok row) p k = (row, p, cc)

  move_found-Landed :
      (config : Option Bytes) (h t : Trace) (s : Bool)
      → move_found world client next_host id target config h ≡ (ok s, t)
      → (source : Bytes) × ReadsFrom h source × Landed source s t
  unfolding move_found move_stored
  move_found-Landed none h t s e = absurd (fail-ne-ok e)
  move_found-Landed (some config) h t s e =
      let (name, h1, e1, k1) =
        >>=-eq-ok (lookup_liercd world id) (move_stored world client next_host id target config) h t
          s e in
      (or_main name, read_row h h1 name e1, move_from-Landed (or_main name) config h1 t s k1)

-- Whatever the world answers, once `moveOne` reports success: the column of the connection, as the
-- database answered behind the read of its config, named another instance than the target, main where
-- it was empty; the newest answers say that it is stopped on the instance so named, and its column was
-- last set to the target; on the target it runs if it was reported as started, and otherwise does not
-- run. The hosts of the two instances must differ.
pub move_one_lem :
    (world : Outside) (client : Client) (next_host id target : Bytes) (h t : Trace) (started : Bool)
    → client.base_url ≢ client.next_url
    → move_one world client next_host id target h ≡ (ok started, t)
    → (row : Option (Option Bytes)) × (source a b : Bytes) × (world.instance_row
          (read_config id ∷ h)
          id
        ≡ ok row)
      × (source ≡ or_main (instance_text row))
      × (source ≢ target)
      × (pinned_base client source ≡ ok a)
      × (pinned_base client target ≡ ok b)
      × (observed a id t ≡ stopped)
      × (recorded id t ≡ some (column (stored target)))
      × (observed b id t ≡ (if started then running else stopped))
unfolding move_one lookup_config
move_one_lem world client next_host id target h t started hosts e =
    let (config, h1, e1, k1) =
      >>=-eq-ok (lookup_config world id) (move_found world client next_host id target) h t started
        e in
    let z : read_config id ∷ h ≡ h1 = ap (λ q. q.1) e1 in
    let (source, (row, r, o), (a, b, n, pa, pb, x, y, w)) =
      move_found-Landed world client next_host id target hosts config h1 t started k1 in
    (row, source, a, b, ap (λ g. world.instance_row g id) z ∙ r, o, n, pa, pb, x, y, w)
