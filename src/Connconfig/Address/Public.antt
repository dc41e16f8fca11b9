-- ===== src/Connconfig/Address/Public.antt =====
-- internal/connconfig/connconfig.go: which addresses are blocked, by the ranges they lie in, and
-- which hosts `CheckHost` accepts.
use lierc_api.Base.{
  ℕ, ◌≡◌, ◌≢◌, ◌↔◌, ◌⊎◌, inl, inr, ◌+◌, ◌-◌, ◌*◌, ◌/◌, ◌%◌, ◌^◌, ◌<◌, refl, subst, Bool, true,
  false, not, List, [], ◌∷◌, Option, none, some, Bool-cases, if◌then◌else◌, ◌==◌, nat_eq,
  nat_beq_iff, list_eq, arith, All, list_eqb_iff, eqb_false-ne,
}
use lierc_api.Utf8.{Text}
use lierc_api.Connconfig.Text.{valid}
use lierc_api.Connconfig.Address.{
  Addr, v4, v6, dotted, blocked, contains, any_contains, unmap, is6, has_colon, xor, blocked_addr,
  Platform, blocked_ip, exempt, addresses, check_ips, check_found, check_host,
}

-- Outside of each range, given by its first and its last number.
abbrev pub Outside : ℕ → List (ℕ × ℕ) → Type 0
Outside a [] = Unit
Outside a ((lo, hi) ∷ ranges) = ((a < lo) ⊎ (hi < a)) × Outside a ranges

abbrev pub ranges4 : List (ℕ × ℕ)
ranges4 =
    (dotted 0 0 0 0, dotted 0 255 255 255)
    ∷ (dotted 10 0 0 0, dotted 10 255 255 255)
    ∷ (dotted 100 64 0 0, dotted 100 127 255 255)
    ∷ (dotted 127 0 0 0, dotted 127 255 255 255)
    ∷ (dotted 169 254 0 0, dotted 169 254 255 255)
    ∷ (dotted 172 16 0 0, dotted 172 31 255 255)
    ∷ (dotted 192 0 0 0, dotted 192 0 0 255)
    ∷ (dotted 192 168 0 0, dotted 192 168 255 255)
    ∷ (dotted 198 18 0 0, dotted 198 19 255 255)
    ∷ (dotted 224 0 0 0, dotted 255 255 255 255)
    ∷ []

-- Unspecified and loopback, NAT64, unique local, link local, multicast.
abbrev pub ranges6 : List (ℕ × ℕ)
ranges6 =
    (0, 1)
    ∷ (0x64ff9b * 2 ^ 96, 0x64ff9b * 2 ^ 96 + 0xffff_ffff)
    ∷ (0xfc00 * 2 ^ 112, 0xfe00 * 2 ^ 112 - 1)
    ∷ (0xfe80 * 2 ^ 112, 0xfec0 * 2 ^ 112 - 1)
    ∷ (0xff00 * 2 ^ 112, 2 ^ 128 - 1)
    ∷ []

four_lem : (a : ℕ) → (any_contains blocked (v4 a) ≡ false) ↔ Outside a ranges4
unfolding any_contains blocked contains
four_lem a = ground arith

six_lem : (a : ℕ) (z : Text) → (any_contains blocked (v6 a z) ≡ false) ↔ Outside a ranges6
unfolding any_contains blocked contains
six_lem a z = ground arith

-- An address without a zone in none of the ranges, where an IPv4 address mapped into IPv6 is taken
-- for the address that it carries.
abbrev pub IsPublic : Addr → Type 0
IsPublic (v4 a) = Outside a ranges4
IsPublic (v6 a zone) =
    (zone ≡ [])
    × (a / 2 ^ 32 ≡ 0xffff → Outside (a % 2 ^ 32) ranges4)
    × (a / 2 ^ 32 ≢ 0xffff → Outside a ranges6)

unmap_lem :
    (a : ℕ) (zone : Text)
    → zone ≡ []
    → (any_contains blocked (unmap (v6 a zone)) ≡ false) ↔ IsPublic (v6 a zone)
unfolding unmap
unmap_lem a zone e = elim (Bool-cases (a / 2 ^ 32 == 0xffff)) [
  | inl m ↦
      let p : a / 2 ^ 32 ≡ 0xffff = (nat_beq_iff _ _).0 m in
      rw m (
        λ h. (e, λ _. (four_lem (a % 2 ^ 32)).0 h, λ n. absurd (n p)),
        λ h. (four_lem (a % 2 ^ 32)).1 (h.1 p),
      )
  | inr m ↦
      let n : a / 2 ^ 32 ≢ 0xffff = eqb_false-ne _ _ m in
      rw m (λ h. (e, λ p. absurd (n p), λ _. (six_lem a zone).0 h), λ h. (six_lem a zone).1 (h.2 n))
]

xor-eq : (b c : Bool) → (xor b c ≡ false) ↔ (b ≡ c)
xor-eq true true = ground arith
xor-eq true false = ground arith
xor-eq false true = ground arith
xor-eq false false = ground arith

-- What stands behind the tests of `blocked_addr`.
both_tests :
    (p q r : Bool)
    → ((if p then true else if q then true else r) ≡ false)
      ↔ ((p ≡ false) × (q ≡ false) × (r ≡ false))
both_tests p q r = ground arith

abbrev pub PublicText : Text → Option Addr → Type 0
PublicText ip o = (a : Addr) × (o ≡ some a) × (has_colon ip ≡ is6 a) × IsPublic a

unmap4_lem : (a : ℕ) → (any_contains blocked (unmap (v4 a)) ≡ false) ↔ IsPublic (v4 a)
unfolding unmap
unmap4_lem a = four_lem a

passes :
    (ip : Text) (a : Addr)
    → (blocked_addr ip (some a) ≡ false) ↔ ((has_colon ip ≡ is6 a) × IsPublic a)
unfolding blocked_addr
passes ip (v4 a) =
    let (there, back) =
      both_tests false (xor (has_colon ip) false) (any_contains blocked (unmap (v4 a))) in
    let (x, x') = xor-eq (has_colon ip) false in
    let (u, u') = unmap4_lem a in
    (λ h. (x (there h).1, u (there h).2), λ (c, p). back (refl, x' c, u' p))
passes ip (v6 a zone) =
    let (there, back) =
      both_tests (not (zone == [])) (xor (has_colon ip) true)
        (any_contains blocked (unmap (v6 a zone))) in
    let (x, x') = xor-eq (has_colon ip) true in
    let (n, n') = no_zone zone in
    (
      λ h. (x (there h).1, (unmap_lem a zone (n (there h).0)).0 (there h).2),
      λ (c, p). back (n' p.0, x' c, (unmap_lem a zone p.0).1 p),
    )
  where
    no_zone : (z : Text) → (not (z == []) ≡ false) ↔ (z ≡ [])
    no_zone z = ground (arith, list_eqb_iff z [])

blocked_addr_lem : (ip : Text) (o : Option Addr) → (blocked_addr ip o ≡ false) ↔ PublicText ip o
blocked_addr_lem ip none = (unfold blocked_addr in λ h. cc, λ (a, p, _, _). cc)
blocked_addr_lem ip (some a) = (
  λ h. let (c, p) = (passes ip a).0 h in (a, refl, c, p),
  λ (b, p, x, y).
      let z : b ≡ a = (cc) in
      (passes ip a).1 (subst (λ b. (has_colon ip ≡ is6 b) × IsPublic b) z (x, y)),
)

module _ (platform : Platform) where
  check_ips_lem :
      (host : Text) (ips : List Text)
      → (check_ips platform host ips ≡ valid tt)
        ↔ All (λ ip. PublicText ip (platform.parse_addr ip)) ips
  unfolding check_ips blocked_ip
  check_ips_lem host [] = (λ h. tt, λ h. refl)
  check_ips_lem host (ip ∷ ips) = elim (Bool-cases (blocked_addr ip (platform.parse_addr ip))) [
    | inl b ↦ (
      λ h. absurd (ground arith),
      λ h. let z = (blocked_addr_lem ip (platform.parse_addr ip)).1 h.0 in cc,
    )
    | inr b ↦ rw b (
      λ h. ((blocked_addr_lem ip (platform.parse_addr ip)).0 b, (check_ips_lem host ips).0 h),
      λ h. (check_ips_lem host ips).1 h.1,
    )
  ]

  check_found_lem :
      (host : Text) (ips : List Text)
      → (check_found platform host ips ≡ valid tt)
        ↔ ((ips ≢ []) × All (λ ip. PublicText ip (platform.parse_addr ip)) ips)
  check_found_lem host [] = (λ h. cc, λ (n, _). absurd (n refl))
  check_found_lem host (ip ∷ ips) =
      let (there, back) = check_ips_lem host (ip ∷ ips) in (λ h. (λ p. cc, there h), λ h. back h.1)

  -- `CheckHost` accepts a host exactly if host and port are exempt, or the host has addresses and
  -- each of them reads as an address without a zone that lies outside of the ranges of private
  -- IPv4 and IPv6 addresses, one that is mapped into IPv6 taken for the IPv4 address it carries.
  pub check_host_lem :
      (host : Text) (port : ℕ)
      → (check_host platform host port ≡ valid tt) ↔ (
          (exempt platform host port ≡ true)
          ⊎ ((addresses platform host ≢ [])
              × All (λ ip. PublicText ip (platform.parse_addr ip)) (addresses platform host)))
  unfolding check_host
  check_host_lem host port = elim (Bool-cases (exempt platform host port)) [
    | inl x ↦ rw x (λ h. inl refl, λ h. refl)
    | inr x ↦
        let (there, back) = check_found_lem host (addresses platform host) in
        rw x (λ h. inr (there h), λ h. elim h [ inl p ↦ cc | inr q ↦ back q ])
  ]
