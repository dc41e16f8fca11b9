-- ===== src/Config/Loaded.antt =====
-- internal/config/config.go: what a loaded configuration can be relied on for.
use lierc_api.Base.{
  ℕ, ◌≡◌, ◌≢◌, ◌≤◌, ◌<◌, ◌^◌, refl, subst, List, [], ◌∷◌, Option, none, some, Bytes, ℤ, pos, negsuc,
  txt, All, arith,
}
use lierc_api.Stream.Perl.{parse_int}
use lierc_api.Config.{
  Config, Platform, unless_empty, positive_int32, max_conns, if_not_blank, or_default, trusted,
  with_port, proxies, with_max_conns, load,
}

max_conns-bounds : (s : Bytes) (n : ℕ) → max_conns s ≡ some n → (1 ≤ n) × (n < 2 ^ 31)
max_conns-bounds [] n e = ground arith
max_conns-bounds (c ∷ cs) n e = bounds (parse_int (c ∷ cs)) e
  where
    bounds : (o : Option ℤ) → positive_int32 o ≡ some n → (1 ≤ n) × (n < 2 ^ 31)
    bounds none k = cc
    bounds (some (negsuc m)) k = cc
    bounds (some (pos m)) k = ground arith

module _ (platform : Platform) where
  trusted-All : (ps : List Bytes) → All (λ p. p ≢ []) (trusted platform ps)
  unfolding trusted
  trusted-All [] = tt
  trusted-All (p ∷ ps) = kept (platform.trim_space p) (trusted-All ps)
    where
      kept :
          (q : Bytes)
          → All (λ p. p ≢ []) (trusted platform ps)
          → All (λ p. p ≢ []) (if_not_blank q (trusted platform ps))
      kept [] a = a
      kept (c ∷ cs) a = (λ e. cc, a)

  -- An address that has a port.
  abbrev pub HasPort : Bytes → Type 0
  HasPort addr = platform.split_host_port addr ≢ none

  -- Package net joins a host with the default port, if it has none, to an address with a port.
  abbrev pub Joins : Bytes → Type 0
  Joins host =
      platform.split_host_port host ≡ none → HasPort (platform.join_host_port host (txt "4150"))

  with_port-HasPort :
      (addr : Bytes)
      → Joins addr
      → (o : Option (Bytes × Bytes)) → platform.split_host_port addr ≡ o
      → HasPort (with_port platform addr o)
  with_port-HasPort addr joins (some q) e = λ f. cc
  with_port-HasPort addr joins none e = joins e

  unless_empty-ne : (s def : Bytes) → def ≢ [] → unless_empty s def ≢ []
  unless_empty-ne [] def n = n
  unless_empty-ne (c ∷ cs) def n = λ e. cc

  -- Where `JoinHostPort` makes an address with a port of nsqd's host, in case that has none: a
  -- configuration that `Load` returns has a pool of 1 to 2^31 - 1 connections, a port in nsqd's address,
  -- no empty secret, key or liercd host, and no empty trusted proxy.
  load_bounds :
      Joins (or_default platform (txt "NSQD_HOST") (txt "127.0.0.1"))
      → (c : Config) → load platform ≡ some c
      → (1 ≤ c.db_max_conns)
        × (c.db_max_conns < 2 ^ 31)
        × HasPort c.nsq_addr
        × (c.secret ≢ [])
        × (c.key ≢ [])
        × (c.liercd_host ≢ [])
        × All (λ p. p ≢ []) c.trusted_proxies
  unfolding load with_max_conns proxies
  load_bounds joins c e =
      made (max_conns (platform.getenv (txt "DB_MAX_CONNS")))
        (max_conns-bounds (platform.getenv (txt "DB_MAX_CONNS"))) e
    where
      addr : Bytes
      addr = or_default platform (txt "NSQD_HOST") (txt "127.0.0.1")

      made :
          (o : Option ℕ)
          → ((n : ℕ) → o ≡ some n → (1 ≤ n) × (n < 2 ^ 31))
          → with_max_conns platform o ≡ some c
          → (1 ≤ c.db_max_conns)
            × (c.db_max_conns < 2 ^ 31)
            × HasPort c.nsq_addr
            × (c.secret ≢ [])
            × (c.key ≢ [])
            × (c.liercd_host ≢ [])
            × All (λ p. p ≢ []) c.trusted_proxies
      made none b k = cc
      made (some n) b k =
          subst
            (λ (q : Option Config). elim q as (λ z. Type 0) [
              | none ↦ Unit
              | some c ↦
                  (1 ≤ c.db_max_conns)
                  × (c.db_max_conns < 2 ^ 31)
                  × HasPort c.nsq_addr
                  × (c.secret ≢ [])
                  × (c.key ≢ [])
                  × (c.liercd_host ≢ [])
                  × All (λ p. p ≢ []) c.trusted_proxies
            ])
            k
            (
              (b n refl).0,
              (b n refl).1,
              with_port-HasPort addr joins (platform.split_host_port addr) refl,
              unless_empty-ne (platform.getenv (txt "API_SECRET")) (txt "changeme") (λ e. cc),
              unless_empty-ne (platform.getenv (txt "API_KEY")) (txt "changeme") (λ e. cc),
              unless_empty-ne (platform.getenv (txt "LIERCD_HOST")) (txt "127.0.0.1") (λ e. cc),
              trusted-All _,
            )
