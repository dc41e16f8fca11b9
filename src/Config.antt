-- ===== src/Config.antt =====
-- internal/config/config.go: `Load`. The environment, `strings.TrimSpace` and package net are
-- arguments.
pub mod Loaded
use lierc_api.Base.{
  ℕ, zero, suc, ◌+◌, ◌≤◌, ◌<◌, ◌^◌, Bool, true, false, List, [], ◌∷◌, ◌++◌, Option, none, some,
  Bytes, ℤ, pos, negsuc, ltb, leb, ◌&&◌, if◌then◌else◌, ◌==◌, nat_eq, list_eq, txt,
}
use lierc_api.Stream.Perl.{parse_int}

pub record Config : Type 0 where
  pub liercd_host : Bytes
  pub db_host : Bytes
  pub db_user : Bytes
  pub db_pass : Bytes
  pub db_name : Bytes
  pub secret : Bytes
  pub key : Bytes
  pub nsq_addr : Bytes
  pub listen : Bytes
  pub trusted_proxies : List Bytes
  pub liercd_next_host : Bytes
  pub db_max_conns : ℕ

pub record Platform : Type 0 where
  pub getenv : Bytes → Bytes
  pub trim_space : Bytes → Bytes
  pub split_host_port : Bytes → Option (Bytes × Bytes)
  pub join_host_port : Bytes → Bytes → Bytes

abbrev pub unless_empty : Bytes → Bytes → Bytes
unless_empty [] def = def
unless_empty (c ∷ cs) def = c ∷ cs

-- `strings.Split(s, ",")`
abbrev pub onto_first : ℕ → Bytes × List Bytes → Bytes × List Bytes
onto_first c (first, rest) = (c ∷ first, rest)

abbrev pub new_first : Bytes × List Bytes → Bytes × List Bytes
new_first (first, rest) = ([], first ∷ rest)

unfoldable pub split_commas : Bytes → Bytes × List Bytes
split_commas [] = ([], [])
split_commas (c ∷ cs) =
    let parts = split_commas cs in if c == b',' then new_first parts else onto_first c parts

-- `DefaultDBMaxConns`
abbrev pub default_db_max_conns : ℕ
default_db_max_conns = 20

-- `strconv.ParseInt(s, 10, 32)`, where it is positive: one out of range is an error, as one of 64
-- bits is.
abbrev pub positive_int32 : Option ℤ → Option ℕ
positive_int32 (some (pos n)) = if leb 1 n && ltb n (2 ^ 31) then some n else none
positive_int32 _ = none

abbrev pub max_conns : Bytes → Option ℕ
max_conns [] = some default_db_max_conns
max_conns (c ∷ cs) = positive_int32 (parse_int (c ∷ cs))

abbrev pub if_not_blank : Bytes → List Bytes → List Bytes
if_not_blank [] ps = ps
if_not_blank (c ∷ cs) ps = (c ∷ cs) ∷ ps

module _ (platform : Platform) where
  abbrev pub or_default : Bytes → Bytes → Bytes
  or_default key def = unless_empty (platform.getenv key) def

  -- The loop over TRUSTED_PROXIES.
  unfoldable pub trusted : List Bytes → List Bytes
  trusted [] = []
  trusted (p ∷ ps) = if_not_blank (platform.trim_space p) (trusted ps)

  abbrev pub with_port : Bytes → Option (Bytes × Bytes) → Bytes
  with_port addr (some _) = addr
  with_port addr none = platform.join_host_port addr (txt "4150")

  unfoldable pub proxies : Bytes → List Bytes
  proxies s = let (first, rest) = split_commas s in trusted (first ∷ rest)

  -- The configuration but for DB_MAX_CONNS, an error of which is the only one.
  unfoldable pub with_max_conns : Option ℕ → Option Config
  with_max_conns none = none
  with_max_conns (some n) = some (record {
    liercd_host = or_default (txt "LIERCD_HOST") (txt "127.0.0.1");
    db_host = or_default (txt "POSTGRES_HOST") (txt "127.0.0.1");
    db_user = or_default (txt "POSTGRES_USER") [];
    db_pass = or_default (txt "POSTGRES_PASSWORD") [];
    db_name = txt "lierc";
    secret = or_default (txt "API_SECRET") (txt "changeme");
    key = or_default (txt "API_KEY") (txt "changeme");
    nsq_addr =
        with_port (or_default (txt "NSQD_HOST") (txt "127.0.0.1"))
          (platform.split_host_port (or_default (txt "NSQD_HOST") (txt "127.0.0.1")));
    listen = or_default (txt "LISTEN") (txt ":5003");
    trusted_proxies = proxies (or_default (txt "TRUSTED_PROXIES") (txt "127.0.0.1,::1"));
    liercd_next_host = or_default (txt "LIERCD_NEXT_HOST") [];
    db_max_conns = n;
  })

  -- `Load`
  unfoldable pub load : Option Config
  load = with_max_conns (max_conns (platform.getenv (txt "DB_MAX_CONNS")))
