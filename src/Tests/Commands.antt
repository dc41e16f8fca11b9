-- ===== src/Tests/Commands.antt =====
-- Short runs of the commands of lctl that check, stop and prune, and of the configuration.
use lierc_api.Base.{
  ℕ, zero, suc, ◌≡◌, ◌<◌, ◌≤◌, ◌*◌, ◌^◌, refl, [], ◌∷◌, ◌++◌, true, false, none, some, txt, ◌==◌,
  nat_eq, list_eq, if◌then◌else◌, pos, arith, leb, ◌&&◌, length,
}
use lierc_api.Base.Radix.{decimal}
use lierc_api.Json.{object, end}
use lierc_api.Connconfig.Clean.{Tables}
use lierc_api.Connconfig.Address as Address
use lierc_api.World.{Outside, ok, answered}
use lierc_api.World.Acts.{Extends}
use lierc_api.Liercd.{Client}
use lierc_api.Lctl.Main.{ids}
use lierc_api.Lctl.Check.{Flags, Row, check_connections}
use lierc_api.Lctl.Delete.Only.{Touches}
use lierc_api.Lctl.Check.Touched.{MayGo, check_connections-Touches}
use lierc_api.Lctl.Inactive.{Conn, parse_since, stop_inactive}
use lierc_api.Lctl.Inactive.Since.{parse_since_days}
use lierc_api.Lctl.Inactive.Stops.{OnlyAsks, IsLong, IsInactive, stop_inactive-OnlyAsks}
use lierc_api.Lctl.Prune.{Meanwhile, deleted, prune_logs, prune_each, prune_one}
use lierc_api.Lctl.Prune.Emptied.{Accounts, late, sum, prune_logs-Accounts}
use lierc_api.Config.{Config, Platform, load, with_max_conns, trusted, proxies, split_commas}

abbrev world : Outside
world = record {
  http = λ h url m path body. answered 200 [];
  config_row = λ h id. ok none;
  instance_row = λ h id. ok (some none);
  update_instance = λ h id value. none;
  context_error = λ h. none;
  sleep_error = λ h seconds. none;
  begin_error = λ h. none;
  delete_from = λ h table id. ok 2;
  commit_error = λ h. none;
  sweep = λ h ids. ok 1;
}

abbrev client : Client
client = record { base_url = txt "http://a"; next_url = []; routed = true }

-- Every config reads as an object without a host.
abbrev tables : Tables
tables = record {
  decode_json = λ b. some (object end);
  whole = λ s. none;
  is_number = λ c. false;
  is_visible = λ c. true;
  fold = λ s. s;
  nfd = λ s. s;
}

abbrev platform : Address.Platform
platform = record {
  parse_addr = λ s. none;
  getenv = λ k. [];
  resolve = λ host. none;
  lower = λ s. s;
  truncated = λ s. none;
}

abbrev flags : Flags
flags = record { del = true; unresolved = false; no_dns = false; settle = pos 5 }

abbrev row : Row
row = record { id = txt "c1"; user = txt "u1"; config = txt "{}"; username = some (txt "ann") }

check_connections-Touches_example :
    Extends
      (Touches (MayGo tables platform flags (λ given. ok (row ∷ [])) (ids [])))
      []
      (check_connections world client tables platform flags (ids []) (λ given. ok (row ∷ [])) []).1
check_connections-Touches_example =
    check_connections-Touches tables platform flags (λ given. ok (row ∷ [])) world client (ids [])
      []

parse_since_days_example :
    (parse_since (λ s. none) (decimal 90 ++ txt "d")
      ≡ (if leb 1 90 && leb 90 100000 then some (90 * (24 * 3600 * 10 ^ 9)) else none))
    × (90 ≤ 100000 → 90 * (24 * 3600 * 10 ^ 9) < 2 ^ 63)
parse_since_days_example = parse_since_days (λ s. none) 90

abbrev inactive : Conn
inactive = record {
  id = txt "c1";
  instance_name = [];
  config = txt "{}";
  user = txt "u1";
  username = txt "ann";
}

stop_inactive-OnlyAsks_example :
    Extends
      (OnlyAsks client true
        (IsLong (λ s. none) (λ h d. ok (inactive ∷ [])) (txt "30d") 0)
        (IsInactive (λ s. none) (λ h d. ok (inactive ∷ [])) (txt "30d") 0 []))
      []
      (stop_inactive tables world client
        (λ s. none)
        (λ h d. ok (inactive ∷ []))
        true
        (txt "30d")
        0
        []).1
stop_inactive-OnlyAsks_example =
    stop_inactive-OnlyAsks (λ s. none) (λ h d. ok (inactive ∷ [])) (txt "30d") 0 tables world client
      true []

-- Three connections, two rows at a time: a row of the first arrives late, and the last is there again.
abbrev meanwhile : Meanwhile
meanwhile = record {
  context_error = λ k. none;
  delete_error = λ k. none;
  arrived = λ k. if k == 1 then 1 else 0;
  is_back = λ k. k == 4;
}

one_late : (k : ℕ) → late meanwhile.arrived k ≤ 1
one_late zero = omega arith
one_late (suc zero) = omega arith
one_late (suc (suc k)) = more k
  where
    more : (k : ℕ) → late meanwhile.arrived (suc (suc k)) ≤ 1
    more zero = omega arith
    more (suc k) = grind (arith, more k)

prune_logs-Accounts_example :
    Accounts meanwhile 2 (sum (4 ∷ 1 ∷ 7 ∷ [])) (prune_logs meanwhile 2 9 (4 ∷ 1 ∷ 7 ∷ []))
prune_logs-Accounts_example =
    prune_logs-Accounts meanwhile 2 9 1 (4 ∷ 1 ∷ 7 ∷ []) (omega arith) one_late (omega arith)

-- The first two connections are emptied by four statements; the last keeps its rows.
pruned :
    prune_logs meanwhile 2 9 (4 ∷ 1 ∷ 7 ∷ [])
    ≡ deleted (record {
      total = 6;
      statements = 0 ∷ 1 ∷ 1 ∷ 2 ∷ 2 ∷ [];
      finished = (4, 7) ∷ (3, 0) ∷ (2, 0) ∷ [];
      left = [];
    })
unfolding prune_logs prune_each prune_one
pruned = refl

abbrev settings : Platform
settings = record {
  getenv = λ k. if k == txt "NSQD_HOST" then txt "nsq" else [];
  trim_space = λ s. s;
  split_host_port = λ a. if length a == 3 then none else some (a, []);
  join_host_port = λ h p. h ++ (b':' ∷ p);
}

abbrev loaded : Config
loaded = record {
  liercd_host = txt "127.0.0.1";
  db_host = txt "127.0.0.1";
  db_user = [];
  db_pass = [];
  db_name = txt "lierc";
  secret = txt "changeme";
  key = txt "changeme";
  nsq_addr = txt "nsq:4150";
  listen = txt ":5003";
  trusted_proxies = txt "127.0.0.1" ∷ txt "::1" ∷ [];
  liercd_next_host = [];
  db_max_conns = 20;
}

loads : load settings ≡ some loaded
unfolding load with_max_conns trusted proxies split_commas
loads = refl
