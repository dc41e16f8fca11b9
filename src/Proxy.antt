-- ===== src/Proxy.antt =====
-- internal/proxy/proxy.go: whose X-Forwarded-For header counts, and what the access log records.
-- Package net is the record `Net`; an address is the text of it.
pub mod Peer
use lierc_api.Base.{
  ℕ, zero, suc, ◌+◌, Bool, true, false, not, ◌&&◌, ◌||◌, List, [], ◌∷◌, ◌++◌, reverse, Option, none,
  some, Bytes, leb, if◌then◌else◌, ◌==◌, nat_eq, list_eq, length,
}

pub record Net : Type 1 where
  pub Address : Type 0
  pub Network : Type 0
  pub parse_cidr : Bytes → Option Network
  pub parse_ip : Bytes → Option Address
  pub contains : Network → Address → Bool
  pub equal : Address → Address → Bool
  pub split_host_port : Bytes → Option (Bytes × Bytes)
  pub join_host_port : Bytes → Bytes → Bytes

-- What the class `[^,\s]` of `lastHop` leaves out.
unfoldable pub is_separator : ℕ → Bool
is_separator c = c == b',' || (c == b' ' || (c == b'\t' || (c == b'\n' || (c == b'\r' || c == 12))))

-- The run of other bytes at the front, and what is behind it.
unfoldable pub run_of : Bytes → Bytes × Bytes
run_of [] = ([], [])
run_of (c ∷ cs) =
    let rest = run_of cs in if is_separator c then ([], c ∷ cs) else (c ∷ rest.0, rest.1)

abbrev pub unless_nil : Bytes → Option Bytes
unless_nil [] = none
unless_nil (c ∷ cs) = some (c ∷ cs)

-- `lastHop.FindStringSubmatch`, its group.
unfoldable pub last_hop : Bytes → Option Bytes
last_hop header = unless_nil (reverse (run_of (reverse header)).0)

module _ (net : Net) where
  -- The loop over `trusted`: networks and addresses.
  abbrev pub add_address :
      Option net.Address → List net.Network × List net.Address → List net.Network × List net.Address
  add_address none lists = lists
  add_address (some a) (nets, ips) = (nets, a ∷ ips)

  abbrev pub add_trusted :
      Option net.Network
      → Option net.Address
      → List net.Network × List net.Address
      → List net.Network × List net.Address
  add_trusted (some n) _ (nets, ips) = (n ∷ nets, ips)
  add_trusted none a lists = add_address a lists

  unfoldable pub sort_trusted : List Bytes → List net.Network × List net.Address
  sort_trusted [] = ([], [])
  sort_trusted (t ∷ ts) = add_trusted (net.parse_cidr t) (net.parse_ip t) (sort_trusted ts)

  abbrev pub any {ℓ} : {A : Type ℓ} → (A → Bool) → List A → Bool
  any p [] = false
  any p (x ∷ xs) = p x || any p xs

  -- `isTrusted`
  unfoldable pub is_trusted : List Bytes → Option net.Address → Bool
  is_trusted trusted none = false
  is_trusted trusted (some ip) =
      let lists = sort_trusted trusted in
      any (λ t. net.equal t ip) lists.1 || any (λ n. net.contains n ip) lists.0

  -- `net.SplitHostPort`, with the whole address as the host after an error.
  abbrev pub host_and_port : Bytes → Option (Bytes × Bytes) → Bytes × Bytes
  host_and_port remote none = (remote, [])
  host_and_port remote (some hp) = hp

  -- The host of the log and the address that the handler sees.
  abbrev pub forwarded : Bytes → Bytes × Bytes → Option Bytes → Bytes × Bytes
  forwarded remote (host, port) none = (host, remote)
  forwarded remote (host, port) (some hop) = (hop, net.join_host_port hop port)

  unfoldable pub rewrite : List Bytes → Bytes → Bytes → Bytes × Bytes
  rewrite trusted remote header =
      let hp = host_and_port remote (net.split_host_port remote) in
      if is_trusted trusted (net.parse_ip hp.0)
      then forwarded remote hp (last_hop header)
      else (hp.0, remote)

-- `logWriter`, and what a handler calls on it.
pub record Writer : Type 0 where
  pub status : ℕ
  pub wrote_header : Bool
  pub bytes : ℕ

pub data Call : Type 0 where
  write_header : ℕ → Call
  -- the number of bytes that the response took
  write : ℕ → Call

abbrev pub new_writer : Writer
new_writer = record { status = 200; wrote_header = false; bytes = 0 }

unfoldable pub call : Writer → Call → Writer
call w (write_header code) =
    if not w.wrote_header && leb 200 code
    then record w { status = code; wrote_header = true }
    else w
call w (write n) = record w { wrote_header = true; bytes = w.bytes + n }

unfoldable pub calls : Writer → List Call → Writer
calls w [] = w
calls w (c ∷ cs) = calls (call w c) cs
