-- ===== src/Tests/Proxy.antt =====
-- A trusted peer's header, and the log of a short response.
use lierc_api.Base.{
  ◌≡◌, ◌⊎◌, List, [], ◌∷◌, ◌++◌, true, false, none, some, Bytes, txt, ◌==◌, nat_eq, list_eq,
}
use lierc_api.Proxy.{Net, is_trusted, host_and_port, rewrite, Call, write_header, write}
use lierc_api.Proxy.Peer.{IsLastHop, rewrite_lem}

-- Addresses are texts, and there are no networks.
abbrev net : Net
net = record {
  Address = Bytes;
  Network = Bytes;
  parse_cidr = λ t. none;
  parse_ip = λ t. some t;
  contains = λ n a. false;
  equal = λ a b. a == b;
  split_host_port = λ r. some (r, txt "80");
  join_host_port = λ h p. h ++ (b':' ∷ p);
}

rewrite_lem_example :
    ((rewrite net (txt "::1" ∷ []) (txt "::1") (txt "9.9.9.9, 10.0.0.7")).1 ≡ txt "::1")
    ⊎ ((is_trusted net
            (txt "::1" ∷ [])
            (net.parse_ip (host_and_port net (txt "::1") (net.split_host_port (txt "::1"))).0)
          ≡ true)
        × (hop : Bytes) × IsLastHop (txt "9.9.9.9, 10.0.0.7") hop
        × ((rewrite net (txt "::1" ∷ []) (txt "::1") (txt "9.9.9.9, 10.0.0.7")).1
            ≡ net.join_host_port hop
                (host_and_port net (txt "::1") (net.split_host_port (txt "::1"))).1))
rewrite_lem_example = rewrite_lem net (txt "::1" ∷ []) (txt "::1") (txt "9.9.9.9, 10.0.0.7")

abbrev deeds : List Call
deeds = write_header 404 ∷ write 9 ∷ write_header 200 ∷ write 3 ∷ []
