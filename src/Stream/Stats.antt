-- ===== src/Stream/Stats.antt =====
-- internal/stream/stats.go: `serveStats` and `stats`. The headers of the request and of the
-- response are left out but for the key; a map in an answer stands as a list.
pub mod Counted
use lierc_api.Base.{
  ℕ, Bool, ◌||◌, List, [], ◌∷◌, Option, none, some, Bytes, length, txt, if◌then◌else◌, ◌==◌, nat_eq,
  list_eq,
}
use lierc_api.Base.Assoc.{Assoc, lookup}
use lierc_api.Stream.Registry.{Stream, Server, members, pointers}

-- `streamInfo`
pub record StreamInfo : Type 0 where
  pub remote : Bytes
  pub agent : Option Bytes
  pub created : ℕ

pub data Stats : Type 0 where
  invalid_key : Stats
  details : List StreamInfo → Stats
  counts : Assoc Bytes ℕ → Stats

abbrev pub info_before : Option Stream → List StreamInfo → List StreamInfo
info_before none rest = rest
info_before (some st) rest =
    record { remote = st.remote; agent = st.agent; created = st.created } ∷ rest

-- The loop over one user's streams.
unfoldable pub infos : Assoc ℕ Stream → List ℕ → List StreamInfo
infos heap [] = []
infos heap (p ∷ ps) = info_before (lookup p heap) (infos heap ps)

abbrev pub count_before : Bytes → Assoc Bytes ℕ → Assoc Bytes ℕ → Assoc Bytes ℕ
count_before user [] rest = rest
count_before user (m ∷ ms) rest = (user, length (m ∷ ms)) ∷ rest

-- The loop over the users, those without streams left out.
unfoldable pub count_streams : Assoc Bytes (Assoc Bytes ℕ) → Assoc Bytes ℕ
count_streams [] = []
count_streams ((user, m) ∷ ms) = count_before user m (count_streams ms)

unfoldable pub stats : Bytes → Server → Stats
stats user s =
    if user == [] || user == txt "0"
    then counts (count_streams s.streams)
    else details (infos s.heap (pointers (members user s)))

-- `serveStats`: the key of the request, if it has one, and the key of the configuration.
unfoldable pub serve_stats : Option Bytes → Bytes → Bytes → Server → Stats
serve_stats none key user s = invalid_key
serve_stats (some given) key user s = if given == key then stats user s else invalid_key
