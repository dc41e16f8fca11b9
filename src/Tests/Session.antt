-- ===== src/Tests/Session.antt =====
-- The cookie of the user "ab".
use lierc_api.Base.{
  ◌↔◌, arith, ℕ, Bool, true, false, not, ◌&&◌, ◌==◌, All, ◌≡◌, ◌≢◌, refl, Option, [], ◌∷◌, ◌++◌,
  some, Bytes, txt, nat_eq, list_eq,
}
use lierc_api.Base.Assoc.{lookup, insert}
use lierc_api.Storable.{
  Hash, decode_hash, decode_hash_body, decode_counted, decode_entries, read_string, read_key,
  read_length, slice, uint32, uint8,
}
use lierc_api.Session.{
  path_unescape, split, read_parts, value64, without_newlines, decode_quads, decode_base64,
  read_perl, nonempty, user,
}
use lierc_api.World.{Result, ok}
use lierc_api.Liercd.Routing.{IsPlain}
use lierc_api.Stream.Http.{serve_http, login, ping_path, id_then_ping, after_slashes}
use lierc_api.Stream.Http.Access.{ActsFor, serve_http-ActsFor}
use lierc_api.Stream.Http.Paths.{Slashes, ping_path_lem}
use lierc_api.Ids.{hex_digit}
use lierc_api.Session.Sound.{read_perl_lem}
use lierc_api.Session.Accepted.{read_perl-signed}

free_of : ℕ → Bytes → Bool
free_of c [] = true
free_of c (x ∷ xs) = not (x == c) && free_of c xs

free_of-All : (c : ℕ) (v : Bytes) → free_of c v ≡ true → All (λ x. (x == c) ≡ false) v
unfolding free_of
free_of-All c [] h = tt
free_of-All c (x ∷ xs) h = (ground arith, free_of-All c xs (ground arith))

sign : Bytes → Bytes → Bytes
sign secret payload = secret ++ txt "5f"

abbrev payload : Bytes
payload = txt "BQsDAAAAAQoCYWIAAAAEdXNlcg=="

abbrev cookie : Bytes
unfolding sign
cookie = txt "1" ++ (b':' ∷ (payload ++ (b':' ∷ sign (txt "k") payload)))

abbrev raw : Bytes
raw = 5 ∷ 11 ∷ 3 ∷ 0 ∷ 0 ∷ 0 ∷ 1 ∷ 10 ∷ 2 ∷ 97 ∷ 98 ∷ 0 ∷ 0 ∷ 0 ∷ 4 ∷ 117 ∷ 115 ∷ 101 ∷ 114 ∷ []

abbrev hash : Hash
hash = (txt "user", txt "ab") ∷ []

decodes : decode_base64 payload ≡ some raw
unfolding decode_base64 decode_quads without_newlines value64
decodes = refl

thaws : decode_hash raw ≡ some hash
unfolding decode_hash decode_hash_body decode_counted decode_entries read_string read_key
    read_length slice uint32 uint8 insert
thaws = refl

names : nonempty (lookup (txt "user") hash) ≡ some (txt "ab")
unfolding lookup
names = refl

read_perl-signed_example :
    read_perl sign (txt "1" ++ (b':' ∷ (payload ++ (b':' ∷ sign (txt "k") payload)))) (txt "k")
    ≡ some (txt "ab")
unfolding sign free_of
read_perl-signed_example =
    read_perl-signed sign (txt "k") (txt "1") payload raw (txt "ab") hash
      (free_of-All b':' (txt "1") refl) (free_of-All b':' payload refl)
      (free_of-All b':' (sign (txt "k") payload) refl) (free_of-All b'%' cookie refl) decodes thaws
      names

read_perl_lem_example :
    (id p : Bytes) × (path_unescape cookie ≡ some (id ++ (b':' ∷ (p ++ (b':' ∷ sign (txt "k") p)))))
    × (r : Bytes) × (h : Hash) × (decode_base64 p ≡ some r)
    × (decode_hash r ≡ some h)
    × (lookup (txt "user") h ≡ some (txt "ab"))
    × (txt "ab" ≢ [])
unfolding sign
read_perl_lem_example = read_perl_lem sign cookie (txt "k") (txt "ab") read_perl-signed_example

row : Bytes → Result (Option Bool)
row name = ok (some false)

opened :
    ActsFor (txt "ab") (serve_http (λ u. ok []) (txt "/") false sign (txt "k") row (some cookie))
unfolding serve_http login user ping_path id_then_ping after_slashes row read_perl path_unescape
    split read_parts sign decode_base64 decode_quads without_newlines value64 decode_hash
    decode_hash_body decode_counted decode_entries read_string read_key read_length slice uint32
    uint8 insert lookup hex_digit
opened = refl

serve_http-ActsFor_example :
    (row (txt "ab") ≡ ok (some false))
    × (value : Bytes) × (some cookie ≡ some value)
    × (read_perl sign value (txt "k") ≡ some (txt "ab"))
    × (id p : Bytes) × (path_unescape value
        ≡ some (id ++ (b':' ∷ (p ++ (b':' ∷ sign (txt "k") p)))))
serve_http-ActsFor_example =
    serve_http-ActsFor (λ u. ok []) (txt "/") false sign (txt "k") row (some cookie) (txt "ab")
      opened

ping_path_lem_example : (ping_path (txt "//s1/ping") ≡ some (txt "s1")) ↔ (
    (s : Bytes) × (txt "//s1/ping" ≡ b'/' ∷ (s ++ (txt "s1" ++ txt "/ping")))
    × Slashes s
    × IsPlain (txt "s1"))
ping_path_lem_example = ping_path_lem (txt "//s1/ping") (txt "s1")
