-- ===== src/Stream/Http/Access.antt =====
-- internal/stream/server.go: who is served.
use lierc_api.Base.{
  ◌≡◌, refl, sym, ap, ◌∙◌, ◌≢◌, Bool, true, false, List, [], ◌∷◌, ◌++◌, Option, none, some, Bytes,
  if◌then◌else◌, ◌==◌, nat_eq, list_eq, txt,
}
use lierc_api.World.{Result, ok, fail}
use lierc_api.Session.{path_unescape, read_perl, user, or_nobody}
use lierc_api.Session.Sound.{read_perl_lem}
use lierc_api.Stream.Http.{
  Login, server_error, unauthorized, unverified, logged_in, login, decide, user_state, Answer,
  stats, refused, ping, no_connections, stream, serve_connections, serve_user, serve_login,
  serve_http, ping_path,
}

-- An answer that acts for a user.
abbrev pub ActsFor : Bytes → Answer → Type 0
ActsFor name stats = ⊥
ActsFor name (refused l) = ⊥
ActsFor name (ping n id) = n ≡ name
ActsFor name no_connections = ⊥
ActsFor name (stream n conns) = n ≡ name

login-eq :
    (row : Bytes → Result (Option Bool)) (u name : Bytes)
    → login row u ≡ logged_in name
    → (u ≡ name) × (row name ≡ ok (some false)) × (name ≢ [])
unfolding login
login-eq row [] name e = cc
login-eq row (c ∷ cs) name e = by_row (row (c ∷ cs)) refl e
  where
    by_row :
        (r : Result (Option Bool))
        → row (c ∷ cs) ≡ r
        → decide (c ∷ cs) (user_state r) ≡ logged_in name
        → (c ∷ cs ≡ name) × (row name ≡ ok (some false)) × (name ≢ [])
    by_row (fail x) p e = cc
    by_row (ok none) p e = cc
    by_row (ok (some true)) p e = cc
    by_row (ok (some false)) p e = let q : c ∷ cs ≡ name = cc in (q, ap row (sym q) ∙ p, λ z. cc)

module _ (connections : Bytes → Result (List (Bytes × Bytes))) (path : Bytes) (is_post : Bool) where
  serve_user-ActsFor :
      (name n : Bytes) (o : Option Bytes) (b : Bool)
      → ActsFor name (serve_user connections path is_post n o b)
      → n ≡ name
  serve_user-ActsFor name n (some id) true a = a
  serve_user-ActsFor name n (some id) false a = served (connections n) a
    where
      served : (r : Result (List (Bytes × Bytes))) → ActsFor name (serve_connections n r) → n ≡ name
      served (fail e) a = absurd a
      served (ok conns) a = a
  serve_user-ActsFor name n none b a = served (connections n) a
    where
      served : (r : Result (List (Bytes × Bytes))) → ActsFor name (serve_connections n r) → n ≡ name
      served (fail e) a = absurd a
      served (ok conns) a = a

  serve_login-ActsFor :
      (name : Bytes) (l : Login)
      → ActsFor name (serve_login connections path is_post l)
      → l ≡ logged_in name
  serve_login-ActsFor name (logged_in n) a =
      ap logged_in (serve_user-ActsFor name n (ping_path path) is_post a)
  serve_login-ActsFor name server_error a = absurd a
  serve_login-ActsFor name unauthorized a = absurd a
  serve_login-ActsFor name unverified a = absurd a

user-eq :
    (sign : Bytes → Bytes → Bytes) (secret : Bytes) (cookie : Option Bytes) (name : Bytes)
    → user sign cookie secret ≡ name
    → name ≢ []
    → (value : Bytes) × (cookie ≡ some value) × (read_perl sign value secret ≡ some name)
unfolding user
user-eq sign secret none name e ne = absurd (ne (sym e))
user-eq sign secret (some value) name e ne = (value, refl, named (read_perl sign value secret) e)
  where
    named : (o : Option Bytes) → or_nobody sign o ≡ name → o ≡ some name
    named none e = absurd (ne (sym e))
    named (some u) e = ap some e

-- A stream is opened, or a stream pinged, only for a user whom the request's cookie names and
-- whose row exists and is not unverified; the cookie's unescaped text ends in the signature of
-- the part before it.
pub serve_http-ActsFor :
    (connections : Bytes → Result (List (Bytes × Bytes))) (path : Bytes) (is_post : Bool)
    (sign : Bytes → Bytes → Bytes) (secret : Bytes) (row : Bytes → Result (Option Bool))
    (cookie : Option Bytes) (name : Bytes)
    → ActsFor name (serve_http connections path is_post sign secret row cookie)
    → (row name ≡ ok (some false))
      × (value : Bytes) × (cookie ≡ some value)
      × (read_perl sign value secret ≡ some name)
      × (id payload : Bytes) × (path_unescape value
          ≡ some (id ++ (b':' ∷ (payload ++ (b':' ∷ sign secret payload)))))
unfolding serve_http
serve_http-ActsFor connections path is_post sign secret row cookie name a =
    let (u, r, ne) =
      login-eq row (user sign cookie secret) name (served (path == txt "/stats") a) in
    let (value, c, p) = user-eq sign secret cookie name u ne in
    let (id, payload, v, _, _, _, _, _, _) = read_perl_lem sign value secret name p in
    (r, value, c, p, id, payload, v)
  where
    served :
        (b : Bool)
        → ActsFor name (
            if b
            then stats
            else serve_login connections path is_post (login row (user sign cookie secret)))
        → login row (user sign cookie secret) ≡ logged_in name
    served true a = absurd a
    served false a =
        serve_login-ActsFor connections path is_post name (login row (user sign cookie secret)) a
