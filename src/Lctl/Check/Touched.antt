-- ===== src/Lctl/Check/Touched.antt =====
-- internal/lctl/check_connections.go: a valid connection is never touched.
use lierc_api.Base.{◌≡◌, ◌⊎◌, inl, inr, refl, true, false, not, List, [], ◌∷◌, Bytes, All}
use lierc_api.Utf8.{Text}
use lierc_api.Connconfig.Clean.{Tables}
use lierc_api.Connconfig.Address.{Platform}
use lierc_api.World.{Outside, Result, ok, fail, done, ◌>>=◌, ◌>>◌}
use lierc_api.World.Acts.{here, Does}
use lierc_api.Liercd.{Client}
use lierc_api.Lctl.Main.{Ids}
use lierc_api.Lctl.Delete.Only.{Touches}
use lierc_api.Lctl.Check.{
  Flags, Row, problem, connection_problem, is_unresolved, check_flags, given_ids, check_rows,
  check_connections,
}
use lierc_api.Lctl.Check.Rows.{Sound, check_rows-P}

-- A row with a problem that the flags let a connection be deleted for.
abbrev pub Condemned : Tables → Platform → Flags → List Row → Bytes → Type 0
Condemned tables platform flags [] id = ⊥
Condemned tables platform flags (r ∷ rs) id =
    ((r.id ≡ id)
      × (why : Text) × (connection_problem tables platform r.config (not flags.no_dns)
          ≡ problem why)
      × ((is_unresolved why ≡ false) ⊎ (flags.unresolved ≡ true)))
    ⊎ Condemned tables platform flags rs id

-- The rows that the ids on the command line are asked for.
module _ (tables : Tables) (platform : Platform) (flags : Flags)
    (query : List Bytes → Result (List Row)) where
  abbrev pub MayGo : Ids → Bytes → Type 0
  MayGo read id =
      (flags.del ≡ true)
      × (given : List Bytes) × (rows : List Row) × (given_ids read ≡ ok given)
      × (query given ≡ ok rows)
      × Condemned tables platform flags rows id

  Sound-rows :
      (T : Bytes → Type 0) (rows : List Row)
      → ((id : Bytes) → Condemned tables platform flags rows id → T id)
      → All (Sound T tables platform flags) rows
  Sound-rows T [] f = tt
  Sound-rows T (r ∷ rs) f =
      (λ why p u. f r.id (inl (refl, why, p, u)), Sound-rows T rs (λ id c. f id (inr c)))

  -- Whatever the world answers, check-connections sends a destroy, and deletes rows, only with
  -- --delete and only of a connection among the rows of its query whose saved config has a problem; a
  -- problem whose message begins with "Couldn't find host" is enough only with --delete-unresolved.
  pub check_connections-Touches :
      (world : Outside) (client : Client) (read : Ids)
      → Does
          (Touches (MayGo read))
          (check_connections world client tables platform flags read query)
  unfolding check_connections
  check_connections-Touches world client read = given (given_ids read) refl
    where
      T : Bytes → Type 0
      T id = MayGo read id

      asked :
          (is : List Bytes)
          → given_ids read ≡ ok is
          → (r : Result (List Row)) → query is ≡ r
          → Does (Touches T) (done r >>= check_rows world client tables platform flags is)
      asked is g (fail e) q = λ h. here
      asked is g (ok rows) q =
          check_rows-P T tables platform flags world client is rows
            (λ d. Sound-rows T rows (λ id c. (d, is, rows, g, q, c)))

      checked :
          (is : List Bytes)
          → given_ids read ≡ ok is
          → (r : Result (Unit {0}))
          → Does
              (Touches T)
              (done r >> (done (query is) >>= check_rows world client tables platform flags is))
      checked is g (fail e) = λ h. here
      checked is g (ok _) = asked is g (query is) refl

      given :
          (r : Result (List Bytes))
          → given_ids read ≡ r
          → Does (Touches T) (
              done r >>= λ given.
              (done (check_flags flags given)
                >> (done (query given) >>= check_rows world client tables platform flags given)))
      given (fail e) g = λ h. here
      given (ok is) g = checked is g (check_flags flags is)
