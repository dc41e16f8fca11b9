-- ===== src/Database.antt =====
-- internal/db/db.go: the queries of a connection's config and instance. The server's answers are
-- the fields of `Outside`.
use lierc_api.Base.{[], ◌∷◌, Bool, true, false, Option, none, some, Bytes}
use lierc_api.World.{
  Outside, Act, Result, ok, fail, Error, read_config, read_instance, wrote_instance, unless_error,
}

-- A missing row and a NULL column are the empty text.
abbrev pub instance_text : Option (Option Bytes) → Bytes
instance_text none = []
instance_text (some none) = []
instance_text (some (some name)) = name

abbrev pub instance_answer : Result (Option (Option Bytes)) → Result Bytes
instance_answer (ok row) = ok (instance_text row)
instance_answer (fail e) = fail e

-- The empty name is stored as NULL.
abbrev pub column : Bytes → Option Bytes
column [] = none
column (c ∷ cs) = some (c ∷ cs)

abbrev pub succeeded : Option Error → Bool
succeeded none = true
succeeded (some _) = false

module _ (world : Outside) where
  -- `LookupConfig`: no row is `none`.
  unfoldable pub lookup_config : Bytes → Act (Option Bytes)
  lookup_config id h = (world.config_row h id, read_config id ∷ h)

  -- `LookupLiercd`
  unfoldable pub lookup_liercd : Bytes → Act Bytes
  lookup_liercd id h = (instance_answer (world.instance_row h id), read_instance id ∷ h)

  -- `SetLiercd`
  unfoldable pub set_liercd : Bytes → Bytes → Act Unit
  set_liercd id name h =
      let e = world.update_instance h id (column name) in
      (unless_error e, wrote_instance id (column name) (succeeded e) ∷ h)
