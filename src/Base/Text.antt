-- ===== src/Base/Text.antt =====
-- Texts as bytes.
use Prim.Native.Char.{code}
use Prim.Native.String.{String}
use mathlib.Core.List.{[], ◌∷◌}
use lierc_api.Base.Lists.{Bytes}

-- The bytes of an ASCII literal.
abbrev pub txt : String → Bytes
txt String.[] = []
txt (String.◌∷◌ c s) = code c ∷ txt s
