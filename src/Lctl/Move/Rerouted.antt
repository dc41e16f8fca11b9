-- ===== src/Lctl/Move/Rerouted.antt =====
-- internal/lctl/move_connection.go and internal/liercd/liercd.go: the column that a move writes,
-- read by the client that routes by it.
use lierc_api.Base.{
  ◌≡◌, refl, inl, inr, true, [], ◌∷◌, ◌++◌, some, Bytes, nat_eq, list_eq, key_cases, txt,
}
use lierc_api.World.{Outside, ok, Trace, read_instance}
use lierc_api.Database.{instance_text, column}
use lierc_api.Liercd.{base, base_of, pinned_base, trim_slash}
use lierc_api.Liercd.Routing.{IsPlain, base-plain}
use lierc_api.Lctl.Move.{stored}

-- The name that the column of a moved connection reads as.
base_of-stored :
    (main next target b : Bytes)
    → pinned_base (record { base_url = main; next_url = next; routed = true }) target ≡ ok b
    → base_of
        (record { base_url = main; next_url = next; routed = true })
        (instance_text (some (column (stored target))))
      ≡ ok b
unfolding base_of pinned_base stored
base_of-stored main next [] b e = cc
base_of-stored main next (c ∷ cs) b e = elim (key_cases (c ∷ cs) (txt "main")) [
  | inl (p, f) ↦ rw f (rw f at e)
  | inr (_, f) ↦ rw f (rw f at e)
]

-- For an id without a slash: a routed request about a connection, made while its column holds what
-- a move to `target` writes, goes to the URL that a client pinned to `target` uses.
pub base-stored :
    (world : Outside) (main next target id rest b : Bytes) (h : Trace)
    → IsPlain id
    → pinned_base (record { base_url = main; next_url = next; routed = true }) target ≡ ok b
    → world.instance_row h id ≡ ok (some (column (stored target)))
    → base world
        (record { base_url = main; next_url = next; routed = true })
        (trim_slash (id ++ (b'/' ∷ rest)))
        h
      ≡ (ok b, read_instance id ∷ h)
base-stored world main next target id rest b h plain p row =
    rw (base-plain world main next id rest h plain, row, base_of-stored main next target b p) refl
