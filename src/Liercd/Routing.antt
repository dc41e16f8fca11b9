-- ===== src/Liercd/Routing.antt =====
-- internal/liercd/liercd.go: where a routed request goes, compared with a client that is pinned to
-- the instance.
use lierc_api.Base.{◌≡◌, refl, ◌≢◌, true, false, [], ◌∷◌, ◌++◌, Bytes, All, ◌==◌, nat_eq, list_eq}
use lierc_api.World.{Outside, ok, fail, Trace, read_instance}
use lierc_api.Database.{instance_answer, lookup_liercd}
use lierc_api.Liercd.{base, routed_base, base_of, trim_slash, path_id}

-- A byte of an id: any but the slash.
abbrev pub IsPlain : Bytes → Type 0
IsPlain id = (id ≢ []) × All (λ c. (c == b'/') ≡ false) id

path_id-append :
    (id rest : Bytes) → All (λ c. (c == b'/') ≡ false) id → path_id (id ++ (b'/' ∷ rest)) ≡ id
unfolding path_id
path_id-append [] rest h = refl
path_id-append (c ∷ cs) rest h = rw (h.0, path_id-append cs rest h.1) refl

trim_slash-append : (id rest : Bytes) → IsPlain id → trim_slash (id ++ rest) ≡ id ++ rest
unfolding trim_slash
trim_slash-append [] rest h = absurd (h.0 refl)
trim_slash-append (c ∷ cs) rest h = rw (h.1.0) refl

-- A routed request about an id goes where its column says.
pub base-plain :
    (world : Outside) (main next id rest : Bytes) (h : Trace)
    → IsPlain id
    → base world
        (record { base_url = main; next_url = next; routed = true })
        (trim_slash (id ++ (b'/' ∷ rest)))
        h
      ≡ elim (instance_answer (world.instance_row h id)) [
        | ok name ↦ (
          base_of (record { base_url = main; next_url = next; routed = true }) name,
          read_instance id ∷ h,
        )
        | fail e ↦ (fail e, read_instance id ∷ h)
      ]
unfolding base
base-plain world main next [] rest h p = absurd (p.0 refl)
base-plain world main next (c ∷ cs) rest h p =
    rw (trim_slash-append (c ∷ cs) (b'/' ∷ rest) p, path_id-append (c ∷ cs) rest p.1)
      (unfold routed_base lookup_liercd in refl)
