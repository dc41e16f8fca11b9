-- ===== src/Lctl/Move/Observed.antt =====
-- internal/liercd and internal/lctl/move_connection.go: what a trace says of a connection: whether
-- it runs on an instance, by the newest answer of the instance, and what its column holds.
use lierc_api.Base.{[], ◌∷◌, Option, none, some, Bytes, if◌then◌else◌, ◌==◌, nat_eq, list_eq}
use lierc_api.World.{Trace, sent, wrote_instance, Method, get, post, Reply, no_answer, answered}
use lierc_api.Liercd.{trim_slash, status_path, create_path, destroy_path}

pub data Liveness : Type 0 where
  unknown : Liveness
  stopped : Liveness
  running : Liveness

-- By the answer to a destroy, a create and a status request.
unfoldable pub after_destroy : Reply → Liveness
after_destroy (no_answer e) = unknown
after_destroy (answered status body) =
    if status == 200 then stopped else if status == 404 then stopped else unknown

unfoldable pub after_create : Reply → Liveness
after_create (no_answer e) = unknown
after_create (answered status body) = if status == 200 then running else unknown

unfoldable pub after_status : Reply → Liveness → Liveness
after_status (no_answer e) before = before
after_status (answered status body) before =
    if status == 200 then running else if status == 404 then stopped else before

unfoldable pub seen : Bytes → Method → Bytes → Reply → Liveness → Liveness
seen id get path reply before =
    if path == trim_slash (status_path id) then after_status reply before else before
seen id post path reply before =
    if path == trim_slash (destroy_path id)
    then after_destroy reply
    else if path == trim_slash (create_path id)
    then after_create reply
    else before

-- Whether `id` runs on the instance at `base`.
unfoldable pub observed : Bytes → Bytes → Trace → Liveness
observed base id [] = unknown
observed base id (sent url method path body reply ∷ h) =
    let before = observed base id h in
    if url == base then seen id method path reply before else before
observed base id (_ ∷ h) = observed base id h

-- What the newest update of the column of `id` stored, if there is one and it was made.
unfoldable pub recorded : Bytes → Trace → Option (Option Bytes)
recorded id [] = none
recorded id (wrote_instance j value made ∷ h) =
    let before = recorded id h in if j == id then (if made then some value else none) else before
recorded id (_ ∷ h) = recorded id h
