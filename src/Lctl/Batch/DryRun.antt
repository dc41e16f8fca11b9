-- ===== src/Lctl/Batch/DryRun.antt =====
-- internal/lctl/move_connections.go: a run without --move.
use lierc_api.Base.{◌∷◌, nat_eq, list_eq}
use lierc_api.World.{Act, Trace, Event, sent, read_instance, printed, get}

-- An event that changes nothing: a question to liercd or the database, or a printed line.
unfoldable pub Harmless : Event → Type 0
Harmless (sent _ get _ _ _) = Unit
Harmless (read_instance _) = Unit
Harmless (printed _) = Unit
Harmless _ = ⊥

-- Only harmless events are added.
pub data Adds (h : Trace) : Trace → Type 0 where
  same : Adds h h
  more : {e : Event} {t : Trace} → Harmless e → Adds h t → Adds h (e ∷ t)

-- An action that adds only harmless events, wherever it starts.
abbrev IsQuiet : {A : Type 0} → Act A → Type 0
IsQuiet m = (h : Trace) → Adds h (m h).1
