-- ===== src/Stream/Registry/Hub/Shut.antt =====
-- Only `CloseStreams` changes whether the server is closed.
use lierc_api.Base.{
  ℕ, ◌≡◌, refl, ◌∙◌, inl, inr, List, [], ◌∷◌, Option, none, some, ℤ, Bytes, nat_eq, list_eq, arith,
  Option-cases,
}
use lierc_api.Base.Assoc.{Assoc, lookup}
use lierc_api.Stream.Sse.{ping_event}
use lierc_api.Stream.Registry.{
  Server, newest, set_members, deregister, deregister_locked, stop, offer_locked, ping_locked,
  ping_each, raise_latest, raise_if_open, raise_parsed, offer_each,
}
use lierc_api.Stream.Registry.Stopping.{stop_streams}
use lierc_api.Stream.Registry.Sections.{offer_locked_cases}

set_members_closed :
    (user : Bytes) (m : Assoc Bytes ℕ) (s : Server) → (set_members user m s).closed ≡ s.closed
set_members_closed user [] s = refl
set_members_closed user (x ∷ m) s = refl

pub deregister_closed : (p : ℕ) (s : Server) → (deregister p s).closed ≡ s.closed
unfolding deregister deregister_locked
deregister_closed p s = elim (Option-cases (lookup p s.heap)) [
  | inl e ↦ rw (e, deregister)
  | inr (st, e) ↦ rw (e, deregister) (set_members_closed st.user _ s)
]

offer_locked_closed : (p : ℕ) (b : Bytes) (s : Server) → (offer_locked p b s).closed ≡ s.closed
offer_locked_closed p b s =
    offer_locked_cases (λ t. t.closed ≡ s.closed) p b s refl (λ st at d room. refl)
      (λ st at d full. deregister_closed p (stop p s) ∙ (stop_streams p s).1)

pub offer_each_closed :
    (b : Bytes) (ps : List ℕ) (s : Server) → (offer_each b ps s).closed ≡ s.closed
unfolding offer_each
offer_each_closed b [] s = refl
offer_each_closed b (p ∷ ps) s =
    offer_each_closed b ps (offer_locked p b s) ∙ offer_locked_closed p b s

pub ping_locked_closed :
    (time : Bytes) (p : ℕ) (s : Server) → (ping_locked time p s).closed ≡ s.closed
unfolding ping_locked
ping_locked_closed time p s = elim (Option-cases (lookup p s.heap)) [
  | inl e ↦ rw (e, ping_locked)
  | inr (st, e) ↦ rw (e, ping_locked) (offer_locked_closed p (ping_event time (newest st.user s)) s)
]

pub ping_each_closed :
    (time : Bytes) (ps : List ℕ) (s : Server) → (ping_each time ps s).closed ≡ s.closed
unfolding ping_each
ping_each_closed time [] s = refl
ping_each_closed time (p ∷ ps) s =
    ping_each_closed time ps (ping_locked time p s) ∙ ping_locked_closed time p s

pub raise_if_open_closed :
    (user : Bytes) (n : ℤ) (s : Server) → (raise_if_open user n s).closed ≡ s.closed
unfolding raise_if_open raise_latest
raise_if_open_closed user n s = ground arith

pub raise_parsed_closed :
    (owner : Bytes) (n : Option ℤ) (s : Server) → (raise_parsed owner n s).closed ≡ s.closed
unfolding raise_parsed
raise_parsed_closed owner none s = refl
raise_parsed_closed owner (some n) s = raise_if_open_closed owner n s
