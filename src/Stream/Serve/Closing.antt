-- ===== src/Stream/Serve/Closing.antt =====
-- internal/stream/writer.go: what is left of a stream once its handler has ended.
use lierc_api.Base.{ℕ, ◌≡◌, refl, ap, ◌∙◌, true, none, some, nat_eq, list_eq}
use lierc_api.Base.Assoc.{lookup, erase, insert, lookup-erase_self, lookup-insert_self}
use lierc_api.Stream.Registry.{Stream, Server, members, stop, deregister, deregister_locked}
use lierc_api.Stream.Registry.Members.{members-set_members_self, set_members_heap}
use lierc_api.Stream.Serve.{close_stream}

deregister-at :
    (p : ℕ) (x : Stream) (s : Server)
    → lookup p s.heap ≡ some x
    → deregister p s ≡ deregister_locked x.user x.id s
unfolding deregister
deregister-at p x s at = rw (at, deregister) refl

module _ (p : ℕ) (st : Stream) (s : Server) (at : lookup p s.heap ≡ some st) where
  stopped : Server
  stopped = record s { heap = insert p (record st { done = true }) s.heap }

  stop-stopped : stop p s ≡ stopped
  unfolding stop stopped
  stop-stopped = rw (at, stop) refl

  close_stream-eq : close_stream p s ≡ deregister_locked st.user st.id stopped
  unfolding close_stream stopped
  close_stream-eq =
      ap (deregister p) stop-stopped
      ∙ deregister-at p (record st { done = true }) stopped
          (lookup-insert_self p (record st { done = true }) s.heap)

  -- Once the handler of a stream has ended: no stream of its user is registered under its id, it is
  -- stopped, and its queue is as it was.
  pub close_stream_lem :
      (lookup st.id (members st.user (close_stream p s)) ≡ none)
      × (lookup p (close_stream p s).heap ≡ some (record st { done = true }))
  unfolding deregister_locked stopped
  close_stream_lem = rw close_stream-eq (
    ap (lookup st.id)
          (members-set_members_self st.user (erase st.id (members st.user stopped)) stopped)
        ∙ lookup-erase_self st.id (members st.user stopped),
    ap (lookup p) (set_members_heap st.user (erase st.id (members st.user stopped)) stopped)
        ∙ lookup-insert_self p (record st { done = true }) s.heap,
  )
