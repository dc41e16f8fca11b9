-- ===== src/Stream/Deliver/Owned.antt =====
-- `Deliver`: who gets a message, and that an idle server loses nothing by skipping it.
use lierc_api.Base.{
  ℕ, ◌≡◌, refl, sym, ◌∙◌, ap, ◌⊎◌, inl, inr, Bool, true, false, List, [], ◌∷◌, Option, none, some,
  Bytes, txt, if◌then◌else◌, key_cases, nat_eq, list_eq, ℤ,
}
use lierc_api.Base.Assoc.{lookup}
use lierc_api.World.{Result, ok, fail}
use lierc_api.Stream.Sse.{sse_event}
use lierc_api.Stream.Perl.{Codec, perl_string, parse_int}
use lierc_api.Stream.Registry.{
  Server, deliver_locked, members, or_nil, raise_parsed, offer_each, pointers,
}
use lierc_api.Stream.Registry.Invariant.{Inv}
use lierc_api.Stream.Registry.Raising.{raise_if_open_closed}
use lierc_api.Stream.Registry.Hub.{Channel, offered, view}
use lierc_api.Stream.Registry.Hub.Refined.{delivers-Goes}
use lierc_api.Stream.Deliver.{Broker, is_idle, message_id, behind_owner, behind_message, deliver}

-- Without streams there is nothing to deliver to.
deliver_locked-nobody :
    (owner id ev : Bytes) (s : Server) → s.streams ≡ [] → deliver_locked owner id ev s ≡ s
unfolding deliver_locked lookup raise_parsed offer_each
deliver_locked-nobody owner id ev s e = raised (parse_int id)
  where
    nobody : members owner s ≡ []
    nobody = ap (λ l. or_nil (lookup owner l)) e

    same : (n : Option ℤ) → raise_parsed owner n s ≡ s
    same none = refl
    same (some n) = raise_if_open_closed owner n s nobody

    raised :
        (n : Option ℤ)
        → offer_each ev (pointers (members owner (raise_parsed owner n s))) (raise_parsed owner n s)
          ≡ s
    raised n = rw (same n, nobody)

module _ (codec : Codec) (broker : Broker) where
  -- The skip of an idle server is no change: had the server looked up the owner all the same, it
  -- would be as it is, if nobody opened a stream in between.
  pub deliver-skips :
      (s : Server) (body : Bytes)
      → deliver codec broker s body s
        ≡ behind_message codec broker false body s (broker.read_message body)
  unfolding deliver
  deliver-skips s body = read (broker.read_message body)
    where
      quiet :
          (msg : Bytes) (r : Result (Option Bytes))
          → s.streams ≡ []
          → behind_owner codec broker body msg s r ≡ s
      quiet msg (fail e) q = refl
      quiet msg (ok none) q = refl
      quiet msg (ok (some owner)) q = deliver_locked-nobody owner _ _ s q

      skip :
          (l : List (Bytes × List (Bytes × ℕ))) (msg : Bytes) (r : Result (Option Bytes))
          → s.streams ≡ l
          → (if (elim l as (λ x. Bool) [ [] ↦ true | _ ∷ _ ↦ false ])
              then s
              else behind_owner codec broker body msg s r)
            ≡ behind_owner codec broker body msg s r
      skip [] msg r q = sym (quiet msg r q)
      skip (x ∷ xs) msg r q = refl

      read :
          (o : Option (Bytes × Bytes))
          → behind_message codec broker (is_idle s) body s o
            ≡ behind_message codec broker false body s o
      read none = refl
      read (some (conn, msg)) = skip s.streams msg (broker.owner_row (perl_string codec conn)) refl

  -- What a message does to a channel of `user`.
  abbrev pub Gets : Bytes → Bytes → Option Channel → Option Channel → Type 0
  Gets body user c d =
      (conn : Bytes) × (msg : Bytes) × (broker.read_message body ≡ some (conn, msg))
      × (broker.owner_row (perl_string codec conn) ≡ ok (some user))
      × (d ≡ offered (sse_event (txt "irc") body (message_id codec broker msg)) c)

  -- Whatever happened since the server was found not to be idle: `Deliver` leaves what stands under
  -- a user and an id as it is, or the user owns the connection that the message names, and the
  -- channel is offered an "irc" event with the untouched body and the message's id.
  pub deliver-Gets :
      (first : Server) (body : Bytes) (later : Server) (user id : Bytes)
      → Inv later
      → (view (deliver codec broker first body later) user id ≡ view later user id)
        ⊎ Gets body user (view later user id) (view (deliver codec broker first body later) user id)
  unfolding deliver
  deliver-Gets first body later user id v = read (broker.read_message body) refl
    where
      Ends : Server → Type 0
      Ends t =
          (view t user id ≡ view later user id)
          ⊎ Gets body user (view later user id) (view t user id)

      sent :
          (conn msg owner : Bytes)
          → broker.read_message body ≡ some (conn, msg)
          → broker.owner_row (perl_string codec conn) ≡ ok (some owner)
          → Ends (behind_owner codec broker body msg later (ok (some owner)))
      sent conn msg owner r o =
          let goes =
            delivers-Goes owner (message_id codec broker msg)
              (sse_event (txt "irc") body (message_id codec broker msg)) later v in
          elim (key_cases owner user) [
            | inl (e, t) ↦ inr (conn, msg, r, o ∙ ap (λ u. ok (some u)) e, rw t at (goes.1 user id))
            | inr (n, f) ↦ inl (rw f at (goes.1 user id))
          ]

      answered :
          (conn msg : Bytes) (a : Result (Option Bytes))
          → broker.read_message body ≡ some (conn, msg)
          → broker.owner_row (perl_string codec conn) ≡ a
          → Ends (behind_owner codec broker body msg later a)
      answered conn msg (fail e) r o = inl refl
      answered conn msg (ok none) r o = inl refl
      answered conn msg (ok (some owner)) r o = sent conn msg owner r o

      asked :
          (idle : Bool) (conn msg : Bytes)
          → broker.read_message body ≡ some (conn, msg)
          → Ends (behind_message codec broker idle body later (some (conn, msg)))
      asked true conn msg r = inl refl
      asked false conn msg r = answered conn msg (broker.owner_row (perl_string codec conn)) r refl

      read :
          (o : Option (Bytes × Bytes))
          → broker.read_message body ≡ o
          → Ends (behind_message codec broker (is_idle first) body later o)
      read none r = inl refl
      read (some (conn, msg)) r = asked (is_idle first) conn msg r
