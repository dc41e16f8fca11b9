-- ===== src/Lctl/Inactive/Stops.antt =====
-- internal/lctl/stop_inactive.go: what `stopInactive` asks of liercd.
use lierc_api.Base.{
  ℕ, zero, suc, ◌≡◌, ◌⊎◌, inl, inr, ◌≤◌, ◌*◌, ◌^◌, refl, Bool, true, false, List, [], ◌∷◌, Option,
  none, some, Bytes, ℤ, length, if◌then◌else◌, ◌==◌, nat_eq, arith,
}
use lierc_api.Connconfig.Clean.{Tables}
use lierc_api.World.{
  Outside, Result, ok, fail, Event, Line, Method, get, post, sent, printed, print, pure, done,
  attempt, ◌>>=◌, ◌>>◌, instance_failed, not_reached, said_status, stopped_connection,
  stopped_total, would_stop_total, stop_again, asked_inactive, Trace,
}
use lierc_api.World.Acts.{Extends, Extends-trans, here, more, Does, >>=-Does, >>-Does}
use lierc_api.Liercd.{
  Client, Response, request, base, send, at_base, pinned, pinned_base, status_path, destroy_path,
  trim_slash,
}
use lierc_api.Lctl.Check.{host_port}
use lierc_api.Lctl.Inactive.{
  Conn, Seen, or_main, count_failed, count_stopped, behind_status, behind_reply, ask_or_stop,
  on_instance, context, stop_each, suggest, totals, unless_failed, conclude, stop_rows, parse_since,
  long_enough, check_since, ask_inactive, stop_inactive,
}

abbrev pub Listed : Conn → List Conn → Type 0
Listed c [] = ⊥
Listed c (d ∷ ds) = (c ≡ d) ⊎ Listed c ds

-- A request to the instance of a connection: to stop it, or about its status.
abbrev pub Asked : Client → Bool → Conn → Bytes → Method → Bytes → Type 0
Asked client stop c url m path =
    (pinned_base client (or_main c.instance_name) ≡ ok url)
    × (((stop ≡ true) × (m ≡ post) × (path ≡ trim_slash (destroy_path c.id)))
        ⊎ ((stop ≡ false) × (m ≡ get) × (path ≡ trim_slash (status_path c.id))))

-- Only lines, queries for durations that the property `D` holds of, and requests about connections that
-- `T` holds of.
abbrev pub OnlyAsks : Client → Bool → (ℕ → Type 0) → (Conn → Type 0) → Event → Type 0
OnlyAsks client stop D T (sent url m path _ _) = (c : Conn) × T c × Asked client stop c url m path
OnlyAsks client stop D T (printed _) = Unit
OnlyAsks client stop D T (asked_inactive d) = D d
OnlyAsks client stop D T _ = ⊥

module _ (tables : Tables) (world : Outside) (client : Client) (stop : Bool) (D : ℕ → Type 0)
    (T : Conn → Type 0) where
  P : Event → Type 0
  P e = OnlyAsks client stop D T e

  print-P : (l : Line) → Does P (print l)
  unfolding P
  print-P l h = more tt here

  pure-P : {A : Type 0} (a : A) → Does P (pure a)
  pure-P a h = here

  said-P : {A : Type 0} (l : Line) (a : A) → Does P (print l >> pure a)
  said-P l a = >>-Does P (print l) (pure a) (print-P l) (pure-P a)

  ask_or_stop-P :
      (c : Conn) (url : Bytes)
      → T c
      → pinned_base client (or_main c.instance_name) ≡ ok url
      → Does P (ask_or_stop tables world client stop (at_base url) c.id)
  unfolding ask_or_stop request base send P
  ask_or_stop-P c url x e = either stop refl
    where
      either :
          (b : Bool)
          → stop ≡ b
          → Does P (
              if b
              then request world (at_base url) post (destroy_path c.id) none
              else request world (at_base url) get (status_path c.id) none)
      either true s = λ h. more (c, x, (e, inl (s, refl, refl))) here
      either false s = λ h. more (c, x, (e, inr (s, refl, refl))) here

  behind_status-P : (c : Conn) (s : Seen) (status : ℕ) → Does P (behind_status tables c s status)
  unfolding behind_status
  behind_status-P c s status = tests (status == 200) (status == 404)
    where
      tests :
          (a b : Bool)
          → Does P (
              if a
              then (print (
                    stopped_connection c.id c.username
                      (host_port tables c.config)
                      (or_main c.instance_name))
                  >> pure (count_stopped c s))
              else if b
              then pure s
              else (print (said_status c.id status) >> pure (count_failed s)))
      tests true b =
          said-P
            (stopped_connection c.id c.username (host_port tables c.config)
              (or_main c.instance_name))
            (count_stopped c s)
      tests false true = pure-P s
      tests false false = said-P (said_status c.id status) (count_failed s)

  behind_reply-P : (c : Conn) (s : Seen) (r : Result Response) → Does P (behind_reply tables c s r)
  unfolding behind_reply
  behind_reply-P c s (fail e) =
      said-P (not_reached c.id (or_main c.instance_name) e) (count_failed s)
  behind_reply-P c s (ok res) = behind_status-P c s res.status

  on_instance-P :
      (c : Conn) (s : Seen)
      → T c
      → Does P (on_instance tables world client stop c s (pinned client (or_main c.instance_name)))
  unfolding pinned
  on_instance-P c s x = found (pinned_base client (or_main c.instance_name)) refl
    where
      found :
          (r : Result Bytes)
          → pinned_base client (or_main c.instance_name) ≡ r
          → Does P (
              on_instance tables world client stop c s
                (elim r as (λ z. Result Client) [ ok b ↦ ok (at_base b) | fail e ↦ fail e ]))
      found (fail e) p = said-P (instance_failed c.id e) (count_failed s)
      found (ok url) p =
          >>=-Does P (attempt (ask_or_stop tables world client stop (at_base url) c.id))
            (behind_reply tables c s) (ask_or_stop-P c url x p) (λ r. behind_reply-P c s r)

  abbrev Allowed : List Conn → Type 0
  Allowed [] = Unit
  Allowed (c ∷ cs) = T c × Allowed cs

  stop_each-P :
      (conns : List Conn) (s : Seen)
      → Allowed conns
      → Does P (stop_each tables world client stop conns s)
  unfolding stop_each
  stop_each-P [] s a = pure-P s
  stop_each-P (c ∷ cs) s a =
      >>-Does P (context tables world client stop)
        (on_instance tables world client stop c s (pinned client (or_main c.instance_name))
          >>= stop_each tables world client stop cs)
        (λ h. here)
        (>>=-Does P
          (on_instance tables world client stop c s (pinned client (or_main c.instance_name)))
          (stop_each tables world client stop cs) (on_instance-P c s a.0)
          (λ s'. stop_each-P cs s' a.1))

  conclude-P : (s : Seen) → Does P (conclude tables world client stop s)
  unfolding conclude
  conclude-P s =
      >>-Does P (totals tables world client stop s)
        (done (unless_failed tables world client stop s.failed)) (either stop) (λ h. here)
    where
      suggested : (n : ℕ) → Does P (suggest tables world client stop n)
      suggested zero = pure-P tt
      suggested (suc n) = print-P stop_again

      either :
          (b : Bool)
          → Does P (
              if b
              then print (stopped_total s.stopped (length s.users))
              else print (would_stop_total s.stopped (length s.users))
                >> suggest tables world client stop s.stopped)
      either true = print-P _
      either false =
          >>-Does P (print (would_stop_total s.stopped (length s.users)))
            (suggest tables world client stop s.stopped) (print-P _) (suggested s.stopped)

  stop_rows-P :
      (conns : List Conn) → Allowed conns → Does P (stop_rows tables world client stop conns)
  unfolding stop_rows
  stop_rows-P conns a =
      >>=-Does P
        (stop_each tables world client stop conns (record { stopped = 0; failed = 0; users = [] }))
        (conclude tables world client stop)
        (stop_each-P conns (record { stopped = 0; failed = 0; users = [] }) a) conclude-P

  allowed : (conns : List Conn) → ((c : Conn) → Listed c conns → T c) → Allowed conns
  allowed [] f = tt
  allowed (c ∷ cs) f = (f c (inl refl), allowed cs (λ d l. f d (inr l)))

module _ (parse_duration : Bytes → Option ℤ) (query : Trace → ℕ → Result (List Conn))
    (since : Bytes) (others : ℕ) where
  -- The duration on the command line, of seven days at least.
  abbrev pub IsLong : ℕ → Type 0
  IsLong d = (parse_since parse_duration since ≡ some d) × (7 * (24 * 3600 * 10 ^ 9) ≤ d)

  -- A connection in the rows of the query, as it is asked in front of all else.
  abbrev pub IsInactive : Trace → Conn → Type 0
  IsInactive h c =
      (d : ℕ) × (conns : List Conn) × (parse_since parse_duration since ≡ some d)
      × (query h d ≡ ok conns)
      × Listed c conns

  check_since-floor :
      (d : ℕ)
      → check_since parse_duration since others ≡ ok d
      → (parse_since parse_duration since ≡ some d) × (7 * (24 * 3600 * 10 ^ 9) ≤ d)
  unfolding check_since
  check_since-floor d e = given since e
    where
      given :
          (s : Bytes)
          → check_since parse_duration s others ≡ ok d
          → (parse_since parse_duration s ≡ some d) × (7 * (24 * 3600 * 10 ^ 9) ≤ d)
      given [] k = cc
      given (c ∷ cs) k = long (parse_since parse_duration (c ∷ cs)) k
        where
          long :
              (o : Option ℕ)
              → long_enough o others ≡ ok d
              → (o ≡ some d) × (7 * (24 * 3600 * 10 ^ 9) ≤ d)
          long none k = cc
          long (some n) k = ground arith

  -- Whatever the world answers, stop-inactive does no more than these: it queries, only for the
  -- duration that --since gives and only if it is of seven days at least; it prints; and it sends, with
  -- --stop, a destroy, and without it a question for the status, of a connection in the rows that the
  -- query answered, to the instance of its column.
  pub stop_inactive-OnlyAsks :
      (tables : Tables) (world : Outside) (client : Client) (stop : Bool) (h : Trace)
      → Extends
          (OnlyAsks client stop IsLong (IsInactive h))
          h
          (stop_inactive tables world client parse_duration query stop since others h).1
  unfolding stop_inactive P
  stop_inactive-OnlyAsks tables world client stop h =
      checked (check_since parse_duration since others) refl
    where
      rows :
          (d : ℕ)
          → check_since parse_duration since others ≡ ok d
          → (r : Result (List Conn)) → query h d ≡ r
          → Extends
              (OnlyAsks client stop IsLong (IsInactive h))
              h
              (((λ g. (r, asked_inactive d ∷ g)) >>= stop_rows tables world client stop) h).1
      rows d e (fail x) q = more (check_since-floor d e) here
      rows d e (ok conns) q =
          let (p, f) = check_since-floor d e in
          Extends-trans (OnlyAsks client stop IsLong (IsInactive h)) (more (p, f) here) (
            stop_rows-P tables world client stop IsLong (IsInactive h) conns
              (allowed tables world client stop IsLong (IsInactive h) conns
                (λ c l. (d, conns, p, q, l)))
              (asked_inactive d ∷ h))

      checked :
          (r : Result ℕ)
          → check_since parse_duration since others ≡ r
          → Extends
              (OnlyAsks client stop IsLong (IsInactive h))
              h
              ((done r >>= λ d. (ask_inactive query d >>= stop_rows tables world client stop)) h).1
      checked (fail x) e = here
      checked (ok d) e = rows d e (query h d) refl
