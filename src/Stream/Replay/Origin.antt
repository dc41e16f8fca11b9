-- ===== src/Stream/Replay/Origin.antt =====
-- internal/stream/replay.go: whose events a replay sends.
use lierc_api.Base.{
  ◌≡◌, refl, ap, subst, ◌∙◌, ◌⊎◌, inl, inr, Bool, true, false, List, [], ◌∷◌, map, Option, none,
  some, Bytes, All, All-append, if◌then◌else◌, txt, >>=-eq-some,
}
use lierc_api.Stream.Perl.{Codec, perl_true}
use lierc_api.Stream.Replay.{
  Status, Channel, Message, each, chunks, if_true, unless_empty, push_connect, push_welcome,
  push_join, push_topic, push_names, names_reply, push_nicks, push_mode, registered_only,
  each_channel, replay_events, replay, all_found,
}

abbrev pub Among : {A : Type 0} → A → List A → Type 0
Among a [] = ⊥
Among a (x ∷ xs) = (a ≡ x) ⊎ Among a xs

module _ (codec : Codec) (quote : Bytes → Bytes) (statuses : List Status) where
  -- A message about the connection of `st`; more than CREATE and CONNECT only if it is registered.
  abbrev About : Status → Message → Type 0
  About st m =
      (m.id ≡ st.id)
      × ((perl_true codec st.registered ≡ true)
          ⊎ ((m.command ≡ txt "CREATE") ⊎ (m.command ≡ txt "CONNECT")))

  abbrev pub HasOrigin : Message → Type 0
  HasOrigin m = (st : Status) × Among st statuses × About st m

  each-All :
      (f : Status → List Message) (sts : List Status)
      → ((st : Status) → Among st sts → All HasOrigin (f st))
      → All HasOrigin (each f sts)
  each-All f [] h = tt
  each-All f (st ∷ sts) h =
      All-append HasOrigin (f st) (each f sts) (h st (inl refl))
        (each-All f sts (λ x i. h x (inr i)))

  each_channel-All :
      (st : Status) (f : Channel → List Message)
      → ((ch : Channel) → All HasOrigin (f ch))
      → (chs : List Channel) → All HasOrigin (each f chs)
  each_channel-All st f h [] = tt
  each_channel-All st f h (ch ∷ chs) =
      All-append HasOrigin (f ch) (each f chs) (h ch) (each_channel-All st f h chs)

  if_true-All :
      (v : Bytes) (ms : List Message) → All HasOrigin ms → All HasOrigin (if_true codec quote v ms)
  if_true-All v ms h = cases (perl_true codec v)
    where
      cases : (b : Bool) → All HasOrigin (if b then ms else [])
      cases true = h
      cases false = tt

  unless_empty-All :
      (vs : List Bytes) (m : Message) → HasOrigin m → All HasOrigin (unless_empty codec quote vs m)
  unless_empty-All [] m h = tt
  unless_empty-All (v ∷ vs) m h = (h, tt)

  push_connect-All : (st : Status) → Among st statuses → All HasOrigin (push_connect codec quote st)
  unfolding push_connect
  push_connect-All st i = (
    (st, i, (refl, inr (inl refl))),
    if_true-All st.connected _ ((st, i, (refl, inr (inr refl))), tt),
  )

  module _ (st : Status) (i : Among st statuses) (reg : perl_true codec st.registered ≡ true) where
    push_welcome-All : All HasOrigin (push_welcome codec quote st)
    unfolding push_welcome
    push_welcome-All = (
      (st, i, (refl, inl reg)),
      All-append HasOrigin _ _ (unless_empty-All st.isupport _ (st, i, (refl, inl reg)))
          (unless_empty-All st.caps_acked _ (st, i, (refl, inl reg))),
    )

    push_join-All : (ch : Channel) → All HasOrigin (push_join codec quote st ch)
    unfolding push_join
    push_join-All ch = ((st, i, (refl, inl reg)), tt)

    push_topic-All : (ch : Channel) → All HasOrigin (push_topic codec quote st ch)
    unfolding push_topic
    push_topic-All ch =
        if_true-All ch.topic _ ((st, i, (refl, inl reg)), ((st, i, (refl, inl reg)), tt))

    push_mode-All : (ch : Channel) → All HasOrigin (push_mode codec quote st ch)
    unfolding push_mode
    push_mode-All ch = if_true-All ch.mode _ ((st, i, (refl, inl reg)), tt)

    push_nicks-All : (ch : Channel) → All HasOrigin (push_nicks codec quote st ch)
    unfolding push_nicks
    push_nicks-All ch = names ch.nicks
      where
        replies : (cs : List (List Bytes)) → All HasOrigin (map (names_reply codec quote st ch) cs)
        replies [] = tt
        replies (c ∷ cs) = ((st, i, (refl, inl reg)), replies cs)

        names : (n : Option (List Bytes)) → All HasOrigin (push_names codec quote st ch n)
        names none = tt
        names (some nicks) =
            All-append HasOrigin _ _ (replies (chunks nicks)) ((st, i, (refl, inl reg)), tt)

  registered_only-Among :
      (sts : List Status) (st : Status)
      → Among st (registered_only codec quote sts)
      → Among st sts × (perl_true codec st.registered ≡ true)
  unfolding registered_only
  registered_only-Among [] st i = absurd i
  registered_only-Among (x ∷ sts) st i =
      cases (perl_true codec x.registered) (λ j. registered_only-Among sts st j) refl i
    where
      cases :
          (b : Bool)
          → (Among st (registered_only codec quote sts)
              → Among st sts × (perl_true codec st.registered ≡ true))
          → perl_true codec x.registered ≡ b
          → Among st
              (if b then x ∷ registered_only codec quote sts else registered_only codec quote sts)
          → Among st (x ∷ sts) × (perl_true codec st.registered ≡ true)
      cases true ih e (inl p) = (inl p, ap (λ y. perl_true codec y.registered) p ∙ e)
      cases true ih e (inr j) = let (k, r) = ih j in (inr k, r)
      cases false ih e j = let (k, r) = ih j in (inr k, r)

  replay_events-All : All HasOrigin (replay_events codec quote statuses)
  unfolding replay_events
  replay_events-All =
      let reg : List Status = registered_only codec quote statuses in
      let per : (f : Status → Channel → List Message)
          → ((st : Status)
              → Among st statuses
              → perl_true codec st.registered ≡ true
              → (ch : Channel) → All HasOrigin (f st ch))
          → All HasOrigin (each_channel codec quote f reg) =
        λ f h.
          each-All (λ st. each (f st) st.channels) reg
            (λ st i.
              let (j, r) = registered_only-Among statuses st i in
              each_channel-All st (f st) (h st j r) st.channels) in
      All-append HasOrigin _ _ (each-All (push_connect codec quote) statuses push_connect-All) (
        All-append HasOrigin _ _
          (each-All (push_welcome codec quote) reg
            (λ st i. let (j, r) = registered_only-Among statuses st i in push_welcome-All st j r))
          (All-append HasOrigin _ _ (per (push_join codec quote) push_join-All) (
            All-append HasOrigin _ _ (per (push_topic codec quote) push_topic-All) (
              All-append HasOrigin _ _ (per (push_nicks codec quote) push_nicks-All)
                (per (push_mode codec quote) push_mode-All)))))

all_found-map :
    (found : List (Option Status)) (sts : List Status)
    → all_found found ≡ some sts
    → found ≡ map some sts
unfolding all_found
all_found-map [] sts e = subst (λ s. [] ≡ map some s) (some_inj e) refl
  where
    some_inj : {s : List Status} → some [] ≡ some s → [] ≡ s
    some_inj e = cc
all_found-map (none ∷ rest) sts e = cc
all_found-map (some st ∷ rest) sts e =
    let (ss, p, q) = >>=-eq-some (all_found rest) (λ ss. some (st ∷ ss)) e in
    let same : st ∷ ss ≡ sts = some_inj q in
    ap (λ r. some st ∷ r) (all_found-map rest ss p) ∙ ap (map some) same
  where
    some_inj : {s t : List Status} → some s ≡ some t → s ≡ t
    some_inj e = cc

-- A replay is all or nothing: it has messages only if the status of every connection was found.
-- Then each message names one of the connections, and says more of it than CREATE and CONNECT
-- only if its status says that it is registered.
pub replay-HasOrigin :
    (codec : Codec) (quote : Bytes → Bytes) (found : List (Option Status)) (ms : List Message)
    → replay codec quote found ≡ some ms
    → (statuses : List Status) × (found ≡ map some statuses)
      × All (HasOrigin codec quote statuses) ms
unfolding replay
replay-HasOrigin codec quote found ms e =
    let (statuses, p, q) =
      >>=-eq-some (all_found found) (λ sts. some (replay_events codec quote sts)) e in
    let same : replay_events codec quote statuses ≡ ms = some_inj q in
    (
      statuses,
      all_found-map found statuses p,
      subst (All (HasOrigin codec quote statuses)) same (replay_events-All codec quote statuses),
    )
  where
    some_inj : {s t : List Message} → some s ≡ some t → s ≡ t
    some_inj e = cc
