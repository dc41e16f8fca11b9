-- ===== src/Lctl/Users/Triples.antt =====
-- Actions that delete nothing out of turn: what holds before them, and after them where they end
-- without an error.
use lierc_api.Base.{◌≡◌, refl, subst, ◌∷◌}
use lierc_api.World.{
  Act, Result, ok, fail, Error, Trace, Event, Line, pure, raise, print, printed, log, ◌>>=◌, ◌>>◌,
}
use lierc_api.Lctl.Delete.Guarded.{Allowed, Keeps, Keeps-more, Keeps-refl, Keeps-trans}
use lierc_api.Lctl.Users.{ask}

abbrev pub Held : Type 1
Held = Trace → Type 0

-- What stays true as more happens.
abbrev pub Stays : Held → Type 0
Stays P = (h t : Trace) → Keeps h t → P h → P t

abbrev pub After : {A : Type 0} → Trace → (A → Held) → Result A × Trace → Type 0
After h Post q = Keeps h q.1 × ((a : _) → q.0 ≡ ok a → Post a q.1)

abbrev pub Triple : {A : Type 0} → Held → Act A → (A → Held) → Type 0
Triple Pre m Post = (h : Trace) → Pre h → After h Post (m h)

module _ {A B : Type 0} (Pre : Held) (Mid : A → Held) (Post : B → Held) where
  pub >>=-Triple :
      (m : Act A) (f : A → Act B)
      → Triple Pre m Mid
      → ((a : A) → Triple (Mid a) (f a) Post)
      → Triple Pre (m >>= f) Post
  >>=-Triple m f hm hf h p = next (m h) (hm h p)
    where
      next :
          (q : Result A × Trace)
          → After h Mid q
          → After h Post (
              let (r, h') = q in
              elim r as (λ x. Result B × Trace) [ ok a ↦ f a h' | fail e ↦ (fail e, h') ])
      next (fail e, t) x = (x.0, λ b z. cc)
      next (ok a, t) x = let y = hf a t (x.1 a refl) in (Keeps-trans h t (f a t).1 x.0 y.0, y.1)

module _ (P : Held) where
  pub pure-Triple :
      {A : Type 0} (Post : A → Held) (a : A)
      → ((h : Trace) → P h → Post a h)
      → Triple P (pure a) Post
  pure-Triple Post a f h p =
      (Keeps-refl h, λ b z. let e : a ≡ b = (cc) in subst (λ x. Post x h) e (f h p))

  pub ask-Triple : {A : Type 0} (q : Trace → Result A) → Triple P (ask q) (λ _. P)
  ask-Triple q h p = (Keeps-refl h, λ b z. p)

  pub raise-Triple : {A : Type 0} (Post : A → Held) (e : Error) → Triple P (raise e) Post
  raise-Triple Post e h p = (Keeps-refl h, λ b z. cc)

  pub log-Triple :
      (e : Event) → Stays P → ((h : Trace) → P h → Allowed e h) → Triple P (log e) (λ _. P)
  log-Triple e s a h p =
      let k = Keeps-more e h h (Keeps-refl h) (a h p) in (k, λ b z. s h (e ∷ h) k p)

  pub print-Triple : (l : Line) → Stays P → Triple P (print l) (λ _. P)
  unfolding Allowed
  print-Triple l s = log-Triple (printed l) s (λ h p. tt)

  pub print->>-Triple :
      {A : Type 0} (Post : A → Held) (l : Line) (k : Act A)
      → Stays P
      → Triple P k Post
      → Triple P (print l >> k) Post
  print->>-Triple Post l k s t =
      >>=-Triple P (λ _. P) Post (print l) (λ _. k) (print-Triple l s) (λ _. t)

-- What stays true, and what is a fact, is carried along.
pub frame-Triple :
    {A : Type 0} (R Pre : Held) (Post : A → Held) (m : Act A)
    → Stays R
    → Triple Pre m Post
    → Triple (λ h. R h × Pre h) m (λ a h. R h × Post a h)
frame-Triple R Pre Post m s t h (r, p) = let (k, f) = t h p in (k, λ a z. (s h (m h).1 k r, f a z))
