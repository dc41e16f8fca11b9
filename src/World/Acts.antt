-- ===== src/World/Acts.antt =====
-- Actions taken apart: where a composed action ends well, both of its parts do.
use lierc_api.Base.{◌∷◌, ◌≡◌, ◌≢◌, refl, ap}
use lierc_api.World.{Act, Result, ok, fail, Error, Trace, Event, log, ◌>>=◌, ◌>>◌}

pub >>=-eq-ok :
    {A B : Type 0} (m : Act A) (f : A → Act B) (h t : Trace) (b : B)
    → (m >>= f) h ≡ (ok b, t)
    → (a : A) × (h' : Trace) × (m h ≡ (ok a, h')) × (f a h' ≡ (ok b, t))
>>=-eq-ok m f h t b e = bound (m h) refl e
  where
    bound :
        (q : Result _ × Trace)
        → m h ≡ q
        → (let (r, h') = q in elim r [ ok a ↦ f a h' | fail x ↦ (fail x, h') ]) ≡ (ok b, t)
        → (a : _) × (h' : Trace) × (m h ≡ (ok a, h')) × (f a h' ≡ (ok b, t))
    bound (ok a, h') p k = (a, h', p, k)
    bound (fail x, h') p k = let z : fail x ≡ ok b = ap (λ q. q.0) k in cc

module _ {A : Type 0} {b : A} {h t : Trace} where
  pub ok-eq : {a : A} → ◌≡◌ {A = Result A × Trace} (ok a, h) (ok b, t) → (a ≡ b) × (h ≡ t)
  ok-eq {a} e = let z : ok a ≡ ok b = ap (λ q. q.0) e in (cc, ap (λ q. q.1) e)

  pub fail-ne-ok : {x : Error} → ◌≢◌ {A = Result A × Trace} (fail x, h) (ok b, t)
  fail-ne-ok {x} e = let z : fail x ≡ ok b = ap (λ q. q.0) e in cc

-- What is added to a trace, event by event, each of which has a property.
pub data Extends (P : Event → Type 0) (h : Trace) : Trace → Type 0 where
  here : Extends P h h
  more : {e : Event} {t : Trace} → P e → Extends P h t → Extends P h (e ∷ t)

-- All that an action does has the property, wherever it starts.
abbrev pub Does : {A : Type 0} → (Event → Type 0) → Act A → Type 0
Does P m = (h : Trace) → Extends P h (m h).1

module _ (P : Event → Type 0) where
  pub Extends-trans : {h t u : Trace} → Extends P h t → Extends P t u → Extends P h u
  Extends-trans x here = x
  Extends-trans x (more p y) = more p (Extends-trans x y)

  pub >>=-Does :
      {A B : Type 0} (m : Act A) (f : A → Act B)
      → Does P m
      → ((a : A) → Does P (f a))
      → Does P (m >>= f)
  >>=-Does {A} {B} m f hm hf h = next (m h) (hm h)
    where
      next :
          (q : Result A × Trace)
          → Extends P h q.1
          → Extends P h
              (let (r, h') = q in
                elim r as (λ x. Result B × Trace) [ ok a ↦ f a h' | fail e ↦ (fail e, h') ]).1
      next (ok a, t) x = Extends-trans x (hf a t)
      next (fail e, t) x = x

  pub log-Does : (e : Event) → P e → Does P (log e)
  log-Does e p h = more p here

  pub >>-Does : {A B : Type 0} (m : Act A) (k : Act B) → Does P m → Does P k → Does P (m >> k)
  >>-Does m k hm hk = >>=-Does m (λ _. k) hm (λ _. hk)

  -- The second action, from where the first one ends well.
  pub >>=-Extends :
      {A B : Type 0} (m : Act A) (f : A → Act B) (h : Trace)
      → Extends P h (m h).1
      → ((a : A) (t : Trace) → m h ≡ (ok a, t) → Extends P t (f a t).1)
      → Extends P h ((m >>= f) h).1
  >>=-Extends {A} {B} m f h x hf = next (m h) refl x
    where
      next :
          (q : Result A × Trace)
          → m h ≡ q
          → Extends P h q.1
          → Extends P h
              (let (r, h') = q in
                elim r as (λ x. Result B × Trace) [ ok a ↦ f a h' | fail e ↦ (fail e, h') ]).1
      next (ok a, t) e x = Extends-trans x (hf a t e)
      next (fail y, t) e x = x
