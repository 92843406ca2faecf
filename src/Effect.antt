-- ===== src/Effect.antt =====
-- Methods that change an object and may raise: what was written before a raise stays written, so
-- the state is returned with an exception too.
pub mod Keeps
use sovereign_flow.Prelude.{◌≡◌, refl, ap, Bool, true, false}
use sovereign_flow.Result.{Error, Result, ok, err}

abbrev pub Effect : Type 0 → Type 0 → Type 0
Effect S A = S → Result A × S

module _ {S A : Type 0} where
  abbrev pub return : A → Effect S A
  return a s = (ok a, s)

  abbrev pub throw : Error → Effect S A
  throw e s = (err e, s)

  -- A computation that only reads its arguments.
  abbrev pub lift : Result A → Effect S A
  lift r s = (r, s)

  abbrev pub gets : (S → A) → Effect S A
  gets f s = (ok (f s), s)

abbrev pub modify : {S : Type 0} → (S → S) → Effect S (Unit {0})
modify f s = (ok tt, f s)

module _ {S A B : Type 0} where
  abbrev pub and_then : Result A → (A → Effect S B) → S → Result B × S
  and_then (ok a) f s = f a s
  and_then (err e) f s = (err e, s)

  infixl 5 ◌>>=◌
  abbrev pub ◌>>=◌ : Effect S A → (A → Effect S B) → Effect S B
  ◌>>=◌ m f s = let (r, s') = m s in and_then r f s'

infixl 5 ◌>>◌
abbrev pub ◌>>◌ : {S B : Type 0} → Effect S (Unit {0}) → Effect S B → Effect S B
m >> k = m >>= λ _. k

-- `if not test: raise e`
abbrev pub require : {S : Type 0} → Bool → Error → Effect S (Unit {0})
require true e s = (ok tt, s)
require false e s = (err e, s)

module _ {S A : Type 0} where
  -- `try: m except Exception as exc: handler(exc)`
  abbrev pub caught : (Error → Effect S A) → Result A → Effect S A
  caught handler (ok a) s = (ok a, s)
  caught handler (err e) s = handler e s

  abbrev pub rescue : Effect S A → (Error → Effect S A) → Effect S A
  rescue m handler s = let (r, s') = m s in caught handler r s'

  -- What `m` came to, as a value.
  abbrev pub attempt : Effect S A → Effect S (Result A)
  attempt m s = let (r, s') = m s in (ok r, s')

-- Inversion of a bind that returned.
pub bind-eq-ok :
    {S A B : Type 0} (m : Effect S A) (f : A → Effect S B) (s : S) {b : B} {s'' : S}
    → (m >>= f) s ≡ (ok b, s'')
    → (a : A) × (s' : S) × (m s ≡ (ok a, s')) × (f a s' ≡ (ok b, s''))
bind-eq-ok {S} {A} {B} m f s {b} {s''} h = go (m s).0 (m s).1 refl h
  where
    go :
        (r : Result A) (s' : S)
        → (m s ≡ (r, s'))
        → and_then r f s' ≡ (ok b, s'')
        → (a : A) × (s' : S) × (m s ≡ (ok a, s')) × (f a s' ≡ (ok b, s''))
    go (ok a) s' e k = (a, s', e, k)
    go (err x) s' e k = cc (ap (λ (t : Result B × S). t.0) k)

-- Two continuations that agree on what `m` returns.
pub bind-cong :
    {S A B : Type 0} (m : Effect S A) (f g : A → Effect S B) (s : S)
    → ((a : A) (s' : S) → m s ≡ (ok a, s') → f a s' ≡ g a s')
    → (m >>= f) s ≡ (m >>= g) s
bind-cong {S} {A} {B} m f g s h = go (m s).0 (m s).1 refl
  where
    go : (r : Result A) (s' : S) → m s ≡ (r, s') → and_then r f s' ≡ and_then r g s'
    go (ok a) s' e = h a s' e
    go (err x) s' e = refl

pub seq-eq-ok :
    {S B : Type 0} (m : Effect S (Unit {0})) (k : Effect S B) (s : S) {b : B} {s'' : S}
    → (m >> k) s ≡ (ok b, s'')
    → (s' : S) × (m s ≡ (ok tt, s')) × (k s' ≡ (ok b, s''))
seq-eq-ok m k s h = let (_, s', e, h') = bind-eq-ok m (λ _. k) s h in (s', e, h')

-- `lift` leaves the state as it is.
pub lift-bind-eq-ok :
    {S A B : Type 0} (r : Result A) (f : A → Effect S B) (s : S) {b : B} {s' : S}
    → (lift r >>= f) s ≡ (ok b, s')
    → (a : A) × (r ≡ ok a) × (f a s ≡ (ok b, s'))
lift-bind-eq-ok {S} {A} {B} (ok a) f s h = (a, refl, h)
lift-bind-eq-ok {S} {A} {B} (err e) f s h = absurd (cc (ap (λ (t : Result B × S). t.0) h))

pub require-eq-ok :
    {S A : Type 0} (test : Bool) {s s' : S} {a : A} (e : Error) (k : Effect S A)
    → (require test e >> k) s ≡ (ok a, s')
    → (test ≡ true) × (k s ≡ (ok a, s'))
require-eq-ok {S} {A} true e k h = (refl, h)
require-eq-ok {S} {A} false e k h = absurd (cc (ap (λ (t : Result A × S). t.0) h))
