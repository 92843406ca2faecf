-- ===== src/Effect/Keeps.antt =====
-- What a method keeps of its state, whether it returns or raises.
use sovereign_flow.Prelude.{◌≡◌, refl, Bool, true, false}
use sovereign_flow.Result.{Error, Result, ok, err}
use sovereign_flow.Effect.{
  Effect, return, throw, lift, gets, modify, ◌>>=◌, ◌>>◌, and_then, require,
}

module _ {S : Type 0} (I : S → Type 0) where
  pub record Keeps {A : Type 0} (m : Effect S A) : Type 0 where
    pub after : (s : S) → I s → I (m s).1

  pub >>=-Keeps :
      {A B : Type 0} (m : Effect S A) (f : A → Effect S B)
      → Keeps m
      → ((a : A) → Keeps (f a))
      → Keeps (m >>= f)
  >>=-Keeps {A} {B} m f k l = record { after = λ s h. go (m s).0 (m s).1 (k.after s h) }
    where
      go : (r : Result A) (s' : S) → I s' → I (and_then r f s').1
      go (ok a) s' h' = (l a).after s' h'
      go (err e) s' h' = h'

  -- What follows need only keep the state where the first part has returned.
  pub >>=-Keeps_when :
      {A B : Type 0} (m : Effect S A) (f : A → Effect S B)
      → Keeps m
      → ((a : A) (s s' : S) → I s → m s ≡ (ok a, s') → Keeps (f a))
      → Keeps (m >>= f)
  >>=-Keeps_when {A} {B} m f k l = record {
    after = λ s h. go s h (m s).0 (m s).1 refl (k.after s h);
  }
    where
      go : (s : S) → I s → (r : Result A) (s' : S) → m s ≡ (r, s') → I s' → I (and_then r f s').1
      go s h (ok a) s' e h' = (l a s s' h e).after s' h'
      go s h (err x) s' e h' = h'

  pub >>-Keeps :
      {B : Type 0} (m : Effect S (Unit {0})) (k : Effect S B) → Keeps m → Keeps k → Keeps (m >> k)
  >>-Keeps m k h h' = >>=-Keeps m (λ _. k) h (λ _. h')

  pub modify-Keeps : (f : S → S) → ((s : S) → I s → I (f s)) → Keeps (modify f)
  modify-Keeps f k = record { after = k }

  pub require-Keeps : (test : Bool) (e : Error) → Keeps (require test e)
  require-Keeps true e = record { after = λ s h. h }
  require-Keeps false e = record { after = λ s h. h }

  pub gets-Keeps : {A : Type 0} (f : S → A) → Keeps (gets f)
  gets-Keeps f = record { after = λ s h. h }

  pub lift-Keeps : {A : Type 0} (r : Result A) → Keeps (lift r)
  lift-Keeps r = record { after = λ s h. h }

  pub return-Keeps : {A : Type 0} (a : A) → Keeps (return a)
  return-Keeps a = record { after = λ s h. h }

  pub throw-Keeps : {A : Type 0} (e : Error) → Keeps (throw {A = A} e)
  throw-Keeps e = record { after = λ s h. h }
