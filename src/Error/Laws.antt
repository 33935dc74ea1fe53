-- ===== src/Error/Laws.antt =====
-- How a method call goes on after a part whose outcome is known.
use rocks.Base.{◌≡◌, ◌⊎◌, inl, inr, refl}
use rocks.Error.Defs.{Foreign, Error, Outcome, Result, Action, ◌>>=◌, and_then}

module _ {F : Foreign} {S A B : Type 0} (m : Action F S A) (f : A → Action F S B) (s : S) where
  pub >>=-ok : {a : A} → (m s).0 ≡ Outcome.ok a → (m >>= f) s ≡ f a (m s).1
  >>=-ok e = rw e

  pub >>=-err : {e : Error F} → (m s).0 ≡ Outcome.err e → (m >>= f) s ≡ (Outcome.err e, (m s).1)
  >>=-err e = rw e

  pub >>=-panic : (m s).0 ≡ Outcome.panic → (m >>= f) s ≡ (Outcome.panic, (m s).1)
  >>=-panic e = rw e

pub and_then-eq-ok :
    {F : Foreign} {A B : Type 0} (m : Outcome F A) (f : A → Outcome F B) {b : B}
    → and_then m f ≡ Outcome.ok b
    → (a : A) × (m ≡ Outcome.ok a) × (f a ≡ Outcome.ok b)
and_then-eq-ok (Outcome.ok a) f h = (a, refl, h)
and_then-eq-ok (Outcome.err e) f h = cc
and_then-eq-ok Outcome.panic f h = cc

pub err_inj : {E A : Type 0} {a b : E} → ◌≡◌ {A = Result E A} (Result.err a) (Result.err b) → a ≡ b
err_inj h = cc

pub ok_inj : {E A : Type 0} {a b : A} → ◌≡◌ {A = Result E A} (Result.ok a) (Result.ok b) → a ≡ b
ok_inj h = cc

-- To split on a computed result and keep the equation.
pub Result-cases :
    {E A : Type 0} (r : Result E A) → ((e : E) × (r ≡ Result.err e)) ⊎ ((a : A) × (r ≡ Result.ok a))
Result-cases (Result.err e) = inl (e, refl)
Result-cases (Result.ok a) = inr (a, refl)
