-- ===== src/Common/Exec/Rules.antt =====
-- What a chain of actions leaves alone.
use mathlib.Core.Path.{◌≡◌, refl, ap, ◌∙◌}
use numi_dba_agent.Common.Exec.{Result, ok, err, Exec, pure, lift, gets, ◌>>=◌}

-- `m` leaves the part `part` of the state as it was, whether it returns or raises
pub record Leaves {ℓ} {E S A X : Type ℓ} (part : S → X) (m : Exec E S A) : Type ℓ where
  pub at : (s : S) → part (m s).1 ≡ part s

module _ {ℓ} {E S A X : Type ℓ} {part : S → X} where
  pub Leaves-pure : (a : A) → Leaves {E = E} part (pure a)
  Leaves-pure a = record { at = λ s. refl }

  pub Leaves-lift : (r : Result E A) → Leaves part (lift r)
  Leaves-lift r = record { at = λ s. refl }

  pub Leaves-gets : (f : S → A) → Leaves {E = E} part (gets f)
  Leaves-gets f = record { at = λ s. refl }

module _ {ℓ} {E S A B X : Type ℓ} {part : S → X} where
  Leaves-continue :
      (r : Result E A) (f : A → Exec E S B)
      → ((a : A) → Leaves part (f a))
      → Leaves part (lift r >>= f)
  Leaves-continue (ok a) f lf = lf a
  Leaves-continue (err e) f lf = record { at = λ s. refl }

  pub Leaves-bind :
      (m : Exec E S A) (f : A → Exec E S B)
      → Leaves part m
      → ((a : A) → Leaves part (f a))
      → Leaves part (m >>= f)
  Leaves-bind m f lm lf = record { at = λ s. (Leaves-continue (m s).0 f lf).at (m s).1 ∙ lm.at s }

module _ {ℓ} {E S A B : Type ℓ} where
  -- a chain whose first action returns goes on with the rest
  pub >>=-of_ok :
      (m : Exec E S A) (f : A → Exec E S B) (s : S) (a : A)
      → (m s).0 ≡ ok a
      → (m >>= f) s ≡ f a (m s).1
  >>=-of_ok m f s a h = ap (λ (r : Result E A). (lift r >>= f) (m s).1) h

  -- a chain whose first action raises stops there
  pub >>=-of_err :
      (m : Exec E S A) (f : A → Exec E S B) (s : S) (e : E)
      → (m s).0 ≡ err e
      → (m >>= f) s ≡ (err e, (m s).1)
  >>=-of_err m f s e h = ap (λ (r : Result E A). (lift r >>= f) (m s).1) h

  continue-inverse :
      (r : Result E A) (f : A → Exec E S B) (s : S) (b : B)
      → ((lift r >>= f) s).0 ≡ ok b
      → (a : A) × (r ≡ ok a) × ((lift r >>= f) s ≡ f a s)
  continue-inverse (ok a) f s b h = (a, refl, refl)
  continue-inverse (err e) f s b h = absurd cc

  -- a chain that returns has a first action that returns
  pub >>=-inverse :
      (m : Exec E S A) (f : A → Exec E S B) (s : S) (b : B)
      → ((m >>= f) s).0 ≡ ok b
      → (a : A) × ((m s).0 ≡ ok a) × ((m >>= f) s ≡ f a (m s).1)
  >>=-inverse m f s b h = continue-inverse (m s).0 f (m s).1 b h

  -- what the rest of a chain leaves alone is as the first action left it
  pub part-bind :
      {X : Type ℓ} (part : S → X) (m : Exec E S A) (f : A → Exec E S B) (s : S)
      → ((a : A) → Leaves part (f a))
      → part ((m >>= f) s).1 ≡ part (m s).1
  part-bind part m f s lf = (Leaves-continue (m s).0 f lf).at (m s).1

pub ruleset leaves_rules = (Leaves-pure, Leaves-lift, Leaves-gets, Leaves-bind)
