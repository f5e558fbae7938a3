-- ===== src/Base/Action.antt =====
-- Actions on a state that fail with an error, for the packages whose state is their own, and what they
-- keep true of it.
pub mod Inversion
use mathlib.Core.Path.{◌≡◌, refl}
use mathlib.Core.Bool.{Bool, true, false}
use backuply.Base.Tests.{if◌then◌else◌}
use backuply.Base.Result.{Result, ok, err}

abbrev pub Action : Type 0 → Type 0 → Type 0 → Type 0
Action S E A = S → Result E A × S

module _ {S E A : Type 0} where
  unfoldable pub pure : A → Action S E A
  pure a w = (ok a, w)

  unfoldable pub fail : E → Action S E A
  fail e w = (err e, w)

  unfoldable pub lift : Result E A → Action S E A
  lift r w = (r, w)

  unfoldable pub gets : (S → A) → Action S E A
  gets f w = (ok (f w), w)

  -- An action whose error the code looks at
  unfoldable pub try : Action S E A → Action S E (Result E A)
  try m w = (ok (m w).0, (m w).1)

  -- `defer`: the cleanup runs whatever the body returned, and its errors are dropped.
  unfoldable pub finally : Action S E A → Action S E (Unit {0}) → Action S E A
  finally m cleanup w = ((m w).0, (cleanup (m w).1).1)

unfoldable pub change : {S E : Type 0} → (S → S) → Action S E (Unit {0})
change f w = (ok tt, f w)

module _ {S E A B : Type 0} where
  abbrev pub continue : Result E A → (A → Action S E B) → Action S E B
  continue (ok a) f w = f a w
  continue (err e) f w = (err e, w)

  infixl 5 ◌>>=◌
  -- opening this opens the actions above too
  unfoldable pub ◌>>=◌ : Action S E A → (A → Action S E B) → Action S E B
  unfolding pure fail lift gets change try finally
  ◌>>=◌ m f w = continue (m w).0 f (m w).1

infixl 5 ◌>>◌
abbrev pub ◌>>◌ : {S E B : Type 0} → Action S E (Unit {0}) → Action S E B → Action S E B
m >> k = m >>= λ _. k

abbrev pub require : {S E : Type 0} → Bool → E → Action S E (Unit {0})
require b e = if b then pure tt else fail e

-- What is true of the state stays true, whatever the action returns.
pub record Preserves {S E A : Type 0} (I : S → Type 0) (m : Action S E A) : Type 0 where
  pub run : (w : S) → I w → I (m w).1

module _ {S E A B : Type 0} (I : S → Type 0) where
  Preserves-continue :
      (r : Result E A) (f : A → Action S E B) (w : S)
      → ((a : A) → Preserves I (f a))
      → I w
      → I (continue r f w).1
  Preserves-continue (ok a) f w k h = (k a).run w h
  Preserves-continue (err e) f w k h = h

  pub Preserves-bind :
      (m : Action S E A) (f : A → Action S E B)
      → Preserves I m
      → ((a : A) → Preserves I (f a))
      → Preserves I (m >>= f)
  unfolding ◌>>=◌
  Preserves-bind m f p k = record {
    run = λ w h. Preserves-continue (m w).0 f (m w).1 k (p.run w h);
  }

  -- An action that always fails ends the rest.
  pub Preserves-refused :
      (m : Action S E A) (f : A → Action S E B)
      → ((w : S) → I w → (e : E) × ((m w).0 ≡ err e))
      → Preserves I m
      → Preserves I (m >>= f)
  unfolding ◌>>=◌
  Preserves-refused m f refused p = record {
    run = λ w h. let (e, r) = refused w h in rw r (p.run w h);
  }

module _ {S E A : Type 0} (I : S → Type 0) where
  pub Preserves-if :
      (b : Bool) (m n : Action S E A)
      → Preserves I m
      → Preserves I n
      → Preserves I (if b then m else n)
  Preserves-if true m n p q = p
  Preserves-if false m n p q = q

  pub Preserves-try : (m : Action S E A) → Preserves I m → Preserves I (try m)
  unfolding try
  Preserves-try m p = record { run = λ w h. p.run w h }

  pub Preserves-finally :
      (m : Action S E A) (cleanup : Action S E (Unit {0}))
      → Preserves I m
      → Preserves I cleanup
      → Preserves I (finally m cleanup)
  unfolding finally
  Preserves-finally m cleanup p q = record { run = λ w h. q.run (m w).1 (p.run w h) }

  pub Preserves-lift : (r : Result E A) → Preserves {S = S} I (lift r)
  unfolding lift
  Preserves-lift r = record { run = λ w h. h }

  pub Preserves-gets : (f : S → A) → Preserves {E = E} I (gets f)
  unfolding gets
  Preserves-gets f = record { run = λ w h. h }

module _ {S E : Type 0} (I : S → Type 0) where
  pub Preserves-require : (b : Bool) (e : E) → Preserves {S = S} I (require b e)
  unfolding pure fail
  Preserves-require true e = record { run = λ w h. h }
  Preserves-require false e = record { run = λ w h. h }
