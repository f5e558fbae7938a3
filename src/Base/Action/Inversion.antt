-- ===== src/Base/Action/Inversion.antt =====
-- What an action did that returned: each of its stages returned.
use mathlib.Core.Path.{◌≡◌, refl}
use mathlib.Core.Bool.{Bool, true, false}
use backuply.Base.Result.{Result, ok, err}
use backuply.Base.Action.{Action, lift, ◌>>=◌, require}

module _ {S E A B : Type 0} where
  continue-ok :
      (r : Result E A) (w1 : S) (f : A → Action S E B) {b : B}
      → ((lift r >>= f) w1).0 ≡ ok b
      → (a : A) × (r ≡ ok a) × ((f a w1).0 ≡ ok b) × ((lift r >>= f) w1 ≡ f a w1)
  unfolding ◌>>=◌
  continue-ok (ok a) w1 f h = (a, refl, h, refl)
  continue-ok (err e) w1 f h = cc

  -- The value, and what the rest did with it
  pub bind-ok :
      (m : Action S E A) (f : A → Action S E B) (w : S) {b : B}
      → ((m >>= f) w).0 ≡ ok b
      → (a : A) × ((m w).0 ≡ ok a) × ((f a (m w).1).0 ≡ ok b) × ((m >>= f) w ≡ f a (m w).1)
  unfolding ◌>>=◌
  bind-ok m f w h = continue-ok (m w).0 (m w).1 f h

module _ {S E B : Type 0} where
  pub require-ok :
      (b : Bool) (e : E) (f : Unit {0} → Action S E B) (w : S) {x : B}
      → ((require b e >>= f) w).0 ≡ ok x
      → (b ≡ true) × ((f tt w).0 ≡ ok x) × ((require b e >>= f) w ≡ f tt w)
  unfolding ◌>>=◌
  require-ok true e f w h = (refl, h, refl)
  require-ok false e f w h = cc
