-- ===== src/Store/Exec/Inversion.antt =====
-- What an action did that returned: each of its stages returned.
use backuply.Base.{◌≡◌, refl, ap, Bool, true, false, List, [], ◌∷◌}
use backuply.Base.Result.{Result, ok, err, ok-injective}
use backuply.Store.Error.{Error}
use backuply.Store.Exec.{Event, World, Exec, pure, lift, ◌>>=◌, require, step, step_with}

module _ {A B : Type 0} where
  continue-ok :
      (r : Result Error A) (w1 : World) (f : A → Exec B) {b : B} {w' : World}
      → (lift r >>= f) w1 ≡ (ok b, w')
      → (a : A) × (r ≡ ok a) × (f a w1 ≡ (ok b, w'))
  unfolding ◌>>=◌
  continue-ok (ok a) w1 f h = (a, refl, h)
  continue-ok (err e) w1 f h = cc

  -- The value, and the world in between
  pub bind-ok :
      (m : Exec A) (f : A → Exec B) (w : World) {b : B} {w' : World}
      → (m >>= f) w ≡ (ok b, w')
      → (a : A) × ((m w).0 ≡ ok a) × (f a (m w).1 ≡ (ok b, w'))
  unfolding ◌>>=◌
  bind-ok m f w h = continue-ok (m w).0 (m w).1 f h

  pub lift-ok :
      (r : Result Error A) (f : A → Exec B) (w : World) {b : B} {w' : World}
      → (lift r >>= f) w ≡ (ok b, w')
      → (a : A) × (r ≡ ok a) × (f a w ≡ (ok b, w'))
  lift-ok r f w h = continue-ok r w f h

module _ {B : Type 0} where
  pub require-ok :
      (b : Bool) (e : Error) (f : Unit {0} → Exec B) (w : World) {x : B} {w' : World}
      → (require b e >>= f) w ≡ (ok x, w')
      → (b ≡ true) × (f tt w ≡ (ok x, w'))
  unfolding ◌>>=◌
  require-ok true e f w h = (refl, h)
  require-ok false e f w h = cc

  pub pure-ok : (a : B) (w : World) {b : B} {w' : World} → pure a w ≡ (ok b, w') → a ≡ b
  unfolding pure
  pure-ok a w h = ok-injective (ap (λ x. x.0) h)

step_with-db : (events : List Event) (w : World) → (step_with events w).1.db ≡ w.db
unfolding step_with
step_with-db [] w = refl
step_with-db (ev ∷ events) w = refl

-- A step leaves the index as it is.
pub step-db : (w : World) → (step w).1.db ≡ w.db
unfolding step
step-db w = step_with-db w.events w
