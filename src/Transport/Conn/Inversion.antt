-- ===== src/Transport/Conn/Inversion.antt =====
-- What an action did that returned: each of its stages returned.
use backuply.Base.{◌≡◌, refl, ap, Bool, true, false}
use backuply.Base.Result.{Result, ok, err, ok-injective}
use backuply.Transport.Conn.{Conn, Error, Io, pure, fail, lift, ◌>>=◌, require}

module _ {A B : Type 0} where
  continue-ok :
      (r : Result Error A) (w1 : Conn) (f : A → Io B) {b : B} {w' : Conn}
      → (lift r >>= f) w1 ≡ (ok b, w')
      → (a : A) × (r ≡ ok a) × (f a w1 ≡ (ok b, w'))
  unfolding ◌>>=◌
  continue-ok (ok a) w1 f h = (a, refl, h)
  continue-ok (err e) w1 f h = cc

  -- The value and the connection in between
  pub bind-ok :
      (m : Io A) (f : A → Io B) (w : Conn) {b : B} {w' : Conn}
      → (m >>= f) w ≡ (ok b, w')
      → (a : A) × (w1 : Conn) × (m w ≡ (ok a, w1)) × (f a w1 ≡ (ok b, w'))
  unfolding ◌>>=◌
  bind-ok m f w h =
      let (a, r, k) = continue-ok (m w).0 (m w).1 f h in (a, (m w).1, ap (λ x. (x, (m w).1)) r, k)

module _ {B : Type 0} where
  pub require-ok :
      (b : Bool) (e : Error) (f : Unit {0} → Io B) (w : Conn) {x : B} {w' : Conn}
      → (require b e >>= f) w ≡ (ok x, w')
      → (b ≡ true) × (f tt w ≡ (ok x, w'))
  unfolding ◌>>=◌
  require-ok true e f w h = (refl, h)
  require-ok false e f w h = cc

  pub pure-ok : (a : B) (w : Conn) {b : B} {w' : Conn} → pure a w ≡ (ok b, w') → a ≡ b
  unfolding pure
  pure-ok a w h = ok-injective (ap (λ x. x.0) h)

  pub fail-ok : (e : Error) (w : Conn) {b : B} {w' : Conn} → ¬ (fail e w ≡ (ok b, w'))
  unfolding fail
  fail-ok e w h = cc
