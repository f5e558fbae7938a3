-- ===== src/Store/Exec/Keeps.antt =====
-- Invariants of actions, and what actions establish: a rule for each way to build an action.
use mathlib.Core.Path.{subst}
use backuply.Base.{
  ℕ, ◌⊎◌, inl, inr, Option-cases, ◌≡◌, refl, sym, Bool, true, false, List, [], ◌∷◌, All,
  if◌then◌else◌,
}
use backuply.Base.Result.{Result, ok, err}
use backuply.Store.Error.{Error, io_error}
use backuply.Store.Index.{Db}
use backuply.Store.Disk.{Disk}
use backuply.Store.Exec.{
  Event, World, Exec, pure, fail, lift, gets, try, finally, ◌>>=◌, step, step_with, outcome,
  change_db, change_disk, require,
}

abbrev pub Post :
    {A : Type 0} → (A → World → Type 0) → (World → Type 0) → Result Error A × World → Type 0
Post Q E (ok a, w) = Q a w
Post Q E (err e, w) = E w

-- From a world in `P` the action returns a value and a world in `Q`, or an error and a world in `E`.
pub record Triple {A : Type 0} (P : World → Type 0) (m : Exec A) (Q : A → World → Type 0)
    (E : World → Type 0) : Type 0 where
  pub run : (w : World) → P w → Post Q E (m w)

-- The action keeps `P`, whether it returns or fails.
abbrev pub Keeps : {A : Type 0} → (World → Type 0) → Exec A → Type 0
Keeps P m = Triple P m (λ _ w. P w) P

-- The environment leaves the disk alone: its events only make steps fail.
abbrev pub IsQuiet : World → Type 0
IsQuiet w = All (λ (ev : Event). (d : Disk) → ev.change d ≡ d) w.events

-- A quiet world whose disk has a property.
pub record On (D : Disk → Type 0) (w : World) : Type 0 where
  pub quiet : IsQuiet w
  pub disk : D w.disk

module _ {A : Type 0} (P : World → Type 0) where
  Post-self : (r : Result Error A) (w : World) → P w → Post {A = A} (λ _ w'. P w') P (r, w)
  Post-self (ok a) w h = h
  Post-self (err e) w h = h

  Post-collapse : (r : Result Error A) (w : World) → Post {A = A} (λ _ w'. P w') P (r, w) → P w
  Post-collapse (ok a) w h = h
  Post-collapse (err e) w h = h

module _ {A : Type 0} {P : World → Type 0} where
  pub Keeps-pure : (a : A) → Keeps P (pure a)
  unfolding pure
  Keeps-pure a = record { run = λ w h. h }

  pub Keeps-fail : (e : Error) → Keeps P (fail {A = A} e)
  unfolding fail
  Keeps-fail e = record { run = λ w h. h }

  pub Keeps-lift : (r : Result Error A) → Keeps P (lift r)
  unfolding lift
  Keeps-lift r = record { run = λ w h. Post-self P r w h }

  pub Keeps-gets : (f : World → A) → Keeps P (gets f)
  unfolding gets
  Keeps-gets f = record { run = λ w h. h }

  pub Keeps-if : (b : Bool) (m n : Exec A) → Keeps P m → Keeps P n → Keeps P (if b then m else n)
  Keeps-if true m n km kn = km
  Keeps-if false m n km kn = kn

  -- The world after an action that keeps `P`
  pub Keeps-after : {m : Exec A} (w : World) → Keeps P m → P w → P (m w).1
  Keeps-after {m} w t h = let (r, w') = m w in Post-collapse P r w' (t.run w h)

  pub Keeps-try : {m : Exec A} → Keeps P m → Keeps P (try m)
  unfolding try
  Keeps-try {m} t = record { run = λ w h. Keeps-after w t h }

module _ {A : Type 0} {P : World → Type 0} where
  pub Keeps-finally :
      {m : Exec A} {n : Exec (Unit {0})} → Keeps P m → Keeps P n → Keeps P (finally m n)
  unfolding finally
  Keeps-finally {m} {n} t s = record {
    run = λ w h. let (r, w') = m w in Post-self P r (n w').1 (Keeps-after w' s (Keeps-after w t h));
  }

module _ {A : Type 0} {P E : World → Type 0} {Q : A → World → Type 0} where
  pub Triple-pure : (a : A) → ((w : World) → P w → Q a w) → Triple P (pure a) Q E
  unfolding pure
  Triple-pure a h = record { run = h }

  pub Triple-fail : (e : Error) → ((w : World) → P w → E w) → Triple P (fail e) Q E
  unfolding fail
  Triple-fail e h = record { run = h }

  pub Triple-gets : (f : World → A) → ((w : World) → P w → Q (f w) w) → Triple P (gets f) Q E
  unfolding gets
  Triple-gets f h = record { run = h }

  pub Triple-if :
      (b : Bool) (m n : Exec A)
      → (b ≡ true → Triple P m Q E)
      → (b ≡ false → Triple P n Q E)
      → Triple P (if b then m else n) Q E
  Triple-if true m n km kn = km refl
  Triple-if false m n km kn = kn refl

module _ {A B : Type 0} (E : World → Type 0) (Q : A → World → Type 0) (R : B → World → Type 0) where
  Post-continue :
      (f : A → Exec B) (r : Result Error A) (w : World)
      → ((a : A) → Triple (Q a) (f a) R E)
      → Post Q E (r, w)
      → Post R E ((lift r >>= f) w)
  unfolding ◌>>=◌
  Post-continue f (ok a) w t h = (t a).run w h
  Post-continue f (err e) w t h = h

module _ {A B : Type 0} {P E : World → Type 0} {Q : A → World → Type 0}
    {R : B → World → Type 0} where
  pub Triple-bind :
      {m : Exec A} {f : A → Exec B}
      → Triple P m Q E
      → ((a : A) → Triple (Q a) (f a) R E)
      → Triple P (m >>= f) R E
  unfolding ◌>>=◌
  Triple-bind {m} {f} t k = record {
    run = λ w h. let (r, w') = m w in Post-continue E Q R f r w' k (t.run w h);
  }

module _ {A B : Type 0} {P : World → Type 0} where
  pub Keeps-bind :
      {m : Exec A} {f : A → Exec B} → Keeps P m → ((a : A) → Keeps P (f a)) → Keeps P (m >>= f)
  Keeps-bind t k = Triple-bind t k

module _ {A B : Type 0} {P : World → Type 0} {R : B → World → Type 0} where
  -- A step that keeps `P`, in front of an action that needs it
  pub Triple-after :
      {m : Exec A} {f : A → Exec B}
      → Keeps P m
      → ((a : A) → Triple P (f a) R P)
      → Triple P (m >>= f) R P
  Triple-after t k = Triple-bind t k

step_with-On :
    (D : Disk → Type 0) (w : World) (events : List Event)
    → All (λ (ev : Event). (d : Disk) → ev.change d ≡ d) events
    → IsQuiet w
    → D w.disk
    → On D (step_with events w).1
unfolding step_with
step_with-On D w [] q qw h = record { quiet = qw; disk = h }
step_with-On D w (ev ∷ events) q qw h = record { quiet = q.1; disk = subst D (sym (q.0 w.disk)) h }

-- How a step can end
step_with-outcome :
    (events : List Event) (w : World)
    → ((step_with events w).0 ≡ ok tt) ⊎ ((n : ℕ) × ((step_with events w).0 ≡ err (io_error n)))
unfolding step_with
step_with-outcome [] w = inl refl
step_with-outcome (ev ∷ events) w = elim (Option-cases ev.failure) [
  | inl e ↦ inl (rw (e, outcome))
  | inr (n, e) ↦ inr (n, rw (e, outcome))
]

pub step-outcome : (w : World) → ((step w).0 ≡ ok tt) ⊎ ((n : ℕ) × ((step w).0 ≡ err (io_error n)))
unfolding step
step-outcome w = step_with-outcome w.events w

module _ {D : Disk → Type 0} where
  pub Keeps-step : Keeps (On D) step
  unfolding step
  Keeps-step = record {
    run = λ w h.
        let (r, w') = step_with w.events w in
        Post-self (On D) r w' (step_with-On D w w.events h.quiet h.quiet h.disk);
  }

  pub Keeps-change_db : (db : Db) → Keeps (On D) (change_db db)
  unfolding change_db
  Keeps-change_db db = record { run = λ w h. record { quiet = h.quiet; disk = h.disk } }

module _ {D D' : Disk → Type 0} {E : World → Type 0} where
  pub Triple-change_disk :
      (f : Disk → Disk)
      → ((d : Disk) → D d → D' (f d))
      → Triple (On D) (change_disk f) (λ _. On D') E
  unfolding change_disk
  Triple-change_disk f k = record {
    run = λ w h. record { quiet = h.quiet; disk = k w.disk h.disk };
  }

pub ruleset keeps_rules = (
  Keeps-pure, Keeps-fail, Keeps-lift, Keeps-gets, Keeps-if, Keeps-try, Keeps-bind, Keeps-step,
  Keeps-change_db,
)

Post-conseq :
    {A : Type 0} (E E' : World → Type 0) (Q Q' : A → World → Type 0)
    → (r : Result Error A) (w : World) → ((a : A) (w : World) → Q a w → Q' a w)
    → ((w : World) → E w → E' w)
    → Post Q E (r, w)
    → Post Q' E' (r, w)
Post-conseq E E' Q Q' (ok a) w q e h = q a w h
Post-conseq E E' Q Q' (err x) w q e h = e w h

module _ {A : Type 0} {P P' E E' : World → Type 0} {Q Q' : A → World → Type 0} where
  pub Triple-conseq :
      {m : Exec A}
      → ((w : World) → P' w → P w)
      → Triple P m Q E
      → ((a : A) (w : World) → Q a w → Q' a w)
      → ((w : World) → E w → E' w)
      → Triple P' m Q' E'
  Triple-conseq {m} p t q e = record {
    run = λ w h. let (r, w') = m w in Post-conseq E E' Q Q' r w' q e (t.run w (p w h));
  }

Post-finally :
    {A : Type 0} (E : World → Type 0) (Q : A → World → Type 0) (n : Exec (Unit {0}))
    → (r : Result Error A) (w : World) → ((a : A) → Keeps (Q a) n)
    → Keeps E n
    → Post Q E (r, w)
    → Post Q E (r, (n w).1)
Post-finally E Q n (ok a) w q e h = Keeps-after w (q a) h
Post-finally E Q n (err x) w q e h = Keeps-after w e h

module _ {A : Type 0} {P E : World → Type 0} {Q : A → World → Type 0} where
  -- A cleanup that keeps what success and failure establish
  pub Triple-finally :
      {m : Exec A} {n : Exec (Unit {0})}
      → Triple P m Q E
      → ((a : A) → Keeps (Q a) n)
      → Keeps E n
      → Triple P (finally m n) Q E
  unfolding finally
  Triple-finally {m} {n} t q e = record {
    run = λ w h. let (r, w') = m w in Post-finally E Q n r w' q e (t.run w h);
  }

module _ {B : Type 0} {P E : World → Type 0} {R : B → World → Type 0} where
  -- Behind a test, what it tested holds.
  pub Triple-require :
      (b : Bool) (x : Error) (f : Unit {0} → Exec B)
      → (b ≡ true → Triple P (f tt) R E)
      → ((w : World) → P w → E w)
      → Triple P (require b x >>= f) R E
  unfolding ◌>>=◌
  Triple-require true x f t e = record { run = (t refl).run }
  Triple-require false x f t e = record { run = e }

module _ {A B : Type 0} {P E : World → Type 0} {R : B → World → Type 0} where
  -- Behind a pure function that may fail, its result is known.
  pub Triple-lift :
      (r : Result Error A) (f : A → Exec B)
      → ((a : A) → r ≡ ok a → Triple P (f a) R E)
      → ((w : World) → P w → E w)
      → Triple P (lift r >>= f) R E
  unfolding ◌>>=◌
  Triple-lift (ok a) f t e = record { run = (t a refl).run }
  Triple-lift (err x) f t e = record { run = e }
