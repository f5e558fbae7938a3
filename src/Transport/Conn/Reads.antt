-- ===== src/Transport/Conn/Reads.antt =====
-- How much of the input an action takes before it returns.
use backuply.Base.{
  ℕ, ◌+◌, ◌≤◌, ◌≡◌, refl, ap, arith, Bool, true, false, Option, List, [], ◌∷◌, length, length-drop,
  leb, Bool-cases, if◌then◌else◌, inl, inr,
}
use backuply.Base.Result.{Result, ok}
use backuply.Text.{Text}
use backuply.Transport.Conn.{
  Conn, Error, Io, pure, fail, lift, ◌>>=◌, require, step, step_with, take_input, read_full,
  add_output, write_all,
}
use backuply.Transport.Conn.Inversion.{bind-ok}

-- At least so many bytes of the input are gone when the action returns.
pub record Reads {A : Type 0} (n : ℕ) (m : Io A) : Type 0 where
  pub run : (w : Conn) (a : A) (w' : Conn) → m w ≡ (ok a, w') → length w'.input + n ≤ length w.input

-- An action that returns leaves the input as it was, if what it does leaves it.
keeps_input : {A : Type 0} (m : Io A) → ((w : Conn) → (m w).1.input ≡ w.input) → Reads 0 m
keeps_input m k = record {
  run = λ w a w' h.
      let e = ap (λ x. length x.1.input) h in
      let s = ap (λ x. length x) (k w) in omega (arith, e, s);
}

module _ {A B : Type 0} where
  pub Reads-bind :
      (n k : ℕ) (m : Io A) (f : A → Io B)
      → Reads n m
      → ((a : A) → Reads k (f a))
      → Reads (n + k) (m >>= f)
  Reads-bind n k m f p q = record {
    run = λ w b w' h.
        let (a, w1, first, rest) = bind-ok m f w h in
        let x = p.run w a w1 first in let y = (q a).run w1 b w' rest in omega (arith, x, y);
  }

  -- The bytes are taken by the first action, or by the rest.
  pub Reads-first :
      (n : ℕ) (m : Io A) (f : A → Io B) → Reads n m → ((a : A) → Reads 0 (f a)) → Reads n (m >>= f)
  Reads-first n m f p q = record {
    run = λ w b w' h. let x = (Reads-bind n 0 m f p q).run w b w' h in omega (arith, x);
  }

  pub Reads-later :
      (n : ℕ) (m : Io A) (f : A → Io B) → Reads 0 m → ((a : A) → Reads n (f a)) → Reads n (m >>= f)
  Reads-later n m f p q = record {
    run = λ w b w' h. let x = (Reads-bind 0 n m f p q).run w b w' h in omega (arith, x);
  }

module _ {A : Type 0} where
  pub Reads-pure : (a : A) → Reads 0 (pure a)
  unfolding pure
  Reads-pure a = keeps_input (pure a) (λ w. refl)

  pub Reads-lift : (r : Result Error A) → Reads 0 (lift r)
  unfolding lift
  Reads-lift r = keeps_input (lift r) (λ w. refl)

  pub Reads-fail : (n : ℕ) (e : Error) → Reads {A = A} n (fail e)
  unfolding fail
  Reads-fail n e = record { run = λ w a w' h. cc }

  pub Reads-if :
      (n : ℕ) (b : Bool) (m k : Io A) → Reads n m → Reads n k → Reads n (if b then m else k)
  Reads-if n true m k p q = p
  Reads-if n false m k p q = q

pub Reads-require : (b : Bool) (e : Error) → Reads 0 (require b e)
Reads-require true e = Reads-pure tt
Reads-require false e = Reads-fail 0 e

step_with-input : (faults : List (Option Error)) (w : Conn) → (step_with faults w).1.input ≡ w.input
unfolding step_with
step_with-input [] w = refl
step_with-input (x ∷ faults) w = refl

pub Reads-step : Reads 0 step
unfolding step
Reads-step = keeps_input step (λ w. step_with-input w.faults w)

Reads-take_input : (n : ℕ) → Reads n (take_input n)
unfolding take_input
Reads-take_input n = record {
  run = λ w a w' h. elim (Bool-cases (leb n (length w.input))) [
    | inl enough ↦
        let k = rw enough at h in
        let e = ap (λ x. length x.1.input) k in
        let d = length-drop n w.input in ground (arith, e, d, enough)
    | inr short ↦ let k = rw short at h in cc
  ];
}

pub Reads-read_full : (n : ℕ) → Reads n (read_full n)
unfolding read_full
Reads-read_full n = Reads-later n step (λ _. take_input n) Reads-step (λ _. Reads-take_input n)

pub Reads-write_all : (b : Text) → Reads 0 (write_all b)
unfolding write_all add_output
Reads-write_all b =
    Reads-first 0 step (λ _. add_output b) Reads-step (λ _. keeps_input (add_output b) (λ w. refl))
