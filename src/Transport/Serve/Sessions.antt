-- ===== src/Transport/Serve/Sessions.antt =====
-- What holds of the sessions of `Serve` at all times.
use backuply.Base.{
  ℕ, ◌≤◌, ◌≡◌, refl, arith, inl, inr, true, false, ◌||◌, List, [], ◌∷◌, ◌++◌, leb, length, ◌=ℕ◌,
  All, Bool-cases,
}
use backuply.Transport.Serve.{
  max_sessions, Server, start, has, on_arrive, on_accept, on_failure, on_cancel, on_stop, without,
  on_finish, Step, arrive, accept, failure, cancel, stop, finish, Run, done, next,
}

abbrev pub Within : List ℕ → List ℕ → Type 0
Within xs ys = All (λ x. has x ys ≡ true) xs

-- The sessions are within the limit, and once the goroutine has run, the listener is closed and so is
-- each session: none was let in behind its back.
pub record IsSafe (s : Server) : Type 0 where
  pub few : length s.active ≤ max_sessions
  pub ended : s.swept ≡ true → s.cancelled ≡ true
  pub shut : s.swept ≡ true → s.listening ≡ false
  pub closed : s.swept ≡ true → Within s.active s.closed

Within-cons : (xs ys : List ℕ) (y : ℕ) → Within xs ys → Within xs (y ∷ ys)
Within-cons [] ys y h = tt
Within-cons (x ∷ xs) ys y h = (ground (arith, h.0), Within-cons xs ys y h.1)

has-append : (x : ℕ) (xs ys : List ℕ) → has x (xs ++ x ∷ ys) ≡ true
has-append x [] ys = ground arith
has-append x (z ∷ xs) ys = ground (arith, has-append x xs ys)

Within-front : (xs ys zs : List ℕ) → Within xs zs → Within xs (zs ++ ys)
Within-front [] ys zs h = tt
Within-front (x ∷ xs) ys zs h = (has_front zs h.0, Within-front xs ys zs h.1)
  where
    has_front : (ws : List ℕ) → has x ws ≡ true → has x (ws ++ ys) ≡ true
    has_front [] k = cc
    has_front (w ∷ ws) k = ground (arith, has_front ws)

Within-self : (xs : List ℕ) → Within xs xs
Within-self [] = tt
Within-self (x ∷ xs) = (ground arith, Within-cons xs xs x (Within-self xs))

Within-without : (conn : ℕ) (xs ys : List ℕ) → Within xs ys → Within (without conn xs) ys
unfolding without
Within-without conn [] ys h = tt
Within-without conn (x ∷ xs) ys h = elim (Bool-cases (conn =ℕ x)) [
  | inl same ↦ rw same (Within-without conn xs ys h.1)
  | inr other ↦ rw other (h.0, Within-without conn xs ys h.1)
]

pub length-without : (conn : ℕ) (xs : List ℕ) → length (without conn xs) ≤ length xs
unfolding without
length-without conn [] = omega arith
length-without conn (x ∷ xs) = ground (arith, length-without conn xs)

pub step-IsSafe : (s t : Server) → Step s t → IsSafe s → IsSafe t
unfolding on_arrive on_accept on_failure on_cancel on_stop on_finish
step-IsSafe _ _ (arrive conn s a l p f) h = record {
  few = h.few;
  ended = h.ended;
  shut = h.shut;
  closed = h.closed;
}
step-IsSafe _ _ (accept conn s a) h =
    elim (Bool-cases (leb max_sessions (length s.active) || s.cancelled)) [
      | inl away ↦ rw away (record {
        few = h.few;
        ended = h.ended;
        shut = h.shut;
        closed = λ k. Within-cons s.active s.closed conn (h.closed k);
      })
      | inr room ↦ rw room (record {
        few = ground arith;
        ended = h.ended;
        shut = h.shut;
        closed = λ k. absurd (ground (arith, h.ended k));
      })
    ]
step-IsSafe _ _ (failure s a p) h = record {
  few = h.few;
  ended = λ _. refl;
  shut = h.shut;
  closed = h.closed;
}
step-IsSafe _ _ (cancel s a) h = record {
  few = h.few;
  ended = λ _. refl;
  shut = h.shut;
  closed = h.closed;
}
step-IsSafe _ _ (stop s c w) h = record {
  few = h.few;
  ended = λ _. c;
  shut = λ _. refl;
  closed = λ _. Within-front s.active s.closed s.active (Within-self s.active);
}
step-IsSafe _ _ (finish conn s a) h = record {
  few = let l = length-without conn s.active in omega (arith, l, h.few);
  ended = h.ended;
  shut = h.shut;
  closed = λ k.
      Within-without conn s.active (conn ∷ s.closed)
        (Within-cons s.active s.closed conn (h.closed k));
}

run-IsSafe : (s t : Server) → Run s t → IsSafe s → IsSafe t
run-IsSafe _ _ (done s) h = h
run-IsSafe s t (next {t = u} step rest) h = run-IsSafe u t rest (step-IsSafe s u step h)

-- In whatever order the steps come, there are at most 32 sessions, and once the goroutine has closed the
-- sessions that it found, the listener and every session there is are closed, so that none outlives the
-- shutdown.
pub reachable-IsSafe : (s : Server) → Run start s → IsSafe s
reachable-IsSafe s r =
    run-IsSafe start s r
      (record { few = omega arith; ended = λ k. k; shut = λ k. cc; closed = λ k. tt })
