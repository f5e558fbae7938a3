-- ===== src/Transport/Serve/Ending.antt =====
-- How `Serve` of internal/transport/transport.go comes to its end once its context has ended.
use backuply.Base.{
  ℕ, zero, suc, ◌+◌, ◌<◌, ◌≡◌, ◌⊎◌, inl, inr, refl, arith, Bool, true, false, ◌||◌, Option, none,
  some, List, [], ◌∷◌, leb, length, ◌=ℕ◌, Bool-cases, Option-cases,
}
use backuply.Transport.Serve.{
  max_sessions, Server, start, has, on_arrive, on_accept, on_failure, on_cancel, on_stop, without,
  on_finish, Step, arrive, accept, failure, cancel, stop, finish, Due, accept_due, failure_due,
  stop_due, finish_due, Run, IsReturned, Ends, ended, going,
}
use backuply.Transport.Serve.Sessions.{
  Within, IsSafe, length-without, step-IsSafe, reachable-IsSafe,
}

abbrev waiting : Option ℕ → ℕ
waiting none = 0
waiting (some conn) = 1

abbrev one_if : Bool → ℕ
one_if true = 1
one_if false = 0

-- How many steps may still come once the listener is closed
abbrev left_over : Server → ℕ
left_over s = waiting s.pending + one_if s.accepting + length s.active

without-shorter :
    (conn : ℕ) (xs : List ℕ) → has conn xs ≡ true → length (without conn xs) < length xs
unfolding without
without-shorter conn [] h = cc
without-shorter conn (x ∷ xs) h = elim (Bool-cases (conn =ℕ x)) [
  | inl same ↦ rw same (let l = length-without conn xs in omega (arith, l))
  | inr other ↦
      rw other (let l = without-shorter conn xs (ground (arith, rw other at h)) in omega (arith, l))
]

-- A session that is found closed can be told to end.
closed_session :
    (conns : List ℕ) (s : Server)
    → s.active ≡ conns
    → Within s.active s.closed
    → (s.active ≡ []) ⊎ ((t : Server) × Due s t)
closed_session [] s e h = inl e
closed_session (conn ∷ conns) s e h =
    let there : has conn s.active ≡ true = rw e (ground arith) in
    inr (on_finish conn s, finish_due conn s there (rw e at h).0)

progress : (s : Server) → IsSafe s → s.swept ≡ true → IsReturned s ⊎ ((t : Server) × Due s t)
progress s safe swept = elim (Option-cases s.pending) [
  | inr (conn, waits) ↦ inr (on_accept conn s, accept_due conn s waits)
  | inl idle ↦ elim (Bool-cases s.accepting) [
    | inl accepting ↦ inr (on_failure s, failure_due s accepting idle (safe.shut swept))
    | inr left ↦ elim (closed_session s.active s refl (safe.closed swept)) [
      | inl none_ ↦ inl (record { left = left; stopped = swept; idle = none_ })
      | inr due ↦ inr due
    ]
  ]
]

-- Once the goroutine has run, every step leaves less to come.
step-left_over :
    (s t : Server)
    → Step s t
    → IsSafe s
    → s.swept ≡ true
    → (t.swept ≡ true) × (left_over t < left_over s)
unfolding on_arrive on_accept on_failure on_cancel on_stop on_finish
step-left_over _ _ (arrive conn s a l p f) safe swept = absurd (ground (arith, safe.shut swept))
step-left_over _ _ (accept conn s p) safe swept =
    let over = safe.ended swept in
    elim (Bool-cases (leb max_sessions (length s.active) || s.cancelled)) [
      | inl away ↦ rw (away, p) (swept, omega arith)
      | inr room ↦ absurd (ground (arith, over))
    ]
step-left_over _ _ (failure s a p) safe swept = rw (a, p) (swept, omega arith)
step-left_over _ _ (cancel s c) safe swept = absurd (ground (arith, safe.ended swept))
step-left_over _ _ (stop s c w) safe swept = absurd (ground arith)
step-left_over _ _ (finish conn s a) safe swept =
    let l = without-shorter conn s.active a in (swept, omega (arith, l))

swept-Ends : (n : ℕ) (s : Server) → IsSafe s → s.swept ≡ true → left_over s < n → Ends s
swept-Ends zero s safe swept h = absurd (omega arith)
swept-Ends (suc n) s safe swept h = elim (progress s safe swept) [
  | inl returned ↦ ended s returned
  | inr (t, due) ↦ going s t due (λ u step.
      let (still, less) = step-left_over s u step safe swept in
      swept-Ends n u (step-IsSafe s u step safe) still (omega (arith, h, less)))
]

-- Once the context has ended, in whatever order the steps came, `Serve` comes to its return, as far as a
-- step that is due comes sooner or later. If the goroutine has not run yet, it is due. After it has run, whichever steps come, one is due as long as
-- `Serve` has not returned, and after finitely many `Serve` has returned: the loop has been left, and
-- no session is active.
pub run-Ends :
    (s : Server)
    → Run start s
    → s.cancelled ≡ true
    → ((s.swept ≡ true) × Ends s) ⊎ (Due s (on_stop s) × Ends (on_stop s))
unfolding on_stop
run-Ends s run cancelled =
    let safe = reachable-IsSafe s run in
    elim (Bool-cases s.swept) [
      | inl swept ↦ inl (swept, swept-Ends (suc (left_over s)) s safe swept (omega arith))
      | inr running ↦
          let after = step-IsSafe s (on_stop s) (stop s cancelled running) safe in
          inr (
            stop_due s cancelled running,
            swept-Ends (suc (left_over (on_stop s))) (on_stop s) after refl (omega arith),
          )
    ]
