-- ===== src/Transport/Serve.antt =====
-- `Serve` of internal/transport/transport.go: the accept loop, the goroutine that waits for the end of
-- the context, and the sessions, as steps that come in any order. What the mutex holds together is one
-- step. A connection is a number.
pub mod Sessions
pub mod Ending
use backuply.Base.{
  ℕ, ◌≡◌, Bool, true, false, ◌||◌, Option, none, some, List, [], ◌∷◌, ◌++◌, leb, length, ◌=ℕ◌, any,
  if◌then◌else◌,
}

abbrev pub max_sessions : ℕ
max_sessions = 32

-- `active` are the sessions, `closed` the connections on which Close was called; `pending` is one that
-- Accept has returned, for which the loop has not had the mutex yet. `listening` holds until the
-- listener is closed, `accepting` until the loop is left, and `swept` once the goroutine has closed the
-- listener and all sessions.
pub record Server : Type 0 where
  pub active : List ℕ
  pub closed : List ℕ
  pub pending : Option ℕ
  pub listening : Bool
  pub cancelled : Bool
  pub accepting : Bool
  pub swept : Bool

abbrev pub start : Server
start = record {
  active = [];
  closed = [];
  pending = none;
  listening = true;
  cancelled = false;
  accepting = true;
  swept = false;
}

abbrev pub has : ℕ → List ℕ → Bool
has conn conns = any (λ x. conn =ℕ x) conns

-- Accept returns a connection.
unfoldable pub on_arrive : ℕ → Server → Server
on_arrive conn s = record s { pending = some conn }

-- What the loop does with it under the mutex
unfoldable pub on_accept : ℕ → Server → Server
on_accept conn s =
    if leb max_sessions (length s.active) || s.cancelled
    then record s { closed = conn ∷ s.closed; pending = none }
    else record s { active = conn ∷ s.active; pending = none }

-- Accept fails: the loop is left, and with it the context ends.
unfoldable pub on_failure : Server → Server
on_failure s = record s { accepting = false; cancelled = true }

unfoldable pub on_cancel : Server → Server
on_cancel s = record s { cancelled = true }

-- The goroutine, once the context has ended
unfoldable pub on_stop : Server → Server
on_stop s = record s { swept = true; listening = false; closed = s.active ++ s.closed }

unfoldable pub without : ℕ → List ℕ → List ℕ
without conn [] = []
without conn (x ∷ xs) = let rest = without conn xs in if conn =ℕ x then rest else x ∷ rest

-- `serveConn` has returned.
unfoldable pub on_finish : ℕ → Server → Server
on_finish conn s = record s { closed = conn ∷ s.closed; active = without conn s.active }

-- Accept may fail at any time, and so may a session; a connection is a new one.
pub data Step : Server → Server → Type 0 where
  arrive :
      (conn : ℕ) (s : Server)
      → s.accepting ≡ true
      → s.listening ≡ true
      → s.pending ≡ none
      → (has conn s.active || has conn s.closed) ≡ false
      → Step s (on_arrive conn s)
  accept : (conn : ℕ) (s : Server) → s.pending ≡ some conn → Step s (on_accept conn s)
  failure : (s : Server) → s.accepting ≡ true → s.pending ≡ none → Step s (on_failure s)
  cancel : (s : Server) → s.cancelled ≡ false → Step s (on_cancel s)
  stop : (s : Server) → s.cancelled ≡ true → s.swept ≡ false → Step s (on_stop s)
  finish : (conn : ℕ) (s : Server) → has conn s.active ≡ true → Step s (on_finish conn s)

-- The steps that do not depend on what peers and callers do: the loop goes on with the connection that
-- it has, Accept on a closed listener fails, the goroutine runs when the context has ended, and a
-- session ends when its connection is closed under it.
pub data Due : Server → Server → Type 0 where
  accept_due : (conn : ℕ) (s : Server) → s.pending ≡ some conn → Due s (on_accept conn s)
  failure_due :
      (s : Server)
      → s.accepting ≡ true
      → s.pending ≡ none
      → s.listening ≡ false
      → Due s (on_failure s)
  stop_due : (s : Server) → s.cancelled ≡ true → s.swept ≡ false → Due s (on_stop s)
  finish_due :
      (conn : ℕ) (s : Server)
      → has conn s.active ≡ true
      → has conn s.closed ≡ true
      → Due s (on_finish conn s)

-- Any number of steps
pub data Run : Server → Server → Type 0 where
  done : (s : Server) → Run s s
  next : {s t u : Server} → Step s t → Run t u → Run s u

-- `Serve` returns: the loop is left, the goroutine has ended, and so have all sessions.
pub record IsReturned (s : Server) : Type 0 where
  pub left : s.accepting ≡ false
  pub stopped : s.swept ≡ true
  pub idle : s.active ≡ []

-- `Serve` comes to its end: it has returned, or some step is due, and whichever steps come, it comes to
-- its end after them. There are no infinitely many steps in this.
pub data Ends : Server → Type 0 where
  ended : (s : Server) → IsReturned s → Ends s
  going : (s t : Server) → Due s t → ((u : Server) → Step s u → Ends u) → Ends s
