-- ===== src/Daemon/Status/History.antt =====
-- The status of a folder as a summary of all that happened to it.
use backuply.Base.{
  ℕ, ◌+◌, ◌≡◌, ◌≢◌, ◌↔◌, refl, sym, ap, ◌∙◌, arith, inl, inr, Bool, true, false, Option, none, some,
  List, [], ◌∷◌, text_eq, ◌==◌, ==_iff, Bool-cases, Option-cases, All, if◌then◌else◌,
}
use backuply.Base.Dict
use backuply.Base.Dict.{Dict, lookup-insert}
use backuply.Text.{Text}
use backuply.Model.{Stats, int64, add_int64}
use backuply.Daemon.Status.{
  FolderStatus, Statuses, empty_status, status_or_zero, Update, updated, update, is_some,
  is_available,
}

-- The updates in turn, the latest of which comes first in the list.
abbrev pub History : Type 0
History = List Update

unfoldable pub statuses_after : Statuses → History → Statuses
statuses_after start [] = start
statuses_after start (u ∷ us) = update u (statuses_after start us)

-- Those of one folder
unfoldable pub updates_of : Text → History → History
updates_of id [] = []
updates_of id (u ∷ us) = let rest = updates_of id us in if id == u.folder then u ∷ rest else rest

abbrev pub has_succeeded : Update → Bool
has_succeeded u = elim u.error [ none ↦ true | some text ↦ false ]

-- The successful ones, the latest first
unfoldable pub successes : History → History
successes [] = []
successes (u ∷ us) = let rest = successes us in if has_succeeded u then u ∷ rest else rest

unfoldable pub sum : (Stats → ℕ) → History → ℕ
sum size [] = 0
sum size (u ∷ us) = sum size us + size u.stats

-- The error of the latest update, the time and the number of entries of the latest success, and the
-- bytes of all successes, as far as 64 bits hold them
unfoldable pub latest_error : History → Text
latest_error [] = []
latest_error (u ∷ us) = elim u.error [ none ↦ [] | some text ↦ text ]

unfoldable pub latest_time : History → Option ℕ
latest_time [] = none
latest_time (u ∷ us) = some u.now

unfoldable pub latest_count : History → ℕ
latest_count [] = 0
latest_count (u ∷ us) = u.count

unfoldable pub summary : Text → History → FolderStatus
summary source us = record {
  source = source;
  entries = latest_count (successes us);
  last_success = latest_time (successes us);
  last_error = latest_error us;
  bytes_received = int64 (sum (λ s. s.bytes_received) (successes us));
  bytes_reused = int64 (sum (λ s. s.bytes_reused) (successes us));
}

add-int64 : (n m : ℕ) → add_int64 (int64 n) m ≡ int64 (n + m)
add-int64 n m = omega arith

updated-summary :
    (u : Update) (error : Option Text) (source : Text) (us : History)
    → u.error ≡ error
    → updated u error (summary source us) ≡ summary source (u ∷ us)
unfolding updated summary successes latest_error latest_time latest_count sum
updated-summary u none source us e =
    let received = add-int64 (sum (λ s. s.bytes_received) (successes us)) u.stats.bytes_received in
    let reused = add-int64 (sum (λ s. s.bytes_reused) (successes us)) u.stats.bytes_reused in
    rw e (λ i. record {
      source = source;
      entries = u.count;
      last_success = some u.now;
      last_error = [];
      bytes_received = received i;
      bytes_reused = reused i;
    })
updated-summary u (some text) source us e = rw e refl

-- However the updates of all folders were interleaved: the status that is kept of a configured folder is
-- the summary of its own updates. Its error is that of the latest update, its time and its number of
-- entries are those of the latest success, and its bytes are the sums over all successes, modulo
-- 2 ^ 64: they are the sums themselves as long as an `int64` holds those.
pub statuses_after-summary :
    (start : Statuses) (id source : Text) (us : History)
    → Dict.lookup id start ≡ some (record empty_status { source = source })
    → Dict.lookup id (statuses_after start us) ≡ some (summary source (updates_of id us))
unfolding statuses_after updates_of update status_or_zero
statuses_after-summary start id source [] h =
    h ∙ unfold summary successes latest_error latest_time latest_count sum in refl
statuses_after-summary start id source (u ∷ us) h =
    let before = statuses_after-summary start id source us h in
    elim (Bool-cases (id == u.folder)) [
      | inl same ↦
          let e = (==_iff id u.folder).0 same in
          let found = ap (λ k. Dict.lookup k (statuses_after start us)) (sym e) ∙ before in
          rw same (
            lookup-insert id u.folder _ (statuses_after start us)
            ∙ rw (same, found) (ap some (updated-summary u u.error source (updates_of id us) refl)))
      | inr other ↦
          rw other (lookup-insert id u.folder _ (statuses_after start us) ∙ rw other before)
    ]

is_available_iff :
    (source : Text) (us : History)
    → All (λ (u : Update). u.error ≢ some []) us
    → (is_available (summary source us) ≡ true)
      ↔ ((u : Update) × (earlier : History) × (us ≡ u ∷ earlier) × (u.error ≡ none))
unfolding is_available is_some summary latest_time latest_error successes
is_available_iff source [] fine = (λ h. cc, λ k. let e = k.2 in cc)
is_available_iff source (u ∷ us) fine = elim (Option-cases u.error) [
  | inl ended ↦ (λ _. (u, us, refl, ended), λ _. rw ended ((==_iff {A = Text} [] []).1 refl))
  | inr (text, failed) ↦ (
    λ h. absurd (fine.0 (failed ∙ ap some ((==_iff text []).0 (ground (arith, rw failed at h))))),
    λ k.
        let same : u ≡ k.0 = ground (arith, k.2) in
        let both : some text ≡ none = sym failed ∙ ap (λ v. v.error) same ∙ k.3 in cc,
  )
]

-- However the updates of all folders were interleaved: a configured folder is available exactly if its own
-- latest update was a success, so that it recovers with any success and is withdrawn with any error,
-- if the text of an error is never empty.
pub statuses_after-is_available :
    (start : Statuses) (id source : Text) (us : History)
    → Dict.lookup id start ≡ some (record empty_status { source = source })
    → All (λ (u : Update). u.error ≢ some []) (updates_of id us)
    → (is_available (status_or_zero (Dict.lookup id (statuses_after start us))) ≡ true)
      ↔ ((u : Update) × (earlier : History) × (updates_of id us ≡ u ∷ earlier) × (u.error ≡ none))
unfolding status_or_zero
statuses_after-is_available start id source us h fine =
    rw (statuses_after-summary start id source us h)
      (is_available_iff source (updates_of id us) fine)
