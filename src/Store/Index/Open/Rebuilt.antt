-- ===== src/Store/Index/Open/Rebuilt.antt =====
-- After `Open` the totals are true, whatever they were for the folders that have rows.
use mathlib.Core.Path.{subst}
use backuply.Base.{
  ℕ, ◌≤◌, ◌≡◌, refl, sym, ap, ◌∙◌, arith, inl, inr, true, none, some, [], ◌∷◌, length, leb, text_eq,
  ◌==◌, ==_iff, Bool-cases, Option-cases, if◌then◌else◌,
}
use backuply.Base.Dict
use backuply.Base.Dict.{Dict, dict_laws, lookup-insert}
use backuply.Base.Result.{ok, ok-injective, bind-eq-ok, guard}
use backuply.Text.{Text}
use backuply.Store.Limits.{max_entries}
use backuply.Store.Index.{
  Key, Db, Usage, Usages, fits, inserted, store_usage, entries_or_0, bytes_or_0, max_usage_bytes,
}
use backuply.Store.Index.Totals.{IsConsistent, count_of, bytes_of}
use backuply.Store.Index.Open.{grouped, store_groups, open_index}

module _ (f : Text) where
  grouped-count :
      (rows : Dict Key Text) → entries_or_0 (Dict.lookup f (grouped rows)) ≡ count_of f rows
  unfolding grouped Dict.total
  grouped-count [] = unfold Dict.lookup in refl
  grouped-count (((folder, path), raw) ∷ rows) =
      let put =
        lookup-insert f folder (inserted (length raw) (Dict.lookup folder (grouped rows)))
          (grouped rows) in
      ground (
        arith,
        grouped-count rows,
        put,
        ==_iff f folder,
        Option-cases (Dict.lookup folder (grouped rows)),
      )

  grouped-bytes :
      (rows : Dict Key Text) → bytes_or_0 (Dict.lookup f (grouped rows)) ≡ bytes_of f rows
  unfolding grouped Dict.total
  grouped-bytes [] = unfold Dict.lookup in refl
  grouped-bytes (((folder, path), raw) ∷ rows) =
      let put =
        lookup-insert f folder (inserted (length raw) (Dict.lookup folder (grouped rows)))
          (grouped rows) in
      ground (
        arith,
        grouped-bytes rows,
        put,
        ==_iff f folder,
        Option-cases (Dict.lookup folder (grouped rows)),
      )

  store_usage-ok :
      (folder : Text) (u : Usage) (usage usage' : Usages)
      → store_usage folder u usage ≡ ok usage'
      → (fits u ≡ true)
        × (Dict.lookup f usage' ≡ (if f == folder then some u else Dict.lookup f usage))
  unfolding store_usage
  store_usage-ok folder u usage usage' h = elim (Bool-cases (fits u)) [
    | inl fine ↦ (
      fine,
      ap (λ d. Dict.lookup f d) (sym (ok-injective (rw (store_usage, fine) at h)))
          ∙ lookup-insert f folder u usage,
    )
    | inr out ↦ let k = rw (store_usage, out) at h in cc
  ]

  no_group : (u : Usage) → ¬ (Dict.lookup {V = Usage} f [] ≡ some u)
  unfolding Dict.lookup
  no_group u k = cc

  -- A group takes the place of the row, and a folder without a group keeps its row.
  store_groups-ok :
      (groups usage usage' : Usages)
      → store_groups groups usage ≡ ok usage'
      → ((Dict.lookup f groups ≡ none) → (Dict.lookup f usage' ≡ Dict.lookup f usage))
        × ((u : Usage)
            → Dict.lookup f groups ≡ some u
            → (Dict.lookup f usage' ≡ some u) × (fits u ≡ true))
  unfolding store_groups Dict.lookup
  store_groups-ok [] usage usage' h =
      (λ _. ap (λ d. Dict.lookup f d) (sym (ok-injective h)), λ u k. absurd (no_group u k))
  store_groups-ok ((folder, v) ∷ groups) usage usage' h =
      let (between, rest, last) = bind-eq-ok (store_groups groups usage) _ h in
      let (old, new) = store_groups-ok groups usage between rest in
      let (fine, put) = store_usage-ok folder v between usage' last in
      elim (Bool-cases (f == folder)) [
        | inl same ↦ (
          λ k. let e = rw (Dict.lookup, same) at k in cc,
          λ u k.
              let e : some v ≡ some u = rw (Dict.lookup, same) at k in
              let w : v ≡ u = ground (arith, e) in
              (put ∙ rw same e, subst (λ x. fits x ≡ true) w fine),
        )
        | inr other ↦ (
          λ k. put ∙ rw other (old (rw (Dict.lookup, other) at k)),
          λ u k. let n = new u (rw (Dict.lookup, other) at k) in (put ∙ rw other n.0, n.1),
        )
      ]

  module _ (rows : Dict Key Text) (usage usage' : Usages)
      (idle : count_of f rows ≡ 0
        → (entries_or_0 (Dict.lookup f usage) ≡ 0) × (bytes_or_0 (Dict.lookup f usage) ≡ 0))
      (h : store_groups (grouped rows) usage ≡ ok usage') where
    -- What the row of one folder says afterwards
    IsTrue : Type 0
    IsTrue =
        (entries_or_0 (Dict.lookup f usage') ≡ count_of f rows)
        × (bytes_or_0 (Dict.lookup f usage') ≡ bytes_of f rows)
        × (count_of f rows ≤ max_entries)
        × (bytes_of f rows ≤ max_usage_bytes)

    row-IsTrue : IsTrue
    unfolding IsTrue
    row-IsTrue =
        let (old, new) = store_groups-ok (grouped rows) usage usage' h in
        let count = grouped-count rows in
        let bytes = grouped-bytes rows in
        elim (Option-cases (Dict.lookup f (grouped rows))) [
          | inl missing ↦
              let kept = old missing in
              let n : count_of f rows ≡ 0 = ground (arith, rw missing at count) in
              let b : bytes_of f rows ≡ 0 = ground (arith, rw missing at bytes) in
              let before = idle n in
              (
                ap entries_or_0 kept ∙ before.0 ∙ sym n,
                ap bytes_or_0 kept ∙ before.1 ∙ sym b,
                omega (arith, n),
                omega (arith, b),
              )
          | inr (u, found) ↦
              let (stored, fine) = new u found in
              let n = rw found at count in
              let b = rw found at bytes in
              (
                ap entries_or_0 stored ∙ n,
                ap bytes_or_0 stored ∙ b,
                ground (arith, n, fine),
                ground (arith, b, fine),
              )
        ]

-- If the totals of the folders without rows were 0, which they are in an empty database, an index that
-- `Open` returns has the rows that were there, with true totals that are within the limits, whatever
-- the totals of the other folders were.
pub open_index-IsConsistent :
    (version : ℕ) (db db' : Db)
    → ((f : Text)
        → count_of f db.rows ≡ 0
        → (entries_or_0 (Dict.lookup f db.usage) ≡ 0) × (bytes_or_0 (Dict.lookup f db.usage) ≡ 0))
    → open_index version db ≡ ok db'
    → (db'.rows ≡ db.rows) × IsConsistent db'
unfolding open_index IsTrue
open_index-IsConsistent version db db' idle h =
    let (_, _, h1) = bind-eq-ok (guard (leb version 1) _) _ h in
    let (usage, stored, h2) = bind-eq-ok (store_groups (grouped db.rows) db.usage) _ h1 in
    let e = ok-injective h2 in
    let true_of = λ (f : Text). row-IsTrue f db.rows db.usage usage (idle f) stored in
    (
      ap (λ d. d.rows) (sym e),
      subst IsConsistent e (record {
        entries = λ f. (true_of f).0;
        bytes = λ f. (true_of f).1;
        entries_le = λ f. (true_of f).2;
        bytes_le = λ f. (true_of f).3;
      }),
    )
