-- ===== src/Store/Index/Totals.antt =====
-- `folder_usage` holds the true totals of every folder, and the limits hold.
use mathlib.Core.Path.{subst, subst₂}
use backuply.Base.{
  ℕ, ◌+◌, ◌≤◌, ◌≡◌, refl, arith, true, false, none, some, length, text_eq, ◌==◌, ◌-◌, ◌<◌,
  Option-cases, Bool-cases, inl, inr, ==_iff, if◌then◌else◌,
}
use backuply.Base.Dict
use backuply.Base.Dict.{Dict, dict_laws}
use backuply.Base.Result.{ok, bind-eq-ok, ok-injective}
use backuply.Text.{Text}
use backuply.Store.Limits.{max_entries}
use backuply.Store.Index.{
  Key, key_eq, Usage, inserted, store_usage, entries_insert, entries_update, entries_delete, Usages,
  Db, entries_or_0, bytes_or_0, max_usage_bytes, upsert,
}

abbrev pub one_in : Text → Key → Text → ℕ
one_in folder (f, path) raw = if folder == f then 1 else 0

abbrev pub bytes_in : Text → Key → Text → ℕ
bytes_in folder (f, path) raw = if folder == f then length raw + 1 else 0

-- count(*) and sum(length(manifest)+1) of a folder
abbrev pub count_of : Text → Dict Key Text → ℕ
count_of folder = Dict.total (one_in folder)

abbrev pub bytes_of : Text → Dict Key Text → ℕ
bytes_of folder = Dict.total (bytes_in folder)

pub record IsConsistent (db : Db) : Type 0 where
  pub entries : (f : Text) → entries_or_0 (Dict.lookup f db.usage) ≡ count_of f db.rows
  pub bytes : (f : Text) → bytes_or_0 (Dict.lookup f db.usage) ≡ bytes_of f db.rows
  pub entries_le : (f : Text) → count_of f db.rows ≤ max_entries
  pub bytes_le : (f : Text) → bytes_of f db.rows ≤ max_usage_bytes

module _ (folder path raw f : Text) (rows : Dict Key Text) where
  pub count-insert :
      count_of f (Dict.insert (folder, path) raw rows)
        + Dict.weigh (one_in f) (folder, path) (Dict.lookup (folder, path) rows)
      ≡ count_of f rows + one_in f (folder, path) raw
  count-insert = Dict.total-insert (one_in f) (folder, path) raw rows

  pub bytes-insert :
      bytes_of f (Dict.insert (folder, path) raw rows)
        + Dict.weigh (bytes_in f) (folder, path) (Dict.lookup (folder, path) rows)
      ≡ bytes_of f rows + bytes_in f (folder, path) raw
  bytes-insert = Dict.total-insert (bytes_in f) (folder, path) raw rows

  pub count-le :
      Dict.weigh (one_in f) (folder, path) (Dict.lookup (folder, path) rows) ≤ count_of f rows
  count-le = Dict.weigh-le-total (one_in f) (folder, path) rows

  pub bytes-le :
      Dict.weigh (bytes_in f) (folder, path) (Dict.lookup (folder, path) rows) ≤ bytes_of f rows
  bytes-le = Dict.weigh-le-total (bytes_in f) (folder, path) rows

-- A usage table whose row of one folder was set to `n` and `b`, within the limits.
record IsCharged (folder : Text) (n b : ℕ) (old new : Usages) : Type 0 where
  entries : entries_or_0 (Dict.lookup folder new) ≡ n
  bytes : bytes_or_0 (Dict.lookup folder new) ≡ b
  entries_le : n ≤ max_entries
  bytes_le : b ≤ max_usage_bytes
  others : (f : Text) → (f == folder) ≡ false → Dict.lookup f new ≡ Dict.lookup f old

store_usage-IsCharged :
    (folder : Text) (u : Usage) (usage : Usages) {usage' : Usages} {n b : ℕ}
    → store_usage folder u usage ≡ ok usage'
    → u.entries ≡ n
    → u.bytes ≡ b
    → IsCharged folder n b usage usage'
unfolding store_usage
store_usage-IsCharged folder u usage h p q = record {
  entries = ground (arith, Dict.lookup-insert folder folder u usage);
  bytes = ground (arith, Dict.lookup-insert folder folder u usage);
  entries_le = ground arith;
  bytes_le = ground arith;
  others = λ f ne. ground (arith, Dict.lookup-insert f folder u usage);
}

entries_insert-IsCharged :
    (folder : Text) (n : ℕ) (usage : Usages) {usage' : Usages}
    → entries_insert folder n usage ≡ ok usage'
    → IsCharged folder
        (entries_or_0 (Dict.lookup folder usage) + 1)
        (bytes_or_0 (Dict.lookup folder usage) + (n + 1))
        usage
        usage'
unfolding entries_insert
entries_insert-IsCharged folder n usage h = elim (Option-cases (Dict.lookup folder usage)) [
  | inl e ↦
      rw e (
        store_usage-IsCharged folder (inserted n none) usage (rw e at h) (omega arith)
          (omega arith))
  | inr (u, e) ↦
      rw e (store_usage-IsCharged folder (inserted n (some u)) usage (rw e at h) refl (omega arith))
]

entries_update-IsCharged :
    (folder : Text) (new old : ℕ) (usage : Usages) {usage' : Usages}
    → 0 < entries_or_0 (Dict.lookup folder usage)
    → entries_update folder new old usage ≡ ok usage'
    → IsCharged folder
        (entries_or_0 (Dict.lookup folder usage))
        (bytes_or_0 (Dict.lookup folder usage) + new - old)
        usage
        usage'
unfolding entries_update
entries_update-IsCharged folder new old usage p h = elim (Option-cases (Dict.lookup folder usage)) [
  | inl e ↦ absurd (ground arith)
  | inr (u, e) ↦ rw e (
      store_usage-IsCharged folder (record u { bytes = u.bytes + new - old }) usage (ground arith)
        refl refl)
]

entries_delete-IsCharged :
    (folder : Text) (n : ℕ) (usage : Usages) {usage' : Usages}
    → 0 < entries_or_0 (Dict.lookup folder usage)
    → entries_delete folder n usage ≡ ok usage'
    → IsCharged folder
        (entries_or_0 (Dict.lookup folder usage) - 1)
        (bytes_or_0 (Dict.lookup folder usage) - n - 1)
        usage
        usage'
unfolding entries_delete
entries_delete-IsCharged folder n usage p h = elim (Option-cases (Dict.lookup folder usage)) [
  | inl e ↦ absurd (ground arith)
  | inr (u, e) ↦ rw e (
      store_usage-IsCharged folder (record { entries = u.entries - 1; bytes = u.bytes - n - 1 })
        usage (ground arith) refl refl)
]

-- Charging one folder its new totals keeps the tables consistent.
IsCharged-IsConsistent :
    (folder : Text) (db : Db) (rows' : Dict Key Text) (usage' : Usages)
    → IsConsistent db
    → IsCharged folder (count_of folder rows') (bytes_of folder rows') db.usage usage'
    → ((f : Text)
        → (f == folder) ≡ false
        → (count_of f rows' ≡ count_of f db.rows) × (bytes_of f rows' ≡ bytes_of f db.rows))
    → IsConsistent (record { rows = rows'; usage = usage' })
IsCharged-IsConsistent folder db rows' usage' c charged others = record {
  entries = λ f. elim (Bool-cases (f == folder)) [
    | inl same ↦ rw ((==_iff f folder).0 same) charged.entries
    | inr other ↦ ground (arith, charged.others f other, others f other, c.entries f)
  ];
  bytes = λ f. elim (Bool-cases (f == folder)) [
    | inl same ↦ rw ((==_iff f folder).0 same) charged.bytes
    | inr other ↦ ground (arith, charged.others f other, others f other, c.bytes f)
  ];
  entries_le = λ f. elim (Bool-cases (f == folder)) [
    | inl same ↦ rw ((==_iff f folder).0 same) charged.entries_le
    | inr other ↦ ground (arith, others f other, c.entries_le f)
  ];
  bytes_le = λ f. elim (Bool-cases (f == folder)) [
    | inl same ↦ rw ((==_iff f folder).0 same) charged.bytes_le
    | inr other ↦ ground (arith, others f other, c.bytes_le f)
  ];
}

insert-others :
    (folder path raw : Text) (rows : Dict Key Text) (f : Text)
    → (f == folder) ≡ false
    → (count_of f (Dict.insert (folder, path) raw rows) ≡ count_of f rows)
      × (bytes_of f (Dict.insert (folder, path) raw rows) ≡ bytes_of f rows)
insert-others folder path raw rows f ne = (
  ground (arith, count-insert folder path raw f rows),
  ground (arith, bytes-insert folder path raw f rows),
)

pub self : (folder : Text) → (folder == folder) ≡ true
self folder = (==_iff folder folder).1 refl

-- A row for a new key, charged as an insertion.
pub new_row-IsConsistent :
    (folder path raw : Text) (db : Db) {usage' : Usages}
    → IsConsistent db
    → Dict.lookup (folder, path) db.rows ≡ none
    → entries_insert folder (length raw) db.usage ≡ ok usage'
    → IsConsistent (record { rows = Dict.insert (folder, path) raw db.rows; usage = usage' })
new_row-IsConsistent folder path raw db {usage'} c fresh h =
    let count = rw fresh at (count-insert folder path raw folder db.rows) in
    let bytes = rw fresh at (bytes-insert folder path raw folder db.rows) in
    let charged = entries_insert-IsCharged folder (length raw) db.usage h in
    IsCharged-IsConsistent folder db _ usage' c
      (subst₂ (λ n b. IsCharged folder n b db.usage usage')
        (ground (arith, count, c.entries folder, self folder))
        (ground (arith, bytes, c.bytes folder, self folder)) charged)
      (insert-others folder path raw db.rows)

-- A new manifest for an old key, charged as an update.
old_row-IsConsistent :
    (folder path raw old : Text) (db : Db) {usage' : Usages}
    → IsConsistent db
    → Dict.lookup (folder, path) db.rows ≡ some old
    → entries_update folder (length raw) (length old) db.usage ≡ ok usage'
    → IsConsistent (record { rows = Dict.insert (folder, path) raw db.rows; usage = usage' })
old_row-IsConsistent folder path raw old db {usage'} c e h =
    let count = rw e at (count-insert folder path raw folder db.rows) in
    let bytes = rw e at (bytes-insert folder path raw folder db.rows) in
    let least = rw e at (count-le folder path raw folder db.rows) in
    let charged =
      entries_update-IsCharged folder (length raw) (length old) db.usage
        (ground (arith, least, c.entries folder, self folder)) h in
    IsCharged-IsConsistent folder db _ usage' c
      (subst₂ (λ n b. IsCharged folder n b db.usage usage')
        (ground (arith, count, c.entries folder, self folder))
        (ground (arith, bytes, c.bytes folder, self folder)) charged)
      (insert-others folder path raw db.rows)

-- Every upsert that succeeds keeps the totals true and within the limits.
pub upsert-IsConsistent :
    (folder path raw : Text) (db : Db) {db' : Db}
    → IsConsistent db
    → upsert folder path raw db ≡ ok db'
    → IsConsistent db'
unfolding upsert
upsert-IsConsistent folder path raw db {db'} c h =
    elim (Option-cases (Dict.lookup (folder, path) db.rows)) [
      | inl fresh ↦
          let (u, p, q) =
            bind-eq-ok (entries_insert folder (length raw) db.usage) _ (rw (fresh, upsert) at h) in
          subst IsConsistent (ok-injective q) (new_row-IsConsistent folder path raw db c fresh p)
      | inr (old, e) ↦
          let (u, p, q) =
            bind-eq-ok (entries_update folder (length raw) (length old) db.usage) _
              (rw (e, upsert) at h) in
          subst IsConsistent (ok-injective q) (old_row-IsConsistent folder path raw old db c e p)
    ]
