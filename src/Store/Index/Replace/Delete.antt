-- ===== src/Store/Index/Replace/Delete.antt =====
-- Deleting a folder's rows never fails, and leaves every other folder as it was.
use backuply.Base.{
  ℕ, ◌+◌, ◌-◌, ◌≤◌, ◌≡◌, refl, sym, ap, ◌∙◌, arith, inl, inr, true, false, none, some, [], ◌∷◌,
  length, text_eq, ◌==◌, if◌then◌else◌, Bool-cases,
}
use backuply.Base.Dict
use backuply.Base.Dict.{Dict}
use backuply.Base.Result.{ok}
use backuply.Text.{Text}
use backuply.Store.Limits.{max_entries}
use backuply.Store.Index.{
  Key, Usages, key_eq, store_usage, entries_delete, entries_or_0, bytes_or_0, max_usage_bytes,
  delete_rows,
}
use backuply.Store.Index.Totals.{count_of, bytes_of, self}

-- The rows of the other folders.
pub without : Text → Dict Key Text → Dict Key Text
without folder [] = []
without folder (((f, path), raw) ∷ rows) =
    let rest = without folder rows in if folder == f then rest else ((f, path), raw) ∷ rest

pub lookup-without :
    (folder : Text) (key : Key) (rows : Dict Key Text)
    → Dict.lookup key (without folder rows)
      ≡ (if folder == key.0 then none else Dict.lookup key rows)
unfolding without Dict.lookup
lookup-without folder (g, p) [] = ground arith
lookup-without folder (g, p) (((f, path), raw) ∷ rows) =
    ground (arith, lookup-without folder (g, p) rows)

pub count_of-without :
    (folder f : Text) (rows : Dict Key Text)
    → count_of f (without folder rows) ≡ (if f == folder then 0 else count_of f rows)
unfolding without Dict.total
count_of-without folder f [] = ground arith
count_of-without folder f (((g, path), raw) ∷ rows) = ground (arith, count_of-without folder f rows)

pub bytes_of-without :
    (folder f : Text) (rows : Dict Key Text)
    → bytes_of f (without folder rows) ≡ (if f == folder then 0 else bytes_of f rows)
unfolding without Dict.total
bytes_of-without folder f [] = ground arith
bytes_of-without folder f (((g, path), raw) ∷ rows) = ground (arith, bytes_of-without folder f rows)

pub record IsCleared (folder : Text) (old new : Usages) : Type 0 where
  pub entries : entries_or_0 (Dict.lookup folder new) ≡ 0
  pub bytes : bytes_or_0 (Dict.lookup folder new) ≡ 0
  pub others : (f : Text) → (f == folder) ≡ false → Dict.lookup f new ≡ Dict.lookup f old

entries_delete_fits :
    (folder : Text) (n : ℕ) (usage : Usages)
    → 1 ≤ entries_or_0 (Dict.lookup folder usage)
    → n + 1 ≤ bytes_or_0 (Dict.lookup folder usage)
    → entries_or_0 (Dict.lookup folder usage) ≤ max_entries
    → bytes_or_0 (Dict.lookup folder usage) ≤ max_usage_bytes
    → entries_delete folder n usage
      ≡ ok (
          Dict.insert folder
            (record {
              entries = entries_or_0 (Dict.lookup folder usage) - 1;
              bytes = bytes_or_0 (Dict.lookup folder usage) - n - 1;
            })
            usage)
unfolding entries_delete store_usage
entries_delete_fits folder n usage p q r s = ground arith

-- The usage table after the deletion of one row of `n` bytes.
charge_delete : Text → ℕ → Usages → Usages
charge_delete folder n usage =
    Dict.insert folder
      (record {
        entries = entries_or_0 (Dict.lookup folder usage) - 1;
        bytes = bytes_or_0 (Dict.lookup folder usage) - n - 1;
      })
      usage

lookup-charge_delete :
    (folder g : Text) (n : ℕ) (usage : Usages)
    → Dict.lookup g (charge_delete folder n usage) ≡ (
        if g == folder
        then some (record {
          entries = entries_or_0 (Dict.lookup folder usage) - 1;
          bytes = bytes_or_0 (Dict.lookup folder usage) - n - 1;
        })
        else Dict.lookup g usage)
unfolding charge_delete
lookup-charge_delete folder g n usage = Dict.lookup-insert g folder _ usage

without_same :
    (folder f path raw : Text) (rows : Dict Key Text)
    → (folder == f) ≡ true
    → without folder (((f, path), raw) ∷ rows) ≡ without folder rows
unfolding without
without_same folder f path raw rows h = rw h

delete_rows_same :
    (folder f path raw : Text) (rows : Dict Key Text) (usage : Usages)
    → (folder == f) ≡ true
    → 1 ≤ entries_or_0 (Dict.lookup folder usage)
    → length raw + 1 ≤ bytes_or_0 (Dict.lookup folder usage)
    → entries_or_0 (Dict.lookup folder usage) ≤ max_entries
    → bytes_or_0 (Dict.lookup folder usage) ≤ max_usage_bytes
    → delete_rows folder (((f, path), raw) ∷ rows) usage
      ≡ delete_rows folder rows (charge_delete folder (length raw) usage)
unfolding delete_rows charge_delete
delete_rows_same folder f path raw rows usage h p q r s =
    rw (h, entries_delete_fits folder (length raw) usage p q r s) refl

delete_rows_other :
    (folder f path raw : Text) (rows : Dict Key Text) (usage usage' : Usages)
    → (folder == f) ≡ false
    → delete_rows folder rows usage ≡ ok (record { rows = without folder rows; usage = usage' })
    → delete_rows folder (((f, path), raw) ∷ rows) usage
      ≡ ok (record { rows = without folder (((f, path), raw) ∷ rows); usage = usage' })
unfolding delete_rows without
delete_rows_other folder f path raw rows usage usage' h e = rw (h, e)

-- From true totals, the deletion succeeds.
pub delete_rows_lem :
    (folder : Text) (rows : Dict Key Text) (usage : Usages)
    → entries_or_0 (Dict.lookup folder usage) ≡ count_of folder rows
    → bytes_or_0 (Dict.lookup folder usage) ≡ bytes_of folder rows
    → count_of folder rows ≤ max_entries
    → bytes_of folder rows ≤ max_usage_bytes
    → (usage' : Usages) × (delete_rows folder rows usage
        ≡ ok (record { rows = without folder rows; usage = usage' }))
      × IsCleared folder usage usage'
unfolding Dict.total
delete_rows_lem folder [] usage n b n_le b_le = (
  usage,
  unfold delete_rows without in refl,
  record { entries = n; bytes = b; others = λ f ne. refl },
)
delete_rows_lem folder (((f, path), raw) ∷ rows) usage n b n_le b_le =
    elim (Bool-cases (folder == f)) [
      | inl same ↦
          let n1 : entries_or_0 (Dict.lookup folder usage) ≡ 1 + count_of folder rows =
            ground arith in
          let b1 : bytes_or_0 (Dict.lookup folder usage) ≡ length raw + 1 + bytes_of folder rows =
            ground arith in
          let put = lookup-charge_delete folder folder (length raw) usage in
          let (usage', done, cleared) =
            delete_rows_lem folder rows (charge_delete folder (length raw) usage)
              (ground (arith, self folder, put)) (ground (arith, self folder, put)) (ground arith)
              (ground arith) in
          (
            usage',
            delete_rows_same folder f path raw rows usage same (omega arith) (omega arith)
                  (ground arith) (ground arith)
                ∙ done
                ∙ ap (λ rs. ok (record { rows = rs; usage = usage' }))
                    (sym (without_same folder f path raw rows same)),
            record {
              entries = cleared.entries;
              bytes = cleared.bytes;
              others = λ g ne.
                  ground
                    (arith, cleared.others g ne, lookup-charge_delete folder g (length raw) usage);
            },
          )
      | inr other ↦
          let (usage', done, cleared) =
            delete_rows_lem folder rows usage (ground arith) (ground arith) (ground arith)
              (ground arith) in
          (usage', delete_rows_other folder f path raw rows usage usage' other done, cleared)
    ]
