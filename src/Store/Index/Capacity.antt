-- ===== src/Store/Index/Capacity.antt =====
-- The budget check that `Apply` makes before it touches the folder agrees with the triggers.
use backuply.Base.{◌≡◌, arith, inl, inr, [], text_eq, Option-cases}
use backuply.Base.Dict
use backuply.Base.Result.{is_ok}
use backuply.Text.{Text}
use backuply.Model.{Entry}
use backuply.Store.Codec.{Codec}
use backuply.Store.Index.{Db, key_eq, upsert, put, check_capacity}
use backuply.Store.Index.Totals.{IsConsistent, count-le, bytes-le, self}

-- In a consistent index the check passes exactly if the write that it announces will succeed.
pub check_capacity-put :
    (c : Codec) (folder : Text) (e : Entry) (db : Db)
    → IsConsistent db
    → is_ok (check_capacity c folder e db) ≡ is_ok (put c folder e db)
unfolding check_capacity put upsert
check_capacity-put c folder e db k = elim (Option-cases (Dict.lookup (folder, e.path) db.rows)) [
  | inl fresh ↦ rw fresh (ground arith)
  | inr (old, found) ↦
      let one = rw found at (count-le folder e.path [] folder db.rows) in
      let bytes = rw found at (bytes-le folder e.path [] folder db.rows) in
      rw found (
        ground (
          arith,
          self folder,
          k.entries folder,
          k.bytes folder,
          k.entries_le folder,
          k.bytes_le folder,
          one,
          bytes,
        ))
]
