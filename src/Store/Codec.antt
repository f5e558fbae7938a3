-- ===== src/Store/Codec.antt =====
-- What the store uses of encoding/json and crypto/sha256: a row's manifest is an entry's JSON, and a
-- checksum is the lower-case hexadecimal SHA-256 of some bytes.
use backuply.Base.{◌≡◌, true, Option, some}
use backuply.Base.Result.{ok}
use backuply.Text.{Text}
use backuply.Model.{Entry}
use backuply.Store.Validate.{valid_hash, validate_entry}

pub record Codec : Type 0 where
  pub marshal : Entry → Text
  pub unmarshal : Text → Option Entry
  pub hash_bytes : Text → Text

-- An entry is read back from its JSON if its path is UTF-8, as in every entry that is accepted, and
-- a checksum has the form of one.
pub record IsLawful (c : Codec) : Type 0 where
  pub unmarshal-marshal :
      (e : Entry) → validate_entry e ≡ ok tt → c.unmarshal (c.marshal e) ≡ some e
  pub valid_hash-hash_bytes : (b : Text) → valid_hash (c.hash_bytes b) ≡ true
