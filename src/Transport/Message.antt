-- ===== src/Transport/Message.antt =====
-- The control messages of internal/transport/transport.go and how they go over the wire.
use backuply.Base.{ℕ, ◌*◌, Option, none, some, [], length}
use backuply.Base.Int.{ℤ, pos}
use backuply.Base.Result.{Result, ok, err}
use backuply.Text.{Text}
use backuply.Model.{Block, Entry}
use backuply.Transport.Conn.{Io, Error, bad_json, pure, lift, ◌>>=◌, ◌>>◌, step}
use backuply.Transport.Frame.{read_frame, write_frame}

abbrev pub version : ℕ
version = 1

abbrev pub max_control : ℕ
max_control = 4 * 1048576

abbrev pub max_index_bytes : ℕ
max_index_bytes = 64 * 1048576

abbrev pub max_entries : ℕ
max_entries = 100000

pub record Message : Type 0 where
  pub kind : Text
  pub version : ℤ
  pub folder : Text
  pub path : Text
  pub hash : Text
  pub block : Option Block
  pub entry : Option Entry
  pub error : Text

-- A message with its kind only
abbrev pub message : Text → Message
message kind = record {
  kind = kind;
  version = pos 0;
  folder = [];
  path = [];
  hash = [];
  block = none;
  entry = none;
  error = [];
}

-- encoding/json on messages, and the checksum of a block
pub record Format : Type 0 where
  pub marshal : Message → Text
  pub unmarshal : Text → Option Message
  pub hash_bytes : Text → Text

or_bad_json : Option Message → Result Error Message
or_bad_json none = err bad_json
or_bad_json (some m) = ok m

module _ (f : Format) where
  -- `wire.read`: the message, and the bytes that its frame held
  unfoldable pub read : Io (Message × ℕ)
  unfolding or_bad_json
  read = do
    b ← read_frame max_control
    msg ← lift (or_bad_json (f.unmarshal b))
    pure (msg, length b)

  -- `wire.write`
  unfoldable pub write : Message → Io ℕ
  write msg = do write_frame (f.marshal msg) max_control; pure (length (f.marshal msg))

  -- `wire.send`, which flushes
  unfoldable pub send : Message → Io (Unit {0})
  send msg = do n ← write msg; step
