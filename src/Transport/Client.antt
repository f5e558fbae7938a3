-- ===== src/Transport/Client.antt =====
-- `Client.List` and `Client.ReadBlock` of internal/transport/transport.go. `operation` runs them one at
-- a time and closes the connection when one fails, so what is left of the input then is lost.
-- Its last check, which gives an error in place of the result when the context has ended meanwhile, is
-- left out: what is said here of a call is said of one whose context lasts.
pub mod Sound
use backuply.Base.{
  ℕ, zero, suc, ◌+◌, Bool, true, false, ◌&&◌, ◌||◌, not, Option, none, some, List, [], ◌∷◌, ◌++◌,
  ltb, leb, length, text_eq, ◌==◌, if◌then◌else◌,
}
use backuply.Base.Int.{ℤ, pos, negsuc}
use backuply.Text.{Text, codes}
use backuply.Model.{Block, Entry}
use backuply.Store.Validate.{is_pos}
use backuply.Transport.Conn.{
  Io, pure, fail, ◌>>=◌, ◌>>◌, require, too_much_metadata, invalid_index, rejected,
  unexpected_response, invalid_block, bad_block_length, block_mismatch,
}
use backuply.Transport.Frame.{read_frame}
use backuply.Transport.Message.{Message, message, Format, read, send, max_entries, max_index_bytes}
use backuply.Transport.Server.{block_sized, is_natural}

-- What the loop of `List` does with a message: another entry, the end, or an error.
pub data Response : Type 0 where
  another : Option Entry → Response
  ended refused unexpected : Response

unfoldable pub response : Message → Response
response msg =
    if msg.kind == codes "entry"
    then another msg.entry
    else if msg.kind == codes "end"
    then ended
    else if msg.kind == codes "error"
    then refused
    else unexpected

abbrev pub list_message : Text → Message
list_message folder = record (message (codes "list")) { folder = folder }

abbrev pub block_message : Text → Text → Text → Block → Message
block_message folder path hash b = record (message (codes "block")) {
  folder = folder;
  path = path;
  hash = hash;
  block = some b;
}

unfoldable pub block_bytes : ℤ → ℕ
block_bytes (pos n) = n
block_bytes (negsuc n) = 0

module _ (f : Format) where
  -- The switch in the loop, and what it does with another entry
  unfoldable pub on_response : List Entry → (Entry → Io (List Entry)) → Response → Io (List Entry)
  on_response entries next (another none) = fail invalid_index
  on_response entries next (another (some e)) = next e
  on_response entries next ended = pure entries
  on_response entries next refused = fail rejected
  on_response entries next unexpected = fail unexpected_response

  -- The loop of `List`: `room` more entries may come, and `total` bytes came.
  unfoldable pub receive : ℕ → ℕ → List Entry → Io (List Entry)
  unfolding on_response
  receive zero total entries = do
    (msg, n) ← read f
    require (leb (total + n) max_index_bytes) too_much_metadata
    on_response entries (λ e. fail invalid_index) (response msg)
  receive (suc room) total entries = do
    (msg, n) ← read f
    require (leb (total + n) max_index_bytes) too_much_metadata
    on_response entries (λ e. receive room (total + n) (entries ++ e ∷ [])) (response msg)

  unfoldable pub list : Text → Io (List Entry)
  list folder = do send f (list_message folder); receive max_entries 0 []

  unfoldable pub read_block : Text → Text → Text → Block → Io Text
  read_block folder path hash b = do
    require (block_sized b.size && is_natural b.offset) invalid_block
    send f (block_message folder path hash b)
    (msg, n) ← read f
    require (not (msg.kind == codes "error")) rejected
    require (msg.kind == codes "block") unexpected_response
    found ← read_frame (block_bytes b.size)
    require (is_pos b.size (length found)) bad_block_length
    require (f.hash_bytes found == b.hash) block_mismatch
    pure found
