-- ===== src/Transport/Server.antt =====
-- `handleRequest` and `sendError` of internal/transport/transport.go.
use backuply.Base.{
  ℕ, ◌+◌, Bool, true, false, ◌&&◌, not, Option, none, some, List, [], ◌∷◌, ◌=ℕ◌, ltb, leb, length,
  text_eq, ◌==◌, if◌then◌else◌,
}
use backuply.Base.Int.{ℤ, pos, negsuc}
use backuply.Base.Result.{Result, ok, err}
use backuply.Text.{Text, codes}
use backuply.Model.{Block, Entry, block_size}
use backuply.Store.Validate.{is_pos}
use backuply.Transport.Conn.{
  Io, Error, fail, ◌>>=◌, ◌>>◌, require, step, invalid_request, too_much_metadata, unknown_request,
}
use backuply.Transport.Frame.{write_frame}
use backuply.Transport.Message.{
  Message, message, Format, read, write, send, max_entries, max_index_bytes,
}

-- What a server asks of its owner, which authorizes the peer first.
pub record Backend : Type 0 where
  pub list : Text → Text → Result Error (List Entry)
  pub read_block : Text → Text → Text → Text → Block → Result Error Text

abbrev pub error_message : Message
error_message = record (message (codes "error")) { error = codes "request rejected" }

abbrev pub entry_message : Entry → Message
entry_message e = record (message (codes "entry")) { entry = some e }

-- `0 < z && z <= model.BlockSize`
abbrev pub block_sized : ℤ → Bool
block_sized (pos n) = ltb 0 n && leb n block_size
block_sized (negsuc n) = false

abbrev pub is_natural : ℤ → Bool
is_natural (pos n) = true
is_natural (negsuc n) = false

-- A request for a block, as far as it can be checked before the backend is asked.
unfoldable pub valid_request : Message → Block → Bool
valid_request request b =
    block_sized b.size && is_natural b.offset && length request.hash =ℕ 64 && length b.hash =ℕ 64

module _ (f : Format) where
  -- `sendError`: every error is answered alike
  unfoldable pub send_error : Error → Io (Unit {0})
  send_error _ = send f error_message

  -- The loop over the entries, `total` bytes in
  unfoldable pub send_entries : List Entry → ℕ → Io (Unit {0})
  send_entries [] total = send f (message (codes "end"))
  send_entries (e ∷ es) total = do
    step
    n ← write f (entry_message e)
    require (leb (total + n) max_index_bytes) too_much_metadata
    send_entries es (total + n)

  unfoldable pub answer_list : Result Error (List Entry) → Io (Unit {0})
  answer_list (err x) = send_error x
  answer_list (ok es) =
      if ltb max_entries (length es) then send f error_message else send_entries es 0

  unfoldable pub answer_block : Block → Result Error Text → Io (Unit {0})
  answer_block b (err x) = send_error x
  answer_block b (ok found) =
      if is_pos b.size (length found)
      then (do n ← write f (message (codes "block")); write_frame found block_size; step)
      else send f error_message

  unfoldable pub handle_block : Backend → Text → Message → Option Block → Io (Unit {0})
  handle_block backend peer request none = fail invalid_request
  handle_block backend peer request (some b) = do
    require (valid_request request b) invalid_request
    answer_block b (backend.read_block peer request.folder request.path request.hash b)

  unfoldable pub handle_request : Backend → Text → Message → Io (Unit {0})
  handle_request backend peer request = do
    require
        (not (request.folder == [])
          && leb (length request.folder) 256
          && leb (length request.path) 4096)
        invalid_request
    if request.kind == codes "list"
        then answer_list (backend.list peer request.folder)
        else if request.kind == codes "block"
        then handle_block backend peer request request.block
        else fail unknown_request

  -- The body of the loop of `serveConn`: one request, between deadlines that are set.
  unfoldable pub serve_request : Backend → Text → Io (Unit {0})
  serve_request backend peer = do
    step
    (request, n) ← read f
    step
    handle_request backend peer request
