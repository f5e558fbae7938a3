-- ===== src/Transport/Exchange/Fetch.antt =====
-- A request for a block in internal/transport/transport.go, from the client's call to its result, on a
-- connection that does not fail.
use backuply.Base.{
  ℕ, ◌≤◌, ◌<◌, ◌≡◌, ◌≢◌, refl, ◌∙◌, arith, true, false, ◌&&◌, not, [], ◌++◌, length, leb, text_eq,
  ◌==◌, ==_iff, append_assoc,
}
use backuply.Base.Int.{pos}
use backuply.Base.Result.{ok}
use backuply.Text.{Text, codes}
use backuply.Model.{Block, block_size}
use backuply.Store.Validate.{is_pos}
use backuply.Transport.Conn.{◌>>=◌, step}
use backuply.Transport.Frame.Exact.{conn, frame, write_frame_lem, read_frame_lem}
use backuply.Transport.Message.{message, Format, read}
use backuply.Transport.Server.{
  Backend, answer_block, handle_block, handle_request, serve_request, valid_request, block_sized,
  is_natural,
}
use backuply.Transport.Client.{read_block, block_message, block_bytes}
use backuply.Transport.Exchange.{IsSendable, framed, write_lem, send_lem, read_lem}
use backuply.Transport.Exchange.Whole.{serve_request_lem}

module _ (folder path hash : Text) (b : Block) where
  is_block : ((block_message folder path hash b).kind == codes "block") ≡ true
  unfolding text_eq
  is_block = refl

  is_not_list : ((block_message folder path hash b).kind == codes "list") ≡ false
  unfolding text_eq
  is_not_list = refl

reply_not_error : ((message (codes "block")).kind == codes "error") ≡ false
unfolding text_eq
reply_not_error = refl

reply_is_block : ((message (codes "block")).kind == codes "block") ≡ true
unfolding text_eq
reply_is_block = refl

-- A request that a client may make and a server accepts.
pub record IsRequest (folder path hash : Text) (b : Block) : Type 0 where
  pub size : ℕ
  pub sized : b.size ≡ pos size
  pub some_bytes : 0 < size
  pub bounded : size ≤ block_size
  pub offset : ℕ
  pub placed : b.offset ≡ pos offset
  pub entry_hash : length hash ≡ 64
  pub block_hash : length b.hash ≡ 64
  pub named : folder ≢ []
  pub short_folder : length folder ≤ 256
  pub short_path : length path ≤ 4096

module _ (f : Format) (folder path hash : Text) (b : Block) (q : IsRequest folder path hash b) where
  is_valid : valid_request (block_message folder path hash b) b ≡ true
  unfolding valid_request
  is_valid =
      rw (q.sized, q.placed) (ground (arith, q.some_bytes, q.bounded, q.entry_hash, q.block_hash))

  module _ (found : Text) (size : b.size ≡ pos (length found))
      (answer : IsSendable f (message (codes "block"))) where
    length_found : length found ≡ q.size
    length_found = let e = q.sized in cc

    block_bytes_lem : block_bytes b.size ≡ length found
    unfolding block_bytes
    block_bytes_lem = rw size refl

    answer_lem :
        (i : Text)
        → answer_block f b (ok found) (conn i [])
          ≡ (ok tt, conn i (framed f (message (codes "block")) ++ frame found))
    unfolding answer_block step ◌>>=◌
    answer_lem i =
        let fits : is_pos b.size (length found) ≡ true = rw size (ground arith) in
        rw (
          fits,
          write_lem f (message (codes "block")) i [] answer,
          write_frame_lem block_size found i (framed f (message (codes "block")))
              (omega (arith, length_found, q.some_bytes)) (omega (arith, length_found, q.bounded))
              (omega arith),
        )

    handle_lem :
        (backend : Backend) (peer i : Text)
        → backend.read_block peer folder path hash b ≡ ok found
        → handle_request f backend peer (block_message folder path hash b) (conn i [])
          ≡ (ok tt, conn i (framed f (message (codes "block")) ++ frame found))
    unfolding handle_request handle_block ◌>>=◌
    handle_lem backend peer i read =
        let accepted : (not (folder == []) && leb (length folder) 256 && leb (length path) 4096)
            ≡ true =
          ground (arith, q.named, q.short_folder, q.short_path) in
        rw (accepted, is_not_list folder path hash b, is_block folder path hash b, is_valid, read)
          (answer_lem i)

    receive_block :
        (rest o : Text)
        → IsSendable f (block_message folder path hash b)
        → f.hash_bytes found ≡ b.hash
        → read_block f folder path hash b
            (conn ((framed f (message (codes "block")) ++ frame found) ++ rest) o)
          ≡ (ok found, conn rest (o ++ framed f (block_message folder path hash b)))
    unfolding read_block ◌>>=◌
    receive_block rest o asked same =
        let accepted : (block_sized b.size && is_natural b.offset) ≡ true =
          rw (q.sized, q.placed) (ground (arith, q.some_bytes, q.bounded)) in
        let fits : is_pos b.size (length found) ≡ true = rw size (ground arith) in
        let intact : (f.hash_bytes found == b.hash) ≡ true = (==_iff _ _).1 same in
        let bytes = block_bytes_lem in
        let n = length_found in
        rw (
          accepted,
          append_assoc {0} (framed f (message (codes "block"))) (frame found) rest,
          send_lem f (block_message folder path hash b)
              (framed f (message (codes "block")) ++ (frame found ++ rest)) o asked,
          read_lem f (message (codes "block")) (frame found ++ rest)
              (o ++ framed f (block_message folder path hash b)) answer,
          reply_not_error,
          reply_is_block,
          bytes,
          read_frame_lem (length found) found rest
              (o ++ framed f (block_message folder path hash b)) (omega (arith, q.some_bytes))
              (omega arith) (omega (arith, q.bounded)),
          fits,
          intact,
        )

-- On a connection that does not fail, a client that asks for a block gets the bytes that the
-- server's backend reads for it, and each side reads exactly what the other wrote, if the request
-- is one that both accept, the bytes have the size and the checksum that were asked for, and the
-- two messages are read back from their JSON.
pub block_exchange :
    (f : Format) (backend : Backend) (peer folder path hash : Text) (b : Block)
    (rest more found : Text)
    → IsRequest folder path hash b
    → backend.read_block peer folder path hash b ≡ ok found
    → b.size ≡ pos (length found)
    → f.hash_bytes found ≡ b.hash
    → IsSendable f (block_message folder path hash b)
    → IsSendable f (message (codes "block"))
    → (request : Text) × (reply : Text) × (read_block f folder path hash b (conn (reply ++ rest) [])
        ≡ (ok found, conn rest request))
      × (serve_request f backend peer (conn (request ++ more) []) ≡ (ok tt, conn more reply))
block_exchange f backend peer folder path hash b rest more found q read size same asked answer = (
  framed f (block_message folder path hash b),
  framed f (message (codes "block")) ++ frame found,
  receive_block f folder path hash b q found size answer rest [] asked same,
  serve_request_lem f backend peer (block_message folder path hash b) more asked
      ∙ handle_lem f folder path hash b q found size answer backend peer more read,
)
