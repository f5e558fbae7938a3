-- ===== src/Transport/Exchange/Whole.antt =====
-- A whole request of internal/transport/transport.go: the client's side, the server's side, and the
-- bytes between them, on a connection that does not fail.
use backuply.Base.{
  ℕ, ◌≤◌, ◌≡◌, ◌≢◌, refl, ◌∙◌, arith, true, false, ◌&&◌, not, List, [], ◌++◌, length, leb, ltb,
  text_eq, ◌==◌, All,
}
use backuply.Base.Result.{ok}
use backuply.Text.{Text, codes}
use backuply.Model.{Entry}
use backuply.Transport.Conn.{◌>>=◌, step}
use backuply.Transport.Frame.Exact.{conn}
use backuply.Transport.Message.{Message, message, Format, max_entries, max_index_bytes}
use backuply.Transport.Server.{Backend, entry_message, answer_list, handle_request, serve_request}
use backuply.Transport.Client.{list, list_message}
use backuply.Transport.Exchange.{
  IsSendable, framed, metadata, stream, send_lem, read_lem, send_entries_lem, receive_lem,
}

is_list : (folder : Text) → ((list_message folder).kind == codes "list") ≡ true
unfolding text_eq
is_list folder = refl

module _ (f : Format) (backend : Backend) (peer : Text) where
  pub serve_request_lem :
      (m : Message) (more : Text)
      → IsSendable f m
      → serve_request f backend peer (conn (framed f m ++ more) [])
        ≡ handle_request f backend peer m (conn more [])
  unfolding serve_request step ◌>>=◌
  serve_request_lem m more s = rw (read_lem f m more [] s)

  handle_list :
      (folder i : Text) (es : List Entry)
      → folder ≢ []
      → length folder ≤ 256
      → backend.list peer folder ≡ ok es
      → length es ≤ max_entries
      → All (λ e. IsSendable f (entry_message e)) es
      → IsSendable f (message (codes "end"))
      → metadata f es ≤ max_index_bytes
      → handle_request f backend peer (list_message folder) (conn i [])
        ≡ (ok tt, conn i (stream f es))
  unfolding handle_request answer_list ◌>>=◌
  handle_list folder i es ne short listed few sendable ending fits =
      let accepted : (not (folder == []) && leb (length folder) 256 && leb (length {A = ℕ} []) 4096)
          ≡ true =
        ground arith in
      let room : ltb max_entries (length es) ≡ false = ground arith in
      rw (accepted, is_list folder, listed, room)
        (send_entries_lem f ending es 0 i [] sendable (omega arith))

-- On a connection that does not fail, a client that lists a folder gets the entries that the
-- server's backend lists for it, and each side reads exactly what the other wrote, if the server
-- accepts the folder's name, every message fits its frame and is read back from its JSON, and the
-- list with its end is within the limits of an index.
pub list_exchange :
    (f : Format) (backend : Backend) (peer folder rest more : Text) (es : List Entry)
    → folder ≢ []
    → length folder ≤ 256
    → backend.list peer folder ≡ ok es
    → length es ≤ max_entries
    → All (λ e. IsSendable f (entry_message e)) es
    → IsSendable f (message (codes "end"))
    → IsSendable f (list_message folder)
    → metadata f es ≤ max_index_bytes
    → (request : Text) × (reply : Text) × (list f folder (conn (reply ++ rest) [])
        ≡ (ok es, conn rest request))
      × (serve_request f backend peer (conn (request ++ more) []) ≡ (ok tt, conn more reply))
unfolding list ◌>>=◌
list_exchange f backend peer folder rest more es ne short listed few sendable ending asked fits = (
  framed f (list_message folder),
  stream f es,
  rw (send_lem f (list_message folder) (stream f es ++ rest) [] asked) (
      receive_lem f ending es max_entries 0 [] rest (framed f (list_message folder)) sendable few
        (omega arith)),
  serve_request_lem f backend peer (list_message folder) more asked
      ∙ handle_list f backend peer folder more es ne short listed few sendable ending fits,
)
