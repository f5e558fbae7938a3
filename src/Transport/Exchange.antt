-- ===== src/Transport/Exchange.antt =====
-- Messages and lists of entries of internal/transport/transport.go on a connection that does not fail:
-- what one side writes, the other reads.
pub mod Whole
pub mod Fetch
use backuply.Base.{
  ℕ, zero, suc, ◌+◌, ◌≤◌, ◌<◌, ◌≡◌, ◌≢◌, refl, sym, ap, ◌∙◌, arith, Bool, true, false, ◌&&◌, not,
  Option, none, some, List, [], ◌∷◌, ◌++◌, length, leb, ltb, ◌=ℕ◌, text_eq, ◌==◌, if◌then◌else◌,
  All, append_assoc, append-nil,
}
use backuply.Base.Int.{ℤ, pos}
use backuply.Base.Result.{Result, ok, err}
use backuply.Text.{Text, codes}
use backuply.Model.{Block, Entry, block_size}
use backuply.Store.Validate.{is_pos}
use backuply.Transport.Conn.{Conn, Error, ◌>>=◌, step}
use backuply.Transport.Frame.{write_frame, read_frame}
use backuply.Transport.Frame.Exact.{conn, frame, write_frame_lem, read_frame_lem}
use backuply.Transport.Message.{
  Message, message, Format, read, write, send, max_control, max_entries, max_index_bytes,
}
use backuply.Transport.Server.{
  Backend, entry_message, error_message, send_entries, answer_list, answer_block, handle_block,
  handle_request, serve_request, valid_request,
}
use backuply.Transport.Client.{
  list, read_block, receive, on_response, response, another, ended, list_message, block_message,
}

-- A message that fits its frame and is read back from its JSON.
pub record IsSendable (f : Format) (m : Message) : Type 0 where
  pub decoded : f.unmarshal (f.marshal m) ≡ some m
  pub some_bytes : 0 < length (f.marshal m)
  pub short : length (f.marshal m) ≤ max_control

response_end : response (message (codes "end")) ≡ ended
unfolding response text_eq
response_end = refl

response_entry : (e : Entry) → response (entry_message e) ≡ another (some e)
unfolding response text_eq
response_entry e = refl

module _ (f : Format) where
  abbrev pub framed : Message → Text
  framed m = frame (f.marshal m)

  pub write_lem :
      (m : Message) (i o : Text)
      → IsSendable f m
      → write f m (conn i o) ≡ (ok (length (f.marshal m)), conn i (o ++ framed m))
  unfolding write ◌>>=◌
  write_lem m i o s =
      rw (write_frame_lem max_control (f.marshal m) i o s.some_bytes s.short (omega arith))

  pub send_lem :
      (m : Message) (i o : Text)
      → IsSendable f m
      → send f m (conn i o) ≡ (ok tt, conn i (o ++ framed m))
  unfolding send step ◌>>=◌
  send_lem m i o s = rw (write_lem m i o s)

  pub read_lem :
      (m : Message) (rest o : Text)
      → IsSendable f m
      → read f (conn (framed m ++ rest) o) ≡ (ok (m, length (f.marshal m)), conn rest o)
  unfolding read ◌>>=◌
  read_lem m rest o s = rw (
    read_frame_lem max_control (f.marshal m) rest o s.some_bytes s.short (omega arith),
    s.decoded,
  )

  -- What is sent for a list of entries, and the bytes that its messages take
  pub stream : List Entry → Text
  stream [] = framed (message (codes "end"))
  stream (e ∷ es) = framed (entry_message e) ++ stream es

  unfoldable pub metadata : List Entry → ℕ
  metadata [] = length (f.marshal (message (codes "end")))
  metadata (e ∷ es) = length (f.marshal (entry_message e)) + metadata es

  module _ (ending : IsSendable f (message (codes "end"))) where
    pub send_entries_lem :
        (es : List Entry) (total : ℕ) (i o : Text)
        → All (λ e. IsSendable f (entry_message e)) es
        → total + metadata es ≤ max_index_bytes
        → send_entries f es total (conn i o) ≡ (ok tt, conn i (o ++ stream es))
    unfolding send_entries metadata stream step ◌>>=◌
    send_entries_lem [] total i o s h = send_lem _ i o ending
    send_entries_lem (e ∷ es) total i o s h =
        let fits : leb (total + length (f.marshal (entry_message e))) max_index_bytes ≡ true =
          ground arith in
        rw (write_lem (entry_message e) i o s.0, fits)
          (send_entries_lem es (total + length (f.marshal (entry_message e))) i
              (o ++ framed (entry_message e)) s.1 (omega arith)
            ∙ ap (λ x. (ok tt, conn i x)) (append_assoc o (framed (entry_message e)) (stream es)))

    pub receive_lem :
        (es : List Entry) (room total : ℕ) (acc : List Entry) (rest o : Text)
        → All (λ e. IsSendable f (entry_message e)) es
        → length es ≤ room
        → total + metadata es ≤ max_index_bytes
        → receive f room total acc (conn (stream es ++ rest) o) ≡ (ok (acc ++ es), conn rest o)
    unfolding receive on_response metadata stream ◌>>=◌
    receive_lem [] zero total acc rest o s r h =
        let fits : leb (total + length (f.marshal (message (codes "end")))) max_index_bytes ≡ true =
          ground arith in
        rw (read_lem (message (codes "end")) rest o ending, fits, response_end)
          (ap (λ x. (ok x, conn rest o)) (sym (append-nil acc)))
    receive_lem [] (suc room) total acc rest o s r h =
        let fits : leb (total + length (f.marshal (message (codes "end")))) max_index_bytes ≡ true =
          ground arith in
        rw (read_lem (message (codes "end")) rest o ending, fits, response_end)
          (ap (λ x. (ok x, conn rest o)) (sym (append-nil acc)))
    receive_lem (e ∷ es) zero total acc rest o s r h = absurd (omega arith)
    receive_lem (e ∷ es) (suc room) total acc rest o s r h =
        let fits : leb (total + length (f.marshal (entry_message e))) max_index_bytes ≡ true =
          ground arith in
        rw
          (
            append_assoc {0} (framed (entry_message e)) (stream es) rest,
            read_lem (entry_message e) (stream es ++ rest) o s.0,
            fits,
            response_entry e,
          )
          (receive_lem es room (total + length (f.marshal (entry_message e))) (acc ++ e ∷ []) rest o
              s.1 (omega arith) (omega arith)
            ∙ ap (λ x. (ok x, conn rest o)) (append_assoc acc (e ∷ []) es))
