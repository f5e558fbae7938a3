-- ===== src/Transport/Session/Loop.antt =====
-- The request loop of `serveConn` ends, since each request takes some of what the peer has sent.
use backuply.Base.{
  ℕ, zero, suc, ◌+◌, ◌<◌, ◌≡◌, refl, ap, arith, Option, none, some, List, [], ◌∷◌, length, text_eq,
  ◌==◌,
}
use backuply.Base.Result.{Result, ok, err}
use backuply.Text.{Text, codes}
use backuply.Model.{Block, Entry}
use backuply.Store.Validate.{is_pos}
use backuply.Transport.Conn.{Conn, Error, Io, lift, ◌>>=◌, ◌>>◌, read_full}
use backuply.Transport.Conn.Reads.{
  Reads, Reads-first, Reads-later, Reads-pure, Reads-lift, Reads-fail, Reads-if, Reads-require,
  Reads-step, Reads-read_full, Reads-write_all,
}
use backuply.Transport.Frame.{read_frame, write_frame, uint32}
use backuply.Transport.Message.{Message, Format, read, write, send, max_control}
use backuply.Transport.Server.{
  Backend, send_error, send_entries, answer_list, answer_block, handle_block, handle_request,
  serve_request,
}
use backuply.Transport.Session.{serve_requests}

Reads-fewer : {A : Type 0} (m : Io A) (n : ℕ) → Reads n m → Reads 0 m
Reads-fewer m n p = record { run = λ w a w' h. let x = p.run w a w' h in omega (arith, x) }

Reads-read_frame : (limit : ℕ) → Reads 4 (read_frame limit)
unfolding read_frame
Reads-read_frame limit = Reads-first 4 (read_full 4) _ (Reads-read_full 4) (λ header.
    Reads-later 0 _ _ (Reads-require _ _) (λ _.
      Reads-fewer (read_full (uint32 header)) (uint32 header) (Reads-read_full (uint32 header))))

Reads-write_frame : (payload : Text) (limit : ℕ) → Reads 0 (write_frame payload limit)
unfolding write_frame
Reads-write_frame payload limit =
    Reads-later 0 _ _ (Reads-require _ _)
      (λ _. Reads-later 0 _ _ (Reads-write_all _) (λ _. Reads-write_all payload))

module _ (f : Format) where
  Reads-read : Reads 4 (read f)
  unfolding read
  Reads-read =
      Reads-first 4 _ _ (Reads-read_frame max_control)
        (λ b. Reads-later 0 _ _ (Reads-lift _) (λ m. Reads-pure _))

  Reads-write : (m : Message) → Reads 0 (write f m)
  unfolding write
  Reads-write m = Reads-later 0 _ _ (Reads-write_frame _ _) (λ _. Reads-pure _)

  Reads-send : (m : Message) → Reads 0 (send f m)
  unfolding send
  Reads-send m = Reads-later 0 _ _ (Reads-write m) (λ _. Reads-step)

  Reads-send_entries : (es : List Entry) (total : ℕ) → Reads 0 (send_entries f es total)
  unfolding send_entries
  Reads-send_entries [] total = Reads-send _
  Reads-send_entries (e ∷ es) total = Reads-later 0 _ _ Reads-step (λ _.
      Reads-later 0 _ _ (Reads-write _)
        (λ n. Reads-later 0 _ _ (Reads-require _ _) (λ _. Reads-send_entries es (total + n))))

  Reads-answer_list : (r : Result Error (List Entry)) → Reads 0 (answer_list f r)
  unfolding answer_list send_error
  Reads-answer_list (err x) = Reads-send _
  Reads-answer_list (ok es) = Reads-if 0 _ _ _ (Reads-send _) (Reads-send_entries es 0)

  Reads-answer_block : (b : Block) (r : Result Error Text) → Reads 0 (answer_block f b r)
  unfolding answer_block send_error
  Reads-answer_block b (err x) = Reads-send _
  Reads-answer_block b (ok found) =
      Reads-if 0 (is_pos b.size (length found)) _ _
        (Reads-later 0 _ _ (Reads-write _)
          (λ n. Reads-later 0 _ _ (Reads-write_frame _ _) (λ _. Reads-step)))
        (Reads-send _)

  module _ (backend : Backend) (peer : Text) where
    Reads-handle_block :
        (m : Message) (b : Option Block) → Reads 0 (handle_block f backend peer m b)
    unfolding handle_block
    Reads-handle_block m none = Reads-fail 0 _
    Reads-handle_block m (some b) =
        Reads-later 0 _ _ (Reads-require _ _) (λ _. Reads-answer_block b _)

    Reads-handle_request : (m : Message) → Reads 0 (handle_request f backend peer m)
    unfolding handle_request
    Reads-handle_request m = Reads-later 0 _ _ (Reads-require _ _) (λ _.
        Reads-if 0 (m.kind == codes "list") _ _ (Reads-answer_list _) (
          Reads-if 0 (m.kind == codes "block") _ _ (Reads-handle_block m m.block) (Reads-fail 0 _)))

    Reads-serve_request : Reads 4 (serve_request f backend peer)
    unfolding serve_request
    Reads-serve_request = Reads-later 4 _ _ Reads-step (λ _.
        Reads-first 4 _ _ Reads-read
          (λ x. Reads-later 0 _ _ Reads-step (λ _. Reads-handle_request x.0)))

    ends_after :
        (r : Result Error (Unit {0})) (rest : Io (Unit {0})) (w : Conn)
        → (r ≡ ok tt → (e : Error) × ((rest w).0 ≡ err e))
        → (e : Error) × (((lift r >> rest) w).0 ≡ err e)
    unfolding ◌>>=◌
    ends_after (ok tt) rest w k = k refl
    ends_after (err e) rest w k = (e, refl)

    -- The request loop ends with an error, whatever the peer has sent and whatever the backend returns, at
    -- the latest when there have been as many requests as bytes.
    pub serve_requests-ends :
        (rounds : ℕ) (w : Conn)
        → length w.input < rounds
        → (e : Error) × ((serve_requests f rounds backend peer w).0 ≡ err e)
    unfolding serve_requests ◌>>=◌
    serve_requests-ends zero w h = absurd (omega arith)
    serve_requests-ends (suc rounds) w h =
        ends_after (serve_request f backend peer w).0 (serve_requests f rounds backend peer)
          (serve_request f backend peer w).1
          (λ e.
            let taken =
              Reads-serve_request.run w tt (serve_request f backend peer w).1
                (ap (λ x. (x, (serve_request f backend peer w).1)) e) in
            serve_requests-ends rounds (serve_request f backend peer w).1 (omega (arith, taken)))
