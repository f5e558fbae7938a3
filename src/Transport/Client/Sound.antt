-- ===== src/Transport/Client/Sound.antt =====
-- What the client's operations return, whatever the peer sends.
use backuply.Base.{
  ℕ, zero, suc, ◌+◌, ◌≤◌, ◌≡◌, sym, ap, ◌∙◌, arith, true, none, some, List, [], ◌∷◌, ◌++◌, length,
  length-append, text_eq, ==_iff,
}
use backuply.Base.Int.{ℤ, pos}
use backuply.Base.Result.{ok}
use backuply.Text.{Text}
use backuply.Model.{Block, Entry, block_size}
use backuply.Store.Validate.Layout.{is_pos_iff}
use backuply.Transport.Conn.{Conn, Io, pure, fail}
use backuply.Transport.Conn.Inversion.{bind-ok, require-ok, pure-ok, fail-ok}
use backuply.Transport.Frame.{read_frame}
use backuply.Transport.Message.{Format, read, max_entries}
use backuply.Transport.Server.{block_sized}
use backuply.Transport.Client.{
  list, read_block, receive, on_response, Response, another, ended, refused, unexpected, response,
}

block_sized_le : (z : ℤ) (n : ℕ) → z ≡ pos n → block_sized z ≡ true → n ≤ block_size
block_sized_le z n e h = let k = rw e at h in ground (arith, k)

-- A block that `ReadBlock` returns has the size and the checksum that were asked for, whatever the
-- peer sends.
pub read_block_sound :
    (f : Format) (folder path hash : Text) (b : Block) (w : Conn) {found : Text} {w' : Conn}
    → read_block f folder path hash b w ≡ (ok found, w')
    → (b.size ≡ pos (length found)) × (length found ≤ block_size) × (f.hash_bytes found ≡ b.hash)
unfolding read_block
read_block_sound f folder path hash b w {found} {w'} h =
    let (asked, k1) = require-ok _ _ _ w h in
    let (_, w1, _, k2) = bind-ok _ _ w k1 in
    let (m, w2, _, k3) = bind-ok (read f) _ w1 k2 in
    let (_, k4) = require-ok _ _ _ w2 k3 in
    let (_, k5) = require-ok _ _ _ w2 k4 in
    let (d, w3, _, k6) = bind-ok (read_frame _) _ w2 k5 in
    let (sized, k7) = require-ok _ _ _ w3 k6 in
    let (same, k8) = require-ok _ _ _ w3 k7 in
    let whole = pure-ok d w3 k8 in
    let size : b.size ≡ pos (length found) =
      (is_pos_iff b.size (length d)).0 sized ∙ ap (λ x. pos (length x)) whole in
    (
      size,
      block_sized_le b.size (length found) size (ground (arith, asked)),
      ap f.hash_bytes (sym whole) ∙ (==_iff _ _).0 same,
    )

module _ (f : Format) where
  -- Another entry leads on, and every other response ends the loop.
  on_response_bound :
      (n : ℕ) (entries : List Entry) (next : Entry → Io (List Entry)) (r : Response) (w : Conn)
      → {es : List Entry} {w' : Conn} → ((e : Entry) → next e w ≡ (ok es, w') → length es ≤ n)
      → length entries ≤ n
      → on_response f entries next r w ≡ (ok es, w')
      → length es ≤ n
  unfolding on_response pure fail
  on_response_bound n entries next (another none) w k l h = cc
  on_response_bound n entries next (another (some e)) w k l h = k e h
  on_response_bound n entries next ended w k l h = rw (pure-ok entries w h) at l
  on_response_bound n entries next refused w k l h = cc
  on_response_bound n entries next unexpected w k l h = cc

  receive_bound :
      (room total : ℕ) (entries : List Entry) (w : Conn) {es : List Entry} {w' : Conn}
      → receive f room total entries w ≡ (ok es, w')
      → length es ≤ length entries + room
  unfolding receive
  receive_bound zero total entries w h =
      let (m, w1, _, k1) = bind-ok (read f) _ w h in
      let (_, k2) = require-ok _ _ _ w1 k1 in
      on_response_bound _ entries _ (response m.0) w1 (λ e x. absurd (fail-ok _ w1 x)) (omega arith)
        k2
  receive_bound (suc room) total entries w h =
      let (m, w1, _, k1) = bind-ok (read f) _ w h in
      let (_, k2) = require-ok _ _ _ w1 k1 in
      on_response_bound _ entries _ (response m.0) w1
        (λ e x. omega (
          arith,
          receive_bound room _ (entries ++ e ∷ []) w1 x,
          length-append {0} entries (e ∷ []),
        ))
        (omega arith) k2

-- `List` never returns more entries than the client takes from one peer.
pub list_bound :
    (f : Format) (folder : Text) (w : Conn) {es : List Entry} {w' : Conn}
    → list f folder w ≡ (ok es, w')
    → length es ≤ max_entries
unfolding list
list_bound f folder w h =
    let (_, w1, _, k) = bind-ok _ _ w h in receive_bound f max_entries 0 [] w1 k
