-- ===== src/Transport/Frame.antt =====
-- `readFrame` and `writeFrame` of internal/transport/transport.go: a length of four bytes, the high
-- ones first, and then as many bytes.
pub mod Exact
use backuply.Base.{
  ℕ, ◌+◌, ◌*◌, ◌/◌, ◌%◌, ◌^◌, Bool, ◌&&◌, not, List, [], ◌∷◌, ◌++◌, ◌=ℕ◌, leb, length,
  if◌then◌else◌,
}
use backuply.Text.{Text}
use backuply.Transport.Conn.{
  Conn, Io, pure, ◌>>=◌, ◌>>◌, require, read_full, write_all, bad_frame_size, frame_too_long,
}

-- binary.BigEndian.PutUint32
unfoldable pub put_uint32 : ℕ → Text
put_uint32 n = n / 2 ^ 24 % 256 ∷ n / 2 ^ 16 % 256 ∷ n / 2 ^ 8 % 256 ∷ n % 256 ∷ []

-- binary.BigEndian.Uint32
unfoldable pub uint32 : Text → ℕ
uint32 [] = 0
uint32 (b ∷ bs) = b * 256 ^ length bs + uint32 bs

unfoldable pub read_frame : ℕ → Io Text
read_frame limit = do
  header ← read_full 4
  let n = uint32 header
  require (not (n =ℕ 0) && leb n limit) bad_frame_size
  read_full n

unfoldable pub write_frame : Text → ℕ → Io (Unit {0})
write_frame payload limit = do
  require (not (length payload =ℕ 0) && leb (length payload) limit) frame_too_long
  write_all (put_uint32 (length payload % 2 ^ 32))
  write_all payload
