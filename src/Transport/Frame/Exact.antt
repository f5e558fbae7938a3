-- ===== src/Transport/Frame/Exact.antt =====
-- A frame that was written is read back, whatever follows it, and what is read was a whole frame.
use backuply.Base.{
  ℕ, ◌%◌, ◌^◌, ◌≤◌, ◌<◌, ◌≡◌, refl, sym, ap, ◌∙◌, arith, true, ◌&&◌, not, [], ◌∷◌, ◌++◌, ◌=ℕ◌, leb,
  length, take, drop, length-append, append_assoc, Bool-cases, inl, inr, take-append-drop,
  length-take,
}
use backuply.Base.Result.{ok, ok-injective}
use backuply.Text.{Text}
use backuply.Transport.Conn.{Conn, bad_frame_size, ◌>>=◌, step, read_full, write_all}
use backuply.Transport.Conn.Inversion.{bind-ok, require-ok}
use backuply.Transport.Frame.{put_uint32, uint32, read_frame, write_frame}

-- A connection on which no call fails.
abbrev pub conn : Text → Text → Conn
conn input output = record { input = input; output = output; faults = [] }

abbrev pub frame : Text → Text
frame payload = put_uint32 (length payload) ++ payload

take-append : (xs ys : Text) → take (length xs) (xs ++ ys) ≡ xs
take-append [] ys = refl
take-append (x ∷ xs) ys = ap (λ zs. x ∷ zs) (take-append xs ys)

drop-append : (xs ys : Text) → drop (length xs) (xs ++ ys) ≡ ys
drop-append [] ys = refl
drop-append (x ∷ xs) ys = drop-append xs ys

uint32-put_uint32 : (n : ℕ) → n < 2 ^ 32 → uint32 (put_uint32 n) ≡ n
unfolding put_uint32 uint32
uint32-put_uint32 n h = omega arith

length-put_uint32 : (n : ℕ) → length (put_uint32 n) ≡ 4
unfolding put_uint32
length-put_uint32 n = refl

read_full_lem :
    (n : ℕ) (b rest o : Text)
    → length b ≡ n
    → read_full n (conn (b ++ rest) o) ≡ (ok b, conn rest o)
unfolding read_full step ◌>>=◌
read_full_lem n b rest o h =
    rw (sym h, drop-append b rest, take-append b rest) (ground (arith, length-append {0} b rest))

write_all_lem : (b i o : Text) → write_all b (conn i o) ≡ (ok tt, conn i (o ++ b))
unfolding write_all step ◌>>=◌
write_all_lem b i o = refl

pub write_frame_lem :
    (limit : ℕ) (b i o : Text)
    → 0 < length b
    → length b ≤ limit
    → limit < 2 ^ 32
    → write_frame b limit (conn i o) ≡ (ok tt, conn i (o ++ frame b))
unfolding write_frame ◌>>=◌
write_frame_lem limit b i o p l m =
    let fits : (not (length b =ℕ 0) && leb (length b) limit) ≡ true = ground arith in
    let whole : length b % 2 ^ 32 ≡ length b = omega arith in
    rw
      (
        fits,
        whole,
        write_all_lem (put_uint32 (length b)) i o,
        write_all_lem b i (o ++ put_uint32 (length b)),
      )
      (ap (λ x. (ok tt, conn i x)) (append_assoc o (put_uint32 (length b)) b))

pub read_frame_lem :
    (limit : ℕ) (b rest o : Text)
    → 0 < length b
    → length b ≤ limit
    → limit < 2 ^ 32
    → read_frame limit (conn (frame b ++ rest) o) ≡ (ok b, conn rest o)
unfolding read_frame ◌>>=◌
read_frame_lem limit b rest o p l m =
    let fits : (not (length b =ℕ 0) && leb (length b) limit) ≡ true = ground arith in
    rw
      (
        append_assoc {0} (put_uint32 (length b)) b rest,
        read_full_lem 4 (put_uint32 (length b)) (b ++ rest) o (length-put_uint32 (length b)),
        uint32-put_uint32 (length b) (omega arith),
        fits,
      )
      (read_full_lem (length b) b rest o refl)

-- What is read, in full, is what stood at the head of the input.
read_full_ok :
    (n : ℕ) (i o b : Text) (w : Conn)
    → read_full n (conn i o) ≡ (ok b, w)
    → (i ≡ b ++ w.input) × (length b ≡ n) × (w ≡ conn w.input o)
unfolding read_full step ◌>>=◌
read_full_ok n i o b w h = elim (Bool-cases (leb n (length i))) [
  | inl enough ↦
      let read = rw enough at h in
      let head : take n i ≡ b = ok-injective (ap (λ x. x.0) read) in
      let after : conn (drop n i) o ≡ w = ap (λ x. x.1) read in
      (
        sym (take-append-drop n i)
            ∙ (ap (λ x. x ++ drop n i) head ∙ ap (λ x. b ++ x) (ap (λ x. x.input) after)),
        ap length (sym head) ∙ (length-take n i ∙ ground (arith, enough)),
        sym after ∙ ap (λ x. conn x o) (ap (λ x. x.input) after),
      )
  | inr short ↦ let none = rw short at h in cc
]

-- What is read as a frame, where no call fails, stood in the input behind four bytes that give its
-- length; it is not empty and within the limit, and what follows it stays to be read.
pub read_frame_ok :
    (limit : ℕ) (i o b : Text) (w : Conn)
    → read_frame limit (conn i o) ≡ (ok b, w)
    → (header : Text) × (i ≡ header ++ (b ++ w.input))
      × (length header ≡ 4)
      × (uint32 header ≡ length b)
      × (0 < length b)
      × (length b ≤ limit)
      × (w ≡ conn w.input o)
unfolding read_frame ◌>>=◌
read_frame_ok limit i o b w h =
    let (header, w1, read, k) = bind-ok (read_full 4) _ (conn i o) h in
    let (start, four, left) = read_full_ok 4 i o header w1 read in
    let (fits, k2) =
      require-ok (not (uint32 header =ℕ 0) && leb (uint32 header) limit) bad_frame_size
        (λ _. read_full (uint32 header)) w1 k in
    let left2 : read_full (uint32 header) (conn w1.input o) ≡ (ok b, w) = rw (sym left) k2 in
    let (rest, size, after) = read_full_ok (uint32 header) w1.input o b w left2 in
    (header, start ∙ ap (λ x. header ++ x) rest, four, sym size, ground arith, ground arith, after)

-- Where no call fails, a payload of allowed size that is written as a frame is read back from the bytes written, whatever
-- follows them, and what follows stays to be read.
pub write_frame-read_frame :
    (limit : ℕ) (payload i rest o : Text)
    → 0 < length payload
    → length payload ≤ limit
    → limit < 2 ^ 32
    → (out : Text) × (write_frame payload limit (conn i []) ≡ (ok tt, conn i out))
      × (read_frame limit (conn (out ++ rest) o) ≡ (ok payload, conn rest o))
write_frame-read_frame limit payload i rest o p l m = (
  frame payload,
  write_frame_lem limit payload i [] p l m,
  read_frame_lem limit payload rest o p l m,
)
