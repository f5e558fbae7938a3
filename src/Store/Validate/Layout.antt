-- ===== src/Store/Validate/Layout.antt =====
-- What the block loop of `ValidateEntry` accepts, block by block.
use mathlib.Core.Path.{subst, subst₂}
use mathlib.Core.Option.{some-injective}
use backuply.Base.{
  ℕ, zero, suc, ◌+◌, ◌-◌, ◌*◌, ◌/◌, ◌≤◌, ◌<◌, ◌≡◌, ◌↔◌, refl, arith, true, List, [], ◌∷◌, length,
  get_elem?, min, some, All,
}
use backuply.Base.Int.{ℤ, pos, negsuc}
use backuply.Model.{Block, block_size}
use backuply.Store.Validate.{is_pos, valid_hash, valid_layout}

-- The block of a file of `size` bytes that begins at `start`.
pub record IsBlockAt (size start : ℕ) (b : Block) : Type 0 where
  pub offset : b.offset ≡ pos start
  pub length : b.size ≡ pos (min block_size (size - start))
  pub hash : valid_hash b.hash ≡ true

-- The blocks from the `i`-th on: the `i`-th begins at `i * block_size`.
abbrev pub IsLayout : ℕ → ℕ → List Block → Type 0
IsLayout size i [] = Unit
IsLayout size i (b ∷ bs) = IsBlockAt size (i * block_size) b × IsLayout size (i + 1) bs

abbrev pub block_count : ℕ → ℕ
block_count size = (size + block_size - 1) / block_size

pub is_pos_iff : (z : ℤ) (n : ℕ) → (is_pos z n ≡ true) ↔ (z ≡ pos n)
is_pos_iff (pos m) n = ground arith
is_pos_iff (negsuc m) n = ground arith

pub valid_layout_iff :
    (size i : ℕ) (bs : List Block)
    → i + length bs ≡ block_count size
    → (valid_layout size (min size (i * block_size)) bs ≡ true) ↔ IsLayout size i bs
unfolding valid_layout
valid_layout_iff size i [] h = (λ _. tt, λ _. refl)
valid_layout_iff size i (b ∷ bs) h =
    let n = min block_size (size - i * block_size) in
    let at : min size (i * block_size) ≡ i * block_size = omega arith in
    let after : i * block_size + n ≡ min size ((i + 1) * block_size) = omega arith in
    let rest = valid_layout_iff size (i + 1) bs (omega arith) in
    let o = is_pos_iff b.offset (i * block_size) in
    let l = is_pos_iff b.size n in
    rw (at, after)
      (
        λ t. (
          record {
            offset = o.0 (ground (arith, t));
            length = l.0 (ground (arith, t));
            hash = ground (arith, t);
          },
          rest.0 (ground (arith, t)),
        ),
        λ s.
            let t1 = o.1 s.0.offset in
            let t2 = l.1 s.0.length in let t3 = s.0.hash in let t4 = rest.1 s.1 in ground arith,
      )

-- Every block by its index.
pub IsLayout-get_elem? :
    (size i j : ℕ) (bs : List Block) {b : Block}
    → IsLayout size i bs
    → get_elem? bs j ≡ some b
    → IsBlockAt size ((i + j) * block_size) b
IsLayout-get_elem? size i j [] s e = cc
IsLayout-get_elem? size i zero (c ∷ bs) s e =
    subst₂ (λ k x. IsBlockAt size (k * block_size) x) (omega arith) (some-injective _ _ e) s.0
IsLayout-get_elem? size i (suc j) (c ∷ bs) {b} s e =
    subst (λ k. IsBlockAt size (k * block_size) b) (omega arith)
      (IsLayout-get_elem? size (i + 1) j bs s.1 e)

-- A transfer asks for at most one block's worth of bytes at a time, and never for none.
pub IsLayout-sizes :
    (size i : ℕ) (bs : List Block)
    → i + length bs ≡ block_count size
    → IsLayout size i bs
    → All (λ b. (n : ℕ) × (b.size ≡ pos n) × (0 < n) × (n ≤ block_size)) bs
IsLayout-sizes size i [] h s = tt
IsLayout-sizes size i (b ∷ bs) h s = (
  (min block_size (size - i * block_size), s.0.length, omega arith, omega arith),
  IsLayout-sizes size (i + 1) bs (omega arith) s.1,
)

-- The sizes of the blocks, together.
pub total_size : List Block → ℕ
total_size [] = 0
total_size (b ∷ bs) = elim b.size [ pos n ↦ n | negsuc n ↦ 0 ] + total_size bs

pub total_size_lem :
    (size i : ℕ) (bs : List Block)
    → i + length bs ≡ block_count size
    → IsLayout size i bs
    → min size (i * block_size) + total_size bs ≡ size
unfolding total_size
total_size_lem size i [] h s = omega arith
total_size_lem size i (b ∷ bs) h s =
    rw s.0.length (omega (arith, total_size_lem size (i + 1) bs (omega arith) s.1))
