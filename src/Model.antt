-- ===== src/Model.antt =====
-- internal/model/model.go: blocks, entries and transfer statistics. An `int64` or `int` field is an
-- integer where it is decoded from what a peer sends; the statistics are counted, in 64 bits. `mode` is a
-- `uint32`.
use backuply.Base.{ℕ, ◌+◌, ◌*◌, ◌%◌, ◌^◌, List, Eq, text_eq, Text_discrete}
use backuply.Base.Int.{ℤ, ℤ_discrete}
use backuply.Text.{Text, codes}

abbrev pub block_size : ℕ
block_size = 256 * 1024

pub record Block : Type 0 where
  pub offset : ℤ
  pub size : ℤ
  pub hash : Text

pub record Entry : Type 0 where
  pub path : Text
  pub kind : Text
  pub size : ℤ
  pub mode : ℕ
  pub hash : Text
  pub blocks : List Block

-- An `int64`, by its 64 bits in two's complement; addition wraps around.
abbrev pub int64 : ℕ → ℕ
int64 n = n % 2 ^ 64

abbrev pub add_int64 : ℕ → ℕ → ℕ
add_int64 a b = int64 (a + b)

pub record Stats : Type 0 where
  pub files : ℕ
  pub bytes_received : ℕ
  pub bytes_reused : ℕ

abbrev pub no_stats : Stats
no_stats = record { files = 0; bytes_received = 0; bytes_reused = 0 }

-- The two kinds of an entry.
abbrev pub file : Text
file = codes "file"

abbrev pub directory : Text
directory = codes "directory"

instance unfoldable pub int_eq : Eq ℤ
unfolding ℤ_discrete
int_eq = record { dec = ℤ_discrete }

unfoldable pub Block_discrete : Discrete Block
unfolding ℤ_discrete Text_discrete
Block_discrete = hlevel (ℤ_discrete, Text_discrete)

instance unfoldable pub block_eq : Eq Block
unfolding Block_discrete
block_eq = record { dec = Block_discrete }

unfoldable pub Blocks_discrete : Discrete (List Block)
unfolding Block_discrete
Blocks_discrete = hlevel Block_discrete

instance unfoldable pub blocks_eq : Eq (List Block)
unfolding Blocks_discrete
blocks_eq = record { dec = Blocks_discrete }
