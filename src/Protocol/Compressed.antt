-- ===== src/Protocol/Compressed.antt =====
-- What the users of zstd share: the flag and the limits of src/common/protocol.h, and the functions of the
-- library that src/common/zstd_utils.h wraps, as a parameter. `none` is an error, and also a content size
-- that is not known.
use cfrp.Base.{
  ℕ, ◌+◌, ◌*◌, ◌%◌, ◌^◌, ◌<◌, ◌≡◌, List, Option, some, Bool, true, false, if◌then◌else◌, leb,
  length, arith,
}

pub record Zstd : Type 0 where
  pub compress : List ℕ → Option (List ℕ)
  pub content_size : List ℕ → Option ℕ
  -- With the capacity of the destination.
  pub decompress : ℕ → List ℕ → Option (List ℕ)

-- What is compressed names its size, and is restored into a buffer of that size.
abbrev pub Restores : Zstd → Type 0
Restores z =
    (x c : List ℕ)
    → z.compress x ≡ some c
    → (z.content_size c ≡ some (length x)) × (z.decompress (length x) c ≡ some x)

abbrev pub compression_flag : ℕ
compression_flag = 0x80000000

abbrev pub max_message_size : ℕ
max_message_size = 1024 * 1024

abbrev pub max_decompressed_size : ℕ
max_decompressed_size = 16 * 1024 * 1024

-- `length | COMPRESSION_FLAG`, for a `uint32_t`
abbrev pub flagged : ℕ → ℕ
flagged n = compression_flag + n % compression_flag

-- What a length becomes, with the flag in its highest bit.
abbrev pub length_word : Bool → ℕ → ℕ
length_word is_compressed n = if is_compressed then compression_flag + n else n

pub length_word_lem :
    (f : Bool) (v n : ℕ)
    → v ≡ length_word f n
    → n < compression_flag
    → (v < 2 ^ 32) × ((v % compression_flag ≡ n) × (leb compression_flag v ≡ f))
length_word_lem true v n e lt =
    (omega (arith, e, lt), (omega (arith, e, lt), ground (arith, e, lt)))
length_word_lem false v n e lt =
    (omega (arith, e, lt), (omega (arith, e, lt), ground (arith, e, lt)))
