-- ===== src/Protocol/Writer.antt =====
-- `BinaryWriter` (src/common/protocol.h): a method returns the bytes that it appends to `data_`,
-- so a sequence of calls is `++`. Texts are lists of bytes.
use cfrp.Base.{ℕ, ◌/◌, ◌%◌, ◌^◌, List, [], ◌∷◌, ◌++◌, length}
use cfrp.Protocol.Bytes.{net16, net32}

abbrev pub Text : Type 0
Text = List ℕ

pub write_uint8 : ℕ → List ℕ
write_uint8 v = (v % 256) ∷ []

unfoldable pub write_uint16 : ℕ → List ℕ
unfolding net16
write_uint16 v = net16 v

-- An `int64_t` is its bit pattern, below 2 ^ 64.
unfoldable pub write_int64 : ℕ → List ℕ
unfolding net32
write_int64 v = net32 (v / 2 ^ 32 % 2 ^ 32) ++ net32 (v % 2 ^ 32)

-- The length goes out as a `uint16_t`, the bytes all of them.
unfoldable pub write_string : Text → List ℕ
unfolding write_uint16
write_string s = write_uint16 (length s % 2 ^ 16) ++ s

unfoldable pub write_strings : List Text → List ℕ
write_strings [] = []
write_strings (s ∷ ss) = write_string s ++ write_strings ss

unfoldable pub write_string_vector : List Text → List ℕ
unfolding write_uint16
write_string_vector v = write_uint16 (length v % 2 ^ 16) ++ write_strings v
