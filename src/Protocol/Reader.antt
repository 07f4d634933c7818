-- ===== src/Protocol/Reader.antt =====
-- `BinaryReader` (src/common/protocol.h): a state monad over the position, with exceptions.
use cfrp.Base.{
  ℕ, zero, suc, ◌+◌, ◌*◌, ◌%◌, ◌^◌, List, [], ◌∷◌, Option, none, some, ltb, if◌then◌else◌, length,
  get_elem?, take, drop,
}
use cfrp.Protocol.Bytes.{value16, value32}
use cfrp.Protocol.Result.{Result, ok, err, Error, buffer_overflow, out_of_range}
use cfrp.Protocol.Writer.{Text}

pub record Reader : Type 0 where
  pub bytes : List ℕ
  pub pos : ℕ

abbrev pub M : Type 0 → Type 0
M A = Reader → Result (A × Reader)

infixl 5 ◌>>=◌
abbrev pub ◌>>=◌ : {A B : Type 0} → M A → (A → M B) → M B
◌>>=◌ m f r = elim (m r) [ ok (a, r') ↦ f a r' | err e ↦ err e ]

abbrev pub return : {A : Type 0} → A → M A
return a r = ok (a, r)

abbrev pub throws : {A : Type 0} → Error → M A
throws e r = err e

abbrev or_throws : {A : Type 0} → Error → Option A → M A
or_throws e none = throws e
or_throws e (some a) = return a

-- The constructor: the position starts at 0.
abbrev pub start : List ℕ → Reader
start bytes = record { bytes = bytes; pos = 0 }

-- `data_.at(pos_++)`
unfoldable pub read_uint8 : M ℕ
read_uint8 r = or_throws out_of_range (get_elem? r.bytes r.pos) (record r { pos = r.pos + 1 })

unfoldable pub read_bytes : ℕ → M (List ℕ)
read_bytes len r =
    if ltb (length r.bytes) (r.pos + len)
    then err buffer_overflow
    else ok (take len (drop r.pos r.bytes), record r { pos = r.pos + len })

-- The value of a buffer of `w` bytes. Any other number of bytes has none; `read_bytes` gives no such.
abbrev pub to_uint16 : List ℕ → ℕ
to_uint16 (a ∷ b ∷ []) = value16 a b
to_uint16 _ = 0

abbrev pub to_uint32 : List ℕ → ℕ
to_uint32 (a ∷ b ∷ c ∷ d ∷ []) = value32 a b c d
to_uint32 _ = 0

unfoldable pub read_uint16 : M ℕ
read_uint16 = do v ← read_bytes 2; return (to_uint16 v)

unfoldable pub read_uint32 : M ℕ
read_uint32 = do v ← read_bytes 4; return (to_uint32 v)

-- `(int64_t(high) << 32) | low`: the low half of the shifted word is 0, so `|` adds.
unfoldable pub read_int64 : M ℕ
read_int64 = do high ← read_uint32; low ← read_uint32; return (high * 2 ^ 32 % 2 ^ 64 + low)

-- The check of `ReadString` is that of `ReadBytes`.
unfoldable pub read_string : M Text
read_string = do len ← read_uint16; read_bytes len

-- The loop `for (i = 0; i < count; ++i)`: recursion on the rounds left.
unfoldable pub read_strings : ℕ → M (List Text)
read_strings zero = return []
read_strings (suc count) = do s ← read_string; ss ← read_strings count; return (s ∷ ss)

unfoldable pub read_string_vector : M (List Text)
read_string_vector = do count ← read_uint16; read_strings count
