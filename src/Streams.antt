-- ===== src/Streams.antt =====
-- `BufferedStream` (src/common/stream.h), which gives out again what was read ahead, and the choice that the
-- server makes by the first byte of a connection (src/server/server.cpp). What the stream below will
-- still deliver is a list of bytes; `none` is its error when there are not enough.
pub mod Reads
pub mod Sequences
mod Tests
use cfrp.Base.{
  ℕ, ◌+◌, ◌-◌, List, [], ◌∷◌, ◌++◌, Option, none, some, Bool, true, false, if◌then◌else◌, ltb, ◌==◌,
  length, take, drop, min, read_exactly,
}

pub record BufferedStream : Type 0 where
  pub buffer : List ℕ
  pub buffer_offset : ℕ
  -- of `underlying_`
  pub underlying : List ℕ

unfoldable pub new : List ℕ → List ℕ → BufferedStream
new underlying initial_data = record {
  buffer = initial_data;
  buffer_offset = 0;
  underlying = underlying;
}

abbrev pub has_buffered : BufferedStream → Bool
has_buffered s = ltb s.buffer_offset (length s.buffer)

-- What of a buffer of this size is copied.
abbrev pub to_copy : ℕ → BufferedStream → ℕ
to_copy size s = min (length s.buffer - s.buffer_offset) size

abbrev pub copied : ℕ → BufferedStream → List ℕ
copied n s = take n (drop s.buffer_offset s.buffer)

abbrev pub advance : ℕ → BufferedStream → BufferedStream
advance n s =
    if s.buffer_offset + n == length s.buffer
    then record s { buffer = []; buffer_offset = 0 }
    else record s { buffer_offset = s.buffer_offset + n }

abbrev pub behind :
    List ℕ → BufferedStream → Option (List ℕ × List ℕ) → Option (List ℕ × BufferedStream)
behind bytes s none = none
behind bytes s (some (more, rest)) = some (bytes ++ more, record s { underlying = rest })

-- A read of the stream below.
abbrev pub read_below : ℕ → List ℕ → BufferedStream → Option (List ℕ × BufferedStream)
read_below size bytes s = behind bytes s (read_exactly size s.underlying)

-- The stream below gives as many bytes as it has at once.
unfoldable pub async_read_some : ℕ → ℕ → BufferedStream → Option (List ℕ × BufferedStream)
async_read_some at_once size s =
    if has_buffered s
    then some (copied (to_copy size s) s, advance (to_copy size s) s)
    else read_below (min at_once size) [] s

unfoldable pub async_read : ℕ → BufferedStream → Option (List ℕ × BufferedStream)
async_read size s =
    if has_buffered s
    then (if ltb (to_copy size s) size
        then read_below (size - to_copy size s) (copied (to_copy size s) s)
            (advance (to_copy size s) s)
        else some (copied (to_copy size s) s, advance (to_copy size s) s))
    else read_below size [] s

-- With "auto", the first byte tells whether the client speaks WebSocket; it is read again behind.
unfoldable pub on_first_byte : ℕ → List ℕ → Bool × BufferedStream
unfolding new
on_first_byte byte underlying = (byte == b'G', new underlying (byte ∷ []))
