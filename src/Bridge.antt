-- ===== src/Bridge.antt =====
-- `Bridge` (src/common/async_bridge.cpp): a pipe between two streams. Its handlers run one at a time for
-- each direction; what they ask of asio and of the rate limiter is a task, whose answer is the next
-- handler, and a lambda is kept as the data that it captures. The buffers are the bytes in them. The
-- functions of zstd are a parameter.
pub mod Runs
pub mod Steady
pub mod Relay
mod Tests
use cfrp.Base.{
  ℕ, ◌+◌, ◌%◌, ◌^◌, List, [], ◌∷◌, ◌++◌, Option, none, some, Bool, true, false, not, ◌&&◌,
  if◌then◌else◌, ltb, leb, length,
}
use cfrp.Protocol.Bytes.{net32, value32}
use cfrp.Protocol.Compressed.{
  Zstd, compression_flag, max_message_size, max_decompressed_size, flagged,
}

-- From `s1_` to `s2_`, which is direction 1, or back.
pub data Direction : Type 0 where
  forth back : Direction

pub record Bridge : Type 0 where
  pub use_compression : Bool
  -- whether there is a rate limiter
  pub limited : Bool
  pub stopped : Bool
  -- What it has added to the counters of the statistics, of type `uint64_t`.
  pub bytes_sent : ℕ
  pub bytes_received : ℕ

-- What `write_op` captures: the bytes, and how many of them are counted.
pub record Write : Type 0 where
  pub direction : Direction
  pub bytes : List ℕ
  pub counted : ℕ

pub data Task : Type 0 where
  -- up to 32768 bytes, of the stream that the direction comes from
  read_some : Direction → Task
  -- 4 bytes of `s2_`
  read_header : Task
  read_body : ℕ → Bool → Task
  -- the rate limiter, which then calls `write_op`
  wait : ℕ → Write → Task
  -- `async_write`, to the stream that the direction goes to
  write : Write → Task
  close_both : Task
  call_on_stop : Task

abbrev pub Step : Type 0
Step = Bridge × List Task

unfoldable pub new : Bool → Bool → Bridge
new use_compression limited = record {
  use_compression = use_compression;
  limited = limited;
  stopped = false;
  bytes_sent = 0;
  bytes_received = 0;
}

unfoldable pub handle_stop : Bridge → Step
handle_stop b =
    if b.stopped then (b, []) else (record b { stopped = true }, close_both ∷ call_on_stop ∷ [])

abbrev pub reads : Bool → Direction → Task
reads false d = read_some d
reads true forth = read_some forth
reads true back = read_header

unfoldable pub do_read : Direction → Bridge → Step
do_read d b = (b, reads b.use_compression d ∷ [])

abbrev pub start : Bridge → Step
unfolding do_read
start b = (b, (do_read forth b).1 ++ (do_read back b).1)

abbrev pub counts : Write → Bridge → Bridge
counts w b = elim w.direction [
  | forth ↦ record b { bytes_received = (b.bytes_received + w.counted) % 2 ^ 64 }
  | back ↦ record b { bytes_sent = (b.bytes_sent + w.counted) % 2 ^ 64 }
]

unfoldable pub write_op : Write → Bridge → Step
write_op w b = (counts w b, write w ∷ [])

-- `rate_limiter_->async_wait`, if there is one.
unfoldable pub limit : Write → Bridge → Step
unfolding write_op
limit w b = if b.limited then (b, wait w.counted w ∷ []) else write_op w b

-- The header and the bytes, compressed if that makes them fewer.
abbrev pub bare : List ℕ → List ℕ
bare bytes = net32 (length bytes % 2 ^ 32) ++ bytes

abbrev pub smaller : List ℕ → Option (List ℕ) → List ℕ
smaller bytes none = bare bytes
smaller bytes (some c) =
    if ltb (length c) (length bytes) then net32 (flagged (length c % 2 ^ 32)) ++ c else bare bytes

unfoldable pub packet : Zstd → List ℕ → List ℕ
unfolding net32
packet z bytes = smaller bytes (z.compress bytes)

abbrev pub forward : Zstd → Bool → Direction → List ℕ → List ℕ
forward z false d bytes = bytes
forward z true d bytes = packet z bytes

-- `none` is an error, and also the end of the stream.
unfoldable pub on_read_some : Zstd → Direction → Option (List ℕ) → Bridge → Step
unfolding packet limit handle_stop
on_read_some z d none b = handle_stop b
on_read_some z d (some bytes) b =
    limit
      (record {
        direction = d;
        bytes = forward z b.use_compression d bytes;
        counted = length bytes;
      })
      b

abbrev pub on_length : ℕ → Bridge → Step
unfolding handle_stop
on_length h b =
    if ltb max_message_size (h % compression_flag)
    then handle_stop b
    else (b, read_body (h % compression_flag) (leb compression_flag h) ∷ [])

unfoldable pub on_header : Option (ℕ × (ℕ × (ℕ × ℕ))) → Bridge → Step
unfolding handle_stop
on_header none b = handle_stop b
on_header (some (x, (y, (z, w)))) b = on_length (value32 x y z w) b

-- What is written to `s1_`.
abbrev pub restored : Zstd → Bool → List ℕ → Option (List ℕ)
restored z false body = some body
restored z true body = elim (z.content_size body) [
  | none ↦ none
  | some n ↦ if ltb max_decompressed_size n then none else z.decompress n body
]

abbrev pub write_back : Option (List ℕ) → Bridge → Step
unfolding limit handle_stop
write_back none b = handle_stop b
write_back (some bytes) b =
    limit (record { direction = back; bytes = bytes; counted = length bytes }) b

unfoldable pub on_body : Zstd → Bool → Option (List ℕ) → Bridge → Step
unfolding limit handle_stop
on_body z compressed none b = handle_stop b
on_body z compressed (some body) b = write_back (restored z compressed body) b

unfoldable pub on_written : Direction → Bool → Bridge → Step
unfolding do_read handle_stop
on_written d failed b = if failed then handle_stop b else do_read d b
