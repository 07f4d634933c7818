-- ===== src/UdpBridge.antt =====
-- The two classes `UdpBridge` (src/client/client.cpp and src/server/server.cpp): datagrams on a work
-- connection, each behind a length of 15 bits and a flag. The reader is in both; the client's also sends
-- what its local service answers. What they ask of asio and of the rate limiter is a task, whose answer is
-- the next handler. The functions of zstd are a parameter.
pub mod Relay
mod Tests
use cfrp.Base.{
  ℕ, ◌+◌, ◌-◌, ◌%◌, ◌^◌, List, [], ◌∷◌, ◌++◌, Option, none, some, Bool, true, false, if◌then◌else◌,
  ltb, leb, length,
}
use cfrp.Protocol.Bytes.{net16, value16}
use cfrp.Protocol.Compressed.{Zstd}

pub record UdpBridge : Type 0 where
  -- the class of the server
  pub of_server : Bool
  pub use_compression : Bool
  -- whether there is a rate limiter
  pub limited : Bool
  -- What the server's has added to the counter of the statistics, of type `uint64_t`.
  pub bytes_sent : ℕ

-- `send_op` and `write_op`, with the bytes that they capture.
pub data Operation : Type 0 where
  send write : List ℕ → Operation

pub data Task : Type 0 where
  -- 2 bytes of the stream, and those of a datagram
  read_header : Task
  read_body : ℕ → Bool → Task
  -- a datagram of the local service
  receive : Task
  -- the rate limiter, which then calls the operation
  wait : ℕ → Operation → Task
  -- `async_send_to`, and `async_write` on the stream
  send_to write_to : List ℕ → Task
  close_stream : Task

abbrev pub Step : Type 0
Step = UdpBridge × List Task

abbrev pub max_datagram : ℕ
max_datagram = 65535

abbrev pub datagram_flag : ℕ
datagram_flag = 0x8000

-- `static_cast<uint16_t>(n) | 0x8000`
abbrev pub flagged : ℕ → ℕ
flagged n = datagram_flag + n % datagram_flag

abbrev pub close : UdpBridge → Step
close b = (b, close_stream ∷ [])

abbrev pub do_read_from_stream : UdpBridge → Step
do_read_from_stream b = (b, read_header ∷ [])

abbrev pub do_read_from_local : UdpBridge → Step
do_read_from_local b = (b, receive ∷ [])

unfoldable pub start : UdpBridge → Step
start b = (b, if b.of_server then read_header ∷ [] else read_header ∷ receive ∷ [])

unfoldable pub run : Operation → UdpBridge → Step
run (send bytes) b = (
  if b.of_server then record b { bytes_sent = (b.bytes_sent + length bytes) % 2 ^ 64 } else b,
  send_to bytes ∷ [],
)
run (write bytes) b = (b, write_to bytes ∷ [])

abbrev pub size_of : Operation → ℕ
size_of (send bytes) = length bytes
size_of (write bytes) = length bytes

unfoldable pub limit : Operation → UdpBridge → Step
unfolding run
limit o b = if b.limited then (b, wait (size_of o) o ∷ []) else run o b

abbrev pub on_length : ℕ → UdpBridge → Step
on_length h b =
    if ltb max_datagram (h % datagram_flag)
    then close b
    else (b, read_body (h % datagram_flag) (leb datagram_flag h) ∷ [])

-- `none` is an error.
unfoldable pub on_header : Option (ℕ × ℕ) → UdpBridge → Step
on_header none b = close b
on_header (some (x, y)) b = on_length (value16 x y) b

abbrev pub restored : Zstd → Bool → List ℕ → Option (List ℕ)
restored z false body = some body
restored z true body = elim (z.content_size body) [
  | none ↦ none
  | some n ↦ if ltb max_datagram n then none else z.decompress n body
]

abbrev pub send_back : Option (List ℕ) → UdpBridge → Step
unfolding limit
send_back none b = close b
send_back (some bytes) b = limit (send bytes) b

unfoldable pub on_body : Zstd → Bool → Option (List ℕ) → UdpBridge → Step
unfolding limit
on_body z compressed none b = close b
on_body z compressed (some body) b = send_back (restored z compressed body) b

-- Only the server's class closes the stream.
unfoldable pub on_sent : Bool → UdpBridge → Step
on_sent failed b =
    if failed then (if b.of_server then close b else (b, [])) else do_read_from_stream b

abbrev pub bare : List ℕ → List ℕ
bare bytes = net16 (length bytes % 2 ^ 16) ++ bytes

abbrev pub smaller : List ℕ → Option (List ℕ) → List ℕ
smaller bytes none = bare bytes
smaller bytes (some c) =
    if ltb (length c) (length bytes) then net16 (flagged (length c % 2 ^ 16)) ++ c else bare bytes

-- The header and the bytes, compressed if the bridge compresses and that makes them fewer.
unfoldable pub packet : Zstd → Bool → List ℕ → List ℕ
unfolding net16
packet z false bytes = bare bytes
packet z true bytes = smaller bytes (z.compress bytes)

-- A datagram of the local service, of at most 65535 bytes.
unfoldable pub on_receive : Zstd → Option (List ℕ) → UdpBridge → Step
unfolding packet limit
on_receive z none b = close b
on_receive z (some bytes) b = limit (write (packet z b.use_compression bytes)) b

unfoldable pub on_written : Bool → UdpBridge → Step
on_written failed b = if failed then close b else do_read_from_local b
