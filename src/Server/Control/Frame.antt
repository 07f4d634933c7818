-- ===== src/Server/Control/Frame.antt =====
-- Control messages on a stream (`SendMessage`, `DoReadHeader` and `DoReadBody`, src/server/server.cpp). The
-- functions of zstd are a parameter: `none` is an error, and also a content size that is not known. What
-- the stream will still deliver is a list of bytes.
pub mod RoundTrip
use cfrp.Base.{
  ℕ, zero, suc, ◌+◌, ◌*◌, ◌%◌, ◌^◌, List, [], ◌∷◌, ◌++◌, Option, none, some, Bool, true, false,
  if◌then◌else◌, leb, ltb, length, read_exactly,
}
use cfrp.Base.Text.{Text}
use cfrp.Protocol.Bytes.{net32, value32}
use cfrp.Protocol.Result.{Result, ok, err}
use cfrp.Protocol.Compressed.{Zstd, compression_flag, max_decompressed_size, flagged}
use cfrp.Protocol.Messages.{Message, encode, decode}
use cfrp.Server.Registry.{Registry}
use cfrp.Server.Control.{ControlSession, Outcome, stop, handle_message}

abbrev pub max_control_message_size : ℕ
max_control_message_size = 4 * 1024 * 1024

-- The length that goes out, and the bytes behind it.
abbrev pub packed_with : List ℕ → Option (List ℕ) → ℕ × List ℕ
packed_with encoded none = (length encoded % 2 ^ 32, encoded)
packed_with encoded (some c) = (flagged (length c % 2 ^ 32), c)

abbrev pub packed : Zstd → Bool → List ℕ → ℕ × List ℕ
packed z false encoded = packed_with encoded none
packed z true encoded = packed_with encoded (z.compress encoded)

abbrev pub framed : ℕ × List ℕ → List ℕ
framed (final_len, bytes) = net32 final_len ++ bytes

-- The bytes that `SendMessage` writes.
unfoldable pub send_message : Zstd → Bool → Message → List ℕ
unfolding net32 encode
send_message z compression_enabled m = framed (packed z compression_enabled (encode m))

-- The bytes of the message, from a body.
abbrev pub decompressed : Zstd → Bool → List ℕ → Option (List ℕ)
decompressed z false data' = some data'
decompressed z true data' = elim (z.content_size data') [
  | none ↦ none
  | some n ↦ if ltb max_decompressed_size n then none else z.decompress n data'
]

pub data Received : Type 0 where
  -- The session stops.
  stopped : Received
  -- A message, whether it came compressed, and the bytes behind it. (A header
  -- with the flag also sets `compression_enabled_`, which is an argument of `send_message` here.)
  got : Message → Bool → List ℕ → Received

abbrev pub decoded : Bool → List ℕ → Result Message → Received
decoded is_compressed rest (err e) = stopped
decoded is_compressed rest (ok m) = got m is_compressed rest

abbrev pub on_body : Zstd → Bool → List ℕ → List ℕ → Received
on_body z is_compressed body rest = elim (decompressed z is_compressed body) [
  | none ↦ stopped
  | some data' ↦ decoded is_compressed rest (decode data')
]

unfoldable pub read_body : Zstd → Bool → ℕ → List ℕ → Received
unfolding decode
read_body z is_compressed size input = elim (read_exactly size input) [
  | none ↦ stopped
  | some (body, rest) ↦ on_body z is_compressed body rest
]

abbrev pub on_header : Zstd → ℕ → List ℕ → Received
on_header z h rest =
    if ltb max_control_message_size (h % compression_flag)
    then stopped
    else read_body z (leb compression_flag h) (h % compression_flag) rest

unfoldable pub read_header : Zstd → List ℕ → Received
unfolding read_body
read_header z (a ∷ b ∷ c ∷ d ∷ rest) = on_header z (value32 a b c d) rest
read_header z short = stopped

-- What a session does with the next message.
unfoldable pub do_read :
    Zstd → Option Text → ℕ → List ℕ → ControlSession → Registry → Option Outcome
unfolding read_header handle_message stop
do_read z opened now input c r = elim (read_header z input) [
  | stopped ↦ some (stop c r)
  | got m is_compressed rest ↦ handle_message m opened now c r
]
