-- ===== src/WebSocket/Frame.antt =====
-- The bytes of frames (`async_write`, `SendPong` and `ReadWsFrame`, src/common/websocket_stream.cpp). A
-- size is below 2 ^ 64. The mask is drawn at random, so it is an argument.
pub mod RoundTrip
use Prim.Native.Nat.{bit_xor}
use cfrp.Base.{
  ℕ, zero, suc, ◌+◌, ◌*◌, ◌/◌, ◌%◌, ◌^◌, List, [], ◌∷◌, ◌++◌, Bool, true, false, if◌then◌else◌, leb,
  ◌==◌, length,
}

pub record Mask : Type 0 where
  pub m0 : ℕ
  pub m1 : ℕ
  pub m2 : ℕ
  pub m3 : ℕ

abbrev pub mask_bytes : Mask → List ℕ
mask_bytes m = m.m0 ∷ m.m1 ∷ m.m2 ∷ m.m3 ∷ []

-- `mask[i]`, for i below 4
abbrev pub mask_at : Mask → ℕ → ℕ
mask_at m i = if i == 0 then m.m0 else if i == 1 then m.m1 else if i == 2 then m.m2 else m.m3

-- The loop `payload[i] ^= mask[i % 4]`, from some i on.
unfoldable pub mask_from : Mask → ℕ → List ℕ → List ℕ
mask_from m i [] = []
mask_from m i (b ∷ bs) = bit_xor b (mask_at m (i % 4)) ∷ mask_from m (suc i) bs

abbrev pub mask_bit : Bool → ℕ
mask_bit true = 0x80
mask_bit false = 0

-- The bytes of a size, highest first: the loop over `i * 8`.
unfoldable pub big_endian : ℕ → ℕ → List ℕ
big_endian zero n = []
big_endian (suc i) n = (n / 2 ^ (8 * i) % 256) ∷ big_endian i n

unfoldable pub frame_header : Bool → ℕ → List ℕ
unfolding big_endian
frame_header is_client n =
    0x82
    ∷ (if leb n 125
        then (mask_bit is_client + n) ∷ []
        else if leb n 65535
        then (mask_bit is_client + 126) ∷ (n / 2 ^ 8 % 256) ∷ (n % 256) ∷ []
        else (mask_bit is_client + 127) ∷ big_endian 8 n)

-- `static_cast<uint8_t>(len)`, with the highest bit set for a client
unfoldable pub pong_header : Bool → ℕ → List ℕ
pong_header true n = 0x8A ∷ (128 + n % 128) ∷ []
pong_header false n = 0x8A ∷ (n % 256) ∷ []

-- The loop `len = (len << 8) | ext[i]`.
unfoldable pub from_bytes : ℕ → List ℕ → ℕ
from_bytes len [] = len
from_bytes len (b ∷ bs) = from_bytes ((len * 256 + b) % 2 ^ 64) bs
