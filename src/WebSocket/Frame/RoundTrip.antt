-- ===== src/WebSocket/Frame/RoundTrip.antt =====
-- Masks and sizes, written and read.
use cfrp.Base.{ℕ, suc, ◌%◌, ◌^◌, ◌<◌, ◌≡◌, refl, ap₂, List, [], ◌∷◌, length, arith}
use cfrp.Base.Bits.{bit_xor-bit_xor}
use cfrp.WebSocket.Frame.{Mask, mask_at, mask_from, big_endian, from_bytes}

pub mask_from-mask_from : (m : Mask) (i : ℕ) (p : List ℕ) → mask_from m i (mask_from m i p) ≡ p
unfolding mask_from
mask_from-mask_from m i [] = refl
mask_from-mask_from m i (b ∷ p) =
    ap₂ (◌∷◌) (bit_xor-bit_xor b (mask_at m (i % 4))) (mask_from-mask_from m (suc i) p)

pub length-mask_from : (m : Mask) (i : ℕ) (p : List ℕ) → length (mask_from m i p) ≡ length p
unfolding mask_from
length-mask_from m i [] = refl
length-mask_from m i (b ∷ p) = omega (arith, length-mask_from m (suc i) p)

pub from_bytes-big_endian : (n : ℕ) → n < 2 ^ 64 → from_bytes 0 (big_endian 8 n) ≡ n
unfolding from_bytes big_endian
from_bytes-big_endian n h = omega arith
