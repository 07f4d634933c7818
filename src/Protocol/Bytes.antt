-- ===== src/Protocol/Bytes.antt =====
-- Network byte order: what `host_to_network_short`, `host_to_network_long` and their inverses do to
-- the memory that is then copied to or from a buffer (src/common/protocol.h, src/common/mux.cpp).
use cfrp.Base.{ℕ, ◌+◌, ◌*◌, ◌/◌, ◌%◌, ◌^◌, ◌<◌, ◌≡◌, refl, List, [], ◌∷◌, arith, length}

-- The byte order of the host.
pub data Endian : Type 0 where
  little big : Endian

abbrev pub IsByte : ℕ → Type 0
IsByte b = b < 256

-- The four base-256 digits of a word, lowest first.
abbrev pub digit : ℕ → ℕ → ℕ
digit v k = v / 2 ^ k % 256

-- The memory of a `uint16_t` and of a `uint32_t` on the host.
store16 : Endian → ℕ → List ℕ
store16 little v = digit v 0 ∷ digit v 8 ∷ []
store16 big v = digit v 8 ∷ digit v 0 ∷ []

store32 : Endian → ℕ → List ℕ
store32 little v = digit v 0 ∷ digit v 8 ∷ digit v 16 ∷ digit v 24 ∷ []
store32 big v = digit v 24 ∷ digit v 16 ∷ digit v 8 ∷ digit v 0 ∷ []

-- `htons` and `htonl`: a little-endian host turns the bytes round, a big-endian one does nothing.
host_to_network_short : Endian → ℕ → ℕ
host_to_network_short little v = digit v 0 * 256 + digit v 8
host_to_network_short big v = v

host_to_network_long : Endian → ℕ → ℕ
host_to_network_long little v =
    digit v 0 * 2 ^ 24 + digit v 8 * 2 ^ 16 + digit v 16 * 2 ^ 8 + digit v 24
host_to_network_long big v = v

-- What the program puts into a buffer: most significant byte first.
unfoldable pub net16 : ℕ → List ℕ
net16 v = digit v 8 ∷ digit v 0 ∷ []

unfoldable pub net32 : ℕ → List ℕ
net32 v = digit v 24 ∷ digit v 16 ∷ digit v 8 ∷ digit v 0 ∷ []

-- What the program takes from a buffer.
abbrev pub value16 : ℕ → ℕ → ℕ
value16 a b = a * 256 + b

abbrev pub value32 : ℕ → ℕ → ℕ → ℕ → ℕ
value32 a b c d = a * 2 ^ 24 + b * 2 ^ 16 + c * 2 ^ 8 + d

-- The bytes do not depend on the host, so the model has no byte order elsewhere.
store16-host_to_network_short :
    (e : Endian) (v : ℕ) → store16 e (host_to_network_short e v) ≡ net16 v
unfolding store16 host_to_network_short net16
store16-host_to_network_short little v = ground arith
store16-host_to_network_short big v = refl

store32-host_to_network_long : (e : Endian) (v : ℕ) → store32 e (host_to_network_long e v) ≡ net32 v
unfolding store32 host_to_network_long net32
store32-host_to_network_long little v = ground arith
store32-host_to_network_long big v = refl

pub length-net16 : (v : ℕ) → length (net16 v) ≡ 2
unfolding net16
length-net16 v = refl

pub length-net32 : (v : ℕ) → length (net32 v) ≡ 4
unfolding net32
length-net32 v = refl

pub value16-digits : (v : ℕ) → v < 2 ^ 16 → value16 (digit v 8) (digit v 0) ≡ v
value16-digits v h = omega arith

pub value32-digits :
    (v : ℕ) → v < 2 ^ 32 → value32 (digit v 24) (digit v 16) (digit v 8) (digit v 0) ≡ v
value32-digits v h = omega arith
