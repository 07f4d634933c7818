-- ===== src/Mux/Header.antt =====
-- The frame header (`Header`, `Type` and `Flags` of src/common/mux.h) and its 12 bytes on the wire.
use Prim.Native.Nat.{bit_and}
use cfrp.Base.{
  ℕ, ◌^◌, ◌<◌, ◌≡◌, refl, Bool, not, List, ◌∷◌, ◌++◌, Option, some, none, ◌==◌, arith, length,
}
use cfrp.Protocol.Bytes.{net16, net32, value16, value32, IsByte, value16-digits, value32-digits}

-- `Type`; a header holds any byte, so these are names of bytes.
abbrev pub data_type : ℕ
data_type = 0

abbrev pub window_update_type : ℕ
window_update_type = 1

abbrev pub ping_type : ℕ
ping_type = 2

abbrev pub go_away_type : ℕ
go_away_type = 3

-- `Flags`
abbrev pub syn : ℕ
syn = 1

abbrev pub ack : ℕ
ack = 2

abbrev pub fin : ℕ
fin = 4

abbrev pub rst : ℕ
rst = 8

-- `h.flags & k`
unfoldable pub has_flag : ℕ → ℕ → Bool
has_flag flags k = not (bit_and flags k == 0)

pub record Header : Type 0 where
  pub version : ℕ
  pub type : ℕ
  pub flags : ℕ
  pub stream_id : ℕ
  pub length : ℕ

abbrev pub header_size : ℕ
header_size = 12

unfoldable pub encode : Header → List ℕ
unfolding net16 net32
encode h = h.version ∷ h.type ∷ (net16 h.flags ++ (net32 h.stream_id ++ net32 h.length))

-- `none` stands for a read beyond the buffer; the session always passes 12 bytes.
unfoldable pub decode : List ℕ → Option Header
decode (v ∷ t ∷ f1 ∷ f0 ∷ s3 ∷ s2 ∷ s1 ∷ s0 ∷ l3 ∷ l2 ∷ l1 ∷ l0 ∷ rest) = some (record {
  version = v;
  type = t;
  flags = value16 f1 f0;
  stream_id = value32 s3 s2 s1 s0;
  length = value32 l3 l2 l1 l0;
})
decode _ = none

-- The fields fit `uint8_t`, `uint16_t` and `uint32_t`.
pub record IsHeader (h : Header) : Type 0 where
  pub version : IsByte h.version
  pub type : IsByte h.type
  pub flags : h.flags < 2 ^ 16
  pub stream_id : h.stream_id < 2 ^ 32
  pub length : h.length < 2 ^ 32

-- A header is 12 bytes, and is read back from them whatever follows.
pub decode-encode :
    (h : Header) (rest : List ℕ)
    → IsHeader h
    → (length (encode h) ≡ 12) × (decode (encode h ++ rest) ≡ some h)
unfolding encode decode
decode-encode h rest fits = (
  refl,
  ground (arith, value16-digits h.flags, value32-digits h.stream_id, value32-digits h.length),
)
