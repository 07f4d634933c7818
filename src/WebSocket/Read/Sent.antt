-- ===== src/WebSocket/Read/Sent.antt =====
-- Frames on the way to a `WebsocketStream` (src/common/websocket_stream.cpp), and what its reader holds.
use cfrp.Base.{
  ℕ, ◌+◌, ◌≤◌, ◌<◌, ◌≡◌, refl, ap, List, [], ◌∷◌, ◌++◌, Option, none, some, Bool, true, false,
  length, take, drop, arith, All,
}
use cfrp.WebSocket.Frame.{Mask, mask_bytes, mask_bit, mask_from, frame_header}
use cfrp.WebSocket.Frame.RoundTrip.{mask_from-mask_from, length-mask_from}
use cfrp.WebSocket.Read.{Reader, Action, post_pong, max_message_size, unmask, extra}

-- What is in the buffer for the user.
abbrev pub pending : Reader → List ℕ
pending s = take s.read_remaining (drop s.read_offset s.read_buffer)

abbrev pub IsSound : Reader → Type 0
IsSound s = 0 < s.read_remaining → s.read_offset + s.read_remaining ≤ length s.read_buffer

pub data Kind : Type 0 where
  data_frame ping pong : Kind

pub record Sent : Type 0 where
  pub kind : Kind
  pub mask : Option Mask
  pub payload : List ℕ

abbrev pub is_masked : Option Mask → Bool
is_masked none = false
is_masked (some m) = true

abbrev pub body : Option Mask → List ℕ → List ℕ
body none p = p
body (some m) p = mask_bytes m ++ mask_from m 0 p

abbrev pub header : Kind → Bool → ℕ → List ℕ
header data_frame masked n = frame_header masked n
header ping masked n = 0x89 ∷ (mask_bit masked + n) ∷ []
header pong masked n = 0x8A ∷ (mask_bit masked + n) ∷ []

abbrev pub wire_frame : Sent → List ℕ
wire_frame f = header f.kind (is_masked f.mask) (length f.payload) ++ body f.mask f.payload

abbrev pub wire : List Sent → List ℕ → List ℕ
wire [] tail = tail
wire (f ∷ fs) tail = wire_frame f ++ wire fs tail

abbrev pub limit : Kind → ℕ
limit data_frame = max_message_size
limit ping = 125
limit pong = 125

abbrev pub Fits : List Sent → Type 0
Fits = All (λ f. length f.payload ≤ limit f.kind)

abbrev pub for_user : Sent → List ℕ → List ℕ
for_user f more = elim f.kind [ data_frame ↦ f.payload ++ more | ping ↦ more | pong ↦ more ]

-- The bytes for the user.
abbrev pub payloads : List Sent → List ℕ
payloads [] = []
payloads (f ∷ fs) = for_user f (payloads fs)

abbrev pub answered : Sent → List Action → List Action
answered f more = elim f.kind [
  | data_frame ↦ more
  | ping ↦ post_pong f.payload ∷ more
  | pong ↦ more
]

-- The pings, answered in order.
abbrev pub answers : List Sent → List Action
answers [] = []
answers (f ∷ fs) = answered f (answers fs)

pub length-body :
    (m : Option Mask) (p : List ℕ) → length (body m p) ≡ length p + extra (is_masked m)
length-body none p = omega arith
length-body (some m) p = omega (arith, length-mask_from m 0 p)

-- The buffer after it is unmasked.
abbrev pub opened : Option Mask → List ℕ → List ℕ
opened none p = p
opened (some m) p = mask_bytes m ++ p

pub unmask-body : (m : Option Mask) (p : List ℕ) → unmask (is_masked m) (body m p) ≡ opened m p
unmask-body none p = refl
unmask-body (some m) p = ap (λ p. mask_bytes m ++ p) (mask_from-mask_from m 0 p)

abbrev pub holding : Option Mask → List ℕ → Reader
holding m p = record {
  read_buffer = opened m p;
  read_offset = extra (is_masked m);
  read_remaining = length p;
}
