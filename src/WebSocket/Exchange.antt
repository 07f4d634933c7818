-- ===== src/WebSocket/Exchange.antt =====
-- Two ends of a WebSocket (`async_write` and `async_read`, src/common/websocket_stream.cpp).
use cfrp.Base.{
  ℕ, suc, ◌≤◌, ◌<◌, ◌≡◌, refl, sym, ap, ◌∙◌, List, [], ◌∷◌, ◌++◌, none, some, Bool, true, false,
  length, take, arith, All, map, append_assoc, append-nil, take-append_length,
}
use cfrp.WebSocket.Frame.{Mask, mask_bytes, frame_header}
use cfrp.WebSocket.Write.{joined, filled, frame_buffers}
use cfrp.WebSocket.Read.{Reader, ReadResult, async_read, max_message_size}
use cfrp.WebSocket.Read.Sent.{Sent, data_frame, wire, wire_frame, payloads, Fits}
use cfrp.WebSocket.Read.Delivers.{Delivered, async_read-Delivered}

-- The buffers of a write, and the mask that is drawn for it.
pub record Written : Type 0 where
  pub mask : Mask
  pub buffers : List (List ℕ)

-- What goes over the connection below.
abbrev pub on_wire : Bool → List Written → List ℕ
on_wire is_client [] = []
on_wire is_client (w ∷ ws) =
    joined (frame_buffers is_client w.mask w.buffers) ++ on_wire is_client ws

abbrev pub all_bytes : List Written → List ℕ
all_bytes [] = []
all_bytes (w ∷ ws) = joined w.buffers ++ all_bytes ws

-- A reader that has read nothing.
abbrev pub idle : Reader
idle = record { read_buffer = []; read_offset = 0; read_remaining = 0 }

abbrev sent : Bool → Written → Sent
sent true w = record { kind = data_frame; mask = some w.mask; payload = joined w.buffers }
sent false w = record { kind = data_frame; mask = none; payload = joined w.buffers }

joined-filled : (bs : List (List ℕ)) → joined (filled bs) ≡ joined bs
joined-filled [] = refl
joined-filled ([] ∷ bs) = joined-filled bs
joined-filled ((x ∷ b) ∷ bs) = ap (λ y. (x ∷ b) ++ y) (joined-filled bs)

joined-frame_buffers :
    (c : Bool) (w : Written) → joined (frame_buffers c w.mask w.buffers) ≡ wire_frame (sent c w)
joined-frame_buffers false w =
    ap (λ b. frame_header false (length (joined w.buffers)) ++ b) (joined-filled w.buffers)
joined-frame_buffers true w =
    append_assoc (frame_header true (length (joined w.buffers))) (mask_bytes w.mask) _
    ∙ ap (λ b. frame_header true (length (joined w.buffers)) ++ (mask_bytes w.mask ++ b))
        (append-nil _)

on_wire-wire : (c : Bool) (ws : List Written) → on_wire c ws ≡ wire (map (sent c) ws) []
on_wire-wire c [] = refl
on_wire-wire c (w ∷ ws) =
    ap (λ x. x ++ on_wire c ws) (joined-frame_buffers c w)
    ∙ ap (λ x. wire_frame (sent c w) ++ x) (on_wire-wire c ws)

payloads-sent : (c : Bool) (ws : List Written) → payloads (map (sent c) ws) ≡ all_bytes ws
payloads-sent c [] = refl
payloads-sent true (w ∷ ws) = ap (λ x. joined w.buffers ++ x) (payloads-sent true ws)
payloads-sent false (w ∷ ws) = ap (λ x. joined w.buffers ++ x) (payloads-sent false ws)

sent-Fits :
    (c : Bool) (ws : List Written)
    → All (λ w. length (joined w.buffers) ≤ max_message_size) ws
    → Fits (map (sent c) ws)
sent-Fits c [] all = tt
sent-Fits true (w ∷ ws) (le, all) = (le, sent-Fits true ws all)
sent-Fits false (w ∷ ws) (le, all) = (le, sent-Fits false ws all)

length-sent : (c : Bool) (ws : List Written) → length (map (sent c) ws) ≡ length ws
length-sent c [] = refl
length-sent c (w ∷ ws) = omega (arith, length-sent c ws)

-- What one end writes, masked by a client or bare by a server, the other end reads: a read of as many bytes
-- as were written, or fewer, gives the first of them without an error, whatever the masks and however the
-- bytes were spread over buffers and writes of at most 1 MiB. No more rounds are needed than there are
-- writes, and one.
pub read_what_is_written :
    (is_client : Bool) (ws : List Written) (fuel wanted : ℕ)
    → suc (length ws) < fuel
    → All (λ w. length (joined w.buffers) ≤ max_message_size) ws
    → wanted ≤ length (all_bytes ws)
    → (r : ReadResult) × (async_read fuel wanted idle (on_wire is_client ws) ≡ some r)
      × (r.bytes ≡ take wanted (all_bytes ws))
      × (r.error ≡ none)
read_what_is_written c ws fuel wanted h fits le = (
  d.result,
  ap (async_read fuel wanted idle) (on_wire-wire c ws) ∙ d.returns,
  sym (take-append_length wanted d.result.bytes _ d.count)
      ∙ ap (take wanted) (d.bytes ∙ payloads-sent c ws),
  d.error,
)
  where
    d :
        Delivered wanted idle
          (map (sent c) ws)
          []
          (async_read fuel wanted idle (wire (map (sent c) ws) []))
    d =
        async_read-Delivered fuel wanted idle (map (sent c) ws) []
          (omega (arith, h, length-sent c ws)) (λ some_left. absurd (omega arith))
          (sent-Fits c ws fits) (omega (arith, le, ap length (payloads-sent c ws)))
