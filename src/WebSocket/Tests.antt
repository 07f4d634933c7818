-- ===== src/WebSocket/Tests.antt =====
-- Concrete runs of WebSocket streams (src/common/websocket_stream.cpp), and their theorems at concrete inputs.
use cfrp.Base.{refl, ◌++◌, ◌≡◌, List, [], ◌∷◌, none, some, true, false, arith}
use cfrp.Base.Text.{codes}
use cfrp.WebSocket.Frame.{Mask}
use cfrp.WebSocket.Write.{
  Writer, async_write_below, frame_buffers, pong_buffers, async_write, send_pong,
}
use cfrp.WebSocket.Write.Queue.{Runs, begin, write, pong, Ordered, Runs-Ordered}
use cfrp.WebSocket.Read.{Reader, ReadResult, async_read}
use cfrp.WebSocket.Read.Sent.{Sent, data_frame, ping, wire}
use cfrp.WebSocket.Read.Delivers.{Delivered, async_read-Delivered}
use cfrp.WebSocket.Read.Safe.{Ended, async_read-Ended}
use cfrp.WebSocket.Handshake.{
  client_request, server_response, respond, do_server_handshake_read, client_accepts,
}
use cfrp.WebSocket.Handshake.Agrees.{handshake-agrees}
use cfrp.WebSocket.Exchange.{Written, on_wire, idle, read_what_is_written}

abbrev mask : Mask
mask = record { m0 = 7; m1 = 255; m2 = 0; m3 = 31 }

abbrev sends : List Written
sends =
    record { mask = mask; buffers = codes "ab" ∷ [] ∷ codes "cde" ∷ [] }
    ∷ record { mask = mask; buffers = codes "fg" ∷ [] }
    ∷ []

read_what_is_written_example :
    (r : ReadResult) × (async_read 4 6 idle (on_wire true sends) ≡ some r)
    × (r.bytes ≡ codes "abcdef")
    × (r.error ≡ none)
read_what_is_written_example =
    read_what_is_written true sends 4 6 (omega arith) (omega arith, (omega arith, tt)) (omega arith)

-- A ping between two frames, while three bytes are in the buffer.
abbrev reader : Reader
reader = record { read_buffer = codes "xyz"; read_offset = 1; read_remaining = 2 }

abbrev coming : List Sent
coming =
    record { kind = data_frame; mask = none; payload = codes "ab" }
    ∷ record { kind = ping; mask = some mask; payload = codes "?" }
    ∷ record { kind = data_frame; mask = some mask; payload = codes "cd" }
    ∷ []

async_read-Delivered_example : Delivered 5 reader coming [] (async_read 5 5 reader (wire coming []))
async_read-Delivered_example =
    async_read-Delivered 5 5 reader coming [] (omega arith) (λ _. omega arith)
      (omega arith, (omega arith, (omega arith, tt))) (omega arith)

-- A frame that announces 2 ^ 56 bytes.
async_read-Ended_example :
    Ended 3 (async_read 20 3 reader (0x82 ∷ 127 ∷ 1 ∷ 0 ∷ 0 ∷ 0 ∷ 0 ∷ 0 ∷ 0 ∷ 0 ∷ []))
async_read-Ended_example =
    async_read-Ended 20 3 reader (0x82 ∷ 127 ∷ 1 ∷ 0 ∷ 0 ∷ 0 ∷ 0 ∷ 0 ∷ 0 ∷ 0 ∷ []) (omega arith)
      (λ _. omega arith)

-- A write, and a pong that waits behind it.
abbrev writer : Writer
writer =
    (async_write mask (codes "a" ∷ []) 5
      (record { is_client = false; write_queue = []; is_writing = false })).0

abbrev run :
    Runs false
      (send_pong mask (codes "?") writer).0
      (frame_buffers false mask (codes "a" ∷ []) ∷ pong_buffers false mask (codes "?") ∷ [])
      ((5, 1) ∷ [])
      (async_write_below (frame_buffers false mask (codes "a" ∷ [])) ∷ [])
unfolding async_write send_pong
run = pong (write begin mask (codes "a" ∷ []) 5) mask (codes "?")

Runs-Ordered_example :
    Ordered false
      (send_pong mask (codes "?") writer).0
      (frame_buffers false mask (codes "a" ∷ []) ∷ pong_buffers false mask (codes "?") ∷ [])
      ((5, 1) ∷ [])
      (async_write_below (frame_buffers false mask (codes "a" ∷ [])) ∷ [])
Runs-Ordered_example = Runs-Ordered false _ _ _ _ run

handshake-agrees_example :
    (do_server_handshake_read (λ k. codes "s" ++ k) [] (client_request (codes "dGhlIQ=="))
      ≡ respond (server_response (codes "sdGhlIQ==")))
    × (client_accepts (λ k. codes "s" ++ k) (codes "dGhlIQ==") (server_response (codes "sdGhlIQ=="))
        ≡ true)
handshake-agrees_example =
    handshake-agrees (λ k. codes "s" ++ k) (codes "dGhlIQ==") refl (omega arith)
