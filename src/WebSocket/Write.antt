-- ===== src/WebSocket/Write.antt =====
-- The writing half of a `WebsocketStream` (src/common/websocket_stream.cpp). The tasks of its strand
-- and the handler of the write below do not overlap. A handler is its reference; that of a pong, which
-- only logs, is `none`. The write below is answered by `on_written`.
pub mod Queue
use cfrp.Base.{
  ℕ, suc, ◌+◌, List, [], ◌∷◌, ◌++◌, Option, none, some, Bool, true, false, not, if◌then◌else◌,
  length,
}
use cfrp.WebSocket.Frame.{Mask, mask_bytes, mask_from, frame_header, pong_header}

pub record WriteOp : Type 0 where
  pub buffers : List (List ℕ)
  -- The handler, and the size that it is told.
  pub handler : Option (ℕ × ℕ)

pub record Writer : Type 0 where
  pub is_client : Bool
  pub write_queue : List WriteOp
  pub is_writing : Bool

pub data Action : Type 0 where
  -- `underlying_->async_write`
  async_write_below : List (List ℕ) → Action
  -- The handler is called, with an error or not.
  call : ℕ → Bool → ℕ → Action

abbrev pub joined : List (List ℕ) → List ℕ
joined [] = []
joined (b ∷ bs) = b ++ joined bs

-- The buffers that are not empty.
abbrev pub filled : List (List ℕ) → List (List ℕ)
filled [] = []
filled ([] ∷ bs) = filled bs
filled ((x ∷ b) ∷ bs) = (x ∷ b) ∷ filled bs

abbrev pub frame_buffers : Bool → Mask → List (List ℕ) → List (List ℕ)
frame_buffers true mask buffers =
    let payload = joined buffers in
    (frame_header true (length payload) ++ mask_bytes mask) ∷ mask_from mask 0 payload ∷ []
frame_buffers false mask buffers = frame_header false (length (joined buffers)) ∷ filled buffers

abbrev pub pong_buffers : Bool → Mask → List ℕ → List (List ℕ)
pong_buffers true mask payload =
    (pong_header true (length payload) ++ mask_bytes mask) ∷ mask_from mask 0 payload ∷ []
pong_buffers false mask payload = pong_header false (length payload) ∷ payload ∷ []

abbrev pub begin_write : WriteOp → Writer → Writer × List Action
begin_write op w = (record w { is_writing = true }, async_write_below op.buffers ∷ [])

unfoldable pub do_write : Writer → Writer × List Action
do_write w = elim w.write_queue [ [] ↦ (w, []) | op ∷ ops ↦ begin_write op w ]

abbrev pub push : WriteOp → Writer → Writer × List Action
push op w =
    let w' : Writer = record w { write_queue = w.write_queue ++ (op ∷ []) } in
    if not w.is_writing then do_write w' else (w', [])

-- The task of `async_write`.
unfoldable pub async_write : Mask → List (List ℕ) → ℕ → Writer → Writer × List Action
unfolding frame_header mask_from do_write
async_write mask buffers handler w =
    push
      (record {
        buffers = frame_buffers w.is_client mask buffers;
        handler = some (handler, length (joined buffers));
      })
      w

-- The task of `SendPong`.
unfoldable pub send_pong : Mask → List ℕ → Writer → Writer × List Action
unfolding pong_header mask_from do_write
send_pong mask payload w =
    push (record { buffers = pong_buffers w.is_client mask payload; handler = none }) w

abbrev pub answer : Bool → Option (ℕ × ℕ) → List Action
answer failed none = []
answer failed (some (handler, size)) = call handler failed size ∷ []

abbrev pub next_write : WriteOp → List WriteOp → Bool → Writer → Writer × List Action
next_write op [] failed w =
    (record w { write_queue = []; is_writing = false }, answer failed op.handler)
next_write op (next ∷ ops) failed w =
    let (w', acts) = do_write (record w { write_queue = next ∷ ops }) in
    (w', answer failed op.handler ++ acts)

-- The handler of the write below. `none` is `front` of an empty queue.
unfoldable pub on_written : Bool → Writer → Option (Writer × List Action)
unfolding do_write
on_written failed w = elim w.write_queue [
  | [] ↦ none
  | op ∷ ops ↦ some (next_write op ops failed w)
]
