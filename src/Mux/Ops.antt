-- ===== src/Mux/Ops.antt =====
-- The operations of `MuxStream` (src/common/mux.cpp): what the program and the session call.
pub mod Sound
use mathlib.Core.Option
use cfrp.Base.{
  ℕ, ◌+◌, ◌*◌, Bool, true, false, List, [], ◌∷◌, ◌++◌, Option, none, some, map, leb, min,
  if◌then◌else◌, length,
}
use cfrp.Mux.Header.{Header, data_type, fin}
use cfrp.Mux.Stream.{
  MuxStream, PendingRead, PendingWrite, Block, Effect, post, send, OnSent, ignore, fail_pending,
  finish, ErrorCode, success, eof, connection_reset, broken_pipe, operation_aborted,
  no_buffer_space, max_pending_reads, max_pending_writes,
}
use cfrp.Mux.Write.Loop.{do_write, max_message_size}
use cfrp.Mux.Read.Loop.{do_read_from_buffer, check_cleanup}

abbrev pub Outcome : Type 0
Outcome = Option (MuxStream × List Effect)

-- `async_read_some` (`read_all` is false) and `async_read` (it is true)
unfoldable pub async_read_with : Bool → Bool → MuxStream → ℕ → ℕ → Outcome
async_read_with read_all alive s size handler =
    if leb max_pending_reads (length s.pending_reads)
    then some (s, post handler no_buffer_space 0 ∷ [])
    else do_read_from_buffer alive (record s {
      pending_reads =
          s.pending_reads ++ (record { size = size; handler = handler; read_all = read_all } ∷ []);
    })

abbrev pub async_read_some : Bool → MuxStream → ℕ → ℕ → Outcome
async_read_some = async_read_with false

abbrev pub async_read : Bool → MuxStream → ℕ → ℕ → Outcome
async_read = async_read_with true

-- Both overloads of `async_write`: one buffer is a sequence of one.
unfoldable pub async_write : Bool → MuxStream → List Block → ℕ → MuxStream × List Effect
async_write alive s buffers handler =
    if leb max_pending_writes (length s.pending_writes)
    then (s, post handler no_buffer_space 0 ∷ [])
    else do_write alive (record s {
      pending_writes = s.pending_writes ++ (record { buffers = buffers; handler = handler } ∷ []);
    })

-- Every pending handler is posted with an error.
abbrev pub abort_reads : List PendingRead → List Effect
abort_reads = map λ p. post p.handler operation_aborted 0

abbrev pub abort_writes : List PendingWrite → List Effect
abort_writes = map λ p. post p.handler operation_aborted 0

abbrev pub fin_frame : ℕ → Effect
fin_frame id =
    send (record { version = 0; type = data_type; flags = fin; stream_id = id; length = 0 }) []
      ignore

-- `close` empties the read queue and leaves the offset into its front block as it is.
unfoldable pub close : Bool → MuxStream → MuxStream × List Effect
unfolding check_cleanup
close alive s =
    let s' = record s {
      local_closed = true;
      pending_reads = [];
      pending_writes = [];
      read_queue = [];
    } in
    let notice = if alive then fin_frame s.id ∷ [] else [] in
    if s.local_closed then (s, []) else (
      s',
      notice
          ++ (abort_reads s.pending_reads
              ++ (abort_writes s.pending_writes ++ check_cleanup alive s')),
    )

-- The destructor.
unfoldable pub destroy : MuxStream → List Effect
destroy s = abort_reads s.pending_reads ++ abort_writes s.pending_writes

unfoldable pub handle_data : Bool → MuxStream → Block → Outcome
handle_data alive s block =
    do_read_from_buffer alive (record s { read_queue = s.read_queue ++ (block ∷ []) })

unfoldable pub handle_window_update : Bool → MuxStream → ℕ → MuxStream × List Effect
handle_window_update alive s delta =
    do_write alive
      (record s { remote_window_size = min (s.remote_window_size + delta) max_message_size })

-- `do_read_from_buffer` already calls `check_cleanup`; `handle_close` calls it once more.
abbrev cleaned_again : Bool → MuxStream × List Effect → MuxStream × List Effect
cleaned_again alive (s, es) = (s, es ++ check_cleanup alive s)

unfoldable pub handle_close : Bool → MuxStream → Outcome
unfolding check_cleanup
handle_close alive s =
    Option.map (cleaned_again alive) (do_read_from_buffer alive (record s { remote_closed = true }))

abbrev pub is_success : ErrorCode → Bool
is_success success = true
is_success eof = false
is_success operation_aborted = false
is_success no_buffer_space = false
is_success connection_reset = false
is_success broken_pipe = false

-- What the callback of `async_send_frame` does when the frame has gone out, or has not: the handler of
-- a whole write is told how many bytes were in this frame; a failed part fails all that still waits.
unfoldable pub on_sent : ErrorCode → OnSent → MuxStream → MuxStream × List Effect
on_sent ec ignore s = (s, [])
on_sent ec fail_pending s =
    if is_success ec
    then (s, [])
    else (record s { pending_writes = [] }, map (λ p. post p.handler ec 0) s.pending_writes)
on_sent ec (finish handler n) s = (s, post handler ec (if is_success ec then n else 0) ∷ [])
