-- ===== src/Mux/Stream.antt =====
-- `MuxStream` (src/common/mux.h, src/common/mux.cpp): its state, and what its operations do to the
-- outside. Each operation runs on the stream's strand; one that is called elsewhere posts itself to
-- the strand, so the model is what runs there.
use cfrp.Base.{ℕ, ◌+◌, ◌*◌, Bool, false, List, [], ◌∷◌, ◌++◌, length}
use cfrp.Mux.Header.{Header}

abbrev pub Block : Type 0
Block = List ℕ

-- All bytes of a sequence of buffers.
abbrev pub join : List Block → List ℕ
join [] = []
join (b ∷ bs) = b ++ join bs

abbrev pub total_length : List Block → ℕ
total_length [] = 0
total_length (b ∷ bs) = length b + total_length bs

-- A handler is its number. A buffer to read into is its size.
pub record PendingRead : Type 0 where
  pub size : ℕ
  pub handler : ℕ
  pub read_all : Bool

pub record PendingWrite : Type 0 where
  pub buffers : List Block
  pub handler : ℕ

pub record MuxStream : Type 0 where
  pub id : ℕ
  pub remote_window_size : ℕ
  pub consumed_since_last_update : ℕ
  pub read_queue : List Block
  pub read_queue_offset : ℕ
  pub pending_reads : List PendingRead
  pub pending_writes : List PendingWrite
  pub local_closed : Bool
  pub remote_closed : Bool

abbrev pub initial_window : ℕ
initial_window = 128 * 1024

abbrev pub max_pending_reads : ℕ
max_pending_reads = 1024

abbrev pub max_pending_writes : ℕ
max_pending_writes = 1024

-- The constructor. `local_window_size_` is set there and never read again, so it is left out.
unfoldable pub new : ℕ → MuxStream
new id = record {
  id = id;
  remote_window_size = initial_window;
  consumed_since_last_update = 0;
  read_queue = [];
  read_queue_offset = 0;
  pending_reads = [];
  pending_writes = [];
  local_closed = false;
  remote_closed = false;
}

pub data ErrorCode : Type 0 where
  success eof operation_aborted no_buffer_space connection_reset : ErrorCode
  -- any other error of the connection below
  broken_pipe : ErrorCode

-- What the session does when a frame has gone out: the callback of `async_send_frame`.
pub data OnSent : Type 0 where
  -- no callback
  ignore : OnSent
  -- an error fails every pending write
  fail_pending : OnSent
  -- calls the handler, with this many bytes if there was no error
  finish : ℕ → ℕ → OnSent

pub data Effect : Type 0 where
  -- the handler is posted with a code and a count
  post : ℕ → ErrorCode → ℕ → Effect
  -- these bytes are copied to the reader's buffer, and the handler is posted with their number
  fill : ℕ → List ℕ → Effect
  -- `session->async_send_frame`
  send : Header → List Block → OnSent → Effect
  -- `session->remove_stream`
  remove : ℕ → Effect
