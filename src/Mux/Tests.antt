-- ===== src/Mux/Tests.antt =====
-- Concrete runs of src/common/mux.cpp, and its theorems at concrete inputs.
use cfrp.Base.{◌+◌, ◌-◌, ◌≡◌, refl, ◌⊎◌, true, false, List, [], ◌∷◌, ◌++◌, some, arith, length}
use cfrp.Mux.Stream.{MuxStream, Block, fill, new, join, initial_window}
use cfrp.Mux.Write.Loop.{do_write}
use cfrp.Mux.Write.Order.{queued, all_answered, handlers, do_write-ends}
use cfrp.Mux.Read.Loop.{do_read_from_buffer}
use cfrp.Mux.Read.Order.{unread_bytes}
use cfrp.Mux.Read.Serve.{Done, do_read_from_buffer-Done}
use cfrp.Mux.Ops.{async_write}
use cfrp.Mux.Link.{Link, fresh, write, Reach, here, next}
use cfrp.Mux.Link.Bytes.{sum}
use cfrp.Mux.Link.Conserve.{link_conserves}

-- A window of 4 bytes, and two writes of 3 bytes in two and in one buffer.
abbrev narrow : MuxStream
narrow = record {
  id = 3;
  remote_window_size = 4;
  consumed_since_last_update = 0;
  read_queue = [];
  read_queue_offset = 0;
  pending_reads = [];
  pending_writes =
      record { buffers = (1 ∷ []) ∷ (2 ∷ 3 ∷ []) ∷ []; handler = 10 }
      ∷ record { buffers = (4 ∷ 5 ∷ 6 ∷ []) ∷ []; handler = 11 }
      ∷ [];
  local_closed = false;
  remote_closed = false;
}

narrow_left :
    (do_write true narrow).0.pending_writes
    ≡ record { buffers = (5 ∷ 6 ∷ []) ∷ []; handler = 11 } ∷ []
unfolding do_write
narrow_left = refl

do_write-ends_example :
    let (s', es) = do_write true narrow in
    ((s'.pending_writes ≡ []) ⊎ (s'.remote_window_size ≡ 0))
    × (all_answered es ++ handlers s'.pending_writes ≡ 10 ∷ 11 ∷ [])
do_write-ends_example = do_write-ends true narrow

-- One byte of the front block is taken, and a reader waits for all of four bytes.
abbrev part_read : MuxStream
part_read = record (narrow) {
  read_queue = (7 ∷ 8 ∷ 9 ∷ []) ∷ (1 ∷ 2 ∷ []) ∷ [];
  read_queue_offset = 1;
  pending_reads = record { size = 4; handler = 20; read_all = true } ∷ [];
}

part_read_done :
    do_read_from_buffer true part_read
    ≡ some (
      record (part_read) {
        read_queue = [];
        read_queue_offset = 0;
        pending_reads = [];
        consumed_since_last_update = 4;
      },
      fill 20 (8 ∷ 9 ∷ 1 ∷ 2 ∷ []) ∷ [],
    )
unfolding do_read_from_buffer
part_read_done = refl

do_read_from_buffer-Done_example : Done part_read (do_read_from_buffer true part_read)
do_read_from_buffer-Done_example = do_read_from_buffer-Done part_read (omega arith) (omega arith)

abbrev deep_read : MuxStream
deep_read = record (part_read) { read_queue_offset = 2 }

-- Three bytes are written, arrive, and are read.
abbrev hello : List Block
hello = (1 ∷ 2 ∷ 3 ∷ []) ∷ []

abbrev after_write : Link
after_write = record (fresh 1) {
  sender = record (new 1) { remote_window_size = initial_window - 3 };
  frames = hello;
  written = 1 ∷ 2 ∷ 3 ∷ [];
}

abbrev after_arrive : Link
after_arrive = record (after_write) {
  frames = [];
  receiver = record (new 1) { read_queue = hello };
}

abbrev after_read : Link
after_read = record (after_arrive) {
  receiver = record (new 1) { consumed_since_last_update = 3 };
  got = 1 ∷ 2 ∷ 3 ∷ [];
}

Reach-write : Reach (fresh 1) after_write
unfolding async_write new do_write
Reach-write = next here (write (fresh 1) hello 5)

link_conserves_example :
    (after_write.got
        ++ (unread_bytes after_write.receiver
            ++ (join after_write.frames ++ queued after_write.sender.pending_writes))
      ≡ 1 ∷ 2 ∷ 3 ∷ [])
    × (after_write.sender.remote_window_size
          + length (join after_write.frames)
          + length (unread_bytes after_write.receiver)
          + after_write.receiver.consumed_since_last_update
          + sum after_write.updates
        ≡ initial_window)
link_conserves_example = link_conserves 1 after_write Reach-write
