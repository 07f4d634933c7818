-- ===== src/Mux/Session/Tests.antt =====
-- Concrete runs of `Session` (src/common/mux.cpp), and its theorems at concrete inputs.
use cfrp.Base.{◌≤◌, ◌≡◌, refl, true, false, List, [], ◌∷◌, some, arith}
use cfrp.Base.Dict.{nat_eq}
use cfrp.Mux.Header.{Header, encode, has_flag}
use cfrp.Mux.Stream.{ignore, new, success}
use cfrp.Mux.Session.{
  Session, PendingFrame, Action, write_out, opened, init, handle_frame, data_task, close_task,
  async_send_frame, control_header, do_write,
}
use cfrp.Mux.Session.Events.{open_stream, on_written}
use cfrp.Mux.Session.Serial.Runs.{Trace, first, here, event, written, opens, reacted, answers}
use cfrp.Mux.Session.Serial.Single.{one_write_at_a_time}
use cfrp.Mux.Session.Fifo.{idle, sends, frames_in_order}
use cfrp.Mux.Session.Dispatch.{data_frame-dispatch}

abbrev syn_frame : PendingFrame
syn_frame = record {
  header_data = 0 ∷ 0 ∷ 0 ∷ 1 ∷ 0 ∷ 0 ∷ 0 ∷ 1 ∷ 0 ∷ 0 ∷ 0 ∷ 0 ∷ [];
  bodies = [];
  stream = 0;
  callback = ignore;
}

-- A client after its first `open_stream`.
abbrev one_stream : Session
one_stream = record {
  stopped = false;
  next_stream_id = 3;
  streams = (1, 0) ∷ [];
  objects = (0, new 1) ∷ [];
  made = 1;
  tasks = [];
  write_queue = syn_frame ∷ [];
  is_writing = true;
  listening = false;
  last_read_time = 7;
}

abbrev asks : List Action
asks = write_out (syn_frame.header_data ∷ []) ∷ opened 0 ∷ []

opens_one : open_stream (init false 7) ≡ some (one_stream, asks)
unfolding open_stream init new async_send_frame do_write encode
opens_one = refl

-- The write is answered.
abbrev sent_one : Session
sent_one = record one_stream { write_queue = []; is_writing = false }

writes_one : on_written success one_stream ≡ some (sent_one, [])
unfolding on_written do_write
writes_one = refl

abbrev after_opening : Trace
after_opening = reacted (first false 7) (one_stream, asks)

one_write_at_a_time_example :
    let t = answers success after_opening (sent_one, []) in
    (t.asked ≤ 2) × (false ≡ false → t.asked ≡ 1 → t.session.write_queue ≡ [])
one_write_at_a_time_example =
    one_write_at_a_time false 7 (answers success after_opening (sent_one, [])) (
      written (event here opens (one_stream, asks) opens_one) success (sent_one, []) (omega arith)
        writes_one)

-- Two frames are sent; the first goes out at once.
abbrev ping : Header
ping = control_header 2 1 0

abbrev two_frames : Session
two_frames = record (init true 0) {
  write_queue =
      record { header_data = encode ping; bodies = []; stream = 0; callback = ignore }
      ∷ record { header_data = encode ping; bodies = (5 ∷ []) ∷ []; stream = 4; callback = ignore }
      ∷ [];
  is_writing = true;
}

abbrev one_frame : Session
one_frame = record (init true 0) {
  write_queue =
      record { header_data = encode ping; bodies = []; stream = 0; callback = ignore } ∷ [];
  is_writing = true;
}

sends_first :
    async_send_frame ping [] 0 ignore (init true 0)
    ≡ some (one_frame, write_out (encode ping ∷ []) ∷ [])
unfolding async_send_frame init do_write
sends_first = refl

sends_second : async_send_frame ping ((5 ∷ []) ∷ [] ∷ []) 4 ignore one_frame ≡ some (two_frames, [])
unfolding async_send_frame init do_write
sends_second = refl

frames_in_order_example :
    (encode ping ∷ []) ∷ (encode ping ∷ (5 ∷ []) ∷ []) ∷ []
    ≡ (encode ping ∷ []) ∷ (encode ping ∷ (5 ∷ []) ∷ []) ∷ []
frames_in_order_example = frames_in_order true 0 _ (
    sends (sends idle ping [] 0 ignore one_frame (write_out (encode ping ∷ []) ∷ []) sends_first)
      ping ((5 ∷ []) ∷ [] ∷ []) 4 ignore two_frames [] sends_second)

-- The last bytes of stream 1, with FIN.
abbrev last_bytes : Header
last_bytes = record { version = 0; type = 0; flags = 4; stream_id = 1; length = 2 }

last_bytes_tasks :
    handle_frame last_bytes (8 ∷ 9 ∷ []) one_stream
    ≡ some (record one_stream { tasks = data_task 0 (8 ∷ 9 ∷ []) ∷ close_task 0 ∷ [] }, [])
unfolding has_flag
last_bytes_tasks = (data_frame-dispatch last_bytes (8 ∷ 9 ∷ []) one_stream refl).1 0 refl
