-- ===== src/Mux/Session/Events.antt =====
-- What the session does when the connection below answers, when its timer fires, and when the program
-- opens a stream (src/common/mux.cpp).
use cfrp.Base.{
  ℕ, ◌+◌, ◌-◌, ◌*◌, ◌%◌, ◌^◌, true, not, List, [], ◌∷◌, Option, none, some, ltb, ◌==◌, ◌&&◌,
  if◌then◌else◌,
}
use cfrp.Base.Dict.{nat_eq}
use cfrp.Mux.Header.{Header, data_type, ping_type, syn, decode}
use cfrp.Mux.Stream.{Block, post, OnSent, ignore, fail_pending, finish, ErrorCode, new}
use cfrp.Mux.Write.Loop.{max_message_size}
use cfrp.Mux.Ops.{on_sent, is_success, handle_data, handle_window_update, handle_close}
use cfrp.Mux.Session.{
  Session, PendingFrame, Action, Run, ◌>>◌, act, skip, read_header, read_body, arm_heartbeat,
  opened, to_user, stop, handle_frame, Task, data_task, window_task, close_task, fail_task,
  post_task, run_on, add_stream, async_send_frame, control_header, on_stream, do_write,
}

abbrev pub second : ℕ
second = 1_000_000_000

-- `start` and `do_read_header`
unfoldable pub start : Run
start =
    (λ s. some (record s { listening = true }, []))
    >> act read_header
    >> act (arm_heartbeat (30 * second))

-- What a header asks for.
pub data Dispatch : Type 0 where
  too_long with_body alone : Dispatch

unfoldable pub dispatch : Header → Dispatch
dispatch h =
    if h.type == data_type && ltb 0 h.length
    then (if ltb max_message_size h.length then too_long else with_body)
    else alone

unfoldable pub follow : Header → Run
unfolding dispatch handle_frame stop
follow h = elim (dispatch h) [
  | too_long ↦ stop
  | with_body ↦ act (read_body h)
  | alone ↦ handle_frame h [] >> act read_header
]

-- The handler of `do_read_header`: 12 bytes were read, or the connection failed.
unfoldable pub on_header : ErrorCode → List ℕ → ℕ → Run
unfolding follow stop decode
on_header ec bytes now s =
    let proceed : Option (Session × List Action) = elim (decode bytes) [
      | none ↦ none
      | some h ↦ follow h (record s { last_read_time = now })
    ] in
    if s.stopped then some (s, []) else if is_success ec then proceed else stop s

-- The handler of `do_read_body`.
unfoldable pub on_body : Header → ErrorCode → Block → ℕ → Run
unfolding handle_frame stop
on_body h ec body now s =
    if s.stopped
    then some (s, [])
    else if is_success ec
    then (handle_frame h body >> act read_header) (record s { last_read_time = now })
    else stop s

-- `pw->handler(ec)`: a failure of a part is posted to the strand of the stream, the handler of a
-- whole write is called here.
abbrev pub call_back : ErrorCode → ℕ → OnSent → Run
call_back ec ref ignore = skip
call_back ec ref fail_pending = if is_success ec then skip else post_task (fail_task ref ec)
call_back ec ref (finish handler n) =
    act (to_user (post handler ec (if is_success ec then n else 0)))

abbrev pub pop_front : ErrorCode → List PendingFrame → Run
pop_front ec [] s = some (s, [])
pop_front ec (p ∷ ps) s = call_back ec p.stream p.callback (record s { write_queue = ps })

-- The handler of the write in `Session::do_write`: the frame in front has gone out, or has not.
unfoldable pub on_written : ErrorCode → Run
unfolding do_write stop
on_written ec = (λ s. pop_front ec s.write_queue s) >> (if is_success ec then do_write else stop)

-- `open_stream`: the id is that of the state before.
unfoldable pub open_stream : Run
unfolding async_send_frame new
open_stream s =
    let id = s.next_stream_id in
    let asked : Run =
      async_send_frame (control_header data_type syn id) [] 0 ignore >> act (opened s.made) in
    asked (add_stream id (record s { next_stream_id = (id + 2) % 2 ^ 32 }))

-- The handler of the heartbeat timer, at a time by the steady clock.
unfoldable pub on_heartbeat : ErrorCode → ℕ → Run
unfolding async_send_frame stop
on_heartbeat ec now s =
    let ping : Run =
      async_send_frame (control_header ping_type syn 0) [] 0 ignore
      >> act (arm_heartbeat (30 * second)) in
    if not (is_success ec)
    then some (s, [])
    else if ltb (120 * second) (now - s.last_read_time)
    then stop s
    else ping s

-- A task on the strand of its stream.
unfoldable pub run_task : Task → Run
unfolding on_stream handle_data handle_window_update handle_close on_sent
run_task (data_task ref block) = run_on ref λ st. handle_data true st block
run_task (window_task ref delta) = run_on ref λ st. some (handle_window_update true st delta)
run_task (close_task ref) = run_on ref (handle_close true)
run_task (fail_task ref ec) = run_on ref λ st. some (on_sent ec fail_pending st)

abbrev pub run_first : List Task → Run
run_first [] s = some (s, [])
run_first (t ∷ ts) s = run_task t (record s { tasks = ts })

unfoldable pub on_strand : Run
unfolding run_task
on_strand s = run_first s.tasks s
