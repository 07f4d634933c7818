-- ===== src/Mux/Session.antt =====
-- `Session` (src/common/mux.h, src/common/mux.cpp): the streams of one connection. All of it runs on
-- the session's strand. A stream that calls the session calls it at once, since its own strand runs
-- on that of the session; a session that calls a stream posts a task to the strand of the stream. The
-- tasks wait here, in the order in which they were posted. A stream object outlives its entry in the
-- map of streams, so the map holds references. The connection below is the environment: what the
-- session asks of it are actions, and its answers are the `on_` operations of Session/Events.
-- The optional `body_storage` of `async_send_frame` is left out, since no caller passes one; so is
-- the buffer that `do_read_body` takes from the pool, which holds no state of the session.
pub mod Events
pub mod Dispatch
pub mod Tests
pub mod Fifo
pub mod Serial
use cfrp.Base.{
  ℕ, ◌+◌, ◌-◌, ◌*◌, ◌%◌, ◌^◌, Bool, true, false, not, List, [], ◌∷◌, ◌++◌, Option, none, some, ltb,
  ◌==◌, if◌then◌else◌, length, ◌&&◌, suc,
}
use cfrp.Base.Dict.{lookup, insert, erase, nat_eq}
use cfrp.Mux.Header.{
  Header, header_size, data_type, window_update_type, ping_type, go_away_type, syn, ack, fin,
  has_flag, encode, decode,
}
use cfrp.Mux.Stream.{
  MuxStream, Block, Effect, post, fill, send, remove, OnSent, ignore, ErrorCode, success, new,
}
use cfrp.Mux.Write.Loop.{max_message_size}
use cfrp.Mux.Ops.{Outcome, handle_data, handle_window_update, handle_close, on_sent, is_success}

pub record PendingFrame : Type 0 where
  pub header_data : List ℕ
  pub bodies : List Block
  -- the reference of the stream whose callback waits for the frame, and that callback
  pub stream : ℕ
  pub callback : OnSent

-- What the session has posted to the strand of a stream, which is given by its reference.
pub data Task : Type 0 where
  data_task : ℕ → Block → Task
  window_task : ℕ → ℕ → Task
  close_task : ℕ → Task
  fail_task : ℕ → ErrorCode → Task

pub record Session : Type 0 where
  pub stopped : Bool
  pub next_stream_id : ℕ
  -- `streams_`: the reference for each id
  pub streams : List (ℕ × ℕ)
  -- the stream objects by their references, and how many were made
  pub objects : List (ℕ × MuxStream)
  pub made : ℕ
  pub tasks : List Task
  pub write_queue : List PendingFrame
  pub is_writing : Bool
  -- whether `on_new_stream_` is set
  pub listening : Bool
  -- in nanoseconds
  pub last_read_time : ℕ

-- The constructor: a server opens even streams, a client odd ones.
unfoldable pub init : Bool → ℕ → Session
init is_server now = record {
  stopped = false;
  next_stream_id = if is_server then 2 else 1;
  streams = [];
  objects = [];
  made = 0;
  tasks = [];
  write_queue = [];
  is_writing = false;
  listening = false;
  last_read_time = now;
}

pub data Action : Type 0 where
  -- `underlying_stream_->async_read` of this many bytes: a header, or the body of a frame
  read_header : Action
  read_body : Header → Action
  -- `underlying_stream_->async_write`
  write_out : List Block → Action
  close_underlying : Action
  cancel_heartbeat : Action
  -- the timer, in nanoseconds
  arm_heartbeat : ℕ → Action
  -- `on_new_stream_`
  accept : ℕ → Action
  -- the answer of `open_stream`
  opened : ℕ → Action
  -- what a stream posts to its user
  to_user : Effect → Action

-- `none` is undefined behaviour of a stream.
abbrev pub Run : Type 0
Run = Session → Option (Session × List Action)

infixl 5 ◌>>◌
abbrev pub ◌>>◌ : Run → Run → Run
◌>>◌ f g s = elim (f s) [
  | none ↦ none
  | some (s', xs) ↦ elim (g s') [ none ↦ none | some (s'', ys) ↦ some (s'', xs ++ ys) ]
]

abbrev pub act : Action → Run
act a s = some (s, a ∷ [])

abbrev pub skip : Run
skip s = some (s, [])

-- Empty bodies are not given to the connection.
abbrev pub non_empty : List Block → List Block
non_empty [] = []
non_empty ([] ∷ bs) = non_empty bs
non_empty ((x ∷ xs) ∷ bs) = (x ∷ xs) ∷ non_empty bs

abbrev pub write_buffers : PendingFrame → List Block
write_buffers p = p.header_data ∷ p.bodies

abbrev pub write_front : List PendingFrame → Run
write_front [] s = some (record s { is_writing = false }, [])
write_front (p ∷ ps) s = some (s, write_out (write_buffers p) ∷ [])

unfoldable pub do_write : Run
do_write s = write_front s.write_queue s

unfoldable pub async_send_frame : Header → List Block → ℕ → OnSent → Run
unfolding do_write encode
async_send_frame h bodies stream callback s =
    let frame : PendingFrame = record {
      header_data = encode h;
      bodies = non_empty bodies;
      stream = stream;
      callback = callback;
    } in
    let s' = record s { write_queue = s.write_queue ++ (frame ∷ []) } in
    if s.is_writing then some (s', []) else do_write (record s' { is_writing = true })

unfoldable pub remove_stream : ℕ → Run
remove_stream id s = some (record s { streams = erase id s.streams }, [])

-- What a stream asks for, given by its reference.
unfoldable pub perform : ℕ → Effect → Run
unfolding async_send_frame remove_stream
perform ref (send h bodies k) = async_send_frame h bodies ref k
perform ref (remove i) = remove_stream i
perform ref (post k ec n) = act (to_user (post k ec n))
perform ref (fill k bs) = act (to_user (fill k bs))

unfoldable pub perform_all : ℕ → List Effect → Run
unfolding perform
perform_all ref [] = skip
perform_all ref (e ∷ es) = perform ref e >> perform_all ref es

-- A stream has run one of its operations.
unfoldable pub on_stream : ℕ → Outcome → Run
unfolding perform_all
on_stream ref none s = none
on_stream ref (some (st, es)) s =
    perform_all ref es (record s { objects = insert ref st s.objects })

abbrev pub with_object : ℕ → Option MuxStream → (MuxStream → Outcome) → Run
with_object ref none f = skip
with_object ref (some st) f = on_stream ref (f st)

-- An operation of the stream at this reference, which the program or a task runs on its strand.
abbrev pub run_on : ℕ → (MuxStream → Outcome) → Run
run_on ref f s = with_object ref (lookup ref s.objects) f s

abbrev pub post_task : Task → Run
post_task t s = some (record s { tasks = s.tasks ++ (t ∷ []) }, [])

abbrev pub close_tasks : List (ℕ × ℕ) → List Task
close_tasks [] = []
close_tasks ((id, ref) ∷ m) = close_task ref ∷ close_tasks m

abbrev pub shut : Session → Session
shut s = record s {
  stopped = true;
  streams = [];
  listening = false;
  tasks = s.tasks ++ close_tasks s.streams;
}

unfoldable pub stop : Run
stop s = if s.stopped then some (s, []) else some (shut s, cancel_heartbeat ∷ close_underlying ∷ [])

-- A header with no body.
abbrev pub control_header : ℕ → ℕ → ℕ → Header
control_header type flags id = record {
  version = 0;
  type = type;
  flags = flags;
  stream_id = id;
  length = 0;
}

-- A new stream object under this id.
abbrev pub add_stream : ℕ → Session → Session
add_stream id s = record s {
  streams = insert id s.made s.streams;
  objects = insert s.made (new id) s.objects;
  made = suc s.made;
}

-- A stream that the peer opens.
unfoldable pub accept_stream : ℕ → Run
unfolding async_send_frame new
accept_stream id =
    (λ s. some (add_stream id s, if s.listening then accept s.made ∷ [] else []))
    >> async_send_frame (control_header data_type ack id) [] 0 ignore

abbrev pub is_known : ℕ → Session → Bool
is_known id s = elim (lookup id s.streams) [ none ↦ false | some ref ↦ true ]

abbrev pub if_known : Option ℕ → (ℕ → Run) → Run
if_known none f = skip
if_known (some ref) f = f ref

-- What the frame is for: the stream that has its id.
abbrev pub at_stream : ℕ → (ℕ → Run) → Run
at_stream id f s = if_known (lookup id s.streams) f s

-- The body, then the end, of a data frame.
abbrev pub deliver : Header → Block → ℕ → Run
deliver h body ref =
    (if ltb 0 (length body) then post_task (data_task ref body) else skip)
    >> (if has_flag h.flags fin then post_task (close_task ref) else skip)

unfoldable pub handle_data_frame : Header → Block → Run
unfolding accept_stream
handle_data_frame h body =
    (λ s.
      if has_flag h.flags syn && not (is_known h.stream_id s)
      then accept_stream h.stream_id s
      else skip s)
    >> at_stream h.stream_id (deliver h body)

unfoldable pub answer_ping : Header → Run
unfolding async_send_frame
answer_ping h =
    if has_flag h.flags syn
    then async_send_frame (control_header ping_type ack 0) [] 0 ignore
    else skip

unfoldable pub handle_frame : Header → Block → Run
unfolding handle_data_frame answer_ping stop
handle_frame h body =
    if h.type == data_type
    then handle_data_frame h body
    else if h.type == window_update_type
    then at_stream h.stream_id (λ ref. post_task (window_task ref h.length))
    else if h.type == ping_type
    then answer_ping h
    else stop
