-- ===== src/Mux/Session/Serial/Runs.antt =====
-- All that can happen to a session (src/common/mux.cpp), in any order.
use cfrp.Base.{ℕ, suc, ◌+◌, ◌<◌, ◌≡◌, Bool, false, List, some, length, ◌||◌, not}
use cfrp.Mux.Header.{Header}
use cfrp.Mux.Stream.{MuxStream, Block, ErrorCode}
use cfrp.Mux.Ops.{Outcome, is_success}
use cfrp.Mux.Session.{Session, Action, Run, run_on, stop, init}
use cfrp.Mux.Session.Events.{
  start, on_header, on_body, on_written, open_stream, on_heartbeat, on_strand,
}
use cfrp.Mux.Session.Serial.{writes}

-- All that a session reacts to, but for the end of a write. `operate` is any operation of a stream.
pub data Event : Type 0 where
  starts : Event
  reads_header : ErrorCode → List ℕ → ℕ → Event
  reads_body : Header → ErrorCode → Block → ℕ → Event
  opens : Event
  ticks : ErrorCode → ℕ → Event
  runs_task : Event
  operate : ℕ → (MuxStream → Outcome) → Event
  stops : Event

abbrev pub react : Event → Run
react starts = start
react (reads_header ec bytes now) = on_header ec bytes now
react (reads_body h ec body now) = on_body h ec body now
react opens = open_stream
react (ticks ec now) = on_heartbeat ec now
react runs_task = on_strand
react (operate ref f) = run_on ref f
react stops = stop

-- A session, the writes that it has asked for and those that the connection has answered, and whether
-- one of them has failed.
pub record Trace : Type 0 where
  pub session : Session
  pub asked : ℕ
  pub answered : ℕ
  pub failed : Bool

abbrev pub first : Bool → ℕ → Trace
first is_server now = record {
  session = init is_server now;
  asked = 0;
  answered = 0;
  failed = false;
}

abbrev pub reacted : Trace → Session × List Action → Trace
reacted t (s, acts) = record t { session = s; asked = t.asked + length (writes acts) }

abbrev pub answers : ErrorCode → Trace → Session × List Action → Trace
answers ec t (s, acts) = record {
  session = s;
  asked = t.asked + length (writes acts);
  answered = suc t.answered;
  failed = t.failed || not (is_success ec);
}

-- The connection answers only what it was asked, and each write once.
pub data Reach (t0 : Trace) : Trace → Type 0 where
  here : Reach t0 t0
  event :
      {t : Trace}
      → Reach t0 t
      → (e : Event) (r : Session × List Action) → react e t.session ≡ some r
      → Reach t0 (reacted t r)
  written :
      {t : Trace}
      → Reach t0 t
      → (ec : ErrorCode) (r : Session × List Action) → t.answered < t.asked
      → on_written ec t.session ≡ some r
      → Reach t0 (answers ec t r)
