-- ===== src/Mux/Session/Serial/Steps.antt =====
-- The handlers of a session (src/common/mux.cpp): what they ask the connection below to write.
use cfrp.Base.{ℕ, ◌-◌, ◌*◌, refl, true, not, List, [], ◌∷◌, Option, none, some, ltb, if_rule}
use cfrp.Mux.Header.{Header, decode, data_type, ping_type, syn}
use cfrp.Mux.Stream.{Block, ignore, ErrorCode}
use cfrp.Mux.Ops.{is_success}
use cfrp.Mux.Session.{
  Session, Action, ◌>>◌, act, read_header, async_send_frame, stop, handle_frame, Task, data_task,
  window_task, close_task, fail_task, control_header, opened, arm_heartbeat,
}
use cfrp.Mux.Session.Events.{
  follow, dispatch, Dispatch, too_long, with_body, alone, start, on_header, on_body, open_stream,
  on_heartbeat, run_task, run_first, on_strand, second,
}
use cfrp.Mux.Session.Serial.{
  Serial, IsSerial, then-IsSerial, async_send_frame-IsSerial, skip-IsSerial, act_rule,
  stop-IsSerial, handle_frame-IsSerial, run_on-IsSerial,
}

pub start-IsSerial : IsSerial start
unfolding start
start-IsSerial =
    then-IsSerial _ _ (then-IsSerial _ _ listens (act_rule read_header refl))
      (act_rule (arm_heartbeat (30 * second)) refl)
  where
    listens : IsSerial (λ s. some (record s { listening = true }, []))
    listens = record { at = λ s. IsSerial.at skip-IsSerial s }

pub follow-IsSerial : (h : Header) → IsSerial (follow h)
unfolding follow
follow-IsSerial h = by_dispatch (dispatch h)
  where
    by_dispatch :
        (d : Dispatch)
        → IsSerial (elim d [
          | too_long ↦ stop
          | with_body ↦ act (Action.read_body h)
          | alone ↦ handle_frame h [] >> act read_header
        ])
    by_dispatch too_long = stop-IsSerial
    by_dispatch with_body = act_rule _ refl
    by_dispatch alone = then-IsSerial _ _ (handle_frame-IsSerial h []) (act_rule read_header refl)

pub on_header-IsSerial :
    (ec : ErrorCode) (bytes : List ℕ) (now : ℕ) → IsSerial (on_header ec bytes now)
unfolding on_header
on_header-IsSerial ec bytes now = record {
  at = λ s.
      if_rule (Serial s) s.stopped (λ _. IsSerial.at skip-IsSerial s)
        (λ _.
          if_rule (Serial s) (is_success ec) (λ _. decoded s (decode bytes))
            (λ _. IsSerial.at stop-IsSerial s));
}
  where
    decoded :
        (s : Session) (o : Option Header)
        → Serial s (elim o [ none ↦ none | some h ↦ follow h (record s { last_read_time = now }) ])
    decoded s none = tt
    decoded s (some h) = IsSerial.at (follow-IsSerial h) (record s { last_read_time = now })

pub on_body-IsSerial :
    (h : Header) (ec : ErrorCode) (body : Block) (now : ℕ) → IsSerial (on_body h ec body now)
unfolding on_body
on_body-IsSerial h ec body now = record {
  at = λ s.
      if_rule (Serial s) s.stopped (λ _. IsSerial.at skip-IsSerial s)
        (λ _.
          if_rule (Serial s) (is_success ec)
            (λ _. IsSerial.at handled (record s { last_read_time = now }))
            (λ _. IsSerial.at stop-IsSerial s));
}
  where
    handled : IsSerial (handle_frame h body >> act read_header)
    handled = then-IsSerial _ _ (handle_frame-IsSerial h body) (act_rule read_header refl)

pub open_stream-IsSerial : IsSerial open_stream
unfolding open_stream
open_stream-IsSerial = record { at = λ s. IsSerial.at (asked s) _ }
  where
    asked :
        (s : Session)
        → IsSerial (
            async_send_frame (control_header data_type syn s.next_stream_id) [] 0 ignore
            >> act (opened s.made))
    asked s =
        then-IsSerial _ _
          (async_send_frame-IsSerial (control_header data_type syn s.next_stream_id) [] 0 ignore)
          (act_rule _ refl)

pub on_heartbeat-IsSerial : (ec : ErrorCode) (now : ℕ) → IsSerial (on_heartbeat ec now)
unfolding on_heartbeat
on_heartbeat-IsSerial ec now = record {
  at = λ s.
      if_rule (Serial s) (not (is_success ec)) (λ _. IsSerial.at skip-IsSerial s)
        (λ _.
          if_rule (Serial s) (ltb (120 * second) (now - s.last_read_time))
            (λ _. IsSerial.at stop-IsSerial s) (λ _. IsSerial.at pings s));
}
  where
    pings : IsSerial (
        async_send_frame (control_header ping_type syn 0) [] 0 ignore
        >> act (arm_heartbeat (30 * second)))
    pings =
        then-IsSerial _ _ (async_send_frame-IsSerial (control_header ping_type syn 0) [] 0 ignore)
          (act_rule (arm_heartbeat (30 * second)) refl)

pub run_task-IsSerial : (t : Task) → IsSerial (run_task t)
unfolding run_task
run_task-IsSerial (data_task ref block) = run_on-IsSerial ref _
run_task-IsSerial (window_task ref delta) = run_on-IsSerial ref _
run_task-IsSerial (close_task ref) = run_on-IsSerial ref _
run_task-IsSerial (fail_task ref ec) = run_on-IsSerial ref _

pub on_strand-IsSerial : IsSerial on_strand
unfolding on_strand
on_strand-IsSerial = record { at = λ s. first s s.tasks }
  where
    first : (s : Session) (ts : List Task) → Serial s (run_first ts s)
    first s [] = IsSerial.at skip-IsSerial s
    first s (t ∷ ts) = IsSerial.at (run_task-IsSerial t) (record s { tasks = ts })
