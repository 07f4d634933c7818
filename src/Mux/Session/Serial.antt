-- ===== src/Mux/Session/Serial.antt =====
-- The write side of a session (`async_send_frame` and `do_write` of `Session`, src/common/mux.cpp):
-- what its parts ask the connection below to write.
pub mod Steps
pub mod Runs
pub mod Answer
pub mod Single
use cfrp.Base.{
  true≢false, ℕ, ◌+◌, ◌≡◌, refl, Bool, true, false, List, [], ◌∷◌, ◌++◌, Option, none, some, ltb,
  ◌==◌, if◌then◌else◌, length, length-append, if_rule, arith, sym, ap, ◌∙◌, not, ◌&&◌,
}
use cfrp.Base.Dict.{lookup, insert, nat_eq}
use cfrp.Mux.Header.{
  Header, has_flag, fin, syn, ack, data_type, window_update_type, ping_type, decode,
}
use cfrp.Mux.Stream.{
  MuxStream, Block, Effect, post, fill, send, remove, OnSent, ignore, fail_pending, finish,
  ErrorCode,
}
use cfrp.Mux.Ops.{Outcome, is_success}
use cfrp.Mux.Session.{
  Session, PendingFrame, Action, Run, ◌>>◌, act, skip, read_header, read_body, write_out,
  close_underlying, cancel_heartbeat, arm_heartbeat, accept, opened, to_user, write_front, do_write,
  async_send_frame, remove_stream, perform, perform_all, on_stream, with_object, run_on, post_task,
  stop, accept_stream, handle_data_frame, answer_ping, handle_frame, if_known, at_stream, deliver,
  Task, data_task, window_task, close_task, fail_task, is_known, add_stream, control_header,
}
use cfrp.Mux.Session.Events.{
  follow, dispatch, Dispatch, too_long, with_body, alone, start, on_header, on_body, call_back,
  pop_front, on_written, open_stream, on_heartbeat, run_task, run_first, on_strand,
}

-- What the connection is asked to write.
abbrev pub writes : List Action → List (List Block)
writes [] = []
writes (write_out bs ∷ acts) = bs ∷ writes acts
writes (_ ∷ acts) = writes acts

-- How many writes the connection has not answered, by `is_writing_`.
abbrev pub outstanding : Bool → ℕ
outstanding false = 0
outstanding true = 1

-- Nothing waits while nothing is written.
abbrev pub IsServed : Bool → List PendingFrame → Type 0
IsServed w q = w ≡ false → q ≡ []

-- An outcome that asks for a write only where none is outstanding.
abbrev pub SerialFrom : Bool → List PendingFrame → Option (Session × List Action) → Type 0
SerialFrom w q none = Unit
SerialFrom w q (some (s', acts)) =
    IsServed w q
    → IsServed s'.is_writing s'.write_queue
      × (outstanding w + length (writes acts) ≡ outstanding s'.is_writing)

abbrev pub Serial : Session → Option (Session × List Action) → Type 0
Serial s o = SerialFrom s.is_writing s.write_queue o

pub record IsSerial (f : Run) : Type 0 where
  pub at : (s : Session) → Serial s (f s)

pub writes-++ : (acts bs : List Action) → writes (acts ++ bs) ≡ writes acts ++ writes bs
writes-++ [] bs = refl
writes-++ (write_out x ∷ acts) bs = ap (x ∷◌) (writes-++ acts bs)
writes-++ (read_header ∷ acts) bs = writes-++ acts bs
writes-++ (read_body h ∷ acts) bs = writes-++ acts bs
writes-++ (close_underlying ∷ acts) bs = writes-++ acts bs
writes-++ (cancel_heartbeat ∷ acts) bs = writes-++ acts bs
writes-++ (arm_heartbeat t ∷ acts) bs = writes-++ acts bs
writes-++ (accept i ∷ acts) bs = writes-++ acts bs
writes-++ (opened i ∷ acts) bs = writes-++ acts bs
writes-++ (to_user e ∷ acts) bs = writes-++ acts bs

-- Two parts of a session's work, one after the other.
pub then-IsSerial : (f g : Run) → IsSerial f → IsSerial g → IsSerial (f >> g)
then-IsSerial f g a b = record { at = λ s. join s (f s) (a.at s) }
  where
    second :
        (s s' : Session) (xs : List Action) (o : Option (Session × List Action))
        → Serial s (some (s', xs))
        → Serial s' o
        → Serial s (elim o [ none ↦ none | some (s'', ys) ↦ some (s'', xs ++ ys) ])
    second s s' xs none a b = b
    second s s' xs (some (s'', ys)) a b = λ v.
        let (v', e) = a v in
        let (v'', e') = b v' in
        (
          v'',
          omega (arith, e, e', ap length (writes-++ xs ys), length-append (writes xs) (writes ys)),
        )

    join :
        (s : Session) (o : Option (Session × List Action))
        → Serial s o
        → Serial s (elim o [
          | none ↦ none
          | some (s', xs) ↦ elim (g s') [ none ↦ none | some (s'', ys) ↦ some (s'', xs ++ ys) ]
        ])
    join s none a = a
    join s (some (s', xs)) a = second s s' xs (g s') a (b.at s')

-- A step that leaves the write side as it is.
same :
    (w : Bool) (q : List PendingFrame)
    → IsServed w q
    → IsServed w q × (outstanding w + 0 ≡ outstanding w)
same w q v = (v, omega arith)

abbrev enqueued : PendingFrame → Bool → List PendingFrame → Session → Option (Session × List Action)
enqueued p w q s =
    let s' = record s { write_queue = q ++ (p ∷ []) } in
    if w then some (s', []) else do_write (record s' { is_writing = true })

enqueued-Serial :
    (p : PendingFrame) (w : Bool) (q : List PendingFrame) (s : Session)
    → s.is_writing ≡ w
    → SerialFrom w q (enqueued p w q s)
unfolding do_write
enqueued-Serial p true q s e =
    λ v. ((λ h. elim (true≢false (sym e ∙ h)) [ ]), ap outstanding (sym e))
enqueued-Serial p false [] s e = λ v. ((λ h. elim (true≢false h) [ ]), refl)
enqueued-Serial p false (x ∷ q) s e = λ v. ((λ h. elim (true≢false h) [ ]), refl)

pub async_send_frame-IsSerial :
    (h : Header) (bs : List Block) (ref : ℕ) (k : OnSent) → IsSerial (async_send_frame h bs ref k)
unfolding async_send_frame do_write
async_send_frame-IsSerial h bs ref k = record {
  at = λ s. enqueued-Serial _ s.is_writing s.write_queue s refl;
}

pub skip-IsSerial : IsSerial skip
skip-IsSerial = record { at = λ s. same s.is_writing s.write_queue }

pub act_rule : (a : Action) → writes (a ∷ []) ≡ [] → IsSerial (act a)
act_rule a e = record { at = λ s v. (v, omega (arith, ap length e)) }

pub post_task-IsSerial : (t : Task) → IsSerial (post_task t)
post_task-IsSerial t = record { at = λ s. same s.is_writing s.write_queue }

-- A choice between two pieces of work.
pub if-IsSerial : (b : Bool) (f g : Run) → IsSerial f → IsSerial g → IsSerial (if b then f else g)
if-IsSerial true f g p q = p
if-IsSerial false f g p q = q

if_known-IsSerial :
    (o : Option ℕ) (f : ℕ → Run) → ((ref : ℕ) → IsSerial (f ref)) → IsSerial (if_known o f)
if_known-IsSerial none f p = skip-IsSerial
if_known-IsSerial (some ref) f p = p ref

at_stream-IsSerial :
    (id : ℕ) (f : ℕ → Run) → ((ref : ℕ) → IsSerial (f ref)) → IsSerial (at_stream id f)
at_stream-IsSerial id f p = record {
  at = λ s. IsSerial.at (if_known-IsSerial (lookup id s.streams) f p) s;
}

perform-IsSerial : (ref : ℕ) (e : Effect) → IsSerial (perform ref e)
unfolding perform remove_stream
perform-IsSerial ref (send h bs k) = async_send_frame-IsSerial h bs ref k
perform-IsSerial ref (remove i) = record { at = λ s. same s.is_writing s.write_queue }
perform-IsSerial ref (post k ec n) = act_rule _ refl
perform-IsSerial ref (fill k bs) = act_rule _ refl

perform_all-IsSerial : (ref : ℕ) (es : List Effect) → IsSerial (perform_all ref es)
unfolding perform_all
perform_all-IsSerial ref [] = skip-IsSerial
perform_all-IsSerial ref (e ∷ es) =
    then-IsSerial (perform ref e) (perform_all ref es) (perform-IsSerial ref e)
      (perform_all-IsSerial ref es)

on_stream-IsSerial : (ref : ℕ) (o : Outcome) → IsSerial (on_stream ref o)
unfolding on_stream
on_stream-IsSerial ref none = record { at = λ s. tt }
on_stream-IsSerial ref (some (st, es)) = record {
  at = λ s. IsSerial.at (perform_all-IsSerial ref es) _;
}

pub run_on-IsSerial : (ref : ℕ) (f : MuxStream → Outcome) → IsSerial (run_on ref f)
run_on-IsSerial ref f = record { at = λ s. known s (lookup ref s.objects) }
  where
    known : (s : Session) (o : Option MuxStream) → Serial s (with_object ref o f s)
    known s none = IsSerial.at skip-IsSerial s
    known s (some st) = IsSerial.at (on_stream-IsSerial ref (f st)) s

pub stop-IsSerial : IsSerial stop
unfolding stop
stop-IsSerial = record {
  at = λ s.
      if_rule (Serial s) s.stopped (λ _. same s.is_writing s.write_queue)
        (λ _. same s.is_writing s.write_queue);
}

accept_stream-IsSerial : (id : ℕ) → IsSerial (accept_stream id)
unfolding accept_stream
accept_stream-IsSerial id =
    then-IsSerial _ _ announce
      (async_send_frame-IsSerial (control_header data_type ack id) [] 0 ignore)
  where
    announce :
        IsSerial (λ s. some (add_stream id s, if s.listening then accept s.made ∷ [] else []))
    announce = record {
      at = λ s.
          if_rule (λ acts. Serial s (some (add_stream id s, acts))) s.listening
            (λ _. same s.is_writing s.write_queue) (λ _. same s.is_writing s.write_queue);
    }

deliver-IsSerial : (h : Header) (body : Block) (ref : ℕ) → IsSerial (deliver h body ref)
deliver-IsSerial h body ref =
    then-IsSerial _ _
      (if-IsSerial (ltb 0 (length body)) _ _ (post_task-IsSerial (data_task ref body))
        skip-IsSerial)
      (if-IsSerial (has_flag h.flags fin) _ _ (post_task-IsSerial (close_task ref)) skip-IsSerial)

handle_data_frame-IsSerial : (h : Header) (body : Block) → IsSerial (handle_data_frame h body)
unfolding handle_data_frame
handle_data_frame-IsSerial h body =
    then-IsSerial _ _ opens (at_stream-IsSerial _ _ (deliver-IsSerial h body))
  where
    opens : IsSerial (λ s.
        if has_flag h.flags syn && not (is_known h.stream_id s)
        then accept_stream h.stream_id s
        else skip s)
    opens = record {
      at = λ s.
          if_rule (Serial s) (has_flag h.flags syn && not (is_known h.stream_id s))
            (λ _. IsSerial.at (accept_stream-IsSerial h.stream_id) s)
            (λ _. IsSerial.at skip-IsSerial s);
    }

answer_ping-IsSerial : (h : Header) → IsSerial (answer_ping h)
unfolding answer_ping
answer_ping-IsSerial h =
    if-IsSerial _ _ _ (async_send_frame-IsSerial (control_header ping_type ack 0) [] 0 ignore)
      skip-IsSerial

pub handle_frame-IsSerial : (h : Header) (body : Block) → IsSerial (handle_frame h body)
unfolding handle_frame
handle_frame-IsSerial h body = if-IsSerial _ _ _ (handle_data_frame-IsSerial h body) (
    if-IsSerial _ _ _ (at_stream-IsSerial _ _ λ ref. post_task-IsSerial _)
      (if-IsSerial _ _ _ (answer_ping-IsSerial h) stop-IsSerial))
