-- ===== src/Mux/Session/Serial/Single.antt =====
-- The writes under way in a session (src/common/mux.cpp), whatever happens to it.
use cfrp.Base.{
  ℕ, suc, ◌+◌, ◌≤◌, ◌<◌, ◌≡◌, refl, Bool, true, false, List, [], some, arith, ap, ◌||◌, not, subst,
}
use cfrp.Mux.Stream.{ErrorCode}
use cfrp.Mux.Ops.{is_success}
use cfrp.Mux.Session.{Session, Action, init}
use cfrp.Mux.Session.Events.{on_written}
use cfrp.Mux.Session.Serial.{
  outstanding, IsServed, SerialFrom, IsSerial, stop-IsSerial, run_on-IsSerial,
}
use cfrp.Mux.Session.Serial.Steps.{
  start-IsSerial, on_header-IsSerial, on_body-IsSerial, open_stream-IsSerial, on_heartbeat-IsSerial,
  on_strand-IsSerial,
}
use cfrp.Mux.Session.Serial.Runs.{
  Event, react, Trace, first, reacted, answers, Reach, starts, reads_header, reads_body, opens,
  ticks, runs_task, operate, stops, here, event, written,
}
use cfrp.Mux.Session.Serial.Answer.{Answered, on_written-Answered}

react-IsSerial : (e : Event) → IsSerial (react e)
react-IsSerial starts = start-IsSerial
react-IsSerial (reads_header ec bytes now) = on_header-IsSerial ec bytes now
react-IsSerial (reads_body h ec body now) = on_body-IsSerial h ec body now
react-IsSerial opens = open_stream-IsSerial
react-IsSerial (ticks ec now) = on_heartbeat-IsSerial ec now
react-IsSerial runs_task = on_strand-IsSerial
react-IsSerial (operate ref f) = run_on-IsSerial ref f
react-IsSerial stops = stop-IsSerial

pub record Inv (t : Trace) : Type 0 where
  pub is_served : IsServed t.session.is_writing t.session.write_queue
  pub bounded : t.asked ≤ t.answered + outstanding t.session.is_writing
  pub exact : t.failed ≡ false → t.asked ≡ t.answered + outstanding t.session.is_writing

react-Inv :
    (t : Trace) (e : Event) (r : Session × List Action)
    → Inv t
    → react e t.session ≡ some r
    → Inv (reacted t r)
react-Inv t e r v q =
    let (d, c) =
      subst (SerialFrom t.session.is_writing t.session.write_queue) q
        (IsSerial.at (react-IsSerial e) t.session) v.is_served in
    record {
      is_served = d;
      bounded = omega (arith, c, v.bounded);
      exact = λ ok. omega (arith, c, v.exact ok);
    }

writing_of : (w : Bool) (m n : ℕ) → m < n → n ≤ m + outstanding w → w ≡ true
writing_of true m n a b = refl
writing_of false m n a b = elim (impossible a b) [ ]
  where
    impossible : m < n → n ≤ m + 0 → ⊥
    impossible a b = omega arith

succeeded : (failed ok : Bool) → (failed || not ok) ≡ false → (failed ≡ false) × (ok ≡ true)
succeeded failed ok e = ground arith

answers-Inv :
    (t : Trace) (ec : ErrorCode) (r : Session × List Action)
    → Inv t
    → t.answered < t.asked
    → on_written ec t.session ≡ some r
    → Inv (answers ec t r)
unfolding on_written
answers-Inv t ec r v lt q =
    let w = writing_of t.session.is_writing _ _ lt v.bounded in
    let (d, most, all) =
      subst (Answered (is_success ec)) q
        (on_written-Answered ec t.session.write_queue t.session w) in
    record {
      is_served = d;
      bounded = omega (arith, most, v.bounded, ap outstanding w);
      exact = λ e.
          let (ok, good) = succeeded t.failed (is_success ec) e in
          omega (arith, all good, v.exact ok, ap outstanding w);
    }

Reach-Inv : (is_server : Bool) (now : ℕ) {t : Trace} → Reach (first is_server now) t → Inv t
unfolding init
Reach-Inv is_server now here = record {
  is_served = λ _. refl;
  bounded = omega arith;
  exact = λ _. omega arith;
}
Reach-Inv is_server now (event {t} p e r q) = react-Inv t e r (Reach-Inv is_server now p) q
Reach-Inv is_server now (written {t} p ec r lt q) =
    answers-Inv t ec r (Reach-Inv is_server now p) lt q

at_most_one : (w : Bool) → outstanding w ≤ 1
at_most_one true = omega arith
at_most_one false = omega arith

-- However the handlers of a session interleave, from its start on: at any time the connection has at
-- most one write that it has not answered, and as long as no write has failed, a frame can wait only
-- while there is one.
pub one_write_at_a_time :
    (is_server : Bool) (now : ℕ) (t : Trace)
    → Reach (first is_server now) t
    → (t.asked ≤ suc t.answered)
      × (t.failed ≡ false → t.asked ≡ t.answered → t.session.write_queue ≡ [])
one_write_at_a_time is_server now t p =
    let v = Reach-Inv is_server now p in
    (
      omega (arith, v.bounded, at_most_one t.session.is_writing),
      λ ok same. v.is_served (idle t.session.is_writing _ _ same (v.exact ok)),
    )
  where
    idle : (w : Bool) (m n : ℕ) → m ≡ n → m ≡ n + outstanding w → w ≡ false
    idle true m n a b = elim (impossible a b) [ ]
      where
        impossible : m ≡ n → m ≡ n + 1 → ⊥
        impossible a b = omega arith
    idle false m n a b = refl
