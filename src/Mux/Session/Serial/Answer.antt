-- ===== src/Mux/Session/Serial/Answer.antt =====
-- The end of a write (the handler in `Session::do_write`, src/common/mux.cpp).
use cfrp.Base.{
  true≢false, ℕ, ◌≤◌, ◌≡◌, refl, Bool, true, false, List, [], ◌∷◌, ◌++◌, Option, none, some,
  if◌then◌else◌, length, arith, sym, ap, ap₂, ◌∙◌, if_rule,
}
use cfrp.Mux.Stream.{OnSent, ignore, fail_pending, finish, ErrorCode}
use cfrp.Mux.Ops.{is_success}
use cfrp.Mux.Session.{
  Session, PendingFrame, Action, ◌>>◌, do_write, write_front, stop, cancel_heartbeat,
  close_underlying, to_user, write_buffers, write_out, shut,
}
use cfrp.Mux.Session.Events.{call_back, pop_front}
use cfrp.Mux.Session.Serial.{writes, writes-++, outstanding, IsServed}

-- What follows an answer: the next write, if there is one and the connection works.
abbrev pub Answered : Bool → Option (Session × List Action) → Type 0
Answered ok none = Unit
Answered ok (some (s, acts)) =
    IsServed s.is_writing s.write_queue
    × (length (writes acts) ≤ outstanding s.is_writing)
    × (ok ≡ true → length (writes acts) ≡ outstanding s.is_writing)

abbrev followed : List Action → Option (Session × List Action) → Option (Session × List Action)
followed acts o = elim o [ none ↦ none | some (s, more) ↦ some (s, acts ++ more) ]

next_write :
    (acts : List Action) (q : List PendingFrame) (s : Session)
    → s.is_writing ≡ true
    → s.write_queue ≡ q
    → writes acts ≡ []
    → Answered true (followed acts (write_front q s))
next_write acts [] s w e n = (
  λ h. e,
  omega (arith, ap length (writes-++ acts [] ∙ ap (◌++ []) n)),
  λ _. omega (arith, ap length (writes-++ acts [] ∙ ap (◌++ []) n)),
)
next_write acts (p ∷ q) s w e n =
    let one =
      ap length
        (writes-++ acts (write_out (write_buffers p) ∷ []) ∙ ap (◌++ (write_buffers p ∷ [])) n) in
    (
      λ h. elim (true≢false (sym w ∙ h)) [ ],
      omega (arith, one, ap outstanding w),
      λ _. omega (arith, one, ap outstanding w),
    )

no_write :
    (acts more : List Action) (s : Session)
    → s.is_writing ≡ true
    → writes acts ≡ []
    → writes more ≡ []
    → Answered false (some (s, acts ++ more))
no_write acts more s w n m =
    let zero = ap length (writes-++ acts more ∙ ap₂ ◌++◌ n m) in
    (
      λ h. elim (true≢false (sym w ∙ h)) [ ],
      omega (arith, zero),
      λ h. elim (true≢false (sym h)) [ ],
    )

stop_write :
    (acts : List Action) (s : Session)
    → s.is_writing ≡ true
    → writes acts ≡ []
    → Answered false (followed acts (stop s))
unfolding stop
stop_write acts s w n =
    if_rule (λ o. Answered false (followed acts o)) s.stopped (λ _. no_write acts [] s w n refl)
      (λ _. no_write acts (cancel_heartbeat ∷ close_underlying ∷ []) (shut s) w n refl)

end_write :
    (ok : Bool) (acts : List Action) (s : Session)
    → s.is_writing ≡ true
    → writes acts ≡ []
    → Answered ok (followed acts ((if ok then do_write else stop) s))
unfolding do_write
end_write true acts s w n = next_write acts s.write_queue s w refl n
end_write false acts s w n = stop_write acts s w n

called_back :
    (ec : ErrorCode) (ref : ℕ) (k : OnSent) (s : Session)
    → s.is_writing ≡ true
    → Answered
        (is_success ec)
        ((call_back ec ref k >> (if is_success ec then do_write else stop)) s)
called_back ec ref ignore s w = end_write (is_success ec) [] s w refl
called_back ec ref (finish handler n) s w = end_write (is_success ec) (to_user _ ∷ []) s w refl
called_back ec ref fail_pending s w =
    if_rule (λ f. Answered (is_success ec) ((f >> (if is_success ec then do_write else stop)) s))
      (is_success ec) (λ _. end_write (is_success ec) [] s w refl)
      (λ _. end_write (is_success ec) [] _ w refl)

pub on_written-Answered :
    (ec : ErrorCode) (q : List PendingFrame) (s : Session)
    → s.is_writing ≡ true
    → Answered
        (is_success ec)
        (((λ t. pop_front ec q t) >> (if is_success ec then do_write else stop)) s)
on_written-Answered ec [] s w = end_write (is_success ec) [] s w refl
on_written-Answered ec (p ∷ q) s w =
    called_back ec p.stream p.callback (record s { write_queue = q }) w
