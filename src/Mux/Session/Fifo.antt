-- ===== src/Mux/Session/Fifo.antt =====
-- The write queue of a session (`async_send_frame` and `do_write`, src/common/mux.cpp) as a queue
-- of frames.
use cfrp.Base.{
  true≢false, ℕ, ◌≡◌, refl, Bool, true, false, List, [], ◌∷◌, ◌++◌, Option, none, some,
  if◌then◌else◌, map, sym, ap, ◌∙◌, ◌≢◌, ap₂, append_assoc, subst,
}
use cfrp.Mux.Header.{Header, encode}
use cfrp.Mux.Stream.{Block, OnSent, ignore, fail_pending, finish, success}
use cfrp.Mux.Session.{
  Session, PendingFrame, Action, async_send_frame, do_write, write_front, write_buffers, non_empty,
  init, write_out, to_user, ◌>>◌,
}
use cfrp.Mux.Session.Events.{on_written, call_back, pop_front}
use cfrp.Mux.Session.Serial.{writes, writes-++, IsServed}

pub record Wire : Type 0 where
  pub session : Session
  -- what `async_send_frame` was called with, and what the connection was asked to write
  pub sent : List (List Block)
  pub out : List (List Block)

abbrev pub idle_wire : Bool → ℕ → Wire
idle_wire is_server now = record { session = init is_server now; sent = []; out = [] }

abbrev pub frame_blocks : Header → List Block → List Block
frame_blocks h bs = encode h ∷ non_empty bs

pub data Flow (w0 : Wire) : Wire → Type 0 where
  idle : Flow w0 w0
  sends :
      {w : Wire}
      → Flow w0 w
      → (h : Header) (bs : List Block) (ref : ℕ) (k : OnSent) (s : Session) (acts : List Action)
      → async_send_frame h bs ref k w.session ≡ some (s, acts)
      → Flow w0 (record {
        session = s;
        sent = w.sent ++ (frame_blocks h bs ∷ []);
        out = w.out ++ writes acts;
      })
  done :
      {w : Wire}
      → Flow w0 w
      → (s : Session) (acts : List Action) → w.session.is_writing ≡ true
      → on_written success w.session ≡ some (s, acts)
      → Flow w0 (record { session = s; sent = w.sent; out = w.out ++ writes acts })

-- The frames that the connection has not seen.
abbrev pub waiting : Bool → List PendingFrame → List (List Block)
waiting false q = map write_buffers q
waiting true [] = []
waiting true (p ∷ q) = map write_buffers q

-- What an outcome adds to the output, beside what then waits.
abbrev Queued : List (List Block) → Option (Session × List Action) → Type 0
Queued blocks none = Unit
Queued blocks (some (s, acts)) =
    IsServed s.is_writing s.write_queue
    × (s.is_writing ≡ true → s.write_queue ≢ [])
    × (writes acts ++ waiting s.is_writing s.write_queue ≡ blocks)

abbrev enqueued : PendingFrame → Bool → List PendingFrame → Session → Option (Session × List Action)
enqueued p w q s =
    let s' = record s { write_queue = q ++ (p ∷ []) } in
    if w then some (s', []) else do_write (record s' { is_writing = true })

cons≢nil : {A : Type 0} {x : A} {xs : List A} → (x ∷ xs) ≢ []
cons≢nil h = cc

map-last :
    (q : List PendingFrame) (p : PendingFrame)
    → map write_buffers (q ++ (p ∷ [])) ≡ map write_buffers q ++ (write_buffers p ∷ [])
map-last [] p = refl
map-last (x ∷ q) p = ap (write_buffers x ∷◌) (map-last q p)

enqueued-Queued :
    (p : PendingFrame) (w : Bool) (q : List PendingFrame) (s : Session)
    → s.is_writing ≡ w
    → IsServed w q
    → (w ≡ true → q ≢ [])
    → Queued (waiting w q ++ (write_buffers p ∷ [])) (enqueued p w q s)
unfolding do_write
enqueued-Queued p true [] s e v n = elim (n refl refl) [ ]
enqueued-Queued p true (x ∷ q) s e v n = (
  λ h. elim (true≢false (sym e ∙ h)) [ ],
  λ h. cons≢nil,
  ap (λ b. waiting b (x ∷ (q ++ (p ∷ [])))) e ∙ map-last q p,
)
enqueued-Queued p false [] s e v n = (λ h. elim (true≢false h) [ ], λ h. cons≢nil, refl)
enqueued-Queued p false (x ∷ q) s e v n = elim (cons≢nil (v refl)) [ ]

next-Queued :
    (acts : List Action) (q : List PendingFrame) (s : Session)
    → s.is_writing ≡ true
    → s.write_queue ≡ q
    → writes acts ≡ []
    → Queued
        (map write_buffers q)
        (elim (write_front q s) [ none ↦ none | some (s', more) ↦ some (s', acts ++ more) ])
next-Queued acts [] s w e n = (
  λ h. e,
  λ h. elim (true≢false (sym h)) [ ],
  ap₂ ◌++◌ (writes-++ acts [] ∙ ap (◌++ []) n) (ap (map write_buffers) e),
)
next-Queued acts (p ∷ q) s w e n = (
  λ h. elim (true≢false (sym w ∙ h)) [ ],
  λ h z. cons≢nil (sym e ∙ z),
  ap₂ ◌++◌ (writes-++ acts (write_out (write_buffers p) ∷ []) ∙ ap (◌++ (write_buffers p ∷ [])) n)
      (ap₂ waiting w e),
)

pub record InOrder (w : Wire) : Type 0 where
  pub is_served : IsServed w.session.is_writing w.session.write_queue
  pub busy : w.session.is_writing ≡ true → w.session.write_queue ≢ []
  pub order : w.out ++ waiting w.session.is_writing w.session.write_queue ≡ w.sent

written-Queued :
    (q : List PendingFrame) (s : Session)
    → s.is_writing ≡ true
    → q ≢ []
    → Queued (waiting true q) (((λ t. pop_front success q t) >> do_write) s)
unfolding do_write
written-Queued [] s w n = elim (n refl) [ ]
written-Queued (p ∷ q) s w n = by_callback p.callback
  where
    by_callback :
        (k : OnSent)
        → Queued
            (map write_buffers q)
            ((call_back success p.stream k >> do_write) (record s { write_queue = q }))
    by_callback ignore = next-Queued [] q _ w refl refl
    by_callback fail_pending = next-Queued [] q _ w refl refl
    by_callback (finish handler n) = next-Queued (to_user _ ∷ []) q _ w refl refl

Flow-InOrder :
    (is_server : Bool) (now : ℕ) {w : Wire} → Flow (idle_wire is_server now) w → InOrder w
unfolding init async_send_frame on_written
Flow-InOrder is_server now idle = record {
  is_served = λ _. refl;
  busy = λ h. elim (true≢false (sym h)) [ ];
  order = refl;
}
Flow-InOrder is_server now (sends {w} f h bs ref k s acts e) =
    let v = Flow-InOrder is_server now f in
    let (a, b, c) = subst (Queued _) e (
      enqueued-Queued _ w.session.is_writing w.session.write_queue w.session refl v.is_served
        v.busy) in
    record {
      is_served = a;
      busy = b;
      order =
          append_assoc w.out _ _
          ∙ ap (w.out ++◌) c
          ∙ sym (append_assoc w.out _ _)
          ∙ ap (◌++ (frame_blocks h bs ∷ [])) v.order;
    }
Flow-InOrder is_server now (done {w} f s acts t e) =
    let v = Flow-InOrder is_server now f in
    let (a, b, c) =
      subst (Queued _) e (written-Queued w.session.write_queue w.session t (v.busy t)) in
    record {
      is_served = a;
      busy = b;
      order =
          append_assoc w.out _ _
          ∙ ap (w.out ++◌) (c ∙ ap (λ x. waiting x w.session.write_queue) (sym t))
          ∙ v.order;
    }

-- From the start of a session on, while the connection accepts what it is given: the writes asked for
-- are the frames in the order in which they were sent, each one whole and once; the rest still waits.
pub frames_in_order :
    (is_server : Bool) (now : ℕ) (w : Wire)
    → Flow (idle_wire is_server now) w
    → w.out ++ waiting w.session.is_writing w.session.write_queue ≡ w.sent
frames_in_order is_server now w f = InOrder.order (Flow-InOrder is_server now f)
