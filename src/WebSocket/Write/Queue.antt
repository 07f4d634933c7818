-- ===== src/WebSocket/Write/Queue.antt =====
-- The write queue of a `WebsocketStream` (src/common/websocket_stream.cpp), over the runs of its handlers.
use cfrp.Base.{
  ℕ, ◌≡◌, ◌≢◌, refl, sym, ap, ◌∙◌, subst, List, [], ◌∷◌, ◌++◌, Option, none, some, Bool, true,
  false, length, append-nil, append_assoc,
}
use cfrp.WebSocket.Frame.{Mask}
use cfrp.WebSocket.Write.{
  WriteOp, Writer, Action, async_write_below, call, joined, frame_buffers, pong_buffers, do_write,
  push, async_write, send_pong, answer, next_write, on_written,
}

-- The writes asked of the connection below.
abbrev pub writes : List Action → List (List (List ℕ))
writes [] = []
writes (async_write_below b ∷ acts) = b ∷ writes acts
writes (call h failed n ∷ acts) = writes acts

-- The handlers called, with the size that they are told.
abbrev pub calls : List Action → List (ℕ × ℕ)
calls [] = []
calls (async_write_below b ∷ acts) = calls acts
calls (call h failed n ∷ acts) = (h, n) ∷ calls acts

abbrev pub frames : List WriteOp → List (List (List ℕ))
frames [] = []
frames (op ∷ ops) = op.buffers ∷ frames ops

abbrev pub told : Option (ℕ × ℕ) → List (ℕ × ℕ)
told none = []
told (some h) = h ∷ []

abbrev pub handlers : List WriteOp → List (ℕ × ℕ)
handlers [] = []
handlers (op ∷ ops) = told op.handler ++ handlers ops

-- The first write of the queue is under way while there is one.
abbrev pub waiting : List WriteOp → List WriteOp
waiting [] = []
waiting (op ∷ ops) = ops

abbrev pub IsBusy : Bool → List WriteOp → Type 0
IsBusy true [] = ⊥
IsBusy true (op ∷ ops) = Unit
IsBusy false [] = Unit
IsBusy false (op ∷ ops) = ⊥

-- What was done since the stream was made, with the frames and the handlers that were given to it.
pub data Runs (is_client : Bool)
    : Writer → List (List (List ℕ)) → List (ℕ × ℕ) → List Action → Type 0 where
  begin :
      Runs is_client
        (record { is_client = is_client; write_queue = []; is_writing = false })
        []
        []
        []
  write :
      {w : Writer} {fs : List (List (List ℕ))} {hs : List (ℕ × ℕ)} {acts : List Action}
      → Runs is_client w fs hs acts
      → (mask : Mask) (buffers : List (List ℕ)) (handler : ℕ)
      → Runs is_client
          (async_write mask buffers handler w).0
          (fs ++ (frame_buffers is_client mask buffers ∷ []))
          (hs ++ ((handler, length (joined buffers)) ∷ []))
          (acts ++ (async_write mask buffers handler w).1)
  pong :
      {w : Writer} {fs : List (List (List ℕ))} {hs : List (ℕ × ℕ)} {acts : List Action}
      → Runs is_client w fs hs acts
      → (mask : Mask) (payload : List ℕ)
      → Runs is_client
          (send_pong mask payload w).0
          (fs ++ (pong_buffers is_client mask payload ∷ []))
          hs
          (acts ++ (send_pong mask payload w).1)
  written :
      {w w' : Writer} {fs : List (List (List ℕ))} {hs : List (ℕ × ℕ)} {acts more : List Action}
      → Runs is_client w fs hs acts
      → (failed : Bool) → on_written failed w ≡ some (w', more)
      → Runs is_client w' fs hs (acts ++ more)

pub record Ordered (is_client : Bool) (w : Writer) (fs : List (List (List ℕ))) (hs : List (ℕ × ℕ))
    (acts : List Action) : Type 0 where
  pub client : w.is_client ≡ is_client
  pub busy : IsBusy w.is_writing w.write_queue
  pub sent : writes acts ++ frames (waiting w.write_queue) ≡ fs
  pub answered : calls acts ++ handlers w.write_queue ≡ hs

writes-append : (a b : List Action) → writes (a ++ b) ≡ writes a ++ writes b
writes-append [] b = refl
writes-append (async_write_below x ∷ a) b = ap (◌∷◌ x) (writes-append a b)
writes-append (call h failed n ∷ a) b = writes-append a b

calls-append : (a b : List Action) → calls (a ++ b) ≡ calls a ++ calls b
calls-append [] b = refl
calls-append (async_write_below x ∷ a) b = calls-append a b
calls-append (call h failed n ∷ a) b = ap (◌∷◌ (h, n)) (calls-append a b)

frames-append : (a b : List WriteOp) → frames (a ++ b) ≡ frames a ++ frames b
frames-append [] b = refl
frames-append (op ∷ a) b = ap (◌∷◌ op.buffers) (frames-append a b)

handlers-append : (a b : List WriteOp) → handlers (a ++ b) ≡ handlers a ++ handlers b
handlers-append [] b = refl
handlers-append (op ∷ a) b =
    ap (λ x. told op.handler ++ x) (handlers-append a b)
    ∙ sym (append_assoc (told op.handler) (handlers a) (handlers b))

-- A frame is put behind the others.
push-Ordered :
    (c : Bool) (op : WriteOp) (w : Writer) (fs : List (List (List ℕ))) (hs : List (ℕ × ℕ))
    (acts : List Action)
    → Ordered c w fs hs acts
    → Ordered c
        (push op w).0
        (fs ++ (op.buffers ∷ []))
        (hs ++ told op.handler)
        (acts ++ (push op w).1)
unfolding do_write
push-Ordered c op w fs hs acts o = by_state w.is_writing w.write_queue o.busy o.sent o.answered
  where
    by_state :
        (b : Bool) (q : List WriteOp)
        → IsBusy b q
        → writes acts ++ frames (waiting q) ≡ fs
        → calls acts ++ handlers q ≡ hs
        → Ordered c
            (push op (record { is_client = w.is_client; write_queue = q; is_writing = b })).0
            (fs ++ (op.buffers ∷ []))
            (hs ++ told op.handler)
            (acts
              ++ (push op (record { is_client = w.is_client; write_queue = q; is_writing = b })).1)
    by_state true [] h s a = absurd h
    by_state false (x ∷ q) h s a = absurd h
    by_state false [] h s a = record {
      client = o.client;
      busy = tt;
      sent =
          append-nil _
          ∙ writes-append acts (async_write_below op.buffers ∷ [])
          ∙ ap (λ x. x ++ (op.buffers ∷ [])) (sym (append-nil (writes acts)) ∙ s);
      answered =
          ap (λ x. x ++ (told op.handler ++ []))
            (calls-append acts (async_write_below op.buffers ∷ [])
              ∙ append-nil (calls acts)
              ∙ sym (append-nil (calls acts))
              ∙ a)
          ∙ ap (λ x. hs ++ x) (append-nil (told op.handler));
    }
    by_state true (x ∷ q) h s a = record {
      client = o.client;
      busy = tt;
      sent =
          ap (λ y. y ++ frames (q ++ (op ∷ []))) (ap writes (append-nil acts))
          ∙ ap (λ y. writes acts ++ y) (frames-append q (op ∷ []))
          ∙ sym (append_assoc (writes acts) (frames q) (op.buffers ∷ []))
          ∙ ap (λ y. y ++ (op.buffers ∷ [])) s;
      answered =
          ap (λ y. y ++ handlers ((x ∷ q) ++ (op ∷ []))) (ap calls (append-nil acts))
          ∙ ap (λ y. calls acts ++ y)
              (handlers-append (x ∷ q) (op ∷ [])
                ∙ ap (λ y. handlers (x ∷ q) ++ y) (append-nil (told op.handler)))
          ∙ sym (append_assoc (calls acts) (handlers (x ∷ q)) (told op.handler))
          ∙ ap (λ y. y ++ told op.handler) a;
    }

writes-answer : (failed : Bool) (h : Option (ℕ × ℕ)) → writes (answer failed h) ≡ []
writes-answer failed none = refl
writes-answer failed (some h) = refl

calls-answer : (failed : Bool) (h : Option (ℕ × ℕ)) → calls (answer failed h) ≡ told h
calls-answer failed none = refl
calls-answer failed (some h) = refl

-- The first write is answered, and the next one begins.
next_write-Ordered :
    (c failed : Bool) (op : WriteOp) (ops : List WriteOp) (w : Writer) (fs : List (List (List ℕ)))
    (hs : List (ℕ × ℕ)) (acts : List Action)
    → w.is_client ≡ c
    → writes acts ++ frames ops ≡ fs
    → calls acts ++ (told op.handler ++ handlers ops) ≡ hs
    → IsBusy true (op ∷ ops)
    → w.is_writing ≡ true
    → Ordered c (next_write op ops failed w).0 fs hs (acts ++ (next_write op ops failed w).1)
unfolding do_write
next_write-Ordered c failed op [] w fs hs acts e s a h b = record {
  client = e;
  busy = tt;
  sent =
      append-nil _
      ∙ writes-append acts (answer failed op.handler)
      ∙ ap (λ x. writes acts ++ x) (writes-answer failed op.handler)
      ∙ s;
  answered =
      append-nil _
      ∙ calls-append acts (answer failed op.handler)
      ∙ ap (λ x. calls acts ++ x)
          (calls-answer failed op.handler ∙ sym (append-nil (told op.handler)))
      ∙ a;
}
next_write-Ordered c failed op (next ∷ ops) w fs hs acts e s a h b = record {
  client = e;
  busy = tt;
  sent =
      ap (λ x. x ++ frames ops)
        (writes-append acts (answer failed op.handler ++ (async_write_below next.buffers ∷ []))
          ∙ ap (λ x. writes acts ++ x)
              (writes-append (answer failed op.handler) (async_write_below next.buffers ∷ [])
                ∙ ap (λ x. x ++ (next.buffers ∷ [])) (writes-answer failed op.handler)))
      ∙ append_assoc (writes acts) (next.buffers ∷ []) (frames ops)
      ∙ s;
  answered =
      ap (λ x. x ++ handlers (next ∷ ops))
        (calls-append acts (answer failed op.handler ++ (async_write_below next.buffers ∷ []))
          ∙ ap (λ x. calls acts ++ x)
              (calls-append (answer failed op.handler) (async_write_below next.buffers ∷ [])
                ∙ append-nil _
                ∙ calls-answer failed op.handler))
      ∙ append_assoc (calls acts) (told op.handler) (handlers (next ∷ ops))
      ∙ a;
}

on_written-Ordered :
    (c failed : Bool) (w w' : Writer) (fs : List (List (List ℕ))) (hs : List (ℕ × ℕ))
    (acts more : List Action)
    → Ordered c w fs hs acts
    → on_written failed w ≡ some (w', more)
    → Ordered c w' fs hs (acts ++ more)
unfolding on_written
on_written-Ordered c failed w w' fs hs acts more o e =
    by_state w.is_writing w.write_queue o.busy o.sent o.answered e
  where
    some_inj : {a b : Writer × List Action} → some a ≡ some b → a ≡ b
    some_inj e = cc

    none≢some : {a : Writer × List Action} → none ≢ some a
    none≢some e = cc

    by_state :
        (b : Bool) (q : List WriteOp)
        → IsBusy b q
        → writes acts ++ frames (waiting q) ≡ fs
        → calls acts ++ handlers q ≡ hs
        → on_written failed (record { is_client = w.is_client; write_queue = q; is_writing = b })
          ≡ some (w', more)
        → Ordered c w' fs hs (acts ++ more)
    by_state b [] h s a e = absurd (none≢some e)
    by_state false (op ∷ ops) h s a e = absurd h
    by_state true (op ∷ ops) h s a e =
        subst (λ r. Ordered c r.0 fs hs (acts ++ r.1)) (some_inj e)
          (next_write-Ordered c failed op ops
            (record { is_client = w.is_client; write_queue = op ∷ ops; is_writing = true }) fs hs
            acts o.client s a h refl)

keeps :
    {c : Bool} {w : Writer} {fs : List (List (List ℕ))} {hs : List (ℕ × ℕ)} {acts : List Action}
    → Runs c w fs hs acts
    → Ordered c w fs hs acts
unfolding async_write send_pong
keeps begin = record { client = refl; busy = tt; sent = refl; answered = refl }
keeps {c = c} (write {w} {fs} {hs} {acts} r mask buffers handler) =
    let o = keeps r in
    let op : WriteOp = record {
      buffers = frame_buffers w.is_client mask buffers;
      handler = some (handler, length (joined buffers));
    } in
    subst
      (λ x.
        Ordered c (push op w).0 (fs ++ (frame_buffers x mask buffers ∷ [])) (hs ++ told op.handler)
          (acts ++ (push op w).1))
      o.client (push-Ordered c op w fs hs acts o)
keeps {c = c} (pong {w} {fs} {hs} {acts} r mask payload) =
    let o = keeps r in
    let op : WriteOp = record { buffers = pong_buffers w.is_client mask payload; handler = none } in
    subst
      (λ x.
        Ordered c (push op w).0 (fs ++ (pong_buffers x mask payload ∷ [])) hs
          (acts ++ (push op w).1))
      o.client
      (subst
        (λ h.
          Ordered c (push op w).0 (fs ++ (pong_buffers w.is_client mask payload ∷ [])) h
            (acts ++ (push op w).1))
        (append-nil hs) (push-Ordered c op w fs hs acts o))
keeps {c = c} (written {w} {w'} {fs} {hs} {acts} {more} r failed e) =
    on_written-Ordered c failed w w' fs hs acts more (keeps r) e

-- However writes, pongs and answers follow on each other, failed writes included, what was asked of the
-- connection below are the frames in the order in which they were given to the stream, whole and once; those
-- not yet asked for are behind the write under way in the queue. Each handler is called once, in order, with
-- the size of its payload.
pub Runs-Ordered :
    (c : Bool) (w : Writer) (fs : List (List (List ℕ))) (hs : List (ℕ × ℕ)) (acts : List Action)
    → Runs c w fs hs acts
    → Ordered c w fs hs acts
Runs-Ordered c w fs hs acts r = keeps r
