-- ===== src/Mux/Link/Conserve.antt =====
-- The bytes and the window of a link (src/common/mux.cpp), end to end.
use cfrp.Base.{
  ℕ, ◌+◌, ◌<◌, ◌≡◌, refl, sym, ap, ◌∙◌, inl, true, List, [], ◌∷◌, ◌++◌, arith, length,
  length-append, append_assoc, append-nil, subst, Option, some,
}
use native.Mathlib.Nat.{add-zero}
use cfrp.Mux.Stream.{MuxStream, Block, Effect, join, initial_window, new}
use cfrp.Mux.Write.Order.{queued}
use cfrp.Mux.Read.Order.{unread_bytes, IsSound, IsSmall, Served, delivered}
use cfrp.Mux.Read.Serve.{Done}
use cfrp.Mux.Read.Loop.{update_threshold}
use cfrp.Mux.Ops.{async_write, handle_window_update}
use cfrp.Mux.Ops.Sound.{handle_data-Done, async_read-Done, unread-push, join-append}
use cfrp.Mux.Link.{
  Link, fresh, Step, write, arrive, read, update, Reach, here, next, bodies, credits, accepted,
  took, wrote,
}
use cfrp.Mux.Link.Bytes.{
  sum, sum-append, sum-credits, Sends, IsSettled, async_write-Sends, handle_window_update-Sends,
}

-- All window that the sender does not have is accounted for, and so is every byte that was written.
pub record Inv (l : Link) : Type 0 where
  pub sound : IsSound l.receiver
  pub below : l.receiver.consumed_since_last_update < update_threshold
  pub window :
      l.sender.remote_window_size
        + length (join l.frames)
        + length (unread_bytes l.receiver)
        + l.receiver.consumed_since_last_update
        + sum l.updates
      ≡ initial_window
  pub bytes :
      l.got ++ (unread_bytes l.receiver ++ (join l.frames ++ queued l.sender.pending_writes))
      ≡ l.written
  pub settled : IsSettled l.sender

fresh-Inv : (id : ℕ) → Inv (fresh id)
unfolding new
fresh-Inv id = record {
  sound = refl;
  below = omega arith;
  window = omega arith;
  bytes = refl;
  settled = inl refl;
}

-- The sender's side of a step: it sends, after `A` was added to what waits and `c` to its window.
send-Inv :
    (l : Link) (r : MuxStream × List Effect) (a : List ℕ) (cs : List ℕ) (c : ℕ)
    → Inv l
    → sum l.updates ≡ c + sum cs
    → Sends l.sender (l.sender.remote_window_size + c) (queued l.sender.pending_writes ++ a) r
    → Inv (wrote (record l { updates = cs }) a r)
send-Inv l r a cs c v e d = record {
  sound = v.sound;
  below = v.below;
  window = omega (
    arith,
    v.window,
    d.room,
    ap length (join-append l.frames (bodies r.1)),
    length-append (join l.frames) (join (bodies r.1)),
  );
  bytes =
      rw (join-append l.frames (bodies r.1), ← v.bytes)
        (simp append_assoc
          (ap (λ t. l.got ++ (unread_bytes l.receiver ++ (join l.frames ++ t))) d.bytes));
  settled = d.settled v.settled;
}

-- The receiver's side: it serves from a state `t` with these bytes unread, which is the old one but
-- for the frames that arrived.
serve-Inv :
    (l : Link) (t r : MuxStream) (es : List Effect) (fs : List Block)
    → Inv l
    → Served t es r
    → t.consumed_since_last_update ≡ l.receiver.consumed_since_last_update
    → unread_bytes t ++ join fs ≡ unread_bytes l.receiver ++ join l.frames
    → Inv (took (record l { frames = fs }) r es)
serve-Inv l t r es fs v d ec eb = record {
  sound = d.sound;
  below = d.below (omega (arith, v.below));
  window = omega (
    arith,
    v.window,
    d.window,
    sum-append l.updates (credits es),
    sum-credits es,
    ap length d.bytes,
    length-append (delivered es) (unread_bytes r),
    ap length eb,
    length-append (unread_bytes t) (join fs),
    length-append (unread_bytes l.receiver) (join l.frames),
  );
  bytes =
      append_assoc l.got (delivered es) _
      ∙ ap (◌++◌ l.got) (
          sym (append_assoc (delivered es) (unread_bytes r) _)
          ∙ ap (λ x. x ++ (join fs ++ queued l.sender.pending_writes)) d.bytes
          ∙ sym (append_assoc (unread_bytes t) (join fs) _)
          ∙ ap (λ x. x ++ queued l.sender.pending_writes) eb
          ∙ append_assoc (unread_bytes l.receiver) (join l.frames) _)
      ∙ v.bytes;
  settled = v.settled;
}

small : (l : Link) → Inv l → IsSmall l.receiver
small l v = omega (arith, v.window)

-- A frame that arrives moves its bytes from the way to the read queue.
arrived :
    (l : Link) (b : Block) (bs : List Block)
    → Inv l
    → l.frames ≡ b ∷ bs
    → let t = record (l.receiver) { read_queue = l.receiver.read_queue ++ (b ∷ []) } in
      (unread_bytes t ++ join bs ≡ unread_bytes l.receiver ++ join l.frames) × IsSmall t
arrived l b bs v e =
    let t : MuxStream = record (l.receiver) { read_queue = l.receiver.read_queue ++ (b ∷ []) } in
    let pushed : unread_bytes t ≡ unread_bytes l.receiver ++ b =
      unread-push l.receiver.read_queue l.receiver.read_queue_offset b v.sound in
    (
      rw (pushed, e) (append_assoc (unread_bytes l.receiver) b (join bs)),
      omega (
        arith,
        v.window,
        ap length pushed,
        length-append (unread_bytes l.receiver) b,
        length-append b (join bs),
        ap length (ap join e),
      ),
    )

same_result {ℓ} : {A : Type ℓ} {o : Option A} {a b : A} → o ≡ some a → o ≡ some b → b ≡ a
same_result {a} {b} p q = cc

-- A call that returns is the call that was proved to.
Done-Served :
    (t r : MuxStream) (es : List Effect) {o : Option (MuxStream × List Effect)}
    → Done t o
    → o ≡ some (r, es)
    → Served t es r
Done-Served t r es d e =
    let p : (r, es) ≡ (d.state, d.effects) = same_result d.returns e in
    subst (λ x. Served t x.1 x.0) (sym p) d.served

Step-Inv : {l m : Link} → Step l m → Inv l → Inv m
Step-Inv (write l buffers handler) v =
    send-Inv l (async_write true l.sender buffers handler) (accepted l.sender buffers) l.updates 0 v
      (omega arith) (rw add-zero (async_write-Sends l.sender buffers handler))
Step-Inv (arrive l b bs r es e h) v =
    let a = arrived l b bs v e in
    serve-Inv l _ r es bs v (Done-Served _ r es (handle_data-Done l.receiver b v.sound a.1) h) refl
      a.0
Step-Inv (read l read_all size handler r es h) v =
    serve-Inv l l.receiver r es l.frames v
      (Done-Served l.receiver r es
        (async_read-Done read_all l.receiver size handler v.sound (small l v)) h)
      refl refl
Step-Inv (update l c cs e) v =
    send-Inv l (handle_window_update true l.sender c) [] cs c v (ap sum e)
      (rw append-nil (handle_window_update-Sends l.sender c (omega (arith, v.window, ap sum e))))

pub Reach-Inv : (id : ℕ) {l : Link} → Reach (fresh id) l → Inv l
Reach-Inv id here = fresh-Inv id
Reach-Inv id (next r st) = Step-Inv st (Reach-Inv id r)

-- As long as neither end closes and both sessions live, in any order of writes, reads and arrivals every
-- byte that was accepted for writing is, in order, handed to a reader, waiting in the read queue, on the way, or waiting to be sent; and the peer's window, the
-- bytes on the way, those unread, those not yet given back and the updates on the way add up to the
-- 128 KiB that the stream began with.
pub link_conserves :
    (id : ℕ) (l : Link)
    → Reach (fresh id) l
    → (l.got ++ (unread_bytes l.receiver ++ (join l.frames ++ queued l.sender.pending_writes))
        ≡ l.written)
      × (l.sender.remote_window_size
            + length (join l.frames)
            + length (unread_bytes l.receiver)
            + l.receiver.consumed_since_last_update
            + sum l.updates
          ≡ initial_window)
link_conserves id l r = let v : Inv l = Reach-Inv id r in (v.bytes, v.window)
