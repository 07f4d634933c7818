-- ===== src/Mux/Link/Bytes.antt =====
-- Sums and joins of what the two ends send each other.
use cfrp.Base.{
  ℕ, ◌+◌, ◌≤◌, ◌≡◌, refl, sym, ap, ◌∙◌, true, List, [], ◌∷◌, ◌++◌, arith, length, length-append,
  append_assoc, append-nil, All, ◌⊎◌, inl, inr, Bool-cases, leb,
}
use cfrp.Mux.Stream.{
  MuxStream, Block, Effect, post, fill, send, remove, join, PendingWrite, max_pending_writes,
}
use cfrp.Mux.Write.Loop.{do_write, max_message_size}
use cfrp.Mux.Write.Order.{
  queued, sent_bytes, announced, IsFrame, do_write-bytes, do_write-window, do_write-ends,
}
use cfrp.Mux.Read.Order.{credited}
use cfrp.Mux.Ops.{async_write, handle_window_update}
use cfrp.Mux.Link.{bodies, credits, accepted}

abbrev pub sum : List ℕ → ℕ
sum [] = 0
sum (n ∷ ns) = n + sum ns

pub sum-append : (xs ys : List ℕ) → sum (xs ++ ys) ≡ sum xs + sum ys
sum-append [] ys = omega arith
sum-append (x ∷ xs) ys = omega (arith, sum-append xs ys)

pub sum-credits : (es : List Effect) → sum (credits es) ≡ credited es
sum-credits [] = refl
sum-credits (send h bs k ∷ es) = omega (arith, sum-credits es)
sum-credits (post k ec n ∷ es) = omega (arith, sum-credits es)
sum-credits (fill k bs ∷ es) = omega (arith, sum-credits es)
sum-credits (remove i ∷ es) = omega (arith, sum-credits es)

pub join-bodies : (es : List Effect) → join (bodies es) ≡ sent_bytes es
join-bodies [] = refl
join-bodies (send h bs k ∷ es) = ap (◌++◌ (join bs)) (join-bodies es)
join-bodies (post k ec n ∷ es) = join-bodies es
join-bodies (fill k bs ∷ es) = join-bodies es
join-bodies (remove i ∷ es) = join-bodies es

pub length-sent_bytes : (es : List Effect) → All IsFrame es → length (sent_bytes es) ≡ announced es
length-sent_bytes [] h = refl
length-sent_bytes (send x bs k ∷ es) h =
    omega (arith, length-append (join bs) (sent_bytes es), length-sent_bytes es h.1)
length-sent_bytes (post k ec n ∷ es) h = omega (arith, length-sent_bytes es h.1)
length-sent_bytes (fill k bs ∷ es) h = omega (arith, length-sent_bytes es h.1)
length-sent_bytes (remove i ∷ es) h = omega (arith, length-sent_bytes es h.1)

pub queued-append : (ps qs : List PendingWrite) → queued (ps ++ qs) ≡ queued ps ++ queued qs
queued-append [] qs = refl
queued-append (p ∷ ps) qs =
    rw (queued-append ps qs) (sym (append_assoc (join p.buffers) (queued ps) (queued qs)))

-- Nothing waits that could be sent.
abbrev pub IsSettled : MuxStream → Type 0
IsSettled s = (s.pending_writes ≡ []) ⊎ (s.remote_window_size ≡ 0)

-- What a call of the sender does to the bytes and to the window.
pub record Sends (s : MuxStream) (window : ℕ) (waiting : List ℕ) (r : MuxStream × List Effect)
    : Type 0 where
  pub bytes : join (bodies r.1) ++ queued r.0.pending_writes ≡ waiting
  pub room : r.0.remote_window_size + length (join (bodies r.1)) ≡ window
  pub settled : IsSettled s → IsSettled r.0

do_write-Sends :
    (t s : MuxStream) (window : ℕ) (waiting : List ℕ)
    → s.remote_window_size ≡ window
    → queued s.pending_writes ≡ waiting
    → Sends t window waiting (do_write true s)
do_write-Sends t s window waiting ew eq =
    let (s', es) = do_write true s in
    record {
      bytes = rw (join-bodies es) (do_write-bytes s ∙ eq);
      room = omega (
        arith,
        do_write-window true s,
        length-sent_bytes es (do_write-window true s).1,
        ap length (join-bodies es),
      );
      settled = λ _. (do_write-ends true s).0;
    }

pub async_write-Sends :
    (s : MuxStream) (buffers : List Block) (handler : ℕ)
    → Sends s s.remote_window_size
        (queued s.pending_writes ++ accepted s buffers)
        (async_write true s buffers handler)
unfolding async_write
async_write-Sends s buffers handler =
    elim (Bool-cases (leb max_pending_writes (length s.pending_writes))) [
      | inl e ↦
          rw (e, async_write)
            (record {
              bytes = sym (append-nil (queued s.pending_writes));
              room = omega arith;
              settled = λ h. h;
            })
      | inr e ↦
          rw (e, async_write)
            (do_write-Sends s _ s.remote_window_size _ refl (
              queued-append s.pending_writes _
              ∙ ap (◌++◌ (queued s.pending_writes)) (append-nil (join buffers))))
    ]

pub handle_window_update-Sends :
    (s : MuxStream) (delta : ℕ)
    → s.remote_window_size + delta ≤ max_message_size
    → Sends s
        (s.remote_window_size + delta)
        (queued s.pending_writes)
        (handle_window_update true s delta)
unfolding handle_window_update
handle_window_update-Sends s delta h =
    do_write-Sends s _ (s.remote_window_size + delta) (queued s.pending_writes) (omega arith) refl
