-- ===== src/Mux/Read/Order.antt =====
-- What `do_read_from_buffer` hands on, and what it gives back to the peer.
use cfrp.Base.{
  ℕ, ◌+◌, ◌^◌, ◌<◌, ◌≡◌, refl, sym, ap, ◌∙◌, inl, inr, true, List, [], ◌∷◌, ◌++◌, Option,
  append-nil, arith, length, length-append, leb, leb_false→lt, Bool-cases, take-append-drop,
}
use cfrp.Mux.Stream.{MuxStream, PendingRead, Effect, post, fill, send, remove, ErrorCode, eof}
use cfrp.Mux.Read.Copy.{Copied, Copies, copy_out-Copies, unread, IsInFront}
use cfrp.Mux.Read.Loop.{
  Round, wait, fault, next, round, round_rule, hand_on, credit, update_threshold,
}

abbrev pub delivered_of : Effect → List ℕ
delivered_of (fill k bs) = bs
delivered_of (post k ec n) = []
delivered_of (send h bs k) = []
delivered_of (remove i) = []

abbrev pub delivered : List Effect → List ℕ
delivered [] = []
delivered (e ∷ es) = delivered_of e ++ delivered es

abbrev pub credit_of : Effect → ℕ
credit_of (send h bs k) = h.length
credit_of (post k ec n) = 0
credit_of (fill k bs) = 0
credit_of (remove i) = 0

abbrev pub credited : List Effect → ℕ
credited [] = 0
credited (e ∷ es) = credit_of e + credited es

abbrev pub unread_bytes : MuxStream → List ℕ
unread_bytes s = unread s.read_queue s.read_queue_offset

abbrev pub IsSound : MuxStream → Type 0
IsSound s = IsInFront s.read_queue s.read_queue_offset

-- No `uint32_t` length of a window update wraps.
abbrev pub IsSmall : MuxStream → Type 0
IsSmall s = s.consumed_since_last_update + length (unread_bytes s) < 2 ^ 32

-- What holds between a state, what was done and the state after it.
pub record Served (s : MuxStream) (es : List Effect) (s' : MuxStream) : Type 0 where
  pub bytes : delivered es ++ unread_bytes s' ≡ unread_bytes s
  pub sound : IsSound s'
  pub window :
      credited es + s'.consumed_since_last_update
      ≡ s.consumed_since_last_update + length (delivered es)
  pub below :
      s.consumed_since_last_update < update_threshold
      → s'.consumed_since_last_update < update_threshold
  pub small : IsSmall s'

-- Handing on a copy and counting it.
credit-Served :
    (s : MuxStream) (p : PendingRead) (c : Copied)
    → IsSmall s
    → c.bytes ++ unread c.queue c.offset ≡ unread_bytes s
    → IsInFront c.queue c.offset
    → let (s', es) =
        credit true
          (length c.bytes)
          (record s { read_queue = c.queue; read_queue_offset = c.offset }) in
      Served s (fill p.handler c.bytes ∷ es) s'
unfolding credit
credit-Served s p c small e front =
    let room : length c.bytes + length (unread c.queue c.offset) ≡ length (unread_bytes s) =
      sym (length-append c.bytes (unread c.queue c.offset)) ∙ ap length e in
    let all : c.bytes ++ [] ≡ c.bytes = append-nil c.bytes in
    elim (Bool-cases (leb update_threshold (s.consumed_since_last_update + length c.bytes))) [
      | inl t ↦
          rw (t, credit)
            (record {
              bytes = rw all e;
              sound = front;
              window = rw all (omega arith);
              below = λ h. omega arith;
              small = omega arith;
            })
      | inr t ↦
          rw (t, credit)
            (record {
              bytes = rw all e;
              sound = front;
              window = rw all (omega arith);
              below = λ h. omega (arith, leb_false→lt update_threshold _ t);
              small = omega arith;
            })
    ]

-- A round serves its reader, or leaves everything as it was; it is never undefined.
abbrev pub Serves : MuxStream → Round → Type 0
Serves s wait = Unit
Serves s fault = ⊥
Serves s (next es s') = Served s es s'

skip-Served :
    (s : MuxStream) (k : ℕ) (ec : ErrorCode) (n : ℕ)
    → IsSound s
    → IsSmall s
    → Served s (post k ec n ∷ []) s
skip-Served s k ec n sound small = record {
  bytes = refl;
  sound = sound;
  window = omega arith;
  below = λ h. h;
  small = small;
}

hand_on-Serves :
    (s : MuxStream) (p : PendingRead) (r : Option Copied)
    → IsSmall s
    → Copies s.read_queue s.read_queue_offset p.size r
    → Serves s (hand_on true s p r)
hand_on-Serves s p r small c = rw (c.returns) (
    credit-Served s p c.result small
      (rw (c.bytes, c.left) (take-append-drop p.size (unread_bytes s))) c.front)

pub round-Serves :
    (s : MuxStream) (p : PendingRead) → IsSound s → IsSmall s → Serves s (round true s p)
round-Serves s p sound small =
    round_rule (Serves s) true s p (λ e r. skip-Served s p.handler eof 0 sound small) (λ e r. tt)
      (λ e w. tt)
      (λ e w.
        hand_on-Serves s p _ small (copy_out-Copies s.read_queue s.read_queue_offset p.size sound))
