-- ===== src/Mux/Ops/Sound.antt =====
-- The read offset and the front block under the operations of `MuxStream` (src/common/mux.cpp).
use cfrp.Base.{
  ℕ, ◌≤◌, ◌≡◌, refl, sym, Bool, true, List, [], ◌∷◌, ◌++◌, arith, length, append_assoc, append-nil,
  drop-append_le, length-append, leb, if_rule,
}
use cfrp.Mux.Stream.{MuxStream, Block, PendingRead, join, max_pending_reads, post, no_buffer_space}
use cfrp.Mux.Read.Copy.{IsInFront, unread}
use cfrp.Mux.Read.Order.{IsSound, IsSmall, Served}
use cfrp.Mux.Read.Serve.{Done, do_read_from_buffer-Done}
use cfrp.Mux.Ops.{async_read_with, handle_data, Outcome}

pub join-append : (bs cs : List Block) → join (bs ++ cs) ≡ join bs ++ join cs
join-append [] cs = refl
join-append (b ∷ bs) cs = rw (join-append bs cs) (sym (append_assoc b (join bs) (join cs)))

front-le : (q : List Block) (offset : ℕ) → IsInFront q offset → offset ≤ length (join q)
front-le [] offset h = omega arith
front-le (b ∷ bs) offset h = omega (arith, length-append b (join bs))

pub unread-push :
    (q : List Block) (offset : ℕ) (b : Block)
    → IsInFront q offset
    → unread (q ++ (b ∷ [])) offset ≡ unread q offset ++ b
unread-push q offset b h =
    rw (join-append q (b ∷ []), append-nil b)
      (drop-append_le offset (join q) b (front-le q offset h))

IsInFront-push :
    (q : List Block) (offset : ℕ) (b : Block)
    → IsInFront q offset
    → IsInFront (q ++ (b ∷ [])) offset
IsInFront-push [] offset b h = omega arith
IsInFront-push (x ∷ xs) offset b h = h

-- A block that arrives is handed on behind what was there.
pub handle_data-Done :
    (s : MuxStream) (b : Block)
    → IsSound s
    → IsSmall (record s { read_queue = s.read_queue ++ (b ∷ []) })
    → Done (record s { read_queue = s.read_queue ++ (b ∷ []) }) (handle_data true s b)
unfolding handle_data
handle_data-Done s b sound small =
    do_read_from_buffer-Done (record s { read_queue = s.read_queue ++ (b ∷ []) })
      (IsInFront-push s.read_queue s.read_queue_offset b sound) small

-- A read that is refused changes nothing; any other is queued and served.
pub async_read-Done :
    (read_all : Bool) (s : MuxStream) (size handler : ℕ)
    → IsSound s
    → IsSmall s
    → Done s (async_read_with read_all true s size handler)
unfolding async_read_with
async_read-Done read_all s size handler sound small =
    if_rule (Done s) (leb max_pending_reads (length s.pending_reads))
      (λ _. record {
        state = s;
        effects = post handler no_buffer_space 0 ∷ [];
        returns = refl;
        served = refused;
      })
      (λ _. requeue (do_read_from_buffer-Done _ sound small))
  where
    refused : Served s (post handler no_buffer_space 0 ∷ []) s
    refused = record {
      bytes = refl;
      sound = sound;
      window = omega arith;
      below = λ h. h;
      small = small;
    }

    requeue :
        {r : Outcome} {ps : List PendingRead} → Done (record s { pending_reads = ps }) r → Done s r
    requeue d = record {
      state = d.state;
      effects = d.effects;
      returns = d.returns;
      served = record {
        bytes = d.served.bytes;
        sound = d.served.sound;
        window = d.served.window;
        below = d.served.below;
        small = d.served.small;
      };
    }

abbrev closed : MuxStream → MuxStream
closed s = record s {
  local_closed = true;
  pending_reads = [];
  pending_writes = [];
  read_queue = [];
}
