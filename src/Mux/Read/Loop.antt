-- ===== src/Mux/Read/Loop.antt =====
-- `MuxStream::do_read_from_buffer` and `check_cleanup`: answers the pending reads, and gives the peer
-- its window back.
use mathlib.Core.Option
use cfrp.Base.{
  ℕ, ◌+◌, ◌-◌, ◌*◌, ◌%◌, ◌^◌, Bool, true, false, not, ◌&&◌, List, [], ◌∷◌, ◌++◌, Option, none, some,
  ltb, leb, if◌then◌else◌, length, ◌≡◌, if_rule,
}
use cfrp.Mux.Header.{window_update_type}
use cfrp.Mux.Stream.{
  MuxStream, PendingRead, Block, Effect, post, fill, send, remove, ignore, eof, total_length,
}
use cfrp.Mux.Read.Copy.{Copied, copy_out}

abbrev pub is_empty : List Block → Bool
is_empty [] = true
is_empty (b ∷ bs) = false

-- The threshold of `consumed_since_last_update_`
abbrev pub update_threshold : ℕ
update_threshold = 32 * 1024

abbrev pub window_update : ℕ → ℕ → Effect
window_update id n =
    send
      (record {
        version = 0;
        type = window_update_type;
        flags = 0;
        stream_id = id;
        length = n % 2 ^ 32;
      })
      [] ignore

-- "Send window update to peer", after `n` bytes were handed on.
unfoldable pub credit : Bool → ℕ → MuxStream → MuxStream × List Effect
credit alive n s =
    let consumed = s.consumed_since_last_update + n in
    if leb update_threshold consumed && alive
    then (record s { consumed_since_last_update = 0 }, window_update s.id consumed ∷ [])
    else (record s { consumed_since_last_update = consumed }, [])

-- A reader that wants its whole buffer waits until there is enough, or until no more can come. The
-- subtraction is that of `size_t`.
unfoldable pub waits : MuxStream → PendingRead → Bool
waits s p =
    p.read_all
    && (ltb ((total_length s.read_queue + 2 ^ 64 - s.read_queue_offset) % 2 ^ 64) p.size
        && not s.remote_closed)

-- What becomes of the first pending read.
pub data Round : Type 0 where
  wait : Round
  fault : Round
  next : List Effect → MuxStream → Round

abbrev pub hand_on : Bool → MuxStream → PendingRead → Option Copied → Round
hand_on alive s p none = fault
hand_on alive s p (some c) =
    let (s', es) =
      credit alive (length c.bytes)
        (record s { read_queue = c.queue; read_queue_offset = c.offset }) in
    next (fill p.handler c.bytes ∷ es) s'

unfoldable pub round : Bool → MuxStream → PendingRead → Round
round alive s p =
    if is_empty s.read_queue
    then (if s.remote_closed then next (post p.handler eof 0 ∷ []) s else wait)
    else if waits s p
    then wait
    else hand_on alive s p (copy_out s.read_queue s.read_queue_offset p.size)

-- Where a round can go.
pub round_rule {ℓ} :
    (P : Round → Type ℓ) (alive : Bool) (s : MuxStream) (p : PendingRead)
    → (is_empty s.read_queue ≡ true
        → s.remote_closed ≡ true
        → P (next (post p.handler eof 0 ∷ []) s))
    → (is_empty s.read_queue ≡ true → s.remote_closed ≡ false → P wait)
    → (is_empty s.read_queue ≡ false → waits s p ≡ true → P wait)
    → (is_empty s.read_queue ≡ false
        → waits s p ≡ false
        → P (hand_on alive s p (copy_out s.read_queue s.read_queue_offset p.size)))
    → P (round alive s p)
unfolding round
round_rule P alive s p ended starved short served =
    if_rule P (is_empty s.read_queue) (λ e. if_rule P s.remote_closed (ended e) (starved e))
      (λ e. if_rule P (waits s p) (short e) (served e))

abbrev pub after : List Effect → MuxStream × List Effect → MuxStream × List Effect
after es (s, es') = (s, es ++ es')

unfoldable pub read_loop : Bool → MuxStream → List PendingRead → Option (MuxStream × List Effect)
read_loop alive s [] = some (record s { pending_reads = [] }, [])
read_loop alive s (p ∷ ps) = elim (round alive s p) [
  | wait ↦ some (record s { pending_reads = p ∷ ps }, [])
  | fault ↦ none
  | next es s' ↦ Option.map (after es) (read_loop alive s' ps)
]

unfoldable pub check_cleanup : Bool → MuxStream → List Effect
check_cleanup alive s =
    if s.local_closed && s.remote_closed && is_empty s.read_queue && alive
    then remove s.id ∷ []
    else []

abbrev pub cleaned : Bool → MuxStream × List Effect → MuxStream × List Effect
cleaned alive (s, es) = (s, es ++ check_cleanup alive s)

unfoldable pub do_read_from_buffer : Bool → MuxStream → Option (MuxStream × List Effect)
unfolding read_loop round credit waits copy_out check_cleanup
do_read_from_buffer alive s = Option.map (cleaned alive) (read_loop alive s s.pending_reads)
