-- ===== src/Mux/Write/Order.antt =====
-- What `do_write` does to the bytes, the window and the handlers.
use cfrp.Base.{
  ℕ, suc, ◌+◌, ◌≤◌, ◌<◌, ◌≡◌, refl, sym, ap, ◌∙◌, ◌⊎◌, Bool, true, List, [], ◌∷◌, ◌++◌,
  append_assoc, map, All, arith, length, take, drop, take-append-drop, take_all,
}
use cfrp.Mux.Stream.{
  MuxStream, PendingWrite, Effect, post, fill, send, remove, ignore, fail_pending, finish, Block,
  join, total_length,
}
use cfrp.Mux.Write.Buffers.{slice, keep, join-slice, join-keep, total_length-slice, length-join}
use cfrp.Mux.Write.Loop.{
  next, round, to_send, write_loop_rule, write_loop_ends, work, do_write, max_message_size,
}

-- The bytes that still wait to be sent, in order.
abbrev pub queued : List PendingWrite → List ℕ
queued [] = []
queued (p ∷ ps) = join p.buffers ++ queued ps

-- The bytes of the frames that were sent, in order, and the lengths that their headers announce.
abbrev pub bytes_of : Effect → List ℕ
bytes_of (send h bodies k) = join bodies
bytes_of (post k ec n) = []
bytes_of (fill k bs) = []
bytes_of (remove i) = []

abbrev pub sent_bytes : List Effect → List ℕ
sent_bytes [] = []
sent_bytes (e ∷ es) = bytes_of e ++ sent_bytes es

abbrev pub length_of : Effect → ℕ
length_of (send h bodies k) = h.length
length_of (post k ec n) = 0
length_of (fill k bs) = 0
length_of (remove i) = 0

abbrev pub announced : List Effect → ℕ
announced [] = 0
announced (e ∷ es) = length_of e + announced es

-- A data frame announces what it carries: at least one byte, and no more than the receiver accepts.
abbrev pub IsFrame : Effect → Type 0
IsFrame (send h bodies k) =
    (h.length ≡ length (join bodies))
    × (0 < h.length)
    × (h.length ≤ max_message_size)
    × (h.type ≡ 0)
IsFrame (post k ec n) = Unit {0}
IsFrame (fill k bs) = Unit {0}
IsFrame (remove i) = Unit {0}

-- The handlers that an effect answers, now or when its frame has gone out.
abbrev pub answered : Effect → List ℕ
answered (send h bodies (finish k n)) = k ∷ []
answered (send h bodies ignore) = []
answered (send h bodies fail_pending) = []
answered (post k ec n) = k ∷ []
answered (fill k bs) = k ∷ []
answered (remove i) = []

abbrev pub all_answered : List Effect → List ℕ
all_answered [] = []
all_answered (e ∷ es) = answered e ++ all_answered es

abbrev pub handlers : List PendingWrite → List ℕ
handlers = map (λ p. p.handler)

split_join :
    (n : ℕ) (bs : List Block) (rest : List ℕ)
    → join (slice n bs) ++ (join (keep n bs) ++ rest) ≡ join bs ++ rest
split_join n bs rest =
    rw (join-slice n bs, join-keep n bs)
      (sym (append_assoc (take n (join bs)) (drop n (join bs)) rest)
        ∙ ap (λ t. t ++ rest) (take-append-drop n (join bs)))

whole_join : (n : ℕ) (bs : List Block) → total_length bs ≤ n → join (slice n bs) ≡ join bs
whole_join n bs h = join-slice n bs ∙ take_all n (join bs) (omega (arith, length-join bs))

empty_join : (bs : List Block) → total_length bs ≡ 0 → join bs ≡ []
empty_join bs h = sym (take_all 0 (join bs) (omega (arith, length-join bs)))

round-bytes :
    (id window : ℕ) (ps : List PendingWrite) {e : Effect} {window' : ℕ} {ps' : List PendingWrite}
    → round true id window ps ≡ next e window' ps'
    → bytes_of e ++ queued ps' ≡ queued ps
unfolding round
round-bytes id window [] e = cc
round-bytes id window (p ∷ ps) e =
    let n : ℕ = to_send (total_length p.buffers) window in
    ground (arith, split_join n p.buffers (queued ps), whole_join n p.buffers, empty_join p.buffers)

round-window :
    (alive : Bool) (id window : ℕ) (ps : List PendingWrite) {e : Effect} {window' : ℕ}
    {ps' : List PendingWrite}
    → round alive id window ps ≡ next e window' ps'
    → (window' + length_of e ≡ window) × IsFrame e
unfolding round
round-window alive id window [] e = cc
round-window alive id window (p ∷ ps) e =
    let n : ℕ = to_send (total_length p.buffers) window in
    ground (arith, length-join (slice n p.buffers), total_length-slice n p.buffers)

round-handlers :
    (alive : Bool) (id window : ℕ) (ps : List PendingWrite) {e : Effect} {window' : ℕ}
    {ps' : List PendingWrite}
    → round alive id window ps ≡ next e window' ps'
    → answered e ++ handlers ps' ≡ handlers ps
unfolding round
round-handlers alive id window [] e = cc
round-handlers alive id window (p ∷ ps) e = ground arith

pub do_write-bytes :
    (s : MuxStream)
    → let (s', es) = do_write true s in
      sent_bytes es ++ queued s'.pending_writes ≡ queued s.pending_writes
unfolding do_write
do_write-bytes s =
    write_loop_rule true s.id (λ window ps w. sent_bytes w.effects ++ queued w.pending ≡ queued ps)
      (λ window ps. refl)
      (λ window ps e window' ps' w r ih.
        append_assoc (bytes_of e) (sent_bytes w.effects) (queued w.pending)
        ∙ ap (◌++◌ (bytes_of e)) ih
        ∙ round-bytes s.id window ps r)
      (suc (work s.pending_writes)) s.remote_window_size s.pending_writes

-- Flow control: `do_write` never sends more than the peer's window, the window shrinks by exactly
-- what was sent, each frame announces the bytes it carries, and none is empty or longer than the
-- receiver accepts.
pub do_write-window :
    (alive : Bool) (s : MuxStream)
    → let (s', es) = do_write alive s in
      (s'.remote_window_size + announced es ≡ s.remote_window_size) × All IsFrame es
unfolding do_write
do_write-window alive s =
    write_loop_rule alive s.id
      (λ window ps w. (w.window + announced w.effects ≡ window) × All IsFrame w.effects)
      (λ window ps. (omega arith, tt))
      (λ window ps e window' ps' w r ih.
        let now : (window' + length_of e ≡ window) × IsFrame e =
          round-window alive s.id window ps r in
        (omega arith, (now.1, ih.1)))
      (suc (work s.pending_writes)) s.remote_window_size s.pending_writes

-- `do_write` ends, with no write left or with the window used up, and every write is answered once:
-- the handlers it answered, followed by those still waiting, are those that waited before.
pub do_write-ends :
    (alive : Bool) (s : MuxStream)
    → let (s', es) = do_write alive s in
      ((s'.pending_writes ≡ []) ⊎ (s'.remote_window_size ≡ 0))
      × (all_answered es ++ handlers s'.pending_writes ≡ handlers s.pending_writes)
unfolding do_write
do_write-ends alive s = (
  write_loop_ends alive s.id (suc (work s.pending_writes)) s.remote_window_size s.pending_writes
      (omega arith),
  write_loop_rule alive s.id
      (λ window ps w. all_answered w.effects ++ handlers w.pending ≡ handlers ps)
      (λ window ps. refl)
      (λ window ps e window' ps' w r ih.
        append_assoc (answered e) (all_answered w.effects) (handlers w.pending)
        ∙ ap (◌++◌ (answered e)) ih
        ∙ round-handlers alive s.id window ps r)
      (suc (work s.pending_writes)) s.remote_window_size s.pending_writes,
)
