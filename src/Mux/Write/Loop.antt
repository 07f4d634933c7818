-- ===== src/Mux/Write/Loop.antt =====
-- `MuxStream::do_write`: cuts the pending writes into data frames while the peer's window lasts.
use cfrp.Base.{
  ◌<◌, ◌≡◌, refl, ◌⊎◌, inl, inr, arith, ℕ, zero, suc, ◌+◌, ◌-◌, ◌*◌, ◌%◌, ◌^◌, Bool, not, List, [],
  ◌∷◌, min, ltb, ◌==◌, if◌then◌else◌,
}
use cfrp.Mux.Header.{Header, data_type}
use cfrp.Mux.Stream.{
  MuxStream, PendingWrite, Effect, post, send, fail_pending, finish, success, connection_reset,
  total_length,
}
use cfrp.Mux.Write.Buffers.{slice, keep, total_length-keep}

-- `protocol::MAX_MESSAGE_SIZE`
abbrev pub max_message_size : ℕ
max_message_size = 1024 * 1024

abbrev pub data_header : ℕ → ℕ → Header
data_header id n = record {
  version = 0;
  type = data_type;
  flags = 0;
  stream_id = id;
  length = n % 2 ^ 32;
}

-- std::min({total_length, remote_window_size_, MAX_MESSAGE_SIZE})
abbrev pub to_send : ℕ → ℕ → ℕ
to_send total window = min total (min window max_message_size)

-- One round: it ends the loop, or it has one effect and goes on with another window and other
-- pending writes.
pub data Round : Type 0 where
  stop : Round
  next : Effect → ℕ → List PendingWrite → Round

-- `alive` is whether `session_.lock()` gives a session.
unfoldable pub round : Bool → ℕ → ℕ → List PendingWrite → Round
round alive id window [] = stop
round alive id window (p ∷ ps) =
    let total = total_length p.buffers in
    let n = to_send total window in
    let h = data_header id n in
    let rest = record p { buffers = keep n p.buffers } in
    if window == 0
    then stop
    else if total == 0
    then next (post p.handler success 0) window ps
    else if not alive
    then next (post p.handler connection_reset 0) window ps
    else if ltb n total
    then next (send h (slice n p.buffers) fail_pending) (window - n) (rest ∷ ps)
    else next (send h (slice n p.buffers) (finish p.handler n)) (window - n) ps

-- The fields that the loop changes, and what it has done.
pub record Written : Type 0 where
  pub window : ℕ
  pub pending : List PendingWrite
  pub effects : List Effect

abbrev pub after : Effect → Written → Written
after e w = record w { effects = e ∷ w.effects }

-- The fuel is in `do_write`.
unfoldable pub write_loop : Bool → ℕ → ℕ → ℕ → List PendingWrite → Written
write_loop alive id zero window ps = record { window = window; pending = ps; effects = [] }
write_loop alive id (suc fuel) window ps = elim (round alive id window ps) [
  | stop ↦ record { window = window; pending = ps; effects = [] }
  | next e window' ps' ↦ after e (write_loop alive id fuel window' ps')
]

-- Every round removes a write, or at least one byte of one.
unfoldable pub work : List PendingWrite → ℕ
work [] = 0
work (p ∷ ps) = 1 + total_length p.buffers + work ps

unfoldable pub do_write : Bool → MuxStream → MuxStream × List Effect
unfolding write_loop round work slice keep
do_write alive s =
    let w =
      write_loop alive s.id (suc (work s.pending_writes)) s.remote_window_size s.pending_writes in
    (record s { remote_window_size = w.window; pending_writes = w.pending }, w.effects)

Round-cases :
    (r : Round)
    → (r ≡ stop) ⊎ ((e : Effect) × (w : ℕ) × (ps : List PendingWrite) × (r ≡ next e w ps))
Round-cases stop = inl refl
Round-cases (next e w ps) = inr (e, w, ps, refl)

-- The rule for the loop: what holds of doing nothing, and is kept by a round before the rest, holds
-- of the whole loop.
pub write_loop_rule {ℓ} :
    (alive : Bool) (id : ℕ) (P : ℕ → List PendingWrite → Written → Type ℓ)
    → ((window : ℕ) (ps : List PendingWrite)
        → P window ps (record { window = window; pending = ps; effects = [] }))
    → ((window : ℕ) (ps : List PendingWrite) (e : Effect) (window' : ℕ) (ps' : List PendingWrite)
          (w : Written)
        → round alive id window ps ≡ next e window' ps'
        → P window' ps' w
        → P window ps (after e w))
    → (fuel window : ℕ) (ps : List PendingWrite) → P window ps (write_loop alive id fuel window ps)
unfolding write_loop
write_loop_rule alive id P base step zero window ps = base window ps
write_loop_rule alive id P base step (suc fuel) window ps =
    elim (Round-cases (round alive id window ps)) [
      | inl e ↦ rw (e, write_loop) (base window ps)
      | inr (x, window', ps', e) ↦
          rw (e, write_loop)
            (step window ps x window' ps' _ e
              (write_loop_rule alive id P base step fuel window' ps'))
    ]

round-work :
    (alive : Bool) (id window : ℕ) (ps : List PendingWrite) {e : Effect} {window' : ℕ}
    {ps' : List PendingWrite}
    → round alive id window ps ≡ next e window' ps'
    → work ps' < work ps
unfolding round work
round-work alive id window [] e = cc
round-work alive id window (p ∷ ps) e =
    ground (arith, total_length-keep (to_send (total_length p.buffers) window) p.buffers)

round-stop :
    (alive : Bool) (id window : ℕ) (ps : List PendingWrite)
    → round alive id window ps ≡ stop
    → (ps ≡ []) ⊎ (window ≡ 0)
unfolding round
round-stop alive id window [] e = inl refl
round-stop alive id window (p ∷ ps) e = ground arith

-- With that much fuel the loop ends by its own test.
pub write_loop_ends :
    (alive : Bool) (id fuel window : ℕ) (ps : List PendingWrite)
    → work ps < fuel
    → let w = write_loop alive id fuel window ps in (w.pending ≡ []) ⊎ (w.window ≡ 0)
unfolding write_loop
write_loop_ends alive id zero window ps h = absurd (omega arith)
write_loop_ends alive id (suc fuel) window ps h = elim (Round-cases (round alive id window ps)) [
  | inl e ↦ rw (e, write_loop) (round-stop alive id window ps e)
  | inr (x, window', ps', e) ↦
      rw (e, write_loop)
        (write_loop_ends alive id fuel window' ps' (omega (arith, round-work alive id window ps e)))
]
