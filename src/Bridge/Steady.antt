-- ===== src/Bridge/Steady.antt =====
-- That a bridge goes on in both directions, one task at a time, and stops once (src/common/async_bridge.cpp).
use cfrp.Base.{
  ℕ, ◌+◌, ◌≤◌, ◌≡◌, refl, sym, ap, ◌∙◌, List, [], ◌∷◌, ◌++◌, Option, none, some, Bool, true, false,
  if◌then◌else◌, if_rule, arith, inl, inr, ◌⊎◌, Takes, front, behind, ltb, true≢false,
}
use cfrp.Protocol.Compressed.{Zstd, max_message_size}
use cfrp.Bridge.{
  Direction, forth, back, Bridge, Write, Task, read_some, read_header, read_body, wait, write,
  close_both, call_on_stop, Step, new, handle_stop, start, do_read, reads, write_op, counts, limit,
  on_read_some, on_header, restored, write_back, on_body, on_written, forward,
}
use cfrp.Bridge.Runs.{
  Answers, has_read, has_header, has_body, granted, has_written, closed, called, Reach, started,
  answered,
}

-- Whether a direction is another.
abbrev pub is : Direction → Direction → ℕ
is forth forth = 1
is forth back = 0
is back forth = 0
is back back = 1

-- The tasks of one direction.
abbrev pub one : Direction → Task → ℕ
one d (read_some e) = is d e
one d read_header = is d back
one d (read_body n compressed) = is d back
one d (wait n w) = is d w.direction
one d (write w) = is d w.direction
one d close_both = 0
one d call_on_stop = 0

abbrev pub count : Direction → List Task → ℕ
count d [] = 0
count d (t ∷ ts) = one d t + count d ts

abbrev pub stop_one : Task → ℕ
stop_one (read_some e) = 0
stop_one read_header = 0
stop_one (read_body n compressed) = 0
stop_one (wait n w) = 0
stop_one (write w) = 0
stop_one close_both = 0
stop_one call_on_stop = 1

-- How often `on_stop_` was called.
abbrev pub stops : List Task → ℕ
stops [] = 0
stops (t ∷ ts) = stop_one t + stops ts

abbrev pub as_number : Bool → ℕ
as_number false = 0
as_number true = 1

count-append : (d : Direction) (ts us : List Task) → count d (ts ++ us) ≡ count d ts + count d us
count-append d [] us = omega arith
count-append d (t ∷ ts) us = omega (arith, count-append d ts us)

stops-append : (ts us : List Task) → stops (ts ++ us) ≡ stops ts + stops us
stops-append [] us = omega arith
stops-append (t ∷ ts) us = omega (arith, stops-append ts us)

count-Takes :
    {t : Task} {ts rest : List Task} (d : Direction)
    → Takes t ts rest
    → count d ts ≡ one d t + count d rest
count-Takes d front = refl
count-Takes {t} d (behind {x} {xs} {rest} k) = omega (arith, count-Takes d k)

-- The task is followed by one of its direction, or the bridge stops.
abbrev Goes : Bridge → Task → Step → Type 0
Goes b t s =
    (s.0.stopped ≡ b.stopped) × (((e : Direction) → count e s.1 ≡ one e t) × (stops s.1 ≡ 0))

abbrev Stops : Bridge → Step → Type 0
Stops b s =
    (s.0.stopped ≡ true)
    × (((e : Direction) → count e s.1 ≡ 0) × (stops s.1 + as_number b.stopped ≡ 1))

abbrev Outcome : Bridge → Task → Step → Type 0
Outcome b t s = Goes b t s ⊎ Stops b s

handle_stop-Stops : (b : Bridge) → Stops b (handle_stop b)
unfolding handle_stop
handle_stop-Stops b = by_stopped b.stopped refl
  where
    by_stopped :
        (x : Bool)
        → b.stopped ≡ x
        → Stops b
            (if x then (b, []) else (record b { stopped = true }, close_both ∷ call_on_stop ∷ []))
    by_stopped true e = (e, ((λ d. refl), omega (arith, ap as_number e)))
    by_stopped false e = (refl, ((λ d. refl), omega (arith, ap as_number e)))

counts-stopped : (w : Write) (b : Bridge) → (counts w b).stopped ≡ b.stopped
counts-stopped w b =
    elim w.direction as (λ d. (counts (record w { direction = d }) b).stopped ≡ b.stopped) [
      | forth ↦ refl
      | back ↦ refl
    ]

write_op-Goes :
    (w : Write) (b : Bridge) (t : Task)
    → ((e : Direction) → one e t ≡ is e w.direction)
    → Goes b t (write_op w b)
unfolding write_op
write_op-Goes w b t h = (counts-stopped w b, ((λ e. omega (arith, h e)), refl))

limit-Goes :
    (w : Write) (b : Bridge) (t : Task)
    → ((e : Direction) → one e t ≡ is e w.direction)
    → Goes b t (limit w b)
unfolding limit
limit-Goes w b t h =
    if_rule {A = Step} (Goes b t) b.limited {x = (b, wait w.counted w ∷ [])} {y = write_op w b}
      (λ _. (refl, ((λ e. omega (arith, h e)), refl))) (λ _. write_op-Goes w b t h)

do_read-Goes :
    (d : Direction) (b : Bridge) (t : Task)
    → ((e : Direction) → one e t ≡ is e d)
    → Goes b t (do_read d b)
unfolding do_read
do_read-Goes d b t h = by_compression b.use_compression d h
  where
    by_compression :
        (c : Bool) (d : Direction)
        → ((e : Direction) → one e t ≡ is e d)
        → Goes b t (b, reads c d ∷ [])
    by_compression false d h = (refl, ((λ e. omega (arith, h e)), refl))
    by_compression true forth h = (refl, ((λ e. omega (arith, h e)), refl))
    by_compression true back h = (refl, ((λ e. omega (arith, h e)), refl))

answer-Outcome : (z : Zstd) (b : Bridge) (t : Task) (s : Step) → Answers z b t s → Outcome b t s
unfolding on_read_some on_header on_body on_written
answer-Outcome z b t s (has_read d none) = inr (handle_stop-Stops b)
answer-Outcome z b t s (has_read d (some bytes)) = inl (
    limit-Goes (record { direction = d; bytes = forward z b.use_compression d bytes; counted = _ })
      b (read_some d) (λ e. refl))
answer-Outcome z b t s (has_header none) = inr (handle_stop-Stops b)
answer-Outcome z b t s (has_header (some (x, (y, (v, w))))) =
    if_rule {A = Step} (Outcome b read_header) (ltb max_message_size _)
      (λ _. inr (handle_stop-Stops b)) (λ _. inl (refl, ((λ e. omega arith), refl)))
answer-Outcome z b t s (has_body n compressed none) = inr (handle_stop-Stops b)
answer-Outcome z b t s (has_body n compressed (some body)) = by_bytes (restored z compressed body)
  where
    by_bytes : (o : Option (List ℕ)) → Outcome b (read_body n compressed) (write_back o b)
    by_bytes none = inr (handle_stop-Stops b)
    by_bytes (some bytes) = inl (
        limit-Goes (record { direction = back; bytes = bytes; counted = _ }) b
          (read_body n compressed) (λ e. refl))
answer-Outcome z b t s (granted n w) = inl (write_op-Goes w b (wait n w) (λ e. refl))
answer-Outcome z b t s (has_written w failed) =
    if_rule {A = Step} (Outcome b (write w)) failed (λ _. inr (handle_stop-Stops b))
      (λ _. inl (do_read-Goes w.direction b (write w) (λ e. refl)))
answer-Outcome z b t s closed = inl (refl, ((λ e. refl), refl))
answer-Outcome z b t s called = inl (refl, ((λ e. refl), refl))

record Inv (b : Bridge) (ts past : List Task) : Type 0 where
  most : (d : Direction) → count d ts ≤ 1
  goes_on : (d : Direction) → b.stopped ≡ false → count d ts ≡ 1
  once : stops past ≡ as_number b.stopped

answered-Inv :
    (b : Bridge) (t : Task) (ts rest past : List Task) (s : Step)
    → Inv b ts past
    → Takes t ts rest
    → Outcome b t s
    → Inv s.0 (rest ++ s.1) (past ++ s.1)
answered-Inv b t ts rest past s v k (inl (e, (c, n))) = record {
  most = λ d. omega (arith, count-append d rest s.1, count-Takes d k, c d, v.most d);
  goes_on =
      λ d h. omega (arith, count-append d rest s.1, count-Takes d k, c d, v.goes_on d (sym e ∙ h));
  once = stops-append past s.1 ∙ (omega (arith, n, v.once) ∙ ap as_number (sym e));
}
answered-Inv b t ts rest past s v k (inr (e, (c, n))) = record {
  most = λ d. omega (arith, count-append d rest s.1, count-Takes d k, c d, v.most d);
  goes_on = λ d h. absurd (true≢false (sym e ∙ h));
  once = stops-append past s.1 ∙ (omega (arith, n, v.once) ∙ ap as_number (sym e));
}

start-count : (c l : Bool) (d : Direction) → count d (start (new c l)).1 ≡ 1
unfolding new do_read
start-count false l forth = refl
start-count false l back = refl
start-count true l forth = refl
start-count true l back = refl

start-stops : (c l : Bool) → stops (start (new c l)).1 ≡ 0
unfolding new do_read
start-stops false l = refl
start-stops true l = refl

Reach-Inv :
    {z : Zstd} {c l : Bool} {b : Bridge} {ts past : List Task}
    → Reach z c l b ts past
    → Inv b ts past
unfolding new
Reach-Inv {z} {c} {l} started = record {
  most = λ d. omega (arith, start-count c l d);
  goes_on = λ d h. start-count c l d;
  once = start-stops c l;
}
Reach-Inv {z} (answered {b} {ts} {past} r t rest s k a) =
    answered-Inv b t ts rest past s (Reach-Inv r) k (answer-Outcome z b t s a)

-- However its reads, writes and waits end, a bridge has at most one task under way in each direction, and
-- exactly one as long as it has not stopped. It calls `on_stop_` once when it stops, and not before.
pub one_task_at_a_time :
    (z : Zstd) (use_compression limited : Bool) (b : Bridge) (ts past : List Task)
    → Reach z use_compression limited b ts past
    → (d : Direction)
    → ((count d ts ≤ 1) × (b.stopped ≡ false → count d ts ≡ 1)) × (stops past ≡ as_number b.stopped)
one_task_at_a_time z c l b ts past r d = let v = Reach-Inv r in ((v.most d, v.goes_on d), v.once)
