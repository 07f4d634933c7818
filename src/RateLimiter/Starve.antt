-- ===== src/RateLimiter/Starve.antt =====
-- When the request in front is granted (`schedule_timer`, src/common/rate_limiter.h), and when not.
use cfrp.Base.{
  ℕ, suc, ◌+◌, ◌-◌, ◌*◌, ◌/◌, ◌≤◌, ◌<◌, ◌≡◌, refl, Bool, true, false, List, [], ◌∷◌, ◌++◌, some,
  if◌then◌else◌, length, arith, if_rule, ap, sym, ◌∙◌, append-nil, leb, true≢false, ◌&&◌, ◌==◌,
  subst, min, le→leb,
}
use native.Mathlib.Nat.{mul-le-mul_right, le-div_iff_mul-le}
use native.Mathlib.Decide.{dec_lt}
use cfrp.RateLimiter.Runs.{Trace, went, Reach, here, request, fires}
use cfrp.RateLimiter.Order.{grants, grants-append}
use cfrp.RateLimiter.{
  RateLimiter, WaitingHandler, Action, grant, arm, million, update_tokens, spend, affords, delay,
  granted, serve, schedule_timer, is_empty, enqueue, async_wait,
}

enough_time :
    (r b tokens d q : ℕ)
    → 0 < r
    → b ≤ r
    → (b * million - tokens) / r ≡ d
    → suc d ≤ q
    → b * million ≤ min (tokens + q * r) (r * million)
enough_time r b tokens d q positive fits e le =
    omega (arith, mul-le-mul_right r le, short, mul-le-mul_right million fits)
  where
    late_by_one : suc d ≤ (b * million - tokens) / r → ⊥
    late_by_one h = omega (arith, e)

    short : b * million - tokens < suc d * r
    short = elim (dec_lt (b * million - tokens) (suc d * r)) [
      | yes lt ↦ lt
      | no ge ↦ elim (late_by_one ((le-div_iff_mul-le positive).1 (omega arith))) [ ]
    ]

-- The request in front is granted by a timer that fires, by the clock of the limiter, one microsecond
-- after the delay that `schedule_timer` asks for, if it is for no more than one second's worth.
pub timer_suffices :
    (clock : ℕ → ℕ) (s : RateLimiter) (w : WaitingHandler) (ws : List WaitingHandler) (d : ℕ)
    → s.waiting_handlers ≡ w ∷ ws
    → 0 < s.bytes_per_sec
    → w.bytes ≤ s.bytes_per_sec
    → delay s w ≡ some d
    → s.last_update + suc d * 1000 ≤ clock (length ws)
    → (rest : List Action) × ((schedule_timer clock s).1 ≡ grant w ∷ rest)
unfolding schedule_timer serve delay update_tokens
timer_suffices clock s w ws d queue positive fits e late =
    let t = update_tokens (clock (length ws)) s in
    (
      (serve clock ws (spend w t)).1,
      ap (λ q. (serve clock q s).1) queue
          ∙ ap
              (λ b.
                (if b
                  then granted w (serve clock ws (spend w t))
                  else (record t { waiting_handlers = w ∷ ws }, arm (delay t w) ∷ [])).1)
              ready,
    )
  where
    due : (w.bytes * million - s.tokens) / s.bytes_per_sec ≡ d
    due = ground (arith, e, positive)

    ready : affords (update_tokens (clock (length ws)) s) w ≡ true
    ready =
        le→leb _ _
          (enough_time s.bytes_per_sec w.bytes s.tokens d _ positive fits due (omega (arith, late)))

-- The request in front is for more than one second's worth.
record Stuck (w : WaitingHandler) (before : List Action) (t : Trace) : Type 0 where
  behind : List WaitingHandler
  queue : t.limiter.waiting_handlers ≡ w ∷ behind
  dear : t.limiter.bytes_per_sec < w.bytes
  positive : 0 < t.limiter.bytes_per_sec
  nothing : grants t.actions ≡ grants before

too_dear :
    (w : WaitingHandler) (s : RateLimiter) (now : ℕ)
    → s.bytes_per_sec < w.bytes
    → affords (update_tokens now s) w ≡ false
unfolding update_tokens
too_dear w s now h =
    below (w.bytes * million) (s.tokens + (now - s.last_update) / 1000 * s.bytes_per_sec)
      (s.bytes_per_sec * million) (omega (arith, h))
  where
    below : (c m n : ℕ) → n < c → leb c (min m n) ≡ false
    below c m n h = ground (arith, h)

-- What a call leaves when it cannot serve the front: nothing granted, and the queue longer at most.
abbrev Blocks : RateLimiter → WaitingHandler → RateLimiter × List Action → Type 0
Blocks s w (u, acts) =
    (u.bytes_per_sec ≡ s.bytes_per_sec)
    × (grants acts ≡ [])
    × ((behind : List WaitingHandler) × (u.waiting_handlers ≡ w ∷ behind))

serve-Blocks :
    (clock : ℕ → ℕ) (w : WaitingHandler) (ws q : List WaitingHandler) (s : RateLimiter)
    → q ≡ w ∷ ws
    → s.bytes_per_sec < w.bytes
    → Blocks s w (serve clock q s)
unfolding serve
serve-Blocks clock w ws q s e h =
    let t = update_tokens (clock (length ws)) s in
    subst (λ x. Blocks s w (serve clock x s)) (sym e)
      (if_rule (Blocks s w) (affords t w)
        (λ yes. elim (true≢false (sym yes ∙ too_dear w s (clock (length ws)) h)) [ ])
        (λ _. (refl, refl, (ws, refl))))

async_wait-Blocks :
    (clock : ℕ → ℕ) (now : ℕ) (v w : WaitingHandler) (ws : List WaitingHandler) (s : RateLimiter)
    → s.waiting_handlers ≡ w ∷ ws
    → 0 < s.bytes_per_sec
    → Blocks s w (async_wait clock now v s)
unfolding async_wait enqueue update_tokens
async_wait-Blocks clock now v w ws s e positive =
    let t = update_tokens now s in
    if_rule (Blocks s w) (s.bytes_per_sec == 0) (λ h. elim (not_zero _ positive h) [ ])
      (λ _.
        if_rule (Blocks s w) (is_empty s.waiting_handlers && affords t v)
          (λ h. elim (waits (first _ _ h)) [ ])
          (λ _.
            if_rule (Blocks s w) (is_empty s.waiting_handlers) (λ h. elim (waits h) [ ])
              (λ _. (refl, refl, (ws ++ (v ∷ []), ap (◌++ (v ∷ [])) e)))))
  where
    not_zero : (n : ℕ) → 0 < n → (n == 0) ≡ true → ⊥
    not_zero n a b = ground (arith, a, b)

    first : (a b : Bool) → (a && b) ≡ true → a ≡ true
    first true b h = refl
    first false b h = cc

    waits : is_empty s.waiting_handlers ≡ true → ⊥
    waits h = true≢false (sym h ∙ ap is_empty e)

went-Stuck :
    (w : WaitingHandler) (before : List Action) (t : Trace) (vs : List WaitingHandler)
    (r : RateLimiter × List Action)
    → Stuck w before t
    → Blocks t.limiter w r
    → Stuck w before (went t vs r)
went-Stuck w before t vs r k (rate, quiet, (behind, queue)) = record {
  behind = behind;
  queue = queue;
  dear = omega (arith, k.dear, rate);
  positive = omega (arith, k.positive, rate);
  nothing =
      grants-append t.actions r.1
      ∙ ap (grants t.actions ++◌) quiet
      ∙ append-nil (grants t.actions)
      ∙ k.nothing;
}

Reach-Stuck :
    (w : WaitingHandler) {t u : Trace} → Stuck w t.actions t → Reach t u → Stuck w t.actions u
unfolding schedule_timer
Reach-Stuck w k here = k
Reach-Stuck w k (request {t = u} f clock now v le h) =
    let j = Reach-Stuck w k f in
    went-Stuck w _ u (v ∷ []) (async_wait clock now v u.limiter) j
      (async_wait-Blocks clock now v w j.behind u.limiter j.queue j.positive)
Reach-Stuck w k (fires {t = u} f clock h) =
    let j = Reach-Stuck w k f in
    went-Stuck w _ u [] (schedule_timer clock u.limiter) j
      (serve-Blocks clock w j.behind u.limiter.waiting_handlers u.limiter j.queue j.dear)

-- Once a request for more than one second's worth is in front, nothing is granted any more, whatever
-- is asked and however long it takes, as long as the rate stays: neither that request nor another.
pub oversized_blocks :
    (w : WaitingHandler) (ws : List WaitingHandler) (t u : Trace)
    → t.limiter.waiting_handlers ≡ w ∷ ws
    → 0 < t.limiter.bytes_per_sec
    → t.limiter.bytes_per_sec < w.bytes
    → Reach t u
    → grants u.actions ≡ grants t.actions
oversized_blocks w ws t u queue positive dear r = Stuck.nothing (
    Reach-Stuck w
      (record { behind = ws; queue = queue; dear = dear; positive = positive; nothing = refl }) r)
