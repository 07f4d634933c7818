-- ===== src/RateLimiter/Bounds.antt =====
-- How much a rate limiter grants in a time (src/common/rate_limiter.h).
use cfrp.Base.{
  ℕ, ◌+◌, ◌-◌, ◌*◌, ◌/◌, ◌≤◌, ◌<◌, ◌≡◌, refl, List, [], ◌∷◌, ◌++◌, ◌==◌, if◌then◌else◌, length,
  Bool, true, false, ◌&&◌, arith, if_rule, ap, ◌∙◌, leb→le,
}
use native.Mathlib.Nat.{mul-le-mul_left}
use cfrp.RateLimiter.Runs.{Rises, Trace, initial, went, Reach, here, request, fires}
use cfrp.RateLimiter.{
  RateLimiter, WaitingHandler, Action, grant, arm, million, create, update_tokens, spend, affords,
  granted, serve, schedule_timer, is_empty, enqueue, async_wait,
}

-- The bytes of the requests that are granted.
abbrev pub total : List Action → ℕ
total [] = 0
total (grant w ∷ acts) = w.bytes + total acts
total (arm d ∷ acts) = total acts

-- In units of 10^-9 bytes: what is granted, with what is left, is paid for by what was there and by the
-- time that has passed; and a bucket is never more than full.
pub record Paid (s : RateLimiter) (r : RateLimiter × List Action) : Type 0 where
  pub rate : r.0.bytes_per_sec ≡ s.bytes_per_sec
  pub bound :
      (total r.1 * million + r.0.tokens) * 1000 + s.bytes_per_sec * s.last_update
      ≤ s.tokens * 1000 + s.bytes_per_sec * r.0.last_update
  pub full : s.tokens ≤ s.bytes_per_sec * million → r.0.tokens ≤ r.0.bytes_per_sec * million

-- The elapsed microseconds, times the rate, are no more than the elapsed nanoseconds allow.
earned : (r last now : ℕ) → last ≤ now → (now - last) / 1000 * r * 1000 + r * last ≤ r * now
earned r last now h = scaled ((now - last) / 1000) (omega arith)
  where
    scaled : (q : ℕ) → q * 1000 + last ≤ now → q * r * 1000 + r * last ≤ r * now
    scaled q le = omega (arith, mul-le-mul_left r le)

update_tokens-Paid :
    (s : RateLimiter) (now : ℕ) → s.last_update ≤ now → Paid s (update_tokens now s, [])
unfolding update_tokens
update_tokens-Paid s now h = record {
  rate = refl;
  bound = omega (arith, earned s.bytes_per_sec s.last_update now h);
  full = λ _. omega arith;
}

after-Paid :
    (s t : RateLimiter) (r : RateLimiter × List Action) → Paid s (t, []) → Paid t r → Paid s r
after-Paid s t r a b = record {
  rate = b.rate ∙ a.rate;
  bound = omega (
    arith,
    a.bound,
    b.bound,
    ap (λ x. x * s.last_update) a.rate,
    ap (λ x. x * t.last_update) a.rate,
    ap (λ x. x * r.0.last_update) a.rate,
  );
  full = λ h. b.full (a.full h);
}

granted-Paid :
    (t : RateLimiter) (w : WaitingHandler) (r : RateLimiter × List Action)
    → affords t w ≡ true
    → Paid (spend w t) r
    → Paid t (granted w r)
granted-Paid t w r e a = record {
  rate = a.rate;
  bound = omega (arith, a.bound, leb→le _ _ e);
  full = λ h. a.full (omega (arith, h));
}

same-Paid :
    (s : RateLimiter) (ws : List WaitingHandler) (acts : List Action)
    → total acts ≡ 0
    → Paid s (record s { waiting_handlers = ws }, acts)
same-Paid s ws acts e = record { rate = refl; bound = omega (arith, e); full = λ h. h }

serve-Paid :
    (clock : ℕ → ℕ) (ws : List WaitingHandler) (s : RateLimiter)
    → Rises clock s.last_update (length ws)
    → Paid s (serve clock ws s)
unfolding serve update_tokens
serve-Paid clock [] s h = same-Paid s [] [] refl
serve-Paid clock (w ∷ ws) s h =
    let t = update_tokens (clock (length ws)) s in
    let now = h (length ws) (length ws) (omega arith) (omega arith) in
    after-Paid s t _ (update_tokens-Paid s (clock (length ws)) now.0) (
      if_rule (Paid t) (affords t w)
        (λ e. granted-Paid t w _ e (
          serve-Paid clock ws (spend w t) λ i j a b.
            ((h j (length ws) (omega arith) (omega arith)).1, (h i j a (omega arith)).1)))
        (λ e. same-Paid t (w ∷ ws) _ refl))

enqueue-Paid :
    (clock : ℕ → ℕ) (w : WaitingHandler) (s : RateLimiter)
    → Rises clock s.last_update 1
    → Paid s (enqueue clock w s)
unfolding enqueue schedule_timer
enqueue-Paid clock w s h = by_queue s.waiting_handlers
  where
    by_queue :
        (q : List WaitingHandler)
        → Paid s (
            let s' = record s { waiting_handlers = q ++ (w ∷ []) } in
            if is_empty q then serve clock (q ++ (w ∷ [])) s' else (s', []))
    by_queue [] =
        let s' = record s { waiting_handlers = w ∷ [] } in
        after-Paid s s' _ (same-Paid s (w ∷ []) [] refl) (serve-Paid clock (w ∷ []) s' h)
    by_queue (x ∷ q) = same-Paid s (x ∷ (q ++ (w ∷ []))) [] refl

async_wait-Paid :
    (clock : ℕ → ℕ) (now : ℕ) (w : WaitingHandler) (s : RateLimiter)
    → 0 < s.bytes_per_sec
    → s.last_update ≤ now
    → Rises clock now 1
    → Paid s (async_wait clock now w s)
unfolding async_wait update_tokens
async_wait-Paid clock now w s positive le h =
    let t = update_tokens now s in
    if_rule (Paid s) (s.bytes_per_sec == 0) (λ e. elim (not_zero _ positive e) [ ])
      (λ _. after-Paid s t _ (update_tokens-Paid s now le) (
        if_rule (Paid t) (is_empty s.waiting_handlers && affords t w)
          (λ e. granted-Paid t w (spend w t, []) (second _ _ e) (same-Paid (spend w t) _ [] refl))
          (λ _. enqueue-Paid clock w t h)))
  where
    not_zero : (n : ℕ) → 0 < n → (n == 0) ≡ true → ⊥
    not_zero n a b = ground (arith, a, b)

    second : (a b : Bool) → (a && b) ≡ true → b ≡ true
    second true b e = e
    second false b e = cc

total-append : (xs ys : List Action) → total (xs ++ ys) ≡ total xs + total ys
total-append [] ys = omega arith
total-append (grant w ∷ xs) ys = omega (arith, total-append xs ys)
total-append (arm d ∷ xs) ys = total-append xs ys

-- What holds of every run from a fresh limiter.
pub record Kept (rate start : ℕ) (t : Trace) : Type 0 where
  pub same_rate : t.limiter.bytes_per_sec ≡ rate
  pub paid :
      (total t.actions * million + t.limiter.tokens) * 1000 + rate * start
      ≤ rate * million * 1000 + rate * t.limiter.last_update
  pub full : t.limiter.tokens ≤ rate * million

went-Kept :
    (rate start : ℕ) (t : Trace) (ws : List WaitingHandler) (r : RateLimiter × List Action)
    → Kept rate start t
    → Paid t.limiter r
    → Kept rate start (went t ws r)
went-Kept rate start t ws r k p = record {
  same_rate = p.rate ∙ k.same_rate;
  paid = omega (
    arith,
    k.paid,
    p.bound,
    total-append t.actions r.1,
    ap (λ x. x * t.limiter.last_update) k.same_rate,
    ap (λ x. x * r.0.last_update) k.same_rate,
  );
  full = omega (
    arith,
    p.full (omega (arith, k.full, ap (λ x. x * million) k.same_rate)),
    ap (λ x. x * million) (p.rate ∙ k.same_rate),
  );
}

pub Reach-Kept :
    (rate start : ℕ) {t : Trace} → 0 < rate → Reach (initial rate start) t → Kept rate start t
unfolding create async_wait schedule_timer
Reach-Kept rate start positive here = record {
  same_rate = refl;
  paid = omega arith;
  full = omega arith;
}
Reach-Kept rate start positive (request {t} f clock now w le h) =
    let k = Reach-Kept rate start positive f in
    went-Kept rate start t _ _ k
      (async_wait-Paid clock now w t.limiter (omega (arith, positive, k.same_rate)) le h)
Reach-Kept rate start positive (fires {t} f clock h) =
    went-Kept rate start t _ _ (Reach-Kept rate start positive f)
      (serve-Paid clock t.limiter.waiting_handlers t.limiter h)

-- Whatever is asked of a limiter with a positive rate, and whenever, the bytes that it has granted are
-- no more than one second's worth and what the time since its start allows, and its bucket never
-- holds more than one second's worth. (The first bound is in units of 10^-9 bytes.)
pub grants_bounded :
    (rate start : ℕ) (t : Trace)
    → 0 < rate
    → Reach (initial rate start) t
    → (total t.actions * 1_000_000_000 + rate * start
        ≤ rate * 1_000_000_000 + rate * t.limiter.last_update)
      × (t.limiter.tokens ≤ rate * million)
grants_bounded rate start t positive r =
    let k = Reach-Kept rate start positive r in (omega (arith, k.paid), k.full)
