-- ===== src/RateLimiter/Order.antt =====
-- The queue of a rate limiter (src/common/rate_limiter.h): which requests are granted, in which order.
use cfrp.Base.{
  ℕ, ◌<◌, ◌≡◌, refl, Bool, true, List, [], ◌∷◌, ◌++◌, length, arith, if_rule, ap, sym, ◌∙◌,
  append-nil, append_assoc, ◌&&◌, ◌==◌,
}
use cfrp.RateLimiter.Bounds.{Kept, Reach-Kept}
use cfrp.RateLimiter.Runs.{Trace, initial, Reach, here, request, fires}
use cfrp.RateLimiter.{
  RateLimiter, WaitingHandler, Action, grant, arm, create, update_tokens, spend, affords, serve,
  schedule_timer, is_empty, enqueue, async_wait,
}

-- The requests that are granted.
abbrev pub grants : List Action → List WaitingHandler
grants [] = []
grants (grant w ∷ acts) = w ∷ grants acts
grants (arm d ∷ acts) = grants acts

pub grants-append : (xs ys : List Action) → grants (xs ++ ys) ≡ grants xs ++ grants ys
grants-append [] ys = refl
grants-append (grant w ∷ xs) ys = ap (w ∷◌) (grants-append xs ys)
grants-append (arm d ∷ xs) ys = grants-append xs ys

-- An outcome that has granted the first of these requests, and keeps the others.
abbrev pub Serves : List WaitingHandler → RateLimiter × List Action → Type 0
Serves q (s, acts) = grants acts ++ s.waiting_handlers ≡ q

serve-Serves :
    (clock : ℕ → ℕ) (ws : List WaitingHandler) (s : RateLimiter) → Serves ws (serve clock ws s)
unfolding serve
serve-Serves clock [] s = refl
serve-Serves clock (w ∷ ws) s =
    let t = update_tokens (clock (length ws)) s in
    if_rule (Serves (w ∷ ws)) (affords t w) (λ _. ap (w ∷◌) (serve-Serves clock ws (spend w t)))
      (λ _. refl)

enqueue-Serves :
    (clock : ℕ → ℕ) (w : WaitingHandler) (s : RateLimiter)
    → Serves (s.waiting_handlers ++ (w ∷ [])) (enqueue clock w s)
unfolding enqueue schedule_timer
enqueue-Serves clock w s =
    if_rule (Serves (s.waiting_handlers ++ (w ∷ []))) (is_empty s.waiting_handlers)
      (λ _. serve-Serves clock _ _) (λ _. refl)

first_in_line :
    (q : List WaitingHandler) (w : WaitingHandler) (b : Bool)
    → (is_empty q && b) ≡ true
    → w ∷ q ≡ q ++ (w ∷ [])
first_in_line [] w b e = refl
first_in_line (x ∷ q) w b e = cc

async_wait-Serves :
    (clock : ℕ → ℕ) (now : ℕ) (w : WaitingHandler) (s : RateLimiter)
    → 0 < s.bytes_per_sec
    → Serves (s.waiting_handlers ++ (w ∷ [])) (async_wait clock now w s)
unfolding async_wait update_tokens
async_wait-Serves clock now w s positive =
    let t = update_tokens now s in
    if_rule (Serves (s.waiting_handlers ++ (w ∷ []))) (s.bytes_per_sec == 0)
      (λ e. elim (not_zero _ positive e) [ ])
      (λ _.
        if_rule (Serves (s.waiting_handlers ++ (w ∷ [])))
          (is_empty s.waiting_handlers && affords t w)
          (first_in_line s.waiting_handlers w (affords t w)) (λ _. enqueue-Serves clock w t))
  where
    not_zero : (n : ℕ) → 0 < n → (n == 0) ≡ true → ⊥
    not_zero n a b = ground (arith, a, b)

went-Serves :
    (t : Trace) (ws q : List WaitingHandler) (r : RateLimiter × List Action)
    → grants t.actions ++ t.limiter.waiting_handlers ≡ t.asked
    → t.limiter.waiting_handlers ++ ws ≡ q
    → Serves q r
    → grants (t.actions ++ r.1) ++ r.0.waiting_handlers ≡ t.asked ++ ws
went-Serves t ws q r old e new =
    ap (◌++ r.0.waiting_handlers) (grants-append t.actions r.1)
    ∙ append_assoc (grants t.actions) (grants r.1) r.0.waiting_handlers
    ∙ ap (grants t.actions ++◌) (new ∙ sym e)
    ∙ sym (append_assoc (grants t.actions) t.limiter.waiting_handlers ws)
    ∙ ap (◌++ ws) old

-- A limiter with a positive rate grants the requests in the order in which they came, each one once;
-- those that it has not granted wait, in that order.
pub grants_in_order :
    (rate start : ℕ) (t : Trace)
    → 0 < rate
    → Reach (initial rate start) t
    → grants t.actions ++ t.limiter.waiting_handlers ≡ t.asked
unfolding create async_wait schedule_timer
grants_in_order rate start _ positive here = refl
grants_in_order rate start _ positive (request {t} f clock now w le h) =
    let rate_kept = Kept.same_rate (Reach-Kept rate start positive f) in
    went-Serves t (w ∷ []) _ (async_wait clock now w t.limiter)
      (grants_in_order rate start t positive f) refl
      (async_wait-Serves clock now w t.limiter (omega (arith, positive, rate_kept)))
grants_in_order rate start _ positive (fires {t} f clock h) =
    went-Serves t [] _ (schedule_timer clock t.limiter) (grants_in_order rate start t positive f)
      (append-nil t.limiter.waiting_handlers)
      (serve-Serves clock t.limiter.waiting_handlers t.limiter)
