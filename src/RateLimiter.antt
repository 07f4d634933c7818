-- ===== src/RateLimiter.antt =====
-- `RateLimiter` (src/common/rate_limiter.h): a token bucket with a queue of requests. Its tokens are
-- doubles; here they are exact, in millionths of a byte, so that what a microsecond brings is a whole
-- number. A rate that is not positive is 0. Times are in nanoseconds. One call of `schedule_timer` may
-- read the clock several times: `clock n` is the reading with n requests behind the first.
pub mod Runs
pub mod Bounds
pub mod Order
pub mod Starve
pub mod Tests
use cfrp.Base.{
  ℕ, ◌+◌, ◌-◌, ◌*◌, ◌/◌, List, [], ◌∷◌, ◌++◌, Option, none, some, min, leb, ◌==◌, if◌then◌else◌,
  length, Bool, true, false, ◌&&◌,
}

pub record WaitingHandler : Type 0 where
  pub bytes : ℕ
  pub handler : ℕ

pub record RateLimiter : Type 0 where
  pub bytes_per_sec : ℕ
  pub tokens : ℕ
  pub last_update : ℕ
  pub waiting_handlers : List WaitingHandler

abbrev pub million : ℕ
million = 1_000_000

pub data Action : Type 0 where
  -- the request is granted: its handler is posted
  grant : WaitingHandler → Action
  -- the timer, in microseconds; `none` is the conversion of an infinite double, which is undefined
  arm : Option ℕ → Action

unfoldable pub create : ℕ → ℕ → RateLimiter
create rate now = record {
  bytes_per_sec = rate;
  tokens = rate * million;
  last_update = now;
  waiting_handlers = [];
}

unfoldable pub set_rate : ℕ → RateLimiter → RateLimiter
set_rate rate s = record s { bytes_per_sec = rate; tokens = min s.tokens (rate * million) }

unfoldable pub update_tokens : ℕ → RateLimiter → RateLimiter
update_tokens now s = record s {
  last_update = now;
  tokens =
      min (s.tokens + (now - s.last_update) / 1000 * s.bytes_per_sec) (s.bytes_per_sec * million);
}

abbrev pub spend : WaitingHandler → RateLimiter → RateLimiter
spend w s = record s { tokens = s.tokens - w.bytes * million }

-- `tokens_ >= bytes`
abbrev pub affords : RateLimiter → WaitingHandler → Bool
affords s w = leb (w.bytes * million) s.tokens

unfoldable pub delay : RateLimiter → WaitingHandler → Option ℕ
delay s w =
    if s.bytes_per_sec == 0 then none else some ((w.bytes * million - s.tokens) / s.bytes_per_sec)

abbrev pub granted : WaitingHandler → RateLimiter × List Action → RateLimiter × List Action
granted w (s, acts) = (s, grant w ∷ acts)

-- The recursive calls of `schedule_timer`, one for each request.
unfoldable pub serve : (ℕ → ℕ) → List WaitingHandler → RateLimiter → RateLimiter × List Action
unfolding update_tokens delay
serve clock [] s = (record s { waiting_handlers = [] }, [])
serve clock (w ∷ ws) s =
    let t = update_tokens (clock (length ws)) s in
    let rest = serve clock ws (spend w t) in
    if affords t w
    then granted w rest
    else (record t { waiting_handlers = w ∷ ws }, arm (delay t w) ∷ [])

unfoldable pub schedule_timer : (ℕ → ℕ) → RateLimiter → RateLimiter × List Action
unfolding serve
schedule_timer clock s = serve clock s.waiting_handlers s

abbrev pub is_empty : List WaitingHandler → Bool
is_empty [] = true
is_empty (w ∷ ws) = false

-- A request that has to wait; the timer is set for the first one.
unfoldable pub enqueue : (ℕ → ℕ) → WaitingHandler → RateLimiter → RateLimiter × List Action
unfolding schedule_timer
enqueue clock w s =
    let s' = record s { waiting_handlers = s.waiting_handlers ++ (w ∷ []) } in
    if is_empty s.waiting_handlers then schedule_timer clock s' else (s', [])

unfoldable pub async_wait : (ℕ → ℕ) → ℕ → WaitingHandler → RateLimiter → RateLimiter × List Action
unfolding update_tokens enqueue
async_wait clock now w s =
    let t = update_tokens now s in
    if s.bytes_per_sec == 0
    then (s, grant w ∷ [])
    else if is_empty s.waiting_handlers && affords t w
    then (spend w t, grant w ∷ [])
    else enqueue clock w t
