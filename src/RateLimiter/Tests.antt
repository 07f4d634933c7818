-- ===== src/RateLimiter/Tests.antt =====
-- Concrete runs of `RateLimiter` (src/common/rate_limiter.h), and its theorems at concrete inputs.
use cfrp.Base.{ℕ, ◌+◌, ◌*◌, ◌≤◌, ◌≡◌, refl, List, [], ◌∷◌, ◌++◌, some, arith}
use cfrp.RateLimiter.{
  RateLimiter, WaitingHandler, Action, grant, arm, create, schedule_timer, async_wait, million,
  delay,
}
use cfrp.RateLimiter.Runs.{Trace, initial, went, Reach, here, request}
use cfrp.RateLimiter.Bounds.{total, grants_bounded}
use cfrp.RateLimiter.Order.{grants, grants_in_order}
use cfrp.RateLimiter.Starve.{timer_suffices, oversized_blocks}

-- 100 bytes a second; the clock stands still but for the request.
abbrev ask : ℕ → ℕ → WaitingHandler
ask bytes handler = record { bytes = bytes; handler = handler }

abbrev one_asked : Trace
one_asked = went (initial 100 0) (ask 60 1 ∷ []) (async_wait (λ n. 0) 0 (ask 60 1) (create 100 0))

abbrev two_asked : Trace
two_asked = went one_asked (ask 60 2 ∷ []) (async_wait (λ n. 0) 0 (ask 60 2) one_asked.limiter)

second_waits : two_asked.actions ≡ grant (ask 60 1) ∷ arm (some 200_000) ∷ []
unfolding async_wait create
second_waits = refl

asks_two : Reach (initial 100 0) two_asked
unfolding async_wait create
asks_two =
    request
      (request here (λ n. 0) 0 (ask 60 1) (omega arith) (λ i j a b. (omega arith, omega arith)))
      (λ n. 0) 0 (ask 60 2) (omega arith) (λ i j a b. (omega arith, omega arith))

grants_bounded_example :
    (total two_asked.actions * 1_000_000_000 + 100 * 0
      ≤ 100 * 1_000_000_000 + 100 * two_asked.limiter.last_update)
    × (two_asked.limiter.tokens ≤ 100 * million)
grants_bounded_example = grants_bounded 100 0 two_asked (omega arith) asks_two

grants_in_order_example :
    grants two_asked.actions ++ two_asked.limiter.waiting_handlers ≡ ask 60 1 ∷ ask 60 2 ∷ []
grants_in_order_example = grants_in_order 100 0 two_asked (omega arith) asks_two

-- 40 bytes are left, and 60 are wanted.
abbrev waiting : RateLimiter
waiting = record {
  bytes_per_sec = 100;
  tokens = 40 * million;
  last_update = 5;
  waiting_handlers = ask 60 2 ∷ [];
}

timer_suffices_example :
    (rest : List Action) × ((schedule_timer (λ n. 200_001_005) waiting).1 ≡ grant (ask 60 2) ∷ rest)
unfolding delay
timer_suffices_example =
    timer_suffices (λ n. 200_001_005) waiting (ask 60 2) [] 200_000 refl (omega arith) (omega arith)
      refl (omega arith)

abbrev stuck : Trace
stuck = record {
  limiter = record waiting { waiting_handlers = ask 101 2 ∷ [] };
  asked = ask 101 2 ∷ [];
  actions = [];
}

oversized_blocks_example :
    grants (went stuck (ask 1 3 ∷ []) (async_wait (λ n. 10) 10 (ask 1 3) stuck.limiter)).actions
    ≡ []
oversized_blocks_example =
    oversized_blocks (ask 101 2) [] stuck _ refl (omega arith) (omega arith)
      (request here (λ n. 10) 10 (ask 1 3) (omega arith) (λ i j a b. (omega arith, omega arith)))
