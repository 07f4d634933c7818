-- ===== src/RateLimiter/Runs.antt =====
-- Runs of a rate limiter (src/common/rate_limiter.h) with a fixed rate: requests, and its timer.
use cfrp.Base.{ℕ, ◌≤◌, ◌<◌, List, [], ◌∷◌, ◌++◌, length}
use cfrp.RateLimiter.{RateLimiter, WaitingHandler, Action, create, schedule_timer, async_wait}

-- A clock that does not go back: fewer requests behind the first are read later.
abbrev pub Rises : (ℕ → ℕ) → ℕ → ℕ → Type 0
Rises clock start n = (i j : ℕ) → i ≤ j → j < n → (start ≤ clock j) × (clock j ≤ clock i)

pub record Trace : Type 0 where
  pub limiter : RateLimiter
  pub asked : List WaitingHandler
  pub actions : List Action

abbrev pub initial : ℕ → ℕ → Trace
initial rate now = record { limiter = create rate now; asked = []; actions = [] }

abbrev pub went : Trace → List WaitingHandler → RateLimiter × List Action → Trace
went t ws (s, acts) = record { limiter = s; asked = t.asked ++ ws; actions = t.actions ++ acts }

pub data Reach (t0 : Trace) : Trace → Type 0 where
  here : Reach t0 t0
  request :
      {t : Trace}
      → Reach t0 t
      → (clock : ℕ → ℕ) (now : ℕ) (w : WaitingHandler) → t.limiter.last_update ≤ now
      → Rises clock now 1
      → Reach t0 (went t (w ∷ []) (async_wait clock now w t.limiter))
  fires :
      {t : Trace}
      → Reach t0 t
      → (clock : ℕ → ℕ) → Rises clock t.limiter.last_update (length t.limiter.waiting_handlers)
      → Reach t0 (went t [] (schedule_timer clock t.limiter))
