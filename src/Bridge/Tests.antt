-- ===== src/Bridge/Tests.antt =====
-- Runs of bridges (src/common/async_bridge.cpp).
use cfrp.Base.{ℕ, ◌≤◌, ◌≡◌, List, [], ◌∷◌, none, true, false, front}
use cfrp.Protocol.Samples.{known, knowing}
use cfrp.Bridge.{forth, back, read_some, read_header, Step, new, do_read, on_read_some}
use cfrp.Bridge.Runs.{started, answered, has_read}
use cfrp.Bridge.Steady.{count, stops, as_number, one_task_at_a_time}

abbrev pieces : List (List ℕ)
pieces = (7 ∷ 8 ∷ []) ∷ known ∷ []

-- The user's side ends, while the other side waits.
abbrev ended : Step
ended = on_read_some knowing forth none (new true false)

one_task_at_a_time_example :
    ((count back (read_header ∷ ended.1) ≤ 1)
      × (ended.0.stopped ≡ false → count back (read_header ∷ ended.1) ≡ 1))
    × (stops (read_some forth ∷ read_header ∷ ended.1) ≡ as_number ended.0.stopped)
unfolding new do_read
one_task_at_a_time_example =
    one_task_at_a_time knowing true false ended.0 (read_header ∷ ended.1)
      (read_some forth ∷ read_header ∷ ended.1)
      (answered started (read_some forth) (read_header ∷ []) ended front (has_read forth none)) back
