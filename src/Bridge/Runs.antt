-- ===== src/Bridge/Runs.antt =====
-- What happens to a bridge (src/common/async_bridge.cpp), with the tasks that wait.
use cfrp.Base.{ℕ, List, [], ◌++◌, Option, Bool, Takes}
use cfrp.Protocol.Compressed.{Zstd}
use cfrp.Bridge.{
  Direction, Bridge, Write, Task, read_some, read_header, read_body, wait, write, close_both,
  call_on_stop, Step, new, start, write_op, on_read_some, on_header, on_body, on_written,
}

-- A task is answered.
pub data Answers (z : Zstd) (b : Bridge) : Task → Step → Type 0 where
  has_read :
      (d : Direction) (got : Option (List ℕ)) → Answers z b (read_some d) (on_read_some z d got b)
  has_header : (got : Option (ℕ × (ℕ × (ℕ × ℕ)))) → Answers z b read_header (on_header got b)
  has_body :
      (n : ℕ) (compressed : Bool) (got : Option (List ℕ))
      → Answers z b (read_body n compressed) (on_body z compressed got b)
  granted : (n : ℕ) (w : Write) → Answers z b (wait n w) (write_op w b)
  has_written :
      (w : Write) (failed : Bool) → Answers z b (write w) (on_written w.direction failed b)
  closed : Answers z b close_both (b, [])
  called : Answers z b call_on_stop (b, [])

-- With all the tasks that there were.
pub data Reach (z : Zstd) (use_compression limited : Bool)
    : Bridge → List Task → List Task → Type 0 where
  started :
      Reach z use_compression limited
        (new use_compression limited)
        (start (new use_compression limited)).1
        (start (new use_compression limited)).1
  answered :
      {b : Bridge} {ts past : List Task}
      → Reach z use_compression limited b ts past
      → (t : Task) (rest : List Task) (s : Step) → Takes t ts rest
      → Answers z b t s
      → Reach z use_compression limited s.0 (rest ++ s.1) (past ++ s.1)
