-- ===== src/Mux/Link.antt =====
-- One direction of a stream: a sender, a receiver, and what is on the way between them. The two ends
-- are `MuxStream`s of two sessions (src/common/mux.cpp); the connection below keeps order.
pub mod Bytes
pub mod Conserve
use cfrp.Base.{
  ℕ, ◌+◌, Bool, true, List, [], ◌∷◌, ◌++◌, Option, some, ◌≡◌, if◌then◌else◌, leb, length,
}
use cfrp.Mux.Stream.{
  MuxStream, Block, Effect, post, fill, send, remove, join, new, max_pending_writes,
}
use cfrp.Mux.Ops.{async_read_with, async_write, handle_data, handle_window_update}
use cfrp.Mux.Read.Order.{delivered}

-- The frames that a side has sent, as the other side meets them: bodies, and window updates.
abbrev pub bodies_of : Effect → List Block
bodies_of (send h bodies k) = join bodies ∷ []
bodies_of (post k ec n) = []
bodies_of (fill k bs) = []
bodies_of (remove i) = []

abbrev pub bodies : List Effect → List Block
bodies [] = []
bodies (e ∷ es) = bodies_of e ++ bodies es

abbrev pub credits_of : Effect → List ℕ
credits_of (send h bs k) = h.length ∷ []
credits_of (post k ec n) = []
credits_of (fill k bs) = []
credits_of (remove i) = []

abbrev pub credits : List Effect → List ℕ
credits [] = []
credits (e ∷ es) = credits_of e ++ credits es

pub record Link : Type 0 where
  pub sender : MuxStream
  pub receiver : MuxStream
  -- frames and window updates on the way, oldest first
  pub frames : List Block
  pub updates : List ℕ
  -- all that was accepted for writing, and all that was handed to readers
  pub written : List ℕ
  pub got : List ℕ

-- Both ends are fresh.
abbrev pub fresh : ℕ → Link
fresh id = record {
  sender = new id;
  receiver = new id;
  frames = [];
  updates = [];
  written = [];
  got = [];
}

-- What `async_write` takes over: nothing, if too many writes are pending.
abbrev pub accepted : MuxStream → List Block → List ℕ
accepted s buffers = if leb max_pending_writes (length s.pending_writes) then [] else join buffers

abbrev pub wrote : Link → List ℕ → MuxStream × List Effect → Link
wrote l bytes (s, es) = record l {
  sender = s;
  frames = l.frames ++ bodies es;
  written = l.written ++ bytes;
}

abbrev pub took : Link → MuxStream → List Effect → Link
took l r es = record l {
  receiver = r;
  updates = l.updates ++ credits es;
  got = l.got ++ delivered es;
}

-- What happens while both ends are open and both sessions live: no end closes, and no send fails.
pub data Step : Link → Link → Type 0 where
  -- the program writes
  write :
      (l : Link) (buffers : List Block) (handler : ℕ)
      → Step l (wrote l (accepted l.sender buffers) (async_write true l.sender buffers handler))
  -- a frame arrives
  arrive :
      (l : Link) (b : Block) (bs : List Block) (r : MuxStream) (es : List Effect)
      → l.frames ≡ b ∷ bs
      → handle_data true l.receiver b ≡ some (r, es)
      → Step l (took (record l { frames = bs }) r es)
  -- the other program reads
  read :
      (l : Link) (read_all : Bool) (size handler : ℕ) (r : MuxStream) (es : List Effect)
      → async_read_with read_all true l.receiver size handler ≡ some (r, es)
      → Step l (took l r es)
  -- a window update arrives
  update :
      (l : Link) (c : ℕ) (cs : List ℕ)
      → l.updates ≡ c ∷ cs
      → Step l (wrote (record l { updates = cs }) [] (handle_window_update true l.sender c))

pub data Reach (l : Link) : Link → Type 0 where
  here : Reach l l
  next : {m n : Link} → Reach l m → Step m n → Reach l n
