-- ===== src/BufferPool/Tests.antt =====
-- Concrete runs of `BufferPool` (src/common/buffer_pool.h), and its theorems at concrete inputs.
use cfrp.Base.{ℕ, List, [], ◌∷◌, some, true}
use cfrp.Base.Dict.{insert, nat_eq}
use cfrp.BufferPool.{
  Bucket, BufferPool, Held, config, new_buffers, create, nothing, by_profile, add_config, get,
}
use cfrp.BufferPool.Sound.{Sound, get-Gets}
use cfrp.BufferPool.Create.{profile-Sound}

abbrev low : List ℕ
low = 108 ∷ 111 ∷ 119 ∷ []

abbrev pool : BufferPool
pool = create (by_profile low) nothing

-- 600 bytes come from the bucket of 1024.
abbrev bucket : Bucket
bucket = record { config = config 1024 4 16; buffers = new_buffers 3 1024 9; allocated_count = 4 }

abbrev held : Held
held = record { buffer = record { address = 8; size = 1024 }; home = some 1024 }

abbrev served : BufferPool
served = record pool { buckets = insert 1024 bucket pool.buckets }

served-Sound : Sound served (held ∷ [])
unfolding get create by_profile add_config
served-Sound = (get-Gets true 600 pool [] (profile-Sound low)).1
