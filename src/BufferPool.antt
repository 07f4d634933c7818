-- ===== src/BufferPool.antt =====
-- `BufferPool` (src/common/buffer_pool.h): buffers of a few sizes, kept for later use. A buffer is its
-- address and its size; every `new` that succeeds has a new address. The back of `buffers` is the
-- front of the list.
pub mod Sound
pub mod Release
pub mod Create
pub mod Tests
use cfrp.Base.{
  ℕ, zero, suc, ◌+◌, ◌-◌, ◌%◌, ◌^◌, List, [], ◌∷◌, ◌++◌, Option, none, some, Bool, true, false, ltb,
  leb, ◌==◌, if◌then◌else◌, length,
}
use cfrp.Base.Dict.{lookup, insert, nat_eq, text_beq}

pub record PoolConfig : Type 0 where
  pub buffer_size : ℕ
  pub initial_count : ℕ
  pub max_count : ℕ

pub record Buffer : Type 0 where
  pub address : ℕ
  pub size : ℕ

pub record Bucket : Type 0 where
  pub config : PoolConfig
  pub buffers : List Buffer
  pub allocated_count : ℕ

pub record BufferPool : Type 0 where
  pub buckets : List (ℕ × Bucket)
  pub bucket_sizes : List ℕ
  -- the next address
  pub next : ℕ

-- A buffer that is in use, and the bucket to which its deleter returns it.
pub record Held : Type 0 where
  pub buffer : Buffer
  pub home : Option ℕ

-- `std::sort`, `std::unique` and `erase`, one size at a time.
abbrev pub insert_sorted : ℕ → List ℕ → List ℕ
insert_sorted k [] = k ∷ []
insert_sorted k (j ∷ ks) =
    let rest = insert_sorted k ks in
    if ltb k j then k ∷ j ∷ ks else if k == j then j ∷ ks else j ∷ rest

-- `std::lower_bound`
abbrev pub lower_bound : ℕ → List ℕ → Option ℕ
lower_bound size [] = none
lower_bound size (k ∷ ks) = let rest = lower_bound size ks in if leb size k then some k else rest

-- This many new buffers.
abbrev pub new_buffers : ℕ → ℕ → ℕ → List Buffer
new_buffers zero size address = []
new_buffers (suc n) size address =
    record { address = address; size = size } ∷ new_buffers n size (suc address)

-- `buckets_[size]`
abbrev pub bucket_or_new : PoolConfig → Option Bucket → Bucket
bucket_or_new c none = record { config = c; buffers = []; allocated_count = 0 }
bucket_or_new c (some b) = record b { config = c }

unfoldable pub add_config : PoolConfig → BufferPool → BufferPool
add_config c p =
    let b = bucket_or_new c (lookup c.buffer_size p.buckets) in
    record {
      buckets =
          insert c.buffer_size
            (record b {
              buffers = new_buffers c.initial_count c.buffer_size p.next ++ b.buffers;
              allocated_count = b.allocated_count + c.initial_count;
            })
            p.buckets;
      bucket_sizes = insert_sorted c.buffer_size p.bucket_sizes;
      next = p.next + c.initial_count;
    }

-- The constructor.
unfoldable pub create : List PoolConfig → BufferPool → BufferPool
unfolding add_config
create [] p = p
create (c ∷ cs) p = create cs (add_config c p)

abbrev pub nothing : BufferPool
nothing = record { buckets = []; bucket_sizes = []; next = 0 }

-- `none` is undefined behaviour; an inner `none` is `std::bad_alloc`.
abbrev pub Outcome : Type 0
Outcome = Option (BufferPool × Option Held)

-- `new uint8_t[size]`, for which there is memory or not.
abbrev pub allocate : Bool → ℕ → Option ℕ → BufferPool → BufferPool × Option Held
allocate memory size home p =
    if memory
    then (
      record p { next = suc p.next },
      some (record { buffer = record { address = p.next; size = size }; home = home }),
    )
    else (p, none)

abbrev pub take_from : List Buffer → Bool → ℕ → Bucket → BufferPool → BufferPool × Option Held
take_from (x ∷ xs) memory k b p = (
  record p { buckets = insert k (record b { buffers = xs }) p.buckets },
  some (record { buffer = x; home = some k }),
)
take_from [] memory k b p =
    let grown = record b { allocated_count = suc b.allocated_count } in
    if ltb b.allocated_count b.config.max_count
    then (if memory
        then allocate memory k (some k) (record p { buckets = insert k grown p.buckets })
        else (p, none))
    else allocate memory k none p

abbrev pub get_from : Option Bucket → Bool → ℕ → BufferPool → Outcome
get_from none memory k p = none
get_from (some b) memory k p = some (take_from b.buffers memory k b p)

unfoldable pub get : Bool → ℕ → BufferPool → Outcome
get memory size p = elim (lower_bound size p.bucket_sizes) [
  | none ↦ some (allocate memory size none p)
  | some k ↦ get_from (lookup k p.buckets) memory k p
]

abbrev pub put_back : Option Bucket → ℕ → Buffer → BufferPool → BufferPool
put_back none k x p = p
put_back (some b) k x p =
    if ltb (length b.buffers) b.config.max_count
    then record p { buckets = insert k (record b { buffers = x ∷ b.buffers }) p.buckets }
    else record p {
      buckets =
          insert k (record b { allocated_count = (b.allocated_count + 2 ^ 64 - 1) % 2 ^ 64 })
            p.buckets;
    }

-- `Return`
unfoldable pub return : ℕ → Buffer → BufferPool → BufferPool
return k x p = put_back (lookup k p.buckets) k x p

-- The deleter.
unfoldable pub release : Held → BufferPool → BufferPool
unfolding return
release h p = elim h.home [ none ↦ p | some k ↦ return k h.buffer p ]

-- `CreateByProfile`, for a name in lower case.
abbrev pub config : ℕ → ℕ → ℕ → PoolConfig
config size initial most = record { buffer_size = size; initial_count = initial; max_count = most }

abbrev pub low_profile : List PoolConfig
low_profile =
    config 512 8 32 ∷ config 1024 4 16 ∷ config 4096 2 8 ∷ config 16384 1 4 ∷ config 65536 1 2 ∷ []

abbrev pub high_profile : List PoolConfig
high_profile =
    config 512 32 128
    ∷ config 1024 16 64
    ∷ config 4096 16 64
    ∷ config 16384 8 32
    ∷ config 65536 4 16
    ∷ []

abbrev pub standard_profile : List PoolConfig
standard_profile =
    config 512 16 64
    ∷ config 1024 8 32
    ∷ config 4096 8 32
    ∷ config 16384 4 16
    ∷ config 65536 2 8
    ∷ []

unfoldable pub by_profile : List ℕ → List PoolConfig
by_profile name =
    if text_beq name (108 ∷ 111 ∷ 119 ∷ [])
    then low_profile
    else if text_beq name (104 ∷ 105 ∷ 103 ∷ 104 ∷ [])
    then high_profile
    else standard_profile
