-- ===== src/BufferPool/Create.antt =====
-- The constructor of a pool and its profiles (src/common/buffer_pool.h).
use cfrp.Base.{
  ℕ, zero, suc, ◌+◌, ◌≤◌, ◌≡◌, refl, List, [], ◌∷◌, ◌++◌, Option, none, some, Bool, ltb, ◌==◌,
  length, length-append, arith, All, if_rule,
}
use cfrp.Base.Dict.{lookup, insert, nat_eq, text_beq}
use cfrp.BufferPool.{
  PoolConfig, Bucket, BufferPool, Held, insert_sorted, new_buffers, bucket_or_new, add_config,
  create, nothing, get, release, by_profile, low_profile, high_profile, standard_profile,
}
use cfrp.BufferPool.Sound.{Sound, changed, insert_rule}

insert_sorted-All :
    (P : ℕ → Type 0) (k : ℕ) (ks : List ℕ) → P k → All P ks → All P (insert_sorted k ks)
insert_sorted-All P k [] p all = (p, tt)
insert_sorted-All P k (j ∷ ks) p (q, all) =
    if_rule (All P) (ltb k j) (λ _. (p, (q, all)))
      (λ _. if_rule (All P) (k == j) (λ _. (q, all)) (λ _. (q, insert_sorted-All P k ks p all)))

length-new_buffers : (n size address : ℕ) → length (new_buffers n size address) ≡ n
length-new_buffers zero size address = refl
length-new_buffers (suc n) size address = omega (arith, length-new_buffers n size (suc address))

new_buffers-All : (n size address : ℕ) → All (λ x. x.size ≡ size) (new_buffers n size address ++ [])
new_buffers-All zero size address = tt
new_buffers-All (suc n) size address = (refl, new_buffers-All n size (suc address))

-- A new size, of which no more are made at once than there may be, leaves a pool with no buffer in use
-- sound.
add_config-Sound :
    (c : PoolConfig) (p : BufferPool)
    → lookup c.buffer_size p.buckets ≡ none
    → c.initial_count ≤ c.max_count
    → Sound p []
    → Sound (add_config c p) []
unfolding add_config
add_config-Sound c p e le v = by_bucket (lookup c.buffer_size p.buckets) e
  where
    filled : Bucket → Bucket
    filled b = record b {
      buffers = new_buffers c.initial_count c.buffer_size p.next ++ b.buffers;
      allocated_count = b.allocated_count + c.initial_count;
    }

    by_bucket :
        (o : Option Bucket)
        → o ≡ none
        → Sound
            (record {
              buckets =
                  insert c.buffer_size
                    (record (bucket_or_new c o) {
                      buffers =
                          new_buffers c.initial_count c.buffer_size p.next
                          ++ (bucket_or_new c o).buffers;
                      allocated_count = (bucket_or_new c o).allocated_count + c.initial_count;
                    })
                    p.buckets;
              bucket_sizes = insert_sorted c.buffer_size p.bucket_sizes;
              next = p.next + c.initial_count;
            })
            []
    by_bucket (some b) e = cc
    by_bucket none e =
        let b : Bucket = record {
          config = c;
          buffers = new_buffers c.initial_count c.buffer_size p.next ++ [];
          allocated_count = 0 + c.initial_count;
        } in
        let made = length-append (new_buffers c.initial_count c.buffer_size p.next) [] in
        let w =
          changed p [] [] c.buffer_size b v
            (record {
              count = omega (arith, made, length-new_buffers c.initial_count c.buffer_size p.next);
              bound = omega (arith, le);
              sizes = new_buffers-All c.initial_count c.buffer_size p.next;
            })
            (λ j n. refl) tt in
        record {
          known =
              insert_sorted-All _ c.buffer_size p.bucket_sizes
                (insert_rule (λ o. (x : Bucket) × (o ≡ some x)) c.buffer_size c.buffer_size b
                  p.buckets (λ _. (b, refl)) (λ n. elim (n refl) [ ]))
                w.known;
          fits = w.fits;
          homes = tt;
        }

-- Sizes that are new, one after the other, and of which no more are made at once than there may be.
abbrev AllNew : List PoolConfig → BufferPool → Type 0
AllNew [] p = Unit
AllNew (c ∷ cs) p =
    (lookup c.buffer_size p.buckets ≡ none)
    × (c.initial_count ≤ c.max_count)
    × AllNew cs (add_config c p)

create-Sound :
    (cs : List PoolConfig) (p : BufferPool) → AllNew cs p → Sound p [] → Sound (create cs p) []
unfolding create
create-Sound [] p new v = v
create-Sound (c ∷ cs) p (fresh, le, new) v =
    create-Sound cs (add_config c p) new (add_config-Sound c p fresh le v)

nothing-Sound : Sound nothing []
nothing-Sound = record { known = tt; fits = λ k b e. cc; homes = tt }

profile-AllNew : (name : List ℕ) → AllNew (by_profile name) nothing
unfolding by_profile add_config
profile-AllNew name =
    if_rule (λ cs. AllNew cs nothing) (text_beq name (108 ∷ 111 ∷ 119 ∷ [])) (λ _. five)
      (λ _.
        if_rule (λ cs. AllNew cs nothing) (text_beq name (104 ∷ 105 ∷ 103 ∷ 104 ∷ [])) (λ _. high)
          (λ _. standard))
  where
    five : AllNew low_profile nothing
    five =
        ((
          refl,
          omega arith,
          (refl, omega arith, (refl, omega arith, (refl, omega arith, (refl, omega arith, tt)))),
        ))

    high : AllNew high_profile nothing
    high =
        ((
          refl,
          omega arith,
          (refl, omega arith, (refl, omega arith, (refl, omega arith, (refl, omega arith, tt)))),
        ))

    standard : AllNew standard_profile nothing
    standard =
        ((
          refl,
          omega arith,
          (refl, omega arith, (refl, omega arith, (refl, omega arith, (refl, omega arith, tt)))),
        ))

-- What users do to a pool: they get buffers, in vain where there is no memory, and give them up.
pub data Reach (p0 : BufferPool) : BufferPool → List Held → Type 0 where
  fresh : Reach p0 p0 []
  got :
      {p p' : BufferPool} {held : List Held}
      → Reach p0 p held
      → (memory : Bool) (size : ℕ) (h : Held) → get memory size p ≡ some (p', some h)
      → Reach p0 p' (h ∷ held)
  failed :
      {p p' : BufferPool} {held : List Held}
      → Reach p0 p held
      → (memory : Bool) (size : ℕ) → get memory size p ≡ some (p', none)
      → Reach p0 p' held
  gave :
      {p : BufferPool} (xs ys : List Held) (h : Held)
      → Reach p0 p (xs ++ (h ∷ ys))
      → Reach p0 (release h p) (xs ++ ys)

pub profile-Sound : (name : List ℕ) → Sound (create (by_profile name) nothing) []
profile-Sound name = create-Sound (by_profile name) nothing (profile-AllNew name) nothing-Sound
