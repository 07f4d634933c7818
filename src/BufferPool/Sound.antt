-- ===== src/BufferPool/Sound.antt =====
-- What holds of a pool and of the buffers in use (src/common/buffer_pool.h).
use cfrp.Base.{
  ℕ, suc, ◌+◌, ◌≤◌, ◌<◌, ◌≡◌, ◌≢◌, refl, sym, ap, ◌∙◌, subst, List, [], ◌∷◌, Option, none, some,
  Bool, true, false, ltb, leb, ◌==◌, if◌then◌else◌, length, arith, All, if_rule, leb→le, ltb→lt,
  ==_iff, true≢false, All-map,
}
use cfrp.Base.Dict.{lookup, insert, nat_eq, lookup-insert}
use cfrp.BufferPool.{
  Buffer, Bucket, BufferPool, Held, lower_bound, Outcome, allocate, take_from, get_from, get,
}

abbrev pub is_home : ℕ → Option ℕ → Bool
is_home k none = false
is_home k (some j) = j == k

-- How many buffers in use go back to the bucket of this size.
abbrev pub in_use : ℕ → List Held → ℕ
in_use k [] = 0
in_use k (h ∷ hs) = (if is_home k h.home then 1 else 0) + in_use k hs

-- A bucket has counted its buffers, those in use too, has no more than it may, and they have its size.
pub record Fits (held : List Held) (k : ℕ) (b : Bucket) : Type 0 where
  pub count : b.allocated_count ≡ length b.buffers + in_use k held
  pub bound : b.allocated_count ≤ b.config.max_count
  pub sizes : All (λ x. x.size ≡ k) b.buffers

-- What each buffer in use satisfies.
abbrev pub IsHome : Held → Type 0
IsHome h = (k : ℕ) → h.home ≡ some k → h.buffer.size ≡ k

pub record Sound (p : BufferPool) (held : List Held) : Type 0 where
  pub known : All (λ k. (b : Bucket) × (lookup k p.buckets ≡ some b)) p.bucket_sizes
  pub fits : (k : ℕ) (b : Bucket) → lookup k p.buckets ≡ some b → Fits held k b
  pub homes : All IsHome held

pub some_inj : {A : Type 0} {a b : A} → some a ≡ some b → a ≡ b
some_inj e = cc

-- The bucket that a size is served from is known, and large enough.
lower_bound-known :
    (P : ℕ → Type 0) (size : ℕ) (ks : List ℕ) (k : ℕ)
    → All P ks
    → lower_bound size ks ≡ some k
    → P k × (size ≤ k)
lower_bound-known P size [] k all = λ e. cc
lower_bound-known P size (j ∷ ks) k (p, all) =
    if_rule (λ o. o ≡ some k → P k × (size ≤ k)) (leb size j)
      (λ h e. (subst P (some_inj e) p, subst (size ≤◌) (some_inj e) (leb→le _ _ h)))
      (λ _ e. lower_bound-known P size ks k all e)

pub insert_rule :
    (P : Option Bucket → Type 0) (k j : ℕ) (b : Bucket) (m : List (ℕ × Bucket))
    → (k ≡ j → P (some b))
    → (k ≢ j → P (lookup j m))
    → P (lookup j (insert k b m))
insert_rule P k j b m same other = subst P (sym (lookup-insert k j b m)) (
    if_rule P (k == j) (λ e. same ((==_iff k j).0 e))
      (λ e. other (λ q. true≢false (sym ((==_iff k j).1 q) ∙ e))))

-- One bucket changes, with the buffers in use.
pub changed :
    (p : BufferPool) (held held' : List Held) (k : ℕ) (b : Bucket)
    → Sound p held
    → Fits held' k b
    → ((j : ℕ) → k ≢ j → in_use j held' ≡ in_use j held)
    → All IsHome held'
    → Sound (record p { buckets = insert k b p.buckets }) held'
changed p held held' k b v f others homes = record {
  known =
      All-map p.bucket_sizes
        (λ j q.
          insert_rule (λ o. (c : Bucket) × (o ≡ some c)) k j b p.buckets (λ _. (b, refl)) (λ _. q))
        v.known;
  fits = λ j c.
      insert_rule (λ o. o ≡ some c → Fits held' j c) k j b p.buckets
        (λ q e. subst (λ i. Fits held' i c) q (subst (Fits held' k) (some_inj e) f))
        (λ n e. refit j c (others j n) (v.fits j c e));
  homes = homes;
}
  where
    refit : (j : ℕ) (c : Bucket) → in_use j held' ≡ in_use j held → Fits held j c → Fits held' j c
    refit j c e g = record { count = omega (arith, g.count, e); bound = g.bound; sizes = g.sizes }

-- A buffer that goes back nowhere changes nothing.
uncounted :
    (p : BufferPool) (held : List Held) (x : Buffer) (next : ℕ)
    → Sound p held
    → Sound (record p { next = next }) (record { buffer = x; home = none } ∷ held)
uncounted p held x next v = record {
  known = v.known;
  fits = λ k b e.
      let f = v.fits k b e in
      record { count = omega (arith, f.count); bound = f.bound; sizes = f.sizes };
  homes = (λ k e. cc, v.homes);
}

home_only :
    (k j : ℕ) (x : Buffer) (held : List Held)
    → k ≢ j
    → in_use j (record { buffer = x; home = some k } ∷ held) ≡ in_use j held
home_only k j x held n =
    if_rule (λ m. m + in_use j held ≡ in_use j held) (k == j) (λ e. elim (n ((==_iff k j).0 e)) [ ])
      (λ _. omega arith)

pub home_here :
    (k : ℕ) (x : Buffer) (held : List Held)
    → in_use k (record { buffer = x; home = some k } ∷ held) ≡ suc (in_use k held)
home_here k x held =
    if_rule (λ m. m + in_use k held ≡ suc (in_use k held)) (k == k) (λ _. omega arith)
      (λ e. elim (true≢false (sym ((==_iff k k).1 refl) ∙ e)) [ ])

-- What `Get` leaves: the buffer is large enough, and there is one if there is memory.
abbrev pub Serves : Bool → ℕ → List Held → BufferPool × Option Held → Type 0
Serves memory size held (p, none) = (memory ≡ false) × Sound p held
Serves memory size held (p, some h) = (size ≤ h.buffer.size) × Sound p (h ∷ held)

abbrev pub Gets : Bool → ℕ → List Held → Outcome → Type 0
Gets memory size held none = ⊥
Gets memory size held (some r) = Serves memory size held r

temporary :
    (memory : Bool) (size k : ℕ) (p : BufferPool) (held : List Held)
    → size ≤ k
    → Sound p held
    → Serves memory size held (allocate memory k none p)
temporary true size k p held le v = (le, uncounted p held _ _ v)
temporary false size k p held le v = (refl, v)

grown :
    (memory : Bool) (size k : ℕ) (b : Bucket) (p : BufferPool) (held : List Held)
    → size ≤ k
    → Sound p held
    → Fits held k b
    → b.buffers ≡ []
    → b.allocated_count < b.config.max_count
    → Serves memory size held (
        if memory
        then allocate memory k (some k) (record p {
          buckets = insert k (record b { allocated_count = suc b.allocated_count }) p.buckets;
        })
        else (p, none))
grown false size k b p held le v f e lt = (refl, v)
grown true size k b p held le v f e lt = (le, renumbered)
  where
    x : Buffer
    x = record { address = p.next; size = k }

    h : Held
    h = record { buffer = x; home = some k }

    b' : Bucket
    b' = record b { allocated_count = suc b.allocated_count }

    mine : Fits (h ∷ held) k b'
    mine = record {
      count = omega (arith, f.count, home_here k x held);
      bound = omega (arith, lt);
      sizes = f.sizes;
    }

    w : Sound (record p { buckets = insert k b' p.buckets }) (h ∷ held)
    w =
        changed p held (h ∷ held) k b' v mine (λ j n. home_only k j x held n)
          (λ j e. some_inj e, v.homes)

    renumbered : Sound (record p { buckets = insert k b' p.buckets; next = suc p.next }) (h ∷ held)
    renumbered = record { known = w.known; fits = w.fits; homes = w.homes }

take_from-Serves :
    (q : List Buffer) (memory : Bool) (size k : ℕ) (b : Bucket) (p : BufferPool) (held : List Held)
    → size ≤ k
    → Sound p held
    → Fits held k b
    → b.buffers ≡ q
    → Serves memory size held (take_from q memory k b p)
take_from-Serves (x ∷ xs) memory size k b p held le v f e = (
  subst (size ≤◌) (sym all.0) le,
  changed p held (h ∷ held) k b' v mine (λ j n. home_only k j x held n) homes,
)
  where
    all : All (λ x. x.size ≡ k) (x ∷ xs)
    all = subst (All (λ x. x.size ≡ k)) e f.sizes

    h : Held
    h = record { buffer = x; home = some k }

    b' : Bucket
    b' = record b { buffers = xs }

    mine : Fits (h ∷ held) k b'
    mine = record {
      count = omega (arith, f.count, home_here k x held, ap length e);
      bound = f.bound;
      sizes = all.1;
    }

    homes : All IsHome (h ∷ held)
    homes = (λ j e. all.0 ∙ some_inj e, v.homes)
take_from-Serves [] memory size k b p held le v f e =
    if_rule (Serves memory size held) (ltb b.allocated_count b.config.max_count)
      (λ h. grown memory size k b p held le v f e (ltb→lt _ _ h))
      (λ _. temporary memory size k p held le v)

pub get-Gets :
    (memory : Bool) (size : ℕ) (p : BufferPool) (held : List Held)
    → Sound p held
    → Gets memory size held (get memory size p)
unfolding get
get-Gets memory size p held v = by_size (lower_bound size p.bucket_sizes) refl
  where
    by_bucket :
        (k : ℕ)
        → size ≤ k
        → (o : Option Bucket) (b : Bucket) → lookup k p.buckets ≡ some b
        → o ≡ some b
        → Gets memory size held (get_from o memory k p)
    by_bucket k le none b e q = cc
    by_bucket k le (some c) b e q =
        take_from-Serves c.buffers memory size k c p held le v (v.fits k c (e ∙ sym q)) refl

    by_size :
        (o : Option ℕ)
        → lower_bound size p.bucket_sizes ≡ o
        → Gets memory size held (elim o [
          | none ↦ some (allocate memory size none p)
          | some k ↦ get_from (lookup k p.buckets) memory k p
        ])
    by_size none e = temporary memory size size p held (omega arith) v
    by_size (some k) e =
        let ((b, q), le) =
          lower_bound-known (λ k. (b : Bucket) × (lookup k p.buckets ≡ some b)) size p.bucket_sizes
            k v.known e in
        by_bucket k le (lookup k p.buckets) b q q
