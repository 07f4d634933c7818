-- ===== src/BufferPool/Release.antt =====
-- A buffer that is not used any more (`Return` of src/common/buffer_pool.h), and all that can happen to
-- a pool.
use cfrp.Base.{
  ℕ, suc, ◌+◌, ◌-◌, ◌≤◌, ◌<◌, ◌≡◌, ◌≢◌, refl, sym, ap, ◌∙◌, List, [], ◌∷◌, ◌++◌, Option, none, some,
  true, false, ltb, ◌==◌, if◌then◌else◌, length, arith, All, if_rule, ltb_false→le, lt→ltb, ◌%◌,
  ◌^◌, ==_iff,
}
use cfrp.Base.Dict.{lookup, insert, nat_eq}
use cfrp.BufferPool.{Bucket, BufferPool, Held, put_back, return, release}
use cfrp.BufferPool.Sound.{is_home, in_use, Fits, IsHome, Sound, changed}

taken_out :
    (k : ℕ) (xs ys : List Held) (h : Held)
    → in_use k (xs ++ (h ∷ ys)) ≡ (if is_home k h.home then 1 else 0) + in_use k (xs ++ ys)
taken_out k [] ys h = refl
taken_out k (x ∷ xs) ys h = omega (arith, taken_out k xs ys h)

not_home :
    (k : ℕ) (xs ys : List Held) (h : Held)
    → is_home k h.home ≡ false
    → in_use k (xs ++ ys) ≡ in_use k (xs ++ (h ∷ ys))
not_home k xs ys h e =
    sym (taken_out k xs ys h ∙ ap (λ b. (if b then 1 else 0) + in_use k (xs ++ ys)) e ∙ omega arith)

at_home :
    (k : ℕ) (xs ys : List Held) (h : Held)
    → is_home k h.home ≡ true
    → in_use k (xs ++ (h ∷ ys)) ≡ suc (in_use k (xs ++ ys))
at_home k xs ys h e =
    taken_out k xs ys h ∙ ap (λ b. (if b then 1 else 0) + in_use k (xs ++ ys)) e ∙ omega arith

All-remove :
    (xs ys : List Held) (h : Held) → All IsHome (xs ++ (h ∷ ys)) → IsHome h × All IsHome (xs ++ ys)
All-remove [] ys h all = all
All-remove (x ∷ xs) ys h (p, all) = let (q, rest) = All-remove xs ys h all in (q, (p, rest))

-- A buffer that no bucket has counted.
dropped :
    (p : BufferPool) (xs ys : List Held) (h : Held)
    → Sound p (xs ++ (h ∷ ys))
    → ((k : ℕ) (b : Bucket) → lookup k p.buckets ≡ some b → is_home k h.home ≡ false)
    → Sound p (xs ++ ys)
dropped p xs ys h v away = record {
  known = v.known;
  fits = λ k b e.
      let f = v.fits k b e in
      record {
        count = omega (arith, f.count, not_home k xs ys h (away k b e));
        bound = f.bound;
        sizes = f.sizes;
      };
  homes = (All-remove xs ys h v.homes).1;
}

-- The bucket that counts a buffer in use has room for it.
room :
    (p : BufferPool) (xs ys : List Held) (h : Held) (k : ℕ) (b : Bucket)
    → Sound p (xs ++ (h ∷ ys))
    → h.home ≡ some k
    → lookup k p.buckets ≡ some b
    → length b.buffers < b.config.max_count
room p xs ys h k b v e q =
    let f = v.fits k b q in
    omega (arith, f.count, f.bound, at_home k xs ys h (ap (is_home k) e ∙ (==_iff k k).1 refl))

not_beq : (k j : ℕ) → k ≢ j → (k == j) ≡ false
not_beq k j n = ground (arith, n)

some≢none : {A : Type 0} {a : A} → some a ≢ none
some≢none e = cc

put_back-Sound :
    (p : BufferPool) (xs ys : List Held) (h : Held) (k : ℕ) (o : Option Bucket)
    → Sound p (xs ++ (h ∷ ys))
    → h.home ≡ some k
    → lookup k p.buckets ≡ o
    → Sound (put_back o k h.buffer p) (xs ++ ys)
put_back-Sound p xs ys h k none v e q = dropped p xs ys h v λ j b r.
    ap (is_home j) e ∙ not_beq k j λ n. some≢none (sym r ∙ ap (λ i. lookup i p.buckets) (sym n) ∙ q)
put_back-Sound p xs ys h k (some b) v e q =
    if_rule (λ r. Sound r (xs ++ ys)) (ltb (length b.buffers) b.config.max_count)
      (λ _. changed p (xs ++ (h ∷ ys)) (xs ++ ys) k _ v mine others homes.1)
      (λ full. elim (crowded (room p xs ys h k b v e q) (ltb_false→le _ _ full)) [ ])
  where
    homes : IsHome h × All IsHome (xs ++ ys)
    homes = All-remove xs ys h v.homes

    mine : Fits (xs ++ ys) k (record b { buffers = h.buffer ∷ b.buffers })
    mine =
        let f = v.fits k b q in
        record {
          count =
              omega (arith, f.count, at_home k xs ys h (ap (is_home k) e ∙ (==_iff k k).1 refl));
          bound = f.bound;
          sizes = (homes.0 k e, f.sizes);
        }

    others : (j : ℕ) → k ≢ j → in_use j (xs ++ ys) ≡ in_use j (xs ++ (h ∷ ys))
    others j n = not_home j xs ys h (ap (is_home j) e ∙ not_beq k j n)

    crowded : length b.buffers < b.config.max_count → b.config.max_count ≤ length b.buffers → ⊥
    crowded m n = omega arith

-- When a buffer in use is given up, the pool stays sound, and the bucket that it came from always has
-- room for it: the branch that gives up a buffer of a full bucket is never taken.
pub release-Sound :
    (p : BufferPool) (xs ys : List Held) (h : Held)
    → Sound p (xs ++ (h ∷ ys))
    → Sound (release h p) (xs ++ ys)
      × ((k : ℕ) (b : Bucket)
          → h.home ≡ some k
          → lookup k p.buckets ≡ some b
          → release h p ≡ record p {
            buckets = insert k (record b { buffers = h.buffer ∷ b.buffers }) p.buckets;
          })
unfolding release return
release-Sound p xs ys h v = (by_home h.home refl, kept)
  where
    by_home :
        (o : Option ℕ)
        → h.home ≡ o
        → Sound (elim o [ none ↦ p | some k ↦ return k h.buffer p ]) (xs ++ ys)
    by_home none e = dropped p xs ys h v λ k b q. ap (is_home k) e
    by_home (some k) e = put_back-Sound p xs ys h k (lookup k p.buckets) v e refl

    kept :
        (k : ℕ) (b : Bucket)
        → h.home ≡ some k
        → lookup k p.buckets ≡ some b
        → release h p
          ≡ record p { buckets = insert k (record b { buffers = h.buffer ∷ b.buffers }) p.buckets }
    kept k b e q =
        ap (λ o. elim o [ none ↦ p | some k ↦ return k h.buffer p ]) e
        ∙ ap (λ o. put_back o k h.buffer p) q
        ∙ ap
            (λ t.
              if t
              then record p {
                buckets = insert k (record b { buffers = h.buffer ∷ b.buffers }) p.buckets;
              }
              else record p {
                buckets =
                    insert k
                      (record b { allocated_count = (b.allocated_count + 2 ^ 64 - 1) % 2 ^ 64 })
                      p.buckets;
              })
            (lt→ltb _ _ (room p xs ys h k b v e q))
