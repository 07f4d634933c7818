-- ===== src/Mux/Write/Buffers.antt =====
-- The two loops of `MuxStream::do_write` over the buffers of a write: what is sent now, what is kept.
use cfrp.Base.{
  ℕ, ◌-◌, ◌≡◌, refl, sym, ap, ◌∙◌, inl, inr, true, false, List, [], ◌∷◌, ◌++◌, arith, min, leb,
  ◌==◌, if◌then◌else◌, length, take, drop, drop-append_le, length-append, take-append, drop-append,
  take-min, take-nil, drop-nil, length-take, length-drop, drop_all, Bool-cases, ==_iff,
}
use cfrp.Mux.Stream.{Block, join, total_length}

unfoldable pub slice : ℕ → List Block → List Block
slice remaining [] = []
slice remaining (b ∷ bs) =
    let n = min remaining (length b) in
    if remaining == 0 then [] else take n b ∷ slice (remaining - n) bs

unfoldable pub keep : ℕ → List Block → List Block
keep skipped [] = []
keep skipped (b ∷ bs) = elim (leb (length b) skipped) [
  | true ↦ keep (skipped - length b) bs
  | false ↦ drop skipped b ∷ keep 0 bs
]

pub length-join : (bs : List Block) → length (join bs) ≡ total_length bs
length-join [] = refl
length-join (b ∷ bs) = omega (arith, length-append b (join bs), length-join bs)

sub-min : (m n : ℕ) → m - min m n ≡ m - n
sub-min m n = omega arith

pub join-slice : (n : ℕ) (bs : List Block) → join (slice n bs) ≡ take n (join bs)
unfolding slice
join-slice n [] = sym (take-nil n)
join-slice n (b ∷ bs) = elim (Bool-cases (n == 0)) [
  | inl e ↦ rw (e, slice) (ap (λ k. take k (b ++ join bs)) (sym ((==_iff n 0).0 e)))
  | inr e ↦
      rw (e, slice, join-slice (n - min n (length b)) bs, take-min n b, sub-min n (length b))
        (sym (take-append n b (join bs)))
]

pub join-keep : (n : ℕ) (bs : List Block) → join (keep n bs) ≡ drop n (join bs)
unfolding keep
join-keep n [] = sym (drop-nil n)
join-keep n (b ∷ bs) = elim (Bool-cases (leb (length b) n)) [
  | inl e ↦
      rw (e, keep)
        (join-keep (n - length b) bs
          ∙ sym (
              drop-append n b (join bs)
              ∙ ap (λ t. t ++ drop (n - length b) (join bs)) (drop_all n b (ground arith))))
  | inr e ↦
      rw (e, keep)
        (ap (◌++◌ (drop n b)) (join-keep 0 bs) ∙ sym (drop-append_le n b (join bs) (ground arith)))
]

pub total_length-slice :
    (n : ℕ) (bs : List Block) → total_length (slice n bs) ≡ min n (total_length bs)
total_length-slice n bs = omega (
  arith,
  length-join (slice n bs),
  ap length (join-slice n bs),
  length-take n (join bs),
  length-join bs,
)

pub total_length-keep : (n : ℕ) (bs : List Block) → total_length (keep n bs) ≡ total_length bs - n
total_length-keep n bs = omega (
  arith,
  length-join (keep n bs),
  ap length (join-keep n bs),
  length-drop n (join bs),
  length-join bs,
)
