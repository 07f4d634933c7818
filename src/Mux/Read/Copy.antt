-- ===== src/Mux/Read/Copy.antt =====
-- The inner loop of `MuxStream::do_read_from_buffer`: from the queue of blocks to the reader's buffer.
use mathlib.Core.Option
use cfrp.Base.{
  ℕ, ◌+◌, ◌-◌, ◌≤◌, ◌<◌, ◌≡◌, refl, sym, ◌∙◌, List, [], ◌∷◌, ◌++◌, Option, none, some, arith, min,
  ltb, ◌==◌, if◌then◌else◌, length, take, drop, zero, suc, take-append, drop-append, take_all,
  drop_all, take-append_le, drop-append_le, drop-drop, take-nil, drop-nil, length-drop,
}
use native.Mathlib.Decide.{dec_lt}
use cfrp.Mux.Stream.{Block, join}

pub record Copied : Type 0 where
  pub bytes : List ℕ
  pub queue : List Block
  pub offset : ℕ

abbrev pub before : List ℕ → Copied → Copied
before bs c = record c { bytes = bs ++ c.bytes }

-- `none` is undefined behaviour: with an offset beyond the front block, `block.length -
-- read_queue_offset_` wraps round and `memcpy` reads past the block.
unfoldable pub copy_out : List Block → ℕ → ℕ → Option Copied
copy_out [] offset remaining = some (record { bytes = []; queue = []; offset = offset })
copy_out (b ∷ bs) offset remaining =
    let n = min remaining (length b - offset) in
    let chunk = take n (drop offset b) in
    let rest = copy_out bs 0 (remaining - n) in
    if remaining == 0
    then some (record { bytes = []; queue = b ∷ bs; offset = offset })
    else if ltb (length b) offset
    then none
    else if offset + n == length b
    then Option.map (before chunk) rest
    else some (record { bytes = chunk; queue = b ∷ bs; offset = offset + n })

-- What the stream has received and not yet handed on.
abbrev pub unread : List Block → ℕ → List ℕ
unread q offset = drop offset (join q)

-- The offset lies in the front block, and is 0 where there is none.
abbrev pub IsInFront : List Block → ℕ → Type 0
IsInFront [] offset = offset ≡ 0
IsInFront (b ∷ bs) offset = offset ≤ length b

pub record Copies (q : List Block) (offset remaining : ℕ) (r : Option Copied) : Type 0 where
  pub result : Copied
  pub returns : r ≡ some result
  pub bytes : result.bytes ≡ take remaining (unread q offset)
  pub left : unread result.queue result.offset ≡ drop remaining (unread q offset)
  pub front : IsInFront result.queue result.offset

unread_front :
    (b : Block) (bs : List Block) (offset : ℕ)
    → offset ≤ length b
    → unread (b ∷ bs) offset ≡ drop offset b ++ join bs
unread_front b bs offset h = drop-append_le offset b (join bs) h

-- A reader that wants at least as much as `xs` takes all of it, and goes on behind it.
take_past :
    (m k : ℕ) (xs ys : List ℕ)
    → length xs ≤ m
    → k ≡ m - length xs
    → take m (xs ++ ys) ≡ xs ++ take k ys
take_past m k xs ys h e = rw (take-append m xs ys, take_all m xs h, e)

drop_past :
    (m k : ℕ) (xs ys : List ℕ) → length xs ≤ m → k ≡ m - length xs → drop m (xs ++ ys) ≡ drop k ys
drop_past m k xs ys h e = rw (drop-append m xs ys, drop_all m xs h, e)

-- The three ways in which a round goes on.
copy_none :
    (b : Block) (bs : List Block) (offset : ℕ)
    → offset ≤ length b
    → Copies (b ∷ bs) offset 0 (copy_out (b ∷ bs) offset 0)
unfolding copy_out
copy_none b bs offset h = record {
  result = record { bytes = []; queue = b ∷ bs; offset = offset };
  returns = refl;
  bytes = refl;
  left = refl;
  front = h;
}

copy_part :
    (b : Block) (bs : List Block) (offset remaining : ℕ)
    → 0 < remaining
    → offset + remaining < length b
    → Copies (b ∷ bs) offset remaining (copy_out (b ∷ bs) offset remaining)
unfolding copy_out
copy_part b bs offset remaining pos h = record {
  result = record {
    bytes = take remaining (drop offset b);
    queue = b ∷ bs;
    offset = offset + remaining;
  };
  returns =
      let e : min remaining (length b - offset) ≡ remaining = omega arith in ground (arith, e);
  bytes = rw (unread_front b bs offset (omega arith)) (
      sym
        (take-append_le remaining (drop offset b) (join bs) (omega (arith, length-drop offset b))));
  left = sym (drop-drop offset remaining (offset + remaining) (b ++ join bs) refl);
  front = omega arith;
}

copy_whole :
    (b : Block) (bs : List Block) (offset remaining k : ℕ)
    → 0 < remaining
    → offset ≤ length b
    → length b ≤ offset + remaining
    → k ≡ remaining - (length b - offset)
    → Copies bs 0 k (copy_out bs 0 k)
    → Copies (b ∷ bs) offset remaining (copy_out (b ∷ bs) offset remaining)
unfolding copy_out
copy_whole b bs offset remaining k pos h past e rest = record {
  result = before (drop offset b) rest.result;
  returns = ground (
    arith,
    rest.returns,
    take_all (min remaining (length b - offset)) (drop offset b),
    length-drop offset b,
  );
  bytes =
      rw (unread_front b bs offset h, rest.bytes)
        (sym (
          take_past remaining k (drop offset b) (join bs) (omega (arith, length-drop offset b))
            (omega (arith, length-drop offset b))));
  left = rw (unread_front b bs offset h) (
      rest.left
      ∙ sym (
          drop_past remaining k (drop offset b) (join bs) (omega (arith, length-drop offset b))
            (omega (arith, length-drop offset b))));
  front = rest.front;
}

IsInFront-start : (bs : List Block) → IsInFront bs 0
IsInFront-start [] = refl
IsInFront-start (b ∷ bs) = omega arith

-- From a sound offset the loop is defined, hands on the next `remaining` bytes in order or all that
-- there are, leaves the others, and leaves a sound offset.
pub copy_out-Copies :
    (q : List Block) (offset remaining : ℕ)
    → IsInFront q offset
    → Copies q offset remaining (copy_out q offset remaining)
copy_out-Copies [] offset remaining h = record {
  result = record { bytes = []; queue = []; offset = offset };
  returns = unfold copy_out in refl;
  bytes = rw (drop-nil offset, take-nil remaining);
  left = rw (drop-nil offset, drop-nil remaining);
  front = h;
}
copy_out-Copies (b ∷ bs) offset zero h = copy_none b bs offset h
copy_out-Copies (b ∷ bs) offset (suc m) h = elim (dec_lt (offset + suc m) (length b)) [
  | yes part ↦ copy_part b bs offset (suc m) (omega arith) part
  | no past ↦
      copy_whole b bs offset (suc m) (suc m - (length b - offset)) (omega arith) h (omega arith)
        refl (copy_out-Copies bs 0 (suc m - (length b - offset)) (IsInFront-start bs))
]
