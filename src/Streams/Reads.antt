-- ===== src/Streams/Reads.antt =====
-- That a `BufferedStream` (src/common/stream.h) reads like one stream.
use cfrp.Base.{
  ℕ, zero, suc, ◌+◌, ◌-◌, ◌≤◌, ◌<◌, ◌≡◌, refl, sym, ap, ◌∙◌, List, [], ◌∷◌, ◌++◌, Option, none,
  some, false, if_rule, arith, ltb, ◌==◌, ==_iff, length, drop, read_exactly, drop-drop, drop_all,
  length-drop, length-take, take-append-drop, ltb→lt, ltb_false→le, true≢false, length-append,
  append_assoc,
}
use cfrp.Streams.{
  BufferedStream, has_buffered, to_copy, copied, advance, behind, read_below, async_read,
}

-- What it will still deliver.
abbrev pub contents : BufferedStream → List ℕ
contents s = drop s.buffer_offset s.buffer ++ s.underlying

-- A read that wants this many bytes takes them off, or there are not enough.
abbrev pub Took : ℕ → BufferedStream → Option (List ℕ × BufferedStream) → Type 0
Took n s none = length (contents s) < n
Took n s (some (bytes, s')) = (length bytes ≡ n) × (bytes ++ contents s' ≡ contents s)

contents-advance :
    (n : ℕ) (s : BufferedStream)
    → contents (advance n s) ≡ drop n (drop s.buffer_offset s.buffer) ++ s.underlying
contents-advance n s =
    if_rule (λ t. contents t ≡ drop n (drop s.buffer_offset s.buffer) ++ s.underlying)
      (s.buffer_offset + n == length s.buffer)
      (λ e.
        let all : s.buffer_offset + n ≡ length s.buffer = (==_iff _ _).0 e in
        ap (λ xs. xs ++ s.underlying)
          (sym (
            drop-drop s.buffer_offset n (s.buffer_offset + n) s.buffer refl
            ∙ drop_all (s.buffer_offset + n) s.buffer (omega (arith, all)))))
      (λ _.
        ap (λ xs. xs ++ s.underlying)
          (sym (drop-drop s.buffer_offset n (s.buffer_offset + n) s.buffer refl)))

-- What is copied, and what is left.
pub copied-contents :
    (n : ℕ) (s : BufferedStream) → copied n s ++ contents (advance n s) ≡ contents s
copied-contents n s =
    ap (λ xs. copied n s ++ xs) (contents-advance n s)
    ∙ (sym (append_assoc (copied n s) (drop n (drop s.buffer_offset s.buffer)) s.underlying)
        ∙ ap (λ xs. xs ++ s.underlying) (take-append-drop n (drop s.buffer_offset s.buffer)))

pub length-copied :
    (n : ℕ) (s : BufferedStream) → n ≤ length s.buffer - s.buffer_offset → length (copied n s) ≡ n
length-copied n s le =
    omega (
      arith,
      length-take n (drop s.buffer_offset s.buffer),
      length-drop s.buffer_offset s.buffer,
      le,
    )

abbrev Read : ℕ → List ℕ → Option (List ℕ × List ℕ) → Type 0
Read n xs none = length xs < n
Read n xs (some (ys, rest)) = (length ys ≡ n) × (ys ++ rest ≡ xs)

read_exactly-Read : (n : ℕ) (xs : List ℕ) → Read n xs (read_exactly n xs)
read_exactly-Read zero xs = (refl, refl)
read_exactly-Read (suc n) [] = omega arith
read_exactly-Read (suc n) (x ∷ xs) = by_rest (read_exactly n xs) (read_exactly-Read n xs)
  where
    by_rest :
        (o : Option (List ℕ × List ℕ))
        → Read n xs o
        → Read (suc n) (x ∷ xs) (elim o [ none ↦ none | some (ys, rest) ↦ some (x ∷ ys, rest) ])
    by_rest none lt = omega (arith, lt)
    by_rest (some (ys, rest)) (e, f) = (omega (arith, e), ap (◌∷◌ x) f)

-- A read of the stream below, when nothing is left in the buffer.
below-Took :
    (n m : ℕ) (bytes : List ℕ) (t s : BufferedStream)
    → drop t.buffer_offset t.buffer ≡ []
    → bytes ++ contents t ≡ contents s
    → length bytes + m ≡ n
    → Took n s (read_below m bytes t)
below-Took n m bytes t s e f g =
    by_read (read_exactly m t.underlying) (read_exactly-Read m t.underlying)
  where
    left : (xs : List ℕ) → drop t.buffer_offset t.buffer ++ xs ≡ xs
    left xs = ap (λ ys. ys ++ xs) e

    by_read : (o : Option (List ℕ × List ℕ)) → Read m t.underlying o → Took n s (behind bytes t o)
    by_read none lt =
        omega (
          arith,
          lt,
          g,
          length-append bytes (contents t),
          ap length f,
          ap length (left t.underlying),
        )
    by_read (some (more, rest)) (h, k) = (
      omega (arith, h, g, length-append bytes more),
      ap (λ xs. (bytes ++ more) ++ xs) (left rest)
          ∙ (append_assoc bytes more rest
              ∙ (ap (λ xs. bytes ++ xs) (k ∙ sym (left t.underlying)) ∙ f)),
    )

pub empty-Took :
    (n : ℕ) (s : BufferedStream) → has_buffered s ≡ false → Took n s (read_below n [] s)
empty-Took n s e =
    below-Took n n [] s s (drop_all s.buffer_offset s.buffer (ltb_false→le _ _ e)) refl
      (omega arith)

-- A buffer that is used up.
emptied :
    (n : ℕ) (s : BufferedStream)
    → s.buffer_offset + n ≡ length s.buffer
    → drop (advance n s).buffer_offset (advance n s).buffer ≡ []
emptied n s e =
    if_rule {A = BufferedStream} (λ t. drop t.buffer_offset t.buffer ≡ [])
      (s.buffer_offset + n == length s.buffer) (λ _. refl)
      (λ f. absurd (true≢false (sym ((==_iff _ _).1 e) ∙ f)))

pub async_read-Took : (n : ℕ) (s : BufferedStream) → Took n s (async_read n s)
unfolding async_read
async_read-Took n s =
    if_rule (Took n s) (has_buffered s)
      (λ e.
        let lt = ltb→lt _ _ e in
        let k = to_copy n s in
        let c = length-copied k s (omega arith) in
        if_rule (Took n s) (ltb k n)
          (λ f.
            below-Took n (n - k) (copied k s) (advance k s) s
              (emptied k s (omega (arith, lt, ltb→lt _ _ f))) (copied-contents k s)
              (omega (arith, c, ltb→lt _ _ f)))
          (λ f. (omega (arith, c, ltb_false→le _ _ f), copied-contents k s)))
      (λ e. empty-Took n s e)
