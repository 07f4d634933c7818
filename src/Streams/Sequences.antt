-- ===== src/Streams/Sequences.antt =====
-- Sequences of reads of a `BufferedStream` (src/common/stream.h).
use cfrp.Base.{
  ℕ, ◌+◌, ◌≤◌, ◌<◌, ◌≡◌, refl, ap, ◌∙◌, List, [], ◌∷◌, ◌++◌, Option, none, some, if_rule, arith,
  length, min, length-append, append_assoc,
}
use cfrp.Streams.{
  BufferedStream, new, has_buffered, to_copy, read_below, async_read, async_read_some,
}
use cfrp.Streams.Reads.{contents, Took, copied-contents, length-copied, empty-Took, async_read-Took}

-- What a read asks for: all of so many bytes, or at most so many, of which the stream below has some at
-- once.
pub data Wanted : Type 0 where
  exactly : ℕ → Wanted
  at_most : ℕ → ℕ → Wanted

unfoldable pub read_one : Wanted → BufferedStream → Option (List ℕ × BufferedStream)
unfolding async_read async_read_some
read_one (exactly n) s = async_read n s
read_one (at_most at_once n) s = async_read_some at_once n s

-- One read after the other. `none`: one of them failed.
abbrev pub then_read :
    List ℕ → Option (List (List ℕ) × BufferedStream) → Option (List (List ℕ) × BufferedStream)
then_read bytes none = none
then_read bytes (some (more, s)) = some (bytes ∷ more, s)

unfoldable pub reads : List Wanted → BufferedStream → Option (List (List ℕ) × BufferedStream)
unfolding read_one
reads [] s = some ([], s)
reads (w ∷ ws) s = elim (read_one w s) [
  | none ↦ none
  | some (bytes, s') ↦ then_read bytes (reads ws s')
]

abbrev pub size : Wanted → ℕ
size (exactly n) = n
size (at_most at_once n) = n

abbrev pub total : List Wanted → ℕ
total [] = 0
total (w ∷ ws) = size w + total ws

abbrev pub joined : List (List ℕ) → List ℕ
joined [] = []
joined (x ∷ xs) = x ++ joined xs

abbrev pub Fits : List Wanted → List (List ℕ) → Type 0
Fits [] [] = Unit
Fits [] (x ∷ xs) = ⊥
Fits (w ∷ ws) [] = ⊥
Fits (exactly n ∷ ws) (x ∷ xs) = (length x ≡ n) × Fits ws xs
Fits (at_most at_once n ∷ ws) (x ∷ xs) = (length x ≤ n) × Fits ws xs

abbrev pub Delivered : List Wanted → List ℕ → Option (List (List ℕ) × BufferedStream) → Type 0
Delivered ws bytes none = length bytes < total ws
Delivered ws bytes (some (got, s)) = Fits ws got × (joined got ++ contents s ≡ bytes)

abbrev Gave : ℕ → BufferedStream → Option (List ℕ × BufferedStream) → Type 0
Gave n s none = length (contents s) < n
Gave n s (some (bytes, s')) = (length bytes ≤ n) × (bytes ++ contents s' ≡ contents s)

fewer-Gave :
    (m n : ℕ) (s : BufferedStream) (o : Option (List ℕ × BufferedStream))
    → m ≤ n
    → Took m s o
    → Gave n s o
fewer-Gave m n s none le lt = omega (arith, le, lt)
fewer-Gave m n s (some (bytes, s')) le (e, f) = (omega (arith, le, e), f)

async_read_some-Gave : (k n : ℕ) (s : BufferedStream) → Gave n s (async_read_some k n s)
unfolding async_read_some
async_read_some-Gave k n s =
    if_rule (Gave n s) (has_buffered s)
      (λ e. (
        omega (arith, length-copied (to_copy n s) s (omega arith)),
        copied-contents (to_copy n s) s,
      ))
      (λ e.
        fewer-Gave (min k n) n s (read_below (min k n) [] s) (omega arith)
          (empty-Took (min k n) s e))

abbrev One : Wanted → BufferedStream → Option (List ℕ × BufferedStream) → Type 0
One (exactly n) s o = Took n s o
One (at_most at_once n) s o = Gave n s o

read_one-One : (w : Wanted) (s : BufferedStream) → One w s (read_one w s)
unfolding read_one
read_one-One (exactly n) s = async_read-Took n s
read_one-One (at_most at_once n) s = async_read_some-Gave at_once n s

none-Delivered :
    (w : Wanted) (ws : List Wanted) (s : BufferedStream)
    → One w s none
    → length (contents s) < size w + total ws
none-Delivered (exactly n) ws s lt = omega (arith, lt)
none-Delivered (at_most at_once n) ws s lt = omega (arith, lt)

then-Delivered :
    (w : Wanted) (ws : List Wanted) (s s' : BufferedStream) (bytes : List ℕ)
    (o : Option (List (List ℕ) × BufferedStream))
    → One w s (some (bytes, s'))
    → Delivered ws (contents s') o
    → Delivered (w ∷ ws) (contents s) (then_read bytes o)
then-Delivered (exactly n) ws s s' bytes none (e, f) lt =
    omega (arith, e, lt, length-append bytes (contents s'), ap length f)
then-Delivered (at_most at_once n) ws s s' bytes none (e, f) lt =
    omega (arith, e, lt, length-append bytes (contents s'), ap length f)
then-Delivered (exactly n) ws s s' bytes (some (got, t)) (e, f) (fits, g) =
    ((e, fits), append_assoc bytes (joined got) (contents t) ∙ (ap (λ xs. bytes ++ xs) g ∙ f))
then-Delivered (at_most at_once n) ws s s' bytes (some (got, t)) (e, f) (fits, g) =
    ((e, fits), append_assoc bytes (joined got) (contents t) ∙ (ap (λ xs. bytes ++ xs) g ∙ f))

reads-Delivered : (ws : List Wanted) (s : BufferedStream) → Delivered ws (contents s) (reads ws s)
unfolding reads
reads-Delivered [] s = (tt, refl)
reads-Delivered (w ∷ ws) s =
    by_one (read_one w s) (read_one-One w s)
      (λ bytes s' h. then-Delivered w ws s s' bytes (reads ws s') h (reads-Delivered ws s'))
  where
    by_one :
        (o : Option (List ℕ × BufferedStream))
        → One w s o
        → ((bytes : List ℕ) (s' : BufferedStream)
            → One w s (some (bytes, s'))
            → Delivered (w ∷ ws) (contents s) (then_read bytes (reads ws s')))
        → Delivered
            (w ∷ ws)
            (contents s)
            (elim o [ none ↦ none | some (bytes, s') ↦ then_read bytes (reads ws s') ])
    by_one none h f = none-Delivered w ws s h
    by_one (some (bytes, s')) h f = f bytes s' h

-- A stream that gives out again what was read ahead is read like one stream, which has those bytes in front:
-- whatever is read, and in whatever sizes, the reads get its bytes in order, an exact read all that it
-- asks for and another at most that, and the rest is still to come. A read fails only if all the reads ask
-- for more than there is.
pub reads_like_one :
    (ws : List Wanted) (initial_data underlying : List ℕ)
    → Delivered ws (initial_data ++ underlying) (reads ws (new underlying initial_data))
unfolding new
reads_like_one ws initial_data underlying = reads-Delivered ws (new underlying initial_data)
