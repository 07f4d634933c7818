-- ===== src/Protocol/Reads.antt =====
-- Reading back what was written, one reader at a time: `Reads m w a` says that `m` takes the bytes
-- `w` from the front of the unread input, whatever follows them, and returns `a`.
use cfrp.Base.{
  ℕ, ◌+◌, ◌*◌, ◌/◌, ◌%◌, ◌^◌, ◌≤◌, ◌<◌, ◌≡◌, refl, sym, ap, ◌∙◌, List, [], ◌∷◌, ◌++◌, append-nil,
  append_assoc, arith, subst, length, take, drop, length-take, length-append, length-drop,
  take-append_length, drop-append_length, drop-drop, le→ltb_false, All,
}
use cfrp.Protocol.Bytes.{net16, net32, value16-digits, value32-digits}
use cfrp.Protocol.Result.{ok}
use cfrp.Protocol.Writer.{
  Text, write_uint16, write_int64, write_string, write_strings, write_string_vector,
}
use cfrp.Protocol.Reader.{
  Reader, M, ◌>>=◌, return, start, read_bytes, read_uint16, read_uint32, read_int64, read_string,
  read_strings, read_string_vector, to_uint16, to_uint32,
}
use cfrp.Protocol.Messages.{run}

abbrev pub unread : Reader → List ℕ
unread r = drop r.pos r.bytes

abbrev pub skip : Reader → ℕ → Reader
skip r n = record r { pos = r.pos + n }

abbrev pub Reads : {A : Type 0} → M A → List ℕ → A → Type 0
Reads m w a =
    (r : Reader) (rest : List ℕ)
    → r.pos ≤ length r.bytes
    → unread r ≡ w ++ rest
    → m r ≡ ok (a, skip r (length w))

-- Where the unread input begins with `w`, there are that many bytes.
room :
    (r : Reader) (w rest : List ℕ)
    → r.pos ≤ length r.bytes
    → unread r ≡ w ++ rest
    → r.pos + length w ≤ length r.bytes
room r w rest hin h = omega (arith, ap length h, length-append w rest, length-drop r.pos r.bytes)

unread-skip :
    (r : Reader) (w rest : List ℕ) → unread r ≡ w ++ rest → unread (skip r (length w)) ≡ rest
unread-skip r w rest h =
    sym (drop-drop r.pos (length w) (r.pos + length w) r.bytes refl)
    ∙ (ap (drop (length w)) h ∙ drop-append_length (length w) w rest refl)

>>=-ok :
    {A B : Type 0} (m : M A) (f : A → M B) (r : Reader) {a : A} {r' : Reader}
    → m r ≡ ok (a, r')
    → (m >>= f) r ≡ f a r'
>>=-ok m f r e = rw (e, ◌>>=◌)

-- Two readers in a row.
pub bind-Reads :
    {A B : Type 0} (m : M A) (f : A → M B) (w w' : List ℕ) (a : A) (b : B)
    → Reads m w a
    → Reads (f a) w' b
    → Reads (m >>= f) (w ++ w') b
bind-Reads m f w w' a b first then' r rest hin h =
    >>=-ok m f r (first r (w' ++ rest) hin h')
    ∙ then' (skip r (length w)) rest (room r w (w' ++ rest) hin h')
        (unread-skip r w (w' ++ rest) h')
    ∙ ap (λ n. ok (b, record r { pos = n })) (omega (arith, length-append w w'))
  where
    h' : unread r ≡ w ++ (w' ++ rest)
    h' = h ∙ append_assoc w w' rest

pub return-Reads : {A : Type 0} (a : A) → Reads (return a) [] a
return-Reads a r rest hin h = ap (λ n. ok (a, record r { pos = n })) (omega arith)

pub map-Reads :
    {A B : Type 0} (m : M A) (f : A → B) (w : List ℕ) (a : A)
    → Reads m w a
    → Reads (m >>= λ x. return (f x)) w (f a)
map-Reads m f w a first r rest hin h = >>=-ok m (λ x. return (f x)) r (first r rest hin h)

read_bytes-Reads : (w : List ℕ) (n : ℕ) → length w ≡ n → Reads (read_bytes n) w w
unfolding read_bytes
read_bytes-Reads w n e r rest hin h =
    rw (le→ltb_false (length r.bytes) (r.pos + n) (omega (arith, room r w rest hin h)))
      (rw (h, take-append_length n w rest e) (ap (λ k. ok (w, skip r k)) (sym e)))

pub read_uint16-Reads : (v : ℕ) → v < 2 ^ 16 → Reads read_uint16 (write_uint16 v) v
unfolding read_uint16 write_uint16
read_uint16-Reads v h =
    subst (Reads _ (net16 v)) (value16-digits v h)
      (map-Reads (read_bytes 2) to_uint16 (net16 v) (net16 v) (read_bytes-Reads (net16 v) 2 refl))

read_uint32-Reads : (v : ℕ) → v < 2 ^ 32 → Reads read_uint32 (net32 v) v
unfolding read_uint32 net32
read_uint32-Reads v h =
    subst (Reads _ (net32 v)) (value32-digits v h)
      (map-Reads (read_bytes 4) to_uint32 (net32 v) (net32 v) (read_bytes-Reads (net32 v) 4 refl))

high-low : (v : ℕ) → v < 2 ^ 64 → v / 2 ^ 32 % 2 ^ 32 * 2 ^ 32 % 2 ^ 64 + v % 2 ^ 32 ≡ v
high-low v h = omega arith

pub read_int64-Reads : (v : ℕ) → v < 2 ^ 64 → Reads read_int64 (write_int64 v) v
unfolding read_int64 write_int64
read_int64-Reads v h =
    subst (Reads _ (net32 (v / 2 ^ 32 % 2 ^ 32) ++ net32 (v % 2 ^ 32))) (high-low v h) (
      bind-Reads read_uint32 _ (net32 (v / 2 ^ 32 % 2 ^ 32)) (net32 (v % 2 ^ 32)) _ _
        (read_uint32-Reads (v / 2 ^ 32 % 2 ^ 32) (omega arith))
        (map-Reads read_uint32 _ (net32 (v % 2 ^ 32)) _
          (read_uint32-Reads (v % 2 ^ 32) (omega arith))))

pub read_string-Reads : (s : Text) → length s < 2 ^ 16 → Reads read_string (write_string s) s
unfolding read_string write_string
read_string-Reads s h =
    bind-Reads read_uint16 read_bytes (write_uint16 (length s % 2 ^ 16)) s (length s % 2 ^ 16) s
      (read_uint16-Reads (length s % 2 ^ 16) (omega arith))
      (read_bytes-Reads s (length s % 2 ^ 16) (omega arith))

abbrev pub IsText : Text → Type 0
IsText s = length s < 2 ^ 16

read_strings-Reads :
    (ss : List Text) → All IsText ss → Reads (read_strings (length ss)) (write_strings ss) ss
unfolding read_strings write_strings
read_strings-Reads [] h = return-Reads []
read_strings-Reads (s ∷ ss) h =
    bind-Reads read_string _ (write_string s) (write_strings ss) s (s ∷ ss)
      (read_string-Reads s h.0)
      (map-Reads (read_strings (length ss)) (λ xs. s ∷ xs) (write_strings ss) ss
        (read_strings-Reads ss h.1))

pub read_string_vector-Reads :
    (v : List Text)
    → length v < 2 ^ 16
    → All IsText v
    → Reads read_string_vector (write_string_vector v) v
unfolding read_string_vector write_string_vector
read_string_vector-Reads v h hs =
    bind-Reads read_uint16 read_strings (write_uint16 (length v % 2 ^ 16)) (write_strings v)
      (length v % 2 ^ 16) v (read_uint16-Reads (length v % 2 ^ 16) (omega arith))
      (subst (λ n. Reads (read_strings n) (write_strings v) v) (omega arith)
        (read_strings-Reads v hs))

-- Whatever the text, `read_string` takes as many bytes as the 16-bit length on the wire says.
pub read_string-Reads_prefix :
    (s : Text)
    → let n = length s % 2 ^ 16 in Reads read_string (write_uint16 n ++ take n s) (take n s)
unfolding read_string
read_string-Reads_prefix s =
    let n : ℕ = length s % 2 ^ 16 in
    bind-Reads read_uint16 read_bytes (write_uint16 n) (take n s) n (take n s)
      (read_uint16-Reads n (omega arith))
      (read_bytes-Reads (take n s) n (omega (arith, length-take n s)))

-- What a whole message body reads to.
pub run-Reads : {A : Type 0} (m : M A) (w : List ℕ) (a : A) → Reads m w a → run m w ≡ ok a
run-Reads m w a h = rw (h (start w) [] (omega arith) (sym (append-nil w)), run)
