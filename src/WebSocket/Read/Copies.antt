-- ===== src/WebSocket/Read/Copies.antt =====
-- Bytes taken from the buffer of the reader (`async_read`, src/common/websocket_stream.cpp).
use cfrp.Base.{
  ℕ, zero, suc, ◌+◌, ◌-◌, ◌≤◌, ◌≡◌, refl, sym, ap, ◌∙◌, List, [], ◌∷◌, ◌++◌, Bool, true, false,
  if◌then◌else◌, if_rule, ltb, ◌==◌, length, take, drop, arith, length-take, length-drop, drop-drop,
  append-nil, ltb_false→le, ==_iff, take-nil,
}
use cfrp.WebSocket.Read.{Reader, copied, take_rest, take_first}
use cfrp.WebSocket.Read.Sent.{pending, IsSound}

-- The bytes taken from the buffer are the first that were there.
pub record Took (k : ℕ) (s after : Reader) : Type 0 where
  pub bytes : copied k s ++ pending after ≡ pending s
  pub count : length (copied k s) ≡ k
  pub sound : IsSound after
  pub remaining : after.read_remaining ≡ s.read_remaining - k

take-take : (k r : ℕ) (xs : List ℕ) → k ≤ r → take k xs ++ take (r - k) (drop k xs) ≡ take r xs
take-take zero r xs h = ap (λ n. take n xs) (omega arith)
take-take (suc k) zero xs h = absurd (omega arith)
take-take (suc k) (suc r) [] h = take-nil (suc r - suc k)
take-take (suc k) (suc r) (x ∷ xs) h =
    ap (λ n. x ∷ (take k xs ++ take n (drop k xs))) (omega arith)
    ∙ ap (◌∷◌ x) (take-take k r xs (omega (arith, h)))

count_copied : (k : ℕ) (s : Reader) → IsSound s → k ≤ s.read_remaining → length (copied k s) ≡ k
count_copied zero s sound le = refl
count_copied (suc k) s sound le = omega (
  arith,
  length-take (suc k) (drop s.read_offset s.read_buffer),
  length-drop s.read_offset s.read_buffer,
  sound (omega (arith, le)),
  le,
)

-- The buffer is kept.
kept :
    (k : ℕ) (s : Reader)
    → IsSound s
    → k ≤ s.read_remaining
    → Took k s (record s { read_offset = s.read_offset + k; read_remaining = s.read_remaining - k })
kept k s sound le = record {
  bytes =
      ap (λ xs. copied k s ++ take (s.read_remaining - k) xs)
        (sym (drop-drop s.read_offset k (s.read_offset + k) s.read_buffer refl))
      ∙ take-take k s.read_remaining (drop s.read_offset s.read_buffer) le;
  count = count_copied k s sound le;
  sound = λ some_left. omega (arith, sound (omega (arith, some_left)), le, some_left);
  remaining = refl;
}

-- Nothing is left in the buffer.
used_up :
    (k : ℕ) (s after : Reader)
    → IsSound s
    → k ≡ s.read_remaining
    → after.read_remaining ≡ 0
    → Took k s after
used_up k s after sound e nothing = record {
  bytes =
      ap (λ n. copied k s ++ take n (drop after.read_offset after.read_buffer)) nothing
      ∙ append-nil (copied k s)
      ∙ ap (λ k. copied k s) e;
  count = count_copied k s sound (omega (arith, e));
  sound = λ some_left. absurd (omega (arith, some_left, nothing));
  remaining = omega (arith, e, nothing);
}

pub take_first-Took :
    (k : ℕ) (s : Reader) → IsSound s → k ≤ s.read_remaining → Took k s (take_first k s)
take_first-Took k s sound le =
    if_rule (Took k s) (ltb k s.read_remaining) (λ _. kept k s sound le)
      (λ ge. used_up k s _ sound (omega (arith, le, ltb_false→le k s.read_remaining ge)) refl)

pub take_rest-Took :
    (k : ℕ) (s : Reader) → IsSound s → k ≤ s.read_remaining → Took k s (take_rest k s)
take_rest-Took k s sound le = by_rest (s.read_remaining - k == 0) refl
  where
    by_rest :
        (b : Bool)
        → (s.read_remaining - k == 0) ≡ b
        → Took k s (record {
          read_buffer = if b then [] else s.read_buffer;
          read_offset = s.read_offset + k;
          read_remaining = s.read_remaining - k;
        })
    by_rest true e =
        used_up k s _ sound (omega (arith, le, (==_iff (s.read_remaining - k) 0).0 e))
          ((==_iff (s.read_remaining - k) 0).0 e)
    by_rest false e = kept k s sound le
