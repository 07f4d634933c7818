-- ===== src/Bridge/Relay.antt =====
-- What goes through two bridges that compress, from the first stream of one to the first stream of the
-- other (src/common/async_bridge.cpp). The waits are granted, and the writes succeed.
use cfrp.Base.{
  ℕ, zero, suc, ◌+◌, ◌*◌, ◌%◌, ◌^◌, ◌≤◌, ◌<◌, ◌≡◌, refl, ap, ap₂, ◌∙◌, List, [], ◌∷◌, ◌++◌, Option,
  none, some, Bool, true, false, if◌then◌else◌, if_rule, arith, All, All-map, ltb, length, ltb→lt,
  read_exactly, read_exactly-append, length-append,
}
use cfrp.Protocol.Bytes.{net32, value32-digits}
use cfrp.Protocol.Compressed.{
  Zstd, Restores, compression_flag, max_message_size, max_decompressed_size, flagged, length_word,
  length_word_lem,
}
use cfrp.Bridge.{
  forth, back, Bridge, Write, read_some, read_header, read_body, wait, write, Step, handle_stop,
  do_read, write_op, counts, limit, bare, smaller, packet, on_read_some, on_length, on_header,
  restored, write_back, on_body, on_written,
}

unfoldable pub granted : Step → Step
unfolding write_op
granted (b, wait n w ∷ ts) = write_op w b
granted s = s

-- The bytes of the write, and what comes next.
unfoldable pub written : Step → List ℕ × Step
unfolding on_written
written (b, write w ∷ ts) = (w.bytes, on_written w.direction false b)
written s = ([], s)

unfoldable pub settle : Step → List ℕ × Step
unfolding granted written
settle s = written (granted s)

unfoldable pub offer : Zstd → List ℕ → Step → Step
unfolding on_read_some
offer z bytes (b, read_some d ∷ ts) = on_read_some z d (some bytes) b
offer z bytes s = s

-- What a bridge writes for what it reads at a time.
unfoldable pub relay : Zstd → List (List ℕ) → Step → List ℕ × Step
unfolding offer settle
relay z [] s = ([], s)
relay z (x ∷ xs) s =
    let (out, s') = settle (offer z x s) in let (more, last) = relay z xs s' in (out ++ more, last)

abbrev pub four : List ℕ → Option (ℕ × (ℕ × (ℕ × ℕ)))
four (x ∷ y ∷ z ∷ w ∷ []) = some (x, (y, (z, w)))
four bytes = none

-- A read is answered from what the stream delivers, if that is enough.
unfoldable pub fetch : Zstd → Step → List ℕ → Option (Step × List ℕ)
unfolding on_header on_body
fetch z (b, read_header ∷ ts) input = elim (read_exactly 4 input) [
  | none ↦ none
  | some (h, rest) ↦ some (on_header (four h) b, rest)
]
fetch z (b, read_body n compressed ∷ ts) input = elim (read_exactly n input) [
  | none ↦ none
  | some (body, rest) ↦ some (on_body z compressed (some body) b, rest)
]
fetch z s input = none

unfoldable pub onward :
    (List ℕ → Step → List ℕ × Step) → Step → Option (Step × List ℕ) → List ℕ × Step
unfolding settle
onward go s none = ([], s)
onward go s (some (s', rest)) =
    let (out, t) = settle s' in let (more, last) = go rest t in (out ++ more, last)

-- What a bridge writes for what its second stream delivers, with as many reads as the fuel allows.
unfoldable pub unrelay : Zstd → ℕ → List ℕ → Step → List ℕ × Step
unfolding fetch onward
unrelay z zero input s = ([], s)
unrelay z (suc fuel) input s = onward (unrelay z fuel) s (fetch z s input)

abbrev pub joined : List (List ℕ) → List ℕ
joined [] = []
joined (x ∷ xs) = x ++ joined xs

-- A bridge that compresses, with what it has counted.
abbrev pub end : Bool → ℕ → ℕ → Bridge
end limited sent received = record {
  use_compression = true;
  limited = limited;
  stopped = false;
  bytes_sent = sent;
  bytes_received = received;
}

settle-limit :
    (w : Write) (l : Bool) (s r : ℕ)
    → settle (limit w (end l s r)) ≡ (w.bytes, do_read w.direction (counts w (end l s r)))
unfolding limit write_op on_written granted written settle
settle-limit w true s r = refl
settle-limit w false s r = refl

-- What is left when something came out.
abbrev after : List ℕ → List ℕ × Step → List ℕ × Step
after out (more, last) = (out ++ more, last)

-- One frame that comes.
module _ (z : Zstd) (l : Bool) (s r : ℕ) (rest : List ℕ) where
  fetch_header :
      (f : Bool) (v : ℕ) (body : List ℕ)
      → v ≡ length_word f (length body)
      → length body ≤ max_message_size
      → fetch z (end l s r, read_header ∷ []) (net32 v ++ (body ++ rest))
        ≡ some ((end l s r, read_body (length body) f ∷ []), body ++ rest)
  unfolding net32 on_header handle_stop fetch
  fetch_header f v body e le =
      let (small, (size, flag)) = length_word_lem f v (length body) e (omega (arith, le)) in
      ap (λ v. some (on_length v (end l s r), body ++ rest)) (value32-digits v small)
      ∙ ap (λ t. some (t, body ++ rest))
          (if_rule {A = Step} (λ x. x ≡ (end l s r, read_body (length body) f ∷ []))
            (ltb max_message_size (v % compression_flag))
            (λ t. absurd (omega (arith, le, size, ltb→lt _ _ t)))
            (λ _. ap₂ (λ n f. (end l s r, read_body n f ∷ [])) size flag))

  fetch_body :
      (f : Bool) (body : List ℕ)
      → fetch z (end l s r, read_body (length body) f ∷ []) (body ++ rest)
        ≡ some (write_back (restored z f body) (end l s r), rest)
  unfolding on_body fetch
  fetch_body f body =
      ap
        (λ o. elim o [
          | none ↦ none
          | some (b, rest) ↦ some (on_body z f (some b) (end l s r), rest)
        ])
        (read_exactly-append (length body) body rest refl)

  unrelay_frame :
      (fuel : ℕ) (f : Bool) (v : ℕ) (body x : List ℕ)
      → v ≡ length_word f (length body)
      → length body ≤ max_message_size
      → restored z f body ≡ some x
      → unrelay z (suc (suc fuel)) (net32 v ++ (body ++ rest)) (end l s r, read_header ∷ [])
        ≡ after x (unrelay z fuel rest (end l ((s + length x) % 2 ^ 64) r, read_header ∷ []))
  unfolding do_read handle_stop unrelay onward granted written settle
  unrelay_frame fuel f v body x e le came =
      ap (onward (unrelay z (suc fuel)) (end l s r, read_header ∷ [])) (fetch_header f v body e le)
      ∙ (ap (onward (unrelay z fuel) (end l s r, read_body (length body) f ∷ []))
            (fetch_body f body ∙ ap (λ o. some (write_back o (end l s r), rest)) came)
          ∙ ap (λ t. (t.0 ++ (unrelay z fuel rest t.1).0, (unrelay z fuel rest t.1).1))
              (settle-limit (record { direction = back; bytes = x; counted = length x }) l s r))

restored_of :
    (z : Zstd) (x c : List ℕ)
    → Restores z
    → z.compress x ≡ some c
    → length x ≤ max_decompressed_size
    → restored z true c ≡ some x
restored_of z x c law e le =
    ap
      (λ o. elim o [
        | none ↦ none
        | some n ↦ if ltb max_decompressed_size n then none else z.decompress n c
      ])
      (law x c e).0
    ∙ if_rule (λ o. o ≡ some x) (ltb max_decompressed_size (length x))
        (λ t. absurd (omega (arith, le, ltb→lt _ _ t))) (λ _. (law x c e).1)

-- A packet is read back.
unrelay-packet :
    (z : Zstd) (l : Bool) (s r : ℕ) (fuel : ℕ) (x rest : List ℕ)
    → Restores z
    → length x ≤ max_message_size
    → unrelay z (suc (suc fuel)) (packet z x ++ rest) (end l s r, read_header ∷ [])
      ≡ after x (unrelay z fuel rest (end l ((s + length x) % 2 ^ 64) r, read_header ∷ []))
unfolding packet
unrelay-packet z l s r fuel x rest law le = by_compress (z.compress x) refl
  where
    Goal : List ℕ → Type 0
    Goal bytes =
        unrelay z (suc (suc fuel)) (bytes ++ rest) (end l s r, read_header ∷ [])
        ≡ after x (unrelay z fuel rest (end l ((s + length x) % 2 ^ 64) r, read_header ∷ []))

    bare_lem : Goal (bare x)
    bare_lem =
        unrelay_frame z l s r rest fuel false (length x % 2 ^ 32) x x (omega (arith, le))
          (omega (arith, le)) refl

    by_compress : (o : Option (List ℕ)) → z.compress x ≡ o → Goal (smaller x o)
    by_compress none e = bare_lem
    by_compress (some c) e =
        if_rule Goal (ltb (length c) (length x))
          (λ t.
            unrelay_frame z l s r rest fuel true (flagged (length c % 2 ^ 32)) c x
              (omega (arith, le, ltb→lt _ _ t)) (omega (arith, le, ltb→lt _ _ t))
              (restored_of z x c law e (omega (arith, le))))
          (λ _. bare_lem)

abbrev pub packets : Zstd → List (List ℕ) → List ℕ
unfolding packet
packets z [] = []
packets z (x ∷ xs) = packet z x ++ packets z xs

pub unrelay-packets :
    (z : Zstd) (l : Bool) (s r : ℕ) (fuel : ℕ) (xs : List (List ℕ))
    → Restores z
    → All (λ x. length x ≤ max_message_size) xs
    → 2 * length xs ≤ fuel
    → s < 2 ^ 64
    → unrelay z fuel (packets z xs) (end l s r, read_header ∷ [])
      ≡ (joined xs, (end l ((s + length (joined xs)) % 2 ^ 64) r, read_header ∷ []))
unfolding unrelay onward fetch packets
unrelay-packets z l s r zero [] law all enough lt =
    ap (λ s. ([], (end l s r, read_header ∷ []))) (omega (arith, lt))
unrelay-packets z l s r (suc fuel) [] law all enough lt =
    ap (λ s. ([], (end l s r, read_header ∷ []))) (omega (arith, lt))
unrelay-packets z l s r zero (x ∷ xs) law all enough lt = absurd (omega (arith, enough))
unrelay-packets z l s r (suc zero) (x ∷ xs) law all enough lt = absurd (omega (arith, enough))
unrelay-packets z l s r (suc (suc fuel)) (x ∷ xs) law (le, all) enough lt =
    unrelay-packet z l s r fuel x (packets z xs) law le
    ∙ (ap (after x) (
          unrelay-packets z l ((s + length x) % 2 ^ 64) r fuel xs law all (omega (arith, enough))
            (omega arith))
        ∙ ap (λ s. (x ++ joined xs, (end l s r, read_header ∷ [])))
            (omega (arith, length-append x (joined xs))))

pub relay-packets :
    (z : Zstd) (l : Bool) (s r : ℕ) (xs : List (List ℕ))
    → r < 2 ^ 64
    → relay z xs (end l s r, read_some forth ∷ [])
      ≡ (packets z xs, (end l s ((r + length (joined xs)) % 2 ^ 64), read_some forth ∷ []))
unfolding relay packets offer on_read_some do_read
relay-packets z l s r [] lt = ap (λ r. ([], (end l s r, read_some forth ∷ []))) (omega (arith, lt))
relay-packets z l s r (x ∷ xs) lt =
    ap (λ t. (t.0 ++ (relay z xs t.1).0, (relay z xs t.1).1))
      (settle-limit (record { direction = forth; bytes = packet z x; counted = length x }) l s r)
    ∙ (ap (after (packet z x)) (relay-packets z l s ((r + length x) % 2 ^ 64) xs (omega arith))
        ∙ ap (λ r. (packet z x ++ packets z xs, (end l s r, read_some forth ∷ [])))
            (omega (arith, length-append x (joined xs))))

pub within_limit :
    (xs : List (List ℕ))
    → All (λ x. length x ≤ 32768) xs
    → All (λ x. length x ≤ max_message_size) xs
within_limit xs all = All-map xs (λ x le. omega (arith, le)) all
