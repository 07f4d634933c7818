-- ===== src/UdpBridge/Relay.antt =====
-- The datagrams that a local service sends, on their way through the client and the server to the user
-- (src/client/client.cpp, src/server/server.cpp). The waits are granted, and the writes succeed.
use cfrp.Base.{
  ℕ, zero, suc, ◌+◌, ◌-◌, ◌*◌, ◌%◌, ◌^◌, ◌≤◌, ◌<◌, ◌≡◌, refl, ap, ap₂, ◌∙◌, List, [], ◌∷◌, ◌++◌,
  Option, none, some, Bool, true, false, if◌then◌else◌, if_rule, arith, All, append-nil, ltb, leb,
  length, ltb→lt, read_exactly, read_exactly-append,
}
use cfrp.Protocol.Bytes.{net16, value16-digits}
use cfrp.Protocol.Compressed.{Zstd, Restores}
use cfrp.UdpBridge.{
  UdpBridge, send, write, read_header, read_body, receive, wait, send_to, write_to, Step,
  max_datagram, datagram_flag, flagged, run, limit, on_length, on_header, restored, send_back,
  on_body, on_sent, bare, smaller, packet, on_receive, on_written,
}

unfoldable pub granted : Step → Step
unfolding run
granted (b, wait n o ∷ ts) = run o b
granted s = s

-- The datagrams that are sent, or the bytes that are written, and what comes next.
unfoldable pub sent : Step → List (List ℕ) × Step
unfolding on_sent
sent (b, send_to bytes ∷ ts) = (bytes ∷ [], on_sent false b)
sent s = ([], s)

unfoldable pub written : Step → List ℕ × Step
unfolding on_written
written (b, write_to bytes ∷ ts) = (bytes, on_written false b)
written s = ([], s)

-- What the client writes on the work connection for the datagrams that it receives.
unfoldable pub relay : Zstd → List (List ℕ) → UdpBridge → List ℕ × UdpBridge
unfolding on_receive granted written
relay z [] b = ([], b)
relay z (x ∷ xs) b =
    let (out, (b', ts)) = written (granted (on_receive z (some x) b)) in
    let (more, last) = relay z xs b' in (out ++ more, last)

abbrev pub two : List ℕ → Option (ℕ × ℕ)
two (x ∷ y ∷ []) = some (x, y)
two bytes = none

-- A read is answered from what the stream delivers, if that is enough.
unfoldable pub fetch : Zstd → Step → List ℕ → Option (Step × List ℕ)
unfolding on_header on_body
fetch z (b, read_header ∷ ts) input = elim (read_exactly 2 input) [
  | none ↦ none
  | some (h, rest) ↦ some (on_header (two h) b, rest)
]
fetch z (b, read_body n compressed ∷ ts) input = elim (read_exactly n input) [
  | none ↦ none
  | some (body, rest) ↦ some (on_body z compressed (some body) b, rest)
]
fetch z s input = none

unfoldable pub onward :
    (List ℕ → Step → List (List ℕ) × Step) → Step → Option (Step × List ℕ) → List (List ℕ) × Step
unfolding granted sent
onward go s none = ([], s)
onward go s (some (s', rest)) =
    let (out, t) = sent (granted s') in let (more, last) = go rest t in (out ++ more, last)

-- The datagrams that are sent for what the stream delivers, with as many reads as the fuel allows.
unfoldable pub unrelay : Zstd → ℕ → List ℕ → Step → List (List ℕ) × Step
unfolding fetch onward
unrelay z zero input s = ([], s)
unrelay z (suc fuel) input s = onward (unrelay z fuel) s (fetch z s input)

abbrev pub total : List (List ℕ) → ℕ
total [] = 0
total (x ∷ xs) = length x + total xs

-- The server's end, with what it has counted.
abbrev pub far : Bool → Bool → ℕ → UdpBridge
far compresses limited n = record {
  of_server = true;
  use_compression = compresses;
  limited = limited;
  bytes_sent = n;
}

abbrev pub near : Bool → Bool → UdpBridge
near compresses limited = record {
  of_server = false;
  use_compression = compresses;
  limited = limited;
  bytes_sent = 0;
}

sent-limit :
    (x : List ℕ) (c l : Bool) (n : ℕ)
    → sent (granted (limit (send x) (far c l n)))
      ≡ (x ∷ [], (far c l ((n + length x) % 2 ^ 64), read_header ∷ []))
unfolding limit run on_sent granted sent
sent-limit x c true n = refl
sent-limit x c false n = refl

written-limit :
    (x : List ℕ) (c l : Bool)
    → written (granted (limit (write x) (near c l))) ≡ (x, (near c l, receive ∷ []))
unfolding limit run on_written granted written
written-limit x c true = refl
written-limit x c false = refl

-- A length, with the flag in its highest bit.
abbrev length_word : Bool → ℕ → ℕ
length_word f n = if f then datagram_flag + n else n

length_word_lem :
    (f : Bool) (v n : ℕ)
    → v ≡ length_word f n
    → n < datagram_flag
    → (v < 2 ^ 16) × ((v % datagram_flag ≡ n) × (leb datagram_flag v ≡ f))
length_word_lem true v n e lt =
    (omega (arith, e, lt), (omega (arith, e, lt), ground (arith, e, lt)))
length_word_lem false v n e lt =
    (omega (arith, e, lt), (omega (arith, e, lt), ground (arith, e, lt)))

abbrev after : List (List ℕ) → List (List ℕ) × Step → List (List ℕ) × Step
after out (more, last) = (out ++ more, last)

-- One datagram that comes.
module _ (z : Zstd) (c l : Bool) (n : ℕ) (rest : List ℕ) where
  fetch_header :
      (f : Bool) (v size : ℕ) (tail : List ℕ)
      → v ≡ length_word f size
      → size < datagram_flag
      → fetch z (far c l n, read_header ∷ []) (net16 v ++ tail)
        ≡ some ((far c l n, read_body size f ∷ []), tail)
  unfolding net16 on_header fetch
  fetch_header f v size tail e le =
      let (small, (same, flag)) = length_word_lem f v size e le in
      ap (λ v. some (on_length v (far c l n), tail)) (value16-digits v small)
      ∙ ap (λ t. some (t, tail))
          (if_rule {A = Step} (λ x. x ≡ (far c l n, read_body size f ∷ []))
            (ltb max_datagram (v % datagram_flag))
            (λ t. absurd (omega (arith, le, same, ltb→lt _ _ t)))
            (λ _. ap₂ (λ n' f. (far c l n, read_body n' f ∷ [])) same flag))

  fetch_body :
      (f : Bool) (body : List ℕ)
      → fetch z (far c l n, read_body (length body) f ∷ []) (body ++ rest)
        ≡ some (send_back (restored z f body) (far c l n), rest)
  unfolding on_body fetch
  fetch_body f body =
      ap
        (λ o. elim o [
          | none ↦ none
          | some (b, rest) ↦ some (on_body z f (some b) (far c l n), rest)
        ])
        (read_exactly-append (length body) body rest refl)

  unrelay_frame :
      (fuel : ℕ) (f : Bool) (v : ℕ) (body x : List ℕ)
      → v ≡ length_word f (length body)
      → length body < datagram_flag
      → restored z f body ≡ some x
      → unrelay z (suc (suc fuel)) (net16 v ++ (body ++ rest)) (far c l n, read_header ∷ [])
        ≡ after (x ∷ []) (unrelay z fuel rest (far c l ((n + length x) % 2 ^ 64), read_header ∷ []))
  unfolding unrelay onward granted sent
  unrelay_frame fuel f v body x e le came =
      ap (onward (unrelay z (suc fuel)) (far c l n, read_header ∷ []))
        (fetch_header f v (length body) (body ++ rest) e le)
      ∙ (ap (onward (unrelay z fuel) (far c l n, read_body (length body) f ∷ []))
            (fetch_body f body ∙ ap (λ o. some (send_back o (far c l n), rest)) came)
          ∙ ap (λ t. (t.0 ++ (unrelay z fuel rest t.1).0, (unrelay z fuel rest t.1).1))
              (sent-limit x c l n))

restored_of :
    (z : Zstd) (x c : List ℕ)
    → Restores z
    → z.compress x ≡ some c
    → length x ≤ max_datagram
    → restored z true c ≡ some x
restored_of z x c law e le =
    ap
      (λ o. elim o [ none ↦ none | some n ↦ if ltb max_datagram n then none else z.decompress n c ])
      (law x c e).0
    ∙ if_rule (λ o. o ≡ some x) (ltb max_datagram (length x))
        (λ t. absurd (omega (arith, le, ltb→lt _ _ t))) (λ _. (law x c e).1)

-- A packet is read back.
unrelay-packet :
    (z : Zstd) (sends c l : Bool) (n fuel : ℕ) (x rest : List ℕ)
    → Restores z
    → length x < datagram_flag
    → unrelay z (suc (suc fuel)) (packet z sends x ++ rest) (far c l n, read_header ∷ [])
      ≡ after (x ∷ []) (unrelay z fuel rest (far c l ((n + length x) % 2 ^ 64), read_header ∷ []))
unfolding packet
unrelay-packet z sends c l n fuel x rest law lt = by_sender sends
  where
    Goal : List ℕ → Type 0
    Goal bytes =
        unrelay z (suc (suc fuel)) (bytes ++ rest) (far c l n, read_header ∷ [])
        ≡ after (x ∷ []) (unrelay z fuel rest (far c l ((n + length x) % 2 ^ 64), read_header ∷ []))

    bare_lem : Goal (bare x)
    bare_lem =
        unrelay_frame z c l n rest fuel false (length x % 2 ^ 16) x x (omega (arith, lt)) lt refl

    by_compress : (o : Option (List ℕ)) → z.compress x ≡ o → Goal (smaller x o)
    by_compress none e = bare_lem
    by_compress (some d) e =
        if_rule Goal (ltb (length d) (length x))
          (λ t.
            unrelay_frame z c l n rest fuel true (flagged (length d % 2 ^ 16)) d x
              (omega (arith, lt, ltb→lt _ _ t)) (omega (arith, lt, ltb→lt _ _ t))
              (restored_of z x d law e (omega (arith, lt))))
          (λ _. bare_lem)

    by_sender : (sends : Bool) → Goal (packet z sends x)
    by_sender false = bare_lem
    by_sender true = by_compress (z.compress x) refl

abbrev packets : Zstd → Bool → List (List ℕ) → List ℕ
packets z sends [] = []
packets z sends (x ∷ xs) = packet z sends x ++ packets z sends xs

unrelay-packets :
    (z : Zstd) (sends c l : Bool) (n fuel : ℕ) (xs : List (List ℕ))
    → Restores z
    → All (λ x. length x < datagram_flag) xs
    → 2 * length xs ≤ fuel
    → n < 2 ^ 64
    → unrelay z fuel (packets z sends xs) (far c l n, read_header ∷ [])
      ≡ (xs, (far c l ((n + total xs) % 2 ^ 64), read_header ∷ []))
unfolding unrelay onward fetch
unrelay-packets z sends c l n zero [] law all enough lt =
    ap (λ n. ([], (far c l n, read_header ∷ []))) (omega (arith, lt))
unrelay-packets z sends c l n (suc fuel) [] law all enough lt =
    ap (λ n. ([], (far c l n, read_header ∷ []))) (omega (arith, lt))
unrelay-packets z sends c l n zero (x ∷ xs) law all enough lt = absurd (omega (arith, enough))
unrelay-packets z sends c l n (suc zero) (x ∷ xs) law all enough lt = absurd (omega (arith, enough))
unrelay-packets z sends c l n (suc (suc fuel)) (x ∷ xs) law (le, all) enough lt =
    unrelay-packet z sends c l n fuel x (packets z sends xs) law le
    ∙ (ap (after (x ∷ [])) (
          unrelay-packets z sends c l ((n + length x) % 2 ^ 64) fuel xs law all
            (omega (arith, enough)) (omega arith))
        ∙ ap (λ n. (x ∷ xs, (far c l n, read_header ∷ []))) (omega arith))

relay-packets :
    (z : Zstd) (c l : Bool) (xs : List (List ℕ))
    → relay z xs (near c l) ≡ (packets z c xs, near c l)
unfolding relay on_receive
relay-packets z c l [] = refl
relay-packets z c l (x ∷ xs) =
    ap (λ t. (t.0 ++ (relay z xs t.1.0).0, (relay z xs t.1.0).1)) (written-limit (packet z c x) c l)
    ∙ ap (λ t. (packet z c x ++ t.0, t.1)) (relay-packets z c l xs)

-- The datagrams that a local service sends, of less than 32768 bytes each, the server sends to the user one by
-- one, whole and in order, when it has read twice for each; it has counted their bytes, and waits for
-- the next length. It does not matter which of the two compresses. zstd restores what it has
-- compressed, each wait for the rate limiter ends and each write succeeds.
pub datagrams_arrive :
    (z : Zstd) (c c' l l' : Bool) (xs : List (List ℕ)) (fuel : ℕ)
    → Restores z
    → All (λ x. length x < 32768) xs
    → 2 * length xs ≤ fuel
    → unrelay z fuel (relay z xs (near c l)).0 (far c' l' 0, read_header ∷ [])
      ≡ (xs, (far c' l' (total xs % 2 ^ 64), read_header ∷ []))
datagrams_arrive z c c' l l' xs fuel law all enough =
    ap (λ p. unrelay z fuel p (far c' l' 0, read_header ∷ []))
      (ap (λ t. t.0) (relay-packets z c l xs))
    ∙ (unrelay-packets z c c' l' 0 fuel xs law all enough (omega arith)
        ∙ ap (λ n. (xs, (far c' l' n, read_header ∷ []))) (omega arith))

-- A datagram of 32768 bytes or more that goes out as it is, because the client does not compress, zstd fails
-- or its result is not smaller, sets the flag: the server takes it for a compressed one that is 32768
-- bytes shorter.
pub long_datagram_misread :
    (z : Zstd) (c l c' l' : Bool) (n : ℕ) (x rest : List ℕ)
    → 32768 ≤ length x
    → length x ≤ 65535
    → (c ≡ true → (d : List ℕ) → z.compress x ≡ some d → length x ≤ length d)
    → fetch z (far c' l' n, read_header ∷ []) ((relay z (x ∷ []) (near c l)).0 ++ rest)
      ≡ some ((far c' l' n, read_body (length x - 32768) true ∷ []), x ++ rest)
unfolding packet
long_datagram_misread z c l c' l' n x rest le most plain =
    ap (λ p. fetch z (far c' l' n, read_header ∷ []) (p ++ rest))
      (ap (λ t. t.0) (relay-packets z c l (x ∷ [])))
    ∙ (ap (λ p. fetch z (far c' l' n, read_header ∷ []) (p ++ rest))
          (append-nil (packet z c x) ∙ plain_packet c plain)
        ∙ fetch_header z c' l' n rest true (length x % 2 ^ 16) (length x - 32768) (x ++ rest)
            (omega (arith, le, most)) (omega (arith, le, most)))
  where
    plain_by :
        (o : Option (List ℕ))
        → ((d : List ℕ) → o ≡ some d → length x ≤ length d)
        → smaller x o ≡ bare x
    plain_by none p = refl
    plain_by (some d) p =
        if_rule (λ b. b ≡ bare x) (ltb (length d) (length x))
          (λ t. absurd (omega (arith, p d refl, ltb→lt _ _ t))) (λ _. refl)

    plain_packet :
        (c : Bool)
        → (c ≡ true → (d : List ℕ) → z.compress x ≡ some d → length x ≤ length d)
        → packet z c x ≡ bare x
    plain_packet false p = refl
    plain_packet true p = plain_by (z.compress x) (p refl)
