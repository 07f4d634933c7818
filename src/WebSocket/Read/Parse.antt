-- ===== src/WebSocket/Read/Parse.antt =====
-- How `ReadWsFrame` (src/common/websocket_stream.cpp) takes one frame from what comes.
use cfrp.Base.{
  read_exactly-append, ℕ, suc, ◌+◌, ◌/◌, ◌%◌, ◌^◌, ◌≤◌, ◌<◌, ◌≡◌, refl, sym, ap, ap₂, ◌∙◌, List, [],
  ◌∷◌, ◌++◌, Option, none, some, Bool, true, false, not, ◌&&◌, ◌||◌, if_rule, leb, ltb, ◌==◌,
  length, drop, arith, append_assoc, leb→le, ltb→lt, ==_iff, true≢false,
}
use cfrp.WebSocket.Frame.{Mask, mask_bit, from_bytes, big_endian, frame_header}
use cfrp.WebSocket.Frame.RoundTrip.{from_bytes-big_endian}
use cfrp.WebSocket.Read.{
  Reader, post_pong, FrameRead, received, failed, below, max_message_size, finish, extra, preceded,
  on_payload, next_step, extended, on_parts, on_header, read_ws_frame,
}
use cfrp.WebSocket.Read.Sent.{
  Sent, Kind, data_frame, ping, pong, is_masked, body, header, wire_frame, limit, opened, holding,
  length-body, unmask-body,
}

-- The payload is there, and is no larger than allowed.
next_step-body :
    (opcode : ℕ) (m : Option Mask) (p : List ℕ) (again : List ℕ → Option FrameRead) (s : Reader)
    (more : List ℕ)
    → length p ≤ max_message_size
    → next_step opcode (is_masked m) (length p) again s (body m p ++ more)
      ≡ on_payload opcode (is_masked m) (length p) (body m p) again s more
next_step-body opcode m p again s more le =
    if_rule (λ x. x ≡ on_payload opcode (is_masked m) (length p) (body m p) again s more)
      (ltb max_message_size (length p)) (λ t. absurd (omega (arith, le, ltb→lt _ _ t)))
      (λ _.
        ap
          (λ o. elim o [
            | none ↦ finish (failed below) [] s []
            | some (payload, rest) ↦ on_payload opcode (is_masked m) (length p) payload again s rest
          ])
          (read_exactly-append (length p + extra (is_masked m)) (body m p) more (length-body m p)))

-- The two bytes of a header, taken apart.
on_header-parts :
    (b0 : ℕ) (c : Bool) (n : ℕ) (again : List ℕ → Option FrameRead) (s : Reader) (rest : List ℕ)
    → n < 128
    → on_header b0 (mask_bit c + n) again s rest ≡ on_parts (b0 % 16) (leb 128 b0) c n again s rest
on_header-parts b0 c n again s rest lt =
    ap₂ (λ c n. on_parts (b0 % 16) (leb 128 b0) c n again s rest) (bit c) (low c)
  where
    bit : (c : Bool) → leb 128 (mask_bit c + n) ≡ c
    bit true = ground arith
    bit false = ground arith

    low : (c : Bool) → (mask_bit c + n) % 128 ≡ n
    low true = omega (arith, lt)
    low false = omega (arith, lt)

and_right : (a b : Bool) → (a && b) ≡ true → b ≡ true
and_right true b e = e
and_right false b e = absurd (true≢false (sym e))

-- A size of at most 125.
on_parts-short :
    (opcode : ℕ) (c : Bool) (n : ℕ) (again : List ℕ → Option FrameRead) (s : Reader) (rest : List ℕ)
    → n ≤ 125
    → on_parts opcode true c n again s rest ≡ next_step opcode c n again s rest
on_parts-short opcode c n again s rest le =
    if_rule (λ x. x ≡ next_step opcode c n again s rest) (leb 8 opcode && (not true || ltb 125 n))
      (λ t. absurd (omega (arith, le, ltb→lt 125 n (and_right (leb 8 opcode) (ltb 125 n) t))))
      (λ _.
        if_rule (λ x. x ≡ next_step opcode c n again s rest) (n == 126)
          (λ t. absurd (omega (arith, le, (==_iff n 126).0 t)))
          (λ _.
            if_rule (λ x. x ≡ next_step opcode c n again s rest) (n == 127)
              (λ t. absurd (omega (arith, le, (==_iff n 127).0 t))) (λ _. refl)))

-- A size of two bytes, and one of eight.
extended_two :
    (c : Bool) (n : ℕ) (again : List ℕ → Option FrameRead) (s : Reader) (rest : List ℕ)
    → n < 2 ^ 16
    → extended 2 2 c again s ((n / 2 ^ 8 % 256) ∷ (n % 256) ∷ rest) ≡ next_step 2 c n again s rest
unfolding from_bytes
extended_two c n again s rest lt = ap (λ n. next_step 2 c n again s rest) (omega (arith, lt))

extended_eight :
    (c : Bool) (n : ℕ) (again : List ℕ → Option FrameRead) (s : Reader) (rest : List ℕ)
    → n < 2 ^ 64
    → extended 8 2 c again s (big_endian 8 n ++ rest) ≡ next_step 2 c n again s rest
unfolding big_endian
extended_eight c n again s rest lt =
    ap (λ n. next_step 2 c n again s rest) (from_bytes-big_endian n lt)

-- The header of a data frame.
read_header :
    (fuel : ℕ) (c : Bool) (n : ℕ) (s : Reader) (rest : List ℕ)
    → n < 2 ^ 64
    → read_ws_frame (suc fuel) s (frame_header c n ++ rest)
      ≡ next_step 2 c n (read_ws_frame fuel s) s rest
unfolding read_ws_frame frame_header
read_header fuel c n s rest lt =
    if_rule
      (λ h.
        read_ws_frame (suc fuel) s (0x82 ∷ (h ++ rest))
        ≡ next_step 2 c n (read_ws_frame fuel s) s rest)
      (leb n 125)
      (λ le.
        on_header-parts 0x82 c n (read_ws_frame fuel s) s rest (omega (arith, leb→le n 125 le))
        ∙ on_parts-short 2 c n (read_ws_frame fuel s) s rest (leb→le n 125 le))
      (λ _.
        if_rule
          (λ h.
            read_ws_frame (suc fuel) s (0x82 ∷ (h ++ rest))
            ≡ next_step 2 c n (read_ws_frame fuel s) s rest)
          (leb n 65535)
          (λ le.
            on_header-parts 0x82 c 126 (read_ws_frame fuel s) s
              ((n / 2 ^ 8 % 256) ∷ (n % 256) ∷ rest) (omega arith)
            ∙ extended_two c n (read_ws_frame fuel s) s rest (omega (arith, leb→le n 65535 le)))
          (λ _.
            on_header-parts 0x82 c 127 (read_ws_frame fuel s) s (big_endian 8 n ++ rest)
              (omega arith)
            ∙ extended_eight c n (read_ws_frame fuel s) s rest lt))

-- What reading a frame does first, by its kind.
abbrev pub taken : Sent → (List ℕ → Option FrameRead) → List ℕ → Option FrameRead
taken f again more = elim f.kind [
  | data_frame ↦ finish (received (length f.payload)) [] (holding f.mask f.payload) more
  | ping ↦ preceded (post_pong f.payload ∷ []) (again more)
  | pong ↦ again more
]

pub opened-drop : (m : Option Mask) (p : List ℕ) → drop (extra (is_masked m)) (opened m p) ≡ p
opened-drop none p = refl
opened-drop (some m) p = refl

pub read_ws_frame-wire_frame :
    (fuel : ℕ) (f : Sent) (s : Reader) (more : List ℕ)
    → length f.payload ≤ limit f.kind
    → read_ws_frame (suc fuel) s (wire_frame f ++ more) ≡ taken f (read_ws_frame fuel s) more
unfolding read_ws_frame
read_ws_frame-wire_frame fuel f s more le = by_kind f.kind refl le
  where
    m : Option Mask
    m = f.mask

    p : List ℕ
    p = f.payload

    by_kind :
        (k : Kind)
        → f.kind ≡ k
        → length p ≤ limit k
        → read_ws_frame (suc fuel) s ((header k (is_masked m) (length p) ++ body m p) ++ more)
          ≡ taken (record f { kind = k }) (read_ws_frame fuel s) more
    by_kind data_frame e le =
        ap (read_ws_frame (suc fuel) s)
          (append_assoc (frame_header (is_masked m) (length p)) (body m p) more)
        ∙ read_header fuel (is_masked m) (length p) s (body m p ++ more) (omega (arith, le))
        ∙ next_step-body 2 m p (read_ws_frame fuel s) s more le
        ∙ ap
            (λ b.
              finish (received (length p)) []
                (record {
                  read_buffer = b;
                  read_offset = extra (is_masked m);
                  read_remaining = length p;
                })
                more)
            (unmask-body m p)
    by_kind ping e le =
        on_header-parts 0x89 (is_masked m) (length p) (read_ws_frame fuel s) s (body m p ++ more)
          (omega (arith, le))
        ∙ on_parts-short 9 (is_masked m) (length p) (read_ws_frame fuel s) s (body m p ++ more) le
        ∙ next_step-body 9 m p (read_ws_frame fuel s) s more (omega (arith, le))
        ∙ ap
            (λ b.
              preceded (post_pong (drop (extra (is_masked m)) b) ∷ []) (read_ws_frame fuel s more))
            (unmask-body m p)
        ∙ ap (λ b. preceded (post_pong b ∷ []) (read_ws_frame fuel s more)) (opened-drop m p)
    by_kind pong e le =
        on_header-parts 0x8A (is_masked m) (length p) (read_ws_frame fuel s) s (body m p ++ more)
          (omega (arith, le))
        ∙ on_parts-short 10 (is_masked m) (length p) (read_ws_frame fuel s) s (body m p ++ more) le
        ∙ next_step-body 10 m p (read_ws_frame fuel s) s more (omega (arith, le))
