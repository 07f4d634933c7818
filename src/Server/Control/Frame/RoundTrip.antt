-- ===== src/Server/Control/Frame/RoundTrip.antt =====
-- Control messages, sent and read (src/server/server.cpp).
use cfrp.Base.{
  ℕ, ◌%◌, ◌^◌, ◌≤◌, ◌≡◌, refl, sym, ap, ◌∙◌, List, ◌++◌, Option, none, some, Bool, true, false,
  if◌then◌else◌, if_rule, ltb, length, arith, read_exactly-append, ltb→lt, true≢false,
}
use cfrp.Protocol.Bytes.{net32, value32-digits}
use cfrp.Protocol.Result.{ok}
use cfrp.Protocol.Compressed.{
  Zstd, Restores, compression_flag, max_decompressed_size, flagged, length_word, length_word_lem,
}
use cfrp.Protocol.Messages.{Message, encode, decode, to_byte, of_byte}
use cfrp.Server.Control.Frame.{
  max_control_message_size, packed, packed_with, framed, send_message, decompressed, stopped, got,
  decoded, on_body, read_body, on_header, read_header,
}

read_body-append :
    (z : Zstd) (f : Bool) (n : ℕ) (body rest : List ℕ)
    → length body ≡ n
    → read_body z f n (body ++ rest) ≡ on_body z f body rest
unfolding read_body
read_body-append z f n body rest e =
    ap (λ o. elim o [ none ↦ stopped | some (b, r) ↦ on_body z f b r ])
      (read_exactly-append n body rest e)

-- A header that announces the body behind it.
read_header-framed :
    (z : Zstd) (f : Bool) (v : ℕ) (body rest : List ℕ)
    → v ≡ length_word f (length body)
    → length body ≤ max_control_message_size
    → read_header z (framed (v, body) ++ rest) ≡ on_body z f body rest
unfolding read_header net32
read_header-framed z f v body rest e le =
    let (small, (size, flag)) = length_word_lem f v (length body) e (omega (arith, le)) in
    ap (λ v. on_header z v (body ++ rest)) (value32-digits v small)
    ∙ if_rule (λ x. x ≡ on_body z f body rest) (ltb max_control_message_size (v % compression_flag))
        (λ t. absurd (omega (arith, le, size, ltb→lt _ _ t)))
        (λ _.
          ap (λ f. read_body z f (v % compression_flag) (body ++ rest)) flag
          ∙ read_body-append z f (v % compression_flag) body rest (sym size))

decode-encode : (m : Message) → of_byte (to_byte m.type) ≡ m.type → decode (encode m) ≡ ok m
unfolding decode encode
decode-encode m e = ap (λ t. ok (record { type = t; body = m.body })) e

-- A control message is read as it was sent, compressed or not, from the front of what the stream delivers,
-- and the bytes behind it are left. It must be of a type that the protocol has (or of an unknown byte),
-- take at most 4 MiB on the wire and at most 16 MiB as it is. It comes compressed only from a session that
-- compresses.
pub read_header-send_message :
    (z : Zstd) (compression_enabled : Bool) (m : Message) (rest : List ℕ)
    → Restores z
    → of_byte (to_byte m.type) ≡ m.type
    → length (packed z compression_enabled (encode m)).1 ≤ max_control_message_size
    → length (encode m) ≤ max_decompressed_size
    → (is_compressed : Bool) × (read_header z (send_message z compression_enabled m ++ rest)
        ≡ got m is_compressed rest)
      × (compression_enabled ≡ false → is_compressed ≡ false)
unfolding send_message
read_header-send_message z enabled m rest law proper le max = by_enabled enabled le
  where
    bare :
        length (encode m) ≤ max_control_message_size
        → read_header z (framed (length (encode m) % 2 ^ 32, encode m) ++ rest) ≡ got m false rest
    bare le =
        read_header-framed z false (length (encode m) % 2 ^ 32) (encode m) rest (omega (arith, le))
          le
        ∙ ap (decoded false rest) (decode-encode m proper)

    restored :
        (c : List ℕ)
        → z.content_size c ≡ some (length (encode m))
        → z.decompress (length (encode m)) c ≡ some (encode m)
        → decompressed z true c ≡ some (encode m)
    restored c size back =
        ap
          (λ o. elim o [
            | none ↦ none
            | some n ↦ if ltb max_decompressed_size n then none else z.decompress n c
          ])
          size
        ∙ if_rule (λ x. x ≡ some (encode m)) (ltb max_decompressed_size (length (encode m)))
            (λ t. absurd (omega (arith, max, ltb→lt _ _ t))) (λ _. back)

    by_compress :
        (o : Option (List ℕ))
        → z.compress (encode m) ≡ o
        → length (packed_with (encode m) o).1 ≤ max_control_message_size
        → (f : Bool) × (read_header z (framed (packed_with (encode m) o) ++ rest) ≡ got m f rest)
          × (true ≡ false → f ≡ false)
    by_compress none e le = (false, bare le, λ t. refl)
    by_compress (some c) e le = (
      true,
      read_header-framed z true (flagged (length c % 2 ^ 32)) c rest (omega (arith, le)) le
          ∙ ap (λ o. elim o [ none ↦ stopped | some data' ↦ decoded true rest (decode data') ])
              (restored c (law (encode m) c e).0 (law (encode m) c e).1)
          ∙ ap (decoded true rest) (decode-encode m proper),
      λ t. absurd (true≢false t),
    )

    by_enabled :
        (b : Bool)
        → length (packed z b (encode m)).1 ≤ max_control_message_size
        → (f : Bool) × (read_header z (framed (packed z b (encode m)) ++ rest) ≡ got m f rest)
          × (b ≡ false → f ≡ false)
    by_enabled false le = (false, bare le, λ _. refl)
    by_enabled true le = by_compress (z.compress (encode m)) refl le
