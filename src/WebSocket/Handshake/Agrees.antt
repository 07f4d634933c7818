-- ===== src/WebSocket/Handshake/Agrees.antt =====
-- A client and a server of the program shake hands (src/common/websocket_stream.cpp).
use cfrp.Base.{
  ℕ, ◌+◌, ◌-◌, ◌%◌, ◌^◌, ◌<◌, ◌≡◌, refl, ap, ◌∙◌, [], ◌∷◌, ◌++◌, Option, none, some, Bool, true,
  false, if◌then◌else◌, ltb, ◌==◌, length, take, arith, take-append_length,
}
use cfrp.Base.Text.{Text, codes, find, starts_with}
use cfrp.WebSocket.Handshake.{
  client_request, server_response, has, or_npos, key_at, respond, message_size, more, answer_to,
  do_server_handshake_read, client_accepts,
}

-- No carriage return.
abbrev pub no_cr : Text → Bool
no_cr [] = true
no_cr (c ∷ s) = let rest = no_cr s in if c == 13 then false else rest

abbrev pub shift : ℕ → Option ℕ → Option ℕ
shift n none = none
shift n (some m) = some (n + m)

find-no_cr :
    (t x s : Text) → no_cr x ≡ true → find (13 ∷ t) (x ++ s) ≡ shift (length x) (find (13 ∷ t) s)
find-no_cr t [] s e = unmoved (find (13 ∷ t) s)
  where
    unmoved : (o : Option ℕ) → o ≡ shift 0 o
    unmoved none = refl
    unmoved (some n) = ap some (omega arith)
find-no_cr t (c ∷ x) s e = ground (arith, e, find-no_cr t x s)

-- What is found behind some bytes is found.
has-behind : (t x s : Text) → has t s ≡ true → has t (x ++ s) ≡ true
has-behind t [] s h = h
has-behind t (c ∷ x) s h = ground (arith, has-behind t x s)

starts_with-append : (t s : Text) → starts_with t (t ++ s) ≡ true
starts_with-append [] s = refl
starts_with-append (c ∷ t) s = ground (arith, starts_with-append t s)

has-append : (t s : Text) → has t (t ++ s) ≡ true
has-append [] [] = refl
has-append [] (c ∷ s) = refl
has-append (c ∷ t) s = ground (arith, starts_with-append (c ∷ t) s)

abbrev behind_key : Text
behind_key = codes "\r\nSec-WebSocket-Version: 13\r\n\r\n"

-- The server finds the key in the request.
key_at-client_request :
    (key : Text) → no_cr key ≡ true → length key < 2 ^ 32 → key_at (client_request key) 69 ≡ key
unfolding client_request
key_at-client_request key e lt =
    ap
      (λ o.
        take
          ((or_npos (elim o [ none ↦ none | some n ↦ some (69 + n) ]) + 2 ^ 64 - (69 + 19))
            % 2 ^ 64)
          (key ++ behind_key))
      (find-no_cr (10 ∷ []) (codes "Sec-WebSocket-Key: " ++ key) behind_key e)
    ∙ ap (λ n. take n (key ++ behind_key)) count
    ∙ take-append_length (length key) key behind_key refl
  where
    count :
        (69 + (length (codes "Sec-WebSocket-Key: " ++ key) + 0) + 2 ^ 64 - (69 + 19)) % 2 ^ 64
        ≡ length key
    count = omega (arith, lt)

-- A client and a server of the program agree: if the request comes in one read, and the key has no carriage
-- return, then the server finds the key in it and responds with the accept key of it, and the client
-- takes that response.
pub handshake-agrees :
    (accept_key : Text → Text) (key : Text)
    → no_cr key ≡ true
    → length key < 2 ^ 32
    → (do_server_handshake_read accept_key [] (client_request key)
        ≡ respond (server_response (accept_key key)))
      × (client_accepts accept_key key (server_response (accept_key key)) ≡ true)
unfolding do_server_handshake_read client_request server_response client_accepts
handshake-agrees accept_key key e lt = (request, response)
  where
    complete : has (codes "\r\n\r\n") (client_request key) ≡ true
    complete =
        has-behind (codes "\r\n\r\n")
          (codes
            "GET / HTTP/1.1\r\nHost: cfrp\r\nUpgrade: websocket\r\nConnection: Upgrade\r\nSec-WebSocket-Key: ")
          (key ++ behind_key) (has-behind (codes "\r\n\r\n") key behind_key refl)

    request :
        do_server_handshake_read accept_key [] (client_request key)
        ≡ respond (server_response (accept_key key))
    request =
        ap
          (λ b.
            if b
            then answer_to accept_key (client_request key)
            else if ltb 8192 (length (client_request key))
            then message_size
            else more (client_request key))
          complete
        ∙ ap (λ k. respond (server_response (accept_key k))) (key_at-client_request key e lt)

    response : client_accepts accept_key key (server_response (accept_key key)) ≡ true
    response =
        has-behind (codes "Sec-WebSocket-Accept: " ++ accept_key key)
          (codes
            "HTTP/1.1 101 Switching Protocols\r\nUpgrade: websocket\r\nConnection: Upgrade\r\n")
          (codes "Sec-WebSocket-Accept: " ++ (accept_key key ++ codes "\r\n\r\n"))
          (has-append (codes "Sec-WebSocket-Accept: " ++ accept_key key) (codes "\r\n\r\n"))
