-- ===== src/WebSocket/Handshake.antt =====
-- The handshake of a WebSocket (src/common/websocket_stream.cpp and src/common/websocket_utils.h). The
-- accept key of a key, which is a hash of wolfSSL, is a parameter; so is the key, which is drawn at random.
pub mod Agrees
use cfrp.Base.{
  ℕ, suc, ◌+◌, ◌-◌, ◌%◌, ◌^◌, List, [], ◌∷◌, ◌++◌, Option, none, some, Bool, true, false, ◌&&◌,
  if◌then◌else◌, ltb, length, take, drop,
}
use cfrp.Base.Text.{Text, codes, find, find_from}

unfoldable pub client_request : Text → Text
client_request key =
    codes
      "GET / HTTP/1.1\r\nHost: cfrp\r\nUpgrade: websocket\r\nConnection: Upgrade\r\nSec-WebSocket-Key: "
    ++ (key ++ codes "\r\nSec-WebSocket-Version: 13\r\n\r\n")

unfoldable pub server_response : Text → Text
server_response accept =
    codes
      "HTTP/1.1 101 Switching Protocols\r\nUpgrade: websocket\r\nConnection: Upgrade\r\nSec-WebSocket-Accept: "
    ++ (accept ++ codes "\r\n\r\n")

abbrev pub line_end : Text
line_end = 13 ∷ 10 ∷ []

abbrev pub has : Text → Text → Bool
has t s = elim (find t s) [ none ↦ false | some n ↦ true ]

-- `find` is -1 as a `size_t` where nothing is found.
abbrev pub or_npos : Option ℕ → ℕ
or_npos none = 2 ^ 64 - 1
or_npos (some n) = n

-- `req.substr(key_pos + 19, key_end - (key_pos + 19))`
abbrev pub key_at : Text → ℕ → Text
key_at req pos =
    take ((or_npos (find_from line_end pos req) + 2 ^ 64 - (pos + 19)) % 2 ^ 64)
      (drop (pos + 19) req)

pub data Answer : Type 0 where
  more : Text → Answer
  invalid_argument message_size : Answer
  respond : Text → Answer

abbrev pub answer_to : (Text → Text) → Text → Answer
answer_to accept_key req = elim (find (codes "Sec-WebSocket-Key: ") req) [
  | none ↦ invalid_argument
  | some pos ↦ respond (server_response (accept_key (key_at req pos)))
]

-- The handler of a read, with the request before it and the bytes that came.
unfoldable pub do_server_handshake_read : (Text → Text) → Text → List ℕ → Answer
unfolding server_response
do_server_handshake_read accept_key request bytes =
    let req = request ++ bytes in
    if has (codes "\r\n\r\n") req
    then answer_to accept_key req
    else if ltb 8192 (length req)
    then message_size
    else more req

abbrev pub has_valid_accept_header : (Text → Text) → Text → Text → Bool
has_valid_accept_header accept_key response client_key =
    has (codes "Sec-WebSocket-Accept: " ++ accept_key client_key) response

-- Does the client take this response?
unfoldable pub client_accepts : (Text → Text) → Text → Text → Bool
client_accepts accept_key key resp =
    has (codes "101 Switching Protocols") resp && has_valid_accept_header accept_key resp key
