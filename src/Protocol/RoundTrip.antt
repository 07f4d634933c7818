-- ===== src/Protocol/RoundTrip.antt =====
-- Messages (src/common/protocol.h) that are written and then read.
use cfrp.Base.{
  ℕ, ◌+◌, ◌%◌, ◌^◌, ◌<◌, ◌≡◌, sym, ◌∙◌, ap, List, [], ◌∷◌, ◌++◌, append_assoc, arith, length, take,
  drop, take-append-drop, length-take, All,
}
use cfrp.Protocol.Result.{ok}
use cfrp.Protocol.Writer.{Text, write_string, write_uint16, write_string_vector, write_int64}
use cfrp.Protocol.Reader.{start, read_string, read_uint16, read_string_vector, read_int64}
use cfrp.Protocol.Messages.{
  to_byte, of_byte, Message, encode, decode, LoginMessage, RespMessage, RegisterProxyMessage,
  NewUserConnMessage, UnregisterProxyMessage, serialize_login, deserialize_login, serialize_resp,
  deserialize_resp, serialize_register_proxy, deserialize_register_proxy, serialize_new_user_conn,
  deserialize_new_user_conn, serialize_unregister_proxy, deserialize_unregister_proxy,
}
use cfrp.Protocol.Reads.{
  IsText, bind-Reads, map-Reads, run-Reads, read_string-Reads, read_string-Reads_prefix,
  read_uint16-Reads, read_string_vector-Reads, read_int64-Reads,
}

-- A login message whose texts are shorter than 65536 bytes is read back as it was written.
pub deserialize_login-serialize_login :
    (m : LoginMessage)
    → IsText m.token
    → IsText m.name
    → deserialize_login (serialize_login m) ≡ ok m
unfolding deserialize_login serialize_login
deserialize_login-serialize_login m ht hn = run-Reads _ _ m (
    bind-Reads read_string _ (write_string m.token) (write_string m.name) m.token m
      (read_string-Reads m.token ht)
      (map-Reads read_string _ (write_string m.name) m.name (read_string-Reads m.name hn)))

pub deserialize_new_user_conn-serialize_new_user_conn :
    (m : NewUserConnMessage)
    → IsText m.proxy_name
    → IsText m.ticket
    → deserialize_new_user_conn (serialize_new_user_conn m) ≡ ok m
unfolding deserialize_new_user_conn serialize_new_user_conn
deserialize_new_user_conn-serialize_new_user_conn m hp ht = run-Reads _ _ m (
    bind-Reads read_string _ (write_string m.proxy_name) (write_string m.ticket) m.proxy_name m
      (read_string-Reads m.proxy_name hp)
      (map-Reads read_string _ (write_string m.ticket) m.ticket (read_string-Reads m.ticket ht)))

pub deserialize_resp-serialize_resp :
    (m : RespMessage)
    → IsText m.status
    → IsText m.name
    → IsText m.message
    → deserialize_resp (serialize_resp m) ≡ ok m
unfolding deserialize_resp serialize_resp
deserialize_resp-serialize_resp m hs hn hm = run-Reads _ _ m (
    bind-Reads read_string _ (write_string m.status) _ m.status m (read_string-Reads m.status hs) (
      bind-Reads read_string _ (write_string m.name) (write_string m.message) m.name m
        (read_string-Reads m.name hn)
        (map-Reads read_string _ (write_string m.message) m.message
          (read_string-Reads m.message hm))))

pub deserialize_unregister_proxy-serialize_unregister_proxy :
    (m : UnregisterProxyMessage)
    → IsText m.name
    → deserialize_unregister_proxy (serialize_unregister_proxy m) ≡ ok m
unfolding deserialize_unregister_proxy serialize_unregister_proxy
deserialize_unregister_proxy-serialize_unregister_proxy m hn =
    run-Reads _ _ m
      (map-Reads read_string _ (write_string m.name) m.name (read_string-Reads m.name hn))

-- The fields of a registration fit the widths that the wire has for them.
pub record Fits (m : RegisterProxyMessage) : Type 0 where
  pub name : IsText m.name
  pub type : IsText m.type
  pub port : m.remote_port < 2 ^ 16
  pub count : length m.custom_domains < 2 ^ 16
  pub domains : All IsText m.custom_domains
  pub limit : m.bandwidth_limit < 2 ^ 64

-- A proxy registration whose fields fit the widths of the wire is read back as it was written: name,
-- type, port, every custom domain in order, and the 64-bit pattern of the bandwidth limit.
pub deserialize_register_proxy-serialize_register_proxy :
    (m : RegisterProxyMessage)
    → Fits m
    → deserialize_register_proxy (serialize_register_proxy m) ≡ ok m
unfolding deserialize_register_proxy serialize_register_proxy
deserialize_register_proxy-serialize_register_proxy m fits = run-Reads _ _ m (
    bind-Reads read_string _ (write_string m.name) _ m.name m (read_string-Reads m.name fits.name) (
      bind-Reads read_string _ (write_string m.type) _ m.type m (read_string-Reads m.type fits.type)
        (bind-Reads read_uint16 _ (write_uint16 m.remote_port) _ m.remote_port m
          (read_uint16-Reads m.remote_port fits.port)
          (bind-Reads read_string_vector _ (write_string_vector m.custom_domains)
            (write_int64 m.bandwidth_limit) m.custom_domains m
            (read_string_vector-Reads m.custom_domains fits.count fits.domains)
            (map-Reads read_int64 _ (write_int64 m.bandwidth_limit) m.bandwidth_limit
              (read_int64-Reads m.bandwidth_limit fits.limit))))))

to_byte-of_byte : (b : ℕ) → to_byte (of_byte b) ≡ b
unfolding to_byte of_byte
to_byte-of_byte b = ground arith

-- Whatever `Message::Decode` accepts is the encoding of its result, whether or not its first byte
-- names a message type.
pub encode-decode : (bytes : List ℕ) (m : Message) → decode bytes ≡ ok m → encode m ≡ bytes
unfolding decode encode
encode-decode [] m e = cc
encode-decode (b ∷ bs) m e = ground (arith, to_byte-of_byte b)

-- `read_string` after `write_string` returns the first `length s % 65536` bytes of the text, and
-- leaves the reader in front of all others: a text of 65536 bytes or more is cut, and what was cut
-- off stands in front of whatever was written next.
pub read_string-write_string :
    (s rest : Text)
    → let n = length s % 2 ^ 16 in
      read_string (start (write_string s ++ rest))
      ≡ ok (take n s, record { bytes = write_string s ++ rest; pos = 2 + n })
unfolding write_string
read_string-write_string s rest =
    let n : ℕ = length s % 2 ^ 16 in
    read_string-Reads_prefix s (start (write_string s ++ rest)) (drop n s ++ rest) (omega arith) (
      ap (λ t. write_uint16 n ++ (t ++ rest)) (sym (take-append-drop n s))
      ∙ ap (◌++◌ (write_uint16 n)) (append_assoc (take n s) (drop n s) rest)
      ∙ sym (append_assoc (write_uint16 n) (take n s) (drop n s ++ rest)))
    ∙ ap (λ k. ok (take n s, record { bytes = write_string s ++ rest; pos = k }))
        (omega (arith, length-take n s))
