-- ===== src/Protocol/Tests.antt =====
-- Concrete runs of src/common/protocol.h, and its theorems at concrete inputs.
use cfrp.Base.{◌≡◌, refl, [], ◌∷◌, ◌++◌, arith}
use cfrp.Protocol.Result.{ok, err, buffer_overflow}
use cfrp.Protocol.Writer.{write_string}
use cfrp.Protocol.Reader.{start, read_string, read_uint16, read_bytes}
use cfrp.Protocol.Messages.{
  LoginMessage, RegisterProxyMessage, serialize_login, deserialize_login, serialize_register_proxy,
  deserialize_register_proxy,
}
use cfrp.Protocol.RoundTrip.{
  deserialize_register_proxy-serialize_register_proxy, read_string-write_string,
}

abbrev sample_login : LoginMessage
sample_login = record { token = b's' ∷ b'3' ∷ []; name = b'a' ∷ [] }

abbrev sample_proxy : RegisterProxyMessage
sample_proxy = record {
  name = b'w' ∷ [];
  type = b't' ∷ b'c' ∷ b'p' ∷ [];
  remote_port = 6000;
  custom_domains = (b'x' ∷ []) ∷ [] ∷ [];
  bandwidth_limit = 0xffff_ffff_0000_0001;
}

login_bytes : serialize_login sample_login ≡ 0 ∷ 2 ∷ b's' ∷ b'3' ∷ 0 ∷ 1 ∷ b'a' ∷ []
unfolding serialize_login write_string
login_bytes = refl

login_cut : deserialize_login (0 ∷ 2 ∷ b's' ∷ b'3' ∷ 0 ∷ 1 ∷ []) ≡ err buffer_overflow
unfolding deserialize_login read_string read_uint16 read_bytes
login_cut = refl

deserialize_register_proxy-serialize_register_proxy_example :
    deserialize_register_proxy (serialize_register_proxy sample_proxy) ≡ ok sample_proxy
deserialize_register_proxy-serialize_register_proxy_example =
    deserialize_register_proxy-serialize_register_proxy sample_proxy (omega arith)

read_string-write_string_example :
    read_string (start (write_string (b'h' ∷ b'i' ∷ []) ++ (7 ∷ [])))
    ≡ ok (b'h' ∷ b'i' ∷ [], record { bytes = write_string (b'h' ∷ b'i' ∷ []) ++ (7 ∷ []); pos = 4 })
read_string-write_string_example = read_string-write_string (b'h' ∷ b'i' ∷ []) (7 ∷ [])
