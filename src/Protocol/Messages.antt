-- ===== src/Protocol/Messages.antt =====
-- The messages (src/common/protocol.h): `MessageType`, `Message`, and what each body holds.
use cfrp.Base.{ℕ, List, [], ◌∷◌, ◌++◌, ◌==◌, if◌then◌else◌}
use cfrp.Protocol.Result.{Result, ok, err, empty_message}
use cfrp.Protocol.Writer.{Text, write_string, write_uint16, write_string_vector, write_int64}
use cfrp.Protocol.Reader.{
  Reader, ◌>>=◌, return, start, read_string, read_uint16, read_string_vector, read_int64,
}

-- An enum over `uint8_t` holds any byte: `unknown` is one that has no name.
pub data MessageType : Type 0 where
  login login_resp register_proxy register_proxy_resp new_user_conn : MessageType
  start_work_conn work_conn_auth unregister_proxy : MessageType
  unknown : ℕ → MessageType

unfoldable pub to_byte : MessageType → ℕ
to_byte login = 0
to_byte login_resp = 1
to_byte register_proxy = 2
to_byte register_proxy_resp = 3
to_byte new_user_conn = 4
to_byte start_work_conn = 5
to_byte work_conn_auth = 6
to_byte unregister_proxy = 7
to_byte (unknown b) = b

unfoldable pub of_byte : ℕ → MessageType
of_byte b =
    if b == 0
    then login
    else if b == 1
    then login_resp
    else if b == 2
    then register_proxy
    else if b == 3
    then register_proxy_resp
    else if b == 4
    then new_user_conn
    else if b == 5
    then start_work_conn
    else if b == 6
    then work_conn_auth
    else if b == 7
    then unregister_proxy
    else unknown b

pub record Message : Type 0 where
  pub type : MessageType
  pub body : List ℕ

unfoldable pub encode : Message → List ℕ
encode m = to_byte m.type ∷ m.body

unfoldable pub decode : List ℕ → Result Message
decode [] = err empty_message
decode (b ∷ bs) = ok (record { type = of_byte b; body = bs })

abbrev pub run : {A : Type 0} → (Reader → Result (A × Reader)) → List ℕ → Result A
run m bytes = elim (m (start bytes)) [ ok (a, r) ↦ ok a | err e ↦ err e ]

pub record LoginMessage : Type 0 where
  pub token : Text
  pub name : Text

-- `LoginRespMessage` and `RegisterProxyRespMessage` have the same fields in the same order.
pub record RespMessage : Type 0 where
  pub status : Text
  pub name : Text
  pub message : Text

pub record RegisterProxyMessage : Type 0 where
  pub name : Text
  pub type : Text
  pub remote_port : ℕ
  pub custom_domains : List Text
  pub bandwidth_limit : ℕ

pub record NewUserConnMessage : Type 0 where
  pub proxy_name : Text
  pub ticket : Text

pub record UnregisterProxyMessage : Type 0 where
  pub name : Text

unfoldable pub serialize_login : LoginMessage → List ℕ
serialize_login m = write_string m.token ++ write_string m.name

unfoldable pub deserialize_login : List ℕ → Result LoginMessage
deserialize_login =
    run do token ← read_string; name ← read_string; return (record { token = token; name = name })

unfoldable pub serialize_resp : RespMessage → List ℕ
serialize_resp m = write_string m.status ++ (write_string m.name ++ write_string m.message)

unfoldable pub deserialize_resp : List ℕ → Result RespMessage
deserialize_resp = run do
  status ← read_string
  name ← read_string
  message ← read_string
  return (record { status = status; name = name; message = message })

unfoldable pub serialize_register_proxy : RegisterProxyMessage → List ℕ
serialize_register_proxy m =
    write_string m.name
    ++ (write_string m.type
        ++ (write_uint16 m.remote_port
            ++ (write_string_vector m.custom_domains ++ write_int64 m.bandwidth_limit)))

unfoldable pub deserialize_register_proxy : List ℕ → Result RegisterProxyMessage
deserialize_register_proxy = run do
  name ← read_string
  type ← read_string
  port ← read_uint16
  domains ← read_string_vector
  limit ← read_int64
  return (record {
    name = name;
    type = type;
    remote_port = port;
    custom_domains = domains;
    bandwidth_limit = limit;
  })

unfoldable pub serialize_new_user_conn : NewUserConnMessage → List ℕ
serialize_new_user_conn m = write_string m.proxy_name ++ write_string m.ticket

unfoldable pub deserialize_new_user_conn : List ℕ → Result NewUserConnMessage
deserialize_new_user_conn = run do
  proxy_name ← read_string
  ticket ← read_string
  return (record { proxy_name = proxy_name; ticket = ticket })

unfoldable pub serialize_unregister_proxy : UnregisterProxyMessage → List ℕ
serialize_unregister_proxy m = write_string m.name

unfoldable pub deserialize_unregister_proxy : List ℕ → Result UnregisterProxyMessage
deserialize_unregister_proxy = run do name ← read_string; return (record { name = name })
