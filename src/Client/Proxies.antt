-- ===== src/Client/Proxies.antt =====
-- The proxies of a `Client` (src/client/client.cpp): their registration, and the directory that is read
-- every five seconds. The files are parsed by toml++, so what a scan finds is an argument: the proxies,
-- one for each name, in the order of the map. The messages go to `SendMessage`. Limiters are references.
pub mod Follow
pub mod Synced
use cfrp.Base.{
  ℕ, suc, ◌+◌, ◌^◌, List, [], ◌∷◌, ◌++◌, Option, none, some, Bool, true, false, not, ◌&&◌, ◌||◌,
  if◌then◌else◌, ltb, ◌==◌, length,
}
use cfrp.Base.Dict.{lookup, insert, erase, text_beq, text_eq}
use cfrp.Base.Text.{Text, codes}
use cfrp.Protocol.Result.{Result, ok, err}
use cfrp.Protocol.Messages.{
  MessageType, login, login_resp, register_proxy, register_proxy_resp, new_user_conn,
  start_work_conn, work_conn_auth, unregister_proxy, unknown, Message, LoginMessage, RespMessage,
  RegisterProxyMessage, NewUserConnMessage, UnregisterProxyMessage, serialize_login,
  deserialize_resp, deserialize_new_user_conn, serialize_register_proxy, serialize_unregister_proxy,
}

pub record ProxyConfig : Type 0 where
  pub name : Text
  pub type : Text
  pub local_ip : Text
  pub local_port : ℕ
  pub remote_port : ℕ
  pub custom_domains : List Text
  -- the bit pattern of an `int64_t`
  pub bandwidth_limit : ℕ

pub record Client : Type 0 where
  pub token : Text
  pub name : Text
  pub conf_d_path : Text
  pub proxies : List ProxyConfig
  pub dynamic_proxies : List (Text × ProxyConfig)
  -- the names, and the rate that each limiter has
  pub proxy_rate_limiters : List (Text × ℕ)

-- What is sent, and what is started.
pub data Action : Type 0 where
  register : RegisterProxyMessage → Action
  unregister : UnregisterProxyMessage → Action
  -- `HandleNewUserConn` connects to the service, for UDP or not
  serve_user : Bool → ProxyConfig → Text → Action
  -- the directory is read again after five seconds
  poll_again : Action

abbrev pub Step : Type 0
Step = Client × List Action

abbrev pub message_of : ProxyConfig → RegisterProxyMessage
message_of pc = record {
  name = pc.name;
  type = pc.type;
  remote_port = pc.remote_port;
  custom_domains = pc.custom_domains;
  bandwidth_limit = pc.bandwidth_limit;
}

-- `bandwidth_limit > 0`
abbrev pub is_limited : ProxyConfig → Bool
is_limited pc = ltb 0 pc.bandwidth_limit && ltb pc.bandwidth_limit (2 ^ 63)

-- `RegisterProxy`
unfoldable pub register_one : ProxyConfig → Client → Step
register_one pc c = (
  if is_limited pc
      then record c {
        proxy_rate_limiters = insert pc.name pc.bandwidth_limit c.proxy_rate_limiters;
      }
      else c,
  register (message_of pc) ∷ [],
)

abbrev pub unregister_one : Text → Action
unregister_one name = unregister (record { name = name })

abbrev pub texts_beq : List Text → List Text → Bool
texts_beq [] [] = true
texts_beq [] (t ∷ ts) = false
texts_beq (s ∷ ss) [] = false
texts_beq (s ∷ ss) (t ∷ ts) = text_beq s t && texts_beq ss ts

abbrev pub differs : ProxyConfig → ProxyConfig → Bool
differs old pc = not (
    text_beq old.type pc.type
    && (text_beq old.local_ip pc.local_ip
        && (old.local_port == pc.local_port
            && (old.remote_port == pc.remote_port
                && texts_beq old.custom_domains pc.custom_domains))))

-- The names that are gone.
abbrev pub removals : List (Text × ProxyConfig) → List (Text × ProxyConfig) → List Action
removals [] new = []
removals ((name, pc) ∷ old) new =
    let rest = removals old new in
    elim (lookup name new) [ none ↦ unregister_one name ∷ rest | some pc' ↦ rest ]

abbrev pub then_act : List Action → Step → Step
then_act acts (c, more) = (c, acts ++ more)

-- One proxy that was found.
abbrev pub update_one : Option ProxyConfig → Text → ProxyConfig → Client → Step
update_one none name pc c = register_one pc c
update_one (some old) name pc c =
    if differs old pc then then_act (unregister_one name ∷ []) (register_one pc c) else (c, [])

abbrev pub updates : List (Text × ProxyConfig) → List (Text × ProxyConfig) → Client → Step
updates old [] c = (c, [])
updates old ((name, pc) ∷ new) c =
    let (c', acts) = update_one (lookup name old) name pc c in then_act acts (updates old new c')

-- `PollConfDirectory`, with what it found.
unfoldable pub poll_conf_directory : List (Text × ProxyConfig) → Client → Step
unfolding register_one
poll_conf_directory found c =
    let (c', acts) = updates c.dynamic_proxies found c in
    (
      record c' { dynamic_proxies = found },
      removals c.dynamic_proxies found ++ (acts ++ (poll_again ∷ [])),
    )

abbrev pub register_all : List ProxyConfig → Client → Step
register_all [] c = (c, [])
register_all (pc ∷ pcs) c =
    let (c', acts) = register_one pc c in then_act acts (register_all pcs c')

abbrev pub monitor : Text → List (Text × ProxyConfig) → Client → Step
monitor [] found c = (c, [])
monitor (x ∷ path) found c = poll_conf_directory found c

unfoldable pub register_proxies : List (Text × ProxyConfig) → Client → Step
unfolding register_one poll_conf_directory
register_proxies found c =
    let (c', acts) = register_all c.proxies c in then_act acts (monitor c.conf_d_path found c')

abbrev pub find_named : Text → List ProxyConfig → Option ProxyConfig
find_named name [] = none
find_named name (pc ∷ pcs) =
    let rest = find_named name pcs in if text_beq pc.name name then some pc else rest

abbrev pub serve_found : Option ProxyConfig → Text → List Action
serve_found none ticket = []
serve_found (some pc) ticket = serve_user (text_beq pc.type (codes "udp")) pc ticket ∷ []

-- The static proxies first, then the dynamic ones.
unfoldable pub handle_new_user_conn : Text → Text → Client → Step
handle_new_user_conn proxy_name ticket c = (
  c,
  elim (find_named proxy_name c.proxies) [
    | none ↦ serve_found (lookup proxy_name c.dynamic_proxies) ticket
    | some pc ↦ serve_found (some pc) ticket
  ],
)

abbrev pub rename : Text → Client → Client
rename [] c = c
rename (x ∷ name) c = record c { name = x ∷ name }

abbrev pub on_login_resp : RespMessage → List (Text × ProxyConfig) → Client → Step
on_login_resp m found c =
    if text_beq m.status (codes "ok") then register_proxies found (rename m.name c) else (c, [])

-- The exceptions of `Deserialize` are caught by the caller, which goes on.
abbrev pub or_skip : {A : Type 0} → Result A → (A → Step) → Client → Step
or_skip (err e) f c = (c, [])
or_skip (ok a) f c = f a

-- `HandleMessage`, in the `try` of `DoReadBody`.
unfoldable pub handle_message : Message → List (Text × ProxyConfig) → Client → Step
unfolding register_proxies handle_new_user_conn
handle_message m found c = elim m.type [
  | login ↦ (c, [])
  | login_resp ↦ or_skip (deserialize_resp m.body) (λ r. on_login_resp r found c) c
  | register_proxy ↦ (c, [])
  | register_proxy_resp ↦ (c, [])
  | new_user_conn ↦
      or_skip (deserialize_new_user_conn m.body) (λ n. handle_new_user_conn n.proxy_name n.ticket c)
        c
  | start_work_conn ↦ (c, [])
  | work_conn_auth ↦ (c, [])
  | unregister_proxy ↦ (c, [])
  | unknown b ↦ (c, [])
]

-- `DoLogin`
unfoldable pub do_login : Client → Message
unfolding serialize_login
do_login c = record {
  type = login;
  body = serialize_login (record { token = c.token; name = c.name });
}
