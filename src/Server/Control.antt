-- ===== src/Server/Control.antt =====
-- `ControlSession` (src/server/server.h, src/server/server.cpp): a client and its proxies. Its handlers
-- run on its strand, and change it together with what the server shares; what they ask of others are
-- actions. Whether a listener can be opened is known to the environment: `none`, or the text of the
-- exception. Logging is left out.
pub mod Login
pub mod Stops
pub mod Ports
pub mod Frame
use cfrp.Base.{
  ℕ, ◌+◌, ◌^◌, List, [], ◌∷◌, ◌++◌, Option, none, some, Bool, true, false, not, ◌&&◌, if◌then◌else◌,
  ltb,
}
use cfrp.Base.Dict.{text_beq}
use cfrp.Base.Text.{Text, codes}
use cfrp.Base.TextSet.{add}
use cfrp.Protocol.Result.{Result, ok, err}
use cfrp.Protocol.Messages.{
  MessageType, login, login_resp, register_proxy, register_proxy_resp, unregister_proxy, Message,
  RespMessage, RegisterProxyMessage, LoginMessage, UnregisterProxyMessage, deserialize_login,
  deserialize_register_proxy, deserialize_unregister_proxy, serialize_resp,
}
use cfrp.Server.Names.{Names, allocate_client_name, release_client_name}
use cfrp.Server.Pending.{clear_pending_for_proxy}
use cfrp.Server.Registry.{
  Registry, VhostRoute, is_port_allowed, is_client_allowed, add_vhost_route, remove_vhost_route,
  create_rate_limiter, remove_rate_limiter, remove_mux_control,
}

pub record Listener : Type 0 where
  pub name : Text
  pub port : ℕ

pub record ControlSession : Type 0 where
  pub id : ℕ
  pub mux_session : ℕ
  pub client_name : Text
  pub authenticated : Bool
  pub proxies : List Listener
  pub udp_proxies : List Listener
  pub registered_domains : List Text

pub data Action : Type 0 where
  send_message : MessageType → List ℕ → Action
  start_listener : Bool → Listener → Action
  stop_listener : Bool → Listener → Action
  stop_mux : ℕ → Action
  close_stream : Action

-- A handler, which ends.
abbrev pub Outcome : Type 0
Outcome = ControlSession × Registry × List Action

abbrev pub also : List Action → Outcome → Outcome
also acts (c, r, more) = (c, r, acts ++ more)

-- What `Stop` does for one proxy.
abbrev pub forget_proxy : Text → Registry → Registry
forget_proxy name r =
    remove_rate_limiter name (record r { pending = clear_pending_for_proxy name r.pending })

abbrev pub forget_proxies : List Listener → Registry → Registry
forget_proxies [] r = r
forget_proxies (p ∷ ps) r = forget_proxies ps (forget_proxy p.name r)

abbrev pub stops : Bool → List Listener → List Action
stops is_udp [] = []
stops is_udp (p ∷ ps) = stop_listener is_udp p ∷ stops is_udp ps

abbrev pub forget_domains : List Text → Registry → Registry
forget_domains [] r = r
forget_domains (d ∷ ds) r = forget_domains ds (remove_vhost_route d r)

abbrev pub release_name : Bool → Text → Registry → Registry
release_name true name r = record r { names = release_client_name name r.names }
release_name false name r = r

unfoldable pub stop : ControlSession → Registry → Outcome
unfolding remove_rate_limiter clear_pending_for_proxy remove_vhost_route release_client_name
    remove_mux_control
stop c r = (
  record c { proxies = []; udp_proxies = []; registered_domains = [] },
  forget_domains c.registered_domains (
      forget_proxies c.udp_proxies (
        forget_proxies c.proxies
          (remove_mux_control c.mux_session (release_name c.authenticated c.client_name r)))),
  stop_mux c.mux_session
      ∷ (stops false c.proxies ++ (stops true c.udp_proxies ++ (close_stream ∷ []))),
)

-- A response with these fields; the others are empty.
abbrev pub resp : Text → Text → Text → RespMessage
resp status name message = record { status = status; name = name; message = message }

abbrev pub respond : MessageType → RespMessage → Action
respond type m = send_message type (serialize_resp m)

abbrev pub reject : Text → ControlSession → Registry → Outcome
reject message c r = also (respond login_resp (resp (codes "error") [] message) ∷ []) (stop c r)

abbrev pub welcome : ControlSession → Registry → Option (Text × Names) → Option Outcome
welcome c r none = none
welcome c r (some (name, names)) = some (
  record c { client_name = name; authenticated = true },
  record r { names = names },
  respond login_resp (resp (codes "ok") name []) ∷ [],
)

-- `none` would be a name that is not found.
unfoldable pub handle_login : LoginMessage → ControlSession → Registry → Option Outcome
unfolding stop is_client_allowed allocate_client_name serialize_resp
handle_login m c r =
    if not (text_beq m.token r.token)
    then some (reject (codes "Invalid token") c r)
    else if not (is_client_allowed m.name r)
    then some (reject (codes "client name not allowed") c r)
    else welcome c r (allocate_client_name m.name c.id r.names)

abbrev pub type_or_tcp : Text → Text
type_or_tcp [] = codes "tcp"
type_or_tcp (x ∷ s) = x ∷ s

abbrev pub is_vhost : Text → Bool
is_vhost type = if text_beq type (codes "http") then true else text_beq type (codes "https")

-- `m.bandwidth_limit > 0`, for a signed number of 64 bits
abbrev pub is_positive : ℕ → Bool
is_positive n = ltb 0 n && ltb n (2 ^ 63)

abbrev pub answer : Text → Text → Text → ControlSession → Registry → Outcome
answer status name message c r = (c, r, respond register_proxy_resp (resp status name message) ∷ [])

abbrev pub add_routes : List Text → VhostRoute → Registry → Registry
add_routes [] route r = r
add_routes (d ∷ ds) route r = add_routes ds route (add_vhost_route d route r)

abbrev pub add_domains : List Text → List Text → List Text
add_domains [] s = s
add_domains (d ∷ ds) s = add_domains ds (add d s)

abbrev pub listen : Bool → Listener → Option Text → ControlSession → Registry → Outcome
listen is_udp l (some what) c r = answer (codes "error") l.name what c r
listen true l none c r =
    also (start_listener true l ∷ [])
      (answer (codes "ok") l.name [] (record c { udp_proxies = c.udp_proxies ++ (l ∷ []) }) r)
listen false l none c r =
    also (start_listener false l ∷ [])
      (answer (codes "ok") l.name [] (record c { proxies = c.proxies ++ (l ∷ []) }) r)

abbrev pub route_domains : RegisterProxyMessage → Text → ControlSession → Registry → Outcome
route_domains m type c r =
    answer (codes "ok") m.name []
      (record c { registered_domains = add_domains m.custom_domains c.registered_domains })
      (add_routes m.custom_domains (record { session = c.id; proxy_name = m.name; type = type }) r)

abbrev pub start_proxy :
    RegisterProxyMessage → Text → Option Text → ControlSession → Registry → Outcome
start_proxy m type opened c r =
    let l : Listener = record { name = m.name; port = m.remote_port } in
    if text_beq type (codes "udp")
    then listen true l opened c r
    else if is_vhost type
    then route_domains m type c r
    else listen false l opened c r

unfoldable pub handle_register :
    RegisterProxyMessage → Option Text → ℕ → ControlSession → Registry → Outcome
unfolding create_rate_limiter is_port_allowed add_vhost_route serialize_resp
handle_register m opened now c r =
    let type = type_or_tcp m.type in
    let r' =
      if is_positive m.bandwidth_limit
      then create_rate_limiter m.name m.bandwidth_limit now r
      else r in
    if not (is_vhost type) && not (is_port_allowed m.remote_port r')
    then answer (codes "error") m.name (codes "port not allowed") c r'
    else start_proxy m type opened c r'

-- `std::find_if` and `erase`: the first listener of this name, and the others.
abbrev pub take_named : Text → List Listener → Option (Listener × List Listener)
take_named name [] = none
take_named name (p ∷ ps) =
    let rest = take_named name ps in
    if text_beq p.name name
    then some (p, ps)
    else elim rest [ none ↦ none | some (q, qs) ↦ some (q, p ∷ qs) ]

abbrev pub unregister_udp : Option (Listener × List Listener) → ControlSession → Registry → Outcome
unregister_udp none c r = (c, r, [])
unregister_udp (some (p, ps)) c r = (record c { udp_proxies = ps }, r, stop_listener true p ∷ [])

abbrev pub unregister_tcp :
    Option (Listener × List Listener) → Text → ControlSession → Registry → Outcome
unregister_tcp none name c r = unregister_udp (take_named name c.udp_proxies) c r
unregister_tcp (some (p, ps)) name c r = (record c { proxies = ps }, r, stop_listener false p ∷ [])

unfoldable pub handle_unregister : UnregisterProxyMessage → ControlSession → Registry → Outcome
handle_unregister m c r = unregister_tcp (take_named m.name c.proxies) m.name c r

abbrev pub is_type : MessageType → MessageType → Bool
is_type login login = true
is_type register_proxy register_proxy = true
is_type unregister_proxy unregister_proxy = true
is_type _ _ = false

-- An exception of `Deserialize` is caught by the caller, which stops the session.
abbrev pub or_stop :
    {A : Type 0} → Result A → (A → Option Outcome) → ControlSession → Registry → Option Outcome
or_stop (err e) f c r = some (stop c r)
or_stop (ok a) f c r = f a

-- `HandleMessage`, in the `try` of `DoReadBody`.
unfoldable pub handle_message :
    Message → Option Text → ℕ → ControlSession → Registry → Option Outcome
unfolding handle_login handle_register handle_unregister stop
handle_message m opened now c r =
    if is_type m.type login
    then or_stop (deserialize_login m.body) (λ l. handle_login l c r) c r
    else if not c.authenticated
    then some (stop c r)
    else if is_type m.type register_proxy
    then or_stop (deserialize_register_proxy m.body) (λ p. some (handle_register p opened now c r))
        c r
    else if is_type m.type unregister_proxy
    then or_stop (deserialize_unregister_proxy m.body) (λ p. some (handle_unregister p c r)) c r
    else some (c, r, [])
