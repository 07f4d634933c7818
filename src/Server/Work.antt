-- ===== src/Server/Work.antt =====
-- How a user and a work connection come together (src/server/server.cpp): the listeners that register users
-- under tickets, and `HandleNewMuxStream`, which reads a ticket from a work connection and joins it to
-- its user. Sockets, streams, sessions and endpoints are their references, and a ticket is an argument
-- of the handler that makes it from the clock. Logging is left out.
pub mod Handover
pub mod Initial
mod Tests
use cfrp.Base.{
  ℕ, ◌+◌, ◌-◌, ◌%◌, ◌^◌, List, [], ◌∷◌, ◌++◌, Option, none, some, Bool, true, false, not,
  if◌then◌else◌, ltb, ◌==◌, length,
}
use cfrp.Base.Dict.{lookup, insert, erase, text_beq, text_eq, nat_eq}
use cfrp.Base.Text.{Text, codes}
use cfrp.Protocol.Messages.{NewUserConnMessage}
use cfrp.Protocol.Compressed.{Zstd}
use cfrp.Bridge.{packet}
use cfrp.RateLimiter.{RateLimiter}
use cfrp.Server.Pending.{
  TcpSessionInfo, UdpSessionInfo, Pending, Claim, nothing, tcp, udp, claim, register_user_conn,
  register_udp_session, remove_endpoint, close_socket,
}
use cfrp.Server.Pending as Pending
use cfrp.Server.Registry.{Registry, VhostRoute}
use cfrp.Server.Control.{ControlSession, Listener}
use cfrp.Server.Vhost.{trim_right, host_domain, sni_domain}

pub record ProxyListener : Type 0 where
  pub proxy_name : Text
  -- `uint64_t`, and `uint32_t`
  pub total_conns : ℕ
  pub active_conns : ℕ

pub record UdpProxyListener : Type 0 where
  pub id : ℕ
  pub proxy_name : Text
  pub total_conns : ℕ
  pub bytes_received : ℕ
  pub endpoint_to_ticket : List (ℕ × Text)

-- How two streams are joined.
pub record Splice : Type 0 where
  pub use_compression : Bool
  pub rate_limiter : Option RateLimiter
  -- whether the counters are those of a listener
  pub counted : Bool

pub data Action : Type 0 where
  -- what `RegisterUserConn` and `RegisterUdpSession` and the ticket do
  pending : Pending.Action → Action
  send_new_user_conn : NewUserConnMessage → Action
  -- the next connection or datagram, at once or after 100 ms
  go_on wait_and_go_on : Action
  -- the control session of stream 1, stopped after ten seconds if it has not logged in
  start_control : Action
  read_ticket : Action
  close_stream : Action
  -- a `Bridge`, started now or after these bytes were written to the work connection
  bridge : TcpSessionInfo → Splice → Action
  bridge_after : List ℕ → TcpSessionInfo → Splice → Action
  udp_bridge : UdpSessionInfo → Splice → Action
  -- `dec_active_conns` of the listener
  count_down : Action

abbrev pub pendings : List Pending.Action → List Action
pendings [] = []
pendings (a ∷ acts) = pending a ∷ pendings acts

-- The message to the client, if its session is still there.
abbrev pub announce : Bool → Text → Text → List Action
announce false proxy_name ticket = []
announce true proxy_name ticket =
    send_new_user_conn (record { proxy_name = proxy_name; ticket = ticket }) ∷ []

abbrev pub with_pending : Registry → Pending × List Pending.Action → Registry × List Action
with_pending r (p, acts) = (record r { pending = p }, pendings acts)

abbrev pub then_do : Registry × List Action → List Action → Registry × List Action
then_do (r, acts) more = (r, acts ++ more)

-- `DoAccept`, with the socket of a user, or an error which is that the listener was closed or not.
unfoldable pub on_accept :
    ℕ → ℕ → Text → Bool → ℕ → ProxyListener → Registry → ProxyListener × (Registry × List Action)
unfolding register_user_conn
on_accept cleaned_at now ticket has_session socket l r = (
  record l {
    total_conns = (l.total_conns + 1) % 2 ^ 64;
    active_conns = (l.active_conns + 1) % 2 ^ 32;
  },
  then_do
      (with_pending r (register_user_conn cleaned_at now ticket socket l.proxy_name [] r.pending))
      (announce has_session l.proxy_name ticket ++ (go_on ∷ [])),
)

unfoldable pub on_accept_error : Bool → ProxyListener → ProxyListener × List Action
on_accept_error aborted l = (l, if aborted then [] else wait_and_go_on ∷ [])

-- `DoReceive`: the first datagram of an endpoint makes a session. Its bytes, and those of the later
-- datagrams, are counted and go nowhere.
unfoldable pub on_receive :
    ℕ
    → ℕ
    → Text
    → Bool
    → ℕ
    → List ℕ
    → UdpProxyListener
    → Registry
    → UdpProxyListener × (Registry × List Action)
unfolding register_udp_session
on_receive cleaned_at now ticket has_session endpoint bytes l r =
    let l' : UdpProxyListener = record l {
      bytes_received = (l.bytes_received + length bytes) % 2 ^ 64;
    } in
    elim (lookup endpoint l.endpoint_to_ticket) [
      | some old ↦ (l', (r, go_on ∷ []))
      | none ↦ (
        record l' {
          total_conns = (l.total_conns + 1) % 2 ^ 64;
          endpoint_to_ticket = insert endpoint ticket l.endpoint_to_ticket;
        },
        then_do
            (with_pending r
              (register_udp_session cleaned_at now ticket l.id endpoint l.proxy_name r.pending))
            (announce has_session l.proxy_name ticket ++ (go_on ∷ [])),
      )
    ]

unfoldable pub remove_listener_endpoint : ℕ → UdpProxyListener → UdpProxyListener
remove_listener_endpoint endpoint l = record l {
  endpoint_to_ticket = erase endpoint l.endpoint_to_ticket;
}

-- `DoVhostAccept` behind the first read of a user. A session that is gone is `false`.
unfoldable pub domain_of : Bool → Text → Option Text
unfolding host_domain sni_domain
domain_of true bytes = some (host_domain bytes)
domain_of false bytes = sni_domain bytes

unfoldable pub route_user :
    ℕ → ℕ → Text → (ℕ → Bool) → ℕ → List ℕ → Option VhostRoute → Registry → Registry × List Action
unfolding register_user_conn
route_user cleaned_at now ticket lives socket bytes none r = (r, [])
route_user cleaned_at now ticket lives socket bytes (some route) r =
    if lives route.session
    then then_do
        (with_pending r
          (register_user_conn cleaned_at now ticket socket route.proxy_name bytes r.pending))
        (announce true route.proxy_name ticket)
    else (r, [])

-- `none` is a read outside the buffer.
unfoldable pub on_vhost_read :
    ℕ → ℕ → Text → (ℕ → Bool) → Bool → ℕ → List ℕ → Registry → Option (Registry × List Action)
unfolding domain_of route_user
on_vhost_read cleaned_at now ticket lives is_http socket bytes r = elim (domain_of is_http bytes) [
  | none ↦ none
  | some domain ↦
      some (route_user cleaned_at now ticket lives socket bytes (lookup domain r.vhost_routes) r)
]

unfoldable pub handle_new_mux_stream : ℕ → List Action
handle_new_mux_stream id = if id == 1 then start_control ∷ [] else read_ticket ∷ []

abbrev pub is_named : Text → List Listener → Bool
is_named name [] = false
is_named name (p ∷ ps) = let rest = is_named name ps in if text_beq p.name name then true else rest

-- `FindProxy` or `FindUdpProxy` of the control session of this connection.
abbrev pub finds : Bool → Text → Option ControlSession → Bool
finds is_udp name none = false
finds is_udp name (some c) = is_named name (if is_udp then c.udp_proxies else c.proxies)

-- What was read from the user already, framed for a bridge if it compresses. `final_header` has no value
-- if it does not: `uninit` is what its four bytes hold.
unfoldable pub initial_packet : Zstd → Bool → List ℕ → List ℕ → List ℕ
unfolding packet
initial_packet z true uninit bytes = packet z bytes
initial_packet z false uninit bytes = uninit ++ bytes

unfoldable pub start_bridge : Zstd → List ℕ → TcpSessionInfo → Splice → List ℕ → Action
unfolding initial_packet
start_bridge z uninit s how [] = bridge s how
start_bridge z uninit s how (b ∷ bytes) =
    bridge_after (initial_packet z how.use_compression uninit (b ∷ bytes)) s how

-- The first bytes were written, or not.
unfoldable pub on_initial_written : TcpSessionInfo → Splice → Bool → List Action
on_initial_written s how failed =
    if failed then (if how.counted then count_down ∷ [] else []) else bridge s how ∷ []

-- `SetOnStop`
unfoldable pub on_bridge_stop : Splice → List Action
on_bridge_stop how = if how.counted then count_down ∷ [] else []

unfoldable pub dec_active_conns : ProxyListener → ProxyListener
dec_active_conns l =
    if ltb 0 l.active_conns then record l { active_conns = l.active_conns - 1 } else l

abbrev pub how_joined : Bool → Bool → Text → Option ControlSession → Registry → Splice
how_joined is_udp use_compression name control r = record {
  use_compression = use_compression;
  rate_limiter = lookup name r.rate_limiters;
  counted = finds is_udp name control;
}

unfoldable pub join : Zstd → List ℕ → Bool → Option ControlSession → Claim → Registry → List Action
unfolding start_bridge
join z uninit use_compression control nothing r = close_stream ∷ []
join z uninit use_compression control (tcp s) r =
    start_bridge z uninit s (how_joined false use_compression s.proxy_name control r) s.initial_data
    ∷ []
join z uninit use_compression control (udp u) r =
    udp_bridge u (how_joined true use_compression u.proxy_name control r) ∷ []

-- The 65 bytes of a work connection have come: its first byte, and the ticket. `control` is the session that
-- `mux_to_control_` has for it.
unfoldable pub on_ticket :
    Zstd → List ℕ → Option ControlSession → List ℕ → Registry → Registry × List Action
unfolding claim join
on_ticket z uninit control [] r = (r, [])
on_ticket z uninit control (flag ∷ bytes) r =
    let (p, c, acts) = claim (trim_right bytes) r.pending in
    (record r { pending = p }, pendings acts ++ join z uninit (flag == 1) control c r)
