-- ===== src/Client/Work.antt =====
-- How the client serves a user (`HandleNewUserConn` and `HandleNewUdpUserConn`, src/client/client.cpp): it
-- connects to the local service, opens a work connection and sends the ticket ahead. Streams are their
-- references. What fails is logged, and nothing else is done.
use cfrp.Base.{ℕ, zero, suc, List, [], ◌∷◌, Option, none, some, Bool, true, false, if◌then◌else◌}
use cfrp.Base.Dict.{lookup, text_eq}
use cfrp.Base.Text.{Text}
use cfrp.Client.Proxies.{ProxyConfig, Client}

-- What goes on with a user, for a proxy and a ticket.
pub data Action : Type 0 where
  -- the resolver, of TCP or UDP
  resolve : Bool → ProxyConfig → Action
  connect : ProxyConfig → Action
  -- a new work connection, which is written to
  open_and_write : List ℕ → Action
  -- a bridge of the local service, of TCP or UDP, and the work connection: whether it compresses, and the
  -- rate of its limiter
  bridge udp_bridge : Bool → Option ℕ → Action

-- `resize(n, fill)`
abbrev pub resize : ℕ → ℕ → List ℕ → List ℕ
resize zero fill xs = []
resize (suc n) fill [] = fill ∷ resize n fill []
resize (suc n) fill (x ∷ xs) = x ∷ resize n fill xs

abbrev pub flag : Bool → ℕ
flag true = 1
flag false = 0

-- `ticket_buf`
unfoldable pub ticket_buf : Bool → Text → List ℕ
ticket_buf compression ticket = resize 65 b' ' (flag compression ∷ ticket)

-- The work connection, if there is a session.
unfoldable pub open_work : Option ℕ → Bool → Text → List Action
unfolding ticket_buf
open_work none compression ticket = []
open_work (some mux) compression ticket = open_and_write (ticket_buf compression ticket) ∷ []

abbrev pub limiter_of : ProxyConfig → Client → Option ℕ
limiter_of pc c = lookup pc.name c.proxy_rate_limiters

-- `HandleNewUserConn`, for a proxy of TCP: the service is resolved, then connected to, and then the
-- ticket is sent.
abbrev pub serve_tcp : ProxyConfig → List Action
serve_tcp pc = resolve false pc ∷ []

unfoldable pub on_local_resolved : ProxyConfig → Bool → List Action
on_local_resolved pc failed = if failed then [] else connect pc ∷ []

unfoldable pub on_local_connected : Option ℕ → Bool → Text → Bool → List Action
unfolding open_work
on_local_connected mux_session compression ticket failed =
    if failed then [] else open_work mux_session compression ticket

unfoldable pub on_ticket_written : ProxyConfig → Bool → Client → Bool → List Action
on_ticket_written pc compression c failed =
    if failed then [] else bridge compression (limiter_of pc c) ∷ []

-- `HandleNewUdpUserConn`: the ticket is sent first.
unfoldable pub handle_new_udp_user_conn : Option ℕ → Bool → Text → List Action
unfolding open_work
handle_new_udp_user_conn mux_session compression ticket = open_work mux_session compression ticket

unfoldable pub on_udp_ticket_written : ProxyConfig → Bool → List Action
on_udp_ticket_written pc failed = if failed then [] else resolve true pc ∷ []

-- An error, or no result.
unfoldable pub on_udp_resolved : ProxyConfig → Bool → Client → Bool → List Action
on_udp_resolved pc compression c failed =
    if failed then [] else udp_bridge compression (limiter_of pc c) ∷ []
