-- ===== src/Server/Tests.antt =====
-- Concrete runs of the server (src/server/server.cpp), and its theorems at concrete inputs.
use cfrp.Base.{◌++◌, Bool, ◌+◌, ◌≤◌, ◌<◌, ◌≡◌, refl, [], ◌∷◌, none, some, true, false, All, arith}
use cfrp.Base.Dict.{lookup, text_eq}
use cfrp.Base.Text.{Text, codes}
use cfrp.Base.TextSet.{contains}
use cfrp.Protocol.Messages.{
  of_byte, to_byte, encode, Message, login, register_proxy, serialize_login,
  serialize_register_proxy,
}
use cfrp.Server.Names.{Names, allocate_client_name}
use cfrp.Server.Names.Fresh.{Allocated, allocate_client_name-Allocated}
use cfrp.Server.Pending.{
  Pending, register_user_conn, register_udp_session, do_lazy_cleanup, claim, size,
  max_pending_tickets, ticket_life,
}
use cfrp.Server.Pending.Runs.{Reach, nobody, begin, conn, udp}
use cfrp.Server.Pending.Expiry.Always.{pending_bounded, cleanup_leaves_young}
use cfrp.Server.Pending.Handover.{Handed, claim-Handed}
use cfrp.Server.Vhost.{sni_domain, host_domain}
use cfrp.Server.Vhost.Safe.{IsDefined, sni_domain-IsDefined}
use cfrp.Server.Registry.{Registry, is_port_allowed}
use cfrp.Server.Control.{ControlSession, stop, handle_message}
use cfrp.Server.Control.Login.{Gates, handle_message-Gates}
use cfrp.Server.Control.Stops.{Stopped, stop-Stopped, stop-again}
use cfrp.Protocol.Samples.{prefixing, prefixing_lem}
use cfrp.Server.Control.Frame.{send_message, read_header, got}
use cfrp.Server.Control.Frame.RoundTrip.{read_header-send_message}
use cfrp.Server.Control.Ports.{Places, handle_message-Places}

-- Two clients without a name.
abbrev two : Names
two = record {
  active = codes "client" ∷ codes "client_1" ∷ [];
  sessions = (codes "client", 1) ∷ (codes "client_1", 2) ∷ [];
}

third :
    allocate_client_name [] 3 two
    ≡ some (
      codes "client_2",
      record {
        active = codes "client_2" ∷ codes "client" ∷ codes "client_1" ∷ [];
        sessions = (codes "client", 1) ∷ (codes "client_1", 2) ∷ (codes "client_2", 3) ∷ [];
      },
    )
unfolding allocate_client_name
third = refl

allocate_client_name-Allocated_example : Allocated [] 3 two (allocate_client_name [] 3 two)
allocate_client_name-Allocated_example = allocate_client_name-Allocated [] 3 two

-- A user of TCP and one of UDP, eleven seconds apart.
abbrev one_waits : Pending
one_waits = (register_user_conn 5 6 (codes "a") 1 (codes "web") [] nobody).0

abbrev both_wait : Pending
both_wait =
    (register_udp_session 11_000_000_005 11_000_000_006 (codes "b") 4 9 (codes "dns") one_waits).0

abbrev both_Reach : Reach both_wait 11_000_000_006
both_Reach =
    udp (conn (begin 0) 5 6 (codes "a") 1 (codes "web") [] (omega arith) (omega arith))
      11_000_000_005 11_000_000_006 (codes "b") 4 9 (codes "dns") (omega arith) (omega arith)

first_expired : lookup (codes "a") both_wait.user_conns ≡ none
unfolding register_user_conn register_udp_session
first_expired = refl

pending_bounded_example : size both_wait ≤ max_pending_tickets
pending_bounded_example = pending_bounded both_wait 11_000_000_006 both_Reach

cleanup_leaves_young_example :
    All
      (λ e. 12_000_000_000 < e.1.created_at + ticket_life)
      (do_lazy_cleanup 12_000_000_000 both_wait).0.user_conns
    × All
        (λ e. 12_000_000_000 < e.1.created_at + ticket_life)
        (do_lazy_cleanup 12_000_000_000 both_wait).0.udp_sessions
cleanup_leaves_young_example =
    cleanup_leaves_young both_wait 11_000_000_006 12_000_000_000 both_Reach (omega arith)

claim-Handed_example : Handed (codes "b") both_wait (claim (codes "b") both_wait)
claim-Handed_example = claim-Handed (codes "b") both_wait

-- A TLS record that ends too early.
sni_domain-IsDefined_example : IsDefined (sni_domain (22 ∷ 3 ∷ 1 ∷ 0 ∷ 2 ∷ 1 ∷ 0 ∷ []))
sni_domain-IsDefined_example = sni_domain-IsDefined (22 ∷ 3 ∷ 1 ∷ 0 ∷ 2 ∷ 1 ∷ 0 ∷ [])

host : host_domain (codes "GET / HTTP/1.1\r\nHost: a.org:80 \r\n\r\n") ≡ codes "a.org"
unfolding host_domain
host = refl

-- A server with one client, and another that is about to log in.
abbrev registry : Registry
registry = record {
  token = codes "secret";
  allowed_ports = record { start = 7000; end = 7009 } ∷ [];
  allowed_clients = [];
  names = two;
  pending = nobody;
  vhost_routes = [];
  rate_limiters = [];
  mux_to_control = [];
}

abbrev newcomer : ControlSession
newcomer = record {
  id = 3;
  mux_session = 30;
  client_name = [];
  authenticated = false;
  proxies = [];
  udp_proxies = [];
  registered_domains = [];
}

abbrev hello : Message
hello = record {
  type = login;
  body = serialize_login (record { token = codes "secret"; name = codes "pi" });
}

handle_message-Gates_example :
    Gates hello newcomer registry (handle_message hello none 9 newcomer registry)
handle_message-Gates_example =
    handle_message-Gates hello none 9 newcomer registry (λ _. (refl, refl, refl))

abbrev member : ControlSession
member = record newcomer {
  id = 1;
  client_name = codes "client";
  authenticated = true;
  proxies = record { name = codes "web"; port = 7001 } ∷ [];
  registered_domains = codes "a.org" ∷ [];
}

stop-Stopped_example : Stopped member registry (stop member registry).1
stop-Stopped_example = stop-Stopped member registry

abbrev ssh : Message
ssh = record {
  type = register_proxy;
  body = serialize_register_proxy (record {
    name = codes "ssh";
    type = codes "tcp";
    remote_port = 22;
    custom_domains = [];
    bandwidth_limit = 1000;
  });
}

handle_message-Places_example : Places registry (handle_message ssh none 9 member registry)
unfolding is_port_allowed
handle_message-Places_example = handle_message-Places ssh none 9 member registry ((refl, tt), tt)

-- By then the name "client" belongs to session 8.
abbrev taken_over : Registry
taken_over = record registry {
  names = record { active = codes "client" ∷ []; sessions = (codes "client", 8) ∷ [] };
}

stop-again_example :
    ((n : Text) → lookup n (stop (stop member registry).0 taken_over).1.rate_limiters ≡ none)
    × ((d : Text) → lookup d (stop (stop member registry).0 taken_over).1.vhost_routes ≡ none)
    × ((stop (stop member registry).0 taken_over).1.pending.user_conns ≡ [])
    × ((stop (stop member registry).0 taken_over).1.pending.udp_sessions ≡ [])
    × (lookup (codes "client") (stop (stop member registry).0 taken_over).1.names.sessions ≡ none)
    × (contains (codes "client") (stop (stop member registry).0 taken_over).1.names.active ≡ false)
stop-again_example = stop-again member registry taken_over refl

abbrev small : Message
small = record { type = login; body = 1 ∷ 2 ∷ [] }

known_login : of_byte (to_byte login) ≡ login
unfolding of_byte to_byte
known_login = refl

read_header-send_message_example :
    (f : Bool) × (read_header prefixing (send_message prefixing true small ++ (9 ∷ []))
      ≡ got small f (9 ∷ []))
    × (true ≡ false → f ≡ false)
unfolding encode
read_header-send_message_example =
    read_header-send_message prefixing true small (9 ∷ []) prefixing_lem known_login (omega arith)
      (omega arith)
