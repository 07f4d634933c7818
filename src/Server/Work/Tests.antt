-- ===== src/Server/Work/Tests.antt =====
-- Users and their work connections (src/client/client.cpp, src/server/server.cpp).
use cfrp.Base.{◌≡◌, refl, [], ◌∷◌, ◌++◌, none, true, false, arith}
use cfrp.Base.Text.{codes, to_string}
use cfrp.Protocol.Samples.{prefixing, prefixing_lem}
use cfrp.Bridge.{back, new, do_read}
use cfrp.Bridge.Relay.{unrelay, joined}
use cfrp.Client.Work.{ticket_buf}
use cfrp.Server.Pending.{TcpSessionInfo, do_lazy_cleanup, cleanup}
use cfrp.Server.Registry.{Registry}
use cfrp.Server.Work.{ProxyListener, bridge, how_joined, on_ticket, on_accept}
use cfrp.Server.Work.Handover.{ticket_meets_user}
use cfrp.Server.Work.Initial.{on_work, initial_data_first}

abbrev waiting : TcpSessionInfo
waiting = record {
  socket = 5;
  initial_data = codes "GET";
  proxy_name = codes "web";
  created_at = 100;
}

abbrev registry : Registry
registry = record {
  token = [];
  allowed_ports = [];
  allowed_clients = [];
  names = record { active = []; sessions = [] };
  pending = record { user_conns = (codes "17", waiting) ∷ []; udp_sessions = []; expirations = [] };
  vhost_routes = [];
  rate_limiters = [];
  mux_to_control = [];
}

abbrev listener : ProxyListener
listener = record { proxy_name = codes "web"; total_conns = 0; active_conns = 0 }

ticket_meets_user_example :
    (on_ticket prefixing [] none
      (ticket_buf false (to_string 1700))
      (on_accept 42 43 (to_string 1700) true 6 listener registry).1.0).1
    ≡ bridge
        (record { socket = 6; initial_data = []; proxy_name = codes "web"; created_at = 43 })
        (how_joined false false (codes "web") none registry)
      ∷ []
unfolding do_lazy_cleanup cleanup
ticket_meets_user_example =
    ticket_meets_user 42 43 6 true listener registry 1700 prefixing [] none false (omega arith) refl
      refl

initial_data_first_example :
    (unrelay prefixing 4
      (on_work prefixing
        ((1 ∷ 2 ∷ []) ∷ [])
        (on_ticket prefixing (9 ∷ 9 ∷ 9 ∷ 9 ∷ []) none (ticket_buf true (codes "17")) registry).1)
      (do_read back (new true true))).0
    ≡ codes "GET" ++ joined ((1 ∷ 2 ∷ []) ∷ [])
initial_data_first_example =
    initial_data_first prefixing true (9 ∷ 9 ∷ 9 ∷ 9 ∷ []) none (codes "17") registry waiting
      ((1 ∷ 2 ∷ []) ∷ []) 4 refl (refl, (refl, tt)) (omega arith) prefixing_lem (omega arith)
      (omega arith, tt) (omega arith)
