-- ===== src/Client/Tests.antt =====
-- Runs of a client (src/client/client.cpp).
use cfrp.Base.{◌≤◌, ◌≡◌, refl, List, [], ◌∷◌, none, true, false, front}
use cfrp.Base.Dict.{lookup, text_eq}
use cfrp.Base.Text.{Text, codes}
use cfrp.Client.Connection.{tcp, resolve, Step, new, do_connect, on_resolved}
use cfrp.Client.Connection.Runs.{run, answered, resolved, enqueue}
use cfrp.Client.Connection.Good.{AnyLive}
use cfrp.Client.Connection.Awake.{never_stuck}
use cfrp.Client.Proxies.{ProxyConfig, Client}
use cfrp.Client.Proxies.Follow.{free, after}
use cfrp.Client.Proxies.Synced.{Agrees, polls, last, polls-Agrees}

-- The first name of the server is not found.
abbrev lost : Step
lost = on_resolved 1 none (λ e. true) 0 (do_connect (new tcp)).0

never_stuck_example :
    (lost.0.stopping ≡ false → AnyLive lost.0 (enqueue [] lost.1))
    × (lost.0.reconnect_delay_sec ≤ 600)
unfolding new do_connect
never_stuck_example =
    never_stuck tcp lost.0 (enqueue [] lost.1)
      (answered run (resolve 1) [] lost front (resolved 1 none (λ e. true) 0))

abbrev web : ProxyConfig
web = record {
  name = codes "web";
  type = codes "tcp";
  local_ip = codes "127.0.0.1";
  local_port = 80;
  remote_port = 8080;
  custom_domains = [];
  bandwidth_limit = 0;
}

abbrev moved : ProxyConfig
moved = record web { remote_port = 8081 }

abbrev dns : ProxyConfig
dns = record web { name = codes "dns"; type = codes "udp" }

abbrev fresh : Client
fresh = record {
  token = [];
  name = [];
  conf_d_path = codes "conf.d";
  proxies = [];
  dynamic_proxies = [];
  proxy_rate_limiters = [];
}

abbrev scans : List (List (Text × ProxyConfig))
scans =
    ((codes "web", web) ∷ [])
    ∷ ((codes "dns", dns) ∷ (codes "web", moved) ∷ [])
    ∷ ((codes "web", moved) ∷ [])
    ∷ []

polls-Agrees_example :
    Agrees
      (after (codes "web") free (polls scans fresh).1)
      (lookup (codes "web") (last scans fresh.dynamic_proxies))
polls-Agrees_example =
    polls-Agrees scans fresh (codes "web") free
      (((refl, refl), tt), ((((refl, refl), ((refl, refl), tt))), (((refl, refl), tt), tt))) tt
