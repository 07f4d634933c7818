-- ===== src/Server/Registry.antt =====
-- What the server shares between its control sessions (`Server`, src/server/server.h and
-- src/server/server.cpp). A control session and a mux session are their references. The server keeps
-- no more of a rate limiter than its reference; here the limiter itself is in the map.
use cfrp.Base.{ℕ, List, [], ◌∷◌, Option, none, some, Bool, true, false, ◌&&◌, if◌then◌else◌, leb}
use cfrp.Base.Dict.{lookup, insert, erase, nat_eq, text_eq}
use cfrp.Base.Text.{Text}
use cfrp.Base.TextSet.{contains}
use cfrp.RateLimiter.{RateLimiter, create, set_rate}
use cfrp.Server.Names.{Names}
use cfrp.Server.Pending.{Pending}

pub record PortRange : Type 0 where
  pub start : ℕ
  pub end : ℕ

pub record VhostRoute : Type 0 where
  pub session : ℕ
  pub proxy_name : Text
  pub type : Text

pub record Registry : Type 0 where
  pub token : Text
  pub allowed_ports : List PortRange
  pub allowed_clients : List Text
  pub names : Names
  pub pending : Pending
  pub vhost_routes : List (Text × VhostRoute)
  pub rate_limiters : List (Text × RateLimiter)
  pub mux_to_control : List (ℕ × ℕ)

-- What no session changes.
abbrev pub settings : Registry → Text × (List PortRange × List Text)
settings r = (r.token, (r.allowed_ports, r.allowed_clients))

abbrev pub in_ranges : ℕ → List PortRange → Bool
in_ranges port [] = false
in_ranges port (r ∷ rs) =
    let rest = in_ranges port rs in if leb r.start port && leb port r.end then true else rest

abbrev pub none_or : {A : Type 0} → (List A → Bool) → List A → Bool
none_or test [] = true
none_or test (x ∷ xs) = test (x ∷ xs)

unfoldable pub is_port_allowed : ℕ → Registry → Bool
is_port_allowed port r = none_or (in_ranges port) r.allowed_ports

unfoldable pub is_client_allowed : Text → Registry → Bool
is_client_allowed name r = none_or (contains name) r.allowed_clients

unfoldable pub add_vhost_route : Text → VhostRoute → Registry → Registry
add_vhost_route domain route r = record r { vhost_routes = insert domain route r.vhost_routes }

unfoldable pub remove_vhost_route : Text → Registry → Registry
remove_vhost_route domain r = record r { vhost_routes = erase domain r.vhost_routes }

abbrev pub new_or_set : Option RateLimiter → ℕ → ℕ → RateLimiter
new_or_set none rate now = create rate now
new_or_set (some l) rate now = set_rate rate l

unfoldable pub create_rate_limiter : Text → ℕ → ℕ → Registry → Registry
unfolding create set_rate
create_rate_limiter name rate now r = record r {
  rate_limiters = insert name (new_or_set (lookup name r.rate_limiters) rate now) r.rate_limiters;
}

unfoldable pub remove_rate_limiter : Text → Registry → Registry
remove_rate_limiter name r = record r { rate_limiters = erase name r.rate_limiters }

unfoldable pub remove_mux_control : ℕ → Registry → Registry
remove_mux_control mux r = record r { mux_to_control = erase mux r.mux_to_control }
