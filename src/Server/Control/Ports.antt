-- ===== src/Server/Control/Ports.antt =====
-- Where a session listens (`RegisterProxy` of `HandleMessage`, src/server/server.cpp).
use cfrp.Base.{
  ℕ, ◌≡◌, refl, ap, ◌∙◌, List, [], ◌∷◌, ◌++◌, Option, none, some, Bool, true, false, not, ◌&&◌,
  if◌then◌else◌, if_rule, true≢false, All,
}
use cfrp.Base.Dict.{text_beq, text_eq, text_beq_iff}
use cfrp.Base.Text.{Text, codes}
use cfrp.Protocol.Result.{Result, ok, err}
use cfrp.Protocol.Messages.{
  Message, LoginMessage, RegisterProxyMessage, UnregisterProxyMessage, deserialize_login,
  deserialize_register_proxy, deserialize_unregister_proxy, login, register_proxy, unregister_proxy,
}
use cfrp.Server.Names.{Names, allocate_client_name}
use cfrp.Server.Registry.{
  Registry, VhostRoute, is_client_allowed, is_port_allowed, create_rate_limiter, remove_mux_control,
  remove_rate_limiter, remove_vhost_route, add_vhost_route, none_or, in_ranges,
}
use cfrp.Server.Control.{
  ControlSession, Listener, Outcome, stop, welcome, handle_login, handle_register,
  handle_unregister, is_type, or_stop, handle_message, take_named, unregister_tcp, unregister_udp,
  start_proxy, listen, route_domains, add_routes, is_vhost, type_or_tcp, is_positive,
  forget_domains, forget_proxies, forget_proxy, release_name,
}

abbrev pub OnAllowed : Registry → List Listener → Type 0
OnAllowed r = All (λ l. is_port_allowed l.port r ≡ true)

-- Every listener is on a port that the server allows.
abbrev pub IsPlaced : ControlSession → Registry → Type 0
IsPlaced c r = OnAllowed r c.proxies × OnAllowed r c.udp_proxies

-- The ports of the configuration stay, and so does the above.
abbrev pub Places : Registry → Option Outcome → Type 0
Places r none = Unit
Places r (some o) = (o.1.allowed_ports ≡ r.allowed_ports) × IsPlaced o.0 o.1

OnAllowed-move :
    (r r' : Registry) (ls : List Listener)
    → r'.allowed_ports ≡ r.allowed_ports
    → OnAllowed r ls
    → OnAllowed r' ls
unfolding is_port_allowed
OnAllowed-move r r' [] e a = tt
OnAllowed-move r r' (l ∷ ls) e (a, more) =
    (ap (λ x. none_or (in_ranges l.port) x) e ∙ a, OnAllowed-move r r' ls e more)

OnAllowed-snoc :
    (r : Registry) (ls : List Listener) (l : Listener)
    → OnAllowed r ls
    → is_port_allowed l.port r ≡ true
    → OnAllowed r (ls ++ (l ∷ []))
OnAllowed-snoc r [] l a p = (p, tt)
OnAllowed-snoc r (x ∷ ls) l (a, more) p = (a, OnAllowed-snoc r ls l more p)

release_name-ports :
    (a : Bool) (n : Text) (r : Registry) → (release_name a n r).allowed_ports ≡ r.allowed_ports
release_name-ports true n r = refl
release_name-ports false n r = refl

forget_proxies-ports :
    (ps : List Listener) (r : Registry) → (forget_proxies ps r).allowed_ports ≡ r.allowed_ports
unfolding remove_rate_limiter
forget_proxies-ports [] r = refl
forget_proxies-ports (p ∷ ps) r = forget_proxies-ports ps (forget_proxy p.name r)

forget_domains-ports :
    (ds : List Text) (r : Registry) → (forget_domains ds r).allowed_ports ≡ r.allowed_ports
unfolding remove_vhost_route
forget_domains-ports [] r = refl
forget_domains-ports (d ∷ ds) r = forget_domains-ports ds (remove_vhost_route d r)

add_routes-ports :
    (ds : List Text) (v : VhostRoute) (r : Registry)
    → (add_routes ds v r).allowed_ports ≡ r.allowed_ports
unfolding add_vhost_route
add_routes-ports [] v r = refl
add_routes-ports (d ∷ ds) v r = add_routes-ports ds v (add_vhost_route d v r)

stop-Places : (c : ControlSession) (r : Registry) → Places r (some (stop c r))
unfolding stop remove_mux_control
stop-Places c r = (
  forget_domains-ports c.registered_domains _
      ∙ forget_proxies-ports c.udp_proxies _
      ∙ forget_proxies-ports c.proxies _
      ∙ release_name-ports c.authenticated c.client_name r,
  (tt, tt),
)

move :
    (c : ControlSession) (r r' : Registry)
    → r'.allowed_ports ≡ r.allowed_ports
    → IsPlaced c r
    → IsPlaced c r'
move c r r' e (a, b) = (OnAllowed-move r r' c.proxies e a, OnAllowed-move r r' c.udp_proxies e b)

handle_login-Places :
    (l : LoginMessage) (c : ControlSession) (r : Registry)
    → IsPlaced c r
    → Places r (handle_login l c r)
unfolding handle_login
handle_login-Places l c r h =
    if_rule (Places r) (not (text_beq l.token r.token)) (λ _. stop-Places c r)
      (λ _.
        if_rule (Places r) (not (is_client_allowed l.name r)) (λ _. stop-Places c r)
          (λ _. welcomed (allocate_client_name l.name c.id r.names)))
  where
    welcomed : (o : Option (Text × Names)) → Places r (welcome c r o)
    welcomed none = tt
    welcomed (some (n, names)) = (refl, move c r (record r { names = names }) refl h)

abbrev RestOnAllowed : Registry → Option (Listener × List Listener) → Type 0
RestOnAllowed r none = Unit
RestOnAllowed r (some (q, qs)) = OnAllowed r qs

take_named-OnAllowed :
    (r : Registry) (name : Text) (ls : List Listener)
    → OnAllowed r ls
    → RestOnAllowed r (take_named name ls)
take_named-OnAllowed r name [] a = tt
take_named-OnAllowed r name (l ∷ ls) (a, more) =
    if_rule (RestOnAllowed r) (text_beq l.name name) (λ _. more)
      (λ _. rest (take_named name ls) (take_named-OnAllowed r name ls more))
  where
    rest :
        (o : Option (Listener × List Listener))
        → RestOnAllowed r o
        → RestOnAllowed r (elim o [ none ↦ none | some (q, qs) ↦ some (q, l ∷ qs) ])
    rest none h = tt
    rest (some (q, qs)) h = (a, h)

handle_unregister-Places :
    (u : UnregisterProxyMessage) (c : ControlSession) (r : Registry)
    → IsPlaced c r
    → Places r (some (handle_unregister u c r))
unfolding handle_unregister
handle_unregister-Places u c r (t, d) =
    by_tcp (take_named u.name c.proxies) (take_named-OnAllowed r u.name c.proxies t)
  where
    by_udp :
        (o : Option (Listener × List Listener))
        → RestOnAllowed r o
        → Places r (some (unregister_udp o c r))
    by_udp none h = (refl, (t, d))
    by_udp (some (p, ps)) h = (refl, (t, h))

    by_tcp :
        (o : Option (Listener × List Listener))
        → RestOnAllowed r o
        → Places r (some (unregister_tcp o u.name c r))
    by_tcp none h =
        by_udp (take_named u.name c.udp_proxies) (take_named-OnAllowed r u.name c.udp_proxies d)
    by_tcp (some (p, ps)) h = (refl, (h, d))

listen-Places :
    (is_udp : Bool) (l : Listener) (o : Option Text) (c : ControlSession) (r : Registry)
    → IsPlaced c r
    → is_port_allowed l.port r ≡ true
    → Places r (some (listen is_udp l o c r))
listen-Places u l (some what) c r h p = (refl, h)
listen-Places true l none c r h p = (refl, (h.0, OnAllowed-snoc r c.udp_proxies l h.1 p))
listen-Places false l none c r h p = (refl, (OnAllowed-snoc r c.proxies l h.0 p, h.1))

-- The ports stay those of a registry before.
back :
    (r r' : Registry) (o : Outcome)
    → r'.allowed_ports ≡ r.allowed_ports
    → Places r' (some o)
    → Places r (some o)
back r r' o e (same, h) = (same ∙ e, h)

-- "udp" is no virtual host.
udp_not_vhost : (t : Text) → text_beq t (codes "udp") ≡ true → is_vhost t ≡ false
udp_not_vhost t e = ap is_vhost ((text_beq_iff t (codes "udp")).0 e)

start_proxy-Places :
    (p : RegisterProxyMessage) (type : Text) (opened : Option Text) (c : ControlSession)
    (r : Registry)
    → IsPlaced c r
    → (is_vhost type ≡ false → is_port_allowed p.remote_port r ≡ true)
    → Places r (some (start_proxy p type opened c r))
start_proxy-Places p type opened c r h allowed =
    let l : Listener = record { name = p.name; port = p.remote_port } in
    let P : Outcome → Type 0 = λ o. Places r (some o) in
    if_rule P (text_beq type (codes "udp"))
      (λ u. listen-Places true l opened c r h (allowed (udp_not_vhost type u)))
      (λ _.
        if_rule P (is_vhost type) (λ _. routed)
          (λ v. listen-Places false l opened c r h (allowed v)))
  where
    routed : Places r (some (route_domains p type c r))
    routed =
        let v : VhostRoute = record { session = c.id; proxy_name = p.name; type = type } in
        (
          add_routes-ports p.custom_domains v r,
          move c r (add_routes p.custom_domains v r) (add_routes-ports p.custom_domains v r) h,
        )

limited :
    (b : Bool) (r' r : Registry)
    → r'.allowed_ports ≡ r.allowed_ports
    → (if b then r' else r).allowed_ports ≡ r.allowed_ports
limited true r' r e = e
limited false r' r e = refl

handle_register-Places :
    (p : RegisterProxyMessage) (opened : Option Text) (now : ℕ) (c : ControlSession) (r : Registry)
    → IsPlaced c r
    → Places r (some (handle_register p opened now c r))
unfolding handle_register create_rate_limiter
handle_register-Places p opened now c r h =
    let type = type_or_tcp p.type in
    let r' =
      if is_positive p.bandwidth_limit
      then create_rate_limiter p.name p.bandwidth_limit now r
      else r in
    let e : r'.allowed_ports ≡ r.allowed_ports =
      limited (is_positive p.bandwidth_limit) (create_rate_limiter p.name p.bandwidth_limit now r) r
        refl in
    if_rule (λ o. Places r (some o)) (not (is_vhost type) && not (is_port_allowed p.remote_port r'))
      (λ _. (e, move c r r' e h))
      (λ n. back r r' (start_proxy p type opened c r') e (
        start_proxy-Places p type opened c r' (move c r r' e h) λ v. allowed (is_vhost type) _ n v))
  where
    allowed : (v a : Bool) → (not v && not a) ≡ false → v ≡ false → a ≡ true
    allowed v true n e = refl
    allowed true false n e = absurd (true≢false e)
    allowed false false n e = absurd (true≢false n)

or_stop-Places :
    {A : Type 0} (c : ControlSession) (r : Registry) (f : A → Option Outcome) (o : Result A)
    → ((a : A) → Places r (f a))
    → Places r (or_stop o f c r)
or_stop-Places c r f (err x) h = stop-Places c r
or_stop-Places c r f (ok a) h = h a

-- No message makes a session listen on a port that the server does not allow: if all its listeners, of TCP
-- and of UDP, are on allowed ports, then so they are after it. The allowed ports are never changed.
pub handle_message-Places :
    (m : Message) (opened : Option Text) (now : ℕ) (c : ControlSession) (r : Registry)
    → IsPlaced c r
    → Places r (handle_message m opened now c r)
unfolding handle_message
handle_message-Places m opened now c r h =
    if_rule (Places r) (is_type m.type login)
      (λ _. or_stop-Places c r _ (deserialize_login m.body) (λ l. handle_login-Places l c r h))
      (λ _.
        if_rule (Places r) (not c.authenticated) (λ _. stop-Places c r)
          (λ _.
            if_rule (Places r) (is_type m.type register_proxy)
              (λ _.
                or_stop-Places c r _ (deserialize_register_proxy m.body)
                  (λ p. handle_register-Places p opened now c r h))
              (λ _.
                if_rule (Places r) (is_type m.type unregister_proxy)
                  (λ _.
                    or_stop-Places c r _ (deserialize_unregister_proxy m.body)
                      (λ u. handle_unregister-Places u c r h))
                  (λ _. (refl, h)))))
