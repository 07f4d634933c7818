-- ===== src/Server/Control/Stops.antt =====
-- What a session takes with it when it stops (`Stop`, src/server/server.cpp).
use cfrp.Base.{
  ℕ, ◌≡◌, ◌==◌, refl, sym, ap, ◌∙◌, List, [], ◌∷◌, none, Bool, true, false, ◌&&◌, if◌then◌else◌,
  arith,
}
use cfrp.Base.Dict.{lookup, nat_eq, text_beq, text_beq_iff, text_eq, lookup-erase}
use cfrp.Base.Text.{Text}
use cfrp.Base.TextSet.{contains, contains-remove, text_beq_refl}
use cfrp.Server.Names.{release_client_name}
use cfrp.Server.Pending.{Pending, TcpSessionInfo, UdpSessionInfo, others, clear_pending_for_proxy}
use cfrp.Server.Registry.{
  Registry, settings, remove_vhost_route, remove_rate_limiter, remove_mux_control,
}
use cfrp.Server.Control.{
  ControlSession, Listener, stop, forget_domains, forget_proxies, forget_proxy, release_name,
}

-- Is there a proxy of this name?
abbrev pub named : Text → List Listener → Bool
named name [] = false
named name (p ∷ ps) = let rest = named name ps in if text_beq p.name name then true else rest

-- The entries whose proxy is none of these.
abbrev pub spared : {A : Type 0} → (A → Text) → List Listener → List (Text × A) → List (Text × A)
spared proxy_of ps [] = []
spared proxy_of ps ((t, a) ∷ m) =
    let rest = spared proxy_of ps m in if named (proxy_of a) ps then rest else (t, a) ∷ rest

spared-nil : {A : Type 0} (f : A → Text) (m : List (Text × A)) → spared f [] m ≡ m
spared-nil f [] = refl
spared-nil f ((t, a) ∷ m) = ap (λ m. (t, a) ∷ m) (spared-nil f m)

text_beq_comm : (a b : Text) → text_beq a b ≡ text_beq b a
text_beq_comm a b =
    ground (arith, text_beq_iff a b, text_beq_iff b a, λ (e : a ≡ b). sym e, λ (e : b ≡ a). sym e)

spared-others :
    {A : Type 0} (f : A → Text) (p : Listener) (ps : List Listener) (m : List (Text × A))
    → spared f ps (others f p.name m) ≡ spared f (p ∷ ps) m
spared-others f p ps [] = refl
spared-others f p ps ((t, a) ∷ m) =
    ground (arith, spared-others f p ps m, text_beq_comm p.name (f a))

-- The fields of what the loops over proxies and domains leave.
forget_proxies-tcp :
    (ps : List Listener) (r : Registry)
    → (forget_proxies ps r).pending.user_conns
      ≡ spared TcpSessionInfo.proxy_name ps r.pending.user_conns
unfolding remove_rate_limiter clear_pending_for_proxy
forget_proxies-tcp [] r = sym (spared-nil TcpSessionInfo.proxy_name _)
forget_proxies-tcp (p ∷ ps) r =
    forget_proxies-tcp ps (forget_proxy p.name r)
    ∙ spared-others TcpSessionInfo.proxy_name p ps r.pending.user_conns

forget_proxies-udp :
    (ps : List Listener) (r : Registry)
    → (forget_proxies ps r).pending.udp_sessions
      ≡ spared UdpSessionInfo.proxy_name ps r.pending.udp_sessions
unfolding remove_rate_limiter clear_pending_for_proxy
forget_proxies-udp [] r = sym (spared-nil UdpSessionInfo.proxy_name _)
forget_proxies-udp (p ∷ ps) r =
    forget_proxies-udp ps (forget_proxy p.name r)
    ∙ spared-others UdpSessionInfo.proxy_name p ps r.pending.udp_sessions

forget_proxies-limiters :
    (ps : List Listener) (r : Registry) (n : Text)
    → lookup n (forget_proxies ps r).rate_limiters
      ≡ (if named n ps then none else lookup n r.rate_limiters)
unfolding remove_rate_limiter clear_pending_for_proxy
forget_proxies-limiters [] r n = refl
forget_proxies-limiters (p ∷ ps) r n = ground (
  arith,
  forget_proxies-limiters ps (forget_proxy p.name r) n,
  lookup-erase p.name n r.rate_limiters,
)

forget_proxies-others :
    (ps : List Listener) (r : Registry)
    → ((forget_proxies ps r).names ≡ r.names)
      × ((forget_proxies ps r).vhost_routes ≡ r.vhost_routes)
unfolding remove_rate_limiter clear_pending_for_proxy
forget_proxies-others [] r = (refl, refl)
forget_proxies-others (p ∷ ps) r = forget_proxies-others ps (forget_proxy p.name r)

forget_domains-routes :
    (ds : List Text) (r : Registry) (d : Text)
    → lookup d (forget_domains ds r).vhost_routes
      ≡ (if contains d ds then none else lookup d r.vhost_routes)
unfolding remove_vhost_route
forget_domains-routes [] r d = refl
forget_domains-routes (x ∷ ds) r d =
    ground
      (arith, forget_domains-routes ds (remove_vhost_route x r) d, lookup-erase x d r.vhost_routes)

forget_domains-others :
    (ds : List Text) (r : Registry)
    → ((forget_domains ds r).names ≡ r.names)
      × ((forget_domains ds r).pending ≡ r.pending)
      × ((forget_domains ds r).rate_limiters ≡ r.rate_limiters)
unfolding remove_vhost_route
forget_domains-others [] r = (refl, refl, refl)
forget_domains-others (x ∷ ds) r = forget_domains-others ds (remove_vhost_route x r)

-- The fields that these loops leave alone.
forget_proxies-rest :
    (ps : List Listener) (r : Registry)
    → ((forget_proxies ps r).pending.expirations ≡ r.pending.expirations)
      × (settings (forget_proxies ps r) ≡ settings r)
      × ((forget_proxies ps r).mux_to_control ≡ r.mux_to_control)
unfolding remove_rate_limiter clear_pending_for_proxy
forget_proxies-rest [] r = (refl, refl, refl)
forget_proxies-rest (p ∷ ps) r = forget_proxies-rest ps (forget_proxy p.name r)

forget_domains-rest :
    (ds : List Text) (r : Registry)
    → (settings (forget_domains ds r) ≡ settings r)
      × ((forget_domains ds r).mux_to_control ≡ r.mux_to_control)
unfolding remove_vhost_route
forget_domains-rest [] r = (refl, refl)
forget_domains-rest (x ∷ ds) r = forget_domains-rest ds (remove_vhost_route x r)

release_name-rest :
    (a : Bool) (name : Text) (r : Registry)
    → (settings (release_name a name r) ≡ settings r)
      × ((release_name a name r).mux_to_control ≡ r.mux_to_control)
release_name-rest false name r = (refl, refl)
release_name-rest true name r = (refl, refl)

-- What is left of the registry, seen through its maps.
pub record Stopped (c : ControlSession) (r after : Registry) : Type 0 where
  pub limiter :
      (n : Text)
      → lookup n after.rate_limiters ≡ (
          if named n c.udp_proxies
          then none
          else if named n c.proxies
          then none
          else lookup n r.rate_limiters)
  pub route :
      (d : Text)
      → lookup d after.vhost_routes
        ≡ (if contains d c.registered_domains then none else lookup d r.vhost_routes)
  pub users :
      after.pending.user_conns
      ≡ spared TcpSessionInfo.proxy_name c.udp_proxies
          (spared TcpSessionInfo.proxy_name c.proxies r.pending.user_conns)
  pub udp_users :
      after.pending.udp_sessions
      ≡ spared UdpSessionInfo.proxy_name c.udp_proxies
          (spared UdpSessionInfo.proxy_name c.proxies r.pending.udp_sessions)
  -- the times of the tickets, and the settings
  pub rest : (after.pending.expirations ≡ r.pending.expirations) × (settings after ≡ settings r)
  pub control :
      (k : ℕ)
      → lookup k after.mux_to_control
        ≡ (if c.mux_session == k then none else lookup k r.mux_to_control)
  pub session :
      (n : Text)
      → lookup n after.names.sessions
        ≡ (if c.authenticated && text_beq c.client_name n then none else lookup n r.names.sessions)
  pub active :
      (n : Text)
      → contains n after.names.active
        ≡ (if c.authenticated && text_beq c.client_name n then false else contains n r.names.active)

released-session :
    (a : Bool) (name n : Text) (r : Registry)
    → lookup n (release_name a name r).names.sessions
      ≡ (if a && text_beq name n then none else lookup n r.names.sessions)
unfolding release_client_name
released-session false name n r = refl
released-session true name n r = lookup-erase name n r.names.sessions

released-active :
    (a : Bool) (name n : Text) (r : Registry)
    → contains n (release_name a name r).names.active
      ≡ (if a && text_beq name n then false else contains n r.names.active)
unfolding release_client_name
released-active false name n r = refl
released-active true name n r = contains-remove name n r.names.active

release_name-others :
    (a : Bool) (name : Text) (r : Registry)
    → ((release_name a name r).pending ≡ r.pending)
      × ((release_name a name r).vhost_routes ≡ r.vhost_routes)
      × ((release_name a name r).rate_limiters ≡ r.rate_limiters)
release_name-others false name r = (refl, refl, refl)
release_name-others true name r = (refl, refl, refl)

-- A session that stops removes, from what all sessions share, exactly what is under its own names: the
-- rate limiters and the waiting users of its proxies, the routes of its domains, the entry of its mux session
-- and, if it is logged in, its client name. All else is found as before, also the settings and the times of
-- the tickets.
pub stop-Stopped : (c : ControlSession) (r : Registry) → Stopped c r (stop c r).1
unfolding stop remove_mux_control
stop-Stopped c r = record {
  limiter = λ n.
      ap (lookup n) kept.2
      ∙ forget_proxies-limiters c.udp_proxies tcp n
      ∙ ap (λ o. if named n c.udp_proxies then none else o)
          (forget_proxies-limiters c.proxies named_off n
            ∙ ap (λ o. if named n c.proxies then none else lookup n o) off.2);
  route = λ d.
      forget_domains-routes c.registered_domains udp d
      ∙ ap (λ o. if contains d c.registered_domains then none else lookup d o)
          ((forget_proxies-others c.udp_proxies tcp).1
            ∙ (forget_proxies-others c.proxies named_off).1
            ∙ off.1);
  users =
      ap Pending.user_conns kept.1
      ∙ forget_proxies-tcp c.udp_proxies tcp
      ∙ ap (spared TcpSessionInfo.proxy_name c.udp_proxies) (
          forget_proxies-tcp c.proxies named_off
          ∙ ap (λ p. spared TcpSessionInfo.proxy_name c.proxies p.user_conns) off.0);
  udp_users =
      ap Pending.udp_sessions kept.1
      ∙ forget_proxies-udp c.udp_proxies tcp
      ∙ ap (spared UdpSessionInfo.proxy_name c.udp_proxies) (
          forget_proxies-udp c.proxies named_off
          ∙ ap (λ p. spared UdpSessionInfo.proxy_name c.proxies p.udp_sessions) off.0);
  rest = (
    ap Pending.expirations kept.1
        ∙ (forget_proxies-rest c.udp_proxies tcp).0
        ∙ (forget_proxies-rest c.proxies named_off).0
        ∙ ap Pending.expirations off.0,
    (forget_domains-rest c.registered_domains udp).0
        ∙ (forget_proxies-rest c.udp_proxies tcp).1
        ∙ (forget_proxies-rest c.proxies named_off).1
        ∙ (release_name-rest c.authenticated c.client_name r).0,
  );
  control = λ k.
      ap (lookup k) (
        (forget_domains-rest c.registered_domains udp).1
        ∙ (forget_proxies-rest c.udp_proxies tcp).2
        ∙ (forget_proxies-rest c.proxies named_off).2)
      ∙ lookup-erase c.mux_session k (release_name c.authenticated c.client_name r).mux_to_control
      ∙ ap (λ m. if c.mux_session == k then none else lookup k m)
          (release_name-rest c.authenticated c.client_name r).1;
  session =
      λ n. ap (λ x. lookup n x.sessions) names ∙ released-session c.authenticated c.client_name n r;
  active =
      λ n. ap (λ x. contains n x.active) names ∙ released-active c.authenticated c.client_name n r;
}
  where
    named_off : Registry
    named_off = remove_mux_control c.mux_session (release_name c.authenticated c.client_name r)

    off :
        (named_off.pending ≡ r.pending)
        × (named_off.vhost_routes ≡ r.vhost_routes)
        × (named_off.rate_limiters ≡ r.rate_limiters)
    off = release_name-others c.authenticated c.client_name r

    tcp : Registry
    tcp = forget_proxies c.proxies named_off

    udp : Registry
    udp = forget_proxies c.udp_proxies tcp

    kept :
        ((forget_domains c.registered_domains udp).names ≡ udp.names)
        × ((forget_domains c.registered_domains udp).pending ≡ udp.pending)
        × ((forget_domains c.registered_domains udp).rate_limiters ≡ udp.rate_limiters)
    kept = forget_domains-others c.registered_domains udp

    names :
        (forget_domains c.registered_domains udp).names
        ≡ (release_name c.authenticated c.client_name r).names
    names =
        kept.0
        ∙ (forget_proxies-others c.udp_proxies tcp).0
        ∙ (forget_proxies-others c.proxies named_off).0

-- A session that stopped once and stops again leaves the limiters, the routes and the waiting users of the
-- registry as they are then. But a session that was logged in releases its client name once more, so that
-- the name is found no longer, whichever session has it by then.
pub stop-again :
    (c : ControlSession) (r later : Registry)
    → c.authenticated ≡ true
    → ((n : Text)
        → lookup n (stop (stop c r).0 later).1.rate_limiters ≡ lookup n later.rate_limiters)
      × ((d : Text)
          → lookup d (stop (stop c r).0 later).1.vhost_routes ≡ lookup d later.vhost_routes)
      × ((stop (stop c r).0 later).1.pending.user_conns ≡ later.pending.user_conns)
      × ((stop (stop c r).0 later).1.pending.udp_sessions ≡ later.pending.udp_sessions)
      × (lookup c.client_name (stop (stop c r).0 later).1.names.sessions ≡ none)
      × (contains c.client_name (stop (stop c r).0 later).1.names.active ≡ false)
unfolding stop
stop-again c r later e = (
  s.limiter,
  s.route,
  s.users ∙ spared-nil TcpSessionInfo.proxy_name _ ∙ spared-nil TcpSessionInfo.proxy_name _,
  s.udp_users ∙ spared-nil UdpSessionInfo.proxy_name _ ∙ spared-nil UdpSessionInfo.proxy_name _,
  s.session c.client_name
      ∙ ap (λ b. if b then none else lookup c.client_name later.names.sessions) own,
  s.active c.client_name
      ∙ ap (λ b. if b then false else contains c.client_name later.names.active) own,
)
  where
    s : Stopped (stop c r).0 later (stop (stop c r).0 later).1
    s = stop-Stopped (stop c r).0 later

    own : (c.authenticated && text_beq c.client_name c.client_name) ≡ true
    own = ap (λ b. b && text_beq c.client_name c.client_name) e ∙ text_beq_refl c.client_name
