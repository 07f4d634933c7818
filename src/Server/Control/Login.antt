-- ===== src/Server/Control/Login.antt =====
-- Who may use a control session (`HandleMessage` and `HandleLogin`, src/server/server.cpp).
use cfrp.Base.{
  ℕ, ◌≡◌, ◌≢◌, refl, sym, ap, ◌∙◌, ◌==◌, List, [], ◌∷◌, Option, none, some, Bool, true, false, not,
  ◌&&◌, if◌then◌else◌, if_rule, ◌⊎◌, inl, inr, true≢false, subst,
}
use cfrp.Base.Dict.{lookup, nat_eq, lookup-erase, text_beq, text_beq_iff}
use cfrp.Base.Text.{Text, codes}
use cfrp.Protocol.Result.{Result, ok, err}
use cfrp.Protocol.Messages.{
  MessageType, Message, LoginMessage, RegisterProxyMessage, UnregisterProxyMessage,
  deserialize_login, deserialize_register_proxy, deserialize_unregister_proxy, login, login_resp,
  register_proxy, register_proxy_resp, new_user_conn, start_work_conn, work_conn_auth,
  unregister_proxy, unknown,
}
use cfrp.Server.Names.{Names}
use cfrp.Server.Names.Fresh.{Allocated, allocate_client_name-Allocated}
use cfrp.Server.Registry.{
  Registry, settings, is_client_allowed, is_port_allowed, create_rate_limiter, remove_mux_control,
}
use cfrp.Server.Control.{
  ControlSession, Listener, Outcome, stop, welcome, handle_login, handle_register,
  handle_unregister, is_type, or_stop, handle_message, take_named, unregister_tcp, unregister_udp,
  listen, is_vhost, type_or_tcp, is_positive, forget_domains, forget_proxies, release_name,
}

-- A session that has not logged in has no proxies and no domains.
abbrev pub IsGuarded : ControlSession → Type 0
IsGuarded c =
    c.authenticated ≡ false → (c.proxies ≡ []) × (c.udp_proxies ≡ []) × (c.registered_domains ≡ [])

-- The message is a login that the server accepts.
abbrev pub IsAccepted : Message → Registry → Type 0
IsAccepted m r =
    (l : LoginMessage) × (m.type ≡ login)
    × (deserialize_login m.body ≡ ok l)
    × (l.token ≡ r.token)
    × (is_client_allowed l.name r ≡ true)

-- Nothing that other sessions use has changed. Only the entry of this mux session may be gone.
abbrev pub Untouched : ℕ → Registry → Registry → Type 0
Untouched mux_session r r' =
    ((k : ℕ) → (mux_session == k) ≡ false → lookup k r'.mux_to_control ≡ lookup k r.mux_to_control)
    × (settings r' ≡ settings r)
    × (r'.names ≡ r.names)
    × (r'.pending ≡ r.pending)
    × (r'.vhost_routes ≡ r.vhost_routes)
    × (r'.rate_limiters ≡ r.rate_limiters)

abbrev pub Gates : Message → ControlSession → Registry → Option Outcome → Type 0
Gates m c r none = ⊥
Gates m c r (some (c', r', acts)) =
    IsGuarded c'
    × (c'.authenticated ≡ true → (c.authenticated ≡ true) ⊎ IsAccepted m r)
    × (c'.authenticated ≡ false → Untouched c.mux_session r r')

cons≢nil : {A : Type 0} {x : A} {xs : List A} → x ∷ xs ≢ []
cons≢nil e = cc

-- A session that has nothing leaves nothing.
unused :
    (c : ControlSession) (r : Registry) (a : Bool) (ps us : List Listener) (ds : List Text)
    → a ≡ false
    → ps ≡ []
    → us ≡ []
    → ds ≡ []
    → Untouched c.mux_session r (
        forget_domains ds (
          forget_proxies us (
            forget_proxies ps (remove_mux_control c.mux_session (release_name a c.client_name r)))))
unfolding remove_mux_control
unused c r false [] [] [] a p u d = (
  (λ k n.
      lookup-erase c.mux_session k r.mux_to_control
      ∙ ap (λ b. if b then none else lookup k r.mux_to_control) n),
  refl,
  refl,
  refl,
  refl,
  refl,
)
unused c r true ps us ds a p u d = absurd (true≢false a)
unused c r false (x ∷ ps) us ds a p u d = absurd (cons≢nil p)
unused c r false [] (x ∷ us) ds a p u d = absurd (cons≢nil u)
unused c r false [] [] (x ∷ ds) a p u d = absurd (cons≢nil d)

stop-Gates :
    (m : Message) (c : ControlSession) (r : Registry) → IsGuarded c → Gates m c r (some (stop c r))
unfolding stop
stop-Gates m c r g = (
  (λ _. (refl, refl, refl)),
  inl,
  λ out.
      unused c r c.authenticated c.proxies c.udp_proxies c.registered_domains out (g out).0
        (g out).1 (g out).2,
)

-- A session that is logged in.
inside :
    (m : Message) (c : ControlSession) (r : Registry) (o : Outcome)
    → c.authenticated ≡ true
    → o.0.authenticated ≡ c.authenticated
    → Gates m c r (some o)
inside m c r o e same = (
  (λ out. absurd (true≢false (sym e ∙ sym same ∙ out))),
  (λ _. inl e),
  λ out. absurd (true≢false (sym e ∙ sym same ∙ out)),
)

take_named-same :
    (o : Option (Listener × List Listener)) (c : ControlSession) (r : Registry)
    → (unregister_udp o c r).0.authenticated ≡ c.authenticated
take_named-same none c r = refl
take_named-same (some (p, ps)) c r = refl

handle_unregister-same :
    (u : UnregisterProxyMessage) (c : ControlSession) (r : Registry)
    → (handle_unregister u c r).0.authenticated ≡ c.authenticated
unfolding handle_unregister
handle_unregister-same u c r = by_tcp (take_named u.name c.proxies)
  where
    by_tcp :
        (o : Option (Listener × List Listener))
        → (unregister_tcp o u.name c r).0.authenticated ≡ c.authenticated
    by_tcp none = take_named-same (take_named u.name c.udp_proxies) c r
    by_tcp (some (p, ps)) = refl

listen-same :
    (b : Bool) (l : Listener) (o : Option Text) (c : ControlSession) (r : Registry)
    → (listen b l o c r).0.authenticated ≡ c.authenticated
listen-same b l (some what) c r = refl
listen-same true l none c r = refl
listen-same false l none c r = refl

handle_register-same :
    (p : RegisterProxyMessage) (opened : Option Text) (now : ℕ) (c : ControlSession) (r : Registry)
    → (handle_register p opened now c r).0.authenticated ≡ c.authenticated
unfolding handle_register
handle_register-same p opened now c r =
    let type = type_or_tcp p.type in
    let r' =
      if is_positive p.bandwidth_limit
      then create_rate_limiter p.name p.bandwidth_limit now r
      else r in
    let l : Listener = record { name = p.name; port = p.remote_port } in
    let Same : Outcome → Type 0 = λ o. o.0.authenticated ≡ c.authenticated in
    if_rule Same (not (is_vhost type) && not (is_port_allowed p.remote_port r')) (λ _. refl)
      (λ _.
        if_rule Same (text_beq type (codes "udp")) (λ _. listen-same true l opened c r')
          (λ _. if_rule Same (is_vhost type) (λ _. refl) (λ _. listen-same false l opened c r')))

not_inverts : {b : Bool} → not b ≡ false → b ≡ true
not_inverts {b = true} e = refl
not_inverts {b = false} e = absurd (true≢false e)

is_login : (t : MessageType) → is_type t login ≡ true → t ≡ login
is_login login e = refl
is_login login_resp e = absurd (true≢false (sym e))
is_login register_proxy e = absurd (true≢false (sym e))
is_login register_proxy_resp e = absurd (true≢false (sym e))
is_login new_user_conn e = absurd (true≢false (sym e))
is_login start_work_conn e = absurd (true≢false (sym e))
is_login work_conn_auth e = absurd (true≢false (sym e))
is_login unregister_proxy e = absurd (true≢false (sym e))
is_login (unknown n) e = absurd (true≢false (sym e))

-- An accepted login.
welcome-Gates :
    (m : Message) (l : LoginMessage) (c : ControlSession) (r : Registry) (o : Option (Text × Names))
    → IsAccepted m r
    → Allocated l.name c.id r.names o
    → Gates m c r (welcome c r o)
welcome-Gates m l c r o accepted a =
    subst (λ o. Gates m c r (welcome c r o)) (sym a.returns)
      ((λ e. absurd (true≢false e)), (λ _. inr accepted), λ e. absurd (true≢false e))

handle_login-Gates :
    (m : Message) (l : LoginMessage) (c : ControlSession) (r : Registry)
    → IsGuarded c
    → m.type ≡ login
    → deserialize_login m.body ≡ ok l
    → Gates m c r (handle_login l c r)
unfolding handle_login
handle_login-Gates m l c r g type body =
    if_rule (Gates m c r) (not (text_beq l.token r.token)) (λ _. stop-Gates m c r g)
      (λ t.
        if_rule (Gates m c r) (not (is_client_allowed l.name r)) (λ _. stop-Gates m c r g)
          (λ n.
            welcome-Gates m l c r _
              (l, type, body, (text_beq_iff l.token r.token).0 (not_inverts t), not_inverts n)
              (allocate_client_name-Allocated l.name c.id r.names)))

-- A handler that only a session that is logged in reaches.
or_stop-Gates :
    {A : Type 0} (m : Message) (c : ControlSession) (r : Registry) (f : A → Outcome) (o : Result A)
    → IsGuarded c
    → c.authenticated ≡ true
    → ((a : A) → (f a).0.authenticated ≡ c.authenticated)
    → Gates m c r (or_stop o (λ a. some (f a)) c r)
or_stop-Gates m c r f (err x) g e same = stop-Gates m c r g
or_stop-Gates m c r f (ok a) g e same = inside m c r (f a) e (same a)

-- Every message is handled, and leaves a session that has proxies or domains only if it is logged in. A
-- session is logged in afterwards only if it was before, or the message is a login with the token of the
-- server and a name that the server allows. A session that is not logged in afterwards has changed none of
-- the names, waiting users, routes, rate limiters and settings that all sessions share, and at most its own
-- entry among the control sessions.
pub handle_message-Gates :
    (m : Message) (opened : Option Text) (now : ℕ) (c : ControlSession) (r : Registry)
    → IsGuarded c
    → Gates m c r (handle_message m opened now c r)
unfolding handle_message
handle_message-Gates m opened now c r g =
    if_rule (Gates m c r) (is_type m.type login)
      (λ t. by_login (is_login m.type t) (deserialize_login m.body) refl)
      (λ _.
        if_rule (Gates m c r) (not c.authenticated) (λ _. stop-Gates m c r g)
          (λ n.
            let e = not_inverts n in
            if_rule (Gates m c r) (is_type m.type register_proxy)
              (λ _.
                or_stop-Gates m c r _ (deserialize_register_proxy m.body) g e
                  (λ p. handle_register-same p opened now c r))
              (λ _.
                if_rule (Gates m c r) (is_type m.type unregister_proxy)
                  (λ _.
                    or_stop-Gates m c r _ (deserialize_unregister_proxy m.body) g e
                      (λ u. handle_unregister-same u c r))
                  (λ _. inside m c r (c, r, []) e refl))))
  where
    by_login :
        m.type ≡ login
        → (o : Result LoginMessage) → deserialize_login m.body ≡ o
        → Gates m c r (or_stop o (λ l. handle_login l c r) c r)
    by_login type (err x) e = stop-Gates m c r g
    by_login type (ok l) e = handle_login-Gates m l c r g type e
