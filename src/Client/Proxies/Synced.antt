-- ===== src/Client/Proxies/Synced.antt =====
-- That the messages of a client keep up with its directory (src/client/client.cpp,
-- `PollConfDirectory`). The proofs follow one name through the messages.
use cfrp.Base.{
  ◌≡◌, refl, sym, ap, ◌∙◌, subst, ◌↔◌, List, [], ◌∷◌, Option, none, some, true, false,
  if◌then◌else◌, arith, All,
}
use cfrp.Base.Dict.{lookup, text_beq_iff, text_eq}
use cfrp.Base.Text.{Text}
use cfrp.Protocol.Messages.{RegisterProxyMessage}
use cfrp.Client.Proxies.{
  ProxyConfig, Client, Step, message_of, texts_beq, differs, removals, then_act, updates,
  poll_conf_directory,
}
use cfrp.Client.Proxies.Follow.{
  Standing, free, announced, announced_again, IsScan, after, after-append, after-updates,
  after-removals, merged, kept,
}

-- A name stands as the client has its proxy: it is free if there is none, and announced with the type, the
-- port and the domains if there is one.
abbrev pub Agrees : Standing → Option ProxyConfig → Type 0
Agrees free none = Unit
Agrees free (some pc) = ⊥
Agrees (announced m) none = ⊥
Agrees (announced m) (some pc) =
    (m.type ≡ pc.type) × ((m.remote_port ≡ pc.remote_port) × (m.custom_domains ≡ pc.custom_domains))
Agrees announced_again o = ⊥

texts_beq_iff : (a b : List Text) → (texts_beq a b ≡ true) ↔ (a ≡ b)
texts_beq_iff [] [] = (λ _. refl, λ _. refl)
texts_beq_iff [] (y ∷ ys) = (λ e. cc, λ e. cc)
texts_beq_iff (x ∷ xs) [] = (λ e. cc, λ e. cc)
texts_beq_iff (x ∷ xs) (y ∷ ys) = (
  λ e. ground (arith, texts_beq_iff xs ys, text_beq_iff x y),
  λ e. ground (arith, texts_beq_iff xs ys, text_beq_iff x y),
)

same-Agrees :
    (old pc : ProxyConfig) (m : RegisterProxyMessage)
    → differs old pc ≡ false
    → Agrees (announced m) (some old)
    → Agrees (announced m) (some pc)
same-Agrees old pc m d (t, (p, s)) = (
  ground (arith, t, text_beq_iff old.type pc.type),
  (ground (arith, p, d), ground (arith, s, texts_beq_iff old.custom_domains pc.custom_domains)),
)

merged-Agrees :
    (k : Text) (o n : Option ProxyConfig) (v : Standing)
    → ((pc : ProxyConfig) → n ≡ some pc → pc.name ≡ k)
    → Agrees v o
    → Agrees (merged k o n (kept k o n v)) n
merged-Agrees k none none free h a = tt
merged-Agrees k none none (announced m) h a = elim a [ ]
merged-Agrees k none none announced_again h a = elim a [ ]
merged-Agrees k none (some pc) (announced m) h a = elim a [ ]
merged-Agrees k none (some pc) announced_again h a = elim a [ ]
merged-Agrees k (some old) none free h a = elim a [ ]
merged-Agrees k (some old) none (announced m) h a = tt
merged-Agrees k (some old) none announced_again h a = elim a [ ]
merged-Agrees k (some old) (some pc) free h a = elim a [ ]
merged-Agrees k (some old) (some pc) announced_again h a = elim a [ ]
merged-Agrees k none (some pc) free h a =
    rw ((text_beq_iff pc.name k).1 (h pc refl)) (refl, (refl, refl))
merged-Agrees k (some old) (some pc) (announced m) h a =
    elim (differs old pc)
        as (λ b.
          differs old pc ≡ b
          → Agrees (if b then announced (message_of pc) else announced m) (some pc)) [
            | true ↦ λ d. (refl, (refl, refl))
            | false ↦ λ d. same-Agrees old pc m d a
          ]
      refl

name-lookup :
    (k : Text) (found : List (Text × ProxyConfig)) (pc : ProxyConfig)
    → IsScan found
    → lookup k found ≡ some pc
    → pc.name ≡ k
name-lookup k [] pc u h = cc
name-lookup k ((j, pc') ∷ found) pc ((e, fresh), u) h =
    ground (arith, e, text_beq_iff j k, name-lookup k found pc u)

module _ (k : Text) (found : List (Text × ProxyConfig)) (c : Client) (v : Standing)
    (u : IsScan found) where
  after-poll :
      after k v (poll_conf_directory found c).1
      ≡ merged k
          (lookup k c.dynamic_proxies)
          (lookup k found)
          (kept k (lookup k c.dynamic_proxies) (lookup k found) v)
  unfolding poll_conf_directory
  after-poll =
      after-append k v (removals c.dynamic_proxies found) _
      ∙ (after-append k _ (updates c.dynamic_proxies found c).1 _
          ∙ (after-updates k c.dynamic_proxies found c _ u
              ∙ ap (merged k (lookup k c.dynamic_proxies) (lookup k found))
                  (after-removals k c.dynamic_proxies found v)))

  dynamic_proxies-poll : (poll_conf_directory found c).0.dynamic_proxies ≡ found
  unfolding poll_conf_directory
  dynamic_proxies-poll = refl

  poll-Agrees :
      Agrees v (lookup k c.dynamic_proxies)
      → Agrees
          (after k v (poll_conf_directory found c).1)
          (lookup k (poll_conf_directory found c).0.dynamic_proxies)
  poll-Agrees a =
      subst (λ w. Agrees w (lookup k (poll_conf_directory found c).0.dynamic_proxies))
        (sym after-poll)
        (subst
          (λ l.
            Agrees
              (merged k (lookup k c.dynamic_proxies) (lookup k found)
                (kept k (lookup k c.dynamic_proxies) (lookup k found) v))
              (lookup k l))
          (sym dynamic_proxies-poll)
          (merged-Agrees k (lookup k c.dynamic_proxies) (lookup k found) v
            (λ pc. name-lookup k found pc u) a))

-- The directory is read again and again.
abbrev pub polls : List (List (Text × ProxyConfig)) → Client → Step
polls [] c = (c, [])
polls (found ∷ scans) c =
    let (c', acts) = poll_conf_directory found c in then_act acts (polls scans c')

abbrev pub last :
    List (List (Text × ProxyConfig)) → List (Text × ProxyConfig) → List (Text × ProxyConfig)
last [] found = found
last (found ∷ scans) old = last scans found

-- If a name stands, by the messages sent so far on a connection, as the client has its dynamic proxy, then
-- by the messages of any sequence of scans it stands as the last scan found it: announced with the type,
-- port and domains of the proxy found, or free if none was found. So no name is announced a second time before it is withdrawn.
-- Each scan finds one proxy for a name; limits of bandwidth are left out, since a scan does not compare them.
pub polls-Agrees :
    (scans : List (List (Text × ProxyConfig))) (c : Client) (k : Text) (v : Standing)
    → All IsScan scans
    → Agrees v (lookup k c.dynamic_proxies)
    → Agrees (after k v (polls scans c).1) (lookup k (last scans c.dynamic_proxies))
polls-Agrees [] c k v u a = a
polls-Agrees (found ∷ scans) c k v (i, u) a =
    let s = poll_conf_directory found c in
    subst (λ w. Agrees w (lookup k (last scans found)))
      (sym (after-append k v s.1 (polls scans s.0).1))
      (subst (λ l. Agrees (after k (after k v s.1) (polls scans s.0).1) (lookup k (last scans l)))
        (dynamic_proxies-poll k found c v i)
        (polls-Agrees scans s.0 k (after k v s.1) u (poll-Agrees k found c v i a)))
