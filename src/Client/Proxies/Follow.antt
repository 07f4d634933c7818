-- ===== src/Client/Proxies/Follow.antt =====
-- One name through the messages of a scan (src/client/client.cpp, `PollConfDirectory`).
use cfrp.Base.{
  ◌≡◌, refl, sym, ap, ◌∙◌, subst, List, [], ◌∷◌, ◌++◌, Option, none, some, Bool, true, false,
  if◌then◌else◌, arith,
}
use cfrp.Base.Dict.{lookup, text_beq, text_beq_iff, text_eq}
use cfrp.Base.Text.{Text}
use cfrp.Protocol.Messages.{RegisterProxyMessage}
use cfrp.Client.Proxies.{
  ProxyConfig, Client, Action, register, unregister, serve_user, poll_again, message_of,
  register_one, unregister_one, differs, removals, then_act, update_one, updates,
}

-- How a name stands by the messages that were sent: it is free, announced by this registration, or it was
-- announced again before it was withdrawn.
pub data Standing : Type 0 where
  free : Standing
  announced : RegisterProxyMessage → Standing
  announced_again : Standing

abbrev pub announce : Standing → RegisterProxyMessage → Standing
announce free m = announced m
announce (announced held) m = announced_again
announce announced_again m = announced_again

abbrev pub withdraw : Standing → Standing
withdraw free = free
withdraw (announced held) = free
withdraw announced_again = announced_again

module _ (k : Text) where
  -- How `k` stands after a message.
  abbrev pub heard : Standing → Action → Standing
  heard v (register m) = if text_beq m.name k then announce v m else v
  heard v (unregister m) = if text_beq m.name k then withdraw v else v
  heard v (serve_user udp pc ticket) = v
  heard v poll_again = v

  abbrev pub after : Standing → List Action → Standing
  after v [] = v
  after v (a ∷ acts) = after (heard v a) acts

  pub after-append : (v : Standing) (a b : List Action) → after v (a ++ b) ≡ after (after v a) b
  after-append v [] b = refl
  after-append v (x ∷ a) b = after-append (heard v x) a b

  abbrev unless : {A : Type 0} → Option A → Standing → Standing
  unless none v = v
  unless (some a) v = withdraw v

  withdraw-withdraw : (v : Standing) → withdraw (withdraw v) ≡ withdraw v
  withdraw-withdraw free = refl
  withdraw-withdraw (announced m) = refl
  withdraw-withdraw announced_again = refl

  after-removals_of_absent :
      (old new : List (Text × ProxyConfig)) (v : Standing)
      → lookup k new ≡ none
      → after v (removals old new) ≡ unless (lookup k old) v
  after-removals_of_absent [] new v h = refl
  after-removals_of_absent ((j, pc) ∷ old) new v h = ground (
    arith,
    text_beq_iff j k,
    after-removals_of_absent old new (withdraw v) h,
    withdraw-withdraw v,
    after-removals_of_absent old new v h,
  )

  after-removals_of_present :
      (old new : List (Text × ProxyConfig)) (v : Standing) (pc : ProxyConfig)
      → lookup k new ≡ some pc
      → after v (removals old new) ≡ v
  after-removals_of_present [] new v pc h = refl
  after-removals_of_present ((j, pc') ∷ old) new v pc h =
      ground (arith, text_beq_iff j k, after-removals_of_present old new v pc h)

module _ (k : Text) where
  abbrev pub kept : Option ProxyConfig → Option ProxyConfig → Standing → Standing
  kept o none v = unless k o v
  kept o (some pc) v = v

  pub after-removals :
      (old new : List (Text × ProxyConfig)) (v : Standing)
      → after k v (removals old new) ≡ kept (lookup k old) (lookup k new) v
  after-removals old new v =
      elim (lookup k new)
          as (λ n. lookup k new ≡ n → after k v (removals old new) ≡ kept (lookup k old) n v) [
            | none ↦ after-removals_of_absent k old new v
            | some pc ↦ after-removals_of_present k old new v pc
          ]
        refl

-- What a scan finds: each proxy under its own name, and one for a name.
abbrev pub IsScan : List (Text × ProxyConfig) → Type 0
IsScan [] = Unit
IsScan ((name, pc) ∷ found) = ((pc.name ≡ name) × (lookup name found ≡ none)) × IsScan found

module _ (k : Text) where
  -- What the proxy under `k` leaves.
  abbrev pub renewed : Option ProxyConfig → ProxyConfig → Standing → Standing
  renewed none pc v = heard k v (register (message_of pc))
  renewed (some old) pc v = if differs old pc then announce (withdraw v) (message_of pc) else v

  abbrev pub merged : Option ProxyConfig → Option ProxyConfig → Standing → Standing
  merged o none v = v
  merged o (some pc) v = renewed o pc v

  after-update_other :
      (o : Option ProxyConfig) (j : Text) (pc : ProxyConfig) (c : Client) (v : Standing)
      → pc.name ≡ j
      → text_beq j k ≡ false
      → after k v (update_one o j pc c).1 ≡ v
  unfolding register_one
  after-update_other none j pc c v e n = rw e (rw n refl)
  after-update_other (some old) j pc c v e n = ground (arith, e, n)

  after-renewal :
      (d : Bool) (pc : ProxyConfig) (c : Client) (v : Standing)
      → pc.name ≡ k
      → after k v (if d then then_act (unregister_one k ∷ []) (register_one pc c) else (c, [])).1
        ≡ (if d then announce (withdraw v) (message_of pc) else v)
  unfolding register_one
  after-renewal false pc c v e = refl
  after-renewal true pc c v e = rw e (rw ((text_beq_iff k k).1 refl) refl)

  after-update_same :
      (o : Option ProxyConfig) (pc : ProxyConfig) (c : Client) (v : Standing)
      → pc.name ≡ k
      → after k v (update_one o k pc c).1 ≡ renewed o pc v
  unfolding register_one
  after-update_same none pc c v e = refl
  after-update_same (some old) pc c v e = after-renewal (differs old pc) pc c v e

  after-updates_of_absent :
      (old new : List (Text × ProxyConfig)) (c : Client) (v : Standing)
      → IsScan new
      → lookup k new ≡ none
      → after k v (updates old new c).1 ≡ v
  after-updates_of_absent old [] c v u h = refl
  after-updates_of_absent old ((j, pc) ∷ new) c v ((e, fresh), u) h = ground (
    arith,
    text_beq_iff j k,
    after-append k v (update_one (lookup j old) j pc c).1
        (updates old new (update_one (lookup j old) j pc c).0).1,
    after-update_other (lookup j old) j pc c v e,
    after-updates_of_absent old new (update_one (lookup j old) j pc c).0 v u,
  )

  after-updates_step :
      (old new : List (Text × ProxyConfig)) (j : Text) (pc : ProxyConfig) (c c' : Client)
      (v : Standing) (b : Bool)
      → text_beq j k ≡ b
      → pc.name ≡ j
      → lookup j new ≡ none
      → IsScan new
      → ((w : Standing) → after k w (updates old new c').1 ≡ merged (lookup k old) (lookup k new) w)
      → after k (after k v (update_one (lookup j old) j pc c).1) (updates old new c').1
        ≡ merged (lookup k old) (if b then some pc else lookup k new) v
  after-updates_step old new j pc c c' v true q e fresh u ih =
      let jk = (text_beq_iff j k).0 q in
      after-updates_of_absent old new c' _ u (subst (λ x. lookup x new ≡ none) jk fresh)
      ∙ subst (λ j. after k v (update_one (lookup j old) j pc c).1 ≡ renewed (lookup k old) pc v)
          (sym jk) (after-update_same (lookup k old) pc c v (e ∙ jk))
  after-updates_step old new j pc c c' v false q e fresh u ih =
      ih _
      ∙ ap (merged (lookup k old) (lookup k new)) (after-update_other (lookup j old) j pc c v e q)

  pub after-updates :
      (old new : List (Text × ProxyConfig)) (c : Client) (v : Standing)
      → IsScan new
      → after k v (updates old new c).1 ≡ merged (lookup k old) (lookup k new) v
  after-updates old [] c v u = refl
  after-updates old ((j, pc) ∷ new) c v ((e, fresh), u) =
      let s = update_one (lookup j old) j pc c in
      after-append k v s.1 (updates old new s.0).1
      ∙ after-updates_step old new j pc c s.0 v (text_beq j k) refl e fresh u
          (λ w. after-updates old new s.0 w u)
