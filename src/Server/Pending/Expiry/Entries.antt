-- ===== src/Server/Pending/Expiry/Entries.antt =====
-- Entries and expirations of those that wait (src/server/server.cpp), as lists.
use cfrp.Base.{
  ℕ, suc, ◌≤◌, refl, List, [], ◌∷◌, ◌++◌, Option, none, some, Bool, arith, if_rule, length, All,
  inl, inr,
}
use cfrp.Base.Dict.{lookup, insert, text_eq, text_beq, length-insert-le}
use cfrp.Base.Text.{Text}
use cfrp.Server.Pending.{TicketExpiration, emplace, others}
use cfrp.Server.Pending.Expiry.{Covered, IsChronological}

pub Covered-append :
    (u : Bool) (k : Text) (e : ℕ) (q r : List TicketExpiration)
    → Covered u k e q
    → Covered u k e (q ++ r)
Covered-append u k e [] r h = absurd h
Covered-append u k e (x ∷ q) r (inl h) = inl h
Covered-append u k e (x ∷ q) r (inr h) = inr (Covered-append u k e q r h)

pub Covered-last :
    (u : Bool) (k : Text) (e : ℕ) (q : List TicketExpiration)
    → Covered u k e (q ++ (record { ticket = k; is_udp = u; expires_at = e } ∷ []))
Covered-last u k e [] = inl (refl, refl, omega arith)
Covered-last u k e (x ∷ q) = inr (Covered-last u k e q)

pub IsChronological-append :
    (q : List TicketExpiration) (x : TicketExpiration) (e : ℕ)
    → IsChronological q e
    → e ≤ x.expires_at
    → IsChronological (q ++ (x ∷ [])) x.expires_at
IsChronological-append [] x e c le = (tt, omega arith, tt)
IsChronological-append (y ∷ q) x e (first, due, c) le =
    (before q first, omega (arith, due, le), IsChronological-append q x e c le)
  where
    before :
        (q : List TicketExpiration)
        → All (λ z. y.expires_at ≤ z.expires_at) q
        → All (λ z. y.expires_at ≤ z.expires_at) (q ++ (x ∷ []))
    before [] all = (omega (arith, due, le), tt)
    before (z ∷ q) (h, all) = (h, before q all)

All-insert :
    {A : Type 0} (P : Text × A → Type 0) (t : Text) (a : A) (m : List (Text × A))
    → P (t, a)
    → All P m
    → All P (insert t a m)
All-insert P t a [] h all = (h, tt)
All-insert P t a ((k, b) ∷ m) h (hb, all) =
    if_rule (All P) (text_beq k t) (λ _. (h, all)) (λ _. (hb, All-insert P t a m h all))

pub All-emplace :
    {A : Type 0} (P : Text × A → Type 0) (t : Text) (a : A) (m : List (Text × A))
    → P (t, a)
    → All P m
    → All P (emplace t a m)
All-emplace {A = A} P t a m h all = by_entry (lookup t m)
  where
    by_entry : (o : Option A) → All P (elim o [ none ↦ insert t a m | some old ↦ m ])
    by_entry none = All-insert P t a m h all
    by_entry (some old) = all

pub length-emplace :
    {A : Type 0} (t : Text) (a : A) (m : List (Text × A)) → length (emplace t a m) ≤ suc (length m)
length-emplace {A = A} t a m = by_entry (lookup t m)
  where
    by_entry :
        (o : Option A) → length (elim o [ none ↦ insert t a m | some old ↦ m ]) ≤ suc (length m)
    by_entry none = length-insert-le t a m
    by_entry (some old) = omega arith

pub IsChronological-le :
    (q : List TicketExpiration) (d e : ℕ) → d ≤ e → IsChronological q d → IsChronological q e
IsChronological-le [] d e le c = tt
IsChronological-le (x ∷ q) d e le (first, due, c) =
    (first, omega (arith, due, le), IsChronological-le q d e le c)

pub All-others :
    {A : Type 0} (P : Text × A → Type 0) (f : A → Text) (name : Text) (m : List (Text × A))
    → All P m
    → All P (others f name m)
All-others P f name [] all = tt
All-others P f name ((k, a) ∷ m) (h, all) =
    if_rule (All P) (text_beq (f a) name) (λ _. All-others P f name m all)
      (λ _. (h, All-others P f name m all))

pub length-others-le :
    {A : Type 0} (f : A → Text) (name : Text) (m : List (Text × A))
    → length (others f name m) ≤ length m
length-others-le f name [] = omega arith
length-others-le f name ((k, a) ∷ m) = ground (arith, length-others-le f name m)
