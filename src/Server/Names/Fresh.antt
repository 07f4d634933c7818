-- ===== src/Server/Names/Fresh.antt =====
-- `AllocateClientName` (src/server/server.cpp): its loop, and the name that it finds.
use cfrp.Base.{
  ℕ, zero, suc, ◌≤◌, ◌<◌, ◌≡◌, ◌≢◌, refl, sym, ap, ◌∙◌, List, ◌++◌, Option, none, some, true, false,
  if◌then◌else◌, if_rule, length, length-append, ap₂, arith, inl, inr, ◌⊎◌,
}
use cfrp.Base.Dict.{lookup, text_eq, text_beq, lookup-insert}
use cfrp.Base.Text.{Text, codes, to_string, to_string-injective, append-cancel}
use cfrp.Base.TextSet.{contains, remove, text_beq_ne, contains-remove, length-remove, contains-add}
use cfrp.Server.Names.{Names, base_name, numbered, free_name, enter, allocate_client_name}

numbered-injective : (name : Text) (i j : ℕ) → numbered name i ≡ numbered name j → i ≡ j
numbered-injective name i j e =
    to_string-injective i j (append-cancel (codes "_") _ _ (append-cancel name _ _ e))

name≢numbered : (name : Text) (j : ℕ) → name ≢ numbered name j
name≢numbered name j e = omega (arith, ap length e, length-append name (codes "_" ++ to_string j))

-- The loop asks only for the candidates from here on.
free_name-agrees :
    (fuel : ℕ) (a b : List Text) (name c : Text) (k : ℕ)
    → contains c a ≡ contains c b
    → ((j : ℕ) → k ≤ j → contains (numbered name j) a ≡ contains (numbered name j) b)
    → free_name fuel a name c k ≡ free_name fuel b name c k
unfolding free_name
free_name-agrees zero a b name c k e later = refl
free_name-agrees (suc fuel) a b name c k e later =
    ap₂ (λ t rest. if t then rest else some c) e
      (free_name-agrees fuel a b name (numbered name k) (suc k) (later k (omega arith))
        (λ j le. later j (omega (arith, le))))

-- What the loop finds: a free name, which is the one at hand or one of those to come.
record Found (active : List Text) (name c : Text) (k : ℕ) (o : Option Text) : Type 0 where
  final_name : Text
  returns : o ≡ some final_name
  free : contains final_name active ≡ false
  candidate : (final_name ≡ c) ⊎ ((j : ℕ) × (k ≤ j) × (final_name ≡ numbered name j))

-- A round that goes on has met a name of its own, so the others are looked up as if it were not there.
goes_on :
    (fuel : ℕ) (active : List Text) (name c : Text) (k : ℕ)
    → ((j : ℕ) → k ≤ j → c ≢ numbered name j)
    → Found
        (remove c active)
        name
        (numbered name k)
        (suc k)
        (free_name fuel (remove c active) name (numbered name k) (suc k))
    → Found active name c k (free_name fuel active name (numbered name k) (suc k))
goes_on fuel active name c k new found = record {
  final_name = found.final_name;
  returns =
      free_name-agrees fuel active (remove c active) name (numbered name k) (suc k)
        (sym (others _ (new k (omega arith)))) (λ j le. sym (others _ (new j (omega (arith, le)))))
      ∙ found.returns;
  free = sym (others found.final_name not_this) ∙ found.free;
  candidate = inr later;
}
  where
    others : (d : Text) → c ≢ d → contains d (remove c active) ≡ contains d active
    others d n =
        contains-remove c d active
        ∙ ap (λ t. if t then false else contains d active) (text_beq_ne c d n)

    later : (j : ℕ) × (k ≤ j) × (found.final_name ≡ numbered name j)
    later = elim found.candidate [
      | inl e ↦ (k, omega arith, e)
      | inr (j, le, e) ↦ (j, omega (arith, le), e)
    ]

    not_this : c ≢ found.final_name
    not_this e = new later.0 later.1 (e ∙ later.2)

-- With more rounds than names the loop ends.
free_name-Found :
    (fuel : ℕ) (active : List Text) (name c : Text) (k : ℕ)
    → length active < fuel
    → ((j : ℕ) → k ≤ j → c ≢ numbered name j)
    → Found active name c k (free_name fuel active name c k)
unfolding free_name
free_name-Found zero active name c k h new = absurd (omega arith)
free_name-Found (suc fuel) active name c k h new =
    if_rule (Found active name c k) (contains c active)
      (λ used. goes_on fuel active name c k new (
        free_name-Found fuel (remove c active) name (numbered name k) (suc k)
          (omega (arith, h, length-remove c active used))
          (λ j le q. absurd (omega (arith, le, numbered-injective name k j q)))))
      (λ free. record { final_name = c; returns = refl; free = free; candidate = inl refl })

-- The name that a client gets.
pub record Allocated (requested : Text) (session : ℕ) (r : Names) (o : Option (Text × Names))
    : Type 0 where
  pub name : Text
  pub after : Names
  pub returns : o ≡ some (name, after)
  pub free : contains name r.active ≡ false
  pub entered :
      (other : Text)
      → contains other after.active
        ≡ (if text_beq name other then true else contains other r.active)
  pub session_of :
      (other : Text)
      → lookup other after.sessions
        ≡ (if text_beq name other then some session else lookup other r.sessions)
  pub kept : contains (base_name requested) r.active ≡ false → name ≡ base_name requested

-- Allocating a name always ends, with a name that no client has; it is the requested one (or "client" if
-- none is requested) when that is free. It is entered with its session, and no other name is touched.
pub allocate_client_name-Allocated :
    (requested : Text) (session : ℕ) (r : Names)
    → Allocated requested session r (allocate_client_name requested session r)
unfolding allocate_client_name free_name
allocate_client_name-Allocated requested session r = record {
  name = f.final_name;
  after = enter f.final_name session r;
  returns = ap (λ o. elim o [ none ↦ none | some n ↦ some (n, enter n session r) ]) f.returns;
  free = f.free;
  entered = λ other. contains-add f.final_name other r.active;
  session_of = λ other. lookup-insert f.final_name other session r.sessions;
  kept = λ free. some_inj (sym f.returns ∙ ap (λ t. if t then later else some name) free);
}
  where
    name : Text
    name = base_name requested

    later : Option Text
    later = free_name (length r.active) r.active name (numbered name 1) 2

    f : Found r.active name name 1 (free_name (suc (length r.active)) r.active name name 1)
    f =
        free_name-Found (suc (length r.active)) r.active name name 1 (omega arith)
          (λ j le. name≢numbered name j)

    some_inj : {a b : Text} → some a ≡ some b → a ≡ b
    some_inj e = cc
