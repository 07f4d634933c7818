-- ===== src/Base/Text.antt =====
-- Texts (`std::string`) as lists of bytes: literals, searching, and decimal numbers.
use Prim.Native.Char.{code}
use Prim.Native.String.{String}
use Prim.Native.Nat.{ℕ, zero, suc, ◌+◌, ◌-◌, ◌*◌, ◌/◌, ◌%◌, ◌<◌}
use mathlib.Core.Path.{◌≡◌, refl, sym, ap, ◌∙◌}
use mathlib.Core.Bool.{Bool, true, false, ◌&&◌}
use mathlib.Core.List.{List, [], ◌∷◌, ◌++◌}
use mathlib.Core.Option.{Option, none, some}
use native.Mathlib.Omega.{arith}
use cfrp.Base.Tests.{if◌then◌else◌, if_rule, ltb, ltb_false→le, ◌==◌}
use cfrp.Base.Lists.{drop}

abbrev pub Text : Type 0
Text = List ℕ

-- The bytes of a literal.
abbrev pub codes : String → Text
codes String.[] = []
codes (String.◌∷◌ c s) = code c ∷ codes s

abbrev pub starts_with : Text → Text → Bool
starts_with [] s = true
starts_with (c ∷ cs) [] = false
starts_with (c ∷ cs) (d ∷ s) = c == d && starts_with cs s

-- `s.find(t)`: the first position from which `t` can be read.
abbrev pub find : Text → Text → Option ℕ
find t [] = if starts_with t [] then some 0 else none
find t (d ∷ s) =
    let rest = find t s in
    if starts_with t (d ∷ s) then some 0 else elim rest [ none ↦ none | some n ↦ some (suc n) ]

-- `s.find(t, pos)`
abbrev pub find_from : Text → ℕ → Text → Option ℕ
find_from t pos s = elim (find t (drop pos s)) [ none ↦ none | some n ↦ some (pos + n) ]

-- `std::to_string` of a natural number, on fuel: a number has at most as many digits as its value and
-- one.
abbrev pub digits : ℕ → ℕ → Text
digits zero n = []
digits (suc f) n =
    let rest = digits f (n / 10) in
    if ltb n 10 then (b'0' + n) ∷ [] else rest ++ ((b'0' + n % 10) ∷ [])

abbrev pub to_string : ℕ → Text
to_string n = digits (suc n) n

-- The number that decimal digits stand for, after those of `n`.
abbrev value_from : ℕ → Text → ℕ
value_from n [] = n
value_from n (c ∷ s) = value_from (n * 10 + (c - b'0')) s

value_from-append : (n : ℕ) (s t : Text) → value_from n (s ++ t) ≡ value_from (value_from n s) t
value_from-append n [] t = refl
value_from-append n (c ∷ s) t = value_from-append (n * 10 + (c - b'0')) s t

value_from-digits : (f n : ℕ) → n < f → value_from 0 (digits f n) ≡ n
value_from-digits zero n h = omega arith
value_from-digits (suc f) n h =
    if_rule (λ s. value_from 0 s ≡ n) (ltb n 10) (λ e. omega arith)
      λ e.
        let big = ltb_false→le n 10 e in
        value_from-append 0 (digits f (n / 10)) ((b'0' + n % 10) ∷ [])
        ∙ omega (arith, value_from-digits f (n / 10) (omega (arith, h, big)))

-- Different numbers have different decimals.
pub to_string-injective : (m n : ℕ) → to_string m ≡ to_string n → m ≡ n
to_string-injective m n e =
    sym (value_from-digits (suc m) m (omega arith))
    ∙ ap (value_from 0) e
    ∙ value_from-digits (suc n) n (omega arith)

pub append-cancel : (s t u : Text) → s ++ t ≡ s ++ u → t ≡ u
append-cancel [] t u e = e
append-cancel (c ∷ s) t u e = append-cancel s t u cc
