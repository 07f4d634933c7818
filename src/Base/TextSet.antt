-- ===== src/Base/TextSet.antt =====
-- Sets of texts (`std::unordered_set<std::string>`) as lists.
use Prim.Native.Nat.{◌≤◌, ◌<◌}
use mathlib.Core.Path.{◌≡◌, refl}
use mathlib.Core.Logic.{◌≢◌}
use mathlib.Core.Bool.{Bool, true, false}
use mathlib.Core.List.{List, [], ◌∷◌}
use native.Mathlib.Omega.{arith}
use cfrp.Base.Tests.{if◌then◌else◌}
use cfrp.Base.Lists.{length}
use cfrp.Base.Dict.{text_beq, text_beq_iff}
use cfrp.Base.Text.{Text}

abbrev pub contains : Text → List Text → Bool
contains x [] = false
contains x (y ∷ s) = let rest = contains x s in if text_beq y x then true else rest

abbrev pub add : Text → List Text → List Text
add x s = if contains x s then s else x ∷ s

abbrev pub remove : Text → List Text → List Text
remove x [] = []
remove x (y ∷ s) = let rest = remove x s in if text_beq y x then rest else y ∷ rest

pub text_beq_refl : (x : Text) → text_beq x x ≡ true
text_beq_refl x = (text_beq_iff x x).1 refl

pub text_beq_ne : (x y : Text) → x ≢ y → text_beq x y ≡ false
text_beq_ne x y n = ground (arith, text_beq_iff x y, n)

pub contains-remove :
    (x y : Text) (s : List Text)
    → contains y (remove x s) ≡ (if text_beq x y then false else contains y s)
contains-remove x y [] = ground arith
contains-remove x y (z ∷ s) =
    ground (arith, text_beq_iff z x, text_beq_iff z y, text_beq_iff x y, contains-remove x y s)

pub length-remove-le : (x : Text) (s : List Text) → length (remove x s) ≤ length s
length-remove-le x [] = omega arith
length-remove-le x (z ∷ s) = ground (arith, length-remove-le x s)

pub length-remove :
    (x : Text) (s : List Text) → contains x s ≡ true → length (remove x s) < length s
length-remove x [] h = cc
length-remove x (z ∷ s) h = ground (arith, h, length-remove-le x s, length-remove x s)

pub contains-add :
    (x y : Text) (s : List Text)
    → contains y (add x s) ≡ (if text_beq x y then true else contains y s)
contains-add x y s = ground (arith, text_beq_iff x y)
