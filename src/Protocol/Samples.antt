-- ===== src/Protocol/Samples.antt =====
-- Compressors for the tests (src/common/zstd_utils.h).
use cfrp.Base.{
  ℕ, ◌≡◌, refl, sym, ap, subst, List, [], ◌∷◌, Option, none, some, Bool, true, false, if◌then◌else◌,
  length,
}
use cfrp.Base.Dict.{text_beq, text_beq_iff}
use cfrp.Protocol.Compressed.{Zstd, Restores}

-- A compressor that knows one text.
abbrev pub known : List ℕ
known = 5 ∷ 5 ∷ 5 ∷ []

abbrev pub knowing : Zstd
knowing = record {
  compress = λ x. if text_beq x known then some (1 ∷ []) else none;
  content_size = λ c. some 3;
  decompress = λ n c. some known;
}

pub knowing_lem : Restores knowing
knowing_lem x c e = by_test (text_beq x known) refl e
  where
    by_test :
        (b : Bool)
        → text_beq x known ≡ b
        → (if b then some (1 ∷ []) else none) ≡ some c
        → (some 3 ≡ some (length x)) × (some known ≡ some x)
    by_test true t e =
        subst (λ x. (some 3 ≡ some (length x)) × (some known ≡ some x))
          (sym ((text_beq_iff x known).0 t)) (refl, refl)
    by_test false t e = absurd cc

-- A compressor that puts a byte in front.
abbrev size_of : List ℕ → Option ℕ
size_of [] = none
size_of (b ∷ c) = some (length c)

abbrev tail_of : ℕ → List ℕ → Option (List ℕ)
tail_of n [] = none
tail_of n (b ∷ c) = some c

abbrev pub prefixing : Zstd
prefixing = record { compress = λ x. some (40 ∷ x); content_size = size_of; decompress = tail_of }

pub prefixing_lem : Restores prefixing
prefixing_lem x c e =
    let back : 40 ∷ x ≡ c = cc in (ap size_of (sym back), ap (tail_of (length x)) (sym back))
