-- ===== src/UdpBridge/Tests.antt =====
-- Datagrams through the two bridges (src/client/client.cpp, src/server/server.cpp).
use cfrp.Base.{
  ℕ, zero, suc, ◌-◌, ◌%◌, ◌^◌, ◌≤◌, ◌≡◌, refl, ap, List, [], ◌∷◌, ◌++◌, some, true, false, length,
  arith,
}
use cfrp.Protocol.Samples.{prefixing, known, knowing, knowing_lem}
use cfrp.UdpBridge.{read_header, read_body}
use cfrp.UdpBridge.Relay.{
  relay, unrelay, fetch, total, near, far, datagrams_arrive, long_datagram_misread,
}

abbrev datagrams : List (List ℕ)
datagrams = known ∷ [] ∷ (7 ∷ 8 ∷ []) ∷ []

datagrams_arrive_example :
    unrelay knowing 6
      (relay knowing datagrams (near true false)).0
      (far false true 0, read_header ∷ [])
    ≡ (datagrams, (far false true (total datagrams % 2 ^ 64), read_header ∷ []))
datagrams_arrive_example =
    datagrams_arrive knowing true false false true datagrams 6 knowing_lem
      (omega arith, (omega arith, (omega arith, tt))) (omega arith)

unfoldable zeros : ℕ → List ℕ
zeros zero = []
zeros (suc n) = 0 ∷ zeros n

length-zeros : (n : ℕ) → length (zeros n) ≡ n
unfolding zeros
length-zeros zero = refl
length-zeros (suc n) = omega (arith, length-zeros n)

grown : (x d : List ℕ) → prefixing.compress x ≡ some d → length x ≤ length d
grown x d e = let back : 40 ∷ x ≡ d = cc in omega (arith, ap length back)

long_datagram_misread_example :
    fetch prefixing
      (far false false 0, read_header ∷ [])
      ((relay prefixing (zeros 40000 ∷ []) (near true false)).0 ++ [])
    ≡ some
        ((far false false 0, read_body (length (zeros 40000) - 32768) true ∷ []), zeros 40000 ++ [])
long_datagram_misread_example =
    long_datagram_misread prefixing true false false false 0 (zeros 40000) []
      (omega (arith, length-zeros 40000)) (omega (arith, length-zeros 40000))
      (λ _. grown (zeros 40000))
