-- ===== src/Server/Vhost.antt =====
-- Which domain a user of the virtual hosts asks for (`DoVhostAccept`, src/server/server.cpp): the Host
-- field of a request, or the server name of a TLS ClientHello. `none` is a read outside the buffer.
pub mod Safe
use cfrp.Base.{
  ℕ, zero, suc, ◌+◌, ◌-◌, ◌*◌, ◌%◌, ◌^◌, List, [], ◌∷◌, ◌++◌, Option, none, some, Bool, true, false,
  ◌&&◌, ◌||◌, if◌then◌else◌, length, take, drop, get_elem?, leb, ltb, ◌==◌,
}
use cfrp.Base.Text.{Text, codes, find, find_from}

abbrev pub line_end : Text
line_end = 13 ∷ 10 ∷ []

-- " \t\r\n"
abbrev pub is_space : ℕ → Bool
is_space c = c == 32 || (c == 9 || (c == 13 || c == 10))

-- `s.erase(0, s.find_first_not_of(…))`
abbrev pub trim_left : Text → Text
trim_left [] = []
trim_left (c ∷ s) = let rest = trim_left s in if is_space c then rest else c ∷ s

abbrev pub blank : Text → Bool
blank [] = true
blank (c ∷ s) = is_space c && blank s

-- `s.erase(s.find_last_not_of(…) + 1)`
abbrev pub trim_right : Text → Text
trim_right [] = []
trim_right (c ∷ s) = let rest = trim_right s in if blank (c ∷ s) then [] else c ∷ rest

abbrev pub up_to : Option ℕ → Text → Text
up_to none s = s
up_to (some n) s = take n s

-- `substr` of the Host line, without the port and the spaces round it. The subtraction is that of
-- `size_t`.
abbrev pub host_of : Text → ℕ → ℕ → Text
host_of bytes pos end =
    let domain = take ((end + 2 ^ 64 - (pos + 6)) % 2 ^ 64) (drop (pos + 6) bytes) in
    trim_right (trim_left (up_to (find (codes ":") domain) domain))

unfoldable pub host_domain : Text → Text
host_domain bytes = elim (find (codes "Host: ") bytes) [
  | none ↦ []
  | some pos ↦ elim (find_from line_end pos bytes) [ none ↦ [] | some end ↦ host_of bytes pos end ]
]

infixl 5 ◌>>=◌
abbrev pub ◌>>=◌ {ℓ κ} : {A : Type ℓ} {B : Type κ} → Option A → (A → Option B) → Option B
none >>= f = none
some a >>= f = f a

-- A test that fails leaves the domain empty.
abbrev pub guard : Bool → Option Text → Option Text
guard b o = if b then o else some []

-- `(data[pos] << 8) | data[pos + 1]`
abbrev pub word : List ℕ → ℕ → Option ℕ
word bytes pos = do
  high ← get_elem? bytes pos
  low ← get_elem? bytes (pos + 1)
  some (high * 256 + low)

-- `std::string(data + pos, n)`, which reads each of its bytes.
abbrev pub string_at : List ℕ → ℕ → ℕ → Option Text
string_at bytes pos zero = some []
string_at bytes pos (suc n) = do
  byte ← get_elem? bytes pos
  rest ← string_at bytes (pos + 1) n
  some (byte ∷ rest)

-- The server name extension.
unfoldable pub server_name : List ℕ → ℕ → Option Text
server_name bytes pos = guard (leb (pos + 2) (length bytes)) do
  list_len ← word bytes pos
  guard (leb (pos + 2 + 3) (length bytes)) do
    kind ← get_elem? bytes (pos + 2)
    guard (kind == 0) do
      name_len ← word bytes (pos + 2 + 1)
      guard (leb (pos + 2 + 3 + name_len) (length bytes)) (string_at bytes (pos + 2 + 3) name_len)

-- The loop over the extensions; every round goes on by at least 4 bytes. No fuel is `none`.
unfoldable pub extensions : ℕ → List ℕ → ℕ → ℕ → Option Text
unfolding server_name
extensions zero bytes pos end_ext = none
extensions (suc fuel) bytes pos end_ext =
    guard (leb (pos + 4) (length bytes) && leb (pos + 4) end_ext) do
      etype ← word bytes pos
      elen ← word bytes (pos + 2)
      let rest = extensions fuel bytes (pos + 4 + elen) end_ext in
          if etype == 0 then server_name bytes (pos + 4) else rest

unfoldable pub extension_list : List ℕ → ℕ → Option Text
unfolding extensions
extension_list bytes pos =
    guard (leb (pos + 2) (length bytes)) do
      ext_len ← word bytes pos
      extensions (suc (length bytes)) bytes (pos + 2) (pos + 2 + ext_len)

unfoldable pub compression_methods : List ℕ → ℕ → Option Text
unfolding extension_list
compression_methods bytes pos =
    guard (leb (pos + 1) (length bytes))
      do comp_len ← get_elem? bytes pos; extension_list bytes (pos + (1 + comp_len))

unfoldable pub cipher_suites : List ℕ → ℕ → Option Text
unfolding compression_methods
cipher_suites bytes pos =
    guard (leb (pos + 2) (length bytes))
      do cipher_len ← word bytes pos; compression_methods bytes (pos + (2 + cipher_len))

unfoldable pub session_id : List ℕ → ℕ → Option Text
unfolding cipher_suites
session_id bytes pos =
    guard (ltb pos (length bytes))
      do sess_id_len ← get_elem? bytes pos; cipher_suites bytes (pos + (1 + sess_id_len))

-- "Basic SNI parser"
unfoldable pub sni_domain : List ℕ → Option Text
unfolding session_id
sni_domain bytes = guard (ltb 5 (length bytes)) do
  kind ← get_elem? bytes 0
  guard (kind == 0x16) do
    len ← word bytes 3
    guard (leb (len + 5) (length bytes))
        do message ← get_elem? bytes 5; guard (message == 1) (session_id bytes (5 + 4 + 2 + 32))
