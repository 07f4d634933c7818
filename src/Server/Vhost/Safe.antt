-- ===== src/Server/Vhost/Safe.antt =====
-- The parser of server names (`DoVhostAccept`, src/server/server.cpp) on any bytes.
use cfrp.Base.{
  ℕ, zero, suc, ◌+◌, ◌*◌, ◌≤◌, ◌<◌, ◌≡◌, refl, List, [], ◌∷◌, Option, none, some, Bool, true, false,
  ◌&&◌, length, get_elem?, leb, ◌==◌, arith, if_rule, leb→le, ltb→lt,
}
use cfrp.Base.Text.{Text}
use cfrp.Server.Vhost.{
  ◌>>=◌, guard, word, string_at, server_name, extensions, extension_list, compression_methods,
  cipher_suites, session_id, sni_domain,
}

abbrev pub IsDefined : {A : Type 0} → Option A → Type 0
IsDefined {A = A} o = (a : A) × (o ≡ some a)

guard_rule : (b : Bool) (o : Option Text) → (b ≡ true → IsDefined o) → IsDefined (guard b o)
guard_rule true o h = h refl
guard_rule false o h = ([], refl)

bind_rule :
    {A : Type 0} (o : Option A) (f : A → Option Text)
    → IsDefined o
    → ((a : A) → IsDefined (f a))
    → IsDefined (o >>= f)
bind_rule none f (a, e) h = cc
bind_rule (some a) f d h = h a

get-IsDefined : (bytes : List ℕ) (i : ℕ) → i < length bytes → IsDefined (get_elem? bytes i)
get-IsDefined [] i h = absurd (omega arith)
get-IsDefined (x ∷ bytes) zero h = (x, refl)
get-IsDefined (x ∷ bytes) (suc i) h = get-IsDefined bytes i (omega arith)

word-IsDefined : (bytes : List ℕ) (pos : ℕ) → pos + 2 ≤ length bytes → IsDefined (word bytes pos)
word-IsDefined bytes pos h =
    let (a, e) = get-IsDefined bytes pos (omega arith) in
    let (b, d) = get-IsDefined bytes (pos + 1) (omega arith) in (a * 256 + b, rw (e, d))

both : (a b : Bool) → (a && b) ≡ true → (a ≡ true) × (b ≡ true)
both true b e = (refl, e)
both false b e = cc

string_at-IsDefined :
    (bytes : List ℕ) (pos n : ℕ) → pos + n ≤ length bytes → IsDefined (string_at bytes pos n)
string_at-IsDefined bytes pos zero h = ([], refl)
string_at-IsDefined bytes pos (suc n) h =
    let (a, e) = get-IsDefined bytes pos (omega (arith, h)) in
    let (s, d) = string_at-IsDefined bytes (pos + 1) n (omega (arith, h)) in (a ∷ s, rw (e, d))

server_name-IsDefined : (bytes : List ℕ) (pos : ℕ) → IsDefined (server_name bytes pos)
unfolding server_name
server_name-IsDefined bytes pos = guard_rule _ _ λ a.
    bind_rule _ _ (word-IsDefined bytes pos (leb→le _ _ a)) λ list_len. guard_rule _ _ λ b.
      let room = leb→le (pos + 2 + 3) (length bytes) b in
      bind_rule _ _ (get-IsDefined bytes (pos + 2) (omega (arith, room))) λ kind.
        guard_rule (kind == 0) _ λ _.
          bind_rule _ _ (word-IsDefined bytes (pos + 2 + 1) (omega (arith, room))) λ name_len.
            guard_rule (leb (pos + 2 + 3 + name_len) (length bytes))
              (string_at bytes (pos + 2 + 3) name_len)
              λ d. string_at-IsDefined bytes (pos + 2 + 3) name_len (leb→le _ _ d)

extensions-IsDefined :
    (fuel : ℕ) (bytes : List ℕ) (pos end_ext : ℕ)
    → 0 < fuel
    → length bytes < pos + fuel
    → IsDefined (extensions fuel bytes pos end_ext)
unfolding extensions
extensions-IsDefined zero bytes pos end_ext some_fuel h = absurd (omega arith)
extensions-IsDefined (suc fuel) bytes pos end_ext some_fuel h = guard_rule _ _ λ a.
    let room = leb→le (pos + 4) (length bytes) (both _ _ a).0 in
    bind_rule _ _ (word-IsDefined bytes pos (omega (arith, room))) λ etype.
      bind_rule _ _ (word-IsDefined bytes (pos + 2) (omega (arith, room))) λ elen.
        if_rule IsDefined (etype == 0) (λ _. server_name-IsDefined bytes (pos + 4))
          (λ _.
            extensions-IsDefined fuel bytes (pos + 4 + elen) end_ext (omega (arith, room, h))
              (omega (arith, h)))

-- Whatever a user sends, the parser of server names ends, and reads no byte outside the buffer.
pub sni_domain-IsDefined : (bytes : List ℕ) → IsDefined (sni_domain bytes)
unfolding sni_domain session_id cipher_suites compression_methods extension_list
sni_domain-IsDefined bytes = guard_rule _ _ λ a.
    let five = ltb→lt 5 (length bytes) a in
    bind_rule _ _ (get-IsDefined bytes 0 (omega (arith, five))) λ kind.
      guard_rule (kind == 0x16) _ λ _.
        bind_rule _ _ (word-IsDefined bytes 3 (omega (arith, five))) λ len.
          guard_rule (leb (len + 5) (length bytes)) _ λ _.
            bind_rule _ _ (get-IsDefined bytes 5 (omega (arith, five)))
              λ message. guard_rule (message == 1) _ λ _. hello (5 + 4 + 2 + 32)
  where
    list_at : (pos : ℕ) → IsDefined (extension_list bytes pos)
    list_at pos = guard_rule _ _ λ a.
        bind_rule _ _ (word-IsDefined bytes pos (leb→le _ _ a)) λ ext_len.
          extensions-IsDefined (suc (length bytes)) bytes (pos + 2) (pos + 2 + ext_len)
            (omega arith) (omega arith)

    methods_at : (pos : ℕ) → IsDefined (compression_methods bytes pos)
    methods_at pos = guard_rule _ _ λ a.
        let room = leb→le (pos + 1) (length bytes) a in
        bind_rule _ _ (get-IsDefined bytes pos (omega (arith, room))) λ n. list_at (pos + (1 + n))

    suites_at : (pos : ℕ) → IsDefined (cipher_suites bytes pos)
    suites_at pos =
        guard_rule _ _ λ a.
          bind_rule _ _ (word-IsDefined bytes pos (leb→le _ _ a)) λ n. methods_at (pos + (2 + n))

    hello : (pos : ℕ) → IsDefined (session_id bytes pos)
    hello pos =
        guard_rule _ _
          λ a. bind_rule _ _ (get-IsDefined bytes pos (ltb→lt _ _ a)) λ n. suites_at (pos + (1 + n))
