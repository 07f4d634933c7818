-- ===== src/WebSocket/Read/Verdicts.antt =====
-- How `ReadWsFrame` (src/common/websocket_stream.cpp) ends, whatever comes.
use cfrp.Base.{
  read_exactly, ℕ, zero, suc, ◌+◌, ◌%◌, ◌≤◌, ◌<◌, ◌≡◌, refl, ap, List, [], ◌∷◌, ◌++◌, Option, none,
  some, Bool, true, false, not, ◌&&◌, ◌||◌, if_rule, leb, ltb, ◌==◌, length, arith, ltb_false→le,
}
use cfrp.WebSocket.Frame.{from_bytes}
use cfrp.WebSocket.Frame.RoundTrip.{length-mask_from}
use cfrp.WebSocket.Read.{
  Reader, Action, close, Error, no_buffer_space, eof, below, ReadEnd, failed, received, FrameRead,
  max_message_size, finish, unmask, extra, preceded, on_payload, next_step, extended, on_parts,
  read_ws_frame,
}
use cfrp.WebSocket.Read.Sent.{IsSound}

-- The connection is closed last.
abbrev pub Closes : List Action → Type 0
Closes acts = (before : List Action) × (acts ≡ before ++ (close ∷ []))

-- An error that the reader finds itself closes the connection.
abbrev pub Given : Error → List Action → Type 0
Given below acts = Unit
Given eof acts = Closes acts
Given no_buffer_space acts = Closes acts

-- A frame that is received is in the buffer, and no larger than allowed.
abbrev pub Verdict : ℕ → FrameRead → ReadEnd → Type 0
Verdict size f (failed e) = Given e f.actions
Verdict size f (received len) =
    (f.after.read_remaining ≡ len) × (len ≤ max_message_size) × (length f.rest < size)

pub record Good (s : Reader) (size : ℕ) (o : Option FrameRead) : Type 0 where
  pub read : FrameRead
  pub returns : o ≡ some read
  pub shorter : length read.rest ≤ size
  pub sound : IsSound s → IsSound read.after
  pub verdict : Verdict size read read.end

preceded-Closes : (a : Action) (acts : List Action) → Closes acts → Closes (a ∷ acts)
preceded-Closes a acts (before, e) = (a ∷ before, ap (λ x. a ∷ x) e)

preceded-Good :
    (s : Reader) (a : Action) (small size : ℕ) (o : Option FrameRead)
    → small ≤ size
    → Good s small o
    → Good s size (preceded (a ∷ []) o)
preceded-Good s a small size o le g = record {
  read = record g.read { actions = a ∷ g.read.actions };
  returns = ap (preceded (a ∷ [])) g.returns;
  shorter = omega (arith, le, g.shorter);
  sound = g.sound;
  verdict = by_end g.read.end g.verdict;
}
  where
    by_end :
        (end : ReadEnd)
        → Verdict small g.read end
        → Verdict size (record g.read { actions = a ∷ g.read.actions }) end
    by_end (failed below) v = tt
    by_end (failed eof) v = preceded-Closes a g.read.actions v
    by_end (failed no_buffer_space) v = preceded-Closes a g.read.actions v
    by_end (received len) (rem, max, lt) = (rem, max, omega (arith, lt, le))

wider :
    (s : Reader) (small size : ℕ) (o : Option FrameRead)
    → small ≤ size
    → Good s small o
    → Good s size o
wider s small size o le g = record {
  read = g.read;
  returns = g.returns;
  shorter = omega (arith, le, g.shorter);
  sound = g.sound;
  verdict = by_end g.read.end g.verdict;
}
  where
    by_end : (end : ReadEnd) → Verdict small g.read end → Verdict size g.read end
    by_end (failed below) v = tt
    by_end (failed eof) v = v
    by_end (failed no_buffer_space) v = v
    by_end (received len) (rem, max, lt) = (rem, max, omega (arith, lt, le))

finish_below : (size : ℕ) (s : Reader) → Good s size (finish (failed below) [] s [])
finish_below size s = record {
  read = record { end = failed below; after = s; rest = []; actions = [] };
  returns = refl;
  shorter = omega arith;
  sound = λ h. h;
  verdict = tt;
}

finish_closed :
    (size : ℕ) (e : Error) (s : Reader) (rest : List ℕ)
    → length rest ≤ size
    → Given e (close ∷ [])
    → Good s size (finish (failed e) (close ∷ []) s rest)
finish_closed size e s rest le v = record {
  read = record { end = failed e; after = s; rest = rest; actions = close ∷ [] };
  returns = refl;
  shorter = le;
  sound = λ h. h;
  verdict = v;
}

length-unmask : (masked : Bool) (payload : List ℕ) → length (unmask masked payload) ≡ length payload
length-unmask false payload = refl
length-unmask true [] = refl
length-unmask true (a ∷ []) = refl
length-unmask true (a ∷ b ∷ []) = refl
length-unmask true (a ∷ b ∷ c ∷ []) = refl
length-unmask true (a ∷ b ∷ c ∷ d ∷ p) =
    omega (arith, length-mask_from (record { m0 = a; m1 = b; m2 = c; m3 = d }) 0 p)

-- The reads of the frames after this one.
abbrev Later : Reader → ℕ → (List ℕ → Option FrameRead) → Type 0
Later s size again = (rest : List ℕ) → length rest < size → Good s (length rest) (again rest)

on_payload-Good :
    (opcode : ℕ) (masked : Bool) (len : ℕ) (payload : List ℕ) (again : List ℕ → Option FrameRead)
    (s : Reader) (rest : List ℕ) (size : ℕ)
    → len ≤ max_message_size
    → length payload ≡ len + extra masked
    → length rest < size
    → Later s size again
    → Good s size (on_payload opcode masked len payload again s rest)
on_payload-Good opcode masked len payload again s rest size le e lt later =
    if_rule (Good s size) (opcode == 0x08)
      (λ _. finish_closed size eof s rest (omega (arith, lt)) ([], refl))
      (λ _.
        if_rule (Good s size) (opcode == 0x09)
          (λ _.
            preceded-Good s _ (length rest) size (again rest) (omega (arith, lt)) (later rest lt))
          (λ _.
            if_rule (Good s size) (opcode == 0x0A)
              (λ _. wider s (length rest) size (again rest) (omega (arith, lt)) (later rest lt))
              (λ _. record {
                read = record {
                  end = received len;
                  after = record {
                    read_buffer = unmask masked payload;
                    read_offset = extra masked;
                    read_remaining = len;
                  };
                  rest = rest;
                  actions = [];
                };
                returns = refl;
                shorter = omega (arith, lt);
                sound = λ _ some_left. omega (arith, e, length-unmask masked payload);
                verdict = (refl, le, lt);
              })))

abbrev Exact : ℕ → List ℕ → Option (List ℕ × List ℕ) → Type 0
Exact n input none = Unit
Exact n input (some (xs, rest)) = (length xs ≡ n) × (length xs + length rest ≡ length input)

read_exactly-Exact : (n : ℕ) (input : List ℕ) → Exact n input (read_exactly n input)
read_exactly-Exact zero input = (refl, omega arith)
read_exactly-Exact (suc n) [] = tt
read_exactly-Exact (suc n) (b ∷ input) = longer (read_exactly n input) (read_exactly-Exact n input)
  where
    longer :
        (o : Option (List ℕ × List ℕ))
        → Exact n input o
        → Exact (suc n) (b ∷ input) (elim o [ none ↦ none | some (bs, rest) ↦ some (b ∷ bs, rest) ])
    longer none e = tt
    longer (some (bs, rest)) (e, f) = (omega (arith, e), omega (arith, f))

next_step-Good :
    (opcode : ℕ) (masked : Bool) (len : ℕ) (again : List ℕ → Option FrameRead) (s : Reader)
    (input : List ℕ) (size : ℕ)
    → length input < size
    → Later s size again
    → Good s size (next_step opcode masked len again s input)
next_step-Good opcode masked len again s input size lt later =
    if_rule (Good s size) (ltb max_message_size len)
      (λ _. finish_closed size no_buffer_space s input (omega (arith, lt)) ([], refl))
      (λ fits.
        by_read (ltb_false→le max_message_size len fits) (read_exactly (len + extra masked) input)
          (read_exactly-Exact (len + extra masked) input))
  where
    by_read :
        len ≤ max_message_size
        → (o : Option (List ℕ × List ℕ)) → Exact (len + extra masked) input o
        → Good s size (elim o [
          | none ↦ finish (failed below) [] s []
          | some (payload, rest) ↦ on_payload opcode masked len payload again s rest
        ])
    by_read le none e = finish_below size s
    by_read le (some (payload, rest)) (e, f) =
        on_payload-Good opcode masked len payload again s rest size le e (omega (arith, f, lt))
          later

extended-Good :
    (bytes opcode : ℕ) (masked : Bool) (again : List ℕ → Option FrameRead) (s : Reader)
    (input : List ℕ) (size : ℕ)
    → length input < size
    → Later s size again
    → Good s size (extended bytes opcode masked again s input)
extended-Good bytes opcode masked again s input size lt later =
    by_read (read_exactly bytes input) (read_exactly-Exact bytes input)
  where
    by_read :
        (o : Option (List ℕ × List ℕ))
        → Exact bytes input o
        → Good s size (elim o [
          | none ↦ finish (failed below) [] s []
          | some (ext, rest) ↦ next_step opcode masked (from_bytes 0 ext) again s rest
        ])
    by_read none e = finish_below size s
    by_read (some (ext, rest)) (e, f) =
        next_step-Good opcode masked (from_bytes 0 ext) again s rest size (omega (arith, f, lt))
          later

on_parts-Good :
    (opcode : ℕ) (fin masked : Bool) (n : ℕ) (again : List ℕ → Option FrameRead) (s : Reader)
    (input : List ℕ) (size : ℕ)
    → length input < size
    → Later s size again
    → Good s size (on_parts opcode fin masked n again s input)
on_parts-Good opcode fin masked n again s input size lt later =
    if_rule (Good s size) (leb 8 opcode && (not fin || ltb 125 n))
      (λ _. finish_closed size no_buffer_space s input (omega (arith, lt)) ([], refl))
      (λ _.
        if_rule (Good s size) (n == 126)
          (λ _. extended-Good 2 opcode masked again s input size lt later)
          (λ _.
            if_rule (Good s size) (n == 127)
              (λ _. extended-Good 8 opcode masked again s input size lt later)
              (λ _. next_step-Good opcode masked n again s input size lt later)))

pub read_ws_frame-Good :
    (fuel : ℕ) (s : Reader) (input : List ℕ)
    → length input < fuel
    → Good s (length input) (read_ws_frame fuel s input)
unfolding read_ws_frame
read_ws_frame-Good zero s input h = absurd (omega arith)
read_ws_frame-Good (suc fuel) s [] h = finish_below 0 s
read_ws_frame-Good (suc fuel) s (b ∷ []) h = finish_below 1 s
read_ws_frame-Good (suc fuel) s (b0 ∷ b1 ∷ rest) h =
    on_parts-Good (b0 % 16) (leb 128 b0) (leb 128 b1) (b1 % 128) (read_ws_frame fuel s) s rest
      (suc (suc (length rest))) (omega arith)
      (λ r lt. read_ws_frame-Good fuel s r (omega (arith, h, lt)))
