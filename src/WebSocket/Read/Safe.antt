-- ===== src/WebSocket/Read/Safe.antt =====
-- How `async_read` (src/common/websocket_stream.cpp) ends, whatever comes.
use cfrp.Base.{
  ℕ, zero, suc, ◌-◌, min, ◌<◌, ◌≡◌, refl, sym, ap, ◌∙◌, subst, List, [], ◌∷◌, ◌++◌, Option, none,
  some, true, false, if_rule, ltb, ◌==◌, length, arith, length-append, append_assoc, ltb→lt,
  ltb_false→le, ==_iff, Bool-cases, inl, inr, true≢false,
}
use cfrp.WebSocket.Read.{
  Reader, Action, close, Error, no_buffer_space, eof, below, ReadEnd, failed, received, FrameRead,
  ReadResult, copied, take_rest, take_first, go_on, serve, after_frame, read_frame_then, prepend,
  done, async_read,
}
use cfrp.WebSocket.Read.Sent.{IsSound}
use cfrp.WebSocket.Read.Copies.{Took, take_first-Took, take_rest-Took}
use cfrp.WebSocket.Read.Verdicts.{Closes, Given, Verdict, Good, read_ws_frame-Good}

abbrev pub Outcome : ℕ → Option Error → ReadResult → Type 0
Outcome wanted none r = length r.bytes ≡ wanted
Outcome wanted (some e) r = (length r.bytes < wanted) × Given e r.actions

pub record Ended (wanted : ℕ) (o : Option ReadResult) : Type 0 where
  pub result : ReadResult
  pub returns : o ≡ some result
  pub sound : IsSound result.after
  pub outcome : Outcome wanted result.error result

after-Closes : (acts more : List Action) → Closes more → Closes (acts ++ more)
after-Closes acts more (before, e) =
    (acts ++ before, ap (λ x. acts ++ x) e ∙ sym (append_assoc acts before (close ∷ [])))

after-Given : (e : Error) (acts more : List Action) → Given e more → Given e (acts ++ more)
after-Given below acts more g = tt
after-Given eof acts more g = after-Closes acts more g
after-Given no_buffer_space acts more g = after-Closes acts more g

go_on-Ended :
    (k wanted : ℕ) (acts : List Action) (again : ℕ → Reader → List ℕ → Option ReadResult)
    (before after : Reader) (rest : List ℕ)
    → Took k before after
    → k ≡ min before.read_remaining wanted
    → (after.read_remaining ≡ 0
        → 0 < wanted - k
        → Ended (wanted - k) (again (wanted - k) after rest))
    → Ended wanted (go_on (wanted - k) (copied k before) acts again after rest)
go_on-Ended k wanted acts again before after rest t e more =
    if_rule (Ended wanted) (ltb 0 (wanted - k))
      (λ missing.
        let some_missing = ltb→lt 0 (wanted - k) missing in
        both (more (omega (arith, t.remaining, e, some_missing)) some_missing))
      (λ enough. record {
        result = record {
          bytes = copied k before;
          error = none;
          after = after;
          rest = rest;
          actions = acts;
        };
        returns = refl;
        sound = t.sound;
        outcome = omega (arith, t.count, e, ltb_false→le 0 (wanted - k) enough);
      })
  where
    both :
        Ended (wanted - k) (again (wanted - k) after rest)
        → Ended wanted (prepend (copied k before) acts (again (wanted - k) after rest))
    both d = record {
      result = record d.result {
        bytes = copied k before ++ d.result.bytes;
        actions = acts ++ d.result.actions;
      };
      returns = ap (prepend (copied k before) acts) d.returns;
      sound = d.sound;
      outcome = by_error d.result.error d.outcome;
    }
      where
        by_error :
            (e' : Option Error)
            → Outcome (wanted - k) e' d.result
            → Outcome wanted e' (record d.result {
              bytes = copied k before ++ d.result.bytes;
              actions = acts ++ d.result.actions;
            })
        by_error none c =
            omega (arith, length-append (copied k before) d.result.bytes, t.count, c, e)
        by_error (some x) (c, g) = (
          omega (arith, length-append (copied k before) d.result.bytes, t.count, c, e),
          after-Given x acts d.result.actions g,
        )

nothing_wanted-Ended :
    (wanted : ℕ) (s : Reader) (input : List ℕ)
    → IsSound s
    → (wanted == 0) ≡ true
    → Ended wanted (done [] s input [])
nothing_wanted-Ended wanted s input sound nothing = record {
  result = record { bytes = []; error = none; after = s; rest = input; actions = [] };
  returns = refl;
  sound = sound;
  outcome = omega (arith, (==_iff wanted 0).0 nothing);
}

positive : (n : ℕ) → (n == 0) ≡ false → 0 < n
positive n e = ground arith

fresh_read-Ended :
    (fuel wanted : ℕ) (s : Reader) (input : List ℕ)
    → length input < fuel
    → s.read_remaining ≡ 0
    → Ended wanted (async_read fuel wanted s input)
unfolding async_read
fresh_read-Ended zero wanted s input h e = absurd (omega arith)
fresh_read-Ended (suc fuel) wanted s input h e =
    if_rule (Ended wanted) (wanted == 0) (nothing_wanted-Ended wanted s input idle) (λ something.
      if_rule (Ended wanted) (ltb 0 s.read_remaining)
        (λ t. absurd (omega (arith, e, ltb→lt 0 s.read_remaining t)))
        (λ _.
          by_frame (positive wanted something)
            (read_ws_frame-Good (suc (length input)) s input (omega arith))
            (λ n after rest lt z. fresh_read-Ended fuel n after rest (omega (arith, h, lt)) z)))
  where
    idle : IsSound s
    idle some_left = absurd (omega (arith, e, some_left))

    by_frame :
        {o : Option FrameRead}
        → 0 < wanted
        → Good s (length input) o
        → ((n : ℕ) (after : Reader) (rest : List ℕ)
            → length rest < length input
            → after.read_remaining ≡ 0
            → Ended n (async_read fuel n after rest))
        → Ended wanted (read_frame_then wanted (async_read fuel) o)
    by_frame some_wanted g more =
        subst (λ o. Ended wanted (read_frame_then wanted (async_read fuel) o)) (sym g.returns)
          (by_end g.read.end g.verdict)
      where
        sound : IsSound g.read.after
        sound = g.sound idle

        by_end :
            (end : ReadEnd)
            → Verdict (length input) g.read end
            → Ended wanted (after_frame wanted (async_read fuel) (record g.read { end = end }))
        by_end (failed x) v = record {
          result = record {
            bytes = [];
            error = some x;
            after = g.read.after;
            rest = g.read.rest;
            actions = g.read.actions;
          };
          returns = refl;
          sound = sound;
          outcome = (some_wanted, v);
        }
        by_end (received len) (rem, le, lt) =
            go_on-Ended (min len wanted) wanted g.read.actions (async_read fuel) g.read.after
              (take_first (min len wanted) g.read.after) g.read.rest
              (take_first-Took (min len wanted) g.read.after sound (omega (arith, rem)))
              (omega (arith, rem))
              (λ z _.
                more (wanted - min len wanted) (take_first (min len wanted) g.read.after)
                  g.read.rest lt z)

-- A read ends whatever bytes come, well formed or not, with one round more than there are bytes and one for
-- what was read before. It gives all the bytes wanted, or fewer and an error; an error that is not the one of
-- the connection below closes that connection. What is left to read afterwards lies inside the buffer.
pub async_read-Ended :
    (fuel wanted : ℕ) (s : Reader) (input : List ℕ)
    → suc (length input) < fuel
    → IsSound s
    → Ended wanted (async_read fuel wanted s input)
unfolding async_read
async_read-Ended zero wanted s input h sound = absurd (omega arith)
async_read-Ended (suc fuel) wanted s input h sound = elim (Bool-cases (ltb 0 s.read_remaining)) [
  | inr empty ↦
      fresh_read-Ended (suc fuel) wanted s input (omega (arith, h))
        (omega (arith, ltb_false→le 0 s.read_remaining empty))
  | inl some_left ↦
      if_rule (Ended wanted) (wanted == 0) (nothing_wanted-Ended wanted s input sound) (λ _.
        if_rule (Ended wanted) (ltb 0 s.read_remaining) (λ _. from_buffer)
          (λ f. absurd (true≢false (sym some_left ∙ f))))
]
  where
    k : ℕ
    k = min s.read_remaining wanted

    from_buffer : Ended wanted (serve wanted (async_read fuel) s input)
    from_buffer =
        go_on-Ended k wanted [] (async_read fuel) s (take_rest k s) input
          (take_rest-Took k s sound (omega arith)) refl
          (λ z _. fresh_read-Ended fuel (wanted - k) (take_rest k s) input (omega (arith, h)) z)
