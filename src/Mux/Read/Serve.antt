-- ===== src/Mux/Read/Serve.antt =====
-- `do_read_from_buffer` (src/common/mux.cpp) as a whole: its loop over the pending reads.
use mathlib.Core.Option
use cfrp.Base.{
  ◌+◌, ◌≡◌, refl, sym, ap, ◌∙◌, true, List, [], ◌∷◌, ◌++◌, Option, none, some, append_assoc, arith,
  length, length-append, if_rule, ◌&&◌,
}
use cfrp.Mux.Stream.{MuxStream, PendingRead, Effect, remove}
use cfrp.Mux.Read.Loop.{
  Round, wait, fault, next, after, round, is_empty, read_loop, check_cleanup, do_read_from_buffer,
}
use cfrp.Mux.Read.Order.{
  delivered_of, delivered, credited, unread_bytes, IsSound, IsSmall, Served, Serves, round-Serves,
}

delivered-append : (es es' : List Effect) → delivered (es ++ es') ≡ delivered es ++ delivered es'
delivered-append [] es' = refl
delivered-append (e ∷ es) es' =
    rw (delivered-append es es')
      (sym (append_assoc (delivered_of e) (delivered es) (delivered es')))

credited-append : (es es' : List Effect) → credited (es ++ es') ≡ credited es + credited es'
credited-append [] es' = omega arith
credited-append (e ∷ es) es' = omega (arith, credited-append es es')

Served-trans :
    {s s' s'' : MuxStream} (es es' : List Effect)
    → Served s es s'
    → Served s' es' s''
    → Served s (es ++ es') s''
Served-trans {s} {s'} {s''} es es' a b = record {
  bytes = rw (delivered-append es es') (
      append_assoc (delivered es) (delivered es') (unread_bytes s'')
      ∙ ap (◌++◌ (delivered es)) b.bytes
      ∙ a.bytes);
  sound = b.sound;
  window = omega (
    arith,
    a.window,
    b.window,
    credited-append es es',
    ap length (delivered-append es es'),
    length-append (delivered es) (delivered es'),
  );
  below = λ h. b.below (a.below h);
  small = b.small;
}

-- The call is defined, and serves.
pub record Done (s : MuxStream) (r : Option (MuxStream × List Effect)) : Type 0 where
  pub state : MuxStream
  pub effects : List Effect
  pub returns : r ≡ some (state, effects)
  pub served : Served s effects state

idle-Served :
    (s : MuxStream) (ps : List PendingRead)
    → IsSound s
    → IsSmall s
    → Served s [] (record s { pending_reads = ps })
idle-Served s ps sound small = record {
  bytes = refl;
  sound = sound;
  window = omega arith;
  below = λ h. h;
  small = small;
}

read_loop-Done :
    (s : MuxStream) (ps : List PendingRead) → IsSound s → IsSmall s → Done s (read_loop true s ps)
unfolding read_loop
read_loop-Done s [] sound small = record {
  state = record s { pending_reads = [] };
  effects = [];
  returns = refl;
  served = idle-Served s [] sound small;
}
read_loop-Done s (p ∷ ps) sound small =
    go (round true s p) (round-Serves s p sound small) (λ s'. read_loop-Done s' ps)
  where
    go :
        (r : Round)
        → Serves s r
        → ((s' : MuxStream) → IsSound s' → IsSmall s' → Done s' (read_loop true s' ps))
        → Done s (elim r [
          | wait ↦ some (record s { pending_reads = p ∷ ps }, [])
          | fault ↦ none
          | next es s' ↦ Option.map (after es) (read_loop true s' ps)
        ])
    go wait h rec = record {
      state = record s { pending_reads = p ∷ ps };
      effects = [];
      returns = refl;
      served = idle-Served s (p ∷ ps) sound small;
    }
    go fault h rec = absurd h
    go (next es s') h rec =
        let d : Done s' (read_loop true s' ps) = rec s' h.sound h.small in
        record {
          state = d.state;
          effects = es ++ d.effects;
          returns = rw (d.returns);
          served = Served-trans es d.effects h d.served;
        }

cleanup-Served :
    (s s' : MuxStream) (es : List Effect)
    → Served s es s'
    → Served s (es ++ check_cleanup true s') s'
unfolding check_cleanup
cleanup-Served s s' es a =
    if_rule (λ x. Served s (es ++ x) s')
      (s'.local_closed && s'.remote_closed && is_empty s'.read_queue && true)
      (λ _. Served-trans es (remove s'.id ∷ []) a (nothing_more (remove s'.id ∷ []) refl refl))
      (λ _. Served-trans es [] a (nothing_more [] refl refl))
  where
    nothing_more : (x : List Effect) → delivered x ≡ [] → credited x ≡ 0 → Served s' x s'
    nothing_more x d c = record {
      bytes = rw d;
      sound = a.sound;
      window = omega (arith, ap length d);
      below = λ h. h;
      small = a.small;
    }

-- From a sound offset `do_read_from_buffer` never reads outside a block. It hands on the received
-- bytes in order, losing none; gives the peer back as much window as it handed on, but for what it
-- still counts; and counts less than 32 KiB if it did so before.
pub do_read_from_buffer-Done :
    (s : MuxStream) → IsSound s → IsSmall s → Done s (do_read_from_buffer true s)
unfolding do_read_from_buffer
do_read_from_buffer-Done s sound small =
    let d : Done s (read_loop true s s.pending_reads) =
      read_loop-Done s s.pending_reads sound small in
    record {
      state = d.state;
      effects = d.effects ++ check_cleanup true d.state;
      returns = rw (d.returns);
      served = cleanup-Served s d.state d.effects d.served;
    }
