-- ===== src/WebSocket/Read/Delivers.antt =====
-- What the reader (`async_read`, src/common/websocket_stream.cpp) gives its user of the frames that come.
use cfrp.Base.{
  ℕ, zero, suc, ◌-◌, min, ◌≤◌, ◌<◌, ◌≡◌, refl, sym, ap, ◌∙◌, subst, List, [], ◌∷◌, ◌++◌, Option,
  none, some, true, false, if_rule, ltb, ◌==◌, length, take, drop, arith, length-append,
  length-take, append_assoc, ltb→lt, ltb_false→le, ==_iff, take_all, Bool-cases, inl, inr,
  true≢false,
}
use cfrp.WebSocket.Frame.{Mask, frame_header}
use cfrp.WebSocket.Read.{
  Reader, Action, post_pong, FrameRead, ReadResult, received, finish, preceded, read_ws_frame,
  copied, take_rest, take_first, go_on, serve, read_frame_then, prepend, done, async_read,
}
use cfrp.WebSocket.Read.Sent.{
  Sent, Kind, data_frame, ping, pong, wire_frame, wire, Fits, payloads, answers, holding, pending,
  IsSound,
}
use cfrp.WebSocket.Read.Copies.{Took, take_first-Took, take_rest-Took}
use cfrp.WebSocket.Read.Parse.{read_ws_frame-wire_frame, taken, opened-drop}

-- The first frame with data, and what is answered before it.
record First (fs : List Sent) (tail : List ℕ) (o : Option FrameRead) : Type 0 where
  mask : Option Mask
  payload : List ℕ
  left : List Sent
  acts : List Action
  returns : o ≡ finish (received (length payload)) acts (holding mask payload) (wire left tail)
  bytes : payloads fs ≡ payload ++ payloads left
  pongs : acts ++ answers left ≡ answers fs
  fewer : length left < length fs
  fits : Fits left

first :
    (fuel : ℕ) (fs : List Sent) (s : Reader) (tail : List ℕ)
    → length fs ≤ fuel
    → 0 < length (payloads fs)
    → Fits fs
    → First fs tail (read_ws_frame fuel s (wire fs tail))
first fuel [] s tail h some_data fits = absurd (omega arith)
first zero (f ∷ fs) s tail h some_data fits = absurd (omega arith)
first (suc fuel) (f ∷ fs) s tail h some_data (fit, fits) =
    subst (First (f ∷ fs) tail) (sym (read_ws_frame-wire_frame fuel f s (wire fs tail) fit))
      (by_kind (λ d. first fuel fs s tail (omega (arith, h)) d fits) f.kind some_data)
  where
    by_kind :
        (0 < length (payloads fs) → First fs tail (read_ws_frame fuel s (wire fs tail)))
        → (k : Kind)
        → 0 < length (payloads (record { kind = k; mask = f.mask; payload = f.payload } ∷ fs))
        → First (record { kind = k; mask = f.mask; payload = f.payload } ∷ fs) tail (
            taken
              (record { kind = k; mask = f.mask; payload = f.payload })
              (read_ws_frame fuel s)
              (wire fs tail))
    by_kind more data_frame some_data = record {
      mask = f.mask;
      payload = f.payload;
      left = fs;
      acts = [];
      returns = refl;
      bytes = refl;
      pongs = refl;
      fewer = omega arith;
      fits = fits;
    }
    by_kind more pong some_data =
        let i = more some_data in
        record {
          mask = i.mask;
          payload = i.payload;
          left = i.left;
          acts = i.acts;
          returns = i.returns;
          bytes = i.bytes;
          pongs = i.pongs;
          fewer = omega (arith, i.fewer);
          fits = i.fits;
        }
    by_kind more ping some_data =
        let i = more some_data in
        record {
          mask = i.mask;
          payload = i.payload;
          left = i.left;
          acts = post_pong f.payload ∷ i.acts;
          returns = ap (preceded (post_pong f.payload ∷ [])) i.returns;
          bytes = i.bytes;
          pongs = ap (λ a. post_pong f.payload ∷ a) i.pongs;
          fewer = omega (arith, i.fewer);
          fits = i.fits;
        }

-- What a read of `wanted` bytes gives.
pub record Delivered (wanted : ℕ) (s : Reader) (fs : List Sent) (tail : List ℕ)
    (o : Option ReadResult) : Type 0 where
  pub result : ReadResult
  pub left : List Sent
  pub returns : o ≡ some result
  pub error : result.error ≡ none
  pub count : length result.bytes ≡ wanted
  pub bytes : result.bytes ++ (pending result.after ++ payloads left) ≡ pending s ++ payloads fs
  pub rest : result.rest ≡ wire left tail
  pub pongs : result.actions ++ answers left ≡ answers fs
  pub sound : IsSound result.after
  pub fits : Fits left

nothing_pending : (s : Reader) → s.read_remaining ≡ 0 → pending s ≡ []
nothing_pending s e = ap (λ n. take n (drop s.read_offset s.read_buffer)) e

-- After some bytes were taken: enough, or the read goes on with an empty buffer.
go_on-Delivered :
    (k wanted : ℕ) (acts : List Action) (again : ℕ → Reader → List ℕ → Option ReadResult)
    (s before after : Reader) (fs now : List Sent) (tail : List ℕ)
    → Took k before after
    → k ≡ min before.read_remaining wanted
    → pending before ++ payloads now ≡ pending s ++ payloads fs
    → acts ++ answers now ≡ answers fs
    → Fits now
    → (after.read_remaining ≡ 0
        → Delivered (wanted - k) after now tail (again (wanted - k) after (wire now tail)))
    → Delivered wanted s fs tail
        (go_on (wanted - k) (copied k before) acts again after (wire now tail))
go_on-Delivered k wanted acts again s before after fs now tail t e bytes pongs fits more =
    if_rule (Delivered wanted s fs tail) (ltb 0 (wanted - k))
      (λ missing. both (more (omega (arith, t.remaining, e, ltb→lt 0 (wanted - k) missing))))
      (λ enough. record {
        result = record {
          bytes = copied k before;
          error = none;
          after = after;
          rest = wire now tail;
          actions = acts;
        };
        left = now;
        returns = refl;
        error = refl;
        count = omega (arith, t.count, e, ltb_false→le 0 (wanted - k) enough);
        bytes =
            sym (append_assoc (copied k before) (pending after) (payloads now))
            ∙ ap (λ b. b ++ payloads now) t.bytes
            ∙ bytes;
        rest = refl;
        pongs = pongs;
        sound = t.sound;
        fits = fits;
      })
  where
    both :
        Delivered (wanted - k) after now tail (again (wanted - k) after (wire now tail))
        → Delivered wanted s fs tail
            (prepend (copied k before) acts (again (wanted - k) after (wire now tail)))
    both d = record {
      result = record d.result {
        bytes = copied k before ++ d.result.bytes;
        actions = acts ++ d.result.actions;
      };
      left = d.left;
      returns = ap (prepend (copied k before) acts) d.returns;
      error = d.error;
      count = omega (arith, length-append (copied k before) d.result.bytes, t.count, d.count, e);
      bytes =
          append_assoc (copied k before) d.result.bytes (pending d.result.after ++ payloads d.left)
          ∙ ap (λ b. copied k before ++ b) d.bytes
          ∙ sym (append_assoc (copied k before) (pending after) (payloads now))
          ∙ ap (λ b. b ++ payloads now) t.bytes
          ∙ bytes;
      rest = d.rest;
      pongs =
          append_assoc acts d.result.actions (answers d.left) ∙ ap (λ a. acts ++ a) d.pongs ∙ pongs;
      sound = d.sound;
      fits = d.fits;
    }

positive : (n : ℕ) → (n == 0) ≡ false → 0 < n
positive n e = ground arith

length-wire : (fs : List Sent) (tail : List ℕ) → length fs ≤ length (wire fs tail)
unfolding frame_header
length-wire [] tail = omega arith
length-wire (f ∷ fs) tail = by_kind (length-wire fs tail) f.kind
  where
    by_kind :
        length fs ≤ length (wire fs tail)
        → (k : Kind)
        → suc (length fs)
          ≤ length (wire (record { kind = k; mask = f.mask; payload = f.payload } ∷ fs) tail)
    by_kind h data_frame = omega (
      arith,
      h,
      length-append (wire_frame (record { kind = data_frame; mask = f.mask; payload = f.payload }))
          (wire fs tail),
    )
    by_kind h ping = omega (
      arith,
      h,
      length-append (wire_frame (record { kind = ping; mask = f.mask; payload = f.payload }))
          (wire fs tail),
    )
    by_kind h pong = omega (
      arith,
      h,
      length-append (wire_frame (record { kind = pong; mask = f.mask; payload = f.payload }))
          (wire fs tail),
    )

holding-pending : (m : Option Mask) (p : List ℕ) → pending (holding m p) ≡ p
holding-pending m p = ap (take (length p)) (opened-drop m p) ∙ take_all (length p) p (omega arith)

holding-IsSound : (m : Option Mask) (p : List ℕ) → IsSound (holding m p)
holding-IsSound none p some_left = omega arith
holding-IsSound (some m) p some_left = omega arith

nothing_wanted :
    (wanted : ℕ) (s : Reader) (fs : List Sent) (tail : List ℕ)
    → IsSound s
    → Fits fs
    → (wanted == 0) ≡ true
    → Delivered wanted s fs tail (done [] s (wire fs tail) [])
nothing_wanted wanted s fs tail sound fits nothing = record {
  result = record { bytes = []; error = none; after = s; rest = wire fs tail; actions = [] };
  left = fs;
  returns = refl;
  error = refl;
  count = omega (arith, (==_iff wanted 0).0 nothing);
  bytes = refl;
  rest = refl;
  pongs = refl;
  sound = sound;
  fits = fits;
}

-- The buffer is empty. Every round takes a frame, so the fuel is more than the frames.
fresh_read-Delivered :
    (fuel wanted : ℕ) (s : Reader) (fs : List Sent) (tail : List ℕ)
    → length fs < fuel
    → s.read_remaining ≡ 0
    → wanted ≤ length (payloads fs)
    → Fits fs
    → Delivered wanted s fs tail (async_read fuel wanted s (wire fs tail))
unfolding async_read
fresh_read-Delivered zero wanted s fs tail h e le fits = absurd (omega arith)
fresh_read-Delivered (suc fuel) wanted s fs tail h e le fits =
    if_rule (Delivered wanted s fs tail) (wanted == 0)
      (nothing_wanted wanted s fs tail (λ some_left. absurd (omega (arith, e, some_left))) fits)
      (λ something.
        if_rule (Delivered wanted s fs tail) (ltb 0 s.read_remaining)
          (λ t. absurd (omega (arith, e, ltb→lt 0 s.read_remaining t)))
          (λ _.
            by_first (positive wanted something)
              (first (suc (length (wire fs tail))) fs s tail (omega (arith, length-wire fs tail))
                (omega (arith, le, positive wanted something)) fits)
              (λ n after left fewer z le fits.
                fresh_read-Delivered fuel n after left tail (omega (arith, h, fewer)) z le fits)))
  where
    by_first :
        {o : Option FrameRead}
        → 0 < wanted
        → First fs tail o
        → ((n : ℕ) (after : Reader) (left : List Sent)
            → length left < length fs
            → after.read_remaining ≡ 0
            → n ≤ length (payloads left)
            → Fits left
            → Delivered n after left tail (async_read fuel n after (wire left tail)))
        → Delivered wanted s fs tail (read_frame_then wanted (async_read fuel) o)
    by_first some_wanted i more =
        let k = min (length i.payload) wanted in
        let buffer = holding i.mask i.payload in
        subst (λ o. Delivered wanted s fs tail (read_frame_then wanted (async_read fuel) o))
          (sym i.returns)
          (go_on-Delivered k wanted i.acts (async_read fuel) s buffer (take_first k buffer) fs
            i.left tail (take_first-Took k buffer (holding-IsSound i.mask i.payload) (omega arith))
            refl
            (ap (λ b. b ++ payloads i.left) (holding-pending i.mask i.payload)
              ∙ sym i.bytes
              ∙ ap (λ b. b ++ payloads fs) (sym (nothing_pending s e)))
            i.pongs i.fits
            (λ z.
              more (wanted - k) (take_first k buffer) i.left i.fewer z
                (omega (arith, le, ap length i.bytes, length-append i.payload (payloads i.left)))
                i.fits))

-- A read of bytes that are at hand or come in frames ends with exactly as many bytes as wanted, which are the
-- next ones: what is left in the buffer and on the way are the others, in order. The frames may be masked
-- or not, and of the sizes that the protocol allows, with pings and pongs between them; each ping that
-- was met is answered by a pong with its payload, and the others are left.
pub async_read-Delivered :
    (fuel wanted : ℕ) (s : Reader) (fs : List Sent) (tail : List ℕ)
    → suc (length fs) < fuel
    → IsSound s
    → Fits fs
    → wanted ≤ length (pending s ++ payloads fs)
    → Delivered wanted s fs tail (async_read fuel wanted s (wire fs tail))
unfolding async_read
async_read-Delivered zero wanted s fs tail h sound fits le = absurd (omega arith)
async_read-Delivered (suc fuel) wanted s fs tail h sound fits le =
    elim (Bool-cases (ltb 0 s.read_remaining)) [
      | inr empty ↦
          let e : s.read_remaining ≡ 0 = omega (arith, ltb_false→le 0 s.read_remaining empty) in
          fresh_read-Delivered (suc fuel) wanted s fs tail (omega (arith, h)) e
            (omega (arith, le, ap (λ b. length (b ++ payloads fs)) (nothing_pending s e))) fits
      | inl some_left ↦
          if_rule (Delivered wanted s fs tail) (wanted == 0)
            (nothing_wanted wanted s fs tail sound fits)
            (λ _.
              if_rule (Delivered wanted s fs tail) (ltb 0 s.read_remaining) (λ _. from_buffer)
                (λ f. absurd (true≢false (sym some_left ∙ f))))
    ]
  where
    k : ℕ
    k = min s.read_remaining wanted

    from_buffer : Delivered wanted s fs tail (serve wanted (async_read fuel) s (wire fs tail))
    from_buffer =
        let t = take_rest-Took k s sound (omega arith) in
        go_on-Delivered k wanted [] (async_read fuel) s s (take_rest k s) fs fs tail t refl refl
          refl fits
          (λ z.
            fresh_read-Delivered fuel (wanted - k) (take_rest k s) fs tail (omega (arith, h)) z
              (omega (
                arith,
                le,
                length-append (pending s) (payloads fs),
                length-take s.read_remaining (drop s.read_offset s.read_buffer),
              ))
              fits)
