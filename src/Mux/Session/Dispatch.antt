-- ===== src/Mux/Session/Dispatch.antt =====
-- `Session::handle_frame` (src/common/mux.cpp): which stream a frame is for.
use cfrp.Base.{
  ℕ, ◌≡◌, refl, Bool, true, false, not, List, [], ◌∷◌, ◌++◌, Option, none, some, if◌then◌else◌, ltb,
  ◌==◌, ◌&&◌, length, arith, ap, sym, ◌∙◌, append-nil, append_assoc, ap,
}
use cfrp.Base.Dict.{lookup, nat_eq}
use cfrp.Mux.Header.{Header, has_flag, fin, syn, data_type}
use cfrp.Mux.Stream.{Block}
use cfrp.Mux.Session.{
  Session, Action, handle_frame, handle_data_frame, deliver, Task, data_task, close_task, is_known,
  at_stream, if_known, post_task, skip, ◌>>◌,
}

is_data : (a : ℕ) → a ≡ data_type → (a == data_type) ≡ true
is_data a e = ground (arith, e)

cong_if : {A : Type 0} (b : Bool) (x y : A) → b ≡ true → (if b then x else y) ≡ x
cong_if true x y e = refl
cong_if false x y e = cc

cong_unless : {A : Type 0} (b : Bool) (x y : A) → b ≡ false → (if b then x else y) ≡ y
cong_unless true x y e = cc
cong_unless false x y e = refl

data_frame :
    (h : Header) (body : Block)
    → h.type ≡ data_type
    → handle_frame h body ≡ handle_data_frame h body
unfolding handle_frame
data_frame h body e = cong_if (h.type == data_type) _ _ (is_data h.type e)

-- A data frame that does not open a stream goes to the one that has its id, if there is one.
not_opening :
    (h : Header) (body : Block) (s : Session)
    → (has_flag h.flags syn && not (is_known h.stream_id s)) ≡ false
    → handle_data_frame h body s ≡ at_stream h.stream_id (deliver h body) s
unfolding handle_data_frame
not_opening h body s e =
    ap {A = Option (Session × List Action)}
      (λ o. elim o [
        | none ↦ none
        | some (t, xs) ↦ elim (at_stream h.stream_id (deliver h body) t) [
          | none ↦ none
          | some (u, ys) ↦ some (u, xs ++ ys)
        ]
      ])
      (cong_unless _ _ _ e)
    ∙ unchanged (at_stream h.stream_id (deliver h body) s)
  where
    unchanged :
        (o : Option (Session × List Action))
        → elim o [ none ↦ none | some (u, ys) ↦ some (u, ys) ] ≡ o
    unchanged none = refl
    unchanged (some r) = refl

-- The tasks of a data frame for a known stream: its bytes, if there are any, then the end, if the
-- frame has the flag.
abbrev pub frame_tasks : Header → Block → ℕ → List Task
frame_tasks h body ref =
    (if ltb 0 (length body) then data_task ref body ∷ [] else [])
    ++ (if has_flag h.flags fin then close_task ref ∷ [] else [])

deliver-frame_tasks :
    (h : Header) (body : Block) (ref : ℕ) (s : Session)
    → deliver h body ref s ≡ some (record s { tasks = s.tasks ++ frame_tasks h body ref }, [])
deliver-frame_tasks h body ref s = by_tests (ltb 0 (length body)) (has_flag h.flags fin)
  where
    by_tests :
        (b c : Bool)
        → ((if b then post_task (data_task ref body) else skip)
              >> (if c then post_task (close_task ref) else skip))
            s
          ≡ some (
            record s {
              tasks =
                  s.tasks
                  ++ ((if b then data_task ref body ∷ [] else [])
                      ++ (if c then close_task ref ∷ [] else []));
            },
            [],
          )
    by_tests true true = ap (λ ts. some (record s { tasks = ts }, [])) (append_assoc s.tasks _ _)
    by_tests true false = refl
    by_tests false true = refl
    by_tests false false = ap (λ ts. some (record s { tasks = ts }, [])) (sym (append-nil s.tasks))

-- A data frame without SYN for a stream that the session does not know, or knows no more, changes
-- nothing; one for a known stream, whatever its SYN flag, posts its bytes and then its end to that
-- stream, and changes nothing else.
pub data_frame-dispatch :
    (h : Header) (body : Block) (s : Session)
    → h.type ≡ data_type
    → (lookup h.stream_id s.streams ≡ none
        → has_flag h.flags syn ≡ false
        → handle_frame h body s ≡ some (s, []))
      × ((ref : ℕ)
          → lookup h.stream_id s.streams ≡ some ref
          → handle_frame h body s
            ≡ some (record s { tasks = s.tasks ++ frame_tasks h body ref }, []))
data_frame-dispatch h body s kind = (
  λ unknown plain.
      ap (λ f. f s) (data_frame h body kind)
      ∙ not_opening h body s (ap (◌&& not (is_known h.stream_id s)) plain)
      ∙ ap (λ o. if_known o (deliver h body) s) unknown,
  λ ref known.
      ap (λ f. f s) (data_frame h body kind)
      ∙ not_opening h body s (opened_before _ known)
      ∙ ap (λ o. if_known o (deliver h body) s) known
      ∙ deliver-frame_tasks h body ref s,
)
  where
    opened_before :
        (b : Bool) {ref : ℕ}
        → lookup h.stream_id s.streams ≡ some ref
        → (b && not (is_known h.stream_id s)) ≡ false
    opened_before b known = ground (arith, known)
