-- ===== src/WebSocket/Read.antt =====
-- The reading half of a `WebsocketStream` (src/common/websocket_stream.cpp). What the stream below will
-- still deliver is a list of bytes: a read of more than there is fails. There is one read at a time, and
-- the buffer pool always has a buffer. A pong is a task for the writing half.
pub mod Sent
pub mod Parse
pub mod Copies
pub mod Delivers
pub mod Safe
pub mod Verdicts
use cfrp.Base.{
  ℕ, zero, suc, ◌+◌, ◌-◌, ◌*◌, ◌/◌, ◌%◌, ◌^◌, min, List, [], ◌∷◌, ◌++◌, Option, none, some, Bool,
  true, false, not, ◌&&◌, ◌||◌, if◌then◌else◌, leb, ltb, ◌==◌, length, take, drop, read_exactly,
}
use cfrp.WebSocket.Frame.{Mask, mask_from, from_bytes}

pub data Error : Type 0 where
  no_buffer_space eof below : Error

pub record Reader : Type 0 where
  -- With the mask in front, if there is one. It is empty after `reset`.
  pub read_buffer : List ℕ
  pub read_offset : ℕ
  pub read_remaining : ℕ

pub data Action : Type 0 where
  close : Action
  post_pong : List ℕ → Action

pub data ReadEnd : Type 0 where
  failed : Error → ReadEnd
  received : ℕ → ReadEnd

-- How a frame is read: the end, the bytes that are left below, and what is done on the way.
pub record FrameRead : Type 0 where
  pub end : ReadEnd
  pub after : Reader
  pub rest : List ℕ
  pub actions : List Action

abbrev pub max_message_size : ℕ
max_message_size = 1024 * 1024

abbrev pub finish : ReadEnd → List Action → Reader → List ℕ → Option FrameRead
finish end acts s rest = some (record { end = end; after = s; rest = rest; actions = acts })

-- The payload in its buffer, unmasked in place.
abbrev pub unmask : Bool → List ℕ → List ℕ
unmask true (a ∷ b ∷ c ∷ d ∷ data') =
    a ∷ b ∷ c ∷ d ∷ mask_from (record { m0 = a; m1 = b; m2 = c; m3 = d }) 0 data'
unmask true short = short
unmask false payload = payload

abbrev pub extra : Bool → ℕ
extra true = 4
extra false = 0

abbrev pub preceded : List Action → Option FrameRead → Option FrameRead
preceded acts none = none
preceded acts (some f) = some (record f { actions = acts ++ f.actions })

-- A whole frame has come; `again` reads the next one.
abbrev pub on_payload :
    ℕ → Bool → ℕ → List ℕ → (List ℕ → Option FrameRead) → Reader → List ℕ → Option FrameRead
on_payload opcode masked len payload again s rest =
    let buffer = unmask masked payload in
    if opcode == 0x08
    then finish (failed eof) (close ∷ []) s rest
    else if opcode == 0x09
    then preceded (post_pong (drop (extra masked) buffer) ∷ []) (again rest)
    else if opcode == 0x0A
    then again rest
    else finish (received len) []
        (record { read_buffer = buffer; read_offset = extra masked; read_remaining = len }) rest

abbrev pub next_step :
    ℕ → Bool → ℕ → (List ℕ → Option FrameRead) → Reader → List ℕ → Option FrameRead
next_step opcode masked len again s input =
    if ltb max_message_size len
    then finish (failed no_buffer_space) (close ∷ []) s input
    else elim (read_exactly (len + extra masked) input) [
      | none ↦ finish (failed below) [] s []
      | some (payload, rest) ↦ on_payload opcode masked len payload again s rest
    ]

-- A length of 2 or 8 bytes.
abbrev pub extended :
    ℕ → ℕ → Bool → (List ℕ → Option FrameRead) → Reader → List ℕ → Option FrameRead
extended bytes opcode masked again s input = elim (read_exactly bytes input) [
  | none ↦ finish (failed below) [] s []
  | some (ext, rest) ↦ next_step opcode masked (from_bytes 0 ext) again s rest
]

abbrev pub on_parts :
    ℕ → Bool → Bool → ℕ → (List ℕ → Option FrameRead) → Reader → List ℕ → Option FrameRead
on_parts opcode fin masked payload_len again s rest =
    if leb 8 opcode && (not fin || ltb 125 payload_len)
    then finish (failed no_buffer_space) (close ∷ []) s rest
    else if payload_len == 126
    then extended 2 opcode masked again s rest
    else if payload_len == 127
    then extended 8 opcode masked again s rest
    else next_step opcode masked payload_len again s rest

abbrev pub on_header : ℕ → ℕ → (List ℕ → Option FrameRead) → Reader → List ℕ → Option FrameRead
on_header b0 b1 = on_parts (b0 % 16) (leb 128 b0) (leb 128 b1) (b1 % 128)

-- `ReadWsFrame`, for as many frames as the fuel allows.
unfoldable pub read_ws_frame : ℕ → Reader → List ℕ → Option FrameRead
unfolding mask_from from_bytes
read_ws_frame zero s input = none
read_ws_frame (suc fuel) s (b0 ∷ b1 ∷ rest) = on_header b0 b1 (read_ws_frame fuel s) s rest
read_ws_frame (suc fuel) s input = finish (failed below) [] s []

-- What a read gives its user.
pub record ReadResult : Type 0 where
  pub bytes : List ℕ
  pub error : Option Error
  pub after : Reader
  pub rest : List ℕ
  pub actions : List Action

-- `memcpy` of bytes from the buffer.
abbrev pub copied : ℕ → Reader → List ℕ
copied to_copy s = take to_copy (drop s.read_offset s.read_buffer)

-- Bytes of a frame that was read before. A buffer that is used up is given back.
abbrev pub take_rest : ℕ → Reader → Reader
take_rest to_copy s = record {
  read_buffer = if s.read_remaining - to_copy == 0 then [] else s.read_buffer;
  read_offset = s.read_offset + to_copy;
  read_remaining = s.read_remaining - to_copy;
}

-- The first bytes of a frame.
abbrev pub take_first : ℕ → Reader → Reader
take_first to_copy s =
    if ltb to_copy s.read_remaining
    then record s {
      read_offset = s.read_offset + to_copy;
      read_remaining = s.read_remaining - to_copy;
    }
    else record { read_buffer = []; read_offset = 0; read_remaining = 0 }

abbrev pub done : List ℕ → Reader → List ℕ → List Action → Option ReadResult
done bytes s rest acts =
    some (record { bytes = bytes; error = none; after = s; rest = rest; actions = acts })

-- What comes before the result of a read for the rest of the buffer.
abbrev pub prepend : List ℕ → List Action → Option ReadResult → Option ReadResult
prepend bytes acts none = none
prepend bytes acts (some r) =
    some (record r { bytes = bytes ++ r.bytes; actions = acts ++ r.actions })

-- Some bytes were copied; `again` reads the others that are wanted.
abbrev pub go_on :
    ℕ
    → List ℕ
    → List Action
    → (ℕ → Reader → List ℕ → Option ReadResult)
    → Reader
    → List ℕ
    → Option ReadResult
go_on missing bytes acts again s rest =
    if ltb 0 missing then prepend bytes acts (again missing s rest) else done bytes s rest acts

abbrev pub serve :
    ℕ → (ℕ → Reader → List ℕ → Option ReadResult) → Reader → List ℕ → Option ReadResult
serve wanted again s input =
    let to_copy = min s.read_remaining wanted in
    go_on (wanted - to_copy) (copied to_copy s) [] again (take_rest to_copy s) input

abbrev pub after_frame :
    ℕ → (ℕ → Reader → List ℕ → Option ReadResult) → FrameRead → Option ReadResult
after_frame wanted again f = elim f.end [
  | failed e ↦
      some
        (record { bytes = []; error = some e; after = f.after; rest = f.rest; actions = f.actions })
  | received len ↦
      let to_copy = min len wanted in
      go_on (wanted - to_copy) (copied to_copy f.after) f.actions again (take_first to_copy f.after)
        f.rest
]

abbrev pub read_frame_then :
    ℕ → (ℕ → Reader → List ℕ → Option ReadResult) → Option FrameRead → Option ReadResult
read_frame_then wanted again none = none
read_frame_then wanted again (some f) = after_frame wanted again f

-- A read of all the bytes wanted, for as many rounds as the fuel allows.
unfoldable pub async_read : ℕ → ℕ → Reader → List ℕ → Option ReadResult
unfolding read_ws_frame
async_read zero wanted s input = none
async_read (suc fuel) wanted s input =
    if wanted == 0
    then done [] s input []
    else if ltb 0 s.read_remaining
    then serve wanted (async_read fuel) s input
    else read_frame_then wanted (async_read fuel) (read_ws_frame (suc (length input)) s input)

-- A read of some bytes: one round of the above.
abbrev pub some_of_frame : ℕ → Option FrameRead → Option ReadResult
some_of_frame wanted none = none
some_of_frame wanted (some f) = elim f.end [
  | failed e ↦
      some
        (record { bytes = []; error = some e; after = f.after; rest = f.rest; actions = f.actions })
  | received len ↦
      done (copied (min len wanted) f.after) (take_first (min len wanted) f.after) f.rest f.actions
]

unfoldable pub async_read_some : ℕ → Reader → List ℕ → Option ReadResult
unfolding read_ws_frame
async_read_some wanted s input =
    if wanted == 0
    then done [] s input []
    else if ltb 0 s.read_remaining
    then done (copied (min s.read_remaining wanted) s) (take_rest (min s.read_remaining wanted) s)
        input []
    else some_of_frame wanted (read_ws_frame (suc (length input)) s input)
