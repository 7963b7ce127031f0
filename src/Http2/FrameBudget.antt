-- ===== src/Http2/FrameBudget.antt =====
-- `_FrameBudget` of smallserver/http2.py: the bytes of a connection are split into complete frames,
-- within bounds. `rest` stands for view[offset:].
pub mod Bytewise
pub mod Rounds
pub mod Preface
pub mod Chunking
pub mod Safety
pub mod HeaderBlock
mod Tests
use small_server.Prelude.{
  ℕ, zero, suc, ◌+◌, ◌-◌, ◌*◌, ◌/◌, ◌%◌, ◌^◌, min, Bool, true, false, not, ◌&&◌, ◌||◌, Option, none,
  some, List, [], ◌∷◌, ◌++◌, ltb, leb, ◌==◌, if◌then◌else◌, length, get_or, take, drop, is_nil,
  Result, ok, err,
}
use small_server.Prelude.Text.{Text, codes, from_bytes, text_equal}
use small_server.Http2.Config.{Http2Config}

pub record FrameBudget : Type 0 where
  pub config : Http2Config
  pub preface : Text
  pub header : Text
  pub payload : Text
  pub frame_length : ℕ
  pub frame_type : ℕ
  pub frame_flags : ℕ
  pub frame_stream : ℕ
  pub preface_received : Bool
  pub header_stream : Option ℕ
  pub header_bytes : ℕ
  pub ready : List Text

-- The ValueErrors of `feed` and `_start_frame`.
pub data FrameError : Type 0 where
  invalid_preface frame_too_large interleaved_headers : FrameError
  invalid_continuation header_block_too_large : FrameError

abbrev pub client_preface : Text
client_preface = codes "PRI * HTTP/2.0\r\n\r\nSM\r\n\r\n"

abbrev pub init : Http2Config → FrameBudget
init config = record {
  config = config;
  preface = [];
  header = [];
  payload = [];
  frame_length = 0;
  frame_type = 0;
  frame_flags = 0;
  frame_stream = 0;
  preface_received = false;
  header_stream = none;
  header_bytes = 0;
  ready = [];
}

-- `self._header_stream != self._frame_stream`, negated
abbrev pub is_stream : Option ℕ → ℕ → Bool
is_stream none n = false
is_stream (some m) n = m == n

-- The last test of `_start_frame`.
unfoldable pub check_budget : FrameBudget → Result FrameError FrameBudget
check_budget b =
    if ltb b.config.max_compressed_header_bytes b.header_bytes
    then err header_block_too_large
    else ok b

unfoldable pub open_headers : FrameBudget → Result FrameError FrameBudget
unfolding check_budget
open_headers b = elim b.header_stream [
  | some _ ↦ err interleaved_headers
  | none ↦
      check_budget (record b { header_stream = some b.frame_stream; header_bytes = b.frame_length })
]

unfoldable pub continue_headers : FrameBudget → Result FrameError FrameBudget
unfolding check_budget
continue_headers b =
    if is_stream b.header_stream b.frame_stream
    then check_budget (record b { header_bytes = b.header_bytes + b.frame_length })
    else err invalid_continuation

-- What the nine header bytes say.
unfoldable pub read_header : FrameBudget → FrameBudget
read_header b = record b {
  frame_length = from_bytes (take 3 b.header);
  frame_type = get_or b.header 3 0;
  frame_flags = get_or b.header 4 0;
  frame_stream = from_bytes (take 4 (drop 5 b.header)) % 2 ^ 31;
}

unfoldable pub classify_frame : FrameBudget → Result FrameError FrameBudget
unfolding open_headers continue_headers check_budget
classify_frame b =
    if b.frame_type == 1
    then open_headers b
    else if b.frame_type == 9
    then continue_headers b
    else check_budget b

unfoldable pub start_frame : FrameBudget → Result FrameError FrameBudget
unfolding read_header classify_frame
start_frame b =
    if ltb b.config.max_frame_size (from_bytes (take 3 b.header))
    then err frame_too_large
    else classify_frame (read_header b)

-- `self._frame_type in (0x1, 0x9) and self._frame_flags & 0x4`
abbrev pub ends_headers : FrameBudget → Bool
ends_headers b = (b.frame_type == 1 || b.frame_type == 9) && ((b.frame_flags / 4) % 2) == 1

unfoldable pub finish_frame : FrameBudget → FrameBudget
finish_frame b = record b {
  ready = b.ready ++ ((b.header ++ b.payload) ∷ []);
  header_stream = if ends_headers b then none else b.header_stream;
  header_bytes = if ends_headers b then 0 else b.header_bytes;
  header = [];
  payload = [];
  frame_length = 0;
}

-- One round of the loop. `stop` is the `return` in it.
pub data Round : Type 0 where
  raise : FrameError → Round
  stop : FrameBudget → Round
  continue : FrameBudget → Text → Round

unfoldable pub take_payload : FrameBudget → Text → Round
take_payload b rest =
    let count = min (b.frame_length - length b.payload) (length rest) in
    let b' = record b { payload = b.payload ++ take count rest } in
    if length b'.payload == b'.frame_length
    then continue (finish_frame b') (drop count rest)
    else continue b' (drop count rest)

unfoldable pub after_start : Text → Result FrameError FrameBudget → Round
after_start rest (err e) = raise e
after_start rest (ok b) =
    if b.frame_length == 0 then continue (finish_frame b) rest else take_payload b rest

unfoldable pub take_header : FrameBudget → Text → Round
take_header b rest =
    let count = min (9 - length b.header) (length rest) in
    let b' = record b { header = b.header ++ take count rest } in
    if ltb (length b'.header) 9 then stop b' else after_start (drop count rest) (start_frame b')

unfoldable pub round : FrameBudget → Text → Round
round b rest = if ltb (length b.header) 9 then take_header b rest else take_payload b rest

unfoldable pub proceed :
    (FrameBudget → Text → Option (Result FrameError FrameBudget))
    → Round
    → Option (Result FrameError FrameBudget)
proceed again (raise e) = some (err e)
proceed again (stop b) = some (ok b)
proceed again (continue b rest) = again b rest

-- `while offset < len(view)` on fuel: `none` would mean that the fuel ran out.
unfoldable pub feed_frames : ℕ → FrameBudget → Text → Option (Result FrameError FrameBudget)
feed_frames fuel b [] = some (ok b)
feed_frames zero b (x ∷ rest) = none
feed_frames (suc fuel) b (x ∷ rest) = proceed (feed_frames fuel) (round b (x ∷ rest))

unfoldable pub end_preface : FrameBudget → FrameBudget
end_preface b = record b {
  ready = b.ready ++ b.preface ∷ [];
  preface = [];
  preface_received = true;
}

-- The part of `feed` before the loop, and the loop behind it. The state that a ValueError leaves is
-- not modelled: the connection ends with it.
unfoldable pub feed_preface : FrameBudget → Text → Option (Result FrameError FrameBudget)
feed_preface b bytes =
    let count = min (24 - length b.preface) (length bytes) in
    let b' = record b { preface = b.preface ++ take count bytes } in
    if not (text_equal b'.preface (take (length b'.preface) client_preface))
    then some (err invalid_preface)
    else if ltb (length b'.preface) 24
    then some (ok b')
    else feed_frames (length (drop count bytes)) (end_preface b') (drop count bytes)

unfoldable pub feed : FrameBudget → Text → Option (Result FrameError FrameBudget)
unfolding feed_preface feed_frames proceed round take_header after_start take_payload end_preface
    finish_frame start_frame
feed b bytes =
    if b.preface_received then feed_frames (length bytes) b bytes else feed_preface b bytes

-- `take(limit)`: the frames handed out, and those that wait.
unfoldable pub take_ready : FrameBudget → ℕ → List Text × FrameBudget
take_ready b limit = (take limit b.ready, record b { ready = drop limit b.ready })
