-- ===== src/WebSocket/FrameGuard.antt =====
-- `_FrameGuard` of smallserver/websocket.py: client frame headers are checked before payload
-- bytes are passed on. `rest` stands for data[offset:].
pub mod Bytewise
pub mod Rounds
pub mod Chunking
pub mod Safety
mod Tests
use small_server.Prelude.{
  ℕ, zero, suc, ◌+◌, ◌-◌, ◌*◌, ◌/◌, ◌%◌, ◌^◌, min, Bool, true, false, not, ◌&&◌, ◌||◌, Option, none,
  some, List, [], ◌∷◌, ◌++◌, ltb, leb, ◌==◌, if◌then◌else◌, length, get_or, take, drop, is_nil,
  Result, ok, err,
}
use small_server.Prelude.Text.{Text, from_bytes}

pub record FrameGuard : Type 0 where
  pub max_payload_bytes : ℕ
  pub header : Text
  pub header_length : Option ℕ
  pub payload_remaining : ℕ

-- The first four are the ValueErrors of `feed`, in its order; the last is WebSocketCapacityError.
pub data GuardError : Type 0 where
  not_masked non_minimal_length invalid_length invalid_control payload_too_large : GuardError

unfoldable pub init : ℕ → FrameGuard
init max = record {
  max_payload_bytes = max;
  header = [];
  header_length = none;
  payload_remaining = 0;
}

-- second & 0x80
abbrev pub is_masked : ℕ → Bool
is_masked second = leb 128 (second % 256)

-- second & 0x7F
abbrev pub marker_of : ℕ → ℕ
marker_of second = second % 128

abbrev pub extension_of : ℕ → ℕ
extension_of marker = if marker == 126 then 2 else if marker == 127 then 8 else 0

unfoldable pub full_length : ℕ → ℕ
full_length second = 2 + extension_of (marker_of second) + (if is_masked second then 4 else 0)

-- The checks of the extended length, and the length.
unfoldable pub declared_length : Text → Result GuardError ℕ
declared_length header =
    let marker = marker_of (get_or header 1 0) in
    let short = from_bytes (take 2 (drop 2 header)) in
    let long = from_bytes (take 8 (drop 2 header)) in
    if marker == 126
    then if ltb short 126 then err non_minimal_length else ok short
    else if marker == 127
    then if ltb long 65536 || leb (2 ^ 63) long then err invalid_length else ok long
    else ok marker

-- The checks of a complete header: the length of the payload that it announces.
unfoldable pub check_length : ℕ → Text → ℕ → Result GuardError ℕ
check_length max header payload_length =
    let first = get_or header 0 0 in
    if leb 8 (first % 16) && (not (leb 128 (first % 256)) || ltb 125 payload_length)
    then err invalid_control
    else if ltb max payload_length
    then err payload_too_large
    else ok payload_length

unfoldable pub check_declared : ℕ → Text → Result GuardError ℕ → Result GuardError ℕ
unfolding check_length
check_declared max header (err e) = err e
check_declared max header (ok n) = check_length max header n

unfoldable pub check_header : ℕ → Text → Result GuardError ℕ
unfolding check_declared declared_length
check_header max header =
    if not (is_masked (get_or header 1 0))
    then err not_masked
    else check_declared max header (declared_length header)

-- One round of the loop: it raises, or goes on with what is left of the data and one more chunk.
pub data Round : Type 0 where
  raise : GuardError → FrameGuard → Round
  continue : FrameGuard → Text → List Text → Round

unfoldable pub announce : FrameGuard → Text → Result GuardError ℕ → Round
announce g rest (err e) = raise e g
announce g rest (ok n) =
    continue
      (record g {
        header = [];
        header_length = if n == 0 then none else g.header_length;
        payload_remaining = n;
      })
      rest (g.header ∷ [])

unfoldable pub forward : FrameGuard → Text → Round
forward g rest =
    let count = min g.payload_remaining (length rest) in
    let remaining = g.payload_remaining - count in
    continue
      (record g {
        header_length = if remaining == 0 then none else g.header_length;
        payload_remaining = remaining;
      })
      (drop count rest) (take count rest ∷ [])

-- The part of a round behind `assert header_length is not None`.
unfoldable pub fill_header : ℕ → FrameGuard → Text → Round
fill_header n g rest =
    let count = min (n - length g.header) (length rest) in
    let header = g.header ++ take count rest in
    let g' = record g { header = header } in
    if ltb (length header) n
    then continue g' (drop count rest) []
    else announce g' (drop count rest) (check_header g.max_payload_bytes header)

unfoldable pub start_header : FrameGuard → Text → Round
start_header g rest =
    let count = min (2 - length g.header) (length rest) in
    let header = g.header ++ take count rest in
    let n = full_length (get_or header 1 0) in
    if ltb (length header) 2
    then continue (record g { header = header }) (drop count rest) []
    else fill_header n (record g { header = header; header_length = some n }) (drop count rest)

unfoldable pub round : FrameGuard → Text → Round
round g rest =
    if ltb 0 g.payload_remaining
    then forward g rest
    else elim g.header_length [ none ↦ start_header g rest | some n ↦ fill_header n g rest ]

unfoldable pub proceed {ℓ} :
    {A : Type ℓ}
    → (FrameGuard → Text → List Text → Option (Result GuardError A × FrameGuard))
    → List Text
    → Round
    → Option (Result GuardError A × FrameGuard)
proceed again chunks (raise e g) = some (err e, g)
proceed again chunks (continue g rest new) = again g rest (chunks ++ new)

-- The loop on fuel: `none` would mean that the fuel ran out.
unfoldable pub feed_loop :
    ℕ → FrameGuard → Text → List Text → Option (Result GuardError (List Text) × FrameGuard)
feed_loop fuel g [] chunks = some (ok chunks, g)
feed_loop zero g (b ∷ rest) chunks = none
feed_loop (suc fuel) g (b ∷ rest) chunks = proceed (feed_loop fuel) chunks (round g (b ∷ rest))

unfoldable pub feed : FrameGuard → Text → Option (Result GuardError (List Text) × FrameGuard)
unfolding feed_loop proceed round forward start_header full_length fill_header announce check_header
feed g bytes = feed_loop (length bytes) g bytes []
