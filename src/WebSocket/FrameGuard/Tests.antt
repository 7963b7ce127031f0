-- ===== src/WebSocket/FrameGuard/Tests.antt =====
-- Runs of `_FrameGuard`, and its theorems at them.
use small_server.Prelude.{◌≡◌, refl, none, some, List, [], ◌∷◌, ◌++◌, flatten, ok, err, arith}
use mathlib.Core.Option
use small_server.Prelude.Text.{Text}
use small_server.WebSocket.FrameGuard.{FrameGuard, not_masked, payload_too_large, init, feed}
use small_server.WebSocket.FrameGuard.Bytewise.{run_bytes}
use small_server.WebSocket.FrameGuard.Rounds.{IsValid, at_start}
use small_server.WebSocket.FrameGuard.Chunking.{joined, feed-run_bytes_guard}
use small_server.WebSocket.FrameGuard.Safety.{
  Inv, handed, behind, withheld, feed-Inv_guard, feed_transparent, feed-append_guard,
}

-- A masked text frame of two bytes, and the start of the next.
abbrev frame : Text
frame = 0x81 ∷ 0x82 ∷ 1 ∷ 2 ∷ 3 ∷ 4 ∷ 0x69 ∷ 0x68 ∷ 0x81 ∷ []

abbrev behind_frame : FrameGuard
behind_frame = record {
  max_payload_bytes = 10;
  header = 0x81 ∷ [];
  header_length = none;
  payload_remaining = 0;
}

abbrev frame_chunks : List Text
frame_chunks = (0x81 ∷ 0x82 ∷ 1 ∷ 2 ∷ 3 ∷ 4 ∷ []) ∷ (0x69 ∷ 0x68 ∷ []) ∷ []

init-IsValid : IsValid (init 10)
unfolding init
init-IsValid = at_start refl refl (omega arith)

init-Inv : Inv 10 (init 10)
unfolding init
init-Inv = record { limit = refl; bounded = omega arith; valid = init-IsValid }

feed-frame : feed (init 10) frame ≡ some (ok frame_chunks, behind_frame)
unfolding feed init
feed-frame = refl

test_unmasked : Option.map (λ r. r.0) (feed (init 10) (0x81 ∷ 0x02 ∷ [])) ≡ some (err not_masked)
unfolding feed init
test_unmasked = refl

test_too_large :
    Option.map (λ r. r.0) (feed (init 10) (0x81 ∷ 0x8B ∷ 0 ∷ 0 ∷ 0 ∷ 0 ∷ []))
    ≡ some (err payload_too_large)
unfolding feed init
test_too_large = refl

feed-run_bytes_guard_example :
    Option.map joined (feed (init 10) frame) ≡ some (run_bytes (init 10) frame)
feed-run_bytes_guard_example = feed-run_bytes_guard (init 10) frame init-IsValid

feed-Inv_guard_example : Inv 10 behind_frame
feed-Inv_guard_example =
    feed-Inv_guard 10 (init 10) behind_frame frame frame_chunks init-Inv feed-frame

feed_transparent_example : flatten frame_chunks ++ behind_frame.header ≡ (init 10).header ++ frame
feed_transparent_example =
    feed_transparent 10 (init 10) behind_frame frame frame_chunks init-Inv feed-frame

feed-append_guard_example :
    Option.map handed (feed (init 10) (frame ++ 0x02 ∷ []))
    ≡ Option.map
        (λ r. withheld (behind (flatten frame_chunks) (handed r)))
        (feed behind_frame (0x02 ∷ []))
feed-append_guard_example =
    feed-append_guard 10 (init 10) behind_frame frame (0x02 ∷ []) frame_chunks init-Inv feed-frame
