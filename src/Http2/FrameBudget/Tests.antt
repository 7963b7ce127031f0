-- ===== src/Http2/FrameBudget/Tests.antt =====
-- Runs of `_FrameBudget`, and its theorems at them.
use small_server.Prelude.{◌≡◌, refl, true, some, [], ◌∷◌, ◌++◌, ok, err}
use small_server.Prelude.Text.{Text, text_equal}
use small_server.Http2.Config.{default}
use small_server.Http2.FrameBudget.{
  FrameBudget, client_preface, invalid_continuation, frame_too_large, init, feed,
}
use small_server.Http2.FrameBudget.Bytewise.{run_bytes}
use small_server.Http2.FrameBudget.Chunking.{feed-run_bytes_budget}
use small_server.Http2.FrameBudget.Safety.{Inv, init-Inv, held, held-feed, feed-append_budget}
use small_server.Http2.FrameBudget.HeaderBlock.{Metered, init-Metered, feed-Metered}

-- An empty SETTINGS frame, and the start of a PING frame.
abbrev settings : Text
settings = 0 ∷ 0 ∷ 0 ∷ 4 ∷ 0 ∷ 0 ∷ 0 ∷ 0 ∷ 0 ∷ []

abbrev opening : Text
opening = client_preface ++ settings ++ 0 ∷ 0 ∷ 8 ∷ []

abbrev behind_settings : FrameBudget
behind_settings = record (init default) {
  header = 0 ∷ 0 ∷ 8 ∷ [];
  frame_type = 4;
  preface_received = true;
  ready = client_preface ∷ settings ∷ [];
}

feed-opening : feed (init default) opening ≡ some (ok behind_settings)
unfolding feed text_equal
feed-opening = refl

-- A CONTINUATION frame with no header block open.
test_continuation :
    feed (init default) (client_preface ++ 0 ∷ 0 ∷ 1 ∷ 9 ∷ 0 ∷ 0 ∷ 0 ∷ 0 ∷ 1 ∷ 7 ∷ [])
    ≡ some (err invalid_continuation)
unfolding feed text_equal
test_continuation = refl

test_too_large :
    feed (init default) (client_preface ++ 0 ∷ 0x40 ∷ 1 ∷ 0 ∷ 0 ∷ 0 ∷ 0 ∷ 0 ∷ 1 ∷ [])
    ≡ some (err frame_too_large)
unfolding feed text_equal
test_too_large = refl

feed-run_bytes_budget_example :
    feed (init default) opening ≡ some (run_bytes (init default) opening)
feed-run_bytes_budget_example =
    feed-run_bytes_budget (init default) opening (init-Inv default).valid

-- A HEADERS frame of two bytes that leaves its block open, and a CONTINUATION frame of three of which
-- one byte is there.
abbrev headers : Text
headers = 0 ∷ 0 ∷ 2 ∷ 1 ∷ 0 ∷ 0 ∷ 0 ∷ 0 ∷ 1 ∷ 7 ∷ 8 ∷ []

abbrev block : Text
block = client_preface ++ headers ++ 0 ∷ 0 ∷ 3 ∷ 9 ∷ 4 ∷ 0 ∷ 0 ∷ 0 ∷ 1 ∷ 9 ∷ []

abbrev in_block : FrameBudget
in_block = record (init default) {
  header = 0 ∷ 0 ∷ 3 ∷ 9 ∷ 4 ∷ 0 ∷ 0 ∷ 0 ∷ 1 ∷ [];
  payload = 9 ∷ [];
  frame_length = 3;
  frame_type = 9;
  frame_flags = 4;
  frame_stream = 1;
  preface_received = true;
  header_stream = some 1;
  header_bytes = 5;
  ready = client_preface ∷ headers ∷ [];
}

feed-block : feed (init default) block ≡ some (ok in_block)
unfolding feed text_equal
feed-block = refl

feed-Metered_example : Inv default in_block × Metered default 0 in_block
feed-Metered_example =
    feed-Metered default 0 (init default) in_block block (init-Inv default) (init-Metered default)
      feed-block

held-feed_example : held behind_settings ≡ held (init default) ++ opening
held-feed_example =
    held-feed default (init default) behind_settings opening (init-Inv default) feed-opening

feed-append_budget_example :
    feed (init default) (opening ++ 6 ∷ 0 ∷ []) ≡ feed behind_settings (6 ∷ 0 ∷ [])
feed-append_budget_example =
    feed-append_budget default (init default) behind_settings opening (6 ∷ 0 ∷ [])
      (init-Inv default) feed-opening
