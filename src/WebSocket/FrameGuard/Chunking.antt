-- ===== src/WebSocket/FrameGuard/Chunking.antt =====
-- `_FrameGuard.feed` as a whole: it ends, it does what the bytewise guard does, and it does not
-- matter how the bytes of a connection are cut into reads.
use mathlib.Core.Option
use small_server.Prelude.{
  ℕ, zero, suc, ◌≤◌, ◌≡◌, refl, ap, ◌∙◌, some, List, [], ◌∷◌, ◌++◌, append-nil, flatten,
  flatten-append, length, Result, ok, err, arith,
}
use small_server.Prelude.Text.{Text}
use small_server.WebSocket.FrameGuard.{
  FrameGuard, GuardError, Round, raise, continue, round, proceed, feed_loop, feed,
}
use small_server.WebSocket.FrameGuard.Bytewise.{
  Outcome, prefix, run_bytes, prefix-nil, prefix-append,
}
use small_server.WebSocket.FrameGuard.Rounds.{
  IsValid, after_round, Progress, after_round_lem, round-Progress,
}

-- The chunks run together: what the protocol engine receives.
abbrev pub joined : Result GuardError (List Text) × FrameGuard → Outcome
joined (ok chunks, g) = (ok (flatten chunks), g)
joined (err e, g) = (err e, g)

after_loop :
    (fuel k : ℕ) (r : Round) (chunks : List Text)
    → ((g : FrameGuard) (rest : Text) (out : List Text)
        → IsValid g
        → length rest ≤ fuel
        → Option.map joined (feed_loop fuel g rest out)
          ≡ some (prefix (flatten out) (run_bytes g rest)))
    → k ≤ suc fuel
    → Progress k r
    → Option.map joined (proceed (feed_loop fuel) chunks r)
      ≡ some (prefix (flatten chunks) (after_round r))
unfolding proceed
after_loop fuel k (raise e g) chunks ih l h = refl
after_loop fuel k (continue g rest new) chunks ih l h =
    ih g rest (chunks ++ new) h.0 (omega arith) ∙ ap some (rw (flatten-append, prefix-append))

feed_loop-run_bytes :
    (fuel : ℕ) (g : FrameGuard) (rest : Text) (chunks : List Text)
    → IsValid g
    → length rest ≤ fuel
    → Option.map joined (feed_loop fuel g rest chunks)
      ≡ some (prefix (flatten chunks) (run_bytes g rest))
unfolding feed_loop run_bytes
feed_loop-run_bytes fuel g [] chunks v h = rw append-nil
feed_loop-run_bytes zero g (x ∷ xs) chunks v h = absurd (omega arith)
feed_loop-run_bytes (suc fuel) g (x ∷ xs) chunks v h =
    after_loop fuel _ (round g (x ∷ xs)) chunks (feed_loop-run_bytes fuel) (omega arith)
      (round-Progress g x xs v)
    ∙ ap (λ r. some (prefix (flatten chunks) r)) (after_round_lem g x xs v)

-- From every state between rounds `feed` ends, and its chunks run together, its error and the state
-- that it leaves are those of the bytewise guard.
pub feed-run_bytes_guard :
    (g : FrameGuard) (bytes : Text)
    → IsValid g
    → Option.map joined (feed g bytes) ≡ some (run_bytes g bytes)
unfolding feed
feed-run_bytes_guard g bytes v =
    feed_loop-run_bytes (length bytes) g bytes [] v (omega arith) ∙ ap some (prefix-nil _)
