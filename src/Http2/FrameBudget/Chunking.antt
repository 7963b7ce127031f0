-- ===== src/Http2/FrameBudget/Chunking.antt =====
-- `_FrameBudget.feed` as a whole: it ends, it does what the bytewise budget does, and it does not
-- matter how the bytes of a connection are cut into reads.
use small_server.Prelude.{
  ℕ, zero, suc, ◌-◌, ◌≤◌, ◌<◌, ◌≡◌, refl, sym, ap, ◌∙◌, true, false, not, inl, inr, [], ◌∷◌, ◌++◌,
  append-nil, ltb, lt→ltb, ltb→lt, if◌then◌else◌, Bool-cases, length, length-append, length-take,
  take, drop, drop_all, min, ok, err, some, Option, arith,
}
use small_server.Prelude.Text.{Text}
use small_server.Http2.FrameBudget.{
  FrameBudget, Round, raise, stop, continue, invalid_preface, round, proceed, feed_frames,
  end_preface, feed_preface, feed,
}
use small_server.Http2.FrameBudget.Bytewise.{Outcome, run_bytes}
use small_server.Http2.FrameBudget.Preface.{matches, at_once, add_preface, preface_bytes}
use small_server.Http2.FrameBudget.Rounds.{
  InFrame, in_header, after_round, Progress, after_round_lem, round-Progress,
}

-- The states between two calls of `feed`: in the client preface, or in a frame.
pub data IsValid (b : FrameBudget) : Type 0 where
  in_preface :
      b.preface_received ≡ false
      → length b.preface < 24
      → matches b.preface ≡ true
      → b.header ≡ []
      → b.payload ≡ []
      → IsValid b
  in_frames : b.preface_received ≡ true → InFrame b → IsValid b

after_proceed :
    (fuel k : ℕ) (r : Round)
    → ((b : FrameBudget) (rest : Text)
        → b.preface_received ≡ true
        → InFrame b
        → length rest ≤ fuel
        → feed_frames fuel b rest ≡ some (run_bytes b rest))
    → k ≤ suc fuel
    → Progress k r
    → proceed (feed_frames fuel) r ≡ some (after_round r)
unfolding proceed
after_proceed fuel k (raise e) ih l h = refl
after_proceed fuel k (stop b) ih l h = refl
after_proceed fuel k (continue b rest) ih l h = ih b rest h.0 h.1 (omega arith)

feed_frames-run_bytes :
    (fuel : ℕ) (b : FrameBudget) (rest : Text)
    → b.preface_received ≡ true
    → InFrame b
    → length rest ≤ fuel
    → feed_frames fuel b rest ≡ some (run_bytes b rest)
unfolding feed_frames run_bytes
feed_frames-run_bytes fuel b [] r v h = refl
feed_frames-run_bytes zero b (x ∷ xs) r v h = absurd (omega arith)
feed_frames-run_bytes (suc fuel) b (x ∷ xs) r v h =
    after_proceed fuel _ (round b (x ∷ xs)) (feed_frames-run_bytes fuel) (omega arith)
      (round-Progress b x xs r v)
    ∙ ap some (after_round_lem b (x ∷ xs) r v)

-- What `feed` does with the preface, once it is known how many bytes it takes.
abbrev decided : FrameBudget → Text → Option Outcome
decided b rest =
    if not (matches b.preface)
    then some (err invalid_preface)
    else if ltb (length b.preface) 24
    then some (ok b)
    else feed_frames (length rest) (end_preface b) rest

framed :
    (b : FrameBudget) (rest : Text)
    → b.header ≡ []
    → b.payload ≡ []
    → feed_frames (length rest) (end_preface b) rest ≡ some (run_bytes (end_preface b) rest)
unfolding end_preface
framed b rest e p =
    feed_frames-run_bytes (length rest) _ rest refl (in_header (omega (arith, ap length e)) p)
      (omega arith)

decided-at_once :
    (b : FrameBudget) (rest : Text)
    → b.header ≡ []
    → b.payload ≡ []
    → (length b.preface < 24 → rest ≡ [])
    → decided b rest ≡ some (at_once b rest)
unfolding run_bytes
decided-at_once b rest e p h = elim (Bool-cases (matches b.preface)) [
  | inr bad ↦ rw bad
  | inl good ↦ rw good (elim (Bool-cases (ltb (length b.preface) 24)) [
    | inl more ↦ rw more (rw (h (ltb→lt _ _ more)))
    | inr last ↦ rw last (framed b rest e p)
  ])
]

min-suc : (a b : ℕ) → 0 < a → min a (suc b) ≡ suc (min (a - 1) b)
min-suc a b h = omega arith

min_zero : (a : ℕ) → min a 0 ≡ 0
min_zero a = omega arith

feed_preface-run_bytes :
    (b : FrameBudget) (bytes : Text)
    → b.preface_received ≡ false
    → length b.preface < 24
    → matches b.preface ≡ true
    → b.header ≡ []
    → b.payload ≡ []
    → feed_preface b bytes ≡ some (run_bytes b bytes)
unfolding feed_preface
feed_preface-run_bytes b [] r l m e p =
    rw (min_zero (24 - length b.preface), append-nil, m, lt→ltb (length b.preface) 24 l)
      (unfold run_bytes in refl)
feed_preface-run_bytes b (x ∷ xs) r l m e p =
    rw (min-suc (24 - length b.preface) (length xs) (omega arith)) (
      decided-at_once (add_preface b (take (suc count) (x ∷ xs))) (drop count xs) e p exhausted
      ∙ ap some (sym (preface_bytes count (x ∷ xs) b r (omega arith) (omega arith))))
  where
    count : ℕ
    count = min (24 - length b.preface - 1) (length xs)

    exhausted : length (b.preface ++ take (suc count) (x ∷ xs)) < 24 → drop count xs ≡ []
    exhausted h =
        drop_all count xs
          (omega (arith, length-append b.preface (take (suc count) (x ∷ xs)), length-take count xs))

feed_before :
    (b : FrameBudget) (bytes : Text)
    → b.preface_received ≡ false
    → feed b bytes ≡ feed_preface b bytes
unfolding feed
feed_before b bytes h = ground arith

feed_behind :
    (b : FrameBudget) (bytes : Text)
    → b.preface_received ≡ true
    → feed b bytes ≡ feed_frames (length bytes) b bytes
unfolding feed
feed_behind b bytes h = ground arith

-- From every state between calls `feed` ends, with the error or in the state of the bytewise budget.
pub feed-run_bytes_budget :
    (b : FrameBudget) (bytes : Text) → IsValid b → feed b bytes ≡ some (run_bytes b bytes)
feed-run_bytes_budget b bytes (in_preface r l m e p) =
    feed_before b bytes r ∙ feed_preface-run_bytes b bytes r l m e p
feed-run_bytes_budget b bytes (in_frames r v) =
    feed_behind b bytes r ∙ feed_frames-run_bytes (length bytes) b bytes r v (omega arith)
