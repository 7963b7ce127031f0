-- ===== src/WebSocket/FrameGuard/Safety.antt =====
-- What `_FrameGuard` lets through: every byte once and in order, and no payload beyond the limit.
use mathlib.Core.Option
use small_server.Prelude.{
  ℕ, zero, suc, ◌≤◌, ◌≡◌, refl, sym, ap, ◌∙◌, subst, Option, none, some, List, [], ◌∷◌, ◌++◌,
  append-nil, append_assoc, flatten, length, length-append, Result, ok, err, arith, Bool-cases, inl,
  inr, ltb, ltb→lt, ltb→le, lt→ltb,
}
use small_server.Prelude.Text.{Text}
use small_server.WebSocket.FrameGuard.{FrameGuard, GuardError, feed, full_length, check_header}
use small_server.WebSocket.FrameGuard.Bytewise.{
  Outcome, prefix, resume, run_bytes, absorb, settle, settle_at, admit, run_bytes-append,
}
use small_server.WebSocket.FrameGuard.Rounds.{
  IsValid, at_start, in_payload, in_header, advance-IsValid, absorb_header,
}
use small_server.WebSocket.FrameGuard.Chunking.{joined, feed-run_bytes_guard}

-- The state between two rounds, with a payload within the limit.
pub record Inv (max : ℕ) (g : FrameGuard) : Type 0 where
  pub limit : g.max_payload_bytes ≡ max
  pub bounded : g.payload_remaining ≤ max
  pub valid : IsValid g

-- Where the bytes `seen` got in, the bytes that came out and the header that is held back are them.
abbrev pub Keeps : ℕ → Text → Outcome → Type 0
Keeps max seen (ok out, g) = Inv max g × (out ++ g.header ≡ seen)
Keeps max seen (err e, g) = Unit

check_header-le : (max : ℕ) (header : Text) {n : ℕ} → check_header max header ≡ ok n → n ≤ max
unfolding check_header
check_header-le max header h = ground arith

two-le-full_length : (n : ℕ) → 2 ≤ full_length n
unfolding full_length
two-le-full_length n = ground arith

absorb_start :
    (x : ℕ) (g : FrameGuard)
    → g.payload_remaining ≡ 0
    → absorb g x ≡ settle (record g { header = g.header ++ x ∷ [] })
unfolding absorb
absorb_start x g p = ground arith

module _ (max : ℕ) where
  admit-Keeps :
      (g : FrameGuard) (r : Result GuardError ℕ)
      → g.max_payload_bytes ≡ max
      → ((n : ℕ) → r ≡ ok n → n ≤ max)
      → Keeps max g.header (admit g r)
  unfolding admit
  admit-Keeps g (err e) l h = tt
  admit-Keeps g (ok zero) l h = (
    record { limit = l; bounded = omega arith; valid = at_start refl refl (omega arith) },
    append-nil g.header,
  )
  admit-Keeps g (ok (suc n)) l h = (
    record { limit = l; bounded = h (suc n) refl; valid = in_payload (omega arith) refl },
    append-nil g.header,
  )

  settle_at-Keeps :
      (n : ℕ) (g : FrameGuard)
      → g.max_payload_bytes ≡ max
      → g.payload_remaining ≡ 0
      → g.header_length ≡ some n
      → 2 ≤ length g.header
      → Keeps max g.header (settle_at n g)
  unfolding settle_at
  settle_at-Keeps n g l p e two = elim (Bool-cases (ltb (length g.header) n)) [
    | inl more ↦ rw more (
      record { limit = l; bounded = omega arith; valid = in_header n p e two (ltb→lt _ _ more) },
      refl,
    )
    | inr last ↦
        rw last
          (admit-Keeps g _ l (λ m h. rw l at (check_header-le g.max_payload_bytes g.header h)))
  ]

  settle-Keeps :
      (g : FrameGuard)
      → g.max_payload_bytes ≡ max
      → g.payload_remaining ≡ 0
      → g.header_length ≡ none
      → Keeps max g.header (settle g)
  unfolding settle
  settle-Keeps g l p e = elim (Bool-cases (ltb (length g.header) 2)) [
    | inl short ↦
        rw short (
          record { limit = l; bounded = omega arith; valid = at_start p e (ltb→lt _ _ short) },
          refl,
        )
    | inr two ↦
        rw two (settle_at-Keeps _ (record g { header_length = some _ }) l p refl (ltb→le _ _ two))
  ]

  absorb-Keeps : (g : FrameGuard) (x : ℕ) → Inv max g → Keeps max (g.header ++ x ∷ []) (absorb g x)
  absorb-Keeps g x v = go v.valid
    where
      go : IsValid g → Keeps max (g.header ++ x ∷ []) (absorb g x)
      go (in_payload p e) =
          unfold absorb in
          rw (lt→ltb 0 _ p) (
            record {
              limit = v.limit;
              bounded = omega (arith, v.bounded);
              valid = advance-IsValid 1 g e;
            },
            rw e,
          )
      go (at_start p e l) =
          subst (Keeps max (g.header ++ x ∷ [])) (sym (absorb_start x g p))
            (settle-Keeps (record g { header = g.header ++ x ∷ [] }) v.limit p e)
      go (in_header n p e two short) =
          subst (Keeps max (g.header ++ x ∷ [])) (sym (absorb_header n x g p e two)) (
            settle_at-Keeps n (record g { header = g.header ++ x ∷ [] }) v.limit p e
              (omega (arith, length-append g.header (x ∷ []))))

  prefix-Keeps :
      (out a b : Text) (r : Outcome)
      → out ++ a ≡ b
      → (rest : Text) → Keeps max (a ++ rest) r
      → Keeps max (b ++ rest) (prefix out r)
  prefix-Keeps out a b (ok o, g) e rest h = (h.0, rw (append_assoc, h.1, ← append_assoc, e))
  prefix-Keeps out a b (err _, g) e rest h = tt

  run_bytes-Keeps :
      (bytes : Text) (g : FrameGuard)
      → Inv max g
      → Keeps max (g.header ++ bytes) (run_bytes g bytes)
  unfolding run_bytes
  run_bytes-Keeps [] g v = (v, sym (append-nil g.header))
  run_bytes-Keeps (x ∷ xs) g v =
      go (absorb g x) (absorb-Keeps g x v) (λ g' v'. run_bytes-Keeps xs g' v')
    where
      go :
          (r : Outcome)
          → Keeps max (g.header ++ x ∷ []) r
          → ((g' : FrameGuard) → Inv max g' → Keeps max (g'.header ++ xs) (run_bytes g' xs))
          → Keeps max (g.header ++ x ∷ xs) (resume r (λ g'. run_bytes g' xs))
      go (ok o, g') h ih =
          subst (λ t. Keeps max t (prefix o (run_bytes g' xs))) (append_assoc g.header (x ∷ []) xs)
            (prefix-Keeps o g'.header _ _ h.1 xs (ih g' h.0))
      go (err e, g') h ih = tt

-- What `feed` did where it raised nothing.
feed-joined :
    (g g' : FrameGuard) (bytes : Text) (chunks : List Text)
    → IsValid g
    → feed g bytes ≡ some (ok chunks, g')
    → run_bytes g bytes ≡ (ok (flatten chunks), g')
feed-joined g g' bytes chunks v h =
    let e : some (run_bytes g bytes) ≡ some (joined (ok chunks, g')) =
      sym (feed-run_bytes_guard g bytes v) ∙ ap (Option.map joined) h in
    cc

-- From a guard in order and within its limit, where `feed` raises nothing it leaves the guard in
-- order and the payload that is still to come within the limit.
pub feed-Inv_guard :
    (max : ℕ) (g g' : FrameGuard) (bytes : Text) (chunks : List Text)
    → Inv max g
    → feed g bytes ≡ some (ok chunks, g')
    → Inv max g'
feed-Inv_guard max g g' bytes chunks v h =
    (subst (Keeps max (g.header ++ bytes)) (feed-joined g g' bytes chunks v.valid h)
      (run_bytes-Keeps max bytes g v)).0

-- From a guard in order, where `feed` raises nothing no byte is lost, added or moved: the chunks
-- and then the header that is held back are the header that was held back before and then the
-- input.
pub feed_transparent :
    (max : ℕ) (g g' : FrameGuard) (bytes : Text) (chunks : List Text)
    → Inv max g
    → feed g bytes ≡ some (ok chunks, g')
    → flatten chunks ++ g'.header ≡ g.header ++ bytes
feed_transparent max g g' bytes chunks v h =
    (subst (Keeps max (g.header ++ bytes)) (feed-joined g g' bytes chunks v.valid h)
      (run_bytes-Keeps max bytes g v)).1

-- What one call of `feed` hands out: its chunks run together, or nothing where it raises; and the error.
abbrev pub Handed : Type 0
Handed = Text × Option GuardError × FrameGuard

abbrev pub handed : Result GuardError (List Text) × FrameGuard → Handed
handed (ok chunks, g) = (flatten chunks, none, g)
handed (err e, g) = ([], some e, g)

-- What two calls hand out between them, where the first has handed out `out`.
abbrev pub behind : Text → Handed → Handed
behind out (more, e, g) = (out ++ more, e, g)

-- An error withholds what the same call would have handed out.
abbrev pub withheld : Handed → Handed
withheld (out, none, g) = (out, none, g)
withheld (out, some e, g) = ([], some e, g)

abbrev of_outcome : Outcome → Handed
of_outcome (ok out, g) = (out, none, g)
of_outcome (err e, g) = ([], some e, g)

append_joined :
    (max : ℕ) (g g' : FrameGuard) (a b : Text) (chunks : List Text)
    → Inv max g
    → feed g a ≡ some (ok chunks, g')
    → Option.map joined (feed g (a ++ b))
      ≡ Option.map (λ r. prefix (flatten chunks) (joined r)) (feed g' b)
append_joined max g g' a b chunks v h =
    feed-run_bytes_guard g (a ++ b) v.valid
    ∙ ap some (
        run_bytes-append g a b
        ∙ ap (λ r. resume r (λ k. run_bytes k b)) (feed-joined g g' a chunks v.valid h))
    ∙ sym (
        map_map (feed g' b)
        ∙ ap (Option.map (prefix (flatten chunks)))
            (feed-run_bytes_guard g' b (feed-Inv_guard max g g' a chunks v h).valid))
  where
    map_map :
        (o : Option (Result GuardError (List Text) × FrameGuard))
        → Option.map (λ r. prefix (flatten chunks) (joined r)) o
          ≡ Option.map (prefix (flatten chunks)) (Option.map joined o)
    map_map none = refl
    map_map (some r) = refl

-- From a guard in order, where the first of two reads raises nothing: one read of both raises the
-- error that the second raises, if any, and leaves the same state. Where the second raises nothing
-- either, it hands out the bytes of both; where the second raises, it hands out nothing, although the
-- two have then handed out the bytes of the first.
pub feed-append_guard :
    (max : ℕ) (g g' : FrameGuard) (a b : Text) (chunks : List Text)
    → Inv max g
    → feed g a ≡ some (ok chunks, g')
    → Option.map handed (feed g (a ++ b))
      ≡ Option.map (λ r. withheld (behind (flatten chunks) (handed r))) (feed g' b)
feed-append_guard max g g' a b chunks v h =
    one (feed g (a ++ b))
    ∙ ap (Option.map of_outcome) (append_joined max g g' a b chunks v h)
    ∙ two (feed g' b)
  where
    one :
        (o : Option (Result GuardError (List Text) × FrameGuard))
        → Option.map handed o ≡ Option.map of_outcome (Option.map joined o)
    one none = refl
    one (some (ok out, k)) = refl
    one (some (err e, k)) = refl

    two :
        (o : Option (Result GuardError (List Text) × FrameGuard))
        → Option.map of_outcome (Option.map (λ r. prefix (flatten chunks) (joined r)) o)
          ≡ Option.map (λ r. withheld (behind (flatten chunks) (handed r))) o
    two none = refl
    two (some (ok out, k)) = refl
    two (some (err e, k)) = refl
