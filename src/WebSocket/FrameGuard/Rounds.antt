-- ===== src/WebSocket/FrameGuard/Rounds.antt =====
-- Each round of the loop of `_FrameGuard.feed` does what the bytewise guard does with the bytes
-- that the round takes.
use small_server.Prelude.{
  ℕ, zero, suc, ◌+◌, ◌-◌, ◌≤◌, ◌<◌, ◌≡◌, refl, sym, ap, subst, ◌∙◌, none, some, [], ◌∷◌, ◌++◌,
  append-nil, append_assoc, flatten, ltb, lt→ltb, ltb→lt, ltb→le, Bool-cases, false, length-take,
  ◌==◌, length, length-append, length-drop, take, drop, Result, ok, err, arith, min, inl, inr,
}
use small_server.Prelude.Text.{Text}
use small_server.WebSocket.FrameGuard.{
  FrameGuard, GuardError, full_length, check_header, Round, raise, continue, announce, forward,
  fill_header, start_header, round,
}
use small_server.WebSocket.FrameGuard.Bytewise.{
  Outcome, prefix, resume, admit, settle_at, settle, advance, absorb, run_bytes, prefix-nil,
  prefix-append,
}

-- The states between two rounds: in a payload, in the first two header bytes, or behind them.
pub data IsValid (g : FrameGuard) : Type 0 where
  in_payload : 0 < g.payload_remaining → g.header ≡ [] → IsValid g
  at_start : g.payload_remaining ≡ 0 → g.header_length ≡ none → length g.header < 2 → IsValid g
  in_header :
      (n : ℕ)
      → g.payload_remaining ≡ 0
      → g.header_length ≡ some n
      → 2 ≤ length g.header
      → length g.header < n
      → IsValid g

forward_bytes :
    (n x : ℕ) (xs : Text) (g : FrameGuard)
    → n < g.payload_remaining
    → n ≤ length xs
    → run_bytes g (x ∷ xs) ≡ prefix (x ∷ take n xs) (run_bytes (advance g (suc n)) (drop n xs))
unfolding run_bytes absorb
forward_bytes zero x xs g h l = rw (lt→ltb 0 g.payload_remaining h)
forward_bytes (suc n) x [] g h l = absurd (omega arith)
forward_bytes (suc n) x (y ∷ xs) g h l = rw (lt→ltb 0 g.payload_remaining (omega arith)) (
    ap (prefix (x ∷ [])) (
      forward_bytes n y xs (advance g 1) (omega arith) (omega arith)
      ∙ ap (λ k. prefix (y ∷ take n xs) (run_bytes k (drop n xs))) advance_twice)
    ∙ sym (prefix-append (x ∷ []) (y ∷ take n xs) _))
  where
    advance_twice : advance (advance g 1) (suc n) ≡ advance g (suc (suc n))
    advance_twice = ground arith

pub absorb_header :
    (n x : ℕ) (g : FrameGuard)
    → g.payload_remaining ≡ 0
    → g.header_length ≡ some n
    → 2 ≤ length g.header
    → absorb g x ≡ settle_at n (record g { header = g.header ++ x ∷ [] })
unfolding absorb settle
absorb_header n x g p e two = ground (arith, length-append g.header (x ∷ []))

ltb_refuses : (a b : ℕ) → b ≤ a → ltb a b ≡ false
ltb_refuses a b h = ground arith

fill_one :
    (n x : ℕ) (xs : Text) (g : FrameGuard)
    → g.payload_remaining ≡ 0
    → g.header_length ≡ some n
    → 2 ≤ length g.header
    → length g.header + 1 < n
    → run_bytes g (x ∷ xs) ≡ run_bytes (record g { header = g.header ++ x ∷ [] }) xs
unfolding run_bytes
fill_one n x xs g p e two h = rw (absorb_header n x g p e two) (
    unfold settle_at in
    rw (lt→ltb (length (g.header ++ x ∷ [])) n (omega (arith, length-append g.header (x ∷ []))))
      (prefix-nil _))

fill_bytes :
    (m n : ℕ) (bytes : Text) (g : FrameGuard)
    → g.payload_remaining ≡ 0
    → g.header_length ≡ some n
    → 2 ≤ length g.header
    → m ≤ length bytes
    → length g.header + m < n
    → run_bytes g bytes ≡ run_bytes (record g { header = g.header ++ take m bytes }) (drop m bytes)
fill_bytes zero n bytes g p e two l h = rw append-nil
fill_bytes (suc m) n [] g p e two l h = absurd (omega arith)
fill_bytes (suc m) n (x ∷ xs) g p e two l h =
    fill_one n x xs g p e two (omega arith)
    ∙ fill_bytes m n xs (record g { header = g.header ++ x ∷ [] }) p e
        (omega (arith, length-append g.header (x ∷ []))) (omega arith)
        (omega (arith, length-append g.header (x ∷ [])))
    ∙ rw append_assoc

fill_last :
    (m n : ℕ) (bytes : Text) (g : FrameGuard)
    → g.payload_remaining ≡ 0
    → g.header_length ≡ some n
    → 2 ≤ length g.header
    → 0 < m
    → m ≤ length bytes
    → length g.header + m ≡ n
    → run_bytes g bytes
      ≡ resume
          (admit
            (record g { header = g.header ++ take m bytes })
            (check_header g.max_payload_bytes (g.header ++ take m bytes)))
          (λ k. run_bytes k (drop m bytes))
fill_last zero n bytes g p e two pos l h = absurd (omega arith)
fill_last (suc m) n [] g p e two pos l h = absurd (omega arith)
fill_last (suc zero) n (x ∷ xs) g p e two pos l h =
    unfold run_bytes in
    rw (absorb_header n x g p e two) (
      unfold settle_at in
      rw (
        ltb_refuses (length (g.header ++ x ∷ [])) n
          (omega (arith, length-append g.header (x ∷ [])))))
fill_last (suc (suc m)) n (x ∷ xs) g p e two pos l h =
    fill_one n x xs g p e two (omega arith)
    ∙ fill_last (suc m) n xs (record g { header = g.header ++ x ∷ [] }) p e
        (omega (arith, length-append g.header (x ∷ []))) (omega arith) (omega arith)
        (omega (arith, length-append g.header (x ∷ [])))
    ∙ rw append_assoc

-- What the bytewise guard makes of the state, the input and the chunk that a round leaves.
abbrev pub after_round : Round → Outcome
after_round (raise e g) = (err e, g)
after_round (continue g rest new) = prefix (flatten new) (run_bytes g rest)

-- A round that goes on leaves a state between rounds, and less than `k` bytes.
abbrev pub Progress : ℕ → Round → Type 0
Progress k (raise e g) = Unit
Progress k (continue g rest new) = IsValid g × (length rest < k)

after-announce :
    (g : FrameGuard) (rest : Text) (r : Result GuardError ℕ)
    → after_round (announce g rest r) ≡ resume (admit g r) (λ k. run_bytes k rest)
unfolding announce admit
after-announce g rest (err e) = refl
after-announce g rest (ok n) = rw append-nil

announce-Progress :
    (k : ℕ) (g : FrameGuard) (rest : Text) (r : Result GuardError ℕ)
    → length rest < k
    → Progress k (announce g rest r)
unfolding announce
announce-Progress k g rest (err e) h = tt
announce-Progress k g rest (ok zero) h = (at_start refl refl (omega arith), h)
announce-Progress k g rest (ok (suc n)) h = (in_payload (omega arith) refl, h)

module _ (n : ℕ) (g : FrameGuard) (rest : Text) (p : g.payload_remaining ≡ 0)
    (e : g.header_length ≡ some n) (two : 2 ≤ length g.header) (short : length g.header < n) where
  abbrev count : ℕ
  count = min (n - length g.header) (length rest)

  length_filled : length (g.header ++ take count rest) ≡ length g.header + count
  length_filled = omega (arith, length-append g.header (take count rest), length-take count rest)

  after-fill_header : after_round (fill_header n g rest) ≡ run_bytes g rest
  unfolding fill_header
  after-fill_header = elim (Bool-cases (ltb (length (g.header ++ take count rest)) n)) [
    | inl more ↦ rw more (
        prefix-nil _
        ∙ sym (
            fill_bytes count n rest g p e two (omega arith)
              (omega (arith, ltb→lt _ _ more, length_filled))))
    | inr last ↦ rw last (
        after-announce _ (drop count rest) _
        ∙ sym (
            fill_last count n rest g p e two (omega (arith, ltb→le _ _ last, length_filled))
              (omega arith) (omega (arith, ltb→le _ _ last, length_filled))))
  ]

  fill_header-Progress : (k : ℕ) → length rest - count < k → Progress k (fill_header n g rest)
  unfolding fill_header
  fill_header-Progress k h = elim (Bool-cases (ltb (length (g.header ++ take count rest)) n)) [
    | inl more ↦ rw more (
      in_header n p e (omega (arith, length_filled)) (ltb→lt _ _ more),
      omega (arith, length-drop count rest),
    )
    | inr last ↦ rw last (announce-Progress k _ _ _ (omega (arith, length-drop count rest)))
  ]

forward_round :
    (k x : ℕ) (xs : Text) (g : FrameGuard)
    → k < g.payload_remaining
    → k ≤ length xs
    → prefix (flatten (take (suc k) (x ∷ xs) ∷ [])) (run_bytes (advance g (suc k)) (drop k xs))
      ≡ run_bytes g (x ∷ xs)
forward_round k x xs g h l = rw append-nil (sym (forward_bytes k x xs g h l))

after-forward :
    (x : ℕ) (xs : Text) (g : FrameGuard)
    → 0 < g.payload_remaining
    → after_round (forward g (x ∷ xs)) ≡ run_bytes g (x ∷ xs)
unfolding forward
after-forward x xs g h =
    rw (min-suc g.payload_remaining (length xs) h)
      (forward_round (min (g.payload_remaining - 1) (length xs)) x xs g (omega arith) (omega arith))
  where
    min-suc : (a b : ℕ) → 0 < a → min a (suc b) ≡ suc (min (a - 1) b)
    min-suc a b h = omega arith

pub advance-IsValid : (n : ℕ) (g : FrameGuard) → g.header ≡ [] → IsValid (advance g n)
advance-IsValid n g e = elim (Bool-cases ((g.payload_remaining - n) == 0)) [
  | inl done ↦ rw done (at_start (ground arith) refl (rw e (omega arith)))
  | inr more ↦ rw more (in_payload (ground arith) e)
]

forward-Progress :
    (x : ℕ) (xs : Text) (g : FrameGuard)
    → 0 < g.payload_remaining
    → g.header ≡ []
    → Progress (suc (length xs)) (forward g (x ∷ xs))
unfolding forward
forward-Progress x xs g h e =
    let count = min g.payload_remaining (suc (length xs)) in
    (advance-IsValid count g e, omega (arith, length-drop count (x ∷ xs)))

min_one : (n : ℕ) → min 1 (suc n) ≡ 1
min_one n = omega arith

min_two : (n : ℕ) → min 2 (suc (suc n)) ≡ 2
min_two n = omega arith

module _ (max : ℕ) where
  -- The state with these header bytes, before the full length is known.
  abbrev started : Text → FrameGuard
  started header = record {
    max_payload_bytes = max;
    header = header;
    header_length = none;
    payload_remaining = 0;
  }

  abbrev known : ℕ → ℕ → FrameGuard
  known h x = record (started (h ∷ x ∷ [])) { header_length = some (full_length x) }

  fill_complete :
      (h x : ℕ) (xs : Text)
      → ltb 2 (full_length x) ≡ false
      → fill_header (full_length x) (known h x) xs
        ≡ announce (known h x) xs (check_header max (h ∷ x ∷ []))
  unfolding fill_header
  fill_complete h x xs last =
      rw (none_needed (full_length x) (length xs) (ltb→le _ _ last)) (rw last)
    where
      none_needed : (a b : ℕ) → a ≤ 2 → min (a - 2) b ≡ 0
      none_needed a b h = omega arith

  after-second :
      (h x : ℕ) (xs : Text)
      → after_round (fill_header (full_length x) (known h x) xs)
        ≡ run_bytes (started (h ∷ [])) (x ∷ xs)
  after-second h x xs = elim (Bool-cases (ltb 2 (full_length x))) [
    | inl more ↦
        after-fill_header _ _ xs refl refl (omega arith) (ltb→lt _ _ more)
        ∙ (unfold run_bytes absorb settle settle_at in rw more (sym (prefix-nil _)))
    | inr last ↦
        rw (fill_complete h x xs last)
          (after-announce _ xs _ ∙ (unfold run_bytes absorb settle settle_at in rw last))
  ]

  known-Progress :
      (h x : ℕ) (xs : Text) (k : ℕ)
      → length xs < k
      → Progress k (fill_header (full_length x) (known h x) xs)
  known-Progress h x xs k l = elim (Bool-cases (ltb 2 (full_length x))) [
    | inl more ↦
        fill_header-Progress _ (known h x) xs refl refl (omega arith) (ltb→lt _ _ more) k
          (omega arith)
    | inr last ↦ rw (fill_complete h x xs last) (announce-Progress k _ xs _ l)
  ]

  first_byte :
      (x : ℕ) (xs : Text) → run_bytes (started []) (x ∷ xs) ≡ run_bytes (started (x ∷ [])) xs
  unfolding run_bytes absorb settle
  first_byte x xs = prefix-nil _

  after-start :
      (header : Text) (x : ℕ) (xs : Text)
      → length header < 2
      → after_round (start_header (started header) (x ∷ xs)) ≡ run_bytes (started header) (x ∷ xs)
  unfolding start_header
  after-start [] x [] h = prefix-nil _ ∙ sym (first_byte x [])
  after-start [] x (y ∷ xs) h =
      rw (min_two (length xs)) (after-second x y xs ∙ sym (first_byte x (y ∷ xs)))
  after-start (b ∷ []) x xs h = rw (min_one (length xs)) (after-second b x xs)
  after-start (b ∷ c ∷ header) x xs h = absurd (omega arith)

  start-Progress :
      (header : Text) (x : ℕ) (xs : Text)
      → length header < 2
      → Progress (suc (length xs)) (start_header (started header) (x ∷ xs))
  unfolding start_header
  start-Progress [] x [] h = (at_start refl refl (omega arith), omega arith)
  start-Progress [] x (y ∷ xs) h =
      rw (min_two (length xs)) (known-Progress x y xs (suc (suc (length xs))) (omega arith))
  start-Progress (b ∷ []) x xs h =
      rw (min_one (length xs)) (known-Progress b x xs (suc (length xs)) (omega arith))
  start-Progress (b ∷ c ∷ header) x xs h = absurd (omega arith)

started_of :
    (g : FrameGuard)
    → g.payload_remaining ≡ 0
    → g.header_length ≡ none
    → started g.max_payload_bytes g.header ≡ g
started_of g p e = ground arith

module _ (g : FrameGuard) (rest : Text) where
  round_payload : 0 < g.payload_remaining → round g rest ≡ forward g rest
  unfolding round
  round_payload p = ground arith

  round_start :
      g.payload_remaining ≡ 0 → g.header_length ≡ none → round g rest ≡ start_header g rest
  unfolding round
  round_start p e = ground arith

  round_header :
      (n : ℕ)
      → g.payload_remaining ≡ 0
      → g.header_length ≡ some n
      → round g rest ≡ fill_header n g rest
  unfolding round
  round_header n p e = ground arith

-- A round takes the bytes that it takes as the bytewise guard takes them.
pub after_round_lem :
    (g : FrameGuard) (x : ℕ) (xs : Text)
    → IsValid g
    → after_round (round g (x ∷ xs)) ≡ run_bytes g (x ∷ xs)
after_round_lem g x xs (in_payload p e) =
    ap after_round (round_payload g (x ∷ xs) p) ∙ after-forward x xs g p
after_round_lem g x xs (at_start p e l) =
    ap after_round (round_start g (x ∷ xs) p e)
    ∙ subst (λ k. after_round (start_header k (x ∷ xs)) ≡ run_bytes k (x ∷ xs)) (started_of g p e)
        (after-start _ g.header x xs l)
after_round_lem g x xs (in_header n p e two short) =
    ap after_round (round_header g (x ∷ xs) n p e) ∙ after-fill_header n g (x ∷ xs) p e two short

pub round-Progress :
    (g : FrameGuard) (x : ℕ) (xs : Text) → IsValid g → Progress (suc (length xs)) (round g (x ∷ xs))
round-Progress g x xs (in_payload p e) =
    rw (round_payload g (x ∷ xs) p) (forward-Progress x xs g p e)
round-Progress g x xs (at_start p e l) = rw (round_start g (x ∷ xs) p e) (
    subst (λ k. Progress (suc (length xs)) (start_header k (x ∷ xs))) (started_of g p e)
      (start-Progress _ g.header x xs l))
round-Progress g x xs (in_header n p e two short) =
    rw (round_header g (x ∷ xs) n p e)
      (fill_header-Progress n g (x ∷ xs) p e two short _ (omega arith))
