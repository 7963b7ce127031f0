-- ===== src/Http2/FrameBudget/Rounds.antt =====
-- Each round of the loop of `_FrameBudget.feed` does what the bytewise budget does with the bytes
-- that the round takes.
use small_server.Prelude.{
  ℕ, zero, suc, ◌+◌, ◌-◌, ◌≤◌, ◌<◌, ◌≡◌, refl, sym, ap, ◌∙◌, Bool, true, false, inl, inr, [], ◌∷◌,
  ◌++◌, append-nil, append_assoc, ltb, lt→ltb, ltb→lt, ltb→le, ◌==◌, ==_iff, Bool-cases, length,
  length-append, length-take, length-drop, drop_all, take, drop, min, ok, err, ◌>>=◌, arith,
}
use small_server.Prelude.Text.{Text}
use small_server.Http2.FrameBudget.{
  FrameBudget, Round, raise, stop, continue, start_frame, finish_frame, take_payload, after_start,
  take_header, round,
}
use small_server.Http2.FrameBudget.Bytewise.{
  Outcome, close_empty, settle_header, settle_payload, absorb, run_bytes,
}

-- The states between two rounds: in a frame's header, or in its payload.
pub data InFrame (b : FrameBudget) : Type 0 where
  in_header : length b.header < 9 → b.payload ≡ [] → InFrame b
  in_payload : length b.header ≡ 9 → length b.payload < b.frame_length → InFrame b

abbrev pub after_round : Round → Outcome
after_round (raise e) = err e
after_round (stop b) = ok b
after_round (continue b rest) = run_bytes b rest

-- A round that goes on leaves a state between rounds, and less than `k` bytes.
abbrev pub Progress : ℕ → Round → Type 0
Progress k (raise e) = Unit
Progress k (stop b) = Unit
Progress k (continue b rest) = (b.preface_received ≡ true) × InFrame b × (length rest < k)

module _ (b : FrameBudget) (received : b.preface_received ≡ true) where
  pub absorb_header :
      (x : ℕ)
      → length b.header < 9
      → absorb b x ≡ settle_header (record b { header = b.header ++ x ∷ [] })
  unfolding absorb
  absorb_header x h = ground arith

  pub absorb_payload :
      (x : ℕ)
      → length b.header ≡ 9
      → absorb b x ≡ settle_payload (record b { payload = b.payload ++ x ∷ [] })
  unfolding absorb
  absorb_payload x h = ground arith

abbrev add_header : FrameBudget → Text → FrameBudget
add_header b xs = record b { header = b.header ++ xs }

abbrev add_payload : FrameBudget → Text → FrameBudget
add_payload b xs = record b { payload = b.payload ++ xs }

pub length_concat : (xs : Text) (x : ℕ) → length (xs ++ x ∷ []) ≡ length xs + 1
length_concat xs x = omega (arith, length-append xs (x ∷ []))

ltb_refuses : (a b : ℕ) → b ≤ a → ltb a b ≡ false
ltb_refuses a b h = ground arith

eq_refuses : (a b : ℕ) → a < b → (a == b) ≡ false
eq_refuses a b h = ground arith

eq_holds : (a b : ℕ) → a ≡ b → (a == b) ≡ true
eq_holds a b h = ground arith

header_bytes :
    (m : ℕ) (bytes : Text) (b : FrameBudget)
    → b.preface_received ≡ true
    → m ≤ length bytes
    → length b.header + m < 9
    → run_bytes b bytes ≡ run_bytes (add_header b (take m bytes)) (drop m bytes)
header_bytes zero bytes b r l h = rw append-nil
header_bytes (suc m) [] b r l h = absurd (omega arith)
header_bytes (suc m) (x ∷ xs) b r l h =
    one
    ∙ header_bytes m xs (add_header b (x ∷ [])) r (omega arith)
        (omega (arith, length_concat b.header x))
    ∙ rw append_assoc
  where
    one : run_bytes b (x ∷ xs) ≡ run_bytes (add_header b (x ∷ [])) xs
    one =
        unfold run_bytes in
        rw (absorb_header b r x (omega arith)) (
          unfold settle_header in
          rw (lt→ltb (length (b.header ++ x ∷ [])) 9 (omega (arith, length_concat b.header x))))

abbrev opened : FrameBudget → Text → Outcome
opened b rest = (start_frame b >>= (λ b'. ok (close_empty b'))) >>= (λ b'. run_bytes b' rest)

header_last :
    (m : ℕ) (bytes : Text) (b : FrameBudget)
    → b.preface_received ≡ true
    → 0 < m
    → m ≤ length bytes
    → length b.header + m ≡ 9
    → run_bytes b bytes ≡ opened (add_header b (take m bytes)) (drop m bytes)
header_last zero bytes b r p l h = absurd (omega arith)
header_last (suc m) [] b r p l h = absurd (omega arith)
header_last (suc zero) (x ∷ xs) b r p l h =
    unfold run_bytes in
    rw (absorb_header b r x (omega arith)) (
      unfold settle_header in
      rw (ltb_refuses (length (b.header ++ x ∷ [])) 9 (omega (arith, length_concat b.header x))))
header_last (suc (suc m)) (x ∷ xs) b r p l h =
    header_bytes 1 (x ∷ xs) b r (omega arith) (omega arith)
    ∙ header_last (suc m) xs (add_header b (x ∷ [])) r (omega arith) (omega arith)
        (omega (arith, length_concat b.header x))
    ∙ rw append_assoc

payload_bytes :
    (m : ℕ) (bytes : Text) (b : FrameBudget)
    → b.preface_received ≡ true
    → length b.header ≡ 9
    → m ≤ length bytes
    → length b.payload + m < b.frame_length
    → run_bytes b bytes ≡ run_bytes (add_payload b (take m bytes)) (drop m bytes)
payload_bytes zero bytes b r e l h = rw append-nil
payload_bytes (suc m) [] b r e l h = absurd (omega arith)
payload_bytes (suc m) (x ∷ xs) b r e l h =
    one
    ∙ payload_bytes m xs (add_payload b (x ∷ [])) r e (omega arith)
        (omega (arith, length_concat b.payload x))
    ∙ rw append_assoc
  where
    one : run_bytes b (x ∷ xs) ≡ run_bytes (add_payload b (x ∷ [])) xs
    one =
        unfold run_bytes in
        rw (absorb_payload b r x e) (
          unfold settle_payload in
          rw (
            eq_refuses (length (b.payload ++ x ∷ [])) b.frame_length
              (omega (arith, length_concat b.payload x))))

payload_last :
    (m : ℕ) (bytes : Text) (b : FrameBudget)
    → b.preface_received ≡ true
    → length b.header ≡ 9
    → 0 < m
    → m ≤ length bytes
    → length b.payload + m ≡ b.frame_length
    → run_bytes b bytes ≡ run_bytes (finish_frame (add_payload b (take m bytes))) (drop m bytes)
payload_last zero bytes b r e p l h = absurd (omega arith)
payload_last (suc m) [] b r e p l h = absurd (omega arith)
payload_last (suc zero) (x ∷ xs) b r e p l h =
    unfold run_bytes in
    rw (absorb_payload b r x e) (
      unfold settle_payload in
      rw (
        eq_holds (length (b.payload ++ x ∷ [])) b.frame_length
          (omega (arith, length_concat b.payload x))))
payload_last (suc (suc m)) (x ∷ xs) b r e p l h =
    payload_bytes 1 (x ∷ xs) b r e (omega arith) (omega arith)
    ∙ payload_last (suc m) xs (add_payload b (x ∷ [])) r e (omega arith) (omega arith)
        (omega (arith, length_concat b.payload x))
    ∙ rw append_assoc

module _ (b : FrameBudget) (rest : Text) (r : b.preface_received ≡ true) (e : length b.header ≡ 9)
    (short : length b.payload < b.frame_length) where
  abbrev payload_count : ℕ
  payload_count = min (b.frame_length - length b.payload) (length rest)

  length_payload : length (b.payload ++ take payload_count rest) ≡ length b.payload + payload_count
  length_payload =
      omega
        (arith, length-append b.payload (take payload_count rest), length-take payload_count rest)

  abbrev is_full : Bool
  is_full = length (b.payload ++ take payload_count rest) == b.frame_length

  after-take_payload : after_round (take_payload b rest) ≡ run_bytes b rest
  unfolding take_payload
  after-take_payload = elim (Bool-cases is_full) [
    | inl full ↦ rw full (
        sym (
          payload_last payload_count rest b r e (omega (arith, (==_iff _ _).0 full, length_payload))
            (omega arith) (omega (arith, (==_iff _ _).0 full, length_payload))))
    | inr more ↦ rw more (
        sym (
          payload_bytes payload_count rest b r e (omega arith)
            (below _ _ more (omega (arith, length_payload)) length_payload)))
  ]
    where
      below :
          (m n : ℕ)
          → (m == n) ≡ false
          → m ≤ n
          → m ≡ length b.payload + payload_count
          → length b.payload + payload_count < n
      below m n h l q = ground arith

  take_payload-Progress :
      (k : ℕ) → length rest - payload_count < k → Progress k (take_payload b rest)
  unfolding take_payload finish_frame
  take_payload-Progress k h = elim (Bool-cases is_full) [
    | inl full ↦
        rw full (r, in_header (omega arith) refl, omega (arith, length-drop payload_count rest))
    | inr more ↦ rw more (
      r,
      in_payload e (below _ _ more (omega (arith, length_payload))),
      omega (arith, length-drop payload_count rest),
    )
  ]
    where
      below : (m n : ℕ) → (m == n) ≡ false → m ≤ n → m < n
      below m n h l = ground arith

-- What `_start_frame` leaves alone.
abbrev pub Untouched : FrameBudget → Outcome → Type 0
Untouched b (err e) = Unit
Untouched b (ok b') =
    (b'.preface_received ≡ b.preface_received)
    × (b'.header ≡ b.header)
    × (b'.payload ≡ b.payload)
    × (b'.config ≡ b.config)
    × (b'.ready ≡ b.ready)
    × (b'.preface ≡ b.preface)

pub start_frame-Untouched : (b : FrameBudget) → Untouched b (start_frame b)
unfolding start_frame
start_frame-Untouched b = ground arith

below_positive : (m n : ℕ) → (n == 0) ≡ false → m ≡ 0 → m < n
below_positive m n h e = ground arith

module _ (b : FrameBudget) (rest : Text) (received : b.preface_received ≡ true)
    (full : length b.header ≡ 9) (empty : b.payload ≡ []) where
  after-after_start :
      (r : Outcome)
      → Untouched b r
      → after_round (after_start rest r)
        ≡ (r >>= (λ b'. ok (close_empty b'))) >>= (λ b'. run_bytes b' rest)
  unfolding after_start
  after-after_start (err e) u = refl
  after-after_start (ok b') u = elim (Bool-cases (b'.frame_length == 0)) [
    | inl zero_length ↦ rw zero_length
    | inr more ↦ rw more (
        after-take_payload b' rest (u.0 ∙ received) (ap length u.1 ∙ full)
          (below_positive _ b'.frame_length more (ap length (u.2 ∙ empty))))
  ]

  after_start-Progress :
      (r : Outcome) → Untouched b r → (k : ℕ) → length rest < k → Progress k (after_start rest r)
  unfolding after_start finish_frame
  after_start-Progress (err e) u k h = tt
  after_start-Progress (ok b') u k h = elim (Bool-cases (b'.frame_length == 0)) [
    | inl zero_length ↦ rw zero_length (u.0 ∙ received, in_header (omega arith) refl, h)
    | inr more ↦ rw more (
        take_payload-Progress b' rest (u.0 ∙ received) (ap length u.1 ∙ full)
          (below_positive _ b'.frame_length more (ap length (u.2 ∙ empty))) k (omega arith))
  ]

module _ (b : FrameBudget) (rest : Text) (received : b.preface_received ≡ true)
    (short : length b.header < 9) (empty : b.payload ≡ []) where
  abbrev header_count : ℕ
  header_count = min (9 - length b.header) (length rest)

  length_header : length (b.header ++ take header_count rest) ≡ length b.header + header_count
  length_header =
      omega (arith, length-append b.header (take header_count rest), length-take header_count rest)

  abbrev is_short : Bool
  is_short = ltb (length (b.header ++ take header_count rest)) 9

  after-take_header : after_round (take_header b rest) ≡ run_bytes b rest
  unfolding take_header
  after-take_header = elim (Bool-cases is_short) [
    | inl more ↦ rw more (
        sym (
          header_bytes header_count rest b received (omega arith)
            (omega (arith, ltb→lt _ _ more, length_header))
          ∙ ap (run_bytes (add_header b (take header_count rest)))
              (drop_all header_count rest (omega (arith, ltb→lt _ _ more, length_header)))
          ∙ (unfold run_bytes in refl)))
    | inr last ↦ rw last (
        after-after_start (add_header b (take header_count rest)) (drop header_count rest) received
          (omega (arith, ltb→le _ _ last, length_header)) empty _ (start_frame-Untouched _)
        ∙ sym (
            header_last header_count rest b received (omega (arith, ltb→le _ _ last, length_header))
              (omega arith) (omega (arith, ltb→le _ _ last, length_header))))
  ]

  take_header-Progress : (k : ℕ) → length rest - header_count < k → Progress k (take_header b rest)
  unfolding take_header
  take_header-Progress k h = elim (Bool-cases is_short) [
    | inl more ↦ rw more tt
    | inr last ↦ rw last (
        after_start-Progress (add_header b (take header_count rest)) (drop header_count rest)
          received (omega (arith, ltb→le _ _ last, length_header)) empty _ (start_frame-Untouched _)
          k (omega (arith, length-drop header_count rest)))
  ]

-- A round takes the bytes that it takes as the bytewise budget takes them.
pub after_round_lem :
    (b : FrameBudget) (rest : Text)
    → b.preface_received ≡ true
    → InFrame b
    → after_round (round b rest) ≡ run_bytes b rest
unfolding round
after_round_lem b rest r (in_header h e) =
    rw (lt→ltb (length b.header) 9 h) (after-take_header b rest r h e)
after_round_lem b rest r (in_payload e h) =
    rw (ltb_refuses (length b.header) 9 (omega arith)) (after-take_payload b rest r e h)

pub round-Progress :
    (b : FrameBudget) (x : ℕ) (xs : Text)
    → b.preface_received ≡ true
    → InFrame b
    → Progress (suc (length xs)) (round b (x ∷ xs))
unfolding round
round-Progress b x xs r (in_header h e) =
    rw (lt→ltb (length b.header) 9 h) (take_header-Progress b (x ∷ xs) r h e _ (omega arith))
round-Progress b x xs r (in_payload e h) =
    rw (ltb_refuses (length b.header) 9 (omega arith))
      (take_payload-Progress b (x ∷ xs) r e h _ (omega arith))
