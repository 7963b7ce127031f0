-- ===== src/Http2/FrameBudget/HeaderBlock.antt =====
-- The header block of `_FrameBudget`: what `_header_bytes` counts are the bytes of the HEADERS and
-- CONTINUATION frames themselves, and no block outgrows its limit.
use small_server.Prelude.{
  ℕ, zero, suc, ◌+◌, ◌/◌, ◌%◌, ◌≤◌, ◌<◌, ◌≡◌, refl, sym, ap, subst, ◌∙◌, Bool, true, false, ◌&&◌,
  ◌||◌, inl, inr, some, List, [], ◌∷◌, ◌++◌, length, get_or, take, take-append_le, ltb, ltb→lt,
  ltb→le, ◌==◌, if◌then◌else◌, Bool-cases, ok, err, ◌>>=◌, arith,
}
use small_server.Prelude.Text.{Text, from_bytes, text_equal_iff}
use small_server.Http2.Config.{Http2Config}
use small_server.Http2.FrameBudget.{
  FrameBudget, client_preface, start_frame, finish_frame, end_preface, feed, init,
}
use small_server.Http2.FrameBudget.Bytewise.{
  Outcome, close_empty, settle_header, settle_payload, settle_preface, absorb, run_bytes,
}
use small_server.Http2.FrameBudget.Preface.{matches, add_preface, absorb_preface}
use small_server.Http2.FrameBudget.Rounds.{
  in_header, in_payload, Untouched, start_frame-Untouched, absorb_header, absorb_payload,
  length_concat,
}
use small_server.Http2.FrameBudget.Chunking.{IsValid, in_preface, in_frames}
use small_server.Http2.FrameBudget.Safety.{
  Inv, Checked, start_frame-Checked, Keeps, held, absorb-Keeps, feed-ok, feed-Inv_budget,
}

-- What the bytes of a frame say: its type, and whether it ends a header block.
abbrev pub type_of : Text → ℕ
type_of frame = get_or frame 3 0

abbrev pub ends_block : Text → Bool
ends_block frame = (type_of frame == 1 || type_of frame == 9) && ((get_or frame 4 0 / 4) % 2) == 1

-- The bytes of the open header block with a frame, where it had `n` before.
abbrev pub opened : ℕ → Text → ℕ
opened n frame =
    if type_of frame == 1
    then from_bytes (take 3 frame)
    else if type_of frame == 9
    then n + from_bytes (take 3 frame)
    else n

-- The same behind the frame.
abbrev pub counted : ℕ → Text → ℕ
counted n frame = if ends_block frame then 0 else opened n frame

abbrev pub block_bytes : ℕ → List Text → ℕ
block_bytes n [] = n
block_bytes n (frame ∷ frames) = block_bytes (counted n frame) frames

-- No header block of the frames outgrows the limit, also one that is over.
abbrev pub Within : ℕ → ℕ → List Text → Type 0
Within max n [] = Unit
Within max n (frame ∷ frames) = (opened n frame ≤ max) × Within max (counted n frame) frames

-- The same with the frame of which the header is complete.
abbrev pub current : ℕ → Text → ℕ
current n header = if length header == 9 then opened n header else n

-- `n` are the bytes of the block that frames already taken out have left open.
pub record Metered (c : Http2Config) (n : ℕ) (b : FrameBudget) : Type 0 where
  pub counts : b.header_bytes ≡ current (block_bytes n b.ready) b.header
  pub within : Within c.max_compressed_header_bytes n b.ready
  pub typed :
      length b.header ≡ 9
      → (b.frame_type ≡ type_of b.header) × (b.frame_flags ≡ get_or b.header 4 0)

get_or-append : (i : ℕ) (xs ys : Text) → i < length xs → get_or (xs ++ ys) i 0 ≡ get_or xs i 0
get_or-append i [] ys h = absurd (omega arith)
get_or-append zero (x ∷ xs) ys h = refl
get_or-append (suc i) (x ∷ xs) ys h = get_or-append i xs ys (omega arith)

block_bytes-append :
    (n : ℕ) (fs : List Text) (f : Text)
    → block_bytes n (fs ++ f ∷ []) ≡ counted (block_bytes n fs) f
block_bytes-append n [] f = refl
block_bytes-append n (g ∷ gs) f = block_bytes-append (counted n g) gs f

Within-append :
    (max n : ℕ) (fs : List Text) (f : Text)
    → Within max n fs
    → opened (block_bytes n fs) f ≤ max
    → Within max n (fs ++ f ∷ [])
Within-append max n [] f w h = (h, tt)
Within-append max n (g ∷ gs) f w h = (w.0, Within-append max (counted n g) gs f w.1 h)

current_short : (n : ℕ) (header : Text) → length header < 9 → current n header ≡ n
current_short n header h = ground arith

current_full : (n : ℕ) (header : Text) → length header ≡ 9 → current n header ≡ opened n header
current_full n header h = ground arith

-- A frame counts by its first nine bytes.
module _ (header payload : Text) (full : length header ≡ 9) where
  same_type : type_of (header ++ payload) ≡ type_of header
  same_type = get_or-append 3 header payload (omega arith)

  same_flags : get_or (header ++ payload) 4 0 ≡ get_or header 4 0
  same_flags = get_or-append 4 header payload (omega arith)

  opened-append : (n : ℕ) → opened n (header ++ payload) ≡ opened n header
  opened-append n = rw (same_type, take-append_le 3 header payload (omega arith)) refl

  ends_block-append : ends_block (header ++ payload) ≡ ends_block header
  ends_block-append = rw (same_type, same_flags) refl

abbrev Meters : Http2Config → ℕ → Outcome → Type 0
Meters c n (ok b) = Metered c n b
Meters c n (err e) = Unit

-- What `_start_frame` makes of the counter.
abbrev Started : FrameBudget → Outcome → Type 0
Started b (err e) = Unit
Started b (ok b') =
    (b'.frame_type ≡ type_of b.header)
    × (b'.frame_flags ≡ get_or b.header 4 0)
    × (b'.header_bytes ≡ opened b.header_bytes b.header)

start_frame-Started : (b : FrameBudget) → Started b (start_frame b)
unfolding start_frame
start_frame-Started b = ground arith

module _ (c : Http2Config) (n : ℕ) where
  finish_frame-Metered :
      (b : FrameBudget)
      → Metered c n b
      → length b.header ≡ 9
      → b.header_bytes ≤ c.max_compressed_header_bytes
      → Metered c n (finish_frame b)
  unfolding finish_frame
  finish_frame-Metered b m full le = record {
    counts = same ∙ sym (block_bytes-append n b.ready (b.header ++ b.payload));
    within =
        Within-append c.max_compressed_header_bytes n b.ready (b.header ++ b.payload) m.within (
          omega
            (arith, opened-append b.header b.payload full (block_bytes n b.ready), opening, le));
    typed = λ h. absurd (omega arith);
  }
    where
      opening : b.header_bytes ≡ opened (block_bytes n b.ready) b.header
      opening = m.counts ∙ current_full (block_bytes n b.ready) b.header full

      same : (finish_frame b).header_bytes ≡ counted (block_bytes n b.ready) (b.header ++ b.payload)
      same =
          rw
            (
              ends_block-append b.header b.payload full,
              opened-append b.header b.payload full (block_bytes n b.ready),
              (m.typed full).0,
              (m.typed full).1,
              opening,
            )
            refl

  close_empty-Metered :
      (b : FrameBudget)
      → Metered c n b
      → length b.header ≡ 9
      → b.header_bytes ≤ c.max_compressed_header_bytes
      → Metered c n (close_empty b)
  close_empty-Metered b m full le = by_test (b.frame_length == 0)
    where
      by_test : (t : Bool) → Metered c n (if t then finish_frame b else b)
      by_test true = finish_frame-Metered b m full le
      by_test false = m

  settle_header-Metered :
      (b : FrameBudget) (x : ℕ)
      → Inv c b
      → Metered c n b
      → length b.header < 9
      → b.payload ≡ []
      → Meters c n (settle_header (record b { header = b.header ++ x ∷ [] }))
  unfolding settle_header
  settle_header-Metered b x v m h p = elim (Bool-cases (ltb (length (b.header ++ x ∷ [])) 9)) [
    | inl more ↦ rw more (record {
      counts = flat ∙ sym (current_short (block_bytes n b.ready) b1.header (ltb→lt _ _ more));
      within = m.within;
      typed = λ e. absurd (omega (arith, e, ltb→lt _ _ more));
    })
    | inr last ↦ rw last (
        started (start_frame b1) (start_frame-Untouched b1) (start_frame-Checked b1)
          (start_frame-Started b1) (omega (arith, ltb→le _ _ last, length_concat b.header x)))
  ]
    where
      b1 : FrameBudget
      b1 = record b { header = b.header ++ x ∷ [] }

      flat : b.header_bytes ≡ block_bytes n b.ready
      flat = m.counts ∙ current_short (block_bytes n b.ready) b.header h

      started :
          (r : Outcome)
          → Untouched b1 r
          → Checked b1 r
          → Started b1 r
          → length b1.header ≡ 9
          → Meters c n (r >>= (λ b'. ok (close_empty b')))
      started (err e) u k t full = tt
      started (ok b') u k t full =
          close_empty-Metered b'
            (record {
              counts =
                  t.2
                  ∙ ap (λ m. opened m b1.header) flat
                  ∙ sym (current_full (block_bytes n b.ready) b1.header full)
                  ∙ sym (
                      ap (λ f. current (block_bytes n b'.ready) f) u.1
                      ∙ ap (λ r. current (block_bytes n r) b1.header) u.4);
              within = subst (Within c.max_compressed_header_bytes n) (sym u.4) m.within;
              typed = λ _. (t.0 ∙ sym (ap type_of u.1), t.1 ∙ sym (ap (λ f. get_or f 4 0) u.1));
            })
            (ap length u.1 ∙ full)
            (subst (λ (t : Http2Config). b'.header_bytes ≤ t.max_compressed_header_bytes)
              v.config_is k.2)

  settle_payload-Metered :
      (b : FrameBudget) (x : ℕ)
      → Inv c b
      → Metered c n b
      → length b.header ≡ 9
      → Meters c n (settle_payload (record b { payload = b.payload ++ x ∷ [] }))
  unfolding settle_payload
  settle_payload-Metered b x v m full = by_test (length b1.payload == b1.frame_length)
    where
      b1 : FrameBudget
      b1 = record b { payload = b.payload ++ x ∷ [] }

      same : Metered c n b1
      same = record { counts = m.counts; within = m.within; typed = m.typed }

      by_test : (t : Bool) → Meters c n (ok (if t then finish_frame b1 else b1))
      by_test true = finish_frame-Metered b1 same full v.headers_le
      by_test false = same

  settle_preface-Metered :
      (b : FrameBudget) (x : ℕ)
      → Inv c b
      → Metered c n b
      → length b.preface < 24
      → b.header ≡ []
      → Meters c n (settle_preface (add_preface b (x ∷ [])))
  unfolding settle_preface end_preface
  settle_preface-Metered b x v m l e = elim (Bool-cases (matches (b.preface ++ x ∷ []))) [
    | inr bad ↦ rw bad tt
    | inl good ↦ rw good (elim (Bool-cases (ltb (length (b.preface ++ x ∷ [])) 24)) [
      | inl more ↦ rw more (record { counts = m.counts; within = m.within; typed = m.typed })
      | inr last ↦ rw last (
          whole_preface (
            (text_equal_iff _ _).0 good
            ∙ ap (λ k. take k client_preface) (all_there (ltb→le _ _ last))))
    ])
  ]
    where
      b1 : FrameBudget
      b1 = add_preface b (x ∷ [])

      flat : b.header_bytes ≡ block_bytes n b.ready
      flat = m.counts ∙ ap (current (block_bytes n b.ready)) e

      all_there : 24 ≤ length (b.preface ++ x ∷ []) → length (b.preface ++ x ∷ []) ≡ 24
      all_there h = omega (arith, h, length_concat b.preface x)

      whole_preface : b1.preface ≡ client_preface → Metered c n (end_preface b1)
      whole_preface exact = record {
        counts =
            flat
            ∙ sym (
                ap (current (block_bytes n (b.ready ++ b1.preface ∷ []))) e
                ∙ block_bytes-append n b.ready b1.preface
                ∙ ap (counted (block_bytes n b.ready)) exact);
        within =
            Within-append c.max_compressed_header_bytes n b.ready b1.preface m.within
              (omega (arith, ap (opened (block_bytes n b.ready)) exact, flat, v.headers_le));
        typed = m.typed;
      }

  absorb-Metered : (b : FrameBudget) (x : ℕ) → Inv c b → Metered c n b → Meters c n (absorb b x)
  absorb-Metered b x v m = go v.valid
    where
      go : IsValid b → Meters c n (absorb b x)
      go (in_preface r l k e p) =
          subst (Meters c n) (sym (absorb_preface b x r)) (settle_preface-Metered b x v m l e)
      go (in_frames r (in_header h p)) =
          subst (Meters c n) (sym (absorb_header b r x h)) (settle_header-Metered b x v m h p)
      go (in_frames r (in_payload h p)) =
          subst (Meters c n) (sym (absorb_payload b r x h)) (settle_payload-Metered b x v m h)

  run_bytes-Metered :
      (bytes : Text) (b : FrameBudget) → Inv c b → Metered c n b → Meters c n (run_bytes b bytes)
  unfolding run_bytes
  run_bytes-Metered [] b v m = m
  run_bytes-Metered (x ∷ xs) b v m =
      go (absorb b x) (absorb-Keeps c b x v) (absorb-Metered b x v m) (run_bytes-Metered xs)
    where
      go :
          (r : Outcome)
          → Keeps c (held b ++ x ∷ []) r
          → Meters c n r
          → ((b' : FrameBudget) → Inv c b' → Metered c n b' → Meters c n (run_bytes b' xs))
          → Meters c n (r >>= (λ b'. run_bytes b' xs))
      go (err e) k q ih = tt
      go (ok b') k q ih = ih b' k.0 q

pub init-Metered : (c : Http2Config) → Metered c 0 (init c)
init-Metered c = record { counts = refl; within = tt; typed = λ h. absurd (omega arith) }

-- From a budget within the invariant, where `feed` raises nothing it keeps the invariant: what waits
-- in `_ready` are the preface and whole frames within the limit, and the frame being read is within
-- the limit. Header blocks are within theirs: `_header_bytes` is the sum of the payload lengths that
-- the HEADERS and CONTINUATION frames of the open block announce, the frame being read included, and
-- neither it nor such a sum at any waiting frame exceeds the limit. `n` is the part of the sum from
-- frames that have been taken out.
pub feed-Metered :
    (c : Http2Config) (n : ℕ) (b b' : FrameBudget) (bytes : Text)
    → Inv c b
    → Metered c n b
    → feed b bytes ≡ some (ok b')
    → Inv c b' × Metered c n b'
feed-Metered c n b b' bytes v m h = (
  feed-Inv_budget c b b' bytes v h,
  subst (Meters c n) (feed-ok b b' bytes v.valid h) (run_bytes-Metered c n bytes b v m),
)
