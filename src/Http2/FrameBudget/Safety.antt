-- ===== src/Http2/FrameBudget/Safety.antt =====
-- What `_FrameBudget` hands on: every byte once and in order, in whole frames within the limits.
use small_server.Prelude.{
  ℕ, ◌+◌, ◌≤◌, ◌<◌, ◌≡◌, refl, sym, ap, ◌∙◌, subst, true, false, ◌⊎◌, inl, inr, some, [], ◌∷◌, ◌++◌,
  append-nil, append_assoc, flatten, flatten-append, All, All-append, length, length-append, take,
  take-append_le, ltb, ltb→lt, ltb→le, ◌==◌, ==_iff, Bool-cases, ok, err, ◌>>=◌, arith,
}
use small_server.Prelude.Text.{Text, from_bytes, text_equal, text_equal_iff}
use small_server.Http2.Config.{Http2Config}
use small_server.Http2.FrameBudget.{
  FrameBudget, client_preface, start_frame, finish_frame, end_preface, feed, init,
}
use small_server.Http2.FrameBudget.Bytewise.{
  Outcome, close_empty, settle_header, settle_payload, settle_preface, absorb, run_bytes,
  run_bytes-append,
}
use small_server.Http2.FrameBudget.Preface.{matches, add_preface, absorb_preface}
use small_server.Http2.FrameBudget.Rounds.{
  in_header, in_payload, Untouched, start_frame-Untouched, absorb_header, absorb_payload,
  length_concat,
}
use small_server.Http2.FrameBudget.Chunking.{IsValid, in_preface, in_frames, feed-run_bytes_budget}

-- One chunk handed on: the client preface, or a frame with exactly the payload that it announces.
abbrev pub IsWhole : Http2Config → Text → Type 0
IsWhole c chunk =
    (chunk ≡ client_preface)
    ⊎ ((length chunk ≡ 9 + from_bytes (take 3 chunk))
        × (from_bytes (take 3 chunk) ≤ c.max_frame_size))

pub record Inv (c : Http2Config) (b : FrameBudget) : Type 0 where
  pub config_is : b.config ≡ c
  pub valid : IsValid b
  pub frame_le : b.frame_length ≤ c.max_frame_size
  pub headers_le : b.header_bytes ≤ c.max_compressed_header_bytes
  pub declared : length b.header ≡ 9 → b.frame_length ≡ from_bytes (take 3 b.header)
  pub no_preface : b.preface_received ≡ true → b.preface ≡ []
  pub whole : All (IsWhole c) b.ready

-- All the bytes that a budget holds, in the order in which they came.
abbrev pub held : FrameBudget → Text
held b = flatten b.ready ++ (b.preface ++ (b.header ++ b.payload))

abbrev pub Keeps : Http2Config → Text → Outcome → Type 0
Keeps c seen (ok b) = Inv c b × (held b ≡ seen)
Keeps c seen (err e) = Unit

pub init-Inv : (c : Http2Config) → Inv c (init c)
unfolding text_equal
init-Inv c = record {
  config_is = refl;
  valid = in_preface refl (omega arith) refl refl refl;
  frame_le = omega arith;
  headers_le = omega arith;
  declared = λ h. absurd (omega arith);
  no_preface = λ h. refl;
  whole = tt;
}

-- What `_start_frame` has checked where it raises nothing.
abbrev pub Checked : FrameBudget → Outcome → Type 0
Checked b (err e) = Unit
Checked b (ok b') =
    (b'.frame_length ≡ from_bytes (take 3 b.header))
    × (b'.frame_length ≤ b.config.max_frame_size)
    × (b'.header_bytes ≤ b.config.max_compressed_header_bytes)

pub start_frame-Checked : (b : FrameBudget) → Checked b (start_frame b)
unfolding start_frame
start_frame-Checked b = ground arith

below_positive : (m n : ℕ) → (n == 0) ≡ false → m ≡ 0 → m < n
below_positive m n h e = ground arith

module _ (b : FrameBudget) (x : ℕ) where
  held_header : b.payload ≡ [] → held (record b { header = b.header ++ x ∷ [] }) ≡ held b ++ x ∷ []
  held_header p = simp (append_assoc, append-nil, p)

  held_payload : held (record b { payload = b.payload ++ x ∷ [] }) ≡ held b ++ x ∷ []
  held_payload = simp append_assoc

  held_preface : b.header ≡ [] → b.payload ≡ [] → held (add_preface b (x ∷ [])) ≡ held b ++ x ∷ []
  held_preface e p = simp (append_assoc, append-nil, e, p)

same_held :
    (b b' : FrameBudget)
    → b'.header ≡ b.header
    → b'.payload ≡ b.payload
    → b'.ready ≡ b.ready
    → b'.preface ≡ b.preface
    → held b' ≡ held b
same_held b b' h p r f = cc (h, p, r, f)

module _ (c : Http2Config) where
  finish_frame-Keeps :
      (b : FrameBudget)
      → b.config ≡ c
      → b.preface_received ≡ true
      → length b.header ≡ 9
      → length b.payload ≡ b.frame_length
      → b.frame_length ≡ from_bytes (take 3 b.header)
      → b.frame_length ≤ c.max_frame_size
      → b.header_bytes ≤ c.max_compressed_header_bytes
      → b.preface ≡ []
      → All (IsWhole c) b.ready
      → Keeps c (held b) (ok (finish_frame b))
  unfolding finish_frame
  finish_frame-Keeps b g r h p d f hb pre w = (
    record {
      config_is = g;
      valid = in_frames r (in_header (omega arith) refl);
      frame_le = omega arith;
      headers_le = ground arith;
      declared = λ e. absurd (omega arith);
      no_preface = λ _. pre;
      whole = All-append (IsWhole c) b.ready _ w (inr (whole_frame, small_frame), tt);
    },
    simp (flatten-append, append_assoc, append-nil, pre),
  )
    where
      same_length : from_bytes (take 3 (b.header ++ b.payload)) ≡ b.frame_length
      same_length = ap from_bytes (take-append_le 3 b.header b.payload (omega arith)) ∙ sym d

      whole_frame : length (b.header ++ b.payload) ≡ 9 + from_bytes (take 3 (b.header ++ b.payload))
      whole_frame = omega (arith, length-append b.header b.payload, same_length)

      small_frame : from_bytes (take 3 (b.header ++ b.payload)) ≤ c.max_frame_size
      small_frame = omega (arith, same_length)

  -- A frame whose header has just been read: it is handed on at once if it has no payload.
  opened-Keeps :
      (b : FrameBudget)
      → Inv c b
      → (b' : FrameBudget) → b'.preface_received ≡ true
      → length b'.header ≡ 9
      → b'.payload ≡ []
      → b'.config ≡ c
      → b'.preface ≡ []
      → All (IsWhole c) b'.ready
      → b'.frame_length ≡ from_bytes (take 3 b'.header)
      → b'.frame_length ≤ c.max_frame_size
      → b'.header_bytes ≤ c.max_compressed_header_bytes
      → Keeps c (held b') (ok (close_empty b'))
  opened-Keeps b v b' r h p g pre w d f hb = elim (Bool-cases (b'.frame_length == 0)) [
    | inl empty ↦ rw empty (
        finish_frame-Keeps b' g r h (omega (arith, ap length p, (==_iff _ _).0 empty)) d f hb pre w)
    | inr more ↦ rw more (
      record {
        config_is = g;
        valid = in_frames r (in_payload h (below_positive _ _ more (ap length p)));
        frame_le = f;
        headers_le = hb;
        declared = λ _. d;
        no_preface = λ _. pre;
        whole = w;
      },
      refl,
    )
  ]

  end_preface-Keeps :
      (b : FrameBudget) (x : ℕ)
      → Inv c b
      → b.header ≡ []
      → b.payload ≡ []
      → matches (b.preface ++ x ∷ []) ≡ true
      → length (b.preface ++ x ∷ []) ≡ 24
      → Keeps c (held b ++ x ∷ []) (ok (end_preface (add_preface b (x ∷ []))))
  unfolding end_preface
  end_preface-Keeps b x v e p good full = (
    record {
      config_is = v.config_is;
      valid = in_frames refl (in_header (omega (arith, ap length e)) p);
      frame_le = v.frame_le;
      headers_le = v.headers_le;
      declared = λ h. absurd (omega (arith, h, ap length e));
      no_preface = λ _. refl;
      whole = All-append (IsWhole c) b.ready _ v.whole (inl exact, tt);
    },
    simp (flatten-append, append_assoc, append-nil, e, p),
  )
    where
      exact : b.preface ++ x ∷ [] ≡ client_preface
      exact = (text_equal_iff _ _).0 good ∙ ap (λ n. take n client_preface) full

  settle_header-Keeps :
      (b : FrameBudget) (x : ℕ)
      → Inv c b
      → b.preface_received ≡ true
      → length b.header < 9
      → b.payload ≡ []
      → Keeps c (held b ++ x ∷ []) (settle_header (record b { header = b.header ++ x ∷ [] }))
  unfolding settle_header
  settle_header-Keeps b x v r h p = elim (Bool-cases (ltb (length (b.header ++ x ∷ [])) 9)) [
    | inl more ↦ rw more (
      record {
        config_is = v.config_is;
        valid = in_frames r (in_header (ltb→lt _ _ more) p);
        frame_le = v.frame_le;
        headers_le = v.headers_le;
        declared = λ e. absurd (omega (arith, e, ltb→lt _ _ more));
        no_preface = v.no_preface;
        whole = v.whole;
      },
      held_header b x p,
    )
    | inr last ↦
        rw last (started (start_frame b1) (start_frame-Untouched b1) (start_frame-Checked b1) last)
  ]
    where
      b1 : FrameBudget
      b1 = record b { header = b.header ++ x ∷ [] }

      nine : ltb (length (b.header ++ x ∷ [])) 9 ≡ false → length (b.header ++ x ∷ []) ≡ 9
      nine e = omega (arith, ltb→le _ _ e, length_concat b.header x)

      started :
          (r : Outcome)
          → Untouched b1 r
          → Checked b1 r
          → ltb (length (b.header ++ x ∷ [])) 9 ≡ false
          → Keeps c (held b ++ x ∷ []) (r >>= (λ b'. ok (close_empty b')))
      started (err e) u k last = tt
      started (ok b') u k last =
          subst (λ t. Keeps c t (ok (close_empty b')))
            (same_held b1 b' u.1 u.2 u.4 u.5 ∙ held_header b x p)
            (opened-Keeps b v b' (u.0 ∙ r) (ap length u.1 ∙ nine last) (u.2 ∙ p) (u.3 ∙ v.config_is)
              (u.5 ∙ v.no_preface r) (subst (All (IsWhole c)) (sym u.4) v.whole)
              (k.0 ∙ ap (λ t. from_bytes (take 3 t)) (sym u.1))
              (subst (λ (t : Http2Config). b'.frame_length ≤ t.max_frame_size) v.config_is k.1)
              (subst (λ (t : Http2Config). b'.header_bytes ≤ t.max_compressed_header_bytes)
                v.config_is k.2))

  settle_payload-Keeps :
      (b : FrameBudget) (x : ℕ)
      → Inv c b
      → b.preface_received ≡ true
      → length b.header ≡ 9
      → length b.payload < b.frame_length
      → Keeps c (held b ++ x ∷ []) (settle_payload (record b { payload = b.payload ++ x ∷ [] }))
  unfolding settle_payload
  settle_payload-Keeps b x v r h p =
      elim (Bool-cases (length (b.payload ++ x ∷ []) == b.frame_length)) [
        | inl full ↦ rw full (
            subst (λ t. Keeps c t (ok (finish_frame b1))) (held_payload b x)
              (finish_frame-Keeps b1 v.config_is r h ((==_iff _ _).0 full) (v.declared h) v.frame_le
                v.headers_le (v.no_preface r) v.whole))
        | inr more ↦ rw more (
          record {
            config_is = v.config_is;
            valid =
                in_frames r
                  (in_payload h (below _ _ more (omega (arith, length_concat b.payload x))));
            frame_le = v.frame_le;
            headers_le = v.headers_le;
            declared = v.declared;
            no_preface = v.no_preface;
            whole = v.whole;
          },
          held_payload b x,
        )
      ]
    where
      b1 : FrameBudget
      b1 = record b { payload = b.payload ++ x ∷ [] }

      below : (m n : ℕ) → (m == n) ≡ false → m ≤ n → m < n
      below m n e l = ground arith

  settle_preface-Keeps :
      (b : FrameBudget) (x : ℕ)
      → Inv c b
      → b.preface_received ≡ false
      → length b.preface < 24
      → b.header ≡ []
      → b.payload ≡ []
      → Keeps c (held b ++ x ∷ []) (settle_preface (add_preface b (x ∷ [])))
  unfolding settle_preface
  settle_preface-Keeps b x v r h e p = elim (Bool-cases (matches (b.preface ++ x ∷ []))) [
    | inr bad ↦ rw bad tt
    | inl good ↦ rw good (elim (Bool-cases (ltb (length (b.preface ++ x ∷ [])) 24)) [
      | inl more ↦ rw more (
        record {
          config_is = v.config_is;
          valid = in_preface r (ltb→lt _ _ more) good e p;
          frame_le = v.frame_le;
          headers_le = v.headers_le;
          declared = v.declared;
          no_preface = λ t. cc (t, r);
          whole = v.whole;
        },
        held_preface b x e p,
      )
      | inr last ↦ rw last (
          end_preface-Keeps b x v e p good
            (omega (arith, ltb→le _ _ last, length_concat b.preface x)))
    ])
  ]

  pub absorb-Keeps : (b : FrameBudget) (x : ℕ) → Inv c b → Keeps c (held b ++ x ∷ []) (absorb b x)
  absorb-Keeps b x v = go v.valid
    where
      go : IsValid b → Keeps c (held b ++ x ∷ []) (absorb b x)
      go (in_preface r l m e p) =
          subst (Keeps c _) (sym (absorb_preface b x r)) (settle_preface-Keeps b x v r l e p)
      go (in_frames r (in_header h p)) =
          subst (Keeps c _) (sym (absorb_header b r x h)) (settle_header-Keeps b x v r h p)
      go (in_frames r (in_payload h p)) =
          subst (Keeps c _) (sym (absorb_payload b r x h)) (settle_payload-Keeps b x v r h p)

  run_bytes-Keeps :
      (bytes : Text) (b : FrameBudget) → Inv c b → Keeps c (held b ++ bytes) (run_bytes b bytes)
  unfolding run_bytes
  run_bytes-Keeps [] b v = (v, sym (append-nil (held b)))
  run_bytes-Keeps (x ∷ xs) b v = go (absorb b x) (absorb-Keeps b x v) (run_bytes-Keeps xs)
    where
      go :
          (r : Outcome)
          → Keeps c (held b ++ x ∷ []) r
          → ((b' : FrameBudget) → Inv c b' → Keeps c (held b' ++ xs) (run_bytes b' xs))
          → Keeps c (held b ++ x ∷ xs) (r >>= (λ b'. run_bytes b' xs))
      go (err e) k ih = tt
      go (ok b') k ih =
          subst (λ t. Keeps c t (run_bytes b' xs))
            (ap (λ t. t ++ xs) k.1 ∙ append_assoc (held b) (x ∷ []) xs) (ih b' k.0)

pub feed-ok :
    (b b' : FrameBudget) (bytes : Text)
    → IsValid b
    → feed b bytes ≡ some (ok b')
    → run_bytes b bytes ≡ ok b'
feed-ok b b' bytes v h =
    let e : some (run_bytes b bytes) ≡ some (ok b') = sym (feed-run_bytes_budget b bytes v) ∙ h in
    cc

pub feed-Inv_budget :
    (c : Http2Config) (b b' : FrameBudget) (bytes : Text)
    → Inv c b
    → feed b bytes ≡ some (ok b')
    → Inv c b'
feed-Inv_budget c b b' bytes v h =
    (subst (Keeps c (held b ++ bytes)) (feed-ok b b' bytes v.valid h)
      (run_bytes-Keeps c bytes b v)).0

-- From a budget within the invariant, where `feed` raises nothing no byte is lost, added or moved:
-- the ready chunks and what is held back are those of before and then the input.
pub held-feed :
    (c : Http2Config) (b b' : FrameBudget) (bytes : Text)
    → Inv c b
    → feed b bytes ≡ some (ok b')
    → held b' ≡ held b ++ bytes
held-feed c b b' bytes v h =
    (subst (Keeps c (held b ++ bytes)) (feed-ok b b' bytes v.valid h)
      (run_bytes-Keeps c bytes b v)).1

-- From a budget within the invariant, where the first of two reads raises nothing, the two do what
-- one read of both does: the same frames, the same state and the same error.
pub feed-append_budget :
    (c : Http2Config) (b b' : FrameBudget) (xs ys : Text)
    → Inv c b
    → feed b xs ≡ some (ok b')
    → feed b (xs ++ ys) ≡ feed b' ys
feed-append_budget c b b' xs ys v h =
    feed-run_bytes_budget b (xs ++ ys) v.valid
    ∙ ap some (
        run_bytes-append b xs ys
        ∙ ap (λ r. r >>= (λ k. run_bytes k ys)) (feed-ok b b' xs v.valid h))
    ∙ sym (feed-run_bytes_budget b' ys (feed-Inv_budget c b b' xs v h).valid)
