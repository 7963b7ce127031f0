-- ===== src/Http2/FrameBudget/Preface.antt =====
-- The client preface: comparing what has come so far, however much came at once, refuses exactly
-- what comparing byte by byte refuses.
use small_server.Prelude.{
  ℕ, zero, suc, ◌+◌, ◌≤◌, ◌≡◌, refl, sym, ◌∙◌, Bool, true, false, inl, inr, [], ◌∷◌, ◌++◌,
  append_assoc, ltb, lt→ltb, if◌then◌else◌, Bool-cases, length, length-append, take, drop, err,
  arith,
}
use small_server.Prelude.Text.{Text, text_equal}
use small_server.Http2.FrameBudget.{FrameBudget, invalid_preface, client_preface, end_preface}
use small_server.Http2.FrameBudget.Bytewise.{Outcome, settle_preface, absorb, run_bytes}

abbrev pub matches : Text → Bool
matches preface = text_equal preface (take (length preface) client_preface)

matches_longer :
    (p q c : Text)
    → text_equal (p ++ q) (take (length (p ++ q)) c) ≡ true
    → text_equal p (take (length p) c) ≡ true
unfolding text_equal
matches_longer [] q c h = refl
matches_longer (x ∷ p) q [] h = h
matches_longer (x ∷ p) q (y ∷ c) h = ground (arith, matches_longer p q c)

abbrev pub add_preface : FrameBudget → Text → FrameBudget
add_preface b xs = record b { preface = b.preface ++ xs }

abbrev pub reached : FrameBudget → FrameBudget
reached b = if ltb (length b.preface) 24 then b else end_preface b

-- The outcome of `m` bytes at once.
abbrev pub at_once : FrameBudget → Text → Outcome
at_once b rest = if matches b.preface then run_bytes (reached b) rest else err invalid_preface

pub absorb_preface :
    (b : FrameBudget) (x : ℕ)
    → b.preface_received ≡ false
    → absorb b x ≡ settle_preface (add_preface b (x ∷ []))
unfolding absorb
absorb_preface b x h = ground arith

preface_one :
    (x : ℕ) (xs : Text) (b : FrameBudget)
    → b.preface_received ≡ false
    → run_bytes b (x ∷ xs) ≡ at_once (add_preface b (x ∷ [])) xs
unfolding run_bytes settle_preface
preface_one x xs b r =
    rw (absorb_preface b x r)
      (elim (Bool-cases (matches (b.preface ++ x ∷ []))) [ inl good ↦ rw good | inr bad ↦ rw bad ])

pub preface_bytes :
    (m : ℕ) (bytes : Text) (b : FrameBudget)
    → b.preface_received ≡ false
    → suc m ≤ length bytes
    → length b.preface + suc m ≤ 24
    → run_bytes b bytes ≡ at_once (add_preface b (take (suc m) bytes)) (drop (suc m) bytes)
preface_bytes m [] b r l h = absurd (omega arith)
preface_bytes zero (x ∷ xs) b r l h = preface_one x xs b r
preface_bytes (suc m) (x ∷ xs) b r l h = elim (Bool-cases (matches (b.preface ++ x ∷ []))) [
  | inl good ↦
      preface_one x xs b r
      ∙ rw good (
          rw
            (lt→ltb (length (b.preface ++ x ∷ [])) 24
              (omega (arith, length-append b.preface (x ∷ []))))
            (preface_bytes m xs (add_preface b (x ∷ [])) r (omega arith)
                (omega (arith, length-append b.preface (x ∷ [])))
              ∙ rw append_assoc))
  | inr bad ↦ preface_one x xs b r ∙ rw bad (sym (rw (worse bad)))
]
  where
    worse :
        matches (b.preface ++ x ∷ []) ≡ false → matches (b.preface ++ x ∷ take (suc m) xs) ≡ false
    worse bad = elim (Bool-cases (matches (b.preface ++ x ∷ take (suc m) xs))) [
      | inl good ↦ cc (
        bad,
        matches_longer (b.preface ++ x ∷ []) (take (suc m) xs) client_preface
            (rw (append_assoc b.preface (x ∷ []) (take (suc m) xs)) good),
      )
      | inr e ↦ e
    ]
