-- ===== src/WebSocket/FrameGuard/Bytewise.antt =====
-- What `_FrameGuard.feed` has to do, told byte by byte: the guard as a machine that takes one byte
-- at a time, with no chunks and no offsets.
use small_server.Prelude.{
  ℕ, ◌-◌, ◌≡◌, refl, sym, ap, ◌∙◌, none, some, [], ◌∷◌, ◌++◌, append_assoc, ltb, ◌==◌,
  if◌then◌else◌, length, get_or, Result, ok, err,
}
use mathlib.Core.Path.{fun_ext}
use small_server.Prelude.Text.{Text}
use small_server.WebSocket.FrameGuard.{FrameGuard, GuardError, full_length, check_header}

abbrev pub Outcome : Type 0
Outcome = Result GuardError Text × FrameGuard

-- The outcome of what follows, behind bytes that are already out.
abbrev pub prefix : Text → Outcome → Outcome
prefix out (ok o, g) = (ok (out ++ o), g)
prefix out (err e, g) = (err e, g)

abbrev pub resume : Outcome → (FrameGuard → Outcome) → Outcome
resume (ok out, g) k = prefix out (k g)
resume (err e, g) k = (err e, g)

-- A complete header: it is passed on whole if it is in order, and kept if it is not.
unfoldable pub admit : FrameGuard → Result GuardError ℕ → Outcome
admit g (err e) = (err e, g)
admit g (ok n) = (
  ok g.header,
  record g {
    header = [];
    header_length = if n == 0 then none else g.header_length;
    payload_remaining = n;
  },
)

unfoldable pub settle_at : ℕ → FrameGuard → Outcome
settle_at n g =
    if ltb (length g.header) n
    then (ok [], g)
    else admit g (check_header g.max_payload_bytes g.header)

abbrev pub expected_length : FrameGuard → ℕ
expected_length g = elim g.header_length [ none ↦ full_length (get_or g.header 1 0) | some n ↦ n ]

unfoldable pub settle : FrameGuard → Outcome
settle g =
    let n = expected_length g in
    if ltb (length g.header) 2
    then (ok [], g)
    else settle_at n (record g { header_length = some n })

-- The guard behind `n` bytes of payload.
abbrev pub advance : FrameGuard → ℕ → FrameGuard
advance g n = record g {
  header_length = if (g.payload_remaining - n) == 0 then none else g.header_length;
  payload_remaining = g.payload_remaining - n;
}

unfoldable pub absorb : FrameGuard → ℕ → Outcome
absorb g b =
    if ltb 0 g.payload_remaining
    then (ok (b ∷ []), advance g 1)
    else settle (record g { header = g.header ++ b ∷ [] })

unfoldable pub run_bytes : FrameGuard → Text → Outcome
run_bytes g [] = (ok [], g)
run_bytes g (b ∷ bs) = resume (absorb g b) (λ g'. run_bytes g' bs)

pub prefix-nil : (r : Outcome) → prefix [] r ≡ r
prefix-nil (ok o, g) = refl
prefix-nil (err e, g) = refl

pub prefix-append : (a b : Text) (r : Outcome) → prefix (a ++ b) r ≡ prefix a (prefix b r)
prefix-append a b (ok o, g) = rw append_assoc
prefix-append a b (err e, g) = refl

pub prefix-resume :
    (a : Text) (r : Outcome) (k : FrameGuard → Outcome)
    → prefix a (resume r k) ≡ resume (prefix a r) k
prefix-resume a (ok o, g) k = rw (← prefix-append a o (k g))
prefix-resume a (err e, g) k = refl

pub resume_assoc :
    (r : Outcome) (k l : FrameGuard → Outcome)
    → resume (resume r k) l ≡ resume r (λ g. resume (k g) l)
resume_assoc (ok o, g) k l = sym (prefix-resume o (k g) l)
resume_assoc (err e, g) k l = refl

-- Cutting the input in two changes nothing.
pub run_bytes-append :
    (g : FrameGuard) (a b : Text)
    → run_bytes g (a ++ b) ≡ resume (run_bytes g a) (λ g'. run_bytes g' b)
unfolding run_bytes
run_bytes-append g [] b = rw prefix-nil
run_bytes-append g (x ∷ a) b =
    ap (resume (absorb g x)) (fun_ext (λ g'. run_bytes-append g' a b))
    ∙ sym (resume_assoc (absorb g x) _ _)
