-- ===== src/Http2/FrameBudget/Bytewise.antt =====
-- What `_FrameBudget.feed` has to do, told byte by byte.
use mathlib.Core.Path.{fun_ext}
use small_server.Prelude.{
  ℕ, ◌≡◌, refl, sym, ap, ◌∙◌, not, [], ◌∷◌, ◌++◌, ltb, ◌==◌, if◌then◌else◌, length, take, Result,
  ok, err, ◌>>=◌,
}
use small_server.Prelude.Text.{Text, text_equal}
use small_server.Http2.FrameBudget.{
  FrameBudget, FrameError, invalid_preface, client_preface, start_frame, finish_frame, end_preface,
}

abbrev pub Outcome : Type 0
Outcome = Result FrameError FrameBudget

abbrev pub close_empty : FrameBudget → FrameBudget
close_empty b = if b.frame_length == 0 then finish_frame b else b

unfoldable pub settle_header : FrameBudget → Outcome
settle_header b =
    if ltb (length b.header) 9 then ok b else start_frame b >>= (λ b'. ok (close_empty b'))

unfoldable pub settle_payload : FrameBudget → Outcome
settle_payload b = ok (if length b.payload == b.frame_length then finish_frame b else b)

unfoldable pub settle_preface : FrameBudget → Outcome
settle_preface b =
    if not (text_equal b.preface (take (length b.preface) client_preface))
    then err invalid_preface
    else ok (if ltb (length b.preface) 24 then b else end_preface b)

unfoldable pub absorb : FrameBudget → ℕ → Outcome
absorb b x =
    if not b.preface_received
    then settle_preface (record b { preface = b.preface ++ x ∷ [] })
    else if ltb (length b.header) 9
    then settle_header (record b { header = b.header ++ x ∷ [] })
    else settle_payload (record b { payload = b.payload ++ x ∷ [] })

unfoldable pub run_bytes : FrameBudget → Text → Outcome
run_bytes b [] = ok b
run_bytes b (x ∷ xs) = absorb b x >>= (λ b'. run_bytes b' xs)

pub bind_assoc :
    (r : Outcome) (k l : FrameBudget → Outcome) → (r >>= k) >>= l ≡ r >>= (λ b. k b >>= l)
bind_assoc (ok b) k l = refl
bind_assoc (err e) k l = refl

-- Cutting the input in two changes nothing.
pub run_bytes-append :
    (b : FrameBudget) (xs ys : Text)
    → run_bytes b (xs ++ ys) ≡ run_bytes b xs >>= (λ b'. run_bytes b' ys)
unfolding run_bytes
run_bytes-append b [] ys = refl
run_bytes-append b (x ∷ xs) ys =
    ap (◌>>=◌ (absorb b x)) (fun_ext (λ b'. run_bytes-append b' xs ys))
    ∙ sym (bind_assoc (absorb b x) _ _)
