-- ===== src/Prelude/Decimal.antt =====
-- str(n) and int(s) for natural numbers in ASCII digits.
use Prim.Native.Nat.{ℕ, zero, suc, ◌+◌, ◌-◌, ◌*◌, ◌/◌, ◌%◌, ◌<◌}
use mathlib.Core.Path.{◌≡◌, ◌∙◌, ap}
use mathlib.Core.Bool.{Bool, false}
use mathlib.Core.Logic.{inl, inr}
use mathlib.Core.List.{[], ◌∷◌}
use native.Mathlib.Omega.{arith}
use small_server.Prelude.Tests.{ltb, ltb→le, if◌then◌else◌, Bool-cases}
use small_server.Prelude.Text.{Text, within, every}

abbrev pub is_digit : ℕ → Bool
is_digit = within b'0' b'9'

-- The digits of `n` in front of `acc`; fuel `suc n` is enough.
unfoldable pub digits_onto : ℕ → ℕ → Text → Text
digits_onto zero n acc = acc
digits_onto (suc fuel) n acc =
    let rest = digits_onto fuel (n / 10) ((b'0' + n % 10) ∷ acc) in
    if ltb n 10 then (b'0' + n) ∷ acc else rest

-- str(n)
unfoldable pub decimal : ℕ → Text
unfolding digits_onto
decimal n = digits_onto (suc n) n []

abbrev pub to_int_onto : ℕ → Text → ℕ
to_int_onto acc [] = acc
to_int_onto acc (c ∷ s) = to_int_onto (acc * 10 + (c - b'0')) s

-- int(s) for ASCII digits
abbrev pub to_int : Text → ℕ
to_int = to_int_onto 0

-- s.isascii() and s.isdecimal()
unfoldable pub is_decimal : Text → Bool
unfolding every
is_decimal [] = false
is_decimal (c ∷ s) = every is_digit (c ∷ s)

digits_onto-to_int :
    (fuel n : ℕ) (acc : Text) → n < fuel → to_int (digits_onto fuel n acc) ≡ to_int_onto n acc
unfolding digits_onto
digits_onto-to_int zero n acc h = absurd (omega arith)
digits_onto-to_int (suc fuel) n acc h = elim (Bool-cases (ltb n 10)) [
  | inl small ↦ rw small (ap (λ k. to_int_onto k acc) (omega arith))
  | inr large ↦ rw large (
      digits_onto-to_int fuel (n / 10) _ (omega (arith, ltb→le _ _ large))
      ∙ ap (λ k. to_int_onto k acc) (omega arith))
]

-- Reading back what was printed gives the number.
pub to_int-decimal : (n : ℕ) → to_int (decimal n) ≡ n
unfolding decimal
to_int-decimal n = digits_onto-to_int (suc n) n [] (omega arith)
