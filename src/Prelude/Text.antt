-- ===== src/Prelude/Text.antt =====
-- Python's `str` and `bytes` as lists of code points and of bytes.
use Prim.Native.Nat.{ℕ, ◌+◌, ◌-◌, ◌*◌}
use Prim.Native.Char.{code}
use Prim.Native.String.{String}
use mathlib.Core.Path.{◌≡◌, refl}
use mathlib.Core.Logic.{◌↔◌}
use mathlib.Core.Bool.{Bool, true, false, ◌&&◌, ◌||◌}
use mathlib.Core.List.{List, [], ◌∷◌, map}
use mathlib.Core.Option.{Option, none, some}
use native.Mathlib.Omega.{arith}
use small_server.Prelude.Tests.{leb, ◌==◌, if◌then◌else◌}
use small_server.Prelude.Dict.{Eq}

abbrev pub Text : Type 0
Text = List ℕ

abbrev pub codes : String → Text
codes String.[] = []
codes (String.◌∷◌ c s) = code c ∷ codes s

unfoldable pub text_equal : Text → Text → Bool
text_equal [] [] = true
text_equal (x ∷ xs) (y ∷ ys) = x == y && text_equal xs ys
text_equal _ _ = false

pub text_equal_iff : (a b : Text) → (text_equal a b ≡ true) ↔ (a ≡ b)
unfolding text_equal
text_equal_iff (x ∷ a) (y ∷ b) = ground (arith, text_equal_iff a b)
text_equal_iff _ _ = ground arith

instance abbrev pub text_eq : Eq Text
text_eq = record { equal = text_equal; equal_iff = text_equal_iff }

abbrev pub within : ℕ → ℕ → ℕ → Bool
within lo hi c = leb lo c && leb c hi

-- str.lower on one ASCII character.
unfoldable pub lower_char : ℕ → ℕ
lower_char c = if within b'A' b'Z' c then c + 32 else c

-- str.upper on one ASCII character.
unfoldable pub upper_char : ℕ → ℕ
upper_char c = if within b'a' b'z' c then c - 32 else c

unfoldable pub lower : Text → Text
unfolding lower_char
lower = map lower_char

unfoldable pub upper : Text → Text
unfolding upper_char
upper = map upper_char

lower_char_idem : (c : ℕ) → lower_char (lower_char c) ≡ lower_char c
unfolding lower_char
lower_char_idem c = ground arith

pub lower_idem : (s : Text) → lower (lower s) ≡ lower s
unfolding lower
lower_idem [] = refl
lower_idem (c ∷ s) = cc (lower_char_idem c, lower_idem s)

upper_char_idem : (c : ℕ) → upper_char (upper_char c) ≡ upper_char c
unfolding upper_char
upper_char_idem c = ground arith

pub upper_idem : (s : Text) → upper (upper s) ≡ upper s
unfolding upper
upper_idem [] = refl
upper_idem (c ∷ s) = cc (upper_char_idem c, upper_idem s)

-- `p` at every character; any(...) is its negation.
unfoldable pub every : (ℕ → Bool) → Text → Bool
every p [] = true
every p (c ∷ s) = p c && every p s

-- `c in s`
unfoldable pub has_char : ℕ → Text → Bool
has_char c [] = false
has_char c (d ∷ s) = d == c || has_char c s

-- s.startswith(prefix)
unfoldable pub starts_with : Text → Text → Bool
starts_with s [] = true
starts_with [] (p ∷ ps) = false
starts_with (c ∷ s) (p ∷ ps) = c == p && starts_with s ps

-- s.partition(c): what stands before the first `c`, and what stands behind it, if there is one.
unfoldable pub partition : ℕ → Text → Text × Option Text
partition c [] = ([], none)
partition c (d ∷ s) =
    let rest = partition c s in if d == c then ([], some s) else (d ∷ rest.0, rest.1)

-- int.from_bytes(b, "big")
abbrev pub from_bytes_onto : ℕ → List ℕ → ℕ
from_bytes_onto acc [] = acc
from_bytes_onto acc (b ∷ bs) = from_bytes_onto (acc * 256 + b) bs

abbrev pub from_bytes : List ℕ → ℕ
from_bytes = from_bytes_onto 0
