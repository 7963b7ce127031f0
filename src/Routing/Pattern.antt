-- ===== src/Routing/Pattern.antt =====
-- `_named_group_names` of smallserver/routing.py, on what is left of the pattern in place of an
-- index into it.
use small_server.Prelude.{
  ℕ, zero, suc, ◌≡◌, refl, Bool, true, false, not, ◌&&◌, ◌||◌, Option, none, some, List, [], ◌∷◌,
  ◌==◌, if◌then◌else◌, length,
}
use small_server.Prelude.Text.{Text, codes, within, has_char, starts_with, partition}

-- `_comment_end`: what stands behind the comment.
unfoldable pub comment_end : Bool → Text → Text
comment_end escaped [] = []
comment_end escaped (c ∷ s) =
    let rest = comment_end (not escaped && c == b'\\') s in
    if not escaped && not (c == b'\\') && c == b')' then s else rest

abbrev is_letter : ℕ → Bool
is_letter c = within b'A' b'Z' c || within b'a' b'z' c

-- [A-Za-z]* and what follows.
unfoldable pub letters : Text → Text × Text
letters [] = ([], [])
letters (c ∷ s) = let rest = letters s in if is_letter c then (c ∷ rest.0, rest.1) else ([], c ∷ s)

-- What (?flags-flags: or (?flags-flags) sets, its delimiter, and what follows it.
pub record Flags : Type 0 where
  pub enabled : Text
  pub disabled : Text
  pub delimiter : ℕ
  pub rest : Text

abbrev delimited : Text → Text → Text → Option Flags
delimited enabled disabled [] = none
delimited enabled disabled (c ∷ s) =
    if c == b':' || c == b')'
    then some (record { enabled = enabled; disabled = disabled; delimiter = c; rest = s })
    else none

abbrev minus_flags : Text → Text → Option Flags
minus_flags enabled [] = none
minus_flags enabled (c ∷ s) =
    if c == b'-'
    then delimited enabled (letters s).0 (letters s).1
    else delimited enabled [] (c ∷ s)

-- The match of the flags at an opening parenthesis that `s` follows.
unfoldable pub match_flags : Text → Option Flags
unfolding letters
match_flags [] = none
match_flags (c ∷ s) = if c == b'?' then minus_flags (letters s).0 (letters s).1 else none

-- The variables of the loop; `verbose` is the top of `verbose_stack`, `outer` what is under it.
pub record State : Type 0 where
  pub verbose : Bool
  pub outer : List Bool
  pub escaped : Bool
  pub in_class : Bool

-- What one turn leaves: the name that it has found, the variables, and the rest of the pattern.
abbrev pub Turn : Type 0
Turn = Option Text × State × Text

abbrev skip : State → Text → Turn
skip st s = (none, st, s)

abbrev push : State → Bool → State
push st v = record st { verbose = v; outer = st.verbose ∷ st.outer }

abbrev pop : State → State
pop st = elim st.outer [ [] ↦ st | v ∷ vs ↦ record st { verbose = v; outer = vs } ]

-- How many characters behind the parenthesis come before a name; 0 where there is none.
unfoldable pub marker_length : Text → ℕ
unfolding starts_with
marker_length s =
    if starts_with s (codes "?P<")
    then 3
    else if starts_with s (codes "?<")
        && not (starts_with s (codes "?<=") || starts_with s (codes "?<!"))
    then 2
    else 0

abbrev after : ℕ → Text → Text
after zero s = s
after (suc n) [] = []
after (suc n) (c ∷ s) = after n s

unfoldable pub open_named : State → Text → Turn
unfolding marker_length partition
open_named st s =
    if marker_length s == 0
    then skip (push st st.verbose) s
    else elim (partition b'>' (after (marker_length s) s)).1 [
      | none ↦ skip (push st st.verbose) s
      | some rest ↦ (some (partition b'>' (after (marker_length s) s)).0, push st st.verbose, rest)
    ]

unfoldable pub open_group : State → Text → Turn
unfolding match_flags open_named has_char
open_group st s = elim (match_flags s) [
  | none ↦ open_named st s
  | some f ↦
      let v = (st.verbose || has_char b'x' f.enabled) && not (has_char b'x' f.disabled) in
      skip (if f.delimiter == b':' then push st v else record st { verbose = v }) f.rest
]

-- A turn at a character outside of a class.
unfoldable pub outside : State → ℕ → Text → Turn
unfolding open_group comment_end partition starts_with
outside st c s =
    if st.verbose && c == b'#'
    then skip st (elim (partition 10 s).1 [ none ↦ [] | some rest ↦ rest ])
    else if c == b'(' && starts_with s (codes "?#")
    then skip st (comment_end false (after 2 s))
    else if c == b'('
    then open_group st s
    else if c == b')'
    then skip (pop st) s
    else skip st s

unfoldable pub turn : State → ℕ → Text → Turn
unfolding outside
turn st c s =
    if st.escaped
    then skip (record st { escaped = false }) s
    else if c == b'\\'
    then skip (record st { escaped = true }) s
    else if c == b'['
    then skip (record st { in_class = true }) s
    else if c == b']' && st.in_class
    then skip (record st { in_class = false }) s
    else if st.in_class
    then skip st s
    else outside st c s

abbrev emit : Option Text → List Text → List Text
emit none names = names
emit (some name) names = name ∷ names

-- Each turn takes one character at least, so that the pattern's length is fuel enough.
unfoldable pub scan_names : ℕ → State → Text → List Text
unfolding turn
scan_names zero st s = []
scan_names (suc n) st [] = []
scan_names (suc n) st (c ∷ s) = let t = turn st c s in emit t.0 (scan_names n t.1 t.2)

unfoldable pub named_group_names : Text → List Text
unfolding scan_names
named_group_names pattern =
    scan_names (length pattern)
      (record { verbose = false; outer = []; escaped = false; in_class = false }) pattern

test_simple : named_group_names (codes "/u/(?P<id>[0-9(?P<no>]+)(?#(?P<c>x))") ≡ codes "id" ∷ []
unfolding named_group_names
test_simple = refl
