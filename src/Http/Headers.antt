-- ===== src/Http/Headers.antt =====
-- `Headers` of smallserver/http.py: an immutable, case-insensitive mapping. The keys are the names
-- in lower case, the values the pairs as they were given.
use small_server.Prelude.{
  ℕ, Bool, not, ◌&&◌, ◌||◌, Option, none, some, List, [], ◌∷◌, ltb, ◌==◌, if◌then◌else◌, is_nil,
  Result, ok, err, ◌>>=◌,
}
use small_server.Prelude.Dict
use small_server.Prelude.Dict.{Dict}
use small_server.Prelude.Text.{Text, text_eq, codes, within, every, has_char, lower}

-- The ValueErrors of the constructor.
pub data HeaderError : Type 0 where
  invalid_name invalid_value duplicate_header : HeaderError

unfoldable pub is_token_char : ℕ → Bool
unfolding has_char
is_token_char c =
    within b'0' b'9' c
    || within b'A' b'Z' c
    || within b'a' b'z' c
    || has_char c (codes "!#$%&'*+.^_`|~-")

-- _TOKEN.fullmatch(s)
unfoldable pub is_token : Text → Bool
unfolding is_token_char every
is_token s = not (is_nil s) && every is_token_char s

unfoldable pub is_value_char : ℕ → Bool
is_value_char c = c == 9 || not (ltb c 0x20 || c == 0x7F || ltb 0xFF c)

abbrev pub Entries : Type 0
Entries = Dict Text (Text × Text)

pub record Headers : Type 0 where
  pub entries : Entries

abbrev pub empty : Headers
empty = record { entries = [] }

-- One turn of the constructor's loop.
unfoldable pub add_header : Entries → Text × Text → Result HeaderError Entries
unfolding is_token is_value_char every
add_header normalized (name, value) =
    if not (is_token name)
    then err invalid_name
    else if not (every is_value_char value)
    then err invalid_value
    else elim (Dict.get (lower name) normalized) [
      | some _ ↦ err duplicate_header
      | none ↦ ok (Dict.put (lower name) (name, value) normalized)
    ]

unfoldable pub add_headers : Entries → List (Text × Text) → Result HeaderError Entries
unfolding add_header
add_headers normalized [] = ok normalized
add_headers normalized (item ∷ items) = do more ← add_header normalized item; add_headers more items

unfoldable pub headers : List (Text × Text) → Result HeaderError Headers
unfolding add_headers
headers items = do entries ← add_headers [] items; ok (record { entries = entries })

-- headers.get(name)
unfoldable pub get : Headers → Text → Option Text
unfolding lower
get h name = elim (Dict.get (lower name) h.entries) [ none ↦ none | some (_, value) ↦ some value ]

-- list(headers.items())
abbrev pub items : Headers → List (Text × Text)
items h = Dict.values h.entries
