-- ===== src/Server/RequestParser.antt =====
-- `HTTPRequestParser` of smallserver/server.py.
pub mod Chunking
mod Tests
use small_server.Prelude.{
  ℕ, zero, suc, ◌+◌, Bool, true, false, not, ◌&&◌, ◌||◌, Option, none, some, List, [], ◌∷◌, ◌++◌,
  ltb, leb, ◌==◌, if◌then◌else◌, is_nil, length, take, drop, Result, ok, err, ◌>>=◌, ◌>>◌, map,
}
use small_server.Prelude.Decimal.{is_decimal, to_int}
use small_server.Prelude.Text.{
  Text, codes, text_equal, within, every, has_char, starts_with, partition, lower,
}
use small_server.Http.Headers
use small_server.Http.Headers.{Headers}
use small_server.Http.Request.{Request, text_or}
use small_server.Http.Request

-- The details of an `HTTPParseError`.
pub data ParseError : Type 0 where
  headers_too_large pipelined bad_request malformed_request_line unsupported_version : ParseError
  target_too_large invalid_target too_many_headers malformed_header : ParseError
  transfer_encoding many_content_lengths bad_headers : ParseError
  invalid_content_length body_too_large no_host : ParseError

-- Its status.
abbrev pub status : ParseError → ℕ
status headers_too_large = 413
status target_too_large = 414
status too_many_headers = 413
status body_too_large = 413
status _ = 400

pub record Head : Type 0 where
  pub method : Text
  pub raw_target : Text
  pub headers : Headers
  pub content_length : ℕ

pub record Parser : Type 0 where
  pub max_header_bytes : ℕ
  pub max_header_count : ℕ
  pub max_body_bytes : ℕ
  pub max_request_target_bytes : ℕ
  pub preserve_trailing_data : Bool
  pub buffer : Text
  pub request_head : Option Head
  pub trailing_data : Text

abbrev pub init : ℕ → ℕ → ℕ → ℕ → Bool → Parser
init max_header_bytes max_header_count max_body_bytes max_request_target_bytes preserve = record {
  max_header_bytes = max_header_bytes;
  max_header_count = max_header_count;
  max_body_bytes = max_body_bytes;
  max_request_target_bytes = max_request_target_bytes;
  preserve_trailing_data = preserve;
  buffer = [];
  request_head = none;
  trailing_data = [];
}

-- What stands before the first blank line, and what stands behind it.
unfoldable pub find_marker : Text → Option (Text × Text)
unfolding starts_with
find_marker [] = none
find_marker (c ∷ s) =
    let rest = find_marker s in
    if starts_with (c ∷ s) (13 ∷ 10 ∷ 13 ∷ 10 ∷ [])
    then some ([], drop 3 s)
    else elim rest [ none ↦ none | some (before, behind) ↦ some (c ∷ before, behind) ]

-- The first piece with one more character.
abbrev onto_first : ℕ → List Text → List Text
onto_first c [] = (c ∷ []) ∷ []
onto_first c (p ∷ ps) = (c ∷ p) ∷ ps

-- s.split(" ")
unfoldable pub split_spaces : Text → List Text
split_spaces [] = [] ∷ []
split_spaces (c ∷ s) = let rest = split_spaces s in if c == 32 then [] ∷ rest else onto_first c rest

-- s.split("\r\n"); `skip` says that `s` starts with the "\n" of a separator.
unfoldable pub split_lines : Bool → Text → List Text
unfolding starts_with
split_lines skip [] = [] ∷ []
split_lines true (c ∷ s) = split_lines false s
split_lines false (c ∷ s) =
    let rest = split_lines (starts_with (c ∷ s) (13 ∷ 10 ∷ [])) s in
    if starts_with (c ∷ s) (13 ∷ 10 ∷ []) then [] ∷ rest else onto_first c rest

abbrev is_blank : ℕ → Bool
is_blank c = c == 32 || c == 9

unfoldable pub lstrip : Text → Text
lstrip [] = []
lstrip (c ∷ s) = let rest = lstrip s in if is_blank c then rest else c ∷ s

unfoldable pub rstrip : Text → Text
rstrip [] = []
rstrip (c ∷ s) = let rest = rstrip s in if is_blank c && is_nil rest then [] else c ∷ rest

abbrev guard : Bool → ParseError → Result ParseError (Unit {0})
guard true e = ok tt
guard false e = err e

-- The three parts of a request line.
abbrev three_parts : List Text → Option (Text × Text × Text)
three_parts (method ∷ target ∷ version ∷ []) = some (method, target, version)
three_parts _ = none

abbrev has_some : Option Text → Bool
has_some none = false
has_some (some s) = true

-- One line of the loop over the headers.
unfoldable pub parse_line : Text → Result ParseError (Text × Text)
unfolding partition lstrip rstrip
parse_line line = elim (partition b':' line).1 [
  | none ↦ err malformed_header
  | some value ↦
      if text_equal (lower (partition b':' line).0) (codes "transfer-encoding")
      then err transfer_encoding
      else ok ((partition b':' line).0, rstrip (lstrip value))
]

unfoldable pub parse_lines : List Text → Result ParseError (List (Text × Text))
unfolding parse_line
parse_lines [] = ok []
parse_lines (line ∷ lines) = do pair ← parse_line line; pairs ← parse_lines lines; ok (pair ∷ pairs)

unfoldable pub content_lengths : List (Text × Text) → List Text
unfolding text_equal
content_lengths [] = []
content_lengths ((name, value) ∷ pairs) =
    let rest = content_lengths pairs in
    if text_equal (lower name) (codes "content-length") then value ∷ rest else rest

-- The declared length, from a list of one value at most.
unfoldable pub declared_length : ℕ → List Text → Result ParseError ℕ
unfolding is_decimal
declared_length max_body_bytes [] = ok 0
declared_length max_body_bytes (value ∷ _) =
    if not (is_decimal value)
    then err invalid_content_length
    else if ltb max_body_bytes (to_int value)
    then err body_too_large
    else ok (to_int value)

abbrev build_headers : List (Text × Text) → Result ParseError Headers
build_headers pairs = elim (Headers.headers pairs) [ ok h ↦ ok h | err _ ↦ err bad_headers ]

-- The request line, and the checks of its parts.
unfoldable pub parse_request_line : ℕ → Text → Result ParseError (Text × Text)
unfolding split_spaces has_char every starts_with text_equal
parse_request_line max_request_target_bytes line = elim (three_parts (split_spaces line)) [
  | none ↦ err malformed_request_line
  | some (method, raw_target, version) ↦ do
    guard (text_equal version (codes "HTTP/1.1") && starts_with raw_target (codes "/"))
        unsupported_version
    guard (leb (length raw_target) max_request_target_bytes) target_too_large
    guard (not (has_char b'#' raw_target) && every (within 0x21 0x7E) raw_target) invalid_target
    ok (method, raw_target)
]

unfoldable pub parse_header_lines : Parser → Text × Text → List Text → Result ParseError Head
unfolding parse_lines content_lengths declared_length
parse_header_lines p line lines = do
  guard (leb (length lines) p.max_header_count) too_many_headers
  pairs ← parse_lines lines
  guard (leb (length (content_lengths pairs)) 1) many_content_lengths
  headers ← build_headers pairs
  length ← declared_length p.max_body_bytes (content_lengths pairs)
  guard (not (is_nil (text_or (Headers.get headers (codes "host"))))) no_host
  ok (record { method = line.0; raw_target = line.1; headers = headers; content_length = length })

-- `_parse_head`. Bytes are their ISO-8859-1 characters.
unfoldable pub parse_head : Parser → Text → Result ParseError Head
unfolding parse_request_line parse_header_lines split_lines
parse_head p raw = elim (split_lines false raw) [
  | [] ↦ err malformed_request_line
  | first ∷ lines ↦ do
    line ← parse_request_line p.max_request_target_bytes first
    parse_header_lines p line lines
]

-- `Request(...)` behind a complete body.
unfoldable pub make_request : Head → Text → Result ParseError Request
unfolding partition
make_request h body =
    elim (Request.post_init (record {
      method = h.method;
      path = (partition b'?' h.raw_target).0;
      headers = h.headers;
      body = body;
      version = codes "HTTP/1.1";
      raw_target = some h.raw_target;
      query_string = text_or (partition b'?' h.raw_target).1;
      path_params = [];
      route_pattern = none;
    })) [ ok r ↦ ok r | err _ ↦ err bad_request ]

-- `feed` behind the head.
unfoldable pub feed_body : Parser → Head → Result ParseError (Option Request) × Parser
feed_body p h =
    if ltb h.content_length (length p.buffer) && not p.preserve_trailing_data
    then (err pipelined, p)
    else if ltb (length p.buffer) h.content_length
    then (ok none, p)
    else (
      make_request h (take h.content_length p.buffer) >>= λ r. ok (some r),
      record p { trailing_data = drop h.content_length p.buffer },
    )

-- `feed` behind the parsing of the head; `behind` is what follows it.
unfoldable pub after_head :
    Parser → Text → Result ParseError Head → Result ParseError (Option Request) × Parser
after_head p behind (err x) = (err x, p)
after_head p behind (ok h) = feed_body (record p { buffer = behind; request_head = some h }) h

-- `feed` behind the search for the end of the head.
unfoldable pub after_marker :
    Parser → Option (Text × Text) → Result ParseError (Option Request) × Parser
after_marker p none =
    if ltb p.max_header_bytes (length p.buffer) then (err headers_too_large, p) else (ok none, p)
after_marker p (some (raw, behind)) =
    if ltb p.max_header_bytes (length raw + 4)
    then (err headers_too_large, p)
    else after_head p behind (parse_head p raw)

-- `feed` where `buffer` holds the new data.
unfoldable pub feed_buffer : Parser → Option Head → Result ParseError (Option Request) × Parser
feed_buffer p none = after_marker p (find_marker p.buffer)
feed_buffer p (some h) = feed_body p h

unfoldable pub feed : Parser → Text → Result ParseError (Option Request) × Parser
feed p new = feed_buffer (record p { buffer = p.buffer ++ new }) p.request_head
