-- ===== src/Http2/RequestHeaders.antt =====
-- `H2Protocol._decode_request_headers` of smallserver/http2.py.
use small_server.Prelude.{
  ℕ, ◌+◌, Bool, true, false, not, ◌&&◌, ◌||◌, Option, none, some, List, [], ◌∷◌, ◌++◌, ltb,
  if◌then◌else◌, is_nil, length, Result, ok, err, ◌>>=◌, ◌>>◌,
}
use small_server.Prelude.Decimal.{is_decimal, to_int}
use small_server.Prelude.Dict
use small_server.Prelude.Dict.{Dict}
use small_server.Prelude.Text.{
  Text, text_eq, codes, text_equal, within, every, has_char, starts_with, lower,
}
use small_server.Http.Headers
use small_server.Http.Headers.{Headers, is_token_char}
use small_server.Http2.Config.{Http2Config}

-- The ValueErrors, in the order of the source.
pub data DecodeError : Type 0 where
  too_many_headers headers_too_large bad_pseudo_order forbidden_header bad_te : DecodeError
  unknown_pseudo connect_method missing_pseudo bad_method bad_path : DecodeError
  host_twice no_host bad_headers bad_content_length content_length_too_large : DecodeError

-- len(c.encode("utf-8"))
abbrev utf8_width : ℕ → ℕ
utf8_width c = if ltb c 0x80 then 1 else if ltb c 0x800 then 2 else if ltb c 0x10000 then 3 else 4

unfoldable pub utf8_length : Text → ℕ
utf8_length [] = 0
utf8_length (c ∷ s) = utf8_width c + utf8_length s

unfoldable pub is_member : Text → List Text → Bool
unfolding text_equal
is_member s [] = false
is_member s (t ∷ ts) = text_equal t s || is_member s ts

abbrev pub forbidden_headers : List Text
forbidden_headers =
    codes "connection"
    ∷ codes "keep-alive"
    ∷ codes "proxy-connection"
    ∷ codes "transfer-encoding"
    ∷ codes "upgrade"
    ∷ []

-- The variables of the loop over the raw headers.
pub record Scan : Type 0 where
  pub decoded_size : ℕ
  pub pseudo : Dict Text Text
  pub regular : List (Text × Text)
  pub cookies : List Text
  pub seen_regular : Bool

abbrev pub scan_init : Scan
scan_init = record {
  decoded_size = 0;
  pseudo = [];
  regular = [];
  cookies = [];
  seen_regular = false;
}

abbrev pub has_key : Text → Dict Text Text → Bool
has_key k d = elim (Dict.get k d) [ none ↦ false | some _ ↦ true ]

unfoldable pub scan_pseudo : Scan → Text → Text → Result DecodeError Scan
scan_pseudo s name value =
    if s.seen_regular || has_key name s.pseudo
    then err bad_pseudo_order
    else ok (record s { pseudo = Dict.put name value s.pseudo })

unfoldable pub scan_regular : Scan → Text → Text → Result DecodeError Scan
unfolding is_member
scan_regular s name value =
    if not (text_equal name (lower name)) || is_member (lower name) forbidden_headers
    then err forbidden_header
    else if text_equal (lower name) (codes "te")
        && not (text_equal (lower value) (codes "trailers"))
    then err bad_te
    else ok (
        if text_equal (lower name) (codes "cookie")
        then record s { seen_regular = true; cookies = s.cookies ++ value ∷ [] }
        else record s { seen_regular = true; regular = s.regular ++ (name, value) ∷ [] })

unfoldable pub scan_header : Http2Config → Scan → Text × Text → Result DecodeError Scan
unfolding scan_pseudo scan_regular starts_with utf8_length
scan_header c s (name, value) =
    let size = s.decoded_size + (utf8_length name + utf8_length value + 32) in
    let s' = record s { decoded_size = size } in
    if ltb c.max_header_bytes size
    then err headers_too_large
    else if starts_with name (codes ":")
    then scan_pseudo s' name value
    else scan_regular s' name value

unfoldable pub scan_headers : Http2Config → Scan → List (Text × Text) → Result DecodeError Scan
unfolding scan_header
scan_headers c s [] = ok s
scan_headers c s (h ∷ hs) = do s' ← scan_header c s h; scan_headers c s' hs

abbrev pub guard : Bool → DecodeError → Result DecodeError (Unit {0})
guard true e = ok tt
guard false e = err e

-- `pseudo.get(name)`, with the empty text for None: both are falsy.
unfoldable pub pseudo_value : Text → Dict Text Text → Text
pseudo_value name d = elim (Dict.get name d) [ none ↦ [] | some v ↦ v ]

abbrev pub all_known : Dict Text Text → Bool
all_known [] = true
all_known ((k, v) ∷ d) =
    is_member k (codes ":method" ∷ codes ":scheme" ∷ codes ":authority" ∷ codes ":path" ∷ [])
    && all_known d

-- The origin-form test on `:path`.
unfoldable pub is_origin_form : Text → Bool
unfolding has_char every starts_with
is_origin_form path =
    starts_with path (codes "/") && not (has_char b'#' path) && every (within 0x21 0x7E) path

-- `any(name == "host" for name, _value in regular)`
unfoldable pub has_name : Text → List (Text × Text) → Bool
unfolding text_equal
has_name k [] = false
has_name k ((name, value) ∷ hs) = text_equal name k || has_name k hs

-- "; ".join(cookies)
abbrev pub join_cookies : List Text → Text
join_cookies [] = []
join_cookies (c ∷ []) = c
join_cookies (c ∷ d ∷ cs) = c ++ (codes "; " ++ join_cookies (d ∷ cs))

abbrev pub with_host : Text → List (Text × Text) → List (Text × Text)
with_host authority regular =
    if is_nil authority then regular else regular ++ (codes "host", authority) ∷ []

abbrev pub with_cookies : List Text → List (Text × Text) → List (Text × Text)
with_cookies cookies regular =
    if is_nil cookies then regular else regular ++ (codes "cookie", join_cookies cookies) ∷ []

-- Headers(regular), its ValueErrors as one.
abbrev pub build_headers : List (Text × Text) → Result DecodeError Headers
build_headers regular = elim (Headers.headers regular) [ ok h ↦ ok h | err _ ↦ err bad_headers ]

unfoldable pub content_length : Http2Config → Option Text → Result DecodeError (Option ℕ)
unfolding is_decimal
content_length c none = ok none
content_length c (some raw) =
    if not (is_decimal raw)
    then err bad_content_length
    else if ltb c.max_body_bytes (to_int raw)
    then err content_length_too_large
    else ok (some (to_int raw))

pub record Decoded : Type 0 where
  pub method : Text
  pub path : Text
  pub headers : Headers
  pub expected_content_length : Option ℕ

-- Behind the loop: the checks of what it has collected.
unfoldable pub assemble : Http2Config → Scan → Result DecodeError Decoded
unfolding pseudo_value is_origin_form has_name content_length is_token_char
assemble c s =
    let method = pseudo_value (codes ":method") s.pseudo in
    let path = pseudo_value (codes ":path") s.pseudo in
    let authority = pseudo_value (codes ":authority") s.pseudo in
    do
      guard (all_known s.pseudo) unknown_pseudo
      guard (not (text_equal method (codes "CONNECT"))) connect_method
      guard
          (not (is_nil method)
            && not (is_nil (pseudo_value (codes ":scheme") s.pseudo))
            && not (is_nil path))
          missing_pseudo
      guard (every is_token_char method) bad_method
      guard (is_origin_form path) bad_path
      guard (is_nil authority || not (has_name (codes "host") s.regular)) host_twice
      guard (not (is_nil authority) || has_name (codes "host") s.regular) no_host
      headers ← build_headers (with_cookies s.cookies (with_host authority s.regular))
      length ← content_length c (Headers.get headers (codes "content-length"))
      ok (record {
        method = method;
        path = path;
        headers = headers;
        expected_content_length = length;
      })

unfoldable pub decode_request_headers :
    Http2Config → List (Text × Text) → Result DecodeError Decoded
unfolding scan_headers assemble
decode_request_headers c raw_headers =
    if ltb c.max_header_count (length raw_headers)
    then err too_many_headers
    else do s ← scan_headers c scan_init raw_headers; assemble c s
