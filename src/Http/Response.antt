-- ===== src/Http/Response.antt =====
-- `Response` of smallserver/http.py.
use small_server.Prelude.{
  ℕ, ◌+◌, ◌/◌, ◌%◌, not, ◌&&◌, Option, none, some, ltb, ◌>>=◌, List, [], ◌∷◌, ◌++◌, leb, ◌==◌,
  if◌then◌else◌, length, map, Result, ok, err,
}
use small_server.Prelude.Decimal.{decimal}
use small_server.Prelude.Text.{Text, text_eq, codes, text_equal}
use small_server.Prelude.Dict
use small_server.Prelude.Dict.{Dict}
use small_server.Http.Headers
use small_server.Http.Headers.{Headers}

pub record Response : Type 0 where
  pub status : ℕ
  pub body : Text
  pub headers : Headers

pub data ResponseError : Type 0 where
  bad_status bad_content_length : ResponseError

-- `__post_init__`
unfoldable pub post_init : Response → Result ResponseError Response
unfolding Headers.get decimal text_equal
post_init r =
    if not (leb 100 r.status && leb r.status 599)
    then err bad_status
    else elim (Headers.get r.headers (codes "content-length")) [
      | none ↦ ok r
      | some n ↦ if text_equal n (decimal (length r.body)) then ok r else err bad_content_length
    ]

abbrev pub reasons : ℕ → Text
reasons status =
    if status == 101
    then codes "Switching Protocols"
    else if status == 200
    then codes "OK"
    else if status == 201
    then codes "Created"
    else if status == 204
    then codes "No Content"
    else if status == 400
    then codes "Bad Request"
    else if status == 403
    then codes "Forbidden"
    else if status == 404
    then codes "Not Found"
    else if status == 405
    then codes "Method Not Allowed"
    else if status == 413
    then codes "Payload Too Large"
    else if status == 414
    then codes "URI Too Long"
    else if status == 408
    then codes "Request Timeout"
    else if status == 426
    then codes "Upgrade Required"
    else if status == 500
    then codes "Internal Server Error"
    else if status == 503
    then codes "Service Unavailable"
    else []

abbrev pub crlf : Text
crlf = 13 ∷ 10 ∷ []

-- "HTTP/1.1 {} {}".format(status, reason).rstrip(): only the blank before an empty reason can go.
unfoldable pub status_line : ℕ → Text
unfolding decimal
status_line status = elim (reasons status) [
  | [] ↦ codes "HTTP/1.1 " ++ decimal status
  | c ∷ s ↦ codes "HTTP/1.1 " ++ (decimal status ++ (b' ' ∷ c ∷ s))
]

abbrev pub header_line : Text × Text → Text
header_line (name, value) = name ++ (b':' ∷ b' ' ∷ value)

-- The lines of the head, in order.
unfoldable pub head_lines : Response → List Text
unfolding status_line Headers.get decimal
head_lines r =
    let given = map header_line (Headers.items r.headers) in
    let length_line = codes "Content-Length: " ++ decimal (length r.body) in
    status_line r.status ∷ (elim (Headers.get r.headers (codes "content-length")) [
      | none ↦ length_line ∷ given
      | some _ ↦ given
    ])

-- "\r\n".join(lines)
abbrev pub join_lines : List Text → Text
join_lines [] = []
join_lines (l ∷ []) = l
join_lines (l ∷ m ∷ ls) = l ++ (crlf ++ join_lines (m ∷ ls))

unfoldable pub to_http1 : Response → Text
unfolding head_lines
to_http1 r = join_lines (head_lines r) ++ (crlf ++ (crlf ++ r.body))

-- str.encode("utf-8"), of a text without surrogates.
unfoldable pub utf8_bytes : ℕ → Text
utf8_bytes c =
    if ltb c 0x80
    then c ∷ []
    else if ltb c 0x800
    then (0xC0 + c / 64) ∷ (0x80 + c % 64) ∷ []
    else if ltb c 0x10000
    then (0xE0 + c / 4096) ∷ (0x80 + c / 64 % 64) ∷ (0x80 + c % 64) ∷ []
    else (0xF0 + c / 262144) ∷ (0x80 + c / 4096 % 64) ∷ (0x80 + c / 64 % 64) ∷ (0x80 + c % 64) ∷ []

unfoldable pub encode : Text → Text
unfolding utf8_bytes
encode [] = []
encode (c ∷ cs) = utf8_bytes c ++ encode cs

-- What the constructor behind `Response.text` raises.
pub data TextError : Type 0 where
  bad_header : Headers.HeaderError → TextError
  bad_response : ResponseError → TextError

abbrev pub or_header : {A : Type 0} → Result Headers.HeaderError A → Result TextError A
or_header (ok a) = ok a
or_header (err x) = err (bad_header x)

abbrev pub or_response : {A : Type 0} → Result ResponseError A → Result TextError A
or_response (ok a) = ok a
or_response (err x) = err (bad_response x)

-- combined.setdefault("Content-Type", ...), on a plain dict.
abbrev pub with_default_type : Option Text → Dict Text Text → Dict Text Text
with_default_type (some t) given = given
with_default_type none given =
    given ++ (codes "Content-Type", codes "text/plain; charset=utf-8") ∷ []

-- `Response.text`
unfoldable pub text : Text → ℕ → Dict Text Text → Result TextError Response
unfolding encode
text value status given =
    or_header (Headers.headers (with_default_type (Dict.get (codes "Content-Type") given) given))
    >>= λ h. or_response (post_init (record { status = status; body = encode value; headers = h }))
