-- ===== src/Server/RequestParser/Chunking.antt =====
-- How the bytes of a request are cut into chunks does not matter to `HTTPRequestParser.feed`.
use small_server.Prelude.{
  ℕ, zero, suc, ◌+◌, ◌≤◌, ◌≡◌, refl, sym, ap, ◌∙◌, true, ◌&&◌, Option, none, some, inl, inr, [],
  ◌∷◌, ◌++◌, append_assoc, Bool-cases, Option-cases, ltb, not, length, drop, take, Result,
  Result-cases, ok, err, ◌>>=◌, arith,
}
use small_server.Prelude.Text.{Text, starts_with}
use small_server.Http.Request.{Request}
use small_server.Server.RequestParser.{
  Parser, Head, ParseError, pipelined, find_marker, parse_head, parse_header_lines, make_request,
  feed_body, after_marker, after_head, feed_buffer, feed,
}

abbrev marker : Text
marker = 13 ∷ 10 ∷ 13 ∷ 10 ∷ []

starts_with-append : (s t u : Text) → length u ≤ length s → starts_with (s ++ t) u ≡ starts_with s u
unfolding starts_with
starts_with-append s t [] h = ground arith
starts_with-append [] t (x ∷ u) h = absurd (omega (arith, h))
starts_with-append (c ∷ s) t (x ∷ u) h = ground (arith, starts_with-append s t u (omega arith))

starts_with-length : (s u : Text) → starts_with s u ≡ true → length u ≤ length s
unfolding starts_with
starts_with-length s [] h = omega arith
starts_with-length [] (x ∷ u) h = cc
starts_with-length (c ∷ s) (x ∷ u) h = ground (arith, starts_with-length s u)

find_marker-length : (s : Text) {m : Text × Text} → find_marker s ≡ some m → 4 ≤ length s
unfolding find_marker
find_marker-length [] h = cc
find_marker-length (c ∷ s) {m} h = elim (Bool-cases (starts_with (c ∷ s) marker)) [
  | inl here ↦ starts_with-length (c ∷ s) marker here
  | inr later ↦ elim (Option-cases (find_marker s)) [
    | inl missing ↦ absurd (none_ne (rw (later, missing) at h))
    | inr (m', found) ↦ omega (arith, find_marker-length s found)
  ]
]
  where
    none_ne : ◌≡◌ {A = Option (Text × Text)} none (some m) → ⊥
    none_ne e = cc

drop-append : (n : ℕ) (s t : Text) → n ≤ length s → drop n (s ++ t) ≡ drop n s ++ t
drop-append zero s t h = refl
drop-append (suc n) [] t h = absurd (omega (arith, h))
drop-append (suc n) (c ∷ s) t h = drop-append n s t (omega arith)

abbrev with_rest : Text → Text × Text → Text × Text
with_rest t m = (m.0, m.1 ++ t)

-- A marker that is found stays where it is when more bytes come.
find_marker-append :
    (s t : Text) {m : Text × Text}
    → find_marker s ≡ some m
    → find_marker (s ++ t) ≡ some (with_rest t m)
unfolding find_marker
find_marker-append [] t h = cc
find_marker-append (c ∷ s) t {m} h = elim (Bool-cases (starts_with (c ∷ s) marker)) [
  | inl here ↦
      rw
        (
          starts_with-append (c ∷ s) t marker (starts_with-length (c ∷ s) marker here),
          here,
          drop-append 3 s t (omega (arith, starts_with-length (c ∷ s) marker here)),
        )
        (at_start (rw here at h))
  | inr later ↦ elim (Option-cases (find_marker s)) [
    | inl missing ↦ absurd (none_ne (rw (later, missing) at h))
    | inr (m', found) ↦
        rw
          (
            starts_with-append (c ∷ s) t marker (omega (arith, find_marker-length s found)),
            later,
            find_marker-append s t found,
          )
          (further m' (rw (later, found) at h))
  ]
]
  where
    none_ne : ◌≡◌ {A = Option (Text × Text)} none (some m) → ⊥
    none_ne e = cc

    at_start :
        ◌≡◌ {A = Option (Text × Text)} (some ([], drop 3 s)) (some m)
        → ◌≡◌ {A = Option (Text × Text)} (some ([], drop 3 s ++ t)) (some (with_rest t m))
    at_start e = ap (λ o. elim o [ none ↦ none | some m ↦ some (with_rest t m) ]) e

    further :
        (m' : Text × Text)
        → ◌≡◌ {A = Option (Text × Text)} (some (c ∷ m'.0, m'.1)) (some m)
        → ◌≡◌ {A = Option (Text × Text)} (some (c ∷ m'.0, m'.1 ++ t)) (some (with_rest t m))
    further m' e = ap (λ o. elim o [ none ↦ none | some m ↦ some (with_rest t m) ]) e

-- A body that is incomplete leaves the parser as it is.
feed_body-none : (p : Parser) (h : Head) → (feed_body p h).0 ≡ ok none → (feed_body p h).1 ≡ p
unfolding feed_body
feed_body-none p h e =
    elim (Bool-cases (ltb h.content_length (length p.buffer) && not p.preserve_trailing_data)) [
      | inl piped ↦ absurd (err_ne (rw piped at e))
      | inr alone ↦ elim (Bool-cases (ltb (length p.buffer) h.content_length)) [
        | inl short ↦ rw (alone, short) refl
        | inr full ↦
            absurd
              (made_ne (make_request h (take h.content_length p.buffer)) (rw (alone, full) at e))
      ]
    ]
  where
    err_ne : ◌≡◌ {A = Result ParseError (Option Request)} (err pipelined) (ok none) → ⊥
    err_ne e = cc

    made_ne :
        (m : Result ParseError Request)
        → ◌≡◌ {A = Result ParseError (Option Request)} (m >>= λ r. ok (some r)) (ok none)
        → ⊥
    made_ne (ok r) e = cc
    made_ne (err x) e = cc

parse_head-buffer :
    (p : Parser) (raw b c : Text)
    → parse_head (record p { buffer = b }) raw ≡ parse_head (record p { buffer = c }) raw
unfolding parse_head parse_header_lines
parse_head-buffer p raw b c = refl

abbrev holding : Parser → Text → Parser
holding p b = record p { buffer = b }

err_ne : {x : ParseError} → ◌≡◌ {A = Result ParseError (Option Request)} (err x) (ok none) → ⊥
err_ne q = cc

-- `feed` behind a head that has come.
body-append :
    (p : Parser) (h : Head) (second : Text)
    → p.request_head ≡ some h
    → (feed_body p h).0 ≡ ok none
    → feed (feed_body p h).1 second ≡ feed_body (holding p (p.buffer ++ second)) h
unfolding feed feed_buffer
body-append p h second head e = rw (feed_body-none p h e, head) refl

-- `feed` where no head has come yet.
head-append :
    (p : Parser) (second : Text)
    → p.request_head ≡ none
    → (feed_buffer p none).0 ≡ ok none
    → feed (feed_buffer p none).1 second ≡ feed_buffer (holding p (p.buffer ++ second)) none
unfolding feed_buffer after_marker after_head
head-append p second head e = elim (Option-cases (find_marker p.buffer)) [
  | inl missing ↦ elim (Bool-cases (ltb p.max_header_bytes (length p.buffer))) [
    | inl large ↦ absurd (err_ne (rw (missing, large) at e))
    | inr small ↦ rw (missing, small) (unfold feed in rw head refl)
  ]
  | inr (m, found) ↦ elim (Bool-cases (ltb p.max_header_bytes (length m.0 + 4))) [
    | inl large ↦ absurd (err_ne (rw (found, large) at e))
    | inr small ↦ elim (Result-cases (parse_head p m.0)) [
      | inl (x, bad) ↦ absurd (err_ne (rw (found, small, bad) at e))
      | inr (h, good) ↦
          rw (found, find_marker-append p.buffer second found, small, good)
            (body-append (record p { buffer = m.1; request_head = some h }) h second refl
                (rw (found, small, good) at e)
              ∙ ap (after_head (holding p (p.buffer ++ second)) (m.1 ++ second))
                  (sym (parse_head-buffer p m.0 (p.buffer ++ second) p.buffer ∙ good)))
    ]
  ]
]

feed-none :
    (p : Parser) (new : Text)
    → p.request_head ≡ none
    → feed p new ≡ feed_buffer (holding p (p.buffer ++ new)) none
unfolding feed
feed-none p new h = rw h refl

feed-some :
    (p : Parser) (new : Text) {head : Head}
    → p.request_head ≡ some head
    → feed p new ≡ feed_body (holding p (p.buffer ++ new)) head
unfolding feed feed_buffer
feed-some p new h = rw h refl

-- Where a feed leaves the request incomplete, a second feed gives the answer and leaves the parser
-- that one feed of both gives.
pub feed-append_parser :
    (p : Parser) (first second : Text)
    → (feed p first).0 ≡ ok none
    → feed (feed p first).1 second ≡ feed p (first ++ second)
feed-append_parser p first second e = elim (Option-cases p.request_head) [
  | inl missing ↦
      ap (λ s. feed s.1 second) (feed-none p first missing)
      ∙ head-append (holding p (p.buffer ++ first)) second missing
          (rw (feed-none p first missing) at e)
      ∙ ap (λ b. feed_buffer (holding p b) none) (append_assoc p.buffer first second)
      ∙ sym (feed-none p (first ++ second) missing)
  | inr (h, found) ↦
      ap (λ s. feed s.1 second) (feed-some p first found)
      ∙ body-append (holding p (p.buffer ++ first)) h second found
          (rw (feed-some p first found) at e)
      ∙ ap (λ b. feed_body (holding p b) h) (append_assoc p.buffer first second)
      ∙ sym (feed-some p (first ++ second) found)
]
