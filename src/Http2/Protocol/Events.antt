-- ===== src/Http2/Protocol/Events.antt =====
-- A whole batch of hyper-h2's events: the counters of `H2Protocol` stay right, given that the peer's
-- request streams come in increasing order of their ids, as RFC 9113 (5.1.1) has it.
use small_server.Prelude.{
  ℕ, ◌≤◌, ◌<◌, ◌≡◌, sym, subst, none, some, inl, inr, List, [], ◌∷◌, leb, Bool-cases, Option-cases,
  length, Result, ok, err, arith,
}
use small_server.Prelude.Dict
use small_server.Prelude.Dict.{
  nat_eq, AllKeys, AllKeys-remove, AllKeys-put, AllKeys-get, AllKeys-map,
}
use small_server.Prelude.Text.{Text}
use small_server.Http.Request
use small_server.Http.Request.{Request}
use small_server.Http2.Connection.{
  H2, ErrorCode, protocol_error, refused_stream, enhance_your_calm, stream_closed, Event,
  request_received, data_received, stream_ended, stream_reset, trailers_received, window_updated,
  settings_changed, connection_terminated,
}
use small_server.Http2.RequestHeaders.{DecodeError, Decoded, decode_request_headers}
use small_server.Http2.Protocol.{
  Protocol, InboundStream, Step, and_then, release_inbound, drop_outbound, drop_commands,
  drop_stream, reset_stream,
}
use small_server.Http2.Protocol.Input.{
  on_request, buffer_data, on_data, add_ready, finish_stream, on_ended, on_event, on_events,
  differs, new_stream,
}
use small_server.Http2.Protocol.Accounting.{Inv}
use small_server.Http2.Protocol.Reading.{on_event-Inv, too_big}

-- Every request in the batch opens a stream above `high` and above those before it.
abbrev pub Increasing : ℕ → List Event → Type 0
Increasing high [] = Unit
Increasing high (request_received k raw_headers ∷ es) = (high < k) × Increasing k es
Increasing high (_ ∷ es) = Increasing high es

abbrev pub highest : ℕ → Event → ℕ
highest high (request_received k raw_headers) = k
highest high _ = high

module _ {h2 : H2} where
  -- No request is held for a stream above `high`.
  abbrev pub Below : ℕ → Protocol h2 → Type 0
  Below high p = AllKeys (λ j. j ≤ high) p.inbound

  inbound-drop_outbound : (p : Protocol h2) (k : ℕ) → (drop_outbound p k).inbound ≡ p.inbound
  unfolding drop_outbound
  inbound-drop_outbound p k = elim (Option-cases (Dict.get k p.outbound)) [
    | inl missing ↦ rw (missing, drop_outbound)
    | inr (s, found) ↦ rw (found, drop_outbound)
  ]

  release_inbound-Below :
      (high : ℕ) (p : Protocol h2) (k : ℕ) → Below high p → Below high (release_inbound p k)
  unfolding release_inbound
  release_inbound-Below high p k b = elim (Option-cases (Dict.get k p.inbound)) [
    | inl missing ↦ rw (missing, release_inbound) b
    | inr (s, found) ↦ rw (found, release_inbound) (AllKeys-remove _ k p.inbound b)
  ]

  drop_stream-Below :
      (high : ℕ) (p : Protocol h2) (k : ℕ) → Below high p → Below high (drop_stream p k)
  unfolding drop_stream drop_commands
  drop_stream-Below high p k b =
      subst (AllKeys (λ j. j ≤ high)) (sym (inbound-drop_outbound _ k))
        (release_inbound-Below high p k b)

  reset_stream-Below :
      (high : ℕ) (p : Protocol h2) (k : ℕ) (code : ErrorCode)
      → Below high p
      → Below high (reset_stream p k code)
  unfolding reset_stream
  reset_stream-Below high p k code b = drop_stream-Below high _ k b

  buffer_data-Below :
      (high : ℕ) (p : Protocol h2) (k : ℕ) (part : Text) (s : InboundStream)
      → Dict.get k p.inbound ≡ some s
      → Below high p
      → Below high (buffer_data p k part s)
  unfolding buffer_data
  buffer_data-Below high p k part s found b = elim (Bool-cases (too_big p part s)) [
    | inl big ↦ rw big (reset_stream-Below high p k enhance_your_calm b)
    | inr small ↦ rw small (elim (Bool-cases s.frozen) [
      | inl frozen ↦ rw frozen (reset_stream-Below high p k stream_closed b)
      | inr open_body ↦
          rw open_body (AllKeys-put _ k _ p.inbound (AllKeys-get _ k p.inbound found b) b)
    ])
  ]

  on_data-Below :
      (high : ℕ) (p : Protocol h2) (k : ℕ) (part : Text) (flow : ℕ)
      → Below high p
      → Below high (on_data p k part flow).1
  unfolding on_data
  on_data-Below high p k part flow b =
      elim (Option-cases (h2.acknowledge_received_data p.connection flow k)) [
        | inl raised ↦ rw (raised, on_data) b
        | inr (c, acked) ↦ elim (Option-cases (Dict.get k p.inbound)) [
          | inl missing ↦ rw (acked, missing, on_data) b
          | inr (s, found) ↦
              rw (acked, found, on_data)
                (buffer_data-Below high (record p { connection = c }) k part s found b)
        ]
      ]

  add_ready-Below :
      (high : ℕ) (p : Protocol h2) (k : ℕ) (r : Result Request.RequestError Request)
      → Below high p
      → Below high (add_ready p k r).1
  unfolding add_ready
  add_ready-Below high p k (err _) b = b
  add_ready-Below high p k (ok r) b = b

  finish_stream-Below :
      (high : ℕ) (p : Protocol h2) (k : ℕ) (s : InboundStream)
      → Dict.get k p.inbound ≡ some s
      → Below high p
      → Below high (finish_stream p k s).1
  unfolding finish_stream
  finish_stream-Below high p k s found b =
      elim (Bool-cases (differs s.expected_content_length (length s.body))) [
        | inl wrong ↦ rw wrong (reset_stream-Below high p k protocol_error b)
        | inr right ↦ rw right (
            add_ready-Below high _ k _
              (AllKeys-put _ k _ p.inbound (AllKeys-get _ k p.inbound found b) b))
      ]

  on_ended-Below : (high : ℕ) (p : Protocol h2) (k : ℕ) → Below high p → Below high (on_ended p k).1
  unfolding on_ended
  on_ended-Below high p k b = elim (Option-cases (Dict.get k p.inbound)) [
    | inl missing ↦ rw (missing, on_ended) b
    | inr (s, found) ↦ rw (found, on_ended) (finish_stream-Below high p k s found b)
  ]

  on_request-Below :
      (high : ℕ) (p : Protocol h2) (k : ℕ) (raw_headers : List (Text × Text))
      → high < k
      → Below high p
      → Below k (on_request p k raw_headers)
  unfolding on_request
  on_request-Below high p k raw_headers h b =
      elim (Bool-cases (leb p.config.max_concurrent_streams (length p.active_streams))) [
        | inl full ↦ rw full (reset_stream-Below k p k refused_stream raised)
        | inr room ↦ rw room (decoded (decode_request_headers p.config raw_headers))
      ]
    where
      raised : Below k p
      raised = AllKeys-map (λ j. j ≤ high) (λ j. j ≤ k) (λ j l. omega arith) p.inbound b

      decoded :
          (r : Result DecodeError Decoded)
          → Below k (elim r [
            | err _ ↦ reset_stream p k protocol_error
            | ok d ↦ record p {
              active_streams = Dict.add k p.active_streams;
              inbound = Dict.put k (new_stream d) p.inbound;
            }
          ])
      decoded (err _) = reset_stream-Below k p k protocol_error raised
      decoded (ok d) = AllKeys-put _ k _ p.inbound (omega arith) raised

  fresh :
      (high : ℕ) (p : Protocol h2) (k : ℕ) → high < k → Below high p → Dict.get k p.inbound ≡ none
  fresh high p k h b = elim (Option-cases (Dict.get k p.inbound)) [
    | inl missing ↦ missing
    | inr (s, found) ↦ absurd (too_high (AllKeys-get (λ j. j ≤ high) k p.inbound found b))
  ]
    where
      too_high : k ≤ high → ⊥
      too_high l = omega arith

  -- The invariant with the bound on the streams that are open.
  abbrev pub Open : ℕ → Protocol h2 → Type 0
  Open high p = Inv 0 p × Below high p

  on_event-Open :
      (high : ℕ) (p : Protocol h2) (e : Event) (es : List Event)
      → Increasing high (e ∷ es)
      → Open high p
      → Open (highest high e) (on_event p e).1 × Increasing (highest high e) es
  on_event-Open high p (request_received k raw) es (h, i) (v, b) = (
    (
      on_event-Inv p (request_received k raw) (fresh high p k h b) v,
      unfold on_event in on_request-Below high p k raw h b,
    ),
    i,
  )
  on_event-Open high p (data_received k part flow) es i (v, b) = (
    (
      on_event-Inv p (data_received k part flow) tt v,
      unfold on_event in on_data-Below high p k part flow b,
    ),
    i,
  )
  on_event-Open high p (stream_ended k) es i (v, b) =
      ((on_event-Inv p (stream_ended k) tt v, unfold on_event in on_ended-Below high p k b), i)
  on_event-Open high p (stream_reset k) es i (v, b) =
      ((on_event-Inv p (stream_reset k) tt v, unfold on_event in drop_stream-Below high _ k b), i)
  on_event-Open high p (trailers_received k) es i (v, b) = (
    (
      on_event-Inv p (trailers_received k) tt v,
      unfold on_event in reset_stream-Below high p k protocol_error b,
    ),
    i,
  )
  on_event-Open high p window_updated es i (v, b) =
      ((on_event-Inv p window_updated tt v, unfold on_event in b), i)
  on_event-Open high p settings_changed es i (v, b) =
      ((on_event-Inv p settings_changed tt v, unfold on_event in b), i)
  on_event-Open high p connection_terminated es i (v, b) =
      ((on_event-Inv p connection_terminated tt v, unfold on_event in b), i)

  -- From a state within the invariant whose requests are on streams up to `high`, any batch of
  -- events whose requests open streams above `high` in increasing order ends within the invariant,
  -- also where a handler raises: `_buffered_request_bytes` is the sum of the bodies held,
  -- `_pending_output_bytes` that of the output that waits, and the limits on streams, buffers and
  -- output hold.
  pub on_events-Inv :
      (high : ℕ) (es : List Event) (p : Protocol h2)
      → Increasing high es
      → Inv 0 p
      → Below high p
      → Inv 0 (on_events es p).1
  unfolding on_events
  on_events-Inv high [] p i v b = v
  on_events-Inv high (e ∷ es) p i v b =
      let (o, i') = on_event-Open high p e es i (v, b) in
      go (on_event p e) o i' (on_events-Inv (highest high e) es)
    where
      go :
          (r : Step h2 (Unit {0}))
          → Open (highest high e) r.1
          → Increasing (highest high e) es
          → ((q : Protocol h2)
              → Increasing (highest high e) es
              → Inv 0 q
              → Below (highest high e) q
              → Inv 0 (on_events es q).1)
          → Inv 0 (and_then r (λ _. on_events es)).1
      go (ok _, q) o i' ih = ih q i' o.0 o.1
      go (err _, q) o i' ih = o.0
