-- ===== src/Http2/Protocol/Reading.antt =====
-- The counters and limits of `H2Protocol` through the handlers of hyper-h2's events.
use small_server.Prelude.{
  ℕ, ◌+◌, ◌≤◌, ◌<◌, ◌≡◌, Bool, true, false, none, some, inl, inr, List, ◌++◌, ltb, leb, leb→lt,
  Bool-cases, Option-cases, length, length-append, Result, ok, err, arith, ◌||◌,
}
use small_server.Prelude.Dict
use small_server.Prelude.Dict.{
  Dict, nat_eq, total, total-put_old, total-put_new, length-add, AllKeys, AllKeys-remove,
  AllKeys-put, AllKeys-get,
}
use small_server.Prelude.Text.{Text}
use small_server.Http.Request
use small_server.Http.Request.{Request}
use small_server.Http2.RequestHeaders.{DecodeError, Decoded, decode_request_headers}
use small_server.Http2.Connection.{
  H2, protocol_error, refused_stream, enhance_your_calm, stream_closed, Event, request_received,
  data_received, stream_ended, stream_reset, trailers_received, window_updated, settings_changed,
  connection_terminated,
}
use small_server.Http2.Protocol.{Protocol, InboundStream, reset_stream}
use small_server.Http2.Protocol.Input.{
  on_request, buffer_data, on_data, add_ready, finish_stream, on_ended, on_event, new_stream,
  exceeds, differs,
}
use small_server.Http2.Protocol.Accounting.{
  Inv, body_size, drop_stream-Inv, reset_stream-Inv, connection-Inv,
}

-- The test of `_data_received`.
abbrev pub too_big : {h2 : H2} → Protocol h2 → Text → InboundStream → Bool
too_big p part stream =
    ltb p.config.max_body_bytes (length stream.body + length part)
    || exceeds stream.expected_content_length (length stream.body + length part)
    || ltb p.config.max_connection_buffer_bytes (p.buffered_request_bytes + length part)

buffer_within :
    {h2 : H2} (p : Protocol h2) (part : Text) (s : InboundStream)
    → too_big p part s ≡ false
    → p.buffered_request_bytes + length part ≤ p.config.max_connection_buffer_bytes
buffer_within p part s h = ground arith

module _ {h2 : H2} where
  on_request-Inv :
      (p : Protocol h2) (k : ℕ) (raw_headers : List (Text × Text))
      → Dict.get k p.inbound ≡ none
      → Inv 0 p
      → Inv 0 (on_request p k raw_headers)
  unfolding on_request
  on_request-Inv p k raw_headers fresh v =
      elim (Bool-cases (leb p.config.max_concurrent_streams (length p.active_streams))) [
        | inl full ↦ rw full (reset_stream-Inv 0 p k refused_stream v)
        | inr room ↦
            rw room (decoded (decode_request_headers p.config raw_headers) (leb→lt _ _ room))
      ]
    where
      decoded :
          (r : Result DecodeError Decoded)
          → length p.active_streams < p.config.max_concurrent_streams
          → Inv 0 (elim r [
            | err _ ↦ reset_stream p k protocol_error
            | ok d ↦ record p {
              active_streams = Dict.add k p.active_streams;
              inbound = Dict.put k (new_stream d) p.inbound;
            }
          ])
      decoded (err _) room = reset_stream-Inv 0 p k protocol_error v
      decoded (ok d) room = record {
        buffered =
            omega (arith, v.buffered, total-put_new body_size k (new_stream d) p.inbound fresh);
        pending = v.pending;
        streams_le = omega (arith, length-add k p.active_streams);
        buffered_le = v.buffered_le;
        control_le = v.control_le;
        output_le = v.output_le;
      }

  buffer_data-Inv :
      (p : Protocol h2) (k : ℕ) (part : Text) (s : InboundStream)
      → Dict.get k p.inbound ≡ some s
      → Inv 0 p
      → Inv 0 (buffer_data p k part s)
  unfolding buffer_data
  buffer_data-Inv p k part s found v = elim (Bool-cases (too_big p part s)) [
    | inl big ↦ rw big (reset_stream-Inv 0 p k enhance_your_calm v)
    | inr small ↦ rw small (elim (Bool-cases s.frozen) [
      | inl frozen ↦ rw frozen (reset_stream-Inv 0 p k stream_closed v)
      | inr open_body ↦ rw open_body (record {
        buffered = omega (
          arith,
          v.buffered,
          length-append s.body part,
          total-put_old body_size k (record s { body = s.body ++ part; frozen = false }) p.inbound
              found,
        );
        pending = v.pending;
        streams_le = v.streams_le;
        buffered_le = buffer_within p part s small;
        control_le = v.control_le;
        output_le = v.output_le;
      })
    ])
  ]

  add_ready-Inv :
      (p : Protocol h2) (k : ℕ) (r : Result Request.RequestError Request)
      → Inv 0 p
      → Inv 0 (add_ready p k r).1
  unfolding add_ready
  add_ready-Inv p k (err _) v = v
  add_ready-Inv p k (ok r) v = record {
    buffered = v.buffered;
    pending = v.pending;
    streams_le = v.streams_le;
    buffered_le = v.buffered_le;
    control_le = v.control_le;
    output_le = v.output_le;
  }

  finish_stream-Inv :
      (p : Protocol h2) (k : ℕ) (s : InboundStream)
      → Dict.get k p.inbound ≡ some s
      → Inv 0 p
      → Inv 0 (finish_stream p k s).1
  unfolding finish_stream
  finish_stream-Inv p k s found v =
      elim (Bool-cases (differs s.expected_content_length (length s.body))) [
        | inl wrong ↦ rw wrong (reset_stream-Inv 0 p k protocol_error v)
        | inr right ↦ rw right (
            add_ready-Inv _ k _ (record {
              buffered = omega (
                arith,
                v.buffered,
                total-put_old body_size k (record s { dispatched = true; frozen = true }) p.inbound
                    found,
              );
              pending = v.pending;
              streams_le = v.streams_le;
              buffered_le = v.buffered_le;
              control_le = v.control_le;
              output_le = v.output_le;
            }))
      ]

  on_data-Inv :
      (p : Protocol h2) (k : ℕ) (part : Text) (flow : ℕ) → Inv 0 p → Inv 0 (on_data p k part flow).1
  unfolding on_data
  on_data-Inv p k part flow v =
      elim (Option-cases (h2.acknowledge_received_data p.connection flow k)) [
        | inl raised ↦ rw (raised, on_data) v
        | inr (c, acked) ↦ elim (Option-cases (Dict.get k p.inbound)) [
          | inl missing ↦ rw (acked, missing, on_data) (connection-Inv 0 p c v)
          | inr (s, found) ↦
              rw (acked, found, on_data)
                (buffer_data-Inv (record p { connection = c }) k part s found
                  (connection-Inv 0 p c v))
        ]
      ]

  on_ended-Inv : (p : Protocol h2) (k : ℕ) → Inv 0 p → Inv 0 (on_ended p k).1
  unfolding on_ended
  on_ended-Inv p k v = elim (Option-cases (Dict.get k p.inbound)) [
    | inl missing ↦ rw (missing, on_ended) v
    | inr (s, found) ↦ rw (found, on_ended) (finish_stream-Inv p k s found v)
  ]

  cancelled-Inv :
      (p : Protocol h2) (ids : List ℕ) → Inv 0 p → Inv 0 (record p { cancelled_streams = ids })
  cancelled-Inv p ids v = record {
    buffered = v.buffered;
    pending = v.pending;
    streams_le = v.streams_le;
    buffered_le = v.buffered_le;
    control_le = v.control_le;
    output_le = v.output_le;
  }

  -- A request opens a stream that holds no other request.
  abbrev pub Opens : Protocol h2 → Event → Type 0
  Opens p (request_received k raw_headers) = Dict.get k p.inbound ≡ none
  Opens p _ = Unit

  pub on_event-Inv : (p : Protocol h2) (e : Event) → Opens p e → Inv 0 p → Inv 0 (on_event p e).1
  unfolding on_event
  on_event-Inv p (request_received k raw_headers) o v = on_request-Inv p k raw_headers o v
  on_event-Inv p (data_received k part flow) o v = on_data-Inv p k part flow v
  on_event-Inv p (stream_ended k) o v = on_ended-Inv p k v
  on_event-Inv p (stream_reset k) o v = drop_stream-Inv 0 _ k (cancelled-Inv p _ v)
  on_event-Inv p (trailers_received k) o v = reset_stream-Inv 0 p k protocol_error v
  on_event-Inv p window_updated o v = v
  on_event-Inv p settings_changed o v = v
  on_event-Inv p connection_terminated o v = record {
    buffered = v.buffered;
    pending = v.pending;
    streams_le = v.streams_le;
    buffered_le = v.buffered_le;
    control_le = v.control_le;
    output_le = v.output_le;
  }
