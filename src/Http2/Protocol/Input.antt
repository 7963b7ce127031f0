-- ===== src/Http2/Protocol/Input.antt =====
-- The reading half of `H2Protocol`: `receive_data` and the handlers of its events.
use small_server.Prelude.{
  ℕ, ◌+◌, max, Bool, true, false, not, ◌&&◌, ◌||◌, Option, none, some, List, [], ◌∷◌, ◌++◌, ltb,
  leb, ◌==◌, if◌then◌else◌, is_nil, length, Result, ok, err,
}
use small_server.Prelude.Dict
use small_server.Prelude.Dict.{Dict, nat_eq}
use small_server.Prelude.Text.{Text, codes}
use small_server.Http.Request
use small_server.Http.Request.{Request}
use small_server.Http2.Connection.{
  H2, protocol_error, refused_stream, enhance_your_calm, stream_closed, Event, request_received,
  data_received, stream_ended, stream_reset, trailers_received, window_updated, settings_changed,
  connection_terminated,
}
use small_server.Http2.FrameBudget
use small_server.Http2.Protocol.{
  Protocol, Step, and_then, ReadyRequest, InboundStream, frame_error, connection_error,
  request_error, drop_stream, reset_stream, capture_control_output,
}
use small_server.Http2.RequestHeaders.{Decoded, decode_request_headers}

abbrev pub new_stream : Decoded → InboundStream
new_stream d = record {
  method = d.method;
  path = d.path;
  headers = d.headers;
  body = [];
  expected_content_length = d.expected_content_length;
  dispatched = false;
  frozen = false;
}

-- `Request(stream.method, stream.path, stream.headers, body, "HTTP/2")`, before `__post_init__`.
abbrev pub stream_request : InboundStream → Request
stream_request s = record {
  method = s.method;
  path = s.path;
  headers = s.headers;
  body = s.body;
  version = codes "HTTP/2";
  raw_target = none;
  query_string = [];
  path_params = [];
  route_pattern = none;
}

abbrev pub exceeds : Option ℕ → ℕ → Bool
exceeds none n = false
exceeds (some expected) n = ltb expected n

abbrev pub differs : Option ℕ → ℕ → Bool
differs none n = false
differs (some expected) n = not (n == expected)

-- The requests of streams that the peer has not cancelled and that are still active.
unfoldable pub live_requests : List ℕ → List ℕ → List ReadyRequest → List ReadyRequest
live_requests cancelled active [] = []
live_requests cancelled active (item ∷ items) =
    let rest = live_requests cancelled active items in
    if not (Dict.contains item.stream_id cancelled) && Dict.contains item.stream_id active
    then item ∷ rest
    else rest

module _ {h2 : H2} where
  unfoldable pub on_request : Protocol h2 → ℕ → List (Text × Text) → Protocol h2
  on_request p stream_id raw_headers =
      if leb p.config.max_concurrent_streams (length p.active_streams)
      then reset_stream p stream_id refused_stream
      else elim (decode_request_headers p.config raw_headers) [
        | err _ ↦ reset_stream p stream_id protocol_error
        | ok d ↦ record p {
          active_streams = Dict.add stream_id p.active_streams;
          inbound = Dict.put stream_id (new_stream d) p.inbound;
        }
      ]

  -- `_data_received` behind the acknowledgement.
  unfoldable pub buffer_data : Protocol h2 → ℕ → Text → InboundStream → Protocol h2
  buffer_data p stream_id body_part stream =
      let next_stream_size = length stream.body + length body_part in
      let next_connection_size = p.buffered_request_bytes + length body_part in
      if ltb p.config.max_body_bytes next_stream_size
        || exceeds stream.expected_content_length next_stream_size
        || ltb p.config.max_connection_buffer_bytes next_connection_size
      then reset_stream p stream_id enhance_your_calm
      else if stream.frozen
      then reset_stream p stream_id stream_closed
      else record p {
        inbound = Dict.put stream_id (record stream { body = stream.body ++ body_part }) p.inbound;
        buffered_request_bytes = next_connection_size;
      }

  unfoldable pub on_data : Protocol h2 → ℕ → Text → ℕ → Step h2 (Unit {0})
  on_data p stream_id body_part flow_length =
      elim (h2.acknowledge_received_data p.connection flow_length stream_id) [
        | none ↦ (err connection_error, p)
        | some connection ↦
            let p' = record p { connection = connection } in
            elim (Dict.get stream_id p.inbound) [
              | none ↦ (ok tt, p')
              | some stream ↦ (ok tt, buffer_data p' stream_id body_part stream)
            ]
      ]

  unfoldable pub add_ready :
      Protocol h2 → ℕ → Result Request.RequestError Request → Step h2 (Unit {0})
  add_ready p stream_id (err _) = (err request_error, p)
  add_ready p stream_id (ok request) = (
    ok tt,
    record p {
      ready_requests =
          p.ready_requests ++ (record { stream_id = stream_id; request = request }) ∷ [];
    },
  )

  -- `_stream_ended`, and the append of its result to the ready requests.
  unfoldable pub finish_stream : Protocol h2 → ℕ → InboundStream → Step h2 (Unit {0})
  finish_stream p stream_id stream =
      if differs stream.expected_content_length (length stream.body)
      then (ok tt, reset_stream p stream_id protocol_error)
      else add_ready
          (record p {
            last_processed_stream_id = max p.last_processed_stream_id stream_id;
            inbound =
                Dict.put stream_id (record stream { dispatched = true; frozen = true }) p.inbound;
          })
          stream_id (Request.post_init (stream_request stream))

  unfoldable pub on_ended : Protocol h2 → ℕ → Step h2 (Unit {0})
  on_ended p stream_id = elim (Dict.get stream_id p.inbound) [
    | none ↦ (ok tt, p)
    | some stream ↦ finish_stream p stream_id stream
  ]

  unfoldable pub on_event : Protocol h2 → Event → Step h2 (Unit {0})
  on_event p (request_received stream_id raw_headers) = (ok tt, on_request p stream_id raw_headers)
  on_event p (data_received stream_id body_part flow_length) =
      on_data p stream_id body_part flow_length
  on_event p (stream_ended stream_id) = on_ended p stream_id
  on_event p (stream_reset stream_id) = (
    ok tt,
    drop_stream (record p { cancelled_streams = p.cancelled_streams ++ stream_id ∷ [] }) stream_id,
  )
  on_event p (trailers_received stream_id) = (ok tt, reset_stream p stream_id protocol_error)
  on_event p window_updated = (ok tt, p)
  on_event p settings_changed = (ok tt, p)
  on_event p connection_terminated = (ok tt, record p { remote_closed = true })

  unfoldable pub on_events : List Event → Protocol h2 → Step h2 (Unit {0})
  on_events [] p = (ok tt, p)
  on_events (e ∷ es) p = and_then (on_event p e) (λ _. on_events es)

  -- One wire chunk.
  unfoldable pub on_chunk : Text → Protocol h2 → Step h2 (Unit {0})
  on_chunk wire_chunk p = elim (h2.receive_data p.connection wire_chunk) [
    | none ↦ (err connection_error, p)
    | some (events, connection) ↦
        and_then (on_events events (record p { connection = connection }))
          (λ _. capture_control_output)
  ]

  unfoldable pub on_chunks : List Text → Protocol h2 → Step h2 (Unit {0})
  on_chunks [] p = (ok tt, p)
  on_chunks (c ∷ cs) p = and_then (on_chunk c p) (λ _. on_chunks cs)

  -- The end of `receive_data`: nothing is handed out while frames wait.
  unfoldable pub hand_out : Step h2 (Unit {0}) → Step h2 (List ReadyRequest)
  unfolding live_requests
  hand_out (err e, p) = (err e, p)
  hand_out (ok _, p) = if not (is_nil p.frames.ready) then (ok [], p) else (
    ok (live_requests p.cancelled_streams p.active_streams p.ready_requests),
    record p { ready_requests = [] },
  )

  -- `receive_data`; `none` stands for fuel that ran out in `_frames.feed`, which it never does.
  unfoldable pub receive_data : Protocol h2 → Text → Option (Step h2 (List ReadyRequest))
  unfolding on_chunks hand_out on_chunk on_events on_event on_request on_data buffer_data on_ended
      finish_stream add_ready
  receive_data p bytes = elim (FrameBudget.feed p.frames bytes) [
    | none ↦ none
    | some (err _) ↦ some (err frame_error, p)
    | some (ok frames) ↦
        let taken = FrameBudget.take_ready frames p.config.reader_frame_batch_size in
        some (hand_out (on_chunks taken.0 (record p { frames = taken.1 })))
  ]
