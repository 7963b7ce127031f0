-- ===== src/Http2/Protocol/Output.antt =====
-- The writing half of `H2Protocol`: `queue_response`, `flush` and `close`.
use small_server.Prelude.{
  ℕ, ◌+◌, ◌-◌, ◌*◌, min, Bool, true, false, not, ◌&&◌, ◌||◌, none, some, List, [], ◌∷◌, ◌++◌, ltb,
  leb, ◌==◌, if◌then◌else◌, is_nil, length, take, drop, ok, err,
}
use small_server.Prelude.Decimal.{decimal}
use small_server.Prelude.Dict
use small_server.Prelude.Dict.{Dict, nat_eq}
use small_server.Prelude.Text.{Text, codes, lower}
use small_server.Http.Headers
use small_server.Http.Response.{Response}
use small_server.Http2.Connection.{H2, enhance_your_calm, internal_error}
use small_server.Http2.Protocol.{
  Protocol, Step, and_then, OutboundStream, Command, reset, response, output_error, remaining,
  release_inbound, drop_stream, reset_stream, capture_control_output, fits_output,
}
use small_server.Http2.RequestHeaders.{is_member, forbidden_headers, utf8_length}

abbrev pub command_stream : Command → ℕ
command_stream (reset j) = j
command_stream (response j r) = j

unfoldable pub has_command : ℕ → List Command → Bool
has_command stream_id [] = false
has_command stream_id (c ∷ cs) = command_stream c == stream_id || has_command stream_id cs

-- The response's own headers, in lower case, without those that HTTP/2 forbids.
unfoldable pub wire_headers : List (Text × Text) → List (Text × Text)
unfolding is_member
wire_headers [] = []
wire_headers ((name, value) ∷ hs) =
    let rest = wire_headers hs in
    if is_member (lower name) (codes "te" ∷ forbidden_headers)
    then rest
    else (lower name, value) ∷ rest

unfoldable pub response_headers : Response → List (Text × Text)
unfolding wire_headers decimal
response_headers r =
    (codes ":status", decimal r.status) ∷ wire_headers (Headers.items r.headers)
    ++ (elim (Headers.get r.headers (codes "content-length")) [
      | none ↦ (codes "content-length", decimal (length r.body)) ∷ []
      | some _ ↦ []
    ])

unfoldable pub header_size : List (Text × Text) → ℕ
unfolding utf8_length
header_size [] = 0
header_size ((name, value) ∷ hs) = utf8_length name + utf8_length value + 32 + header_size hs

module _ {h2 : H2} where
  -- `queue_response` behind the release of the request.
  unfoldable pub queue_released : Protocol h2 → ℕ → Response → Bool × Protocol h2
  queue_released p stream_id r =
      let body_size = length r.body in
      if ltb p.config.max_response_body_bytes body_size
        || ltb p.config.max_pending_output_bytes
            (length p.control_output + p.pending_output_bytes + body_size)
      then (
        false,
        if has_command stream_id p.commands
            then p
            else record p { commands = p.commands ++ reset stream_id ∷ [] },
      )
      else if leb (p.config.max_concurrent_streams * 2) (length p.commands)
      then (false, reset_stream p stream_id enhance_your_calm)
      else (
        true,
        record p {
          pending_output_bytes = p.pending_output_bytes + body_size;
          commands = p.commands ++ response stream_id r ∷ [];
        },
      )

  unfoldable pub queue_response : Protocol h2 → ℕ → Response → Bool × Protocol h2
  queue_response p stream_id r =
      if not (Dict.contains stream_id p.active_streams)
      then (false, p)
      else queue_released (release_inbound p stream_id) stream_id r

  -- `_start_response`
  unfoldable pub start_response : Protocol h2 → ℕ → Response → Protocol h2
  start_response p stream_id r =
      let hs = response_headers r in
      let unqueued = record p { pending_output_bytes = p.pending_output_bytes - length r.body } in
      let (sent, connection) = h2.send_headers p.connection stream_id hs (is_nil r.body) in
      if ltb p.config.max_header_bytes (header_size hs)
      then reset_stream unqueued stream_id internal_error
      else if not sent
      then drop_stream (record unqueued { connection = connection }) stream_id
      else if is_nil r.body
      then record p {
        connection = connection;
        active_streams = Dict.discard stream_id p.active_streams;
      }
      else record p {
        connection = connection;
        outbound = Dict.put stream_id (record { body = r.body; offset = 0 }) p.outbound;
      }

  unfoldable pub run_command : Command → Protocol h2 → Step h2 (Unit {0})
  run_command (reset stream_id) p =
      capture_control_output (reset_stream p stream_id enhance_your_calm)
  run_command (response stream_id r) p = capture_control_output (start_response p stream_id r)

  unfoldable pub run_commands : List Command → Protocol h2 → Step h2 (Unit {0})
  run_commands [] p = (ok tt, p)
  run_commands (c ∷ cs) p = and_then (run_command c p) (λ _. run_commands cs)

  abbrev pub end_outbound : Protocol h2 → ℕ → Protocol h2
  end_outbound p stream_id = record p {
    outbound = Dict.remove stream_id p.outbound;
    active_streams = Dict.discard stream_id p.active_streams;
  }

  -- A chunk that hyper-h2 has taken: what it makes of it goes to the output.
  unfoldable pub after_send : Protocol h2 → ℕ → OutboundStream → ℕ → Text → Step h2 Text
  after_send p stream_id outbound chunk_size output =
      let (generated, connection) = h2.data_to_send p.connection in
      let p' = record p {
        connection = connection;
        outbound =
            Dict.put stream_id (record outbound { offset = outbound.offset + chunk_size })
              p.outbound;
        pending_output_bytes = p.pending_output_bytes - chunk_size;
      } in
      if not (fits_output p' (length generated) (length output)) then (err output_error, p') else (
        ok (output ++ generated),
        if chunk_size == remaining outbound then end_outbound p' stream_id else p',
      )

  unfoldable pub send_chunk : Protocol h2 → ℕ → OutboundStream → ℕ → Text → Step h2 Text
  send_chunk p stream_id outbound chunk_size output =
      let chunk = take chunk_size (drop outbound.offset outbound.body) in
      let (sent, connection) =
        h2.send_data p.connection stream_id chunk (chunk_size == remaining outbound) in
      let p' = record p { connection = connection } in
      if chunk_size == 0
      then (ok output, p)
      else if not sent
      then (ok output, drop_stream p' stream_id)
      else after_send p' stream_id outbound chunk_size output

  -- One turn of the loop over the outbound streams.
  unfoldable pub pump_stream : ℕ × OutboundStream → Text → Protocol h2 → Step h2 Text
  pump_stream (stream_id, outbound) output p =
      if remaining outbound == 0
      then (ok output, end_outbound p stream_id)
      else elim (h2.local_flow_control_window p.connection stream_id) [
        | none ↦ (ok output, drop_stream p stream_id)
        | some window ↦
            send_chunk p stream_id outbound
              (min (remaining outbound) (min window (h2.max_outbound_frame_size p.connection)))
              output
      ]

  unfoldable pub pump_streams : List (ℕ × OutboundStream) → Text → Protocol h2 → Step h2 Text
  pump_streams [] output p = (ok output, p)
  pump_streams (s ∷ ss) output p = and_then (pump_stream s output p) (pump_streams ss)

  unfoldable pub last_bytes : Text → Protocol h2 → Step h2 Text
  last_bytes output p =
      let (generated, connection) = h2.data_to_send p.connection in
      let p' = record p { connection = connection } in
      if not (fits_output p' (length generated) (length output))
      then (err output_error, p')
      else (ok (output ++ generated), p')

  -- `flush` behind the commands.
  unfoldable pub flush_streams : Step h2 (Unit {0}) → Step h2 Text
  flush_streams (err e, p) = (err e, p)
  flush_streams (ok _, p) =
      and_then (pump_streams p.outbound p.control_output (record p { control_output = [] }))
        last_bytes

  unfoldable pub flush : Protocol h2 → Step h2 Text
  unfolding run_commands run_command start_response flush_streams pump_streams pump_stream
      send_chunk after_send last_bytes
  flush p = flush_streams (run_commands p.commands (record p { commands = [] }))

  -- The first half of `close`.
  unfoldable pub close_locally : Protocol h2 → ℕ → Protocol h2
  close_locally p error_code = if p.local_closed then p else record p {
    local_closed = true;
    connection = (h2.close_connection p.connection error_code p.last_processed_stream_id).1;
  }

  unfoldable pub close : Protocol h2 → ℕ → Text × Protocol h2
  close p error_code =
      let closed = close_locally p error_code in
      let (generated, connection) = h2.data_to_send closed.connection in
      let p' = record closed {
        connection = connection;
        inbound = [];
        outbound = [];
        commands = [];
        ready_requests = [];
        active_streams = [];
        buffered_request_bytes = 0;
        pending_output_bytes = 0;
        control_output = [];
      } in
      let size = length p.control_output + length generated in
      (
        if fits_output p' (length generated) (length p.control_output)
              && leb size p.config.max_control_output_bytes
            then p.control_output ++ generated
            else [],
        p',
      )
