-- ===== src/Http2/Protocol/Tests.antt =====
-- The theorems on `H2Protocol` at a small connection.
use small_server.Prelude.{ℕ, ◌+◌, ◌≡◌, refl, true, none, some, List, [], ◌∷◌, arith}
use small_server.Prelude.Text.{codes}
use small_server.Prelude.Dict
use small_server.Prelude.Dict.{nat_eq}
use small_server.Http.Headers.{empty}
use small_server.Http.Response.{Response}
use small_server.Http2.Config.{default}
use small_server.Http2.Connection.{H2, Event, request_received, data_received, stream_ended}
use small_server.Http2.Protocol.{
  OutboundStream, Protocol, response, init, drop_stream, capture_control_output,
}
use small_server.Http2.Protocol.Input.{on_events}
use small_server.Http2.Protocol.Output.{
  pump_stream, send_chunk, after_send, queue_response, run_command,
}
use small_server.Http2.Protocol.Accounting.{Inv, drop_stream-Inv, capture_control_output-Inv}
use small_server.Http2.Protocol.Events.{on_events-Inv}
use small_server.Http2.Protocol.Pumping.{pump_stream-Inv}
use small_server.Http2.Protocol.Writing.{queue_response-Inv, run_command-Inv}

-- A connection that counts the calls of `data_to_send` and takes everything.
abbrev counting : H2
counting = record {
  Connection = ℕ;
  initiate_connection = λ n. n;
  data_to_send = λ n. (n ∷ [], n + 1);
  receive_data = λ n _. some ([], n);
  acknowledge_received_data = λ n _ _. some n;
  reset_stream = λ n _ _. (true, n);
  send_headers = λ n _ _ _. (true, n);
  local_flow_control_window = λ _ _. some 65535;
  max_outbound_frame_size = λ _. 16384;
  send_data = λ n _ _ _. (true, n);
  close_connection = λ n _ _. (true, n);
}

abbrev start : Protocol counting
start = init default 0

start-Inv : Inv 0 start
start-Inv = record {
  buffered = refl;
  pending = refl;
  streams_le = omega arith;
  buffered_le = omega arith;
  control_le = omega arith;
  output_le = omega arith;
}

abbrev events : List Event
events =
    request_received 1 (
      (codes ":method", codes "POST")
      ∷ (codes ":scheme", codes "http")
      ∷ (codes ":path", codes "/")
      ∷ (codes ":authority", codes "a")
      ∷ [])
    ∷ data_received 1 (codes "body") 4
    ∷ stream_ended 1
    ∷ []

abbrev answer : Response
answer = record { body = codes "hello"; status = 200; headers = empty }

-- A connection with one stream, whose answer is queued or under way.
abbrev queued : Protocol counting
queued = record start {
  active_streams = 1 ∷ [];
  commands = response 1 answer ∷ [];
  pending_output_bytes = 5;
}

queued-Inv : Inv 0 queued
queued-Inv = record {
  buffered = refl;
  pending = refl;
  streams_le = omega arith;
  buffered_le = omega arith;
  control_le = omega arith;
  output_le = omega arith;
}

abbrev active : Protocol counting
active = record start { active_streams = 1 ∷ [] }

active-Inv : Inv 0 active
active-Inv = record {
  buffered = refl;
  pending = refl;
  streams_le = omega arith;
  buffered_le = omega arith;
  control_le = omega arith;
  output_le = omega arith;
}

abbrev answering : Protocol counting
answering = record queued { commands = [] }

answering-Inv : Inv 5 answering
answering-Inv = record {
  buffered = refl;
  pending = refl;
  streams_le = omega arith;
  buffered_le = omega arith;
  control_le = omega arith;
  output_le = omega arith;
}

no_outbound : Dict.get 1 answering.outbound ≡ none
unfolding Dict.get
no_outbound = refl

on_events-Inv_example : Inv 0 (on_events events start).1
on_events-Inv_example = on_events-Inv 0 events start (omega arith, tt) start-Inv tt

drop_stream-Inv_example : Inv 0 (drop_stream queued 1)
drop_stream-Inv_example = drop_stream-Inv 0 queued 1 queued-Inv

capture_control_output-Inv_example : Inv 0 (capture_control_output queued).1
capture_control_output-Inv_example = capture_control_output-Inv 0 queued queued-Inv

queue_response-Inv_example : Inv 0 (queue_response active 1 answer).1
queue_response-Inv_example = queue_response-Inv active 1 answer active-Inv

run_command-Inv_example : Inv 0 (run_command (response 1 answer) answering).1
run_command-Inv_example = run_command-Inv 0 answering (response 1 answer) no_outbound answering-Inv

-- A stream whose response is under way.
abbrev under_way : OutboundStream
under_way = record { body = codes "hello"; offset = 2 }

abbrev sending : Protocol counting
sending = record start {
  active_streams = 1 ∷ [];
  outbound = (1, under_way) ∷ [];
  pending_output_bytes = 3;
}

sending-Inv : Inv 0 sending
sending-Inv = record {
  buffered = refl;
  pending = refl;
  streams_le = omega arith;
  buffered_le = omega arith;
  control_le = omega arith;
  output_le = omega arith;
}

found_under_way : Dict.get 1 sending.outbound ≡ some under_way
unfolding Dict.get
found_under_way = refl

test_pumped : (pump_stream (1, under_way) [] sending).1.outbound ≡ []
unfolding pump_stream send_chunk after_send Dict.get Dict.put Dict.remove
test_pumped = refl

pump_stream-Inv_example : Inv 0 (pump_stream (1, under_way) [] sending).1
pump_stream-Inv_example = pump_stream-Inv 0 sending 1 under_way [] found_under_way sending-Inv
