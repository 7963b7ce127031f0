-- ===== src/Http2/Protocol.antt =====
-- `H2Protocol` of smallserver/http2.py: the state of one connection, and the operations that give
-- up a stream. Reading is in Protocol/Input, writing in Protocol/Output.
pub mod Input
pub mod Output
pub mod Accounting
pub mod Reading
pub mod Events
pub mod Writing
pub mod Pumping
mod Tests
use small_server.Prelude.{
  ℕ, ◌+◌, ◌-◌, ◌≤◌, Bool, true, false, Option, none, some, List, [], ◌∷◌, ◌++◌, ltb, leb, ◌==◌,
  ◌||◌, if◌then◌else◌, length, Result, ok, err, String,
}
use small_server.Prelude.Dict
use small_server.Prelude.Dict.{Dict, nat_eq}
use small_server.Prelude.Text.{Text}
use small_server.Http.Headers.{Headers}
use small_server.Http.Request.{Request}
use small_server.Http.Response.{Response}
use small_server.Http2.Config.{Http2Config}
use small_server.Http2.Connection.{H2, ErrorCode}
use small_server.Http2.FrameBudget.{FrameBudget}
use small_server.Http2.FrameBudget

pub record ReadyRequest : Type 0 where
  pub stream_id : ℕ
  pub request : Request

-- `frozen` says that `body` is `bytes` and no longer a `bytearray`.
pub record InboundStream : Type 0 where
  pub method : Text
  pub path : Text
  pub headers : Headers
  pub body : Text
  pub expected_content_length : Option ℕ
  pub dispatched : Bool
  pub frozen : Bool

pub record OutboundStream : Type 0 where
  pub body : Text
  pub offset : ℕ

pub data Command : Type 0 where
  reset : ℕ → Command
  response : ℕ → Response → Command

pub data ProtocolError : Type 0 where
  frame_error connection_error request_error output_error : ProtocolError

pub record Protocol (h2 : H2) : Type 0 where
  pub config : Http2Config
  pub connection : H2.Connection h2
  pub frames : FrameBudget
  pub inbound : Dict ℕ InboundStream
  pub active_streams : List ℕ
  pub outbound : Dict ℕ OutboundStream
  pub commands : List Command
  pub buffered_request_bytes : ℕ
  pub pending_output_bytes : ℕ
  pub control_output : Text
  pub cancelled_streams : List ℕ
  pub ready_requests : List ReadyRequest
  pub last_processed_stream_id : ℕ
  pub remote_closed : Bool
  pub local_closed : Bool

abbrev pub init : {h2 : H2} → Http2Config → H2.Connection h2 → Protocol h2
init config connection = record {
  config = config;
  connection = connection;
  frames = FrameBudget.init config;
  inbound = [];
  active_streams = [];
  outbound = [];
  commands = [];
  buffered_request_bytes = 0;
  pending_output_bytes = 0;
  control_output = [];
  cancelled_streams = [];
  ready_requests = [];
  last_processed_stream_id = 0;
  remote_closed = false;
  local_closed = false;
}

-- What a method that may raise returns, with the state that it leaves.
abbrev pub Step : H2 → Type 0 → Type 0
Step h2 A = Result ProtocolError A × Protocol h2

abbrev pub and_then :
    {h2 : H2} {A B : Type 0} → Step h2 A → (A → Protocol h2 → Step h2 B) → Step h2 B
and_then (ok a, p) k = k a p
and_then (err e, p) k = (err e, p)

-- Without the requests of one stream.
unfoldable pub without_request : ℕ → List ReadyRequest → List ReadyRequest
without_request stream_id [] = []
without_request stream_id (item ∷ items) =
    let rest = without_request stream_id items in
    if item.stream_id == stream_id then rest else item ∷ rest

abbrev pub remaining : OutboundStream → ℕ
remaining s = length s.body - s.offset

-- The commands that `drop_stream` keeps, and the output bytes that the others held.
unfoldable pub keep_commands : ℕ → List Command → List Command × ℕ
keep_commands stream_id [] = ([], 0)
keep_commands stream_id (reset j ∷ cs) =
    let rest = keep_commands stream_id cs in (reset j ∷ rest.0, rest.1)
keep_commands stream_id (response j r ∷ cs) =
    let rest = keep_commands stream_id cs in
    if j == stream_id then (rest.0, length r.body + rest.1) else (response j r ∷ rest.0, rest.1)

module _ {h2 : H2} where
  unfoldable pub release_inbound : Protocol h2 → ℕ → Protocol h2
  release_inbound p stream_id = elim (Dict.get stream_id p.inbound) [
    | none ↦ p
    | some inbound ↦ record p {
      inbound = Dict.remove stream_id p.inbound;
      buffered_request_bytes = p.buffered_request_bytes - length inbound.body;
    }
  ]

  unfoldable pub drop_outbound : Protocol h2 → ℕ → Protocol h2
  drop_outbound p stream_id = elim (Dict.get stream_id p.outbound) [
    | none ↦ p
    | some outbound ↦ record p {
      outbound = Dict.remove stream_id p.outbound;
      pending_output_bytes = p.pending_output_bytes - remaining outbound;
    }
  ]

  unfoldable pub drop_commands : Protocol h2 → ℕ → Protocol h2
  drop_commands p stream_id =
      let kept = keep_commands stream_id p.commands in
      record p {
        commands = kept.0;
        pending_output_bytes = p.pending_output_bytes - kept.1;
        active_streams = Dict.discard stream_id p.active_streams;
      }

  unfoldable pub drop_stream : Protocol h2 → ℕ → Protocol h2
  drop_stream p stream_id =
      let released = release_inbound p stream_id in
      let unready = record released {
        ready_requests = without_request stream_id released.ready_requests;
      } in
      drop_commands (drop_outbound unready stream_id) stream_id

  -- Whether hyper-h2 raises in `reset_stream` or not, the stream is dropped.
  unfoldable pub reset_stream : Protocol h2 → ℕ → ErrorCode → Protocol h2
  reset_stream p stream_id code =
      drop_stream (record p { connection = (h2.reset_stream p.connection stream_id code).1 })
        stream_id

  abbrev pub is_stream_active : Protocol h2 → ℕ → Bool
  is_stream_active p stream_id = Dict.contains stream_id p.active_streams

  unfoldable pub capture_control_output :
      Protocol h2 → Result ProtocolError (Unit {0}) × Protocol h2
  capture_control_output p =
      let (produced, connection) = h2.data_to_send p.connection in
      let p' = record p { connection = connection } in
      let next_control_size = length p.control_output + length produced in
      if ltb p.config.max_control_output_bytes next_control_size
        || ltb p.config.max_pending_output_bytes (next_control_size + p.pending_output_bytes)
      then (err output_error, p')
      else (ok tt, record p' { control_output = p.control_output ++ produced })

  -- `_validate_wire_output`: whether it does not raise.
  abbrev pub fits_output : Protocol h2 → ℕ → ℕ → Bool
  fits_output p new_bytes already_buffered =
      leb (new_bytes + already_buffered + p.pending_output_bytes) p.config.max_pending_output_bytes

  -- The size of all output that waits.
  abbrev pub pending_output : Protocol h2 → ℕ
  pending_output p = p.pending_output_bytes + length p.control_output

  abbrev pub take_cancelled_streams : Protocol h2 → List ℕ × Protocol h2
  take_cancelled_streams p = (p.cancelled_streams, record p { cancelled_streams = [] })
