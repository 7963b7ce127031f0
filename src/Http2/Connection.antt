-- ===== src/Http2/Connection.antt =====
-- What smallserver/http2.py uses of hyper-h2's `H2Connection`. The library is not part of the
-- repository: its connection is a parameter of the model, with any behaviour.
use small_server.Prelude.{ℕ, Bool, Option, List}
use small_server.Prelude.Text.{Text}

pub data ErrorCode : Type 0 where
  protocol_error refused_stream enhance_your_calm stream_closed internal_error : ErrorCode

-- The events that `receive_data` tells apart.
pub data Event : Type 0 where
  request_received : ℕ → List (Text × Text) → Event
  data_received : ℕ → Text → ℕ → Event
  stream_ended stream_reset trailers_received : ℕ → Event
  window_updated settings_changed connection_terminated : Event

-- A call that may raise returns `none`, or the flag `false` where the code goes on with the
-- connection as the call left it. The window is max(0, local_flow_control_window).
pub record H2 : Type 1 where
  pub Connection : Type 0
  pub initiate_connection : Connection → Connection
  pub data_to_send : Connection → Text × Connection
  pub receive_data : Connection → Text → Option (List Event × Connection)
  pub acknowledge_received_data : Connection → ℕ → ℕ → Option Connection
  pub reset_stream : Connection → ℕ → ErrorCode → Bool × Connection
  pub send_headers : Connection → ℕ → List (Text × Text) → Bool → Bool × Connection
  pub local_flow_control_window : Connection → ℕ → Option ℕ
  pub max_outbound_frame_size : Connection → ℕ
  pub send_data : Connection → ℕ → Text → Bool → Bool × Connection
  pub close_connection : Connection → ℕ → ℕ → Bool × Connection
