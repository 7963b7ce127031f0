-- ===== src/Http2/Config.antt =====
-- `HTTP2Config` of smallserver/http2.py. The two timeouts are floats and are left out.
use small_server.Prelude.{
  ℕ, ◌*◌, Bool, not, ◌&&◌, ◌||◌, ltb, leb, ◌==◌, if◌then◌else◌, Result, ok, err,
}

pub record Http2Config : Type 0 where
  pub max_concurrent_streams : ℕ
  pub max_header_count : ℕ
  pub max_header_bytes : ℕ
  pub max_compressed_header_bytes : ℕ
  pub max_body_bytes : ℕ
  pub max_connection_buffer_bytes : ℕ
  pub max_pending_output_bytes : ℕ
  pub max_response_body_bytes : ℕ
  pub max_control_output_bytes : ℕ
  pub max_frame_size : ℕ
  pub reader_frame_batch_size : ℕ

-- The ValueErrors of `__post_init__`, in its order.
pub data ConfigError : Type 0 where
  not_positive frame_size_range body_over_buffer response_over_output : ConfigError
  control_over_output control_below_settings : ConfigError

abbrev pub has_zero : Http2Config → Bool
has_zero c =
    c.max_concurrent_streams == 0
    || c.max_header_count == 0
    || c.max_header_bytes == 0
    || c.max_compressed_header_bytes == 0
    || c.max_body_bytes == 0
    || c.max_connection_buffer_bytes == 0
    || c.max_pending_output_bytes == 0
    || c.max_response_body_bytes == 0
    || c.max_control_output_bytes == 0
    || c.max_frame_size == 0
    || c.reader_frame_batch_size == 0

unfoldable pub relations : Http2Config → Result ConfigError (Unit {0})
relations c =
    if not (leb 16384 c.max_frame_size && leb c.max_frame_size 16777215)
    then err frame_size_range
    else if ltb c.max_connection_buffer_bytes c.max_body_bytes
    then err body_over_buffer
    else if ltb c.max_pending_output_bytes c.max_response_body_bytes
    then err response_over_output
    else if ltb c.max_pending_output_bytes c.max_control_output_bytes
    then err control_over_output
    else if ltb c.max_control_output_bytes 51
    then err control_below_settings
    else ok tt

unfoldable pub post_init : Http2Config → Result ConfigError (Unit {0})
unfolding relations
post_init c = if has_zero c then err not_positive else relations c

abbrev pub default : Http2Config
default = record {
  max_concurrent_streams = 100;
  max_header_count = 100;
  max_header_bytes = 16 * 1024;
  max_compressed_header_bytes = 16 * 1024;
  max_body_bytes = 1024 * 1024;
  max_connection_buffer_bytes = 4 * 1024 * 1024;
  max_pending_output_bytes = 4 * 1024 * 1024;
  max_response_body_bytes = 2 * 1024 * 1024;
  max_control_output_bytes = 64 * 1024;
  max_frame_size = 16 * 1024;
  reader_frame_batch_size = 32;
}
