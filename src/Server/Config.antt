-- ===== src/Server/Config.antt =====
-- `ServerConfig` of smallserver/server.py. An argument is a Python value, since the constructor tests
-- its type.
use small_server.Prelude.{ℕ, zero, suc, Option, none, some, Result, ok, err, ◌>>=◌}
use small_server.Runtime.{
  Value, int, negative, bool, text, object, ConfigError, value_error, type_error,
  ManagedRuntimeConfig,
}

-- The argument `managed_runtime`.
pub data ManagedRuntime : Type 0 where
  managed : ManagedRuntimeConfig → ManagedRuntime
  unset other_type : ManagedRuntime

-- A value for each limit, in the constructor's order.
pub record Limits (V : Type 0) : Type 0 where
  pub max_connections : V
  pub max_header_bytes : V
  pub max_header_count : V
  pub max_body_bytes : V
  pub receive_chunk_bytes : V
  pub listener_priority : V
  pub connection_priority : V
  pub accept_batch_size : V
  pub max_request_target_bytes : V
  pub max_route_error_events : V

pub record ServerConfig : Type 0 where
  pub limits : Limits ℕ
  pub managed_runtime : Option ManagedRuntimeConfig

abbrev pub default : ServerConfig
default = record {
  limits = record {
    max_connections = 100;
    max_header_bytes = 16384;
    max_header_count = 100;
    max_body_bytes = 1048576;
    receive_chunk_bytes = 8192;
    listener_priority = 1;
    connection_priority = 2;
    accept_batch_size = 16;
    max_request_target_bytes = 8192;
    max_route_error_events = 16;
  };
  managed_runtime = none;
}

abbrev pub positive_integer : Value → Result ConfigError ℕ
positive_integer (int zero) = err value_error
positive_integer (int (suc n)) = ok (suc n)
positive_integer (negative n) = err value_error
positive_integer (bool b) = err value_error
positive_integer (text t) = err value_error
positive_integer object = err value_error

abbrev pub managed_config : ManagedRuntime → Result ConfigError (Option ManagedRuntimeConfig)
managed_config (managed c) = ok (some c)
managed_config unset = ok none
managed_config other_type = err type_error

-- `__post_init__`
unfoldable pub post_init : Limits Value → ManagedRuntime → Result ConfigError ServerConfig
post_init a m = positive_integer a.max_connections >>= λ max_connections.
    positive_integer a.max_header_bytes >>= λ max_header_bytes.
    positive_integer a.max_header_count >>= λ max_header_count.
    positive_integer a.max_body_bytes >>= λ max_body_bytes.
    positive_integer a.receive_chunk_bytes >>= λ receive_chunk_bytes.
    positive_integer a.listener_priority >>= λ listener_priority.
    positive_integer a.connection_priority >>= λ connection_priority.
    positive_integer a.accept_batch_size >>= λ accept_batch_size.
    positive_integer a.max_request_target_bytes >>= λ max_request_target_bytes.
    positive_integer a.max_route_error_events >>= λ max_route_error_events.
    managed_config m >>= λ managed_runtime. ok (record {
      limits = record {
        max_connections = max_connections;
        max_header_bytes = max_header_bytes;
        max_header_count = max_header_count;
        max_body_bytes = max_body_bytes;
        receive_chunk_bytes = receive_chunk_bytes;
        listener_priority = listener_priority;
        connection_priority = connection_priority;
        accept_batch_size = accept_batch_size;
        max_request_target_bytes = max_request_target_bytes;
        max_route_error_events = max_route_error_events;
      };
      managed_runtime = managed_runtime;
    })
