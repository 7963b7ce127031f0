-- ===== src/App/Tests.antt =====
-- The theorems of the application's modules at concrete inputs.
use small_server.Prelude.{ℕ, ◌+◌, ◌≡◌, ◌↔◌, ◌==◌, refl, true, false, none, some, ok, err}
use small_server.Prelude.Text.{codes, text_equal}
use small_server.Transport.Acquiring.{Network, open_listener}
use small_server.App.Binding.{
  Application, Arguments, Binding, on_application, check_arguments, bind,
}
use small_server.Server.Config
use small_server.App.Configuration.{
  Accepts, check_managed, capacity_too_low, resolve_for, resolve_server_config,
  resolve_server_config-Accepts,
}
use small_server.Server.Config.{ServerConfig}
use small_server.Runtime

test_default : resolve_server_config true none true ≡ ok Config.default
unfolding resolve_for check_managed
test_default = refl

abbrev crowded : ServerConfig
crowded = record {
  limits = record Config.default.limits { max_connections = 1022 };
  managed_runtime = some Runtime.default;
}

test_crowded : resolve_server_config true (some crowded) true ≡ err capacity_too_low
unfolding resolve_for check_managed
test_crowded = refl

resolve_server_config-Accepts_example :
    (resolve_server_config false (some crowded) true ≡ ok crowded)
    ↔ ((crowded ≡ crowded) × Accepts false crowded true)
resolve_server_config-Accepts_example =
    resolve_server_config-Accepts false (some crowded) crowded true

-- A kernel whose listener cannot be bound and whose streams cannot be closed; the world counts what is
-- open.
abbrev stuck : Network ℕ
stuck = record {
  supports_wakeup_channel = true;
  is_interrupt = λ x. x == 3;
  resolve_passive_address = λ w. (none, w);
  socket_open = λ w. (ok 5, w + 1);
  socket_set_reuse_address = λ i w. (none, w);
  socket_bind = λ i w. (some 7, w);
  socket_listen = λ i w. (none, w);
  socket_setblocking = λ i w. (none, w);
  socket_peer_address = λ i w. (none, w);
  socket_close = λ i w. (some 8, w);
  create_wakeup_channel = λ w. (ok 6, w + 1);
  validate = λ i w. (none, w);
  wakeup_close = λ i w. (some 9, w);
}

abbrev one_more : Application ℕ → Application ℕ
one_more a = record a { world = a.world + 1 }

abbrev arguments : Arguments
arguments = record {
  host = codes "localhost";
  port = 8000;
  protocol = codes "http1";
  has_http2_config = false;
  http2_installed = false;
}

abbrev idle : Application ℕ
idle = record { active_invocation = none; world = 0 }

abbrev attempted : Binding ℕ × Application ℕ
attempted = bind (on_application stuck) 1 2 (λ a. (none, a)) (λ i a. (none, a)) arguments idle

test_attempted : attempted.1 ≡ record { active_invocation = some 1; world = 1 }
unfolding bind check_arguments open_listener text_equal
test_attempted = refl
